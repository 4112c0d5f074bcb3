-- ===== src/Client/Clock/Examples.antt =====
-- A time as it is written.
use cluster_chatroom_project.Prelude.{◌+◌, ◌≤◌, ◌≡◌, refl, codes, length, arith}
use cluster_chatroom_project.Conversation.Decimal.{to_string}
use cluster_chatroom_project.Client.Clock.{Tm, two_digits, current_time, current_time-length}

abbrev new_year : Tm
new_year = record { tm_year = 125; tm_mon = 0; tm_mday = 1; tm_hour = 9; tm_min = 5; tm_sec = 60 }

new_year_text : current_time new_year ≡ codes "2025-01-01 09:05:60"
unfolding current_time two_digits to_string
new_year_text = refl

current_time-length_example : length (current_time new_year) + 1 ≤ 60
current_time-length_example =
    current_time-length new_year (omega arith) (omega arith) (omega arith) (omega arith)
      (omega arith) (omega arith)
