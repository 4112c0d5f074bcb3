-- ===== src/Client/Menu/Examples.antt =====
-- The loop before the main menu at concrete turns.
use cluster_chatroom_project.Prelude.{◌+◌, ◌≡◌, refl, some, none, List, [], ◌∷◌, codes}
use cluster_chatroom_project.Prelude.Int.{pos}
use cluster_chatroom_project.Json.Sample.{Value, field, int, null, text, write, sample, numbered}
use cluster_chatroom_project.Frame.{encode, be32}
use cluster_chatroom_project.Client.{object, assign, send_frame, send_loop}
use cluster_chatroom_project.Client.Login.{account_fields}
use cluster_chatroom_project.Client.Menu.{Turn, inside, ask, choose, turn, main_loop}
use cluster_chatroom_project.Client.Menu.Loop.{Ends, main_loop-Ends}
use cluster_chatroom_project.Client.Examples.{nobody, response, after_login, login_run}

-- What is no number; a choice that there is not; a login.
abbrev idle : Turn
idle = record {
  choice = none;
  name = [];
  password = [];
  results = [];
  response = none;
  clock = λ i. i;
  now = 1;
}

abbrev typing : Turn
typing = record {
  choice = some (pos 1);
  name = codes "ann";
  password = codes "pw";
  results = pos 7 ∷ pos 100 ∷ [];
  response = some response;
  clock = λ i. 10 + i;
  now = 20;
}

abbrev turns : List Turn
turns = idle ∷ record idle { choice = some (pos 8) } ∷ typing ∷ idle ∷ []

abbrev request : Value
request =
    field (codes "password") (text (codes "pw"))
      (field (codes "name") (text (codes "ann")) (field (codes "msgid") (int (pos 1)) null))

turns_run :
    main_loop sample turns nobody
    ≡ some (inside after_login (numbered "p5_7" 3 ∷ []), encode (write request))
unfolding main_loop turn choose ask send_frame send_loop encode be32 account_fields object assign
turns_run = rw login_run refl

main_loop-Ends_example :
    Ends sample turns nobody after_login (numbered "p5_7" 3 ∷ []) (encode (write request))
main_loop-Ends_example =
    main_loop-Ends sample turns nobody after_login (numbered "p5_7" 3 ∷ []) (encode (write request))
      turns_run
