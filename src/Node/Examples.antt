-- ===== src/Node/Examples.antt =====
-- The server process at concrete events.
use cluster_chatroom_project.Prelude.{ℕ, ◌≡◌, refl, inr, true, some, none, List, [], ◌∷◌, codes}
use cluster_chatroom_project.Prelude.Int.{pos}
use cluster_chatroom_project.Json.Sample.{Value, field, int, text, null, write, sample}
use cluster_chatroom_project.Frame.{encode, next_frame}
use cluster_chatroom_project.Service.{find_conn}
use cluster_chatroom_project.Service.Table.{IsTable}
use cluster_chatroom_project.Service.Dispatch.{run_message}
use cluster_chatroom_project.Service.Examples.{outside, node}
use cluster_chatroom_project.Service.Evolves.{Comes, Grows, StaysLost}
use cluster_chatroom_project.Service.Evolves.Whole.{Admits, run_message-Admits}
use cluster_chatroom_project.Node.{
  Event, opens, reads, closes, notified, interrupted, Node, start, start_service, run,
}
use cluster_chatroom_project.Node.Runs.{Settled, Entered, run_total}

-- A login as user eve.
abbrev entering : Value
entering =
    field (codes "msgid") (int (pos 1))
      (field (codes "name") (text (codes "eve")) (field (codes "password") (text []) null))

-- Connection 80 sends a frame in two pieces, and another that cannot be.
abbrev day : List Event
day =
    opens 80
    ∷ reads 80 1000 (0 ∷ 0 ∷ [])
    ∷ reads 80 1001 (encode (write entering))
    ∷ notified (record { integer_field = pos 7; str = none })
        (some (record { integer_field = pos 0; str = some (codes "hi") }))
    ∷ closes 80
    ∷ interrupted
    ∷ []

abbrev new_process : Node ℕ
new_process = start (start_service true true true 0)

process-Settled : Settled new_process
unfolding next_frame
process-Settled c = inr refl

run_total_example :
    (last : Node ℕ) × (run outside sample day new_process ≡ some last)
    × IsTable last.machine.conns
    × Comes (Entered outside sample new_process day) new_process.machine.conns last.machine.conns
    × Grows new_process.machine last.machine
    × StaysLost new_process.machine last.machine
    × Settled last
unfolding start_service
run_total_example = run_total outside sample day new_process tt process-Settled

run_message-Admits_example :
    let m' = (run_message outside sample 80 1000 (pos 1) entering node).0 in
    IsTable m'.conns
    × Comes (Admits outside sample node.world 80 (pos 1) entering) node.conns m'.conns
    × Grows node m'
    × StaysLost node m'
unfolding find_conn
run_message-Admits_example =
    run_message-Admits outside sample 80 1000 (pos 1) entering node (refl, tt)
