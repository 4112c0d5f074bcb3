-- ===== src/Client/Examples.antt =====
-- The theorems on the client at concrete inputs.
use cluster_chatroom_project.Prelude.{
  ℕ, ◌+◌, ◌<◌, ◌≡◌, refl, true, some, none, List, [], ◌∷◌, ◌++◌, Bytes, codes, All, String, arith,
}
use cluster_chatroom_project.Prelude.Int.{pos}
use cluster_chatroom_project.Json.Sample.{
  Value, field, int, null, text, item, write, sample, numbered,
}
use cluster_chatroom_project.Frame.{encode}
use cluster_chatroom_project.Frame.Server.{Served}
use cluster_chatroom_project.Frame.Server as Server
use cluster_chatroom_project.Orderer.Channel.{
  u64, expire, flush, receive, accept, begin, put, deliver, drain_loop, drain_pending, start_gap,
  trim, release_first,
}
use cluster_chatroom_project.Orderer.Conversations.{
  channel, set_channel, each, tick, flush_all, stamp, dispatch, on_message, on_messages,
  on_offline_batch,
}
use cluster_chatroom_project.Orderer.Invariant.{Ascending}
use cluster_chatroom_project.Orderer.Projection.{key, shown}
use cluster_chatroom_project.Orderer.Session.{start, IsPlausibleInput}
use cluster_chatroom_project.Service.{Machine}
use cluster_chatroom_project.Database.{User, no_user}
use cluster_chatroom_project.Service.Dispatch.{run_message}
use cluster_chatroom_project.Service.Examples.{outside, node}
use cluster_chatroom_project.Client.{Client, object, assign}
use cluster_chatroom_project.Client.Commands.{sends, chat_fields, menu_line}
use cluster_chatroom_project.Client.Line.{typed, chat_name}
use cluster_chatroom_project.Client.Chat.{Forwards, menu_line-Forwards}
use cluster_chatroom_project.Conversation.Decimal.{to_string}
use cluster_chatroom_project.Client.Receive.{
  render_all, render, int_field, text_field, read_bodies, read_body, take_parsed, take_message,
  message_type,
}
use cluster_chatroom_project.Client.Login.{
  entered, refused, take_login, enter, texts_or, take_offline, parsed,
}
use cluster_chatroom_project.Client.Screen.{IsPlausibleBody}
use cluster_chatroom_project.Client.Session.{batch_inputs, stored, session-Ascending}

abbrev pub me : User
me = record no_user { id = pos 7; name = codes "ann"; state = codes "online" }

abbrev pub said : Value
said = field (codes "time") (text (codes "10:00")) (
    field (codes "msg") (text (codes "hi: you")) (
      field (codes "toid") (int (pos 5)) (
        field (codes "name") (text (codes "ann"))
          (field (codes "id") (int (pos 7)) (field (codes "msgid") (int (pos 6)) null)))))

pub said_eq :
    object sample (chat_fields sample me (codes "10:00") (pos 5) (codes "hi: you")) ≡ some said
unfolding object assign chat_fields
said_eq = refl

menu_line-Forwards_example :
    let fields = chat_fields sample me (codes "10:00") (pos 5) (codes "hi: you") in
    (menu_line sample me (codes "10:00") (typed chat_name (pos 5) (codes "hi: you")) ≡ sends fields)
    × (sample.find said (codes "msg") ≡ some (text (codes "hi: you")))
    × ((s : Served (Machine ℕ)) × (Server.on_message sample
            (run_message outside sample 70 1000)
            (encode (write said))
            node
          ≡ some s)
        × Forwards outside sample 1000 (pos 7) (pos 5) said node s)
menu_line-Forwards_example =
    menu_line-Forwards outside sample me (codes "10:00") (codes "hi: you") (write said) (pos 5) 70
      1000 said node (omega arith) said_eq refl (omega arith, omega arith)

abbrev pub nobody : Client Value
nobody = record {
  user = no_user;
  friends = [];
  groups = [];
  orderer = start sample 800;
  running = true;
}

abbrev numbered_chat : String → ℕ → Value
numbered_chat conv seq = field (codes "msgid") (int (pos 6)) (
    field (codes "time") (text (codes "10:00")) (
      field (codes "id") (int (pos 5)) (
        field (codes "name") (text (codes "eve"))
          (field (codes "msg") (text (codes "hi")) (numbered conv seq)))))

abbrev pub response : Bytes
response = write (
    field (codes "offlinemsg") (item (write (numbered "p5_7" 3)) (item (codes "broken") null)) (
      field (codes "name") (text (codes "ann"))
        (field (codes "id") (int (pos 7)) (field (codes "errno") (int (pos 0)) null))))

abbrev bodies : List (ℕ × ℕ × Bytes)
bodies = (30, 31, write (numbered_chat "p5_7" 5)) ∷ (40, 41, write (numbered_chat "p5_7" 4)) ∷ []

-- The client when it has entered, and when it has read the frames.
pub after_login : Client Value
unfolding take_login enter int_field text_field texts_or take_offline parsed on_offline_batch
    on_messages on_message stamp dispatch channel set_channel each flush flush_all receive accept
    begin put deliver drain_loop drain_pending start_gap trim release_first render_all render
    message_type to_string
after_login = elim (take_login sample (λ i. 10 + i) 20 response nobody) [
  | none ↦ nobody
  | some (entered c out) ↦ c
  | some (refused t) ↦ nobody
]

after_frames : Client Value
unfolding after_login read_bodies read_body take_parsed take_message tick expire
after_frames = elim (read_bodies sample bodies after_login) [ none ↦ nobody | some (c, out) ↦ c ]

pub login_run :
    take_login sample (λ i. 10 + i) 20 response nobody
    ≡ some (entered after_login (numbered "p5_7" 3 ∷ []))
unfolding after_login
login_run = refl

frames_run :
    read_bodies sample bodies after_login
    ≡ some (after_frames, numbered_chat "p5_7" 4 ∷ numbered_chat "p5_7" 5 ∷ [])
unfolding after_frames
frames_run = refl

numbered-key : (conv : String) (n : ℕ) → key sample (numbered conv n) ≡ some (codes conv, n)
unfolding key stamp
numbered-key conv n = refl

numbered_chat-key :
    (conv : String) (n : ℕ) → key sample (numbered_chat conv n) ≡ some (codes conv, n)
unfolding key stamp
numbered_chat-key conv n = refl

response-IsPlausible :
    All (IsPlausibleInput sample) (batch_inputs sample (λ i. 10 + i) 20 (stored sample response))
unfolding parsed
response-IsPlausible =
    ((omega arith, λ c s e. ground (arith, numbered-key "p5_7" 3)), (omega arith, tt))

numbered_chat-IsPlausible :
    (now n : ℕ)
    → 0 < now
    → n + 1 < u64
    → IsPlausibleBody sample (now, now + 1, write (numbered_chat "p5_7" n))
numbered_chat-IsPlausible now n h l = (
  h,
  omega arith,
  λ js d s e k. ground (
    arith,
    numbered_chat-key "p5_7" n,
    sample.parse-dump (numbered_chat "p5_7" n) (write (numbered_chat "p5_7" n)) refl,
    e,
    k,
  ),
)

session-Ascending_example :
    Ascending 0
      (shown sample
        (codes "p5_7")
        ((numbered "p5_7" 3 ∷ []) ++ numbered_chat "p5_7" 4 ∷ numbered_chat "p5_7" 5 ∷ []))
      (channel (codes "p5_7") after_frames.orderer.channels).expect
session-Ascending_example =
    session-Ascending sample (codes "p5_7") 800 (λ i. 10 + i) 20 response bodies nobody after_login
      (numbered "p5_7" 3 ∷ []) (after_frames, numbered_chat "p5_7" 4 ∷ numbered_chat "p5_7" 5 ∷ [])
      refl login_run frames_run response-IsPlausible
      (
        numbered_chat-IsPlausible 30 5 (omega arith) (omega arith),
        (numbered_chat-IsPlausible 40 4 (omega arith) (omega arith), tt),
      )
