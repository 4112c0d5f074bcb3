-- ===== src/Client/Render/Shown/Examples.antt =====
-- A client that waits for the message.
use cluster_chatroom_project.Prelude.{◌+◌, ◌%◌, ◌≡◌, refl, true, inl, some, [], ◌∷◌, codes, arith}
use cluster_chatroom_project.Prelude.Int.{pos}
use cluster_chatroom_project.Json.Sample.{Value, write, sample}
use cluster_chatroom_project.Orderer.Channel.{u64, Channel, expire}
use cluster_chatroom_project.Orderer.Invariant.{Inv}
use cluster_chatroom_project.Orderer.Conversations.{channel, tick, each}
use cluster_chatroom_project.Service.Examples.{outside, node}
use cluster_chatroom_project.Client.{Client}
use cluster_chatroom_project.Client.Commands.{sends, chat_fields, menu_line}
use cluster_chatroom_project.Client.Line.{typed, chat_name}
use cluster_chatroom_project.Client.Receive.{read_body, render}
use cluster_chatroom_project.Client.Examples.{nobody, me, said, said_eq}
use cluster_chatroom_project.Client.Render.{line_of}
use cluster_chatroom_project.Client.Render.Examples.{stamped, said-Numbered}
use cluster_chatroom_project.Client.Render.Shown.{menu_line-shown}

-- Its next message of the conversation is that one.
abbrev next_one : Channel Value
next_one = record {
  initialized = true;
  expect = said-Numbered.number;
  pending = [];
  delivered = [];
  gap_since = 0;
}

abbrev reader : Client Value
reader = record nobody {
  orderer = record { channels = (codes "p5_7", next_one) ∷ []; gap_timeout = 800 };
}

reader_channel : channel (codes "p5_7") reader.orderer.channels ≡ next_one
unfolding channel
reader_channel = refl

next_one-Inv : Inv next_one
next_one-Inv = record { ahead = tt; behind = tt; begun = inl refl; timed = inl refl }

menu_line-shown_example :
    (c' : Client Value) × (menu_line sample me
        (codes "10:00")
        (typed chat_name (pos 5) (codes "hi: you"))
      ≡ sends (chat_fields sample me (codes "10:00") (pos 5) (codes "hi: you")))
    × (read_body sample 50 51 (write (stamped (codes "p5_7") said)) reader
        ≡ some (c', said-Numbered.message ∷ []))
    × (render sample said-Numbered.message
        ≡ some (
            line_of
              (codes "10:00")
              said-Numbered.number
              (1 ∷ 7 ∷ [])
              (codes "ann")
              []
              (codes "hi: you")))
    × ((channel (codes "p5_7") c'.orderer.channels).expect ≡ (said-Numbered.number + 1) % u64)
unfolding channel tick each expire
menu_line-shown_example =
    menu_line-shown sample outside (codes "p5_7") (write (stamped (codes "p5_7") said)) node said me
      (codes "10:00") (codes "hi: you") (1 ∷ 7 ∷ []) (pos 5) 50 51 reader (omega arith) refl said_eq
      said-Numbered refl next_one-Inv refl refl refl
