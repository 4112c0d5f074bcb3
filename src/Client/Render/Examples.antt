-- ===== src/Client/Render/Examples.antt =====
-- A typed message as it is shown.
use cluster_chatroom_project.Prelude.{◌≡◌, refl, some, [], ◌∷◌, ◌++◌, Bytes, codes, arith}
use cluster_chatroom_project.Prelude.Int.{pos}
use cluster_chatroom_project.Conversation.Decimal.{to_string}
use cluster_chatroom_project.Json.Sample.{Value, field, int, null, text, write, sample}
use cluster_chatroom_project.Redis.{incr_seq, replied}
use cluster_chatroom_project.Service.Numbering.{asked, Numbered, fields-Numbered}
use cluster_chatroom_project.Service.Examples.{outside, node}
use cluster_chatroom_project.Client.Commands.{sends, groupchat_fields, menu_line}
use cluster_chatroom_project.Client.{object, assign}
use cluster_chatroom_project.Client.Line.{typed, groupchat_name}
use cluster_chatroom_project.Client.Receive.{render}
use cluster_chatroom_project.Client.Examples.{me, said}
use cluster_chatroom_project.Client.Render.{line_of, menu_line-render_group}

-- A message with what the server adds.
abbrev named : Bytes → Value → Value
named conv js = field (codes "convid") (text conv) js

abbrev counted : Bytes → Value → Value
counted conv js = field (codes "seq") (int (pos 1)) (named conv js)

abbrev pub stamped : Bytes → Value → Value
stamped conv js = field (codes "msgts") (int (pos 1)) (counted conv js)

first : (conv : Bytes) → 1 ≡ (incr_seq conv (asked outside sample conv node).1 node.redis).1
unfolding incr_seq replied
first conv = refl

pub said-Numbered :
    Numbered outside sample (codes "p5_7") node said (write (stamped (codes "p5_7") said))
said-Numbered =
    fields-Numbered outside sample (codes "p5_7") (write (stamped (codes "p5_7") said)) 1000 1 node
      said (named (codes "p5_7") said) (counted (codes "p5_7") said) (stamped (codes "p5_7") said)
      (first (codes "p5_7")) refl refl refl refl

abbrev pub called : Value
called = field (codes "time") (text (codes "10:00")) (
    field (codes "msg") (text (codes "all")) (
      field (codes "groupid") (int (pos 9)) (
        field (codes "name") (text (codes "ann"))
          (field (codes "id") (int (pos 7)) (field (codes "msgid") (int (pos 10)) null)))))

pub called_eq :
    object sample (groupchat_fields sample me (codes "10:00") (pos 9) (codes "all")) ≡ some called
unfolding object assign groupchat_fields
called_eq = refl

called-Numbered :
    Numbered outside sample (codes "g9") node called (write (stamped (codes "g9") called))
called-Numbered =
    fields-Numbered outside sample (codes "g9") (write (stamped (codes "g9") called)) 1000 1 node
      called (named (codes "g9") called) (counted (codes "g9") called) (stamped (codes "g9") called)
      (first (codes "g9")) refl refl refl refl

group_line :
    (menu_line sample me (codes "10:00") (typed groupchat_name (pos 9) (codes "all"))
      ≡ sends (groupchat_fields sample me (codes "10:00") (pos 9) (codes "all")))
    × (sample.parse (write (stamped (codes "g9") called)) ≡ some called-Numbered.message)
    × (render sample called-Numbered.message
        ≡ some (
            line_of
              (codes "10:00")
              called-Numbered.number
              (1 ∷ 7 ∷ [])
              (codes "ann")
              (codes " in group[" ++ (to_string (pos 9) ++ codes "]"))
              (codes "all")))
group_line =
    menu_line-render_group sample outside (codes "g9") (write (stamped (codes "g9") called)) node
      called me (codes "10:00") (codes "all") (1 ∷ 7 ∷ []) (pos 9) (omega arith) refl called_eq
      called-Numbered
