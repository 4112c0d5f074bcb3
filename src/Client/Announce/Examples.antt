-- ===== src/Client/Announce/Examples.antt =====
-- A group message that is typed.
use cluster_chatroom_project.Prelude.{ℕ, ◌≡◌, refl, some, codes, arith}
use cluster_chatroom_project.Prelude.Int.{pos}
use cluster_chatroom_project.Json.Sample.{write, sample}
use cluster_chatroom_project.Frame.{encode}
use cluster_chatroom_project.Frame.Server.{Served, on_message}
use cluster_chatroom_project.Service.{Machine}
use cluster_chatroom_project.Service.Dispatch.{run_message}
use cluster_chatroom_project.Service.Examples.{outside, node}
use cluster_chatroom_project.Client.Commands.{sends, groupchat_fields, menu_line}
use cluster_chatroom_project.Client.Line.{typed, groupchat_name}
use cluster_chatroom_project.Client.Examples.{me}
use cluster_chatroom_project.Client.Render.Examples.{called, called_eq}
use cluster_chatroom_project.Client.Announce.{Announces, menu_line-Announces}

menu_line-Announces_example :
    (menu_line sample me (codes "10:00") (typed groupchat_name (pos 9) (codes "all"))
      ≡ sends (groupchat_fields sample me (codes "10:00") (pos 9) (codes "all")))
    × ((s : Served (Machine ℕ)) × (on_message sample
            (run_message outside sample 70 1000)
            (encode (write called))
            node
          ≡ some s)
        × Announces outside sample 1000 (pos 7) (pos 9) called node s)
menu_line-Announces_example =
    menu_line-Announces outside sample me (codes "10:00") (codes "all") (write called) (pos 9) 70
      1000 called node (omega arith) called_eq refl (omega arith, omega arith)
