-- ===== src/Service/Accounts/Parts.antt =====
-- src/server/chatservice.cpp, the successful branch of `login` in parts.
use cluster_chatroom_project.Prelude.{ℕ, codes}
use cluster_chatroom_project.Prelude.Int.{pos}
use cluster_chatroom_project.Json.{JsonLib}
use cluster_chatroom_project.Effect.{Program, each, ◌>>=◌}
use cluster_chatroom_project.Database.{User}
use cluster_chatroom_project.Database.Users.{query_friends}
use cluster_chatroom_project.Database.Groups.{query_groups}
use cluster_chatroom_project.Database.Offline.{query_messages}
use cluster_chatroom_project.Service.{World, Machine, in_world, set_field, respond}
use cluster_chatroom_project.Service.Accounts.Login as Server

module _ (world : World) (lib : JsonLib) where
  open world use {sql}
  open lib use {Json, of_int, of_string}

  -- The branch, from its last calls to its first.
  abbrev pub send_groups : ℕ → User → Json → Program (Machine sql.State) Unit
  send_groups conn user j5 = do
    groups ← in_world world (query_groups sql user.id)
    group_texts ← each (Server.group_text world lib) groups
    j6 ← Server.set_texts world lib (codes "groups") group_texts j5
    respond world lib conn j6

  abbrev pub send_friends : ℕ → User → Json → Program (Machine sql.State) Unit
  send_friends conn user j4 = do
    friends ← in_world world (query_friends sql user.id)
    friend_texts ← each (Server.friend_text world lib) friends
    j5 ← Server.set_texts world lib (codes "friends") friend_texts j4
    send_groups conn user j5

  abbrev pub send_offline : ℕ → User → Json → Program (Machine sql.State) Unit
  send_offline conn user j3 = do
    messages ← in_world world (query_messages lib sql user.id)
    j4 ← Server.take_offline world lib user.id j3 messages
    send_friends conn user j4

  abbrev pub send_response : ℕ → User → Program (Machine sql.State) Unit
  send_response conn user = do
    j1 ← Server.acknowledge world lib (pos 0)
    j2 ← set_field world lib (codes "id") (of_int user.id) j1
    j3 ← set_field world lib (codes "name") (of_string user.name) j2
    send_offline conn user j3
