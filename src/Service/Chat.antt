-- ===== src/Service/Chat.antt =====
-- src/server/chatservice.cpp: onechat, groupchat and handleredissubscribemessage.
use cluster_chatroom_project.Prelude.{
  ℕ, ◌/◌, some, none, List, [], ◌∷◌, Bytes, codes, same, if◌then◌else◌,
}
use cluster_chatroom_project.Prelude.Int.{ℤ, pos}
use cluster_chatroom_project.Json.{JsonLib}
use cluster_chatroom_project.Conversation.{p2p, group}
use cluster_chatroom_project.Effect.{Program, give, ◌>>=◌, ◌>>◌}
use cluster_chatroom_project.Database.Users.{query_user}
use cluster_chatroom_project.Database.Groups.{query_group_users}
use cluster_chatroom_project.Service.{
  World, Machine, find_conn, in_world, send_with_header, next_seq, publish_to, store, or_throw,
  get_int, set_field,
}

module _ (world : World) (lib : JsonLib) where
  open world use {sql}
  open lib use {Json, dump, of_string, of_unsigned, of_int}

  -- The number, the fields of the message, and its text; the time is in microseconds.
  unfoldable pub number_message : Bytes → ℕ → Json → Program (Machine sql.State) Bytes
  number_message conv time js = do
    seq ← next_seq world conv
    j1 ← set_field world lib (codes "convid") (of_string conv) js
    j2 ← set_field world lib (codes "seq") (of_unsigned seq) j1
    j3 ← set_field world lib (codes "msgts") (of_int (pos (time / 1000))) j2
    or_throw world lib (dump j3)

  -- PUBLISH, and the offline store if that fails.
  unfoldable pub publish_or_store : ℤ → Bytes → Program (Machine sql.State) Unit
  publish_or_store id payload = do
    ok ← publish_to world id payload
    if ok then give tt else store world lib id payload

  -- To a user that has no connection to this node.
  unfoldable pub forward : ℤ → Bytes → Program (Machine sql.State) Unit
  forward id payload = do
    user ← in_world world (query_user sql id)
    if same user.state (codes "online")
        then publish_or_store id payload
        else store world lib id payload

  -- The ways of `onechat`.
  unfoldable pub deliver_to : ℤ → Bytes → Program (Machine sql.State) Unit
  deliver_to id payload m = elim (find_conn id m.conns) [
    | some conn ↦ send_with_header world conn payload m
    | none ↦ forward id payload m
  ]

  unfoldable pub onechat : ℕ → Json → Program (Machine sql.State) Unit
  onechat time js = do
    fromid ← get_int world lib js (codes "id")
    toid ← get_int world lib js (codes "toid")
    payload ← number_message (p2p fromid toid) time js
    deliver_to toid payload

  -- Under the lock of `groupchat`: the connections to this node, and the members without one.
  unfoldable pub partition : List (ℤ × ℕ) → List ℤ → List ℕ × List ℤ
  partition conns [] = ([], [])
  partition conns (id ∷ ids) =
      let (locals, remotes) = partition conns ids in
      elim (find_conn id conns) [
        | some conn ↦ (conn ∷ locals, remotes)
        | none ↦ (locals, id ∷ remotes)
      ]

  unfoldable pub send_all : List ℕ → Bytes → Program (Machine sql.State) Unit
  send_all [] payload = give tt
  send_all (conn ∷ conns) payload = do send_with_header world conn payload; send_all conns payload

  unfoldable pub forward_all : List ℤ → Bytes → Program (Machine sql.State) Unit
  forward_all [] payload = give tt
  forward_all (id ∷ ids) payload = do forward id payload; forward_all ids payload

  unfoldable pub deliver_all : List ℤ → Bytes → Program (Machine sql.State) Unit
  deliver_all ids payload m =
      let (locals, remotes) = partition m.conns ids in
      ((do send_all locals payload; forward_all remotes payload) m)

  unfoldable pub groupchat : ℕ → Json → Program (Machine sql.State) Unit
  groupchat time js = do
    userid ← get_int world lib js (codes "id")
    groupid ← get_int world lib js (codes "groupid")
    payload ← number_message (group groupid) time js
    ids ← in_world world (query_group_users sql userid groupid)
    deliver_all ids payload

  unfoldable pub handle_redis_subscribe_message : ℤ → Bytes → Program (Machine sql.State) Unit
  handle_redis_subscribe_message id msg m = elim (find_conn id m.conns) [
    | some conn ↦ send_with_header world conn msg m
    | none ↦ store world lib id msg m
  ]
