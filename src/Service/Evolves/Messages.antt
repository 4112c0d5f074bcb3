-- ===== src/Service/Evolves/Messages.antt =====
-- src/server/chatservice.cpp: what onechat, groupchat and handleredissubscribemessage do to a
-- node's state.
use cluster_chatroom_project.Prelude.{
  ℕ, ◌/◌, inl, inr, Option-cases, List, [], ◌∷◌, Bytes, codes, same,
}
use cluster_chatroom_project.Prelude.Int.{ℤ, pos}
use cluster_chatroom_project.Json.{JsonLib}
use cluster_chatroom_project.Conversation.{p2p, group}
use cluster_chatroom_project.Database.Users.{query_user}
use cluster_chatroom_project.Database.Groups.{query_group_users}
use cluster_chatroom_project.Service.{World, find_conn}
use cluster_chatroom_project.Service.Chat.{
  number_message, publish_or_store, forward, deliver_to, onechat, partition, send_all, forward_all,
  deliver_all, groupchat, handle_redis_subscribe_message,
}
use cluster_chatroom_project.Service.Evolves.Calls.{
  EvolvesBy, in_world-EvolvesBy, bind-EvolvesBy, if-EvolvesBy, give-EvolvesBy,
  send_with_header-EvolvesBy, next_seq-EvolvesBy, publish_to-EvolvesBy, store-EvolvesBy,
  or_throw-EvolvesBy, get_int-EvolvesBy, set_field-EvolvesBy,
}

module _ (P : ℤ → ℕ → Type 0) (world : World) (lib : JsonLib) where
  open world use {sql}
  open lib use {Json, dump, of_string, of_unsigned, of_int}

  number_message-EvolvesBy :
      (conv : Bytes) (time : ℕ) (js : Json)
      → EvolvesBy P world (number_message world lib conv time js)
  unfolding number_message
  number_message-EvolvesBy conv time js =
      bind-EvolvesBy P world (next_seq-EvolvesBy P world conv) λ seq.
        bind-EvolvesBy P world
          (set_field-EvolvesBy P world lib (codes "convid") (of_string conv) js)
          λ j1.
            bind-EvolvesBy P world
              (set_field-EvolvesBy P world lib (codes "seq") (of_unsigned seq) j1)
              λ j2.
                bind-EvolvesBy P world
                  (set_field-EvolvesBy P world lib (codes "msgts") (of_int (pos (time / 1000))) j2)
                  λ j3. or_throw-EvolvesBy P world lib (dump j3)

  forward-EvolvesBy : (id : ℤ) (payload : Bytes) → EvolvesBy P world (forward world lib id payload)
  unfolding forward publish_or_store
  forward-EvolvesBy id payload =
      bind-EvolvesBy P world (in_world-EvolvesBy P world (query_user sql id)) λ user.
        if-EvolvesBy P world (same user.state (codes "online"))
          (bind-EvolvesBy P world (publish_to-EvolvesBy P world id payload) λ ok.
            if-EvolvesBy P world ok (give-EvolvesBy P world tt)
              (store-EvolvesBy P world lib id payload))
          (store-EvolvesBy P world lib id payload)

  deliver_to-EvolvesBy :
      (id : ℤ) (payload : Bytes) → EvolvesBy P world (deliver_to world lib id payload)
  unfolding deliver_to
  deliver_to-EvolvesBy id payload = record {
    along = λ m. elim (Option-cases (find_conn id m.conns)) [
      | inl n ↦ rw (n, deliver_to) ((forward-EvolvesBy id payload).along m)
      | inr (c, f) ↦ rw (f, deliver_to) ((send_with_header-EvolvesBy P world c payload).along m)
    ];
  }

  pub onechat-EvolvesBy : (time : ℕ) (js : Json) → EvolvesBy P world (onechat world lib time js)
  unfolding onechat
  onechat-EvolvesBy time js =
      bind-EvolvesBy P world (get_int-EvolvesBy P world lib js (codes "id")) λ fromid.
        bind-EvolvesBy P world (get_int-EvolvesBy P world lib js (codes "toid")) λ toid.
          bind-EvolvesBy P world (number_message-EvolvesBy (p2p fromid toid) time js)
            (deliver_to-EvolvesBy toid)

  send_all-EvolvesBy :
      (conns : List ℕ) (payload : Bytes) → EvolvesBy P world (send_all world lib conns payload)
  unfolding send_all
  send_all-EvolvesBy [] payload = give-EvolvesBy P world tt
  send_all-EvolvesBy (c ∷ conns) payload =
      bind-EvolvesBy P world (send_with_header-EvolvesBy P world c payload)
        λ u. send_all-EvolvesBy conns payload

  forward_all-EvolvesBy :
      (ids : List ℤ) (payload : Bytes) → EvolvesBy P world (forward_all world lib ids payload)
  unfolding forward_all
  forward_all-EvolvesBy [] payload = give-EvolvesBy P world tt
  forward_all-EvolvesBy (id ∷ ids) payload =
      bind-EvolvesBy P world (forward-EvolvesBy id payload) λ u. forward_all-EvolvesBy ids payload

  deliver_all-EvolvesBy :
      (ids : List ℤ) (payload : Bytes) → EvolvesBy P world (deliver_all world lib ids payload)
  unfolding deliver_all
  deliver_all-EvolvesBy ids payload = record {
    along = λ m.
        let (locals, remotes) = partition world lib m.conns ids in
        (bind-EvolvesBy P world (send_all-EvolvesBy locals payload)
            λ u. forward_all-EvolvesBy remotes payload).along
          m;
  }

  pub groupchat-EvolvesBy : (time : ℕ) (js : Json) → EvolvesBy P world (groupchat world lib time js)
  unfolding groupchat
  groupchat-EvolvesBy time js =
      bind-EvolvesBy P world (get_int-EvolvesBy P world lib js (codes "id")) λ userid.
        bind-EvolvesBy P world (get_int-EvolvesBy P world lib js (codes "groupid")) λ groupid.
          bind-EvolvesBy P world (number_message-EvolvesBy (group groupid) time js) λ payload.
            bind-EvolvesBy P world
              (in_world-EvolvesBy P world (query_group_users sql userid groupid))
              λ ids. deliver_all-EvolvesBy ids payload

  pub handle_redis_subscribe_message-EvolvesBy :
      (id : ℤ) (msg : Bytes) → EvolvesBy P world (handle_redis_subscribe_message world lib id msg)
  unfolding handle_redis_subscribe_message
  handle_redis_subscribe_message-EvolvesBy id msg = record {
    along = λ m. elim (Option-cases (find_conn id m.conns)) [
      | inl n ↦
          rw (n, handle_redis_subscribe_message) ((store-EvolvesBy P world lib id msg).along m)
      | inr (c, f) ↦
          rw (f, handle_redis_subscribe_message)
            ((send_with_header-EvolvesBy P world c msg).along m)
    ];
  }
