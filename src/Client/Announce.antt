-- ===== src/Client/Announce.antt =====
-- From a group message that is typed in src/client/main.cpp to what src/server/chatservice.cpp sends.
mod Examples
use mathlib.Core.List.{Perm}
use cluster_chatroom_project.Prelude.{
  ℕ, ◌≡◌, refl, sym, ap, subst, ◌∙◌, ◌⊎◌, inl, inr, false, some, [], ◌++◌, List, Bytes, codes,
}
use cluster_chatroom_project.Prelude.Int.{ℤ, pos}
use cluster_chatroom_project.Json.{JsonLib}
use cluster_chatroom_project.Conversation.{group}
use cluster_chatroom_project.Text.Integers.{IsInt}
use cluster_chatroom_project.Effect.{Thrown, Result, done, thrown}
use cluster_chatroom_project.Frame.{encode}
use cluster_chatroom_project.Frame.Header.{IsLegal}
use cluster_chatroom_project.Frame.Server.{Served, on_message}
use cluster_chatroom_project.Frame.Server.Single.{is_json, on_message-single}
use cluster_chatroom_project.Database.{User}
use cluster_chatroom_project.Database.Groups.{query_group_users}
use cluster_chatroom_project.Service.{World, Machine, Sent}
use cluster_chatroom_project.Service.Chat.{groupchat}
use cluster_chatroom_project.Service.Dispatch.{msg_type, handle, outcome_of, run_message}
use cluster_chatroom_project.Service.Numbering.{asked, Numbered}
use cluster_chatroom_project.Service.Members.{Each}
use cluster_chatroom_project.Service.GroupMessage.{FailsFor, groupchat-Broadcasts}
use cluster_chatroom_project.Client.{object}
use cluster_chatroom_project.Client.Object.{object-find}
use cluster_chatroom_project.Client.Chat.{get_int-field, done_eq}
use cluster_chatroom_project.Client.Commands.{sends, groupchat_fields, menu_line}
use cluster_chatroom_project.Client.Line.{typed, groupchat_name, menu_line-groupchat}

module _ (world : World) (lib : JsonLib) where
  open world use {sql}

  -- What the server makes of a message of user `from` to group `groupid`: its handler ends in an
  -- exception; or the connection stays open, and the message, numbered in the group's conversation,
  -- has taken a way to each of the members that the database gave.
  abbrev pub Announces :
      ℕ → ℤ → ℤ → lib.Json → Machine sql.State → Served (Machine sql.State) → Type 0
  Announces now from groupid js m s =
      ((e : Thrown) × ((groupchat world lib now js m).1 ≡ thrown e) × FailsFor world lib now js m e)
      ⊎ ((payload : Bytes) × (v : sql.State) × (ids order : List ℤ) × (xs : List Sent) × (s.shut
            ≡ false)
          × Numbered world lib (group groupid) m js payload
          × (query_group_users sql from groupid (asked world lib (group groupid) m).0
              ≡ (v, done ids))
          × Perm order ids
          × (s.state.sent ≡ m.sent ++ xs)
          × Each world lib m.conns payload order v xs s.state.world)

  groupchat-Announces :
      (now : ℕ) (from groupid : ℤ) (js : lib.Json) (m : Machine sql.State)
      → lib.find js (codes "id") ≡ some (lib.of_int from)
      → lib.find js (codes "groupid") ≡ some (lib.of_int groupid)
      → let r = groupchat world lib now js m in
        Announces now from groupid js m
          (record { state = r.0; buffer = []; shut = is_json (outcome_of world lib r.1) })
  groupchat-Announces now from groupid js m f t = elim (groupchat-Broadcasts world lib now js m) [
    | inl e ↦ inl e
    | inr (a, b, payload, v, ids, order, xs, x, y, n, q, p, d, sent, each) ↦
        let ea =
          done_eq world lib m a from (sym x ∙ get_int-field world lib js (codes "id") from m f) in
        let eb =
          done_eq world lib m b groupid
            (sym y ∙ get_int-field world lib js (codes "groupid") groupid m t) in
        let given =
          subst (λ i. query_group_users sql i b (asked world lib (group b) m).0 ≡ (v, done ids)) ea
            q in
        inr (
          payload,
          v,
          ids,
          order,
          xs,
          ap (λ r. is_json (outcome_of world lib r)) d,
          subst (λ i. Numbered world lib (group i) m js payload) eb n,
          subst (λ i. query_group_users sql from i (asked world lib (group i) m).0 ≡ (v, done ids))
              eb given,
          p,
          sent,
          each,
        )
  ]

  -- Given a group's number that is an int, and a message that can be written as a body within the
  -- limit: the line `groupchat:<number>:<text>` makes the client send that message. The server
  -- reads the frame; then the handler ends in an exception, as a field is no number, the numbered
  -- message cannot be written, or the database throws when it is asked for the members or for a
  -- user; or the connection stays open and the message, with the name of the group's conversation
  -- and the number given on the reply to its INCR, takes one way to each of the members that the
  -- database gave for the client's user and the group, in some order of them, and nothing else
  -- was sent. The way is a frame to the member's connection, if the table has one, unless it is
  -- down; a PUBLISH that Redis replied to, if the database has the member online; or, offline or
  -- without that reply, a row with the message that MySQL was asked to insert, unless there was
  -- no connection to it.
  pub menu_line-Announces :
      (user : User) (time text body : Bytes) (groupid : ℤ) (conn now : ℕ) (js : lib.Json)
      (m : Machine sql.State)
      → IsInt groupid
      → object lib (groupchat_fields lib user time groupid text) ≡ some js
      → lib.dump js ≡ some body
      → IsLegal body
      → (menu_line lib user time (typed groupchat_name groupid text)
          ≡ sends (groupchat_fields lib user time groupid text))
        × ((s : Served (Machine sql.State)) × (on_message lib
                (run_message world lib conn now)
                (encode body)
                m
              ≡ some s)
            × Announces now user.id groupid js m s)
  unfolding groupchat_fields run_message msg_type handle
  menu_line-Announces user time text body groupid conn now js m i o d l =
      let fields = groupchat_fields lib user time groupid text in
      let served =
        on_message-single lib (run_message world lib conn now) body js (pos 10) m l
          (lib.parse-dump js body d) (object-find lib fields js (codes "msgid") o) in
      (
        menu_line-groupchat lib user time groupid text i,
        (
          record {
            state = (groupchat world lib now js m).0;
            buffer = [];
            shut = is_json (outcome_of world lib (groupchat world lib now js m).1);
          },
          served,
          groupchat-Announces now user.id groupid js m (object-find lib fields js (codes "id") o)
              (object-find lib fields js (codes "groupid") o),
        ),
      )
