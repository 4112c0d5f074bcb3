-- ===== src/Service/Evolves/Entering.antt =====
-- src/server/chatservice.cpp, `login`: whom it enters into the table of connections; and what a
-- whole message does to a node's state.
use cluster_chatroom_project.Prelude.{
  ℕ, ◌≡◌, sym, true, false, Bool-cases, inl, inr, List, [], ◌∷◌, Bytes, codes, same, append-nil,
}
use cluster_chatroom_project.Prelude.Int.{ℤ, pos}
use cluster_chatroom_project.Json.{JsonLib}
use cluster_chatroom_project.Database.{User, GroupUser, Group}
use cluster_chatroom_project.Database.Users.{update_state, query_friends}
use cluster_chatroom_project.Database.Groups.{query_groups}
use cluster_chatroom_project.Database.Offline.{query_messages, remove_messages}
use cluster_chatroom_project.Service.{World}
use cluster_chatroom_project.Service.Sorting.{sort_offline_messages}
use cluster_chatroom_project.Service.Accounts.Login.{
  already_logged_in, wrong_password, acknowledge, refuse, set_texts, friend_text, member_text,
  group_text, take_offline, record_conn, welcome, is_right, log_in,
}
use cluster_chatroom_project.Service.Accounts.Parts.{send_groups, send_friends, send_offline}
use cluster_chatroom_project.Service.Table.{insert_conn-IsTable}
use cluster_chatroom_project.Service.Evolves.{insert_conn-Comes}
use cluster_chatroom_project.Service.Evolves.Calls.{
  EvolvesBy, in_world-EvolvesBy, bind-EvolvesBy, each-EvolvesBy, give-EvolvesBy,
  subscribe-EvolvesBy, or_throw-EvolvesBy, set_field-EvolvesBy, respond-EvolvesBy,
}

module _ (P : ℤ → ℕ → Type 0) (world : World) (lib : JsonLib) where
  open world use {sql}
  open lib use {Json, null, dump, of_int, of_string, of_strings}

  acknowledge-EvolvesBy : (errno : ℤ) → EvolvesBy P world (acknowledge world lib errno)
  unfolding acknowledge
  acknowledge-EvolvesBy errno =
      bind-EvolvesBy P world (set_field-EvolvesBy P world lib (codes "msgid") (of_int (pos 2)) null)
        λ j1. set_field-EvolvesBy P world lib (codes "errno") (of_int errno) j1

  refuse-EvolvesBy :
      (conn : ℕ) (errno : ℤ) (errmsg : Bytes)
      → EvolvesBy P world (refuse world lib conn errno errmsg)
  unfolding refuse
  refuse-EvolvesBy conn errno errmsg = bind-EvolvesBy P world (acknowledge-EvolvesBy errno) λ j1.
      bind-EvolvesBy P world
        (set_field-EvolvesBy P world lib (codes "errmsg") (of_string errmsg) j1)
        (respond-EvolvesBy P world lib conn)

  set_texts-EvolvesBy :
      (k : Bytes) (ts : List Bytes) (js : Json) → EvolvesBy P world (set_texts world lib k ts js)
  unfolding set_texts
  set_texts-EvolvesBy k [] js = give-EvolvesBy P world js
  set_texts-EvolvesBy k (t ∷ ts) js = set_field-EvolvesBy P world lib k (of_strings (t ∷ ts)) js

  friend_text-EvolvesBy : (user : User) → EvolvesBy P world (friend_text world lib user)
  unfolding friend_text
  friend_text-EvolvesBy user =
      bind-EvolvesBy P world (set_field-EvolvesBy P world lib (codes "id") (of_int user.id) null)
        λ j1.
          bind-EvolvesBy P world
            (set_field-EvolvesBy P world lib (codes "name") (of_string user.name) j1)
            λ j2.
              bind-EvolvesBy P world
                (set_field-EvolvesBy P world lib (codes "state") (of_string user.state) j2)
                λ j3. or_throw-EvolvesBy P world lib (dump j3)

  member_text-EvolvesBy : (member : GroupUser) → EvolvesBy P world (member_text world lib member)
  unfolding member_text
  member_text-EvolvesBy member =
      bind-EvolvesBy P world
        (set_field-EvolvesBy P world lib (codes "id") (of_int member.user.id) null)
        λ j1.
          bind-EvolvesBy P world
            (set_field-EvolvesBy P world lib (codes "name") (of_string member.user.name) j1)
            λ j2.
              bind-EvolvesBy P world
                (set_field-EvolvesBy P world lib (codes "state") (of_string member.user.state) j2)
                λ j3.
                  bind-EvolvesBy P world
                    (set_field-EvolvesBy P world lib (codes "role") (of_string member.role) j3)
                    λ j4. or_throw-EvolvesBy P world lib (dump j4)

  group_text-EvolvesBy : (group : Group) → EvolvesBy P world (group_text world lib group)
  unfolding group_text
  group_text-EvolvesBy group =
      bind-EvolvesBy P world (set_field-EvolvesBy P world lib (codes "id") (of_int group.id) null)
        λ j1.
          bind-EvolvesBy P world
            (set_field-EvolvesBy P world lib (codes "groupname") (of_string group.name) j1)
            λ j2.
              bind-EvolvesBy P world
                (set_field-EvolvesBy P world lib (codes "groupdesc") (of_string group.desc) j2)
                λ j3.
                  bind-EvolvesBy P world (each-EvolvesBy P world group.users member_text-EvolvesBy)
                    λ users.
                      bind-EvolvesBy P world
                        (set_field-EvolvesBy P world lib (codes "users") (of_strings users) j3)
                        λ j4. or_throw-EvolvesBy P world lib (dump j4)

  take_offline-EvolvesBy :
      (id : ℤ) (js : Json) (ms : List Bytes) → EvolvesBy P world (take_offline world lib id js ms)
  unfolding take_offline
  take_offline-EvolvesBy id js [] = give-EvolvesBy P world js
  take_offline-EvolvesBy id js (m ∷ ms) =
      bind-EvolvesBy P world
        (set_field-EvolvesBy P world lib (codes "offlinemsg")
          (of_strings (sort_offline_messages lib (m ∷ ms))) js)
        λ j.
          bind-EvolvesBy P world (in_world-EvolvesBy P world (remove_messages lib sql id))
            λ b. give-EvolvesBy P world j

  record_conn-EvolvesBy :
      (id : ℤ) (conn : ℕ) → P id conn → EvolvesBy P world (record_conn world lib id conn)
  record_conn-EvolvesBy id conn p = record {
    along = λ m. record {
      table = insert_conn-IsTable id conn m.conns;
      comes = insert_conn-Comes P id conn m.conns p;
      grows = ([], sym (append-nil m.sent));
      lost = Bool-cases m.redis.redis_available;
    };
  }

  send_groups-EvolvesBy :
      (conn : ℕ) (user : User) (j : Json) → EvolvesBy P world (send_groups world lib conn user j)
  send_groups-EvolvesBy conn user j =
      bind-EvolvesBy P world (in_world-EvolvesBy P world (query_groups sql user.id)) λ groups.
        bind-EvolvesBy P world (each-EvolvesBy P world groups group_text-EvolvesBy) λ texts.
          bind-EvolvesBy P world (set_texts-EvolvesBy (codes "groups") texts j)
            (respond-EvolvesBy P world lib conn)

  send_friends-EvolvesBy :
      (conn : ℕ) (user : User) (j : Json) → EvolvesBy P world (send_friends world lib conn user j)
  send_friends-EvolvesBy conn user j =
      bind-EvolvesBy P world (in_world-EvolvesBy P world (query_friends sql user.id)) λ friends.
        bind-EvolvesBy P world (each-EvolvesBy P world friends friend_text-EvolvesBy) λ texts.
          bind-EvolvesBy P world (set_texts-EvolvesBy (codes "friends") texts j)
            (send_groups-EvolvesBy conn user)

  send_offline-EvolvesBy :
      (conn : ℕ) (user : User) (j : Json) → EvolvesBy P world (send_offline world lib conn user j)
  send_offline-EvolvesBy conn user j =
      bind-EvolvesBy P world (in_world-EvolvesBy P world (query_messages lib sql user.id)) λ ms.
        bind-EvolvesBy P world (take_offline-EvolvesBy user.id j ms)
          (send_friends-EvolvesBy conn user)

  welcome-EvolvesBy :
      (conn : ℕ) (user : User) → P user.id conn → EvolvesBy P world (welcome world lib conn user)
  unfolding welcome
  welcome-EvolvesBy conn user p = bind-EvolvesBy P world (record_conn-EvolvesBy user.id conn p) λ u.
      bind-EvolvesBy P world (subscribe-EvolvesBy P world user.id) λ s.
        bind-EvolvesBy P world
          (in_world-EvolvesBy P world (update_state sql (record user { state = codes "online" })))
          λ b. bind-EvolvesBy P world (acknowledge-EvolvesBy (pos 0)) λ j1.
            bind-EvolvesBy P world
              (set_field-EvolvesBy P world lib (codes "id") (of_int user.id) j1)
              λ j2.
                bind-EvolvesBy P world
                  (set_field-EvolvesBy P world lib (codes "name") (of_string user.name) j2)
                  (send_offline-EvolvesBy conn user)

  pub log_in-EvolvesBy :
      (conn : ℕ) (user : User) (password : Bytes)
      → (is_right world lib user password ≡ true
          → same user.state (codes "online") ≡ false
          → P user.id conn)
      → EvolvesBy P world (log_in world lib conn user password)
  unfolding log_in
  log_in-EvolvesBy conn user password p = elim (Bool-cases (is_right world lib user password)) [
    | inr e ↦ rw e (refuse-EvolvesBy conn (pos 1) wrong_password)
    | inl e ↦ elim (Bool-cases (same user.state (codes "online"))) [
      | inl o ↦ rw (e, o) (refuse-EvolvesBy conn (pos 2) already_logged_in)
      | inr o ↦ rw (e, o) (welcome-EvolvesBy conn user (p e o))
    ]
  ]
