-- ===== src/Service/Evolves/Accounts.antt =====
-- src/server/chatservice.cpp: what loginout, reg, addfriend, creategroup, addgroup and
-- clientCloseException do to a node's state.
use cluster_chatroom_project.Prelude.{ℕ, sym, Bool-cases, false, none, [], append-nil, codes}
use cluster_chatroom_project.Prelude.Int.{ℤ, pos, negsuc, eqb_ℤ}
use cluster_chatroom_project.Json.{JsonLib}
use cluster_chatroom_project.Database.{User, no_user}
use cluster_chatroom_project.Database.Users.{insert_user, query_user, update_state, insert_friend}
use cluster_chatroom_project.Database.Groups.{create_group_with_creator, add_group}
use cluster_chatroom_project.Service.{World}
use cluster_chatroom_project.Service.Accounts.{
  erase_user, take_user, set_offline, leave, client_close_exception, loginout, registered,
  not_registered, reg, addfriend, creategroup, addgroup,
}
use cluster_chatroom_project.Service.Table.{erase_conn-IsTable, take_conn-IsTable}
use cluster_chatroom_project.Service.Evolves.{erase_conn-Comes, take_conn-Comes}
use cluster_chatroom_project.Service.Evolves.Calls.{
  EvolvesBy, in_world-EvolvesBy, bind-EvolvesBy, if-EvolvesBy, give-EvolvesBy,
  unsubscribe-EvolvesBy, get_int-EvolvesBy, get_string-EvolvesBy, set_field-EvolvesBy,
  respond-EvolvesBy,
}

module _ (P : ℤ → ℕ → Type 0) (world : World) where
  open world use {sql}

  erase_user-EvolvesBy : (id : ℤ) → EvolvesBy P world (erase_user world id)
  erase_user-EvolvesBy id = record {
    along = λ m. record {
      table = erase_conn-IsTable id m.conns;
      comes = erase_conn-Comes P id m.conns;
      grows = ([], sym (append-nil m.sent));
      lost = Bool-cases m.redis.redis_available;
    };
  }

  take_user-EvolvesBy : (conn : ℕ) → EvolvesBy P world (take_user world conn)
  take_user-EvolvesBy conn = record {
    along = λ m. record {
      table = take_conn-IsTable conn m.conns;
      comes = take_conn-Comes P conn m.conns;
      grows = ([], sym (append-nil m.sent));
      lost = Bool-cases m.redis.redis_available;
    };
  }

  set_offline-EvolvesBy : (user : User) → EvolvesBy P world (set_offline world user)
  unfolding set_offline
  set_offline-EvolvesBy user =
      if-EvolvesBy P world (eqb_ℤ user.id (negsuc 0)) (give-EvolvesBy P world false)
        (in_world-EvolvesBy P world (update_state sql (record user { state = codes "offline" })))

  leave-EvolvesBy : (id : ℤ) → EvolvesBy P world (leave world id)
  unfolding leave
  leave-EvolvesBy id =
      bind-EvolvesBy P world (in_world-EvolvesBy P world (query_user sql id)) λ user.
        bind-EvolvesBy P world (set_offline-EvolvesBy user) λ b. unsubscribe-EvolvesBy P world id

  pub client_close_exception-EvolvesBy :
      (conn : ℕ) → EvolvesBy P world (client_close_exception world conn)
  unfolding client_close_exception
  client_close_exception-EvolvesBy conn = bind-EvolvesBy P world (take_user-EvolvesBy conn) λ id.
      if-EvolvesBy P world (eqb_ℤ id (negsuc 0)) (give-EvolvesBy P world none) (leave-EvolvesBy id)

  module _ (lib : JsonLib) where
    open lib use {Json, null, of_int}

    pub loginout-EvolvesBy : (js : Json) → EvolvesBy P world (loginout world lib js)
    unfolding loginout
    loginout-EvolvesBy js =
        bind-EvolvesBy P world (get_int-EvolvesBy P world lib js (codes "id")) λ id.
          bind-EvolvesBy P world (erase_user-EvolvesBy id) λ u.
            bind-EvolvesBy P world (unsubscribe-EvolvesBy P world id) λ b.
              in_world-EvolvesBy P world
                (update_state sql (record no_user { id = id; password = codes "offline" }))

    registered-EvolvesBy : (id : ℤ) → EvolvesBy P world (registered world lib id)
    unfolding registered
    registered-EvolvesBy id =
        bind-EvolvesBy P world
          (set_field-EvolvesBy P world lib (codes "msgid") (of_int (pos 5)) null)
          λ j1.
            bind-EvolvesBy P world (set_field-EvolvesBy P world lib (codes "id") (of_int id) j1)
              λ j2. set_field-EvolvesBy P world lib (codes "errno") (of_int (pos 0)) j2

    not_registered-EvolvesBy : EvolvesBy P world (not_registered world lib)
    unfolding not_registered
    not_registered-EvolvesBy =
        bind-EvolvesBy P world
          (set_field-EvolvesBy P world lib (codes "msgid") (of_int (pos 5)) null)
          λ j1. set_field-EvolvesBy P world lib (codes "errno") (of_int (pos 1)) j1

    pub reg-EvolvesBy : (conn : ℕ) (js : Json) → EvolvesBy P world (reg world lib conn js)
    unfolding reg
    reg-EvolvesBy conn js =
        bind-EvolvesBy P world (get_string-EvolvesBy P world lib js (codes "name")) λ name.
          bind-EvolvesBy P world (get_string-EvolvesBy P world lib js (codes "password"))
            λ password.
              bind-EvolvesBy P world
                (in_world-EvolvesBy P world
                  (insert_user sql (record no_user { name = name; password = password })))
                λ r.
                  bind-EvolvesBy P world
                    (if-EvolvesBy P world r.1 (registered-EvolvesBy r.0.id)
                      not_registered-EvolvesBy)
                    (respond-EvolvesBy P world lib conn)

    pub addfriend-EvolvesBy : (js : Json) → EvolvesBy P world (addfriend world lib js)
    unfolding addfriend
    addfriend-EvolvesBy js =
        bind-EvolvesBy P world (get_int-EvolvesBy P world lib js (codes "id")) λ userid.
          bind-EvolvesBy P world (get_int-EvolvesBy P world lib js (codes "friendid"))
            λ friendid. in_world-EvolvesBy P world (insert_friend sql userid friendid)

    pub creategroup-EvolvesBy : (js : Json) → EvolvesBy P world (creategroup world lib js)
    unfolding creategroup
    creategroup-EvolvesBy js =
        bind-EvolvesBy P world (get_int-EvolvesBy P world lib js (codes "id")) λ userid.
          bind-EvolvesBy P world (get_string-EvolvesBy P world lib js (codes "groupname")) λ name.
            bind-EvolvesBy P world (get_string-EvolvesBy P world lib js (codes "groupdesc")) λ desc.
              in_world-EvolvesBy P world (
                create_group_with_creator sql
                  (record { id = negsuc 0; name = name; desc = desc; users = [] }) userid)

    pub addgroup-EvolvesBy : (js : Json) → EvolvesBy P world (addgroup world lib js)
    unfolding addgroup
    addgroup-EvolvesBy js =
        bind-EvolvesBy P world (get_int-EvolvesBy P world lib js (codes "id")) λ userid.
          bind-EvolvesBy P world (get_int-EvolvesBy P world lib js (codes "groupid"))
            λ groupid. in_world-EvolvesBy P world (add_group sql userid groupid (codes "normal"))
