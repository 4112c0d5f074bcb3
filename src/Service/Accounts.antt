-- ===== src/Service/Accounts.antt =====
-- src/server/chatservice.cpp: login, reg, loginout, clientCloseException, addfriend, creategroup,
-- addgroup and reset.
pub mod Login
pub mod Guard
pub mod Parts
use cluster_chatroom_project.Prelude.{
  ℕ, ◌+◌, Bool, true, false, not, ◌&&◌, Option, some, none, List, [], ◌∷◌, ◌++◌, Bytes, codes, same,
  ◌==◌, if◌then◌else◌,
}
use cluster_chatroom_project.Prelude.Int.{ℤ, pos, negsuc, eqb_ℤ}
use cluster_chatroom_project.Json.{JsonLib}
use cluster_chatroom_project.Effect.{Program, Result, done, give, ◌>>=◌, ◌>>◌}
use cluster_chatroom_project.Database.{User, no_user, Group}
use cluster_chatroom_project.Database.Users.{
  insert_user, query_user, update_state, reset_state, insert_friend,
}
use cluster_chatroom_project.Database.Groups.{create_group_with_creator, add_group}
use cluster_chatroom_project.Service.{
  World, Machine, erase_conn, in_world, unsubscribe, get_int, get_string, set_field, respond,
}

-- The loop of `clientCloseException`: the first user with this connection, and the other entries.
unfoldable pub take_conn : ℕ → List (ℤ × ℕ) → ℤ × List (ℤ × ℕ)
take_conn conn [] = (negsuc 0, [])
take_conn conn ((i, c) ∷ rest) =
    let (id, others) = take_conn conn rest in if c == conn then (i, rest) else (id, (i, c) ∷ others)

module _ (world : World) where
  open world use {sql}

  unfoldable pub reset : Program (Machine sql.State) Bool
  reset = in_world world (reset_state sql)

  -- The user's connection is taken out of the table.
  abbrev pub erase_user : ℤ → Program (Machine sql.State) Unit
  erase_user id m = (record m { conns = erase_conn id m.conns }, done tt)

  abbrev pub take_user : ℕ → Program (Machine sql.State) ℤ
  take_user conn m =
      let (id, others) = take_conn conn m.conns in (record m { conns = others }, done id)

  -- A user that is there is set offline.
  unfoldable pub set_offline : User → Program (Machine sql.State) Bool
  set_offline user =
      if eqb_ℤ user.id (negsuc 0)
      then give false
      else in_world world (update_state sql (record user { state = codes "offline" }))

  unfoldable pub leave : ℤ → Program (Machine sql.State) (Option Bool)
  leave id = do user ← in_world world (query_user sql id); set_offline user; unsubscribe world id

  unfoldable pub client_close_exception : ℕ → Program (Machine sql.State) (Option Bool)
  client_close_exception conn = do
    id ← take_user conn
    if eqb_ℤ id (negsuc 0) then give none else leave id

  module _ (lib : JsonLib) where
    open lib use {Json, null, of_int}

    -- `User user(userid,"","offline")`: the third argument is the password; the state is "offline"
    -- by default.
    unfoldable pub loginout : Json → Program (Machine sql.State) Bool
    loginout js = do
      id ← get_int world lib js (codes "id")
      erase_user id
      unsubscribe world id
      in_world world (update_state sql (record no_user { id = id; password = codes "offline" }))

    unfoldable pub registered : ℤ → Program (Machine sql.State) Json
    registered id = do
      j1 ← set_field world lib (codes "msgid") (of_int (pos 5)) null
      j2 ← set_field world lib (codes "id") (of_int id) j1
      set_field world lib (codes "errno") (of_int (pos 0)) j2

    unfoldable pub not_registered : Program (Machine sql.State) Json
    not_registered = do
      j1 ← set_field world lib (codes "msgid") (of_int (pos 5)) null
      set_field world lib (codes "errno") (of_int (pos 1)) j1

    unfoldable pub reg : ℕ → Json → Program (Machine sql.State) Unit
    reg conn js = do
      name ← get_string world lib js (codes "name")
      password ← get_string world lib js (codes "password")
      r ← in_world world (insert_user sql (record no_user { name = name; password = password }))
      response ← if r.1 then registered r.0.id else not_registered
      respond world lib conn response

    unfoldable pub addfriend : Json → Program (Machine sql.State) Bool
    addfriend js = do
      userid ← get_int world lib js (codes "id")
      friendid ← get_int world lib js (codes "friendid")
      in_world world (insert_friend sql userid friendid)

    unfoldable pub creategroup : Json → Program (Machine sql.State) (Group × Bool)
    creategroup js = do
      userid ← get_int world lib js (codes "id")
      name ← get_string world lib js (codes "groupname")
      desc ← get_string world lib js (codes "groupdesc")
      in_world world (
          create_group_with_creator sql
            (record { id = negsuc 0; name = name; desc = desc; users = [] }) userid)

    unfoldable pub addgroup : Json → Program (Machine sql.State) Bool
    addgroup js = do
      userid ← get_int world lib js (codes "id")
      groupid ← get_int world lib js (codes "groupid")
      in_world world (add_group sql userid groupid (codes "normal"))
