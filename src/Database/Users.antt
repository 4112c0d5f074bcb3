-- ===== src/Database/Users.antt =====
-- src/server/muduo/usermodel.cpp and src/server/muduo/friendmodel.cpp.
use cluster_chatroom_project.Prelude.{
  Bool, true, false, Option, some, none, List, [], ◌∷◌, Bytes, codes, if◌then◌else◌,
}
use cluster_chatroom_project.Prelude.Int.{ℤ}
use cluster_chatroom_project.Conversation.Decimal.{to_string}
use cluster_chatroom_project.Crypto.{hash_password, make_salt}
use cluster_chatroom_project.Effect.{Program, done, give, ◌>>=◌, each}
use cluster_chatroom_project.Database.{Sql, User, no_user, call, connected, to_user, first_user}

module _ (sql : Sql) where
  open sql use {State, execute_update, execute_query, last_insert_id, sha256, draw}

  -- UserModel::insert: the user with its new id, and whether it was stored.
  unfoldable pub insert_user : User → Program State (User × Bool)
  insert_user user =
      connected sql (user, false)
        do
          draws ← call sql draw
          let salt = make_salt draws
          let hashed = hash_password sha256 salt user.password
          ok ← call sql (
              execute_update (codes "insert into User(name,password,salt,state) values(?,?,?,?)")
                (user.name ∷ hashed ∷ salt ∷ user.state ∷ []))
          if ok
              then (λ s. (s, done (record user { id = last_insert_id s }, true)))
              else give (user, false)

  -- UserModel::query
  unfoldable pub query_user : ℤ → Program State User
  query_user id = connected sql no_user do
    rows ← call sql (
        execute_query (codes "select id,name,password,salt,state from User where id=?")
          (to_string id ∷ []))
    first_user sql rows

  unfoldable pub query_by_name : Bytes → Program State User
  query_by_name name = connected sql no_user do
    rows ← call sql (
        execute_query (codes "select id,name,password,salt,state from User where name=?")
          (name ∷ []))
    first_user sql rows

  unfoldable pub update_state : User → Program State Bool
  update_state user = connected sql false (
      call sql (
        execute_update (codes "update User set state=? where id=?")
          (user.state ∷ to_string user.id ∷ [])))

  unfoldable pub reset_state : Program State Bool
  reset_state =
      connected sql false (
        call sql (execute_update (codes "update User set state='offline' where state='online'") []))

  -- FriendModel::insert, with whether the row was stored, which the source does not look at.
  unfoldable pub insert_friend : ℤ → ℤ → Program State Bool
  insert_friend userid friendid = connected sql false (
      call sql (
        execute_update (codes "insert into Friend(userid,friendid) values(?,?)")
          (to_string userid ∷ to_string friendid ∷ [])))

  unfoldable pub users_of : Option (List (List Bytes)) → Program State (List User)
  users_of none = give []
  users_of (some rows) = each (to_user sql) rows

  -- FriendModel::query
  unfoldable pub query_friends : ℤ → Program State (List User)
  query_friends userid = connected sql [] do
    rows ← call sql (
        execute_query
          (codes
            "select a.id,a.name,a.password,a.salt,a.state from User a inner join Friend b on a.id=b.friendid where b.userid=?")
          (to_string userid ∷ []))
    users_of rows
