-- ===== src/Service/Accounts/Login.antt =====
-- src/server/chatservice.cpp: login.
use cluster_chatroom_project.Prelude.{
  ℕ, Bool, not, ◌&&◌, List, [], ◌∷◌, Bytes, codes, same, if◌then◌else◌,
}
use cluster_chatroom_project.Prelude.Int.{ℤ, pos, negsuc, eqb_ℤ}
use cluster_chatroom_project.Json.{JsonLib}
use cluster_chatroom_project.Crypto.{safe_equal, hash_password}
use cluster_chatroom_project.Effect.{Program, done, give, ◌>>=◌, ◌>>◌, each}
use cluster_chatroom_project.Database.{User, GroupUser, Group}
use cluster_chatroom_project.Database.Users.{query_by_name, update_state, query_friends}
use cluster_chatroom_project.Database.Groups.{query_groups}
use cluster_chatroom_project.Database.Offline.{query_messages, remove_messages}
use cluster_chatroom_project.Service.{
  World, Machine, insert_conn, in_world, subscribe, or_throw, get_string, set_field, respond,
}
use cluster_chatroom_project.Service.Sorting.{sort_offline_messages}

-- The error messages, in UTF-8.
abbrev pub already_logged_in : Bytes
already_logged_in =
    232 ∷ 175 ∷ 165 ∷ 232 ∷ 180 ∷ 166 ∷ 229 ∷ 143 ∷ 183 ∷ 229 ∷ 183 ∷ 178 ∷ 231 ∷ 187 ∷ 143 ∷ 231
    ∷ 153 ∷ 187 ∷ 229 ∷ 189 ∷ 149 ∷ 239 ∷ 188 ∷ 140 ∷ 228 ∷ 184 ∷ 141 ∷ 232 ∷ 131 ∷ 189 ∷ 233 ∷ 135
    ∷ 141 ∷ 229 ∷ 164 ∷ 141 ∷ 231 ∷ 153 ∷ 187 ∷ 229 ∷ 189 ∷ 149 ∷ []

abbrev pub wrong_password : Bytes
wrong_password =
    231 ∷ 148 ∷ 168 ∷ 230 ∷ 136 ∷ 183 ∷ 229 ∷ 144 ∷ 141 ∷ 230 ∷ 136 ∷ 150 ∷ 229 ∷ 175 ∷ 134 ∷ 231
    ∷ 160 ∷ 129 ∷ 233 ∷ 148 ∷ 153 ∷ 232 ∷ 175 ∷ 175 ∷ []

module _ (world : World) (lib : JsonLib) where
  open world use {sql}
  open lib use {Json, null, dump, of_int, of_string, of_strings}

  -- The beginning of a response: msgid and errno.
  unfoldable pub acknowledge : ℤ → Program (Machine sql.State) Json
  acknowledge errno = do
    j1 ← set_field world lib (codes "msgid") (of_int (pos 2)) null
    set_field world lib (codes "errno") (of_int errno) j1

  unfoldable pub refuse : ℕ → ℤ → Bytes → Program (Machine sql.State) Unit
  refuse conn errno errmsg = do
    j1 ← acknowledge errno
    j2 ← set_field world lib (codes "errmsg") (of_string errmsg) j1
    respond world lib conn j2

  -- A list of texts as a field, unless there are none.
  unfoldable pub set_texts : Bytes → List Bytes → Json → Program (Machine sql.State) Json
  set_texts k [] js = give js
  set_texts k (t ∷ ts) js = set_field world lib k (of_strings (t ∷ ts)) js

  unfoldable pub friend_text : User → Program (Machine sql.State) Bytes
  friend_text user = do
    j1 ← set_field world lib (codes "id") (of_int user.id) null
    j2 ← set_field world lib (codes "name") (of_string user.name) j1
    j3 ← set_field world lib (codes "state") (of_string user.state) j2
    or_throw world lib (dump j3)

  unfoldable pub member_text : GroupUser → Program (Machine sql.State) Bytes
  member_text member = do
    j1 ← set_field world lib (codes "id") (of_int member.user.id) null
    j2 ← set_field world lib (codes "name") (of_string member.user.name) j1
    j3 ← set_field world lib (codes "state") (of_string member.user.state) j2
    j4 ← set_field world lib (codes "role") (of_string member.role) j3
    or_throw world lib (dump j4)

  unfoldable pub group_text : Group → Program (Machine sql.State) Bytes
  group_text group = do
    j1 ← set_field world lib (codes "id") (of_int group.id) null
    j2 ← set_field world lib (codes "groupname") (of_string group.name) j1
    j3 ← set_field world lib (codes "groupdesc") (of_string group.desc) j2
    users ← each member_text group.users
    j4 ← set_field world lib (codes "users") (of_strings users) j3
    or_throw world lib (dump j4)

  -- The stored messages are taken, unless there are none.
  unfoldable pub take_offline : ℤ → Json → List Bytes → Program (Machine sql.State) Json
  take_offline id response [] = give response
  take_offline id response (m ∷ ms) = do
    j ←
        set_field world lib (codes "offlinemsg") (of_strings (sort_offline_messages lib (m ∷ ms)))
          response
    in_world world (remove_messages lib sql id)
    give j

  abbrev pub record_conn : ℤ → ℕ → Program (Machine sql.State) Unit
  record_conn id conn m = (record m { conns = insert_conn id conn m.conns }, done tt)

  -- The branch in which the user comes online.
  unfoldable pub welcome : ℕ → User → Program (Machine sql.State) Unit
  welcome conn user = do
    record_conn user.id conn
    subscribe world user.id
    in_world world (update_state sql (record user { state = codes "online" }))
    j1 ← acknowledge (pos 0)
    j2 ← set_field world lib (codes "id") (of_int user.id) j1
    j3 ← set_field world lib (codes "name") (of_string user.name) j2
    messages ← in_world world (query_messages lib sql user.id)
    j4 ← take_offline user.id j3 messages
    friends ← in_world world (query_friends sql user.id)
    friend_texts ← each friend_text friends
    j5 ← set_texts (codes "friends") friend_texts j4
    groups ← in_world world (query_groups sql user.id)
    group_texts ← each group_text groups
    j6 ← set_texts (codes "groups") group_texts j5
    respond world lib conn j6

  -- Whether the name and the password are a user's.
  unfoldable pub is_right : User → Bytes → Bool
  is_right user password =
      not (eqb_ℤ user.id (negsuc 0))
      && safe_equal (hash_password sql.sha256 user.salt password) user.password

  unfoldable pub log_in : ℕ → User → Bytes → Program (Machine sql.State) Unit
  log_in conn user password =
      if is_right user password
      then (if same user.state (codes "online")
          then refuse conn (pos 2) already_logged_in
          else welcome conn user)
      else refuse conn (pos 1) wrong_password

  unfoldable pub login : ℕ → Json → Program (Machine sql.State) Unit
  login conn js = do
    name ← get_string world lib js (codes "name")
    password ← get_string world lib js (codes "password")
    user ← in_world world (query_by_name sql name)
    log_in conn user password
