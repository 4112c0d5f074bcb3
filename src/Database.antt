-- ===== src/Database.antt =====
-- src/server/muduo: UserModel, FriendModel, GroupModel and OfflineMessageModel, over a parameter
-- that stands for the pool's connections and MySQL behind them.
pub mod Rows
pub mod Users
pub mod Groups
pub mod Offline
pub mod Transactions
mod Examples
use cluster_chatroom_project.Prelude.{
  ℕ, suc, ◌+◌, ◌-◌, Bool, true, false, not, Option, some, none, List, [], ◌∷◌, ◌++◌, Bytes, codes,
  if◌then◌else◌,
}
use cluster_chatroom_project.Prelude.Int.{ℤ, pos, negsuc}
use cluster_chatroom_project.Effect.{Program, give, throws, other_exception, ◌>>=◌, ◌>>◌}
use cluster_chatroom_project.Database.Rows.{stoi, column}

-- getConnection, with whether it gives one; executeUpdate; executeQuery, with the rows unless it
-- fails; lastInsertId, as an int; begin, commit and rollback; SHA256 and the random numbers.
pub record Sql : Type 1 where
  pub State : Type 0
  pub get_connection : State → State × Bool
  pub execute_update : Bytes → List Bytes → State → State × Bool
  pub execute_query : Bytes → List Bytes → State → State × Option (List (List Bytes))
  pub last_insert_id : State → ℤ
  pub begin : State → State × Bool
  pub commit : State → State × Bool
  pub rollback : State → State
  pub sha256 : Bytes → Bytes
  pub draw : State → State × List ℕ

pub record User : Type 0 where
  pub id : ℤ
  pub name : Bytes
  pub password : Bytes
  pub salt : Bytes
  pub state : Bytes

abbrev pub no_user : User
no_user = record { id = negsuc 0; name = []; password = []; salt = []; state = codes "offline" }

pub record GroupUser : Type 0 where
  pub user : User
  pub role : Bytes

pub record Group : Type 0 where
  pub id : ℤ
  pub name : Bytes
  pub desc : Bytes
  pub users : List GroupUser

module _ (sql : Sql) where
  open sql use {
    State, get_connection, execute_update, execute_query, last_insert_id, begin, commit, rollback,
    sha256, draw,
  }

  -- A call of the parameter that always returns.
  abbrev pub call : {A : Type 0} → (State → State × A) → Program State A
  call f s = let (s', a) = f s in give a s'

  -- A model's method: what it returns without a connection, and the rest of it.
  abbrev pub connected : {A : Type 0} → A → Program State A → Program State A
  connected failure rest = do ok ← call get_connection; if ok then rest else give failure

  -- A row of "select id,name,password,salt,state"
  unfoldable pub to_user : List Bytes → Program State User
  to_user row = do
    id ← stoi (column 0 row)
    give (record {
      id = id;
      name = column 1 row;
      password = column 2 row;
      salt = column 3 row;
      state = column 4 row;
    })

  unfoldable pub first_user : Option (List (List Bytes)) → Program State User
  first_user (some (row ∷ rows)) = to_user row
  first_user _ = give no_user
