-- ===== src/Connection.antt =====
-- src/server/db/connection.cpp: the prepared statements of `Connection`. What each call of the MySQL
-- C API answers is an argument.
pub mod Rows
mod Examples
use cluster_chatroom_project.Prelude.{
  ℕ, zero, suc, ◌+◌, Bool, true, false, not, ◌&&◌, Option, some, none, List, [], ◌∷◌, Bytes, map,
  take, ◌==◌, if◌then◌else◌,
}

-- kBuf
abbrev pub buffer_size : ℕ
buffer_size = 4096

-- Whether mysql_stmt_init gives a statement, and whether each of the calls after it gives 0.
pub record UpdateAnswers : Type 0 where
  pub init : Bool
  pub prepare : Bool
  pub bind_param : Bool
  pub execute : Bool

abbrev pub is_empty : List Bytes → Bool
is_empty [] = true
is_empty (p ∷ ps) = false

-- Parameters are bound if there are any.
unfoldable pub execute_update : UpdateAnswers → List Bytes → Bool
execute_update a params =
    if not a.init
    then false
    else if not a.prepare
    then false
    else if not (is_empty params) && not a.bind_param
    then false
    else a.execute

-- One mysql_stmt_fetch: what it gives, and for each column the buffer's bytes and the length, or a
-- null value.
pub record Fetched : Type 0 where
  pub code : ℕ
  pub columns : List (Option (Bytes × ℕ))

-- `string(bufs[i].data(),outLens[i])`, for a length within the buffer.
abbrev pub column_text : Option (Bytes × ℕ) → Bytes
column_text none = []
column_text (some (buffer, n)) = take n buffer

unfoldable pub fetch_rows : List Fetched → List (List Bytes)
fetch_rows [] = []
fetch_rows (f ∷ fs) =
    let more = fetch_rows fs in if f.code == 0 then map column_text f.columns ∷ more else []

-- The calls of `executeQuery`, and whether the statement has a result set. The result of
-- mysql_stmt_bind_param is not looked at.
pub record QueryAnswers : Type 0 where
  pub init : Bool
  pub prepare : Bool
  pub execute : Bool
  pub store_result : Bool
  pub metadata : Bool
  pub fetches : List Fetched

-- The rows; `none` where the method returns false.
unfoldable pub execute_query : QueryAnswers → Option (List (List Bytes))
execute_query a =
    if not a.init
    then none
    else if not a.prepare
    then none
    else if not a.execute
    then none
    else if not a.store_result
    then none
    else if not a.metadata
    then some []
    else some (fetch_rows a.fetches)
