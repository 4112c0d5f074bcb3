-- ===== src/Database/Transactions.antt =====
-- src/server/muduo/groupmodel.cpp: `createGroupWithCreator` as one transaction. What MySQL
-- documents of transactions is a parameter.
use cluster_chatroom_project.Prelude.{◌≡◌, ◌⊎◌, Bool, true, false, List, [], ◌∷◌, Bytes, codes}
use cluster_chatroom_project.Prelude.Int.{ℤ}
use cluster_chatroom_project.Conversation.Decimal.{to_string}
use cluster_chatroom_project.Effect.{Result, done, thrown}
use cluster_chatroom_project.Database.{Sql, Group}

-- What the tables hold for others, what they hold within the connection's transaction, whether
-- there is one, and what a statement does to the tables.
pub record Transactions (sql : Sql) : Type 1 where
  pub Tables : Type 0
  pub committed : sql.State → Tables
  pub working : sql.State → Tables
  pub is_open : sql.State → Bool
  pub apply : Bytes → List Bytes → Tables → Tables
  pub committed-get_connection : (s : sql.State) → committed (sql.get_connection s).0 ≡ committed s
  -- START TRANSACTION
  pub committed-begin : (s : sql.State) → committed (sql.begin s).0 ≡ committed s
  pub working-begin :
      (s : sql.State)
      → (sql.begin s).1 ≡ true
      → (working (sql.begin s).0 ≡ committed s) × (is_open (sql.begin s).0 ≡ true)
  -- A statement within a transaction, which is still open if the statement succeeds
  pub committed-execute_update :
      (q : Bytes) (ps : List Bytes) (s : sql.State)
      → is_open s ≡ true
      → committed (sql.execute_update q ps s).0 ≡ committed s
  pub open-execute_update :
      (q : Bytes) (ps : List Bytes) (s : sql.State)
      → is_open s ≡ true
      → (sql.execute_update q ps s).1 ≡ true
      → is_open (sql.execute_update q ps s).0 ≡ true
  pub working-execute_update :
      (q : Bytes) (ps : List Bytes) (s : sql.State)
      → is_open s ≡ true
      → (sql.execute_update q ps s).1 ≡ true
      → working (sql.execute_update q ps s).0 ≡ apply q ps (working s)
  -- COMMIT, which may fail and then has done all or nothing, and ROLLBACK
  pub committed-commit :
      (s : sql.State)
      → is_open s ≡ true
      → (committed (sql.commit s).0 ≡ working s)
        ⊎ (((sql.commit s).1 ≡ false) × (committed (sql.commit s).0 ≡ committed s))
  pub committed-rollback : (s : sql.State) → committed (sql.rollback s) ≡ committed s

module _ (sql : Sql) (transactions : Transactions sql) where
  open sql use {State, get_connection, begin, execute_update, last_insert_id, commit}
  open transactions use {
    Tables, committed, working, is_open, apply, committed-get_connection, committed-begin,
    working-begin, committed-execute_update, open-execute_update, working-execute_update,
    committed-commit, committed-rollback,
  }

  -- The tables with the group's row, and with its creator's as well.
  abbrev pub with_group : Group → Tables → Tables
  with_group group =
      apply (codes "insert into AllGroup(groupname,groupdesc) values(?,?)")
        (group.name ∷ group.desc ∷ [])

  abbrev pub with_creator : Group → ℤ → Tables → Tables
  with_creator group creator =
      apply (codes "insert into GroupUser(groupid,userid,role) values(?,?,?)")
        (to_string group.id ∷ to_string creator ∷ codes "creator" ∷ [])

  -- After true, both rows are there for others, the second with the group's new id, or nothing is, and
  -- the last call was a COMMIT that failed; after false, nothing is.
  abbrev pub AllOrNothing : Group → ℤ → Tables → State × Result (Group × Bool) → Type 0
  AllOrNothing group creator old (s, done (stored, true)) =
      (committed s ≡ with_creator stored creator (with_group group old))
      ⊎ ((committed s ≡ old) × ((t : State) × (s ≡ (commit t).0) × ((commit t).1 ≡ false)))
  AllOrNothing group creator old (s, done (stored, false)) = committed s ≡ old
  AllOrNothing group creator old (s, thrown e) = ⊥
