-- ===== src/Database/Examples.antt =====
-- A transaction at a concrete database, which keeps the statements that succeeded.
use cluster_chatroom_project.Prelude.{
  refl, inl, Bool, true, false, some, List, [], ◌∷◌, Bytes, codes, length,
}
use cluster_chatroom_project.Prelude.Int.{pos}
use cluster_chatroom_project.Database.{Sql, Group}
use cluster_chatroom_project.Database.Transactions.{Transactions}

abbrev Statement : Type 0
Statement = Bytes × List Bytes

-- What is committed, what the transaction has, and whether there is one.
record Store : Type 0 where
  kept : List Statement
  seen : List Statement
  busy : Bool

abbrev run_statement : Bytes → List Bytes → List Statement → List Statement
run_statement q ps tables = (q, ps) ∷ tables

abbrev ledger : Sql
ledger = record {
  State = Store;
  get_connection = λ s. (s, true);
  execute_update = λ q ps s. (record s { seen = run_statement q ps s.seen }, true);
  execute_query = λ q ps s. (s, some []);
  last_insert_id = λ s. pos (length s.seen);
  begin = λ s. (record s { seen = s.kept; busy = true }, true);
  commit = λ s. (record s { kept = s.seen; busy = false }, true);
  rollback = λ s. record s { seen = s.kept; busy = false };
  sha256 = λ b. b;
  draw = λ s. (s, []);
}

abbrev ledger_transactions : Transactions ledger
ledger_transactions = record {
  Tables = List Statement;
  committed = λ s. s.kept;
  working = λ s. s.seen;
  is_open = λ s. s.busy;
  apply = run_statement;
  committed-get_connection = λ s. refl;
  committed-begin = λ s. refl;
  working-begin = λ s e. (refl, refl);
  committed-execute_update = λ q ps s o. refl;
  open-execute_update = λ q ps s o e. o;
  working-execute_update = λ q ps s o e. refl;
  committed-commit = λ s o. inl refl;
  committed-rollback = λ s. refl;
}

abbrev club : Group
club = record { id = pos 0; name = codes "club"; desc = []; users = [] }

abbrev empty_store : Store
empty_store = record { kept = []; seen = []; busy = false }
