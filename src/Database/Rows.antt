-- ===== src/Database/Rows.antt =====
-- What the models read from a row: a column's text, and std::stoi of it.
use cluster_chatroom_project.Prelude.{ℕ, zero, suc, some, none, List, [], ◌∷◌, Bytes}
use cluster_chatroom_project.Prelude.Int.{ℤ}
use cluster_chatroom_project.Text.Integers.{parse_int}
use cluster_chatroom_project.Effect.{Program, give, throws, other_exception}

-- A query's row has the columns that the query names.
abbrev pub column : ℕ → List Bytes → Bytes
column n [] = []
column zero (c ∷ cs) = c
column (suc n) (c ∷ cs) = column n cs

-- std::stoi throws std::invalid_argument or std::out_of_range.
unfoldable pub stoi : {S : Type 0} → Bytes → Program S ℤ
stoi text = elim (parse_int text) [ none ↦ throws other_exception | some n ↦ give n ]
