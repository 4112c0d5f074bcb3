-- ===== src/Connection/Rows.antt =====
-- src/server/db/connection.cpp, `executeQuery`: the rows that come out of a result set.
use cluster_chatroom_project.Prelude.{
  ℕ, ◌≡◌, refl, ap, ap₂, ◌⊎◌, inl, inr, Bool, true, false, ◌&&◌, Option, some, none, List, [], ◌∷◌,
  Bytes, length, map, take, leb, if◌then◌else◌, arith,
}
use cluster_chatroom_project.Connection.{
  buffer_size, Fetched, column_text, fetch_rows, QueryAnswers, execute_query,
}

abbrev pub Row : Type 0
Row = List (Option Bytes)

-- Whether every column fits into its buffer.
abbrev pub fits : Row → Bool
fits [] = true
fits (none ∷ row) = fits row
fits (some text ∷ row) = leb (length text) buffer_size && fits row

-- What the client has of a row: a null value is an empty text.
abbrev pub text_of : Option Bytes → Bytes
text_of none = []
text_of (some text) = text

-- A column as mysql_stmt_fetch documents it: the buffer has the text, if it fits, and the length is
-- the text's.
abbrev pub Holds : Row → List (Option (Bytes × ℕ)) → Type 0
Holds [] [] = Unit
Holds (none ∷ row) (none ∷ cs) = Holds row cs
Holds (some text ∷ row) (some (buffer, n) ∷ cs) = (take n buffer ≡ text) × Holds row cs
Holds _ _ = ⊥

-- The fetches of a result set, as documented: 0 for a row that fits, with its columns; 101,
-- MYSQL_DATA_TRUNCATED, for one that does not; 100, MYSQL_NO_DATA, behind the last.
abbrev pub Documented : List Row → List Fetched → Type 0
Documented [] [] = ⊥
Documented [] (f ∷ fs) = f.code ≡ 100
Documented (row ∷ rows) [] = ⊥
Documented (row ∷ rows) (f ∷ fs) =
    (((fits row ≡ true) × (f.code ≡ 0) × Holds row f.columns)
      ⊎ ((fits row ≡ false) × (f.code ≡ 101)))
    × Documented rows fs

-- The rows before the first that does not fit.
abbrev pub until_long : List Row → List Row
until_long [] = []
until_long (row ∷ rows) = if fits row then row ∷ until_long rows else []

column_text-Holds :
    (row : Row) (cs : List (Option (Bytes × ℕ)))
    → Holds row cs
    → map column_text cs ≡ map text_of row
column_text-Holds [] [] h = refl
column_text-Holds [] (c ∷ cs) h = elim h [ ]
column_text-Holds (none ∷ row) [] h = elim h [ ]
column_text-Holds (some text ∷ row) [] h = elim h [ ]
column_text-Holds (none ∷ row) (none ∷ cs) h = ap (◌∷◌ []) (column_text-Holds row cs h)
column_text-Holds (none ∷ row) (some c ∷ cs) h = elim h [ ]
column_text-Holds (some text ∷ row) (none ∷ cs) h = elim h [ ]
column_text-Holds (some text ∷ row) (some (b, n) ∷ cs) h =
    ap₂ (◌∷◌) h.0 (column_text-Holds row cs h.1)

fetch_rows-Documented :
    (rows : List Row) (fs : List Fetched)
    → Documented rows fs
    → fetch_rows fs ≡ map (map text_of) (until_long rows)
unfolding fetch_rows
fetch_rows-Documented [] [] d = elim d [ ]
fetch_rows-Documented [] (f ∷ fs) d = rw d refl
fetch_rows-Documented (row ∷ rows) [] d = elim d [ ]
fetch_rows-Documented (row ∷ rows) (f ∷ fs) (inl (a, z, h), d) =
    ground (arith, column_text-Holds row f.columns h, fetch_rows-Documented rows fs d)
fetch_rows-Documented (row ∷ rows) (f ∷ fs) (inr (a, z), d) = ground arith

-- If MySQL answers the fetches as documented, with an error at the first row that has a column
-- longer than 4096 bytes: `executeQuery` gives the rows before that row and drops it and all behind
-- it without an error; and it fails just if one of the calls before the result fails.
pub execute_query-until_long :
    (a : QueryAnswers) (rows : List Row)
    → Documented rows a.fetches
    → execute_query a ≡ (
        if a.init && a.prepare && a.execute && a.store_result
        then some (if a.metadata then map (map text_of) (until_long rows) else [])
        else none)
unfolding execute_query
execute_query-until_long a rows d = ground (arith, fetch_rows-Documented rows a.fetches d)
