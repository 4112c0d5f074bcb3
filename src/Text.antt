-- ===== src/Text.antt =====
-- What the program takes apart: texts cut at a separator, lines, and the integers of std::stoi and
-- atoi.
pub mod Integers
use cluster_chatroom_project.Prelude.{
  ℕ, zero, suc, ◌+◌, ◌≡◌, refl, ap, Bool, true, false, Option, some, none, List, [], ◌∷◌, ◌++◌,
  Bytes, map, ◌==◌, if◌then◌else◌, arith,
}
use cluster_chatroom_project.Conversation.Decimal.{Lacks}

abbrev pub behind : ℕ → Option (Bytes × Bytes) → Option (Bytes × Bytes)
behind x none = none
behind x (some (k, v)) = some (x ∷ k, v)

-- find(c), with substr(0, pos) and substr(pos + 1); `none` is std::string::npos.
unfoldable pub cut : ℕ → Bytes → Option (Bytes × Bytes)
cut c [] = none
cut c (x ∷ xs) = let more = behind x (cut c xs) in if x == c then some ([], xs) else more

pub cut-append : (c : ℕ) (k v : Bytes) → Lacks c k → cut c (k ++ c ∷ v) ≡ some (k, v)
unfolding cut
cut-append c [] v h = ground arith
cut-append c (x ∷ k) v h = rw (cut-append c k v h.1) (ground (arith, h.0))

pub cut-Lacks : (c : ℕ) (xs : Bytes) → Lacks c xs → cut c xs ≡ none
unfolding cut
cut-Lacks c [] h = refl
cut-Lacks c (x ∷ xs) h = rw (cut-Lacks c xs h.1) (ground (arith, h.0))

abbrev pub grow : ℕ → List Bytes → List Bytes
grow c [] = (c ∷ []) ∷ []
grow c (l ∷ ls) = (c ∷ l) ∷ ls

-- getline until it fails: a newline ends a line, and the last line needs none.
unfoldable pub split_lines : Bytes → List Bytes
split_lines [] = []
split_lines (c ∷ cs) = let more = split_lines cs in if c == b'\n' then [] ∷ more else grow c more

pub split_lines-append :
    (l rest : Bytes) → Lacks b'\n' l → split_lines (l ++ b'\n' ∷ rest) ≡ l ∷ split_lines rest
unfolding split_lines
split_lines-append [] rest h = refl
split_lines-append (c ∷ l) rest h = rw (split_lines-append l rest h.1) (ground (arith, h.0))
