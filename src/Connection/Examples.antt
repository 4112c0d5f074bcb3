-- ===== src/Connection/Examples.antt =====
-- A result set whose second row is too long for the buffers.
use cluster_chatroom_project.Prelude.{
  ℕ, zero, suc, ◌≡◌, refl, inl, inr, true, false, ◌&&◌, some, none, List, [], ◌∷◌, Bytes, codes,
  length, ◌<◌, map, if◌then◌else◌, arith,
}
use cluster_chatroom_project.Connection.{QueryAnswers, execute_query}
use cluster_chatroom_project.Connection.Rows.{
  Row, fits, text_of, Documented, until_long, execute_query-until_long,
}

abbrev zeros : ℕ → Bytes
zeros zero = []
zeros (suc n) = 0 ∷ zeros n

length-zeros : (n : ℕ) → length (zeros n) ≡ n
length-zeros zero = refl
length-zeros (suc n) = omega (arith, length-zeros n)

abbrev rows : List Row
rows = (some (codes "hi") ∷ []) ∷ (some (zeros 5000) ∷ []) ∷ (some (codes "lost") ∷ []) ∷ []

abbrev answers : QueryAnswers
answers = record {
  init = true;
  prepare = true;
  execute = true;
  store_result = true;
  metadata = true;
  fetches =
      record { code = 0; columns = some (codes "hi", 2) ∷ [] }
      ∷ record { code = 101; columns = some ([], 5000) ∷ [] }
      ∷ record { code = 0; columns = some (codes "lost", 4) ∷ [] }
      ∷ record { code = 100; columns = [] }
      ∷ [];
}

too_long : (text : Bytes) → 4096 < length text → fits (some text ∷ []) ≡ false
too_long text h = ground arith

long_row : fits (some (zeros 5000) ∷ []) ≡ false
long_row = too_long (zeros 5000) (omega (arith, length-zeros 5000))

rows-Documented : Documented rows answers.fetches
rows-Documented =
    (inl (refl, refl, (refl, tt)), (inr (long_row, refl), (inl (refl, refl, (refl, tt)), refl)))

execute_query-until_long_example : execute_query answers ≡ (
    if answers.init && answers.prepare && answers.execute && answers.store_result
    then some (if answers.metadata then map (map text_of) (until_long rows) else [])
    else none)
execute_query-until_long_example = execute_query-until_long answers rows rows-Documented
