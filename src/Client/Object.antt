-- ===== src/Client/Object.antt =====
-- A message that is made field by field, as the client and the server make theirs.
use mathlib.Core.Option.{some-injective}
use cluster_chatroom_project.Prelude.{
  ◌≡◌, refl, sym, ap, ◌∙◌, inl, inr, Option, some, List, [], ◌∷◌, Bytes, same, same_refl,
  Option-cases, if◌then◌else◌, ◌>>=◌, arith,
}
use cluster_chatroom_project.Json.{JsonLib}
use cluster_chatroom_project.Client.{assign, object}

module _ (lib : JsonLib) where
  open lib use {Json, null, find, set}

  -- The last field of that name, or what stood there before.
  abbrev pub look : Bytes → List (Bytes × Json) → Option Json → Option Json
  look i [] old = old
  look i ((k, v) ∷ fields) old = look i fields (if same k i then some v else old)

  pub assign-find :
      (js j : Json) (fields : List (Bytes × Json)) (i : Bytes)
      → assign lib js fields ≡ some j
      → find j i ≡ look i fields (find js i)
  unfolding assign
  assign-find js j [] i e = ap (λ x. find x i) (sym (some-injective _ _ e))
  assign-find js j ((k, v) ∷ fields) i e = elim (Option-cases (set js k v)) [
    | inl x ↦ absurd (ground arith)
    | inr (j', x) ↦
        let rest : assign lib j' fields ≡ some j = ground arith in
        assign-find j' j fields i rest ∙ ap (look i fields) (lib.find-set js j' v k i x)
  ]

  pub assign_total :
      (js x : Json) (k : Bytes) (fields : List (Bytes × Json))
      → find js k ≡ some x
      → (j : Json) × (assign lib js fields ≡ some j)
  unfolding assign
  assign_total js x k [] h = (js, refl)
  assign_total js x k ((i, v) ∷ fields) h = elim (Option-cases (set js i v)) [
    | inl e ↦ absurd (lib.set_object js x v k i h e)
    | inr (j, e) ↦
        let own : find j i ≡ some v =
          lib.find-set js j v i i e ∙ ap (λ b. if b then some v else find js i) (same_refl i) in
        let (j', r) = assign_total j v i fields own in
        (j', ap (λ o. o >>= λ t. assign lib t fields) e ∙ r)
  ]

  -- To make a message does not throw, and each field is there.
  pub object_total : (fields : List (Bytes × Json)) → (j : Json) × (object lib fields ≡ some j)
  unfolding object assign
  object_total [] = (null, refl)
  object_total ((k, v) ∷ fields) = elim (Option-cases (set null k v)) [
    | inl e ↦ absurd (lib.set-null k v e)
    | inr (j, e) ↦
        let own : find j k ≡ some v =
          lib.find-set null j v k k e ∙ ap (λ b. if b then some v else find null k) (same_refl k) in
        let (j', r) = assign_total j v k fields own in
        (j', ap (λ o. o >>= λ t. assign lib t fields) e ∙ r)
  ]

  pub object-find :
      (fields : List (Bytes × Json)) (j : Json) (i : Bytes)
      → object lib fields ≡ some j
      → find j i ≡ look i fields (find null i)
  unfolding object
  object-find fields j i e = assign-find null j fields i e
