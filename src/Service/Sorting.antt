-- ===== src/Service/Sorting.antt =====
-- src/server/chatservice.cpp: sortOfflineMessages.
use cluster_chatroom_project.Prelude.{
  ℕ, Bool, true, false, Option, some, none, List, [], ◌∷◌, Bytes, codes, same, less, map, ltb,
  if◌then◌else◌,
}
use cluster_chatroom_project.Json.{JsonLib}

pub record Item : Type 0 where
  pub raw : Bytes
  pub conv : Bytes
  pub seq : ℕ
  pub ok : Bool

-- The comparison.
unfoldable pub before : Item → Item → Bool
before a b =
    if a.ok
    then (if b.ok
        then (if same a.conv b.conv then ltb a.seq b.seq else less a.conv b.conv)
        else true)
    else false

-- std::stable_sort: a stable sort, here by insertion.
unfoldable pub insert_item : Item → List Item → List Item
insert_item a [] = a ∷ []
insert_item a (b ∷ bs) = if before b a then b ∷ insert_item a bs else a ∷ b ∷ bs

unfoldable pub stable_sort : List Item → List Item
stable_sort [] = []
stable_sort (a ∷ rest) = insert_item a (stable_sort rest)

module _ (lib : JsonLib) where
  open lib use {Json, parse, find, as_unsigned, as_string}

  -- An item that stays as it is made, unless its number is read.
  abbrev pub unnumbered : Bytes → Item
  unnumbered raw = record { raw = raw; conv = []; seq = 0; ok = false }

  -- Behind the number: a convid that is no string throws.
  unfoldable pub with_conv : Bytes → ℕ → Option Json → Item
  with_conv raw n none = record { raw = raw; conv = []; seq = n; ok = true }
  with_conv raw n (some field) = elim (as_string field) [
    | none ↦ record { raw = raw; conv = []; seq = n; ok = false }
    | some conv ↦ record { raw = raw; conv = conv; seq = n; ok = true }
  ]

  unfoldable pub with_number : Bytes → Json → Option Json → Item
  with_number raw j none = unnumbered raw
  with_number raw j (some field) = elim (as_unsigned field) [
    | none ↦ unnumbered raw
    | some n ↦ with_conv raw n (find j (codes "convid"))
  ]

  unfoldable pub to_item : Bytes → Item
  to_item raw = elim (parse raw) [
    | none ↦ unnumbered raw
    | some j ↦ with_number raw j (find j (codes "seq"))
  ]

  unfoldable pub sort_offline_messages : List Bytes → List Bytes
  sort_offline_messages msgs = map (λ (i : Item). i.raw) (stable_sort (map to_item msgs))
