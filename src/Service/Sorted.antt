-- ===== src/Service/Sorted.antt =====
-- src/server/chatservice.cpp, `sortOfflineMessages`: what is kept, and in which order.
use mathlib.Core.List.{Perm}
use mathlib.Core.List.Perm
use cluster_chatroom_project.Prelude.{
  All, sym, ℕ, ◌≤◌, ◌≡◌, same, same_iff, not, Bool-cases, refl, ap, ap₂, subst, ◌∙◌, inl, inr, Bool,
  true, false, Option, some, none, List, [], ◌∷◌, Bytes, codes, same_comm, less, map, Option-cases,
  if_rule, if◌then◌else◌, arith,
}
use cluster_chatroom_project.Json.{JsonLib}
use cluster_chatroom_project.Service.Sorting.{
  Item, before, insert_item, stable_sort, with_conv, with_number, to_item, sort_offline_messages,
}

insert_item-Perm : (a : Item) (l : List Item) → Perm (insert_item a l) (a ∷ l)
unfolding insert_item
insert_item-Perm a [] = Perm.refl (a ∷ [])
insert_item-Perm a (b ∷ bs) =
    if_rule (λ r. Perm r (a ∷ b ∷ bs)) (before b a)
      (λ _. Perm.trans (Perm.cons b (insert_item-Perm a bs)) (Perm.swap a b bs))
      (λ _. Perm.refl (a ∷ b ∷ bs))

stable_sort-Perm : (l : List Item) → Perm (stable_sort l) l
unfolding stable_sort
stable_sort-Perm [] = Perm.refl []
stable_sort-Perm (a ∷ l) =
    Perm.trans (insert_item-Perm a (stable_sort l)) (Perm.cons a (stable_sort-Perm l))

less_asymm : (a b : Bytes) → less a b ≡ true → less b a ≡ false
less_asymm [] [] h = refl
less_asymm [] (y ∷ ys) h = refl
less_asymm (x ∷ xs) [] h = cc
less_asymm (x ∷ xs) (y ∷ ys) h = ground (arith, less_asymm xs ys)

before_asymm : (a b : Item) → before a b ≡ true → before b a ≡ false
unfolding before
before_asymm a b h = ground (arith, less_asymm a.conv b.conv, same_comm a.conv b.conv)

-- No item comes directly before one that belongs before it.
abbrev pub Sorted : List Item → Type 0
Sorted [] = Unit
Sorted (a ∷ []) = Unit
Sorted (a ∷ b ∷ l) = (before b a ≡ false) × Sorted (b ∷ l)

-- The items that a test picks.
abbrev pub pick : (Item → Bool) → List Item → List Item
pick p [] = []
pick p (a ∷ l) = if p a then a ∷ pick p l else pick p l

insert_item-Sorted_from :
    (a b : Item) (l : List Item)
    → before a b ≡ false
    → Sorted (b ∷ l)
    → Sorted (b ∷ insert_item a l)
unfolding insert_item
insert_item-Sorted_from a b [] h s = (h, tt)
insert_item-Sorted_from a b (c ∷ l) h s =
    if_rule (λ r. Sorted (b ∷ r)) (before c a)
      (λ e. (s.0, insert_item-Sorted_from a c l (before_asymm c a e) s.1)) (λ e. (h, (e, s.1)))

insert_item-Sorted : (a : Item) (l : List Item) → Sorted l → Sorted (insert_item a l)
unfolding insert_item
insert_item-Sorted a [] s = tt
insert_item-Sorted a (b ∷ l) s =
    if_rule Sorted (before b a) (λ e. insert_item-Sorted_from a b l (before_asymm b a e) s)
      (λ e. (e, s))

stable_sort-Sorted : (l : List Item) → Sorted (stable_sort l)
unfolding stable_sort
stable_sort-Sorted [] = tt
stable_sort-Sorted (a ∷ l) = insert_item-Sorted a (stable_sort l) (stable_sort-Sorted l)

-- Among the items that `p` picks, the comparison puts none first.
abbrev IsTied : (Item → Bool) → Type 0
IsTied p = (a b : Item) → p a ≡ true → p b ≡ true → before b a ≡ false

pick-insert_item :
    (p : Item → Bool) (a : Item) (l : List Item)
    → IsTied p
    → pick p (insert_item a l) ≡ pick p (a ∷ l)
unfolding insert_item
pick-insert_item p a [] t = refl
pick-insert_item p a (b ∷ l) t = ground (arith, pick-insert_item p a l t, t a b)

pick-stable_sort : (p : Item → Bool) (l : List Item) → IsTied p → pick p (stable_sort l) ≡ pick p l
unfolding stable_sort
pick-stable_sort p [] t = refl
pick-stable_sort p (a ∷ l) t =
    pick-insert_item p a (stable_sort l) t
    ∙ ap (λ k. if p a then a ∷ k else k) (pick-stable_sort p l t)

-- Item `a` may stand before `b`: unread items stand last; of two that were read, the conversations
-- are not in descending order, and in one conversation the numbers are not.
abbrev pub MayPrecede : Item → Item → Type 0
MayPrecede a b =
    (b.ok ≡ true → a.ok ≡ true)
    × (a.ok ≡ true → b.ok ≡ true → less b.conv a.conv ≡ false)
    × (a.ok ≡ true → b.ok ≡ true → a.conv ≡ b.conv → a.seq ≤ b.seq)

abbrev pub Ordered : List Item → Type 0
Ordered [] = Unit
Ordered (a ∷ []) = Unit
Ordered (a ∷ b ∷ l) = MayPrecede a b × Ordered (b ∷ l)

less_irrefl : (a : Bytes) → less a a ≡ false
less_irrefl [] = refl
less_irrefl (x ∷ xs) = ground (arith, less_irrefl xs)

before-MayPrecede : (a b : Item) → before b a ≡ false → MayPrecede a b
unfolding before
before-MayPrecede a b h = (
  λ o. ground arith,
  λ o p. elim (Bool-cases (same b.conv a.conv)) [
    | inl e ↦ let q = same_iff b.conv a.conv in ground (arith, q, less_irrefl a.conv)
    | inr e ↦ ground arith
  ],
  λ o p e. ground (arith, same_iff b.conv a.conv),
)

Sorted-Ordered : (l : List Item) → Sorted l → Ordered l
Sorted-Ordered [] s = tt
Sorted-Ordered (a ∷ []) s = tt
Sorted-Ordered (a ∷ b ∷ l) s = (before-MayPrecede a b s.0, Sorted-Ordered (b ∷ l) s.1)

unread-IsTied : IsTied (λ i. not i.ok)
unfolding before
unread-IsTied a b p q = ground arith

-- The sort of the offline messages keeps every item. Of two neighbours in what it gives, the first
-- was read if the second was; if both were, the conversation of the second is not before that of
-- the first, and in one conversation the number of the first is at most that of the second. The
-- items that were not read keep their order.
pub stable_sort-Ordered :
    (l : List Item)
    → Perm (stable_sort l) l
      × Ordered (stable_sort l)
      × (pick (λ i. not i.ok) (stable_sort l) ≡ pick (λ i. not i.ok) l)
stable_sort-Ordered l = (
  stable_sort-Perm l,
  Sorted-Ordered (stable_sort l) (stable_sort-Sorted l),
  pick-stable_sort (λ i. not i.ok) l unread-IsTied,
)

insert_item-All :
    (P : Item → Type 0) (a : Item) (l : List Item) → P a → All P l → All P (insert_item a l)
unfolding insert_item
insert_item-All P a [] p h = (p, tt)
insert_item-All P a (b ∷ bs) p h =
    if_rule (All P) (before b a) (λ _. (h.0, insert_item-All P a bs p h.1)) (λ _. (p, h))

stable_sort-All : (P : Item → Type 0) (l : List Item) → All P l → All P (stable_sort l)
unfolding stable_sort
stable_sort-All P [] h = tt
stable_sort-All P (a ∷ l) h = insert_item-All P a (stable_sort l) h.0 (stable_sort-All P l h.1)

module _ (lib : JsonLib) where
  with_conv-raw : (raw : Bytes) (n : ℕ) (f : Option lib.Json) → (with_conv lib raw n f).raw ≡ raw
  unfolding with_conv
  with_conv-raw raw n none = refl
  with_conv-raw raw n (some field) = elim (Option-cases (lib.as_string field)) [
    | inl e ↦ rw (e, with_conv) refl
    | inr (c, e) ↦ rw (e, with_conv) refl
  ]

  with_number-raw :
      (raw : Bytes) (j : lib.Json) (f : Option lib.Json) → (with_number lib raw j f).raw ≡ raw
  unfolding with_number
  with_number-raw raw j none = refl
  with_number-raw raw j (some field) = elim (Option-cases (lib.as_unsigned field)) [
    | inl e ↦ rw (e, with_number) refl
    | inr (n, e) ↦ rw (e, with_number) (with_conv-raw raw n (lib.find j (codes "convid")))
  ]

  to_item-raw : (raw : Bytes) → (to_item lib raw).raw ≡ raw
  unfolding to_item
  to_item-raw raw = elim (Option-cases (lib.parse raw)) [
    | inl e ↦ rw (e, to_item) refl
    | inr (j, e) ↦ rw (e, to_item) (with_number-raw raw j (lib.find j (codes "seq")))
  ]

  raws : (msgs : List Bytes) → map (λ (i : Item). i.raw) (map (to_item lib) msgs) ≡ msgs
  raws [] = refl
  raws (m ∷ ms) = ap₂ (◌∷◌) (to_item-raw m) (raws ms)

  -- Whether or not the offline messages can be parsed, sorting them loses none and adds none.
  pub sort_offline_messages-Perm : (msgs : List Bytes) → Perm (sort_offline_messages lib msgs) msgs
  unfolding sort_offline_messages
  sort_offline_messages-Perm msgs =
      subst (λ l. Perm (sort_offline_messages lib msgs) l) (raws msgs)
        (Perm.map (λ (i : Item). i.raw) (stable_sort-Perm (map (to_item lib) msgs)))

  to_items-All :
      (T : Bytes → Type 0) (msgs : List Bytes)
      → All T msgs
      → All (λ (i : Item). T i.raw) (map (to_item lib) msgs)
  to_items-All T [] h = tt
  to_items-All T (m ∷ ms) h = (subst T (sym (to_item-raw m)) h.0, to_items-All T ms h.1)

  raws-All :
      (T : Bytes → Type 0) (l : List Item)
      → All (λ (i : Item). T i.raw) l
      → All T (map (λ (i : Item). i.raw) l)
  raws-All T [] h = tt
  raws-All T (i ∷ l) h = (h.0, raws-All T l h.1)

  -- What holds of every message holds of those that are sorted.
  pub sort_offline_messages-All :
      (T : Bytes → Type 0) (msgs : List Bytes) → All T msgs → All T (sort_offline_messages lib msgs)
  unfolding sort_offline_messages
  sort_offline_messages-All T msgs h =
      raws-All T (stable_sort (map (to_item lib) msgs))
        (stable_sort-All (λ i. T i.raw) (map (to_item lib) msgs) (to_items-All T msgs h))
