-- ===== src/Crypto/Equality.antt =====
-- src/server/db/crypto.cpp: `safeEqual` beside equality.
use cluster_chatroom_project.Prelude.{
  ℕ, zero, suc, ◌*◌, ◌/◌, ◌<◌, ◌≡◌, ◌↔◌, true, [], ◌∷◌, Bytes, length, All, if_rule, ◌==◌, arith,
}
use cluster_chatroom_project.Crypto.{xor, or, difference, safe_equal}

-- How many numbers have `f` bits.
abbrev pow : ℕ → ℕ
pow zero = 1
pow (suc f) = 2 * pow f

xor_zero : (f a b : ℕ) → a < pow f → b < pow f → (xor f a b ≡ 0) ↔ (a ≡ b)
unfolding xor
xor_zero zero a b h k = ground arith
xor_zero (suc f) a b h k =
    let ih : (xor f (a / 2) (b / 2) ≡ 0) ↔ (a / 2 ≡ b / 2) =
      xor_zero f (a / 2) (b / 2) (omega arith) (omega arith) in
    ground (arith, ih)

xor_bound : (f a b : ℕ) → xor f a b < pow f
unfolding xor
xor_bound zero a b = omega arith
xor_bound (suc f) a b = grind (arith, xor_bound f (a / 2) (b / 2))

or_zero : (f a b : ℕ) → a < pow f → b < pow f → (or f a b ≡ 0) ↔ ((a ≡ 0) × (b ≡ 0))
unfolding or
or_zero zero a b h k = ground arith
or_zero (suc f) a b h k =
    let ih : (or f (a / 2) (b / 2) ≡ 0) ↔ ((a / 2 ≡ 0) × (b / 2 ≡ 0)) =
      or_zero f (a / 2) (b / 2) (omega arith) (omega arith) in
    ground (arith, ih)

or_bound : (f a b : ℕ) → or f a b < pow f
unfolding or
or_bound zero a b = omega arith
or_bound (suc f) a b = grind (arith, or_bound f (a / 2) (b / 2))

abbrev pub IsByte : ℕ → Type 0
IsByte c = c < 256

difference_zero :
    (diff : ℕ) (a b : Bytes)
    → IsByte diff
    → All IsByte a
    → All IsByte b
    → length a ≡ length b
    → (difference diff a b ≡ 0) ↔ ((diff ≡ 0) × (a ≡ b))
unfolding difference
difference_zero diff [] [] d ha hb e = ground arith
difference_zero diff [] (y ∷ ys) d ha hb e = absurd (omega arith)
difference_zero diff (x ∷ xs) [] d ha hb e = absurd (omega arith)
difference_zero diff (x ∷ xs) (y ∷ ys) d ha hb e =
    let z = xor 8 x y in
    let ih = difference_zero (or 8 diff z) xs ys (or_bound 8 diff z) ha.1 hb.1 (omega arith) in
    let o = or_zero 8 diff z d (xor_bound 8 x y) in
    let q = xor_zero 8 x y ha.0 hb.0 in ground (arith, ih, o, q)

-- On texts of bytes, `safeEqual` is true exactly if they are equal.
pub safe_equal_iff : (a b : Bytes) → All IsByte a → All IsByte b → (safe_equal a b ≡ true) ↔ (a ≡ b)
unfolding safe_equal
safe_equal_iff a b ha hb =
    if_rule (λ x. (x ≡ true) ↔ (a ≡ b)) (length a == length b)
      (λ e. let d = difference_zero 0 a b (omega arith) ha hb (ground arith) in ground (arith, d))
      (λ n. ground arith)
