-- ===== src/Conversation/Decimal.antt =====
-- std::to_string of an int: a minus sign, if any, and decimal digits.
use cluster_chatroom_project.Prelude.{
  ℕ, zero, suc, ◌+◌, ◌-◌, ◌*◌, ◌/◌, ◌%◌, ◌≤◌, ◌<◌, ◌≡◌, ◌≢◌, ◌⊎◌, refl, sym, subst, ap, ◌∙◌, [],
  ◌∷◌, ◌++◌, Bytes, All, All-append, arith, ltb, if◌then◌else◌, if_rule,
}
use cluster_chatroom_project.Prelude.Int.{ℤ, pos, negsuc}

-- The digits of `n`, on fuel: one more than there are digits is enough.
unfoldable pub digits : ℕ → ℕ → Bytes
digits zero n = []
digits (suc f) n =
    let more = digits f (n / 10) in if ltb n 10 then (48 + n) ∷ [] else more ++ (48 + n % 10) ∷ []

-- The fuel `n + 1` is never used up, since each round divides by ten.
unfoldable pub to_string : ℤ → Bytes
unfolding digits
to_string (pos n) = digits (n + 1) n
to_string (negsuc n) = b'-' ∷ digits (n + 2) (n + 1)

-- What a text of digits stands for.
unfoldable pub value : ℕ → Bytes → ℕ
value acc [] = acc
value acc (c ∷ cs) = value (acc * 10 + (c - 48)) cs

value-append : (acc c : ℕ) (xs : Bytes) → value acc (xs ++ c ∷ []) ≡ value acc xs * 10 + (c - 48)
unfolding value
value-append acc c [] = refl
value-append acc c (x ∷ xs) = value-append (acc * 10 + (x - 48)) c xs

pub value-digits : (f n : ℕ) → n < f → value 0 (digits f n) ≡ n
unfolding digits
value-digits zero n h = absurd (omega arith)
value-digits (suc f) n h =
    if_rule {A = Bytes} (λ b. value 0 b ≡ n) (ltb n 10) (λ l. unfold value in ground arith)
      (λ g.
        value-append 0 (48 + n % 10) (digits f (n / 10)) ∙ ground (arith, value-digits f (n / 10)))

abbrev pub IsDigit : ℕ → Type 0
IsDigit c = (48 ≤ c) × (c < 58)

pub digits-IsDigit : (f n : ℕ) → All IsDigit (digits f n)
unfolding digits
digits-IsDigit zero n = tt
digits-IsDigit (suc f) n =
    if_rule {A = Bytes} (All IsDigit) (ltb n 10) (λ l. (ground arith, tt))
      (λ g. All-append IsDigit (digits f (n / 10)) _ (digits-IsDigit f (n / 10)) (omega arith))

pub digits_injective : (f g n m : ℕ) → n < f → m < g → digits f n ≡ digits g m → n ≡ m
digits_injective f g n m hn hm e = sym (value-digits f n hn) ∙ ap (value 0) e ∙ value-digits g m hm

-- A text of digits does not begin with the minus sign.
minus_no_digits : (f n : ℕ) (xs : Bytes) → digits f n ≢ b'-' ∷ xs
minus_no_digits f n xs e =
    let d = subst (All IsDigit) e (digits-IsDigit f n) in absurd (omega arith)

tail_eq : (x y : ℕ) (xs ys : Bytes) → ◌≡◌ {A = Bytes} (x ∷ xs) (y ∷ ys) → xs ≡ ys
tail_eq x y xs ys e = cc

-- Two ints with one text are equal.
pub to_string_injective : (a b : ℤ) → to_string a ≡ to_string b → a ≡ b
unfolding to_string
to_string_injective (pos n) (pos m) e =
    ap pos (digits_injective (n + 1) (m + 1) n m (omega arith) (omega arith) e)
to_string_injective (pos n) (negsuc m) e = absurd (minus_no_digits (n + 1) n _ e)
to_string_injective (negsuc n) (pos m) e = absurd (minus_no_digits (m + 1) m _ (sym e))
to_string_injective (negsuc n) (negsuc m) e =
    let h =
      digits_injective (n + 2) (m + 2) (n + 1) (m + 1) (omega arith) (omega arith)
        (tail_eq _ _ _ _ e) in
    let k : n ≡ m = omega arith in ap negsuc k

-- A byte that no number has.
abbrev pub Lacks : ℕ → Bytes → Type 0
Lacks c = All (λ x. x ≢ c)

abbrev pub IsForeign : ℕ → Type 0
IsForeign c = (c ≢ b'-') × ((c < 48) ⊎ (58 ≤ c))

digits-Lacks : (c : ℕ) (xs : Bytes) → IsForeign c → All IsDigit xs → Lacks c xs
digits-Lacks c [] h d = tt
digits-Lacks c (x ∷ xs) h d = (omega (arith, h.1), digits-Lacks c xs h d.1)

pub to_string-Lacks : (c : ℕ) (z : ℤ) → IsForeign c → Lacks c (to_string z)
unfolding to_string
to_string-Lacks c (pos n) h = digits-Lacks c _ h (digits-IsDigit (n + 1) n)
to_string-Lacks c (negsuc n) h =
    (omega (arith, h.0), digits-Lacks c _ h (digits-IsDigit (n + 2) (n + 1)))

-- A text is cut in one way only at the first occurrence of a byte.
pub cut_unique :
    (c : ℕ) (xs ys s t : Bytes)
    → Lacks c xs
    → Lacks c ys
    → xs ++ c ∷ s ≡ ys ++ c ∷ t
    → (xs ≡ ys) × (s ≡ t)
cut_unique c [] [] s t h k e = (refl, cc)
cut_unique c [] (y ∷ ys) s t h k e = absurd (k.0 (cc))
cut_unique c (x ∷ xs) [] s t h k e = absurd (h.0 (cc))
cut_unique c (x ∷ xs) (y ∷ ys) s t h k e = let q = cut_unique c xs ys s t h.1 k.1 (cc) in (cc, q.1)
