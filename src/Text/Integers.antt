-- ===== src/Text/Integers.antt =====
-- std::stoi and atoi, and std::to_string beside them.
use cluster_chatroom_project.Prelude.{
  ℕ, zero, suc, ◌+◌, ◌-◌, ◌*◌, ◌/◌, ◌%◌, ◌^◌, ◌<◌, ◌≡◌, ◌≢◌, refl, ap, ◌∙◌, Bool, true, false, ◌&&◌,
  ◌||◌, Option, some, none, [], ◌∷◌, ◌++◌, Bytes, length, length-append, if_rule, All, ltb, leb,
  ◌==◌, if◌then◌else◌, arith,
}
use cluster_chatroom_project.Prelude.Int.{ℤ, pos, negsuc}
use cluster_chatroom_project.Conversation.Decimal.{
  digits, to_string, value, value-digits, IsDigit, digits-IsDigit,
}

abbrev pub is_digit : ℕ → Bool
is_digit c = leb b'0' c && leb c b'9'

-- The digits at the beginning, behind those that were read; `none` if there are none.
unfoldable pub leading : Option ℕ → Bytes → Option ℕ
leading acc [] = acc
leading none (c ∷ cs) = let more = leading (some (c - b'0')) cs in if is_digit c then more else none
leading (some n) (c ∷ cs) =
    let more = leading (some (n * 10 + (c - b'0'))) cs in if is_digit c then more else some n

abbrev pub with_sign : Bool → Option ℕ → Option (Bool × ℕ)
with_sign minus none = none
with_sign minus (some n) = some (minus, n)

-- Blanks, a sign, and digits; anything may follow.
unfoldable pub scan_int : Bytes → Option (Bool × ℕ)
scan_int [] = none
scan_int (c ∷ cs) =
    let more = scan_int cs in
    if c == 32 || (leb 9 c && leb c 13)
    then more
    else if c == b'-'
    then with_sign true (leading none cs)
    else if c == b'+'
    then with_sign false (leading none cs)
    else with_sign false (leading none (c ∷ cs))

-- An int, if the number fits.
abbrev pub signed : Bool × ℕ → Option ℤ
signed (false, n) = if ltb n (2 ^ 31) then some (pos n) else none
signed (true, zero) = some (pos 0)
signed (true, suc n) = if ltb n (2 ^ 31) then some (negsuc n) else none

-- std::stoi; `none` where it throws.
unfoldable pub parse_int : Bytes → Option ℤ
parse_int text = elim (scan_int text) [ none ↦ none | some n ↦ signed n ]

-- atoi; `none` where the number does not fit, which C leaves undefined.
unfoldable pub atoi : Bytes → Option ℤ
atoi text = elim (scan_int text) [ none ↦ some (pos 0) | some n ↦ signed n ]

-- The numbers of an int.
abbrev pub IsInt : ℤ → Type 0
IsInt (pos n) = n < 2 ^ 31
IsInt (negsuc n) = n < 2 ^ 31

leading-value :
    (acc : ℕ) (ds rest : Bytes)
    → All IsDigit ds
    → leading (some acc) rest ≡ some acc
    → ((n : ℕ) → leading (some n) rest ≡ some n)
    → leading (some acc) (ds ++ rest) ≡ some (value acc ds)
unfolding leading value
leading-value acc [] rest d e k = e
leading-value acc (c ∷ ds) rest d e k =
    ground (arith, d.0, leading-value (acc * 10 + (c - 48)) ds rest d.1 (k _) k)

-- Digits, and something that no number goes on with.
abbrev pub Stops : Bytes → Type 0
Stops rest = (n : ℕ) → leading (some n) rest ≡ some n

leading-digits :
    (ds rest : Bytes)
    → All IsDigit ds
    → ds ≢ []
    → Stops rest
    → leading none (ds ++ rest) ≡ some (value 0 ds)
unfolding leading value
leading-digits [] rest d h k = absurd (h refl)
leading-digits (c ∷ ds) rest d h k = ground (arith, d.0, leading-value (c - 48) ds rest d.1 (k _) k)

digits-length : (f n : ℕ) → 0 < f → 0 < length (digits f n)
unfolding digits
digits-length zero n h = omega arith
digits-length (suc f) n h =
    if_rule {A = Bytes} (λ b. 0 < length b) (ltb n 10) (λ _. omega arith)
      (λ _. omega (arith, length-append (digits f (n / 10)) ((48 + n % 10) ∷ [])))

some_length : (ds : Bytes) → 0 < length ds → ds ≢ []
some_length ds h e = absurd (omega (arith, ap length e))

scan_int-digits :
    (ds rest : Bytes)
    → All IsDigit ds
    → ds ≢ []
    → Stops rest
    → scan_int (ds ++ rest) ≡ some (false, value 0 ds)
unfolding scan_int
scan_int-digits [] rest d h k = absurd (h refl)
scan_int-digits (c ∷ ds) rest d h k = ground (arith, d.0, leading-digits (c ∷ ds) rest d h k)

scan_int-minus :
    (ds rest : Bytes)
    → All IsDigit ds
    → ds ≢ []
    → Stops rest
    → scan_int (b'-' ∷ ds ++ rest) ≡ some (true, value 0 ds)
unfolding scan_int
scan_int-minus ds rest d h k = ground (arith, leading-digits ds rest d h k)

scan_int-to_string :
    (z : ℤ) (rest : Bytes)
    → IsInt z
    → Stops rest
    → (r : Bool × ℕ) × (scan_int (to_string z ++ rest) ≡ some r) × (signed r ≡ some z)
unfolding to_string
scan_int-to_string (pos n) rest i k =
    let ds = digits (n + 1) n in
    let e =
      scan_int-digits ds rest (digits-IsDigit (n + 1) n)
        (some_length ds (digits-length (n + 1) n (omega arith))) k in
    let v = value-digits (n + 1) n (omega arith) in
    ((false, n), e ∙ ap (λ x. some (false, x)) v, ground arith)
scan_int-to_string (negsuc n) rest i k =
    let ds = digits (n + 2) (n + 1) in
    let e =
      scan_int-minus ds rest (digits-IsDigit (n + 2) (n + 1))
        (some_length ds (digits-length (n + 2) (n + 1) (omega arith))) k in
    let v : value 0 ds ≡ suc n = value-digits (n + 2) (n + 1) (omega arith) ∙ omega arith in
    ((true, suc n), e ∙ ap (λ x. some (true, x)) v, ground arith)

-- The text of an int, and what may stand behind it.
pub parse_int-to_string :
    (z : ℤ) (rest : Bytes) → IsInt z → Stops rest → parse_int (to_string z ++ rest) ≡ some z
unfolding parse_int
parse_int-to_string z rest i k =
    let (r, e, s) = scan_int-to_string z rest i k in rw (e, parse_int) s

pub atoi-to_string :
    (z : ℤ) (rest : Bytes) → IsInt z → Stops rest → atoi (to_string z ++ rest) ≡ some z
unfolding atoi
atoi-to_string z rest i k = let (r, e, s) = scan_int-to_string z rest i k in rw (e, atoi) s

pub Stops-nil : Stops []
unfolding leading
Stops-nil n = refl
