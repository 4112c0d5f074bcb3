-- ===== src/Client/Clock.antt =====
-- src/client/main.cpp: `getCurrentTime`. What localtime gives is an argument.
mod Examples
use cluster_chatroom_project.Prelude.{
  ℕ, zero, suc, ◌+◌, ◌*◌, ◌/◌, ◌%◌, ◌^◌, ◌≤◌, ◌<◌, ◌≡◌, refl, ap, [], ◌∷◌, ◌++◌, Bytes, length,
  length-append, ltb, if◌then◌else◌, if_rule, arith,
}
use cluster_chatroom_project.Prelude.Int.{pos}
use cluster_chatroom_project.Conversation.Decimal.{digits, to_string}

-- struct tm, of a time not before 1900: the year counts from 1900 and the month from 0.
pub record Tm : Type 0 where
  pub tm_year : ℕ
  pub tm_mon : ℕ
  pub tm_mday : ℕ
  pub tm_hour : ℕ
  pub tm_min : ℕ
  pub tm_sec : ℕ

-- "%02d"
unfoldable pub two_digits : ℕ → Bytes
two_digits n = if ltb n 10 then b'0' ∷ to_string (pos n) else to_string (pos n)

unfoldable pub current_time : Tm → Bytes
current_time t =
    to_string (pos (1900 + t.tm_year))
    ++ (b'-' ∷ two_digits (1 + t.tm_mon)
        ++ (b'-' ∷ two_digits t.tm_mday
            ++ (b' ' ∷ two_digits t.tm_hour
                ++ (b':' ∷ two_digits t.tm_min ++ (b':' ∷ two_digits t.tm_sec)))))

abbrev ten : ℕ → ℕ
ten zero = 1
ten (suc k) = 10 * ten k

length-digits : (f n k : ℕ) → n < 10 * ten k → length (digits f n) ≤ suc k
unfolding digits
length-digits zero n k h = omega arith
length-digits (suc f) n zero h =
    if_rule {A = Bytes} (λ b. length b ≤ 1) (ltb n 10) (λ l. omega arith)
      (λ g. absurd (ground arith))
length-digits (suc f) n (suc k) h =
    if_rule {A = Bytes} (λ b. length b ≤ suc (suc k)) (ltb n 10) (λ l. omega arith)
      (λ g. omega (
        arith,
        length-append (digits f (n / 10)) ((48 + n % 10) ∷ []),
        length-digits f (n / 10) k (omega arith),
      ))

digits-one : (f n : ℕ) → n < 10 → length (digits (suc f) n) ≡ 1
unfolding digits
digits-one f n h = ground arith

digits-two : (f n : ℕ) → 10 ≤ n → n < 100 → length (digits (suc (suc f)) n) ≡ 2
unfolding digits
digits-two f n l h =
    if_rule {A = Bytes} (λ b. length b ≡ 2) (ltb n 10) (λ k. absurd (ground arith))
      (λ g. omega (
        arith,
        length-append (digits (suc f) (n / 10)) ((48 + n % 10) ∷ []),
        digits-one f (n / 10) (omega arith),
      ))

to_string-digits : (n : ℕ) → to_string (pos n) ≡ digits (suc n) n
unfolding to_string
to_string-digits n = let h : n + 1 ≡ suc n = omega arith in ap (λ f. digits f n) h

two_digits-length : (n : ℕ) → n < 100 → length (two_digits n) ≡ 2
unfolding two_digits
two_digits-length zero h = rw (to_string-digits 0) (ap suc (digits-one 0 0 (omega arith)))
two_digits-length (suc n) h =
    if_rule {A = Bytes} (λ b. length b ≡ 2) (ltb (suc n) 10)
      (λ l. rw (to_string-digits (suc n)) (ap suc (digits-one (suc n) (suc n) (ground arith))))
      (λ g. rw (to_string-digits (suc n)) (digits-two n (suc n) (ground arith) h))

-- For a time whose year is an int and whose other fields are in the ranges that C gives them, the
-- text of `getCurrentTime` fits its buffer of 60 bytes, with the zero byte behind it.
pub current_time-length :
    (t : Tm)
    → 1900 + t.tm_year < 2 ^ 31
    → t.tm_mon < 12
    → t.tm_mday < 32
    → t.tm_hour < 24
    → t.tm_min < 60
    → t.tm_sec < 61
    → length (current_time t) + 1 ≤ 60
unfolding current_time to_string
current_time-length t y m d h i s =
    let year = to_string (pos (1900 + t.tm_year)) in
    let a = two_digits-length (1 + t.tm_mon) (omega arith) in
    let b = two_digits-length t.tm_mday (omega arith) in
    let c = two_digits-length t.tm_hour (omega arith) in
    let e = two_digits-length t.tm_min (omega arith) in
    let f = two_digits-length t.tm_sec (omega arith) in
    let k = length-digits (1900 + t.tm_year + 1) (1900 + t.tm_year) 9 (omega arith) in
    let t5 = b':' ∷ two_digits t.tm_sec in
    let t4 = b':' ∷ two_digits t.tm_min ++ t5 in
    let t3 = b' ' ∷ two_digits t.tm_hour ++ t4 in
    let t2 = b'-' ∷ two_digits t.tm_mday ++ t3 in
    let t1 = b'-' ∷ two_digits (1 + t.tm_mon) ++ t2 in
    omega (
      arith,
      a,
      b,
      c,
      e,
      f,
      k,
      length-append year t1,
      length-append (two_digits (1 + t.tm_mon)) t2,
      length-append (two_digits t.tm_mday) t3,
      length-append (two_digits t.tm_hour) t4,
      length-append (two_digits t.tm_min) t5,
    )
