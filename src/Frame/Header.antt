-- ===== src/Frame/Header.antt =====
-- One frame at the beginning of a buffer, whole or in part.
use cluster_chatroom_project.Prelude.{
  ℕ, ◌+◌, ◌^◌, ◌≤◌, ◌<◌, ◌≡◌, refl, sym, ap, ◌∙◌, ◌⊎◌, inl, inr, ◌||◌, [], ◌∷◌, ◌++◌, append_assoc,
  Bytes, length, length-append, take, drop, take-length_append, drop-length_append, ltb, ◌==◌,
  if◌then◌else◌, le_or_lt, arith,
}
use cluster_chatroom_project.Frame.{
  header_len, max_frame_len, be32, from_be32, encode, waits, illegal, frame, next_frame,
}

from_be32-be32 : (n : ℕ) (rest : Bytes) → n < 2 ^ 32 → from_be32 (be32 n ++ rest) ≡ n
unfolding from_be32 be32
from_be32-be32 n rest h = omega arith

length-be32 : (n : ℕ) → length (be32 n) ≡ header_len
unfolding be32
length-be32 n = refl

drop-be32 : (n : ℕ) (rest : Bytes) → drop header_len (be32 n ++ rest) ≡ rest
unfolding be32
drop-be32 n rest = refl

-- The lengths that a receiver accepts.
abbrev pub IsLegal : Bytes → Type 0
IsLegal body = (0 < length body) × (length body ≤ max_frame_len)

pub length-encode : (body : Bytes) → length (encode body) ≡ header_len + length body
unfolding encode
length-encode body =
    length-append (be32 (length body)) body ∙ ap (λ n. n + length body) (length-be32 (length body))

-- A buffer that starts with the header of `n`.
next_frame-be32 :
    (n : ℕ) (rest : Bytes)
    → n < 2 ^ 32
    → next_frame (be32 n ++ rest) ≡ (
        if n == 0 || ltb max_frame_len n
        then illegal
        else if ltb (length rest) n
        then waits
        else frame (take n rest) (drop n rest))
unfolding next_frame
next_frame-be32 n rest h =
    let l = length-append (be32 n) rest in
    let k = length-be32 n in rw (from_be32-be32 n rest h, drop-be32 n rest) (ground arith)

-- One text, cut in two ways: the longer beginning goes on from the shorter one.
pub append_cut :
    (zs ws xs ys : Bytes)
    → xs ++ ys ≡ zs ++ ws
    → length zs ≤ length xs
    → (t : Bytes) × (xs ≡ zs ++ t) × (ws ≡ t ++ ys)
append_cut [] ws xs ys e l = (xs, refl, sym e)
append_cut (z ∷ zs) ws [] ys e l = absurd (omega arith)
append_cut (z ∷ zs) ws (x ∷ xs) ys e l =
    let r = append_cut zs ws xs ys (cc) (omega arith) in (r.0, cc (r.1), r.2)

-- A whole frame whose body is not empty and within the limit is read back, and what follows it is
-- left in the buffer.
pub next_frame-encode :
    (body rest : Bytes) → IsLegal body → next_frame (encode body ++ rest) ≡ frame body rest
unfolding encode
next_frame-encode body rest l =
    let e = length-append body rest in
    rw
      (
        append_assoc (be32 (length body)) body rest,
        next_frame-be32 (length body) (body ++ rest) (omega arith),
        take-length_append body rest,
        drop-length_append body rest,
      )
      (ground arith)

-- As long as some of a frame is missing, the receiver waits.
pub next_frame_short :
    (buffer more body rest : Bytes)
    → IsLegal body
    → buffer ++ more ≡ encode body ++ rest
    → length buffer < header_len + length body
    → next_frame buffer ≡ waits
unfolding encode
next_frame_short buffer more body rest l e s = elim (le_or_lt header_len (length buffer)) [
  | inl whole ↦
      let n = length body in
      let c =
        append_cut (be32 n) (body ++ rest) buffer more (e ∙ append_assoc (be32 n) body rest)
          (omega (arith, length-be32 n)) in
      let k = ap length c.1 in
      let q = length-append (be32 n) c.0 in
      let b = length-be32 n in rw (c.1, next_frame-be32 n c.0 (omega arith)) (ground arith)
  | inr part ↦ unfold next_frame in ground arith
]

-- A frame whose body is empty or longer than the limit is refused as soon as its header is there.
pub next_frame_begun :
    (buffer more body rest : Bytes)
    → length body < 2 ^ 32
    → (length body ≡ 0) ⊎ (max_frame_len < length body)
    → buffer ++ more ≡ encode body ++ rest
    → header_len ≤ length buffer
    → next_frame buffer ≡ illegal
unfolding encode
next_frame_begun buffer more body rest w l e h =
    let n = length body in
    let c =
      append_cut (be32 n) (body ++ rest) buffer more (e ∙ append_assoc (be32 n) body rest)
        (omega (arith, length-be32 n)) in
    rw (c.1, next_frame-be32 n c.0 w) (ground arith)

-- Less than a header is waited on.
pub next_frame_headless : (buffer : Bytes) → length buffer < header_len → next_frame buffer ≡ waits
unfolding next_frame
next_frame_headless buffer h = ground arith
