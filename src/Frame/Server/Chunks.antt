-- ===== src/Frame/Server/Chunks.antt =====
-- src/server/chatserver.cpp, `onMessage`: the loop, and what more fuel or more bytes change.
use cluster_chatroom_project.Prelude.{
  ℕ, zero, suc, ◌+◌, ◌≤◌, ◌<◌, ◌≡◌, ◌≢◌, refl, sym, subst, ◌∙◌, ◌⊎◌, inl, inr, true, false, some,
  none, [], ◌∷◌, ◌++◌, Bytes, length, length-append, length-drop, take, drop, take-append_le,
  drop-append_le, ◌||◌, ◌==◌, ltb, arith, Bool-cases,
}
use cluster_chatroom_project.Prelude.Int.{ℤ}
use cluster_chatroom_project.Json.{JsonLib}
use cluster_chatroom_project.Frame.{
  header_len, max_frame_len, from_be32, Next, waits, illegal, frame, next_frame,
}
use cluster_chatroom_project.Frame.Server.{
  Outcome, returned, threw_json, threw_other, Served, handle_body, serve,
}

pub Next-cases :
    (n : Next) → (n ≡ waits) ⊎ ((n ≡ illegal) ⊎ ((b : Bytes) × (t : Bytes) × (n ≡ frame b t)))
Next-cases waits = inl refl
Next-cases illegal = inr (inl refl)
Next-cases (frame b t) = inr (inr (b, t, refl))

pub Outcome-cases : (o : Outcome) → (o ≡ threw_json) ⊎ ((o ≡ returned) ⊎ (o ≡ threw_other))
Outcome-cases threw_json = inl refl
Outcome-cases returned = inr (inl refl)
Outcome-cases threw_other = inr (inr refl)

length-drop_le : (n : ℕ) (xs : Bytes) → length (drop n xs) ≤ length xs
length-drop_le n xs = omega (arith, length-drop n xs)

-- A frame takes something off the buffer.
next_frame-shrinks : (buffer b t : Bytes) → next_frame buffer ≡ frame b t → length t < length buffer
unfolding next_frame
next_frame-shrinks buffer b t e = ground (
  arith,
  length-drop header_len buffer,
  length-drop_le (from_be32 buffer) (drop header_len buffer),
)

from_be32-append : (xs ys : Bytes) → header_len ≤ length xs → from_be32 (xs ++ ys) ≡ from_be32 xs
unfolding from_be32
from_be32-append [] ys h = absurd (omega arith)
from_be32-append (a ∷ []) ys h = absurd (omega arith)
from_be32-append (a ∷ b ∷ []) ys h = absurd (omega arith)
from_be32-append (a ∷ b ∷ c ∷ []) ys h = absurd (omega arith)
from_be32-append (a ∷ b ∷ c ∷ d ∷ xs) ys h = refl

abbrev Whole : ℕ → Bytes → Type 0
Whole n buffer = ((n == 0 || ltb max_frame_len n) ≡ false) × (header_len + n ≤ length buffer)

next_frame_read :
    (buffer : Bytes)
    → Whole (from_be32 buffer) buffer
    → next_frame buffer
      ≡ frame
          (take (from_be32 buffer) (drop header_len buffer))
          (drop (from_be32 buffer) (drop header_len buffer))
unfolding next_frame
next_frame_read buffer w = ground (arith, w.0, w.1)

next_frame-Whole :
    (buffer b t : Bytes) → next_frame buffer ≡ frame b t → Whole (from_be32 buffer) buffer
unfolding next_frame
next_frame-Whole buffer b t e = (
  elim (Bool-cases (from_be32 buffer == 0 || ltb max_frame_len (from_be32 buffer))) [
    | inl q ↦ absurd (ground arith)
    | inr q ↦ q
  ],
  ground arith,
)

-- More bytes behind a whole frame stay behind it.
pub next_frame-append :
    (xs ys b t : Bytes) → next_frame xs ≡ frame b t → next_frame (xs ++ ys) ≡ frame b (t ++ ys)
next_frame-append xs ys b t e =
    let n = from_be32 xs in
    let w = next_frame-Whole xs b t e in
    let k = from_be32-append xs ys (omega (arith, w.1)) in
    let d = drop-append_le header_len xs ys (omega (arith, w.1)) in
    let m : n ≤ length (drop header_len xs) = omega (arith, w.1, length-drop header_len xs) in
    let f =
      next_frame_read (xs ++ ys)
        (subst (λ i. Whole i (xs ++ ys)) (sym k) (w.0, omega (arith, w.1, length-append xs ys))) in
    let g = sym (next_frame_read xs w) ∙ e in
    f ∙ rw (k, d, take-append_le n _ ys m, drop-append_le n _ ys m) (cc (g))

-- A length out of bounds stays so.
pub next_frame-append_illegal :
    (xs ys : Bytes) → next_frame xs ≡ illegal → next_frame (xs ++ ys) ≡ illegal
unfolding next_frame
next_frame-append_illegal xs ys e = ground (arith, from_be32-append xs ys, length-append xs ys)

module _ (lib : JsonLib) {S : Type 0} (handle : ℤ → lib.Json → S → S × Outcome) where
  -- The loop comes to its end: there is fuel enough.
  pub serve_total :
      (f : ℕ) (buffer : Bytes) (s : S) → length buffer < f → serve lib handle f buffer s ≢ none
  unfolding serve
  serve_total zero buffer s l e = absurd (omega arith)
  serve_total (suc f) buffer s l e = elim (Next-cases (next_frame buffer)) [
    | inl n ↦ ground arith
    | inr (inl n) ↦ ground arith
    | inr (inr (b, t, n)) ↦
        ground
          (arith, next_frame-shrinks buffer b t n, serve_total f t (handle_body lib handle b s).0)
  ]

  -- More fuel changes nothing.
  pub serve_more :
      (f g : ℕ) (buffer : Bytes) (s : S) (r : Served S)
      → f ≤ g
      → serve lib handle f buffer s ≡ some r
      → serve lib handle g buffer s ≡ some r
  unfolding serve
  serve_more zero g buffer s r l e = cc
  serve_more (suc f) zero buffer s r l e = absurd (omega arith)
  serve_more (suc f) (suc g) buffer s r l e = elim (Next-cases (next_frame buffer)) [
    | inl n ↦ ground arith
    | inr (inl n) ↦ ground arith
    | inr (inr (b, t, n)) ↦
        ground (arith, serve_more f g t (handle_body lib handle b s).0 r (omega arith))
  ]

  -- What is left behind waits for more.
  pub serve_left :
      (f : ℕ) (xs : Bytes) (s : S) (r : Served S)
      → serve lib handle f xs s ≡ some r
      → r.shut ≡ false
      → next_frame r.buffer ≡ waits
  unfolding serve
  serve_left zero xs s r e k = cc
  serve_left (suc f) xs s r e k = elim (Next-cases (next_frame xs)) [
    | inl n ↦ ground arith
    | inr (inl n) ↦ ground arith
    | inr (inr (b, t, n)) ↦ ground (arith, serve_left f t (handle_body lib handle b s).0 r)
  ]

  -- To serve the beginning and then all that is left and new is to serve the whole.
  pub serve-append :
      (f g : ℕ) (xs ys : Bytes) (s : S) (r q : Served S)
      → serve lib handle f xs s ≡ some r
      → r.shut ≡ false
      → serve lib handle g (r.buffer ++ ys) r.state ≡ some q
      → serve lib handle (f + g) (xs ++ ys) s ≡ some q
  unfolding serve
  serve-append zero g xs ys s r q e k l = cc
  serve-append (suc f) g xs ys s r q e k l = elim (Next-cases (next_frame xs)) [
    | inl n ↦
        let z : record { state = s; buffer = xs; shut = false } ≡ r = ground arith in
        serve_more g (suc f + g) (xs ++ ys) s q (omega arith)
          (subst (λ u. serve lib handle g (u.buffer ++ ys) u.state ≡ some q) (sym z) l)
    | inr (inl n) ↦ ground arith
    | inr (inr (b, t, n)) ↦
        let m = next_frame-append xs ys b t n in
        let h : suc (f + g) ≡ suc f + g = omega arith in
        let s' = (handle_body lib handle b s).0 in
        subst (λ h. serve lib handle h (xs ++ ys) s ≡ some q) h
          (ground (arith, m, serve-append f g t ys s' r q))
  ]

  -- What follows when the connection was shut down stays in the buffer.
  pub serve-append_shut :
      (f : ℕ) (xs ys : Bytes) (s : S) (r : Served S)
      → serve lib handle f xs s ≡ some r
      → r.shut ≡ true
      → serve lib handle f (xs ++ ys) s ≡ some (record r { buffer = r.buffer ++ ys })
  unfolding serve
  serve-append_shut zero xs ys s r e k = cc
  serve-append_shut (suc f) xs ys s r e k = elim (Next-cases (next_frame xs)) [
    | inl n ↦ ground arith
    | inr (inl n) ↦ ground (arith, next_frame-append_illegal xs ys n)
    | inr (inr (b, t, n)) ↦ ground (
      arith,
      next_frame-append xs ys b t n,
      serve-append_shut f t ys (handle_body lib handle b s).0 r,
    )
  ]
