-- ===== src/Frame/Stream.antt =====
-- src/client/main.cpp, `recvFrame`, and a stream that comes in pieces.
use cluster_chatroom_project.Prelude.{
  ◌+◌, ◌^◌, ◌≤◌, ◌<◌, ◌≡◌, ◌≢◌, refl, sym, ap, ◌∙◌, inl, inr, some, none, List, [], ◌∷◌, ◌++◌,
  append_assoc, Bytes, length, length-append, All, le_or_lt, arith,
}
use cluster_chatroom_project.Frame.{
  header_len, max_frame_len, encode, frame, next_frame, Received, recv_frame,
}
use cluster_chatroom_project.Frame.Header.{
  IsLegal, length-encode, append_cut, next_frame-encode, next_frame_short, next_frame_begun,
  next_frame_headless,
}

abbrev pub concat : List Bytes → Bytes
concat [] = []
concat (c ∷ cs) = c ++ concat cs

-- recv gave something each time.
abbrev pub IsFlowing : List Bytes → Type 0
IsFlowing = All (λ c. c ≢ [])

pub record Gets (body rest : Bytes) (r : Received) : Type 0 where
  pub got : r.body ≡ some body
  pub left : r.buffer ++ concat r.coming ≡ rest

-- The buffer holds the whole frame.
got_whole :
    (body rest more buffer : Bytes)
    → IsLegal body
    → buffer ++ more ≡ encode body ++ rest
    → header_len + length body ≤ length buffer
    → (t : Bytes) × (next_frame buffer ≡ frame body t) × (t ++ more ≡ rest)
got_whole body rest more buffer l e h =
    let c = append_cut (encode body) rest buffer more e (omega (arith, length-encode body)) in
    (c.0, ap next_frame c.1 ∙ next_frame-encode body c.0 l, sym c.2)

-- If the client's stream goes on with a frame whose body is not empty and within the limit, and
-- each recv gives something, then `recvFrame` returns that frame's body, whatever pieces the stream
-- comes in; what follows the frame stays in the buffer and the stream.
pub recv_frame-encode :
    (chunks : List Bytes) (body rest buffer : Bytes)
    → IsLegal body
    → IsFlowing chunks
    → buffer ++ concat chunks ≡ encode body ++ rest
    → Gets body rest (recv_frame buffer chunks)
unfolding recv_frame
recv_frame-encode [] body rest buffer l f e =
    let n = ap length e in
    let a = length-append buffer [] in
    let b = length-append (encode body) rest in
    let w = got_whole body rest [] buffer l e (omega (arith, length-encode body)) in
    rw (w.1, recv_frame) (record { got = refl; left = w.2 })
recv_frame-encode ([] ∷ chunks) body rest buffer l f e = absurd (f.0 refl)
recv_frame-encode ((x ∷ xs) ∷ chunks) body rest buffer l f e =
    elim (le_or_lt (header_len + length body) (length buffer)) [
      | inl whole ↦
          let w = got_whole body rest _ buffer l e whole in
          rw (w.1, recv_frame) (record { got = refl; left = w.2 })
      | inr part ↦
          rw (next_frame_short buffer _ body rest l e part, recv_frame)
            (recv_frame-encode chunks body rest (buffer ++ x ∷ xs) l f.1
              (append_assoc buffer (x ∷ xs) (concat chunks) ∙ e))
    ]

-- The client's stream goes on with a frame whose body is above the limit and below 2^32 bytes,
-- which the server sends all the same. Whatever pieces the stream comes in, if each recv gives
-- something, then `recvFrame` fails, and what is in the buffer is lost.
pub recv_frame_refused :
    (chunks : List Bytes) (body rest buffer : Bytes)
    → max_frame_len < length body
    → length body < 2 ^ 32
    → IsFlowing chunks
    → buffer ++ concat chunks ≡ encode body ++ rest
    → let r = recv_frame buffer chunks in (r.body ≡ none) × (r.buffer ≡ [])
unfolding recv_frame
recv_frame_refused [] body rest buffer l u f e =
    let n = ap length e in
    let a = length-append buffer [] in
    let b = length-append (encode body) rest in
    let w = next_frame_begun buffer [] body rest u (inr l) e (omega (arith, length-encode body)) in
    rw (w, recv_frame) (refl, refl)
recv_frame_refused ([] ∷ chunks) body rest buffer l u f e = absurd (f.0 refl)
recv_frame_refused ((x ∷ xs) ∷ chunks) body rest buffer l u f e =
    elim (le_or_lt header_len (length buffer)) [
      | inl begun ↦
          let w = next_frame_begun buffer _ body rest u (inr l) e begun in
          rw (w, recv_frame) (refl, refl)
      | inr part ↦
          rw (next_frame_headless buffer part, recv_frame)
            (recv_frame_refused chunks body rest (buffer ++ x ∷ xs) l u f.1
              (append_assoc buffer (x ∷ xs) (concat chunks) ∙ e))
    ]
