-- ===== src/Frame/Examples.antt =====
-- Frames that are cut in pieces, and the theorems at concrete inputs.
use cluster_chatroom_project.Prelude.{
  take, drop, ℕ, zero, suc, if◌then◌else◌, ◌==◌, ◌+◌, ◌≡◌, ◌≢◌, refl, ◌⊎◌, true, some, none, List,
  [], ◌∷◌, ◌++◌, Bytes, codes, length, arith,
}
use cluster_chatroom_project.Prelude.Int.{ℤ, pos}
use cluster_chatroom_project.Json.Sample.{Value, field, int, null, write, sample}
use cluster_chatroom_project.Frame.{encode, be32, waits, next_frame, recv_frame}
use cluster_chatroom_project.Frame.Stream.{Gets, recv_frame-encode, recv_frame_refused}
use cluster_chatroom_project.Frame.Server.{Outcome, returned, threw_json, Served, on_message}
use cluster_chatroom_project.Frame.Server.Pieces.{on_message_total}

abbrev hello : Bytes
hello = codes "hello"

-- The header in two pieces, and the next frame's first byte behind the body.
abbrev pieces : List Bytes
pieces = (0 ∷ []) ∷ (0 ∷ 5 ∷ codes "he") ∷ (codes "llo" ++ 0 ∷ []) ∷ []

one_piece : (x : ℕ) (xs : Bytes) → x ∷ xs ≢ []
one_piece x xs e = cc

recv_frame-encode_example : Gets hello (0 ∷ []) (recv_frame (0 ∷ []) pieces)
unfolding encode be32
recv_frame-encode_example =
    recv_frame-encode pieces hello (0 ∷ []) (0 ∷ []) (omega arith, omega arith)
      (one_piece _ _, (one_piece _ _, (one_piece _ _, tt))) refl

abbrev zeros : ℕ → Bytes
zeros zero = []
zeros (suc n) = 0 ∷ zeros n

length-zeros : (n : ℕ) → length (zeros n) ≡ n
length-zeros zero = refl
length-zeros (suc n) = omega (arith, length-zeros n)

-- The frame comes in two pieces, the first within the header.
recv_frame_refused_example :
    let r =
      recv_frame (take 2 (encode (zeros 70000))) (drop 2 (encode (zeros 70000)) ∷ hello ∷ []) in
    (r.body ≡ none) × (r.buffer ≡ [])
unfolding encode be32
recv_frame_refused_example =
    recv_frame_refused (drop 2 (encode (zeros 70000)) ∷ hello ∷ []) (zeros 70000) hello
      (take 2 (encode (zeros 70000))) (omega (arith, length-zeros 70000))
      (omega (arith, length-zeros 70000)) (λ e. cc, (λ e. cc, tt)) refl

-- Handlers that add up the message ids, and end by throwing at 9.
add_up : ℤ → Value → ℕ → ℕ × Outcome
add_up (pos n) js s = if n == 9 then (s, threw_json) else (s + n, returned)
add_up z js s = (s, returned)

abbrev message : ℕ → Bytes
message n = encode (write (field (codes "msgid") (int (pos n)) null))

on_message_total_example :
    (r : Served ℕ) × (on_message sample add_up (message 1 ++ message 5 ++ 0 ∷ []) 0 ≡ some r)
    × ((r.shut ≡ true) ⊎ (next_frame r.buffer ≡ waits))
on_message_total_example = on_message_total sample add_up (message 1 ++ message 5 ++ 0 ∷ []) 0
