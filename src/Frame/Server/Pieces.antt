-- ===== src/Frame/Server/Pieces.antt =====
-- src/server/chatserver.cpp, `onMessage`: one readable event, and a stream of them.
use cluster_chatroom_project.Prelude.{
  ◌+◌, ◌≡◌, ◌⊎◌, inl, inr, Bool, true, false, Option, some, none, List, [], ◌++◌, Bytes, length,
  arith, Bool-cases, Option-cases,
}
use cluster_chatroom_project.Prelude.Int.{ℤ}
use cluster_chatroom_project.Json.{JsonLib}
use cluster_chatroom_project.Frame.{waits, next_frame}
use cluster_chatroom_project.Frame.Stream.{concat}
use cluster_chatroom_project.Frame.Server.{Outcome, Served, on_message, on_messages}
use cluster_chatroom_project.Frame.Server.Chunks.{serve_total, serve_left}

-- What the handlers did, and whether the connection was shut down.
abbrev pub outcome : {S : Type 0} → Option (Served S) → Option (S × Bool)
outcome none = none
outcome (some r) = some (r.state, r.shut)

module _ (lib : JsonLib) {S : Type 0} (handle : ℤ → lib.Json → S → S × Outcome) where
  -- Whatever the bytes are, the loop of `onMessage` ends; then the connection is shut down, or
  -- less than a frame is left in the buffer.
  pub on_message_total :
      (buffer : Bytes) (s : S)
      → (r : Served S) × (on_message lib handle buffer s ≡ some r)
        × ((r.shut ≡ true) ⊎ (next_frame r.buffer ≡ waits))
  unfolding on_message
  on_message_total buffer s = elim (Option-cases (on_message lib handle buffer s)) [
    | inl e ↦ absurd (serve_total lib handle (length buffer + 1) buffer s (omega arith) e)
    | inr (r, e) ↦ (
      r,
      e,
      (elim (Bool-cases r.shut) [
        | inl k ↦ inl k
        | inr k ↦ inr (serve_left lib handle (length buffer + 1) buffer s r e k)
      ]),
    )
  ]

  -- The events up to one at which the connection is shut down, or all of them, do the same as all
  -- bytes at once.
  abbrev pub Together : List Bytes → Bytes → S → Type 0
  Together chunks buffer s =
      (first later : List Bytes) × (k : S × Bool) × (chunks ≡ first ++ later)
      × (outcome (on_messages lib handle first buffer s) ≡ some k)
      × (outcome (on_message lib handle (buffer ++ concat chunks) s) ≡ some k)
      × (k.1 ≡ false → later ≡ [])
