-- ===== src/Frame/Server/Keeps.antt =====
-- src/server/chatserver.cpp, `onMessage`: the messages that the loop comes to, and what it keeps if every handler does.
use cluster_chatroom_project.Prelude.{
  ℕ, zero, suc, ◌+◌, subst, length, arith, ◌≡◌, Bool-cases, Option, Option-cases, inl, inr, some,
  none, Bytes, codes, ◌≢◌, ◌>>=◌,
}
use cluster_chatroom_project.Prelude.Int.{ℤ}
use cluster_chatroom_project.Json.{JsonLib}
use cluster_chatroom_project.Frame.{frame, next_frame}
use cluster_chatroom_project.Frame.Server.{
  Outcome, threw_json, Served, run_handler, handle_body, serve, on_message,
}
use cluster_chatroom_project.Frame.Server.Chunks.{Next-cases, Outcome-cases}

-- The loop over `buffer`, from a state, comes to `body` in state `at`.
pub data Handles (lib : JsonLib) {S : Type 0} (handle : ℤ → lib.Json → S → S × Outcome)
    (body : Bytes) (at : S) : Bytes → S → Type 0 where
  first :
      (buffer rest : Bytes)
      → next_frame buffer ≡ frame body rest
      → Handles lib handle body at buffer at
  later :
      (buffer b rest : Bytes) (s : S)
      → next_frame buffer ≡ frame b rest
      → (handle_body lib handle b s).1 ≢ threw_json
      → Handles lib handle body at rest (handle_body lib handle b s).0
      → Handles lib handle body at buffer s

module _ (lib : JsonLib) {S : Type 0} (handle : ℤ → lib.Json → S → S × Outcome) (R : S → S → Type 0)
    (same : (a : S) → R a a) (trans : (a b c : S) → R a b → R b c → R a c) where
  open lib use {Json, parse, find, is_integer, as_int}

  run_handler-R :
      (js : Json) (s : S) (o : Option Json)
      → ((msgid : ℤ) → (o >>= as_int) ≡ some msgid → R s (handle msgid js s).0)
      → R s (run_handler lib handle js s o).0
  unfolding run_handler
  run_handler-R js s none step = same s
  run_handler-R js s (some field) step = elim (Bool-cases (is_integer field)) [
    | inr e ↦ rw e (same s)
    | inl e ↦ elim (Option-cases (as_int field)) [
      | inl n ↦ rw (e, n, run_handler) (same s)
      | inr (msgid, n) ↦ rw (e, n, run_handler) (step msgid n)
    ]
  ]

  -- What a handler does when the loop comes to a message.
  abbrev Steps : Bytes → S → Type 0
  Steps buffer s =
      (body : Bytes) (js : Json) (msgid : ℤ) (at : S)
      → Handles lib handle body at buffer s
      → parse body ≡ some js
      → (find js (codes "msgid") >>= as_int) ≡ some msgid
      → R at (handle msgid js at).0

  handle_body-R :
      (body buffer rest : Bytes) (s : S)
      → next_frame buffer ≡ frame body rest
      → Steps buffer s
      → R s (handle_body lib handle body s).0
  unfolding handle_body
  handle_body-R body buffer rest s n step = elim (Option-cases (parse body)) [
    | inl e ↦ rw (e, handle_body) (same s)
    | inr (js, e) ↦
        rw (e, handle_body)
          (run_handler-R js s (find js (codes "msgid"))
            (λ msgid h. step body js msgid s (first buffer rest n) e h))
  ]

  serve-R :
      (f : ℕ) (buffer : Bytes) (s : S) (r : Served S)
      → serve lib handle f buffer s ≡ some r
      → Steps buffer s
      → R s r.state
  unfolding serve
  serve-R zero buffer s r e step = cc
  serve-R (suc f) buffer s r e step = elim (Next-cases (next_frame buffer)) [
    | inl n ↦ let q : s ≡ r.state = ground arith in subst (R s) q (same s)
    | inr (inl n) ↦ let q : s ≡ r.state = ground arith in subst (R s) q (same s)
    | inr (inr (b, t, n)) ↦
        let s' = (handle_body lib handle b s).0 in
        let h = handle_body-R b buffer t s n step in
        let more : (handle_body lib handle b s).1 ≢ threw_json → Steps t s' =
          λ o body js msgid at g. step body js msgid at (later buffer b t s n o g) in
        elim (Outcome-cases (handle_body lib handle b s).1) [
          | inl o ↦ let q : s' ≡ r.state = ground arith in subst (R s) q h
          | inr (inl o) ↦
              let q : serve lib handle f t s' ≡ some r = ground arith in
              trans s s' r.state h (serve-R f t s' r q (more (λ k. cc)))
          | inr (inr o) ↦
              let q : serve lib handle f t s' ≡ some r = ground arith in
              trans s s' r.state h (serve-R f t s' r q (more (λ k. cc)))
        ]
  ]

  -- One readable event.
  pub on_message-R :
      (buffer : Bytes) (s : S) (r : Served S)
      → on_message lib handle buffer s ≡ some r
      → Steps buffer s
      → R s r.state
  unfolding on_message
  on_message-R buffer s r e step = serve-R (length buffer + 1) buffer s r e step
