-- ===== src/Frame/Server/Single.antt =====
-- src/server/chatserver.cpp, `onMessage`: a buffer that holds one message.
use cluster_chatroom_project.Prelude.{
  ◌+◌, ◌≡◌, refl, ap, subst, ◌∙◌, inl, inr, Bool, true, false, some, [], append-nil, Bytes, codes,
  length, arith,
}
use cluster_chatroom_project.Prelude.Int.{ℤ}
use cluster_chatroom_project.Json.{JsonLib}
use cluster_chatroom_project.Frame.{encode, waits, frame, next_frame}
use cluster_chatroom_project.Frame.Header.{IsLegal, length-encode, next_frame-encode}
use cluster_chatroom_project.Frame.Server.{
  Outcome, threw_json, run_handler, handle_body, serve, on_message,
}
use cluster_chatroom_project.Frame.Server.Chunks.{Outcome-cases, serve_more}

abbrev pub is_json : Outcome → Bool
is_json threw_json = true
is_json _ = false

next_frame-nil : next_frame [] ≡ waits
unfolding next_frame
next_frame-nil = refl

module _ (lib : JsonLib) {S : Type 0} (handle : ℤ → lib.Json → S → S × Outcome) where
  handle_body-message :
      (body : Bytes) (js : lib.Json) (msgid : ℤ) (s : S)
      → lib.parse body ≡ some js
      → lib.find js (codes "msgid") ≡ some (lib.of_int msgid)
      → handle_body lib handle body s ≡ handle msgid js s
  unfolding handle_body run_handler
  handle_body-message body js msgid s p f =
      rw (p, handle_body, f, lib.is_integer-of_int msgid, lib.as_int-of_int msgid) refl

  serve_single :
      (body : Bytes) (s : S)
      → IsLegal body
      → let r = handle_body lib handle body s in
        serve lib handle 2 (encode body) s
        ≡ some (record { state = r.0; buffer = []; shut = is_json r.1 })
  unfolding serve
  serve_single body s l =
      let e : next_frame (encode body) ≡ frame body [] =
        subst (λ b. next_frame b ≡ frame body []) (append-nil (encode body))
          (next_frame-encode body [] l) in
      let w = next_frame-nil in
      elim (Outcome-cases (handle_body lib handle body s).1) [
        | inl x ↦ rw (e, serve, x) refl
        | inr (inl x) ↦ rw (e, serve, x, w) refl
        | inr (inr x) ↦ rw (e, serve, x, w) refl
      ]

  -- The handler is called for the message, and the buffer is empty behind it.
  pub on_message-single :
      (body : Bytes) (js : lib.Json) (msgid : ℤ) (s : S)
      → IsLegal body
      → lib.parse body ≡ some js
      → lib.find js (codes "msgid") ≡ some (lib.of_int msgid)
      → let r = handle msgid js s in
        on_message lib handle (encode body) s
        ≡ some (record { state = r.0; buffer = []; shut = is_json r.1 })
  unfolding on_message
  on_message-single body js msgid s l p f =
      let e = serve_single body s l in
      let h = handle_body-message body js msgid s p f in
      serve_more lib handle 2 (length (encode body) + 1) (encode body) s _
        (omega (arith, length-encode body)) e
      ∙ ap (λ (r : S × Outcome). some (record { state = r.0; buffer = []; shut = is_json r.1 })) h
