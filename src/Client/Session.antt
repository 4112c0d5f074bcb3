-- ===== src/Client/Session.antt =====
-- src/client/main.cpp: a session, from the login's response to the frames that are read after it.
use mathlib.Core.Option.{some-injective}
use cluster_chatroom_project.Prelude.{
  ℕ, ◌≡◌, ◌≢◌, refl, sym, ap, ◌∙◌, inl, inr, Option, some, none, List, [], ◌∷◌, ◌++◌, append-nil,
  Bytes, codes, All, All-append, ◌>>=◌, bind-eq-some, if-eq-some,
}
use cluster_chatroom_project.Prelude.Int.{pos, eqb_ℤ}
use cluster_chatroom_project.Json.{JsonLib}
use cluster_chatroom_project.Orderer.Invariant.{Ascending}
use cluster_chatroom_project.Orderer.Conversations.{
  Orderer, channel, on_message, on_messages, on_offline_batch, flush_all,
}
use cluster_chatroom_project.Orderer.Projection.{Input, hears, ends, shown}
use cluster_chatroom_project.Orderer.Isolation.{step_all, run_all}
use cluster_chatroom_project.Orderer.Session.{start, IsPlausibleInput, run_all-Ascending}
use cluster_chatroom_project.Client.{Client}
use cluster_chatroom_project.Client.Receive.{int_field, text_field, render_all, read_bodies}
use cluster_chatroom_project.Client.Login.{
  Answer, entered, refused, take_login, enter, texts_or, read_friend, read_group, timed, parsed,
  printed, take_offline,
}
use cluster_chatroom_project.Client.Screen.{
  inputs_of, run_all-append, read_bodies-run_all, IsPlausibleBody, inputs_of-IsPlausible,
}

module _ (lib : JsonLib) where
  open lib use {Json, parse, find, as_strings}

  abbrev heard : List (ℕ × Json) → List (Input Json)
  heard [] = []
  heard ((now, js) ∷ msgs) = hears now js ∷ heard msgs

  on_messages-run_all :
      (msgs : List (ℕ × Json)) (o : Orderer Json) (r : Orderer Json × List Json)
      → on_messages lib msgs o ≡ some r
      → run_all lib o (heard msgs) ≡ some r
  unfolding on_messages run_all step_all
  on_messages-run_all [] o r e = e
  on_messages-run_all ((now, js) ∷ msgs) o r e =
      let (q, a, b) = bind-eq-some (on_message lib now js o) _ e in
      let (s, c, d) = bind-eq-some (on_messages lib msgs q.0) _ b in
      rw (a, on_messages-run_all msgs q.0 s c) d

  -- What the orderer is told of the stored messages.
  abbrev pub batch_inputs : (ℕ → ℕ) → ℕ → Option (List Bytes) → List (Input Json)
  batch_inputs clock now none = []
  batch_inputs clock now (some texts) = heard (timed lib clock (parsed lib texts)) ++ ends now ∷ []

  run_all-ends :
      (now : ℕ) (o : Orderer Json) → run_all lib o (ends now ∷ []) ≡ some (flush_all now o)
  unfolding run_all step_all
  run_all-ends now o = rw append-nil refl

  on_offline_batch-run_all :
      (now : ℕ) (msgs : List (ℕ × Json)) (o : Orderer Json) (r : Orderer Json × List Json)
      → on_offline_batch lib now msgs o ≡ some r
      → run_all lib o (heard msgs ++ ends now ∷ []) ≡ some r
  unfolding on_offline_batch
  on_offline_batch-run_all now msgs o r e =
      let (q, a, b) = bind-eq-some (on_messages lib msgs o) _ e in
      run_all-append lib o (heard msgs) (ends now ∷ []) q (flush_all now q.0)
        (on_messages-run_all msgs o q a) (run_all-ends now q.0)
      ∙ b

  -- The texts of the field of stored messages.
  abbrev texts_of : Option Json → Option (List Bytes)
  texts_of none = none
  texts_of (some field) = as_strings field

  take_offline-run_all :
      (clock : ℕ → ℕ) (now : ℕ) (field : Option Json) (o : Orderer Json)
      (r : Orderer Json × List Json)
      → take_offline lib clock now field o ≡ some r
      → run_all lib o (batch_inputs clock now (texts_of field)) ≡ some r
  unfolding take_offline
  take_offline-run_all clock now none o r e = unfold run_all in e
  take_offline-run_all clock now (some field) o r e =
      let (texts, a, b) = bind-eq-some (as_strings field) _ e in
      let (q, u, v) =
        bind-eq-some (on_offline_batch lib now (timed lib clock (parsed lib texts)) o) _ b in
      let (t, w, x) = bind-eq-some (render_all lib q.1) _ v in
      rw a (on_offline_batch-run_all now (timed lib clock (parsed lib texts)) o r (u ∙ x))

  -- The texts of the stored messages in a response.
  abbrev pub stored : Bytes → Option (List Bytes)
  stored response = parse response >>= λ js. texts_of (find js (codes "offlinemsg"))

  abbrev outcome : Answer lib → Option (Orderer Json × List Json)
  outcome (entered c out) = some (c.orderer, out)
  outcome (refused text) = none

  enter-run_all :
      (clock : ℕ → ℕ) (now : ℕ) (js : Json) (c c' : Client Json) (out : List Json)
      → enter lib clock now js c ≡ some (entered c' out)
      → run_all lib c.orderer (batch_inputs clock now (texts_of (find js (codes "offlinemsg"))))
        ≡ some (c'.orderer, out)
  unfolding enter
  enter-run_all clock now js c c' out e =
      let (id, a1, b1) = bind-eq-some (int_field lib js (codes "id")) _ e in
      let (name, a2, b2) = bind-eq-some (text_field lib js (codes "name")) _ b1 in
      let (friends, a3, b3) =
        bind-eq-some (texts_or lib (read_friend lib) c.friends (find js (codes "friends"))) _ b2 in
      let (groups, a4, b4) =
        bind-eq-some (texts_or lib (read_group lib) c.groups (find js (codes "groups"))) _ b3 in
      let (r, a5, b5) =
        bind-eq-some (take_offline lib clock now (find js (codes "offlinemsg")) c.orderer) _ b4 in
      take_offline-run_all clock now (find js (codes "offlinemsg")) c.orderer r a5
      ∙ ap outcome (some-injective _ _ b5)

  some≢none : {A : Type 0} {a : A} → some a ≢ none
  some≢none e = cc

  take_login-run_all :
      (clock : ℕ → ℕ) (now : ℕ) (response : Bytes) (c c' : Client Json) (out : List Json)
      → take_login lib clock now response c ≡ some (entered c' out)
      → run_all lib c.orderer (batch_inputs clock now (stored response)) ≡ some (c'.orderer, out)
  unfolding take_login
  take_login-run_all clock now response c c' out e =
      let (js, a1, b1) = bind-eq-some (parse response) _ e in
      let (errno, a2, b2) = bind-eq-some (int_field lib js (codes "errno")) _ b1 in
      elim (if-eq-some (eqb_ℤ errno (pos 0)) b2) [
        | inl (k, z) ↦ rw a1 (enter-run_all clock now js c c' out z)
        | inr (k, z) ↦
            let (text, a3, b3) = bind-eq-some (printed lib (find js (codes "errmsg"))) _ z in
            absurd (some≢none (sym (ap outcome (some-injective _ _ b3))))
      ]

  -- In a session of a client whose orderer has seen nothing, from the login's response, which
  -- enters the menu, through any frames that are read after it, with no exception, every number
  -- of a message below 2^64 - 1 and every time positive: of what is shown, stored messages and
  -- later ones together, the messages of each conversation have strictly ascending numbers.
  pub session-Ascending :
      (d : Bytes) (timeout : ℕ) (clock : ℕ → ℕ) (now : ℕ) (response : Bytes)
      (bodies : List (ℕ × ℕ × Bytes)) (c c' : Client Json) (out : List Json)
      (r : Client Json × List Json)
      → c.orderer ≡ start lib timeout
      → take_login lib clock now response c ≡ some (entered c' out)
      → read_bodies lib bodies c' ≡ some r
      → All (IsPlausibleInput lib) (batch_inputs clock now (stored response))
      → All (IsPlausibleBody lib) bodies
      → Ascending 0 (shown lib d (out ++ r.1)) (channel d r.0.orderer.channels).expect
  session-Ascending d timeout clock now response bodies c c' out r s e e' p p' =
      let inputs = batch_inputs clock now (stored response) in
      run_all-Ascending lib d timeout (inputs ++ inputs_of lib bodies) r.0.orderer (out ++ r.1)
        (ap (λ o. run_all lib o (inputs ++ inputs_of lib bodies)) (sym s)
          ∙ run_all-append lib c.orderer inputs (inputs_of lib bodies) (c'.orderer, out)
              (r.0.orderer, r.1) (take_login-run_all clock now response c c' out e)
              (read_bodies-run_all lib bodies c' r e'))
        (All-append (IsPlausibleInput lib) inputs (inputs_of lib bodies) p
          (inputs_of-IsPlausible lib bodies p'))
