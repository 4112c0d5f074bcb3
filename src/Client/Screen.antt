-- ===== src/Client/Screen.antt =====
-- src/client/main.cpp, `readTaskHandler`, over include/conversation_orderer.hpp: what is shown.
use mathlib.Core.Option.{some-injective}
use cluster_chatroom_project.Prelude.{
  ℕ, ◌+◌, ◌<◌, ◌≡◌, refl, sym, ap, subst, ◌∙◌, inl, inr, Bool, true, false, Option, some, none,
  List, [], ◌∷◌, ◌++◌, append-nil, append_assoc, Bytes, All, All-append, if◌then◌else◌,
  bind-eq-some, if-eq-some, arith,
}
use cluster_chatroom_project.Prelude.Int.{ℤ}
use cluster_chatroom_project.Json.{JsonLib}
use cluster_chatroom_project.Orderer.Channel.{u64}
use cluster_chatroom_project.Orderer.Conversations.{Orderer, tick, on_message}
use cluster_chatroom_project.Orderer.Projection.{Input, hears, wakes, key}
use cluster_chatroom_project.Orderer.Isolation.{step_all, run_all}
use cluster_chatroom_project.Orderer.Session.{IsPlausibleInput}
use cluster_chatroom_project.Client.{Client}
use cluster_chatroom_project.Client.Receive.{
  message_type, is_chat, notice, render_all, take_message, take_parsed, read_body, read_bodies,
}

module _ (lib : JsonLib) where
  open lib use {Json, parse}

  -- What the orderer is told of a message: nothing unless it is a chat message.
  abbrev told_as : ℕ → Json → Option ℤ → List (Input Json)
  told_as later js none = []
  told_as later js (some t) = if is_chat lib t then hears later js ∷ [] else []

  abbrev pub told_of : ℕ → Json → List (Input Json)
  told_of later js = told_as later js (message_type lib js)

  abbrev told_parsed : ℕ → Option Json → List (Input Json)
  told_parsed later none = []
  told_parsed later (some js) = told_of later js

  -- What the orderer is told in one turn of the loop, and in a session.
  abbrev pub inputs_of_body : ℕ × ℕ × Bytes → List (Input Json)
  inputs_of_body (now, later, body) = wakes now ∷ told_parsed later (parse body)

  abbrev pub inputs_of : List (ℕ × ℕ × Bytes) → List (Input Json)
  inputs_of [] = []
  inputs_of (b ∷ bodies) = inputs_of_body b ++ inputs_of bodies

  pub run_all-append :
      (o : Orderer Json) (xs ys : List (Input Json)) (q r : Orderer Json × List Json)
      → run_all lib o xs ≡ some q
      → run_all lib q.0 ys ≡ some r
      → run_all lib o (xs ++ ys) ≡ some (r.0, q.1 ++ r.1)
  unfolding run_all
  run_all-append o [] ys q r e e' =
      let h : (o, []) ≡ q = some-injective _ _ e in
      subst (λ (p : Orderer Json × List Json). run_all lib o ys ≡ some (r.0, p.1 ++ r.1)) h
        (ap (λ (p : Orderer Json × List Json). run_all lib p.0 ys) h ∙ e')
  run_all-append o (x ∷ xs) ys q r e e' =
      let (p, a, b) = bind-eq-some (step_all lib o x) _ e in
      let (s, c, d) = bind-eq-some (run_all lib p.0 xs) _ b in
      let h : (s.0, p.1 ++ s.1) ≡ q = some-injective _ _ d in
      rw
        (
          a,
          run_all-append p.0 xs ys s r c
              (ap (λ (p : Orderer Json × List Json). run_all lib p.0 ys) h ∙ e'),
          sym h,
          append_assoc,
        )
        refl

  notice-orderer :
      (t : ℤ) (js : Json) (c d : Client Json) → notice lib t js c ≡ some d → d.orderer ≡ c.orderer
  unfolding notice
  notice-orderer t js c d e = ground arith

  take_message-run_all :
      (later : ℕ) (js : Json) (c : Client Json) (r : Client Json × List Json)
      → take_message lib later js c ≡ some r
      → run_all lib c.orderer (told_of later js) ≡ some (r.0.orderer, r.1)
  unfolding take_message run_all step_all
  take_message-run_all later js c r e =
      let (t, x, y) = bind-eq-some (message_type lib js) _ e in
      elim (if-eq-some (is_chat lib t) y) [
        | inl (k, z) ↦
            let (q, u, v) = bind-eq-some (on_message lib later js c.orderer) _ z in
            rw (x, k, u, append-nil)
              (ap (λ (p : Client Json × List Json). some (p.0.orderer, p.1)) (some-injective _ _ v))
        | inr (k, z) ↦
            let (d, u, v) = bind-eq-some (notice lib t js c) _ z in
            rw (x, k)
              (ap (λ w. some (w, [])) (sym (notice-orderer t js c d u))
                ∙ ap (λ (p : Client Json × List Json). some (p.0.orderer, p.1))
                    (some-injective _ _ v))
      ]

  take_parsed-run_all :
      (later : ℕ) (js : Option Json) (c : Client Json) (r : Client Json × List Json)
      → take_parsed lib later js c ≡ some r
      → run_all lib c.orderer (told_parsed later js) ≡ some (r.0.orderer, r.1)
  unfolding take_parsed run_all
  take_parsed-run_all later none c r e =
      ap (λ (p : Client Json × List Json). some (p.0.orderer, p.1)) (some-injective _ _ e)
  take_parsed-run_all later (some js) c r e = take_message-run_all later js c r e

  read_body-run_all :
      (b : ℕ × ℕ × Bytes) (c : Client Json) (r : Client Json × List Json)
      → read_body lib b.0 b.1 b.2 c ≡ some r
      → run_all lib c.orderer (inputs_of_body b) ≡ some (r.0.orderer, r.1)
  unfolding read_body run_all step_all
  read_body-run_all (now, later, body) c r e =
      let t = tick now c.orderer in
      let (q, x, y) =
        bind-eq-some (take_parsed lib later (parse body) (record c { orderer = t.0 })) _ e in
      let (text, u, v) = bind-eq-some (render_all lib (t.1 ++ q.1)) _ y in
      rw (take_parsed-run_all later (parse body) (record c { orderer = t.0 }) q x)
        (ap (λ (p : Client Json × List Json). some (p.0.orderer, p.1)) (some-injective _ _ v))

  -- What the loop shows is what the orderer shows when it is told of the ticks and the chat messages.
  pub read_bodies-run_all :
      (bodies : List (ℕ × ℕ × Bytes)) (c : Client Json) (r : Client Json × List Json)
      → read_bodies lib bodies c ≡ some r
      → run_all lib c.orderer (inputs_of bodies) ≡ some (r.0.orderer, r.1)
  unfolding read_bodies
  read_bodies-run_all [] c r e =
      unfold run_all in
      ap (λ (p : Client Json × List Json). some (p.0.orderer, p.1)) (some-injective _ _ e)
  read_bodies-run_all ((now, later, body) ∷ bodies) c r e =
      let (q, x, y) = bind-eq-some (read_body lib now later body c) _ e in
      let (s, u, v) = bind-eq-some (read_bodies lib bodies q.0) _ y in
      run_all-append c.orderer (inputs_of_body (now, later, body)) (inputs_of bodies)
        (q.0.orderer, q.1) (s.0.orderer, s.1) (read_body-run_all (now, later, body) c q x)
        (read_bodies-run_all bodies q.0 s u)
      ∙ ap (λ (p : Client Json × List Json). some (p.0.orderer, p.1)) (some-injective _ _ v)

  -- The clock has left its epoch, and a chat message's number has a successor in uint64_t.
  abbrev pub IsPlausibleBody : ℕ × ℕ × Bytes → Type 0
  IsPlausibleBody (now, later, body) =
      (0 < now)
      × (0 < later)
      × ((js : Json) (d : Bytes) (s : ℕ)
          → parse body ≡ some js
          → key lib js ≡ some (d, s)
          → s + 1 < u64)

  told_if-IsPlausible :
      (b : Bool) (i : Input Json)
      → IsPlausibleInput lib i
      → All (IsPlausibleInput lib) (if b then i ∷ [] else [])
  told_if-IsPlausible true i p = (p, tt)
  told_if-IsPlausible false i p = tt

  told_as-IsPlausible :
      (later : ℕ) (js : Json) (t : Option ℤ)
      → IsPlausibleInput lib (hears later js)
      → All (IsPlausibleInput lib) (told_as later js t)
  told_as-IsPlausible later js none p = tt
  told_as-IsPlausible later js (some t) p = told_if-IsPlausible (is_chat lib t) (hears later js) p

  told_parsed-IsPlausible :
      (later : ℕ) (parsed : Option Json)
      → 0 < later
      → ((js : Json) (d : Bytes) (s : ℕ)
          → parsed ≡ some js
          → key lib js ≡ some (d, s)
          → s + 1 < u64)
      → All (IsPlausibleInput lib) (told_parsed later parsed)
  told_parsed-IsPlausible later none p h = tt
  told_parsed-IsPlausible later (some js) p h =
      told_as-IsPlausible later js (message_type lib js) (p, λ d s k. h js d s refl k)

  inputs_of_body-IsPlausible :
      (b : ℕ × ℕ × Bytes) → IsPlausibleBody b → All (IsPlausibleInput lib) (inputs_of_body b)
  inputs_of_body-IsPlausible (now, later, body) p =
      (p.0, told_parsed-IsPlausible later (parse body) p.1 p.2)

  pub inputs_of-IsPlausible :
      (bodies : List (ℕ × ℕ × Bytes))
      → All IsPlausibleBody bodies
      → All (IsPlausibleInput lib) (inputs_of bodies)
  inputs_of-IsPlausible [] p = tt
  inputs_of-IsPlausible (b ∷ bodies) p =
      All-append (IsPlausibleInput lib) (inputs_of_body b) (inputs_of bodies)
        (inputs_of_body-IsPlausible b p.0) (inputs_of-IsPlausible bodies p.1)
