-- ===== src/Orderer/Session.antt =====
-- include/conversation_orderer.hpp: a whole session of the orderer, conversation by conversation.
use mathlib.Core.Option.{some-injective}
use mathlib.Core.Path.{subst₂}
use cluster_chatroom_project.Prelude.{
  ℕ, ◌+◌, ◌<◌, ◌≡◌, refl, sym, subst, ap, ap₂, ◌∙◌, inl, inr, Bool, true, false, some, List, [],
  ◌∷◌, ◌++◌, All, All-append, Option-cases, Bytes, same, if◌then◌else◌, bind-eq-some,
}
use cluster_chatroom_project.Json.{JsonLib}
use cluster_chatroom_project.Orderer.Channel.{u64, Channel}
use cluster_chatroom_project.Orderer.Invariant.{Ascending}
use cluster_chatroom_project.Orderer.History.{
  Event, arrives, run, run-append, run-append_out, IsPlausible,
}
use cluster_chatroom_project.Orderer.Reorder.{run-Ascending}
use cluster_chatroom_project.Orderer.Conversations.{Orderer, channel, on_message}
use cluster_chatroom_project.Orderer.Projection.{
  Input, hears, wakes, ends, key, shown, IsKeyed, shown-append,
}
use cluster_chatroom_project.Orderer.Isolation.{
  step_all, run_all, told, told-none, told-some, project, Projects, step_all-Projects,
}

module _ (lib : JsonLib) where
  open lib use {Json, as_string}

  -- An orderer that has seen nothing.
  abbrev pub start : ℕ → Orderer Json
  start timeout = record { channels = []; gap_timeout = timeout }

  Projects-append :
      (d : Bytes) (o : Orderer Json) (xs ys : List (Event Json)) (q r : Orderer Json × List Json)
      → Projects lib d o xs q
      → Projects lib d q.0 ys r
      → Projects lib d o (xs ++ ys) (r.0, q.1 ++ r.1)
  Projects-append d o xs ys q r p p' =
      let t = o.gap_timeout in
      let ch = channel d o.channels in
      record {
        keyed = p'.keyed;
        timeout = p'.timeout ∙ p.timeout;
        state =
            p'.state ∙ ap₂ (λ u c. (run u c ys).0) p.timeout p.state ∙ sym (run-append t ch xs ys);
        output =
            shown-append lib d q.1 r.1
            ∙ ap₂ ◌++◌ p.output (p'.output ∙ ap₂ (λ u c. (run u c ys).1) p.timeout p.state)
            ∙ sym (run-append_out t ch xs ys);
      }

  -- Given channels whose buffered messages bear their own conversation and number: seen from one
  -- conversation, a session of the whole orderer in which no call throws is a history of that
  -- conversation's channel alone. Its state and what it shows are those of the channel that is
  -- told only of its own messages, of the ticks and of the ends of batches.
  pub run_all-Projects :
      (d : Bytes) (o : Orderer Json) (is : List (Input Json)) (r : Orderer Json × List Json)
      → run_all lib o is ≡ some r
      → IsKeyed lib o.channels
      → Projects lib d o (project lib d is) r
  unfolding run_all project
  run_all-Projects d o [] r e w =
      subst (Projects lib d o []) (some-injective _ _ e)
        (unfold run shown in record { keyed = w; timeout = refl; state = refl; output = refl })
  run_all-Projects d o (i ∷ is) r e w =
      let (q, eq, e') = bind-eq-some (step_all lib o i) _ e in
      let (r', er, e'') = bind-eq-some (run_all lib q.0 is) _ e' in
      let p = step_all-Projects lib d o i q eq w in
      subst (Projects lib d o (told lib d i ++ project lib d is)) (some-injective _ _ e'') (
        Projects-append d o (told lib d i) (project lib d is) q r' p
          (run_all-Projects d q.0 is r' er p.keyed))

  -- The clock has left its epoch, and the number of an ordered message has a successor in uint64_t.
  abbrev pub IsPlausibleInput : Input Json → Type 0
  IsPlausibleInput (hears now js) =
      (0 < now) × ((c : Bytes) (s : ℕ) → key lib js ≡ some (c, s) → s + 1 < u64)
  IsPlausibleInput (wakes now) = 0 < now
  IsPlausibleInput (ends now) = 0 < now

  All-if_nil :
      (b : Bool) (e : Event Json) → IsPlausible e → All IsPlausible (if b then e ∷ [] else [])
  All-if_nil true e p = (p, tt)
  All-if_nil false e p = tt

  told-IsPlausible :
      (d : Bytes) (i : Input Json) → IsPlausibleInput i → All IsPlausible (told lib d i)
  told-IsPlausible d (hears now js) p = elim (Option-cases (key lib js)) [
    | inl k ↦ rw (told-none lib d now js k) tt
    | inr ((c, s), k) ↦
        rw (told-some lib d c now s js k)
          (All-if_nil (same c d) (arrives now s js) (p.0, p.1 c s k))
  ]
  told-IsPlausible d (wakes now) p = unfold told in (p, tt)
  told-IsPlausible d (ends now) p = unfold told in (p, tt)

  project-IsPlausible :
      (d : Bytes) (is : List (Input Json))
      → All IsPlausibleInput is
      → All IsPlausible (project lib d is)
  unfolding project
  project-IsPlausible d [] p = tt
  project-IsPlausible d (i ∷ is) p =
      All-append IsPlausible (told lib d i) (project lib d is) (told-IsPlausible d i p.0)
        (project-IsPlausible d is p.1)

  -- In any session of the client's orderer that starts empty and in which no call throws, every
  -- number below 2^64 - 1 and every time positive: of what is shown, the messages of each
  -- conversation have strictly ascending numbers, so none is shown twice, and none after a later
  -- one.
  pub run_all-Ascending :
      (d : Bytes) (timeout : ℕ) (is : List (Input Json)) (o : Orderer Json) (out : List Json)
      → run_all lib (start timeout) is ≡ some (o, out)
      → All IsPlausibleInput is
      → Ascending 0 (shown lib d out) (channel d o.channels).expect
  unfolding channel
  run_all-Ascending d timeout is o out e p =
      let q = run_all-Projects d (start timeout) is (o, out) e tt in
      subst₂ (λ xs (ch : Channel Json). Ascending 0 xs ch.expect) (sym q.output) (sym q.state)
        (run-Ascending timeout (project lib d is) (project-IsPlausible d is p))

  -- Given channels whose buffered messages bear their own conversation and number: a numbered
  -- message of one conversation leaves every other conversation as it is. Its channel does not
  -- change, and nothing of it is shown.
  pub on_message_elsewhere :
      (d c : Bytes) (now s : ℕ) (js : Json) (o : Orderer Json) (r : Orderer Json × List Json)
      → key lib js ≡ some (c, s)
      → same c d ≡ false
      → IsKeyed lib o.channels
      → on_message lib now js o ≡ some r
      → (channel d r.0.channels ≡ channel d o.channels) × (shown lib d r.1 ≡ [])
  unfolding run
  on_message_elsewhere d c now s js o r k n w e =
      let p = step_all-Projects lib d o (hears now js) r (unfold step_all in e) w in
      let t = told-some lib d c now s js k ∙ ap (λ b. if b then arrives now s js ∷ [] else []) n in
      (
        p.state ∙ ap (λ es. (run o.gap_timeout (channel d o.channels) es).0) t,
        p.output ∙ ap (λ es. (run o.gap_timeout (channel d o.channels) es).1) t,
      )
