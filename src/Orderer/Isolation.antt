-- ===== src/Orderer/Isolation.antt =====
-- include/conversation_orderer.hpp: a whole session of the orderer, seen from one conversation.
use mathlib.Core.Option.{some-injective}
use cluster_chatroom_project.Prelude.{
  ℕ, ◌≡◌, refl, sym, subst, ap, append-nil, ◌∙◌, inl, inr, false, Option, some, none, List, [], ◌∷◌,
  ◌++◌, All, Bool-cases, Option-cases, Bytes, same, same_iff, same_comm, same_refl, if◌then◌else◌,
  ◌>>=◌,
}
use cluster_chatroom_project.Json.{JsonLib}
use cluster_chatroom_project.Orderer.Channel.{Channel, fresh, receive, expire, flush, release_first}
use cluster_chatroom_project.Orderer.Origin.{Holds, receive-Holds, expire-Holds, flush-Holds}
use cluster_chatroom_project.Orderer.History.{Event, arrives, ticks, ends_batch, step, run}
use cluster_chatroom_project.Orderer.Conversations.{
  Orderer, channel, set_channel, messages, tick, flush_all, stamp, dispatch, on_message,
}
use cluster_chatroom_project.Orderer.Projection.{
  Input, hears, wakes, ends, key, shown, KeyedAs, Absent, IsKeyed, each-channel, each-IsKeyed,
  channel-set_channel, shown_own, shown_other,
}

module _ (lib : JsonLib) where
  open lib use {Json, as_string}

  unfoldable pub step_all : Orderer Json → Input Json → Option (Orderer Json × List Json)
  step_all o (hears now js) = on_message lib now js o
  step_all o (wakes now) = some (tick now o)
  step_all o (ends now) = some (flush_all now o)

  unfoldable pub run_all : Orderer Json → List (Input Json) → Option (Orderer Json × List Json)
  run_all o [] = some (o, [])
  run_all o (e ∷ es) = do r ← step_all o e; rs ← run_all r.0 es; some (rs.0, r.1 ++ rs.1)

  -- What a conversation's channel is told of an input.
  unfoldable pub told : Bytes → Input Json → List (Event Json)
  told d (hears now js) = elim (key lib js) [
    | none ↦ []
    | some (c, s) ↦ if same c d then arrives now s js ∷ [] else []
  ]
  told d (wakes now) = ticks now ∷ []
  told d (ends now) = ends_batch now ∷ []

  unfoldable pub project : Bytes → List (Input Json) → List (Event Json)
  project d [] = []
  project d (e ∷ es) = told d e ++ project d es

  set_channel-Absent :
      (x c : Bytes) (ch : Channel Json) (cs : List (Bytes × Channel Json))
      → same c x ≡ false
      → Absent lib x cs
      → Absent lib x (set_channel c ch cs)
  unfolding set_channel
  set_channel-Absent x c ch [] n a = (n, tt)
  set_channel-Absent x c ch ((k, old) ∷ rest) n a = elim (Bool-cases (same k c)) [
    | inl e ↦ rw e a
    | inr e ↦ rw e (a.0, set_channel-Absent x c ch rest n a.1)
  ]

  set_channel-IsKeyed :
      (c : Bytes) (ch : Channel Json) (cs : List (Bytes × Channel Json))
      → All (KeyedAs lib c) ch.pending
      → IsKeyed lib cs
      → IsKeyed lib (set_channel c ch cs)
  unfolding set_channel
  set_channel-IsKeyed c ch [] a w = (a, tt, tt)
  set_channel-IsKeyed c ch ((k, old) ∷ rest) a w = elim (Bool-cases (same k c)) [
    | inl e ↦
        rw e (subst (λ x. All (KeyedAs lib x) ch.pending) (sym ((same_iff k c).0 e)) a, w.1, w.2)
    | inr n ↦ rw n (
      w.0,
      set_channel-Absent k c ch rest (same_comm c k ∙ n) w.1,
      set_channel-IsKeyed c ch rest a w.2,
    )
  ]

  channel-All :
      (c : Bytes) (cs : List (Bytes × Channel Json))
      → IsKeyed lib cs
      → All (KeyedAs lib c) (channel c cs).pending
  unfolding channel
  channel-All c [] w = tt
  channel-All c ((k, ch) ∷ rest) w = elim (Bool-cases (same k c)) [
    | inl e ↦ rw e (subst (λ x. All (KeyedAs lib x) ch.pending) ((same_iff k c).0 e) w.0)
    | inr n ↦ rw n (channel-All c rest w.2)
  ]

  -- What one input does to the orderer, and to one conversation in it.
  pub record Projects (d : Bytes) (o : Orderer Json) (es : List (Event Json))
      (r : Orderer Json × List Json) : Type 0 where
    pub keyed : IsKeyed lib r.0.channels
    pub timeout : r.0.gap_timeout ≡ o.gap_timeout
    pub state : channel d r.0.channels ≡ (run o.gap_timeout (channel d o.channels) es).0
    pub output : shown lib d r.1 ≡ (run o.gap_timeout (channel d o.channels) es).1

  key-none : (js : Json) → stamp lib js ≡ none → key lib js ≡ none
  unfolding key
  key-none js e = rw e refl

  key-some :
      (js c : Json) (s : ℕ) (conv : Bytes)
      → stamp lib js ≡ some (c, s)
      → as_string c ≡ some conv
      → key lib js ≡ some (conv, s)
  unfolding key
  key-some js c s conv e h = rw (e, h) refl

  pub told-none : (d : Bytes) (now : ℕ) (js : Json) → key lib js ≡ none → told d (hears now js) ≡ []
  unfolding told
  told-none d now js e = rw (e, told) refl

  pub told-some :
      (d c : Bytes) (now s : ℕ) (js : Json)
      → key lib js ≡ some (c, s)
      → told d (hears now js) ≡ (if same c d then arrives now s js ∷ [] else [])
  unfolding told
  told-some d c now s js e = rw (e, told) refl

  abbrev received : ℕ → Json → ℕ → Bytes → Orderer Json → Orderer Json × List Json
  received now js s conv o =
      let r = receive now s js (channel conv o.channels) in
      (record o { channels = set_channel conv r.0 o.channels }, messages r.1)

  plain-Projects :
      (d : Bytes) (js : Json) (o : Orderer Json)
      → key lib js ≡ none
      → IsKeyed lib o.channels
      → Projects d o [] (o, js ∷ [])
  unfolding run shown
  plain-Projects d js o k w = record {
    keyed = w;
    timeout = refl;
    state = refl;
    output = rw (k, shown) refl;
  }

  module _ (now : ℕ) (js : Json) (s : ℕ) (conv : Bytes) (o : Orderer Json)
      (k : key lib js ≡ some (conv, s)) (w : IsKeyed lib o.channels) where
    holds : Holds (KeyedAs lib conv) (receive now s js (channel conv o.channels))
    holds =
        receive-Holds (KeyedAs lib conv) now s js (channel conv o.channels) k
          (channel-All conv o.channels w)

    received-IsKeyed : IsKeyed lib (received now js s conv o).0.channels
    received-IsKeyed = set_channel-IsKeyed conv _ o.channels holds.0 w

    own-Projects : Projects conv o (arrives now s js ∷ []) (received now js s conv o)
    unfolding run step
    own-Projects = record {
      keyed = received-IsKeyed;
      timeout = refl;
      state = rw (channel-set_channel, same_refl conv) refl;
      output = shown_own lib conv _ holds.1 ∙ sym (append-nil _);
    }

    other-Projects : (d : Bytes) → same conv d ≡ false → Projects d o [] (received now js s conv o)
    unfolding run
    other-Projects d n = record {
      keyed = received-IsKeyed;
      timeout = refl;
      state = rw (channel-set_channel, n) refl;
      output = shown_other lib conv d _ n holds.1;
    }

  dispatch-Projects :
      (d : Bytes) (now : ℕ) (js : Json) (o : Orderer Json) (m : Option (Json × ℕ))
      (r : Orderer Json × List Json)
      → stamp lib js ≡ m
      → dispatch lib now js o m ≡ some r
      → IsKeyed lib o.channels
      → Projects d o (told d (hears now js)) r
  unfolding dispatch
  dispatch-Projects d now js o none r h e w =
      let k = key-none js h in
      rw (told-none d now js k)
        (subst (Projects d o []) (some-injective _ _ e) (plain-Projects d js o k w))
  dispatch-Projects d now js o (some (c, s)) r h e w = elim (Option-cases (as_string c)) [
    | inl x ↦ cc (ap (λ m. m >>= λ conv. some (received now js s conv o)) x)
    | inr (conv, x) ↦
        let k = key-some js c s conv h x in
        let q =
          some-injective _ _ (sym (ap (λ m. m >>= λ b. some (received now js s b o)) x) ∙ e) in
        elim (Bool-cases (same conv d)) [
          | inl y ↦
              rw (told-some d conv now s js k, y)
                (subst (Projects d o (arrives now s js ∷ [])) q (
                  subst (λ b. Projects b o (arrives now s js ∷ []) (received now js s conv o))
                    ((same_iff conv d).0 y) (own-Projects now js s conv o k w)))
          | inr n ↦
              rw (told-some d conv now s js k, n)
                (subst (Projects d o []) q (other-Projects now js s conv o k w d n))
        ]
  ]

  on_message-Projects :
      (d : Bytes) (now : ℕ) (js : Json) (o : Orderer Json) (r : Orderer Json × List Json)
      → on_message lib now js o ≡ some r
      → IsKeyed lib o.channels
      → Projects d o (told d (hears now js)) r
  unfolding on_message
  on_message-Projects d now js o r e w = dispatch-Projects d now js o (stamp lib js) r refl e w

  expire-fresh : (timeout now : ℕ) → expire {A = Json} timeout now fresh ≡ (fresh, [])
  unfolding expire
  expire-fresh timeout now = refl

  flush-fresh : (now : ℕ) → flush {A = Json} now fresh ≡ (fresh, [])
  unfolding flush release_first
  flush-fresh now = refl

  tick-Projects :
      (d : Bytes) (now : ℕ) (o : Orderer Json)
      → IsKeyed lib o.channels
      → Projects d o (ticks now ∷ []) (tick now o)
  unfolding tick run step
  tick-Projects d now o w =
      let f : Channel Json → Channel Json × List (ℕ × Json) = expire o.gap_timeout now in
      let k = λ (c : Bytes) (ch : Channel Json) (a : All (KeyedAs lib c) ch.pending).
        expire-Holds (KeyedAs lib c) o.gap_timeout now ch a in
      let e = each-channel lib f d o.channels k (expire-fresh o.gap_timeout now) w in
      record {
        keyed = each-IsKeyed lib f o.channels k w;
        timeout = refl;
        state = e.0;
        output = e.1 ∙ sym (append-nil _);
      }

  flush_all-Projects :
      (d : Bytes) (now : ℕ) (o : Orderer Json)
      → IsKeyed lib o.channels
      → Projects d o (ends_batch now ∷ []) (flush_all now o)
  unfolding flush_all run step
  flush_all-Projects d now o w =
      let k = λ (c : Bytes) (ch : Channel Json) (a : All (KeyedAs lib c) ch.pending).
        flush-Holds (KeyedAs lib c) now ch a in
      let e = each-channel lib (flush now) d o.channels k (flush-fresh now) w in
      record {
        keyed = each-IsKeyed lib (flush now) o.channels k w;
        timeout = refl;
        state = e.0;
        output = e.1 ∙ sym (append-nil _);
      }

  pub step_all-Projects :
      (d : Bytes) (o : Orderer Json) (i : Input Json) (r : Orderer Json × List Json)
      → step_all o i ≡ some r
      → IsKeyed lib o.channels
      → Projects d o (told d i) r
  unfolding step_all told
  step_all-Projects d o (hears now js) r e w = unfold told in on_message-Projects d now js o r e w
  step_all-Projects d o (wakes now) r e w =
      subst (Projects d o (ticks now ∷ [])) (some-injective _ _ e) (tick-Projects d now o w)
  step_all-Projects d o (ends now) r e w =
      subst (Projects d o (ends_batch now ∷ [])) (some-injective _ _ e)
        (flush_all-Projects d now o w)
