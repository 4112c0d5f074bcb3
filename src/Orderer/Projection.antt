-- ===== src/Orderer/Projection.antt =====
-- include/conversation_orderer.hpp: seen from one conversation, the orderer is that conversation's
-- channel, whatever the others do.
use cluster_chatroom_project.Prelude.{
  ℕ, ◌≡◌, refl, sym, subst, ap, ap₂, append-nil, ◌∙◌, inl, inr, false, Option, some, none, List, [],
  ◌∷◌, ◌++◌, All, Bool-cases, Bytes, same, same_iff, same_refl, if◌then◌else◌, ◌>>=◌, arith,
}
use cluster_chatroom_project.Json.{JsonLib}
use cluster_chatroom_project.Orderer.Channel.{Channel, fresh}
use cluster_chatroom_project.Orderer.Origin.{Holds}
use cluster_chatroom_project.Orderer.Conversations.{channel, set_channel, each, messages, stamp}

-- What the program is told: a message, a tick, or the end of an offline batch.
pub data Input (J : Type 0) : Type 0 where
  hears : ℕ → J → Input J
  wakes : ℕ → Input J
  ends : ℕ → Input J

module _ {J : Type 0} where
  pub channel-set_channel :
      (c d : Bytes) (ch : Channel J) (cs : List (Bytes × Channel J))
      → channel d (set_channel c ch cs) ≡ (if same c d then ch else channel d cs)
  unfolding channel set_channel
  channel-set_channel c d ch [] = refl
  channel-set_channel c d ch ((k, old) ∷ rest) =
      ground (arith, channel-set_channel c d ch rest, same_iff k c, same_iff k d, same_iff c d)

module _ (lib : JsonLib) where
  open lib use {Json, as_string}

  -- The conversation and the number under which a message is ordered.
  unfoldable pub key : Json → Option (Bytes × ℕ)
  key js = do r ← stamp lib js; conv ← as_string r.0; some (conv, r.1)

  -- Of what was shown, the messages of one conversation with their numbers.
  unfoldable pub shown : Bytes → List Json → List (ℕ × Json)
  shown c [] = []
  shown c (js ∷ out) = elim (key js) [
    | none ↦ shown c out
    | some (d, s) ↦ if same d c then (s, js) ∷ shown c out else shown c out
  ]

  abbrev pub KeyedAs : Bytes → ℕ × Json → Type 0
  KeyedAs c p = key p.1 ≡ some (c, p.0)

  pub shown-append : (c : Bytes) (xs ys : List Json) → shown c (xs ++ ys) ≡ shown c xs ++ shown c ys
  unfolding shown
  shown-append c [] ys = refl
  shown-append c (x ∷ xs) ys = ground (arith, shown-append c xs ys)

  pub shown_own :
      (c : Bytes) (out : List (ℕ × Json)) → All (KeyedAs c) out → shown c (messages out) ≡ out
  unfolding shown
  shown_own c [] a = refl
  shown_own c ((s, js) ∷ out) a =
      rw (a.0, shown, same_refl c) (ap (◌∷◌ (s, js)) (shown_own c out a.1))

  pub shown_other :
      (c d : Bytes) (out : List (ℕ × Json))
      → same c d ≡ false
      → All (KeyedAs c) out
      → shown d (messages out) ≡ []
  unfolding shown
  shown_other c d [] n a = refl
  shown_other c d ((s, js) ∷ out) n a = rw (a.0, shown, n) (shown_other c d out n a.1)

  abbrev pub Absent : Bytes → List (Bytes × Channel Json) → Type 0
  Absent c cs = All (λ e. same e.0 c ≡ false) cs

  -- One channel for a conversation, and in its buffer only that conversation's messages.
  abbrev pub IsKeyed : List (Bytes × Channel Json) → Type 0
  IsKeyed [] = Unit
  IsKeyed ((c, ch) ∷ rest) = All (KeyedAs c) ch.pending × Absent c rest × IsKeyed rest

  module _ (f : Channel Json → Channel Json × List (ℕ × Json)) where
    abbrev pub Keeps : Type 0
    Keeps = (c : Bytes) (ch : Channel Json) → All (KeyedAs c) ch.pending → Holds (KeyedAs c) (f ch)

    channel-Absent :
        (d : Bytes) (cs : List (Bytes × Channel Json)) → Absent d cs → channel d cs ≡ fresh
    unfolding channel
    channel-Absent d [] a = refl
    channel-Absent d ((c, ch) ∷ rest) a = rw a.0 (channel-Absent d rest a.1)

    each-Absent :
        (d : Bytes) (cs : List (Bytes × Channel Json)) → Absent d cs → Absent d (each f cs).0
    unfolding each
    each-Absent d [] a = tt
    each-Absent d ((c, ch) ∷ rest) a = (a.0, each-Absent d rest a.1)

    pub each-IsKeyed :
        (cs : List (Bytes × Channel Json)) → Keeps → IsKeyed cs → IsKeyed (each f cs).0
    unfolding each
    each-IsKeyed [] k w = tt
    each-IsKeyed ((c, ch) ∷ rest) k w =
        ((k c ch w.0).0, each-Absent c rest w.1, each-IsKeyed rest k w.2)

    -- A loop over all channels does to one conversation what it does to its channel.
    pub each-channel :
        (d : Bytes) (cs : List (Bytes × Channel Json))
        → Keeps
        → f fresh ≡ (fresh, [])
        → IsKeyed cs
        → (channel d (each f cs).0 ≡ (f (channel d cs)).0)
          × (shown d (each f cs).1 ≡ (f (channel d cs)).1)
    unfolding each channel shown
    each-channel d [] k z w = (ap (λ r. r.0) (sym z), ap (λ r. r.1) (sym z))
    each-channel d ((c, ch) ∷ rest) k z w =
        let ih = each-channel d rest k z w.2 in
        let r = f ch in
        let s = shown-append d (messages r.1) (each f rest).1 in
        elim (Bool-cases (same c d)) [
          | inl e ↦
              let cd = (same_iff c d).0 e in
              let own = shown_own d r.1 (subst (λ x. All (KeyedAs x) r.1) cd (k c ch w.0).1) in
              let away = channel-Absent d rest (subst (λ x. Absent x rest) cd w.1) in
              let gone = ih.1 ∙ ap (λ x. (f x).1) away ∙ ap (λ x. x.1) z in
              (rw e refl, rw e (s ∙ ap₂ ◌++◌ own gone ∙ append-nil r.1))
          | inr n ↦
              let none_of = shown_other c d r.1 n (k c ch w.0).1 in
              (rw n ih.0, rw n (s ∙ ap₂ ◌++◌ none_of ih.1))
        ]
