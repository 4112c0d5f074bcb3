-- ===== src/Orderer/Keeps.antt =====
-- Each operation on a channel of include/conversation_orderer.hpp: the invariant, and the order of
-- what is delivered.
use native.Mathlib.Nat.{le_refl}
use cluster_chatroom_project.Prelude.{
  ℕ, ◌+◌, ◌-◌, ◌/◌, ◌≤◌, ◌<◌, ◌≡◌, refl, sym, subst, ◌∙◌, ◌⊎◌, inl, inr, true, List, [], ◌∷◌, ◌||◌,
  arith, if_rule, ltb, ◌==◌, compare-cases,
}
use cluster_chatroom_project.Orderer.Channel.{
  u64, Channel, contains, put, deliver, drain_pending, begin, is_empty, receive, accept,
  release_first, expire, flush, start_gap,
}
use cluster_chatroom_project.Orderer.Invariant.{
  From, Consecutive, Ascending, Inv, From-mono, Consecutive→Ascending, Drained,
  drain_pending-Drained, drain_pending-timed, Below-mono, deliver-behind, deliver-expect,
  deliver-initialized, deliver-pending,
}

module _ {A : Type 0} where
  -- One operation: the invariant holds again, and the numbers delivered ascend from `e` on and stay
  -- below what is expected next.
  pub record Moves (e : ℕ) (r : Channel A × List (ℕ × A)) : Type 0 where
    pub inv : Inv r.0
    pub ascends : Ascending e r.1 r.0.expect

  -- The same without a number left out.
  pub record Takes (e : ℕ) (r : Channel A × List (ℕ × A)) : Type 0 where
    pub inv : Inv r.0
    pub taken : Consecutive e r.1 r.0.expect
    pub started : r.0.initialized ≡ true

  Ascending-weaken :
      (m n e : ℕ) (out : List (ℕ × A)) → m ≤ n → Ascending n out e → Ascending m out e
  Ascending-weaken m n e [] h a = omega arith
  Ascending-weaken m n e ((s, js) ∷ out) h a = (omega arith, a.1)

  put-From :
      (n s : ℕ) (js : A) (p : List (ℕ × A)) → n ≤ s → s + 1 < u64 → From n p → From n (put s js p)
  unfolding put
  put-From n s js [] h w f = (h, w, tt)
  put-From n s js ((k, m) ∷ rest) h w f = elim (compare-cases s k) [
    | inl (l, e) ↦ rw (e, put) (h, w, (omega arith, f.1, f.2))
    | inr (inl (l, e)) ↦ rw (e, put) f
    | inr (inr (l, e)) ↦ rw (e, put) (f.0, f.1, put-From (k + 1) s js rest (omega arith) w f.2)
  ]

  Drained→Takes :
      (ch : Channel A) (r : Channel A × List (ℕ × A))
      → ch.initialized ≡ true
      → Drained ch r
      → (r.0.pending ≡ []) ⊎ (0 < r.0.gap_since)
      → Takes ch.expect r
  Drained→Takes ch r i d t = record {
    inv = record { ahead = d.ahead; behind = d.behind; begun = inl (d.kept ∙ i); timed = t };
    taken = d.taken;
    started = d.kept ∙ i;
  }

  Takes→Moves : (d e : ℕ) (r : Channel A × List (ℕ × A)) → d ≤ e → Takes e r → Moves d r
  Takes→Moves d e r h t = record {
    inv = t.inv;
    ascends = Ascending-weaken d e _ r.1 h (Consecutive→Ascending e _ r.1 t.taken);
  }

  Inv→initialized :
      (ch : Channel A) (k : ℕ) (m : A) (rest : List (ℕ × A))
      → ch.pending ≡ (k, m) ∷ rest
      → Inv ch
      → ch.initialized ≡ true
  Inv→initialized ch k m rest e v = ground arith

  release_first-Moves :
      (now : ℕ) (ch : Channel A) (p : List (ℕ × A))
      → 0 < now
      → ch.pending ≡ p
      → Inv ch
      → Moves ch.expect (release_first now ch p)
  unfolding release_first
  release_first-Moves now ch [] n e v = record { inv = v; ascends = omega arith }
  release_first-Moves now ch ((k, m) ∷ rest) n e v =
      let f = subst (From (ch.expect + 1)) e v.ahead in
      let skipped : Channel A = record ch { expect = k } in
      let d =
        drain_pending-Drained now skipped (subst (From k) (sym e) (omega arith, f.1, f.2))
          (Below-mono ch.expect k ch.delivered (omega arith) v.behind) in
      Takes→Moves ch.expect k _ (omega arith) (
        Drained→Takes skipped _ (Inv→initialized ch k m rest e v) d
          (drain_pending-timed now skipped n))

  pub expire-Moves :
      (timeout now : ℕ) (ch : Channel A)
      → 0 < now
      → Inv ch
      → Moves ch.expect (expire timeout now ch)
  unfolding expire
  expire-Moves timeout now ch n v =
      let same : Moves ch.expect (ch, []) = record { inv = v; ascends = omega arith } in
      if_rule (Moves ch.expect) (is_empty ch.pending || ch.gap_since == 0) (λ _. same)
        (λ _.
          if_rule (Moves ch.expect) (ltb ((now - ch.gap_since) / 1000000) timeout) (λ _. same)
            (λ _. release_first-Moves now ch ch.pending n refl v))

  pub flush-Moves : (now : ℕ) (ch : Channel A) → 0 < now → Inv ch → Moves ch.expect (flush now ch)
  unfolding flush
  flush-Moves now ch n v = release_first-Moves now ch ch.pending n refl v

  pub begin-Inv :
      (seq : ℕ) (ch : Channel A)
      → Inv ch
      → Inv (begin seq ch)
        × (ch.expect ≤ (begin seq ch).expect)
        × ((begin seq ch).initialized ≡ true)
  unfolding begin
  begin-Inv seq ch v =
      if_rule {A = Channel A} (λ c. Inv c × (ch.expect ≤ c.expect) × (c.initialized ≡ true))
        ch.initialized (λ i. (v, le_refl ch.expect, i))
        (λ i. elim v.begun [
          | inl j ↦ cc
          | inr (z, p, d) ↦ (
            record { ahead = rw p tt; behind = rw d tt; begun = inl refl; timed = inl p },
            omega arith,
            refl,
          )
        ])

  store-Takes :
      (now seq : ℕ) (js : A) (ch : Channel A)
      → 0 < now
      → seq + 1 < u64
      → ch.expect < seq
      → ch.initialized ≡ true
      → Inv ch
      → Takes ch.expect (start_gap now (record ch { pending = put seq js ch.pending }), [])
  unfolding start_gap
  store-Takes now seq js ch n w l i v =
      let f = put-From (ch.expect + 1) seq js ch.pending (omega arith) w v.ahead in
      if_rule (λ c. Takes ch.expect (c, [])) (ch.gap_since == 0)
        (λ _. record {
          inv = record { ahead = f; behind = v.behind; begun = inl i; timed = inr n };
          taken = refl;
          started = i;
        })
        (λ g. record {
          inv = record { ahead = f; behind = v.behind; begun = inl i; timed = inr (ground arith) };
          taken = refl;
          started = i;
        })

  deliver_expected :
      (now : ℕ) (js : A) (ch : Channel A)
      → 0 < now
      → ch.expect + 1 < u64
      → ch.initialized ≡ true
      → Inv ch
      → let (ch', out) = drain_pending now (deliver ch ch.expect) in
        Takes ch.expect (ch', (ch.expect, js) ∷ out)
  deliver_expected now js ch n w i v =
      let ch1 = deliver ch ch.expect in
      let x = deliver-expect ch ch.expect w in
      let d =
        drain_pending-Drained now ch1
          (rw (deliver-pending ch ch.expect)
            (From-mono ch1.expect (ch.expect + 1) ch.pending (omega arith) v.ahead))
          (Below-mono (ch.expect + 1) ch1.expect ch1.delivered (omega arith)
            (deliver-behind ch w v.behind)) in
      let t =
        Drained→Takes ch1 (drain_pending now ch1) (deliver-initialized ch ch.expect ∙ i) d
          (drain_pending-timed now ch1 n) in
      record {
        inv = t.inv;
        started = t.started;
        taken = (
          refl,
          subst (λ e. Consecutive e (drain_pending now ch1).1 (drain_pending now ch1).0.expect) x
              t.taken,
        );
      }

  deliver-Takes :
      (now seq : ℕ) (js : A) (ch : Channel A)
      → 0 < now
      → seq + 1 < u64
      → seq ≡ ch.expect
      → ch.initialized ≡ true
      → Inv ch
      → let (ch', out) = drain_pending now (deliver ch seq) in
        Takes ch.expect (ch', (seq, js) ∷ out)
  deliver-Takes now seq js ch n w e i v =
      subst
        (λ s.
          Takes ch.expect
            ((drain_pending now (deliver ch s)).0, (s, js) ∷ (drain_pending now (deliver ch s)).1))
        (sym e) (deliver_expected now js ch n (omega arith) i v)

  pub accept-Takes :
      (now seq : ℕ) (js : A) (ch : Channel A)
      → 0 < now
      → seq + 1 < u64
      → ch.initialized ≡ true
      → Inv ch
      → Takes ch.expect (accept now seq js ch)
  unfolding accept
  accept-Takes now seq js ch n w i v =
      if_rule (Takes ch.expect) (ltb seq ch.expect || contains seq ch.delivered)
        (λ _. record { inv = v; taken = refl; started = i })
        (λ new.
          if_rule (Takes ch.expect) (seq == ch.expect)
            (λ e. deliver-Takes now seq js ch n w (ground arith) i v)
            (λ e. store-Takes now seq js ch n w (ground arith) i v))

  pub receive-Moves :
      (now seq : ℕ) (js : A) (ch : Channel A)
      → 0 < now
      → seq + 1 < u64
      → Inv ch
      → Moves ch.expect (receive now seq js ch)
  unfolding receive
  receive-Moves now seq js ch n w v =
      let b = begin-Inv seq ch v in
      Takes→Moves ch.expect (begin seq ch).expect _ b.1
        (accept-Takes now seq js (begin seq ch) n w b.2 b.0)
