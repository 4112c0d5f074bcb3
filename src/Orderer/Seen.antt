-- ===== src/Orderer/Seen.antt =====
-- include/conversation_orderer.hpp: what becomes of a number that has arrived.
use cluster_chatroom_project.Prelude.{
  ℕ, ◌+◌, ◌-◌, ◌/◌, ◌≤◌, ◌<◌, ◌≡◌, refl, sym, subst, ◌⊎◌, inl, inr, List, [], ◌∷◌, ◌||◌, arith, All,
  ==_iff, if_rule, ltb, ◌==◌, compare-cases, eq_or_lt, compare_eq, compare_gt,
}
use cluster_chatroom_project.Orderer.Channel.{
  u64, Channel, contains, put, deliver, drain_pending, drain_loop, is_empty, accept, release_first,
  expire, flush, start_gap,
}
use cluster_chatroom_project.Orderer.Invariant.{
  From, Ascending, Inv, From-mono, Consecutive→Ascending, drain_loop-Drained, Below-mono,
  deliver-behind, deliver-expect, deliver-pending, contains-lt,
}

module _ {A : Type 0} where
  abbrev pub HasKey : ℕ → List (ℕ × A) → Type 0
  HasKey s [] = ⊥
  HasKey s ((k, m) ∷ rest) = (s ≡ k) ⊎ HasKey s rest

  abbrev pub Seen : ℕ → Channel A → Type 0
  Seen s ch = (s < ch.expect) ⊎ HasKey s ch.pending

  put-HasKey : (t s : ℕ) (js : A) (p : List (ℕ × A)) → (t ≡ s) ⊎ HasKey t p → HasKey t (put s js p)
  unfolding put
  put-HasKey t s js [] (inl e) = inl e
  put-HasKey t s js [] (inr h) = elim h [ ]
  put-HasKey t s js ((k, m) ∷ rest) h = elim (compare-cases s k) [
    | inl (l, e) ↦ rw (e, put) (ground arith)
    | inr (inl (l, e)) ↦ rw (e, put) (ground arith)
    | inr (inr (l, e)) ↦ rw (e, put) (ground (arith, put-HasKey t s js rest))
  ]

  pub Ascending-le : (d e : ℕ) (out : List (ℕ × A)) → Ascending d out e → d ≤ e
  Ascending-le d e [] h = h
  Ascending-le d e ((s, m) ∷ out) h = omega (arith, h.0, Ascending-le (s + 1) e out h.1)

  drain_loop-Seen :
      (s : ℕ) (p : List (ℕ × A)) (ch : Channel A)
      → From ch.expect p
      → All (λ x. x < ch.expect) ch.delivered
      → HasKey s p
      → Seen s (drain_loop p ch).0
  unfolding drain_loop
  drain_loop-Seen s [] ch f b h = elim h [ ]
  drain_loop-Seen s ((k, m) ∷ rest) ch f b h = elim (eq_or_lt ch.expect k f.0) [
    | inl e ↦
        let x = deliver-expect ch ch.expect (omega arith) in
        let f' : From (deliver ch ch.expect).expect rest =
          From-mono _ (k + 1) rest (omega arith) f.2 in
        let b' : All (λ x. x < (deliver ch ch.expect).expect) (deliver ch ch.expect).delivered =
          Below-mono (ch.expect + 1) _ _ (omega arith) (deliver-behind ch (omega arith) b) in
        let d = drain_loop-Drained rest (deliver ch ch.expect) f' b' in
        let l = Ascending-le _ _ _ (Consecutive→Ascending _ _ _ d.taken) in
        rw (compare_eq k ch.expect e, drain_loop)
          (elim h [
            | inl p ↦ inl (omega arith)
            | inr q ↦ drain_loop-Seen s rest (deliver ch ch.expect) f' b' q
          ])
    | inr l ↦ rw (compare_gt k ch.expect l, drain_loop) (inr h)
  ]

  start_gap-Seen : (s now : ℕ) (ch : Channel A) → Seen s ch → Seen s (start_gap now ch)
  unfolding start_gap
  start_gap-Seen s now ch h = if_rule (Seen s) (ch.gap_since == 0) (λ _. h) (λ _. h)

  drain_pending-Seen :
      (s now : ℕ) (ch : Channel A)
      → From ch.expect ch.pending
      → All (λ x. x < ch.expect) ch.delivered
      → Seen s ch
      → Seen s (drain_pending now ch).0
  unfolding drain_pending
  drain_pending-Seen s now ch f b h =
      let (ch', out) = drain_loop ch.pending ch in
      let d = drain_loop-Drained ch.pending ch f b in
      let l = Ascending-le _ _ _ (Consecutive→Ascending _ _ _ d.taken) in
      let g : Seen s ch' = elim h [
        | inl p ↦ inl (omega arith)
        | inr q ↦ drain_loop-Seen s ch.pending ch f b q
      ] in
      if_rule (Seen s) (is_empty ch'.pending) (λ _. g) (λ _. start_gap-Seen s now ch' g)

  release_first-Seen :
      (s now : ℕ) (ch : Channel A) (p : List (ℕ × A))
      → ch.pending ≡ p
      → Inv ch
      → Seen s ch
      → Seen s (release_first now ch p).0
  unfolding release_first
  release_first-Seen s now ch [] e v h = h
  release_first-Seen s now ch ((k, m) ∷ rest) e v h =
      let f = subst (From (ch.expect + 1)) e v.ahead in
      let skipped : Channel A = record ch { expect = k } in
      drain_pending-Seen s now skipped (subst (From k) (sym e) (omega arith, f.1, f.2))
        (Below-mono ch.expect k ch.delivered (omega arith) v.behind)
        (elim h [ inl l ↦ inl (omega arith) | inr q ↦ inr q ])

  pub expire-Seen :
      (s timeout now : ℕ) (ch : Channel A) → Inv ch → Seen s ch → Seen s (expire timeout now ch).0
  unfolding expire
  expire-Seen s timeout now ch v h =
      if_rule (λ (r : Channel A × List (ℕ × A)). Seen s r.0)
        (is_empty ch.pending || ch.gap_since == 0) (λ _. h)
        (λ _.
          if_rule (λ (r : Channel A × List (ℕ × A)). Seen s r.0)
            (ltb ((now - ch.gap_since) / 1000000) timeout) (λ _. h)
            (λ _. release_first-Seen s now ch ch.pending refl v h))

  pub flush-Seen : (s now : ℕ) (ch : Channel A) → Inv ch → Seen s ch → Seen s (flush now ch).0
  unfolding flush
  flush-Seen s now ch v h = release_first-Seen s now ch ch.pending refl v h

  deliver-Seen :
      (s now : ℕ) (ch : Channel A)
      → ch.expect + 1 < u64
      → Inv ch
      → (s ≡ ch.expect) ⊎ Seen s ch
      → Seen s (drain_pending now (deliver ch ch.expect)).0
  deliver-Seen s now ch w v h =
      let ch1 = deliver ch ch.expect in
      let x = deliver-expect ch ch.expect w in
      drain_pending-Seen s now ch1
        (rw (deliver-pending ch ch.expect)
          (From-mono ch1.expect (ch.expect + 1) ch.pending (omega arith) v.ahead))
        (Below-mono (ch.expect + 1) ch1.expect ch1.delivered (omega arith)
          (deliver-behind ch w v.behind))
        (elim h [
          | inl e ↦ inl (omega arith)
          | inr (inl l) ↦ inl (omega arith)
          | inr (inr q) ↦ inr (rw (deliver-pending ch ch.expect) q)
        ])

  -- What arrives is seen, and what was seen is seen still.
  pub accept-Seen :
      (s now seq : ℕ) (js : A) (ch : Channel A)
      → seq + 1 < u64
      → Inv ch
      → (s ≡ seq) ⊎ Seen s ch
      → Seen s (accept now seq js ch).0
  unfolding accept
  accept-Seen s now seq js ch w v h =
      if_rule (λ (r : Channel A × List (ℕ × A)). Seen s r.0)
        (ltb seq ch.expect || contains seq ch.delivered)
        (λ old. elim h [
          | inl e ↦ inl (ground (arith, contains-lt seq ch.expect ch.delivered v.behind))
          | inr q ↦ q
        ])
        (λ new.
          if_rule (λ (r : Channel A × List (ℕ × A)). Seen s r.0) (seq == ch.expect)
            (λ e.
              subst (λ x. Seen s (drain_pending now (deliver ch x)).0) (sym ((==_iff _ _).0 e))
                (deliver-Seen s now ch (ground arith) v (ground arith)))
            (λ e.
              start_gap-Seen s now (record ch { pending = put seq js ch.pending })
                (elim h [
                  | inl e ↦ inr (put-HasKey s seq js ch.pending (inl e))
                  | inr (inl l) ↦ inl l
                  | inr (inr q) ↦ inr (put-HasKey s seq js ch.pending (inr q))
                ])))
