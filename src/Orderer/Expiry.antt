-- ===== src/Orderer/Expiry.antt =====
-- include/conversation_orderer.hpp: gaps that never close. What `tick` releases and when, and what
-- the end of an offline batch leaves behind.
use cluster_chatroom_project.Prelude.{
  ℕ, ◌+◌, ◌-◌, ◌/◌, ◌≤◌, ◌<◌, ◌≡◌, refl, inl, inr, List, [], ◌∷◌, ◌++◌, arith, length, subst, sym,
  ◌∙◌, ap, ap₂, ◌⊎◌, ◌≢◌, ◌↔◌, ◌||◌, false, if_rule, ltb, ◌==◌, eq_or_lt, le_or_lt, ltb→lt, lt→ltb,
  compare_eq, compare_gt,
}
use cluster_chatroom_project.Orderer.Channel.{
  u64, Channel, deliver, drain_pending, drain_loop, is_empty, release_first, expire, flush,
  start_gap,
}
use cluster_chatroom_project.Orderer.Invariant.{From, Inv, From-mono, deliver-expect}

-- Ticks, each at least the timeout after the one before it.
abbrev pub Spaced : ℕ → ℕ → List ℕ → Type 0
Spaced timeout since [] = Unit
Spaced timeout since (t ∷ ts) = (0 < t) × (timeout ≤ (t - since) / 1000000) × Spaced timeout t ts

module _ {A : Type 0} where
  -- The loop cuts the buffer in two: what it delivers, and what it keeps.
  drain_loop_split :
      (p : List (ℕ × A)) (ch : Channel A)
      → From ch.expect p
      → (drain_loop p ch).1 ++ (drain_loop p ch).0.pending ≡ p
  unfolding drain_loop
  drain_loop_split [] ch f = refl
  drain_loop_split ((k, m) ∷ rest) ch f = elim (eq_or_lt ch.expect k f.0) [
    | inl e ↦
        rw (compare_eq k ch.expect e, drain_loop)
          (ap₂ ◌∷◌ (ap (λ n. (n, m)) (sym e)) (
            drain_loop_split rest (deliver ch ch.expect)
              (From-mono _ (k + 1) rest (omega (arith, deliver-expect ch ch.expect)) f.2)))
    | inr l ↦ rw (compare_gt k ch.expect l, drain_loop) refl
  ]

  drain_pending_split :
      (now : ℕ) (ch : Channel A)
      → From ch.expect ch.pending
      → (drain_pending now ch).1 ++ (drain_pending now ch).0.pending ≡ ch.pending
  unfolding drain_pending start_gap
  drain_pending_split now ch f =
      let (ch', out) = drain_loop ch.pending ch in
      let g = drain_loop_split ch.pending ch f in
      if_rule {A = Channel A} (λ c. out ++ c.pending ≡ ch.pending) (is_empty ch'.pending) (λ _. g)
        (λ _.
          if_rule {A = Channel A} (λ c. out ++ c.pending ≡ ch.pending) (ch'.gap_since == 0) (λ _. g)
            (λ _. g))

  -- A skip delivers the first buffered message, at least.
  drain_first :
      (now k : ℕ) (m : A) (rest : List (ℕ × A)) (ch : Channel A)
      → ch.pending ≡ (k, m) ∷ rest
      → ch.expect ≡ k
      → 0 < length (drain_pending now ch).1
  unfolding drain_pending drain_loop
  drain_first now k m rest ch e x =
      rw (e, drain_pending, drain_loop, compare_eq k ch.expect (sym x)) (omega arith)

  release_first_split :
      (now : ℕ) (ch : Channel A) (p : List (ℕ × A))
      → ch.pending ≡ p
      → Inv ch
      → ((release_first now ch p).1 ++ (release_first now ch p).0.pending ≡ p)
        × ((p ≡ []) ⊎ (0 < length (release_first now ch p).1))
  unfolding release_first
  release_first_split now ch [] e v = (e, inl refl)
  release_first_split now ch ((k, m) ∷ rest) e v =
      let f = subst (From (ch.expect + 1)) e v.ahead in
      let skipped : Channel A = record ch { expect = k } in
      (
        drain_pending_split now skipped (subst (From k) (sym e) (omega arith, f.1, f.2)) ∙ e,
        inr (drain_first now k m rest skipped e refl),
      )

  expire_waits :
      (timeout now : ℕ) (ch : Channel A)
      → (now - ch.gap_since) / 1000000 < timeout
      → expire timeout now ch ≡ (ch, [])
  unfolding expire
  expire_waits timeout now ch l =
      let P : Channel A × List (ℕ × A) → Type 0 = λ r. r ≡ (ch, []) in
      if_rule P (is_empty ch.pending || ch.gap_since == 0) (λ _. refl)
        (λ _.
          if_rule P (ltb ((now - ch.gap_since) / 1000000) timeout) (λ _. refl)
            (λ late. cc (lt→ltb _ _ l)))

  is_empty-false : (p : List (ℕ × A)) → p ≢ [] → is_empty p ≡ false
  is_empty-false [] h = absurd (h refl)
  is_empty-false (x ∷ p) h = refl

  expire_fires :
      (timeout now : ℕ) (ch : Channel A)
      → Inv ch
      → ch.pending ≢ []
      → timeout ≤ (now - ch.gap_since) / 1000000
      → expire timeout now ch ≡ release_first now ch ch.pending
  unfolding expire
  expire_fires timeout now ch v h l =
      let P : Channel A × List (ℕ × A) → Type 0 = λ r. r ≡ release_first now ch ch.pending in
      if_rule P (is_empty ch.pending || ch.gap_since == 0)
        (λ b. elim v.timed [
          | inl e ↦ absurd (h e)
          | inr g ↦ absurd (ground (arith, is_empty-false ch.pending h))
        ])
        (λ _.
          if_rule P (ltb ((now - ch.gap_since) / 1000000) timeout)
            (λ early. absurd (omega (arith, ltb→lt _ _ early))) (λ _. refl))

  -- While messages wait behind a gap in a well-formed channel, a tick releases some of them
  -- exactly when the gap is as old as the timeout; what it releases, followed by what it keeps,
  -- is the buffer as it was.
  pub expire_due :
      (timeout now : ℕ) (ch : Channel A)
      → Inv ch
      → ch.pending ≢ []
      → let (ch', out) = expire timeout now ch in
        (out ++ ch'.pending ≡ ch.pending)
        × ((0 < length out) ↔ (timeout ≤ (now - ch.gap_since) / 1000000))
  expire_due timeout now ch v h = elim (le_or_lt timeout ((now - ch.gap_since) / 1000000)) [
    | inl late ↦
        let r = release_first_split now ch ch.pending refl v in
        rw (expire_fires timeout now ch v h late)
          (r.0, ((λ _. late), (λ _. elim r.1 [ inl e ↦ absurd (h e) | inr l ↦ l ])))
    | inr early ↦
        rw (expire_waits timeout now ch early)
          (refl, ((λ l. absurd (omega arith)), (λ l. absurd (omega arith))))
  ]

  -- If the two smallest numbers in the buffer have a gap between them, the end of an offline
  -- batch shows the first message only: it does not empty the buffer, but stops at that gap.
  pub flush_stops :
      (now k j : ℕ) (a b : A) (rest : List (ℕ × A)) (ch : Channel A)
      → ch.pending ≡ (k, a) ∷ (j, b) ∷ rest
      → k + 1 < j
      → j + 1 < u64
      → let (ch', out) = flush now ch in (out ≡ (k, a) ∷ []) × (ch'.pending ≡ (j, b) ∷ rest)
  unfolding flush release_first drain_pending drain_loop start_gap deliver
  flush_stops now k j a b rest ch e l w = ground arith
