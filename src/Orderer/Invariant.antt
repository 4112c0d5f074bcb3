-- ===== src/Orderer/Invariant.antt =====
-- The invariant of a channel of include/conversation_orderer.hpp, and what the drain loop does.
use cluster_chatroom_project.Prelude.{
  ℕ, ◌+◌, ◌≤◌, ◌<◌, ◌≡◌, refl, subst, ◌∙◌, ◌⊎◌, inl, inr, true, List, [], ◌∷◌, ◌++◌, arith, length,
  All, if_rule, eq_or_lt, compare_eq, compare_gt, ltb, ◌==◌,
}
use cluster_chatroom_project.Orderer.Channel.{
  u64, Channel, contains, insert, trim, fresh, deliver, drain_loop, drain_pending, start_gap,
  is_empty,
}

-- The numbers of a set all lie below a bound.
pub Below-mono : (m n : ℕ) (xs : List ℕ) → m ≤ n → All (λ s. s < m) xs → All (λ s. s < n) xs
Below-mono m n [] h b = tt
Below-mono m n (x ∷ xs) h b = (omega arith, Below-mono m n xs h b.1)

insert-Below :
    (s : ℕ) (xs : List ℕ) → All (λ x. x < s) xs → All (λ x. x < s + 1) (trim (insert s xs))
unfolding trim
insert-Below s xs b =
    let kept = Below-mono s (s + 1) xs (omega arith) b in
    if_rule (All (λ x. x < s + 1)) (ltb 4096 (length (insert s xs))) (λ _. tt)
      (λ _. if_rule (All (λ x. x < s + 1)) (contains s xs) (λ _. kept) (λ _. (omega arith, kept)))

pub contains-lt : (s n : ℕ) (xs : List ℕ) → All (λ x. x < n) xs → contains s xs ≡ true → s < n
contains-lt s n [] b h = cc
contains-lt s n (x ∷ xs) b h = ground (arith, contains-lt s n xs b.1)

module _ {A : Type 0} where
  -- The keys of a buffer: ascending, at least `n`, and such that the next number is a uint64_t.
  abbrev pub From : ℕ → List (ℕ × A) → Type 0
  From n [] = Unit
  From n ((k, m) ∷ rest) = (n ≤ k) × (k + 1 < u64) × From (k + 1) rest

  -- The calls of `deliver` took the numbers from `e` up to `e'`, each once and in order.
  abbrev pub Consecutive : ℕ → List (ℕ × A) → ℕ → Type 0
  Consecutive e [] e' = e ≡ e'
  Consecutive e ((s, m) ∷ out) e' = (s ≡ e) × Consecutive (e + 1) out e'

  -- Their numbers ascend strictly, from `e` on and below `e'`.
  abbrev pub Ascending : ℕ → List (ℕ × A) → ℕ → Type 0
  Ascending e [] e' = e ≤ e'
  Ascending e ((s, m) ∷ out) e' = (e ≤ s) × Ascending (s + 1) out e'

  pub record Inv (ch : Channel A) : Type 0 where
    pub ahead : From (ch.expect + 1) ch.pending
    pub behind : All (λ s. s < ch.expect) ch.delivered
    pub begun :
        (ch.initialized ≡ true) ⊎ ((ch.expect ≡ 0) × (ch.pending ≡ []) × (ch.delivered ≡ []))
    pub timed : (ch.pending ≡ []) ⊎ (0 < ch.gap_since)

  pub fresh-Inv : Inv fresh
  fresh-Inv = record { ahead = tt; behind = tt; begun = inr (refl, refl, refl); timed = inl refl }

  pub From-mono : (m n : ℕ) (p : List (ℕ × A)) → m ≤ n → From n p → From m p
  From-mono m n [] h f = tt
  From-mono m n ((k, a) ∷ rest) h f = (omega arith, f.1, f.2)

  pub Consecutive→Ascending :
      (e e' : ℕ) (out : List (ℕ × A)) → Consecutive e out e' → Ascending e out e'
  Consecutive→Ascending e e' [] h = omega arith
  Consecutive→Ascending e e' ((s, m) ∷ out) h =
      ground (arith, Consecutive→Ascending (e + 1) e' out h.1)

  pub Ascending-append :
      (e e' e'' : ℕ) (xs ys : List (ℕ × A))
      → Ascending e xs e'
      → Ascending e' ys e''
      → Ascending e (xs ++ ys) e''
  Ascending-append e e' e'' [] [] h k = omega arith
  Ascending-append e e' e'' [] (y ∷ ys) h k = ground arith
  Ascending-append e e' e'' (x ∷ xs) ys h k = (h.0, Ascending-append (x.0 + 1) e' e'' xs ys h.1 k)

  pub deliver-behind :
      (ch : Channel A)
      → ch.expect + 1 < u64
      → All (λ s. s < ch.expect) ch.delivered
      → All (λ s. s < ch.expect + 1) (deliver ch ch.expect).delivered
  unfolding deliver
  deliver-behind ch w b = insert-Below ch.expect ch.delivered b

  pub deliver-expect : (ch : Channel A) (s : ℕ) → s + 1 < u64 → (deliver ch s).expect ≡ s + 1
  unfolding deliver
  deliver-expect ch s w = omega arith

  pub deliver-initialized : (ch : Channel A) (s : ℕ) → (deliver ch s).initialized ≡ ch.initialized
  unfolding deliver
  deliver-initialized ch s = refl

  pub deliver-pending : (ch : Channel A) (s : ℕ) → (deliver ch s).pending ≡ ch.pending
  unfolding deliver
  deliver-pending ch s = refl

  -- What a drain from a channel without its buffer leaves behind.
  pub record Drained (ch : Channel A) (r : Channel A × List (ℕ × A)) : Type 0 where
    pub ahead : From (r.0.expect + 1) r.0.pending
    pub behind : All (λ s. s < r.0.expect) r.0.delivered
    pub taken : Consecutive ch.expect r.1 r.0.expect
    pub kept : r.0.initialized ≡ ch.initialized

  take_next :
      (k : ℕ) (m : A) (rest : List (ℕ × A)) (ch : Channel A)
      → k ≡ ch.expect
      → From ch.expect ((k, m) ∷ rest)
      → Drained (deliver ch ch.expect) (drain_loop rest (deliver ch ch.expect))
      → let (ch', out) = drain_loop rest (deliver ch ch.expect) in
        Drained ch (ch', (ch.expect, m) ∷ out)
  take_next k m rest ch e f d = record {
    ahead = d.ahead;
    behind = d.behind;
    taken = (
      refl,
      subst
          (λ n.
            Consecutive n (drain_loop rest (deliver ch ch.expect)).1
              (drain_loop rest (deliver ch ch.expect)).0.expect)
          (deliver-expect ch ch.expect (omega arith)) d.taken,
    );
    kept = d.kept ∙ deliver-initialized ch ch.expect;
  }

  pub drain_loop-Drained :
      (p : List (ℕ × A)) (ch : Channel A)
      → From ch.expect p
      → All (λ s. s < ch.expect) ch.delivered
      → Drained ch (drain_loop p ch)
  unfolding drain_loop
  drain_loop-Drained [] ch f b = record { ahead = tt; behind = b; taken = refl; kept = refl }
  drain_loop-Drained ((k, m) ∷ rest) ch f b = elim (eq_or_lt ch.expect k f.0) [
    | inl e ↦
        rw (compare_eq k ch.expect e, drain_loop)
          (take_next k m rest ch e f (
            drain_loop-Drained rest (deliver ch ch.expect)
              (From-mono _ (k + 1) rest (omega (arith, deliver-expect ch ch.expect)) f.2)
              (Below-mono (ch.expect + 1) _ _ (omega (arith, deliver-expect ch ch.expect))
                (deliver-behind ch (omega arith) b))))
    | inr l ↦
        rw (compare_gt k ch.expect l, drain_loop)
          (record { ahead = (omega arith, f.1, f.2); behind = b; taken = refl; kept = refl })
  ]

  start_gap-Drained :
      (now : ℕ) (ch ch' : Channel A) (out : List (ℕ × A))
      → Drained ch (ch', out)
      → Drained ch (start_gap now ch', out)
  unfolding start_gap
  start_gap-Drained now ch ch' out d =
      if_rule (λ c. Drained ch (c, out)) (ch'.gap_since == 0)
        (λ _. record { ahead = d.ahead; behind = d.behind; taken = d.taken; kept = d.kept })
        (λ _. d)

  pub drain_pending-Drained :
      (now : ℕ) (ch : Channel A)
      → From ch.expect ch.pending
      → All (λ s. s < ch.expect) ch.delivered
      → Drained ch (drain_pending now ch)
  unfolding drain_pending
  drain_pending-Drained now ch f b =
      let (ch', out) = drain_loop ch.pending ch in
      let d = drain_loop-Drained ch.pending ch f b in
      if_rule (λ c. Drained ch (c, out)) (is_empty ch'.pending) (λ _. d)
        (λ _. start_gap-Drained now ch ch' out d)

  -- A buffer that is not empty has its gap's beginning recorded.
  pub start_gap-timed : (now : ℕ) (ch : Channel A) → 0 < now → 0 < (start_gap now ch).gap_since
  unfolding start_gap
  start_gap-timed now ch h = ground arith

  pub drain_pending-timed :
      (now : ℕ) (ch : Channel A)
      → 0 < now
      → ((drain_pending now ch).0.pending ≡ []) ⊎ (0 < (drain_pending now ch).0.gap_since)
  unfolding drain_pending
  drain_pending-timed now ch h = ground (arith, start_gap-timed now (drain_loop ch.pending ch).0 h)
