-- ===== src/Orderer/Origin.antt =====
-- include/conversation_orderer.hpp: properties of a number with its message that hold of what a
-- channel holds or delivers. `P` is such a property.
use cluster_chatroom_project.Prelude.{
  ℕ, ◌-◌, ◌/◌, subst, inl, inr, List, [], ◌∷◌, ◌||◌, All, if_rule, ltb, ◌==◌, compare-cases,
}
use cluster_chatroom_project.Orderer.Channel.{
  Channel, contains, put, deliver, drain_loop, drain_pending, begin, accept, receive, release_first,
  expire, flush, start_gap, is_empty,
}

module _ {A : Type 0} (P : ℕ × A → Type 0) where
  abbrev pub Holds : Channel A × List (ℕ × A) → Type 0
  Holds r = All P r.0.pending × All P r.1

  put-All : (s : ℕ) (js : A) (p : List (ℕ × A)) → P (s, js) → All P p → All P (put s js p)
  unfolding put
  put-All s js [] h a = (h, tt)
  put-All s js ((k, m) ∷ rest) h a = elim (compare-cases s k) [
    | inl (l, e) ↦ rw (e, put) (h, a)
    | inr (inl (l, e)) ↦ rw (e, put) (subst (λ n. P (n, js)) l h, a.1)
    | inr (inr (l, e)) ↦ rw (e, put) (a.0, put-All s js rest h a.1)
  ]

  drain_loop-Holds : (p : List (ℕ × A)) (ch : Channel A) → All P p → Holds (drain_loop p ch)
  unfolding drain_loop
  drain_loop-Holds [] ch a = (tt, tt)
  drain_loop-Holds ((k, m) ∷ rest) ch a = elim (compare-cases k ch.expect) [
    | inl (l, e) ↦ rw (e, drain_loop) (drain_loop-Holds rest ch a.1)
    | inr (inl (l, e)) ↦
        let h = drain_loop-Holds rest (deliver ch ch.expect) a.1 in
        rw (e, drain_loop) (h.0, (subst (λ n. P (n, m)) l a.0, h.1))
    | inr (inr (l, e)) ↦ rw (e, drain_loop) (a, tt)
  ]

  start_gap-pending :
      (now : ℕ) (ch : Channel A) → All P ch.pending → All P (start_gap now ch).pending
  unfolding start_gap
  start_gap-pending now ch a =
      if_rule {A = Channel A} (λ c. All P c.pending) (ch.gap_since == 0) (λ _. a) (λ _. a)

  drain_pending-Holds : (now : ℕ) (ch : Channel A) → All P ch.pending → Holds (drain_pending now ch)
  unfolding drain_pending
  drain_pending-Holds now ch a =
      let (ch', out) = drain_loop ch.pending ch in
      let h = drain_loop-Holds ch.pending ch a in
      (
        if_rule {A = Channel A} (λ c. All P c.pending) (is_empty ch'.pending) (λ _. h.0)
            (λ _. start_gap-pending now ch' h.0),
        h.1,
      )

  release_first-Holds :
      (now : ℕ) (ch : Channel A) (p : List (ℕ × A))
      → All P ch.pending
      → Holds (release_first now ch p)
  unfolding release_first
  release_first-Holds now ch [] a = (a, tt)
  release_first-Holds now ch ((k, m) ∷ rest) a =
      drain_pending-Holds now (record ch { expect = k }) a

  pub expire-Holds :
      (timeout now : ℕ) (ch : Channel A) → All P ch.pending → Holds (expire timeout now ch)
  unfolding expire
  expire-Holds timeout now ch a =
      if_rule Holds (is_empty ch.pending || ch.gap_since == 0) (λ _. (a, tt))
        (λ _.
          if_rule Holds (ltb ((now - ch.gap_since) / 1000000) timeout) (λ _. (a, tt))
            (λ _. release_first-Holds now ch ch.pending a))

  pub flush-Holds : (now : ℕ) (ch : Channel A) → All P ch.pending → Holds (flush now ch)
  unfolding flush
  flush-Holds now ch a = release_first-Holds now ch ch.pending a

  accept-Holds :
      (now seq : ℕ) (js : A) (ch : Channel A)
      → P (seq, js)
      → All P ch.pending
      → Holds (accept now seq js ch)
  unfolding accept deliver
  accept-Holds now seq js ch h a =
      if_rule Holds (ltb seq ch.expect || contains seq ch.delivered) (λ _. (a, tt))
        (λ _.
          if_rule Holds (seq == ch.expect)
            (λ _. let d = drain_pending-Holds now (deliver ch seq) a in (d.0, (h, d.1)))
            (λ _. (
              start_gap-pending now (record ch { pending = put seq js ch.pending })
                  (put-All seq js ch.pending h a),
              tt,
            )))

  begin-pending : (seq : ℕ) (ch : Channel A) → All P ch.pending → All P (begin seq ch).pending
  unfolding begin
  begin-pending seq ch a =
      if_rule {A = Channel A} (λ c. All P c.pending) ch.initialized (λ _. a) (λ _. a)

  -- A message is held or delivered only under the number with which it arrived.
  pub receive-Holds :
      (now seq : ℕ) (js : A) (ch : Channel A)
      → P (seq, js)
      → All P ch.pending
      → Holds (receive now seq js ch)
  unfolding receive
  receive-Holds now seq js ch h a =
      accept-Holds now seq js (begin seq ch) h (begin-pending seq ch a)
