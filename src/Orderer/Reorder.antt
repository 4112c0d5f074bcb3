-- ===== src/Orderer/Reorder.antt =====
-- include/conversation_orderer.hpp: what reaches the screen in one conversation.
use cluster_chatroom_project.Prelude.{
  ℕ, ◌+◌, ◌≤◌, ◌<◌, ◌≡◌, refl, sym, subst, ◌⊎◌, inl, inr, true, List, [], ◌∷◌, ◌++◌, arith, All,
  le_or_lt,
}
use cluster_chatroom_project.Orderer.Channel.{u64, Channel, fresh, begin, receive}
use cluster_chatroom_project.Orderer.Invariant.{
  From, Consecutive, Ascending, Inv, fresh-Inv, Consecutive→Ascending,
}
use cluster_chatroom_project.Orderer.Keeps.{Takes, accept-Takes, begin-Inv}
use cluster_chatroom_project.Orderer.History.{
  Event, arrives, ticks, ends_batch, step, run, IsPlausible, step-Moves, run-Moves,
}
use cluster_chatroom_project.Orderer.Seen.{
  HasKey, Seen, accept-Seen, expire-Seen, flush-Seen, Ascending-le,
}

module _ {A : Type 0} where
  abbrev pub IsArrival : Event A → Type 0
  IsArrival (arrives now seq js) = Unit
  IsArrival _ = ⊥

  -- A message with this number is among the arrivals.
  abbrev pub Arrived : ℕ → List (Event A) → Type 0
  Arrived s [] = ⊥
  Arrived s (arrives now seq js ∷ es) = (s ≡ seq) ⊎ Arrived s es
  Arrived s (ticks now ∷ es) = Arrived s es
  Arrived s (ends_batch now ∷ es) = Arrived s es

  -- From a new channel, whatever arrives and however late, ticks and ends of batches included,
  -- every number below 2^64 - 1 and every time positive: the numbers delivered in one
  -- conversation ascend strictly, and all lie below the number expected next.
  pub run-Ascending :
      (timeout : ℕ) (es : List (Event A))
      → All IsPlausible es
      → let (ch, out) = run timeout fresh es in Ascending 0 out ch.expect
  run-Ascending timeout es p = (run-Moves timeout fresh es p fresh-Inv).ascends

  begin_initialized : (seq : ℕ) (ch : Channel A) → ch.initialized ≡ true → begin seq ch ≡ ch
  unfolding begin
  begin_initialized seq ch i = ground arith

  receive-Takes :
      (now seq : ℕ) (js : A) (ch : Channel A)
      → 0 < now
      → seq + 1 < u64
      → ch.initialized ≡ true
      → Inv ch
      → Takes ch.expect (receive now seq js ch)
  unfolding receive
  receive-Takes now seq js ch n w i v =
      simp (begin_initialized seq ch i) (accept-Takes now seq js ch n w i v)

  begin-pending : (seq : ℕ) (ch : Channel A) → (begin seq ch).pending ≡ ch.pending
  unfolding begin
  begin-pending seq ch = ground arith

  receive-Seen :
      (s now seq : ℕ) (js : A) (ch : Channel A)
      → seq + 1 < u64
      → Inv ch
      → (s ≡ seq) ⊎ Seen s ch
      → Seen s (receive now seq js ch).0
  unfolding receive
  receive-Seen s now seq js ch w v h =
      accept-Seen s now seq js (begin seq ch) w (begin-Inv seq ch v).0 (elim h [
        | inl e ↦ inl e
        | inr (inl l) ↦ inr (inl (omega (arith, (begin-Inv seq ch v).1)))
        | inr (inr q) ↦ inr (inr (rw (begin-pending seq ch) q))
      ])

  Consecutive-append :
      (e e' e'' : ℕ) (xs ys : List (ℕ × A))
      → Consecutive e xs e'
      → Consecutive e' ys e''
      → Consecutive e (xs ++ ys) e''
  Consecutive-append e e' e'' [] ys h k = subst (λ x. Consecutive x ys e'') (sym h) k
  Consecutive-append e e' e'' (x ∷ xs) ys h k = (h.0, Consecutive-append (e + 1) e' e'' xs ys h.1 k)

  From-HasKey : (n s : ℕ) (p : List (ℕ × A)) → From n p → HasKey s p → n ≤ s
  From-HasKey n s [] f h = elim h [ ]
  From-HasKey n s ((k, m) ∷ rest) f (inl e) = omega arith
  From-HasKey n s ((k, m) ∷ rest) f (inr h) = omega (arith, From-HasKey (k + 1) s rest f.2 h)

  step-Seen :
      (s timeout : ℕ) (ch : Channel A) (e : Event A)
      → IsPlausible e
      → Inv ch
      → Seen s ch ⊎ Arrived s (e ∷ [])
      → Seen s (step timeout ch e).0
  unfolding step
  step-Seen s timeout ch (arrives now seq js) p v (inl h) =
      receive-Seen s now seq js ch p.1 v (inr h)
  step-Seen s timeout ch (arrives now seq js) p v (inr (inl e)) =
      receive-Seen s now seq js ch p.1 v (inl e)
  step-Seen s timeout ch (arrives now seq js) p v (inr (inr h)) = elim h [ ]
  step-Seen s timeout ch (ticks now) p v (inl h) = expire-Seen s timeout now ch v h
  step-Seen s timeout ch (ticks now) p v (inr h) = elim h [ ]
  step-Seen s timeout ch (ends_batch now) p v (inl h) = flush-Seen s now ch v h
  step-Seen s timeout ch (ends_batch now) p v (inr h) = elim h [ ]

  Arrived-uncons :
      (s : ℕ) (e : Event A) (es : List (Event A))
      → Arrived s (e ∷ es)
      → Arrived s (e ∷ []) ⊎ Arrived s es
  Arrived-uncons s (arrives now seq js) es (inl e) = inl (inl e)
  Arrived-uncons s (arrives now seq js) es (inr h) = inr h
  Arrived-uncons s (ticks now) es h = inr h
  Arrived-uncons s (ends_batch now) es h = inr h

  pub run-Seen :
      (s timeout : ℕ) (ch : Channel A) (es : List (Event A))
      → All IsPlausible es
      → Inv ch
      → Seen s ch ⊎ Arrived s es
      → Seen s (run timeout ch es).0
  unfolding run
  run-Seen s timeout ch [] p v (inl h) = h
  run-Seen s timeout ch [] p v (inr h) = elim h [ ]
  run-Seen s timeout ch (e ∷ es) p v h =
      let v' = (step-Moves timeout ch e p.0 v).inv in
      run-Seen s timeout (step timeout ch e).0 es p.1 v' (elim h [
        | inl q ↦ inl (step-Seen s timeout ch e p.0 v (inl q))
        | inr q ↦ elim (Arrived-uncons s e es q) [
          | inl here ↦ inl (step-Seen s timeout ch e p.0 v (inr here))
          | inr later ↦ inr later
        ]
      ])

  run-Takes :
      (timeout : ℕ) (ch : Channel A) (es : List (Event A))
      → All IsArrival es
      → All IsPlausible es
      → ch.initialized ≡ true
      → Inv ch
      → Takes ch.expect (run timeout ch es)
  unfolding run step
  run-Takes timeout ch [] a p i v = record { inv = v; taken = refl; started = i }
  run-Takes timeout ch (arrives now seq js ∷ es) a p i v =
      let t = receive-Takes now seq js ch p.0.0 p.0.1 i v in
      let ts = run-Takes timeout (receive now seq js ch).0 es a.1 p.1 t.started t.inv in
      record {
        inv = ts.inv;
        started = ts.started;
        taken = Consecutive-append _ _ _ (receive now seq js ch).1 _ t.taken ts.taken;
      }
  run-Takes timeout ch (ticks now ∷ es) a p i v = elim a.0 [ ]
  run-Takes timeout ch (ends_batch now ∷ es) a p i v = elim a.0 [ ]

  -- From a channel that is well formed and has begun, with no tick and no end of a batch between,
  -- every number below 2^64 - 1 and every time positive: if the `n` numbers from the expected one
  -- on have all arrived, in any order, with repetitions and others among them, then exactly the
  -- numbers from the expected one up to some bound were delivered, each once and in order, and
  -- those `n` are among them.
  pub run-Consecutive :
      (timeout n : ℕ) (ch : Channel A) (es : List (Event A))
      → All IsArrival es
      → All IsPlausible es
      → ch.initialized ≡ true
      → Inv ch
      → ((s : ℕ) → ch.expect ≤ s → s < ch.expect + n → Arrived s es)
      → let (ch', out) = run timeout ch es in
        Consecutive ch.expect out ch'.expect × (ch.expect + n ≤ ch'.expect)
  run-Consecutive timeout n ch es a p i v all =
      let t = run-Takes timeout ch es a p i v in
      let e = (run timeout ch es).0.expect in
      (
        t.taken,
        elim (le_or_lt (ch.expect + n) e) [
          | inl l ↦ l
          | inr short ↦
              absurd
                (elim (run-Seen e timeout ch es p v
                  (inr (all e (Ascending-le _ _ _ (Consecutive→Ascending _ _ _ t.taken)) short))) [
                    | inl l ↦ omega arith
                    | inr q ↦
                        omega
                          (arith, From-HasKey (e + 1) e (run timeout ch es).0.pending t.inv.ahead q)
                  ])
        ],
      )
