-- ===== src/Pool/Waiting.antt =====
-- src/server/db/connectionpool.cpp: what a thread gets from `getConnection`, and when.
use cluster_chatroom_project.Prelude.{
  ℕ, ◌≡◌, refl, subst, ◌⊎◌, inl, inr, Bool, true, false, ◌&&◌, List, [], ◌∷◌, All, if_rule, arith,
}
use cluster_chatroom_project.Pool.{
  Conn, Pool, is_empty, take_front, Wake, Got, handed, refused, waits, hand_front, get_connection,
}

-- `f` is the pool that the thread found at first, or at one of the wake-ups, with the queue empty
-- before.
abbrev pub Finds : Pool → Pool → List Wake → Type 0
Finds f p [] = f ≡ p
Finds f p (w ∷ ws) = (f ≡ p) ⊎ ((p.queue ≡ []) × Finds f w.found ws)

-- The first wake-up at which the time was up, and the queue empty; it was empty at those before.
abbrev pub GivesUp : Pool → List Wake → Type 0
GivesUp q [] = ⊥
GivesUp q (w ∷ ws) =
    ((w.found ≡ q) × (w.timed_out ≡ true) × (q.queue ≡ []))
    ⊎ ((w.timed_out ≡ false) × (w.found.queue ≡ []) × GivesUp q ws)

Finds-first : (p : Pool) (ws : List Wake) → Finds p p ws
Finds-first p [] = refl
Finds-first p (w ∷ ws) = inl refl

module _ (now : ℕ) (pings connects : Conn → Bool) where
  -- What the thread gets, and from where.
  abbrev pub Explains : Pool → List Wake → Got → Type 0
  Explains p ws (handed d q) =
      (f : Pool) × (c : Conn) × (rest : List Conn) × Finds f p ws
      × (f.queue ≡ c ∷ rest)
      × (take_front now (pings c) (connects c) f c rest ≡ (d, q))
  Explains p ws (refused q) = (p.queue ≡ []) × GivesUp q ws
  Explains p ws waits =
      (p.queue ≡ []) × All (λ (w : Wake). (w.timed_out ≡ false) × (w.found.queue ≡ [])) ws

  empty-queue : (l : List Conn) → is_empty l ≡ true → l ≡ []
  empty-queue [] e = refl
  empty-queue (c ∷ l) e = cc

  -- Not both the time up and the queue empty.
  not_timed : (t : Bool) (l : List Conn) → t && is_empty l ≡ false → l ≡ [] → t ≡ false
  not_timed t l h e = let k = subst (λ l. t && is_empty l ≡ false) e h in ground (arith, k)

  -- The thread takes the front of the queue if it can.
  hand_front-Explains :
      (p : Pool) (ws : List Wake) (l : List Conn) (g : Got)
      → p.queue ≡ l
      → (l ≡ [] → Explains p ws g)
      → Explains p ws (hand_front now pings connects p l g)
  unfolding hand_front
  hand_front-Explains p ws [] g e x = x refl
  hand_front-Explains p ws (c ∷ rest) g e x = (p, c, rest, Finds-first p ws, e, refl)

  -- A wake-up that leads to nothing, and those after it.
  Explains-later :
      (p : Pool) (w : Wake) (ws : List Wake) (g : Got)
      → p.queue ≡ []
      → w.timed_out && is_empty w.found.queue ≡ false
      → Explains w.found ws g
      → Explains p (w ∷ ws) g
  Explains-later p w ws (handed d q) n t (f, c, rest, i, e, k) = (f, c, rest, inr (n, i), e, k)
  Explains-later p w ws (refused q) n t (e, g) =
      (n, inr (not_timed w.timed_out w.found.queue t e, e, g))
  Explains-later p w ws waits n t (e, a) = (n, ((not_timed w.timed_out w.found.queue t e, e), a))

  -- `getConnection` hands out the front of the first queue with a connection among those that it
  -- found, at once or at a wake-up; it gives a null pointer at the first wake-up with its time up
  -- and the queue empty, if the queue was empty whenever it looked before; and while it waits,
  -- the queue has been empty whenever it looked, and its time was up at no wake-up.
  pub get_connection-Explains :
      (p : Pool) (ws : List Wake) → Explains p ws (get_connection now pings connects p ws)
  unfolding get_connection
  get_connection-Explains p [] = hand_front-Explains p [] p.queue waits refl (λ e. (e, tt))
  get_connection-Explains p (w ∷ ws) = hand_front-Explains p (w ∷ ws) p.queue _ refl (λ n.
      if_rule (Explains p (w ∷ ws)) (w.timed_out && is_empty w.found.queue)
        (λ e. (n, inl (refl, ground arith, empty-queue w.found.queue (ground arith))))
        (λ e.
          Explains-later p w ws (get_connection now pings connects w.found ws) n e
            (get_connection-Explains w.found ws)))
