-- ===== src/EndToEnd.antt =====
-- From the numbers that src/server/redis/redis.cpp gives on any node to what a client shows by
-- include/conversation_orderer.hpp.
mod Examples
use cluster_chatroom_project.Prelude.{
  ℕ, ◌+◌, ◌^◌, ◌≤◌, ◌<◌, ◌≡◌, refl, sym, subst, ap, ap₂, ◌∙◌, ◌⊎◌, inl, inr, true, List, [], ◌∷◌,
  map, Bytes, same, All, All-append, Bool-cases, if◌then◌else◌, length, arith, le_or_lt,
}
use cluster_chatroom_project.Redis.{Redis}
use cluster_chatroom_project.Redis.Cluster.{
  Server, IsConnected, numbers_of, CountsFrom, serve, take_number, update, serve-CountsFrom,
}
use cluster_chatroom_project.Orderer.Channel.{u64, Channel, receive}
use cluster_chatroom_project.Orderer.Invariant.{Consecutive, Inv}
use cluster_chatroom_project.Orderer.History.{
  Event, arrives, ticks, ends_batch, step, run, IsPlausible,
}
use cluster_chatroom_project.Orderer.Reorder.{IsArrival, Arrived, run-Consecutive}
use cluster_chatroom_project.Orderer.Origin.{Holds, receive-Holds}

abbrev pub IsOneOf : ℕ → List ℕ → Type 0
IsOneOf n [] = ⊥
IsOneOf n (k ∷ ks) = (n ≡ k) ⊎ IsOneOf n ks

IsOneOf-lt : (n k : ℕ) (ks : List ℕ) → CountsFrom n ks → IsOneOf k ks → k < n + length ks
IsOneOf-lt n k [] c o = elim o [ ]
IsOneOf-lt n k (j ∷ ks) c (inl e) = omega (arith, e, c.0)
IsOneOf-lt n k (j ∷ ks) c (inr o) = omega (arith, IsOneOf-lt (n + 1) k ks c.1 o)

length-numbers_of : (d : Bytes) (log : List (Bytes × ℕ)) → length (numbers_of d log) ≤ length log
length-numbers_of d [] = omega arith
length-numbers_of d ((c, n) ∷ log) = elim (Bool-cases (same c d)) [
  | inl e ↦ rw e (omega (arith, length-numbers_of d log))
  | inr e ↦ rw e (omega (arith, length-numbers_of d log))
]

length-serve :
    (server : Server) (requests : List (ℕ × Bytes)) (nodes : ℕ → Redis) (s : server.State)
    → length (serve server requests nodes s) ≡ length requests
unfolding serve
length-serve server [] nodes s = refl
length-serve server ((i, conv) ∷ rest) nodes s =
    let t = take_number server conv (nodes i) s in
    omega (arith, length-serve server rest (update nodes i t.0) t.1)

module _ {A : Type 0} where
  -- At a positive time, a message with one of these numbers.
  abbrev pub IsFrom : List ℕ → Event A → Type 0
  IsFrom ks (arrives now seq js) = (0 < now) × IsOneOf seq ks
  IsFrom ks _ = ⊥

  Arrived-within :
      (n s : ℕ) (ks : List ℕ) (es : List (Event A))
      → CountsFrom n ks
      → All (λ k. Arrived k es) ks
      → n ≤ s
      → s < n + length ks
      → Arrived s es
  Arrived-within n s [] es c a l h = absurd (omega arith)
  Arrived-within n s (k ∷ ks) es c a l h = elim (le_or_lt (n + 1) s) [
    | inl m ↦ Arrived-within (n + 1) s ks es c.1 a.1 m (omega (arith, h))
    | inr m ↦ subst (λ x. Arrived x es) (omega (arith, c.0, l, m)) a.0
  ]

  Consecutive-numbers :
      (e e' b : ℕ) (out : List (ℕ × A)) (ks : List ℕ)
      → Consecutive e out e'
      → CountsFrom e ks
      → b ≡ e + length ks
      → b ≤ e'
      → All (λ x. x.0 < b) out
      → map (λ x. x.0) out ≡ ks
  Consecutive-numbers e e' b [] [] t c z l a = refl
  Consecutive-numbers e e' b [] (k ∷ ks) t c z l a = absurd (omega (arith, t))
  Consecutive-numbers e e' b ((s, m) ∷ out) [] t c z l a = absurd (omega (arith, t.0, a.0))
  Consecutive-numbers e e' b ((s, m) ∷ out) (k ∷ ks) t c z l a =
      ap₂ ◌∷◌ (t.0 ∙ sym c.0) (Consecutive-numbers (e + 1) e' b out ks t.1 c.1 (omega arith) l a.1)

  run-Holds :
      (P : ℕ × A → Type 0) (timeout : ℕ) (ks : List ℕ) (ch : Channel A) (es : List (Event A))
      → ((s : ℕ) (js : A) → IsOneOf s ks → P (s, js))
      → All (IsFrom ks) es
      → All P ch.pending
      → All P (run timeout ch es).1
  unfolding run step
  run-Holds P timeout ks ch [] p f a = tt
  run-Holds P timeout ks ch (arrives now seq js ∷ es) p f a =
      let h = receive-Holds P now seq js ch (p seq js f.0.1) a in
      All-append P (receive now seq js ch).1 _ h.1
        (run-Holds P timeout ks (receive now seq js ch).0 es p f.1 h.0)
  run-Holds P timeout ks ch (ticks now ∷ es) p f a = elim f.0 [ ]
  run-Holds P timeout ks ch (ends_batch now ∷ es) p f a = elim f.0 [ ]

  IsFrom-IsPlausible :
      (n : ℕ) (ks : List ℕ) (es : List (Event A))
      → CountsFrom n ks
      → n + length ks + 1 < u64
      → All (IsFrom ks) es
      → All IsArrival es × All IsPlausible es
  IsFrom-IsPlausible n ks [] c l f = (tt, tt)
  IsFrom-IsPlausible n ks (arrives now seq js ∷ es) c l f =
      let (a, p) = IsFrom-IsPlausible n ks es c l f.1 in
      ((tt, a), ((f.0.0, omega (arith, IsOneOf-lt n seq ks c f.0.1)), p))
  IsFrom-IsPlausible n ks (ticks now ∷ es) c l f = elim f.0 [ ]
  IsFrom-IsPlausible n ks (ends_batch now ∷ es) c l f = elim f.0 [ ]

  -- Given nodes that have Redis at hand and fewer than 2^63 numbers in all, and a client's
  -- channel that is well formed, has begun, has nothing in its buffer and expects the next number
  -- of the conversation: whichever nodes number the conversation's messages, and in whatever
  -- order and how often the messages arrive at the client, at positive times, with no tick and no
  -- end of a batch between, once each of them has arrived, the client has shown exactly their
  -- numbers, in the order in which they were handed out.
  pub serve-run :
      (server : Server) (d : Bytes) (requests : List (ℕ × Bytes)) (nodes : ℕ → Redis)
      (s : server.State) (timeout : ℕ) (ch : Channel A) (es : List (Event A))
      → ((j : ℕ) → IsConnected (nodes j))
      → ((c : Bytes) → server.value c s + length requests < 2 ^ 63)
      → ch.initialized ≡ true
      → Inv ch
      → ch.expect ≡ server.value d s + 1
      → ch.pending ≡ []
      → All (IsFrom (numbers_of d (serve server requests nodes s))) es
      → All (λ k. Arrived k es) (numbers_of d (serve server requests nodes s))
      → map (λ x. x.0) (run timeout ch es).1 ≡ numbers_of d (serve server requests nodes s)
  serve-run server d requests nodes s timeout ch es c l i v x p f a =
      let ks = numbers_of d (serve server requests nodes s) in
      let n = server.value d s + 1 in
      let k = serve-CountsFrom server d requests nodes s c l in
      let few = length-numbers_of d (serve server requests nodes s) in
      let room : n + length ks + 1 < u64 =
        omega (arith, few, length-serve server requests nodes s, l d) in
      let (arrivals, plausible) = IsFrom-IsPlausible n ks es k room f in
      let (consecutive, far) =
        run-Consecutive timeout (length ks) ch es arrivals plausible i v
          (λ t m h. Arrived-within n t ks es k a (omega (arith, x)) (omega (arith, x, h))) in
      Consecutive-numbers n (run timeout ch es).0.expect (n + length ks) (run timeout ch es).1 ks
        (subst (λ e. Consecutive e (run timeout ch es).1 (run timeout ch es).0.expect) x
          consecutive)
        k refl (omega (arith, far, x))
        (run-Holds (λ t. t.0 < n + length ks) timeout ks ch es (λ t js o. IsOneOf-lt n t ks k o) f
          (subst (All (λ t. t.0 < n + length ks)) (sym p) tt))
