-- ===== src/Redis/Cluster.antt =====
-- src/server/redis/redis.cpp: several nodes number messages through one Redis server. The server is
-- a parameter, with what INCR is documented to do.
use cluster_chatroom_project.Prelude.{
  ℕ, ◌+◌, ◌^◌, ◌<◌, ◌≡◌, refl, sym, subst, ap, ◌∙◌, inl, inr, if_rule, true, ◌&&◌, List, [], ◌∷◌,
  Bytes, same, same_iff, Bool-cases, ◌==◌, if◌then◌else◌, arith, length,
}
use cluster_chatroom_project.Prelude.Int.{pos}
use cluster_chatroom_project.Redis.{Redis, integer, other, incr_seq}
use cluster_chatroom_project.Redis.Sequence.{incr_seq_connected}

pub record Server : Type 1 where
  pub State : Type 0
  -- The counter of a conversation, and INCR with its reply.
  pub value : Bytes → State → ℕ
  pub incr : Bytes → State → State × ℕ
  pub incr_reply : (c : Bytes) (s : State) → (incr c s).1 ≡ value c s + 1
  pub value-incr :
      (c d : Bytes) (s : State)
      → value d (incr c s).0 ≡ (if same c d then value c s + 1 else value d s)

abbrev pub IsConnected : Redis → Type 0
IsConnected r = (r.command_context ≡ true) × (r.redis_available ≡ true)

abbrev pub update : (ℕ → Redis) → ℕ → Redis → ℕ → Redis
update nodes i r j = if i == j then r else nodes j

-- The numbers of one conversation, in the order in which they were handed out.
abbrev pub numbers_of : Bytes → List (Bytes × ℕ) → List ℕ
numbers_of d [] = []
numbers_of d ((c, n) ∷ log) = if same c d then n ∷ numbers_of d log else numbers_of d log

abbrev pub CountsFrom : ℕ → List ℕ → Type 0
CountsFrom n [] = Unit
CountsFrom n (k ∷ ks) = (k ≡ n) × CountsFrom (n + 1) ks

module _ (server : Server) where
  open server use {State, value, incr, incr_reply, value-incr}

  -- A node sends INCR exactly if it has Redis at hand.
  unfoldable pub take_number : Bytes → Redis → State → Redis × State × ℕ
  take_number conv r s =
      if r.command_context && r.redis_available
      then (let (s', n) = incr conv s in
          let (r', k) = incr_seq conv (integer (pos n)) r in (r', s', k))
      else (let (r', k) = incr_seq conv other r in (r', s, k))

  -- A schedule: which node numbers a message of which conversation, one after the other.
  unfoldable pub serve : List (ℕ × Bytes) → (ℕ → Redis) → State → List (Bytes × ℕ)
  serve [] nodes s = []
  serve ((i, conv) ∷ rest) nodes s =
      let t = take_number conv (nodes i) s in (conv, t.2) ∷ serve rest (update nodes i t.0) t.1

  take_number_connected :
      (conv : Bytes) (r : Redis) (s : State)
      → IsConnected r
      → value conv s + 1 < 2 ^ 63
      → take_number conv r s ≡ (r, (incr conv s).0, value conv s + 1)
  unfolding take_number
  take_number_connected conv r s c l =
      if_rule {A = Redis × State × ℕ} (λ x. x ≡ (r, (incr conv s).0, value conv s + 1))
        (r.command_context && r.redis_available)
        (λ _.
          rw
            (
              incr_reply conv s,
              incr_seq_connected conv (value conv s + 1) r c.0 c.1 (omega arith) l,
            )
            refl)
        (λ off. ground arith)

  update-IsConnected :
      (nodes : ℕ → Redis) (i : ℕ)
      → ((j : ℕ) → IsConnected (nodes j))
      → (j : ℕ) → IsConnected (update nodes i (nodes i) j)
  update-IsConnected nodes i c j = if_rule IsConnected (i == j) (λ _. c i) (λ _. c j)

  -- Given nodes that have Redis at hand and fewer than 2^63 numbers in all: whichever nodes
  -- number the messages, and however their turns interleave, the numbers of each conversation
  -- count up by one from the server's counter on, so none is given twice and none left out.
  pub serve-CountsFrom :
      (d : Bytes) (requests : List (ℕ × Bytes)) (nodes : ℕ → Redis) (s : State)
      → ((j : ℕ) → IsConnected (nodes j))
      → ((c : Bytes) → value c s + length requests < 2 ^ 63)
      → CountsFrom (value d s + 1) (numbers_of d (serve requests nodes s))
  unfolding serve
  serve-CountsFrom d [] nodes s c l = tt
  serve-CountsFrom d ((i, conv) ∷ rest) nodes s c l =
      let e = take_number_connected conv (nodes i) s (c i) (omega (arith, l conv)) in
      let after : State = (incr conv s).0 in
      let v = value-incr conv d s in
      let room = λ (k : Bytes).
        subst (λ x. x + length rest < 2 ^ 63) (sym (value-incr conv k s))
          (if_rule (λ x. x + length rest < 2 ^ 63) (same conv k) (λ _. omega (arith, l conv))
            (λ _. omega (arith, l k))) in
      let ih =
        serve-CountsFrom d rest (update nodes i (nodes i)) after (update-IsConnected nodes i c)
          room in
      rw e (elim (Bool-cases (same conv d)) [
        | inl q ↦
            let w = ap (λ b. if b then value conv s + 1 else value d s) q in
            let own = ap (λ b. value b s) ((same_iff conv d).0 q) in
            let u = v ∙ w in
            let next : value d after + 1 ≡ value d s + 1 + 1 = omega arith in
            rw q (
              omega arith,
              subst (λ x. CountsFrom x (numbers_of d (serve rest (update nodes i (nodes i)) after)))
                  next ih,
            )
        | inr q ↦
            let w = ap (λ b. if b then value conv s + 1 else value d s) q in
            rw q (
              subst (λ x. CountsFrom x (numbers_of d (serve rest (update nodes i (nodes i)) after)))
                (ap (λ x. x + 1) (v ∙ w)) ih)
      ])
