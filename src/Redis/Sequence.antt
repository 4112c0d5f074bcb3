-- ===== src/Redis/Sequence.antt =====
-- src/server/redis/redis.cpp: the numbers that `incrSeq` hands out.
use cluster_chatroom_project.Prelude.{
  ℕ, ◌+◌, ◌%◌, ◌^◌, ◌<◌, ◌≡◌, ◌≢◌, refl, true, false, List, [], ◌∷◌, Bytes, same, same_iff,
  if◌then◌else◌, arith,
}
use cluster_chatroom_project.Prelude.Int.{pos, negsuc}
use cluster_chatroom_project.Redis.{
  Redis, Reply, null, integer, string, other, u64, count, set_count, fallback_base,
  local_fallback_seq, replied, incr_seq,
}

pub count-set_count :
    (c d : Bytes) (n : ℕ) (l : List (Bytes × ℕ))
    → count d (set_count c n l) ≡ (if same c d then n else count d l)
unfolding count set_count
count-set_count c d n [] = refl
count-set_count c d n ((k, v) ∷ rest) =
    ground (arith, count-set_count c d n rest, same_iff k c, same_iff k d, same_iff c d)

-- Room is left in uint64_t above the base for the next local number of a conversation.
abbrev pub HasRoom : Bytes → Redis → Type 0
HasRoom conv r = fallback_base + count conv r.local_seq + 1 < u64

-- Unless the conversation's local counter is about to reach 2^64 - 2^40: handed out without Redis,
-- the numbers of a conversation count up by one from above 2^40, and no other conversation's
-- counter moves.
pub local_fallback_seq-count :
    (conv d : Bytes) (r : Redis)
    → HasRoom conv r
    → let (r', n) = local_fallback_seq conv r in
      (n ≡ fallback_base + count conv r.local_seq + 1)
      × (count d r'.local_seq
          ≡ (if same conv d then count conv r.local_seq + 1 else count d r.local_seq))
unfolding local_fallback_seq
local_fallback_seq-count conv d r h =
    let e : (count conv r.local_seq + 1) % u64 ≡ count conv r.local_seq + 1 = omega arith in
    (omega arith, rw (count-set_count, e) refl)

pub fallback_above :
    (conv : Bytes) (r : Redis) → HasRoom conv r → fallback_base < (local_fallback_seq conv r).1
fallback_above conv r h = omega (arith, (local_fallback_seq-count conv conv r h).0)

-- A node with Redis at hand: the reply is an integer that INCR can give.
pub incr_seq_connected :
    (conv : Bytes) (n : ℕ) (r : Redis)
    → r.command_context ≡ true
    → r.redis_available ≡ true
    → 0 < n
    → n < 2 ^ 63
    → incr_seq conv (integer (pos n)) r ≡ (r, n)
unfolding incr_seq replied
incr_seq_connected conv n r c a l u = ground arith

-- Unless the conversation's local counter is about to reach 2^64 - 2^40: whatever Redis replies, or
-- if it does not, the number handed out is not 0.
pub incr_seq-ne-zero :
    (conv : Bytes) (reply : Reply) (r : Redis) → HasRoom conv r → (incr_seq conv reply r).1 ≢ 0
unfolding incr_seq replied
incr_seq-ne-zero conv null r h =
    ground
      (arith, fallback_above conv r h, fallback_above conv (record r { redis_available = false }) h)
incr_seq-ne-zero conv (integer z) r h = ground (arith, fallback_above conv r h)
incr_seq-ne-zero conv (string t) r h = ground (arith, fallback_above conv r h)
incr_seq-ne-zero conv other r h = ground (arith, fallback_above conv r h)

replied-lt : (conv : Bytes) (reply : Reply) (r : Redis) → (replied conv reply r).1 < u64
unfolding replied local_fallback_seq
replied-lt conv null r = ground arith
replied-lt conv (integer (pos n)) r = ground arith
replied-lt conv (integer (negsuc n)) r = ground arith
replied-lt conv (string s) r = ground arith
replied-lt conv other r = ground arith

-- A number is one of uint64_t.
pub incr_seq-lt : (conv : Bytes) (reply : Reply) (r : Redis) → (incr_seq conv reply r).1 < u64
unfolding incr_seq local_fallback_seq
incr_seq-lt conv reply r = ground (arith, replied-lt conv reply r)
