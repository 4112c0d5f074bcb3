-- ===== src/Redis/Examples.antt =====
-- The theorems on `redis` at concrete inputs, with a Redis server that keeps its counters in a list.
use cluster_chatroom_project.Prelude.{
  ℕ, ◌+◌, ◌^◌, ◌<◌, ◌≡◌, ◌≢◌, refl, true, List, [], ◌∷◌, Bytes, codes, length, arith,
}
use cluster_chatroom_project.Orderer.Channel.{Channel, receive}
use cluster_chatroom_project.Redis.{Redis, null, count, set_count, local_fallback_seq, incr_seq}
use cluster_chatroom_project.Redis.Sequence.{
  count-set_count, local_fallback_seq-count, incr_seq-ne-zero,
}
use cluster_chatroom_project.Redis.Cluster.{
  Server, IsConnected, numbers_of, CountsFrom, serve, serve-CountsFrom,
}
use cluster_chatroom_project.Redis.Fallback.{receive-fallback}

-- A node that has numbered one message without Redis.
abbrev pub node : Redis
node = record {
  publish_context = true;
  subscribe_context = true;
  command_context = true;
  redis_available = true;
  local_seq = (codes "g1", 1) ∷ [];
}

count_node : count (codes "g1") node.local_seq ≡ 1
unfolding count
count_node = refl

incr_seq-ne-zero_example : (incr_seq (codes "g1") null node).1 ≢ 0
incr_seq-ne-zero_example = incr_seq-ne-zero (codes "g1") null node (omega (arith, count_node))

abbrev pub counters : Server
counters = record {
  State = List (Bytes × ℕ);
  value = count;
  incr = λ c s. (set_count c (count c s + 1) s, count c s + 1);
  incr_reply = λ c s. refl;
  value-incr = λ c d s. count-set_count c d (count c s + 1) s;
}

-- Two nodes take turns.
abbrev pub turns : List (ℕ × Bytes)
turns = (0, codes "g1") ∷ (1, codes "g1") ∷ (1, codes "p1_2") ∷ (0, codes "g1") ∷ []

pub node_room : (c : Bytes) → count c [] + length turns < 2 ^ 63
unfolding count
node_room c = omega arith

node-IsConnected : IsConnected node
node-IsConnected = (refl, refl)

serve-CountsFrom_example :
    CountsFrom
      (count (codes "g1") [] + 1)
      (numbers_of (codes "g1") (serve counters turns (λ i. node) []))
serve-CountsFrom_example =
    serve-CountsFrom counters (codes "g1") turns (λ i. node) [] (λ i. node-IsConnected) node_room

-- A client that has shown the message numbered without Redis.
abbrev past : Channel ℕ
past = record {
  initialized = true;
  expect = 2 ^ 40 + 3;
  pending = [];
  delivered = (2 ^ 40 + 2) ∷ [];
  gap_since = 0;
}

node_number : (local_fallback_seq (codes "g1") node).1 < past.expect
node_number = omega (
  arith,
  count_node,
  (local_fallback_seq-count (codes "g1") (codes "g2") node (omega (arith, count_node))).0,
)

receive-fallback_example : receive 50 8 108 past ≡ (past, [])
receive-fallback_example =
    receive-fallback (codes "g1") node 50 8 108 past (omega (arith, count_node)) refl node_number
      (omega arith)
