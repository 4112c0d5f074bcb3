-- ===== src/Redis/Fallback.antt =====
-- src/server/redis/redis.cpp meets include/conversation_orderer.hpp: what becomes of messages that
-- are numbered by Redis after one that was numbered without it.
use cluster_chatroom_project.Prelude.{ℕ, ◌^◌, ◌≤◌, ◌<◌, ◌≡◌, refl, true, [], Bytes, lt→ltb, arith}
use cluster_chatroom_project.Orderer.Channel.{Channel, begin, accept, receive}
use cluster_chatroom_project.Redis.{Redis, local_fallback_seq}
use cluster_chatroom_project.Redis.Sequence.{HasRoom, fallback_above}

module _ {A : Type 0} where
  begin_initialized : (seq : ℕ) (ch : Channel A) → ch.initialized ≡ true → begin seq ch ≡ ch
  unfolding begin
  begin_initialized seq ch i = ground arith

  accept_old :
      (now seq : ℕ) (js : A) (ch : Channel A) → seq < ch.expect → accept now seq js ch ≡ (ch, [])
  unfolding accept
  accept_old now seq js ch l = rw (lt→ltb seq ch.expect l) refl

  -- Once a conversation has got past a number that a node handed out without Redis, a client
  -- drops every message of it whose number is at most 2^40, as those from Redis are, until 2^40
  -- have been handed out.
  pub receive-fallback :
      (conv : Bytes) (r : Redis) (now n : ℕ) (js : A) (ch : Channel A)
      → HasRoom conv r
      → ch.initialized ≡ true
      → (local_fallback_seq conv r).1 < ch.expect
      → n ≤ 2 ^ 40
      → receive now n js ch ≡ (ch, [])
  unfolding receive
  receive-fallback conv r now n js ch h i p l =
      rw (begin_initialized n ch i)
        (accept_old now n js ch (omega (arith, fallback_above conv r h)))
