-- ===== src/Orderer/Channel.antt =====
-- include/conversation_orderer.hpp: one `Channel`, and what each public method does to it.
-- A function returns the new channel and its calls of `deliver`, oldest first, as (seq, message).
-- The clock counts nanoseconds and is an argument; 0 is `Clock::time_point{}`.
use cluster_chatroom_project.Prelude.{
  ℕ, ◌+◌, ◌-◌, ◌/◌, ◌%◌, ◌^◌, compare, Ordering, Bool, true, false, ◌||◌, List, [], ◌∷◌, ltb, ◌==◌,
  if◌then◌else◌, length,
}

abbrev pub u64 : ℕ
u64 = 2 ^ 64

pub record Channel (A : Type 0) : Type 0 where
  pub initialized : Bool
  pub expect : ℕ
  pub pending : List (ℕ × A)
  pub delivered : List ℕ
  pub gap_since : ℕ

-- unordered_set<uint64_t>
abbrev pub contains : ℕ → List ℕ → Bool
contains s [] = false
contains s (x ∷ xs) = s == x || contains s xs

abbrev pub insert : ℕ → List ℕ → List ℕ
insert s xs = if contains s xs then xs else s ∷ xs

-- The set is emptied when it has more than 4096 entries.
unfoldable pub trim : List ℕ → List ℕ
trim xs = if ltb 4096 (length xs) then [] else xs

module _ {A : Type 0} where
  abbrev pub fresh : Channel A
  fresh = record { initialized = false; expect = 0; pending = []; delivered = []; gap_since = 0 }

  -- map<uint64_t,json>: `pending[seq] = js`, in ascending order of keys.
  unfoldable pub put : ℕ → A → List (ℕ × A) → List (ℕ × A)
  put s js [] = (s, js) ∷ []
  put s js ((k, m) ∷ rest) = elim (compare s k) [
    | Ordering.lt ↦ (s, js) ∷ (k, m) ∷ rest
    | Ordering.eq ↦ (k, js) ∷ rest
    | Ordering.gt ↦ (k, m) ∷ put s js rest
  ]

  -- `deliver` without its call of `_emit`, which the callers return.
  unfoldable pub deliver : Channel A → ℕ → Channel A
  unfolding trim
  deliver ch seq = record ch {
    expect = (seq + 1) % u64;
    delivered = trim (insert seq ch.delivered);
    gap_since = 0;
  }

  -- The loop of `drainPending`, over the buffer from its begin().
  unfoldable pub drain_loop : List (ℕ × A) → Channel A → Channel A × List (ℕ × A)
  drain_loop [] ch = (record ch { pending = [] }, [])
  drain_loop ((k, m) ∷ rest) ch = elim (compare k ch.expect) [
    | Ordering.lt ↦ drain_loop rest ch
    | Ordering.eq ↦
        let (ch', out) = drain_loop rest (deliver ch ch.expect) in (ch', (ch.expect, m) ∷ out)
    | Ordering.gt ↦ (record ch { pending = (k, m) ∷ rest }, [])
  ]

  abbrev pub is_empty : List (ℕ × A) → Bool
  is_empty [] = true
  is_empty (p ∷ ps) = false

  -- Waiting for a gap begins, unless it has begun.
  unfoldable pub start_gap : ℕ → Channel A → Channel A
  start_gap now ch = if ch.gap_since == 0 then record ch { gap_since = now } else ch

  unfoldable pub drain_pending : ℕ → Channel A → Channel A × List (ℕ × A)
  drain_pending now ch =
      let (ch', out) = drain_loop ch.pending ch in
      (if is_empty ch'.pending then ch' else start_gap now ch', out)

  -- The first message of a conversation sets what is expected.
  unfoldable pub begin : ℕ → Channel A → Channel A
  begin seq ch = if ch.initialized then ch else record ch { initialized = true; expect = seq }

  -- The three cases of `onMessage`: a duplicate, the next number, and a number behind a gap.
  unfoldable pub accept : ℕ → ℕ → A → Channel A → Channel A × List (ℕ × A)
  accept now seq js ch =
      if ltb seq ch.expect || contains seq ch.delivered
      then (ch, [])
      else if seq == ch.expect
      then (let (ch', out) = drain_pending now (deliver ch seq) in (ch', (seq, js) ∷ out))
      else (start_gap now (record ch { pending = put seq js ch.pending }), [])

  -- `onMessage`, behind its test of the fields.
  unfoldable pub receive : ℕ → ℕ → A → Channel A → Channel A × List (ℕ × A)
  receive now seq js ch = accept now seq js (begin seq ch)

  -- The channel skips to its smallest buffered number.
  unfoldable pub release_first : ℕ → Channel A → List (ℕ × A) → Channel A × List (ℕ × A)
  release_first now ch [] = (ch, [])
  release_first now ch ((k, m) ∷ rest) = drain_pending now (record ch { expect = k })

  -- The body of `tick`'s loop; the timeout is in milliseconds.
  unfoldable pub expire : ℕ → ℕ → Channel A → Channel A × List (ℕ × A)
  expire timeout now ch =
      if is_empty ch.pending || ch.gap_since == 0
      then (ch, [])
      else if ltb ((now - ch.gap_since) / 1000000) timeout
      then (ch, [])
      else release_first now ch ch.pending

  -- The body of the loop at the end of `onOfflineBatch`.
  unfoldable pub flush : ℕ → Channel A → Channel A × List (ℕ × A)
  flush now ch = release_first now ch ch.pending
