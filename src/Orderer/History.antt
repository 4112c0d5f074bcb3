-- ===== src/Orderer/History.antt =====
-- A channel of include/conversation_orderer.hpp over a history of arrivals, ticks and ends of
-- offline batches.
use cluster_chatroom_project.Prelude.{
  ℕ, ◌+◌, ◌<◌, ◌≡◌, refl, sym, ap, ◌∙◌, append_assoc, List, [], ◌∷◌, ◌++◌, arith, All,
}
use cluster_chatroom_project.Orderer.Channel.{u64, Channel, receive, expire, flush}
use cluster_chatroom_project.Orderer.Invariant.{Inv, Ascending-append}
use cluster_chatroom_project.Orderer.Keeps.{Moves, expire-Moves, flush-Moves, receive-Moves}

-- Each with the clock's reading.
pub data Event (A : Type 0) : Type 0 where
  arrives : ℕ → ℕ → A → Event A
  ticks : ℕ → Event A
  ends_batch : ℕ → Event A

module _ {A : Type 0} where
  unfoldable pub step : ℕ → Channel A → Event A → Channel A × List (ℕ × A)
  step timeout ch (arrives now seq js) = receive now seq js ch
  step timeout ch (ticks now) = expire timeout now ch
  step timeout ch (ends_batch now) = flush now ch

  unfoldable pub run : ℕ → Channel A → List (Event A) → Channel A × List (ℕ × A)
  run timeout ch [] = (ch, [])
  run timeout ch (e ∷ es) =
      let (ch', out) = step timeout ch e in
      let (ch'', rest) = run timeout ch' es in (ch'', out ++ rest)

  -- The clock has left its epoch, and a number's successor is a uint64_t.
  abbrev pub IsPlausible : Event A → Type 0
  IsPlausible (arrives now seq js) = (0 < now) × (seq + 1 < u64)
  IsPlausible (ticks now) = 0 < now
  IsPlausible (ends_batch now) = 0 < now

  pub step-Moves :
      (timeout : ℕ) (ch : Channel A) (e : Event A)
      → IsPlausible e
      → Inv ch
      → Moves ch.expect (step timeout ch e)
  unfolding step
  step-Moves timeout ch (arrives now seq js) p v = receive-Moves now seq js ch p.0 p.1 v
  step-Moves timeout ch (ticks now) p v = expire-Moves timeout now ch p v
  step-Moves timeout ch (ends_batch now) p v = flush-Moves now ch p v

  pub run-Moves :
      (timeout : ℕ) (ch : Channel A) (es : List (Event A))
      → All IsPlausible es
      → Inv ch
      → Moves ch.expect (run timeout ch es)
  unfolding run
  run-Moves timeout ch [] p v = record { inv = v; ascends = omega arith }
  run-Moves timeout ch (e ∷ es) p v =
      let m = step-Moves timeout ch e p.0 v in
      let ms = run-Moves timeout (step timeout ch e).0 es p.1 m.inv in
      record {
        inv = ms.inv;
        ascends = Ascending-append _ _ _ (step timeout ch e).1 _ m.ascends ms.ascends;
      }

  pub run-append :
      (timeout : ℕ) (ch : Channel A) (xs ys : List (Event A))
      → let r = run timeout ch xs in
        let q = run timeout r.0 ys in (run timeout ch (xs ++ ys)).0 ≡ q.0
  unfolding run
  run-append timeout ch [] ys = refl
  run-append timeout ch (x ∷ xs) ys = run-append timeout (step timeout ch x).0 xs ys

  pub run-append_out :
      (timeout : ℕ) (ch : Channel A) (xs ys : List (Event A))
      → let r = run timeout ch xs in
        let q = run timeout r.0 ys in (run timeout ch (xs ++ ys)).1 ≡ r.1 ++ q.1
  unfolding run
  run-append_out timeout ch [] ys = refl
  run-append_out timeout ch (x ∷ xs) ys =
      ap (◌++◌ (step timeout ch x).1) (run-append_out timeout (step timeout ch x).0 xs ys)
      ∙ sym (append_assoc (step timeout ch x).1 _ _)
