-- ===== src/Orderer/Examples.antt =====
-- test/orderer_test.cpp's situations, run on the model, and the theorems at concrete inputs.
use cluster_chatroom_project.Prelude.{
  String, ℕ, ◌+◌, ◌≤◌, ◌<◌, ◌≡◌, ◌≢◌, refl, inl, ◌⊎◌, true, some, none, List, [], ◌∷◌, Bytes, codes,
  arith,
}
use cluster_chatroom_project.Json.Sample.{Value, sample, numbered, null}
use cluster_chatroom_project.Orderer.Channel.{
  u64, Channel, fresh, receive, accept, begin, put, deliver, drain_loop, drain_pending, start_gap,
  release_first, expire, flush, trim,
}
use cluster_chatroom_project.Orderer.Invariant.{Consecutive, Ascending, Inv}
use cluster_chatroom_project.Orderer.History.{Event, arrives, step, run}
use cluster_chatroom_project.Orderer.Seen.{Seen}
use cluster_chatroom_project.Orderer.Reorder.{run-Consecutive}
use cluster_chatroom_project.Orderer.Expiry.{flush_stops}
use cluster_chatroom_project.Orderer.Conversations.{
  Orderer, channel, set_channel, each, tick, stamp, dispatch, on_message,
}
use cluster_chatroom_project.Orderer.Projection.{Input, hears, wakes, key, shown}
use cluster_chatroom_project.Orderer.Isolation.{step_all, run_all, project, Projects}
use cluster_chatroom_project.Orderer.Session.{start, run_all-Projects, run_all-Ascending}

-- Numbers 1, 3, 2, 2, 4, as test/order_test.py sends them.
abbrev shuffled : List (Event ℕ)
shuffled =
    arrives 10 1 101
    ∷ arrives 20 3 103
    ∷ arrives 30 2 102
    ∷ arrives 40 2 102
    ∷ arrives 50 4 104
    ∷ []

shuffled_out : (run 800 fresh shuffled).1 ≡ (1, 101) ∷ (2, 102) ∷ (3, 103) ∷ (4, 104) ∷ []
unfolding run step receive accept begin put deliver drain_loop drain_pending start_gap trim
shuffled_out = refl

-- A channel that has shown 1.
abbrev begun : Channel ℕ
begun = record { initialized = true; expect = 2; pending = []; delivered = 1 ∷ []; gap_since = 0 }

begun-Inv : Inv begun
begun-Inv = record { ahead = tt; behind = omega arith; begun = inl refl; timed = inl refl }

abbrev rest : List (Event ℕ)
rest = arrives 20 3 103 ∷ arrives 30 2 102 ∷ arrives 40 2 102 ∷ []

rest_arrived : (s : ℕ) → 2 ≤ s → s < 4 → (s ≡ 3) ⊎ ((s ≡ 2) ⊎ ((s ≡ 2) ⊎ ⊥))
rest_arrived s l h = omega arith

run-Consecutive_example :
    Consecutive 2 (run 800 begun rest).1 (run 800 begun rest).0.expect
    × (4 ≤ (run 800 begun rest).0.expect)
run-Consecutive_example =
    run-Consecutive 800 2 begun rest (omega arith) (omega arith) refl begun-Inv rest_arrived

-- Two gaps.
abbrev gaps : Channel ℕ
gaps = record {
  initialized = true;
  expect = 2;
  pending = (4, 104) ∷ (7, 107) ∷ [];
  delivered = 1 ∷ [];
  gap_since = 10;
}

gaps_wait : gaps.pending ≢ []
gaps_wait e = cc

flush_stops_example :
    ((flush 900 gaps).1 ≡ (4, 104) ∷ []) × ((flush 900 gaps).0.pending ≡ (7, 107) ∷ [])
flush_stops_example = flush_stops 900 4 7 104 107 [] gaps refl (omega arith) (omega arith)

-- Two conversations, a gap in the first.
abbrev inputs : List (Input Value)
inputs =
    hears 10 (numbered "p1_2" 1)
    ∷ hears 20 (numbered "p1_2" 3)
    ∷ hears 30 (numbered "g9" 1)
    ∷ hears 40 null
    ∷ wakes 900000000
    ∷ []

abbrev inputs_shown : List Value
inputs_shown = numbered "p1_2" 1 ∷ numbered "g9" 1 ∷ null ∷ numbered "p1_2" 3 ∷ []

after : Orderer Value
unfolding run_all step_all on_message stamp dispatch channel set_channel each tick receive accept
    begin put deliver drain_loop drain_pending start_gap trim expire release_first
after = elim (run_all sample (start sample 800) inputs) [
  | none ↦ start sample 0
  | some (o, out) ↦ o
]

inputs_run : run_all sample (start sample 800) inputs ≡ some (after, inputs_shown)
unfolding after
inputs_run = refl

run_all-Projects_example :
    Projects sample
      (codes "g9")
      (start sample 800)
      (project sample (codes "g9") inputs)
      (after, inputs_shown)
run_all-Projects_example =
    run_all-Projects sample (codes "g9") (start sample 800) inputs (after, inputs_shown) inputs_run
      tt

numbered-key : (conv : String) (n : ℕ) → key sample (numbered conv n) ≡ some (codes conv, n)
unfolding key stamp
numbered-key conv n = refl

numbered_plausible :
    (conv : String) (n : ℕ)
    → n + 1 < u64
    → (c : Bytes) (s : ℕ) → key sample (numbered conv n) ≡ some (c, s)
    → s + 1 < u64
numbered_plausible conv n l c s e = ground (arith, numbered-key conv n)

null_plausible : (c : Bytes) (s : ℕ) → key sample null ≡ some (c, s) → s + 1 < u64
unfolding key stamp
null_plausible c s e = cc

run_all-Ascending_example :
    Ascending 0
      (shown sample (codes "p1_2") inputs_shown)
      (channel (codes "p1_2") after.channels).expect
run_all-Ascending_example =
    run_all-Ascending sample (codes "p1_2") 800 inputs after inputs_shown inputs_run (
      (omega arith, numbered_plausible "p1_2" 1 (omega arith)),
      (
        (omega arith, numbered_plausible "p1_2" 3 (omega arith)),
        (
          (omega arith, numbered_plausible "g9" 1 (omega arith)),
          ((omega arith, null_plausible), (omega arith, tt)),
        ),
      ),
    )

next_shown :
    on_message sample 50 (numbered "g9" 2) (start sample 800)
    ≡ some (
      record {
        channels =
            (
              codes "g9",
              record {
                initialized = true;
                expect = 3;
                pending = [];
                delivered = 2 ∷ [];
                gap_since = 0;
              },
            )
            ∷ [];
        gap_timeout = 800;
      },
      numbered "g9" 2 ∷ [],
    )
unfolding on_message stamp dispatch channel set_channel receive accept begin put deliver drain_loop
    drain_pending trim
next_shown = refl
