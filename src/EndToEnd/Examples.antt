-- ===== src/EndToEnd/Examples.antt =====
-- Numbers from two nodes that reach a client out of order.
use cluster_chatroom_project.Prelude.{
  ℕ, ◌+◌, ◌≡◌, refl, sym, subst, inl, true, List, [], ◌∷◌, map, codes, All, arith,
}
use cluster_chatroom_project.Redis.{incr_seq, replied, count, set_count}
use cluster_chatroom_project.Redis.Cluster.{numbers_of, serve, take_number}
use cluster_chatroom_project.Redis.Examples.{node, counters, turns, node_room}
use cluster_chatroom_project.Orderer.Channel.{Channel}
use cluster_chatroom_project.Orderer.Invariant.{Inv}
use cluster_chatroom_project.Orderer.History.{Event, arrives, run}
use cluster_chatroom_project.Orderer.Reorder.{Arrived}
use cluster_chatroom_project.EndToEnd.{IsFrom, serve-run}

-- A channel that waits for the first number.
abbrev waiting : Channel ℕ
waiting = record { initialized = true; expect = 1; pending = []; delivered = []; gap_since = 0 }

waiting-Inv : Inv waiting
waiting-Inv = record { ahead = tt; behind = tt; begun = inl refl; timed = inl refl }

abbrev shuffled : List (Event ℕ)
shuffled = arrives 10 3 103 ∷ arrives 20 1 101 ∷ arrives 30 3 103 ∷ arrives 40 2 102 ∷ []

turns_numbers : numbers_of (codes "g1") (serve counters turns (λ j. node) []) ≡ 1 ∷ 2 ∷ 3 ∷ []
unfolding serve take_number incr_seq replied count set_count
turns_numbers = refl

expect_first : 1 ≡ count (codes "g1") [] + 1
unfolding count
expect_first = refl

shuffled-IsFrom : All (IsFrom (1 ∷ 2 ∷ 3 ∷ [])) shuffled
shuffled-IsFrom = omega arith

shuffled-Arrived : All (λ k. Arrived k shuffled) (1 ∷ 2 ∷ 3 ∷ [])
shuffled-Arrived = omega arith

serve-run_example :
    map (λ x. x.0) (run 800 waiting shuffled).1
    ≡ numbers_of (codes "g1") (serve counters turns (λ j. node) [])
serve-run_example =
    serve-run counters (codes "g1") turns (λ j. node) [] 800 waiting shuffled (λ j. (refl, refl))
      node_room refl waiting-Inv expect_first refl
      (subst (λ ks. All (IsFrom ks) shuffled) (sym turns_numbers) shuffled-IsFrom)
      (subst (All (λ k. Arrived k shuffled)) (sym turns_numbers) shuffled-Arrived)
