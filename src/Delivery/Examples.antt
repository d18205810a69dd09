-- ===== src/Delivery/Examples.antt =====
-- internal/cluster/delivery.go: a burst of events on a channel of one.
use kubetin.Common.{
  ◌≡◌, refl, ◌⊎◌, ℕ, ◌≤◌, ◌++◌, String, true, false, List, [], ◌∷◌, some, length, arith,
}
use kubetin.Delivery.Run.{Action, publishes, advance, step, run_schedule, start}
use kubetin.Delivery.Invariant.{replay}
use kubetin.Delivery.Eventual.{after, Accounted, eventual_state, no_lost_wakeup}
use kubetin.Delivery.Drains.{Ready, rounds, rounds_deliver}

-- "a" goes straight out, "b" coalesces, "c" is cancelled before anyone saw it.
abbrev burst : List (Action ℕ)
burst =
    publishes "a" 1 false
    ∷ publishes "b" 2 false
    ∷ publishes "b" 3 false
    ∷ publishes "c" 4 false
    ∷ publishes "c" 4 true
    ∷ []

burst_queue : length (after 0 1 burst).delivery.queue ≡ 1
unfolding run_schedule step start
burst_queue = refl

burst_coalesced : (after 0 1 burst).delivery.coalesced_events ≡ 2
unfolding run_schedule step start
burst_coalesced = refl

burst_state : replay (after 0 1 burst).published "b" ≡ some 3
unfolding run_schedule step start
burst_state = refl

eventual_state_example : Accounted (after 0 1 burst) "b"
unfolding run_schedule step start
eventual_state_example = eventual_state 0 1 burst "b" (omega arith) refl

no_lost_wakeup_example :
    ((after 0 1 (advance ∷ burst)).delivery.queue ≡ [])
    ⊎ ((after 0 1 (advance ∷ burst)).delivery.wake ≡ true)
unfolding run_schedule step start
no_lost_wakeup_example = no_lost_wakeup 0 1 (advance ∷ burst) (omega arith) refl refl

burst-Ready : Ready (after 0 1 burst)
unfolding run_schedule step start
burst-Ready = record { top = refl; live = refl; room = omega arith; fits = omega arith }

rounds_deliver_example :
    (k : ℕ) × (k ≤ length (after 0 1 burst).delivery.queue)
    × ((after 0 1 (burst ++ rounds k)).delivery.queue ≡ [])
    × ((uid : String)
        → replay (after 0 1 (burst ++ rounds k)).sent uid
          ≡ replay (after 0 1 (burst ++ rounds k)).published uid)
unfolding run_schedule step start
rounds_deliver_example = rounds_deliver 0 1 burst (omega arith) burst-Ready refl
