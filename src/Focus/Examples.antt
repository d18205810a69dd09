-- ===== src/Focus/Examples.antt =====
-- Tests and witnesses of the coordinator and the batches.
use kubetin.Common.{ℕ, ◌≡◌, refl, true, false, some, ◌++◌, List, [], ◌∷◌, All}
use kubetin.Focus.Coordinator.{
  FocusTarget, new_coordinator, Step, switches, wakes, expires, takes_token, reads_latest,
  takes_timer, coordinate, run_steps,
}
use kubetin.Focus.Settled.{IsNamed, IsQuiet, run_steps-live}
use kubetin.Focus.Settling.{settles, run_steps-settles}
use kubetin.Focus.Ordering.{descends, run_steps-descends}
use kubetin.Focus.Batch.{
  Poll, received, nothing, closed, new_forwarder, forward, rows, held, events, on_poll,
}
use kubetin.Focus.Batched.{IsBounded, forward_lem}

abbrev target_at : ℕ → FocusTarget
target_at n = record { context = "prod"; generation = n }

-- The second request comes while the timer of the first runs, and a late one of an older focus follows.
abbrev hurried : List Step
hurried =
    switches (target_at 1)
    ∷ wakes
    ∷ takes_token
    ∷ reads_latest
    ∷ switches (target_at 3)
    ∷ expires
    ∷ switches (target_at 2)
    ∷ takes_timer
    ∷ []

abbrev settled : List Step
settled = hurried ++ wakes ∷ takes_token ∷ reads_latest ∷ expires ∷ takes_timer ∷ []

hurried-IsNamed : All IsNamed hurried
hurried-IsNamed = (refl, (tt, (tt, (tt, (refl, (tt, (refl, (tt, tt))))))))

settled-IsNamed : All IsNamed settled
settled-IsNamed =
    (refl, (tt, (tt, (tt, (refl, (tt, (refl, (tt, (tt, (tt, (tt, (tt, (tt, tt)))))))))))))

settled_spawned : (run_steps settled new_coordinator).spawned ≡ target_at 3 ∷ []
unfolding coordinate
settled_spawned = refl

settled-IsQuiet : IsQuiet (run_steps settled new_coordinator)
unfolding coordinate
settled-IsQuiet = (refl, refl, refl, refl)

run_steps-live_example :
    (run_steps settled new_coordinator).live ≡ some (run_steps settled new_coordinator).latest
unfolding coordinate
run_steps-live_example = run_steps-live settled settled-IsNamed settled-IsQuiet refl

run_steps-settles_example :
    IsQuiet
      (run_steps (settles (run_steps hurried new_coordinator)) (run_steps hurried new_coordinator))
    × ((run_steps
          (settles (run_steps hurried new_coordinator))
          (run_steps hurried new_coordinator)).live
        ≡ some (run_steps hurried new_coordinator).latest)
unfolding coordinate
run_steps-settles_example = run_steps-settles hurried hurried-IsNamed refl refl

run_steps-descends_example : descends (run_steps settled new_coordinator).spawned ≡ true
run_steps-descends_example = run_steps-descends settled

-- Two events at once, a pause, one more, and the end of the watch.
abbrev polls : List (Poll ℕ)
polls = received 7 ∷ received 8 ∷ nothing ∷ nothing ∷ received 9 ∷ closed ∷ received 10 ∷ []

polls-rows : rows (forward (target_at 1) (λ (n : ℕ). n) polls new_forwarder).sent ≡ 7 ∷ 8 ∷ 9 ∷ []
unfolding on_poll
polls-rows = refl

forward_lem_example :
    (rows (forward (target_at 1) (λ (n : ℕ). n) polls new_forwarder).sent
        ++ held (forward (target_at 1) (λ (n : ℕ). n) polls new_forwarder).gathered
      ≡ events (target_at 1) (λ (n : ℕ). n) false polls)
    × All
        (IsBounded (target_at 1) (λ (n : ℕ). n))
        (forward (target_at 1) (λ (n : ℕ). n) polls new_forwarder).sent
forward_lem_example =
    forward_lem (target_at 1) (λ n. n) polls (tt, (tt, (tt, (tt, (tt, (tt, (tt, tt)))))))
