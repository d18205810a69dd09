-- ===== src/Logs/Ends.antt =====
-- internal/cluster/logstream.go, `runStream`: how it ends.
use kubetin.Common.{ℕ, suc, ◌+◌, ◌-◌, ◌≤◌, ◌≡◌, refl, false, List, [], ◌∷◌, ◌++◌, if◌then◌else◌}
use kubetin.Logs.Run.{
  Sending, eos, Round, RunState, Outcome, running, ended, cancelled, read_round, run_round,
  run_rounds, if_taken, close_stream,
}

-- How many rounds without a new line are left at most.
abbrev pub patience : RunState → ℕ
patience s = (5 - s.consec) + (if s.finishing then 0 else 6)

abbrev IsBelow : ℕ → Outcome → Type 0
IsBelow n (running s) = suc (patience s) ≤ n
IsBelow n ended = Unit
IsBelow n cancelled = Unit

abbrev pub Told : Type 0
Told = List Sending × Outcome

-- A round that brings no new line.
abbrev pub IsQuiet : Round → RunState → Type 0
IsQuiet r s = (read_round r s).1 ≡ false

-- No round brings a new line, as long as the loop goes on.
abbrev pub AllQuiet : List Round → RunState → Type 0
AllQuiet [] s = Unit
AllQuiet (r ∷ rs) s =
    IsQuiet r s
    × elim (run_round r s).1 [ running s' ↦ AllQuiet rs s' | ended ↦ Unit | cancelled ↦ Unit ]

abbrev pub IsOver : Outcome → Type 0
IsOver (running s) = ⊥
IsOver ended = Unit
IsOver cancelled = Unit

-- What `run_rounds` makes of a round's outcome.
abbrev pub follow : Round → List Round → List Sending → Outcome → Told
follow r rs out (running s') = (out ++ (run_rounds rs s').0, (run_rounds rs s').1)
follow r rs out ended = close_stream r out
follow r rs out cancelled = (out ++ if_taken r.takes_last eos, cancelled)

follow_lem :
    (r : Round) (rs : List Round) (out : List Sending) (o : Outcome)
    → elim o as (λ _. Told) [
      | running s' ↦ (out ++ (run_rounds rs s').0, (run_rounds rs s').1)
      | ended ↦ close_stream r out
      | cancelled ↦ (out ++ if_taken r.takes_last eos, cancelled)
    ]
      ≡ follow r rs out o
follow_lem r rs out (running s') = refl
follow_lem r rs out ended = refl
follow_lem r rs out cancelled = refl

pub run_rounds_step :
    (r : Round) (rs : List Round) (s : RunState)
    → run_rounds (r ∷ rs) s ≡ follow r rs (run_round r s).0 (run_round r s).1
unfolding run_rounds
run_rounds_step r rs s = follow_lem r rs (run_round r s).0 (run_round r s).1

abbrev QuietAfter : List Round → Outcome → Type 0
QuietAfter rs o = elim o [ running s' ↦ AllQuiet rs s' | ended ↦ Unit | cancelled ↦ Unit ]
