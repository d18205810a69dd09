-- ===== src/Focus/Settling.antt =====
-- cmd/kubetin/main.go, `watchCoordinator`: the loop comes to rest with the newest request.
use kubetin.Common.{
  ℕ, zero, suc, ◌≡◌, refl, ap, ◌∙◌, true, false, some, List, [], ◌∷◌, ◌++◌, All, All-append,
}
use kubetin.Focus.Coordinator.{
  selecting, Coordinator, new_coordinator, Step, expires, takes_token, reads_latest, takes_timer,
  expire, take_token, read_latest, take_timer, coordinate, run_steps,
}
use kubetin.Focus.Settled.{
  IsNamed, IsQuiet, IsSteady, run_steps-IsSteady, new_coordinator-IsSteady, live_latest,
  is_finished,
}
use kubetin.Focus.Phases.{
  is_armed, all_wake, rests, IsInner, run_steps-AsksSame, all_wake_sends, read_latest_selects,
  take_token_clears, expire-IsCalm, expire_runs_out, is_near, expire_near, take_timer_takes,
  take_timer_stops, IsCalm,
}

first_time_out :
    (c : Coordinator)
    → IsCalm c
    → IsCalm (run_steps (expires ∷ takes_timer ∷ []) c)
      × (is_near (run_steps (expires ∷ takes_timer ∷ []) c) ≡ true)
unfolding coordinate
first_time_out c h =
    let e : Coordinator = expire c.timer c in
    let calm : IsCalm e = expire-IsCalm c.timer c h in
    rw calm.up (take_timer_takes e.timer e refl (expire_runs_out c.timer c refl) calm)

second_time_out :
    (c : Coordinator)
    → IsCalm c
    → is_near c ≡ true
    → IsQuiet (run_steps (expires ∷ takes_timer ∷ []) c)
unfolding coordinate
second_time_out c h near =
    let e : Coordinator = expire c.timer c in
    let calm : IsCalm e = expire-IsCalm c.timer c h in
    let out : is_armed e.timer ≡ false = expire_runs_out c.timer c refl in
    let done : IsCalm (take_timer selecting e.timer e) =
      (take_timer_takes e.timer e refl out calm).0 in
    rw calm.up (
      done.sent,
      done.idle,
      done.up,
      take_timer_stops e.timer e refl out (expire_near c.timer c refl near),
    )

taken_up :
    (c : Coordinator)
    → c.waking ≡ 0
    → is_finished c.loop_place ≡ false
    → IsCalm (run_steps (reads_latest ∷ takes_token ∷ reads_latest ∷ []) c)
unfolding coordinate
taken_up c sent going =
    let r : Coordinator = read_latest c.loop_place c in
    let (up, kept, _) = read_latest_selects c.loop_place c refl going in
    let t : Coordinator = take_token r.loop_place r.token r in
    let (place, left, idle) = take_token_clears r.loop_place r.token r refl refl up in
    let (back, still, none_left) = read_latest_selects t.loop_place t refl place in
    record { sent = still ∙ left ∙ kept ∙ sent; idle = none_left ∙ idle; up = back }

rests-IsQuiet :
    (c : Coordinator)
    → c.waking ≡ 0
    → is_finished c.loop_place ≡ false
    → IsQuiet (run_steps rests c)
rests-IsQuiet c sent going =
    let b : Coordinator = run_steps (reads_latest ∷ takes_token ∷ reads_latest ∷ []) c in
    let (calm, near) = first_time_out b (taken_up c sent going) in
    second_time_out (run_steps (expires ∷ takes_timer ∷ []) b) calm near

-- The steps that bring a state to rest.
abbrev pub settles : Coordinator → List Step
settles c = all_wake c.waking ++ rests

run_steps-append :
    (ss us : List Step) (c : Coordinator) → run_steps (ss ++ us) c ≡ run_steps us (run_steps ss c)
run_steps-append [] us c = refl
run_steps-append (s ∷ ss) us c = run_steps-append ss us (coordinate s c)

settles-IsQuiet :
    (c : Coordinator) → is_finished c.loop_place ≡ false → IsQuiet (run_steps (settles c) c)
settles-IsQuiet c going =
    let (sent, place) = all_wake_sends c.waking c refl in
    rw (run_steps-append (all_wake c.waking) rests c)
      (rests-IsQuiet (run_steps (all_wake c.waking) c) sent (ap is_finished place ∙ going))

all_wake-IsInner : (n : ℕ) → All IsInner (all_wake n)
all_wake-IsInner zero = tt
all_wake-IsInner (suc n) = (tt, all_wake-IsInner n)

all_wake-IsNamed : (n : ℕ) → All IsNamed (all_wake n)
all_wake-IsNamed zero = tt
all_wake-IsNamed (suc n) = (tt, all_wake-IsNamed n)

settles-IsInner : (c : Coordinator) → All IsInner (settles c)
settles-IsInner c =
    All-append IsInner (all_wake c.waking) rests (all_wake-IsInner c.waking)
      (tt, (tt, (tt, (tt, (tt, (tt, (tt, tt)))))))

settles-IsNamed : (c : Coordinator) → All IsNamed (settles c)
settles-IsNamed c =
    All-append IsNamed (all_wake c.waking) rests (all_wake-IsNamed c.waking)
      (tt, (tt, (tt, (tt, (tt, (tt, (tt, tt)))))))

-- Whatever requests came in whatever order, with a context named in each and at least one made: while
-- the loop runs, the sends that are due, one pass over the token and two runs of the timer bring it to
-- rest, and then the watchers that run are those of the newest request.
pub run_steps-settles :
    (ss : List Step)
    → All IsNamed ss
    → is_finished (run_steps ss new_coordinator).loop_place ≡ false
    → (run_steps ss new_coordinator).has_request ≡ true
    → IsQuiet (run_steps (settles (run_steps ss new_coordinator)) (run_steps ss new_coordinator))
      × ((run_steps (settles (run_steps ss new_coordinator)) (run_steps ss new_coordinator)).live
          ≡ some (run_steps ss new_coordinator).latest)
run_steps-settles ss h going asked =
    let c : Coordinator = run_steps ss new_coordinator in
    let d : Coordinator = run_steps (settles c) c in
    let (newest, had) = run_steps-AsksSame (settles c) c (settles-IsInner c) in
    let steady : IsSteady d =
      run_steps-IsSteady (settles c) c (settles-IsNamed c)
        (run_steps-IsSteady ss new_coordinator h new_coordinator-IsSteady) in
    let quiet : IsQuiet d = settles-IsQuiet c going in
    (quiet, live_latest d steady quiet (had ∙ asked) ∙ ap some newest)
