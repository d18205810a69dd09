-- ===== src/Focus/Phases.antt =====
-- cmd/kubetin/main.go, `watchCoordinator`: what a step of the loop, the timer or a send leaves.
use kubetin.Common.{
  ℕ, zero, suc, ◌≡◌, refl, ap, ◌∙◌, Bool, true, false, not, ◌||◌, List, [], ◌∷◌, All, arith,
  if-case,
}
use kubetin.Focus.Coordinator.{
  same_target, has_context, Timer, stopped, armed, fired, LoopPlace, selecting, requested, finished,
  Coordinator, wake, apply_target, take_latest, on_debounce, Step, switches, wakes, expires,
  takes_token, reads_latest, takes_timer, ends, expire, take_token, read_latest, take_timer,
  coordinate, run_steps,
}
use kubetin.Focus.Settled.{same_target_refl, is_finished, is_on}

abbrev pub is_armed : Timer → Bool
is_armed stopped = false
is_armed armed = true
is_armed fired = false

abbrev pub is_fired : Timer → Bool
is_fired stopped = false
is_fired armed = false
is_fired fired = true

-- Every caller has sent its token.
abbrev pub all_wake : ℕ → List Step
all_wake zero = []
all_wake (suc n) = wakes ∷ all_wake n

-- The loop takes up a token, and the timer runs out twice.
abbrev pub rests : List Step
rests =
    reads_latest ∷ takes_token ∷ reads_latest ∷ expires ∷ takes_timer ∷ expires ∷ takes_timer ∷ []

-- The loop has taken up every token.
pub record IsCalm (c : Coordinator) : Type 0 where
  pub sent : c.waking ≡ 0
  pub idle : c.token ≡ false
  pub up : c.loop_place ≡ selecting

-- The same request is the newest.
abbrev pub AsksSame : Coordinator → Coordinator → Type 0
AsksSame c d = (d.latest ≡ c.latest) × (d.has_request ≡ c.has_request)

pub wake-AsksSame : (n : ℕ) (c : Coordinator) → AsksSame c (wake n c)
unfolding wake
wake-AsksSame zero c = (refl, refl)
wake-AsksSame (suc n) c = (refl, refl)

pub read_latest-AsksSame : (p : LoopPlace) (c : Coordinator) → AsksSame c (read_latest p c)
unfolding read_latest take_latest
read_latest-AsksSame requested c =
    if-case (AsksSame c) (same_target c.latest c.active) (λ _. (refl, refl)) (λ _. (refl, refl))
read_latest-AsksSame selecting c = (refl, refl)
read_latest-AsksSame finished c = (refl, refl)

pub take_token-AsksSame :
    (p : LoopPlace) (b : Bool) (c : Coordinator) → AsksSame c (take_token p b c)
unfolding take_token
take_token-AsksSame selecting true c = (refl, refl)
take_token-AsksSame selecting false c = (refl, refl)
take_token-AsksSame requested b c = (refl, refl)
take_token-AsksSame finished b c = (refl, refl)

pub expire-AsksSame : (t : Timer) (c : Coordinator) → AsksSame c (expire t c)
unfolding expire
expire-AsksSame stopped c = (refl, refl)
expire-AsksSame armed c = (refl, refl)
expire-AsksSame fired c = (refl, refl)

pub on_debounce-AsksSame : (c : Coordinator) → AsksSame c (on_debounce c)
unfolding on_debounce apply_target
on_debounce-AsksSame c =
    if-case (AsksSame c) (not (has_context c.pending)) (λ _. (refl, refl))
      (λ _.
        if-case (AsksSame c) (not (same_target c.latest c.pending)) (λ _. (refl, refl))
          (λ _. (refl, refl)))

pub take_timer-AsksSame :
    (p : LoopPlace) (t : Timer) (c : Coordinator) → AsksSame c (take_timer p t c)
unfolding take_timer
take_timer-AsksSame selecting fired c = on_debounce-AsksSame c
take_timer-AsksSame selecting armed c = (refl, refl)
take_timer-AsksSame selecting stopped c = (refl, refl)
take_timer-AsksSame requested t c = (refl, refl)
take_timer-AsksSame finished t c = (refl, refl)

-- A step of the loop, the timer or a caller's send.
abbrev pub IsInner : Step → Type 0
IsInner (switches t) = ⊥
IsInner ends = ⊥
IsInner _ = Unit

pub coordinate-AsksSame : (s : Step) (c : Coordinator) → IsInner s → AsksSame c (coordinate s c)
unfolding coordinate
coordinate-AsksSame (switches t) c h = absurd h
coordinate-AsksSame wakes c h = wake-AsksSame c.waking c
coordinate-AsksSame expires c h = expire-AsksSame c.timer c
coordinate-AsksSame takes_token c h = take_token-AsksSame c.loop_place c.token c
coordinate-AsksSame reads_latest c h = read_latest-AsksSame c.loop_place c
coordinate-AsksSame takes_timer c h = take_timer-AsksSame c.loop_place c.timer c
coordinate-AsksSame ends c h = absurd h

pub run_steps-AsksSame :
    (ss : List Step) (c : Coordinator) → All IsInner ss → AsksSame c (run_steps ss c)
run_steps-AsksSame [] c h = (refl, refl)
run_steps-AsksSame (s ∷ ss) c (i, h) =
    let (a, b) = coordinate-AsksSame s c i in
    let (d, e) = run_steps-AsksSame ss (coordinate s c) h in (d ∙ a, e ∙ b)

pub all_wake_sends :
    (n : ℕ) (c : Coordinator)
    → c.waking ≡ n
    → ((run_steps (all_wake n) c).waking ≡ 0)
      × ((run_steps (all_wake n) c).loop_place ≡ c.loop_place)
unfolding coordinate wake
all_wake_sends zero c e = (e, refl)
all_wake_sends (suc n) c e = rw e (all_wake_sends n (record c { waking = n; token = true }) refl)

pub read_latest_selects :
    (p : LoopPlace) (c : Coordinator)
    → c.loop_place ≡ p
    → is_finished p ≡ false
    → ((read_latest p c).loop_place ≡ selecting)
      × ((read_latest p c).waking ≡ c.waking)
      × ((read_latest p c).token ≡ c.token)
unfolding read_latest take_latest
read_latest_selects selecting c e h = (e, refl, refl)
read_latest_selects finished c e h = cc
read_latest_selects requested c e h =
    if-case
      (λ (d : Coordinator).
        (d.loop_place ≡ selecting) × (d.waking ≡ c.waking) × (d.token ≡ c.token))
      (same_target c.latest c.active) (λ _. (refl, refl, refl)) (λ _. (refl, refl, refl))

pub take_token_clears :
    (p : LoopPlace) (b : Bool) (c : Coordinator)
    → c.loop_place ≡ p
    → c.token ≡ b
    → p ≡ selecting
    → (is_finished (take_token p b c).loop_place ≡ false)
      × ((take_token p b c).waking ≡ c.waking)
      × ((take_token p b c).token ≡ false)
unfolding take_token
take_token_clears selecting true c e t h = (refl, refl, refl)
take_token_clears selecting false c e t h = (ap is_finished e, refl, t)
take_token_clears requested b c e t h = cc
take_token_clears finished b c e t h = cc

pub expire-IsCalm : (t : Timer) (c : Coordinator) → IsCalm c → IsCalm (expire t c)
unfolding expire
expire-IsCalm stopped c h = h
expire-IsCalm fired c h = h
expire-IsCalm armed c h = record { sent = h.sent; idle = h.idle; up = h.up }

pub expire_runs_out :
    (t : Timer) (c : Coordinator) → c.timer ≡ t → is_armed (expire t c).timer ≡ false
unfolding expire
expire_runs_out stopped c e = ap is_armed e
expire_runs_out fired c e = ap is_armed e
expire_runs_out armed c e = refl

-- A timer runs only for the newest request.
abbrev pub is_near : Coordinator → Bool
is_near c = not (is_on c.timer) || same_target c.latest c.pending

pub expire_near :
    (t : Timer) (c : Coordinator) → c.timer ≡ t → is_near c ≡ true → is_near (expire t c) ≡ true
unfolding expire
expire_near stopped c e h = h
expire_near fired c e h = h
expire_near armed c e h = let on : is_on c.timer ≡ true = ap is_on e in ground arith

pub on_debounce-IsCalm : (c : Coordinator) → IsCalm c → IsCalm (on_debounce c)
unfolding on_debounce apply_target
on_debounce-IsCalm c h =
    if-case IsCalm (not (has_context c.pending))
      (λ _. record { sent = h.sent; idle = h.idle; up = h.up })
      (λ _.
        if-case IsCalm (not (same_target c.latest c.pending))
          (λ _. record { sent = h.sent; idle = h.idle; up = h.up })
          (λ _. record { sent = h.sent; idle = h.idle; up = h.up }))

pub on_debounce_near : (c : Coordinator) → is_near (on_debounce c) ≡ true
unfolding on_debounce apply_target
on_debounce_near c = ground (arith, same_target_refl c.latest)

pub on_debounce_stops :
    (c : Coordinator) → same_target c.latest c.pending ≡ true → (on_debounce c).timer ≡ stopped
unfolding on_debounce apply_target
on_debounce_stops c h = rw h (
    if-case (λ (d : Coordinator). d.timer ≡ stopped) (not (has_context c.pending)) (λ _. refl)
      (λ _. refl))

-- The timer's value is taken.
pub take_timer_takes :
    (t : Timer) (c : Coordinator)
    → c.timer ≡ t
    → is_armed t ≡ false
    → IsCalm c
    → IsCalm (take_timer selecting t c) × (is_near (take_timer selecting t c) ≡ true)
unfolding take_timer
take_timer_takes stopped c e r h = (h, rw e refl)
take_timer_takes armed c e r h = cc
take_timer_takes fired c e r h = (on_debounce-IsCalm c h, on_debounce_near c)

pub take_timer_stops :
    (t : Timer) (c : Coordinator)
    → c.timer ≡ t
    → is_armed t ≡ false
    → is_near c ≡ true
    → (take_timer selecting t c).timer ≡ stopped
unfolding take_timer
take_timer_stops stopped c e r h = e
take_timer_stops armed c e r h = cc
take_timer_stops fired c e r h =
    on_debounce_stops c (let on : is_on c.timer ≡ true = ap is_on e in ground arith)
