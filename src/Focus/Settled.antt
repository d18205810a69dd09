-- ===== src/Focus/Settled.antt =====
-- cmd/kubetin/main.go, `watchCoordinator`: no focus is lost, and none is taken up again.
use kubetin.Common.{
  ℕ, zero, suc, ◌≡◌, refl, sym, ap, ◌∙◌, Bool, true, false, not, ◌&&◌, ◌||◌, Option, none, some,
  List, [], ◌∷◌, All, leb, ◌==◌, arith, eq_iff, if-case,
}
use kubetin.Focus.Coordinator.{
  FocusTarget, no_target, same_target, has_context, Timer, stopped, armed, fired, LoopPlace,
  selecting, requested, finished, Coordinator, new_coordinator, switch_to, wake, apply_target,
  take_latest, on_debounce, Step, switches, wakes, expires, takes_token, reads_latest, takes_timer,
  ends, expire, take_token, read_latest, take_timer, end_loop, coordinate, run_steps,
}

abbrev pub is_on : Timer → Bool
is_on stopped = false
is_on armed = true
is_on fired = true

abbrev pub is_requested : LoopPlace → Bool
is_requested selecting = false
is_requested requested = true
is_requested finished = false

abbrev pub is_finished : LoopPlace → Bool
is_finished selecting = false
is_finished requested = false
is_finished finished = true

abbrev pub is_live : Option FocusTarget → FocusTarget → Bool
is_live none a = false
is_live (some t) a = same_target t a

pub same_target_eq : (a b : FocusTarget) → same_target a b ≡ true → a ≡ b
same_target_eq a b h = ground (arith, eq_iff a.context b.context)

pub same_target_refl : (a : FocusTarget) → same_target a a ≡ true
same_target_refl a = ground (arith, eq_iff a.context a.context)

both_none :
    (a b : FocusTarget)
    → same_target a no_target ≡ true
    → same_target b no_target ≡ true
    → same_target a b ≡ true
both_none a b h k =
    ground (arith, eq_iff a.context "", eq_iff b.context "", eq_iff a.context b.context)

-- A target with a context is no empty one.
not_none :
    (l p : FocusTarget)
    → same_target l p ≡ true
    → has_context p ≡ true
    → same_target l no_target ≡ false
not_none l p h k =
    ground (arith, eq_iff l.context p.context, eq_iff l.context "", eq_iff p.context "")

-- What holds between any two steps: a request that is not taken up has left a token, a read to come, or
-- a pending target and a timer.
pub record IsSteady (c : Coordinator) : Type 0 where
  pub not_lost :
      (same_target c.latest c.active
        || not (c.waking == 0)
        || c.token
        || is_requested c.loop_place
        || (has_context c.pending && is_on c.timer))
      ≡ true
  pub asked :
      (c.has_request || (same_target c.latest no_target && same_target c.active no_target)) ≡ true
  pub named : (not c.has_request || has_context c.latest) ≡ true
  pub watched :
      (not (has_context c.active) || is_finished c.loop_place || is_live c.live c.active) ≡ true

switch_to-IsSteady :
    (t : FocusTarget) (c : Coordinator)
    → has_context t ≡ true
    → IsSteady c
    → IsSteady (switch_to t c)
unfolding switch_to
switch_to-IsSteady t c h inv =
    if-case IsSteady (c.has_request && leb t.generation c.latest.generation) (λ _. inv)
      (λ _. record { not_lost = ground arith; asked = refl; named = h; watched = inv.watched })

wake-IsSteady : (n : ℕ) (c : Coordinator) → IsSteady c → IsSteady (wake n c)
unfolding wake
wake-IsSteady zero c inv = inv
wake-IsSteady (suc n) c inv = record {
  not_lost = ground arith;
  asked = inv.asked;
  named = inv.named;
  watched = inv.watched;
}

-- The newest request has a context, or is the active target.
latest_named :
    (c : Coordinator) → IsSteady c → (same_target c.latest c.active || has_context c.latest) ≡ true
latest_named c inv = ground (arith, inv.asked, inv.named, both_none c.latest c.active)

take_latest-IsSteady :
    (c : Coordinator) → IsSteady c → is_finished c.loop_place ≡ false → IsSteady (take_latest c)
unfolding take_latest
take_latest-IsSteady c inv up =
    if-case IsSteady (same_target c.latest c.active)
      (λ h. record {
        not_lost = ground arith;
        asked = inv.asked;
        named = inv.named;
        watched = ground (arith, inv.watched);
      })
      (λ h. record {
        not_lost = ground (arith, latest_named c inv);
        asked = inv.asked;
        named = inv.named;
        watched = ground (arith, inv.watched);
      })

on_debounce-IsSteady :
    (c : Coordinator) → IsSteady c → c.loop_place ≡ selecting → IsSteady (on_debounce c)
unfolding on_debounce apply_target
on_debounce-IsSteady c inv up =
    let place : is_requested c.loop_place ≡ false = ap is_requested up in
    if-case IsSteady (not (has_context c.pending))
      (λ h. record {
        not_lost = ground (arith, inv.not_lost);
        asked = inv.asked;
        named = inv.named;
        watched = inv.watched;
      })
      (λ h.
        if-case IsSteady (not (same_target c.latest c.pending))
          (λ g. record {
            not_lost = ground (arith, latest_named c inv);
            asked = inv.asked;
            named = inv.named;
            watched = inv.watched;
          })
          (λ g. record {
            not_lost = ground arith;
            asked = ground (arith, inv.asked, not_none c.latest c.pending);
            named = inv.named;
            watched = ground (arith, same_target_refl c.pending);
          }))

expire-IsSteady : (t : Timer) (c : Coordinator) → IsSteady c → c.timer ≡ t → IsSteady (expire t c)
unfolding expire
expire-IsSteady stopped c inv e = inv
expire-IsSteady fired c inv e = inv
expire-IsSteady armed c inv e =
    let on : is_on c.timer ≡ true = ap is_on e in
    record {
      not_lost = ground (arith, inv.not_lost);
      asked = inv.asked;
      named = inv.named;
      watched = inv.watched;
    }

take_token-IsSteady :
    (p : LoopPlace) (b : Bool) (c : Coordinator)
    → IsSteady c
    → c.loop_place ≡ p
    → IsSteady (take_token p b c)
unfolding take_token
take_token-IsSteady selecting true c inv e =
    let up : is_finished c.loop_place ≡ false = ap is_finished e in
    record {
      not_lost = ground arith;
      asked = inv.asked;
      named = inv.named;
      watched = ground (arith, inv.watched);
    }
take_token-IsSteady selecting false c inv e = inv
take_token-IsSteady requested b c inv e = inv
take_token-IsSteady finished b c inv e = inv

read_latest-IsSteady :
    (p : LoopPlace) (c : Coordinator) → IsSteady c → c.loop_place ≡ p → IsSteady (read_latest p c)
unfolding read_latest
read_latest-IsSteady requested c inv e = take_latest-IsSteady c inv (ap is_finished e)
read_latest-IsSteady selecting c inv e = inv
read_latest-IsSteady finished c inv e = inv

take_timer-IsSteady :
    (p : LoopPlace) (t : Timer) (c : Coordinator)
    → IsSteady c
    → c.loop_place ≡ p
    → IsSteady (take_timer p t c)
unfolding take_timer
take_timer-IsSteady selecting fired c inv e = on_debounce-IsSteady c inv e
take_timer-IsSteady selecting armed c inv e = inv
take_timer-IsSteady selecting stopped c inv e = inv
take_timer-IsSteady requested t c inv e = inv
take_timer-IsSteady finished t c inv e = inv

end_loop-IsSteady :
    (p : LoopPlace) (c : Coordinator) → IsSteady c → c.loop_place ≡ p → IsSteady (end_loop p c)
unfolding end_loop
end_loop-IsSteady selecting c inv e =
    let idle : is_requested c.loop_place ≡ false = ap is_requested e in
    record {
      not_lost = ground (arith, inv.not_lost);
      asked = inv.asked;
      named = inv.named;
      watched = ground arith;
    }
end_loop-IsSteady requested c inv e = inv
end_loop-IsSteady finished c inv e = inv

-- A request names a context.
abbrev pub IsNamed : Step → Type 0
IsNamed (switches t) = has_context t ≡ true
IsNamed _ = Unit

coordinate-IsSteady :
    (s : Step) (c : Coordinator) → IsNamed s → IsSteady c → IsSteady (coordinate s c)
unfolding coordinate
coordinate-IsSteady (switches t) c h inv = switch_to-IsSteady t c h inv
coordinate-IsSteady wakes c h inv = wake-IsSteady c.waking c inv
coordinate-IsSteady expires c h inv = expire-IsSteady c.timer c inv refl
coordinate-IsSteady takes_token c h inv = take_token-IsSteady c.loop_place c.token c inv refl
coordinate-IsSteady reads_latest c h inv = read_latest-IsSteady c.loop_place c inv refl
coordinate-IsSteady takes_timer c h inv = take_timer-IsSteady c.loop_place c.timer c inv refl
coordinate-IsSteady ends c h inv = end_loop-IsSteady c.loop_place c inv refl

pub run_steps-IsSteady :
    (ss : List Step) (c : Coordinator) → All IsNamed ss → IsSteady c → IsSteady (run_steps ss c)
run_steps-IsSteady [] c h inv = inv
run_steps-IsSteady (s ∷ ss) c (n, h) inv =
    run_steps-IsSteady ss (coordinate s c) h (coordinate-IsSteady s c n inv)

pub new_coordinator-IsSteady : IsSteady new_coordinator
new_coordinator-IsSteady = record { not_lost = refl; asked = refl; named = refl; watched = refl }

-- Nothing is left to do for the loop, which still runs.
abbrev pub IsQuiet : Coordinator → Type 0
IsQuiet c = (c.waking ≡ 0) × (c.token ≡ false) × (c.loop_place ≡ selecting) × (c.timer ≡ stopped)

is_live-some : (o : Option FocusTarget) (t : FocusTarget) → is_live o t ≡ true → o ≡ some t
is_live-some none t h = cc
is_live-some (some u) t h = ap some (same_target_eq u t h)

pub live_latest :
    (c : Coordinator) → IsSteady c → IsQuiet c → c.has_request ≡ true → c.live ≡ some c.latest
live_latest c inv (sent, idle, up, off) asked =
    let place : is_requested c.loop_place ≡ false = ap is_requested up in
    let going : is_finished c.loop_place ≡ false = ap is_finished up in
    let timer : is_on c.timer ≡ false = ap is_on off in
    let same : same_target c.latest c.active ≡ true = ground (arith, inv.not_lost) in
    let named : has_context c.latest ≡ true = ground (arith, inv.named) in
    let equal : c.latest ≡ c.active = same_target_eq c.latest c.active same in
    let active : has_context c.active ≡ true = ap has_context (sym equal) ∙ named in
    is_live-some c.live c.active (ground (arith, inv.watched)) ∙ ap some (sym equal)

-- Whatever requests came in whatever order, once the loop has nothing left to do, the watchers that run
-- are those of the newest request.
pub run_steps-live :
    (ss : List Step)
    → All IsNamed ss
    → IsQuiet (run_steps ss new_coordinator)
    → (run_steps ss new_coordinator).has_request ≡ true
    → (run_steps ss new_coordinator).live ≡ some (run_steps ss new_coordinator).latest
run_steps-live ss h q asked =
    live_latest (run_steps ss new_coordinator)
      (run_steps-IsSteady ss new_coordinator h new_coordinator-IsSteady) q asked
