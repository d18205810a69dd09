-- ===== src/Focus/Ordering.antt =====
-- cmd/kubetin/main.go, `watchCoordinator`: the order in which watchers are started.
use kubetin.Common.{
  ℕ, zero, suc, ◌≤◌, ◌≡◌, refl, ap, Bool, true, false, not, ◌&&◌, ◌||◌, List, [], ◌∷◌, leb, ltb,
  arith, if-case,
}
use kubetin.Focus.Coordinator.{
  FocusTarget, same_target, has_context, Timer, stopped, armed, fired, LoopPlace, selecting,
  requested, finished, Coordinator, new_coordinator, switch_to, wake, apply_target, take_latest,
  on_debounce, Step, switches, wakes, expires, takes_token, reads_latest, takes_timer, ends, expire,
  take_token, read_latest, take_timer, end_loop, coordinate, run_steps,
}
use kubetin.Focus.Settled.{same_target_eq}

abbrev pub is_empty : List FocusTarget → Bool
is_empty [] = true
is_empty (t ∷ ts) = false

-- Every target has a generation below `n`.
abbrev pub below : ℕ → List FocusTarget → Bool
below n [] = true
below n (t ∷ ts) = ltb t.generation n && below n ts

-- Each target's generation is above those of all that follow it.
abbrev pub descends : List FocusTarget → Bool
descends [] = true
descends (t ∷ ts) = below t.generation ts && descends ts

below_raise : (m n : ℕ) (ts : List FocusTarget) → m ≤ n → below m ts ≡ true → below n ts ≡ true
below_raise m n [] h b = refl
below_raise m n (t ∷ ts) h b = ground (arith, below_raise m n ts)

below_nil : (n : ℕ) (ts : List FocusTarget) → is_empty ts ≡ true → below n ts ≡ true
below_nil n [] h = refl
below_nil n (t ∷ ts) h = cc

-- Before the first request nothing is spawned. What is spawned is no newer than the newest request, and
-- older while that request is not active or a target is pending.
pub record IsOrdered (c : Coordinator) : Type 0 where
  pub unasked : (c.has_request || (is_empty c.spawned && not (has_context c.latest))) ≡ true
  pub known : below (suc c.latest.generation) c.spawned ≡ true
  pub fresh : (same_target c.latest c.active || below c.latest.generation c.spawned) ≡ true
  pub ahead : (not (has_context c.pending) || below c.latest.generation c.spawned) ≡ true
  pub falling : descends c.spawned ≡ true

-- A request that is accepted is newer than all that is spawned.
newer :
    (t : FocusTarget) (c : Coordinator)
    → IsOrdered c
    → (c.has_request && leb t.generation c.latest.generation) ≡ false
    → below t.generation c.spawned ≡ true
newer t c inv h = ground (
  arith,
  inv.unasked,
  inv.known,
  below_nil t.generation c.spawned,
  below_raise (suc c.latest.generation) t.generation c.spawned,
)

switch_to-IsOrdered : (t : FocusTarget) (c : Coordinator) → IsOrdered c → IsOrdered (switch_to t c)
unfolding switch_to
switch_to-IsOrdered t c inv =
    if-case IsOrdered (c.has_request && leb t.generation c.latest.generation) (λ _. inv)
      (λ h.
        let above : below t.generation c.spawned ≡ true = newer t c inv h in
        record {
          unasked = refl;
          known = below_raise t.generation (suc t.generation) c.spawned (omega arith) above;
          fresh = ground arith;
          ahead = ground arith;
          falling = inv.falling;
        })

wake-IsOrdered : (n : ℕ) (c : Coordinator) → IsOrdered c → IsOrdered (wake n c)
unfolding wake
wake-IsOrdered zero c inv = inv
wake-IsOrdered (suc n) c inv = record {
  unasked = inv.unasked;
  known = inv.known;
  fresh = inv.fresh;
  ahead = inv.ahead;
  falling = inv.falling;
}

take_latest-IsOrdered : (c : Coordinator) → IsOrdered c → IsOrdered (take_latest c)
unfolding take_latest
take_latest-IsOrdered c inv =
    if-case IsOrdered (same_target c.latest c.active)
      (λ h. record {
        unasked = inv.unasked;
        known = inv.known;
        fresh = inv.fresh;
        ahead = refl;
        falling = inv.falling;
      })
      (λ h. record {
        unasked = inv.unasked;
        known = inv.known;
        fresh = inv.fresh;
        ahead = ground (arith, inv.fresh);
        falling = inv.falling;
      })

on_debounce-IsOrdered : (c : Coordinator) → IsOrdered c → IsOrdered (on_debounce c)
unfolding on_debounce apply_target
on_debounce-IsOrdered c inv =
    if-case IsOrdered (not (has_context c.pending))
      (λ h. record {
        unasked = inv.unasked;
        known = inv.known;
        fresh = inv.fresh;
        ahead = inv.ahead;
        falling = inv.falling;
      })
      (λ h.
        if-case IsOrdered (not (same_target c.latest c.pending))
          (λ g. record {
            unasked = inv.unasked;
            known = inv.known;
            fresh = inv.fresh;
            ahead = ground (arith, inv.ahead);
            falling = inv.falling;
          })
          (λ g.
            let equal : c.latest ≡ c.pending = same_target_eq c.latest c.pending (ground arith) in
            let same : c.latest.generation ≡ c.pending.generation = ap (λ t. t.generation) equal in
            let named : has_context c.latest ≡ has_context c.pending = ap has_context equal in
            let above : below c.pending.generation c.spawned ≡ true =
              rw (← same) (ground (arith, inv.ahead)) in
            record {
              unasked = ground (arith, inv.unasked);
              known = ground (arith, inv.known);
              fresh = ground arith;
              ahead = refl;
              falling = ground (arith, inv.falling);
            }))

expire-IsOrdered : (t : Timer) (c : Coordinator) → IsOrdered c → IsOrdered (expire t c)
unfolding expire
expire-IsOrdered stopped c inv = inv
expire-IsOrdered fired c inv = inv
expire-IsOrdered armed c inv = record {
  unasked = inv.unasked;
  known = inv.known;
  fresh = inv.fresh;
  ahead = inv.ahead;
  falling = inv.falling;
}

take_token-IsOrdered :
    (p : LoopPlace) (b : Bool) (c : Coordinator) → IsOrdered c → IsOrdered (take_token p b c)
unfolding take_token
take_token-IsOrdered selecting true c inv = record {
  unasked = inv.unasked;
  known = inv.known;
  fresh = inv.fresh;
  ahead = inv.ahead;
  falling = inv.falling;
}
take_token-IsOrdered selecting false c inv = inv
take_token-IsOrdered requested b c inv = inv
take_token-IsOrdered finished b c inv = inv

read_latest-IsOrdered :
    (p : LoopPlace) (c : Coordinator) → IsOrdered c → IsOrdered (read_latest p c)
unfolding read_latest
read_latest-IsOrdered requested c inv = take_latest-IsOrdered c inv
read_latest-IsOrdered selecting c inv = inv
read_latest-IsOrdered finished c inv = inv

take_timer-IsOrdered :
    (p : LoopPlace) (t : Timer) (c : Coordinator) → IsOrdered c → IsOrdered (take_timer p t c)
unfolding take_timer
take_timer-IsOrdered selecting fired c inv = on_debounce-IsOrdered c inv
take_timer-IsOrdered selecting armed c inv = inv
take_timer-IsOrdered selecting stopped c inv = inv
take_timer-IsOrdered requested t c inv = inv
take_timer-IsOrdered finished t c inv = inv

end_loop-IsOrdered : (p : LoopPlace) (c : Coordinator) → IsOrdered c → IsOrdered (end_loop p c)
unfolding end_loop
end_loop-IsOrdered selecting c inv = record {
  unasked = inv.unasked;
  known = inv.known;
  fresh = inv.fresh;
  ahead = inv.ahead;
  falling = inv.falling;
}
end_loop-IsOrdered requested c inv = inv
end_loop-IsOrdered finished c inv = inv

coordinate-IsOrdered : (s : Step) (c : Coordinator) → IsOrdered c → IsOrdered (coordinate s c)
unfolding coordinate
coordinate-IsOrdered (switches t) c inv = switch_to-IsOrdered t c inv
coordinate-IsOrdered wakes c inv = wake-IsOrdered c.waking c inv
coordinate-IsOrdered expires c inv = expire-IsOrdered c.timer c inv
coordinate-IsOrdered takes_token c inv = take_token-IsOrdered c.loop_place c.token c inv
coordinate-IsOrdered reads_latest c inv = read_latest-IsOrdered c.loop_place c inv
coordinate-IsOrdered takes_timer c inv = take_timer-IsOrdered c.loop_place c.timer c inv
coordinate-IsOrdered ends c inv = end_loop-IsOrdered c.loop_place c inv

run_steps-IsOrdered : (ss : List Step) (c : Coordinator) → IsOrdered c → IsOrdered (run_steps ss c)
run_steps-IsOrdered [] c inv = inv
run_steps-IsOrdered (s ∷ ss) c inv =
    run_steps-IsOrdered ss (coordinate s c) (coordinate-IsOrdered s c inv)

new_coordinator-IsOrdered : IsOrdered new_coordinator
new_coordinator-IsOrdered = record {
  unasked = refl;
  known = refl;
  fresh = refl;
  ahead = refl;
  falling = refl;
}

-- Whatever requests came in whatever order and whatever the timer and the loop did, each target that
-- watchers were started for has a higher generation than every one before it, so none is started twice
-- and no older focus follows a newer one.
pub run_steps-descends : (ss : List Step) → descends (run_steps ss new_coordinator).spawned ≡ true
run_steps-descends ss = (run_steps-IsOrdered ss new_coordinator new_coordinator-IsOrdered).falling
