-- ===== src/Focus/Coordinator.antt =====
-- cmd/kubetin/main.go: `watchCoordinator` with `switchTo` and `loop`.
--
-- What happens under the lock is one step, and any steps of callers, the timer and the loop may follow
-- each other. `reqCh` has room for one token; the main program creates it so. A timer that was stopped
-- and drained before its reset is armed, whatever it was. Generations do not wrap.
use kubetin.Common.{
  ℕ, zero, suc, ◌+◌, String, Bool, true, false, not, ◌&&◌, Option, none, some, List, [], ◌∷◌, leb,
  ◌==◌, str_eq, if◌then◌else◌,
}

pub record FocusTarget : Type 0 where
  pub context : String
  pub generation : ℕ

-- `FocusTarget{}`
abbrev pub no_target : FocusTarget
no_target = record { context = ""; generation = 0 }

abbrev pub same_target : FocusTarget → FocusTarget → Bool
same_target a b = str_eq a.context b.context && (a.generation == b.generation)

abbrev pub has_context : FocusTarget → Bool
has_context t = not (str_eq t.context "")

pub data Timer : Type 0 where
  stopped armed fired : Timer

-- Where the loop is: at its select, behind a token of `reqCh`, or returned.
pub data LoopPlace : Type 0 where
  selecting requested finished : LoopPlace

-- `waking` counts the callers that have left the lock and not yet sent their token. `spawned` are the targets that watchers were started for, the last one first, and `live` is the one
-- whose watchers are not cancelled.
pub record Coordinator : Type 0 where
  pub latest : FocusTarget
  pub has_request : Bool
  pub waking : ℕ
  pub token : Bool
  pub pending : FocusTarget
  pub active : FocusTarget
  pub timer : Timer
  pub loop_place : LoopPlace
  pub spawned : List FocusTarget
  pub live : Option FocusTarget

abbrev pub new_coordinator : Coordinator
new_coordinator = record {
  latest = no_target;
  has_request = false;
  waking = 0;
  token = false;
  pending = no_target;
  active = no_target;
  timer = stopped;
  loop_place = selecting;
  spawned = [];
  live = none;
}

unfoldable pub switch_to : FocusTarget → Coordinator → Coordinator
switch_to t c =
    if c.has_request && leb t.generation c.latest.generation
    then c
    else record c { latest = t; has_request = true; waking = 1 + c.waking }

-- The send that never blocks.
unfoldable pub wake : ℕ → Coordinator → Coordinator
wake zero c = c
wake (suc n) c = record c { waking = n; token = true }

-- `apply`
unfoldable pub apply_target : FocusTarget → Coordinator → Coordinator
apply_target t c = record c { active = t; live = some t; spawned = t ∷ c.spawned }

-- Behind the token: the newest request becomes the pending one.
unfoldable pub take_latest : Coordinator → Coordinator
take_latest c =
    if same_target c.latest c.active
    then record c { pending = no_target; loop_place = selecting }
    else record c { pending = c.latest; timer = armed; loop_place = selecting }

-- Behind the timer's channel.
unfoldable pub on_debounce : Coordinator → Coordinator
unfolding apply_target
on_debounce c =
    if not (has_context c.pending)
    then record c { timer = stopped }
    else if not (same_target c.latest c.pending)
    then record c { pending = c.latest; timer = armed }
    else apply_target c.pending (record c { pending = no_target; timer = stopped })

-- A caller sends its token, the timer runs out; the loop takes a token, reads the newest request, takes the timer's value, or
-- ends with its context or by `stop`.
pub data Step : Type 0 where
  switches : FocusTarget → Step
  wakes expires takes_token reads_latest takes_timer ends : Step

unfoldable pub expire : Timer → Coordinator → Coordinator
expire armed c = record c { timer = fired }
expire stopped c = c
expire fired c = c

unfoldable pub take_token : LoopPlace → Bool → Coordinator → Coordinator
take_token selecting true c = record c { token = false; loop_place = requested }
take_token _ _ c = c

unfoldable pub read_latest : LoopPlace → Coordinator → Coordinator
unfolding take_latest
read_latest requested c = take_latest c
read_latest selecting c = c
read_latest finished c = c

unfoldable pub take_timer : LoopPlace → Timer → Coordinator → Coordinator
unfolding on_debounce
take_timer selecting fired c = on_debounce c
take_timer _ _ c = c

-- Both ways to return cancel the watchers.
unfoldable pub end_loop : LoopPlace → Coordinator → Coordinator
end_loop selecting c = record c { loop_place = finished; live = none }
end_loop requested c = c
end_loop finished c = c

unfoldable pub coordinate : Step → Coordinator → Coordinator
unfolding switch_to wake expire take_token read_latest take_timer end_loop
coordinate (switches t) c = switch_to t c
coordinate wakes c = wake c.waking c
coordinate expires c = expire c.timer c
coordinate takes_token c = take_token c.loop_place c.token c
coordinate reads_latest c = read_latest c.loop_place c
coordinate takes_timer c = take_timer c.loop_place c.timer c
coordinate ends c = end_loop c.loop_place c

abbrev pub run_steps : List Step → Coordinator → Coordinator
run_steps [] c = c
run_steps (s ∷ ss) c = run_steps ss (coordinate s c)
