-- ===== src/Probe/Scope/Examples.antt =====
-- internal/cluster/probe.go: two callers share a check, and a third comes late.
use kubetin.Common.{◌≡◌, ◌⊎◌, String, refl, some, List, [], ◌∷◌}
use kubetin.Probe.Scope.{
  allowed, denied, unclear, resolve_scope_now, look_up, join, wake_caller, work, act, Event, looks,
  joins, wakes, leaves, works, new_scopes, resolve_step, resolve_run, returned,
}
use kubetin.Probe.Scope.Returned.{IsScope, resolve_run_agrees}
use kubetin.Probe.Scope.Sticky.{resolve_run_sticky}

-- Caller 3 missed the cache before the answer and joins behind the deletion of the call.
abbrev shared : List Event
shared =
    looks 1
    ∷ joins 1
    ∷ looks 2
    ∷ looks 3
    ∷ works 0 unclear
    ∷ joins 2
    ∷ works 0 denied
    ∷ works 0 unclear
    ∷ works 0 unclear
    ∷ works 0 unclear
    ∷ wakes 1
    ∷ leaves 2
    ∷ []

abbrev late : List Event
late = joins 3 ∷ works 1 allowed ∷ works 1 allowed ∷ works 1 allowed ∷ wakes 3 ∷ []

late_agrees :
    (resolve_run "dev" late (resolve_run "dev" shared new_scopes)).callers 3 ≡ returned "dev"
unfolding resolve_step act look_up join wake_caller work resolve_scope_now
late_agrees = refl

decided : (resolve_run "dev" shared new_scopes).cached ≡ some "dev"
unfolding resolve_step act look_up join wake_caller work resolve_scope_now
decided = refl

resolve_run_sticky_example :
    (resolve_run "dev" late (resolve_run "dev" shared new_scopes)).cached ≡ some "dev"
resolve_run_sticky_example = resolve_run_sticky "dev" "dev" shared late decided

abbrev dev : String
dev = "dev"

abbrev everywhere : String
everywhere = ""

-- The list is allowed, and caller 2 does not wait for it.
abbrev split : List Event
split =
    looks 1
    ∷ joins 1
    ∷ looks 2
    ∷ works 0 allowed
    ∷ joins 2
    ∷ works 0 allowed
    ∷ leaves 2
    ∷ works 0 allowed
    ∷ works 0 allowed
    ∷ works 0 allowed
    ∷ wakes 1
    ∷ []

resolve_run_agrees_example :
    IsScope dev (resolve_run dev split new_scopes).cached everywhere
    × IsScope dev (resolve_run dev split new_scopes).cached dev
    × ((everywhere ≡ dev) ⊎ (dev ≡ dev) ⊎ (everywhere ≡ dev))
unfolding resolve_step act look_up join wake_caller work resolve_scope_now
resolve_run_agrees_example = resolve_run_agrees dev split 1 2 everywhere dev refl refl
