-- ===== src/Probe/Scope/Sticky.antt =====
-- internal/cluster/probe.go, `ResolveScope`: what holds over any steps.
use kubetin.Common.{ℕ, ◌≡◌, refl, sym, ap, ◌∙◌, String, Option, none, some, List, [], ◌∷◌}
use kubetin.Probe.Scope.{
  ListAnswer, CallPhase, absent, looking, asking, storing, deleting, closing, closed, looked,
  Caller, entering, missed, waiting, Scopes, new_scopes, look_up, join, wake_caller, work, Event,
  looks, joins, wakes, leaves, works, act, resolve_step, resolve_run,
}
use kubetin.Probe.Scope.Flight.{is_asking, IsSingleIn, resolve_step-IsSingle}

pub none-some : (v : String) → none ≡ some v → ⊥
none-some v h = cc

module _ (s : Scopes) (v : String) (e : s.cached ≡ some v) where
  looked_kept : (c : ℕ) (w : String) (o : Option String) → (looked c w o s).cached ≡ some v
  looked_kept c w none = e
  looked_kept c w (some x) = e

  work_kept :
      (hint w : String) (c : ℕ) (a : ListAnswer) (p : CallPhase)
      → IsSingleIn s
      → (s.calls c).phase ≡ p
      → (work hint c a w p s).cached ≡ some v
  unfolding work
  work_kept hint w c a absent inv h = e
  work_kept hint w c a looking inv h = looked_kept c w s.cached
  work_kept hint w c a asking inv h = e
  work_kept hint w c a storing inv h =
      absurd (none-some v (sym (inv.undecided c (ap is_asking h)) ∙ e))
  work_kept hint w c a deleting inv h = e
  work_kept hint w c a closing inv h = e
  work_kept hint w c a closed inv h = e

  look_up_kept : (i : ℕ) (o : Option String) → (look_up i o s).cached ≡ some v
  unfolding look_up
  look_up_kept i none = e
  look_up_kept i (some w) = e

  join_kept : (i : ℕ) (o : Option ℕ) → (join i o s).cached ≡ some v
  unfolding join
  join_kept i none = e
  join_kept i (some c) = e

  wake_caller_kept : (i : ℕ) (w : String) (p : CallPhase) → (wake_caller i w p s).cached ≡ some v
  unfolding wake_caller
  wake_caller_kept i w closed = e
  wake_caller_kept i w _ = e

  act_kept : (hint : String) (ev : Event) (i : ℕ) (p : Caller) → (act hint ev i p s).cached ≡ some v
  unfolding act
  act_kept hint (looks j) i entering = look_up_kept i s.cached
  act_kept hint (joins j) i missed = join_kept i s.current
  act_kept hint (wakes j) i (waiting d) = wake_caller_kept i (s.calls d).ns (s.calls d).phase
  act_kept hint (leaves j) i missed = e
  act_kept hint (leaves j) i (waiting d) = e
  act_kept hint _ i _ = e

  resolve_step_kept :
      (hint : String) (ev : Event) → IsSingleIn s → (resolve_step hint ev s).cached ≡ some v
  unfolding resolve_step
  resolve_step_kept hint (works c a) inv =
      work_kept hint (s.calls c).ns c a (s.calls c).phase inv refl
  resolve_step_kept hint (looks i) inv = act_kept hint (looks i) i (s.callers i)
  resolve_step_kept hint (joins i) inv = act_kept hint (joins i) i (s.callers i)
  resolve_step_kept hint (wakes i) inv = act_kept hint (wakes i) i (s.callers i)
  resolve_step_kept hint (leaves i) inv = act_kept hint (leaves i) i (s.callers i)

pub new_scopes-IsSingle : IsSingleIn new_scopes
new_scopes-IsSingle = record { only = λ c h. absurd cc; undecided = λ c h. absurd cc }

run_from-IsSingle :
    (hint : String) (es : List Event) (s : Scopes)
    → IsSingleIn s
    → IsSingleIn (resolve_run hint es s)
unfolding resolve_step
run_from-IsSingle hint [] s inv = inv
run_from-IsSingle hint (e ∷ es) s inv =
    run_from-IsSingle hint es (resolve_step hint e s) (resolve_step-IsSingle hint e s inv)

run_from_kept :
    (hint v : String) (es : List Event) (s : Scopes)
    → IsSingleIn s
    → s.cached ≡ some v
    → (resolve_run hint es s).cached ≡ some v
unfolding resolve_step
run_from_kept hint v [] s inv h = h
run_from_kept hint v (e ∷ es) s inv h =
    run_from_kept hint v es (resolve_step hint e s) (resolve_step-IsSingle hint e s inv)
      (resolve_step_kept s v h hint e inv)

-- After any steps of callers and goroutines, every call that is not deleted is the one in the map, so
-- there is one at most; and no call has a request or an answer to store once a scope is decided.
pub resolve_run-IsSingle :
    (hint : String) (es : List Event) → IsSingleIn (resolve_run hint es new_scopes)
resolve_run-IsSingle hint es = run_from-IsSingle hint es new_scopes new_scopes-IsSingle

-- A scope that is decided after some steps stays the same whatever steps follow.
pub resolve_run_sticky :
    (hint v : String) (es fs : List Event)
    → (resolve_run hint es new_scopes).cached ≡ some v
    → (resolve_run hint fs (resolve_run hint es new_scopes)).cached ≡ some v
resolve_run_sticky hint v es fs h =
    run_from_kept hint v fs (resolve_run hint es new_scopes) (resolve_run-IsSingle hint es) h
