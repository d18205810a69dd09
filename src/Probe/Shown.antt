-- ===== src/Probe/Shown.antt =====
-- internal/cluster/probe.go: what the store shows after rounds of `probeOnce`.
use text.Mathlib.TextPositions.{eq_refl}
use kubetin.Common.{
  ◌≡◌, ◌⊎◌, inl, inr, refl, sym, ap, ◌∙◌, String, Bool, true, not, ◌&&◌, ◌||◌, Option, none, some,
  List, [], ◌∷◌, str_eq, if◌then◌else◌, Bool-cases, arith, Option-cases, eq_iff,
}
use kubetin.State.Defs.{
  Reach, unknown, healthy, degraded, ProbeFields, MetricsFields, ClusterState, Store, get,
  apply_probe, apply_metrics, or_zero, with_probe, with_metrics, new_probe_fields,
}
use kubetin.Probe.Hysteresis.{ReachAccumulator, update_reach, same_reach}
use kubetin.Probe.Round.{Round, version, probe_round, probe_pod_summary, carry_health}
use kubetin.Probe.Verdict.{probe_round-reach, is_late, is_error}
use kubetin.Probe.Nodes.{probe_nodes}
use kubetin.Probe.Stalled.{IsStalled, LearnsNothing, probe_round-Carries}
use kubetin.Probe.Supervisor.{
  Supervisor, ContextSource, source_for, with_source, accumulator, commit, probe_once,
  start_context,
}

-- The slot of a context, and Go's zero value for one that is not there.
abbrev pub slot : String → Supervisor → ClusterState
slot ctx s = or_zero (get ctx s.store)

-- The store shows what the accumulators do.
abbrev pub InStep : Supervisor → Type 0
InStep s = (ctx : String) → (slot ctx s).reach ≡ (accumulator ctx s).visible

get-apply_probe :
    (ctx c : String) (p : ProbeFields) (st : Store)
    → or_zero (get c (apply_probe ctx p st))
      ≡ (if str_eq ctx c then with_probe ctx p (or_zero (get ctx st)) else or_zero (get c st))
unfolding get apply_probe
get-apply_probe ctx c p st = ground arith

reach-apply_metrics :
    (ctx c : String) (mf : MetricsFields) (st : Store)
    → (or_zero (get c (apply_metrics ctx mf st))).reach ≡ (or_zero (get c st)).reach
unfolding get apply_metrics with_metrics
reach-apply_metrics ctx c mf st = elim (Option-cases (st ctx)) [
  | inl e ↦ rw (e, apply_metrics) refl
  | inr (x, e) ↦
      rw (e, apply_metrics)
        (elim (Bool-cases (str_eq ctx c)) [
          | inl h ↦ let same = sym e ∙ ap st ((eq_iff ctx c).0 h) in rw (h, ← same) refl
          | inr h ↦ rw (h) refl
        ])
]

commit-InStep :
    (ctx : String) (pf : ProbeFields) (seen : Reach) (s : Supervisor)
    → InStep s
    → InStep (commit ctx pf seen s)
unfolding commit accumulator
commit-InStep ctx pf seen s h c =
    let a = update_reach seen (accumulator ctx s) in
    let pf' = record (with_source (source_for ctx s) pf) { reach = a.visible } in
    rw (get-apply_probe ctx c pf' s.store) (elim (Bool-cases (str_eq ctx c)) [
      | inl e ↦ rw (e) (unfold with_probe in refl)
      | inr e ↦ rw (e) (h c)
    ])

-- What happens behind the start: a round of a context's probe loop, or a write of its metrics loop.
pub data Event : Type 0 where
  probes : String → Round → Event
  measures : String → MetricsFields → Event

unfoldable pub do_event : Event → Supervisor → Supervisor
do_event (probes ctx r) s = probe_once ctx r s
do_event (measures ctx mf) s = record s { store = apply_metrics ctx mf s.store }

unfoldable pub run_events : List Event → Supervisor → Supervisor
run_events [] s = s
run_events (e ∷ es) s = run_events es (do_event e s)

-- The loop of `Run` that shows every context before its first probe.
unfoldable pub start_all : List String → Supervisor → Supervisor
start_all [] s = s
start_all (ctx ∷ cs) s = start_all cs (start_context ctx s)

-- Nothing was probed yet.
abbrev pub IsFresh : Supervisor → Type 0
IsFresh s = (ctx : String) → ((slot ctx s).reach ≡ unknown) × (s.hysteresis ctx ≡ none)

start_context-IsFresh : (ctx : String) (s : Supervisor) → IsFresh s → IsFresh (start_context ctx s)
unfolding start_context
start_context-IsFresh ctx s h c =
    let pf = with_source (source_for ctx s) (record new_probe_fields { reach = unknown }) in
    (
      rw (get-apply_probe ctx c pf s.store) (elim (Bool-cases (str_eq ctx c)) [
        | inl e ↦ rw (e) (unfold with_probe in reach_with_source (source_for ctx s))
        | inr e ↦ rw (e) (h c).0
      ]),
      (h c).1,
    )
  where
    reach_with_source :
        (o : Option ContextSource)
        → (with_source o (record new_probe_fields { reach = unknown })).reach ≡ unknown
    reach_with_source none = refl
    reach_with_source (some src) = refl

start_all-IsFresh : (cs : List String) (s : Supervisor) → IsFresh s → IsFresh (start_all cs s)
unfolding start_all
start_all-IsFresh [] s h = h
start_all-IsFresh (ctx ∷ cs) s h =
    start_all-IsFresh cs (start_context ctx s) (start_context-IsFresh ctx s h)

IsFresh-InStep : (s : Supervisor) → IsFresh s → InStep s
unfolding accumulator
IsFresh-InStep s h c = rw ((h c).1) (h c).0

do_event-InStep : (e : Event) (s : Supervisor) → InStep s → InStep (do_event e s)
unfolding do_event probe_once accumulator
do_event-InStep (probes ctx r) s h =
    let p = probe_round r (slot ctx s) in commit-InStep ctx p.0 p.1 s h
do_event-InStep (measures ctx mf) s h = λ c. reach-apply_metrics ctx c mf s.store ∙ h c

run_events-InStep : (es : List Event) (s : Supervisor) → InStep s → InStep (run_events es s)
unfolding run_events
run_events-InStep [] s h = h
run_events-InStep (e ∷ es) s h = run_events-InStep es (do_event e s) (do_event-InStep e s h)

-- From a fresh supervisor, after the start and any rounds and metrics writes of any contexts in any
-- order, the store shows for every context the reach of that context's accumulator.
pub run_events-shown :
    (cs : List String) (es : List Event) (s : Supervisor)
    → IsFresh s
    → InStep (run_events es (start_all cs s))
run_events-shown cs es s h =
    run_events-InStep es (start_all cs s)
      (IsFresh-InStep (start_all cs s) (start_all-IsFresh cs s h))

slot-commit :
    (ctx : String) (pf : ProbeFields) (seen : Reach) (s : Supervisor)
    → slot ctx (commit ctx pf seen s)
      ≡ with_probe ctx
          (record (with_source (source_for ctx s) pf) {
            reach = (update_reach seen (accumulator ctx s)).visible;
          })
          (slot ctx s)
unfolding commit
slot-commit ctx pf seen s =
    let pf' = record (with_source (source_for ctx s) pf) {
      reach = (update_reach seen (accumulator ctx s)).visible;
    } in
    rw (get-apply_probe ctx ctx pf' s.store, eq_refl ctx) refl

-- Two states agree on the nodes that are not ready, under pressure or cordoned, on the pods, on the
-- deployments, and on the warning events.
pub record SameHealth (st prev : ClusterState) : Type 0 where
  pub same_nodes_not_ready_names : st.nodes_not_ready_names ≡ prev.nodes_not_ready_names
  pub same_nodes_mem_pressure : st.nodes_mem_pressure ≡ prev.nodes_mem_pressure
  pub same_nodes_disk_pressure : st.nodes_disk_pressure ≡ prev.nodes_disk_pressure
  pub same_nodes_pid_pressure : st.nodes_pid_pressure ≡ prev.nodes_pid_pressure
  pub same_nodes_cordoned : st.nodes_cordoned ≡ prev.nodes_cordoned
  pub same_nodes_cordoned_ready : st.nodes_cordoned_ready ≡ prev.nodes_cordoned_ready
  pub same_nodes_pressure_names : st.nodes_pressure_names ≡ prev.nodes_pressure_names
  pub same_pods_total : st.pods_total ≡ prev.pods_total
  pub same_pods_pending : st.pods_pending ≡ prev.pods_pending
  pub same_pods_failed : st.pods_failed ≡ prev.pods_failed
  pub same_pods_unknown_phase : st.pods_unknown_phase ≡ prev.pods_unknown_phase
  pub same_pods_not_ready : st.pods_not_ready ≡ prev.pods_not_ready
  pub same_deploys_total : st.deploys_total ≡ prev.deploys_total
  pub same_deploys_degraded : st.deploys_degraded ≡ prev.deploys_degraded
  pub same_deploys_zero_ready : st.deploys_zero_ready ≡ prev.deploys_zero_ready
  pub same_degraded_deploy_names : st.degraded_deploy_names ≡ prev.degraded_deploy_names
  pub same_warn_events_15m : st.warn_events_15m ≡ prev.warn_events_15m

with_source-Carries :
    (prev : ClusterState) (ctx : String) (o : Option ContextSource) (pf : ProbeFields)
    (seen : Reach)
    → carry_health prev pf ≡ pf
    → SameHealth (with_probe ctx (record (with_source o pf) { reach = seen }) prev) prev
unfolding carry_health with_probe
with_source-Carries prev ctx none pf seen h = record {
  same_nodes_not_ready_names = sym (ap (λ (q : ProbeFields). q.nodes_not_ready_names) h);
  same_nodes_mem_pressure = sym (ap (λ (q : ProbeFields). q.nodes_mem_pressure) h);
  same_nodes_disk_pressure = sym (ap (λ (q : ProbeFields). q.nodes_disk_pressure) h);
  same_nodes_pid_pressure = sym (ap (λ (q : ProbeFields). q.nodes_pid_pressure) h);
  same_nodes_cordoned = sym (ap (λ (q : ProbeFields). q.nodes_cordoned) h);
  same_nodes_cordoned_ready = sym (ap (λ (q : ProbeFields). q.nodes_cordoned_ready) h);
  same_nodes_pressure_names = sym (ap (λ (q : ProbeFields). q.nodes_pressure_names) h);
  same_pods_total = sym (ap (λ (q : ProbeFields). q.pods_total) h);
  same_pods_pending = sym (ap (λ (q : ProbeFields). q.pods_pending) h);
  same_pods_failed = sym (ap (λ (q : ProbeFields). q.pods_failed) h);
  same_pods_unknown_phase = sym (ap (λ (q : ProbeFields). q.pods_unknown_phase) h);
  same_pods_not_ready = sym (ap (λ (q : ProbeFields). q.pods_not_ready) h);
  same_deploys_total = sym (ap (λ (q : ProbeFields). q.deploys_total) h);
  same_deploys_degraded = sym (ap (λ (q : ProbeFields). q.deploys_degraded) h);
  same_deploys_zero_ready = sym (ap (λ (q : ProbeFields). q.deploys_zero_ready) h);
  same_degraded_deploy_names = sym (ap (λ (q : ProbeFields). q.degraded_deploy_names) h);
  same_warn_events_15m = sym (ap (λ (q : ProbeFields). q.warn_events_15m) h);
}
with_source-Carries prev ctx (some src) pf seen h = record {
  same_nodes_not_ready_names = sym (ap (λ (q : ProbeFields). q.nodes_not_ready_names) h);
  same_nodes_mem_pressure = sym (ap (λ (q : ProbeFields). q.nodes_mem_pressure) h);
  same_nodes_disk_pressure = sym (ap (λ (q : ProbeFields). q.nodes_disk_pressure) h);
  same_nodes_pid_pressure = sym (ap (λ (q : ProbeFields). q.nodes_pid_pressure) h);
  same_nodes_cordoned = sym (ap (λ (q : ProbeFields). q.nodes_cordoned) h);
  same_nodes_cordoned_ready = sym (ap (λ (q : ProbeFields). q.nodes_cordoned_ready) h);
  same_nodes_pressure_names = sym (ap (λ (q : ProbeFields). q.nodes_pressure_names) h);
  same_pods_total = sym (ap (λ (q : ProbeFields). q.pods_total) h);
  same_pods_pending = sym (ap (λ (q : ProbeFields). q.pods_pending) h);
  same_pods_failed = sym (ap (λ (q : ProbeFields). q.pods_failed) h);
  same_pods_unknown_phase = sym (ap (λ (q : ProbeFields). q.pods_unknown_phase) h);
  same_pods_not_ready = sym (ap (λ (q : ProbeFields). q.pods_not_ready) h);
  same_deploys_total = sym (ap (λ (q : ProbeFields). q.deploys_total) h);
  same_deploys_degraded = sym (ap (λ (q : ProbeFields). q.deploys_degraded) h);
  same_deploys_zero_ready = sym (ap (λ (q : ProbeFields). q.deploys_zero_ready) h);
  same_degraded_deploy_names = sym (ap (λ (q : ProbeFields). q.degraded_deploy_names) h);
  same_warn_events_15m = sym (ap (λ (q : ProbeFields). q.warn_events_15m) h);
}

-- A round that learns nothing of a context's health leaves all that the store shows of it as it was: the
-- nodes not ready, under pressure and cordoned with their names, the pods by phase, the deployments
-- below desired with their names, and the warning events.
pub probe_once-SameHealth :
    (ctx : String) (r : Round) (s : Supervisor)
    → LearnsNothing r
    → SameHealth (slot ctx (probe_once ctx r s)) (slot ctx s)
unfolding probe_once
probe_once-SameHealth ctx r s h =
    let p = probe_round r (slot ctx s) in
    rw (slot-commit ctx p.0 p.1 s) (
      with_source-Carries (slot ctx s) ctx (source_for ctx s) p.0 _
        (probe_round-Carries r (slot ctx s) h))

stalled_case :
    (wide late bad access error was : Bool)
    → wide ≡ true
    → late ≡ true
    → access ≡ true
    → (if (wide && (not late && bad))
          || (error && not access)
          || (was && ((wide && late) || access))
        then degraded
        else healthy)
      ≡ (if was then degraded else healthy)
stalled_case wide late bad access error was a b c = ground arith

update_reach_shown :
    (seen : Reach) (a : ReachAccumulator) → seen ≡ a.visible → (update_reach seen a).visible ≡ seen
unfolding update_reach
update_reach_shown seen a h = ground arith

stalled_reach :
    (r : Round) (prev : ClusterState) (v : String)
    → r.config_error ≡ none
    → r.client_error ≡ none
    → r.version_answer ≡ version v
    → IsStalled r
    → (probe_round r prev).1 ≡ (if same_reach prev.reach degraded then degraded else healthy)
stalled_reach r prev v a b c k =
    probe_round-reach r prev v a b c
    ∙ stalled_case (str_eq r.scope "") (is_late (probe_nodes r.nodes).1)
        (same_reach (probe_nodes r.nodes).0.reach degraded)
        (is_late (probe_pod_summary r.pod_page).1) (is_error (probe_pod_summary r.pod_page).1)
        (same_reach prev.reach degraded) k.cluster_wide k.nodes k.access

-- Where the store shows a context healthy or degraded, in step with its accumulator, a round whose
-- calls behind `/version` all time out leaves the reach that it shows as it was.
pub probe_once_stalled :
    (ctx : String) (r : Round) (s : Supervisor) (v : String)
    → InStep s
    → ((slot ctx s).reach ≡ healthy) ⊎ ((slot ctx s).reach ≡ degraded)
    → r.config_error ≡ none
    → r.client_error ≡ none
    → r.version_answer ≡ version v
    → IsStalled r
    → (slot ctx (probe_once ctx r s)).reach ≡ (slot ctx s).reach
unfolding probe_once
probe_once_stalled ctx r s v h reach a b c k =
    let prev = slot ctx s in
    let p = probe_round r prev in
    let same : p.1 ≡ prev.reach =
      stalled_reach r prev v a b c k ∙ elim reach [ inl e ↦ rw (e) refl | inr e ↦ rw (e) refl ] in
    rw (slot-commit ctx p.0 p.1 s)
      (unfold with_probe in (update_reach_shown p.1 (accumulator ctx s) (same ∙ h ctx) ∙ same))
