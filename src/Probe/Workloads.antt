-- ===== src/Probe/Workloads.antt =====
-- internal/cluster/probe.go: `probeNonGreenPods`, `probeDeployHealth`, `probeWarnEvents`;
-- internal/cluster/fleetdetail.go: `runningPodNotReady`.
--
-- A call gives its list, its error, or the end of the context before either. A ratio of replicas is
-- the exact fraction in place of the `float64` quotient, which tells fractions below 2^26 apart.
use Prim.Native.String.{◌++◌ as join}
use kubetin.Common.{
  ℕ, suc, ◌+◌, ◌-◌, ◌*◌, String, Bool, true, not, ◌||◌, Option, none, some, List, [], ◌∷◌, ◌++◌,
  map, length, take, ltb, leb, ◌==◌, if◌then◌else◌,
}
use kubetin.Common.Sort.{sort}
use kubetin.Common.Text.{text_ltb, decimal}
use kubetin.Probe.Errors.{ApiError, is_timeout}
use kubetin.Probe.Nodes.{ListAnswer, listed, list_failed, abandoned, health_name_cap}

pub data SignalOutcome : Type 0 where
  signal_unknown signal_ok signal_timeout : SignalOutcome

unfoldable pub health_err_outcome : ApiError → SignalOutcome
unfolding is_timeout
health_err_outcome e = if is_timeout e then signal_timeout else signal_unknown

pub data PodPhase : Type 0 where
  pending failed running succeeded : PodPhase
  other_phase : String → PodPhase

pub record PodCondition : Type 0 where
  pub is_ready_type : Bool
  pub is_true : Bool

pub record ProbedPod : Type 0 where
  pub phase : PodPhase
  pub conditions : List PodCondition

unfoldable pub running_pod_not_ready : List PodCondition → Bool
running_pod_not_ready [] = true
running_pod_not_ready (c ∷ cs) = if c.is_ready_type then not c.is_true else running_pod_not_ready cs

pub record PodPhaseSignal : Type 0 where
  pub outcome : SignalOutcome
  pub pending : ℕ
  pub failed : ℕ
  pub unknown : ℕ
  pub not_ready : ℕ

abbrev pub pod_signal : SignalOutcome → PodPhaseSignal
pod_signal o = record { outcome = o; pending = 0; failed = 0; unknown = 0; not_ready = 0 }

unfoldable pub note_pod : PodPhase → List PodCondition → PodPhaseSignal → PodPhaseSignal
unfolding running_pod_not_ready
note_pod pending cs sig = record sig { pending = sig.pending + 1 }
note_pod failed cs sig = record sig { failed = sig.failed + 1 }
note_pod running cs sig =
    if running_pod_not_ready cs then record sig { not_ready = sig.not_ready + 1 } else sig
note_pod succeeded cs sig = sig
note_pod (other_phase p) cs sig = record sig { unknown = sig.unknown + 1 }

unfoldable pub note_pods : List ProbedPod → PodPhaseSignal → PodPhaseSignal
unfolding note_pod
note_pods [] sig = sig
note_pods (p ∷ ps) sig = note_pods ps (note_pod p.phase p.conditions sig)

-- One page; `continues` tells that `Continue` is not empty.
pub record Page : Type 0 where
  pub items : List ProbedPod
  pub continues : Bool

-- The pages that the server gives within the deadline; where they end, the context ends.
unfoldable pub probe_pods_from : List (ListAnswer Page) → PodPhaseSignal → PodPhaseSignal
unfolding note_pods health_err_outcome
probe_pods_from [] sig = pod_signal signal_timeout
probe_pods_from (abandoned e ∷ answers) sig = pod_signal signal_timeout
probe_pods_from (list_failed e ∷ answers) sig = pod_signal (health_err_outcome e)
probe_pods_from (listed page ∷ answers) sig =
    let sig' = note_pods page.items sig in
    let onward = probe_pods_from answers sig' in if page.continues then onward else sig'

unfoldable pub probe_non_green_pods : List (ListAnswer Page) → PodPhaseSignal
unfolding probe_pods_from
probe_non_green_pods answers = probe_pods_from answers (pod_signal signal_ok)

-- `replicas` is `Spec.Replicas`, absent for the default of 1.
pub record Deployment : Type 0 where
  pub namespace : String
  pub name : String
  pub replicas : Option ℕ
  pub ready_replicas : ℕ

abbrev pub desired_of : Option ℕ → ℕ
desired_of none = 1
desired_of (some n) = n

abbrev pub desired : Deployment → ℕ
desired d = desired_of d.replicas

-- The test of the loop's `continue`, negated.
unfoldable pub is_degraded : Deployment → Bool
is_degraded d = not (desired d == 0 || leb (desired d) d.ready_replicas)

unfoldable pub label : Deployment → String
label d = join d.namespace (
    join "/"
      (join d.name (join " " (join (decimal d.ready_replicas) (join "/" (decimal (desired d)))))))

-- The order of `worst`: by ratio, then by label.
unfoldable pub is_worse : Deployment → Deployment → Bool
is_worse a b =
    if not (a.ready_replicas * desired b == b.ready_replicas * desired a)
    then ltb (a.ready_replicas * desired b) (b.ready_replicas * desired a)
    else text_ltb (label a) (label b)

pub record DeploySignal : Type 0 where
  pub outcome : SignalOutcome
  pub total : ℕ
  pub degraded : ℕ
  pub zero_ready : ℕ
  pub names : List String

abbrev pub deploy_signal : SignalOutcome → DeploySignal
deploy_signal o = record { outcome = o; total = 0; degraded = 0; zero_ready = 0; names = [] }

-- The loop's counters, and `worst`.
unfoldable pub note_deployments :
    List Deployment → DeploySignal → List Deployment → DeploySignal × List Deployment
unfolding is_degraded
note_deployments [] sig worst = (sig, worst)
note_deployments (d ∷ ds) sig worst =
    let counted = record sig {
      degraded = sig.degraded + 1;
      zero_ready = if d.ready_replicas == 0 then sig.zero_ready + 1 else sig.zero_ready;
    } in
    note_deployments ds (if not (is_degraded d) then sig else counted)
      (if not (is_degraded d) then worst else worst ++ d ∷ [])

unfoldable pub summarise_deployments : List Deployment → DeploySignal
unfolding note_deployments is_worse
summarise_deployments ds =
    let (sig, worst) =
      note_deployments ds (record (deploy_signal signal_ok) { total = length ds }) [] in
    record sig { names = map label (take health_name_cap (sort is_worse worst)) }

unfoldable pub probe_deploy_health : ListAnswer (List Deployment) → DeploySignal
unfolding summarise_deployments health_err_outcome
probe_deploy_health (abandoned e) = deploy_signal signal_timeout
probe_deploy_health (list_failed e) = deploy_signal (health_err_outcome e)
probe_deploy_health (listed ds) = summarise_deployments ds

-- Times in nanoseconds; the zero time is 0.
pub record WarnEvent : Type 0 where
  pub last_timestamp : ℕ
  pub event_time : ℕ
  pub creation_timestamp : ℕ

abbrev pub warn_event_window : ℕ
warn_event_window = 900000000000

unfoldable pub last_seen : WarnEvent → ℕ
last_seen e =
    let created = if e.event_time == 0 then e.creation_timestamp else e.event_time in
    if e.last_timestamp == 0 then created else e.last_timestamp

unfoldable pub count_recent : ℕ → List WarnEvent → ℕ
unfolding last_seen
count_recent cutoff [] = 0
count_recent cutoff (e ∷ es) =
    let rest = count_recent cutoff es in if ltb cutoff (last_seen e) then suc rest else rest

pub record EventSignal : Type 0 where
  pub outcome : SignalOutcome
  pub warn_15m : ℕ

unfoldable pub probe_warn_events : ℕ → ListAnswer (List WarnEvent) → EventSignal
unfolding count_recent health_err_outcome
probe_warn_events now (abandoned e) = record { outcome = signal_timeout; warn_15m = 0 }
probe_warn_events now (list_failed e) = record { outcome = health_err_outcome e; warn_15m = 0 }
probe_warn_events now (listed es) = record {
  outcome = signal_ok;
  warn_15m = count_recent (now - warn_event_window) es;
}
