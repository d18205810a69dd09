-- ===== src/Probe/Round.antt =====
-- internal/cluster/probe.go: `probeOnce` up to its `commit`, `probePodSummary`, `carryHealth`.
--
-- A round is what the calls of one `probeOnce` answer, each with its own deadline. The scope is the
-- one that `ResolveScope` gives; a duration and an instant are numbers of nanoseconds.
use Prim.Native.String.{◌++◌ as join}
use kubetin.Common.{
  ℕ, ◌+◌, String, Bool, false, ◌||◌, Option, none, some, List, str_eq, if◌then◌else◌,
}
use kubetin.Common.Int.{ℤ, pos, negsuc}
use kubetin.Common.Text.{decimal}
use kubetin.State.Defs.{
  Reach, healthy, degraded, unreachable, auth_failed, ProbeFields, new_probe_fields, ClusterState,
}
use kubetin.Probe.Hysteresis.{same_reach}
use kubetin.Probe.Errors.{ApiError, is_denied, is_timeout, classify, trim_error}
use kubetin.Probe.Nodes.{
  Node, NodeProbeResult, ListAnswer, listed, list_failed, abandoned, ProbeError, raw, list_denied,
  probe_nodes,
}
use kubetin.Probe.Workloads.{
  SignalOutcome, signal_ok, signal_unknown, signal_timeout, Page, PodPhaseSignal,
  probe_non_green_pods, Deployment, DeploySignal, probe_deploy_health, WarnEvent, EventSignal,
  probe_warn_events,
}

pub data VersionAnswer : Type 0 where
  version : String → VersionAnswer
  version_failed : ApiError → VersionAnswer

-- The one page of `probePodSummary`.
pub record PodPage : Type 0 where
  pub items : ℕ
  pub continues : Bool
  pub remaining : Option ℕ

pub record Round : Type 0 where
  pub now : ℕ
  pub config_error : Option String
  pub client_error : Option String
  pub version_answer : VersionAnswer
  pub latency : ℕ
  pub scope : String
  pub nodes : ListAnswer (List Node)
  pub pods : List (ListAnswer Page)
  pub deployments : ListAnswer (List Deployment)
  pub events : ListAnswer (List WarnEvent)
  pub events_now : ℕ
  pub pod_page : ListAnswer PodPage

abbrev pub error_text : ProbeError → String
error_text (raw e) = e.text
error_text (list_denied s) = s

-- `isTimeout`; a denial does not wrap the error that it was made of.
abbrev pub probe_timeout : ProbeError → Bool
probe_timeout (raw e) = is_timeout e
probe_timeout (list_denied s) = false

abbrev total_pods : PodPage → Option ℕ → ℤ
total_pods p (some more) = pos (p.items + more)
total_pods p none = if p.continues then negsuc 0 else pos p.items

unfoldable pub probe_pod_summary : ListAnswer PodPage → ℤ × Option ProbeError
probe_pod_summary (abandoned e) = (negsuc 0, some (raw e))
probe_pod_summary (list_failed e) =
    if is_denied e
    then (negsuc 0, some (list_denied "rbac: list pods denied"))
    else (negsuc 0, some (raw e))
probe_pod_summary (listed p) = (total_pods p p.remaining, none)

unfoldable pub carry_health : ClusterState → ProbeFields → ProbeFields
carry_health prev pf = record pf {
  nodes_not_ready_names = prev.nodes_not_ready_names;
  nodes_mem_pressure = prev.nodes_mem_pressure;
  nodes_disk_pressure = prev.nodes_disk_pressure;
  nodes_pid_pressure = prev.nodes_pid_pressure;
  nodes_cordoned = prev.nodes_cordoned;
  nodes_cordoned_ready = prev.nodes_cordoned_ready;
  nodes_pressure_names = prev.nodes_pressure_names;
  pods_total = prev.pods_total;
  pods_pending = prev.pods_pending;
  pods_failed = prev.pods_failed;
  pods_unknown_phase = prev.pods_unknown_phase;
  pods_not_ready = prev.pods_not_ready;
  deploys_total = prev.deploys_total;
  deploys_degraded = prev.deploys_degraded;
  deploys_zero_ready = prev.deploys_zero_ready;
  degraded_deploy_names = prev.degraded_deploy_names;
  warn_events_15m = prev.warn_events_15m;
}

-- The node list timed out: the last known detail, and a reach that this does not change.
unfoldable pub carry_nodes : ClusterState → ProbeFields → ProbeFields
carry_nodes prev pf = record pf {
  node_count = if str_eq prev.server_version "" then negsuc 0 else prev.node_count;
  node_ready = prev.node_ready;
  alloc_cpu_milli = prev.alloc_cpu_milli;
  alloc_mem_bytes = prev.alloc_mem_bytes;
  nodes_not_ready_names = prev.nodes_not_ready_names;
  nodes_mem_pressure = prev.nodes_mem_pressure;
  nodes_disk_pressure = prev.nodes_disk_pressure;
  nodes_pid_pressure = prev.nodes_pid_pressure;
  nodes_cordoned = prev.nodes_cordoned;
  nodes_cordoned_ready = prev.nodes_cordoned_ready;
  nodes_pressure_names = prev.nodes_pressure_names;
  last_error = "node list timed out; showing last known";
}

abbrev pub reach_or_healthy : Reach → Reach
reach_or_healthy r = if same_reach r healthy || same_reach r degraded then r else healthy

unfoldable pub node_totals : NodeProbeResult → ProbeFields → ProbeFields
node_totals res pf = record pf {
  node_count = res.count;
  node_ready = pos res.ready_count;
  alloc_cpu_milli = pos res.alloc_cpu_milli;
  alloc_mem_bytes = pos res.alloc_mem_bytes;
}

abbrev nodes_text : NodeProbeResult → String
nodes_text res =
    join "nodes " (join (decimal res.ready_count) (join "/" (join (count_text res.count) " ready")))
  where
    count_text : ℤ → String
    count_text (pos n) = decimal n
    count_text (negsuc n) = join "-" (decimal (n + 1))

unfoldable pub node_health : NodeProbeResult → ProbeFields → ProbeFields
node_health res pf = record pf {
  nodes_not_ready_names = res.not_ready_names;
  nodes_mem_pressure = pos res.mem_pressure;
  nodes_disk_pressure = pos res.disk_pressure;
  nodes_pid_pressure = pos res.pid_pressure;
  nodes_cordoned = pos res.cordoned;
  nodes_cordoned_ready = pos res.cordoned_ready;
  nodes_pressure_names = res.pressure_names;
  last_error = if same_reach res.reach degraded then nodes_text res else pf.last_error;
}

-- The cluster-scoped flow, on the result of `probeNodes`; the reach is `res.Reach`.
unfoldable pub on_nodes :
    ClusterState → ProbeFields → NodeProbeResult × Option ProbeError → ProbeFields × Reach
unfolding carry_nodes node_totals node_health
on_nodes prev pf (res, none) = (node_health res (node_totals res pf), res.reach)
on_nodes prev pf (res, some e) =
    if probe_timeout e
    then (carry_nodes prev pf, reach_or_healthy prev.reach)
    else (node_totals res (record pf { last_error = trim_error (error_text e) }), res.reach)

-- Both flows: a scope that is not empty skips the nodes.
unfoldable pub check_nodes : Round → ClusterState → ProbeFields → ProbeFields × Reach
unfolding on_nodes
check_nodes r prev pf =
    if str_eq r.scope ""
    then on_nodes prev pf (probe_nodes r.nodes)
    else (record pf { node_count = negsuc 0 }, healthy)

abbrev pub on_pods : SignalOutcome → ClusterState → PodPhaseSignal → ProbeFields → ProbeFields
on_pods signal_ok prev sig pf = record pf {
  pods_pending = pos sig.pending;
  pods_failed = pos sig.failed;
  pods_unknown_phase = pos sig.unknown;
  pods_not_ready = pos sig.not_ready;
}
on_pods signal_timeout prev sig pf = record pf {
  pods_pending = prev.pods_pending;
  pods_failed = prev.pods_failed;
  pods_unknown_phase = prev.pods_unknown_phase;
  pods_not_ready = prev.pods_not_ready;
}
on_pods signal_unknown prev sig pf = pf

abbrev pub on_deploys : SignalOutcome → ClusterState → DeploySignal → ProbeFields → ProbeFields
on_deploys signal_ok prev sig pf = record pf {
  deploys_total = pos sig.total;
  deploys_degraded = pos sig.degraded;
  deploys_zero_ready = pos sig.zero_ready;
  degraded_deploy_names = sig.names;
}
on_deploys signal_timeout prev sig pf = record pf {
  deploys_total = prev.deploys_total;
  deploys_degraded = prev.deploys_degraded;
  deploys_zero_ready = prev.deploys_zero_ready;
  degraded_deploy_names = prev.degraded_deploy_names;
}
on_deploys signal_unknown prev sig pf = pf

abbrev pub on_events : SignalOutcome → ClusterState → EventSignal → ProbeFields → ProbeFields
on_events signal_ok prev sig pf = record pf { warn_events_15m = pos sig.warn_15m }
on_events signal_timeout prev sig pf = record pf { warn_events_15m = prev.warn_events_15m }
on_events signal_unknown prev sig pf = pf

-- `probeWorkloadHealth` and the three switches on its outcomes.
unfoldable pub check_workloads : Round → ClusterState → ProbeFields → ProbeFields
check_workloads r prev pf =
    let pods = probe_non_green_pods r.pods in
    let deploys = probe_deploy_health r.deployments in
    let events = probe_warn_events r.events_now r.events in
    on_events events.outcome prev events
      (on_deploys deploys.outcome prev deploys (on_pods pods.outcome prev pods pf))

abbrev pub keep_error : String → ProbeFields → ProbeFields
keep_error e pf = record pf { last_error = if str_eq pf.last_error "" then e else pf.last_error }

abbrev on_pod_error : ClusterState → Reach → ProbeFields → ProbeError → ProbeFields × Reach
on_pod_error prev reach pf e =
    if probe_timeout e
    then (
      record (keep_error "pod access check timed out" pf) { pods_total = prev.pods_total },
      (if same_reach prev.reach degraded then degraded else reach),
    )
    else (keep_error (trim_error (error_text e)) pf, degraded)

-- On the result of `probePodSummary`.
unfoldable pub on_pod_summary :
    ClusterState → Reach → ProbeFields → ℤ × Option ProbeError → ProbeFields × Reach
on_pod_summary prev reach pf (total, none) = (record pf { pods_total = total }, reach)
on_pod_summary prev reach pf (total, some e) = on_pod_error prev reach pf e

unfoldable pub check_pod_access : Round → ClusterState → ProbeFields × Reach → ProbeFields × Reach
unfolding on_pod_summary
check_pod_access r prev (pf, reach) =
    if same_reach reach healthy || same_reach reach degraded
    then on_pod_summary prev reach pf (probe_pod_summary r.pod_page)
    else (pf, reach)

unfoldable pub start_fields : Round → ProbeFields
start_fields r = record new_probe_fields { last_probe = r.now }

-- Behind an answer of `/version`.
unfoldable pub check_answering : Round → ClusterState → String → ProbeFields × Reach
unfolding check_nodes check_workloads check_pod_access start_fields
check_answering r prev v =
    let pf = record (start_fields r) { server_version = v; probe_latency = r.latency } in
    let (pf', reach) = check_nodes r prev pf in
    check_pod_access r prev (check_workloads r prev pf', reach)

abbrev abandon : Round → ClusterState → String → Reach → ProbeFields × Reach
abandon r prev e reach = (carry_health prev (record (start_fields r) { last_error = e }), reach)

unfoldable pub on_version : Round → ClusterState → VersionAnswer → ProbeFields × Reach
unfolding check_answering carry_health start_fields
on_version r prev (version_failed e) = abandon r prev (trim_error e.text) (classify e)
on_version r prev (version v) = check_answering r prev v

unfoldable pub on_client : Round → ClusterState → Option String → ProbeFields × Reach
unfolding on_version carry_health start_fields
on_client r prev (some e) = abandon r prev (join "client: " e) unreachable
on_client r prev none = on_version r prev r.version_answer

unfoldable pub on_config : Round → ClusterState → Option String → ProbeFields × Reach
unfolding on_client carry_health start_fields
on_config r prev (some e) = abandon r prev (join "kubeconfig: " e) auth_failed
on_config r prev none = on_client r prev r.client_error

-- The fields and the reach that a round commits.
unfoldable pub probe_round : Round → ClusterState → ProbeFields × Reach
unfolding on_config
probe_round r prev = on_config r prev r.config_error
