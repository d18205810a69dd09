-- ===== src/State/Defs.antt =====
-- internal/model/state.go: the state of each cluster, and the store that two loops write.
--
-- A method that holds the store's mutex is a function of the map. Times and durations are numbers
-- of nanoseconds, a zero time is 0. A count of -1 is "not measured".
use kubetin.Common.{ℕ, String, Bool, Option, none, some, List, [], update}
use kubetin.Common.Int.{ℤ, pos, negsuc}

pub data Reach : Type 0 where
  unknown connecting healthy degraded unreachable auth_failed : Reach

abbrev pub to_string : Reach → String
to_string unknown = "unknown"
to_string connecting = "connecting"
to_string healthy = "healthy"
to_string degraded = "degraded"
to_string unreachable = "unreachable"
to_string auth_failed = "auth-failed"

abbrev pub glyph : Reach → String
glyph healthy = "●"
glyph connecting = "◐"
glyph degraded = "⚠"
glyph unreachable = "✕"
glyph auth_failed = "✕"
glyph unknown = "○"

-- The slots that the probe loop owns.
pub record ProbeFields : Type 0 where
  pub raw_name : String
  pub file : String
  pub reach : Reach
  pub server_version : String
  pub node_count : ℤ
  pub node_ready : ℤ
  pub last_error : String
  pub last_probe : ℕ
  pub probe_latency : ℕ
  pub alloc_cpu_milli : ℤ
  pub alloc_mem_bytes : ℤ
  pub nodes_not_ready_names : List String
  pub nodes_mem_pressure : ℤ
  pub nodes_disk_pressure : ℤ
  pub nodes_pid_pressure : ℤ
  pub nodes_cordoned : ℤ
  pub nodes_cordoned_ready : ℤ
  pub nodes_pressure_names : List String
  pub pods_total : ℤ
  pub pods_pending : ℤ
  pub pods_failed : ℤ
  pub pods_unknown_phase : ℤ
  pub pods_not_ready : ℤ
  pub deploys_total : ℤ
  pub deploys_degraded : ℤ
  pub deploys_zero_ready : ℤ
  pub degraded_deploy_names : List String
  pub warn_events_15m : ℤ

-- The slots that the metrics ticker owns.
pub record MetricsFields : Type 0 where
  pub usage_cpu_milli : ℤ
  pub usage_mem_bytes : ℤ
  pub metrics_available : Bool
  pub metrics_at : ℕ

pub record ClusterState : Type 0 where
  pub context : String
  pub raw_name : String
  pub file : String
  pub reach : Reach
  pub server_version : String
  pub node_count : ℤ
  pub node_ready : ℤ
  pub last_error : String
  pub last_probe : ℕ
  pub probe_latency : ℕ
  pub alloc_cpu_milli : ℤ
  pub alloc_mem_bytes : ℤ
  pub usage_cpu_milli : ℤ
  pub usage_mem_bytes : ℤ
  pub metrics_available : Bool
  pub metrics_at : ℕ
  pub nodes_not_ready_names : List String
  pub nodes_mem_pressure : ℤ
  pub nodes_disk_pressure : ℤ
  pub nodes_pid_pressure : ℤ
  pub nodes_cordoned : ℤ
  pub nodes_cordoned_ready : ℤ
  pub nodes_pressure_names : List String
  pub pods_total : ℤ
  pub pods_pending : ℤ
  pub pods_failed : ℤ
  pub pods_unknown_phase : ℤ
  pub pods_not_ready : ℤ
  pub deploys_total : ℤ
  pub deploys_degraded : ℤ
  pub deploys_zero_ready : ℤ
  pub degraded_deploy_names : List String
  pub warn_events_15m : ℤ

-- Go's zero value, which a missing key reads.
unfoldable pub zero_state : ClusterState
zero_state = record {
  context = "";
  raw_name = "";
  file = "";
  reach = unknown;
  server_version = "";
  node_count = pos 0;
  node_ready = pos 0;
  last_error = "";
  last_probe = 0;
  probe_latency = 0;
  alloc_cpu_milli = pos 0;
  alloc_mem_bytes = pos 0;
  usage_cpu_milli = pos 0;
  usage_mem_bytes = pos 0;
  metrics_available = Bool.false;
  metrics_at = 0;
  nodes_not_ready_names = [];
  nodes_mem_pressure = pos 0;
  nodes_disk_pressure = pos 0;
  nodes_pid_pressure = pos 0;
  nodes_cordoned = pos 0;
  nodes_cordoned_ready = pos 0;
  nodes_pressure_names = [];
  pods_total = pos 0;
  pods_pending = pos 0;
  pods_failed = pos 0;
  pods_unknown_phase = pos 0;
  pods_not_ready = pos 0;
  deploys_total = pos 0;
  deploys_degraded = pos 0;
  deploys_zero_ready = pos 0;
  degraded_deploy_names = [];
  warn_events_15m = pos 0;
}

-- Every health count starts as "not measured".
unfoldable pub new_probe_fields : ProbeFields
new_probe_fields = record {
  raw_name = "";
  file = "";
  reach = unknown;
  server_version = "";
  node_count = pos 0;
  node_ready = pos 0;
  last_error = "";
  last_probe = 0;
  probe_latency = 0;
  alloc_cpu_milli = pos 0;
  alloc_mem_bytes = pos 0;
  nodes_not_ready_names = [];
  nodes_mem_pressure = negsuc 0;
  nodes_disk_pressure = negsuc 0;
  nodes_pid_pressure = negsuc 0;
  nodes_cordoned = negsuc 0;
  nodes_cordoned_ready = negsuc 0;
  nodes_pressure_names = [];
  pods_total = negsuc 0;
  pods_pending = negsuc 0;
  pods_failed = negsuc 0;
  pods_unknown_phase = negsuc 0;
  pods_not_ready = negsuc 0;
  deploys_total = negsuc 0;
  deploys_degraded = negsuc 0;
  deploys_zero_ready = negsuc 0;
  degraded_deploy_names = [];
  warn_events_15m = negsuc 0;
}

abbrev pub Store : Type 0
Store = String → Option ClusterState

unfoldable pub new_store : Store
new_store ctx = none

unfoldable pub set : String → ClusterState → Store → Store
set ctx st s = update ctx (some st) s

-- `none` is the answer `false`.
unfoldable pub get : String → Store → Option ClusterState
get ctx s = s ctx

abbrev pub or_zero : Option ClusterState → ClusterState
or_zero none = zero_state
or_zero (some st) = st

unfoldable pub with_probe : String → ProbeFields → ClusterState → ClusterState
with_probe ctx p st = record {
  context = ctx;
  raw_name = p.raw_name;
  file = p.file;
  reach = p.reach;
  server_version = p.server_version;
  node_count = p.node_count;
  node_ready = p.node_ready;
  last_error = p.last_error;
  last_probe = p.last_probe;
  probe_latency = p.probe_latency;
  alloc_cpu_milli = p.alloc_cpu_milli;
  alloc_mem_bytes = p.alloc_mem_bytes;
  usage_cpu_milli = st.usage_cpu_milli;
  usage_mem_bytes = st.usage_mem_bytes;
  metrics_available = st.metrics_available;
  metrics_at = st.metrics_at;
  nodes_not_ready_names = p.nodes_not_ready_names;
  nodes_mem_pressure = p.nodes_mem_pressure;
  nodes_disk_pressure = p.nodes_disk_pressure;
  nodes_pid_pressure = p.nodes_pid_pressure;
  nodes_cordoned = p.nodes_cordoned;
  nodes_cordoned_ready = p.nodes_cordoned_ready;
  nodes_pressure_names = p.nodes_pressure_names;
  pods_total = p.pods_total;
  pods_pending = p.pods_pending;
  pods_failed = p.pods_failed;
  pods_unknown_phase = p.pods_unknown_phase;
  pods_not_ready = p.pods_not_ready;
  deploys_total = p.deploys_total;
  deploys_degraded = p.deploys_degraded;
  deploys_zero_ready = p.deploys_zero_ready;
  degraded_deploy_names = p.degraded_deploy_names;
  warn_events_15m = p.warn_events_15m;
}

unfoldable pub with_metrics : MetricsFields → ClusterState → ClusterState
with_metrics mf st = record st {
  usage_cpu_milli = mf.usage_cpu_milli;
  usage_mem_bytes = mf.usage_mem_bytes;
  metrics_available = mf.metrics_available;
  metrics_at = mf.metrics_at;
}

unfoldable pub apply_probe : String → ProbeFields → Store → Store
unfolding with_probe zero_state
apply_probe ctx p s = update ctx (some (with_probe ctx p (or_zero (s ctx)))) s

-- Metrics for a slot that no probe has made are dropped.
unfoldable pub apply_metrics : String → MetricsFields → Store → Store
unfolding with_metrics
apply_metrics ctx mf s = elim (s ctx) [
  | none ↦ s
  | some st ↦ update ctx (some (with_metrics mf st)) s
]
