-- ===== src/Probe/Nodes.antt =====
-- internal/cluster/probe.go: `probeNodes` on the nodes that the list call gives.
--
-- The types of a condition that the code names are constructors. Sums of quantities stay below 2^63.
use kubetin.Common.{
  ℕ, ◌+◌, String, Bool, true, false, not, ◌&&◌, ◌||◌, Option, none, some, List, [], ◌∷◌, length,
  append_below, ltb, ◌==◌, if◌then◌else◌,
}
use kubetin.Common.Int.{ℤ, pos, negsuc}
use kubetin.State.Defs.{Reach, unknown, healthy, degraded}
use kubetin.Probe.Errors.{ApiError, is_denied}

pub data ConditionType : Type 0 where
  ready memory_pressure disk_pressure pid_pressure : ConditionType
  other : String → ConditionType

-- `is_true`: the status is `ConditionTrue`.
pub record Condition : Type 0 where
  pub kind : ConditionType
  pub is_true : Bool

-- The allocatable quantities are there or not; in milli-units and in bytes.
pub record Node : Type 0 where
  pub name : String
  pub cpu : Option ℕ
  pub memory : Option ℕ
  pub conditions : List Condition
  pub unschedulable : Bool

-- A count of -1 is `count = negsuc 0`.
pub record NodeProbeResult : Type 0 where
  pub reach : Reach
  pub count : ℤ
  pub ready_count : ℕ
  pub alloc_cpu_milli : ℕ
  pub alloc_mem_bytes : ℕ
  pub not_ready_names : List String
  pub mem_pressure : ℕ
  pub disk_pressure : ℕ
  pub pid_pressure : ℕ
  pub cordoned : ℕ
  pub cordoned_ready : ℕ
  pub pressure_names : List String

abbrev pub no_nodes : NodeProbeResult
no_nodes = record {
  reach = unknown;
  count = pos 0;
  ready_count = 0;
  alloc_cpu_milli = 0;
  alloc_mem_bytes = 0;
  not_ready_names = [];
  mem_pressure = 0;
  disk_pressure = 0;
  pid_pressure = 0;
  cordoned = 0;
  cordoned_ready = 0;
  pressure_names = [];
}

abbrev pub health_name_cap : ℕ
health_name_cap = 3

abbrev pub or_none : Option ℕ → ℕ
or_none none = 0
or_none (some n) = n

-- The loop over the conditions of a node.
pub record Scan : Type 0 where
  pub node_ready : Bool
  pub pressured : Bool
  pub mem_pressure : ℕ
  pub disk_pressure : ℕ
  pub pid_pressure : ℕ

abbrev pub note_kind : ConditionType → Scan → Scan
note_kind ready s = record s { node_ready = true }
note_kind memory_pressure s = record s { mem_pressure = s.mem_pressure + 1; pressured = true }
note_kind disk_pressure s = record s { disk_pressure = s.disk_pressure + 1; pressured = true }
note_kind pid_pressure s = record s { pid_pressure = s.pid_pressure + 1; pressured = true }
note_kind (other t) s = s

unfoldable pub scan_conditions : List Condition → Scan → Scan
scan_conditions [] s = s
scan_conditions (c ∷ cs) s = scan_conditions cs (if not c.is_true then s else note_kind c.kind s)

abbrev pub scan_start : NodeProbeResult → Scan
scan_start h = record {
  node_ready = false;
  pressured = false;
  mem_pressure = h.mem_pressure;
  disk_pressure = h.disk_pressure;
  pid_pressure = h.pid_pressure;
}

-- The rest of the loop's body, behind the conditions.
unfoldable pub after_scan : Node → Scan → NodeProbeResult → NodeProbeResult
after_scan n s h = record h {
  alloc_cpu_milli = h.alloc_cpu_milli + or_none n.cpu;
  alloc_mem_bytes = h.alloc_mem_bytes + or_none n.memory;
  mem_pressure = s.mem_pressure;
  disk_pressure = s.disk_pressure;
  pid_pressure = s.pid_pressure;
  ready_count = if s.node_ready then h.ready_count + 1 else h.ready_count;
  not_ready_names =
      if s.node_ready
      then h.not_ready_names
      else append_below health_name_cap n.name h.not_ready_names;
  pressure_names =
      if s.pressured
      then append_below health_name_cap n.name h.pressure_names
      else h.pressure_names;
  cordoned = if n.unschedulable then h.cordoned + 1 else h.cordoned;
  cordoned_ready =
      if n.unschedulable && s.node_ready then h.cordoned_ready + 1 else h.cordoned_ready;
}

unfoldable pub note_nodes : List Node → NodeProbeResult → NodeProbeResult
unfolding scan_conditions after_scan
note_nodes [] h = h
note_nodes (n ∷ ns) h = note_nodes ns (after_scan n (scan_conditions n.conditions (scan_start h)) h)

unfoldable pub conclude : ℕ → NodeProbeResult → NodeProbeResult
conclude listed h = record h {
  reach = if listed == 0 || ltb h.ready_count listed then degraded else healthy;
  count = pos listed;
}

unfoldable pub summarise_nodes : List Node → NodeProbeResult
unfolding note_nodes conclude
summarise_nodes ns = conclude (length ns) (note_nodes ns no_nodes)

-- What the call gives: the nodes, its error, or the end of the context before either.
pub data ListAnswer {ℓ} (A : Type ℓ) : Type ℓ where
  listed : A → ListAnswer A
  list_failed : ApiError → ListAnswer A
  abandoned : ApiError → ListAnswer A

-- An error of a probe: that of the call or the context, or the denial made of it.
pub data ProbeError : Type 0 where
  raw : ApiError → ProbeError
  list_denied : String → ProbeError

abbrev unknown_nodes : NodeProbeResult
unknown_nodes = record no_nodes { reach = degraded; count = negsuc 0 }

unfoldable pub probe_nodes : ListAnswer (List Node) → NodeProbeResult × Option ProbeError
unfolding summarise_nodes
probe_nodes (abandoned e) = (unknown_nodes, some (raw e))
probe_nodes (list_failed e) =
    if is_denied e
    then (unknown_nodes, some (list_denied "rbac: list nodes denied"))
    else (unknown_nodes, some (raw e))
probe_nodes (listed ns) = (summarise_nodes ns, none)
