-- ===== src/State/Registers.antt =====
-- internal/model/state.go: the store seen as two registers for each cluster, one for each writer.
use kubetin.Common.{
  ◌≡◌, refl, sym, ap, ◌∙◌, String, false, Option, none, some, List, [], ◌∷◌, str_eq, eq_iff,
  if◌then◌else◌, Bool-cases, inl, inr, Option-cases,
}
use text.Mathlib.TextPositions.{eq_refl}
use kubetin.Common.Int.{pos}
use kubetin.State.Defs.{
  ProbeFields, MetricsFields, ClusterState, Store, zero_state, set, get, or_zero, with_probe,
  with_metrics, apply_probe, apply_metrics,
}

-- One call of a writer.
pub data Write : Type 0 where
  sets : String → ClusterState → Write
  probes : String → ProbeFields → Write
  measures : String → MetricsFields → Write

unfoldable pub do_write : Write → Store → Store
unfolding set apply_probe apply_metrics
do_write (sets ctx st) s = set ctx st s
do_write (probes ctx p) s = apply_probe ctx p s
do_write (measures ctx mf) s = apply_metrics ctx mf s

-- Oldest call first: the mutex puts them in some order.
unfoldable pub run_writes : List Write → Store → Store
run_writes [] s = s
run_writes (w ∷ ws) s = run_writes ws (do_write w s)

-- The part of a state that each writer owns.
abbrev pub probe_part : ClusterState → ProbeFields
probe_part st = record {
  raw_name = st.raw_name;
  file = st.file;
  reach = st.reach;
  server_version = st.server_version;
  node_count = st.node_count;
  node_ready = st.node_ready;
  last_error = st.last_error;
  last_probe = st.last_probe;
  probe_latency = st.probe_latency;
  alloc_cpu_milli = st.alloc_cpu_milli;
  alloc_mem_bytes = st.alloc_mem_bytes;
  nodes_not_ready_names = st.nodes_not_ready_names;
  nodes_mem_pressure = st.nodes_mem_pressure;
  nodes_disk_pressure = st.nodes_disk_pressure;
  nodes_pid_pressure = st.nodes_pid_pressure;
  nodes_cordoned = st.nodes_cordoned;
  nodes_cordoned_ready = st.nodes_cordoned_ready;
  nodes_pressure_names = st.nodes_pressure_names;
  pods_total = st.pods_total;
  pods_pending = st.pods_pending;
  pods_failed = st.pods_failed;
  pods_unknown_phase = st.pods_unknown_phase;
  pods_not_ready = st.pods_not_ready;
  deploys_total = st.deploys_total;
  deploys_degraded = st.deploys_degraded;
  deploys_zero_ready = st.deploys_zero_ready;
  degraded_deploy_names = st.degraded_deploy_names;
  warn_events_15m = st.warn_events_15m;
}

abbrev pub metrics_part : ClusterState → MetricsFields
metrics_part st = record {
  usage_cpu_milli = st.usage_cpu_milli;
  usage_mem_bytes = st.usage_mem_bytes;
  metrics_available = st.metrics_available;
  metrics_at = st.metrics_at;
}

-- A cluster's slot as the specification sees it.
pub record Slot : Type 0 where
  pub named : String
  pub probed : ProbeFields
  pub measured : MetricsFields

abbrev pub to_slot : ClusterState → Slot
to_slot st = record { named = st.context; probed = probe_part st; measured = metrics_part st }

abbrev pub never_measured : MetricsFields
never_measured = record {
  usage_cpu_milli = pos 0;
  usage_mem_bytes = pos 0;
  metrics_available = false;
  metrics_at = 0;
}

abbrev pub measured_or : Option Slot → MetricsFields
measured_or none = never_measured
measured_or (some r) = r.measured

-- What one call does to the slot of `ctx`: a probe writes its register and makes the slot, metrics
-- write theirs if there is a slot.
abbrev pub spec_write : String → Write → Option Slot → Option Slot
spec_write ctx (sets k st) r = if str_eq k ctx then some (to_slot st) else r
spec_write ctx (probes k p) r =
    if str_eq k ctx then some (record { named = ctx; probed = p; measured = measured_or r }) else r
spec_write ctx (measures k mf) none = none
spec_write ctx (measures k mf) (some r) =
    if str_eq k ctx then some (record r { measured = mf }) else some r

abbrev pub spec_writes : String → List Write → Option Slot → Option Slot
spec_writes ctx [] r = r
spec_writes ctx (w ∷ ws) r = spec_writes ctx ws (spec_write ctx w r)

abbrev pub slot_of : Option ClusterState → Option Slot
slot_of none = none
slot_of (some st) = some (to_slot st)

probe-slot :
    (ctx : String) (p : ProbeFields) (o : Option ClusterState)
    → to_slot (with_probe ctx p (or_zero o))
      ≡ record { named = ctx; probed = p; measured = measured_or (slot_of o) }
unfolding with_probe zero_state
probe-slot ctx p none = refl
probe-slot ctx p (some st) = refl

abbrev measure : MetricsFields → Option ClusterState → Option ClusterState
measure mf none = none
measure mf (some st) = some (with_metrics mf st)

apply_metrics_self :
    (ctx : String) (mf : MetricsFields) (s : Store)
    → apply_metrics ctx mf s ctx ≡ measure mf (s ctx)
unfolding apply_metrics with_metrics
apply_metrics_self ctx mf s = elim (Option-cases (s ctx)) [
  | inl e ↦ rw (e, apply_metrics, measure) e
  | inr (st, e) ↦ rw (e, apply_metrics, eq_refl ctx)
]

apply_metrics_other :
    (k ctx : String) (mf : MetricsFields) (s : Store)
    → str_eq k ctx ≡ false
    → apply_metrics k mf s ctx ≡ s ctx
unfolding apply_metrics
apply_metrics_other k ctx mf s h = elim (Option-cases (s k)) [
  | inl e ↦ rw (e, apply_metrics)
  | inr (st, e) ↦ rw (e, apply_metrics, h)
]

measure-slot :
    (ctx : String) (mf : MetricsFields) (o : Option ClusterState)
    → slot_of (measure mf o) ≡ spec_write ctx (measures ctx mf) (slot_of o)
unfolding with_metrics
measure-slot ctx mf none = refl
measure-slot ctx mf (some st) = rw (eq_refl ctx)

other-slot :
    (k ctx : String) (mf : MetricsFields) (r : Option Slot)
    → str_eq k ctx ≡ false
    → spec_write ctx (measures k mf) r ≡ r
other-slot k ctx mf none h = refl
other-slot k ctx mf (some r) h = rw h

-- One call of a writer does to the slot of each cluster what the specification says.
do_write-slot :
    (ctx : String) (w : Write) (s : Store)
    → slot_of (get ctx (do_write w s)) ≡ spec_write ctx w (slot_of (get ctx s))
unfolding do_write get
do_write-slot ctx (sets k st) s = elim (Bool-cases (str_eq k ctx)) [ inl h ↦ rw h | inr h ↦ rw h ]
do_write-slot ctx (probes k p) s = elim (Bool-cases (str_eq k ctx)) [
  | inl h ↦ rw ((eq_iff k ctx).0 h, eq_refl ctx) (ap some (probe-slot ctx p (s ctx)))
  | inr h ↦ rw h
]
do_write-slot ctx (measures k mf) s = elim (Bool-cases (str_eq k ctx)) [
  | inl h ↦ rw ((eq_iff k ctx).0 h, apply_metrics_self ctx mf s) (measure-slot ctx mf (s ctx))
  | inr h ↦ rw (apply_metrics_other k ctx mf s h) (sym (other-slot k ctx mf (slot_of (s ctx)) h))
]

-- After any sequence of writes, in any order and for any clusters, the slot of a cluster holds what
-- the two registers of the specification hold: the last probe, and the last metrics that came once
-- the slot was there.
pub run_writes-slot :
    (ctx : String) (ws : List Write) (s : Store)
    → slot_of (get ctx (run_writes ws s)) ≡ spec_writes ctx ws (slot_of (get ctx s))
unfolding run_writes
run_writes-slot ctx [] s = refl
run_writes-slot ctx (w ∷ ws) s =
    run_writes-slot ctx ws (do_write w s) ∙ ap (spec_writes ctx ws) (do_write-slot ctx w s)

apply_probe_self :
    (ctx : String) (p : ProbeFields) (s : Store)
    → apply_probe ctx p s ctx ≡ some (with_probe ctx p (or_zero (s ctx)))
unfolding apply_probe
apply_probe_self ctx p s = rw (eq_refl ctx)

apply_probe_other :
    (ctx k : String) (p : ProbeFields) (s : Store)
    → str_eq ctx k ≡ false
    → apply_probe ctx p s k ≡ s k
unfolding apply_probe
apply_probe_other ctx k p s h = rw h

both_orders :
    (ctx : String) (p : ProbeFields) (mf : MetricsFields) (s : Store) {st : ClusterState}
    → s ctx ≡ some st
    → apply_metrics ctx mf (apply_probe ctx p s) ctx
      ≡ apply_probe ctx p (apply_metrics ctx mf s) ctx
both_orders ctx p mf s {st} e =
    apply_metrics_self ctx mf (apply_probe ctx p s)
    ∙ ap (measure mf) (apply_probe_self ctx p s ∙ ap (λ o. some (with_probe ctx p (or_zero o))) e)
    ∙ unfold with_probe with_metrics in
      refl
      ∙ sym (
          apply_probe_self ctx p (apply_metrics ctx mf s)
          ∙ ap (λ o. some (with_probe ctx p (or_zero o)))
              (apply_metrics_self ctx mf s ∙ ap (measure mf) e))

-- Where the slot is there, a probe and a metrics tick of one cluster can come in either order: the
-- store is the same for every reader.
pub probe_metrics_comm :
    (ctx : String) (p : ProbeFields) (mf : MetricsFields) (s : Store) {st : ClusterState}
    (k : String)
    → get ctx s ≡ some st
    → get k (apply_metrics ctx mf (apply_probe ctx p s))
      ≡ get k (apply_probe ctx p (apply_metrics ctx mf s))
unfolding get
probe_metrics_comm ctx p mf s k e = elim (Bool-cases (str_eq ctx k)) [
  | inl h ↦ rw (sym ((eq_iff ctx k).0 h)) (both_orders ctx p mf s e)
  | inr h ↦
      apply_metrics_other ctx k mf (apply_probe ctx p s) h
      ∙ apply_probe_other ctx k p s h
      ∙ sym (apply_metrics_other ctx k mf s h)
      ∙ sym (apply_probe_other ctx k p (apply_metrics ctx mf s) h)
]
