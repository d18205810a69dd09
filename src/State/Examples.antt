-- ===== src/State/Examples.antt =====
-- internal/model/state.go: a cluster that is probed, measured, and probed again.
use kubetin.Common.{◌≡◌, refl, true, none, [], ◌∷◌}
use kubetin.Common.Int.{pos}
use kubetin.State.Defs.{
  ProbeFields, MetricsFields, Store, healthy, new_store, get, new_probe_fields, apply_probe,
}
use kubetin.State.Registers.{
  probes, measures, do_write, run_writes, slot_of, spec_writes, run_writes-slot,
}

abbrev up : ProbeFields
up = record new_probe_fields { reach = healthy; node_count = pos 3 }

abbrev usage : MetricsFields
usage = record {
  usage_cpu_milli = pos 250;
  usage_mem_bytes = pos 4096;
  metrics_available = true;
  metrics_at = 7;
}

-- Metrics before the first probe are dropped.
early_metrics : get "prod" (run_writes (measures "prod" usage ∷ []) new_store) ≡ none
unfolding run_writes do_write new_store get
early_metrics = refl

probed : Store
probed = apply_probe "prod" up new_store

run_writes-slot_example :
    slot_of (get "prod" (run_writes (probes "prod" up ∷ measures "prod" usage ∷ []) new_store))
    ≡ spec_writes "prod"
        (probes "prod" up ∷ measures "prod" usage ∷ [])
        (slot_of (get "prod" new_store))
run_writes-slot_example =
    run_writes-slot "prod" (probes "prod" up ∷ measures "prod" usage ∷ []) new_store
