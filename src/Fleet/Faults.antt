-- ===== src/Fleet/Faults.antt =====
-- internal/ui/fleethealth.go: the faults that the state of a cluster shows, by severity.
use kubetin.Common.{ℕ, ◌+◌, ◌-◌, ◌*◌, Bool, true, false, not, ◌&&◌, ltb, leb, if◌then◌else◌}
use kubetin.Common.Int.{ℤ, pos, pos_part, ltb_ℤ}
use kubetin.State.Defs.{
  Reach, unknown, connecting, healthy, degraded, unreachable, auth_failed, ClusterState,
}
use kubetin.Fleet.Alerts.{AlertSeverity, sev_info, sev_warn, sev_crit, ClusterAlert}

abbrev pub crit_sev : AlertSeverity → Bool
crit_sev sev_info = false
crit_sev sev_warn = false
crit_sev sev_crit = true

abbrev pub warn_sev : AlertSeverity → Bool
warn_sev sev_info = false
warn_sev sev_warn = true
warn_sev sev_crit = false

abbrev pub is_crit : ClusterAlert → Bool
is_crit a = crit_sev a.sev

abbrev pub is_warn : ClusterAlert → Bool
is_warn a = warn_sev a.sev

-- A cluster whose API server answers.
abbrev pub answers : Reach → Bool
answers unknown = false
answers connecting = false
answers healthy = true
answers degraded = true
answers unreachable = false
answers auth_failed = false

abbrev pub one : Bool → ℕ
one b = if b then 1 else 0

abbrev pub above_zero : ℤ → Bool
above_zero n = ltb_ℤ (pos 0) n

abbrev pub at_least : ℕ → ℤ → Bool
at_least m n = leb m (pos_part n)

abbrev pub merely_degraded : Reach → Bool
merely_degraded degraded = true
merely_degraded _ = false

module _ (now : ℕ) (st : ClusterState) where
  abbrev pub lacks_nodes : Bool
  lacks_nodes = above_zero st.node_count && ltb_ℤ st.node_ready st.node_count

  -- A sample less than two minutes old, of a cluster with memory.
  abbrev pub has_sample : Bool
  has_sample =
      st.metrics_available
      && above_zero st.alloc_mem_bytes
      && ltb (now - st.metrics_at) 120000000000

  -- The memory in use is at least so many hundredths of what is allocatable.
  abbrev pub uses_memory : ℕ → Bool
  uses_memory n =
      has_sample && leb (n * pos_part st.alloc_mem_bytes) (pos_part st.usage_mem_bytes * 100)

  -- Nodes that are not ready, a degraded deployment with one that has nothing ready, memory at 90 percent.
  abbrev pub critical_faults : ℕ
  critical_faults =
      one lacks_nodes
      + (one (above_zero st.deploys_degraded && above_zero st.deploys_zero_ready)
          + one (uses_memory 90))

  -- The rest: a degraded cluster whose nodes are ready, deployments that are short, nodes under pressure of
  -- three kinds or cordoned, pods failed, not ready or unknown, five pods pending, ten events, memory at 80.
  abbrev pub warning_faults : ℕ
  warning_faults =
      one (merely_degraded st.reach && not lacks_nodes)
      + (one (above_zero st.deploys_degraded && not (above_zero st.deploys_zero_ready))
          + (one (above_zero st.nodes_mem_pressure)
              + (one (above_zero st.nodes_disk_pressure)
                  + (one (above_zero st.nodes_pid_pressure)
                      + (one (above_zero st.nodes_cordoned)
                          + (one (above_zero st.pods_failed)
                              + (one (above_zero st.pods_not_ready)
                                  + (one (above_zero st.pods_unknown_phase)
                                      + (one (at_least 5 st.pods_pending)
                                          + (one (at_least 10 st.warn_events_15m)
                                              + one
                                                  (uses_memory 80 && not (uses_memory 90))))))))))))
