-- ===== src/Fleet/Silent.antt =====
-- internal/ui/fleethealth.go, `clusterAlerts`: what raises no alert.
use kubetin.Common.{
  ℕ, ◌≡◌, refl, Bool, true, false, List, [], ◌∷◌, All, if◌then◌else◌, arith, String,
}
use kubetin.Common.Int.{ℤ}
use kubetin.Common.Sort.{sort}
use kubetin.State.Defs.{healthy, ClusterState}
use kubetin.Fleet.Alerts.{
  AlertSeverity, ClusterAlert, more_severe, is_reachable, alert_if, findings, cluster_alerts,
  is_positive, node_alerts, degraded_alerts, deploy_alerts, pressure_alerts, count_alerts,
  pending_alerts, event_alerts, memory_alerts,
}

-- A count that is 0 or not known.
abbrev pub IsSilent : ℤ → Type 0
IsSilent n = is_positive n ≡ false

-- The counts of a state that alerts are about.
abbrev pub alert_counts_of : ClusterState → List ℤ
alert_counts_of st =
    st.node_count ∷ st.deploys_degraded ∷ st.nodes_mem_pressure ∷ st.nodes_disk_pressure
    ∷ st.nodes_pid_pressure ∷ st.nodes_cordoned ∷ st.pods_failed ∷ st.pods_not_ready
    ∷ st.pods_unknown_phase ∷ st.pods_pending ∷ st.warn_events_15m ∷ []

alert_if-false : (b : Bool) (sev : AlertSeverity) (t : String) → b ≡ false → alert_if b sev t ≡ []
alert_if-false b sev t h = rw (h) refl

pressure_alerts_silent :
    (st : ClusterState) (n : ℤ) (label : String) → IsSilent n → pressure_alerts st n label ≡ []
unfolding pressure_alerts
pressure_alerts_silent st n label h = alert_if-false _ _ _ h

count_alerts_silent :
    (st : ClusterState) (n : ℤ) (noun what : String) → IsSilent n → count_alerts st n noun what ≡ []
unfolding count_alerts
count_alerts_silent st n noun what h = alert_if-false _ _ _ h

node_alerts_silent : (st : ClusterState) → IsSilent st.node_count → node_alerts st ≡ []
unfolding node_alerts
node_alerts_silent st h = alert_if-false _ _ _ (ground arith)

deploy_alerts_silent : (st : ClusterState) → IsSilent st.deploys_degraded → deploy_alerts st ≡ []
unfolding deploy_alerts
deploy_alerts_silent st h = alert_if-false _ _ _ h

degraded_alerts_silent : (st : ClusterState) → st.reach ≡ healthy → degraded_alerts st ≡ []
unfolding degraded_alerts
degraded_alerts_silent st h = alert_if-false _ _ _ (rw (h) refl)

pending_alerts_silent : (st : ClusterState) → IsSilent st.pods_pending → pending_alerts st ≡ []
unfolding pending_alerts
pending_alerts_silent st h = alert_if-false _ _ _ (ground arith)

event_alerts_silent : (st : ClusterState) → IsSilent st.warn_events_15m → event_alerts st ≡ []
unfolding event_alerts
event_alerts_silent st h = alert_if-false _ _ _ (ground arith)

memory_alerts_silent :
    (st : ClusterState) (now : ℕ) → st.metrics_available ≡ false → memory_alerts st now ≡ []
unfolding memory_alerts
memory_alerts_silent st now h = rw (h) refl

findings_silent :
    (now : ℕ) (st : ClusterState)
    → st.reach ≡ healthy
    → st.metrics_available ≡ false
    → All IsSilent (alert_counts_of st)
    → findings st now ≡ []
unfolding findings
findings_silent now st up no_metrics (a, (b, (c, (d, (e, (f, (g, (h, (i, (j, (k, _))))))))))) =
    rw
      (
        node_alerts_silent st a,
        degraded_alerts_silent st up,
        deploy_alerts_silent st b,
        pressure_alerts_silent st st.nodes_mem_pressure "MemoryPressure" c,
        pressure_alerts_silent st st.nodes_disk_pressure "DiskPressure" d,
        pressure_alerts_silent st st.nodes_pid_pressure "PIDPressure" e,
        count_alerts_silent st st.nodes_cordoned "node" " cordoned" f,
        count_alerts_silent st st.pods_failed "pod" " Failed" g,
        count_alerts_silent st st.pods_not_ready "pod" " Running but NotReady" h,
        count_alerts_silent st st.pods_unknown_phase "pod" " in Unknown phase" i,
        pending_alerts_silent st j,
        event_alerts_silent st k,
        memory_alerts_silent st now no_metrics,
      )
      refl

chosen_silent :
    (b : Bool) (xs : List ClusterAlert) → xs ≡ [] → (if b then sort more_severe xs else []) ≡ []
unfolding sort
chosen_silent true xs h = rw (h) refl
chosen_silent false xs h = refl

-- A healthy cluster without metrics, each of whose counts is 0 or not known, has no alert.
pub cluster_alerts_silent :
    (now : ℕ) (st : ClusterState)
    → st.reach ≡ healthy
    → st.metrics_available ≡ false
    → All IsSilent (alert_counts_of st)
    → cluster_alerts now st ≡ []
unfolding cluster_alerts
cluster_alerts_silent now st up no_metrics quiet =
    chosen_silent (is_reachable st.reach) (findings st now)
      (findings_silent now st up no_metrics quiet)
