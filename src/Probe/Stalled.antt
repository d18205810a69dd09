-- ===== src/Probe/Stalled.antt =====
-- internal/cluster/probe.go: a round of `probeOnce` that learns nothing of the cluster's health.
use kubetin.Common.{◌≡◌, refl, ap, ◌∙◌, String, true, Option, none, some, str_eq, ◌||◌, arith}
use kubetin.Common.Int.{ℤ}
use kubetin.State.Defs.{Reach, healthy, degraded, ProbeFields, ClusterState}
use kubetin.Probe.Errors.{ApiError}
use kubetin.Probe.Hysteresis.{same_reach}
use kubetin.Probe.Nodes.{NodeProbeResult, ProbeError, probe_nodes}
use kubetin.Probe.Workloads.{
  signal_timeout, probe_non_green_pods, probe_deploy_health, probe_warn_events,
}
use kubetin.Probe.Round.{
  Round, version, version_failed, on_nodes, check_nodes, on_pod_summary, probe_pod_summary,
  check_pod_access, check_answering, probe_round, on_config, on_client, on_version, check_workloads,
  start_fields, carry_health, carry_nodes, reach_or_healthy,
}
use kubetin.Probe.Verdict.{is_late, probe_round-check_answering}

-- `/version` answers, and every other call times out.
pub record IsStalled (r : Round) : Type 0 where
  pub cluster_wide : str_eq r.scope "" ≡ true
  pub nodes : is_late (probe_nodes r.nodes).1 ≡ true
  pub access : is_late (probe_pod_summary r.pod_page).1 ≡ true
  pub pods : (probe_non_green_pods r.pods).outcome ≡ signal_timeout
  pub deploys : (probe_deploy_health r.deployments).outcome ≡ signal_timeout
  pub events : (probe_warn_events r.events_now r.events).outcome ≡ signal_timeout

-- The four ends of a round that learns nothing.
pub data LearnsNothing (r : Round) : Type 0 where
  no_config : (e : String) → r.config_error ≡ some e → LearnsNothing r
  no_client : (e : String) → r.config_error ≡ none → r.client_error ≡ some e → LearnsNothing r
  no_version :
      (e : ApiError)
      → r.config_error ≡ none
      → r.client_error ≡ none
      → r.version_answer ≡ version_failed e
      → LearnsNothing r
  no_health :
      (v : String)
      → r.config_error ≡ none
      → r.client_error ≡ none
      → r.version_answer ≡ version v
      → IsStalled r
      → LearnsNothing r

module _ (prev : ClusterState) where
  -- The health fields are those of the state before.
  abbrev pub Carries : ProbeFields × Reach → Type 0
  Carries p = carry_health prev p.0 ≡ p.0

  on_nodes_late :
      (pf : ProbeFields) (res : NodeProbeResult) (err : Option ProbeError)
      → is_late err ≡ true
      → on_nodes prev pf (res, err) ≡ (carry_nodes prev pf, reach_or_healthy prev.reach)
  unfolding on_nodes
  on_nodes_late pf res none h = cc
  on_nodes_late pf res (some e) h = rw (h) refl

  abbrev filled : ProbeFields → ProbeFields
  filled pf = record (carry_nodes prev pf) {
    pods_pending = prev.pods_pending;
    pods_failed = prev.pods_failed;
    pods_unknown_phase = prev.pods_unknown_phase;
    pods_not_ready = prev.pods_not_ready;
    deploys_total = prev.deploys_total;
    deploys_degraded = prev.deploys_degraded;
    deploys_zero_ready = prev.deploys_zero_ready;
    degraded_deploy_names = prev.degraded_deploy_names;
    warn_events_15m = prev.warn_events_15m;
  }

  on_pod_summary_late :
      (reach : Reach) (pf : ProbeFields) (n : ℤ) (err : Option ProbeError)
      → is_late err ≡ true
      → Carries (on_pod_summary prev reach (filled pf) (n, err))
  unfolding on_pod_summary carry_health carry_nodes
  on_pod_summary_late reach pf n none h = cc
  on_pod_summary_late reach pf n (some e) h = rw (h) refl

  module _ (r : Round) (s : IsStalled r) where
    check_nodes_late :
        (pf : ProbeFields)
        → check_nodes r prev pf ≡ (carry_nodes prev pf, reach_or_healthy prev.reach)
    unfolding check_nodes
    check_nodes_late pf =
        rw (s.cluster_wide)
          (on_nodes_late pf (probe_nodes r.nodes).0 (probe_nodes r.nodes).1 s.nodes)

    check_workloads_late :
        (pf : ProbeFields) → check_workloads r prev (carry_nodes prev pf) ≡ filled pf
    unfolding check_workloads
    check_workloads_late pf = rw (s.pods, s.deploys, s.events) refl

    access_late :
        (reach : Reach) (pf : ProbeFields)
        → (same_reach reach healthy || same_reach reach degraded) ≡ true
        → Carries (check_pod_access r prev (filled pf, reach))
    unfolding check_pod_access
    access_late reach pf h = rw (h) (
        on_pod_summary_late reach pf (probe_pod_summary r.pod_page).0
          (probe_pod_summary r.pod_page).1 s.access)

    check_answering_late : (v : String) → Carries (check_answering r prev v)
    unfolding check_answering
    check_answering_late v =
        let pf = record (start_fields r) { server_version = v; probe_latency = r.latency } in
        rw (check_nodes_late pf, check_workloads_late pf)
          (access_late (reach_or_healthy prev.reach) pf (ground (arith)))

-- A round that learns nothing of the cluster's health, because it has no configuration or no client,
-- or `/version` fails, or all calls behind that time out, commits the health fields of the state
-- before it unchanged.
pub probe_round-Carries :
    (r : Round) (prev : ClusterState) → LearnsNothing r → Carries prev (probe_round r prev)
unfolding probe_round on_config on_client on_version carry_health start_fields
probe_round-Carries r prev (no_config e a) = rw (ap (on_config r prev) a) refl
probe_round-Carries r prev (no_client e a b) =
    rw (ap (on_config r prev) a ∙ ap (on_client r prev) b) refl
probe_round-Carries r prev (no_version e a b c) =
    rw (ap (on_config r prev) a ∙ ap (on_client r prev) b ∙ ap (on_version r prev) c) refl
probe_round-Carries r prev (no_health v a b c s) =
    rw (probe_round-check_answering r prev v a b c) (check_answering_late prev r s v)
