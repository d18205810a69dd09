-- ===== src/Probe/Carry.antt =====
-- internal/cluster/probe.go: what a round of `probeOnce` takes over from the state before it.
use kubetin.Common.{
  ◌≡◌, refl, sym, ap, ◌∙◌, String, Bool, true, false, ◌||◌, inl, inr, Option, none, some, str_eq,
  arith, Bool-cases,
}
use kubetin.Common.Int.{ℤ}
use kubetin.State.Defs.{Reach, healthy, degraded, ProbeFields, ClusterState}
use kubetin.Probe.Hysteresis.{same_reach}
use kubetin.Probe.Nodes.{NodeProbeResult, ProbeError, probe_nodes}
use kubetin.Probe.Workloads.{
  SignalOutcome, signal_ok, signal_unknown, signal_timeout, PodPhaseSignal, DeploySignal,
  EventSignal, probe_non_green_pods, probe_deploy_health, probe_warn_events,
}
use kubetin.Probe.Round.{
  Round, version, on_nodes, check_nodes, on_pod_summary, probe_pod_summary, check_pod_access,
  check_answering, probe_round, check_workloads, start_fields, on_pods, on_deploys, on_events,
}
use kubetin.Probe.Verdict.{is_late, nodes_late, pods_late, probe_round-check_answering}

abbrev is_timeout_signal : SignalOutcome → Bool
is_timeout_signal signal_timeout = true
is_timeout_signal _ = false

-- No call of the round timed out.
pub record IsConclusive (r : Round) : Type 0 where
  pub nodes : nodes_late r ≡ false
  pub access : pods_late r ≡ false
  pub pods : is_timeout_signal (probe_non_green_pods r.pods).outcome ≡ false
  pub deploys : is_timeout_signal (probe_deploy_health r.deployments).outcome ≡ false
  pub events : is_timeout_signal (probe_warn_events r.events_now r.events).outcome ≡ false

module _ (prev prev' : ClusterState) where
  on_nodes_same :
      (pf : ProbeFields) (res : NodeProbeResult) (err : Option ProbeError)
      → is_late err ≡ false
      → on_nodes prev pf (res, err) ≡ on_nodes prev' pf (res, err)
  unfolding on_nodes
  on_nodes_same pf res none h = refl
  on_nodes_same pf res (some e) h = rw (h) refl

  on_pod_summary_same :
      (reach : Reach) (pf : ProbeFields) (n : ℤ) (err : Option ProbeError)
      → is_late err ≡ false
      → on_pod_summary prev reach pf (n, err) ≡ on_pod_summary prev' reach pf (n, err)
  unfolding on_pod_summary
  on_pod_summary_same reach pf n none h = refl
  on_pod_summary_same reach pf n (some e) h = rw (h) refl

  on_pods_same :
      (o : SignalOutcome) (sig : PodPhaseSignal) (pf : ProbeFields)
      → is_timeout_signal o ≡ false
      → on_pods o prev sig pf ≡ on_pods o prev' sig pf
  on_pods_same signal_ok sig pf h = refl
  on_pods_same signal_unknown sig pf h = refl
  on_pods_same signal_timeout sig pf h = cc

  on_deploys_same :
      (o : SignalOutcome) (sig : DeploySignal) (pf : ProbeFields)
      → is_timeout_signal o ≡ false
      → on_deploys o prev sig pf ≡ on_deploys o prev' sig pf
  on_deploys_same signal_ok sig pf h = refl
  on_deploys_same signal_unknown sig pf h = refl
  on_deploys_same signal_timeout sig pf h = cc

  on_events_same :
      (o : SignalOutcome) (sig : EventSignal) (pf : ProbeFields)
      → is_timeout_signal o ≡ false
      → on_events o prev sig pf ≡ on_events o prev' sig pf
  on_events_same signal_ok sig pf h = refl
  on_events_same signal_unknown sig pf h = refl
  on_events_same signal_timeout sig pf h = cc

  module _ (r : Round) (c : IsConclusive r) where
    check_nodes_same : (pf : ProbeFields) → check_nodes r prev pf ≡ check_nodes r prev' pf
    unfolding check_nodes
    check_nodes_same pf = elim (Bool-cases (str_eq r.scope "")) [
      | inl h ↦ rw (h) (
          on_nodes_same pf (probe_nodes r.nodes).0 (probe_nodes r.nodes).1
            (ground (arith, c.nodes)))
      | inr h ↦ rw (h) refl
    ]

    check_workloads_same :
        (pf : ProbeFields) → check_workloads r prev pf ≡ check_workloads r prev' pf
    unfolding check_workloads
    check_workloads_same pf =
        let pods = probe_non_green_pods r.pods in
        let deploys = probe_deploy_health r.deployments in
        let events = probe_warn_events r.events_now r.events in
        on_events_same events.outcome events _ c.events
        ∙ ap (on_events events.outcome prev' events) (
            on_deploys_same deploys.outcome deploys _ c.deploys
            ∙ ap (on_deploys deploys.outcome prev' deploys)
                (on_pods_same pods.outcome pods pf c.pods))

    check_pod_access_same :
        (p : ProbeFields × Reach) → check_pod_access r prev p ≡ check_pod_access r prev' p
    unfolding check_pod_access
    check_pod_access_same (pf, reach) =
        let same =
          on_pod_summary_same reach pf (probe_pod_summary r.pod_page).0
            (probe_pod_summary r.pod_page).1 c.access in
        elim (Bool-cases (same_reach reach healthy || same_reach reach degraded)) [
          | inl h ↦ rw (h) same
          | inr h ↦ rw (h) refl
        ]

    check_answering_same : (v : String) → check_answering r prev v ≡ check_answering r prev' v
    unfolding check_answering
    check_answering_same v =
        let pf = record (start_fields r) { server_version = v; probe_latency = r.latency } in
        let a = check_nodes r prev' pf in
        ap (λ p. check_pod_access r prev (check_workloads r prev p.0, p.1)) (check_nodes_same pf)
        ∙ ap (λ q. check_pod_access r prev (q, a.1)) (check_workloads_same a.0)
        ∙ check_pod_access_same (check_workloads r prev' a.0, a.1)

-- A round behind an answer of `/version`, none of whose calls timed out, commits the same fields and
-- the same reach whatever state came before it: nothing stale outlives a conclusive round.
pub probe_round_fresh :
    (r : Round) (prev prev' : ClusterState) (v : String)
    → r.config_error ≡ none
    → r.client_error ≡ none
    → r.version_answer ≡ version v
    → IsConclusive r
    → probe_round r prev ≡ probe_round r prev'
probe_round_fresh r prev prev' v a b c k =
    probe_round-check_answering r prev v a b c
    ∙ check_answering_same prev prev' r k v
    ∙ sym (probe_round-check_answering r prev' v a b c)
