-- ===== src/Probe/Verdict.antt =====
-- internal/cluster/probe.go: the reach that a round of `probeOnce` commits.
use kubetin.Common.{
  ℕ, ◌≡◌, refl, ap, ◌∙◌, String, Bool, true, false, not, ◌&&◌, ◌||◌, ◌⊎◌, inl, inr, Option, none,
  some, List, str_eq, if◌then◌else◌, arith, if-case, length, ltb, ◌==◌,
}
use kubetin.Common.Int.{ℤ}
use kubetin.State.Defs.{Reach, healthy, degraded, ProbeFields, ClusterState}
use kubetin.Probe.Hysteresis.{same_reach, code_injective}
use kubetin.Probe.Errors.{is_denied}
use kubetin.Probe.Nodes.{
  Node, NodeProbeResult, ListAnswer, listed, list_failed, abandoned, ProbeError, probe_nodes,
  summarise_nodes, conclude, note_nodes, no_nodes,
}
use kubetin.Probe.Round.{
  Round, version, probe_timeout, on_nodes, check_nodes, on_pod_summary, probe_pod_summary,
  check_pod_access, check_answering, probe_round, on_config, on_client, on_version, check_workloads,
  start_fields,
}

abbrev pub is_late : Option ProbeError → Bool
is_late none = false
is_late (some e) = probe_timeout e

abbrev pub is_error : Option ProbeError → Bool
is_error none = false
is_error (some e) = true

-- The node list timed out; it answered, and a node is not ready, there is none, or it was refused.
abbrev pub nodes_late : Round → Bool
nodes_late r = str_eq r.scope "" && is_late (probe_nodes r.nodes).1

abbrev pub nodes_bad : Round → Bool
nodes_bad r =
    str_eq r.scope ""
    && (not (is_late (probe_nodes r.nodes).1) && same_reach (probe_nodes r.nodes).0.reach degraded)

abbrev pub pods_late : Round → Bool
pods_late r = is_late (probe_pod_summary r.pod_page).1

abbrev pub pods_bad : Round → Bool
pods_bad r =
    is_error (probe_pod_summary r.pod_page).1 && not (is_late (probe_pod_summary r.pod_page).1)

abbrev HealthyOrDegraded : Reach → Type 0
HealthyOrDegraded r = (r ≡ healthy) ⊎ (r ≡ degraded)

conclude-HealthyOrDegraded : (n : ℕ) (h : NodeProbeResult) → HealthyOrDegraded (conclude n h).reach
unfolding conclude
conclude-HealthyOrDegraded n h =
    if-case HealthyOrDegraded (n == 0 || ltb h.ready_count n) (λ _. inr refl) (λ _. inl refl)

probe_nodes-HealthyOrDegraded :
    (a : ListAnswer (List Node)) → HealthyOrDegraded (probe_nodes a).0.reach
unfolding probe_nodes summarise_nodes
probe_nodes-HealthyOrDegraded (abandoned e) = inr refl
probe_nodes-HealthyOrDegraded (list_failed e) =
    if-case (λ (p : NodeProbeResult × Option ProbeError). HealthyOrDegraded p.0.reach) (is_denied e)
      (λ _. inr refl) (λ _. inr refl)
probe_nodes-HealthyOrDegraded (listed ns) =
    conclude-HealthyOrDegraded (length ns) (note_nodes ns no_nodes)

abbrev degraded_if : Bool → Reach
degraded_if b = if b then degraded else healthy

on_nodes_reach :
    (prev : ClusterState) (pf : ProbeFields) (res : NodeProbeResult) (err : Option ProbeError)
    → HealthyOrDegraded res.reach
    → (on_nodes prev pf (res, err)).1
      ≡ degraded_if (
          (not (is_late err) && same_reach res.reach degraded)
          || (same_reach prev.reach degraded && is_late err))
unfolding on_nodes
on_nodes_reach prev pf res none h = ground arith
on_nodes_reach prev pf res (some e) h =
    ground (arith, code_injective prev.reach healthy, code_injective prev.reach degraded)

check_nodes_reach :
    (r : Round) (prev : ClusterState) (pf : ProbeFields)
    → (check_nodes r prev pf).1
      ≡ degraded_if (nodes_bad r || (same_reach prev.reach degraded && nodes_late r))
unfolding check_nodes
check_nodes_reach r prev pf = ground (
  arith,
  on_nodes_reach prev pf (probe_nodes r.nodes).0 (probe_nodes r.nodes).1
      (probe_nodes-HealthyOrDegraded r.nodes),
)

on_pod_summary_reach :
    (prev : ClusterState) (reach : Reach) (pf : ProbeFields) (total : ℤ) (err : Option ProbeError)
    → (on_pod_summary prev reach pf (total, err)).1 ≡ (
        if (is_error err && not (is_late err)) || (same_reach prev.reach degraded && is_late err)
        then degraded
        else reach)
unfolding on_pod_summary
on_pod_summary_reach prev reach pf total none = ground arith
on_pod_summary_reach prev reach pf total (some e) = ground arith

check_pod_access_reach :
    (r : Round) (prev : ClusterState) (pf : ProbeFields) (b : Bool)
    → (check_pod_access r prev (pf, degraded_if b)).1
      ≡ degraded_if (b || pods_bad r || (same_reach prev.reach degraded && pods_late r))
unfolding check_pod_access
check_pod_access_reach r prev pf b = ground (
  arith,
  on_pod_summary_reach prev (degraded_if b) pf (probe_pod_summary r.pod_page).0
      (probe_pod_summary r.pod_page).1,
)

pub probe_round-check_answering :
    (r : Round) (prev : ClusterState) (v : String)
    → r.config_error ≡ none
    → r.client_error ≡ none
    → r.version_answer ≡ version v
    → probe_round r prev ≡ check_answering r prev v
unfolding probe_round on_config on_client on_version
probe_round-check_answering r prev v a b c =
    ap (on_config r prev) a ∙ ap (on_client r prev) b ∙ ap (on_version r prev) c

check_answering_reach :
    (r : Round) (prev : ClusterState) (v : String)
    → (check_answering r prev v).1
      ≡ degraded_if (
          (nodes_bad r || (same_reach prev.reach degraded && nodes_late r))
          || pods_bad r
          || (same_reach prev.reach degraded && pods_late r))
unfolding check_answering
check_answering_reach r prev v =
    let pf = record (start_fields r) { server_version = v; probe_latency = r.latency } in
    let pf' = check_workloads r prev (check_nodes r prev pf).0 in
    ap (λ k. (check_pod_access r prev (pf', k)).1) (check_nodes_reach r prev pf)
    ∙ check_pod_access_reach r prev pf'
        (nodes_bad r || (same_reach prev.reach degraded && nodes_late r))

regroup :
    (a b c d e : Bool)
    → degraded_if ((a || (c && d)) || b || (c && e)) ≡ degraded_if (a || b || (c && (d || e)))
regroup a b c d e = ground arith

pub probe_round-reach :
    (r : Round) (prev : ClusterState) (v : String)
    → r.config_error ≡ none
    → r.client_error ≡ none
    → r.version_answer ≡ version v
    → (probe_round r prev).1 ≡ (
        if nodes_bad r
          || pods_bad r
          || (same_reach prev.reach degraded && (nodes_late r || pods_late r))
        then degraded
        else healthy)
probe_round-reach r prev v a b c =
    ap (λ p. p.1) (probe_round-check_answering r prev v a b c)
    ∙ check_answering_reach r prev v
    ∙ regroup (nodes_bad r) (pods_bad r) (same_reach prev.reach degraded) (nodes_late r)
        (pods_late r)
