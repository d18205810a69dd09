-- ===== src/Probe/Examples.antt =====
-- internal/cluster/probe.go: rounds of one context.
use kubetin.Common.{
  ◌≡◌, refl, String, Bool, true, false, ◌||◌, none, some, List, [], ◌∷◌, length, map, if◌then◌else◌,
  All, ltb, ◌==◌, count_if,
}
use kubetin.Common.Int.{pos}
use kubetin.State.Defs.{Reach, unknown, healthy, degraded, zero_state, new_store, get}
use kubetin.Kubeconfig.Names.{ContextRef, id, assign_context_names}
use kubetin.Kubeconfig.Samples.{texts, texts_injective, contexts}
use kubetin.Probe.Sources.{Resolves, new-assign_context_names}
use kubetin.Probe.Hysteresis.{
  update_all, new_accumulator, accumulator_at, show_all, update_reach, accepts_at_once,
  count_pending, promote, update_all-show_all,
}
use kubetin.Probe.Errors.{ApiError, is_timeout}
use kubetin.Probe.Nodes.{
  ready, memory_pressure, Node, summarise_nodes, listed, abandoned, note_nodes, scan_conditions,
  after_scan, conclude, probe_nodes,
}
use kubetin.Probe.Counted.{counted, is_ready, summarise_nodes-counted}
use kubetin.Probe.Workloads.{
  pending, running, ProbedPod, probe_non_green_pods, Deployment, summarise_deployments,
  probe_pods_from, probe_deploy_health, probe_warn_events, note_pods, note_pod, note_deployments,
}
use kubetin.Probe.Signals.{Reports, summarise_deployments-Reports, paged}
use kubetin.Probe.Round.{Round, version, probe_round, probe_pod_summary}
use kubetin.Probe.Carry.{IsConclusive, probe_round_fresh}
use kubetin.Probe.Stalled.{IsStalled, no_health}
use kubetin.Probe.Supervisor.{Supervisor, probe_once, new, created}
use kubetin.Probe.Shown.{
  slot, InStep, IsFresh, Event, probes, run_events, start_all, SameHealth, run_events-shown,
  probe_once-SameHealth,
}

abbrev samples : List Reach
samples = healthy ∷ degraded ∷ healthy ∷ degraded ∷ degraded ∷ []

blip_is_hidden : (update_all (healthy ∷ degraded ∷ []) new_accumulator).visible ≡ healthy
unfolding update_all update_reach accepts_at_once count_pending promote
blip_is_hidden = refl

update_all-show_all_example :
    update_all samples new_accumulator
    ≡ accumulator_at (show_all samples (record { shown = unknown; last = unknown }))
update_all-show_all_example = update_all-show_all samples

abbrev node : String → Bool → Bool → Node
node name is_up cordoned = record {
  name = name;
  cpu = some 4000;
  memory = some 8192;
  conditions =
      record { kind = ready; is_true = is_up }
      ∷ record { kind = memory_pressure; is_true = false }
      ∷ [];
  unschedulable = cordoned;
}

abbrev two_nodes : List Node
two_nodes = node "n1" true false ∷ node "n2" false true ∷ []

down_named : (summarise_nodes two_nodes).not_ready_names ≡ "n2" ∷ []
unfolding summarise_nodes note_nodes scan_conditions after_scan conclude
down_named = refl

summarise_nodes-counted_example : summarise_nodes two_nodes ≡ record (counted two_nodes) {
  reach =
      if length two_nodes == 0 || ltb (count_if is_ready two_nodes) (length two_nodes)
      then degraded
      else healthy;
  count = pos (length two_nodes);
}
summarise_nodes-counted_example = summarise_nodes-counted two_nodes

abbrev deployments : List Deployment
deployments =
    record { namespace = "a"; name = "d1"; replicas = some 5; ready_replicas = 3 }
    ∷ record { namespace = "a"; name = "d2"; replicas = none; ready_replicas = 0 }
    ∷ record { namespace = "b"; name = "d3"; replicas = some 2; ready_replicas = 2 }
    ∷ []

summarise_deployments-Reports_example : Reports deployments (summarise_deployments deployments)
summarise_deployments-Reports_example = summarise_deployments-Reports deployments

abbrev one_pod : List ProbedPod
one_pod = record { phase = pending; conditions = [] } ∷ []

abbrev crash_loop : List ProbedPod
crash_loop =
    record { phase = running; conditions = record { is_ready_type = true; is_true = false } ∷ [] }
    ∷ []

abbrev deadline : ApiError
deadline = record {
  is_forbidden = false;
  is_unauthorized = false;
  is_deadline = true;
  net_timeout = some true;
  is_url_error = false;
  text = "context deadline exceeded";
  says = λ s. false;
}

-- Everything answers.
abbrev round : Round
round = record {
  now = 100;
  config_error = none;
  client_error = none;
  version_answer = version "v1.30";
  latency = 3;
  scope = "";
  nodes = listed two_nodes;
  pods = paged [] crash_loop;
  deployments = listed deployments;
  events = listed [];
  events_now = 100;
  pod_page = listed (record { items = 1; continues = false; remaining = none });
}

-- Only `/version` answers.
abbrev stalled : Round
stalled = record round {
  nodes = abandoned deadline;
  pods = [];
  deployments = abandoned deadline;
  events = abandoned deadline;
  pod_page = abandoned deadline;
}

conclusive : IsConclusive round
unfolding probe_nodes probe_pod_summary probe_non_green_pods probe_pods_from note_pods note_pod
    probe_deploy_health summarise_deployments note_deployments probe_warn_events
conclusive = record { nodes = refl; access = refl; pods = refl; deploys = refl; events = refl }

probe_round_fresh_example :
    probe_round round zero_state ≡ probe_round round (record zero_state { reach = degraded })
probe_round_fresh_example =
    probe_round_fresh round zero_state (record zero_state { reach = degraded }) "v1.30" refl refl
      refl conclusive

is_stalled : IsStalled stalled
unfolding probe_nodes probe_pod_summary probe_non_green_pods probe_pods_from probe_deploy_health
    probe_warn_events is_timeout
is_stalled = record {
  cluster_wide = refl;
  nodes = refl;
  access = refl;
  pods = refl;
  deploys = refl;
  events = refl;
}

abbrev supervisor : Supervisor
supervisor = record {
  contexts = "prod" ∷ [];
  names = [];
  refs = [];
  store = new_store;
  hysteresis = λ ctx. none;
}

fresh : IsFresh supervisor
unfolding new_store get zero_state
fresh ctx = (refl, refl)

abbrev history : List Event
history = probes "prod" round ∷ probes "prod" round ∷ []

run_events-shown_example : InStep (run_events history (start_all ("prod" ∷ []) supervisor))
run_events-shown_example = run_events-shown ("prod" ∷ []) history supervisor fresh

probe_once-SameHealth_example :
    SameHealth (slot "prod" (probe_once "prod" stalled supervisor)) (slot "prod" supervisor)
probe_once-SameHealth_example =
    probe_once-SameHealth "prod" stalled supervisor (no_health "v1.30" refl refl refl is_stalled)

new-assign_context_names_example :
    (out : List ContextRef) × (s : Supervisor) × (assign_context_names texts contexts ≡ some out)
    × (map id out ≡ map id contexts)
    × (new out new_store ≡ created s)
    × All (Resolves s) out
unfolding id
new-assign_context_names_example =
    new-assign_context_names texts contexts new_store texts_injective (refl, (refl, (refl, tt)))
