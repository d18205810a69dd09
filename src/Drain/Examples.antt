-- ===== src/Drain/Examples.antt =====
-- internal/cluster/nodeops.go: a node with a pod that goes, one that a budget blocks, and a mirror.
use kubetin.Common.{
  ℕ, ◌≡◌, refl, String, Bool, true, false, none, some, List, [], ◌∷◌, length, All, if◌then◌else◌,
  ◌==◌,
}
use kubetin.Drain.Evict.{
  EvictAnswer, accepted, too_many_requests, evict_with_retry, Eviction, Bounded,
  evict_with_retry_total,
}
use kubetin.Drain.Preflight.{OwnerRef, pod_running, Pod, ok, Api, list_drainable_pods, listed}
use kubetin.Drain.Verified.{Verified, drainable, list_drainable-Verified}
use kubetin.Drain.Node.{not_found, found, Outside, drain}
use kubetin.Drain.Stream.{Closes, planned, drain-Closes}

abbrev owner : OwnerRef
owner = record {
  api_version = "apps/v1";
  kind = "ReplicaSet";
  name = "web";
  uid = "rs-1";
  controller = some true;
}

abbrev pod : String → Bool → Pod
pod name mirror = record {
  namespace = "default";
  name = name;
  uid = name;
  phase = pod_running;
  mirror_annotation = mirror;
  owner_references = owner ∷ [];
  volumes = record { name = "config"; empty_dir = false } ∷ [];
}

abbrev node_pods : List Pod
node_pods = pod "one" false ∷ pod "static" true ∷ pod "two" false ∷ []

-- An API with one ReplicaSet.
abbrev cluster : Api
cluster = record {
  get_controller_of = λ p. some owner;
  parse_group_version = λ v. ok (record { group = "apps"; version = "v1"; text = "apps/v1" });
  discover =
      λ path. ok (record { name = "replicasets"; kind = "ReplicaSet"; namespaced = true } ∷ []);
  get_controller = λ gv r ns name. ok (record { uid = "rs-1"; deleting = false });
}

abbrev outside : Outside
outside = record {
  setup = none;
  patch = λ value. none;
  list_pods = ok node_pods;
  ended_before = λ i. false;
  evict = λ i. if i == 1 then some "PDB blocked after 5 retries" else none;
  ended_after = λ i. false;
  rounds = (λ i. found "one") ∷ (λ i. not_found) ∷ [];
  drops = λ n. false;
  ctx_error = "context deadline exceeded";
}

passes : list_drainable_pods cluster node_pods ≡ listed (pod "one" false ∷ pod "two" false ∷ [])
unfolding list_drainable_pods
passes = refl

stream_length : length (drain cluster outside "prod" "node-1") ≡ 8
unfolding drain
stream_length = refl

list_drainable-Verified_example :
    (◌≡◌ {A = List Pod} (pod "one" false ∷ pod "two" false ∷ []) (drainable node_pods))
    × All (Verified cluster) (pod "one" false ∷ pod "two" false ∷ [])
list_drainable-Verified_example = list_drainable-Verified cluster node_pods _ passes

drain-Closes_example :
    Closes
      (length (planned cluster outside "prod" "node-1"))
      (drain cluster outside "prod" "node-1")
drain-Closes_example = drain-Closes cluster outside "prod" "node-1"

abbrev budget : ℕ → EvictAnswer
budget n = if n == 3 then accepted else too_many_requests

retried :
    evict_with_retry budget (λ n. false) ≡ some (record { error = none; requests = 4; waited = 7 })
unfolding evict_with_retry
retried = refl

evict_with_retry_total_example :
    (r : Eviction) × (evict_with_retry budget (λ n. false) ≡ some r) × Bounded budget r
evict_with_retry_total_example = evict_with_retry_total budget (λ n. false)
