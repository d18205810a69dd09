-- ===== src/Kubeconfig/Examples.antt =====
-- internal/kubeconfig/discover.go, cmd/kubetin/trust.go: three contexts, two of one name, and a start
-- that meets one allowed file and one new one.
use kubetin.Common.{
  Distinct, ◌≡◌, refl, str_eq, if◌then◌else◌, String, true, false, Option, none, some, List, [],
  ◌∷◌, map, All,
}
use kubetin.Kubeconfig.Samples.{ticks, texts, texts_injective, context, contexts}
use kubetin.Kubeconfig.Names.{
  ContextRef, assign_context_names, assign_from, all_candidates, name_one, candidates_of,
  first_free, first_number, path_tails, tails_from, ref_by_name, id, names,
}
use kubetin.Kubeconfig.Unique.{assign_context_names-Distinct, ref_by_name-Distinct}
use kubetin.Kubeconfig.Trust.{ask, ok, Disk, Session, load_trusted_discovery}
use kubetin.Kubeconfig.Accept.{Accepts, load_trusted_discovery-Accepts}

abbrev given : ContextRef → String → ContextRef
given r n = record r { name = n }

labels :
    assign_context_names texts contexts
    ≡ some (
        given (context "dev" "/a/config") "dev (a/config)"
        ∷ given (context "dev" "/b/config") "dev (b/config)"
        ∷ given (context "prod" "/b/config") "prod"
        ∷ [])
unfolding assign_context_names assign_from all_candidates name_one candidates_of first_free
    first_number path_tails tails_from ticks
labels = refl

assign_context_names-Distinct_example :
    (out : List ContextRef) × (assign_context_names texts contexts ≡ some out)
    × (map id out ≡ map id contexts)
    × Distinct (names out)
assign_context_names-Distinct_example = assign_context_names-Distinct texts texts_injective contexts

abbrev resolved : List ContextRef
resolved =
    record (context "dev" "/a/config") { name = "dev (a/config)" } ∷ context "prod" "/b/config" ∷ []

ref_by_name-Distinct_example : All (λ r. ref_by_name resolved r.name ≡ some r) resolved
ref_by_name-Distinct_example = ref_by_name-Distinct resolved (refl, (refl, tt))

abbrev hash_of : String → Option String
hash_of path =
    if str_eq path "one" then some "h1" else (if str_eq path "two" then some "h2" else none)

abbrev disk : Disk
disk = record { files = ok ("one" ∷ "two" ∷ []); hash_file = hash_of }

abbrev session : Session
session = record {
  list = record { path = "trusted"; hashes = ("h1", "one") ∷ []; existed = true };
  load_error = none;
  before = disk;
  adding = disk;
  after = disk;
  prompt_all = λ files. ok false;
  prompt_changes = λ changed added. ok true;
  save_error = λ t. none;
}

load_trusted_discovery-Accepts_example :
    Accepts ("one" ∷ "two" ∷ []) (load_trusted_discovery session)
unfolding ask
load_trusted_discovery-Accepts_example =
    load_trusted_discovery-Accepts session "one" ("two" ∷ []) refl
      (("h1", refl), (("h2", refl), tt)) refl refl (λ t. refl) (λ gs. refl) refl
