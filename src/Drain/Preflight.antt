-- ===== src/Drain/Preflight.antt =====
-- internal/cluster/nodeops.go: the checks before a drain, `isMirrorPod`, `isDaemonSetOwned`,
-- `drainPreflight.check` and `listDrainablePods`.
--
-- The cluster's API and the helpers of k8s.io/apimachinery are the record `Api`. A pod carries the
-- fields that the drain reads.
use Prim.Native.Char.{code}
use Prim.Native.String.{◌++◌ as join}
use kubetin.Common.{
  String, Bool, true, false, not, ◌&&◌, ◌||◌, Option, none, some, List, [], ◌∷◌, str_eq, ◌==◌,
  if◌then◌else◌, update,
}

pub record Volume : Type 0 where
  pub name : String
  pub empty_dir : Bool

-- `controller` is a `*bool`.
pub record OwnerRef : Type 0 where
  pub api_version : String
  pub kind : String
  pub name : String
  pub uid : String
  pub controller : Option Bool

pub data PodPhase : Type 0 where
  pod_pending pod_running pod_succeeded pod_failed pod_unknown : PodPhase

pub record Pod : Type 0 where
  pub namespace : String
  pub name : String
  pub uid : String
  pub phase : PodPhase
  pub mirror_annotation : Bool
  pub owner_references : List OwnerRef
  pub volumes : List Volume

pub record GroupVersion : Type 0 where
  pub group : String
  pub version : String
  pub text : String

pub record ApiResource : Type 0 where
  pub name : String
  pub kind : String
  pub namespaced : Bool

pub record Controller : Type 0 where
  pub uid : String
  pub deleting : Bool

-- A call of the API answers, or fails with a message.
pub data Answer {ℓ} (A : Type ℓ) : Type ℓ where
  ok : A → Answer A
  failed : String → Answer A

-- What the drain takes from its libraries: `metav1.GetControllerOf`, `schema.ParseGroupVersion`, the
-- resources under a discovery path, and a controller by group version, resource, namespace (none for
-- a cluster resource) and name.
pub record Api : Type 0 where
  pub get_controller_of : Pod → Option OwnerRef
  pub parse_group_version : String → Answer GroupVersion
  pub discover : String → Answer (List ApiResource)
  pub get_controller : GroupVersion → String → Option String → String → Answer Controller

pub data CheckError : Type 0 where
  empty_dir_volume : String → CheckError
  no_controller : CheckError
  invalid_version cannot_discover cannot_verify : String → CheckError
  uid_mismatch being_deleted cannot_resolve : CheckError

-- corev1.ObjectReference, the key of the controllers that passed.
pub record ObjectReference : Type 0 where
  pub api_version : String
  pub kind : String
  pub namespace : String
  pub name : String
  pub uid : String

abbrev pub same_reference : ObjectReference → ObjectReference → Bool
same_reference a b =
    str_eq a.api_version b.api_version
    && str_eq a.kind b.kind
    && str_eq a.namespace b.namespace
    && str_eq a.name b.name
    && str_eq a.uid b.uid

-- The keys whose value in the map is true.
unfoldable pub is_checked : ObjectReference → List ObjectReference → Bool
is_checked k [] = false
is_checked k (j ∷ js) = same_reference j k || is_checked k js

pub record DrainPreflight : Type 0 where
  pub resources : String → Option (List ApiResource)
  pub checked : List ObjectReference

unfoldable pub new_preflight : DrainPreflight
new_preflight = record { resources = λ v. none; checked = [] }

unfoldable pub is_mirror_pod : Pod → Bool
is_mirror_pod p = p.mirror_annotation

abbrev pub is_set : Option Bool → Bool
is_set none = false
is_set (some b) = b

unfoldable pub owned_by_daemon_set : List OwnerRef → Bool
owned_by_daemon_set [] = false
owned_by_daemon_set (ref ∷ refs) =
    (str_eq ref.kind "DaemonSet" && is_set ref.controller) || owned_by_daemon_set refs

unfoldable pub is_daemon_set_owned : Pod → Bool
unfolding owned_by_daemon_set
is_daemon_set_owned p = owned_by_daemon_set p.owner_references

-- strings.Contains(name, "/")
unfoldable pub has_slash : String → Bool
has_slash String.[] = false
has_slash (String.◌∷◌ c s) = (code c == b'/') || has_slash s

-- The first volume with local data.
unfoldable pub first_empty_dir : List Volume → Option String
first_empty_dir [] = none
first_empty_dir (v ∷ vs) = if v.empty_dir then some v.name else first_empty_dir vs

-- The first resource that the loop does not skip; the loop returns in its first such round.
unfoldable pub find_resource : String → List ApiResource → Option ApiResource
unfolding has_slash
find_resource kind [] = none
find_resource kind (r ∷ rs) =
    if not (str_eq r.kind kind) || has_slash r.name then find_resource kind rs else some r

abbrev pub is_empty_text : String → Bool
is_empty_text s = str_eq s ""

abbrev pub is_completed : PodPhase → Bool
is_completed pod_succeeded = true
is_completed pod_failed = true
is_completed _ = false

-- What the drain leaves alone.
unfoldable pub is_skipped : Pod → Bool
unfolding is_mirror_pod is_daemon_set_owned
is_skipped p = is_mirror_pod p || is_daemon_set_owned p || is_completed p.phase

abbrev pub reference_of : Pod → OwnerRef → ObjectReference
reference_of pod owner = record {
  api_version = owner.api_version;
  kind = owner.kind;
  namespace = pod.namespace;
  name = owner.name;
  uid = owner.uid;
}

abbrev pub Checked : Type 0
Checked = DrainPreflight × Option CheckError

-- The last tests on the controller that was found.
unfoldable pub judge : ObjectReference → Controller → DrainPreflight → Checked
judge key c st =
    if is_empty_text key.uid || not (str_eq c.uid key.uid)
    then (st, some uid_mismatch)
    else if c.deleting
    then (st, some being_deleted)
    else (record st { checked = key ∷ st.checked }, none)

pub data Listing : Type 0 where
  listed : List Pod → Listing
  refuses : Pod → CheckError → Listing

abbrev pub with_pod : Pod → Listing → Listing
with_pod p (listed ps) = listed (p ∷ ps)
with_pod p (refuses q e) = refuses q e

abbrev pub after_check : Pod → Checked → (DrainPreflight → Listing) → Listing
after_check p (st, none) rest = with_pod p (rest st)
after_check p (st, some e) rest = refuses p e

module _ (api : Api) where
  unfoldable pub discovery_path : GroupVersion → String
  discovery_path gv =
      if is_empty_text gv.group then join "/api/" gv.version else join "/apis/" gv.text

  abbrev pub scope_of : ApiResource → ObjectReference → Option String
  scope_of r key = if r.namespaced then some key.namespace else none

  -- The loop over the resources of the controller's group version.
  unfoldable pub verify :
      ObjectReference → GroupVersion → List ApiResource → DrainPreflight → Checked
  unfolding judge find_resource
  verify key gv rs st = elim (find_resource key.kind rs) [
    | none ↦ (st, some cannot_resolve)
    | some r ↦ elim (api.get_controller gv r.name (scope_of r key) key.name) [
      | failed e ↦ (st, some (cannot_verify e))
      | ok c ↦ judge key c st
    ]
  ]

  -- The cached resources, or those that discovery lists: `listing` counts only without a cache hit.
  unfoldable pub with_listing :
      ObjectReference
      → GroupVersion
      → DrainPreflight
      → Option (List ApiResource)
      → Answer (List ApiResource)
      → Checked
  unfolding verify
  with_listing key gv st (some rs) listing = verify key gv rs st
  with_listing key gv st none (failed e) = (st, some (cannot_discover e))
  with_listing key gv st none (ok rs) =
      verify key gv rs (record st { resources = update key.api_version (some rs) st.resources })

  unfoldable pub with_version : ObjectReference → DrainPreflight → Answer GroupVersion → Checked
  unfolding with_listing discovery_path
  with_version key st (failed e) = (st, some (invalid_version e))
  with_version key st (ok gv) =
      with_listing key gv st (st.resources key.api_version) (api.discover (discovery_path gv))

  unfoldable pub check_owner : ObjectReference → DrainPreflight → Checked
  unfolding with_version is_checked
  check_owner key st =
      if is_checked key st.checked
      then (st, none)
      else with_version key st (api.parse_group_version key.api_version)

  unfoldable pub check : Pod → DrainPreflight → Checked
  unfolding check_owner first_empty_dir
  check pod st = elim (first_empty_dir pod.volumes) [
    | some name ↦ (st, some (empty_dir_volume name))
    | none ↦ elim (api.get_controller_of pod) [
      | none ↦ (st, some no_controller)
      | some owner ↦ check_owner (reference_of pod owner) st
    ]
  ]

  unfoldable pub list_from : List Pod → DrainPreflight → Listing
  unfolding check is_skipped
  list_from [] st = listed []
  list_from (p ∷ ps) st =
      if is_skipped p then list_from ps st else after_check p (check p st) (list_from ps)

  -- `items` are the pods that the API lists on the node.
  unfoldable pub list_drainable_pods : List Pod → Listing
  unfolding list_from new_preflight
  list_drainable_pods items = list_from items new_preflight
