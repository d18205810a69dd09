-- ===== src/Probe/Supervisor.antt =====
-- internal/cluster/probe.go: `Supervisor`, `New`, `sourceFor`, `accumulator`, `commit`, `probeOnce`, and
-- the first writes of `Run`.
--
-- The maps of the supervisor are lists of pairs, and the one of accumulators, which many loops share,
-- a function. The parsed configurations stay outside; `Run` starts the loops.
use kubetin.Common.{
  String, Bool, true, false, ◌&&◌, Option, none, some, List, [], ◌∷◌, ◌++◌, str_eq, if◌then◌else◌,
  update,
}
use kubetin.Common.Sort.{sort}
use kubetin.Common.Text.{text_ltb}
use kubetin.Kubeconfig.Names.{ContextRef, ContextId, id}
use kubetin.State.Defs.{
  Reach, unknown, ProbeFields, new_probe_fields, Store, get, apply_probe, or_zero,
}
use kubetin.Probe.Hysteresis.{ReachAccumulator, new_accumulator, update_reach}
use kubetin.Probe.Round.{Round, probe_round}

pub record ContextSource : Type 0 where
  pub file : String
  pub raw_name : String
  pub namespace : String

abbrev pub same_id : ContextId → ContextId → Bool
same_id a b = str_eq a.file b.file && str_eq a.raw_name b.raw_name

abbrev pub find_name : String → List (String × ContextId) → Option ContextId
find_name name [] = none
find_name name ((k, i) ∷ m) = if str_eq k name then some i else find_name name m

abbrev pub find_source : ContextId → List (ContextId × ContextSource) → Option ContextSource
find_source i [] = none
find_source i ((k, s) ∷ m) = if same_id k i then some s else find_source i m

pub record Supervisor : Type 0 where
  pub contexts : List String
  pub names : List (String × ContextId)
  pub refs : List (ContextId × ContextSource)
  pub store : Store
  pub hysteresis : String → Option ReachAccumulator

pub data NewError : Type 0 where
  duplicate_label : String → NewError
  duplicate_context : String → String → NewError

pub data NewResult : Type 0 where
  created : Supervisor → NewResult
  refused : NewError → NewResult

abbrev pub source_of : ContextRef → ContextSource
source_of r = record { file = r.file; raw_name = r.raw_name; namespace = r.namespace }

abbrev pub is_present : {A : Type 0} → Option A → Bool
is_present none = false
is_present (some a) = true

-- The loop of `New` on the refs that are left.
unfoldable pub add_refs : List ContextRef → Supervisor → NewResult
add_refs [] s = created (record s { contexts = sort text_ltb s.contexts })
add_refs (r ∷ rs) s =
    let onward = add_refs rs (record s {
      names = (r.name, id r) ∷ s.names;
      contexts = s.contexts ++ r.name ∷ [];
      refs = (id r, source_of r) ∷ s.refs;
    }) in
    if is_present (find_name r.name s.names)
    then refused (duplicate_label r.name)
    else if is_present (find_source (id r) s.refs)
    then refused (duplicate_context r.raw_name r.file)
    else onward

unfoldable pub new : List ContextRef → Store → NewResult
unfolding add_refs
new rs store =
    add_refs rs
      (record { contexts = []; names = []; refs = []; store = store; hysteresis = λ ctx. none })

abbrev pub find_found : Option ContextId → List (ContextId × ContextSource) → Option ContextSource
find_found none refs = none
find_found (some i) refs = find_source i refs

unfoldable pub source_for : String → Supervisor → Option ContextSource
source_for name s = find_found (find_name name s.names) s.refs

abbrev pub or_new : Option ReachAccumulator → ReachAccumulator
or_new none = new_accumulator
or_new (some a) = a

unfoldable pub accumulator : String → Supervisor → ReachAccumulator
accumulator ctx s = or_new (s.hysteresis ctx)

abbrev pub with_source : Option ContextSource → ProbeFields → ProbeFields
with_source none pf = pf
with_source (some src) pf = record pf { raw_name = src.raw_name; file = src.file }

unfoldable pub commit : String → ProbeFields → Reach → Supervisor → Supervisor
unfolding source_for accumulator
commit ctx pf seen s =
    let a = update_reach seen (accumulator ctx s) in
    record s {
      hysteresis = update ctx (some a) s.hysteresis;
      store =
          apply_probe ctx (record (with_source (source_for ctx s) pf) { reach = a.visible })
            s.store;
    }

unfoldable pub probe_once : String → Round → Supervisor → Supervisor
unfolding commit
probe_once ctx r s =
    let (pf, seen) = probe_round r (or_zero (get ctx s.store)) in commit ctx pf seen s

-- The first write of `Run` for a context.
unfoldable pub start_context : String → Supervisor → Supervisor
unfolding source_for
start_context ctx s = record s {
  store =
      apply_probe ctx (with_source (source_for ctx s) (record new_probe_fields { reach = unknown }))
        s.store;
}
