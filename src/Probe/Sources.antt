-- ===== src/Probe/Sources.antt =====
-- internal/cluster/probe.go: `New` keeps a source for each label, on the labels that
-- internal/kubeconfig/discover.go gives.
use mathlib.Core.List.{Perm}
use text.Mathlib.TextPositions.{eq_refl}
use kubetin.Common.{
  Distinct, ℕ, ◌≡◌, refl, sym, ap, subst, ◌∙◌, String, Bool, true, false, ◌||◌, none, some, List,
  [], ◌∷◌, ◌++◌, map, append_assoc, append-nil, str_eq, has, All, arith, eq_iff,
}
use kubetin.Common.Sort.{sort, sort-perm}
use kubetin.Common.Text.{text_ltb}
use kubetin.State.Defs.{Store}
use kubetin.Kubeconfig.Names.{ContextRef, ContextId, id, names, Texts, assign_context_names}
use kubetin.Kubeconfig.Unique.{assign_context_names-Distinct}
use kubetin.Probe.Supervisor.{
  Supervisor, same_id, find_name, find_source, find_found, created, source_of, add_refs, new,
  source_for,
}

abbrev has_id : ContextId → List ContextId → Bool
has_id i [] = false
has_id i (j ∷ js) = same_id j i || has_id i js

abbrev pub DistinctIds : List ContextId → Type 0
DistinctIds [] = Unit
DistinctIds (i ∷ is) = (has_id i is ≡ false) × DistinctIds is

abbrev ids : List ContextRef → List ContextId
ids rs = map id rs

-- No ref that is left has its label or its source in the maps.
abbrev Unused : Supervisor → List ContextRef → Type 0
Unused s rs = All (λ r. (find_name r.name s.names ≡ none) × (find_source (id r) s.refs ≡ none)) rs

-- A label that leads to its own source.
abbrev pub Resolves : Supervisor → ContextRef → Type 0
Resolves s r = source_for r.name s ≡ some (source_of r)

abbrev add_ref : ContextRef → Supervisor → Supervisor
add_ref r s = record s {
  names = (r.name, id r) ∷ s.names;
  contexts = s.contexts ++ r.name ∷ [];
  refs = (id r, source_of r) ∷ s.refs;
}

str_eq_sym : (a b : String) → str_eq a b ≡ str_eq b a
str_eq_sym a b = ground (arith, eq_iff a b, eq_iff b a)

same_id_sym : (a b : ContextId) → same_id a b ≡ same_id b a
same_id_sym a b = ground (arith, str_eq_sym a.file b.file, str_eq_sym a.raw_name b.raw_name)

same_id_refl : (a : ContextId) → same_id a a ≡ true
same_id_refl a = ground (arith, eq_iff a.file a.file, eq_iff a.raw_name a.raw_name)

Unused-add_ref :
    (r : ContextRef) (s : Supervisor) (rs : List ContextRef)
    → has r.name (names rs) ≡ false
    → has_id (id r) (ids rs) ≡ false
    → Unused s rs
    → Unused (add_ref r s) rs
Unused-add_ref r s [] h k u = tt
Unused-add_ref r s (q ∷ qs) h k ((a, b), u) =
    let f : str_eq r.name q.name ≡ false = ground (arith, str_eq_sym r.name q.name) in
    let g : same_id (id r) (id q) ≡ false = ground (arith, same_id_sym (id r) (id q)) in
    ((rw (f) a, rw (g) b), Unused-add_ref r s qs (ground arith) (ground arith) u)

-- The maps at the end, at the keys of the refs added and at all others.
record Added (s s' : Supervisor) (rs : List ContextRef) : Type 0 where
  named : (n : String) → has n (names rs) ≡ false → find_name n s'.names ≡ find_name n s.names
  sourced :
      (i : ContextId) → has_id i (ids rs) ≡ false → find_source i s'.refs ≡ find_source i s.refs
  resolved :
      All
        (λ r.
          (find_name r.name s'.names ≡ some (id r))
          × (find_source (id r) s'.refs ≡ some (source_of r)))
        rs
  listed : s'.contexts ≡ sort text_ltb (s.contexts ++ names rs)

add_refs-Added :
    (rs : List ContextRef) (s : Supervisor)
    → Distinct (names rs)
    → DistinctIds (ids rs)
    → Unused s rs
    → (s' : Supervisor) × (add_refs rs s ≡ created s') × Added s s' rs
unfolding add_refs
add_refs-Added [] s d k u = (
  record s { contexts = sort text_ltb s.contexts },
  refl,
  record {
    named = λ n h. refl;
    sourced = λ i h. refl;
    resolved = tt;
    listed = ap (sort text_ltb) (sym (append-nil s.contexts));
  },
)
add_refs-Added (r ∷ rs) s (d, ds) (k, ks) ((a, b), u) =
    let (s', e, more) = add_refs-Added rs (add_ref r s) ds ks (Unused-add_ref r s rs d k u) in
    (
      s',
      rw (a, b) e,
      record {
        named = λ n h. ground (arith, more.named n);
        sourced = λ i h. ground (arith, more.sourced i);
        resolved = (
          (
            more.named r.name d ∙ rw (eq_refl r.name) refl,
            more.sourced (id r) k ∙ rw (same_id_refl (id r)) refl,
          ),
          more.resolved,
        );
        listed =
            more.listed ∙ ap (sort text_ltb) (append_assoc s.contexts (r.name ∷ []) (names rs));
      },
    )

All-Resolves :
    (s : Supervisor) (rs : List ContextRef)
    → All
        (λ r.
          (find_name r.name s.names ≡ some (id r))
          × (find_source (id r) s.refs ≡ some (source_of r)))
        rs
    → All (Resolves s) rs
unfolding source_for
All-Resolves s [] h = tt
All-Resolves s (r ∷ rs) ((a, b), h) = (ap (λ o. find_found o s.refs) a ∙ b, All-Resolves s rs h)

-- `New` succeeds on refs whose labels differ and whose sources differ: every label then leads to the
-- file, the raw name and the namespace of its own ref, and the contexts are the labels, ordered.
pub new-Resolves :
    (rs : List ContextRef) (store : Store)
    → Distinct (names rs)
    → DistinctIds (map id rs)
    → (s : Supervisor) × (new rs store ≡ created s)
      × All (Resolves s) rs
      × Perm s.contexts (names rs)
unfolding new
new-Resolves rs store d k =
    let empty : Supervisor = record {
      contexts = [];
      names = [];
      refs = [];
      store = store;
      hysteresis = λ ctx. none;
    } in
    let (s, e, h) = add_refs-Added rs empty d k (all_unused rs) in
    (s, e, All-Resolves s rs h.resolved, rw (h.listed) (sort-perm text_ltb (names rs)))
  where
    all_unused :
        (qs : List ContextRef)
        → All (λ (r : ContextRef). (find_name r.name [] ≡ none) × (find_source (id r) [] ≡ none)) qs
    all_unused [] = tt
    all_unused (q ∷ qs) = ((refl, refl), all_unused qs)

-- The labels that `assignContextNames` gives to contexts with different sources are accepted by `New`,
-- and each leads to the source of the context that it was given to.
pub new-assign_context_names :
    (t : Texts) (rs : List ContextRef) (store : Store)
    → ((base : String) (m n : ℕ) → t.numbered base m ≡ t.numbered base n → m ≡ n)
    → DistinctIds (map id rs)
    → (out : List ContextRef) × (s : Supervisor) × (assign_context_names t rs ≡ some out)
      × (map id out ≡ map id rs)
      × (new out store ≡ created s)
      × All (Resolves s) out
new-assign_context_names t rs store inj k =
    let (out, e, same, distinct) = assign_context_names-Distinct t inj rs in
    let (s, f, resolves, _) = new-Resolves out store distinct (subst DistinctIds (sym same) k) in
    (out, s, e, same, f, resolves)
