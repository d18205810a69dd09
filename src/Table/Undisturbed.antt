-- ===== src/Table/Undisturbed.antt =====
-- internal/ui/table_cache.go: what a change of one pod leaves as it was.
use kubetin.Common.{
  ◌≡◌, sym, ap, ◌∙◌, String, Bool, true, false, not, ◌&&◌, ◌||◌, List, has, Distinct, str_eq, arith,
  eq_iff, if-case, Bool-cases, inl, inr,
}
use kubetin.Table.Ascending.{test_same}
use kubetin.Table.Rows.{
  SortKey, PodRow, zero_row, PodMap, store_pod, delete_pod, pod_matches, matches_names,
}
use kubetin.Table.Order.{key_eq, key_ltb-IsLinear, row_key}
use kubetin.Table.Kept.{IsKept, has-store, has-delete, row-update}
use kubetin.Table.Cache.{TableKey, TableOrder, mark}
use kubetin.Table.Fresh.{is_shown, key_less, IsRight, filter-IsAscending, less_pod_uid_same}

pub has-mark :
    (u v : String) (us : List String)
    → has v (mark u us) ≡ ((not (str_eq u "") && str_eq u v) || has v us)
has-mark u v us = ground (arith, test_same (λ w. has w us) u v)

pub mark-Distinct : (u : String) (us : List String) → Distinct us → Distinct (mark u us)
mark-Distinct u us d = if-case Distinct (str_eq u "" || has u us) (λ _. d) (λ h. (ground arith, d))

-- A pod that is not dirty after a change: it was not before, and nothing that the order reads has changed.
pub record IsUndisturbed (m n : PodMap) (o : TableOrder) (u : String) : Type 0 where
  pub was_clean : has u o.dirty ≡ false
  pub there : has u n.uids ≡ has u m.uids
  pub row : key_eq (row_key o.key.sort_key (n.rows u)) (row_key o.key.sort_key (m.rows u)) ≡ true

module _ (to_lower : String → String) (contains_text : String → String → Bool) where
  abbrev shown : PodMap → TableKey → String → Bool
  shown = is_shown to_lower contains_text

  pub shown_same :
      (m n : PodMap) (o : TableOrder) (u : String)
      → IsUndisturbed m n o u
      → shown n o.key u ≡ shown m o.key u
  shown_same m n o u h =
      let k : SortKey = o.key.sort_key in
      let e : row_key k (n.rows u) ≡ row_key k (m.rows u) =
        key_ltb-IsLinear.sound (row_key k (n.rows u)) (row_key k (m.rows u)) h.row in
      let matches : pod_matches to_lower contains_text n o.key.namespace
            (to_lower o.key.filter_text) u
          ≡ pod_matches to_lower contains_text m o.key.namespace (to_lower o.key.filter_text) u =
        ap
          (λ t.
            matches_names to_lower contains_text t.1.0 t.1.1.0 o.key.namespace
              (to_lower o.key.filter_text))
          e in
      ground (arith, h.there, matches)

  pub IsRight-kept :
      (m n : PodMap) (o : TableOrder) (ds : List String)
      → Distinct ds
      → ((u : String) → has u ds ≡ false → IsUndisturbed m n o u)
      → IsRight to_lower contains_text m o
      → IsRight to_lower contains_text n (record o { dirty = ds })
  IsRight-kept m n o ds d f right = record {
    members = λ u h. right.members u (f u h).was_clean ∙ sym (shown_same m n o u (f u h));
    ascending =
        filter-IsAscending (key_less to_lower contains_text m o.key)
          (key_less to_lower contains_text n o.key) (λ u. not (has u o.dirty)) (λ u. not (has u ds))
          o.uids
          (λ u h. let was : has u o.dirty ≡ false = (f u (ground arith)).was_clean in ground arith)
          (λ x y h k.
            less_pod_uid_same m n o.key.sort_key o.key.desc x y (f x (ground arith)).row
              (f y (ground arith)).row)
          right.ascending;
    apart = d;
  }

pub row_self : (k : SortKey) (r : PodRow) → key_eq (row_key k r) (row_key k r) ≡ true
row_self k r = key_ltb-IsLinear.self (row_key k r)

-- A pod that is written and marked, for the others; one that is written and not marked, for all.
pub put-IsUndisturbed :
    (r : PodRow) (m : PodMap) (o : TableOrder) (v : String)
    → has v o.dirty ≡ false
    → str_eq r.uid v ≡ false
    → IsUndisturbed m (store_pod r.uid r m) o v
put-IsUndisturbed r m o v h e = record {
  was_clean = h;
  there = ground (arith, has-store r.uid v r m);
  row = rw (row-update r.uid v r m.rows e) (row_self o.key.sort_key (m.rows v));
}

pub same-IsUndisturbed :
    (r : PodRow) (m : PodMap) (o : TableOrder) (v : String)
    → has v o.dirty ≡ false
    → has r.uid m.uids ≡ true
    → key_eq (row_key o.key.sort_key r) (row_key o.key.sort_key (m.rows r.uid)) ≡ true
    → IsUndisturbed m (store_pod r.uid r m) o v
same-IsUndisturbed r m o v h k e = record {
  was_clean = h;
  there = ground (arith, has-store r.uid v r m, test_same (λ w. has w m.uids) r.uid v);
  row =
      if-case
        (λ (s : PodRow).
          key_eq (row_key o.key.sort_key s) (row_key o.key.sort_key (m.rows v)) ≡ true)
        (str_eq r.uid v)
        (λ g.
          ap (λ w. key_eq (row_key o.key.sort_key r) (row_key o.key.sort_key (m.rows w)))
            (sym ((eq_iff r.uid v).0 g))
          ∙ e)
        (λ _. row_self o.key.sort_key (m.rows v));
}

pub delete-IsUndisturbed :
    (u : String) (m : PodMap) (o : TableOrder) (v : String)
    → IsKept m
    → has v o.dirty ≡ false
    → (has u m.uids ≡ true → str_eq u v ≡ false)
    → IsUndisturbed m (delete_pod u m) o v
delete-IsUndisturbed u m o v kept h e = record {
  was_clean = h;
  there = ground (arith, has-delete u v m, test_same (λ w. has w m.uids) u v, e);
  row =
      if-case
        (λ (s : PodRow).
          key_eq (row_key o.key.sort_key s) (row_key o.key.sort_key (m.rows v)) ≡ true)
        (str_eq u v)
        (λ g.
          let gone : m.rows v ≡ zero_row =
            kept.missing v (ground (arith, test_same (λ w. has w m.uids) u v, e)) in
          rw gone (row_self o.key.sort_key zero_row))
        (λ _. row_self o.key.sort_key (m.rows v));
}

-- An unknown pod has no UID.
pub known_of :
    (u : String) (m : PodMap)
    → IsKept m
    → str_eq u "" ≡ false
    → str_eq (m.rows u).uid u ≡ true
    → has u m.uids ≡ true
known_of u m kept n e = elim (Bool-cases (has u m.uids)) [
  | inl h ↦ h
  | inr h ↦
      let empty : (m.rows u).uid ≡ "" = ap (λ (r : PodRow). r.uid) (kept.missing u h) in
      absurd (ground (arith, eq_iff (m.rows u).uid u, eq_iff u "", empty))
]
