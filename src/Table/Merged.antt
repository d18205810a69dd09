-- ===== src/Table/Merged.antt =====
-- internal/ui/table_cache.go, `mergePodOrder` and `tableUIDs`: what is merged is what a new sort gives.
use kubetin.Common.{
  ℕ, ◌≡◌, refl, sym, ap, subst, ◌∙◌, String, Bool, true, false, not, ◌&&◌, List, [], ◌∷◌, has,
  filter, length, ◌==◌, if◌then◌else◌, arith, eq_iff, if-case,
}
use kubetin.Common.Sort.{sort}
use kubetin.Table.Ascending.{has-filter, filter-Distinct, IsAscending, has-sort, sort-IsAscending}
use kubetin.Table.Merge.{merge, has-merge, merge-IsAscending}
use kubetin.Table.Rows.{
  SortKey, sort_namespace, sort_name, sort_status, sort_restarts, sort_age, sort_cpu, sort_mem,
  sort_mem_pct, sort_net_rx, sort_net_tx, sort_node, PodMap, sorted_pod_uids,
}
use kubetin.Table.Order.{less_pod_uid_asym, less_pod_uid_trans, less_pod_uid_total}
use kubetin.Table.Kept.{IsKept}
use kubetin.Table.Cache.{
  TableKey, TableOrder, Tables, code_of, same_bool, same_key, changed_uids, merge_pod_order,
  is_stale, can_merge, table_key, table_uids, build_table_uids,
}
use kubetin.Table.Fresh.{clean, All_of_has, is_shown, key_less, IsRight, built, built_same}

key_of : ℕ → SortKey
key_of n =
    if n == 0
    then sort_namespace
    else if n == 1
    then sort_name
    else if n == 2
    then sort_status
    else if n == 3
    then sort_restarts
    else if n == 4
    then sort_age
    else if n == 5
    then sort_cpu
    else if n == 6
    then sort_mem
    else if n == 7
    then sort_mem_pct
    else if n == 8
    then sort_net_rx
    else if n == 9
    then sort_net_tx
    else sort_node

key_of-code_of : (k : SortKey) → key_of (code_of k) ≡ k
unfolding key_of
key_of-code_of sort_namespace = refl
key_of-code_of sort_name = refl
key_of-code_of sort_status = refl
key_of-code_of sort_restarts = refl
key_of-code_of sort_age = refl
key_of-code_of sort_cpu = refl
key_of-code_of sort_mem = refl
key_of-code_of sort_mem_pct = refl
key_of-code_of sort_net_rx = refl
key_of-code_of sort_net_tx = refl
key_of-code_of sort_node = refl

same_sort_key : (j k : SortKey) → (code_of j == code_of k) ≡ true → j ≡ k
same_sort_key j k h =
    let e : code_of j ≡ code_of k = ground arith in
    sym (key_of-code_of j) ∙ ap key_of e ∙ key_of-code_of k

same_bool_eq : (a b : Bool) → same_bool a b ≡ true → a ≡ b
same_bool_eq a b h = ground arith

-- Keys that compare as equal are equal.
same_key_eq : (a b : TableKey) → same_key a b ≡ true → a ≡ b
same_key_eq a b h =
    let f : a.filter_text ≡ b.filter_text = (eq_iff a.filter_text b.filter_text).0 (ground arith) in
    let n : a.namespace ≡ b.namespace = (eq_iff a.namespace b.namespace).0 (ground arith) in
    let k : a.sort_key ≡ b.sort_key = same_sort_key a.sort_key b.sort_key (ground arith) in
    let d : a.desc ≡ b.desc = same_bool_eq a.desc b.desc (ground arith) in
    let s : a.size ≡ b.size = ground arith in
    ap (λ t. record a { filter_text = t }) f
    ∙ ap (λ t. record a { filter_text = b.filter_text; namespace = t }) n
    ∙ ap (λ t. record a { filter_text = b.filter_text; namespace = b.namespace; sort_key = t }) k
    ∙ ap
        (λ t. record a {
          filter_text = b.filter_text;
          namespace = b.namespace;
          sort_key = b.sort_key;
          desc = t;
        })
        d
    ∙ ap (λ t. record b { size = t }) s

no_dirty : (ds : List String) → (length ds == 0) ≡ true → ds ≡ []
no_dirty [] h = refl
no_dirty (d ∷ ds) h = absurd (ground arith)

pub clean_nil : (us : List String) → clean [] us ≡ us
clean_nil [] = refl
clean_nil (u ∷ us) = ap (λ vs. u ∷ vs) (clean_nil us)

module _ (to_lower : String → String) (contains_text : String → String → Bool) (m : PodMap)
    (kept : IsKept m) (o : TableOrder) (right : IsRight to_lower contains_text m o) where
  abbrev less : String → String → Bool
  less = key_less to_lower contains_text m o.key

  abbrev shown : String → Bool
  shown = is_shown to_lower contains_text m o.key

  abbrev changed : List String
  changed = changed_uids to_lower contains_text m o.key o.dirty

  has-changed : (u : String) → has u changed ≡ (has u o.dirty && shown u)
  has-changed u = has-sort less u (filter shown o.dirty) ∙ has-filter shown u o.dirty

  known_clean : (u : String) → has u (clean o.dirty o.uids) ≡ true → has u m.uids ≡ true
  known_clean u h = ground (arith, has-filter (λ v. not (has v o.dirty)) u o.uids, right.members u)

  changed-IsAscending : IsAscending less changed
  changed-IsAscending =
      sort-IsAscending less (λ u. has u m.uids) (less_pod_uid_asym m o.key.sort_key o.key.desc)
        (less_pod_uid_trans m o.key.sort_key o.key.desc)
        (less_pod_uid_total m o.key.sort_key o.key.desc kept.own) (filter shown o.dirty)
        (All_of_has (λ u. has u m.uids ≡ true) (filter shown o.dirty)
          (λ u h. ground (arith, has-filter shown u o.dirty)))
        (filter-Distinct shown o.dirty right.apart)

  abbrev merged : List String
  merged = merge less (λ u. has u o.dirty) o.uids changed

  merged-IsAscending : IsAscending less merged
  merged-IsAscending =
      merge-IsAscending less (λ u. has u m.uids) (less_pod_uid_asym m o.key.sort_key o.key.desc)
        (less_pod_uid_trans m o.key.sort_key o.key.desc)
        (less_pod_uid_total m o.key.sort_key o.key.desc kept.own) (λ u. has u o.dirty) o.uids
        changed (All_of_has (λ u. has u m.uids ≡ true) (clean o.dirty o.uids) known_clean)
        (All_of_has (λ u. has u m.uids ≡ true) changed (λ u h. ground (arith, has-changed u)))
        (All_of_has (λ u. has u changed ≡ false) (clean o.dirty o.uids)
          (λ u h. ground (arith, has-changed u, has-filter (λ v. not (has v o.dirty)) u o.uids)))
        right.ascending changed-IsAscending

  has-merged : (u : String) → has u merged ≡ shown u
  has-merged u = ground (
    arith,
    has-merge less (λ v. has v o.dirty) u o.uids changed,
    has-filter (λ v. not (has v o.dirty)) u o.uids,
    has-changed u,
    right.members u,
  )

  pub merged_same : merged ≡ sort less (built to_lower contains_text m kept o.key)
  merged_same = built_same to_lower contains_text m kept o.key merged merged-IsAscending has-merged

  -- With nothing dirty the order itself is the sorted one.
  pub clean_same : o.dirty ≡ [] → o.uids ≡ sort less (built to_lower contains_text m kept o.key)
  clean_same e =
      built_same to_lower contains_text m kept o.key o.uids
        (subst (IsAscending less) (ap (λ ds. clean ds o.uids) e ∙ clean_nil o.uids) right.ascending)
        (λ u. right.members u (ap (has u) e))

-- The order that the table shows is the one that a new sort gives.
pub table_uids-build :
    (to_lower : String → String) (contains_text : String → String → Bool) (m : Tables)
    → IsKept m.pods
    → (m.order.valid ≡ true → IsRight to_lower contains_text m.pods m.order)
    → (table_uids to_lower contains_text m).uids ≡ build_table_uids to_lower contains_text m
unfolding table_uids merge_pod_order sorted_pod_uids
table_uids-build to_lower contains_text m kept right =
    if-case (λ (o : TableOrder). o.uids ≡ build_table_uids to_lower contains_text m)
      (is_stale to_lower contains_text m.order (table_key m))
      (λ h.
        if-case (λ (o : TableOrder). o.uids ≡ build_table_uids to_lower contains_text m)
          (can_merge to_lower contains_text m.order (table_key m))
          (λ g.
            let key : TableKey = record m.order.key { size = length m.pods.uids } in
            let same : key ≡ table_key m = same_key_eq key (table_key m) (ground arith) in
            subst
              (λ (k : TableKey).
                merge_pod_order to_lower contains_text m.pods m.order k
                ≡ sort (key_less to_lower contains_text m.pods k)
                    (built to_lower contains_text m.pods kept k))
              same (merged_same to_lower contains_text m.pods kept m.order (right (ground arith))))
          (λ g. refl))
      (λ h.
        let same : m.order.key ≡ table_key m =
          same_key_eq m.order.key (table_key m) (ground arith) in
        subst
          (λ (k : TableKey).
            m.order.uids
            ≡ sort (key_less to_lower contains_text m.pods k)
                (built to_lower contains_text m.pods kept k))
          same
          (clean_same to_lower contains_text m.pods kept m.order (right (ground arith))
            (no_dirty m.order.dirty (ground arith))))
