-- ===== src/Table/Changed.antt =====
-- internal/ui/table_cache.go: every change of a pod or of the settings keeps the cached order right.
use kubetin.Common.{
  ◌≡◌, sym, ap, subst, ◌∙◌, String, Bool, true, false, ◌&&◌, ◌||◌, List, [], ◌∷◌, has, All, str_eq,
  arith, eq_iff, if-case,
}
use kubetin.Table.Ascending.{IsAscending}
use kubetin.Table.Rows.{PodRow, zero_row, PodMap, store_pod, delete_pod, less_by, sorted_pod_uids}
use kubetin.Table.Order.{key_eq, row_key, key_eq_of}
use kubetin.Table.Kept.{IsKept, no_pods-IsKept, store_pod-IsKept, delete_pod-IsKept}
use kubetin.Table.Cache.{
  TableOrder, Tables, new_tables, mark, identity_changed, invalidate_pod_order, is_stale, can_merge,
  table_key, table_uids, build_table_uids, fresh_order, Change, writes, deletes, configures,
  invalidates, asks, apply_change, apply_changes,
}
use kubetin.Table.Fresh.{key_less, IsRight, sort-built, has-sort-built}
use kubetin.Table.Merged.{table_uids-build, clean_nil}
use kubetin.Table.Undisturbed.{
  has-mark, mark-Distinct, put-IsUndisturbed, same-IsUndisturbed, delete-IsUndisturbed, known_of,
  IsRight-kept,
}

-- A row that is written has a UID.
abbrev pub IsNamed : Change → Type 0
IsNamed (writes r) = str_eq r.uid "" ≡ false
IsNamed _ = Unit

module _ (to_lower : String → String) (contains_text : String → String → Bool) where
  writes-IsRight :
      (r : PodRow) (m : PodMap) (o : TableOrder)
      → IsKept m
      → str_eq r.uid "" ≡ false
      → o.valid ≡ true
      → IsRight to_lower contains_text m o
      → IsRight to_lower contains_text
          (store_pod r.uid r m)
          (invalidate_pod_order (m.rows r.uid) r o)
  unfolding invalidate_pod_order identity_changed
  writes-IsRight r m o kept n valid right =
      let before : PodRow = m.rows r.uid in
      if-case (λ (e : TableOrder). IsRight to_lower contains_text (store_pod r.uid r m) e)
        (o.valid
          && (identity_changed before r
              || less_by before r o.key.sort_key
              || less_by r before o.key.sort_key))
        (λ h.
          IsRight-kept to_lower contains_text m (store_pod r.uid r m) o
            (mark r.uid (mark before.uid o.dirty))
            (mark-Distinct r.uid (mark before.uid o.dirty)
              (mark-Distinct before.uid o.dirty right.apart))
            (λ v k.
              put-IsUndisturbed r m o v
                (ground (
                  arith,
                  has-mark r.uid v (mark before.uid o.dirty),
                  has-mark before.uid v o.dirty,
                ))
                (ground (arith, has-mark r.uid v (mark before.uid o.dirty))))
            right)
        (λ h.
          let known : has r.uid m.uids ≡ true =
            known_of r.uid m kept n (ground (arith, eq_iff before.uid r.uid)) in
          let same : key_eq (row_key o.key.sort_key r) (row_key o.key.sort_key before) ≡ true =
            key_eq_of o.key.sort_key r before (ground arith) (ground arith) in
          IsRight-kept to_lower contains_text m (store_pod r.uid r m) o o.dirty right.apart
            (λ v k. same-IsUndisturbed r m o v k known same) right)

  deletes-IsRight :
      (u : String) (m : PodMap) (o : TableOrder)
      → IsKept m
      → o.valid ≡ true
      → IsRight to_lower contains_text m o
      → IsRight to_lower contains_text (delete_pod u m) (invalidate_pod_order (m.rows u) zero_row o)
  unfolding invalidate_pod_order identity_changed
  deletes-IsRight u m o kept valid right =
      let before : PodRow = m.rows u in
      if-case (λ (e : TableOrder). IsRight to_lower contains_text (delete_pod u m) e)
        (o.valid
          && (identity_changed before zero_row
              || less_by before zero_row o.key.sort_key
              || less_by zero_row before o.key.sort_key))
        (λ h.
          IsRight-kept to_lower contains_text m (delete_pod u m) o
            (mark "" (mark before.uid o.dirty))
            (mark-Distinct "" (mark before.uid o.dirty)
              (mark-Distinct before.uid o.dirty right.apart))
            (λ v k.
              delete-IsUndisturbed u m o v kept
                (ground
                  (arith, has-mark "" v (mark before.uid o.dirty), has-mark before.uid v o.dirty))
                (λ g. ground (
                  arith,
                  has-mark "" v (mark before.uid o.dirty),
                  has-mark before.uid v o.dirty,
                  kept.own u g,
                  kept.named u g,
                )))
            right)
        (λ h.
          IsRight-kept to_lower contains_text m (delete_pod u m) o o.dirty right.apart
            (λ v k.
              delete-IsUndisturbed u m o v kept k
                (λ g. absurd (ground (arith, kept.own u g, kept.named u g, eq_iff before.uid ""))))
            right)

  -- The pods carry their UIDs, and a valid order is right but for its dirty members.
  pub record IsFresh (m : Tables) : Type 0 where
    pub kept : IsKept m.pods
    pub right : m.order.valid ≡ true → IsRight to_lower contains_text m.pods m.order

  still_valid :
      (a b : PodRow) (o : TableOrder) → (invalidate_pod_order a b o).valid ≡ true → o.valid ≡ true
  unfolding invalidate_pod_order
  still_valid a b o h = ground arith

  fresh-IsRight :
      (m : Tables) (us : List String)
      → IsKept m.pods
      → us ≡ build_table_uids to_lower contains_text m
      → IsRight to_lower contains_text m.pods (fresh_order to_lower contains_text m us)
  unfolding sorted_pod_uids
  fresh-IsRight m us kept e = record {
    members =
        λ u h. ap (has u) e ∙ has-sort-built to_lower contains_text m.pods kept (table_key m) u;
    ascending =
        subst (IsAscending (key_less to_lower contains_text m.pods (table_key m)))
          (sym (clean_nil us ∙ e)) (sort-built to_lower contains_text m.pods kept (table_key m));
    apart = tt;
  }

  asks-IsRight :
      (m : Tables)
      → IsFresh m
      → (table_uids to_lower contains_text m).valid ≡ true
      → IsRight to_lower contains_text m.pods (table_uids to_lower contains_text m)
  unfolding table_uids
  asks-IsRight m inv =
      if-case
        (λ (o : TableOrder).
          o.uids ≡ build_table_uids to_lower contains_text m
          → o.valid ≡ true
          → IsRight to_lower contains_text m.pods o)
        (is_stale to_lower contains_text m.order (table_key m))
        (λ _.
          if-case
            (λ (o : TableOrder).
              o.uids ≡ build_table_uids to_lower contains_text m
              → o.valid ≡ true
              → IsRight to_lower contains_text m.pods o)
            (can_merge to_lower contains_text m.order (table_key m))
            (λ _ e v. fresh-IsRight m _ inv.kept e) (λ _ e v. fresh-IsRight m _ inv.kept e))
        (λ _ e v. inv.right v) (table_uids-build to_lower contains_text m inv.kept inv.right)

  apply_change-IsFresh :
      (c : Change) (m : Tables)
      → IsNamed c
      → IsFresh m
      → IsFresh (apply_change to_lower contains_text c m)
  unfolding apply_change
  apply_change-IsFresh (writes r) m n inv = record {
    kept = store_pod-IsKept r m.pods n inv.kept;
    right = λ v.
        let valid : m.order.valid ≡ true = still_valid (m.pods.rows r.uid) r m.order v in
        writes-IsRight r m.pods m.order inv.kept n valid (inv.right valid);
  }
  apply_change-IsFresh (deletes u) m n inv = record {
    kept = delete_pod-IsKept u m.pods inv.kept;
    right = λ v.
        let valid : m.order.valid ≡ true = still_valid (m.pods.rows u) zero_row m.order v in
        deletes-IsRight u m.pods m.order inv.kept valid (inv.right valid);
  }
  apply_change-IsFresh (configures f s k d) m n inv = record { kept = inv.kept; right = inv.right }
  apply_change-IsFresh invalidates m n inv = record { kept = inv.kept; right = λ v. cc }
  apply_change-IsFresh asks m n inv = record { kept = inv.kept; right = asks-IsRight m inv }

  apply_changes-IsFresh :
      (cs : List Change) (m : Tables)
      → All IsNamed cs
      → IsFresh m
      → IsFresh (apply_changes to_lower contains_text cs m)
  apply_changes-IsFresh [] m h inv = inv
  apply_changes-IsFresh (c ∷ cs) m (n, h) inv =
      apply_changes-IsFresh cs (apply_change to_lower contains_text c m) h
        (apply_change-IsFresh c m n inv)

  new_tables-IsFresh : IsFresh new_tables
  new_tables-IsFresh = record { kept = no_pods-IsKept; right = λ v. cc }

  -- After any writes of rows with a UID, deletions, changes of the settings, invalidations and questions,
  -- in any order, the table shows the pods in the order that a new sort of them would give.
  pub table_uids-build_table_uids :
      (cs : List Change)
      → All IsNamed cs
      → (table_uids to_lower contains_text
          (apply_changes to_lower contains_text cs new_tables)).uids
        ≡ build_table_uids to_lower contains_text
            (apply_changes to_lower contains_text cs new_tables)
  table_uids-build_table_uids cs h =
      let inv : IsFresh (apply_changes to_lower contains_text cs new_tables) =
        apply_changes-IsFresh cs new_tables h new_tables-IsFresh in
      table_uids-build to_lower contains_text (apply_changes to_lower contains_text cs new_tables)
        inv.kept inv.right
