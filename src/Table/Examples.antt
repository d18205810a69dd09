-- ===== src/Table/Examples.antt =====
-- Tests and the witness of the pod table.
use kubetin.Common.{ℕ, ◌≡◌, refl, String, Bool, false, List, [], ◌∷◌}
use kubetin.Common.Int.{pos}
use kubetin.Common.Sort.{sort, insert}
use kubetin.Table.Merge.{merge}
use kubetin.Table.Rows.{
  sort_restarts, sort_value, PodRow, zero_row, less_by, less_pod_uid, sorted_pod_uids,
}
use kubetin.Table.Cache.{
  new_tables, Change, writes, deletes, configures, asks, identity_changed, invalidate_pod_order,
  merge_pod_order, table_uids, build_table_uids, apply_change, apply_changes,
}
use kubetin.Table.Changed.{table_uids-build_table_uids}

abbrev same_text : String → String
same_text s = s

abbrev contains_none : String → String → Bool
contains_none s t = false

abbrev pod : String → String → ℕ → PodRow
pod u n r = record zero_row { uid = u; namespace = "prod"; name = n; restarts = pos r }

-- By restarts: a pod overtakes another, one is deleted, and one is new.
abbrev busy : List Change
busy =
    configures "" "" sort_restarts false
    ∷ writes (pod "u1" "web" 1)
    ∷ writes (pod "u2" "db" 4)
    ∷ writes (pod "u3" "mail" 2)
    ∷ asks
    ∷ writes (pod "u1" "web" 5)
    ∷ deletes "u3"
    ∷ writes (pod "u4" "job" 3)
    ∷ []

busy_uids :
    (table_uids same_text contains_none
      (apply_changes same_text contains_none busy new_tables)).uids
    ≡ "u4" ∷ "u2" ∷ "u1" ∷ []
unfolding table_uids merge_pod_order sorted_pod_uids apply_change invalidate_pod_order
    identity_changed less_pod_uid less_by sort_value merge sort insert
busy_uids = refl

table_uids-build_table_uids_example :
    (table_uids same_text contains_none
      (apply_changes same_text contains_none busy new_tables)).uids
    ≡ build_table_uids same_text contains_none
        (apply_changes same_text contains_none busy new_tables)
table_uids-build_table_uids_example =
    table_uids-build_table_uids same_text contains_none busy
      (tt, (refl, (refl, (refl, (tt, (refl, (tt, (refl, tt))))))))
