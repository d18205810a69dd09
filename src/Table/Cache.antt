-- ===== src/Table/Cache.antt =====
-- internal/ui/table_cache.go: the cached order of the pods, with the calls of internal/ui/app.go and
-- internal/ui/network.go that change a pod. The cached count and the other tables are left out.
use kubetin.Common.{
  ℕ, String, Bool, true, false, not, ◌&&◌, ◌||◌, List, [], ◌∷◌, has, ◌==◌, str_eq, filter, length,
  if◌then◌else◌,
}
use kubetin.Common.Sort.{sort}
use kubetin.Table.Merge.{merge}
use kubetin.Table.Rows.{
  SortKey, sort_namespace, sort_name, sort_status, sort_restarts, sort_age, sort_cpu, sort_mem,
  sort_mem_pct, sort_net_rx, sort_net_tx, sort_node, PodRow, zero_row, PodMap, no_pods, store_pod,
  delete_pod, less_by, less_pod_uid, pod_matches, sorted_pod_uids,
}

pub record TableKey : Type 0 where
  pub filter_text : String
  pub namespace : String
  pub sort_key : SortKey
  pub desc : Bool
  pub size : ℕ

pub record TableOrder : Type 0 where
  pub key : TableKey
  pub valid : Bool
  pub uids : List String
  pub dirty : List String

-- `key` holds the model's filter, namespace, sort key and direction; its size is that of the pods.
pub record Tables : Type 0 where
  pub pods : PodMap
  pub filter_text : String
  pub namespace : String
  pub sort_key : SortKey
  pub sort_desc : Bool
  pub order : TableOrder

abbrev pub new_order : TableOrder
new_order = record {
  key = record {
    filter_text = "";
    namespace = "";
    sort_key = sort_namespace;
    desc = false;
    size = 0;
  };
  valid = false;
  uids = [];
  dirty = [];
}

abbrev pub new_tables : Tables
new_tables = record {
  pods = no_pods;
  filter_text = "";
  namespace = "";
  sort_key = sort_namespace;
  sort_desc = false;
  order = new_order;
}

abbrev pub code_of : SortKey → ℕ
code_of sort_namespace = 0
code_of sort_name = 1
code_of sort_status = 2
code_of sort_restarts = 3
code_of sort_age = 4
code_of sort_cpu = 5
code_of sort_mem = 6
code_of sort_mem_pct = 7
code_of sort_net_rx = 8
code_of sort_net_tx = 9
code_of sort_node = 10

abbrev pub same_bool : Bool → Bool → Bool
same_bool true b = b
same_bool false b = not b

-- `==` on keys
abbrev pub same_key : TableKey → TableKey → Bool
same_key a b =
    str_eq a.filter_text b.filter_text
    && str_eq a.namespace b.namespace
    && (code_of a.sort_key == code_of b.sort_key)
    && same_bool a.desc b.desc
    && (a.size == b.size)

abbrev pub mark : String → List String → List String
mark u us = if str_eq u "" || has u us then us else u ∷ us

unfoldable pub identity_changed : PodRow → PodRow → Bool
identity_changed before after =
    not (str_eq before.uid after.uid)
    || not (str_eq before.namespace after.namespace)
    || not (str_eq before.name after.name)

unfoldable pub invalidate_pod_order : PodRow → PodRow → TableOrder → TableOrder
unfolding identity_changed less_by
invalidate_pod_order before after e =
    if e.valid
      && (identity_changed before after
          || less_by before after e.key.sort_key
          || less_by after before e.key.sort_key)
    then record e { dirty = mark after.uid (mark before.uid e.dirty) }
    else e

abbrev pub table_key : Tables → TableKey
table_key m = record {
  filter_text = m.filter_text;
  namespace = m.namespace;
  sort_key = m.sort_key;
  desc = m.sort_desc;
  size = length m.pods.uids;
}

-- A pod's row is written, a pod is deleted, the table's settings change, the tables are invalidated,
-- or the order is asked for.
pub data Change : Type 0 where
  writes : PodRow → Change
  deletes : String → Change
  configures : String → String → SortKey → Bool → Change
  invalidates asks : Change

module _ (to_lower : String → String) (contains_text : String → String → Bool) where
  -- The pods that are dirty and shown, in the order of the key.
  abbrev pub changed_uids : PodMap → TableKey → List String → List String
  changed_uids m key dirty = sort (less_pod_uid m key.sort_key key.desc) (
      filter
        (λ u.
          has u m.uids
          && pod_matches to_lower contains_text m key.namespace (to_lower key.filter_text) u)
        dirty)

  unfoldable pub merge_pod_order : PodMap → TableOrder → TableKey → List String
  unfolding less_pod_uid merge sort
  merge_pod_order m e key =
      merge (less_pod_uid m key.sort_key key.desc) (λ u. has u e.dirty) e.uids
        (changed_uids m key e.dirty)

  abbrev pub is_stale : TableOrder → TableKey → Bool
  is_stale e key = not e.valid || not (same_key e.key key) || not (length e.dirty == 0)

  -- Whether the cached order is for the same key but for the number of pods, and some of them are dirty.
  abbrev pub can_merge : TableOrder → TableKey → Bool
  can_merge e key =
      e.valid && same_key (record e.key { size = key.size }) key && not (length e.dirty == 0)

  abbrev pub build_table_uids : Tables → List String
  build_table_uids m =
      sorted_pod_uids to_lower contains_text m.pods m.sort_key m.sort_desc m.namespace
        (to_lower m.filter_text)

  abbrev pub fresh_order : Tables → List String → TableOrder
  fresh_order m us = record { key = table_key m; valid = true; uids = us; dirty = [] }

  unfoldable pub table_uids : Tables → TableOrder
  unfolding merge_pod_order sorted_pod_uids
  table_uids m =
      if is_stale m.order (table_key m)
      then if can_merge m.order (table_key m)
        then fresh_order m (merge_pod_order m.pods m.order (table_key m))
        else fresh_order m (build_table_uids m)
      else m.order

  unfoldable pub apply_change : Change → Tables → Tables
  unfolding invalidate_pod_order table_uids
  apply_change (writes r) m = record m {
    pods = store_pod r.uid r m.pods;
    order = invalidate_pod_order (m.pods.rows r.uid) r m.order;
  }
  apply_change (deletes u) m = record m {
    pods = delete_pod u m.pods;
    order = invalidate_pod_order (m.pods.rows u) zero_row m.order;
  }
  apply_change (configures f n k d) m = record m {
    filter_text = f;
    namespace = n;
    sort_key = k;
    sort_desc = d;
  }
  apply_change invalidates m = record m { order = new_order }
  apply_change asks m = record m { order = table_uids m }

  abbrev pub apply_changes : List Change → Tables → Tables
  apply_changes [] m = m
  apply_changes (c ∷ cs) m = apply_changes cs (apply_change c m)
