-- ===== src/Table/Rows.antt =====
-- internal/ui/pod.go: the rows of the pod table, `lessBy`, and `sortedPodUIDs`; `networkSortValue` of
-- internal/ui/network.go and `matchesNames` of internal/ui/table_cache.go.
--
-- The fields are those that the order reads. The map of pods is the list of its UIDs, in the order in
-- which the loop meets them, with a function that is the zero row elsewhere.
use kubetin.Common.{
  ℕ, suc, ◌-◌, ◌*◌, ◌/◌, ◌%◌, ◌^◌, String, Bool, true, false, not, ◌&&◌, ◌||◌, List, [], ◌∷◌, has,
  ◌==◌, ltb, str_eq, filter, if◌then◌else◌, update,
}
use kubetin.Common.Int.{ℤ, pos, negsuc, ltb_ℤ}
use kubetin.Common.Sort.{sort}
use kubetin.Common.Text.{text_ltb}
use kubetin.Table.Linear.{eq_ℤ}

pub data SortKey : Type 0 where
  sort_namespace sort_name sort_status sort_restarts sort_age sort_cpu : SortKey
  sort_mem sort_mem_pct sort_net_rx sort_net_tx sort_node : SortKey

pub record PodRow : Type 0 where
  pub uid : String
  pub namespace : String
  pub name : String
  pub phase : String
  pub restarts : ℤ
  pub node : String
  pub created_at : ℕ
  pub mem_limit_bytes : ℤ
  pub cpu_milli : ℤ
  pub mem_bytes : ℤ
  pub has_metrics : Bool
  pub net_rx_bps : ℤ
  pub net_tx_bps : ℤ
  pub has_network : Bool

-- `podRow{}`
abbrev pub zero_row : PodRow
zero_row = record {
  uid = "";
  namespace = "";
  name = "";
  phase = "";
  restarts = pos 0;
  node = "";
  created_at = 0;
  mem_limit_bytes = pos 0;
  cpu_milli = pos 0;
  mem_bytes = pos 0;
  has_metrics = false;
  net_rx_bps = pos 0;
  net_tx_bps = pos 0;
  has_network = false;
}

pub record PodMap : Type 0 where
  pub uids : List String
  pub rows : String → PodRow

abbrev pub no_pods : PodMap
no_pods = record { uids = []; rows = λ u. zero_row }

abbrev pub store_pod : String → PodRow → PodMap → PodMap
store_pod u r m = record {
  uids = if has u m.uids then m.uids else u ∷ m.uids;
  rows = update u r m.rows;
}

abbrev pub delete_pod : String → PodMap → PodMap
delete_pod u m = record {
  uids = filter (λ v. not (str_eq u v)) m.uids;
  rows = update u zero_row m.rows;
}

-- What is left of an `int64` product or quotient: its bits, read with their sign.
abbrev pub int64_of : ℕ → ℤ
int64_of b = if ltb b (2 ^ 63) then pos b else negsuc (2 ^ 64 - 1 - b)

-- `MemBytes * 100`
abbrev pub hundred_times : ℤ → ℤ
hundred_times (pos n) = int64_of (n * 100 % 2 ^ 64)
hundred_times (negsuc n) = int64_of ((2 ^ 64 - suc n * 100 % 2 ^ 64) % 2 ^ 64)

-- Division by a positive number, towards 0.
abbrev pub quotient_by : ℕ → ℤ → ℤ
quotient_by d (pos n) = pos (n / d)
quotient_by d (negsuc n) = if suc n / d == 0 then pos 0 else negsuc (suc n / d - 1)

-- `podMemPct` and `memPctSortValue`
unfoldable pub mem_pct_sort_value : PodRow → ℤ
mem_pct_sort_value r = elim r.mem_limit_bytes [
  | pos l ↦
      if not r.has_metrics || l == 0 then negsuc 0 else quotient_by l (hundred_times r.mem_bytes)
  | negsuc l ↦ negsuc 0
]

-- `podMetricSortValue` and `networkSortValue`
abbrev pub metric_sort_value : ℤ → Bool → ℤ
metric_sort_value v available = if available then v else negsuc 0

-- What `lessBy` compares first.
pub data SortValue : Type 0 where
  text : String → SortValue
  number : ℤ → SortValue

unfoldable pub sort_value : SortKey → PodRow → SortValue
unfolding mem_pct_sort_value
sort_value sort_namespace r = text r.namespace
sort_value sort_name r = text r.name
sort_value sort_status r = text r.phase
sort_value sort_restarts r = number r.restarts
sort_value sort_age r = number (pos r.created_at)
sort_value sort_cpu r = number (metric_sort_value r.cpu_milli r.has_metrics)
sort_value sort_mem r = number (metric_sort_value r.mem_bytes r.has_metrics)
sort_value sort_mem_pct r = number (mem_pct_sort_value r)
sort_value sort_net_rx r = number (metric_sort_value r.net_rx_bps r.has_network)
sort_value sort_net_tx r = number (metric_sort_value r.net_tx_bps r.has_network)
sort_value sort_node r = text r.node

-- Two values of one key are of one kind.
abbrev pub value_ltb : SortValue → SortValue → Bool
value_ltb (text s) (text t) = text_ltb s t
value_ltb (text s) (number b) = true
value_ltb (number a) (text t) = false
value_ltb (number a) (number b) = ltb_ℤ a b

abbrev pub value_eq : SortValue → SortValue → Bool
value_eq (text s) (text t) = str_eq s t
value_eq (number a) (number b) = eq_ℤ a b
value_eq _ _ = false

unfoldable pub less_by : PodRow → PodRow → SortKey → Bool
unfolding sort_value
less_by a b k =
    if value_eq (sort_value k a) (sort_value k b)
    then if str_eq a.namespace b.namespace
      then if str_eq a.name b.name then text_ltb a.uid b.uid else text_ltb a.name b.name
      else text_ltb a.namespace b.namespace
    else value_ltb (sort_value k a) (sort_value k b)

unfoldable pub less_pod_uid : PodMap → SortKey → Bool → String → String → Bool
unfolding less_by
less_pod_uid m k desc a b =
    if desc then less_by (m.rows b) (m.rows a) k else less_by (m.rows a) (m.rows b) k

-- `strings.ToLower` and `strings.Contains`
module _ (to_lower : String → String) (contains_text : String → String → Bool) where
  abbrev pub matches_names : String → String → String → String → Bool
  matches_names ns name namespace needle =
      (str_eq namespace "" || str_eq ns namespace)
      && (str_eq needle ""
          || contains_text (to_lower ns) needle
          || contains_text (to_lower name) needle)

  abbrev pub pod_matches : PodMap → String → String → String → Bool
  pod_matches m namespace needle u =
      matches_names (m.rows u).namespace (m.rows u).name namespace needle

  unfoldable pub sorted_pod_uids : PodMap → SortKey → Bool → String → String → List String
  unfolding less_pod_uid sort
  sorted_pod_uids m k desc namespace needle =
      sort (less_pod_uid m k desc) (filter (pod_matches m namespace needle) m.uids)
