-- ===== src/Fleet/Examples.antt =====
-- internal/ui/fleethealth.go: a fleet of three clusters.
use kubetin.Common.{◌≤◌, ◌≡◌, refl, true, List, [], ◌∷◌, length, if◌then◌else◌, ◌||◌, All, count_if}
use kubetin.Common.Int.{pos, negsuc}
use kubetin.Common.Sort.{InOrder}
use kubetin.State.Defs.{healthy, degraded, unreachable, auth_failed, zero_state, ClusterState}
use kubetin.Fleet.Alerts.{cluster_alerts, name_list}
use kubetin.Fleet.Groups.{group_fleet, derive_pulse}
use kubetin.Fleet.Grouped.{members, in_attention, in_healthy, in_starting, in_offline}
use kubetin.Fleet.Ordered.{IsSortOf, urgent_first, name_first, login_first, group_fleet-IsSortOf}
use kubetin.Fleet.Pulse.{derive_pulse-group_fleet}
use kubetin.Fleet.Faults.{is_crit, is_warn, answers, critical_faults, warning_faults}
use kubetin.Fleet.Severity.{no_milder, cluster_alerts-InOrder}

abbrev broken : ClusterState
broken = record zero_state {
  context = "prod";
  reach = degraded;
  node_count = pos 3;
  node_ready = pos 2;
  pods_failed = pos 2;
  nodes_not_ready_names = "n1" ∷ [];
  metrics_available = true;
  alloc_mem_bytes = pos 1000;
  usage_mem_bytes = pos 850;
}

abbrev loading : ClusterState
loading = record zero_state {
  context = "dev";
  reach = healthy;
  node_count = pos 0;
  node_ready = negsuc 0;
  pods_total = negsuc 0;
  pods_failed = negsuc 0;
  pods_pending = negsuc 0;
  nodes_cordoned = negsuc 0;
}

abbrev fleet : List ClusterState
fleet =
    record zero_state { context = "lab"; reach = unreachable }
    ∷ loading
    ∷ broken
    ∷ record zero_state { context = "vpn"; reach = auth_failed }
    ∷ []

named :
    name_list "3 nodes NotReady" ("n1" ∷ "n2" ∷ []) (pos 3) ≡ "3 nodes NotReady (n1, n2 +1 more)"
unfolding name_list kubetin.Common.Int.◌-ℤ◌ kubetin.Common.Text.decimal
named = refl

cluster_alerts-InOrder_example :
    (count_if is_crit (cluster_alerts 5 broken)
      ≡ (if answers degraded then critical_faults 5 broken else 0))
    × (count_if is_warn (cluster_alerts 5 broken)
        ≡ (if answers degraded then warning_faults 5 broken else 0))
    × All (λ a. (is_crit a || is_warn a) ≡ true) (cluster_alerts 5 broken)
    × InOrder no_milder (cluster_alerts 5 broken)
unfolding zero_state
cluster_alerts-InOrder_example = cluster_alerts-InOrder 5 broken

group_fleet-IsSortOf_example :
    IsSortOf urgent_first (group_fleet 5 fleet).attention (members in_attention 5 fleet)
    × IsSortOf name_first (group_fleet 5 fleet).healthy_ones (members in_healthy 5 fleet)
    × IsSortOf name_first (group_fleet 5 fleet).starting (members in_starting 5 fleet)
    × IsSortOf login_first (group_fleet 5 fleet).offline (members in_offline 5 fleet)
group_fleet-IsSortOf_example = group_fleet-IsSortOf 5 fleet

derive_pulse-group_fleet_example :
    ((derive_pulse (group_fleet 5 fleet)).clusters ≡ length fleet)
    × ((derive_pulse (group_fleet 5 fleet)).need_action ≡ length (members in_attention 5 fleet))
    × ((derive_pulse (group_fleet 5 fleet)).offline ≡ length (members in_offline 5 fleet))
    × ((derive_pulse (group_fleet 5 fleet)).cpu_pct ≤ 100)
    × ((derive_pulse (group_fleet 5 fleet)).mem_pct ≤ 100)
derive_pulse-group_fleet_example = derive_pulse-group_fleet 5 fleet
