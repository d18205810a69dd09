-- ===== src/Fleet/Groups.antt =====
-- internal/ui/fleethealth.go: `fleetEntry`, `fleetGroups`, `groupFleet`, `derivePulse`.
--
-- One instant stands for the clock in all alerts. The names of contexts differ, so there is one order
-- that each `sort.Slice` can give.
use kubetin.Common.{
  ℕ, ◌+◌, Bool, true, false, not, ◌&&◌, ◌||◌, List, [], ◌∷◌, ◌++◌, length, ltb, leb, ◌==◌,
  if◌then◌else◌,
}
use kubetin.Common.Int.{ℤ, pos, pos_part, neg_part, ltb_ℤ, ◌-ℤ◌, ◌+ℤ◌}
use kubetin.Common.Sort.{sort}
use kubetin.Common.Text.{text_ltb}
use kubetin.State.Defs.{Reach, unknown, connecting, unreachable, auth_failed, ClusterState}
use kubetin.Fleet.Alerts.{
  ClusterAlert, cluster_alerts, worst_severity, sev_code, alert_counts, pct, is_positive,
}

pub record FleetEntry : Type 0 where
  pub st : ClusterState
  pub alerts : List ClusterAlert

pub record FleetGroups : Type 0 where
  pub attention : List FleetEntry
  pub healthy_ones : List FleetEntry
  pub starting : List FleetEntry
  pub offline : List FleetEntry

abbrev pub is_offline : Reach → Bool
is_offline unreachable = true
is_offline auth_failed = true
is_offline _ = false

abbrev pub is_starting : Reach → Bool
is_starting connecting = true
is_starting unknown = true
is_starting _ = false

abbrev pub entry : ℕ → ClusterState → FleetEntry
entry now st = record { st = st; alerts = cluster_alerts now st }

-- The switch of the loop.
unfoldable pub place : FleetEntry → FleetGroups → FleetGroups
place e g =
    if is_offline e.st.reach
    then record g { offline = g.offline ++ e ∷ [] }
    else if is_starting e.st.reach
    then record g { starting = g.starting ++ e ∷ [] }
    else if leb 1 (sev_code (worst_severity e.alerts))
    then record g { attention = g.attention ++ e ∷ [] }
    else record g { healthy_ones = g.healthy_ones ++ e ∷ [] }

unfoldable pub place_all : ℕ → List ClusterState → FleetGroups → FleetGroups
unfolding place
place_all now [] g = g
place_all now (st ∷ sts) g = place_all now sts (place (entry now st) g)

unfoldable pub by_urgency : FleetEntry → FleetEntry → Bool
by_urgency a b =
    let (ci, wi) = alert_counts a.alerts in
    let (cj, wj) = alert_counts b.alerts in
    if not (ci == cj)
    then ltb cj ci
    else if not (wi == wj)
    then ltb wj wi
    else text_ltb a.st.context b.st.context

abbrev pub by_name : FleetEntry → FleetEntry → Bool
by_name a b = text_ltb a.st.context b.st.context

abbrev pub is_auth_failed : Reach → Bool
is_auth_failed auth_failed = true
is_auth_failed _ = false

unfoldable pub by_login : FleetEntry → FleetEntry → Bool
by_login a b =
    let ai = is_auth_failed a.st.reach in
    let aj = is_auth_failed b.st.reach in
    if (ai && not aj) || (aj && not ai) then ai else text_ltb a.st.context b.st.context

unfoldable pub sort_groups : FleetGroups → FleetGroups
unfolding by_urgency by_login
sort_groups g = record {
  attention = sort by_urgency g.attention;
  healthy_ones = sort by_name g.healthy_ones;
  starting = sort by_name g.starting;
  offline = sort by_login g.offline;
}

unfoldable pub group_fleet : ℕ → List ClusterState → FleetGroups
unfolding place_all sort_groups
group_fleet now snap =
    sort_groups (
      place_all now snap
        (record { attention = []; healthy_ones = []; starting = []; offline = [] }))

pub record FleetPulse : Type 0 where
  pub clusters : ℕ
  pub need_action : ℕ
  pub nodes : ℕ
  pub nodes_bad : ℕ
  pub pods : ℕ
  pub pods_bad : ℕ
  pub all_pods_known : Bool
  pub cpu_pct : ℕ
  pub mem_pct : ℕ
  pub has_metrics : Bool
  pub offline : ℕ

-- The variables of `derivePulse` that `each` adds to.
pub record PulseSums : Type 0 where
  pub pulse : FleetPulse
  pub usage_cpu : ℤ
  pub alloc_cpu : ℤ
  pub usage_mem : ℤ
  pub alloc_mem : ℤ

abbrev pub is_known : ℤ → Bool
is_known n = neg_part n == 0

abbrev bad_nodes : ClusterState → ℕ
bad_nodes st =
    if is_known st.node_ready && ltb_ℤ st.node_ready st.node_count
    then pos_part (st.node_count -ℤ st.node_ready)
    else 0

-- A negative count adds nothing.
abbrev bad_pods : ClusterState → ℕ
bad_pods st =
    pos_part st.pods_pending
    + pos_part st.pods_failed
    + pos_part st.pods_unknown_phase
    + pos_part st.pods_not_ready

unfoldable pub count_cluster : ClusterState → FleetPulse → FleetPulse
count_cluster st p = record p {
  clusters = p.clusters + 1;
  nodes = if is_positive st.node_count then p.nodes + pos_part st.node_count else p.nodes;
  nodes_bad = if is_positive st.node_count then p.nodes_bad + bad_nodes st else p.nodes_bad;
  pods = if is_known st.pods_total then p.pods + pos_part st.pods_total else p.pods;
  all_pods_known = p.all_pods_known && is_known st.pods_total;
  pods_bad = p.pods_bad + bad_pods st;
}

unfoldable pub add_usage : ClusterState → PulseSums → PulseSums
add_usage st s =
    if st.metrics_available && is_positive st.alloc_cpu_milli
    then record {
      pulse = record s.pulse { has_metrics = true };
      usage_cpu = s.usage_cpu +ℤ st.usage_cpu_milli;
      alloc_cpu = s.alloc_cpu +ℤ st.alloc_cpu_milli;
      usage_mem = s.usage_mem +ℤ st.usage_mem_bytes;
      alloc_mem = s.alloc_mem +ℤ st.alloc_mem_bytes;
    }
    else s

-- `each`
unfoldable pub each : List FleetEntry → PulseSums → PulseSums
unfolding count_cluster add_usage
each [] s = s
each (e ∷ es) s = each es (add_usage e.st (record s { pulse = count_cluster e.st s.pulse }))

abbrev pub start_sums : FleetGroups → PulseSums
start_sums g = record {
  pulse = record {
    clusters = 0;
    need_action = length g.attention;
    nodes = 0;
    nodes_bad = 0;
    pods = 0;
    pods_bad = 0;
    all_pods_known = true;
    cpu_pct = 0;
    mem_pct = 0;
    has_metrics = false;
    offline = length g.offline;
  };
  usage_cpu = pos 0;
  alloc_cpu = pos 0;
  usage_mem = pos 0;
  alloc_mem = pos 0;
}

unfoldable pub finish_pulse : FleetGroups → PulseSums → FleetPulse
unfolding pct
finish_pulse g s = record s.pulse {
  clusters = s.pulse.clusters + (length g.starting + length g.offline);
  cpu_pct = pct s.usage_cpu s.alloc_cpu;
  mem_pct = pct s.usage_mem s.alloc_mem;
}

unfoldable pub derive_pulse : FleetGroups → FleetPulse
unfolding each finish_pulse
derive_pulse g = finish_pulse g (each g.healthy_ones (each g.attention (start_sums g)))
