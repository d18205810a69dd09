-- ===== src/Fleet/Pulse.antt =====
-- internal/ui/fleethealth.go, `derivePulse`: what the line over the fleet says of a whole snapshot.
use kubetin.Common.{ℕ, suc, ◌+◌, ◌≤◌, ◌≡◌, refl, ap, ◌∙◌, List, [], ◌∷◌, length, arith}
use kubetin.Common.Int.{ℤ}
use kubetin.Common.Sort.{length-sort}
use kubetin.State.Defs.{ClusterState}
use kubetin.Fleet.Alerts.{pct}
use kubetin.Fleet.Groups.{
  FleetEntry, FleetGroups, PulseSums, by_urgency, by_name, by_login, sort_groups, group_fleet,
  count_cluster, add_usage, each, start_sums, finish_pulse, derive_pulse,
}
use kubetin.Fleet.Grouped.{
  members, in_attention, in_healthy, in_starting, in_offline, group_of, members_with, FleetGroup,
  place_all-gathered,
}

add_usage-clusters :
    (st : ClusterState) (s : PulseSums) → (add_usage st s).pulse.clusters ≡ s.pulse.clusters
unfolding add_usage
add_usage-clusters st s = ground arith

add_usage-need_action :
    (st : ClusterState) (s : PulseSums) → (add_usage st s).pulse.need_action ≡ s.pulse.need_action
unfolding add_usage
add_usage-need_action st s = ground arith

add_usage-offline :
    (st : ClusterState) (s : PulseSums) → (add_usage st s).pulse.offline ≡ s.pulse.offline
unfolding add_usage
add_usage-offline st s = ground arith

-- `each` counts its clusters and leaves the two other counts alone.
each_counts :
    (es : List FleetEntry) (s : PulseSums)
    → ((each es s).pulse.clusters ≡ s.pulse.clusters + length es)
      × ((each es s).pulse.need_action ≡ s.pulse.need_action)
      × ((each es s).pulse.offline ≡ s.pulse.offline)
unfolding each count_cluster
each_counts [] s = (omega arith, refl, refl)
each_counts (e ∷ es) s =
    let s' : PulseSums = record s { pulse = count_cluster e.st s.pulse } in
    let (a, b, c) = each_counts es (add_usage e.st s') in
    let ua = add_usage-clusters e.st s' in
    (omega (arith, a, ua), b ∙ add_usage-need_action e.st s', c ∙ add_usage-offline e.st s')

pct_bound : (used alloc : ℤ) → pct used alloc ≤ 100
unfolding pct
pct_bound used alloc = ground arith

-- A cluster is in exactly one group.
sizes_with :
    (h : FleetGroup) (now : ℕ) (st : ClusterState) (snap : List ClusterState)
    → length (members_with h in_attention now st snap)
        + length (members_with h in_healthy now st snap)
        + (length (members_with h in_starting now st snap)
            + length (members_with h in_offline now st snap))
      ≡ suc (
          length (members in_attention now snap)
          + length (members in_healthy now snap)
          + (length (members in_starting now snap) + length (members in_offline now snap)))
sizes_with in_attention now st snap = omega arith
sizes_with in_healthy now st snap = omega arith
sizes_with in_starting now st snap = omega arith
sizes_with in_offline now st snap = omega arith

sizes :
    (now : ℕ) (snap : List ClusterState)
    → length (members in_attention now snap)
        + length (members in_healthy now snap)
        + (length (members in_starting now snap) + length (members in_offline now snap))
      ≡ length snap
sizes now [] = refl
sizes now (st ∷ snap) = sizes_with (group_of now st) now st snap ∙ ap suc (sizes now snap)

group_sizes :
    (now : ℕ) (snap : List ClusterState)
    → (length (group_fleet now snap).attention ≡ length (members in_attention now snap))
      × (length (group_fleet now snap).healthy_ones ≡ length (members in_healthy now snap))
      × (length (group_fleet now snap).starting ≡ length (members in_starting now snap))
      × (length (group_fleet now snap).offline ≡ length (members in_offline now snap))
unfolding group_fleet sort_groups
group_sizes now snap =
    let none : FleetGroups = record {
      attention = [];
      healthy_ones = [];
      starting = [];
      offline = [];
    } in
    rw (place_all-gathered now snap none) (
      length-sort by_urgency (members in_attention now snap),
      length-sort by_name (members in_healthy now snap),
      length-sort by_name (members in_starting now snap),
      length-sort by_login (members in_offline now snap),
    )

-- The counts of the line for any groups.
derive_pulse_counts :
    (g : FleetGroups)
    → ((derive_pulse g).clusters
        ≡ length g.attention + length g.healthy_ones + (length g.starting + length g.offline))
      × ((derive_pulse g).need_action ≡ length g.attention)
      × ((derive_pulse g).offline ≡ length g.offline)
unfolding derive_pulse finish_pulse
derive_pulse_counts g =
    let first : PulseSums = each g.attention (start_sums g) in
    let (a, b, c) = each_counts g.attention (start_sums g) in
    let (d, e, f) = each_counts g.healthy_ones first in (omega (arith, a, d), e ∙ b, f ∙ c)

derive_pulse_percents :
    (g : FleetGroups) → ((derive_pulse g).cpu_pct ≤ 100) × ((derive_pulse g).mem_pct ≤ 100)
unfolding derive_pulse finish_pulse
derive_pulse_percents g =
    let s : PulseSums = each g.healthy_ones (each g.attention (start_sums g)) in
    (pct_bound s.usage_cpu s.alloc_cpu, pct_bound s.usage_mem s.alloc_mem)

-- The line counts every cluster of the snapshot once, those that need attention and those that are
-- offline as the groups do, and no percentage is over 100.
pub derive_pulse-group_fleet :
    (now : ℕ) (snap : List ClusterState)
    → ((derive_pulse (group_fleet now snap)).clusters ≡ length snap)
      × ((derive_pulse (group_fleet now snap)).need_action ≡ length (members in_attention now snap))
      × ((derive_pulse (group_fleet now snap)).offline ≡ length (members in_offline now snap))
      × ((derive_pulse (group_fleet now snap)).cpu_pct ≤ 100)
      × ((derive_pulse (group_fleet now snap)).mem_pct ≤ 100)
derive_pulse-group_fleet now snap =
    let (a, b, c) = derive_pulse_counts (group_fleet now snap) in
    let (p, q, r, t) = group_sizes now snap in
    let (cpu, mem) = derive_pulse_percents (group_fleet now snap) in
    (omega (arith, a, p, q, r, t, sizes now snap), b ∙ p, c ∙ t, cpu, mem)
