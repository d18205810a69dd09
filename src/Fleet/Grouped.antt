-- ===== src/Fleet/Grouped.antt =====
-- internal/ui/fleethealth.go: which group a cluster is in, and in which order.
use kubetin.Common.{
  ℕ, String, ◌≡◌, refl, ap, ◌∙◌, Bool, true, false, ◌||◌, List, [], ◌∷◌, ◌++◌, append-nil,
  append_assoc, map, filter, All, leb, ◌==◌, if◌then◌else◌, arith,
}
use kubetin.Common.Int.{ℤ}
use kubetin.Common.Sort.{sort, sort-All}
use kubetin.State.Defs.{
  Reach, unknown, connecting, healthy, degraded, unreachable, auth_failed, ClusterState,
}
use kubetin.Fleet.Alerts.{
  AlertSeverity, sev_info, sev_warn, sev_crit, sev_code, ClusterAlert, alert_if, worse, worst_from,
  worst_severity, findings, cluster_alerts, more_severe, node_alerts, degraded_alerts,
  deploy_alerts, pressure_alerts, count_alerts, pending_alerts, event_alerts, memory_alerts,
  is_positive,
}
use kubetin.Fleet.Groups.{FleetEntry, FleetGroups, is_offline, is_starting, entry, place, place_all}

-- An alert that is a warning or worse.
abbrev pub Matters : ClusterAlert → Type 0
Matters a = leb 1 (sev_code a.sev) ≡ true

unfoldable AllMatter : List ClusterAlert → Type 0
AllMatter as' = All Matters as'

append-AllMatter : (xs ys : List ClusterAlert) → AllMatter xs → AllMatter ys → AllMatter (xs ++ ys)
unfolding AllMatter
append-AllMatter [] ys a b = b
append-AllMatter (x ∷ xs) ys (p, a) b = (p, append-AllMatter xs ys a b)

nil-AllMatter : AllMatter []
unfolding AllMatter
nil-AllMatter = tt

alert_if-AllMatter :
    (b : Bool) (sev : AlertSeverity) (t : String)
    → leb 1 (sev_code sev) ≡ true
    → AllMatter (alert_if b sev t)
unfolding AllMatter
alert_if-AllMatter true sev t h = (h, tt)
alert_if-AllMatter false sev t h = tt

deploy_severity : (b : Bool) → leb 1 (sev_code (if b then sev_crit else sev_warn)) ≡ true
deploy_severity true = refl
deploy_severity false = refl

node_alerts-AllMatter : (st : ClusterState) → AllMatter (node_alerts st)
unfolding node_alerts
node_alerts-AllMatter st = alert_if-AllMatter _ sev_crit _ refl

degraded_alerts-AllMatter : (st : ClusterState) → AllMatter (degraded_alerts st)
unfolding degraded_alerts
degraded_alerts-AllMatter st = alert_if-AllMatter _ sev_warn _ refl

deploy_alerts-AllMatter : (st : ClusterState) → AllMatter (deploy_alerts st)
unfolding deploy_alerts
deploy_alerts-AllMatter st =
    alert_if-AllMatter _ _ _ (deploy_severity (is_positive st.deploys_zero_ready))

pressure_alerts-AllMatter :
    (st : ClusterState) (n : ℤ) (label : String) → AllMatter (pressure_alerts st n label)
unfolding pressure_alerts
pressure_alerts-AllMatter st n label = alert_if-AllMatter _ sev_warn _ refl

count_alerts-AllMatter :
    (st : ClusterState) (n : ℤ) (noun what : String) → AllMatter (count_alerts st n noun what)
unfolding count_alerts
count_alerts-AllMatter st n noun what = alert_if-AllMatter _ sev_warn _ refl

pending_alerts-AllMatter : (st : ClusterState) → AllMatter (pending_alerts st)
unfolding pending_alerts
pending_alerts-AllMatter st = alert_if-AllMatter _ sev_warn _ refl

event_alerts-AllMatter : (st : ClusterState) → AllMatter (event_alerts st)
unfolding event_alerts
event_alerts-AllMatter st = alert_if-AllMatter _ sev_warn _ refl

memory_choice-AllMatter :
    (fresh crit warn : Bool) (t : String)
    → AllMatter (
        if fresh then (if crit then alert_if true sev_crit t else alert_if warn sev_warn t) else [])
memory_choice-AllMatter false crit warn t = nil-AllMatter
memory_choice-AllMatter true true warn t = alert_if-AllMatter true sev_crit t refl
memory_choice-AllMatter true false warn t = alert_if-AllMatter warn sev_warn t refl

memory_alerts-AllMatter : (st : ClusterState) (now : ℕ) → AllMatter (memory_alerts st now)
unfolding memory_alerts
memory_alerts-AllMatter st now = memory_choice-AllMatter _ _ _ _

findings-AllMatter : (st : ClusterState) (now : ℕ) → AllMatter (findings st now)
unfolding findings
findings-AllMatter st now = append-AllMatter _ _ (node_alerts-AllMatter st) (
    append-AllMatter _ _ (degraded_alerts-AllMatter st) (
      append-AllMatter _ _ (deploy_alerts-AllMatter st) (
        append-AllMatter _ _ (pressure_alerts-AllMatter st st.nodes_mem_pressure "MemoryPressure") (
          append-AllMatter _ _ (pressure_alerts-AllMatter st st.nodes_disk_pressure "DiskPressure")
            (append-AllMatter _ _ (pressure_alerts-AllMatter st st.nodes_pid_pressure "PIDPressure")
              (append-AllMatter _ _ (count_alerts-AllMatter st st.nodes_cordoned "node" " cordoned")
                (append-AllMatter _ _ (count_alerts-AllMatter st st.pods_failed "pod" " Failed") (
                  append-AllMatter _ _
                    (count_alerts-AllMatter st st.pods_not_ready "pod" " Running but NotReady")
                    (append-AllMatter _ _
                      (count_alerts-AllMatter st st.pods_unknown_phase "pod" " in Unknown phase")
                      (append-AllMatter _ _ (pending_alerts-AllMatter st) (
                        append-AllMatter _ _ (event_alerts-AllMatter st)
                          (memory_alerts-AllMatter st now))))))))))))

sorted-AllMatter :
    (b : Bool) (xs : List ClusterAlert)
    → AllMatter xs
    → All Matters (if b then sort more_severe xs else [])
unfolding AllMatter
sorted-AllMatter true xs h = sort-All more_severe Matters xs h
sorted-AllMatter false xs h = tt

pub cluster_alerts-Matters : (now : ℕ) (st : ClusterState) → All Matters (cluster_alerts now st)
unfolding cluster_alerts
cluster_alerts-Matters now st = sorted-AllMatter _ _ (findings-AllMatter st now)

abbrev pub has_alert : List ClusterAlert → Bool
has_alert [] = false
has_alert (a ∷ as') = true

worst_from-Matters :
    (w : AlertSeverity) (as' : List ClusterAlert)
    → All Matters as'
    → leb 1 (sev_code (worst_from w as')) ≡ (leb 1 (sev_code w) || has_alert as')
unfolding worst_from
worst_from-Matters w [] h = ground arith
worst_from-Matters w (a ∷ as') (p, h) = ground (arith, worst_from-Matters (worse a.sev w) as' h)

-- The groups of the fleet, by the reach and by whether there is any alert at all.
pub data FleetGroup : Type 0 where
  in_attention in_healthy in_starting in_offline : FleetGroup

abbrev pub group_by : Reach → Bool → FleetGroup
group_by unreachable alerted = in_offline
group_by auth_failed alerted = in_offline
group_by connecting alerted = in_starting
group_by unknown alerted = in_starting
group_by healthy alerted = if alerted then in_attention else in_healthy
group_by degraded alerted = if alerted then in_attention else in_healthy

abbrev pub group_of : ℕ → ClusterState → FleetGroup
group_of now st = group_by st.reach (has_alert (cluster_alerts now st))

abbrev pub group_code : FleetGroup → ℕ
group_code in_attention = 0
group_code in_healthy = 1
group_code in_starting = 2
group_code in_offline = 3

-- The entries of one group, in the order of the snapshot.
abbrev pub members : FleetGroup → ℕ → List ClusterState → List FleetEntry
members g now snap =
    map (entry now) (filter (λ st. group_code (group_of now st) == group_code g) snap)

-- The same with one more entry, of the group h, in front.
abbrev pub members_with :
    FleetGroup → FleetGroup → ℕ → ClusterState → List ClusterState → List FleetEntry
members_with h g now st sts =
    let rest = filter (λ x. group_code (group_of now x) == group_code g) sts in
    map (entry now) (if group_code h == group_code g then st ∷ rest else rest)

abbrev gathered_with : ℕ → ClusterState → List ClusterState → FleetGroup → FleetGroups → FleetGroups
gathered_with now st sts h g = record {
  attention = g.attention ++ members_with h in_attention now st sts;
  healthy_ones = g.healthy_ones ++ members_with h in_healthy now st sts;
  starting = g.starting ++ members_with h in_starting now st sts;
  offline = g.offline ++ members_with h in_offline now st sts;
}

abbrev pub gathered : ℕ → List ClusterState → FleetGroups → FleetGroups
gathered now sts g = record {
  attention = g.attention ++ members in_attention now sts;
  healthy_ones = g.healthy_ones ++ members in_healthy now sts;
  starting = g.starting ++ members in_starting now sts;
  offline = g.offline ++ members in_offline now sts;
}

abbrev choose {ℓ} : {A : Type ℓ} → Bool → Bool → Bool → A → A → A → A → A
choose o b m attention healthy_ones starting offline =
    if o then offline else if b then starting else if m then attention else healthy_ones

-- The three tests of the switch, taken as values.
gathered_choice :
    (now : ℕ) (st : ClusterState) (sts : List ClusterState) (g : FleetGroups) (o b m : Bool)
    → gathered now sts (
        choose o b m
          (record g { attention = g.attention ++ entry now st ∷ [] })
          (record g { healthy_ones = g.healthy_ones ++ entry now st ∷ [] })
          (record g { starting = g.starting ++ entry now st ∷ [] })
          (record g { offline = g.offline ++ entry now st ∷ [] }))
      ≡ gathered_with now st sts (choose o b m in_attention in_healthy in_starting in_offline) g
gathered_choice now st sts g true b m =
    ground (arith, append_assoc g.offline (entry now st ∷ []) (members in_offline now sts))
gathered_choice now st sts g false true m =
    ground (arith, append_assoc g.starting (entry now st ∷ []) (members in_starting now sts))
gathered_choice now st sts g false false true =
    ground (arith, append_assoc g.attention (entry now st ∷ []) (members in_attention now sts))
gathered_choice now st sts g false false false =
    ground (arith, append_assoc g.healthy_ones (entry now st ∷ []) (members in_healthy now sts))

group_by-choose :
    (r : Reach) (m : Bool)
    → choose (is_offline r) (is_starting r) m in_attention in_healthy in_starting in_offline
      ≡ group_by r m
group_by-choose unknown m = refl
group_by-choose connecting m = refl
group_by-choose healthy m = refl
group_by-choose degraded m = refl
group_by-choose unreachable m = refl
group_by-choose auth_failed m = refl

gathered_cons :
    (now : ℕ) (st : ClusterState) (sts : List ClusterState) (g : FleetGroups)
    → gathered now sts (place (entry now st) g) ≡ gathered now (st ∷ sts) g
unfolding place worst_severity
gathered_cons now st sts g =
    let same : leb 1 (sev_code (worst_from sev_info (cluster_alerts now st)))
        ≡ has_alert (cluster_alerts now st) =
      worst_from-Matters sev_info (cluster_alerts now st) (cluster_alerts-Matters now st) in
    rw (same) (
      gathered_choice now st sts g (is_offline st.reach) (is_starting st.reach)
        (has_alert (cluster_alerts now st))
      ∙ ap (λ h. gathered_with now st sts h g)
          (group_by-choose st.reach (has_alert (cluster_alerts now st))))

pub place_all-gathered :
    (now : ℕ) (sts : List ClusterState) (g : FleetGroups) → place_all now sts g ≡ gathered now sts g
unfolding place_all
place_all-gathered now [] g = ground (
  arith,
  append-nil g.attention,
  append-nil g.healthy_ones,
  append-nil g.starting,
  append-nil g.offline,
)
place_all-gathered now (st ∷ sts) g =
    place_all-gathered now sts (place (entry now st) g) ∙ gathered_cons now st sts g
