-- ===== src/Fleet/Ordered.antt =====
-- internal/ui/fleethealth.go: which clusters are in the groups of the fleet, and in which order.
use mathlib.Core.List.{Perm}
use kubetin.Common.{
  ℕ, suc, not, ◌≡◌, refl, ap, ◌&&◌, ◌||◌, Bool, true, false, List, [], ◌∷◌, count_if, ltb, ◌==◌,
  if◌then◌else◌, arith,
}
use kubetin.Common.Sort.{sort-perm, sort-IsSorted, IsSorted, InOrder, sorted-InOrder}
use kubetin.Common.Text.{text_ltb, text_ltb_asymm}
use kubetin.State.Defs.{
  Reach, unknown, connecting, healthy, degraded, unreachable, auth_failed, ClusterState,
}
use kubetin.Fleet.Alerts.{
  AlertSeverity, sev_info, sev_warn, sev_crit, ClusterAlert, alert_counts, note_severity,
}
use kubetin.Fleet.Groups.{
  FleetEntry, FleetGroups, by_urgency, by_name, by_login, is_auth_failed, sort_groups, group_fleet,
}
use kubetin.Fleet.Grouped.{
  members, in_attention, in_healthy, in_starting, in_offline, place_all-gathered,
}
use kubetin.Fleet.Faults.{is_crit, is_warn, crit_sev, warn_sev}

by_name_asymm : (a b : FleetEntry) → by_name a b ≡ true → by_name b a ≡ false
by_name_asymm a b h = text_ltb_asymm a.st.context b.st.context h

by_login_asymm : (a b : FleetEntry) → by_login a b ≡ true → by_login b a ≡ false
unfolding by_login
by_login_asymm a b h = ground (arith, text_ltb_asymm a.st.context b.st.context)

-- Two pairs of counts and the order of two names.
counts_asymm :
    (ci wi cj wj : ℕ) (s t : Bool)
    → (s ≡ true → t ≡ false)
    → (if not (ci == cj) then ltb cj ci else if not (wi == wj) then ltb wj wi else s) ≡ true
    → (if not (cj == ci) then ltb ci cj else if not (wj == wi) then ltb wi wj else t) ≡ false
counts_asymm ci wi cj wj s t asym h = ground arith

by_urgency_asymm : (a b : FleetEntry) → by_urgency a b ≡ true → by_urgency b a ≡ false
unfolding by_urgency
by_urgency_asymm a b h =
    let (ci, wi) = alert_counts a.alerts in
    let (cj, wj) = alert_counts b.alerts in
    counts_asymm ci wi cj wj _ _ (text_ltb_asymm a.st.context b.st.context) h

group_fleet-members :
    (now : ℕ) (snap : List ClusterState)
    → Perm (group_fleet now snap).attention (members in_attention now snap)
      × Perm (group_fleet now snap).healthy_ones (members in_healthy now snap)
      × Perm (group_fleet now snap).starting (members in_starting now snap)
      × Perm (group_fleet now snap).offline (members in_offline now snap)
unfolding group_fleet sort_groups
group_fleet-members now snap =
    let none : FleetGroups = record {
      attention = [];
      healthy_ones = [];
      starting = [];
      offline = [];
    } in
    rw (place_all-gathered now snap none) (
      sort-perm by_urgency (members in_attention now snap),
      sort-perm by_name (members in_healthy now snap),
      sort-perm by_name (members in_starting now snap),
      sort-perm by_login (members in_offline now snap),
    )

group_fleet-IsSorted :
    (now : ℕ) (snap : List ClusterState)
    → IsSorted by_urgency (group_fleet now snap).attention
      × IsSorted by_name (group_fleet now snap).healthy_ones
      × IsSorted by_name (group_fleet now snap).starting
      × IsSorted by_login (group_fleet now snap).offline
unfolding group_fleet sort_groups
group_fleet-IsSorted now snap = (
  sort-IsSorted by_urgency by_urgency_asymm _,
  sort-IsSorted by_name by_name_asymm _,
  sort-IsSorted by_name by_name_asymm _,
  sort-IsSorted by_login by_login_asymm _,
)

-- A name that is not later than the other.
abbrev pub name_first : FleetEntry → FleetEntry → Bool
name_first a b = not (text_ltb b.st.context a.st.context)

-- More critical alerts, or as many and more warnings, or as many of both and a name not later.
abbrev pub urgent_first : FleetEntry → FleetEntry → Bool
urgent_first a b =
    ltb (count_if is_crit b.alerts) (count_if is_crit a.alerts)
    || (count_if is_crit b.alerts == count_if is_crit a.alerts
        && (ltb (count_if is_warn b.alerts) (count_if is_warn a.alerts)
            || (count_if is_warn b.alerts == count_if is_warn a.alerts && name_first a b)))

abbrev pub lacks_login : Reach → Bool
lacks_login unknown = false
lacks_login connecting = false
lacks_login healthy = false
lacks_login degraded = false
lacks_login unreachable = false
lacks_login auth_failed = true

-- One that lacks its login before one that does not, and by name otherwise.
abbrev pub login_first : FleetEntry → FleetEntry → Bool
login_first a b =
    (lacks_login a.st.reach && not (lacks_login b.st.reach))
    || ((lacks_login a.st.reach || not (lacks_login b.st.reach)) && name_first a b)

alert_counts_same :
    (fs : List ClusterAlert) → alert_counts fs ≡ (count_if is_crit fs, count_if is_warn fs)
unfolding alert_counts
alert_counts_same [] = refl
alert_counts_same (a ∷ fs) = counted a.sev (alert_counts fs) (alert_counts_same fs)
  where
    counted :
        (s : AlertSeverity) (n : ℕ × ℕ)
        → n ≡ (count_if is_crit fs, count_if is_warn fs)
        → note_severity s n ≡ (
          if crit_sev s then suc (count_if is_crit fs) else count_if is_crit fs,
          if warn_sev s then suc (count_if is_warn fs) else count_if is_warn fs,
        )
    counted sev_crit n e = ap (note_severity sev_crit) e
    counted sev_warn n e = ap (note_severity sev_warn) e
    counted sev_info n e = ap (note_severity sev_info) e

by_urgency-urgent_first : (a b : FleetEntry) → by_urgency b a ≡ false → urgent_first a b ≡ true
unfolding by_urgency
by_urgency-urgent_first a b h =
    let e : _ = alert_counts_same a.alerts in
    let f : _ = alert_counts_same b.alerts in
    ground (
      arith,
      ap (λ (n : ℕ × ℕ). n.0) e,
      ap (λ (n : ℕ × ℕ). n.1) e,
      ap (λ (n : ℕ × ℕ). n.0) f,
      ap (λ (n : ℕ × ℕ). n.1) f,
    )

by_name-name_first : (a b : FleetEntry) → by_name b a ≡ false → name_first a b ≡ true
by_name-name_first a b h = ap not h

lacks_login_same : (r : Reach) → is_auth_failed r ≡ lacks_login r
lacks_login_same unknown = refl
lacks_login_same connecting = refl
lacks_login_same healthy = refl
lacks_login_same degraded = refl
lacks_login_same unreachable = refl
lacks_login_same auth_failed = refl

by_login-login_first : (a b : FleetEntry) → by_login b a ≡ false → login_first a b ≡ true
unfolding by_login
by_login-login_first a b h =
    ground (arith, lacks_login_same a.st.reach, lacks_login_same b.st.reach)

-- The same members in an order.
abbrev pub IsSortOf : (FleetEntry → FleetEntry → Bool) → List FleetEntry → List FleetEntry → Type 0
IsSortOf before xs ys = Perm xs ys × InOrder before xs

-- Each group holds the clusters that belong in it, each with its alerts, and no other: those that cannot
-- be reached or refuse the login are offline, those not probed yet are starting, and of the others those
-- with an alert need attention and the rest are healthy. Those that need attention are in the order of
-- their critical alerts, then of their warnings, most first, then of their names; those offline that
-- refuse the login come first, then by name; the others are by name.
pub group_fleet-IsSortOf :
    (now : ℕ) (snap : List ClusterState)
    → IsSortOf urgent_first (group_fleet now snap).attention (members in_attention now snap)
      × IsSortOf name_first (group_fleet now snap).healthy_ones (members in_healthy now snap)
      × IsSortOf name_first (group_fleet now snap).starting (members in_starting now snap)
      × IsSortOf login_first (group_fleet now snap).offline (members in_offline now snap)
group_fleet-IsSortOf now snap =
    let (a, b, c, d) = group_fleet-members now snap in
    let (e, f, g, h) = group_fleet-IsSorted now snap in
    (
      (a, sorted-InOrder by_urgency urgent_first by_urgency-urgent_first _ e),
      (b, sorted-InOrder by_name name_first by_name-name_first _ f),
      (c, sorted-InOrder by_name name_first by_name-name_first _ g),
      (d, sorted-InOrder by_login login_first by_login-login_first _ h),
    )
