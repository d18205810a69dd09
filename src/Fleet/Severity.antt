-- ===== src/Fleet/Severity.antt =====
-- internal/ui/fleethealth.go, `clusterAlerts`: how many alerts of which severity a cluster has.
use kubetin.Common.{
  ℕ, ◌≡◌, refl, ap, ◌∙◌, Bool, true, false, not, ◌||◌, List, [], count_if, All, All-map, ltb, leb,
  if◌then◌else◌, arith,
}
use kubetin.Common.Sort.{sort, sort-IsSorted, InOrder, sorted-InOrder}
use kubetin.State.Defs.{ClusterState}
use kubetin.Fleet.Alerts.{
  AlertSeverity, sev_info, sev_warn, sev_crit, sev_code, ClusterAlert, findings, cluster_alerts,
  more_severe, is_reachable,
}
use kubetin.Fleet.Grouped.{Matters, cluster_alerts-Matters}
use kubetin.Fleet.Faults.{
  crit_sev, warn_sev, is_crit, is_warn, answers, critical_faults, warning_faults,
}
use kubetin.Fleet.Counts.{cluster_alerts-count, crit_weights, warn_weights}

-- A critical alert does not follow a lesser one.
abbrev pub no_milder : ClusterAlert → ClusterAlert → Bool
no_milder a b = is_crit a || not (is_crit b)

more_severe-no_milder : (a b : ClusterAlert) → more_severe b a ≡ false → no_milder a b ≡ true
more_severe-no_milder a b h = severities a.sev b.sev h
  where
    severities :
        (s t : AlertSeverity)
        → ltb (sev_code s) (sev_code t) ≡ false
        → (crit_sev s || not (crit_sev t)) ≡ true
    severities sev_info sev_info h = refl
    severities sev_info sev_warn h = refl
    severities sev_info sev_crit h = cc
    severities sev_warn sev_info h = refl
    severities sev_warn sev_warn h = refl
    severities sev_warn sev_crit h = cc
    severities sev_crit t h = refl

Matters-severity : (a : ClusterAlert) → Matters a → (is_crit a || is_warn a) ≡ true
Matters-severity a h = severity a.sev h
  where
    severity : (s : AlertSeverity) → leb 1 (sev_code s) ≡ true → (crit_sev s || warn_sev s) ≡ true
    severity sev_info h = cc
    severity sev_warn h = refl
    severity sev_crit h = refl

more_severe_asymm : (a b : ClusterAlert) → more_severe a b ≡ true → more_severe b a ≡ false
more_severe_asymm a b h = ground arith

sort-InOrder_if :
    (b : Bool) (fs : List ClusterAlert) → InOrder no_milder (if b then sort more_severe fs else [])
sort-InOrder_if true fs =
    sorted-InOrder more_severe no_milder more_severe-no_milder (sort more_severe fs)
      (sort-IsSorted more_severe more_severe_asymm fs)
sort-InOrder_if false fs = tt

-- A cluster whose API server answers has a critical alert for each of these: nodes that are not ready, a
-- degraded deployment where one has nothing ready, and 90 percent of its memory in use by a sample of
-- the last two minutes. It has a warning for each of these: degraded with all nodes ready; deployments
-- short of replicas; nodes under pressure of memory, disk or PIDs, or cordoned; pods failed, not ready
-- or unknown; 5 pods pending; 10 warning events; and 80 percent of its memory below 90. It has no other
-- alert, and no critical one follows a warning. A cluster that does not answer has no alert.
pub cluster_alerts-InOrder :
    (now : ℕ) (st : ClusterState)
    → (count_if is_crit (cluster_alerts now st)
        ≡ (if answers st.reach then critical_faults now st else 0))
      × (count_if is_warn (cluster_alerts now st)
          ≡ (if answers st.reach then warning_faults now st else 0))
      × All (λ a. (is_crit a || is_warn a) ≡ true) (cluster_alerts now st)
      × InOrder no_milder (cluster_alerts now st)
unfolding cluster_alerts
cluster_alerts-InOrder now st = (
  cluster_alerts-count crit_sev now st
      ∙ ap (λ n. if answers st.reach then n else 0) (crit_weights now st),
  cluster_alerts-count warn_sev now st
      ∙ ap (λ n. if answers st.reach then n else 0) (warn_weights now st),
  All-map Matters (λ a. (is_crit a || is_warn a) ≡ true) Matters-severity (cluster_alerts now st)
      (cluster_alerts-Matters now st),
  sort-InOrder_if (is_reachable st.reach) (findings st now),
)
