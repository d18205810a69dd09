-- ===== src/Fleet/Alerts.antt =====
-- internal/ui/fleethealth.go: `clusterAlerts`, `worstSeverity`, `alertCounts`; internal/ui/event.go:
-- `plural`; internal/ui/sidebar.go: `pct`.
--
-- A count is an integer of which -1 is "not known". Products of a byte count by 100 stay below 2^63.
use Prim.Native.String.{◌++◌ as join}
use kubetin.Common.{
  ℕ, suc, ◌+◌, ◌-◌, ◌*◌, ◌/◌, String, Bool, true, false, not, ◌&&◌, List, [], ◌∷◌, ◌++◌, length,
  ltb, leb, ◌==◌, str_eq, if◌then◌else◌, min,
}
use kubetin.Common.Int.{ℤ, pos, negsuc, pos_part, neg_part, ltb_ℤ, ◌-ℤ◌}
use kubetin.Common.Sort.{sort}
use kubetin.Common.Text.{decimal, words}
use kubetin.State.Defs.{Reach, healthy, degraded, ClusterState}

pub data AlertSeverity : Type 0 where
  sev_info sev_warn sev_crit : AlertSeverity

abbrev pub sev_code : AlertSeverity → ℕ
sev_code sev_info = 0
sev_code sev_warn = 1
sev_code sev_crit = 2

pub record ClusterAlert : Type 0 where
  pub sev : AlertSeverity
  pub text : String

abbrev pub is_positive : ℤ → Bool
is_positive n = ltb 0 (pos_part n)

abbrev int_text : ℤ → String
int_text (pos n) = decimal n
int_text (negsuc n) = join "-" (decimal (n + 1))

unfoldable pub plural : ℤ → String → String
plural n noun =
    if pos_part n == 1 && neg_part n == 0
    then words (int_text n ∷ " " ∷ noun ∷ [])
    else words (int_text n ∷ " " ∷ noun ∷ "s" ∷ [])

-- `strings.Join(names, ", ")`
abbrev comma_join : List String → String
comma_join [] = ""
comma_join (n ∷ []) = n
comma_join (n ∷ m ∷ ns) = join n (join ", " (comma_join (m ∷ ns)))

abbrev more_text : ℤ → List String → String
more_text total names =
    if ltb_ℤ (pos (length names)) total
    then words (" +" ∷ int_text (total -ℤ pos (length names)) ∷ " more" ∷ [])
    else ""

abbrev is_empty : List String → Bool
is_empty [] = true
is_empty (n ∷ ns) = false

unfoldable pub name_list : String → List String → ℤ → String
name_list label names total =
    if is_empty names
    then label
    else words (label ∷ " (" ∷ comma_join names ∷ more_text total names ∷ ")" ∷ [])

unfoldable pub with_err : String → String → String
with_err label err = if str_eq err "" then label else words (label ∷ ": " ∷ err ∷ [])

-- One alert if the test holds.
abbrev pub alert_if : Bool → AlertSeverity → String → List ClusterAlert
alert_if b sev text = if b then record { sev = sev; text = text } ∷ [] else []

-- The truncated quotient of a negative numerator is not positive, so it is clamped to 0.
unfoldable pub pct : ℤ → ℤ → ℕ
pct used alloc =
    if not (is_positive alloc) then 0 else min 100 (pos_part used * 100 / pos_part alloc)

abbrev pub is_degraded_reach : Reach → Bool
is_degraded_reach degraded = true
is_degraded_reach _ = false

module _ (st : ClusterState) where
  abbrev pub has_not_ready : Bool
  has_not_ready = is_positive st.node_count && ltb_ℤ st.node_ready st.node_count

  unfoldable pub not_ready : ℤ
  not_ready = if has_not_ready then st.node_count -ℤ st.node_ready else pos 0

  unfoldable pub node_alerts : List ClusterAlert
  unfolding not_ready name_list plural
  node_alerts =
      alert_if has_not_ready sev_crit
        (name_list (join (plural not_ready "node") " NotReady") st.nodes_not_ready_names not_ready)

  unfoldable pub degraded_alerts : List ClusterAlert
  unfolding not_ready with_err
  degraded_alerts =
      alert_if (is_degraded_reach st.reach && (pos_part not_ready == 0 && neg_part not_ready == 0))
        sev_warn (with_err "degraded" st.last_error)

  unfoldable pub deploy_alerts : List ClusterAlert
  unfolding name_list plural
  deploy_alerts =
      alert_if (is_positive st.deploys_degraded)
        (if is_positive st.deploys_zero_ready then sev_crit else sev_warn)
        (name_list (join (plural st.deploys_degraded "deployment") " below desired")
          st.degraded_deploy_names st.deploys_degraded)

  abbrev one_if_positive : ℤ → ℕ
  one_if_positive n = if is_positive n then 1 else 0

  unfoldable pub pressure_types : ℕ
  pressure_types =
      one_if_positive st.nodes_mem_pressure
      + one_if_positive st.nodes_disk_pressure
      + one_if_positive st.nodes_pid_pressure

  unfoldable pub pressure_alerts : ℤ → String → List ClusterAlert
  unfolding pressure_types plural
  pressure_alerts n label = alert_if (is_positive n) sev_warn (
      if pressure_types == 1 && not (is_empty st.nodes_pressure_names)
      then words (
          label
          ∷ " on "
          ∷ comma_join st.nodes_pressure_names
          ∷ more_text n st.nodes_pressure_names
          ∷ [])
      else words (label ∷ " on " ∷ plural n "node" ∷ []))

  -- A count of nodes or pods, with what it is about.
  unfoldable pub count_alerts : ℤ → String → String → List ClusterAlert
  unfolding plural
  count_alerts n noun what = alert_if (is_positive n) sev_warn (join (plural n noun) what)

  unfoldable pub pending_alerts : List ClusterAlert
  pending_alerts =
      alert_if (leb 5 (pos_part st.pods_pending)) sev_warn
        (join (int_text st.pods_pending) " pods Pending")

  unfoldable pub event_alerts : List ClusterAlert
  event_alerts =
      alert_if (leb 10 (pos_part st.warn_events_15m)) sev_warn
        (join (int_text st.warn_events_15m) " warning events /15m")

  abbrev pub memory_text : ℕ → String
  memory_text p = words ("memory " ∷ decimal p ∷ "% of allocatable" ∷ [])

  -- The sample is fresh: it is younger than two minutes.
  unfoldable pub memory_alerts : ℕ → List ClusterAlert
  unfolding pct
  memory_alerts now =
      let p = pct st.usage_mem_bytes st.alloc_mem_bytes in
      if st.metrics_available
        && (is_positive st.alloc_mem_bytes && ltb (now - st.metrics_at) 120000000000)
      then (if leb 90 p
          then alert_if true sev_crit (memory_text p)
          else alert_if (leb 80 p) sev_warn (memory_text p))
      else []

  -- The calls of `add`, in their order.
  unfoldable pub findings : ℕ → List ClusterAlert
  unfolding node_alerts degraded_alerts deploy_alerts pressure_alerts count_alerts pending_alerts
      event_alerts memory_alerts
  findings now =
      node_alerts
      ++ (degraded_alerts
          ++ (deploy_alerts
              ++ (pressure_alerts st.nodes_mem_pressure "MemoryPressure"
                  ++ (pressure_alerts st.nodes_disk_pressure "DiskPressure"
                      ++ (pressure_alerts st.nodes_pid_pressure "PIDPressure"
                          ++ (count_alerts st.nodes_cordoned "node" " cordoned"
                              ++ (count_alerts st.pods_failed "pod" " Failed"
                                  ++ (count_alerts st.pods_not_ready "pod" " Running but NotReady"
                                      ++ (count_alerts st.pods_unknown_phase "pod"
                                            " in Unknown phase"
                                          ++ (pending_alerts
                                              ++ (event_alerts ++ memory_alerts now)))))))))))

abbrev pub is_reachable : Reach → Bool
is_reachable healthy = true
is_reachable degraded = true
is_reachable _ = false

abbrev pub more_severe : ClusterAlert → ClusterAlert → Bool
more_severe a b = ltb (sev_code b.sev) (sev_code a.sev)

unfoldable pub cluster_alerts : ℕ → ClusterState → List ClusterAlert
unfolding findings
cluster_alerts now st = if is_reachable st.reach then sort more_severe (findings st now) else []

abbrev pub worse : AlertSeverity → AlertSeverity → AlertSeverity
worse a b = if ltb (sev_code b) (sev_code a) then a else b

unfoldable pub worst_from : AlertSeverity → List ClusterAlert → AlertSeverity
worst_from worst [] = worst
worst_from worst (a ∷ as') = worst_from (worse a.sev worst) as'

unfoldable pub worst_severity : List ClusterAlert → AlertSeverity
unfolding worst_from
worst_severity alerts = worst_from sev_info alerts

abbrev pub note_severity : AlertSeverity → ℕ × ℕ → ℕ × ℕ
note_severity sev_crit (crit, warn) = (suc crit, warn)
note_severity sev_warn (crit, warn) = (crit, suc warn)
note_severity sev_info (crit, warn) = (crit, warn)

unfoldable pub alert_counts : List ClusterAlert → ℕ × ℕ
alert_counts [] = (0, 0)
alert_counts (a ∷ as') = note_severity a.sev (alert_counts as')
