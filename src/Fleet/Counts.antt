-- ===== src/Fleet/Counts.antt =====
-- internal/ui/fleethealth.go, `clusterAlerts`: the alerts of each kind, counted.
use native.Mathlib.Nat.{le-div_iff_mul-le}
use kubetin.Common.{
  ℕ, ◌+◌, ◌-◌, ◌*◌, ◌/◌, ◌≤◌, ◌<◌, ◌↔◌, ◌==◌, ◌≡◌, refl, ap, ◌∙◌, String, Bool, true, false, not,
  ◌&&◌, List, [], ◌++◌, count_if, count_if-append, ltb, leb, min, if◌then◌else◌, arith,
}
use kubetin.Common.Int.{ℤ, pos, negsuc, pos_part, neg_part, ltb_ℤ, -ℤ_parts}
use kubetin.Common.Sort.{sort, count_if-sort}
use kubetin.State.Defs.{
  Reach, unknown, connecting, healthy, degraded, unreachable, auth_failed, ClusterState,
}
use kubetin.Fleet.Alerts.{
  AlertSeverity, sev_warn, sev_crit, ClusterAlert, alert_if, findings, cluster_alerts, more_severe,
  node_alerts, degraded_alerts, deploy_alerts, pressure_alerts, count_alerts, pending_alerts,
  event_alerts, memory_alerts, not_ready, has_not_ready, pct, is_positive, is_reachable,
  is_degraded_reach,
}
use kubetin.Fleet.Faults.{
  crit_sev, warn_sev, answers, one, above_zero, at_least, merely_degraded, lacks_nodes, uses_memory,
  critical_faults, warning_faults,
}

above_zero_same : (n : ℤ) → is_positive n ≡ above_zero n
above_zero_same (pos n) = ground arith
above_zero_same (negsuc n) = ground arith

merely_degraded_same : (r : Reach) → is_degraded_reach r ≡ merely_degraded r
merely_degraded_same unknown = refl
merely_degraded_same connecting = refl
merely_degraded_same healthy = refl
merely_degraded_same degraded = refl
merely_degraded_same unreachable = refl
merely_degraded_same auth_failed = refl

has_not_ready_same : (now : ℕ) (st : ClusterState) → has_not_ready st ≡ lacks_nodes now st
has_not_ready_same now st =
    ap (λ b. b && ltb_ℤ st.node_ready st.node_count) (above_zero_same st.node_count)

not_ready-zero :
    (st : ClusterState)
    → (pos_part (not_ready st) == 0 && neg_part (not_ready st) == 0) ≡ not (has_not_ready st)
unfolding not_ready
not_ready-zero st = ground (arith, -ℤ_parts st.node_count st.node_ready)

not_ready_zero :
    (now : ℕ) (st : ClusterState)
    → (pos_part (not_ready st) == 0 && neg_part (not_ready st) == 0) ≡ not (lacks_nodes now st)
not_ready_zero now st = not_ready-zero st ∙ ap not (has_not_ready_same now st)

-- A share of hundredths, by a product.
share_same :
    (n alloc used : ℕ)
    → n ≤ 100
    → 0 < alloc
    → leb n (min 100 (used * 100 / alloc)) ≡ leb (n * alloc) (used * 100)
share_same n alloc used h g =
    let iff : (n ≤ used * 100 / alloc) ↔ (n * alloc ≤ used * 100) = le-div_iff_mul-le g in
    ground (arith, iff.0, iff.1)

uses_memory_same :
    (n now : ℕ) (st : ClusterState)
    → n ≤ 100
    → (st.metrics_available
        && (is_positive st.alloc_mem_bytes && ltb (now - st.metrics_at) 120000000000)
        && leb n (pct st.usage_mem_bytes st.alloc_mem_bytes))
      ≡ uses_memory now st n
unfolding pct
uses_memory_same n now st h = ground (
  arith,
  above_zero_same st.alloc_mem_bytes,
  share_same n (pos_part st.alloc_mem_bytes) (pos_part st.usage_mem_bytes) h,
)

answers_same : (r : Reach) → is_reachable r ≡ answers r
answers_same unknown = refl
answers_same connecting = refl
answers_same healthy = refl
answers_same degraded = refl
answers_same unreachable = refl
answers_same auth_failed = refl

module _ (q : AlertSeverity → Bool) where
  abbrev counts : ClusterAlert → Bool
  counts a = q a.sev

  -- How many an alert of this severity counts for, if the test holds.
  abbrev weight : Bool → AlertSeverity → ℕ
  weight b sev = if b then one (q sev) else 0

  count_if-alert_if :
      (b : Bool) (sev : AlertSeverity) (t : String)
      → count_if counts (alert_if b sev t) ≡ weight b sev
  count_if-alert_if true sev t = refl
  count_if-alert_if false sev t = refl

  count_parts :
      (a b c d e f g h i j k l m : List ClusterAlert)
      → count_if counts
          (a ++ (b ++ (c ++ (d ++ (e ++ (f ++ (g ++ (h ++ (i ++ (j ++ (k ++ (l ++ (m)))))))))))))
        ≡ count_if counts a
          + (count_if counts b
              + (count_if counts c
                  + (count_if counts d
                      + (count_if counts e
                          + (count_if counts f
                              + (count_if counts g
                                  + (count_if counts h
                                      + (count_if counts i
                                          + (count_if counts j
                                              + (count_if counts k
                                                  + (count_if counts l
                                                      + (count_if counts m))))))))))))
  count_parts a b c d e f g h i j k l m = simp count_if-append

  memory-count :
      (sample crit warn : Bool) (t : String)
      → count_if counts (
          if sample
          then (if crit then alert_if true sev_crit t else alert_if warn sev_warn t)
          else [])
        ≡ weight (sample && crit) sev_crit
          + weight (sample && warn && not (sample && crit)) sev_warn
  memory-count true true true t = ground arith
  memory-count true true false t = ground arith
  memory-count true false true t = ground arith
  memory-count true false false t = ground arith
  memory-count false crit warn t = ground arith

  if-case_count :
      (b : Bool) (fs : List ClusterAlert) {n : ℕ}
      → count_if counts (sort more_severe fs) ≡ n
      → count_if counts (if b then sort more_severe fs else []) ≡ (if b then n else 0)
  if-case_count true fs h = h
  if-case_count false fs h = refl

  module _ (now : ℕ) (st : ClusterState) where
    node_alerts-count : count_if counts (node_alerts st) ≡ weight (lacks_nodes now st) sev_crit
    unfolding node_alerts
    node_alerts-count =
        count_if-alert_if _ sev_crit _ ∙ ap (λ b. weight b sev_crit) (has_not_ready_same now st)

    degraded_alerts-count :
        count_if counts (degraded_alerts st)
        ≡ weight (merely_degraded st.reach && not (lacks_nodes now st)) sev_warn
    unfolding degraded_alerts
    degraded_alerts-count =
        count_if-alert_if _ sev_warn _
        ∙ ap
            (λ b.
              weight (b && (pos_part (not_ready st) == 0 && neg_part (not_ready st) == 0)) sev_warn)
            (merely_degraded_same st.reach)
        ∙ ap (λ b. weight (merely_degraded st.reach && b) sev_warn) (not_ready_zero now st)

    deploy_alerts-count :
        count_if counts (deploy_alerts st)
        ≡ weight
            (above_zero st.deploys_degraded)
            (if above_zero st.deploys_zero_ready then sev_crit else sev_warn)
    unfolding deploy_alerts
    deploy_alerts-count =
        count_if-alert_if _ _ _
        ∙ ap (λ b. weight b (if is_positive st.deploys_zero_ready then sev_crit else sev_warn))
            (above_zero_same st.deploys_degraded)
        ∙ ap (λ b. weight (above_zero st.deploys_degraded) (if b then sev_crit else sev_warn))
            (above_zero_same st.deploys_zero_ready)

    pressure_alerts-count :
        (n : ℤ) (label : String)
        → count_if counts (pressure_alerts st n label) ≡ weight (above_zero n) sev_warn
    unfolding pressure_alerts
    pressure_alerts-count n label =
        count_if-alert_if _ sev_warn _ ∙ ap (λ b. weight b sev_warn) (above_zero_same n)

    count_alerts-count :
        (n : ℤ) (noun what : String)
        → count_if counts (count_alerts st n noun what) ≡ weight (above_zero n) sev_warn
    unfolding count_alerts
    count_alerts-count n noun what =
        count_if-alert_if _ sev_warn _ ∙ ap (λ b. weight b sev_warn) (above_zero_same n)

    pending_alerts-count :
        count_if counts (pending_alerts st) ≡ weight (at_least 5 st.pods_pending) sev_warn
    unfolding pending_alerts
    pending_alerts-count = count_if-alert_if _ sev_warn _

    event_alerts-count :
        count_if counts (event_alerts st) ≡ weight (at_least 10 st.warn_events_15m) sev_warn
    unfolding event_alerts
    event_alerts-count = count_if-alert_if _ sev_warn _

    memory_alerts-count :
        count_if counts (memory_alerts st now)
        ≡ weight (uses_memory now st 90) sev_crit
          + weight (uses_memory now st 80 && not (uses_memory now st 90)) sev_warn
    unfolding memory_alerts
    memory_alerts-count =
        let sample : Bool =
          st.metrics_available
          && (is_positive st.alloc_mem_bytes && ltb (now - st.metrics_at) 120000000000) in
        let p : ℕ = pct st.usage_mem_bytes st.alloc_mem_bytes in
        memory-count sample (leb 90 p) (leb 80 p) _
        ∙ ap (λ b. weight b sev_crit + weight (sample && leb 80 p && not b) sev_warn)
            (uses_memory_same 90 now st (omega arith))
        ∙ ap
            (λ b.
              weight (uses_memory now st 90) sev_crit
              + weight (b && not (uses_memory now st 90)) sev_warn)
            (uses_memory_same 80 now st (omega arith))

    -- The weights of the faults, in the order of the findings.
    abbrev weights : ℕ
    weights =
        weight (lacks_nodes now st) sev_crit
        + weight (merely_degraded st.reach && not (lacks_nodes now st)) sev_warn
        + weight (above_zero st.deploys_degraded)
            (if above_zero st.deploys_zero_ready then sev_crit else sev_warn)
        + weight (above_zero st.nodes_mem_pressure) sev_warn
        + weight (above_zero st.nodes_disk_pressure) sev_warn
        + weight (above_zero st.nodes_pid_pressure) sev_warn
        + weight (above_zero st.nodes_cordoned) sev_warn
        + weight (above_zero st.pods_failed) sev_warn
        + weight (above_zero st.pods_not_ready) sev_warn
        + weight (above_zero st.pods_unknown_phase) sev_warn
        + weight (at_least 5 st.pods_pending) sev_warn
        + weight (at_least 10 st.warn_events_15m) sev_warn
        + weight (uses_memory now st 90) sev_crit
        + weight (uses_memory now st 80 && not (uses_memory now st 90)) sev_warn

    findings-count : count_if counts (findings st now) ≡ weights
    unfolding findings
    findings-count =
        let parts : _ =
          count_parts (node_alerts st) (degraded_alerts st) (deploy_alerts st)
            (pressure_alerts st st.nodes_mem_pressure "MemoryPressure")
            (pressure_alerts st st.nodes_disk_pressure "DiskPressure")
            (pressure_alerts st st.nodes_pid_pressure "PIDPressure")
            (count_alerts st st.nodes_cordoned "node" " cordoned")
            (count_alerts st st.pods_failed "pod" " Failed")
            (count_alerts st st.pods_not_ready "pod" " Running but NotReady")
            (count_alerts st st.pods_unknown_phase "pod" " in Unknown phase") (pending_alerts st)
            (event_alerts st) (memory_alerts st now) in
        rw
          (
            parts,
            node_alerts-count,
            degraded_alerts-count,
            deploy_alerts-count,
            pressure_alerts-count st.nodes_mem_pressure "MemoryPressure",
            pressure_alerts-count st.nodes_disk_pressure "DiskPressure",
            pressure_alerts-count st.nodes_pid_pressure "PIDPressure",
            count_alerts-count st.nodes_cordoned "node" " cordoned",
            count_alerts-count st.pods_failed "pod" " Failed",
            count_alerts-count st.pods_not_ready "pod" " Running but NotReady",
            count_alerts-count st.pods_unknown_phase "pod" " in Unknown phase",
            pending_alerts-count,
            event_alerts-count,
            memory_alerts-count,
          )
          (omega arith)

    pub cluster_alerts-count :
        count_if counts (cluster_alerts now st) ≡ (if answers st.reach then weights else 0)
    unfolding cluster_alerts
    cluster_alerts-count = rw (answers_same st.reach) (
        if-case_count (answers st.reach) (findings st now)
          (count_if-sort more_severe counts (findings st now) ∙ findings-count))

no_weight : (b : Bool) → ◌≡◌ {A = ℕ} (if b then 0 else 0) 0
no_weight true = refl
no_weight false = refl

deploy_crit : (x z : Bool) → weight crit_sev x (if z then sev_crit else sev_warn) ≡ one (x && z)
deploy_crit true true = refl
deploy_crit true false = refl
deploy_crit false z = refl

deploy_warn : (x z : Bool) → weight warn_sev x (if z then sev_crit else sev_warn) ≡ one (x && not z)
deploy_warn true true = refl
deploy_warn true false = refl
deploy_warn false z = refl

pub crit_weights : (now : ℕ) (st : ClusterState) → weights crit_sev now st ≡ critical_faults now st
crit_weights now st =
    rw
      (
        deploy_crit (above_zero st.deploys_degraded) (above_zero st.deploys_zero_ready),
        no_weight (merely_degraded st.reach && not (lacks_nodes now st)),
        no_weight (above_zero st.nodes_mem_pressure),
        no_weight (above_zero st.nodes_disk_pressure),
        no_weight (above_zero st.nodes_pid_pressure),
        no_weight (above_zero st.nodes_cordoned),
        no_weight (above_zero st.pods_failed),
        no_weight (above_zero st.pods_not_ready),
        no_weight (above_zero st.pods_unknown_phase),
        no_weight (at_least 5 st.pods_pending),
        no_weight (at_least 10 st.warn_events_15m),
        no_weight (uses_memory now st 80 && not (uses_memory now st 90)),
      )
      (omega arith)

pub warn_weights : (now : ℕ) (st : ClusterState) → weights warn_sev now st ≡ warning_faults now st
warn_weights now st =
    rw
      (
        deploy_warn (above_zero st.deploys_degraded) (above_zero st.deploys_zero_ready),
        no_weight (lacks_nodes now st),
        no_weight (uses_memory now st 90),
      )
      (omega arith)
