-- ===== src/Probe/Signals.antt =====
-- internal/cluster/probe.go: what the workload signals count.
use mathlib.Core.List.{Perm}
use kubetin.Common.{
  ℕ, ◌*◌, Option, none, some, subst, ◌||◌, ltb, leb, ◌+◌, ◌≡◌, refl, ap, ◌∙◌, Bool, true, false,
  not, ◌&&◌, List, [], ◌∷◌, ◌++◌, map, append-nil, append_assoc, length, take, filter, count_if,
  ◌==◌, if◌then◌else◌, arith,
}
use kubetin.Common.Sort.{sort, sort-perm, sort-IsSorted, InOrder, sorted-InOrder}
use kubetin.Common.Text.{text_ltb, text_ltb_asymm}
use kubetin.Probe.Nodes.{ListAnswer, listed}
use kubetin.Probe.Workloads.{
  signal_ok, pending, failed, running, other_phase, ProbedPod, running_pod_not_ready,
  PodPhaseSignal, Page, Deployment, desired_of, is_degraded, label, is_worse, DeploySignal,
  deploy_signal, note_deployments, summarise_deployments,
}

is_worse_asymm : (a b : Deployment) → is_worse a b ≡ true → is_worse b a ≡ false
unfolding is_worse
is_worse_asymm a b h = ground (arith, text_ltb_asymm (label a) (label b))

abbrev is_down : Deployment → Bool
is_down d = is_degraded d && d.ready_replicas == 0

note_deployments-filter :
    (ds : List Deployment) (sig : DeploySignal) (worst : List Deployment)
    → note_deployments ds sig worst ≡ (
      record sig {
        degraded = sig.degraded + count_if is_degraded ds;
        zero_ready = sig.zero_ready + count_if is_down ds;
      },
      worst ++ filter is_degraded ds,
    )
unfolding note_deployments
note_deployments-filter [] sig worst = ground (arith, append-nil worst)
note_deployments-filter (d ∷ ds) sig worst =
    let counted = record sig {
      degraded = sig.degraded + 1;
      zero_ready = if d.ready_replicas == 0 then sig.zero_ready + 1 else sig.zero_ready;
    } in
    note_deployments-filter ds (if not (is_degraded d) then sig else counted)
      (if not (is_degraded d) then worst else worst ++ d ∷ [])
    ∙ ground (arith, append_assoc worst (d ∷ []) (filter is_degraded ds))

-- The replicas that a deployment wishes for, one where it does not say, and whether it has fewer ready.
abbrev wished : Deployment → ℕ
wished d = elim d.replicas [ none ↦ 1 | some n ↦ n ]

abbrev pub lacks : Deployment → Bool
lacks d = ltb d.ready_replicas (wished d)

abbrev pub lacks_all : Deployment → Bool
lacks_all d = lacks d && d.ready_replicas == 0

-- A smaller share of its replicas is ready, or the same share and its label is not the later one.
abbrev pub no_better : Deployment → Deployment → Bool
no_better a b =
    ltb (a.ready_replicas * wished b) (b.ready_replicas * wished a)
    || (a.ready_replicas * wished b == b.ready_replicas * wished a
        && not (text_ltb (label b) (label a)))

is_degraded-lacks : (d : Deployment) → is_degraded d ≡ lacks d
unfolding is_degraded
is_degraded-lacks d = degraded_lacks d.replicas d.ready_replicas
  where
    degraded_lacks :
        (o : Option ℕ) (r : ℕ)
        → not (desired_of o == 0 || leb (desired_of o) r) ≡ ltb r (elim o [ none ↦ 1 | some n ↦ n ])
    degraded_lacks none r = ground arith
    degraded_lacks (some n) r = ground arith

is_worse-no_better : (a b : Deployment) → is_worse b a ≡ false → no_better a b ≡ true
unfolding is_worse
is_worse-no_better a b h = ground arith

-- The health of the deployments: how many there are, how many have fewer replicas ready than they wish
-- for, how many of these have none ready, and the labels of the first three of them, those with the
-- smallest share of ready replicas first.
pub record Reports (ds : List Deployment) (sig : DeploySignal) : Type 0 where
  pub all : sig.total ≡ length ds
  pub short : sig.degraded ≡ count_if lacks ds
  pub down : sig.zero_ready ≡ count_if lacks_all ds
  pub ordered : List Deployment
  pub same : Perm ordered (filter lacks ds)
  pub sorted : InOrder no_better ordered
  pub named : sig.names ≡ map label (take 3 ordered)

count_same :
    (p q : Deployment → Bool)
    → ((d : Deployment) → p d ≡ q d)
    → (ds : List Deployment) → count_if p ds ≡ count_if q ds
count_same p q e [] = refl
count_same p q e (d ∷ ds) = ground (arith, e d, count_same p q e ds)

filter_same :
    (p q : Deployment → Bool)
    → ((d : Deployment) → p d ≡ q d)
    → (ds : List Deployment) → filter p ds ≡ filter q ds
filter_same p q e [] = refl
filter_same p q e (d ∷ ds) = ground (arith, e d, filter_same p q e ds)

-- For every list of deployments the probe reports on all of them: how many there are, how many have
-- fewer replicas ready than they wish for, how many of these have none ready, and the labels of the
-- first three of them, the smallest share of ready replicas first and equal shares by label.
pub summarise_deployments-Reports : (ds : List Deployment) → Reports ds (summarise_deployments ds)
unfolding summarise_deployments
summarise_deployments-Reports ds =
    rw (note_deployments-filter ds (record (deploy_signal signal_ok) { total = length ds }) [])
      (record {
        all = refl;
        short = omega (arith, count_same is_degraded lacks is_degraded-lacks ds);
        down = omega (
          arith,
          count_same is_down lacks_all
              (λ d. ap (λ b. b && d.ready_replicas == 0) (is_degraded-lacks d)) ds,
        );
        ordered = sort is_worse (filter is_degraded ds);
        same =
            subst (Perm (sort is_worse (filter is_degraded ds)))
              (filter_same is_degraded lacks is_degraded-lacks ds)
              (sort-perm is_worse (filter is_degraded ds));
        sorted =
            sorted-InOrder is_worse no_better is_worse-no_better
              (sort is_worse (filter is_degraded ds))
              (sort-IsSorted is_worse is_worse_asymm (filter is_degraded ds));
        named = refl;
      })

-- The pages of a list that is not empty: each but the last tells that it continues.
abbrev pub paged : List (List ProbedPod) → List ProbedPod → List (ListAnswer Page)
paged [] last = listed (record { items = last; continues = false }) ∷ []
paged (ps ∷ pages) last = listed (record { items = ps; continues = true }) ∷ paged pages last

abbrev pub concat : List (List ProbedPod) → List ProbedPod → List ProbedPod
concat [] last = last
concat (ps ∷ pages) last = ps ++ concat pages last

abbrev is_pending : ProbedPod → Bool
is_pending p = elim p.phase [ pending ↦ true | _ ↦ false ]

abbrev is_failed : ProbedPod → Bool
is_failed p = elim p.phase [ failed ↦ true | _ ↦ false ]

abbrev is_other : ProbedPod → Bool
is_other p = elim p.phase [ other_phase t ↦ true | _ ↦ false ]

abbrev is_running_unready : ProbedPod → Bool
is_running_unready p = elim p.phase [ running ↦ running_pod_not_ready p.conditions | _ ↦ false ]

abbrev pub tally : PodPhaseSignal → List ProbedPod → PodPhaseSignal
tally sig ps = record sig {
  pending = sig.pending + count_if is_pending ps;
  failed = sig.failed + count_if is_failed ps;
  unknown = sig.unknown + count_if is_other ps;
  not_ready = sig.not_ready + count_if is_running_unready ps;
}

-- Pages that all continue, and what comes behind them.
abbrev pub cut_off : List (List ProbedPod) → List (ListAnswer Page) → List (ListAnswer Page)
cut_off [] tail = tail
cut_off (ps ∷ pages) tail = listed (record { items = ps; continues = true }) ∷ cut_off pages tail
