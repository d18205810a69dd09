-- ===== src/Table/Merge.antt =====
-- internal/ui/table_cache.go, the end of `mergePodOrder`: an order is merged with the changed members.
use kubetin.Common.{
  ◌≡◌, refl, sym, ap, ◌∙◌, String, Bool, true, false, not, ◌||◌, List, [], ◌∷◌, ◌++◌, All, All-map,
  All-append, Bool-cases, inl, inr, has, str_eq, filter, if◌then◌else◌, arith, eq_iff, if-case,
}
use kubetin.Table.Ascending.{has-append, IsAscending, below_all}

module _ (less : String → String → Bool) where
  -- The changed members that the inner loop appends, and those that it leaves.
  abbrev pub lower_part : String → List String → List String
  lower_part u [] = []
  lower_part u (c ∷ cs) = let more = lower_part u cs in if less c u then c ∷ more else []

  abbrev pub upper_part : String → List String → List String
  upper_part u [] = []
  upper_part u (c ∷ cs) = let more = upper_part u cs in if less c u then more else c ∷ cs

  unfoldable pub merge : (String → Bool) → List String → List String → List String
  merge dirty [] cs = cs
  merge dirty (u ∷ us) cs =
      let skipped = merge dirty us cs in
      let on = merge dirty us (upper_part u cs) in
      if dirty u then skipped else lower_part u cs ++ u ∷ on

  lower-upper : (u : String) (cs : List String) → lower_part u cs ++ upper_part u cs ≡ cs
  lower-upper u [] = refl
  lower-upper u (c ∷ cs) = ground (arith, lower-upper u cs)

  upper-All :
      (P : String → Type 0) (u : String) (cs : List String) → All P cs → All P (upper_part u cs)
  upper-All P u [] a = tt
  upper-All P u (c ∷ cs) (p, a) = if-case (All P) (less c u) (λ _. upper-All P u cs a) (λ _. (p, a))

  lower-All :
      (P : String → Type 0) (u : String) (cs : List String) → All P cs → All P (lower_part u cs)
  lower-All P u [] a = tt
  lower-All P u (c ∷ cs) (p, a) =
      if-case (All P) (less c u) (λ _. (p, lower-All P u cs a)) (λ _. tt)

  lower_below : (u : String) (cs : List String) → All (λ c. less c u ≡ true) (lower_part u cs)
  lower_below u [] = tt
  lower_below u (c ∷ cs) =
      if-case (All (λ d. less d u ≡ true)) (less c u) (λ h. (h, lower_below u cs)) (λ _. tt)

  upper-IsAscending :
      (u : String) (cs : List String) → IsAscending less cs → IsAscending less (upper_part u cs)
  upper-IsAscending u [] a = tt
  upper-IsAscending u (c ∷ cs) (b, a) =
      if-case (IsAscending less) (less c u) (λ _. upper-IsAscending u cs a) (λ _. (b, a))

  lower-IsAscending :
      (u : String) (cs : List String) → IsAscending less cs → IsAscending less (lower_part u cs)
  lower-IsAscending u [] a = tt
  lower-IsAscending u (c ∷ cs) (b, a) =
      if-case (IsAscending less) (less c u)
        (λ _. (lower-All (λ d. less c d ≡ true) u cs b, lower-IsAscending u cs a)) (λ _. tt)

  has-upper : (x u : String) (cs : List String) → has x cs ≡ false → has x (upper_part u cs) ≡ false
  has-upper x u [] h = h
  has-upper x u (c ∷ cs) h =
      if-case (λ ds. has x ds ≡ false) (less c u) (λ _. has-upper x u cs (ground arith)) (λ _. h)

  pub has-merge :
      (dirty : String → Bool) (x : String) (us cs : List String)
      → has x (merge dirty us cs) ≡ (has x (filter (λ u. not (dirty u)) us) || has x cs)
  unfolding merge
  has-merge dirty x [] cs = refl
  has-merge dirty x (u ∷ us) cs = ground (
    arith,
    has-merge dirty x us cs,
    has-merge dirty x us (upper_part u cs),
    has-append x (lower_part u cs) (u ∷ merge dirty us (upper_part u cs)),
    sym (has-append x (lower_part u cs) (upper_part u cs)) ∙ ap (has x) (lower-upper u cs),
  )

  joined-All :
      (P : String → Type 0) (u : String) (cs ds : List String)
      → P u
      → All P cs
      → All P ds
      → All P (lower_part u cs ++ u ∷ ds)
  joined-All P u cs ds p a b = All-append P (lower_part u cs) (u ∷ ds) (lower-All P u cs a) (p, b)

  pub merge-All :
      (P : String → Type 0) (dirty : String → Bool) (us cs : List String)
      → All P (filter (λ u. not (dirty u)) us)
      → All P cs
      → All P (merge dirty us cs)
  unfolding merge
  merge-All P dirty [] cs a b = b
  merge-All P dirty (u ∷ us) cs a b = elim (Bool-cases (dirty u)) [
    | inl h ↦ rw h (merge-All P dirty us cs (rw h at a) b)
    | inr h ↦
        let (p, c) : P u × All P (filter (λ v. not (dirty v)) us) = rw h at a in
        rw h (
          joined-All P u cs (merge dirty us (upper_part u cs)) p b
            (merge-All P dirty us (upper_part u cs) c (upper-All P u cs b)))
  ]

  module _ (known : String → Bool) (asym : (x y : String) → less x y ≡ true → less y x ≡ false)
      (trans : (x y z : String) → less x y ≡ true → less y z ≡ true → less x z ≡ true)
      (total : (x y : String)
        → known x ≡ true
        → known y ≡ true
        → str_eq x y ≡ false
        → less y x ≡ false
        → less x y ≡ true) where
    upper_above :
        (u : String) (cs : List String)
        → known u ≡ true
        → All (λ c. known c ≡ true) cs
        → has u cs ≡ false
        → IsAscending less cs
        → All (λ c. less u c ≡ true) (upper_part u cs)
    upper_above u [] k ks n a = tt
    upper_above u (c ∷ cs) k (j, ks) n (b, a) =
        if-case (All (λ d. less u d ≡ true)) (less c u)
          (λ _. upper_above u cs k ks (ground arith) a)
          (λ h.
            let first : less u c ≡ true =
              total u c k j (ground (arith, eq_iff u c, eq_iff c u)) h in
            (first, below_all less known asym trans total u c cs first b))

    joined-IsAscending :
        (u : String) (cs ds : List String)
        → All (λ c. less c u ≡ true) cs
        → IsAscending less cs
        → All (λ d. less u d ≡ true) ds
        → IsAscending less ds
        → IsAscending less (cs ++ u ∷ ds)
    joined-IsAscending u [] ds l a h b = (h, b)
    joined-IsAscending u (c ∷ cs) ds (l, ls) (a, az) h b = (
      All-append (λ d. less c d ≡ true) cs (u ∷ ds) a
          (l, below_all less known asym trans total c u ds l h),
      joined-IsAscending u cs ds ls az h b,
    )

    pub merge-IsAscending :
        (dirty : String → Bool) (us cs : List String)
        → All (λ u. known u ≡ true) (filter (λ u. not (dirty u)) us)
        → All (λ c. known c ≡ true) cs
        → All (λ u. has u cs ≡ false) (filter (λ u. not (dirty u)) us)
        → IsAscending less (filter (λ u. not (dirty u)) us)
        → IsAscending less cs
        → IsAscending less (merge dirty us cs)
    unfolding merge
    merge-IsAscending dirty [] cs k j n a b = b
    merge-IsAscending dirty (u ∷ us) cs k j n a b = elim (Bool-cases (dirty u)) [
      | inl h ↦ rw h (merge-IsAscending dirty us cs (rw h at k) j (rw h at n) (rw h at a) b)
      | inr h ↦
          let rest : List String = filter (λ v. not (dirty v)) us in
          let upper : List String = upper_part u cs in
          let (ku, ks) : (known u ≡ true) × All (λ v. known v ≡ true) rest = rw h at k in
          let (nu, ns) : (has u cs ≡ false) × All (λ v. has v cs ≡ false) rest = rw h at n in
          let (au, az) : All (λ v. less u v ≡ true) rest × IsAscending less rest = rw h at a in
          let above : All (λ c. less u c ≡ true) upper = upper_above u cs ku j nu b in
          let apart : All (λ v. has v upper ≡ false) rest =
            All-map (λ v. has v cs ≡ false) (λ v. has v upper ≡ false) (λ v g. has-upper v u cs g)
              rest ns in
          rw h (
            joined-IsAscending u (lower_part u cs) (merge dirty us upper) (lower_below u cs)
              (lower-IsAscending u cs b) (merge-All (λ v. less u v ≡ true) dirty us upper au above)
              (merge-IsAscending dirty us upper ks (upper-All (λ c. known c ≡ true) u cs j) apart az
                (upper-IsAscending u cs b)))
    ]
