-- ===== src/Network/Sums.antt =====
-- internal/cluster/networkpoll.go, `networkRates`: the rates of the pods and of the cluster.
use kubetin.Common.{
  suc, ◌-◌, leb, Option, none, some, ℕ, ◌+◌, ◌≡◌, refl, ap, ◌∙◌, Bool, true, false, inl, inr, List,
  [], ◌∷◌, if◌then◌else◌, filter, total, arith, eq_iff, Bool-cases,
}
use kubetin.Common.Int.{ℤ, pos, negsuc, ◌-ℤ◌}
use kubetin.Network.Rates.{
  clamp_rate, rate, PodKey, NodePodKey, same_pod, CounterSample, Samples, Baseline, PodNetwork,
  ClusterNetwork, no_pod, add_pod, put_pod, add_total, rx_rate, tx_rate, rates_from, network_rates,
}

same_pod_refl : (k : PodKey) → same_pod k k ≡ true
same_pod_refl k = ground (arith, eq_iff k.ns k.ns, eq_iff k.name k.name)

same_pod_sym : (j k : PodKey) → same_pod j k ≡ same_pod k j
same_pod_sym j k =
    ground (arith, eq_iff j.ns k.ns, eq_iff k.ns j.ns, eq_iff j.name k.name, eq_iff k.name j.name)

same_pod_eq : (j k : PodKey) → same_pod j k ≡ true → j ≡ k
same_pod_eq j k h = ground (arith, eq_iff j.ns k.ns, eq_iff j.name k.name)

-- `byPod[k]`
abbrev pub pod_of : PodKey → List PodNetwork → PodNetwork
pod_of k [] = no_pod k
pod_of k (p ∷ ps) = if same_pod p.key k then p else pod_of k ps

pod_of-put_pod_self :
    (k : PodKey) (c : CounterSample) (rx tx : ℕ) (ps : List PodNetwork)
    → pod_of k (put_pod k c rx tx ps) ≡ add_pod c rx tx (pod_of k ps)
unfolding put_pod
pod_of-put_pod_self k c rx tx [] = rw (same_pod_refl k) refl
pod_of-put_pod_self k c rx tx (p ∷ ps) = elim (Bool-cases (same_pod p.key k)) [
  | inl h ↦ rw (h, h) refl
  | inr h ↦ rw (h, h) (pod_of-put_pod_self k c rx tx ps)
]

pod_of-put_pod_other :
    (k j : PodKey) (c : CounterSample) (rx tx : ℕ) (ps : List PodNetwork)
    → same_pod j k ≡ false
    → pod_of k (put_pod j c rx tx ps) ≡ pod_of k ps
unfolding put_pod
pod_of-put_pod_other k j c rx tx [] h = rw (h) refl
pod_of-put_pod_other k j c rx tx (p ∷ ps) h = elim (Bool-cases (same_pod p.key j)) [
  | inl e ↦
      let other : same_pod p.key k ≡ false =
        ap (λ (q : PodKey). same_pod q k) (same_pod_eq p.key j e) ∙ h in
      rw (e, other) refl
  | inr e ↦ rw (e) (
      ap (λ (q : PodNetwork). if same_pod p.key k then p else q)
        (pod_of-put_pod_other k j c rx tx ps h))
]

abbrev add_if : Bool → CounterSample → ℕ → ℕ → PodNetwork → PodNetwork
add_if own c rx tx p = if own then add_pod c rx tx p else p

pod_of-put_pod :
    (k j : PodKey) (c : CounterSample) (rx tx : ℕ) (ps : List PodNetwork)
    → pod_of k (put_pod j c rx tx ps) ≡ add_if (same_pod j k) c rx tx (pod_of k ps)
pod_of-put_pod k j c rx tx ps = elim (Bool-cases (same_pod j k)) [
  | inl h ↦ rw (h) (
      ap (λ (i : PodKey). pod_of k (put_pod i c rx tx ps)) (same_pod_eq j k h)
      ∙ pod_of-put_pod_self k c rx tx ps)
  | inr h ↦ rw (h) (pod_of-put_pod_other k j c rx tx ps h)
]

add_if-rx :
    (own : Bool) (c : CounterSample) (rx tx : ℕ) (p : PodNetwork)
    → (add_if own c rx tx p).rx_per_sec ≡ p.rx_per_sec + (if own then rx else 0)
add_if-rx true c rx tx p = refl
add_if-rx false c rx tx p = omega arith

add_if-tx :
    (own : Bool) (c : CounterSample) (rx tx : ℕ) (p : PodNetwork)
    → (add_if own c rx tx p).tx_per_sec ≡ p.tx_per_sec + (if own then tx else 0)
add_if-tx true c rx tx p = refl
add_if-tx false c rx tx p = omega arith

put_pod-rx :
    (k : PodKey) (c : CounterSample) (rx tx : ℕ) (ps : List PodNetwork)
    → total (λ (p : PodNetwork). p.rx_per_sec) (put_pod k c rx tx ps)
      ≡ total (λ (p : PodNetwork). p.rx_per_sec) ps + rx
unfolding put_pod
put_pod-rx k c rx tx [] = omega arith
put_pod-rx k c rx tx (p ∷ ps) = ground (arith, put_pod-rx k c rx tx ps)

put_pod-tx :
    (k : PodKey) (c : CounterSample) (rx tx : ℕ) (ps : List PodNetwork)
    → total (λ (p : PodNetwork). p.tx_per_sec) (put_pod k c rx tx ps)
      ≡ total (λ (p : PodNetwork). p.tx_per_sec) ps + tx
unfolding put_pod
put_pod-tx k c rx tx [] = omega arith
put_pod-tx k c rx tx (p ∷ ps) = ground (arith, put_pod-tx k c rx tx ps)

total_if :
    (own : Bool) (a : ℕ) {A : Type 0} (f : A → ℕ) (x : A) (xs : List A)
    → f x ≡ a
    → total f (if own then x ∷ xs else xs) ≡ (if own then a else 0) + total f xs
total_if true a f x xs h = ap (λ n. n + total f xs) h
total_if false a f x xs h = omega arith

-- A counter's growth in a second, from one integer to another; a counter that fell does not count.
abbrev pub growth : (ℕ → ℕ → ℕ) → ℤ → ℤ → ℕ → ℕ
growth quotient (pos old) (pos new) dt = if leb old new then quotient (new - old) dt else 0
growth quotient (pos old) (negsuc new) dt = 0
growth quotient (negsuc old) (pos new) dt = quotient (new + suc old) dt
growth quotient (negsuc old) (negsuc new) dt = if leb new old then quotient (old - new) dt else 0

-- The growth since an older sample; without one there is none.
abbrev pub received_since : (ℕ → ℕ → ℕ) → Option CounterSample → CounterSample → ℕ
received_since quotient none c = 0
received_since quotient (some old) c =
    if leb c.at_time old.at_time then 0 else growth quotient old.rx c.rx (c.at_time - old.at_time)

abbrev pub sent_since : (ℕ → ℕ → ℕ) → Option CounterSample → CounterSample → ℕ
sent_since quotient none c = 0
sent_since quotient (some old) c =
    if leb c.at_time old.at_time then 0 else growth quotient old.tx c.tx (c.at_time - old.at_time)

growth-clamp_rate :
    (quotient : ℕ → ℕ → ℕ) (old new : ℤ) (dt : ℕ)
    → clamp_rate quotient new old dt ≡ growth quotient old new dt
unfolding clamp_rate ◌-ℤ◌
growth-clamp_rate quotient (pos a) (pos b) dt = ground arith
growth-clamp_rate quotient (pos a) (negsuc b) dt = ground arith
growth-clamp_rate quotient (negsuc a) (pos b) dt = ground arith
growth-clamp_rate quotient (negsuc a) (negsuc b) dt = ground arith

since-rx :
    (quotient : ℕ → ℕ → ℕ) (o : Option CounterSample) (c : CounterSample)
    → rate quotient (λ (s : CounterSample). s.rx) c o ≡ received_since quotient o c
unfolding rate
since-rx quotient none c = refl
since-rx quotient (some old) c =
    ground (arith, growth-clamp_rate quotient old.rx c.rx (c.at_time - old.at_time))

since-tx :
    (quotient : ℕ → ℕ → ℕ) (o : Option CounterSample) (c : CounterSample)
    → rate quotient (λ (s : CounterSample). s.tx) c o ≡ sent_since quotient o c
unfolding rate
since-tx quotient none c = refl
since-tx quotient (some old) c =
    ground (arith, growth-clamp_rate quotient old.tx c.tx (c.at_time - old.at_time))

total_same :
    {A : Type 0} (f g : A → ℕ) → ((x : A) → f x ≡ g x) → (xs : List A) → total f xs ≡ total g xs
total_same f g e [] = refl
total_same f g e (x ∷ xs) = omega (arith, e x, total_same f g e xs)

-- A sample of the pod.
abbrev pub of_pod : PodKey → NodePodKey × CounterSample → Bool
of_pod k (j, c) = same_pod j.pod k

module _ (quotient : ℕ → ℕ → ℕ) (prev : Baseline) where
  rates_from-rx :
      (k : PodKey) (cur : Samples) (acc : List PodNetwork × ClusterNetwork)
      → (pod_of k (rates_from quotient prev cur acc).0).rx_per_sec
        ≡ (pod_of k acc.0).rx_per_sec + total (rx_rate quotient prev) (filter (of_pod k) cur)
  unfolding rates_from
  rates_from-rx k [] acc = omega arith
  rates_from-rx k ((j, c) ∷ cur) (ps, t) =
      let rx = rx_rate quotient prev (j, c) in
      let tx = tx_rate quotient prev (j, c) in
      let step : _ = rates_from-rx k cur (put_pod j.pod c rx tx ps, add_total rx tx t) in
      let own : _ = ap (λ (p : PodNetwork). p.rx_per_sec) (pod_of-put_pod k j.pod c rx tx ps) in
      let here : _ = add_if-rx (same_pod j.pod k) c rx tx (pod_of k ps) in
      let sum : _ =
        total_if (same_pod j.pod k) rx (rx_rate quotient prev) (j, c) (filter (of_pod k) cur)
          refl in
      omega (arith, step, own, here, sum)

  rates_from-tx :
      (k : PodKey) (cur : Samples) (acc : List PodNetwork × ClusterNetwork)
      → (pod_of k (rates_from quotient prev cur acc).0).tx_per_sec
        ≡ (pod_of k acc.0).tx_per_sec + total (tx_rate quotient prev) (filter (of_pod k) cur)
  unfolding rates_from
  rates_from-tx k [] acc = omega arith
  rates_from-tx k ((j, c) ∷ cur) (ps, t) =
      let rx = rx_rate quotient prev (j, c) in
      let tx = tx_rate quotient prev (j, c) in
      let step : _ = rates_from-tx k cur (put_pod j.pod c rx tx ps, add_total rx tx t) in
      let own : _ = ap (λ (p : PodNetwork). p.tx_per_sec) (pod_of-put_pod k j.pod c rx tx ps) in
      let here : _ = add_if-tx (same_pod j.pod k) c rx tx (pod_of k ps) in
      let sum : _ =
        total_if (same_pod j.pod k) tx (tx_rate quotient prev) (j, c) (filter (of_pod k) cur)
          refl in
      omega (arith, step, own, here, sum)

  rates_from-Balanced :
      (cur : Samples) (acc : List PodNetwork × ClusterNetwork)
      → total (λ (p : PodNetwork). p.rx_per_sec) acc.0 ≡ acc.1.rx_per_sec
      → total (λ (p : PodNetwork). p.tx_per_sec) acc.0 ≡ acc.1.tx_per_sec
      → (total (λ (p : PodNetwork). p.rx_per_sec) (rates_from quotient prev cur acc).0
          ≡ (rates_from quotient prev cur acc).1.rx_per_sec)
        × (total (λ (p : PodNetwork). p.tx_per_sec) (rates_from quotient prev cur acc).0
            ≡ (rates_from quotient prev cur acc).1.tx_per_sec)
  unfolding rates_from
  rates_from-Balanced [] acc a b = (a, b)
  rates_from-Balanced ((j, c) ∷ cur) (ps, t) a b =
      let rx = rx_rate quotient prev (j, c) in
      let tx = tx_rate quotient prev (j, c) in
      rates_from-Balanced cur (put_pod j.pod c rx tx ps, add_total rx tx t)
        (put_pod-rx j.pod c rx tx ps ∙ ap (λ n. n + rx) a)
        (put_pod-tx j.pod c rx tx ps ∙ ap (λ n. n + tx) b)

  network_rates-Balanced :
      (cur : Samples)
      → (total (λ (p : PodNetwork). p.rx_per_sec) (network_rates quotient cur prev).0
          ≡ (network_rates quotient cur prev).1.rx_per_sec)
        × (total (λ (p : PodNetwork). p.tx_per_sec) (network_rates quotient cur prev).0
            ≡ (network_rates quotient cur prev).1.tx_per_sec)
  unfolding network_rates
  network_rates-Balanced cur =
      rates_from-Balanced cur ([], record { rx_per_sec = 0; tx_per_sec = 0 }) refl refl

  network_rates-pod_of :
      (k : PodKey) (cur : Samples)
      → ((pod_of k (network_rates quotient cur prev).0).rx_per_sec
          ≡ total (rx_rate quotient prev) (filter (of_pod k) cur))
        × ((pod_of k (network_rates quotient cur prev).0).tx_per_sec
            ≡ total (tx_rate quotient prev) (filter (of_pod k) cur))
  unfolding network_rates
  network_rates-pod_of k cur =
      let none_yet : ClusterNetwork = record { rx_per_sec = 0; tx_per_sec = 0 } in
      let rx : _ = rates_from-rx k cur ([], none_yet) in
      let tx : _ = rates_from-tx k cur ([], none_yet) in (omega (arith, rx), omega (arith, tx))

  -- What a sample adds to a pod: the growth since the sample kept under its own node and pod.
  abbrev pub received_by : NodePodKey × CounterSample → ℕ
  received_by (k, c) = received_since quotient (prev k) c

  abbrev pub sent_by : NodePodKey × CounterSample → ℕ
  sent_by (k, c) = sent_since quotient (prev k) c

  -- The rates of a pod are the sums over its samples on all nodes. Each adds the growth of its counter
  -- since the sample kept for the same node and pod, by their times, and nothing if there is none, if
  -- that is not older, or if the counter fell. The rates of the cluster are the sums of its pods'.
  pub network_rates_sums :
      (k : PodKey) (cur : Samples)
      → ((pod_of k (network_rates quotient cur prev).0).rx_per_sec
          ≡ total received_by (filter (of_pod k) cur))
        × ((pod_of k (network_rates quotient cur prev).0).tx_per_sec
            ≡ total sent_by (filter (of_pod k) cur))
        × (total (λ (p : PodNetwork). p.rx_per_sec) (network_rates quotient cur prev).0
            ≡ (network_rates quotient cur prev).1.rx_per_sec)
        × (total (λ (p : PodNetwork). p.tx_per_sec) (network_rates quotient cur prev).0
            ≡ (network_rates quotient cur prev).1.tx_per_sec)
  network_rates_sums k cur =
      let (rx, tx) = network_rates-pod_of k cur in
      let (all_rx, all_tx) = network_rates-Balanced cur in
      (
        rx
            ∙ total_same (rx_rate quotient prev) received_by
                (λ (j, c). since-rx quotient (prev j) c) (filter (of_pod k) cur),
        tx
            ∙ total_same (tx_rate quotient prev) sent_by (λ (j, c). since-tx quotient (prev j) c)
                (filter (of_pod k) cur),
        all_rx,
        all_tx,
      )
