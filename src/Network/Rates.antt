-- ===== src/Network/Rates.antt =====
-- internal/cluster/networkpoll.go: `podKey`, `nodePodKey`, `counterSample`, `networkRates`, `clampRate`.
--
-- A map that the code ranges over is the list of its entries in the order of that range. The division of
-- two float64 and its conversion to an integer are the parameter `quotient`, of a number of bytes and
-- of nanoseconds. Sums of rates stay below 2^63.
use kubetin.Common.{
  ℕ, ◌+◌, ◌-◌, String, Bool, ◌&&◌, ◌||◌, Option, none, some, List, [], ◌∷◌, ltb, ◌==◌, str_eq,
  if◌then◌else◌,
}
use kubetin.Common.Int.{ℤ, pos, pos_part, ltb_ℤ, ◌-ℤ◌}

pub record PodKey : Type 0 where
  pub ns : String
  pub name : String

pub record NodePodKey : Type 0 where
  pub node : String
  pub pod : PodKey

abbrev pub same_pod : PodKey → PodKey → Bool
same_pod a b = str_eq a.ns b.ns && str_eq a.name b.name

abbrev pub same_key : NodePodKey → NodePodKey → Bool
same_key a b = str_eq a.node b.node && same_pod a.pod b.pod

pub record CounterSample : Type 0 where
  pub rx : ℤ
  pub tx : ℤ
  pub at_time : ℕ

abbrev pub Samples : Type 0
Samples = List (NodePodKey × CounterSample)

-- `prev`: a missing key reads as `none`.
abbrev pub Baseline : Type 0
Baseline = NodePodKey → Option CounterSample

pub record PodNetwork : Type 0 where
  pub at_time : ℕ
  pub key : PodKey
  pub rx_per_sec : ℕ
  pub tx_per_sec : ℕ

pub record ClusterNetwork : Type 0 where
  pub rx_per_sec : ℕ
  pub tx_per_sec : ℕ

-- The zero value that a missing key of `byPod` reads; an instant of 0 is the zero time.
abbrev pub no_pod : PodKey → PodNetwork
no_pod k = record { at_time = 0; key = k; rx_per_sec = 0; tx_per_sec = 0 }

abbrev pub add_pod : CounterSample → ℕ → ℕ → PodNetwork → PodNetwork
add_pod c rx tx p = record p {
  at_time = if (p.at_time == 0) || ltb c.at_time p.at_time then c.at_time else p.at_time;
  rx_per_sec = p.rx_per_sec + rx;
  tx_per_sec = p.tx_per_sec + tx;
}

-- `byPod[k.podKey]`, read and written back.
unfoldable pub put_pod : PodKey → CounterSample → ℕ → ℕ → List PodNetwork → List PodNetwork
put_pod k c rx tx [] = add_pod c rx tx (no_pod k) ∷ []
put_pod k c rx tx (p ∷ ps) =
    if same_pod p.key k then add_pod c rx tx p ∷ ps else p ∷ put_pod k c rx tx ps

abbrev pub add_total : ℕ → ℕ → ClusterNetwork → ClusterNetwork
add_total rx tx t = record { rx_per_sec = t.rx_per_sec + rx; tx_per_sec = t.tx_per_sec + tx }

module _ (quotient : ℕ → ℕ → ℕ) where
  unfoldable pub clamp_rate : ℤ → ℤ → ℕ → ℕ
  clamp_rate cur prev dt =
      let d = cur -ℤ prev in if ltb_ℤ d (pos 0) then 0 else quotient (pos_part d) dt

  -- The rate of one counter since the sample of the baseline, if that is older.
  unfoldable pub rate : (CounterSample → ℤ) → CounterSample → Option CounterSample → ℕ
  unfolding clamp_rate
  rate counter c none = 0
  rate counter c (some pv) =
      if ltb pv.at_time c.at_time
      then clamp_rate (counter c) (counter pv) (c.at_time - pv.at_time)
      else 0

  abbrev pub rx_rate : Baseline → NodePodKey × CounterSample → ℕ
  rx_rate prev (k, c) = rate (λ (s : CounterSample). s.rx) c (prev k)

  abbrev pub tx_rate : Baseline → NodePodKey × CounterSample → ℕ
  tx_rate prev (k, c) = rate (λ (s : CounterSample). s.tx) c (prev k)

  abbrev pub add_sample :
      Baseline
      → NodePodKey × CounterSample
      → List PodNetwork × ClusterNetwork
      → List PodNetwork × ClusterNetwork
  add_sample prev (k, c) (pods, t) =
      let rx = rx_rate prev (k, c) in
      let tx = tx_rate prev (k, c) in (put_pod k.pod c rx tx pods, add_total rx tx t)

  unfoldable pub rates_from :
      Baseline → Samples → List PodNetwork × ClusterNetwork → List PodNetwork × ClusterNetwork
  unfolding put_pod rate
  rates_from prev [] acc = acc
  rates_from prev (e ∷ cur) acc = rates_from prev cur (add_sample prev e acc)

  unfoldable pub network_rates : Samples → Baseline → List PodNetwork × ClusterNetwork
  unfolding rates_from
  network_rates cur prev = rates_from prev cur ([], record { rx_per_sec = 0; tx_per_sec = 0 })
