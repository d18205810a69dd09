-- ===== src/Network/Examples.antt =====
-- internal/cluster/networkpoll.go: ticks of a cluster of two nodes.
use kubetin.Common.{
  arith, take, has, ℕ, ◌*◌, ◌/◌, ◌≤◌, ◌≡◌, refl, String, Bool, true, false, Option, none, some,
  List, [], ◌∷◌, All, total, filter, count_if, str_eq, if◌then◌else◌,
}
use kubetin.Common.Int.{pos}
use kubetin.Common.Sort.{sort, insert}
use kubetin.Common.Text.{text_ltb}
use kubetin.Network.Rotation.{rotate, jobs, jobs_from, start_at, search_first, nth}
use kubetin.Network.Fair.{next_after, rotate-serves}
use kubetin.Network.Rates.{
  PodKey, NodePodKey, CounterSample, Samples, Baseline, PodNetwork, network_rates, put_pod, rate,
  clamp_rate, rates_from,
}
use kubetin.Network.Poll.{
  node_ready, Reading, Condition, ListedNode, nodes_are, not_listed, Answers, tick, run_ticks,
}
use kubetin.Network.Sums.{pod_of, of_pod, network_rates_sums, received_by, sent_by}
use kubetin.Network.Registers.{slot}
use kubetin.Network.Baselines.{run_register, run_ticks-slot}
use kubetin.Network.Coverage.{all_covered, is_covered, tick-covers, EachSample}

-- Bytes over nanoseconds.
abbrev quotient : ℕ → ℕ → ℕ
quotient d dt = d * 1000000000 / dt

abbrev web : PodKey
web = record { ns = "shop"; name = "web" }

abbrev on_node : String → NodePodKey
on_node n = record { node = n; pod = web }

abbrev reading : ℕ → ℕ → CounterSample
reading rx t = record { rx = pos rx; tx = pos 0; at_time = t }

abbrev before : Baseline
before k = if str_eq k.node "a" then some (reading 100 1000000000) else none

abbrev samples : Samples
samples = (on_node "a", reading 700 3000000000) ∷ (on_node "b", reading 50 3000000000) ∷ []

-- The node without a baseline adds nothing.
measured : (pod_of web (network_rates quotient samples before).0).rx_per_sec ≡ 300
unfolding network_rates rates_from put_pod rate clamp_rate kubetin.Common.Int.◌-ℤ◌
measured = refl

network_rates_sums_example :
    ((pod_of web (network_rates quotient samples before).0).rx_per_sec
      ≡ total (received_by quotient before) (filter (of_pod web) samples))
    × ((pod_of web (network_rates quotient samples before).0).tx_per_sec
        ≡ total (sent_by quotient before) (filter (of_pod web) samples))
    × (total (λ (p : PodNetwork). p.rx_per_sec) (network_rates quotient samples before).0
        ≡ (network_rates quotient samples before).1.rx_per_sec)
    × (total (λ (p : PodNetwork). p.tx_per_sec) (network_rates quotient samples before).0
        ≡ (network_rates quotient samples before).1.tx_per_sec)
network_rates_sums_example = network_rates_sums quotient before web samples

abbrev scrape_a : String → Option Reading
scrape_a n = if str_eq n "a" then some ((web, reading 900 5000000000) ∷ []) else none

abbrev is_up : List Condition
is_up =
    record { type_name = "MemoryPressure"; status = "False" }
    ∷ record { type_name = "Ready"; status = "True" }
    ∷ []

abbrev two_nodes : List ListedNode
two_nodes =
    record { name = "a"; conditions = is_up } ∷ record { name = "b"; conditions = is_up } ∷ []

-- ListedNode b cannot be read.
abbrev half : Answers
half = record {
  listing = nodes_are two_nodes;
  scrape = scrape_a;
  started = 4000000000;
  ended = 6000000000;
}

abbrev no_list : Answers
no_list = record {
  listing = not_listed "forbidden";
  scrape = scrape_a;
  started = 7000000000;
  ended = 7000000000;
}

run_ticks-slot_example :
    slot "a" (run_ticks quotient (half ∷ no_list ∷ []) before) web
    ≡ run_register "a" (half ∷ no_list ∷ []) (slot "a" before) web
run_ticks-slot_example =
    run_ticks-slot quotient "a" (half ∷ no_list ∷ []) before web ((refl, (refl, tt)), (tt, tt))

tick-covers_example :
    ((tick quotient half before).0.ok ≡ all_covered scrape_a two_nodes)
    × ((tick quotient half before).0.nodes_scraped ≡ count_if (is_covered scrape_a) two_nodes)
    × ((tick quotient half before).0.at_time ≤ 6000000000)
    × EachSample (λ s. (tick quotient half before).0.at_time ≤ s.at_time) scrape_a two_nodes
unfolding node_ready
tick-covers_example = tick-covers quotient half two_nodes before refl ((omega arith, tt), (tt, tt))

abbrev ready_names : List String
ready_names = "f" ∷ "b" ∷ "e" ∷ "a" ∷ "c" ∷ "d" ∷ []

second_tick : take 4 (rotate true ready_names "e").0 ≡ "e" ∷ "f" ∷ "a" ∷ "b" ∷ []
unfolding rotate jobs jobs_from start_at search_first sort insert
second_tick = refl

rotate-serves_example :
    (t : ℕ) × (t * 4 ≤ 6)
    × (has
          (nth 3 (sort text_ltb ready_names))
          (take 4 (rotate true ready_names (next_after t ready_names "e")).0)
        ≡ true)
unfolding sort insert
rotate-serves_example =
    rotate-serves ready_names 3 "e"
      (
        (refl, (refl, (refl, (refl, (refl, tt))))),
        (
          (refl, (refl, (refl, (refl, tt)))),
          ((refl, (refl, (refl, tt))), ((refl, (refl, tt)), ((refl, tt), (tt, tt)))),
        ),
      )
      (omega arith)
