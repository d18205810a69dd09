-- ===== src/Network/Coverage.antt =====
-- internal/cluster/networkpoll.go, `tick`: what a snapshot says of its own coverage and age.
use kubetin.Common.{
  ℕ, suc, ◌≤◌, ◌≡◌, refl, sym, subst, ◌&&◌, String, Bool, true, false, Option, none, some, List, [],
  ◌∷◌, length, ◌++◌, All, All-append, ◌<◌, ◌||◌, leb, ltb, ◌==◌, if◌then◌else◌, arith, count_if,
}
use kubetin.Network.Rates.{
  PodKey, NodePodKey, CounterSample, Samples, PodNetwork, ClusterNetwork, Baseline, put_pod,
  add_sample, rx_rate, tx_rate, rates_from, network_rates,
}
use kubetin.Network.Poll.{
  Reading, ListedNode, nodes_are, Answers, tag, ready_nodes, node_ready, keep_result, scrape_nodes,
  oldest, collect, snapshot, tick, tick_listed,
}

abbrev is_reading : Option Reading → Bool
is_reading none = false
is_reading (some r) = true

-- A node that was ready and read.
abbrev pub is_covered : (String → Option Reading) → ListedNode → Bool
is_covered scrape n = node_ready n.conditions && is_reading (scrape n.name)

abbrev pub all_covered : (String → Option Reading) → List ListedNode → Bool
all_covered scrape [] = true
all_covered scrape (n ∷ ns) = is_covered scrape n && all_covered scrape ns

length-keep_result :
    (m : String) (o : Option Reading) (rest : List (String × Reading))
    → length (keep_result m o rest) ≡ (if is_reading o then suc (length rest) else length rest)
length-keep_result m none rest = refl
length-keep_result m (some r) rest = refl

-- The number of nodes read.
results_count :
    (scrape : String → Option Reading) (ns : List ListedNode)
    → length (scrape_nodes scrape (ready_nodes ns)) ≡ count_if (is_covered scrape) ns
unfolding scrape_nodes
results_count scrape [] = refl
results_count scrape (n ∷ ns) = ground (
  arith,
  results_count scrape ns,
  length-keep_result n.name (scrape n.name) (scrape_nodes scrape (ready_nodes ns)),
)

count_bound :
    (scrape : String → Option Reading) (ns : List ListedNode)
    → count_if (is_covered scrape) ns ≤ length ns
count_bound scrape [] = omega arith
count_bound scrape (n ∷ ns) = ground (arith, count_bound scrape ns)

covered_count :
    (scrape : String → Option Reading) (ns : List ListedNode)
    → (count_if (is_covered scrape) ns == length ns) ≡ all_covered scrape ns
covered_count scrape [] = refl
covered_count scrape (n ∷ ns) = ground (arith, covered_count scrape ns, count_bound scrape ns)

oldest_below : (t : ℕ) (ps : List PodNetwork) → oldest t ps ≤ t
oldest_below t [] = omega arith
oldest_below t (p ∷ ps) = ground (arith, oldest_below (if ltb p.at_time t then p.at_time else t) ps)

-- Some pod has an instant that is set and not later than the given one.
abbrev has_old : ℕ → List PodNetwork → Bool
has_old b [] = false
has_old b (p ∷ ps) = (ltb 0 p.at_time && leb p.at_time b) || has_old b ps

put_pod-has_old :
    (b : ℕ) (k : PodKey) (c : CounterSample) (rx tx : ℕ) (ps : List PodNetwork)
    → 0 < c.at_time
    → has_old b ps ≡ true
    → has_old b (put_pod k c rx tx ps) ≡ true
unfolding put_pod
put_pod-has_old b k c rx tx [] h o = cc
put_pod-has_old b k c rx tx (p ∷ ps) h o = ground (arith, put_pod-has_old b k c rx tx ps)

put_pod_old :
    (k : PodKey) (c : CounterSample) (rx tx : ℕ) (ps : List PodNetwork)
    → 0 < c.at_time
    → has_old c.at_time (put_pod k c rx tx ps) ≡ true
unfolding put_pod
put_pod_old k c rx tx [] h = ground arith
put_pod_old k c rx tx (p ∷ ps) h = ground (arith, put_pod_old k c rx tx ps)

-- The instant of a sample is set.
abbrev pub IsTimed : NodePodKey × CounterSample → Type 0
IsTimed (k, c) = 0 < c.at_time

rates_from-has_old :
    (quotient : ℕ → ℕ → ℕ) (prev : Baseline) (b : ℕ) (cur : Samples)
    (acc : List PodNetwork × ClusterNetwork)
    → All IsTimed cur
    → has_old b acc.0 ≡ true
    → has_old b (rates_from quotient prev cur acc).0 ≡ true
unfolding rates_from
rates_from-has_old quotient prev b [] acc h o = o
rates_from-has_old quotient prev b ((k, c) ∷ cur) (ps, t) (z, h) o =
    let e : _ = add_sample quotient prev (k, c) (ps, t) in
    rates_from-has_old quotient prev b cur e h (
      put_pod-has_old b k.pod c (rx_rate quotient prev (k, c)) (tx_rate quotient prev (k, c)) ps z
        o)

oldest-has_old : (b t : ℕ) (ps : List PodNetwork) → has_old b ps ≡ true → oldest t ps ≤ b
oldest-has_old b t [] h = cc
oldest-has_old b t (p ∷ ps) h =
    let t' = if ltb p.at_time t then p.at_time else t in
    ground (arith, oldest_below t' ps, oldest-has_old b t' ps)

-- No sample is older than the oldest instant.
rates_from-oldest :
    (quotient : ℕ → ℕ → ℕ) (prev : Baseline) (t : ℕ) (cur : Samples)
    (acc : List PodNetwork × ClusterNetwork)
    → All IsTimed cur
    → All
        (λ (s : NodePodKey × CounterSample).
          oldest t (rates_from quotient prev cur acc).0 ≤ s.1.at_time)
        cur
unfolding rates_from
rates_from-oldest quotient prev t [] acc h = tt
rates_from-oldest quotient prev t ((k, c) ∷ cur) (ps, u) (z, h) =
    let e : _ = add_sample quotient prev (k, c) (ps, u) in
    (
      oldest-has_old c.at_time t (rates_from quotient prev cur e).0 (
          rates_from-has_old quotient prev c.at_time cur e h (
            put_pod_old k.pod c (rx_rate quotient prev (k, c)) (tx_rate quotient prev (k, c)) ps
              z)),
      rates_from-oldest quotient prev t cur e h,
    )

-- What the kubelet of a ready node gave.
abbrev pub reading_of : (String → Option Reading) → ListedNode → Reading
reading_of scrape n = elim (scrape n.name) [
  | none ↦ []
  | some r ↦ if node_ready n.conditions then r else []
]

-- A property of every sample read in a tick.
abbrev pub EachSample :
    (CounterSample → Type 0) → (String → Option Reading) → List ListedNode → Type 0
EachSample P scrape nodes =
    All (λ (n : ListedNode). All (λ (s : PodKey × CounterSample). P s.1) (reading_of scrape n))
      nodes

abbrev choose_reading : Bool → Option Reading → Reading
choose_reading b o = elim o [ none ↦ [] | some r ↦ if b then r else [] ]

collect-choose :
    (scrape : String → Option Reading) (b : Bool) (m : String) (o : Option Reading)
    (ns : List String)
    → scrape m ≡ o
    → collect (scrape_nodes scrape (if b then m ∷ ns else ns))
      ≡ tag m (choose_reading b o) ++ collect (scrape_nodes scrape ns)
unfolding collect scrape_nodes
collect-choose scrape true m none ns e = rw e refl
collect-choose scrape true m (some r) ns e = rw e refl
collect-choose scrape false m none ns e = refl
collect-choose scrape false m (some r) ns e = refl

collect_cons :
    (scrape : String → Option Reading) (n : ListedNode) (nodes : List ListedNode)
    → collect (scrape_nodes scrape (ready_nodes (n ∷ nodes)))
      ≡ tag n.name (reading_of scrape n) ++ collect (scrape_nodes scrape (ready_nodes nodes))
collect_cons scrape n nodes =
    collect-choose scrape (node_ready n.conditions) n.name (scrape n.name) (ready_nodes nodes) refl

module _ (P : CounterSample → Type 0) where
  abbrev Holds : NodePodKey × CounterSample → Type 0
  Holds (k, c) = P c

  tag-All :
      (n : String) (r : Reading)
      → All (λ (s : PodKey × CounterSample). P s.1) r
      → All Holds (tag n r)
  tag-All n [] h = tt
  tag-All n ((k, c) ∷ r) (p, h) = (p, tag-All n r h)

  tag_front :
      (n : String) (r : Reading) (rest : Samples)
      → All Holds (tag n r ++ rest)
      → All (λ (s : PodKey × CounterSample). P s.1) r × All Holds rest
  tag_front n [] rest h = (tt, h)
  tag_front n ((k, c) ∷ r) rest (p, h) = let (a, b) = tag_front n r rest h in ((p, a), b)

  module _ (scrape : String → Option Reading) where
    each_collected :
        (nodes : List ListedNode)
        → EachSample P scrape nodes
        → All Holds (collect (scrape_nodes scrape (ready_nodes nodes)))
    unfolding collect scrape_nodes
    each_collected [] h = tt
    each_collected (n ∷ nodes) (p, h) = subst (All Holds) (sym (collect_cons scrape n nodes)) (
        All-append Holds (tag n.name (reading_of scrape n))
          (collect (scrape_nodes scrape (ready_nodes nodes)))
          (tag-All n.name (reading_of scrape n) p) (each_collected nodes h))

    collected_each :
        (nodes : List ListedNode)
        → All Holds (collect (scrape_nodes scrape (ready_nodes nodes)))
        → EachSample P scrape nodes
    collected_each [] h = tt
    collected_each (n ∷ nodes) h =
        let (p, q) =
          tag_front n.name (reading_of scrape n) (collect (scrape_nodes scrape (ready_nodes nodes)))
            (subst (All Holds) (collect_cons scrape n nodes) h) in
        (p, collected_each nodes q)

-- A snapshot of listed nodes says that it is complete exactly if every node was ready and read, and it
-- counts the nodes that were. Its instant is not later than the end of the tick, nor, where the instant
-- of every sample is set, than that of any sample read from a ready node in the tick.
pub tick-covers :
    (quotient : ℕ → ℕ → ℕ) (a : Answers) (nodes : List ListedNode) (prev : Baseline)
    → a.listing ≡ nodes_are nodes
    → EachSample (λ s. 0 < s.at_time) a.scrape nodes
    → ((tick quotient a prev).0.ok ≡ all_covered a.scrape nodes)
      × ((tick quotient a prev).0.nodes_scraped ≡ count_if (is_covered a.scrape) nodes)
      × ((tick quotient a prev).0.at_time ≤ a.ended)
      × EachSample (λ s. (tick quotient a prev).0.at_time ≤ s.at_time) a.scrape nodes
unfolding tick tick_listed snapshot network_rates
tick-covers quotient a nodes prev h timed =
    let count : _ = results_count a.scrape nodes in
    let cur : Samples = collect (scrape_nodes a.scrape (ready_nodes nodes)) in
    let pods : List PodNetwork = (network_rates quotient cur prev).0 in
    rw (h) (
      rw (count) (covered_count a.scrape nodes),
      count,
      oldest_below a.ended pods,
      collected_each (λ s. oldest a.ended pods ≤ s.at_time) a.scrape nodes
          (rates_from-oldest quotient prev a.ended cur
            ([], record { rx_per_sec = 0; tx_per_sec = 0 })
            (each_collected (λ s. 0 < s.at_time) a.scrape nodes timed)),
    )
