-- ===== src/Network/Poll.antt =====
-- internal/cluster/networkpoll.go: `NetworkPoller`, `tick`, and of `scrapeNodes` what the scrapes give.
--
-- The answers of a tick are a parameter: the list of nodes, which may fail, and for each node what
-- its kubelet gave before the deadline, `none` for a failure or a node that no worker came to. The
-- results come in the order of the nodes.
use kubetin.Common.{
  ℕ, String, Bool, false, not, ◌||◌, Option, none, some, List, [], ◌∷◌, ◌++◌, length, map, has, ltb,
  ◌==◌, str_eq, if◌then◌else◌,
}
use kubetin.Common.Text.{decimal, words}
use kubetin.Network.Rates.{
  PodKey, same_key, CounterSample, Samples, Baseline, PodNetwork, ClusterNetwork, network_rates,
}

-- What one scrape gave: the samples of the pods.
abbrev pub Reading : Type 0
Reading = List (PodKey × CounterSample)

pub record Condition : Type 0 where
  pub type_name : String
  pub status : String

pub record ListedNode : Type 0 where
  pub name : String
  pub conditions : List Condition

-- `nodeReady`: the first condition of that type decides.
unfoldable pub node_ready : List Condition → Bool
node_ready [] = false
node_ready (c ∷ cs) = if str_eq c.type_name "Ready" then str_eq c.status "True" else node_ready cs

pub data Listing : Type 0 where
  not_listed : String → Listing
  nodes_are : List ListedNode → Listing

pub record Answers : Type 0 where
  pub listing : Listing
  pub scrape : String → Option Reading
  pub started : ℕ
  pub ended : ℕ

pub record NetworkSnapshot : Type 0 where
  pub pods : List PodNetwork
  pub cluster : ClusterNetwork
  pub at_time : ℕ
  pub ok : Bool
  pub error : String
  pub nodes_total : ℕ
  pub nodes_scraped : ℕ

abbrev pub node_names : List ListedNode → List String
node_names ns = map (λ (n : ListedNode). n.name) ns

abbrev pub ready_nodes : List ListedNode → List String
ready_nodes [] = []
ready_nodes (n ∷ ns) =
    let rest = ready_nodes ns in if node_ready n.conditions then n.name ∷ rest else rest

abbrev pub keep_result : String → Option Reading → List (String × Reading) → List (String × Reading)
keep_result n none rest = rest
keep_result n (some r) rest = (n, r) ∷ rest

unfoldable pub scrape_nodes : (String → Option Reading) → List String → List (String × Reading)
scrape_nodes scrape [] = []
scrape_nodes scrape (n ∷ ns) = keep_result n (scrape n) (scrape_nodes scrape ns)

-- `scraped`
abbrev pub result_names : List (String × Reading) → List String
result_names [] = []
result_names ((n, r) ∷ rs) = n ∷ result_names rs

abbrev pub tag : String → Reading → Samples
tag n [] = []
tag n ((k, s) ∷ r) = (record { node = n; pod = k }, s) ∷ tag n r

-- `cur`
unfoldable pub collect : List (String × Reading) → Samples
collect [] = []
collect ((n, r) ∷ rs) = tag n r ++ collect rs

unfoldable pub forget : List String → List String → Baseline → Baseline
forget listed scraped prev key =
    if not (has key.node listed) || has key.node scraped then none else prev key

unfoldable pub put_all : Samples → Baseline → Baseline
put_all [] prev = prev
put_all ((k, s) ∷ cur) prev = put_all cur (λ j. if same_key k j then some s else prev j)

abbrev pub oldest : ℕ → List PodNetwork → ℕ
oldest t [] = t
oldest t (p ∷ ps) = oldest (if ltb p.at_time t then p.at_time else t) ps

abbrev pub coverage_error : ℕ → ℕ → ℕ → String
coverage_error scraped total ready = words (
    "scraped "
    ∷ decimal scraped
    ∷ "/"
    ∷ decimal total
    ∷ " nodes ("
    ∷ decimal ready
    ∷ " Ready): nodes/proxy unavailable or scrape failed"
    ∷ [])

abbrev pub failed_snapshot : ℕ → String → NetworkSnapshot
failed_snapshot now e = record {
  pods = [];
  cluster = record { rx_per_sec = 0; tx_per_sec = 0 };
  at_time = now;
  ok = false;
  error = e;
  nodes_total = 0;
  nodes_scraped = 0;
}

module _ (quotient : ℕ → ℕ → ℕ) where
  unfoldable pub snapshot :
      Answers → List ListedNode → List (String × Reading) → Baseline → NetworkSnapshot
  unfolding network_rates collect
  snapshot a nodes results prev =
      let (pods, t) = network_rates quotient (collect results) prev in
      let ok = length results == length nodes in
      record {
        pods = pods;
        cluster = t;
        at_time = oldest a.ended pods;
        ok = ok;
        error =
            if ok
            then ""
            else coverage_error (length results) (length nodes) (length (ready_nodes nodes));
        nodes_total = length nodes;
        nodes_scraped = length results;
      }

  unfoldable pub tick_listed : Answers → Listing → Baseline → NetworkSnapshot × Baseline
  unfolding snapshot forget put_all scrape_nodes
  tick_listed a (not_listed e) prev =
      (failed_snapshot a.started (words ("list nodes: " ∷ e ∷ [])), prev)
  tick_listed a (nodes_are nodes) prev =
      let results = scrape_nodes a.scrape (ready_nodes nodes) in
      (
        snapshot a nodes results prev,
        put_all (collect results) (forget (node_names nodes) (result_names results) prev),
      )

  unfoldable pub tick : Answers → Baseline → NetworkSnapshot × Baseline
  unfolding tick_listed
  tick a prev = tick_listed a a.listing prev

  abbrev pub run_ticks : List Answers → Baseline → Baseline
  unfolding tick
  run_ticks [] prev = prev
  run_ticks (a ∷ as') prev = run_ticks as' (tick a prev).1
