-- ===== src/Network/Baselines.antt =====
-- internal/cluster/networkpoll.go, `tick`: which samples the next rates are measured against.
use kubetin.Common.{
  ◌≡◌, refl, ap, ◌∙◌, not, ◌&&◌, ◌||◌, if-case, if-case_both, String, Bool, true, false, inl, inr,
  Option, none, some, List, [], ◌∷◌, str_eq, has, Distinct, All, if◌then◌else◌, arith, eq_iff,
  Bool-cases, ℕ,
}
use kubetin.Network.Rates.{PodKey, Baseline}
use kubetin.Network.Poll.{
  Reading, ListedNode, Listing, not_listed, nodes_are, Answers, node_names, ready_nodes, node_ready,
  keep_result, scrape_nodes, result_names, forget, tick, run_ticks, tick_listed,
}
use kubetin.Network.Registers.{
  Register, slot, fill, fill_opt, empty_register, fill_cong, fill_opt_cong, put_all-absent,
  put_all-read,
}

-- The ready nodes are some of those listed.
ready_nodes-absent :
    (n : String) (ns : List ListedNode)
    → has n (node_names ns) ≡ false
    → has n (ready_nodes ns) ≡ false
ready_nodes-absent n [] h = refl
ready_nodes-absent n (m ∷ ns) h = ground (arith, ready_nodes-absent n ns)

ready_nodes-Distinct : (ns : List ListedNode) → Distinct (node_names ns) → Distinct (ready_nodes ns)
ready_nodes-Distinct [] d = tt
ready_nodes-Distinct (m ∷ ns) (fresh, d) =
    if-case Distinct (node_ready m.conditions) {x = m.name ∷ ready_nodes ns} {y = ready_nodes ns}
      (λ _. (ready_nodes-absent m.name ns fresh, ready_nodes-Distinct ns d))
      (λ _. ready_nodes-Distinct ns d)

-- What a tick read of a node: nothing if it was not ready, or its scrape failed.
abbrev pub read_of : String → List ListedNode → (String → Option Reading) → Option Reading
read_of n nodes scrape = if has n (ready_nodes nodes) then scrape n else none

abbrev replaced : Option Reading → Register → Register
replaced none b = b
replaced (some r) b = fill r empty_register

-- The promise for one node: its register is the whole of its last reading, and is emptied when the
-- node is listed no more.
abbrev pub after_listing : String → Answers → Listing → Register → Register
after_listing n a (not_listed e) b = b
after_listing n a (nodes_are nodes) b =
    if has n (node_names nodes) then replaced (read_of n nodes a.scrape) b else empty_register

abbrev pub run_register : String → List Answers → Register → Register
run_register n [] b = b
run_register n (a ∷ as') b = run_register n as' (after_listing n a a.listing b)

-- A listing names each node once.
abbrev pub IsSound : Listing → Type 0
IsSound (not_listed e) = Unit
IsSound (nodes_are nodes) = Distinct (node_names nodes)

abbrev read_some : Option Reading → Bool
read_some none = false
read_some (some r) = true

keep_result-has :
    (n m : String) (o : Option Reading) (rest : List (String × Reading))
    → has n (result_names (keep_result m o rest))
      ≡ ((str_eq m n && read_some o) || has n (result_names rest))
keep_result-has n m none rest = ground arith
keep_result-has n m (some r) rest = ground arith

scrape_nodes-has :
    (scrape : String → Option Reading) (n : String) (names : List String)
    → has n (result_names (scrape_nodes scrape names)) ≡ (has n names && read_some (scrape n))
unfolding scrape_nodes
scrape_nodes-has scrape n [] = refl
scrape_nodes-has scrape n (m ∷ names) =
    keep_result-has n m (scrape m) (scrape_nodes scrape names) ∙ elim (Bool-cases (str_eq m n)) [
      | inl e ↦
          let same : read_some (scrape m) ≡ read_some (scrape n) =
            ap (λ (x : String). read_some (scrape x)) ((eq_iff m n).0 e) in
          ground (arith, scrape_nodes-has scrape n names)
      | inr e ↦ ground (arith, scrape_nodes-has scrape n names)
    ]

-- The test of `forget`, and what is left of a register.
abbrev forgotten : Bool → Bool → Register → Register
forgotten listed scraped b k = if not listed || scraped then none else b k

forgotten_unread :
    (listed : Bool) (b : Register) (k : PodKey)
    → forgotten listed false b k ≡ (if listed then replaced none b else empty_register) k
forgotten_unread true b k = refl
forgotten_unread false b k = refl

fill_opt-forgotten :
    (o : Option Reading) (b : Register) (k : PodKey)
    → fill_opt o (forgotten true (read_some o) b) k ≡ replaced o b k
fill_opt-forgotten none b k = refl
fill_opt-forgotten (some r) b k = fill_cong r _ _ (λ (i : PodKey). refl) k

slot-forget :
    (listed scraped : List String) (n : String) (prev : Baseline) (b : Bool) (k : PodKey)
    → has n scraped ≡ b
    → slot n (forget listed scraped prev) k ≡ forgotten (has n listed) b (slot n prev) k
unfolding forget
slot-forget listed scraped n prev b k h =
    ap (λ (c : Bool). forgotten (has n listed) c (slot n prev) k) h

ready_nodes-listed :
    (n : String) (ns : List ListedNode)
    → has n (ready_nodes ns) ≡ true
    → has n (node_names ns) ≡ true
ready_nodes-listed n ns h = ground (arith, ready_nodes-absent n ns)

-- One tick does to the register of each node what is promised for it.
slot-tick_listed :
    (quotient : ℕ → ℕ → ℕ) (n : String) (a : Answers) (l : Listing) (prev : Baseline) (k : PodKey)
    → IsSound l
    → slot n (tick_listed quotient a l prev).1 k ≡ after_listing n a l (slot n prev) k
unfolding tick_listed
slot-tick_listed quotient n a (not_listed e) prev k d = refl
slot-tick_listed quotient n a (nodes_are nodes) prev k d =
    let ready : List String = ready_nodes nodes in
    let results : List (String × Reading) = scrape_nodes a.scrape ready in
    let kept : Baseline = forget (node_names nodes) (result_names results) prev in
    let kept_slot : ((i : PodKey)
        → slot n kept i
          ≡ forgotten (has n (node_names nodes)) (has n ready && read_some (a.scrape n))
              (slot n prev) i) =
      λ i.
        slot-forget (node_names nodes) (result_names results) n prev
          (has n ready && read_some (a.scrape n)) i (scrape_nodes-has a.scrape n ready) in
    elim (Bool-cases (has n ready)) [
      | inl r ↦
          put_all-read a.scrape n ready kept k (ready_nodes-Distinct nodes d) r
          ∙ fill_opt_cong (a.scrape n) _ _ kept_slot k
          ∙ rw (r, ready_nodes-listed n nodes r) (fill_opt-forgotten (a.scrape n) (slot n prev) k)
      | inr r ↦
          put_all-absent a.scrape n ready kept k r
          ∙ kept_slot k
          ∙ rw (r) (forgotten_unread (has n (node_names nodes)) (slot n prev) k)
    ]

replaced_cong :
    (o : Option Reading) (a b : Register)
    → ((k : PodKey) → a k ≡ b k)
    → (k : PodKey) → replaced o a k ≡ replaced o b k
replaced_cong none a b h k = h k
replaced_cong (some r) a b h k = refl

after_listing_cong :
    (n : String) (t : Answers) (l : Listing) (a b : Register)
    → ((k : PodKey) → a k ≡ b k)
    → (k : PodKey) → after_listing n t l a k ≡ after_listing n t l b k
after_listing_cong n t (not_listed e) a b h k = h k
after_listing_cong n t (nodes_are nodes) a b h k =
    if-case_both (λ (x y : Register). x k ≡ y k) (has n (node_names nodes))
      (λ _. replaced_cong (read_of n nodes t.scrape) a b h k) (λ _. refl)

run_register_cong :
    (n : String) (ts : List Answers) (a b : Register)
    → ((k : PodKey) → a k ≡ b k)
    → (k : PodKey) → run_register n ts a k ≡ run_register n ts b k
run_register_cong n [] a b h k = h k
run_register_cong n (t ∷ ts) a b h k =
    run_register_cong n ts _ _ (after_listing_cong n t t.listing a b h) k

-- After any ticks whose listings name each node once, the samples kept for a node are those of one
-- register of its own: its last reading, whole, and none if a listing came without it since.
pub run_ticks-slot :
    (quotient : ℕ → ℕ → ℕ) (n : String) (ts : List Answers) (prev : Baseline) (k : PodKey)
    → All (λ (t : Answers). IsSound t.listing) ts
    → slot n (run_ticks quotient ts prev) k ≡ run_register n ts (slot n prev) k
unfolding tick
run_ticks-slot quotient n [] prev k d = refl
run_ticks-slot quotient n (t ∷ ts) prev k (d, ds) =
    run_ticks-slot quotient n ts (tick quotient t prev).1 k ds
    ∙ run_register_cong n ts _ _ (λ (i : PodKey). slot-tick_listed quotient n t t.listing prev i d)
        k
