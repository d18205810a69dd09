-- ===== src/Drain/Ends.antt =====
-- internal/cluster/nodeops.go: how a drain ends, and that its count adds up.
use kubetin.Common.{
  ℕ, suc, ◌+◌, ◌≤◌, ◌<◌, ◌≡◌, refl, ap, Bool, true, false, List, [], ◌∷◌, ◌++◌, length, write,
  arith,
}
use kubetin.Drain.Preflight.{Pod}
use kubetin.Drain.Node.{Candidate, enumerate, not_completed}

-- Candidates at rising indices from `lo`, below `hi`, none of them completed.
abbrev pub Open : (ℕ → Bool) → ℕ → ℕ → List Candidate → Type 0
Open c lo hi [] = lo ≤ hi
Open c lo hi ((i, p) ∷ rest) = (lo ≤ i) × (i < hi) × (c i ≡ false) × Open c (suc i) hi rest

pub Open-le : (c : ℕ → Bool) (lo hi : ℕ) (cs : List Candidate) → Open c lo hi cs → lo ≤ hi
Open-le c lo hi [] h = h
Open-le c lo hi ((i, p) ∷ rest) h = omega arith

pub Open-widen :
    (c : ℕ → Bool) (lo hi hi' : ℕ) (cs : List Candidate)
    → hi ≤ hi'
    → Open c lo hi cs
    → Open c lo hi' cs
Open-widen c lo hi hi' [] w h = omega arith
Open-widen c lo hi hi' ((i, p) ∷ rest) w h =
    (h.0, omega arith, h.2, Open-widen c (suc i) hi hi' rest w h.3)

pub Open-lower :
    (c : ℕ → Bool) (lo lo' hi : ℕ) (cs : List Candidate)
    → lo' ≤ lo
    → Open c lo hi cs
    → Open c lo' hi cs
Open-lower c lo lo' hi [] w h = omega arith
Open-lower c lo lo' hi ((i, p) ∷ rest) w h = (omega arith, h.1, h.2, h.3)

pub Open-append :
    (c : ℕ → Bool) (lo hi : ℕ) (cs : List Candidate) (i : ℕ) (p : Pod)
    → Open c lo hi cs
    → hi ≤ i
    → c i ≡ false
    → Open c lo (suc i) (cs ++ (i, p) ∷ [])
Open-append c lo hi [] i p h le e = (omega arith, omega arith, e, omega arith)
Open-append c lo hi ((j, q) ∷ rest) i p h le e =
    (h.0, omega arith, h.2, Open-append c (suc j) hi rest i p h.3 le e)

pub Open-mark_above :
    (c : ℕ → Bool) (lo hi : ℕ) (cs : List Candidate) (i : ℕ)
    → Open c lo hi cs
    → hi ≤ i
    → Open (write i true c) lo hi cs
Open-mark_above c lo hi [] i h le = h
Open-mark_above c lo hi ((j, q) ∷ rest) i h le =
    (h.0, h.1, ground arith, Open-mark_above c (suc j) hi rest i h.3 le)

pub Open-mark_below :
    (c : ℕ → Bool) (lo hi : ℕ) (cs : List Candidate) (i : ℕ)
    → Open c lo hi cs
    → i < lo
    → Open (write i true c) lo hi cs
Open-mark_below c lo hi [] i h lt = h
Open-mark_below c lo hi ((j, q) ∷ rest) i h lt =
    (h.0, h.1, ground arith, Open-mark_below c (suc j) hi rest i h.3 (omega arith))

pub enumerate-Open : (k : ℕ) (ps : List Pod) → Open (λ i. false) k (k + length ps) (enumerate k ps)
unfolding enumerate
enumerate-Open k [] = omega arith
enumerate-Open k (p ∷ ps) = (
  omega arith,
  omega arith,
  refl,
  Open-lower _ (k + 1) (suc k) _ _ (omega arith)
      (Open-widen _ (k + 1) (k + 1 + length ps) _ _ (omega arith) (enumerate-Open (k + 1) ps)),
)

pub length-enumerate : (k : ℕ) (ps : List Pod) → length (enumerate k ps) ≡ length ps
unfolding enumerate
length-enumerate k [] = refl
length-enumerate k (p ∷ ps) = ap suc (length-enumerate (k + 1) ps)

pub not_completed-none : (cs : List Candidate) → length (not_completed (λ i. false) cs) ≡ length cs
unfolding not_completed
not_completed-none [] = refl
not_completed-none ((i, p) ∷ cs) = ap suc (not_completed-none cs)

not_completed-mark_below :
    (c : ℕ → Bool) (k i : ℕ) (ps : List Pod)
    → i < k
    → not_completed (write i true c) (enumerate k ps) ≡ not_completed c (enumerate k ps)
unfolding not_completed enumerate
not_completed-mark_below c k i [] lt = refl
not_completed-mark_below c k i (p ∷ ps) lt = ground (arith, not_completed-mark_below c (k + 1) i ps)

-- Marking a candidate that was open takes one from the count.
pub not_completed-mark :
    (c : ℕ → Bool) (k i : ℕ) (ps : List Pod)
    → k ≤ i
    → i < k + length ps
    → c i ≡ false
    → length (not_completed (write i true c) (enumerate k ps)) + 1
      ≡ length (not_completed c (enumerate k ps))
unfolding not_completed enumerate
not_completed-mark c k i [] le lt e = absurd (omega arith)
not_completed-mark c k i (p ∷ ps) le lt e =
    ground (arith, not_completed-mark_below c (k + 1) i ps, not_completed-mark c (k + 1) i ps)
