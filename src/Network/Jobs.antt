-- ===== src/Network/Jobs.antt =====
-- internal/cluster/networkpoll.go, `scrapeNodes`: each ready node is one job.
use native.Mathlib.Nat.{mod-eq_of_lt, mod-eq-sub-mod}
use mathlib.Core.List.Perm
use mathlib.Core.List.{Perm}
use kubetin.Common.{
  subst, append-nil, ℕ, zero, suc, ◌+◌, ◌-◌, ◌%◌, ◌≤◌, ◌<◌, ◌≡◌, refl, ap, ◌∙◌, String, Bool, List,
  [], ◌∷◌, ◌++◌, length, take, drop, length-drop, take-drop, arith,
}
use kubetin.Common.Sort.{sort, sort-perm}
use kubetin.Common.Text.{text_ltb}
use kubetin.Network.Rotation.{search_first, nth, start_at, jobs_from, jobs, rotate}

pub mod_below : (a n : ℕ) → a < n → a % n ≡ a
mod_below a n h = mod-eq_of_lt h

pub mod_wrap : (a n : ℕ) → n ≤ a → a < n + n → a % n ≡ a - n
mod_wrap a n h k = mod-eq-sub-mod h ∙ mod_below (a - n) n (omega (arith, h, k))

-- The names from a position on.
drop-nth : (i : ℕ) (ns : List String) → i < length ns → drop i ns ≡ nth i ns ∷ drop (suc i) ns
drop-nth i [] h = absurd (omega (arith, h))
drop-nth zero (n ∷ ns) h = refl
drop-nth (suc i) (n ∷ ns) h = drop-nth i ns (omega (arith, h))

-- A stretch of jobs is a stretch of the nodes, as long as it does not pass their end.
jobs_from-take :
    (nodes : List String) (start i count base : ℕ)
    → ((k : ℕ) → k < count → (start + (i + k)) % length nodes ≡ base + k)
    → base + count ≤ length nodes
    → jobs_from nodes start i count ≡ take count (drop base nodes)
unfolding jobs_from
jobs_from-take nodes start i zero base h k = refl
jobs_from-take nodes start i (suc count) base h k =
    let at_base : (start + i) % length nodes ≡ base =
      ap (λ x. x % length nodes) (omega arith) ∙ h 0 (omega arith) ∙ omega arith in
    rw (at_base, drop-nth base nodes (omega (arith, k)))
      (ap (λ js. nth base nodes ∷ js)
        (jobs_from-take nodes start (suc i) count (suc base)
          (λ j lt.
            ap (λ x. x % length nodes) (omega arith) ∙ h (suc j) (omega (arith, lt)) ∙ omega arith)
          (omega (arith, k))))

jobs_from-append :
    (nodes : List String) (start i a b : ℕ)
    → jobs_from nodes start i (a + b) ≡ jobs_from nodes start i a ++ jobs_from nodes start (i + a) b
unfolding jobs_from
jobs_from-append nodes start i zero b =
    ap (λ x. jobs_from nodes start i x) (omega arith)
    ∙ ap (λ x. jobs_from nodes start x b) (omega arith)
jobs_from-append nodes start i (suc a) b =
    let shift : suc i + a ≡ i + suc a = omega arith in
    let grow : suc a + b ≡ suc (a + b) = omega arith in
    ap (λ x. jobs_from nodes start i x) grow
    ∙ ap (λ js. nth ((start + i) % length nodes) nodes ∷ js)
        (jobs_from-append nodes start (suc i) a b)
    ∙ ap
        (λ x.
          nth ((start + i) % length nodes) nodes ∷ jobs_from nodes start (suc i) a
          ++ jobs_from nodes start x b)
        shift

take_all : (n : ℕ) (ns : List String) → length ns ≤ n → take n ns ≡ ns
take_all zero [] h = refl
take_all zero (n ∷ ns) h = absurd (omega (arith, h))
take_all (suc m) [] h = refl
take_all (suc m) (n ∷ ns) h = ap (λ js. n ∷ js) (take_all m ns (omega (arith, h)))

-- The jobs from a start within the nodes: those behind it, and then those before it.
jobs_from-rotated :
    (nodes : List String) (start : ℕ)
    → start < length nodes
    → jobs_from nodes start 0 (length nodes) ≡ drop start nodes ++ take start nodes
jobs_from-rotated nodes start h =
    let n = length nodes in
    let behind = n - start in
    let split : n ≡ behind + start = omega (arith, h) in
    let first : jobs_from nodes start 0 behind ≡ take behind (drop start nodes) =
      jobs_from-take nodes start 0 behind start
        (λ k lt. mod_below (start + (0 + k)) n (omega (arith, lt, h)) ∙ omega arith)
        (omega (arith, h)) in
    let second : jobs_from nodes start (0 + behind) start ≡ take start (drop 0 nodes) =
      jobs_from-take nodes start (0 + behind) start 0
        (λ k lt.
          mod_wrap (start + ((0 + behind) + k)) n (omega (arith, lt, h)) (omega (arith, lt, h))
          ∙ omega (arith, lt, h))
        (omega (arith, h)) in
    ap (λ x. jobs_from nodes start 0 x) split
    ∙ jobs_from-append nodes start 0 behind start
    ∙ ap (λ js. js ++ jobs_from nodes start (0 + behind) start)
        (first ∙ take_all behind (drop start nodes) (omega (arith, length-drop start nodes)))
    ∙ ap (λ js. drop start nodes ++ js) second

search_first_bound : (ns : List String) (next : String) → search_first ns next ≤ length ns
unfolding search_first
search_first_bound [] next = omega arith
search_first_bound (n ∷ ns) next = ground (arith, search_first_bound ns next)

pub start_at_bound :
    (ns : List String) (next : String) → 0 < length ns → start_at ns next < length ns
unfolding start_at
start_at_bound ns next h = ground (arith, search_first_bound ns next)

perm_middle : (x : String) (ys xs : List String) → Perm (ys ++ x ∷ xs) (x ∷ ys ++ xs)
perm_middle x [] xs = Perm.rfl
perm_middle x (y ∷ ys) xs =
    Perm.trans (Perm.cons y (perm_middle x ys xs)) (Perm.swap x y (ys ++ xs))

perm_swap : (xs ys : List String) → Perm (ys ++ xs) (xs ++ ys)
perm_swap [] ys = rw (append-nil ys) Perm.rfl
perm_swap (x ∷ xs) ys = Perm.trans (perm_middle x ys xs) (Perm.cons x (perm_swap xs ys))

jobs-Perm : (nodes : List String) (next : String) → Perm (jobs nodes next) nodes
unfolding jobs jobs_from
jobs-Perm [] next = Perm.rfl
jobs-Perm (n ∷ ns) next =
    let nodes = n ∷ ns in
    let start = start_at nodes next in
    rw (jobs_from-rotated nodes start (start_at_bound nodes next (omega arith))) (
      subst (Perm (drop start nodes ++ take start nodes)) (take-drop start nodes)
        (perm_swap (take start nodes) (drop start nodes)))

-- Wherever the cursor is, the jobs of a tick are the ready nodes, each once.
pub rotate-Perm :
    (alive : Bool) (names : List String) (next : String) → Perm (rotate alive names next).0 names
unfolding rotate
rotate-Perm alive names next =
    Perm.trans (jobs-Perm (sort text_ltb names) next) (sort-perm text_ltb names)
