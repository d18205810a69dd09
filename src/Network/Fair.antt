-- ===== src/Network/Fair.antt =====
-- internal/cluster/networkpoll.go, `scrapeNodes`: no node starves.
use kubetin.Common.{
  ℕ, zero, suc, ◌+◌, ◌-◌, ◌*◌, ◌%◌, ◌≤◌, ◌<◌, ◌≡◌, refl, ap, subst, ◌∙◌, ◌⊎◌, inl, inr, String,
  true, false, List, [], ◌∷◌, length, take, has, str_eq, All, ltb, arith, eq_iff, Bool-cases,
  ltb→lt, lt→ltb, leb, leb→le,
}
use kubetin.Common.Sort.{sort, length-sort}
use kubetin.Common.Text.{text_ltb, text_ltb_asymm}
use kubetin.Network.Jobs.{mod_below, mod_wrap, start_at_bound}
use kubetin.Network.Rotation.{
  network_scrape_workers, search_first, nth, start_at, jobs_from, jobs, advance, rotate,
}

name_eq_refl : (a : String) → str_eq a a ≡ true
name_eq_refl a = (eq_iff a a).1 refl

-- The job of offset d is among the first c.
jobs_from-has :
    (nodes : List String) (start i count d c j : ℕ)
    → start + (i + d) ≡ j
    → d < count
    → d < c
    → has (nth (j % length nodes) nodes) (take c (jobs_from nodes start i count)) ≡ true
unfolding jobs_from
jobs_from-has nodes start i zero d c j e h k = absurd (omega (arith, h))
jobs_from-has nodes start i (suc count) d zero j e h k = absurd (omega (arith, k))
jobs_from-has nodes start i (suc count) zero (suc c) j e h k =
    let same : start + i ≡ j = omega (arith, e) in
    rw (same, name_eq_refl (nth (j % length nodes) nodes)) refl
jobs_from-has nodes start i (suc count) (suc d) (suc c) j e h k =
    rw
      (jobs_from-has nodes start (suc i) count d c j (omega (arith, e)) (omega (arith, h))
        (omega (arith, k)))
      (ground arith)

-- Sorted, and no name twice.
abbrev pub IsAscending : List String → Type 0
IsAscending [] = Unit
IsAscending (n ∷ ns) = All (λ m. text_ltb n m ≡ true) ns × IsAscending ns

nth-All : (P : String → Type 0) (i : ℕ) (ns : List String) → All P ns → i < length ns → P (nth i ns)
nth-All P i [] a h = absurd (omega (arith, h))
nth-All P zero (n ∷ ns) (p, a) h = p
nth-All P (suc i) (n ∷ ns) (p, a) h = nth-All P i ns a (omega (arith, h))

text_ltb_irrefl : (s : String) → text_ltb s s ≡ false
text_ltb_irrefl s = ground (arith, text_ltb_asymm s s)

search_first-nth :
    (ns : List String) (i : ℕ) → IsAscending ns → i < length ns → search_first ns (nth i ns) ≡ i
unfolding search_first
search_first-nth [] i a h = absurd (omega (arith, h))
search_first-nth (n ∷ ns) zero a h = rw (text_ltb_irrefl n) refl
search_first-nth (n ∷ ns) (suc i) (above, a) h =
    let k : i < length ns = omega (arith, h) in
    rw (nth-All (λ m. text_ltb n m ≡ true) i ns above k) (ap suc (search_first-nth ns i a k))

start_at-nth :
    (ns : List String) (i : ℕ) → IsAscending ns → i < length ns → start_at ns (nth i ns) ≡ i
unfolding start_at
start_at-nth ns i a h = ground (arith, search_first-nth ns i a h)

-- `nextNode` after t ticks that see the same ready nodes.
abbrev run_cursor : ℕ → List String → String → String
run_cursor zero nodes next = next
run_cursor (suc t) nodes next = run_cursor t nodes (advance true nodes next)

-- q is d positions behind s, around the end of n names.
abbrev Behind : ℕ → ℕ → ℕ → ℕ → Type 0
Behind n s d q = (s + d ≡ q) ⊎ (s + d ≡ q + n)

mod-Behind : (n s d q : ℕ) → q < n → Behind n s d q → (s + d) % n ≡ q
mod-Behind n s d q h (inl e) = mod_below (s + d) n (omega (arith, h, e)) ∙ e
mod-Behind n s d q h (inr e) =
    mod_wrap (s + d) n (omega (arith, e)) (omega (arith, h, e)) ∙ omega (arith, e)

Behind-below :
    (n s d q : ℕ)
    → s + 4 < n
    → Behind n s (suc (suc (suc (suc d)))) q
    → ((s + 4) % n < n) × Behind n ((s + 4) % n) d q
Behind-below n s d q h (inl e) =
    let m : (s + 4) % n ≡ s + 4 = mod_below (s + 4) n h in
    (omega (arith, m, h), inl (omega (arith, m, e)))
Behind-below n s d q h (inr e) =
    let m : (s + 4) % n ≡ s + 4 = mod_below (s + 4) n h in
    (omega (arith, m, h), inr (omega (arith, m, e)))

Behind-wrap :
    (n s d q : ℕ)
    → s < n
    → n ≤ s + 4
    → 4 < n
    → q < n
    → Behind n s (suc (suc (suc (suc d)))) q
    → ((s + 4) % n < n) × Behind n ((s + 4) % n) d q
Behind-wrap n s d q hs h four hq (inl e) = absurd (omega (arith, h, e, hq))
Behind-wrap n s d q hs h four hq (inr e) =
    let m : (s + 4) % n ≡ s + 4 - n = mod_wrap (s + 4) n h (omega (arith, hs, four)) in
    (omega (arith, m, h, hs, four), inl (omega (arith, m, h, e)))

-- Four positions on, q is four less behind.
Behind-step :
    (n s d q : ℕ)
    → s < n
    → q < n
    → suc (suc (suc (suc d))) < n
    → Behind n s (suc (suc (suc (suc d)))) q
    → ((s + 4) % n < n) × Behind n ((s + 4) % n) d q
Behind-step n s d q hs hq hd b = elim (Bool-cases (ltb (s + 4) n)) [
  | inl h ↦ Behind-below n s d q (ltb→lt (s + 4) n h) b
  | inr h ↦ Behind-wrap n s d q hs (ground arith) (omega (arith, hd)) hq b
]

module _ (nodes : List String) (asc : IsAscending nodes) where
  abbrev pub IsServed : ℕ → ℕ → String → Type 0
  IsServed d q next =
      (t : ℕ) × (t * 4 ≤ d)
      × (has (nth q nodes) (take network_scrape_workers (jobs nodes (run_cursor t nodes next)))
          ≡ true)

  advance_next :
      (next : String)
      → 0 < length nodes
      → advance true nodes next ≡ nth ((start_at nodes next + 4) % length nodes) nodes
  unfolding advance
  advance_next next h = rw (lt→ltb 0 (length nodes) h) refl

  IsServed-now :
      (s d q : ℕ) (next : String)
      → q < length nodes
      → d < length nodes
      → d < 4
      → Behind (length nodes) s d q
      → start_at nodes next ≡ s
      → IsServed d q next
  unfolding jobs
  IsServed-now s d q next hq hd h4 b e =
      let at_q : (s + d) % length nodes ≡ q = mod-Behind (length nodes) s d q hq b in
      (
        0,
        omega arith,
        rw (e) (
            subst (λ i. has (nth i nodes) (take 4 (jobs_from nodes s 0 (length nodes))) ≡ true) at_q
              (jobs_from-has nodes s 0 (length nodes) d 4 (s + d) (omega arith) hd h4)),
      )

  IsServed-within :
      (d s q : ℕ) (next : String)
      → s < length nodes
      → q < length nodes
      → d < length nodes
      → Behind (length nodes) s d q
      → start_at nodes next ≡ s
      → IsServed d q next
  IsServed-within zero s q next hs hq hd b e = IsServed-now s 0 q next hq hd (omega arith) b e
  IsServed-within (suc zero) s q next hs hq hd b e = IsServed-now s 1 q next hq hd (omega arith) b e
  IsServed-within (suc (suc zero)) s q next hs hq hd b e =
      IsServed-now s 2 q next hq hd (omega arith) b e
  IsServed-within (suc (suc (suc zero))) s q next hs hq hd b e =
      IsServed-now s 3 q next hq hd (omega arith) b e
  IsServed-within (suc (suc (suc (suc d)))) s q next hs hq hd b e =
      let (low, b') = Behind-step (length nodes) s d q hs hq hd b in
      let moved : start_at nodes (advance true nodes next) ≡ (s + 4) % length nodes =
        ap (start_at nodes) (advance_next next (omega (arith, hs)))
        ∙ ap (λ i. start_at nodes (nth ((i + 4) % length nodes) nodes)) e
        ∙ start_at-nth nodes ((s + 4) % length nodes) asc low in
      let (t, bound, found) =
        IsServed-within d ((s + 4) % length nodes) q (advance true nodes next) low hq
          (omega (arith, hd)) b' moved in
      (suc t, omega (arith, bound), found)

  served :
      (q : ℕ) (next : String)
      → q < length nodes
      → (t : ℕ) × (t * 4 ≤ length nodes)
        × (has (nth q nodes) (take network_scrape_workers (jobs nodes (run_cursor t nodes next)))
            ≡ true)
  served q next hq =
      let n = length nodes in
      let s = start_at nodes next in
      let hs : s < n = start_at_bound nodes next (omega (arith, hq)) in
      elim (Bool-cases (leb s q)) [
        | inl h ↦
            let le : s ≤ q = leb→le s q h in
            let (t, bound, found) =
              IsServed-within (q - s) s q next hs hq (omega (arith, hq)) (inl (omega (arith, le)))
                refl in
            (t, omega (arith, bound, hq), found)
        | inr h ↦
            let lt : q < s = ground arith in
            let (t, bound, found) =
              IsServed-within (q + n - s) s q next hs hq (omega (arith, lt, hs))
                (inr (omega (arith, hs))) refl in
            (t, omega (arith, bound, lt, hs), found)
      ]

-- `nextNode` after t ticks that find the same nodes ready.
abbrev pub next_after : ℕ → List String → String → String
unfolding rotate
next_after zero names next = next
next_after (suc t) names next = next_after t names (rotate true names next).1

next_after_cursor :
    (t : ℕ) (names : List String) (next : String)
    → next_after t names next ≡ run_cursor t (sort text_ltb names) next
unfolding rotate
next_after_cursor zero names next = refl
next_after_cursor (suc t) names next =
    next_after_cursor t names (advance true (sort text_ltb names) next)

-- No node starves: wherever the cursor is, each of the ready nodes, whose names differ, is among the
-- first four jobs of some tick t of which 4 t is at most their number.
pub rotate-serves :
    (names : List String) (q : ℕ) (next : String)
    → IsAscending (sort text_ltb names)
    → q < length names
    → (t : ℕ) × (t * 4 ≤ length names)
      × (has
            (nth q (sort text_ltb names))
            (take network_scrape_workers (rotate true names (next_after t names next)).0)
          ≡ true)
unfolding rotate
rotate-serves names q next asc hq =
    let nodes : List String = sort text_ltb names in
    let size : length nodes ≡ length names = length-sort text_ltb names in
    let (t, bound, found) = served nodes asc q next (omega (arith, hq, size)) in
    (
      t,
      omega (arith, bound, size),
      ap (λ (x : String). has (nth q nodes) (take 4 (jobs nodes x)))
            (next_after_cursor t names next)
          ∙ found,
    )
