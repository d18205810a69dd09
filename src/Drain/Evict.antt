-- ===== src/Drain/Evict.antt =====
-- internal/cluster/nodeops.go: `evictWithRetry`, the eviction of one pod against a disruption budget.
use kubetin.Common.{
  ℕ, zero, suc, ◌+◌, ◌-◌, ◌*◌, refl, inl, inr, ap, ◌∙◌, if-case, ◌≤◌, ◌<◌, ◌≡◌, ◌⊎◌, String, Bool,
  Option, none, some, leb, if◌then◌else◌, arith,
}

-- What the apiserver says to one `evictOnce`.
pub data EvictAnswer : Type 0 where
  accepted not_found too_many_requests : EvictAnswer
  refused : String → EvictAnswer

pub data EvictError : Type 0 where
  pdb_blocked gave_up : EvictError
  other : String → EvictError

abbrev pub drain_pdb_max_retries : ℕ
drain_pdb_max_retries = 5

-- How a call ended, after how many requests and how many seconds of backoff.
pub record Eviction : Type 0 where
  pub error : Option EvictError
  pub requests : ℕ
  pub waited : ℕ

-- The tests behind one request. `ended` says that the context ends during the backoff, and `rest` is
-- the loop from the next attempt on.
unfoldable pub on_evict_answer : EvictAnswer → Bool → ℕ → ℕ → Option Eviction → Option Eviction
on_evict_answer accepted ended attempt waited rest =
    some (record { error = none; requests = attempt + 1; waited = waited })
on_evict_answer not_found ended attempt waited rest =
    some (record { error = none; requests = attempt + 1; waited = waited })
on_evict_answer (refused e) ended attempt waited rest =
    some (record { error = some (other e); requests = attempt + 1; waited = waited })
on_evict_answer too_many_requests ended attempt waited rest =
    if leb drain_pdb_max_retries attempt
    then some (record { error = some pdb_blocked; requests = attempt + 1; waited = waited })
    else if ended
    then some (record { error = some gave_up; requests = attempt + 1; waited = waited })
    else rest

-- `answers n` is the answer to the attempt `n`, and `ends n` says that the context ends during the
-- backoff behind it. `none` means that the fuel ran out.
unfoldable pub evict_from : (ℕ → EvictAnswer) → (ℕ → Bool) → ℕ → ℕ → ℕ → ℕ → Option Eviction
unfolding on_evict_answer
evict_from answers ends zero attempt backoff waited = none
evict_from answers ends (suc fuel) attempt backoff waited =
    on_evict_answer (answers attempt) (ends attempt) attempt waited
      (evict_from answers ends fuel (attempt + 1) (backoff * 2) (waited + backoff))

-- One attempt and `drain_pdb_max_retries` retries.
unfoldable pub evict_with_retry : (ℕ → EvictAnswer) → (ℕ → Bool) → Option Eviction
unfolding evict_from
evict_with_retry answers ends = evict_from answers ends 6 0 1 0

-- The pod is going, or gone.
abbrev pub IsGood : EvictAnswer → Type 0
IsGood a = (a ≡ accepted) ⊎ (a ≡ not_found)

-- A result is in order: within six requests and 31 seconds, without an error if the last answer is
-- good, and blocked by the budget only after all six.
pub record Bounded (answers : ℕ → EvictAnswer) (r : Eviction) : Type 0 where
  pub few : r.requests ≤ 6
  pub some_request : 1 ≤ r.requests
  pub short : r.waited ≤ 31
  pub good : r.error ≡ none → IsGood (answers (r.requests - 1))
  pub good_only : IsGood (answers (r.requests - 1)) → r.error ≡ none
  pub blocked : r.error ≡ some pdb_blocked → r.requests ≡ 6

abbrev Ends : (ℕ → EvictAnswer) → Option Eviction → Type 0
Ends answers o = (r : Eviction) × (o ≡ some r) × Bounded answers r

ended_with :
    (answers : ℕ → EvictAnswer) (a : EvictAnswer) (attempt waited : ℕ) (error : Option EvictError)
    → answers attempt ≡ a
    → attempt ≤ 5
    → waited ≤ 31
    → (error ≡ some pdb_blocked → attempt ≡ 5)
    → (error ≡ none → IsGood a)
    → (IsGood a → error ≡ none)
    → Bounded answers (record { error = error; requests = attempt + 1; waited = waited })
ended_with answers a attempt waited error e p q full good good_only = record {
  few = omega arith;
  some_request = omega arith;
  short = q;
  good = λ h. rw (last_answer) (good h);
  good_only = λ h. good_only (rw last_answer at h);
  blocked = λ h. omega (arith, full h);
}
  where
    last_answer : answers (attempt + 1 - 1) ≡ a
    last_answer = let same : attempt + 1 - 1 ≡ attempt = omega arith in ap answers same ∙ e

on_evict_answer-Ends :
    (answers : ℕ → EvictAnswer) (a : EvictAnswer) (ended : Bool) (attempt waited : ℕ)
    (rest : Option Eviction)
    → answers attempt ≡ a
    → attempt ≤ 5
    → waited ≤ 31
    → (attempt < 5 → Ends answers rest)
    → Ends answers (on_evict_answer a ended attempt waited rest)
unfolding on_evict_answer
on_evict_answer-Ends answers accepted ended attempt waited rest e p q next = (
  _,
  refl,
  ended_with answers accepted attempt waited none e p q (ground arith) (λ _. inl refl) (λ _. refl),
)
on_evict_answer-Ends answers not_found ended attempt waited rest e p q next = (
  _,
  refl,
  ended_with answers not_found attempt waited none e p q (ground arith) (λ _. inr refl) (λ _. refl),
)
on_evict_answer-Ends answers (refused m) ended attempt waited rest e p q next = (
  _,
  refl,
  ended_with answers (refused m) attempt waited (some (other m)) e p q (ground arith) (ground arith)
      (ground arith),
)
on_evict_answer-Ends answers too_many_requests ended attempt waited rest e p q next =
    if-case (Ends answers) (leb drain_pdb_max_retries attempt)
      (λ full. (
        _,
        refl,
        ended_with answers too_many_requests attempt waited (some pdb_blocked) e p q
            (λ _. ground arith) (ground arith) (ground arith),
      ))
      (λ more.
        if-case (Ends answers) ended
          (λ _. (
            _,
            refl,
            ended_with answers too_many_requests attempt waited (some gave_up) e p q (ground arith)
                (ground arith) (ground arith),
          ))
          (λ _. next (ground arith)))

-- Fuel for the attempts that are left, with backoffs that double.
abbrev Room : ℕ → ℕ → Type 0
Room zero backoff = backoff ≤ 64
Room (suc fuel) backoff = Room fuel (backoff * 2)

Room-le : (fuel backoff : ℕ) → Room fuel backoff → backoff ≤ 64
Room-le zero backoff h = h
Room-le (suc fuel) backoff h = omega (arith, Room-le fuel (backoff * 2) h)

evict_from-Ends :
    (answers : ℕ → EvictAnswer) (ends : ℕ → Bool) (fuel attempt backoff waited : ℕ)
    → attempt + fuel ≡ 6
    → 1 ≤ fuel
    → waited + 1 ≡ backoff
    → Room fuel backoff
    → Ends answers (evict_from answers ends fuel attempt backoff waited)
unfolding evict_from
evict_from-Ends answers ends zero attempt backoff waited h one w r = absurd (omega arith)
evict_from-Ends answers ends (suc fuel) attempt backoff waited h one w r =
    on_evict_answer-Ends answers (answers attempt) (ends attempt) attempt waited _ refl
      (omega arith) (omega (arith, Room-le fuel (backoff * 2) r))
      (λ more.
        evict_from-Ends answers ends fuel (attempt + 1) (backoff * 2) (waited + backoff)
          (omega arith) (omega arith) (omega arith) r)

-- Whatever the apiserver answers and whenever the context ends, the retries end: there is a result,
-- after one to six requests and at most 31 seconds of backoff; it is without an error exactly if the
-- answer to the last request was an acceptance or "not found", and says "blocked" only behind all
-- six requests.
pub evict_with_retry_total :
    (answers : ℕ → EvictAnswer) (ends : ℕ → Bool)
    → (r : Eviction) × (evict_with_retry answers ends ≡ some r) × Bounded answers r
unfolding evict_with_retry
evict_with_retry_total answers ends =
    evict_from-Ends answers ends 6 0 1 0 (omega arith) (omega arith) (omega arith) (omega arith)
