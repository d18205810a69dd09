-- ===== src/History/Ring.antt =====
-- internal/ui/history.go: `netRing` and its `push`; internal/ui/fleethealth.go: `appendCapped`.
--
-- An instant is a number of nanoseconds. The slice that `appendCapped` shifts in place is only held
-- by the ring, so it is a list.
use kubetin.Common.{
  ℕ, ◌-◌, Bool, true, not, Option, none, some, List, [], ◌∷◌, ◌++◌, ltb, drop, length,
  if◌then◌else◌,
}
use kubetin.Common.Int.{ℤ}

abbrev pub net_history_cap : ℕ
net_history_cap = 60

pub record NetRing : Type 0 where
  pub rx : List ℤ
  pub tx : List ℤ
  pub at_times : List ℕ

pub record Sample : Type 0 where
  pub rx : ℤ
  pub tx : ℤ
  pub at_time : ℕ

-- `netRing{}`
abbrev pub empty_ring : NetRing
empty_ring = record { rx = []; tx = []; at_times = [] }

unfoldable pub append_capped : {A : Type 0} → List A → A → ℕ → List A
append_capped xs v n =
    if ltb n (length (xs ++ v ∷ []))
    then drop (length (xs ++ v ∷ []) - n) (xs ++ v ∷ [])
    else xs ++ v ∷ []

abbrev pub last_of : List ℕ → Option ℕ
last_of [] = none
last_of (t ∷ []) = some t
last_of (t ∷ u ∷ ts) = last_of (u ∷ ts)

-- A sample that is not later than the last one is skipped.
abbrev pub is_later : ℕ → Option ℕ → Bool
is_later t none = true
is_later t (some u) = ltb u t

unfoldable pub push : Sample → NetRing → NetRing
unfolding append_capped
push p r = if not (is_later p.at_time (last_of r.at_times)) then r else record {
  rx = append_capped r.rx p.rx net_history_cap;
  tx = append_capped r.tx p.tx net_history_cap;
  at_times = append_capped r.at_times p.at_time net_history_cap;
}

-- The samples of a focus, one after the other.
unfoldable pub push_all : List Sample → NetRing → NetRing
unfolding push
push_all [] r = r
push_all (p ∷ ps) r = push_all ps (push p r)
