-- ===== src/Probe/Hysteresis.antt =====
-- internal/cluster/probe.go: `reachAccumulator`, the hysteresis on the state that is shown.
use kubetin.Common.{ℕ, ◌+◌, ◌≡◌, refl, Bool, ◌||◌, List, [], ◌∷◌, leb, ◌==◌, if◌then◌else◌, arith}
use kubetin.State.Defs.{Reach, unknown, connecting, healthy, degraded, unreachable, auth_failed}

-- The constants are 0 to 5 in the source.
abbrev pub code : Reach → ℕ
code unknown = 0
code connecting = 1
code healthy = 2
code degraded = 3
code unreachable = 4
code auth_failed = 5

abbrev pub same_reach : Reach → Reach → Bool
same_reach a b = code a == code b

pub record ReachAccumulator : Type 0 where
  pub visible : Reach
  pub pending : Reach
  pub pending_count : ℕ

-- What `accumulator` makes for a context that has none.
abbrev pub new_accumulator : ReachAccumulator
new_accumulator = record { visible = unknown; pending = unknown; pending_count = 0 }

-- The first return of `update`.
unfoldable pub accepts_at_once : Reach → ReachAccumulator → Bool
accepts_at_once seen a =
    same_reach a.visible unknown || same_reach seen healthy || same_reach seen a.visible

unfoldable pub count_pending : Reach → ReachAccumulator → ReachAccumulator
count_pending seen a =
    if same_reach seen a.pending
    then record a { pending_count = a.pending_count + 1 }
    else record a { pending = seen; pending_count = 1 }

unfoldable pub promote : ReachAccumulator → ReachAccumulator
promote a = if leb 2 a.pending_count then record a { visible = a.pending; pending_count = 0 } else a

-- The state after `update`, whose result is its `visible`.
unfoldable pub update_reach : Reach → ReachAccumulator → ReachAccumulator
unfolding accepts_at_once count_pending promote
update_reach seen a =
    if accepts_at_once seen a
    then record { visible = seen; pending = seen; pending_count = 0 }
    else promote (count_pending seen a)

unfoldable pub update_all : List Reach → ReachAccumulator → ReachAccumulator
unfolding update_reach
update_all [] a = a
update_all (seen ∷ rest) a = update_all rest (update_reach seen a)

-- The rule without a counter: what was shown and the sample before decide.
pub record Shown : Type 0 where
  pub shown : Reach
  pub last : Reach

abbrev pub show_next : Reach → Shown → Reach
show_next seen s =
    if same_reach s.shown unknown || same_reach seen healthy || same_reach seen s.shown
    then seen
    else if same_reach seen s.last
    then seen
    else s.shown

abbrev pub show_step : Reach → Shown → Shown
show_step seen s = record { shown = show_next seen s; last = seen }

abbrev pub show_all : List Reach → Shown → Shown
show_all [] s = s
show_all (seen ∷ rest) s = show_all rest (show_step seen s)

-- The accumulator at a state of that rule: the counter is 1 exactly if the last sample is not shown.
abbrev pub accumulator_at : Shown → ReachAccumulator
accumulator_at s = record {
  visible = s.shown;
  pending = s.last;
  pending_count = if same_reach s.last s.shown then 0 else 1;
}

pub code_injective : (a b : Reach) → code a ≡ code b → a ≡ b
code_injective unknown b h = ground arith
code_injective connecting b h = ground arith
code_injective healthy b h = ground arith
code_injective degraded b h = ground arith
code_injective unreachable b h = ground arith
code_injective auth_failed b h = ground arith

update_reach-accumulator_at :
    (seen : Reach) (s : Shown)
    → update_reach seen (accumulator_at s) ≡ accumulator_at (show_step seen s)
unfolding update_reach
update_reach-accumulator_at seen s =
    ground (arith, code_injective seen s.last, code_injective seen s.shown)

update_all-accumulator_at :
    (samples : List Reach) (s : Shown)
    → update_all samples (accumulator_at s) ≡ accumulator_at (show_all samples s)
unfolding update_all
update_all-accumulator_at [] s = refl
update_all-accumulator_at (seen ∷ rest) s =
    rw (update_reach-accumulator_at seen s) (update_all-accumulator_at rest (show_step seen s))

-- The accumulator with its counter shows, after any samples, what the rule of two samples shows: a
-- healthy sample, the first one after unknown, and one equal to what is shown are shown at once, and
-- any other only if the sample before was the same.
pub update_all-show_all :
    (samples : List Reach)
    → update_all samples new_accumulator
      ≡ accumulator_at (show_all samples (record { shown = unknown; last = unknown }))
update_all-show_all samples =
    update_all-accumulator_at samples (record { shown = unknown; last = unknown })
