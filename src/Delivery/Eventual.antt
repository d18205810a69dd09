-- ===== src/Delivery/Eventual.antt =====
-- internal/cluster/delivery.go: what a consumer is promised, over every schedule.
use kubetin.Common.{
  ℕ, suc, ◌+◌, ◌≤◌, ◌≡◌, ◌⊎◌, String, true, false, none, some, List, [], ◌∷◌, length, ◌∙◌, arith,
  sym, inl, inr, if-case, contains, subst, Option-cases,
}
use mathlib.Core.Bool.{false≢true}
use kubetin.Delivery.Defs.{has_room}
use kubetin.Delivery.Run.{
  Place, at_top, waiting, returned, sending, delivered, World, advance_from, stop_at, take_front,
  do_publish, Action, publishes, advance, stop, cancel, receive, step, run_schedule, start,
}
use kubetin.Delivery.Invariant.{outcome, Stands, replay, Inv, start-Inv}
use kubetin.Delivery.Publish.{Fits}
use kubetin.Delivery.Loop.{Safe, step-Safe}

module _ {ℓ} {A : Type ℓ} where
  abbrev Grows : ℕ → World A → Type 0
  Grows n w = length w.published ≤ suc n

  take_front-Grows : (q : List ℕ) (w : World A) → Grows (length w.published) (take_front q w)
  unfolding take_front
  take_front-Grows [] w = omega arith
  take_front-Grows (i ∷ rest) w = omega arith

  advance-Grows : (p : Place A) (w : World A) → Grows (length w.published) (advance_from p w)
  unfolding advance_from
  advance-Grows at_top w =
      if-case (Grows _) w.cancelled (λ _. omega arith) (λ _. take_front-Grows w.delivery.queue w)
  advance-Grows waiting w = if-case (Grows _) w.delivery.wake (λ _. omega arith) (λ _. omega arith)
  advance-Grows (sending i ev) w =
      if-case (Grows _) (has_room w.delivery) (λ _. omega arith) (λ _. omega arith)
  advance-Grows (delivered i ev) w = omega arith
  advance-Grows returned w = omega arith

  stop-Grows : (p : Place A) (w : World A) → Grows (length w.published) (stop_at p w)
  unfolding stop_at
  stop-Grows waiting w = if-case (Grows _) w.cancelled (λ _. omega arith) (λ _. omega arith)
  stop-Grows (sending i ev) w = if-case (Grows _) w.cancelled (λ _. omega arith) (λ _. omega arith)
  stop-Grows _ w = omega arith

  step-Grows : (w : World A) (a : Action A) → Grows (length w.published) (step w a)
  unfolding step
  step-Grows w (publishes uid event deleted) = unfold do_publish in (ground arith)
  step-Grows w advance = advance-Grows w.place w
  step-Grows w stop = stop-Grows w.place w
  step-Grows w cancel = omega arith
  step-Grows w receive = omega arith

  run_schedule-Safe :
      (w : World A) (as' : List (Action A))
      → Fits (length w.published + suc (length as'))
      → Safe w
      → Safe (run_schedule w as')
  unfolding run_schedule
  run_schedule-Safe w [] bound v = v
  run_schedule-Safe w (a ∷ as') bound v =
      run_schedule-Safe (step w a) as' (omega (arith, step-Grows w a))
        (step-Safe w a (omega arith) v)

  -- The world behind a schedule from the start.
  abbrev pub after : A → ℕ → List (Action A) → World A
  after blank capacity as' = run_schedule (start blank capacity) as'

  after-Inv :
      (blank : A) (capacity : ℕ) (as' : List (Action A))
      → Fits (suc (length as'))
      → (after blank capacity as').delivery.closed ≡ false
      → Inv (after blank capacity as')
  unfolding start
  after-Inv blank capacity as' bound opened = elim safe [
    | inl shut ↦ absurd (false≢true (sym opened ∙ shut))
    | inr v ↦ v
  ]
    where
      safe : Safe (after blank capacity as')
      safe =
          run_schedule-Safe (start blank capacity) as' (omega arith)
            (inr (start-Inv blank capacity))

  -- What is announced for a UID has reached the consumer, or waits in the queue.
  abbrev pub Accounted : World A → String → Type ℓ
  Accounted w uid =
      ((w.delivery.pending uid ≡ none) × (replay w.sent uid ≡ replay w.published uid))
      ⊎ ((i : ℕ) × (w.delivery.pending uid ≡ some i)
          × (contains i w.delivery.queue ≡ true)
          × ((w.delivery.cells i).uid ≡ uid)
          × (replay w.published uid
              ≡ outcome (w.delivery.cells i).deleted (w.delivery.cells i).event))

  -- Over every schedule of publishers, goroutine, consumer and cancellation with fewer than
  -- 2^64 - 1 steps, while the delivery is open: where nothing is pending for a UID, the state that
  -- the events sent leave it in is the state that the events published leave it in; otherwise the
  -- pending element is in the queue, is of this UID, and holds the state last published.
  pub eventual_state :
      (blank : A) (capacity : ℕ) (as' : List (Action A)) (uid : String)
      → Fits (suc (length as'))
      → (after blank capacity as').delivery.closed ≡ false
      → Accounted (after blank capacity as') uid
  eventual_state blank capacity as' uid bound opened =
      let c = (after-Inv blank capacity as' bound opened).core in
      elim (Option-cases ((after blank capacity as').delivery.pending uid)) [
        | inl e ↦ inl (e, c.settled uid e)
        | inr (i, e) ↦ inr (i, e, c.queued uid i e, c.owned uid i e, c.current uid i e)
      ]

  -- No wakeup is lost: a goroutine that waits in an open delivery has an empty queue or a token.
  pub no_lost_wakeup :
      (blank : A) (capacity : ℕ) (as' : List (Action A))
      → Fits (suc (length as'))
      → (after blank capacity as').delivery.closed ≡ false
      → (after blank capacity as').place ≡ waiting
      → ((after blank capacity as').delivery.queue ≡ [])
        ⊎ ((after blank capacity as').delivery.wake ≡ true)
  no_lost_wakeup blank capacity as' bound opened e =
      (subst (λ p. Stands p (after blank capacity as').delivery) e
        (after-Inv blank capacity as' bound opened).stands).2
