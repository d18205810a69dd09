-- ===== src/Delivery/Run.antt =====
-- internal/cluster/delivery.go: the goroutine `run`, one step for each stretch between two points
-- where another goroutine may come in, and the schedules of producer, goroutine and consumer.
use kubetin.Common.{
  ℕ, String, Bool, true, false, not, ◌&&◌, ◌||◌, Option, none, some, List, [], ◌∷◌, ◌++◌, ◌==◌,
  if◌then◌else◌, without,
}
use kubetin.Delivery.Defs.{
  PendingEvent, EventDelivery, Message, new_event_delivery, has_room, record_uid, remove, publish,
}

-- Where the goroutine stands: at the head of the loop, at the `select` on an empty queue, at the
-- `select` that sends the value read from an element, behind it, or returned.
pub data Place {ℓ} (A : Type ℓ) : Type ℓ where
  at_top waiting returned : Place A
  sending delivered : ℕ → PendingEvent A → Place A

-- The delivery, its goroutine, the context, and two histories, newest first: what was published
-- while the delivery was open, and what reached `Out`.
pub record World {ℓ} (A : Type ℓ) : Type ℓ where
  pub delivery : EventDelivery A
  pub place : Place A
  pub cancelled : Bool
  pub published : List (Message A)
  pub sent : List (Message A)

-- One event of a schedule. `stop` takes the `ctx.Done` case of a `select`.
pub data Action {ℓ} (A : Type ℓ) : Type ℓ where
  publishes : String → A → Bool → Action A
  advance stop cancel receive : Action A

module _ {ℓ} {A : Type ℓ} where
  abbrev pub to_message : PendingEvent A → Message A
  to_message ev = record { uid = ev.uid; event = ev.event; deleted = ev.deleted }

  -- The deferred function.
  unfoldable pub close : EventDelivery A → EventDelivery A
  close d = record d {
    closed = true;
    pending = λ uid. none;
    known = λ uid. false;
    in_flight = none;
    queue = [];
  }

  -- The front of the queue goes in flight.
  unfoldable pub take_front : List ℕ → World A → World A
  take_front [] w = record w { place = waiting }
  take_front (i ∷ rest) w = record w {
    delivery = record w.delivery { in_flight = some i };
    place = sending i (w.delivery.cells i);
  }

  -- The critical section behind a send.
  unfoldable pub settle : ℕ → PendingEvent A → EventDelivery A → EventDelivery A
  unfolding record_uid remove
  settle i ev d =
      let d' = record_uid ev.uid ev.deleted (record d { in_flight = none }) in
      let latest = d.cells i in
      if (latest.version == ev.version) || (latest.deleted && not (d'.known ev.uid))
      then remove i d'
      else record d' { queue = without i d'.queue ++ i ∷ [] }

  unfoldable pub advance_from : Place A → World A → World A
  unfolding close take_front settle
  advance_from at_top w =
      if w.cancelled
      then record w { delivery = close w.delivery; place = returned }
      else take_front w.delivery.queue w
  advance_from waiting w =
      if w.delivery.wake
      then record w { delivery = record w.delivery { wake = false }; place = at_top }
      else w
  advance_from (sending i ev) w =
      if has_room w.delivery
      then record w {
        delivery = record w.delivery { out = w.delivery.out ++ ev.event ∷ [] };
        place = delivered i ev;
        sent = to_message ev ∷ w.sent;
      }
      else w
  advance_from (delivered i ev) w = record w { delivery = settle i ev w.delivery; place = at_top }
  advance_from returned w = w

  unfoldable pub stop_at : Place A → World A → World A
  unfolding close
  stop_at waiting w =
      if w.cancelled then record w { delivery = close w.delivery; place = returned } else w
  stop_at (sending i ev) w =
      if w.cancelled then record w { delivery = close w.delivery; place = returned } else w
  stop_at _ w = w

  abbrev log_sent : Option (Message A) → List (Message A) → List (Message A)
  log_sent none ms = ms
  log_sent (some m) ms = m ∷ ms

  unfoldable pub do_publish : String → A → Bool → World A → World A
  do_publish uid event deleted w =
      let (d, message) = publish uid event deleted w.delivery in
      record w {
        delivery = d;
        published =
            if w.delivery.closed
            then w.published
            else record { uid = uid; event = event; deleted = deleted } ∷ w.published;
        sent = log_sent message w.sent;
      }

  abbrev pub drop_first : List A → List A
  drop_first [] = []
  drop_first (x ∷ xs) = xs

  unfoldable pub step : World A → Action A → World A
  unfolding do_publish publish advance_from stop_at
  step w (publishes uid event deleted) = do_publish uid event deleted w
  step w advance = advance_from w.place w
  step w stop = stop_at w.place w
  step w cancel = record w { cancelled = true }
  step w receive = record w { delivery = record w.delivery { out = drop_first w.delivery.out } }

  unfoldable pub run_schedule : World A → List (Action A) → World A
  run_schedule w [] = w
  run_schedule w (a ∷ as') = run_schedule (step w a) as'

  unfoldable pub start : A → ℕ → World A
  unfolding new_event_delivery
  start blank capacity = record {
    delivery = new_event_delivery blank capacity;
    place = at_top;
    cancelled = false;
    published = [];
    sent = [];
  }
