-- ===== src/Delivery/Loop.antt =====
-- internal/cluster/delivery.go: every step of the goroutine `run` keeps the invariant, or closes.
use kubetin.Common.{
  ℕ, suc, ◌≡◌, refl, ◌⊎◌, String, Bool, true, not, Option, none, List, [], ◌∷◌, ◌++◌, length,
  contains, contains-append, contains-without, ◌==◌, update, ◌∙◌, ◌&&◌, ◌||◌, arith, eq_iff, subst,
  sym, ap, Bool-cases, inl, inr, if-case, without,
}
use text.Mathlib.TextPositions.{eq_refl}
use kubetin.Delivery.Defs.{PendingEvent, EventDelivery, remove, has_room}
use kubetin.Delivery.Run.{
  Place, at_top, waiting, returned, sending, delivered, World, settle, advance_from, stop_at,
  take_front, Action, publishes, advance, stop, cancel, receive, step,
}
use kubetin.Delivery.Invariant.{outcome, Core, Holds, Stands, seen_at, Inv}
use kubetin.Delivery.Publish.{frame-Core, Fits}
use kubetin.Delivery.Steps.{do_publish-Inv}

module _ {ℓ} {A : Type ℓ} (i : ℕ) (ev : PendingEvent A) (d : EventDelivery A)
    {goal view : String → Option A} {n : ℕ}
    (c : Core d (seen_at (delivered i ev) d.known) goal view n) (h : Holds d i ev)
    (shown : view ev.uid ≡ outcome ev.deleted ev.event) where
  open c use {fresh, queued, owned, indexed, current, settled, visible, versions}

  abbrev noted : EventDelivery A
  noted = record d { known = update ev.uid (not ev.deleted) d.known; in_flight = none }

  -- The consumer has the last word on this UID.
  removed-Core :
      view (d.cells i).uid ≡ goal (d.cells i).uid → Core (remove i noted) noted.known goal view n
  unfolding remove
  removed-Core last = record {
    fresh = λ j e. ground (arith, fresh j, contains-without j i d.queue);
    queued = λ u j e.
        ground
          (arith, queued u j, owned u j, contains-without j i d.queue, eq_iff (d.cells i).uid u);
    owned = λ u j e. ground (arith, owned u j);
    indexed = λ j e. ground (
      arith,
      indexed j,
      indexed i h.in_queue,
      contains-without j i d.queue,
      eq_iff (d.cells i).uid (d.cells j).uid,
    );
    current = λ u j e. ground (arith, current u j);
    settled = λ u e. ground (arith, settled u, eq_iff (d.cells i).uid u);
    visible = visible;
    versions = λ j e. ground (arith, versions j, contains-without j i d.queue);
  }

  -- A later value is to be sent.
  moved-Core : Core (record noted { queue = without i d.queue ++ i ∷ [] }) noted.known goal view n
  moved-Core = record {
    fresh = λ j e. fresh j (stays j e);
    queued = λ u j e. contains-move j ∙ queued u j e;
    owned = owned;
    indexed = λ j e. indexed j (stays j e);
    current = current;
    settled = settled;
    visible = visible;
    versions = λ j e. versions j (stays j e);
  }
    where
      contains-move : (j : ℕ) → contains j (without i d.queue ++ i ∷ []) ≡ contains j d.queue
      contains-move j = ground (
        arith,
        contains-append j (without i d.queue) (i ∷ []),
        contains-without j i d.queue,
        h.in_queue,
      )

      stays : (j : ℕ) → contains j (without i d.queue ++ i ∷ []) ≡ true → contains j d.queue ≡ true
      stays j e = sym (contains-move j) ∙ e

  -- An element is taken out only where the value sent leaves the resource as its last value does.
  same-outcome :
      ((d.cells i).version == ev.version) || ((d.cells i).deleted && not (noted.known ev.uid))
        ≡ true
      → outcome ev.deleted ev.event ≡ outcome (d.cells i).deleted (d.cells i).event
  same-outcome now = elim (Bool-cases ((d.cells i).version == ev.version)) [
    | inl same ↦ ap (λ e. outcome e.deleted e.event) (h.same_version (ground arith))
    | inr newer ↦ both_gone (ground (arith, eq_iff ev.uid ev.uid))
  ]
    where
      both_gone :
          ((d.cells i).deleted ≡ true) × (ev.deleted ≡ true)
          → outcome ev.deleted ev.event ≡ outcome (d.cells i).deleted (d.cells i).event
      both_gone (p, q) = simp (p, q)

  settle-in_flight : (settle i ev d).in_flight ≡ none
  unfolding settle
  settle-in_flight = ground arith

  settle-closed : (settle i ev d).closed ≡ d.closed
  unfolding settle
  settle-closed = ground arith

  settle-Core : Core (settle i ev d) (settle i ev d).known goal view n
  unfolding settle
  settle-Core = elim (Bool-cases (settles_now)) [
    | inl now ↦ rw now (removed-Core (last (same-outcome now)))
    | inr later ↦ rw later moved-Core
  ]
    where
      settles_now : Bool
      settles_now =
          ((d.cells i).version == ev.version) || ((d.cells i).deleted && not (noted.known ev.uid))

      last :
          outcome ev.deleted ev.event ≡ outcome (d.cells i).deleted (d.cells i).event
          → view (d.cells i).uid ≡ goal (d.cells i).uid
      last same =
          subst (λ u. view u ≡ outcome (d.cells i).deleted (d.cells i).event) h.same_uid
            (shown ∙ same)
          ∙ sym (current _ i (indexed i h.in_queue))

-- Behind a send the consumer's view is that of the value read.
delivered-Core {ℓ} :
    {A : Type ℓ} {i : ℕ} {ev : PendingEvent A} {d : EventDelivery A} {goal view : String → Option A}
    {n : ℕ}
    → Holds d i ev
    → Core d d.known goal view n
    → Core d
        (seen_at (delivered i ev) d.known)
        goal
        (update ev.uid (outcome ev.deleted ev.event) view)
        n
delivered-Core {i} {ev} {d} h c = record {
  fresh = c.fresh;
  queued = c.queued;
  owned = c.owned;
  indexed = c.indexed;
  current = c.current;
  settled =
      λ u e. ground (arith, c.settled u e, c.indexed i h.in_queue, h.same_uid, eq_iff ev.uid u);
  visible = λ u. ground (arith, c.visible u);
  versions = c.versions;
}

module _ {ℓ} {A : Type ℓ} where
  -- Closed for good, or open with the invariant.
  abbrev pub Safe : World A → Type ℓ
  Safe w = (w.delivery.closed ≡ true) ⊎ Inv w

  take_front-Inv :
      (q : List ℕ) (w : World A)
      → w.delivery.queue ≡ q
      → Inv (record w { place = at_top })
      → Inv (take_front q (record w { place = at_top }))
  unfolding take_front
  take_front-Inv [] w e v = record {
    core = v.core;
    stands = (tt, v.stands.1, inl e);
    shown = tt;
    is_open = v.is_open;
  }
  take_front-Inv (i ∷ rest) w e v = record {
    core = frame-Core _ _ _ v.core;
    stands = record {
      flying = refl;
      in_queue = ground arith;
      same_uid = refl;
      version_le = omega arith;
      same_version = λ _. refl;
    };
    shown = tt;
    is_open = v.is_open;
  }

  frame-Holds :
      {d : EventDelivery A} {i : ℕ} {ev : PendingEvent A} (out : List A)
      → Holds d i ev
      → Holds (record d { out = out }) i ev
  frame-Holds out h = record {
    flying = h.flying;
    in_queue = h.in_queue;
    same_uid = h.same_uid;
    version_le = h.version_le;
    same_version = h.same_version;
  }

  advance-Safe :
      (p : Place A) (w : World A)
      → Inv (record w { place = p })
      → Safe (advance_from p (record w { place = p }))
  unfolding advance_from
  advance-Safe at_top w v =
      if-case Safe w.cancelled (λ _. inl refl) (λ _. inr (take_front-Inv w.delivery.queue w refl v))
  advance-Safe waiting w v =
      if-case Safe w.delivery.wake
        (λ _. inr (record {
          core = frame-Core _ _ _ v.core;
          stands = (tt, v.stands.1);
          shown = tt;
          is_open = v.is_open;
        }))
        (λ _. inr v)
  advance-Safe (sending i ev) w v =
      if-case Safe (has_room w.delivery)
        (λ _. inr (record {
          core = delivered-Core (frame-Holds _ v.stands) (frame-Core _ _ _ v.core);
          stands = frame-Holds _ v.stands;
          shown = simp (eq_refl ev.uid);
          is_open = v.is_open;
        }))
        (λ _. inr v)
  advance-Safe (delivered i ev) w v = inr (record {
    core = settle-Core i ev w.delivery v.core v.stands v.shown;
    stands = (tt, settle-in_flight i ev w.delivery v.core v.stands v.shown);
    shown = tt;
    is_open = settle-closed i ev w.delivery v.core v.stands v.shown ∙ v.is_open;
  })
  advance-Safe returned w v = inr v

  stop-Safe :
      (p : Place A) (w : World A)
      → Inv (record w { place = p })
      → Safe (stop_at p (record w { place = p }))
  unfolding stop_at
  stop-Safe waiting w v = if-case Safe w.cancelled (λ _. inl refl) (λ _. inr v)
  stop-Safe (sending i ev) w v = if-case Safe w.cancelled (λ _. inl refl) (λ _. inr v)
  stop-Safe _ w v = inr v

  frame-Stands :
      (d : EventDelivery A) (out : List A) (p : Place A)
      → Stands p d
      → Stands p (record d { out = out })
  frame-Stands d out at_top h = h
  frame-Stands d out waiting h = h
  frame-Stands d out returned h = h
  frame-Stands d out (sending i ev) h = frame-Holds out h
  frame-Stands d out (delivered i ev) h = frame-Holds out h

  abbrev pub IsClosed : World A → Type 0
  IsClosed w = w.delivery.closed ≡ true

  take_front-IsClosed : (q : List ℕ) (w : World A) → IsClosed w → IsClosed (take_front q w)
  unfolding take_front
  take_front-IsClosed [] w e = e
  take_front-IsClosed (i ∷ rest) w e = e

  advance-IsClosed : (p : Place A) (w : World A) → IsClosed w → IsClosed (advance_from p w)
  unfolding advance_from
  advance-IsClosed at_top w e =
      if-case IsClosed w.cancelled (λ _. refl) (λ _. take_front-IsClosed w.delivery.queue w e)
  advance-IsClosed waiting w e = if-case IsClosed w.delivery.wake (λ _. e) (λ _. e)
  advance-IsClosed (sending i ev) w e = if-case IsClosed (has_room w.delivery) (λ _. e) (λ _. e)
  advance-IsClosed (delivered i ev) w e = unfold settle in (ground arith)
  advance-IsClosed returned w e = e

  stop-IsClosed : (p : Place A) (w : World A) → IsClosed w → IsClosed (stop_at p w)
  unfolding stop_at
  stop-IsClosed waiting w e = if-case IsClosed w.cancelled (λ _. refl) (λ _. e)
  stop-IsClosed (sending i ev) w e = if-case IsClosed w.cancelled (λ _. refl) (λ _. e)
  stop-IsClosed _ w e = e

  -- Once closed, closed for good.
  pub step-IsClosed :
      (w : World A) (a : Action A) → w.delivery.closed ≡ true → (step w a).delivery.closed ≡ true
  unfolding step
  step-IsClosed w (publishes uid event deleted) e = simp e
  step-IsClosed w advance e = advance-IsClosed w.place w e
  step-IsClosed w stop e = stop-IsClosed w.place w e
  step-IsClosed w cancel e = e
  step-IsClosed w receive e = e

  pub step-Safe :
      (w : World A) (a : Action A) → Fits (suc (length w.published)) → Safe w → Safe (step w a)
  unfolding step
  step-Safe w a bound (inl e) = inl (step-IsClosed w a e)
  step-Safe w (publishes uid event deleted) bound (inr v) =
      inr (do_publish-Inv uid event deleted w v bound)
  step-Safe w advance bound (inr v) = advance-Safe w.place w v
  step-Safe w stop bound (inr v) = stop-Safe w.place w v
  step-Safe w cancel bound (inr v) =
      inr (record { core = v.core; stands = v.stands; shown = v.shown; is_open = v.is_open })
  step-Safe w receive bound (inr v) = inr (record {
    core = frame-Core _ _ _ v.core;
    stands = frame-Stands w.delivery _ w.place v.stands;
    shown = v.shown;
    is_open = v.is_open;
  })
