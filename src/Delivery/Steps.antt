-- ===== src/Delivery/Steps.antt =====
-- internal/cluster/delivery.go: every step of a schedule keeps the invariant of an open delivery.
use kubetin.Common.{
  ℕ, suc, ◌<◌, ◌≡◌, refl, ◌⊎◌, String, Bool, true, false, not, Option, none, some, [], ◌∷◌, ◌++◌,
  length, contains-append, contains-without, ◌==◌, update, ◌∙◌, ◌&&◌, arith, eq_iff, subst, sym,
  Bool-cases, inl, inr,
}
use kubetin.Delivery.Defs.{
  PendingEvent, EventDelivery, Message, record_uid, cancel_pending, store, enqueue, publish,
  cancels, has_room,
}
use kubetin.Delivery.Run.{Place, at_top, waiting, returned, sending, delivered, World, do_publish}
use kubetin.Delivery.Invariant.{outcome, Core, Holds, Stands, seen_at, replay, Shown, Inv}
use kubetin.Delivery.Publish.{enqueue-Core, enqueue_cases, send-Core, Fits}

module _ {ℓ} {A : Type ℓ} (uid : String) (event : A) (deleted : Bool) (d : EventDelivery A) where
  enqueue-known : (enqueue uid event deleted d).known ≡ d.known
  unfolding enqueue
  enqueue-known = ground arith

  enqueue-closed : (enqueue uid event deleted d).closed ≡ d.closed
  unfolding enqueue
  enqueue-closed = ground arith

  enqueue-in_flight : (enqueue uid event deleted d).in_flight ≡ d.in_flight
  unfolding enqueue
  enqueue-in_flight = ground arith

  enqueue-awake :
      (d.queue ≡ []) ⊎ (d.wake ≡ true)
      → ((enqueue uid event deleted d).queue ≡ []) ⊎ ((enqueue uid event deleted d).wake ≡ true)
  unfolding enqueue
  enqueue-awake h = ground arith

  module _ {seen : String → Bool} {goal view : String → Option A} {n : ℕ}
      (c : Core d seen goal view n) (bound : Fits n) {i : ℕ} {ev : PendingEvent A}
      (h : Holds d i ev) where
    other : (j : ℕ) → j < d.next_elem → (d.next_elem == j) ≡ false
    other j l = ground arith

    store-none-Holds :
        d.pending uid ≡ none → Holds (record (store none uid event deleted d) { wake = true }) i ev
    unfolding store
    store-none-Holds e = record {
      flying = h.flying;
      in_queue = ground (arith, contains-append i d.queue (d.next_elem ∷ []));
      same_uid = ground (arith, c.fresh i h.in_queue);
      version_le = ground (arith, c.fresh i h.in_queue);
      same_version = rw (other i (c.fresh i h.in_queue)) h.same_version;
    }

    store-some-Holds :
        (k : ℕ)
        → d.pending uid ≡ some k
        → Holds (record (store (some k) uid event deleted d) { wake = true }) i ev
    unfolding store
    store-some-Holds k e = record {
      flying = h.flying;
      in_queue = h.in_queue;
      same_uid = ground (arith, c.owned uid k e);
      version_le = ground (arith, c.versions i h.in_queue);
      same_version = elim (Bool-cases (k == i)) [
        | inl hit ↦ rw hit (λ v. absurd (ground (arith, c.versions i h.in_queue)))
        | inr miss ↦ rw miss h.same_version
      ];
    }

    cancel-Holds :
        (k : ℕ)
        → cancels uid deleted d ≡ true
        → d.pending uid ≡ some k
        → Holds (cancel_pending (some k) d) i ev
    unfolding cancel_pending cancels
    cancel-Holds k drop e = record {
      flying = h.flying;
      in_queue = ground (arith, contains-without i k d.queue);
      same_uid = h.same_uid;
      version_le = h.version_le;
      same_version = h.same_version;
    }

    enqueue-Holds : Holds (enqueue uid event deleted d) i ev
    unfolding cancel_pending
    enqueue-Holds =
        enqueue_cases (λ d'. Holds d' i ev) uid event deleted d
          (λ drop del e. record {
            flying = h.flying;
            in_queue = h.in_queue;
            same_uid = h.same_uid;
            version_le = h.version_le;
            same_version = h.same_version;
          })
          (λ k drop del e. cancel-Holds k drop e) store-none-Holds store-some-Holds

  enqueue-Stands :
      {seen : String → Bool} {goal view : String → Option A} {n : ℕ}
      → Core d seen goal view n
      → Fits n
      → (p : Place A) → Stands p d
      → Stands p (enqueue uid event deleted d)
  enqueue-Stands c bound at_top h = (tt, enqueue-in_flight ∙ h.1)
  enqueue-Stands c bound waiting h = (tt, enqueue-in_flight ∙ h.1, enqueue-awake h.2)
  enqueue-Stands c bound returned h = tt
  enqueue-Stands c bound (sending i ev) h = enqueue-Holds c bound h
  enqueue-Stands c bound (delivered i ev) h = enqueue-Holds c bound h

  -- Past an empty queue the goroutine holds nothing.
  send-Stands :
      (p : Place A)
      → d.queue ≡ []
      → Stands p d
      → Stands p (record_uid uid deleted (record d { out = d.out ++ event ∷ [] }))
  unfolding record_uid
  send-Stands at_top e h = h
  send-Stands waiting e h = h
  send-Stands returned e h = h
  send-Stands (sending i ev) e h = absurd (ground (arith, h.in_queue))
  send-Stands (delivered i ev) e h = absurd (ground (arith, h.in_queue))

  seen_at-update :
      (p : Place A)
      → d.queue ≡ []
      → Stands p d
      → update uid (not deleted) (seen_at p d.known) ≡ seen_at p (update uid (not deleted) d.known)
  seen_at-update at_top e h = refl
  seen_at-update waiting e h = refl
  seen_at-update returned e h = refl
  seen_at-update (sending i ev) e h = refl
  seen_at-update (delivered i ev) e h = absurd (ground (arith, h.in_queue))

  send-Shown :
      (view : String → Option A) (p : Place A)
      → d.queue ≡ []
      → Stands p d
      → Shown p (update uid (outcome deleted event) view)
  send-Shown view at_top e h = tt
  send-Shown view waiting e h = tt
  send-Shown view returned e h = tt
  send-Shown view (sending i ev) e h = tt
  send-Shown view (delivered i ev) e h = absurd (ground (arith, h.in_queue))

  -- What is in flight is never cancelled, so `known` speaks of the UID at hand.
  cancels-unseen :
      {seen : String → Bool} {goal view : String → Option A} {n : ℕ} (p : Place A)
      → Core d seen goal view n
      → Stands p d
      → cancels uid deleted d ≡ true
      → seen_at p d.known uid ≡ false
  unfolding cancels
  cancels-unseen at_top c h drop = ground arith
  cancels-unseen waiting c h drop = ground arith
  cancels-unseen returned c h drop = ground arith
  cancels-unseen (sending i ev) c h drop = ground arith
  cancels-unseen (delivered i ev) c h drop =
      ground (arith, c.indexed i h.in_queue, h.same_uid, h.flying, eq_iff ev.uid uid)

  publish_direct :
      d.closed ≡ false
      → (length d.queue == 0) && has_room d ≡ true
      → publish uid event deleted d ≡ (
        record_uid uid deleted (record d { out = d.out ++ event ∷ [] }),
        some (record { uid = uid; event = event; deleted = deleted }),
      )
  unfolding publish
  publish_direct e f = simp (e, f)

  publish_queued :
      d.closed ≡ false
      → (length d.queue == 0) && has_room d ≡ false
      → publish uid event deleted d ≡ (enqueue uid event deleted d, none)
  unfolding publish
  publish_queued e f = simp (e, f)

module _ {ℓ} {A : Type ℓ} (uid : String) (event : A) (deleted : Bool) (w : World A)
    (v : Inv w) where
  open v use {is_open, core, stands, shown}

  abbrev message : Message A
  message = record { uid = uid; event = event; deleted = deleted }

  do_publish_direct :
      (length w.delivery.queue == 0) && has_room w.delivery ≡ true
      → do_publish uid event deleted w ≡ record w {
        delivery =
            record_uid uid deleted (record w.delivery { out = w.delivery.out ++ event ∷ [] });
        published = message ∷ w.published;
        sent = message ∷ w.sent;
      }
  unfolding do_publish
  do_publish_direct f = simp (publish_direct uid event deleted w.delivery is_open f, is_open)

  do_publish_queued :
      (length w.delivery.queue == 0) && has_room w.delivery ≡ false
      → do_publish uid event deleted w ≡ record w {
        delivery = enqueue uid event deleted w.delivery;
        published = message ∷ w.published;
      }
  unfolding do_publish
  do_publish_queued f = simp (publish_queued uid event deleted w.delivery is_open f, is_open)

  -- A call of `publish` on an open delivery, from any goroutine, at any moment.
  pub do_publish-Inv : Fits (suc (length w.published)) → Inv (do_publish uid event deleted w)
  unfolding record_uid
  do_publish-Inv bound =
      let d = w.delivery in
      elim (Bool-cases ((length d.queue == 0) && has_room d)) [
        | inl f ↦
            let empty : d.queue ≡ [] = queue_empty f in
            rw (do_publish_direct f) (record {
              core =
                  subst
                    (λ s.
                      Core (record_uid uid deleted (record d { out = d.out ++ event ∷ [] })) s
                        (replay (message ∷ w.published)) (replay (message ∷ w.sent))
                        (suc (suc (length w.published))))
                    (seen_at-update uid event deleted d w.place empty stands)
                    (send-Core uid event deleted d _ _ _ _ core empty);
              stands = send-Stands uid event deleted d w.place empty stands;
              shown = send-Shown uid event deleted d _ w.place empty stands;
              is_open = is_open;
            })
        | inr f ↦ rw (do_publish_queued f) (record {
          core =
              subst
                (λ k.
                  Core (enqueue uid event deleted d) (seen_at w.place k)
                    (replay (message ∷ w.published)) (replay w.sent)
                    (suc (suc (length w.published))))
                (sym (enqueue-known uid event deleted d))
                (enqueue-Core uid event deleted d _ _ _ _ core bound
                  (cancels-unseen uid event deleted d w.place core stands));
          stands = enqueue-Stands uid event deleted d core bound w.place stands;
          shown = shown;
          is_open = enqueue-closed uid event deleted d ∙ is_open;
        })
      ]
    where
      queue_empty :
          (length w.delivery.queue == 0) && has_room w.delivery ≡ true → w.delivery.queue ≡ []
      queue_empty f = ground arith
