-- ===== src/Delivery/Publish.antt =====
-- internal/cluster/delivery.go: `publish` keeps the invariant, branch by branch.
use kubetin.Common.{
  ℕ, suc, ◌<◌, ◌≡◌, String, Bool, true, false, not, Option, none, some, List, [], ◌∷◌, ◌++◌,
  contains-append, contains-without, update, arith, eq_iff, Bool-cases, Option-cases, inl, inr,
}
use kubetin.Delivery.Defs.{EventDelivery, record_uid, cancel_pending, store, enqueue, cancels}
use kubetin.Delivery.Invariant.{outcome, Core}

-- `Out`, `wake` and the element in flight are no part of it.
pub frame-Core {ℓ} :
    {A : Type ℓ} {d : EventDelivery A} {seen : String → Bool} {goal view : String → Option A}
    {n : ℕ} (out : List A) (wake : Bool) (in_flight : Option ℕ)
    → Core d seen goal view n
    → Core (record d { out = out; wake = wake; in_flight = in_flight }) seen goal view n
frame-Core out wake in_flight c = record {
  fresh = c.fresh;
  queued = c.queued;
  owned = c.owned;
  indexed = c.indexed;
  current = c.current;
  settled = c.settled;
  visible = c.visible;
  versions = c.versions;
}

-- The four ways through `enqueue`.
pub enqueue_cases {ℓ κ} :
    {A : Type ℓ} (P : EventDelivery A → Type κ) (uid : String) (event : A) (deleted : Bool)
    (d : EventDelivery A)
    → (cancels uid deleted d ≡ true
        → deleted ≡ true
        → d.pending uid ≡ none
        → P (cancel_pending none d))
    → ((k : ℕ)
        → cancels uid deleted d ≡ true
        → deleted ≡ true
        → d.pending uid ≡ some k
        → P (cancel_pending (some k) d))
    → (d.pending uid ≡ none → P (record (store none uid event deleted d) { wake = true }))
    → ((k : ℕ)
        → d.pending uid ≡ some k
        → P (record (store (some k) uid event deleted d) { wake = true }))
    → P (enqueue uid event deleted d)
unfolding enqueue
enqueue_cases P uid event deleted d dropped cancelled pushed rewritten =
    elim (Bool-cases (cancels uid deleted d)) [
      | inl drop ↦ elim (Option-cases (d.pending uid)) [
        | inl e ↦ rw (drop, e) (dropped drop (ground arith) e)
        | inr (k, e) ↦ rw (drop, e) (cancelled k drop (ground arith) e)
      ]
      | inr keep ↦ elim (Option-cases (d.pending uid)) [
        | inl e ↦ rw (keep, e) (pushed e)
        | inr (k, e) ↦ rw (keep, e) (rewritten k e)
      ]
    ]

-- The next version does not wrap.
abbrev pub Fits : ℕ → Type 0
Fits n = n < 18446744073709551616

module _ {ℓ} {A : Type ℓ} (uid : String) (event : A) (deleted : Bool) (d : EventDelivery A)
    (seen : String → Bool) (goal view : String → Option A) (n : ℕ)
    (c : Core d seen goal view n) where
  open c use {fresh, queued, owned, indexed, current, settled, visible, versions}

  -- Straight to `Out`, past an empty queue.
  pub send-Core :
      d.queue ≡ []
      → Core
          (record_uid uid deleted (record d { out = d.out ++ event ∷ [] }))
          (update uid (not deleted) seen)
          (update uid (outcome deleted event) goal)
          (update uid (outcome deleted event) view)
          (suc n)
  unfolding record_uid
  send-Core e = record {
    fresh = fresh;
    queued = queued;
    owned = owned;
    indexed = indexed;
    current = λ u i h. ground (arith, queued u i h);
    settled = λ u h. ground (arith, settled u h);
    visible = λ u. ground (arith, visible u);
    versions = λ i h. ground (arith, versions i h);
  }

  -- A new element at the back.
  push-Core :
      d.pending uid ≡ none
      → Core
          (store none uid event deleted d)
          seen
          (update uid (outcome deleted event) goal)
          view
          (suc n)
  unfolding store
  push-Core e = record {
    fresh = λ i h. ground (arith, fresh i, contains-append i d.queue (d.next_elem ∷ []));
    queued = λ u i h. ground (arith, queued u i, contains-append i d.queue (d.next_elem ∷ []));
    owned = λ u i h. ground (arith, queued u i, fresh i, owned u i, eq_iff uid u);
    indexed = λ i h. ground (
      arith,
      contains-append i d.queue (d.next_elem ∷ []),
      fresh i,
      indexed i,
      eq_iff uid (d.cells i).uid,
      eq_iff uid uid,
    );
    current = λ u i h. ground (arith, queued u i, fresh i, current u i);
    settled = λ u h. ground (arith, settled u);
    visible = visible;
    versions =
        λ i h. ground (arith, contains-append i d.queue (d.next_elem ∷ []), fresh i, versions i);
  }

  -- A new value for the element that is queued.
  rewrite-Core :
      (k : ℕ)
      → Fits n
      → d.pending uid ≡ some k
      → Core
          (store (some k) uid event deleted d)
          seen
          (update uid (outcome deleted event) goal)
          view
          (suc n)
  unfolding store
  rewrite-Core k bound e = record {
    fresh = fresh;
    queued = queued;
    owned = λ u i h. ground (arith, owned u i, owned uid k);
    indexed = λ i h. ground (arith, indexed i, owned uid k);
    current = λ u i h. ground (arith, current u i, owned u i, owned uid k, eq_iff uid u);
    settled = λ u h. ground (arith, settled u, eq_iff uid u);
    visible = visible;
    versions = λ i h. ground (arith, versions i, versions k, queued uid k);
  }

  -- A deletion of what the consumer never saw.
  cancel_none-Core :
      deleted ≡ true
      → seen uid ≡ false
      → d.pending uid ≡ none
      → Core (cancel_pending none d) seen (update uid (outcome deleted event) goal) view (suc n)
  unfolding cancel_pending
  cancel_none-Core del unseen e = record {
    fresh = fresh;
    queued = queued;
    owned = owned;
    indexed = indexed;
    current = λ u i h. ground (arith, current u i, eq_iff uid u);
    settled = λ u h. ground (arith, settled u, visible u, eq_iff uid u);
    visible = visible;
    versions = λ i h. ground (arith, versions i);
  }

  cancel_some-Core :
      (k : ℕ)
      → deleted ≡ true
      → seen uid ≡ false
      → d.pending uid ≡ some k
      → Core (cancel_pending (some k) d) seen (update uid (outcome deleted event) goal) view (suc n)
  unfolding cancel_pending
  cancel_some-Core k del unseen e = record {
    fresh = λ i h. ground (arith, fresh i, contains-without i k d.queue);
    queued = λ u i h.
        ground
          (arith, queued u i, owned u i, contains-without i k d.queue, owned uid k, eq_iff uid u);
    owned = λ u i h. ground (arith, owned u i);
    indexed = λ i h. ground (
      arith,
      indexed i,
      contains-without i k d.queue,
      owned uid k,
      indexed k,
      eq_iff (d.cells k).uid (d.cells i).uid,
    );
    current = λ u i h. ground (arith, current u i, owned uid k, eq_iff uid u);
    settled = λ u h. ground (arith, settled u, visible u, owned uid k, eq_iff uid u);
    visible = visible;
    versions = λ i h. ground (arith, versions i, contains-without i k d.queue);
  }

  -- `enqueue`, whichever branch it takes.
  pub enqueue-Core :
      Fits n
      → (cancels uid deleted d ≡ true → seen uid ≡ false)
      → Core
          (enqueue uid event deleted d)
          seen
          (update uid (outcome deleted event) goal)
          view
          (suc n)
  enqueue-Core bound unseen =
      enqueue_cases (λ d'. Core d' seen (update uid (outcome deleted event) goal) view (suc n)) uid
        event deleted d (λ h del e. cancel_none-Core del (unseen h) e)
        (λ k h del e. cancel_some-Core k del (unseen h) e) (λ e. frame-Core _ true _ (push-Core e))
        (λ k e. frame-Core _ true _ (rewrite-Core k bound e))
