-- ===== src/Delivery/Invariant.antt =====
-- internal/cluster/delivery.go: what holds of an open delivery between two steps.
use kubetin.Common.{
  ℕ, suc, ◌≤◌, ◌<◌, ◌≡◌, refl, ◌⊎◌, String, Bool, true, false, not, Option, none, some, List, [],
  ◌∷◌, length, contains, str_eq, if◌then◌else◌, arith,
}
use kubetin.Delivery.Defs.{PendingEvent, EventDelivery, Message, new_event_delivery}
use kubetin.Delivery.Run.{Place, at_top, waiting, returned, sending, delivered, World, start}

abbrev pub is_some {ℓ} : {A : Type ℓ} → Option A → Bool
is_some none = false
is_some (some a) = true

module _ {ℓ} {A : Type ℓ} where
  -- The state of a resource after an event: gone, or as the event says.
  abbrev pub outcome : Bool → A → Option A
  outcome deleted event = if deleted then none else some event

  -- The state of each resource after a history, newest first.
  abbrev pub replay : List (Message A) → String → Option A
  replay [] uid = none
  replay (m ∷ ms) uid = if str_eq m.uid uid then outcome m.deleted m.event else replay ms uid

  -- `goal` is the state that the producer announced, `view` the consumer's, `seen` what `known`
  -- says or is about to say, and `n` bounds the versions.
  pub record Core (d : EventDelivery A) (seen : String → Bool) (goal view : String → Option A)
      (n : ℕ) : Type ℓ where
    pub fresh : (i : ℕ) → contains i d.queue ≡ true → i < d.next_elem
    pub queued : (uid : String) (i : ℕ) → d.pending uid ≡ some i → contains i d.queue ≡ true
    pub owned : (uid : String) (i : ℕ) → d.pending uid ≡ some i → (d.cells i).uid ≡ uid
    pub indexed : (i : ℕ) → contains i d.queue ≡ true → d.pending (d.cells i).uid ≡ some i
    pub current :
        (uid : String) (i : ℕ)
        → d.pending uid ≡ some i
        → goal uid ≡ outcome (d.cells i).deleted (d.cells i).event
    pub settled : (uid : String) → d.pending uid ≡ none → view uid ≡ goal uid
    pub visible : (uid : String) → seen uid ≡ is_some (view uid)
    pub versions : (i : ℕ) → contains i d.queue ≡ true → (d.cells i).version < n

  -- Where the goroutine holds an element, it is in flight and in the queue, and at the same version
  -- it still has the value that was read.
  pub record Holds (d : EventDelivery A) (i : ℕ) (ev : PendingEvent A) : Type ℓ where
    pub flying : d.in_flight ≡ some i
    pub in_queue : contains i d.queue ≡ true
    pub same_uid : ev.uid ≡ (d.cells i).uid
    pub version_le : ev.version ≤ (d.cells i).version
    pub same_version : ev.version ≡ (d.cells i).version → ev ≡ d.cells i

  -- A waiting goroutine has nothing to do, or a token in `wake`.
  abbrev pub Stands : Place A → EventDelivery A → Type ℓ
  Stands at_top d = Unit {ℓ} × (d.in_flight ≡ none)
  Stands waiting d = Unit {ℓ} × (d.in_flight ≡ none) × ((d.queue ≡ []) ⊎ (d.wake ≡ true))
  Stands returned d = Unit
  Stands (sending i ev) d = Holds d i ev
  Stands (delivered i ev) d = Holds d i ev

  abbrev pub seen_at : Place A → (String → Bool) → String → Bool
  seen_at (delivered i ev) known uid = if str_eq ev.uid uid then not ev.deleted else known uid
  seen_at _ known uid = known uid

  -- The value just sent is the consumer's last word on its UID.
  abbrev pub Shown : Place A → (String → Option A) → Type ℓ
  Shown (delivered i ev) view = view ev.uid ≡ outcome ev.deleted ev.event
  Shown _ view = Unit

  pub record Inv (w : World A) : Type ℓ where
    pub core :
        Core w.delivery
          (seen_at w.place w.delivery.known)
          (replay w.published)
          (replay w.sent)
          (suc (length w.published))
    pub stands : Stands w.place w.delivery
    pub shown : Shown w.place (replay w.sent)
    pub is_open : w.delivery.closed ≡ false

  pub start-Inv : (blank : A) (capacity : ℕ) → Inv (start blank capacity)
  unfolding start new_event_delivery
  start-Inv blank capacity = record {
    core = record {
      fresh = λ i h. ground arith;
      queued = λ uid i h. ground arith;
      owned = λ uid i h. ground arith;
      indexed = λ i h. ground arith;
      current = λ uid i h. ground arith;
      settled = λ uid h. refl;
      visible = λ uid. refl;
      versions = λ i h. ground arith;
    };
    stands = (tt, refl);
    shown = tt;
    is_open = refl;
  }
