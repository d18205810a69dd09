-- ===== src/Delivery/Defs.antt =====
-- internal/cluster/delivery.go: the state and the methods `publish`, `record` and `remove`.
--
-- A `*list.Element` is an address: `queue` is the order of the addresses in the list, `cells` their
-- values, and `next_elem` the address of the next `PushBack`. An element stands in its list at most
-- once, so `queue.Remove` takes every occurrence of an address. A method under the mutex is a
-- function of the record; one that sends also returns the message that it put on `Out`. The channel
-- has a buffer: a receiver that waits at an empty channel is one that receives next.
use kubetin.Common.{
  ℕ, ◌+◌, ◌%◌, String, Bool, true, false, not, ◌&&◌, ◌||◌, Option, none, some, List, [], ◌∷◌, ◌++◌,
  length, ltb, ◌==◌, if◌then◌else◌, update, write, without,
}

-- atomic.Uint64 and uint64 wrap.
abbrev pub u64 : ℕ → ℕ
u64 n = n % 18446744073709551616

pub record PendingEvent {ℓ} (A : Type ℓ) : Type ℓ where
  pub uid : String
  pub event : A
  pub deleted : Bool
  pub version : ℕ

-- `known` holds true or nothing, and a missing key reads as false.
pub record EventDelivery {ℓ} (A : Type ℓ) : Type ℓ where
  pub capacity : ℕ
  pub out : List A
  pub coalesced_events : ℕ
  pub queue : List ℕ
  pub cells : ℕ → PendingEvent A
  pub next_elem : ℕ
  pub pending : String → Option ℕ
  pub known : String → Bool
  pub in_flight : Option ℕ
  pub wake : Bool
  pub closed : Bool

-- What reached `Out`: the event, with the arguments of `publish` that came with it.
pub record Message {ℓ} (A : Type ℓ) : Type ℓ where
  pub uid : String
  pub event : A
  pub deleted : Bool

abbrev pub is_nil : Option ℕ → Bool
is_nil none = true
is_nil (some i) = false

-- Pointer equality of two elements.
abbrev pub same_elem : Option ℕ → Option ℕ → Bool
same_elem none none = true
same_elem none (some j) = false
same_elem (some i) none = false
same_elem (some i) (some j) = i == j

module _ {ℓ} {A : Type ℓ} where
  -- `blank` is the zero value of the event type; no element that was allocated reads it.
  unfoldable pub new_event_delivery : A → ℕ → EventDelivery A
  new_event_delivery blank capacity = record {
    capacity = capacity;
    out = [];
    coalesced_events = 0;
    queue = [];
    cells = λ i. record { uid = ""; event = blank; deleted = false; version = 0 };
    next_elem = 0;
    pending = λ uid. none;
    known = λ uid. false;
    in_flight = none;
    wake = false;
    closed = false;
  }

  -- `Out` has room for one more event.
  abbrev pub has_room : EventDelivery A → Bool
  has_room d = ltb (length d.out) d.capacity

  unfoldable pub record_uid : String → Bool → EventDelivery A → EventDelivery A
  record_uid uid deleted d = record d { known = update uid (not deleted) d.known }

  unfoldable pub remove : ℕ → EventDelivery A → EventDelivery A
  remove i d = record d {
    pending = update (d.cells i).uid none d.pending;
    queue = without i d.queue;
  }

  -- `d.CoalescedEvents.Add(1)`
  abbrev pub count_coalesced : EventDelivery A → EventDelivery A
  count_coalesced d = record d { coalesced_events = u64 (d.coalesced_events + 1) }

  -- A deletion of a UID that the consumer never saw cancels what is queued for it.
  unfoldable pub cancels : String → Bool → EventDelivery A → Bool
  cancels uid deleted d =
      deleted
      && not (d.known uid)
      && (is_nil (d.pending uid) || not (same_elem (d.pending uid) d.in_flight))

  unfoldable pub cancel_pending : Option ℕ → EventDelivery A → EventDelivery A
  unfolding remove
  cancel_pending none d = count_coalesced d
  cancel_pending (some i) d = count_coalesced (remove i d)

  -- A new element, or a new value for the element of this UID.
  unfoldable pub store : Option ℕ → String → A → Bool → EventDelivery A → EventDelivery A
  store none uid event deleted d = record d {
    queue = d.queue ++ d.next_elem ∷ [];
    cells =
        write d.next_elem (record { uid = uid; event = event; deleted = deleted; version = 0 })
          d.cells;
    next_elem = d.next_elem + 1;
    pending = update uid (some d.next_elem) d.pending;
  }
  store (some i) uid event deleted d = count_coalesced (record d {
    cells =
        write i
          (record {
            uid = uid;
            event = event;
            deleted = deleted;
            version = u64 ((d.cells i).version + 1);
          })
          d.cells;
  })

  -- A full `wake` channel is left as it is: it holds one token.
  unfoldable pub enqueue : String → A → Bool → EventDelivery A → EventDelivery A
  unfolding cancels cancel_pending store
  enqueue uid event deleted d =
      if cancels uid deleted d
      then cancel_pending (d.pending uid) d
      else record (store (d.pending uid) uid event deleted d) { wake = true }

  unfoldable pub publish :
      String → A → Bool → EventDelivery A → EventDelivery A × Option (Message A)
  unfolding record_uid enqueue
  publish uid event deleted d =
      if d.closed
      then (d, none)
      else if (length d.queue == 0) && has_room d
      then (
        record_uid uid deleted (record d { out = d.out ++ event ∷ [] }),
        some (record { uid = uid; event = event; deleted = deleted }),
      )
      else (enqueue uid event deleted d, none)
