-- ===== src/Focus/Batch.antt =====
-- cmd/kubetin/resource_batch.go: `forwardResourceEvents`. What its selects find is a list of polls; the
-- wrapping of an event is a parameter.
use kubetin.Common.{
  ℕ, Bool, true, false, Option, none, some, List, [], ◌∷◌, ◌++◌, length, ltb, if◌then◌else◌,
}
use kubetin.Focus.Coordinator.{FocusTarget}

abbrev pub resource_batch_max : ℕ
resource_batch_max = 64

-- What a select takes: an event, the default of the inner one, the closed channel, or the end of the
-- context. With nothing there the outer select waits.
pub data Poll (A : Type 0) : Type 0 where
  received : A → Poll A
  nothing closed cancelled : Poll A

-- `FocusedMsg` of a `ResourceBatchMsg`
pub record FocusedBatch (M : Type 0) : Type 0 where
  pub focus : FocusTarget
  pub batch : List M

-- `gathered` is none at the outer select, `sent` what the program was sent, in order.
pub record Forwarder (M : Type 0) : Type 0 where
  pub gathered : Option (List M)
  pub sent : List (FocusedBatch M)
  pub returned : Bool

abbrev pub new_forwarder : {M : Type 0} → Forwarder M
new_forwarder = record { gathered = none; sent = []; returned = false }

module _ {A M : Type 0} (focus : FocusTarget) (wrap : A → M) where
  -- `p.Send`
  abbrev pub send_batch : List M → Bool → Forwarder M → Forwarder M
  send_batch b end s = record {
    gathered = none;
    sent = s.sent ++ record { focus = focus; batch = b } ∷ [];
    returned = end;
  }

  -- The test of the inner loop.
  unfoldable pub gather : List M → Forwarder M → Forwarder M
  gather b s =
      if ltb (length b) resource_batch_max
      then record s { gathered = some b }
      else send_batch b false s

  unfoldable pub on_poll : Bool → Option (List M) → Poll A → Forwarder M → Forwarder M
  unfolding gather
  on_poll true o p s = s
  on_poll false none (received e) s = gather (wrap e ∷ []) s
  on_poll false none nothing s = s
  on_poll false none closed s = record s { returned = true }
  on_poll false none cancelled s = record s { returned = true }
  on_poll false (some b) (received e) s = gather (b ++ wrap e ∷ []) s
  on_poll false (some b) nothing s = send_batch b false s
  on_poll false (some b) closed s = send_batch b true s
  on_poll false (some b) cancelled s = record { gathered = none; sent = s.sent; returned = true }

  abbrev pub forward : List (Poll A) → Forwarder M → Forwarder M
  forward [] s = s
  forward (p ∷ ps) s = forward ps (on_poll s.returned s.gathered p s)

  -- The events that come before the channel is closed.
  abbrev pub events : Bool → List (Poll A) → List M
  events true ps = []
  events false [] = []
  events false (received e ∷ ps) = wrap e ∷ events false ps
  events false (nothing ∷ ps) = events false ps
  events false (closed ∷ ps) = []
  events false (cancelled ∷ ps) = []

-- The rows of the batches, one after the other.
abbrev pub rows : {M : Type 0} → List (FocusedBatch M) → List M
rows [] = []
rows (b ∷ bs) = b.batch ++ rows bs

abbrev pub held : {M : Type 0} → Option (List M) → List M
held none = []
held (some b) = b

abbrev pub IsUncancelled : {A : Type 0} → Poll A → Type 0
IsUncancelled cancelled = ⊥
IsUncancelled _ = Unit
