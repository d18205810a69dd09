-- ===== src/Focus/Batched.antt =====
-- cmd/kubetin/resource_batch.go, `forwardResourceEvents`: no event is lost, and no batch too large.
use kubetin.Common.{
  ◌≤◌, ◌<◌, ◌≡◌, refl, sym, ap, subst, ◌∙◌, Bool, true, false, Option, none, some, List, [], ◌∷◌,
  ◌++◌, append-nil, append_assoc, length, length-append, All, All-append, ltb, arith, if-case,
}
use kubetin.Focus.Coordinator.{FocusTarget}
use kubetin.Focus.Batch.{
  resource_batch_max, Poll, received, nothing, closed, cancelled, FocusedBatch, Forwarder,
  new_forwarder, send_batch, gather, on_poll, forward, events, rows, held, IsUncancelled,
}

rows-append : {M : Type 0} (bs cs : List (FocusedBatch M)) → rows (bs ++ cs) ≡ rows bs ++ rows cs
rows-append [] cs = refl
rows-append (b ∷ bs) cs =
    ap (λ r. b.batch ++ r) (rows-append bs cs) ∙ sym (append_assoc b.batch (rows bs) (rows cs))

module _ {A M : Type 0} (focus : FocusTarget) (wrap : A → M) where
  -- A batch for the focus, not empty and not too large.
  abbrev pub IsBounded : FocusedBatch M → Type 0
  IsBounded b = (b.focus ≡ focus) × (1 ≤ length b.batch) × (length b.batch ≤ resource_batch_max)

  abbrev pub IsFilling : Option (List M) → Type 0
  IsFilling none = Unit
  IsFilling (some b) = (1 ≤ length b) × (length b < resource_batch_max)

  pub record IsKept (s : Forwarder M) (told : List M) : Type 0 where
    pub kept : rows s.sent ++ held s.gathered ≡ told
    pub bounded : All IsBounded s.sent
    pub filling : IsFilling s.gathered

  send_batch-IsKept :
      (b : List M) (end : Bool) (s : Forwarder M) (told : List M)
      → rows s.sent ++ b ≡ told
      → All IsBounded s.sent
      → 1 ≤ length b
      → length b ≤ resource_batch_max
      → IsKept (send_batch focus wrap b end s) told
  send_batch-IsKept b end s told e h low high =
      let one : List (FocusedBatch M) = record { focus = focus; batch = b } ∷ [] in
      record {
        kept =
            append-nil (rows (s.sent ++ one))
            ∙ rows-append s.sent one
            ∙ ap (λ r. rows s.sent ++ r) (append-nil b)
            ∙ e;
        bounded = All-append IsBounded s.sent one h ((refl, low, high), tt);
        filling = tt;
      }

  gather-IsKept :
      (b : List M) (s : Forwarder M) (told : List M)
      → rows s.sent ++ b ≡ told
      → All IsBounded s.sent
      → 1 ≤ length b
      → length b ≤ resource_batch_max
      → IsKept (gather focus wrap b s) told
  unfolding gather
  gather-IsKept b s told e h low high =
      if-case (λ t. IsKept t told) (ltb (length b) resource_batch_max)
        (λ g. record { kept = e; bounded = h; filling = (low, ground arith) })
        (λ g. send_batch-IsKept b false s told e h low high)

  -- What a poll adds to what was told.
  abbrev pub told_by : Bool → Poll A → List M
  told_by true p = []
  told_by false (received e) = wrap e ∷ []
  told_by false nothing = []
  told_by false closed = []
  told_by false cancelled = []

  on_poll-IsKept :
      (r : Bool) (o : Option (List M)) (p : Poll A) (s : Forwarder M) (told : List M)
      → IsUncancelled p
      → s.gathered ≡ o
      → IsKept s told
      → IsKept (on_poll focus wrap r o p s) (told ++ told_by r p)
  unfolding on_poll
  on_poll-IsKept true o p s told h e inv = rw (append-nil told) inv
  on_poll-IsKept false none (received a) s told h e inv =
      gather-IsKept (wrap a ∷ []) s (told ++ wrap a ∷ [])
        (ap (λ r. r ++ wrap a ∷ []) (sym (append-nil (rows s.sent)) ∙ (rw e at inv.kept)))
        inv.bounded (omega arith) (omega arith)
  on_poll-IsKept false none nothing s told h e inv = rw (append-nil told) inv
  on_poll-IsKept false none closed s told h e inv =
      rw (append-nil told)
        (record { kept = inv.kept; bounded = inv.bounded; filling = inv.filling })
  on_poll-IsKept false o cancelled s told h e inv = absurd h
  on_poll-IsKept false (some b) (received a) s told h e inv =
      let (low, high) : IsFilling (some b) = rw e at inv.filling in
      gather-IsKept (b ++ wrap a ∷ []) s (told ++ wrap a ∷ [])
        (sym (append_assoc (rows s.sent) b (wrap a ∷ []))
          ∙ ap (λ r. r ++ wrap a ∷ []) (rw e at inv.kept))
        inv.bounded (omega (arith, length-append b (wrap a ∷ [])))
        (omega (arith, length-append b (wrap a ∷ [])))
  on_poll-IsKept false (some b) nothing s told h e inv =
      let (low, high) : IsFilling (some b) = rw e at inv.filling in
      rw (append-nil told)
        (send_batch-IsKept b false s told (rw e at inv.kept) inv.bounded low (omega arith))
  on_poll-IsKept false (some b) closed s told h e inv =
      let (low, high) : IsFilling (some b) = rw e at inv.filling in
      rw (append-nil told)
        (send_batch-IsKept b true s told (rw e at inv.kept) inv.bounded low (omega arith))

  gather-returned :
      (b : List M) (s : Forwarder M) → s.returned ≡ false → (gather focus wrap b s).returned ≡ false
  unfolding gather
  gather-returned b s e =
      if-case (λ (t : Forwarder M). t.returned ≡ false) (ltb (length b) resource_batch_max) (λ _. e)
        (λ _. refl)

  -- Whether the poll is the last one that counts.
  abbrev ends_by : Bool → Poll A → Bool
  ends_by true p = true
  ends_by false (received e) = false
  ends_by false nothing = false
  ends_by false closed = true
  ends_by false cancelled = true

  on_poll-returned :
      (r : Bool) (o : Option (List M)) (p : Poll A) (s : Forwarder M)
      → s.returned ≡ r
      → (on_poll focus wrap r o p s).returned ≡ ends_by r p
  unfolding on_poll
  on_poll-returned true o p s e = e
  on_poll-returned false none (received a) s e = gather-returned (wrap a ∷ []) s e
  on_poll-returned false none nothing s e = e
  on_poll-returned false none closed s e = refl
  on_poll-returned false none cancelled s e = refl
  on_poll-returned false (some b) (received a) s e = gather-returned (b ++ wrap a ∷ []) s e
  on_poll-returned false (some b) nothing s e = refl
  on_poll-returned false (some b) closed s e = refl
  on_poll-returned false (some b) cancelled s e = refl

  events_ended : (ps : List (Poll A)) → events focus wrap true ps ≡ []
  events_ended [] = refl
  events_ended (p ∷ ps) = refl

  first_event :
      (r : Bool) (p : Poll A) (ps : List (Poll A))
      → events focus wrap r (p ∷ ps) ≡ told_by r p ++ events focus wrap (ends_by r p) ps
  first_event true p ps = sym (events_ended ps)
  first_event false (received e) ps = refl
  first_event false nothing ps = refl
  first_event false closed ps = sym (events_ended ps)
  first_event false cancelled ps = sym (events_ended ps)

  no_events : (r : Bool) → events focus wrap r [] ≡ []
  no_events true = refl
  no_events false = refl

  -- What was told before a poll, with what that poll and those after it bring.
  told_on :
      (p : Poll A) (ps : List (Poll A)) (s : Forwarder M) (told : List M)
      → told ++ events focus wrap s.returned (p ∷ ps)
        ≡ (told ++ told_by s.returned p)
          ++ events focus wrap (on_poll focus wrap s.returned s.gathered p s).returned ps
  told_on p ps s told =
      ap (λ r. told ++ r) (first_event s.returned p ps)
      ∙ sym (append_assoc told (told_by s.returned p) (events focus wrap (ends_by s.returned p) ps))
      ∙ ap (λ q. (told ++ told_by s.returned p) ++ events focus wrap q ps)
          (sym (on_poll-returned s.returned s.gathered p s refl))

  forward-IsKept :
      (ps : List (Poll A)) (s : Forwarder M) (told : List M)
      → All IsUncancelled ps
      → IsKept s told
      → IsKept (forward focus wrap ps s) (told ++ events focus wrap s.returned ps)
  forward-IsKept [] s told h inv = rw (no_events s.returned, append-nil told) inv
  forward-IsKept (p ∷ ps) s told (u, h) inv =
      subst (IsKept (forward focus wrap (p ∷ ps) s)) (sym (told_on p ps s told)) (
        forward-IsKept ps (on_poll focus wrap s.returned s.gathered p s)
          (told ++ told_by s.returned p) h
          (on_poll-IsKept s.returned s.gathered p s told u refl inv))

  -- While nothing is cancelled, the rows of the batches that were sent, with those of a batch that is
  -- still gathered, are the events received before the channel was closed, each once and in order; and
  -- every batch that was sent is for the focus and has at least 1 and at most 64 rows.
  pub forward_lem :
      (ps : List (Poll A))
      → All IsUncancelled ps
      → (rows (forward focus wrap ps new_forwarder).sent
            ++ held (forward focus wrap ps new_forwarder).gathered
          ≡ events focus wrap false ps)
        × All IsBounded (forward focus wrap ps new_forwarder).sent
  forward_lem ps h =
      let inv : IsKept (forward focus wrap ps new_forwarder) (events focus wrap false ps) =
        forward-IsKept ps new_forwarder [] h (record { kept = refl; bounded = tt; filling = tt }) in
      (inv.kept, inv.bounded)
