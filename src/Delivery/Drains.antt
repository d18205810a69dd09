-- ===== src/Delivery/Drains.antt =====
-- internal/cluster/delivery.go: with a consumer that receives, the goroutine empties its queue.
use kubetin.Common.{
  ℕ, zero, suc, ◌+◌, ◌*◌, ◌≤◌, ◌<◌, ◌≡◌, refl, String, true, false, not, none, List, [], ◌∷◌, ◌++◌,
  length, ltb, lt→ltb, ==-self, ◌-◌, length-append, length-without, update, arith, ap, inl, inr,
  ◌∙◌,
}
use kubetin.Delivery.Publish.{Fits}
use kubetin.Delivery.Eventual.{after, Accounted, eventual_state}
use kubetin.Delivery.Defs.{EventDelivery, PendingEvent, remove, record_uid}
use kubetin.Delivery.Run.{
  at_top, World, take_front, settle, Action, advance, receive, step, run_schedule, start,
  drop_first, to_message,
}
use kubetin.Delivery.Invariant.{replay}

-- The goroutine takes the front, the consumer receives, the goroutine sends and settles.
abbrev pub round {ℓ} : {A : Type ℓ} → List (Action A)
round = advance ∷ receive ∷ advance ∷ advance ∷ []

abbrev pub rounds {ℓ} : {A : Type ℓ} → ℕ → List (Action A)
rounds zero = []
rounds (suc k) = round ++ rounds k

length-rounds {ℓ} : (A : Type ℓ) (k : ℕ) → length (rounds {A = A} k) ≡ 4 * k
length-rounds A zero = omega arith
length-rounds A (suc k) = omega (arith, length-rounds A k)

module _ {ℓ} {A : Type ℓ} where
  -- An open world at the head of the loop, with a consumer's channel that can hold an event.
  pub record Ready (w : World A) : Type ℓ where
    pub top : w.place ≡ at_top
    pub live : w.cancelled ≡ false
    pub room : 0 < w.delivery.capacity
    pub fits : length w.delivery.out ≤ w.delivery.capacity

  abbrev read : World A → ℕ → PendingEvent A
  read w i = w.delivery.cells i

  -- The delivery behind one round on the element `i`.
  abbrev sent_front : World A → ℕ → EventDelivery A
  sent_front w i = record w.delivery {
    out = drop_first w.delivery.out ++ (read w i).event ∷ [];
    known = update (read w i).uid (not (read w i).deleted) w.delivery.known;
    in_flight = none;
  }

  length-drop_first : (xs : List A) → length (drop_first xs) ≤ length xs - 1
  length-drop_first [] = omega arith
  length-drop_first (x ∷ xs) = omega arith

  room_after_receive :
      (xs : List A) (capacity : ℕ)
      → 0 < capacity
      → length xs ≤ capacity
      → ltb (length (drop_first xs)) capacity ≡ true
  room_after_receive xs capacity p q = lt→ltb _ _ (omega (arith, length-drop_first xs))

  run-round :
      (w : World A) (i : ℕ) (rest : List ℕ)
      → Ready w
      → w.delivery.queue ≡ i ∷ rest
      → run_schedule w round ≡ record w {
        delivery = remove i (sent_front w i);
        place = at_top;
        sent = to_message (read w i) ∷ w.sent;
      }
  unfolding run_schedule step take_front settle remove record_uid
  run-round w i rest r e = simp (
    r.top,
    r.live,
    e,
    room_after_receive w.delivery.out w.delivery.capacity r.room r.fits,
    ==-self ((read w i).version),
  )

  run_schedule-append :
      (w : World A) (xs ys : List (Action A))
      → run_schedule w (xs ++ ys) ≡ run_schedule (run_schedule w xs) ys
  unfolding run_schedule
  run_schedule-append w [] ys = refl
  run_schedule-append w (x ∷ xs) ys = run_schedule-append (step w x) xs ys

  round-Ready :
      (w : World A) (i : ℕ) (rest : List ℕ)
      → Ready w
      → w.delivery.queue ≡ i ∷ rest
      → Ready (run_schedule w round)
  unfolding remove
  round-Ready w i rest r e =
      rw (run-round w i rest r e)
        (record { top = refl; live = r.live; room = r.room; fits = fits_after })
    where
      fits_after : length (drop_first w.delivery.out ++ (read w i).event ∷ []) ≤ w.delivery.capacity
      fits_after = omega (
        arith,
        length-append (drop_first w.delivery.out) ((read w i).event ∷ []),
        length-drop_first w.delivery.out,
        r.fits,
        r.room,
      )

  round-queue :
      (w : World A) (i : ℕ) (rest : List ℕ)
      → Ready w
      → w.delivery.queue ≡ i ∷ rest
      → length (run_schedule w round).delivery.queue ≤ length rest
  unfolding remove
  round-queue w i rest r e =
      rw (run-round w i rest r e) (rw e (ground (arith, length-without i rest)))

  abbrev Empties : World A → ℕ → Type 0
  Empties w n =
      (k : ℕ) × (k ≤ n)
      × ((run_schedule w (rounds k)).delivery.queue ≡ [])
      × ((run_schedule w (rounds k)).delivery.closed ≡ w.delivery.closed)

  round-closed :
      (w : World A) (i : ℕ) (rest : List ℕ)
      → Ready w
      → w.delivery.queue ≡ i ∷ rest
      → (run_schedule w round).delivery.closed ≡ w.delivery.closed
  unfolding remove
  round-closed w i rest r e = rw (run-round w i rest r e)

  -- As many rounds as elements are enough.
  empties :
      (n : ℕ) (q : List ℕ) (w : World A)
      → w.delivery.queue ≡ q
      → length q ≤ n
      → Ready w
      → Empties w n
  unfolding run_schedule
  empties n [] w e h r = (0, omega arith, e, refl)
  empties zero (i ∷ rest) w e h r = absurd (omega arith)
  empties (suc n) (i ∷ rest) w e h r =
      let w' = run_schedule w round in
      let (k, le, done, same) =
        empties n w'.delivery.queue w' refl (omega (arith, round-queue w i rest r e))
          (round-Ready w i rest r e) in
      let split = run_schedule-append w round (rounds k) in
      (
        suc k,
        omega arith,
        ap (λ v. v.delivery.queue) split ∙ done,
        ap (λ v. v.delivery.closed) split ∙ same ∙ round-closed w i rest r e,
      )

  -- From any open world at the head of the loop that a schedule reaches, with a context that lives
  -- and a buffered channel, some number of rounds, at most one for each queued element, empties the
  -- queue, and then the events sent leave every UID in the state that the events published do.
  pub rounds_deliver :
      (blank : A) (capacity : ℕ) (as' : List (Action A))
      → Fits (suc (length as' + 4 * length (after blank capacity as').delivery.queue))
      → Ready (after blank capacity as')
      → (after blank capacity as').delivery.closed ≡ false
      → (k : ℕ) × (k ≤ length (after blank capacity as').delivery.queue)
        × ((after blank capacity (as' ++ rounds k)).delivery.queue ≡ [])
        × ((uid : String)
            → replay (after blank capacity (as' ++ rounds k)).sent uid
              ≡ replay (after blank capacity (as' ++ rounds k)).published uid)
  rounds_deliver blank capacity as' bound r opened =
      let w = after blank capacity as' in
      let (k, le, done, same) =
        empties (length w.delivery.queue) w.delivery.queue w refl (omega arith) r in
      let split = run_schedule-append (start blank capacity) as' (rounds k) in
      let empty = ap (λ v. v.delivery.queue) split ∙ done in
      let long = length-append as' (rounds k) in
      (
        k,
        le,
        empty,
        λ uid. delivered_all uid (after blank capacity (as' ++ rounds k)) empty (
            eventual_state blank capacity (as' ++ rounds k) uid
              (omega (arith, long, length-rounds A k))
              (ap (λ v. v.delivery.closed) split ∙ same ∙ opened)),
      )
    where
      delivered_all :
          (uid : String) (w : World A)
          → w.delivery.queue ≡ []
          → Accounted w uid
          → replay w.sent uid ≡ replay w.published uid
      delivered_all uid w e (inl (_, same)) = same
      delivered_all uid w e (inr (i, _, inside, _, _)) = absurd (ground arith)
