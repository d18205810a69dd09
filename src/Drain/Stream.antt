-- ===== src/Drain/Stream.antt =====
-- internal/cluster/nodeops.go: the stream of a drain has one terminal event, its last, and its count
-- adds up.
use kubetin.Common.{
  ℕ, suc, ◌+◌, ◌≤◌, ◌<◌, ◌≡◌, refl, sym, ◌&&◌, subst, String, Bool, true, false, not, Option, none,
  some, List, [], ◌∷◌, ◌++◌, length, if◌then◌else◌, All, arith, Option-cases, inl, inr, if-case,
  if-case_both,
}
use kubetin.Drain.Preflight.{
  Pod, Api, Answer, ok, failed, Listing, listed, refuses, list_drainable_pods,
}
use kubetin.Drain.Node.{
  Phase, evicting, done, error, Trouble, context_ended, DrainProgress, Poll, Outside, Drain,
  Candidate, enumerate, send, about, not_completed, end_phase, finish, Flow, goes_on, returned,
  evict_all, note_evict, keep_evict, is_failure, note_poll, keep_poll, judge_poll, is_stop, Verdict,
  gone, still_there, stop, unsure, poll_all, after_poll, wait_all, wait_from, drain_pods, cordon,
  drain, drain_answer, drain_listed, fails_with,
}
use kubetin.Drain.Ends.{
  Open, Open-widen, Open-append, Open-mark_above, Open-mark_below, enumerate-Open, length-enumerate,
  not_completed-none, not_completed-mark,
}

-- `done` and `error` close the stream.
abbrev pub is_terminal : Phase → Bool
is_terminal done = true
is_terminal error = true
is_terminal _ = false

abbrev pub Ongoing : DrainProgress → Type 0
Ongoing ev = is_terminal ev.phase ≡ false

-- One terminal event, at the end, which accounts for `n` pods: those confirmed gone and those that
-- it lists.
pub record Closes (n : ℕ) (events : List DrainProgress) : Type 0 where
  pub before : List DrainProgress
  pub last : DrainProgress
  pub split : events ≡ before ++ last ∷ []
  pub ongoing : All Ongoing before
  pub terminal : is_terminal last.phase ≡ true
  pub totals : last.total ≡ n
  pub adds_up : last.done + length last.remaining ≡ n

All-append {ℓ κ} :
    {A : Type ℓ} (P : A → Type κ) (xs : List A) (y : A) → All P xs → P y → All P (xs ++ y ∷ [])
All-append P [] y h q = (q, tt)
All-append P (x ∷ xs) y h q = (h.0, All-append P xs y h.1 q)

module _ (o : Outside) (ps : List Pod) where
  abbrev pods : List Candidate
  pods = enumerate 0 ps

  -- So far no terminal event, and each pod is counted or listed as left.
  record Underway (s : Drain) : Type 0 where
    quiet : All Ongoing s.events
    counted : s.done + length (not_completed s.completed pods) ≡ length ps

  Closed : Drain → Type 0
  Closed s = Closes (length ps) s.events

  abbrev IsFine : Flow → Type 0
  IsFine (returned s) = Closed s
  IsFine (goes_on pending s) = Underway s × Open s.completed 0 (length ps) pending

  send-quiet :
      (ev : DrainProgress) (s : Drain)
      → Ongoing ev
      → All Ongoing s.events
      → All Ongoing (send o.drops ev s).events
  unfolding send
  send-quiet ev s e q =
      if-case (All Ongoing) (o.drops s.sends) (λ _. q) (λ _. All-append Ongoing s.events ev q e)

  send-Underway :
      (ev : DrainProgress) (s : Drain) → Ongoing ev → Underway s → Underway (send o.drops ev s)
  unfolding send
  send-Underway ev s e u = record { quiet = send-quiet ev s e u.quiet; counted = u.counted }

  -- The context has ended.
  abbrev late : Option Trouble
  late = some (context_ended o.ctx_error)

  finish-Closed : (err : Option Trouble) (s : Drain) → Underway s → Closed (finish pods err s)
  unfolding finish Closed
  finish-Closed err s u = record {
    before = s.events;
    last = record {
      phase = end_phase err;
      pod = none;
      done = s.done;
      total = length pods;
      err = err;
      remaining = not_completed s.completed pods;
    };
    split = refl;
    ongoing = u.quiet;
    terminal = terminal_phase err;
    totals = length-enumerate 0 ps;
    adds_up = u.counted;
  }
    where
      terminal_phase : (err : Option Trouble) → is_terminal (end_phase err) ≡ true
      terminal_phase none = refl
      terminal_phase (some t) = refl

  note_evict-Underway :
      (a : Option String) (p : Pod) (s : Drain) → Underway s → Underway (note_evict o pods a p s)
  unfolding note_evict
  note_evict-Underway none p s u = send-Underway _ s refl u
  note_evict-Underway (some e) p s u = send-Underway _ s refl u

  note_evict-completed :
      (a : Option String) (p : Pod) (s : Drain) → (note_evict o pods a p s).completed ≡ s.completed
  unfolding note_evict send
  note_evict-completed none p s = refl
  note_evict-completed (some e) p s = refl

  keep_evict-Open :
      (a : Option String) (c : ℕ → Bool) (m i : ℕ) (p : Pod) (pending : List Candidate)
      → Open c 0 m pending
      → m ≤ i
      → c i ≡ false
      → Open c 0 (suc i) (keep_evict a (i, p) pending)
  keep_evict-Open none c m i p pending h le e = Open-append c 0 m pending i p h le e
  keep_evict-Open (some x) c m i p pending h le e = Open-widen c 0 m (suc i) pending (omega arith) h

  -- The requests leave the count alone.
  evict_all-IsFine :
      (rest pending : List Candidate) (m : ℕ) (s : Drain)
      → Underway s
      → Open s.completed 0 m pending
      → Open s.completed m (length ps) rest
      → IsFine (evict_all o pods rest pending s)
  unfolding evict_all
  evict_all-IsFine [] pending m s u p r = (u, Open-widen _ 0 m _ pending r p)
  evict_all-IsFine ((i, pod) ∷ rest) pending m s u p r =
      if-case IsFine (o.ended_before i) (λ _. finish-Closed late s u)
        (λ _.
          if-case IsFine (is_failure (o.evict i) && o.ended_after i) (λ _. finish-Closed late s' u')
            (λ _.
              evict_all-IsFine rest _ (suc i) _ (note_evict-Underway (o.evict i) pod s' u')
                (subst (λ c. Open c 0 (suc i) (keep_evict (o.evict i) (i, pod) pending)) (sym same)
                  (keep_evict-Open (o.evict i) s.completed m i pod pending p r.0 r.2))
                (subst (λ c. Open c (suc i) (length ps) rest) (sym same) r.3)))
    where
      s' : Drain
      s' = send o.drops (about evicting pod (length pods) none s) s

      u' : Underway s'
      u' = send-Underway _ s refl u

      same : (note_evict o pods (o.evict i) pod s').completed ≡ s.completed
      same = note_evict-completed (o.evict i) pod s'

  note_poll-Underway :
      (v : Verdict) (i : ℕ) (p : Pod) (s : Drain)
      → Underway s
      → i < length ps
      → s.completed i ≡ false
      → Underway (note_poll o pods v (i, p) s)
  unfolding note_poll
  note_poll-Underway gone i p s u lt e = send-Underway _ _ refl (record {
    quiet = u.quiet;
    counted =
        omega
          (arith, u.counted, not_completed-mark s.completed 0 i ps (omega arith) (omega arith) e);
  })
  note_poll-Underway (unsure m) i p s u lt e = send-Underway _ s refl u
  note_poll-Underway still_there i p s u lt e = u
  note_poll-Underway stop i p s u lt e = u

  keep_poll-Open :
      (v : Verdict) (m i : ℕ) (p : Pod) (next : List Candidate) (s : Drain)
      → Open s.completed 0 m next
      → m ≤ i
      → s.completed i ≡ false
      → Open (note_poll o pods v (i, p) s).completed 0 (suc i) (keep_poll v (i, p) next)
  unfolding note_poll send
  keep_poll-Open gone m i p next s h le e =
      Open-widen _ 0 m (suc i) next (omega arith) (Open-mark_above s.completed 0 m next i h le)
  keep_poll-Open (unsure x) m i p next s h le e = Open-widen _ 0 m (suc i) next (omega arith) h
  keep_poll-Open still_there m i p next s h le e = Open-append s.completed 0 m next i p h le e
  keep_poll-Open stop m i p next s h le e = Open-widen _ 0 m (suc i) next (omega arith) h

  rest-Open :
      (v : Verdict) (i hi : ℕ) (p : Pod) (rest : List Candidate) (s : Drain)
      → Open s.completed (suc i) hi rest
      → Open (note_poll o pods v (i, p) s).completed (suc i) hi rest
  unfolding note_poll send
  rest-Open gone i hi p rest s h = Open-mark_below s.completed (suc i) hi rest i h (omega arith)
  rest-Open (unsure x) i hi p rest s h = h
  rest-Open still_there i hi p rest s h = h
  rest-Open stop i hi p rest s h = h

  -- A poll counts each pod that it finds gone, once.
  poll_all-IsFine :
      (answer : ℕ → Poll) (rest next : List Candidate) (m : ℕ) (s : Drain)
      → Underway s
      → Open s.completed 0 m next
      → Open s.completed m (length ps) rest
      → IsFine (poll_all o pods answer rest next s)
  unfolding poll_all
  poll_all-IsFine answer [] next m s u p r = (u, Open-widen _ 0 m _ next r p)
  poll_all-IsFine answer ((i, pod) ∷ rest) next m s u p r =
      let v = judge_poll (answer i) pod.uid in
      if-case IsFine (is_stop v) (λ _. finish-Closed late s u)
        (λ _.
          poll_all-IsFine answer rest _ (suc i) _ (note_poll-Underway v i pod s u r.1 r.2)
            (keep_poll-Open v m i pod next s p r.0 r.2) (rest-Open v i _ pod rest s r.3))

  after_poll-Closed :
      (f : Flow) (rest : List Candidate → Drain → Drain)
      → IsFine f
      → ((pending : List Candidate) (s : Drain)
          → Underway s
          → Open s.completed 0 (length ps) pending
          → Closed (rest pending s))
      → Closed (after_poll o pods f rest)
  unfolding after_poll
  after_poll-Closed (returned s) rest h k = h
  after_poll-Closed (goes_on pending s) rest (u, p) k = k pending s u p

  wait_all-Closed :
      (rounds : List (ℕ → Poll)) (pending : List Candidate) (s : Drain)
      → Underway s
      → Open s.completed 0 (length ps) pending
      → Closed (wait_all o pods rounds pending s)
  unfolding wait_all
  wait_all-Closed rounds [] s u p = finish-Closed none s u
  wait_all-Closed [] (c ∷ pending) s u p = finish-Closed late s u
  wait_all-Closed (answer ∷ rounds) (c ∷ pending) s u p =
      after_poll-Closed _ _ (poll_all-IsFine answer (c ∷ pending) [] 0 s u (omega arith) p)
        (λ pending' s' u' p'. wait_all-Closed rounds pending' s' u' p')

  wait_from-Closed :
      (pending : List Candidate) (s : Drain)
      → Underway s
      → Open s.completed 0 (length ps) pending
      → Closed (wait_from o pods pending s)
  unfolding wait_from send
  wait_from-Closed [] s u p = wait_all-Closed o.rounds [] s u p
  wait_from-Closed (c ∷ pending) s u p =
      wait_all-Closed o.rounds (c ∷ pending) _ (send-Underway _ s refl u) p

  drain_pods-Closed : Closed (drain_pods o pods)
  unfolding drain_pods send
  drain_pods-Closed =
      after_poll-Closed _ _
        (evict_all-IsFine pods [] 0 _ (send-Underway _ _ refl begins) (omega arith)
          (Open-widen _ 0 (0 + length ps) (length ps) pods (omega arith) (enumerate-Open 0 ps)))
        wait_from-Closed
    where
      begins : Underway (record { events = []; sends = 0; done = 0; completed = λ i. false })
      begins = record {
        quiet = tt;
        counted = omega (arith, not_completed-none pods, length-enumerate 0 ps);
      }

abbrev pub passed : Listing → List Pod
passed (listed ps) = ps
passed (refuses p e) = []

abbrev pub passed_of : Api → Answer (List Pod) → List Pod
passed_of api (failed e) = []
passed_of api (ok items) = passed (list_drainable_pods api items)

-- The pods that a drain is to evict: none if it has no client, cannot cordon the node, cannot list
-- the pods, or is refused by the preflight.
abbrev pub planned : Api → Outside → String → String → List Pod
planned api o ctx node = elim o.setup [
  | some e ↦ []
  | none ↦ if not (cordon none o.patch ctx node).success then [] else passed_of api o.list_pods
]

fails_with-Closes : (t : Trouble) → Closes 0 (fails_with t)
fails_with-Closes t = record {
  before = [];
  last = record { phase = error; pod = none; done = 0; total = 0; err = some t; remaining = [] };
  split = refl;
  ongoing = tt;
  terminal = refl;
  totals = refl;
  adds_up = refl;
}

drain_listed-Closes : (o : Outside) (l : Listing) → Closes (length (passed l)) (drain_listed o l)
unfolding drain_listed Closed
drain_listed-Closes o (listed ps) = drain_pods-Closed o ps
drain_listed-Closes o (refuses p e) = fails_with-Closes _

drain_answer-Closes :
    (api : Api) (o : Outside) (a : Answer (List Pod))
    → Closes (length (passed_of api a)) (drain_answer api o a)
unfolding drain_answer
drain_answer-Closes api o (failed e) = fails_with-Closes _
drain_answer-Closes api o (ok items) = drain_listed-Closes o (list_drainable_pods api items)

-- Whatever happens outside, the stream of a drain has exactly one terminal event, its last, whose
-- total is the number of pods that passed the preflight, and its count of pods confirmed gone and
-- its list of the remaining ones add up to that total.
pub drain-Closes :
    (api : Api) (o : Outside) (ctx node : String)
    → Closes (length (planned api o ctx node)) (drain api o ctx node)
unfolding drain
drain-Closes api o ctx node = elim (Option-cases o.setup) [
  | inr (e, h) ↦ rw (h, drain) (fails_with-Closes _)
  | inl h ↦
      rw (h, drain)
        (if-case_both (λ (ps : List Pod) evs. Closes (length ps) evs)
          (not (cordon none o.patch ctx node).success) (λ _. fails_with-Closes _)
          (λ _. drain_answer-Closes api o o.list_pods))
]
