-- ===== src/Drain/Node.antt =====
-- internal/cluster/nodeops.go: `setUnschedulable` with `Cordon` and `Uncordon`, and `drain`.
--
-- What the drain learns from outside is the record `Outside`: the outcomes of its calls, and at each
-- place where the code looks at its context, whether the context has ended. `rounds` are the polls
-- up to the deadline: where the list ends, the wait for the next tick ends with the context. The
-- message in an error is kept as a value in place of the text that the code makes of it.
use Prim.Native.String.{◌++◌ as join}
use kubetin.Common.{
  ℕ, ◌+◌, String, Bool, true, false, not, ◌&&◌, Option, none, some, List, [], ◌∷◌, ◌++◌, length,
  str_eq, if◌then◌else◌, write,
}
use kubetin.Drain.Preflight.{
  Pod, Api, Answer, ok, failed, CheckError, Listing, listed, refuses, list_drainable_pods,
}

pub data Phase : Type 0 where
  starting evicting accepted waiting evicted blocked done error : Phase

-- What stands in `Err`: the message of a call, of a refused preflight, or of the context.
pub data Trouble : Type 0 where
  message cordon_failed confirm_failed context_ended : String → Trouble
  preflight_refused : Pod → CheckError → Trouble
  listing_failed : String → Trouble

-- `pod` is empty where the event is about no pod. `Context` and `Node`, the same in every event, are
-- left out.
pub record DrainProgress : Type 0 where
  pub phase : Phase
  pub pod : Option String
  pub done : ℕ
  pub total : ℕ
  pub err : Option Trouble
  pub remaining : List String

pub record NodeOpResult : Type 0 where
  pub context : String
  pub node : String
  pub op : String
  pub success : Bool
  pub err : String

-- `client` is the failure of `coreClient`, `patch` the answer to the patch with this value.
unfoldable pub set_unschedulable :
    Option String → (Bool → Option String) → String → String → Bool → NodeOpResult
set_unschedulable (some e) patch ctx node value = record {
  context = ctx;
  node = node;
  op = if value then "cordon" else "uncordon";
  success = false;
  err = e;
}
set_unschedulable none patch ctx node value = elim (patch value) [
  | some e ↦ record {
    context = ctx;
    node = node;
    op = if value then "cordon" else "uncordon";
    success = false;
    err = e;
  }
  | none ↦ record {
    context = ctx;
    node = node;
    op = if value then "cordon" else "uncordon";
    success = true;
    err = "";
  }
]

unfoldable pub cordon : Option String → (Bool → Option String) → String → String → NodeOpResult
unfolding set_unschedulable
cordon client patch ctx node = set_unschedulable client patch ctx node true

unfoldable pub uncordon : Option String → (Bool → Option String) → String → String → NodeOpResult
unfolding set_unschedulable
uncordon client patch ctx node = set_unschedulable client patch ctx node false

-- The answer to one poll of a pod: not found, found under this UID, or an error; or the context has
-- ended by then.
pub data Poll : Type 0 where
  not_found ended : Poll
  found : String → Poll
  poll_failed : String → Poll

pub record Outside : Type 0 where
  pub setup : Option String
  pub patch : Bool → Option String
  pub list_pods : Answer (List Pod)
  pub ended_before : ℕ → Bool
  pub evict : ℕ → Option String
  pub ended_after : ℕ → Bool
  pub rounds : List (ℕ → Poll)
  -- The send of this number finds the context ended, and takes that case of its `select`.
  pub drops : ℕ → Bool
  pub ctx_error : String

-- The variables of `drain` that its closures share, the events that reached the stream, in their
-- order, and the number of sends so far that may be dropped.
pub record Drain : Type 0 where
  pub events : List DrainProgress
  pub sends : ℕ
  pub done : ℕ
  pub completed : ℕ → Bool

-- An index with the pod that stands there.
abbrev pub Candidate : Type 0
Candidate = ℕ × Pod

abbrev pub pod_ref : Pod → String
pod_ref p = join p.namespace (join "/" p.name)

unfoldable pub enumerate : ℕ → List Pod → List Candidate
enumerate i [] = []
enumerate i (p ∷ ps) = (i, p) ∷ enumerate (i + 1) ps

-- `send` of a terminal event, and of any other.
unfoldable pub send_last : DrainProgress → Drain → Drain
send_last ev s = record s { events = s.events ++ ev ∷ [] }

unfoldable pub send : (ℕ → Bool) → DrainProgress → Drain → Drain
send drops ev s = record s {
  events = if drops s.sends then s.events else s.events ++ ev ∷ [];
  sends = s.sends + 1;
}

-- An event about one pod.
abbrev pub about : Phase → Pod → ℕ → Option Trouble → Drain → DrainProgress
about phase p total err s = record {
  phase = phase;
  pod = some (pod_ref p);
  done = s.done;
  total = total;
  err = err;
  remaining = [];
}

-- The pods that are not confirmed gone.
unfoldable pub not_completed : (ℕ → Bool) → List Candidate → List String
not_completed completed [] = []
not_completed completed ((i, p) ∷ cs) =
    let rest = not_completed completed cs in if completed i then rest else pod_ref p ∷ rest

abbrev pub end_phase : Option Trouble → Phase
end_phase none = done
end_phase (some t) = error

unfoldable pub finish : List Candidate → Option Trouble → Drain → Drain
unfolding not_completed send_last
finish pods err s =
    send_last
      (record {
        phase = end_phase err;
        pod = none;
        done = s.done;
        total = length pods;
        err = err;
        remaining = not_completed s.completed pods;
      })
      s

-- What follows from a poll.
pub data Verdict : Type 0 where
  gone still_there stop : Verdict
  unsure : String → Verdict

abbrev pub is_failure : Option String → Bool
is_failure none = false
is_failure (some e) = true

abbrev pub keep_evict : Option String → Candidate → List Candidate → List Candidate
keep_evict none c pending = pending ++ c ∷ []
keep_evict (some e) c pending = pending

-- What a poll of the pod with this UID means: the original is gone, or still there.
abbrev pub judge_poll : Poll → String → Verdict
judge_poll ended uid = stop
judge_poll not_found uid = gone
judge_poll (found uid') uid = if str_eq uid' uid then still_there else gone
judge_poll (poll_failed e) uid = unsure e

abbrev pub keep_poll : Verdict → Candidate → List Candidate → List Candidate
keep_poll still_there c next = next ++ c ∷ []
keep_poll _ c next = next

abbrev pub is_stop : Verdict → Bool
is_stop stop = true
is_stop _ = false

-- Both loops go on with their `pending` candidates, or `drain` has returned.
pub data Flow : Type 0 where
  goes_on : List Candidate → Drain → Flow
  returned : Drain → Flow

module _ (o : Outside) (pods : List Candidate) where
  abbrev pub total : ℕ
  total = length pods

  abbrev pub ended_with : Drain → Drain
  unfolding finish
  ended_with s = finish pods (some (context_ended o.ctx_error)) s

  -- The event behind a request, and whether the pod is to be polled.
  unfoldable pub note_evict : Option String → Pod → Drain → Drain
  unfolding send
  note_evict none p s = send o.drops (about accepted p total none s) s
  note_evict (some e) p s = send o.drops (about blocked p total (some (message e)) s) s

  -- The loop that requests the evictions; `pending` are the accepted ones so far.
  unfoldable pub evict_all : List Candidate → List Candidate → Drain → Flow
  unfolding finish send note_evict
  evict_all [] pending s = goes_on pending s
  evict_all ((i, p) ∷ rest) pending s =
      let s' = send o.drops (about evicting p total none s) s in
      let a = o.evict i in
      let onward = evict_all rest (keep_evict a (i, p) pending) (note_evict a p s') in
      if o.ended_before i
      then returned (ended_with s)
      else if is_failure a && o.ended_after i
      then returned (ended_with s')
      else onward

  unfoldable pub note_poll : Verdict → Candidate → Drain → Drain
  unfolding send
  note_poll gone (i, p) s =
      let s' = record s { completed = write i true s.completed; done = s.done + 1 } in
      send o.drops (about evicted p total none s') s'
  note_poll (unsure e) (i, p) s = send o.drops (about blocked p total (some (confirm_failed e)) s) s
  note_poll still_there c s = s
  note_poll stop c s = s

  -- One pass over the pending pods; `next` are those that are still there.
  unfoldable pub poll_all : (ℕ → Poll) → List Candidate → List Candidate → Drain → Flow
  unfolding finish note_poll
  poll_all answer [] next s = goes_on next s
  poll_all answer ((i, p) ∷ rest) next s =
      let v = judge_poll (answer i) p.uid in
      let onward = poll_all answer rest (keep_poll v (i, p) next) (note_poll v (i, p) s) in
      if is_stop v then returned (ended_with s) else onward

  unfoldable pub after_poll : Flow → (List Candidate → Drain → Drain) → Drain
  after_poll (returned s) rest = s
  after_poll (goes_on pending s) rest = rest pending s

  -- The polling loop.
  unfoldable pub wait_all : List (ℕ → Poll) → List Candidate → Drain → Drain
  unfolding poll_all after_poll finish
  wait_all rounds [] s = finish pods none s
  wait_all [] (c ∷ pending) s = ended_with s
  wait_all (answer ∷ rounds) (c ∷ pending) s =
      after_poll (poll_all answer (c ∷ pending) [] s) (wait_all rounds)

  -- `waiting` is sent if an eviction was accepted.
  unfoldable pub wait_from : List Candidate → Drain → Drain
  unfolding wait_all send
  wait_from [] s = wait_all o.rounds [] s
  wait_from (c ∷ pending) s = wait_all o.rounds (c ∷ pending) (
      send o.drops
        (record {
          phase = waiting;
          pod = none;
          done = s.done;
          total = total;
          err = none;
          remaining = [];
        })
        s)

  -- The drain behind its preflight.
  unfoldable pub drain_pods : Drain
  unfolding evict_all wait_from after_poll send
  drain_pods =
      after_poll
        (evict_all pods [] (
          send o.drops
            (record {
              phase = starting;
              pod = none;
              done = 0;
              total = total;
              err = none;
              remaining = [];
            })
            (record { events = []; sends = 0; done = 0; completed = λ i. false })))
        wait_from

-- A drain that ends before it starts.
abbrev pub fails_with : Trouble → List DrainProgress
fails_with t =
    record { phase = error; pod = none; done = 0; total = 0; err = some t; remaining = [] } ∷ []

unfoldable pub drain_listed : Outside → Listing → List DrainProgress
unfolding drain_pods enumerate
drain_listed o (refuses p e) = fails_with (preflight_refused p e)
drain_listed o (listed ps) = (drain_pods o (enumerate 0 ps)).events

unfoldable pub drain_answer : Api → Outside → Answer (List Pod) → List DrainProgress
unfolding drain_listed list_drainable_pods
drain_answer api o (failed e) = fails_with (listing_failed e)
drain_answer api o (ok items) = drain_listed o (list_drainable_pods api items)

unfoldable pub drain : Api → Outside → String → String → List DrainProgress
unfolding drain_answer cordon
drain api o ctx node = elim o.setup [
  | some e ↦ fails_with (message e)
  | none ↦
      let r = cordon none o.patch ctx node in
      if not r.success then fails_with (cordon_failed r.err) else drain_answer api o o.list_pods
]
