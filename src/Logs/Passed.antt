-- ===== src/Logs/Passed.antt =====
-- internal/cluster/logstream.go, `runStream`: a whole run passes the log on and marks its end.
use kubetin.Common.{ℕ, ◌≤◌, ◌⊎◌, ◌≡◌, true, List, [], ◌∷◌, ◌++◌}
use kubetin.Logs.Cursor.{Entry}
use kubetin.Logs.Run.{Sending, eos, Round, RunState, Outcome, running, ended, cancelled, run_round}
use kubetin.Logs.Ends.{Told}
use kubetin.Logs.Output.{stream_of, without_eos, received, drops, Lacks}

-- The streams that are read until the loop ends.
abbrev pub streams_of : List Round → RunState → List (List Entry)
streams_of [] s = []
streams_of (r ∷ rs) s =
    stream_of r s
    ∷ elim (run_round r s).1 [ running s' ↦ streams_of rs s' | ended ↦ [] | cancelled ↦ [] ]

-- The end of the stream is the last message, and no other.
abbrev pub IsEnding : List Sending → Type 0
IsEnding ms = (init : List Sending) × (ms ≡ init ++ eos ∷ []) × (without_eos init ≡ true)

-- So it is for a run that ended; a cancelled one may have it as its last message, and one that goes on
-- has none.
abbrev pub IsMarked : Told → Type 0
IsMarked (ms, running s) = without_eos ms ≡ true
IsMarked (ms, ended) = IsEnding ms
IsMarked (ms, cancelled) = (without_eos ms ≡ true) ⊎ IsEnding ms

-- What a run passes on is what the cursor takes of its streams.
abbrev streams_after : List Round → Outcome → List (List Entry)
streams_after rs o = elim o [ running s' ↦ streams_of rs s' | ended ↦ [] | cancelled ↦ [] ]

-- What `Out` took of the lines, and how many it may lack.
abbrev pub Delivers : ℕ → List Entry → List Sending → Type 0
Delivers n es ms = (k : ℕ) × Lacks k es (received ms) × (k ≤ drops ms) × (drops ms ≤ n)
