-- ===== src/Logs/Examples.antt =====
-- internal/cluster/logstream.go: a log whose first stream breaks off within an instant.
use kubetin.Common.{Bool, ◌≡◌, refl, ℕ, true, false, none, some, List, [], ◌∷◌}
use kubetin.Logs.Cursor.{Entry, accept, begin_stream, move_on, take_line}
use kubetin.Logs.Streams.{Stretch}
use kubetin.Logs.Run.{
  RawLine, stamped, opened, failed, Round, new_run, run_round, read_raw, read_round, reopen, retry,
  settle_round, run_rounds,
}
use kubetin.Logs.Output.{drops}

abbrev at_instant : ℕ → Entry
at_instant t = record { at_time = t; line = "tick" }

-- Three equal lines at instant 2.
abbrev log : List Entry
log = at_instant 1 ∷ at_instant 2 ∷ at_instant 2 ∷ at_instant 2 ∷ at_instant 3 ∷ []

abbrev heard : Entry → RawLine × Bool
heard e = (stamped e, true)

abbrev broken : Round
broken = record {
  lines = heard (at_instant 1) ∷ heard (at_instant 2) ∷ [];
  scan_error = some "unexpected EOF";
  ends_reading = false;
  is_complete = false;
  ends_waiting = false;
  ends_sending = false;
  ends_closing = false;
  takes_notice = false;
  takes_last = false;
  reopening = opened;
}

-- The second stream replays the whole log, and the pod is done. `Out` is full at the last line.
abbrev whole : Round
whole = record broken {
  lines =
      heard (at_instant 1)
      ∷ heard (at_instant 2)
      ∷ heard (at_instant 2)
      ∷ heard (at_instant 2)
      ∷ (stamped (at_instant 3), false)
      ∷ [];
  scan_error = none;
  is_complete = true;
}

-- The last one, behind the confirmation, has nothing new.
abbrev last : Round
last = record whole { lines = heard (at_instant 3) ∷ [] }

abbrev rounds : List Round
rounds = broken ∷ whole ∷ last ∷ []

abbrev stretches : List Stretch
stretches = (0, 2) ∷ (0, 5) ∷ (4, 1) ∷ []

one_dropped : drops (run_rounds rounds new_run).0 ≡ 1
unfolding run_rounds run_round read_raw read_round reopen retry settle_round accept move_on
    take_line begin_stream
one_dropped = refl

-- No stream can be opened again.
abbrev down : Round
down = record broken { lines = []; reopening = failed }

abbrev outage : List Round
outage = down ∷ down ∷ down ∷ down ∷ down ∷ down ∷ down ∷ down ∷ down ∷ down ∷ down ∷ down ∷ []
