-- ===== src/Logs/Run.antt =====
-- internal/cluster/logstream.go, `runStream`: the loop that reads a stream, waits, and opens the next.
--
-- What happens in one round is a parameter: the lines that came before the stream broke, each with
-- whether `Out` had room for it, the scanner's error, the answer of `logsComplete`, how the next opening
-- went, and where the parent context ended. A message that `sendBlocking` holds when that happens may
-- be taken or not.
use kubetin.Common.{
  ℕ, ◌+◌, String, Bool, true, false, ◌&&◌, ◌||◌, Option, none, some, List, [], ◌∷◌, ◌++◌, ltb,
  if◌then◌else◌,
}
use kubetin.Logs.Cursor.{Entry, LogCursor, new_cursor, begin_stream, accept}

abbrev pub max_consecutive_stream_failures : ℕ
max_consecutive_stream_failures = 5

-- A line whose timestamp `parseLogTimestamp` reads, or another one.
pub data RawLine : Type 0 where
  stamped : Entry → RawLine
  plain : String → RawLine

-- The messages that `Out` takes, `LogLine` in its forms, and the lines that `send` counts in `Dropped`.
pub data Sending : Type 0 where
  line dropped : RawLine → Sending
  reconnecting fatal : String → Sending
  eos : Sending

pub data Reopening : Type 0 where
  opened : Reopening
  failed : Reopening
  refused : String → Reopening

pub record Round : Type 0 where
  pub lines : List (RawLine × Bool)
  pub scan_error : Option String
  pub ends_reading : Bool
  pub is_complete : Bool
  pub ends_waiting : Bool
  pub ends_sending : Bool
  pub ends_closing : Bool
  pub takes_notice : Bool
  pub takes_last : Bool
  pub reopening : Reopening

pub record RunState : Type 0 where
  pub is_open : Bool
  pub finishing : Bool
  pub cursor : LogCursor
  pub consec : ℕ

pub data Outcome : Type 0 where
  running : RunState → Outcome
  ended : Outcome
  cancelled : Outcome

abbrev pub new_run : RunState
new_run = record { is_open = true; finishing = false; cursor = new_cursor; consec = 0 }

-- `send`
abbrev pub send_line : Bool → RawLine → Sending
send_line has_room l = if has_room then line l else dropped l

-- The inner loop: what is done with the lines, `gotLine`, and the cursor.
unfoldable pub read_raw : List (RawLine × Bool) → LogCursor → List Sending × Bool × LogCursor
read_raw [] c = ([], false, c)
read_raw ((plain l, room) ∷ ls) c =
    let (out, got, c') = read_raw ls c in (send_line room (plain l) ∷ out, got, c')
read_raw ((stamped e, room) ∷ ls) c =
    let (b, c') = accept e c in
    let (out, got, c'') = read_raw ls c' in
    (if b then send_line room (stamped e) ∷ out else out, b || got, c'')

unfoldable pub read_round : Round → RunState → List Sending × Bool × LogCursor
unfolding read_raw
read_round r s = read_raw (if s.is_open then r.lines else []) (begin_stream s.cursor)

abbrev pub is_clean : Option String → Bool
is_clean none = true
is_clean (some e) = false

abbrev pub cause_of : Bool → Option String → String
cause_of open_stream none = "stream ended"
cause_of open_stream (some e) = if open_stream then e else "stream ended"

-- `sendBlocking`, where the context may end.
abbrev pub if_taken : Bool → Sending → List Sending
if_taken b m = if b then m ∷ [] else []

-- The last word of a loop that gives up.
abbrev pub give_up : Round → Sending → List Sending × Outcome
give_up r m = if r.ends_sending then (if_taken r.takes_notice m, cancelled) else (m ∷ [], ended)

unfoldable pub reopen : Round → RunState → Reopening → List Sending × Outcome
reopen r s opened = ([], running (record s { is_open = true }))
reopen r s failed = ([], running (record s { is_open = false }))
reopen r s (refused e) = give_up r (fatal e)

-- Behind the two resets of `consec`: give up, or wait and open again.
unfoldable pub retry : Round → String → RunState → List Sending × Outcome
unfolding reopen
retry r cause s =
    let s' = record s { consec = s.consec + 1 } in
    let (out, o) = reopen r s' r.reopening in
    if ltb max_consecutive_stream_failures (s.consec + 1)
    then give_up r (fatal cause)
    else if r.ends_waiting
    then (if_taken r.takes_notice (reconnecting cause), cancelled)
    else (reconnecting cause ∷ out, o)

-- Behind the lines.
unfoldable pub settle_round : Round → Bool → RunState → List Sending × Outcome
unfolding retry
settle_round r got s =
    let clean = s.is_open && is_clean r.scan_error in
    let finishing = if clean then r.is_complete else s.finishing in
    let consec = if (clean && r.is_complete) || got then 0 else s.consec in
    if r.ends_reading
    then ([], cancelled)
    else if clean && s.finishing
    then ([], ended)
    else retry r (cause_of s.is_open r.scan_error)
        (record s { finishing = finishing; consec = consec })

unfoldable pub run_round : Round → RunState → List Sending × Outcome
unfolding read_round settle_round
run_round r s =
    let (out, got, c) = read_round r s in
    let (more, o) = settle_round r got (record s { cursor = c }) in (out ++ more, o)

-- The deferred function's `sendBlocking`.
abbrev pub close_stream : Round → List Sending → List Sending × Outcome
close_stream r out =
    if r.ends_closing
    then (out ++ if_taken r.takes_last eos, cancelled)
    else (out ++ eos ∷ [], ended)

-- The rounds of a list; `running` means that the loop wants another one. The deferred function sends
-- the end of the stream.
unfoldable pub run_rounds : List Round → RunState → List Sending × Outcome
unfolding run_round
run_rounds [] s = ([], running s)
run_rounds (r ∷ rs) s =
    let (out, o) = run_round r s in
    elim o [
      | running s' ↦ (out ++ (run_rounds rs s').0, (run_rounds rs s').1)
      | ended ↦ close_stream r out
      | cancelled ↦ (out ++ if_taken r.takes_last eos, cancelled)
    ]
