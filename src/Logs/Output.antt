-- ===== src/Logs/Output.antt =====
-- internal/cluster/logstream.go, `runStream`: what it sends.
use kubetin.Common.{
  ℕ, suc, ◌≤◌, arith, ◌+◌, ◌≡◌, refl, ap, subst, ◌∙◌, String, Bool, true, false, ◌&&◌, ◌||◌, List,
  [], ◌∷◌, ◌++◌, append-nil, if◌then◌else◌, if-case, ltb,
}
use kubetin.Logs.Cursor.{Entry, LogCursor, begin_stream, accept, read_lines, read_stream}
use kubetin.Logs.Run.{
  RawLine, stamped, plain, Sending, line, dropped, send_line, if_taken, give_up, reconnecting,
  fatal, eos, Reopening, opened, failed, refused, Round, RunState, Outcome, running, ended,
  cancelled, read_raw, read_round, is_clean, cause_of, reopen, retry, settle_round, run_round,
  max_consecutive_stream_failures,
}
use kubetin.Logs.Ends.{Told}

-- The lines with a timestamp that were handed to `send`, and those of a stream.
abbrev pub offered : List Sending → List Entry
offered [] = []
offered (line (stamped e) ∷ ms) = e ∷ offered ms
offered (line (plain l) ∷ ms) = offered ms
offered (dropped (stamped e) ∷ ms) = e ∷ offered ms
offered (dropped (plain l) ∷ ms) = offered ms
offered (reconnecting e ∷ ms) = offered ms
offered (fatal e ∷ ms) = offered ms
offered (eos ∷ ms) = offered ms

abbrev pub entries : List (RawLine × Bool) → List Entry
entries [] = []
entries ((stamped e, room) ∷ ls) = e ∷ entries ls
entries ((plain l, room) ∷ ls) = entries ls

pub offered-append : (xs ys : List Sending) → offered (xs ++ ys) ≡ offered xs ++ offered ys
offered-append [] ys = refl
offered-append (line (stamped e) ∷ xs) ys = ap (λ (es : List Entry). e ∷ es) (offered-append xs ys)
offered-append (line (plain l) ∷ xs) ys = offered-append xs ys
offered-append (dropped (stamped e) ∷ xs) ys =
    ap (λ (es : List Entry). e ∷ es) (offered-append xs ys)
offered-append (dropped (plain l) ∷ xs) ys = offered-append xs ys
offered-append (reconnecting e ∷ xs) ys = offered-append xs ys
offered-append (fatal e ∷ xs) ys = offered-append xs ys
offered-append (eos ∷ xs) ys = offered-append xs ys

offered-if :
    (b room : Bool) (e : Entry) (ms : List Sending)
    → offered (if b then send_line room (stamped e) ∷ ms else ms)
      ≡ (if b then e ∷ offered ms else offered ms)
offered-if true true e ms = refl
offered-if true false e ms = refl
offered-if false room e ms = refl

offered_plain :
    (room : Bool) (l : String) (ms : List Sending)
    → offered (send_line room (plain l) ∷ ms) ≡ offered ms
offered_plain true l ms = refl
offered_plain false l ms = refl

-- The reader of all lines does with those of a timestamp what the cursor does.
read_raw-lines :
    (ls : List (RawLine × Bool)) (c : LogCursor)
    → (offered (read_raw ls c).0 ≡ (read_lines (entries ls) c).0)
      × ((read_raw ls c).2 ≡ (read_lines (entries ls) c).1)
unfolding read_raw read_lines
read_raw-lines [] c = (refl, refl)
read_raw-lines ((plain l, room) ∷ ls) c =
    let (p, q) = read_raw-lines ls c in (offered_plain room l (read_raw ls c).0 ∙ p, q)
read_raw-lines ((stamped e, room) ∷ ls) c =
    let (p, q) = read_raw-lines ls (accept e c).1 in
    (
      offered-if (accept e c).0 room e (read_raw ls (accept e c).1).0
          ∙ ap (λ (es : List Entry). if (accept e c).0 then e ∷ es else es) p,
      q,
    )

-- The timestamped lines of the stream that a round reads; a stream that is not open gives none.
abbrev pub stream_of : Round → RunState → List Entry
stream_of r s = entries (if s.is_open then r.lines else [])

-- No message marks the end of the stream.
abbrev pub without_eos : List Sending → Bool
without_eos [] = true
without_eos (eos ∷ ms) = false
without_eos (line l ∷ ms) = without_eos ms
without_eos (dropped l ∷ ms) = without_eos ms
without_eos (reconnecting e ∷ ms) = without_eos ms
without_eos (fatal e ∷ ms) = without_eos ms

pub without_eos-append :
    (xs ys : List Sending) → without_eos (xs ++ ys) ≡ (without_eos xs && without_eos ys)
without_eos-append [] ys = refl
without_eos-append (eos ∷ xs) ys = refl
without_eos-append (line l ∷ xs) ys = without_eos-append xs ys
without_eos-append (dropped l ∷ xs) ys = without_eos-append xs ys
without_eos-append (reconnecting e ∷ xs) ys = without_eos-append xs ys
without_eos-append (fatal e ∷ xs) ys = without_eos-append xs ys

without_eos-send_line :
    (room : Bool) (l : RawLine) (ms : List Sending)
    → without_eos (send_line room l ∷ ms) ≡ without_eos ms
without_eos-send_line true l ms = refl
without_eos-send_line false l ms = refl

read_raw-without_eos :
    (ls : List (RawLine × Bool)) (c : LogCursor) → without_eos (read_raw ls c).0 ≡ true
unfolding read_raw
read_raw-without_eos [] c = refl
read_raw-without_eos ((plain l, room) ∷ ls) c =
    without_eos-send_line room (plain l) (read_raw ls c).0 ∙ read_raw-without_eos ls c
read_raw-without_eos ((stamped e, room) ∷ ls) c =
    let rest : List Sending = (read_raw ls (accept e c).1).0 in
    if-case (λ (ms : List Sending). without_eos ms ≡ true) (accept e c).0
      {x = send_line room (stamped e) ∷ rest} {y = rest}
      (λ _. without_eos-send_line room (stamped e) rest ∙ read_raw-without_eos ls (accept e c).1)
      (λ _. read_raw-without_eos ls (accept e c).1)

-- The cursor that a round leaves to the next one.
abbrev pub HasCursor : LogCursor → Outcome → Type 0
HasCursor c (running s) = s.cursor ≡ c
HasCursor c ended = Unit
HasCursor c cancelled = Unit

-- How many lines `Dropped` counts.
abbrev pub drops : List Sending → ℕ
drops [] = 0
drops (dropped l ∷ ms) = suc (drops ms)
drops (line l ∷ ms) = drops ms
drops (reconnecting e ∷ ms) = drops ms
drops (fatal e ∷ ms) = drops ms
drops (eos ∷ ms) = drops ms

pub drops-append : (xs ys : List Sending) → drops (xs ++ ys) ≡ drops xs + drops ys
drops-append [] ys = omega arith
drops-append (dropped l ∷ xs) ys = let h = drops-append xs ys in omega (arith, h)
drops-append (line l ∷ xs) ys = drops-append xs ys
drops-append (reconnecting e ∷ xs) ys = drops-append xs ys
drops-append (fatal e ∷ xs) ys = drops-append xs ys
drops-append (eos ∷ xs) ys = drops-append xs ys

-- Behind the lines of a round there are no others, none is dropped, and the cursor stays.
record Keeps (c : LogCursor) (x : Told) : Type 0 where
  silent : offered x.0 ≡ []
  open_end : without_eos x.0 ≡ true
  cursor_kept : HasCursor c x.1
  none_dropped : drops x.0 ≡ 0

if_taken-Keeps :
    (c : LogCursor) (b : Bool) (m : Sending)
    → offered (m ∷ []) ≡ []
    → without_eos (m ∷ []) ≡ true
    → drops (m ∷ []) ≡ 0
    → Keeps c (if_taken b m, cancelled)
if_taken-Keeps c true m h k l = record {
  silent = h;
  open_end = k;
  cursor_kept = tt;
  none_dropped = l;
}
if_taken-Keeps c false m h k l = record {
  silent = refl;
  open_end = refl;
  cursor_kept = tt;
  none_dropped = refl;
}

give_up-Keeps : (c : LogCursor) (r : Round) (e : String) → Keeps c (give_up r (fatal e))
give_up-Keeps c r e =
    if-case (Keeps c) r.ends_sending (λ _. if_taken-Keeps c r.takes_notice (fatal e) refl refl refl)
      (λ _. record { silent = refl; open_end = refl; cursor_kept = tt; none_dropped = refl })

-- Behind the notice of a reconnect.
reopen-Keeps :
    (r : Round) (cause : String) (s : RunState) (o : Reopening)
    → Keeps s.cursor (reconnecting cause ∷ (reopen r s o).0, (reopen r s o).1)
unfolding reopen
reopen-Keeps r cause s opened = record {
  silent = refl;
  open_end = refl;
  cursor_kept = refl;
  none_dropped = refl;
}
reopen-Keeps r cause s failed = record {
  silent = refl;
  open_end = refl;
  cursor_kept = refl;
  none_dropped = refl;
}
reopen-Keeps r cause s (refused e) =
    let k : Keeps s.cursor (give_up r (fatal e)) = give_up-Keeps s.cursor r e in
    record {
      silent = k.silent;
      open_end = k.open_end;
      cursor_kept = k.cursor_kept;
      none_dropped = k.none_dropped;
    }

retry-Keeps : (r : Round) (cause : String) (s : RunState) → Keeps s.cursor (retry r cause s)
unfolding retry
retry-Keeps r cause s =
    if-case (Keeps s.cursor) (ltb max_consecutive_stream_failures (s.consec + 1))
      (λ _. give_up-Keeps s.cursor r cause)
      (λ _.
        if-case (Keeps s.cursor) r.ends_waiting
          (λ _. if_taken-Keeps s.cursor r.takes_notice (reconnecting cause) refl refl refl)
          (λ _. reopen-Keeps r cause (record s { consec = s.consec + 1 }) r.reopening))

settle_round-Keeps : (r : Round) (got : Bool) (s : RunState) → Keeps s.cursor (settle_round r got s)
unfolding settle_round
settle_round-Keeps r got s =
    if-case (Keeps s.cursor) r.ends_reading
      (λ _. record { silent = refl; open_end = refl; cursor_kept = tt; none_dropped = refl })
      (λ _.
        if-case (Keeps s.cursor) (s.is_open && is_clean r.scan_error && s.finishing)
          (λ _. record { silent = refl; open_end = refl; cursor_kept = tt; none_dropped = refl })
          (λ _. retry-Keeps r (cause_of s.is_open r.scan_error) (record s {
            finishing = if s.is_open && is_clean r.scan_error then r.is_complete else s.finishing;
            consec =
                if (s.is_open && is_clean r.scan_error && r.is_complete) || got
                then 0
                else s.consec;
          })))

pub run_round-reads :
    (r : Round) (s : RunState)
    → (offered (run_round r s).0 ≡ (read_stream (stream_of r s) s.cursor).0)
      × HasCursor (read_stream (stream_of r s) s.cursor).1 (run_round r s).1
unfolding run_round read_round read_stream
run_round-reads r s =
    let ls : List (RawLine × Bool) = if s.is_open then r.lines else [] in
    let (p, q) = read_raw-lines ls (begin_stream s.cursor) in
    let s' : RunState = record s { cursor = (read_raw ls (begin_stream s.cursor)).2 } in
    let got : Bool = (read_raw ls (begin_stream s.cursor)).1 in
    (
      offered-append (read_raw ls (begin_stream s.cursor)).0 (settle_round r got s').0
          ∙ ap (λ (es : List Entry). offered (read_raw ls (begin_stream s.cursor)).0 ++ es)
              ((settle_round-Keeps r got s').silent)
          ∙ append-nil (offered (read_raw ls (begin_stream s.cursor)).0)
          ∙ p,
      subst (λ (c : LogCursor). HasCursor c (settle_round r got s').1) q
          ((settle_round-Keeps r got s').cursor_kept),
    )

pub run_round-without_eos : (r : Round) (s : RunState) → without_eos (run_round r s).0 ≡ true
unfolding run_round read_round
run_round-without_eos r s =
    let ls : List (RawLine × Bool) = if s.is_open then r.lines else [] in
    let read : _ = read_raw ls (begin_stream s.cursor) in
    let s' : RunState = record s { cursor = read.2 } in
    without_eos-append read.0 (settle_round r read.1 s').0
    ∙ rw
        (read_raw-without_eos ls (begin_stream s.cursor), (settle_round-Keeps r read.1 s').open_end)
        refl

-- Behind the lines, a round drops none.
pub run_round-drops :
    (r : Round) (s : RunState) → drops (run_round r s).0 ≡ drops (read_round r s).0
unfolding run_round read_round
run_round-drops r s =
    let read : _ = read_raw (if s.is_open then r.lines else []) (begin_stream s.cursor) in
    let s' : RunState = record s { cursor = read.2 } in
    drops-append read.0 (settle_round r read.1 s').0
    ∙ ap (λ n. drops read.0 + n) ((settle_round-Keeps r read.1 s').none_dropped)
    ∙ omega arith

-- The lines with a timestamp that `Out` took.
abbrev pub received : List Sending → List Entry
received [] = []
received (line (stamped e) ∷ ms) = e ∷ received ms
received (line (plain l) ∷ ms) = received ms
received (dropped l ∷ ms) = received ms
received (reconnecting e ∷ ms) = received ms
received (fatal e ∷ ms) = received ms
received (eos ∷ ms) = received ms

-- The second list is the first one with k members left out, the others in their order.
pub data Lacks : ℕ → List Entry → List Entry → Type 0 where
  none_left : Lacks 0 [] []
  kept : {k : ℕ} {xs ys : List Entry} (x : Entry) → Lacks k xs ys → Lacks k (x ∷ xs) (x ∷ ys)
  lost : {k : ℕ} {xs ys : List Entry} (x : Entry) → Lacks k xs ys → Lacks (suc k) (x ∷ xs) ys

-- What `Out` took lacks no more lines than `Dropped` counts.
pub received-Lacks :
    (ms : List Sending) → (k : ℕ) × Lacks k (offered ms) (received ms) × (k ≤ drops ms)
received-Lacks [] = (0, none_left, omega arith)
received-Lacks (line (stamped e) ∷ ms) = let (k, l, h) = received-Lacks ms in (k, kept e l, h)
received-Lacks (line (plain l) ∷ ms) = received-Lacks ms
received-Lacks (dropped (stamped e) ∷ ms) =
    let (k, l, h) = received-Lacks ms in (suc k, lost e l, omega (arith, h))
received-Lacks (dropped (plain t) ∷ ms) =
    let (k, l, h) = received-Lacks ms in (k, l, omega (arith, h))
received-Lacks (reconnecting e ∷ ms) = received-Lacks ms
received-Lacks (fatal e ∷ ms) = received-Lacks ms
received-Lacks (eos ∷ ms) = received-Lacks ms
