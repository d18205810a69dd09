-- ===== src/Logs/Cursor.antt =====
-- internal/cluster/logstream.go: `logCursor` with `beginStream` and `accept`.
--
-- An instant is a number; a map of counts is a function, 0 where a key is missing, and `none` is a nil
-- map. A stream is the list of its lines with a timestamp.
use kubetin.Common.{
  ℕ, ◌+◌, ◌-◌, String, Bool, true, false, Option, none, some, List, [], ◌∷◌, ltb, if◌then◌else◌,
  update,
}

pub record Entry : Type 0 where
  pub at_time : ℕ
  pub line : String

abbrev pub Counts : Type 0
Counts = String → ℕ

abbrev pub no_counts : Counts
no_counts l = 0

pub record LogCursor : Type 0 where
  pub at_time : ℕ
  pub seen : Option Counts
  pub overlap : Counts

abbrev pub new_cursor : LogCursor
new_cursor = record { at_time = 0; seen = none; overlap = no_counts }

abbrev pub counts_of : Option Counts → Counts
counts_of none = no_counts
counts_of (some m) = m

unfoldable pub begin_stream : LogCursor → LogCursor
begin_stream c = record c { overlap = counts_of c.seen }

-- The second test of `accept`: a later instant, or the first line of all, starts new counts.
unfoldable pub move_on : Entry → LogCursor → LogCursor
move_on e c =
    let fresh : LogCursor = record {
      at_time = e.at_time;
      seen = some no_counts;
      overlap = no_counts;
    } in
    elim c.seen [ none ↦ fresh | some m ↦ if ltb c.at_time e.at_time then fresh else c ]

-- The third: a line that is counted in the overlap is a replay.
unfoldable pub take_line : String → LogCursor → Bool × LogCursor
take_line l c =
    if ltb 0 (c.overlap l)
    then (false, record c { overlap = update l (c.overlap l - 1) c.overlap })
    else (true, record c { seen = some (update l (counts_of c.seen l + 1) (counts_of c.seen)) })

unfoldable pub accept : Entry → LogCursor → Bool × LogCursor
unfolding move_on take_line
accept e c = if ltb e.at_time c.at_time then (false, c) else take_line e.line (move_on e c)

abbrev pub keep_if : Bool → Entry → List Entry → List Entry
keep_if b e es = if b then e ∷ es else es

-- The lines of one stream that are passed on, and the cursor behind them.
unfoldable pub read_lines : List Entry → LogCursor → List Entry × LogCursor
unfolding accept
read_lines [] c = ([], c)
read_lines (e ∷ es) c =
    let (b, c') = accept e c in let (out, c'') = read_lines es c' in (keep_if b e out, c'')

unfoldable pub read_stream : List Entry → LogCursor → List Entry × LogCursor
unfolding begin_stream read_lines
read_stream es c = read_lines es (begin_stream c)
