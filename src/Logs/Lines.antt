-- ===== src/Logs/Lines.antt =====
-- internal/cluster/logstream.go, `logCursor`: what it does with the lines of a stream.
use mathlib.Core.Path.{fun_ext}
use kubetin.Common.{
  ℕ, ◌+◌, ◌-◌, ◌≤◌, ◌<◌, ◌≡◌, refl, sym, ap, ◌∙◌, String, true, false, inl, inr, some, List, [],
  ◌∷◌, ◌++◌, All, count_if, count_if-append, ltb, ltb→lt, lt→ltb, str_eq, if◌then◌else◌, update,
  arith, Bool-cases, eq_iff,
}
use kubetin.Logs.Cursor.{
  Entry, Counts, no_counts, LogCursor, new_cursor, move_on, take_line, accept, read_lines,
}

abbrev pub tally : List Entry → Counts
tally es l = count_if (λ (e : Entry). str_eq e.line l) es

-- The cursor behind lines of which those of the last instant t are es, with ov still to be replayed.
abbrev pub holding : ℕ → List Entry → List Entry → LogCursor
holding t es ov = record { at_time = t; seen = some (tally es); overlap = tally ov }

tally_replayed :
    (e : Entry) (ov : List Entry)
    → update e.line (tally (e ∷ ov) e.line - 1) (tally (e ∷ ov)) ≡ tally ov
tally_replayed e ov =
    fun_ext (λ (l : String). ground (arith, eq_iff e.line l, eq_iff e.line e.line))

tally_more :
    (e : Entry) (es : List Entry)
    → update e.line (tally es e.line + 1) (tally es) ≡ tally (es ++ e ∷ [])
tally_more e es = fun_ext (λ (l : String). ground (
  arith,
  eq_iff e.line l,
  eq_iff e.line e.line,
  count_if-append (λ (x : Entry). str_eq x.line l) es (e ∷ []),
))

tally_first : (e : Entry) → update e.line (no_counts e.line + 1) no_counts ≡ tally (e ∷ [])
tally_first e = fun_ext (λ (l : String). ground (arith, eq_iff e.line l, eq_iff e.line e.line))

replayed_positive : (e : Entry) (ov : List Entry) → ltb 0 (tally (e ∷ ov) e.line) ≡ true
replayed_positive e ov = ground (arith, eq_iff e.line e.line)

-- The cursor that a later instant, or the first line, starts with.
abbrev opened : ℕ → LogCursor
opened t = record { at_time = t; seen = some no_counts; overlap = no_counts }

move_on_stays :
    (t : ℕ) (es ov : List Entry) (e : Entry)
    → e.at_time ≡ t
    → move_on e (holding t es ov) ≡ holding t es ov
unfolding move_on
move_on_stays t es ov e h = let f : ltb t e.at_time ≡ false = ground arith in rw (f) refl

move_on_later :
    (t : ℕ) (es ov : List Entry) (e : Entry)
    → t < e.at_time
    → move_on e (holding t es ov) ≡ opened e.at_time
unfolding move_on
move_on_later t es ov e h = rw (lt→ltb t e.at_time h) refl

move_on_first : (e : Entry) → move_on e new_cursor ≡ opened e.at_time
unfolding move_on
move_on_first e = refl

take_line_replay :
    (t : ℕ) (es ov : List Entry) (e : Entry)
    → take_line e.line (holding t es (e ∷ ov)) ≡ (false, holding t es ov)
unfolding take_line
take_line_replay t es ov e = rw (replayed_positive e ov) (
    ap (λ (o : Counts). (false, record { at_time = t; seen = some (tally es); overlap = o }))
      (tally_replayed e ov))

take_line_new :
    (t : ℕ) (es : List Entry) (e : Entry)
    → take_line e.line (holding t es []) ≡ (true, holding t (es ++ e ∷ []) [])
unfolding take_line
take_line_new t es e =
    ap (λ (o : Counts). (true, record { at_time = t; seen = some o; overlap = no_counts }))
      (tally_more e es)

accept_old :
    (t : ℕ) (es ov : List Entry) (e : Entry)
    → e.at_time < t
    → accept e (holding t es ov) ≡ (false, holding t es ov)
unfolding accept
accept_old t es ov e h = rw (lt→ltb e.at_time t h) refl

-- Behind the first test.
accept_not_old :
    (e : Entry) (c : LogCursor)
    → c.at_time ≤ e.at_time
    → accept e c ≡ take_line e.line (move_on e c)
unfolding accept
accept_not_old e c h = let f : ltb e.at_time c.at_time ≡ false = ground arith in rw (f) refl

accept_replay :
    (t : ℕ) (es ov : List Entry) (e : Entry)
    → e.at_time ≡ t
    → accept e (holding t es (e ∷ ov)) ≡ (false, holding t es ov)
accept_replay t es ov e h =
    accept_not_old e (holding t es (e ∷ ov)) (omega (arith, h))
    ∙ ap (take_line e.line) (move_on_stays t es (e ∷ ov) e h)
    ∙ take_line_replay t es ov e

accept_same :
    (t : ℕ) (es : List Entry) (e : Entry)
    → e.at_time ≡ t
    → accept e (holding t es []) ≡ (true, holding t (es ++ e ∷ []) [])
accept_same t es e h =
    accept_not_old e (holding t es []) (omega (arith, h))
    ∙ ap (take_line e.line) (move_on_stays t es [] e h)
    ∙ take_line_new t es e

accept_later :
    (t : ℕ) (es : List Entry) (e : Entry)
    → t < e.at_time
    → accept e (holding t es []) ≡ (true, holding e.at_time (e ∷ []) [])
accept_later t es e h =
    accept_not_old e (holding t es []) (omega (arith, h))
    ∙ ap (take_line e.line) (move_on_later t es [] e h)
    ∙ take_line_new e.at_time [] e

pub accept_first : (e : Entry) → accept e new_cursor ≡ (true, holding e.at_time (e ∷ []) [])
accept_first e =
    accept_not_old e new_cursor (omega arith)
    ∙ ap (take_line e.line) (move_on_first e)
    ∙ take_line_new e.at_time [] e

-- Sorted from an instant on.
abbrev pub Ascends : ℕ → List Entry → Type 0
Ascends t [] = Unit
Ascends t (e ∷ es) = (t ≤ e.at_time) × Ascends e.at_time es

-- The last instant of a history, and its lines.
-- The lines of the last instant, with one more line.
abbrev pub with_line : ℕ → List Entry → Entry → List Entry
with_line t es f = if ltb t f.at_time then f ∷ [] else es ++ f ∷ []

abbrev pub group : ℕ → List Entry → List Entry → ℕ × List Entry
group t es [] = (t, es)
group t es (f ∷ fs) = group f.at_time (with_line t es f) fs

abbrev pub held : ℕ × List Entry → List Entry → LogCursor
held (t, es) ov = holding t es ov

read_none : (c : LogCursor) → read_lines [] c ≡ ([], c)
unfolding read_lines
read_none c = refl

pub first_step :
    (e : Entry) (es : List Entry) (c c' : LogCursor)
    → accept e c ≡ (true, c')
    → read_lines (e ∷ es) c ≡ (e ∷ (read_lines es c').0, (read_lines es c').1)
unfolding read_lines
first_step e es c c' h = rw (h) refl

skip_step :
    (e : Entry) (es : List Entry) (c c' : LogCursor)
    → accept e c ≡ (false, c')
    → read_lines (e ∷ es) c ≡ read_lines es c'
unfolding read_lines
skip_step e es c c' h = rw (h) refl

pub read_old :
    (t : ℕ) (old s es ov : List Entry)
    → All (λ (e : Entry). e.at_time < t) old
    → read_lines (old ++ s) (holding t es ov) ≡ read_lines s (holding t es ov)
read_old t [] s es ov h = refl
read_old t (e ∷ old) s es ov (p, h) =
    skip_step e (old ++ s) (holding t es ov) (holding t es ov) (accept_old t es ov e p)
    ∙ read_old t old s es ov h

pub read_replay :
    (t : ℕ) (ov rest s es : List Entry)
    → All (λ (e : Entry). e.at_time ≡ t) ov
    → read_lines (ov ++ s) (holding t es (ov ++ rest)) ≡ read_lines s (holding t es rest)
read_replay t [] rest s es h = refl
read_replay t (e ∷ ov) rest s es (p, h) =
    skip_step e (ov ++ s) (holding t es (e ∷ ov ++ rest)) (holding t es (ov ++ rest))
      (accept_replay t es (ov ++ rest) e p)
    ∙ read_replay t ov rest s es h

accept_new :
    (t : ℕ) (es : List Entry) (e : Entry)
    → t ≤ e.at_time
    → accept e (holding t es []) ≡ (true, holding e.at_time (with_line t es e) [])
accept_new t es e le = elim (Bool-cases (ltb t e.at_time)) [
  | inl g ↦ rw (g) (accept_later t es e (ltb→lt t e.at_time g))
  | inr g ↦
      let same : e.at_time ≡ t = ground arith in
      rw (g)
        (accept_same t es e same ∙ ap (λ (x : ℕ). (true, holding x (es ++ e ∷ []) [])) (sym same))
]

pub read_new :
    (new : List Entry) (t : ℕ) (es : List Entry)
    → Ascends t new
    → read_lines new (holding t es []) ≡ (new, held (group t es new) [])
read_new [] t es h = read_none (holding t es [])
read_new (e ∷ new) t es (le, h) =
    first_step e new (holding t es []) (holding e.at_time (with_line t es e) [])
      (accept_new t es e le)
    ∙ ap (λ (r : List Entry × LogCursor). (e ∷ r.0, r.1))
        (read_new new e.at_time (with_line t es e) h)
