-- ===== src/Logs/Dropped.antt =====
-- internal/cluster/logstream.go, `send`: how many lines a run drops.
use kubetin.Common.{
  ℕ, ◌+◌, ◌≤◌, arith, ◌≡◌, subst, sym, ◌∙◌, Bool, true, false, List, [], ◌∷◌, ◌++◌, if◌then◌else◌,
  if-case,
}
use kubetin.Logs.Cursor.{LogCursor, begin_stream, accept}
use kubetin.Logs.Run.{
  RawLine, stamped, plain, Sending, send_line, eos, Round, RunState, Outcome, running, ended,
  cancelled, if_taken, read_raw, read_round, run_round, run_rounds,
}
use kubetin.Logs.Ends.{Told, follow, run_rounds_step}
use kubetin.Logs.Output.{drops, drops-append, run_round-drops}

-- The lines for which `Out` had no room.
abbrev pub full : List (RawLine × Bool) → ℕ
full [] = 0
full ((l, room) ∷ ls) = (if room then 0 else 1) + full ls

abbrev pub no_room : List Round → ℕ
no_room [] = 0
no_room (r ∷ rs) = full r.lines + no_room rs

drops-send_line :
    (room : Bool) (l : RawLine) (ms : List Sending)
    → drops (send_line room l ∷ ms) ≡ (if room then 0 else 1) + drops ms
drops-send_line true l ms = omega arith
drops-send_line false l ms = omega arith

read_raw-drops : (ls : List (RawLine × Bool)) (c : LogCursor) → drops (read_raw ls c).0 ≤ full ls
unfolding read_raw
read_raw-drops [] c = omega arith
read_raw-drops ((plain l, room) ∷ ls) c =
    let h = read_raw-drops ls c in
    let e = drops-send_line room (plain l) (read_raw ls c).0 in omega (arith, h, e)
read_raw-drops ((stamped e, room) ∷ ls) c =
    let rest : List Sending = (read_raw ls (accept e c).1).0 in
    let h = read_raw-drops ls (accept e c).1 in
    let d = drops-send_line room (stamped e) rest in
    if-case (λ (ms : List Sending). drops ms ≤ (if room then 0 else 1) + full ls) (accept e c).0
      {x = send_line room (stamped e) ∷ rest} {y = rest} (λ _. omega (arith, h, d))
      (λ _. omega (arith, h))

run_round-full : (r : Round) (s : RunState) → drops (run_round r s).0 ≤ full r.lines
unfolding read_round
run_round-full r s =
    let d = run_round-drops r s in
    let h = read_raw-drops (if s.is_open then r.lines else []) (begin_stream s.cursor) in
    let k : full (if s.is_open then r.lines else []) ≤ full r.lines =
      if-case (λ (ls : List (RawLine × Bool)). full ls ≤ full r.lines) s.is_open (λ _. omega arith)
        (λ _. omega arith) in
    omega (arith, d, h, k)

drops-if_taken : (b : Bool) (out : List Sending) → drops (out ++ if_taken b eos) ≡ drops out
drops-if_taken true out = drops-append out (eos ∷ []) ∙ omega arith
drops-if_taken false out = drops-append out [] ∙ omega arith

follow-drops :
    (r : Round) (rs : List Round) (out : List Sending) (o : Outcome)
    → drops out ≤ full r.lines
    → ((s' : RunState) → drops (run_rounds rs s').0 ≤ no_room rs)
    → drops (follow r rs out o).0 ≤ full r.lines + no_room rs
follow-drops r rs out (running s') h ih =
    let e = drops-append out (run_rounds rs s').0 in let k = ih s' in omega (arith, e, k, h)
follow-drops r rs out ended h ih =
    if-case (λ (x : Told). drops x.0 ≤ full r.lines + no_room rs) r.ends_closing
      (λ _. let e = drops-if_taken r.takes_last out in omega (arith, e, h))
      (λ _. let e = drops-append out (eos ∷ []) in omega (arith, e, h))
follow-drops r rs out cancelled h ih =
    let e = drops-if_taken r.takes_last out in omega (arith, e, h)

-- Only lines for which `Out` had no room are dropped.
pub run_rounds-drops : (rs : List Round) (s : RunState) → drops (run_rounds rs s).0 ≤ no_room rs
unfolding run_rounds
run_rounds-drops [] s = omega arith
run_rounds-drops (r ∷ rs) s =
    subst (λ (x : Told). drops x.0 ≤ full r.lines + no_room rs) (sym (run_rounds_step r rs s))
      (follow-drops r rs (run_round r s).0 (run_round r s).1 (run_round-full r s)
        (run_rounds-drops rs))
