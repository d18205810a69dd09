-- ===== src/Logs/Streams.antt =====
-- internal/cluster/logstream.go, `logCursor`: the streams of one container, one after the other.
use kubetin.Common.{
  ℕ, zero, suc, ◌+◌, ◌-◌, ◌≡◌, refl, sym, ap, subst, ◌∙◌, List, [], ◌∷◌, ◌++◌, append-nil,
  append_assoc, map, length, take, drop, take-drop, take_nil, ltb, if◌then◌else◌, arith,
}
use kubetin.Logs.Cursor.{Entry, LogCursor, new_cursor, begin_stream, read_stream}
use kubetin.Logs.Lines.{Ascends}
use kubetin.Logs.Exact.{IsResumed, start_of, read_resumed}

-- A stretch of a log: the number of lines left out, and the number of lines that came before the
-- stream broke.
abbrev pub Stretch : Type 0
Stretch = ℕ × ℕ

abbrev pub stretch : List Entry → Stretch → List Entry
stretch log (k, n) = take n (drop k log)

-- The lines that are passed on over all streams.
unfoldable pub read_streams : List (List Entry) → LogCursor → List Entry
read_streams [] c = []
read_streams (s ∷ ss) c = (read_stream s c).0 ++ read_streams ss (read_stream s c).1

-- How far the log has come.
abbrev pub further : ℕ → Stretch → ℕ
further m (k, n) = if ltb m (k + n) then k + n else m

abbrev pub reached : ℕ → List Stretch → ℕ
reached m [] = m
reached m (s ∷ ss) = reached (further m s) ss

-- Every stream starts where the lines passed on so far say.
abbrev pub AllResumed : List Entry → ℕ → List Stretch → Type 0
AllResumed log m [] = Unit
AllResumed log m (s ∷ ss) = IsResumed (take m log) s.0 log × AllResumed log (further m s) ss

take_more :
    (m j : ℕ) (xs : List Entry)
    → take m xs ++ take (j - length (take m xs)) (drop m xs) ≡ take (if ltb m j then j else m) xs
take_more zero zero xs = refl
take_more zero (suc j) xs =
    let e : suc j - 0 ≡ suc j = omega arith in
    let f : (if ltb 0 (suc j) then suc j else 0) ≡ suc j = ground arith in
    ap (λ (i : ℕ). take i xs) (e ∙ sym f)
take_more (suc m) j [] = take_nil _ ∙ sym (take_nil _)
take_more (suc m) zero (x ∷ xs) =
    let none_left : 0 - suc (length (take m xs)) ≡ 0 = omega arith in
    let stays : (if ltb (suc m) 0 then 0 else suc m) ≡ suc m = ground arith in
    rw (none_left, stays) (append-nil (x ∷ take m xs))
take_more (suc m) (suc j) (x ∷ xs) =
    let e : suc j - suc (length (take m xs)) ≡ j - length (take m xs) = omega arith in
    let f : (if ltb (suc m) (suc j) then suc j else suc m) ≡ suc (if ltb m j then j else m) =
      ground arith in
    rw (e, f) (ap (λ (ys : List Entry). x ∷ ys) (take_more m j xs))

start_new : begin_stream new_cursor ≡ start_of []
unfolding begin_stream
start_new = refl

streams_from :
    (log : List Entry) (ss : List Stretch) (m : ℕ) (c : LogCursor)
    → Ascends 0 log
    → begin_stream c ≡ start_of (take m log)
    → AllResumed log m ss
    → take m log ++ read_streams (map (stretch log) ss) c ≡ take (reached m ss) log
unfolding read_streams
streams_from log [] m c asc start res = append-nil (take m log)
streams_from log ((k, n) ∷ ss) m c asc start (r, res) =
    let whole : take m log ++ drop m log ≡ log = take-drop m log in
    let new : List Entry = take (k + n - length (take m log)) (drop m log) in
    let told : ((read_stream (stretch log (k, n)) c).0 ≡ new)
        × (begin_stream (read_stream (stretch log (k, n)) c).1 ≡ start_of (take m log ++ new)) =
      subst
        (λ (x : List Entry).
          ((read_stream (take n (drop k x)) c).0 ≡ new)
          × (begin_stream (read_stream (take n (drop k x)) c).1 ≡ start_of (take m log ++ new)))
        whole
        (read_resumed (take m log) (drop m log) k n c start (subst (Ascends 0) (sym whole) asc)
          (subst (IsResumed (take m log) k) (sym whole) r)) in
    let next : take m log ++ new ≡ take (further m (k, n)) log = take_more m (k + n) log in
    let c' : LogCursor = (read_stream (stretch log (k, n)) c).1 in
    let rest : List Entry = read_streams (map (stretch log) ss) c' in
    sym (append_assoc (take m log) (read_stream (stretch log (k, n)) c).0 rest)
    ∙ ap (λ (o : List Entry). (take m log ++ o) ++ rest) told.0
    ∙ ap (λ (o : List Entry). o ++ rest) next
    ∙ streams_from log ss (further m (k, n)) c' asc (told.1 ∙ ap start_of next) res

-- Over any streams that resume a sorted log where the lines passed on so far say, however each of them
-- breaks off, every line up to the furthest one read is passed on once, in the order of the log.
pub read_streams-log :
    (log : List Entry) (ss : List Stretch)
    → Ascends 0 log
    → AllResumed log 0 ss
    → read_streams (map (stretch log) ss) new_cursor ≡ take (reached 0 ss) log
read_streams-log log ss asc res = streams_from log ss 0 new_cursor asc start_new res
