-- ===== src/Logs/Exact.antt =====
-- internal/cluster/logstream.go, `logCursor`: each line of the log is passed on once.
use kubetin.Common.{
  take_nil, ◌⊎◌, All-map, All-append, All-take, drop-append, take-append, drop_all, ℕ, zero, suc,
  ◌+◌, ◌-◌, ◌≤◌, ◌<◌, ◌≡◌, refl, sym, ap, subst, ◌∙◌, inl, inr, List, [], ◌∷◌, ◌++◌, append-nil,
  append_assoc, length, length-append, take, drop, length-drop, length-take, take-drop, All, ltb,
  ltb→lt, leb, arith, Bool-cases,
}
use kubetin.Logs.Cursor.{Entry, LogCursor, new_cursor, begin_stream, read_lines, read_stream}
use kubetin.Logs.Lines.{
  holding, Ascends, group, held, with_line, first_step, accept_first, read_old, read_replay,
  read_new,
}

-- A history in two parts: what is older than its last instant, and the lines of that instant.
record Parted (t : ℕ) (es h : List Entry) : Type 0 where
  older : List Entry
  whole : older ++ es ≡ h
  before : All (λ (e : Entry). e.at_time < t) older
  at_last : All (λ (e : Entry). e.at_time ≡ t) es
  has_last : 0 < length es

-- One line more.
Parted-more :
    (t : ℕ) (es h : List Entry) (f : Entry)
    → t ≤ f.at_time
    → Parted t es h
    → Parted f.at_time (with_line t es f) (h ++ f ∷ [])
Parted-more t es h f le p = elim (Bool-cases (ltb t f.at_time)) [
  | inl g ↦ rw (g) (record {
    older = h;
    whole = refl;
    before = subst (All (λ (e : Entry). e.at_time < f.at_time)) p.whole (
        All-append (λ (e : Entry). e.at_time < f.at_time) p.older es
          (All-map (λ (e : Entry). e.at_time < t) (λ (e : Entry). e.at_time < f.at_time)
            (λ e x. omega (arith, x, le)) p.older p.before)
          (All-map (λ (e : Entry). e.at_time ≡ t) (λ (e : Entry). e.at_time < f.at_time)
            (λ e x. omega (arith, x, ltb→lt t f.at_time g)) es p.at_last));
    at_last = (refl, tt);
    has_last = omega arith;
  })
  | inr g ↦ rw (g) (record {
    older = p.older;
    whole = sym (append_assoc p.older es (f ∷ [])) ∙ ap (λ (x : List Entry). x ++ f ∷ []) p.whole;
    before =
        All-map (λ (e : Entry). e.at_time < t) (λ (e : Entry). e.at_time < f.at_time)
          (λ e x. omega (arith, x, le)) p.older p.before;
    at_last =
        All-append (λ (e : Entry). e.at_time ≡ f.at_time) es (f ∷ [])
          (All-map (λ (e : Entry). e.at_time ≡ t) (λ (e : Entry). e.at_time ≡ f.at_time)
            (λ e x. ground arith) es p.at_last)
          (refl, tt);
    has_last = omega (arith, length-append es (f ∷ []));
  })
]

Parted-group :
    (new : List Entry) (t : ℕ) (es h : List Entry)
    → Ascends t new
    → Parted t es h
    → Parted (group t es new).0 (group t es new).1 (h ++ new)
Parted-group [] t es h a p = rw (append-nil h) p
Parted-group (f ∷ new) t es h (le, a) p =
    subst (Parted (group t es (f ∷ new)).0 (group t es (f ∷ new)).1) (append_assoc h (f ∷ []) new)
      (Parted-group new f.at_time (with_line t es f) (h ++ f ∷ []) a (Parted-more t es h f le p))

-- The instant of the last line, or t.
abbrev pub last_from : ℕ → List Entry → ℕ
last_from t [] = t
last_from t (e ∷ es) = last_from e.at_time es

group_time : (new : List Entry) (t : ℕ) (es : List Entry) → (group t es new).0 ≡ last_from t new
group_time [] t es = refl
group_time (f ∷ new) t es = group_time new f.at_time (with_line t es f)

group-append :
    (xs ys : List Entry) (t : ℕ) (es : List Entry)
    → group t es (xs ++ ys) ≡ group (group t es xs).0 (group t es xs).1 ys
group-append [] ys t es = refl
group-append (f ∷ xs) ys t es = group-append xs ys f.at_time (with_line t es f)

Ascends-behind : (xs ys : List Entry) (t : ℕ) → Ascends t (xs ++ ys) → Ascends (last_from t xs) ys
Ascends-behind [] ys t a = a
Ascends-behind (x ∷ xs) ys t (le, a) = Ascends-behind xs ys x.at_time a

Ascends-before : (xs ys : List Entry) (t : ℕ) → Ascends t (xs ++ ys) → Ascends t xs
Ascends-before [] ys t a = tt
Ascends-before (x ∷ xs) ys t (le, a) = (le, Ascends-before xs ys x.at_time a)

Ascends-take : (n : ℕ) (xs : List Entry) (t : ℕ) → Ascends t xs → Ascends t (take n xs)
Ascends-take zero xs t a = tt
Ascends-take (suc n) [] t a = tt
Ascends-take (suc n) (x ∷ xs) t (le, a) = (le, Ascends-take n xs x.at_time a)

-- A stretch that skips only what is older than the last instant starts no later than its lines.
skipped_bound :
    (k t : ℕ) (old es r : List Entry)
    → 0 < length es
    → All (λ (e : Entry). e.at_time ≡ t) es
    → All (λ (e : Entry). e.at_time < t) (take k (old ++ (es ++ r)))
    → k ≤ length old
skipped_bound zero t old es r pos at_t h = omega arith
skipped_bound (suc k) t [] [] r pos at_t h = absurd (omega (arith, pos))
skipped_bound (suc k) t [] (e ∷ es) r pos (p, at_t) (q, h) = absurd (omega (arith, p, q))
skipped_bound (suc k) t (x ∷ old) es r pos at_t (q, h) =
    let ih : k ≤ length old = skipped_bound k t old es r pos at_t h in omega (arith, ih)

-- The cursor at the start of a stream, behind a history.
abbrev pub start_of : List Entry → LogCursor
start_of [] = new_cursor
start_of (e ∷ es) = let g = group e.at_time (e ∷ []) es in held g g.1

Parted-first :
    (e : Entry) (es : List Entry)
    → Ascends e.at_time es
    → Parted (group e.at_time (e ∷ []) es).0 (group e.at_time (e ∷ []) es).1 (e ∷ es)
Parted-first e es a =
    Parted-group es e.at_time (e ∷ []) (e ∷ []) a (record {
      older = [];
      whole = refl;
      before = tt;
      at_last = (refl, tt);
      has_last = omega arith;
    })

-- What a stream tells of the history h behind it: the lines given, and the cursor for the next one.
abbrev Reads : List Entry → List Entry → List Entry → LogCursor → Type 0
Reads h s new c =
    ((read_stream s c).0 ≡ new) × (begin_stream (read_stream s c).1 ≡ start_of (h ++ new))

-- A stream that is cut off before any new line, or not.
read_rest :
    (t : ℕ) (es rest new : List Entry)
    → (length new ≡ 0) ⊎ (rest ≡ [])
    → Ascends t new
    → ((read_lines new (holding t es rest)).0 ≡ new)
      × (begin_stream (read_lines new (holding t es rest)).1
          ≡ held (group t es new) (group t es new).1)
unfolding read_lines begin_stream
read_rest t es rest [] p a = (refl, refl)
read_rest t es rest (e ∷ new) (inl p) a = absurd (omega (arith, p))
read_rest t es rest (e ∷ new) (inr p) a =
    let done : read_lines (e ∷ new) (holding t es rest)
        ≡ (e ∷ new, held (group t es (e ∷ new)) []) =
      ap (λ (o : List Entry). read_lines (e ∷ new) (holding t es o)) p
      ∙ read_new (e ∷ new) t es a in
    (
      ap (λ (r : List Entry × LogCursor). r.0) done,
      ap (λ (r : List Entry × LogCursor). begin_stream r.1) done,
    )

-- A stream in its three parts: too old, replayed, new.
stream_parts :
    (k n : ℕ) (old es r : List Entry)
    → k ≤ length old
    → take n (drop k (old ++ (es ++ r)))
      ≡ take n (drop k old)
        ++ (take (n - (length old - k)) es ++ take (k + n - (length old + length es)) r)
stream_parts k n old es r h =
    let a : n - length (drop k old) ≡ n - (length old - k) = omega (arith, length-drop k old) in
    let b : n - (length old - k) - length es ≡ k + n - (length old + length es) =
      omega (arith, h) in
    ap (take n) (drop-append k old (es ++ r) h)
    ∙ take-append n (drop k old) (es ++ r)
    ∙ ap (λ (i : ℕ). take n (drop k old) ++ take i (es ++ r)) a
    ∙ ap (λ (zs : List Entry). take n (drop k old) ++ zs) (take-append (n - (length old - k)) es r)
    ∙ ap (λ (i : ℕ). take n (drop k old) ++ (take (n - (length old - k)) es ++ take i r)) b

All-drop : (P : Entry → Type 0) (n : ℕ) (xs : List Entry) → All P xs → All P (drop n xs)
All-drop P zero xs h = h
All-drop P (suc n) [] h = tt
All-drop P (suc n) (x ∷ xs) (p, h) = All-drop P n xs h

-- Either the stream ends within the replayed lines, or they have all been replayed.
cut_off :
    (m n : ℕ) (es r : List Entry)
    → (m ≡ 0) ⊎ (length es ≤ n)
    → (length (take m r) ≡ 0) ⊎ (drop n es ≡ [])
cut_off m n es r (inl e) = inl (omega (arith, length-take m r, e))
cut_off m n es r (inr h) = inr (drop_all n es h)

cut_or_whole : (k n o e : ℕ) → k ≤ o → (k + n - (o + e) ≡ 0) ⊎ (e ≤ n - (o - k))
cut_or_whole k n o e h = elim (Bool-cases (leb e (n - (o - k)))) [
  | inl g ↦ inr (ground arith)
  | inr g ↦ inl (ground arith)
]

reads_parts :
    (t k n : ℕ) (old es r : List Entry) (c : LogCursor)
    → begin_stream c ≡ holding t es es
    → All (λ (e : Entry). e.at_time < t) old
    → All (λ (e : Entry). e.at_time ≡ t) es
    → k ≤ length old
    → Ascends t r
    → let new = take (k + n - (length old + length es)) r in
      ((read_stream (take n (drop k (old ++ (es ++ r)))) c).0 ≡ new)
      × (begin_stream (read_stream (take n (drop k (old ++ (es ++ r)))) c).1
          ≡ held (group t es new) (group t es new).1)
unfolding read_stream
reads_parts t k n old es r c start before at_t h asc =
    let i : ℕ = n - (length old - k) in
    let m : ℕ = k + n - (length old + length es) in
    let gone : List Entry = take n (drop k old) in
    let replayed : read_lines (take i es ++ take m r) (holding t es es)
        ≡ read_lines (take m r) (holding t es (drop i es)) =
      ap (λ (o : List Entry). read_lines (take i es ++ take m r) (holding t es o))
        (sym (take-drop i es))
      ∙ read_replay t (take i es) (drop i es) (take m r) es
          (All-take (λ (e : Entry). e.at_time ≡ t) i es at_t) in
    let whole : read_lines (take n (drop k (old ++ (es ++ r)))) (begin_stream c)
        ≡ read_lines (take m r) (holding t es (drop i es)) =
      ap (λ (x : LogCursor). read_lines (take n (drop k (old ++ (es ++ r)))) x) start
      ∙ ap (λ (s : List Entry). read_lines s (holding t es es)) (stream_parts k n old es r h)
      ∙ read_old t gone (take i es ++ take m r) es es (
          All-take (λ (e : Entry). e.at_time < t) n (drop k old)
            (All-drop (λ (e : Entry). e.at_time < t) k old before))
      ∙ replayed in
    let (a, b) =
      read_rest t es (drop i es) (take m r)
        (cut_off m i es r (cut_or_whole k n (length old) (length es) h)) (Ascends-take m r t asc) in
    (
      ap (λ (x : List Entry × LogCursor). x.0) whole ∙ a,
      ap (λ (x : List Entry × LogCursor). begin_stream x.1) whole ∙ b,
    )

-- The k lines of the log that a stream leaves out are older than the last line passed on. (The
-- server takes `sinceTime` as inclusive, and may round it down.)
abbrev pub IsResumed : List Entry → ℕ → List Entry → Type 0
IsResumed h k log = All (λ (e : Entry). e.at_time < last_from 0 h) (take k log)

none_skipped : (k n : ℕ) (r : List Entry) → IsResumed [] k r → take n (drop k r) ≡ take (k + n) r
none_skipped zero n r h = let e : n ≡ 0 + n = omega arith in ap (λ (i : ℕ). take i r) e
none_skipped (suc k) n [] h = take_nil n ∙ sym (take_nil (suc k + n))
none_skipped (suc k) n (x ∷ r) (p, h) = absurd (omega (arith, p))

begin_twice : (c : LogCursor) → begin_stream (begin_stream c) ≡ begin_stream c
unfolding begin_stream
begin_twice c = refl

begin_held : (g : ℕ × List Entry) → begin_stream (held g []) ≡ held g g.1
unfolding begin_stream
begin_held g = refl

read_first :
    (s : List Entry) (c : LogCursor) → begin_stream c ≡ new_cursor → Ascends 0 s → Reads [] s s c
unfolding read_stream
read_first [] c h a = (refl, begin_twice c ∙ h)
read_first (e ∷ s) c h (le, a) =
    let whole : read_lines (e ∷ s) (begin_stream c)
        ≡ (e ∷ s, held (group e.at_time (e ∷ []) s) []) =
      ap (read_lines (e ∷ s)) h
      ∙ first_step e s new_cursor (holding e.at_time (e ∷ []) []) (accept_first e)
      ∙ ap (λ (r : List Entry × LogCursor). (e ∷ r.0, r.1)) (read_new s e.at_time (e ∷ []) a) in
    (
      ap (λ (r : List Entry × LogCursor). r.0) whole,
      ap (λ (r : List Entry × LogCursor). begin_stream r.1) whole
          ∙ begin_held (group e.at_time (e ∷ []) s),
    )

-- The same of a log x behind i lines of it.
abbrev Told : ℕ → List Entry → ℕ → ℕ → List Entry → LogCursor → List Entry → ℕ → Type 0
Told t es n k r c x i =
    ((read_stream (take n (drop k x)) c).0 ≡ take (k + n - i) r)
    × (begin_stream (read_stream (take n (drop k x)) c).1
        ≡ held (group t es (take (k + n - i) r)) (group t es (take (k + n - i) r)).1)

-- One stream, behind any history.
pub read_resumed :
    (h r : List Entry) (k n : ℕ) (c : LogCursor)
    → begin_stream c ≡ start_of h
    → Ascends 0 (h ++ r)
    → IsResumed h k (h ++ r)
    → Reads h (take n (drop k (h ++ r))) (take (k + n - length h) r) c
read_resumed [] r k n c start asc res =
    let m : k + n ≡ k + n - 0 = omega arith in
    let all : take n (drop k r) ≡ take (k + n - 0) r =
      none_skipped k n r res ∙ ap (λ (i : ℕ). take i r) m in
    subst (λ (s : List Entry). Reads [] s (take (k + n - 0) r) c) (sym all)
      (read_first (take (k + n - 0) r) c start (Ascends-take (k + n - 0) r 0 asc))
read_resumed (e ∷ h) r k n c start (le, asc) res =
    let g : ℕ × List Entry = group e.at_time (e ∷ []) h in
    let p : Parted g.0 g.1 (e ∷ h) = Parted-first e h (Ascends-before h r e.at_time asc) in
    let time : g.0 ≡ last_from e.at_time h = group_time h e.at_time (e ∷ []) in
    let log : e ∷ h ++ r ≡ p.older ++ (g.1 ++ r) =
      ap (λ (x : List Entry). x ++ r) (sym p.whole) ∙ append_assoc p.older g.1 r in
    let size : length p.older + length g.1 ≡ length (e ∷ h) =
      sym (length-append p.older g.1) ∙ ap length p.whole in
    let skipped : k ≤ length p.older = skipped_bound k g.0 p.older g.1 r p.has_last p.at_last (
      subst (λ (x : List Entry). All (λ (y : Entry). y.at_time < g.0) (take k x)) log
        (subst (λ (i : ℕ). All (λ (y : Entry). y.at_time < i) (take k (e ∷ h ++ r))) (sym time)
          res)) in
    let (a, b) =
      reads_parts g.0 k n p.older g.1 r c start p.before p.at_last skipped
        (subst (λ (i : ℕ). Ascends i r) (sym time) (Ascends-behind h r e.at_time asc)) in
    let all : Told g.0 g.1 n k r c (e ∷ h ++ r) (length (e ∷ h)) =
      subst (λ (x : List Entry). Told g.0 g.1 n k r c x (length (e ∷ h))) (sym log)
        (subst (Told g.0 g.1 n k r c (p.older ++ (g.1 ++ r))) size (a, b)) in
    (
      all.0,
      all.1
          ∙ sym (
              ap (λ (x : ℕ × List Entry). held x x.1)
                (group-append h (take (k + n - length (e ∷ h)) r) e.at_time (e ∷ []))),
    )
