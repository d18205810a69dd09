-- ===== src/Dashboard/Tiles.antt =====
-- internal/ui/dashboard_layout.go: the panes are the blank cells of the frame.
use kubetin.Common.{
  ℕ, zero, suc, ◌+◌, ◌-◌, ◌/◌, ◌≤◌, ◌<◌, ◌≡◌, refl, sym, ap, ◌∙◌, String, Bool, true, false, ◌&&◌,
  ◌||◌, List, [], ◌∷◌, ◌++◌, ltb, leb, str_eq, if◌then◌else◌, arith, if-case, Bool-cases, inl, inr,
}
use kubetin.Dashboard.Layout.{
  Rect, Frame, DashLayout, repeat, segments_row, blank_row, rule, split_rule, dash_frame,
  mid_height, logs_height, wide_layout, dash_layout_for,
}

-- The cell of a row; outside of it there is none.
abbrev cell_at : List String → ℕ → String
cell_at [] x = ""
cell_at (c ∷ row) zero = c
cell_at (c ∷ row) (suc x) = cell_at row x

abbrev row_at : Frame → ℕ → List String
row_at [] y = []
row_at (row ∷ rows) zero = row
row_at (row ∷ rows) (suc y) = row_at rows y

abbrev is_blank : String → Bool
is_blank c = str_eq c " "

-- Whether the frame is blank in column x of row y.
abbrev pub blank_at : Frame → ℕ → ℕ → Bool
blank_at rows x y = is_blank (cell_at (row_at rows y) x)

abbrev pub one_if : Bool → ℕ
one_if true = 1
one_if false = 0

abbrev pub inside : Rect → ℕ → ℕ → Bool
inside r x y = leb r.x x && ltb x (r.x + r.w) && leb r.y y && ltb y (r.y + r.h)

-- How many of the four panes hold the cell.
abbrev pub covers : DashLayout → ℕ → ℕ → ℕ
covers d x y =
    one_if (inside d.status x y)
    + one_if (inside d.left x y)
    + one_if (inside d.right x y)
    + one_if (inside d.logs x y)

abbrev blank_in : List String → ℕ → Bool
blank_in row x = is_blank (cell_at row x)

-- Repeated cells, and repeated rows, followed by others.
blank_in-repeat :
    (c : String) (n : ℕ) (row : List String) (x : ℕ)
    → blank_in (repeat c n ++ row) x ≡ (if ltb x n then is_blank c else blank_in row (x - n))
unfolding repeat
blank_in-repeat c zero row x = ground arith
blank_in-repeat c (suc n) row zero = ground arith
blank_in-repeat c (suc n) row (suc x) = ground (arith, blank_in-repeat c n row x)

-- The blank cells of a row with one segment, and with two.
abbrev one_pane : ℕ → ℕ → Bool
one_pane n x = leb 1 x && ltb x (1 + n)

abbrev two_panes : ℕ → ℕ → ℕ → Bool
two_panes m n x = one_pane m x || (leb (2 + m) x && ltb x (2 + m + n))

blank_in_last : (c : String) (x : ℕ) → is_blank c ≡ false → blank_in (c ∷ []) x ≡ false
blank_in_last c zero h = h
blank_in_last c (suc x) h = refl

blank_in_row_one : (n x : ℕ) → blank_in (blank_row (n ∷ [])) x ≡ one_pane n x
unfolding blank_row segments_row
blank_in_row_one n zero = ground arith
blank_in_row_one n (suc x) =
    ground (arith, blank_in-repeat " " n ("│" ∷ []) x, blank_in_last "│" (x - n) refl)

blank_in_row_two : (m n x : ℕ) → blank_in (blank_row (m ∷ n ∷ [])) x ≡ two_panes m n x
unfolding blank_row segments_row
blank_in_row_two m n zero = ground arith
blank_in_row_two m n (suc x) =
    ground
      (arith, blank_in-repeat " " m ("│" ∷ repeat " " n ++ "│" ∷ []) x, blank_in_row_one n (x - m))

rule_solid :
    (a b : String) (n x : ℕ)
    → is_blank a ≡ false
    → is_blank b ≡ false
    → blank_in (rule a b n) x ≡ false
unfolding rule
rule_solid a b n zero h k = h
rule_solid a b n (suc x) h k =
    ground (arith, blank_in-repeat "─" n (b ∷ []) x, blank_in_last b (x - n) k)

split_rule_solid :
    (c : String) (m n x : ℕ) → is_blank c ≡ false → blank_in (split_rule c m n) x ≡ false
unfolding split_rule
split_rule_solid c m n zero h = refl
split_rule_solid c m n (suc x) h =
    blank_in-repeat "─" m (c ∷ (repeat "─" n ++ ("┤" ∷ []))) x
    ∙ if-case (λ b. b ≡ false) (ltb x m) (λ _. refl) (λ _. rest (x - m))
  where
    rest : (k : ℕ) → blank_in (c ∷ (repeat "─" n ++ ("┤" ∷ []))) k ≡ false
    rest zero = h
    rest (suc k) =
        ground (arith, blank_in-repeat "─" n ("┤" ∷ []) k, blank_in_last "┤" (k - n) refl)

blank_at-repeat :
    (r : List String) (n : ℕ) (rows : Frame) (x y : ℕ)
    → blank_at (repeat r n ++ rows) x y
      ≡ (if ltb y n then blank_in r x else blank_at rows x (y - n))
unfolding repeat
blank_at-repeat r zero rows x y = ground arith
blank_at-repeat r (suc n) rows x zero = ground arith
blank_at-repeat r (suc n) rows x (suc y) = ground (arith, blank_at-repeat r n rows x y)

blank_at_cons :
    (r : List String) (rows : Frame) (x y : ℕ)
    → blank_in r x ≡ false
    → blank_at (r ∷ rows) x y ≡ (leb 1 y && blank_at rows x (y - 1))
blank_at_cons r rows x zero h = h
blank_at_cons r rows x (suc y) h = ground arith

module _ (w s m l left right : ℕ) where
  abbrev last_band : Frame
  last_band = repeat (blank_row ((w - 2) ∷ [])) l ++ (rule "└" "┘" (w - 2) ∷ [])

  abbrev middle_band : Frame
  middle_band = repeat (blank_row (left ∷ right ∷ [])) m ++ (split_rule "┴" left right ∷ last_band)

  last_band-blank : (x y : ℕ) → blank_at last_band x y ≡ (ltb y l && one_pane (w - 2) x)
  last_band-blank x y = ground (
    arith,
    blank_at-repeat (blank_row ((w - 2) ∷ [])) l (rule "└" "┘" (w - 2) ∷ []) x y,
    blank_at_cons (rule "└" "┘" (w - 2)) [] x (y - l) (rule_solid "└" "┘" (w - 2) x refl refl),
    blank_in_row_one (w - 2) x,
  )

  middle_band-blank :
      (x y : ℕ)
      → blank_at middle_band x y ≡ (
          if ltb y m
          then two_panes left right x
          else (leb 1 (y - m) && (ltb (y - m - 1) l && one_pane (w - 2) x)))
  middle_band-blank x y = ground (
    arith,
    blank_at-repeat (blank_row (left ∷ right ∷ [])) m (split_rule "┴" left right ∷ last_band) x y,
    blank_at_cons (split_rule "┴" left right) last_band x (y - m)
        (split_rule_solid "┴" left right x refl),
    last_band-blank x (y - m - 1),
    blank_in_row_two left right x,
  )

  frame_blank :
      (x y : ℕ)
      → blank_at (dash_frame w s m l left right) x y ≡ (
          leb 1 y
          && (if ltb (y - 1) s
              then one_pane (w - 2) x
              else (leb 1 (y - 1 - s)
                  && (if ltb (y - 1 - s - 1) m
                      then two_panes left right x
                      else (leb 1 (y - 1 - s - 1 - m)
                          && (ltb (y - 1 - s - 1 - m - 1) l && one_pane (w - 2) x))))))
  unfolding dash_frame
  frame_blank x y = ground (
    arith,
    blank_at_cons (rule "┌" "┐" (w - 2))
        (repeat (blank_row ((w - 2) ∷ [])) s ++ (split_rule "┬" left right ∷ middle_band)) x y
        (rule_solid "┌" "┐" (w - 2) x refl refl),
    blank_at-repeat (blank_row ((w - 2) ∷ [])) s (split_rule "┬" left right ∷ middle_band) x
        (y - 1),
    blank_at_cons (split_rule "┬" left right) middle_band x (y - 1 - s)
        (split_rule_solid "┬" left right x refl),
    blank_in_row_one (w - 2) x,
    middle_band-blank x (y - 1 - s - 1),
  )

frame_logs :
    (w s m l left right x y : ℕ)
    → 3 + s + m ≤ y
    → y < 3 + s + m + l
    → blank_at (dash_frame w s m l left right) x y ≡ one_pane (w - 2) x
frame_logs w s m l left right x y a b =
    frame_blank w s m l left right x y ∙ pick (two_panes left right x) (one_pane (w - 2) x)
  where
    pick :
        (p q : Bool)
        → (leb 1 y
            && (if ltb (y - 1) s
                then q
                else (leb 1 (y - 1 - s)
                    && (if ltb (y - 1 - s - 1) m
                        then p
                        else (leb 1 (y - 1 - s - 1 - m) && (ltb (y - 1 - s - 1 - m - 1) l && q))))))
          ≡ q
    pick p q = ground arith

covers_logs :
    (w s m l x y : ℕ)
    → 3 + s + m ≤ y
    → y < 3 + s + m + l
    → covers (wide_layout w s m l) x y ≡ one_if (one_pane (w - 2) x)
unfolding wide_layout
covers_logs w s m l x y a b = ground arith

frame_below :
    (w s m l left right x y : ℕ)
    → 3 + s + m + l ≤ y
    → blank_at (dash_frame w s m l left right) x y ≡ false
frame_below w s m l left right x y a =
    frame_blank w s m l left right x y ∙ pick (two_panes left right x) (one_pane (w - 2) x)
  where
    pick :
        (p q : Bool)
        → (leb 1 y
            && (if ltb (y - 1) s
                then q
                else (leb 1 (y - 1 - s)
                    && (if ltb (y - 1 - s - 1) m
                        then p
                        else (leb 1 (y - 1 - s - 1 - m) && (ltb (y - 1 - s - 1 - m - 1) l && q))))))
          ≡ false
    pick p q = ground arith

covers_below : (w s m l x y : ℕ) → 3 + s + m + l ≤ y → covers (wide_layout w s m l) x y ≡ 0
unfolding wide_layout
covers_below w s m l x y a = ground arith

wide_layout-covers :
    (w s m l x y : ℕ)
    → covers (wide_layout w s m l) x y ≡ one_if (blank_at (wide_layout w s m l).frame x y)
unfolding wide_layout
wide_layout-covers w s m l x y =
    let lw = (w - 2 - 1) / 2 in
    elim (Bool-cases (ltb y (1 + s))) [
      | inl a ↦ ground (arith, frame_blank w s m l lw (w - 2 - 1 - lw) x y)
      | inr a ↦ elim (Bool-cases (ltb y (2 + s + m))) [
        | inl b ↦ ground (arith, frame_blank w s m l lw (w - 2 - 1 - lw) x y)
        | inr b ↦ elim (Bool-cases (ltb y (3 + s + m))) [
          | inl c ↦ ground (arith, frame_blank w s m l lw (w - 2 - 1 - lw) x y)
          | inr c ↦ elim (Bool-cases (ltb y (3 + s + m + l))) [
            | inl e ↦
                covers_logs w s m l x y (ground arith) (ground arith)
                ∙ sym (
                    ap one_if
                      (frame_logs w s m l lw (w - 2 - 1 - lw) x y (ground arith) (ground arith)))
            | inr e ↦
                covers_below w s m l x y (ground arith)
                ∙ sym (ap one_if (frame_below w s m l lw (w - 2 - 1 - lw) x y (ground arith)))
          ]
        ]
      ]
    ]

-- In a wide layout, a blank cell of the frame lies in exactly one of the four panes, and any other
-- cell, on the border or outside of the canvas, in none: the panes do not overlap, leave no gap, and
-- nothing drawn in a pane covers a border.
pub dash_layout_for-covers :
    (w h s x y : ℕ)
    → (dash_layout_for w h s).wide ≡ true
    → covers (dash_layout_for w h s) x y ≡ one_if (blank_at (dash_layout_for w h s).frame x y)
unfolding dash_layout_for
dash_layout_for-covers w h s x y =
    let P = λ (d : DashLayout). d.wide ≡ true → covers d x y ≡ one_if (blank_at d.frame x y) in
    if-case P (ltb w 120 || ltb h 20) (λ _. λ e. cc)
      (λ _.
        if-case P (ltb (h - 4 - s) 6) (λ _. λ e. cc)
          (λ _. λ e. wide_layout-covers w s (mid_height (h - 4 - s)) (logs_height (h - 4 - s)) x y))
