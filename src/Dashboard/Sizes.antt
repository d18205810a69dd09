-- ===== src/Dashboard/Sizes.antt =====
-- internal/ui/dashboard_layout.go: the heights of the panes.
use kubetin.Common.{
  ℕ, zero, suc, ◌+◌, ◌-◌, ◌/◌, ◌≤◌, ◌≡◌, refl, ap, true, ◌||◌, List, [], ◌∷◌, ◌++◌, ltb, length,
  length-append, arith, if-case,
}
use kubetin.Dashboard.Layout.{
  DashLayout, repeat, blank_row, rule, split_rule, dash_frame, first_mid_height, mid_height,
  logs_height, wide_layout, dash_layout_for,
}

length-repeat : {A : Type 0} (a : A) (n : ℕ) → length (repeat a n) ≡ n
unfolding repeat
length-repeat a zero = refl
length-repeat a (suc n) = ap suc (length-repeat a n)

length_band : {A : Type 0} (a : A) (n : ℕ) (xs : List A) → length (repeat a n ++ xs) ≡ n + length xs
length_band a n xs = omega (arith, length-append (repeat a n) xs, length-repeat a n)

length-dash_frame :
    (w s m l left right : ℕ) → length (dash_frame w s m l left right) ≡ 4 + s + m + l
unfolding dash_frame
length-dash_frame w s m l left right =
    let bottom = repeat (blank_row ((w - 2) ∷ [])) l ++ (rule "└" "┘" (w - 2) ∷ []) in
    let middle = repeat (blank_row (left ∷ right ∷ [])) m ++ (split_rule "┴" left right ∷ bottom) in
    omega (
      arith,
      length_band (blank_row ((w - 2) ∷ [])) l (rule "└" "┘" (w - 2) ∷ []),
      length_band (blank_row (left ∷ right ∷ [])) m (split_rule "┴" left right ∷ bottom),
      length_band (blank_row ((w - 2) ∷ [])) s (split_rule "┬" left right ∷ middle),
    )

heights_fit :
    (r : ℕ)
    → 6 ≤ r
    → (mid_height r + logs_height r ≡ r) × (3 ≤ mid_height r) × (mid_height r ≤ logs_height r)
unfolding mid_height logs_height first_mid_height
heights_fit r h = (ground arith, ground arith, ground arith)

-- The sizes of a wide layout: the frame is as high as the canvas, the status pane has the rows asked
-- for, the middle row at least three, and the logs at least as many as the middle row; the panes of
-- the middle row are as wide as each other or one cell apart, and fill the width with their borders.
abbrev pub IsSized : ℕ → ℕ → ℕ → DashLayout → Type 0
IsSized w h s d =
    (length d.frame ≡ h)
    × (d.status.h ≡ s)
    × (3 ≤ d.left.h)
    × (d.right.h ≡ d.left.h)
    × (d.left.h ≤ d.logs.h)
    × (d.left.w ≤ d.right.w)
    × (d.right.w ≤ d.left.w + 1)
    × (d.left.w + d.right.w + 3 ≡ w)
    × (d.logs.w + 2 ≡ w)
    × (d.logs.y + d.logs.h + 1 ≡ h)

wide_layout-IsSized :
    (w h s m l : ℕ)
    → 120 ≤ w
    → m + l + 4 + s ≡ h
    → 3 ≤ m
    → m ≤ l
    → IsSized w h s (wide_layout w s m l)
unfolding wide_layout
wide_layout-IsSized w h s m l a b c d =
    let lw = (w - 2 - 1) / 2 in
    (
      omega (arith, length-dash_frame w s m l lw (w - 2 - 1 - lw)),
      refl,
      c,
      refl,
      d,
      omega arith,
      omega arith,
      omega arith,
      omega arith,
      omega arith,
    )

-- A canvas of at least 120 cells by 20, with ten rows besides those of the status pane, gets the wide
-- layout. Its frame is as high as the canvas, its status pane has the rows asked for, the middle row
-- at least three, and the logs at least as many as the middle row; the two panes of the middle row
-- differ by one cell at most, and the panes with their borders fill the canvas.
pub dash_layout_for-IsSized :
    (w h s : ℕ)
    → 120 ≤ w
    → 20 ≤ h
    → 10 + s ≤ h
    → ((dash_layout_for w h s).wide ≡ true) × IsSized w h s (dash_layout_for w h s)
unfolding dash_layout_for wide_layout
dash_layout_for-IsSized w h s a b c =
    let P = λ (d : DashLayout). (d.wide ≡ true) × IsSized w h s d in
    let (sum, mid, logs) = heights_fit (h - 4 - s) (omega arith) in
    if-case P (ltb w 120 || ltb h 20) (λ e. absurd (ground arith))
      (λ _.
        if-case P (ltb (h - 4 - s) 6) (λ e. absurd (ground arith))
          (λ _. (
            refl,
            wide_layout-IsSized w h s (mid_height (h - 4 - s)) (logs_height (h - 4 - s)) a
                (omega arith) mid logs,
          )))
