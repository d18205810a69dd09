-- ===== src/Dashboard/Scroll.antt =====
-- internal/ui/dashboard_layout.go: `scrollWindow`, on the lines that `strings.Split` gives.
use kubetin.Common.{
  ℕ, ◌+◌, ◌-◌, ◌≤◌, ◌≡◌, sym, ap, ◌∙◌, List, ◌++◌, ltb, min, max, String, length, length-drop,
  length-take, take-drop, take, drop, if◌then◌else◌, arith,
}
use kubetin.Common.Int.{ℤ, pos, pos_part, ltb_ℤ}

-- `height` is at least 1.
unfoldable pub clamp_height : ℤ → ℕ
clamp_height h = if ltb_ℤ h (pos 1) then 1 else pos_part h

unfoldable pub max_start : ℕ → ℕ → ℕ
max_start lines height = lines - height

unfoldable pub clamp_offset : ℕ → ℤ → ℕ
clamp_offset most o =
    let low = if ltb_ℤ o (pos 0) then 0 else pos_part o in if ltb_ℤ (pos most) o then most else low

unfoldable pub scroll_end : ℕ → ℕ → ℕ → ℕ
scroll_end lines offset height = if ltb lines (offset + height) then lines else offset + height

-- The lines of the window, and the offset.
unfoldable pub scroll_window : List String → ℤ → ℤ → List String × ℕ
unfolding clamp_height max_start clamp_offset scroll_end
scroll_window lines offset height =
    let h = clamp_height height in
    let o = clamp_offset (max_start (length lines) h) offset in
    (take (scroll_end (length lines) o h - o) (drop o lines), o)

length-take_within : (n : ℕ) (xs : List String) → n ≤ length xs → length (take n xs) ≡ n
length-take_within n xs h = omega (arith, length-take n xs)

clamp_offset_le : (most : ℕ) (o : ℤ) → clamp_offset most o ≤ most
unfolding clamp_offset
clamp_offset_le most o = ground arith

window_size : (lines o h : ℕ) → o ≤ lines - h → scroll_end lines o h - o ≡ min h lines
unfolding scroll_end
window_size lines o h a = ground arith

window_fits : (lines o h : ℕ) → o ≤ lines - h → scroll_end lines o h - o ≤ lines - o
unfolding scroll_end
window_fits lines o h a = ground arith

-- The window is a stretch of the lines that starts at the offset.
pub record Shows (lines window : List String) (offset : ℕ) : Type 0 where
  pub before : List String
  pub after : List String
  pub parts : lines ≡ before ++ (window ++ after)
  pub starts : length before ≡ offset

clamp_height-max : (h : ℤ) → clamp_height h ≡ max 1 (pos_part h)
unfolding clamp_height
clamp_height-max h = ground arith

clamp_offset-min : (most : ℕ) (o : ℤ) → clamp_offset most o ≡ min (pos_part o) most
unfolding clamp_offset
clamp_offset-min most o = ground arith

-- For every offset and height the window is a stretch of the lines that starts at the offset returned.
-- It has as many lines as the height, a height below 1 counting as 1, or all the lines if they are
-- fewer. The offset returned is the one asked for, a negative one counting as 0, unless the window
-- would reach behind the last line: then it is the one at which the window ends there.
pub scroll_window-Shows :
    (lines : List String) (offset height : ℤ)
    → Shows lines (scroll_window lines offset height).0 (scroll_window lines offset height).1
      × (length (scroll_window lines offset height).0
          ≡ min (max 1 (pos_part height)) (length lines))
      × ((scroll_window lines offset height).1
          ≡ min (pos_part offset) (length lines - max 1 (pos_part height)))
unfolding scroll_window max_start
scroll_window-Shows lines offset height =
    let h = clamp_height height in
    let tall : h ≡ max 1 (pos_part height) = clamp_height-max height in
    let o = clamp_offset (length lines - h) offset in
    let within = clamp_offset_le (length lines - h) offset in
    let n = scroll_end (length lines) o h - o in
    (
      record {
        before = take o lines;
        after = drop n (drop o lines);
        parts =
            sym (take-drop o lines)
            ∙ ap (λ ys. take o lines ++ ys) (sym (take-drop n (drop o lines)));
        starts = omega (arith, within, length-take o lines);
      },
      length-take_within n (drop o lines)
            (omega (arith, window_fits (length lines) o h within, length-drop o lines))
          ∙ window_size (length lines) o h within
          ∙ ap (λ (i : ℕ). min i (length lines)) tall,
      clamp_offset-min (length lines - h) offset
          ∙ ap (λ (i : ℕ). min (pos_part offset) (length lines - i)) tall,
    )
