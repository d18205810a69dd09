-- ===== src/Dashboard/Examples.antt =====
-- internal/ui/dashboard_layout.go: a canvas of 120 by 30 cells.
use kubetin.Common.{◌≡◌, refl, true, arith}
use kubetin.Common.Int.{pos}
use kubetin.Common.{List, [], ◌∷◌, String, length, min, max, ◌-◌}
use kubetin.Dashboard.Scroll.{
  scroll_window, clamp_height, max_start, clamp_offset, scroll_end, Shows, scroll_window-Shows,
}
use kubetin.Dashboard.Layout.{
  dash_layout_for, wide_layout, mid_height, logs_height, first_mid_height,
}
use kubetin.Dashboard.Tiles.{covers, one_if, blank_at, dash_layout_for-covers}
use kubetin.Dashboard.Sizes.{IsSized, dash_layout_for-IsSized}

logs_get_more : (dash_layout_for 120 30 4).logs.h ≡ 14
unfolding dash_layout_for wide_layout mid_height logs_height first_mid_height
logs_get_more = refl

dash_layout_for-covers_example :
    covers (dash_layout_for 120 30 4) 70 9 ≡ one_if (blank_at (dash_layout_for 120 30 4).frame 70 9)
unfolding dash_layout_for wide_layout
dash_layout_for-covers_example = dash_layout_for-covers 120 30 4 70 9 refl

dash_layout_for-IsSized_example :
    ((dash_layout_for 120 30 4).wide ≡ true) × IsSized 120 30 4 (dash_layout_for 120 30 4)
dash_layout_for-IsSized_example =
    dash_layout_for-IsSized 120 30 4 (ground arith) (ground arith) (ground arith)

abbrev lines : List String
lines = "a" ∷ "b" ∷ "c" ∷ []

scrolled_too_far : scroll_window lines (pos 9) (pos 2) ≡ ("b" ∷ "c" ∷ [], 1)
unfolding scroll_window clamp_height max_start clamp_offset scroll_end
scrolled_too_far = refl

scroll_window-Shows_example :
    Shows lines (scroll_window lines (pos 9) (pos 2)).0 (scroll_window lines (pos 9) (pos 2)).1
    × (length (scroll_window lines (pos 9) (pos 2)).0 ≡ min (max 1 2) (length lines))
    × ((scroll_window lines (pos 9) (pos 2)).1 ≡ min 9 (length lines - max 1 2))
scroll_window-Shows_example = scroll_window-Shows lines (pos 9) (pos 2)
