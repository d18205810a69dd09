-- ===== src/Dashboard/Layout.antt =====
-- internal/ui/dashboard_layout.go: `rect`, `dashLayout`, `dashLayoutFor`, `dashFrame`.
--
-- Sizes are not negative, and `remaining` is only used where the subtraction does not reach below 0:
-- a difference that stops at 0 is under the minimum as a negative one is. A frame is the list of its
-- rows, and a row the list of its cells; colours and newlines are left out.
use kubetin.Common.{
  ℕ, zero, suc, ◌+◌, ◌-◌, ◌*◌, ◌/◌, String, Bool, true, false, ◌||◌, List, [], ◌∷◌, ◌++◌, ltb,
  if◌then◌else◌,
}

abbrev pub dash_wide_min_width : ℕ
dash_wide_min_width = 120

abbrev pub dash_wide_min_height : ℕ
dash_wide_min_height = 20

abbrev pub dash_mid_min_height : ℕ
dash_mid_min_height = 3

abbrev pub dash_logs_min_height : ℕ
dash_logs_min_height = 3

pub record Rect : Type 0 where
  pub x : ℕ
  pub y : ℕ
  pub w : ℕ
  pub h : ℕ

unfoldable pub empty_rect : Rect → Bool
empty_rect r = ltb r.w 1 || ltb r.h 1

-- The zero value of `rect`.
abbrev pub no_rect : Rect
no_rect = record { x = 0; y = 0; w = 0; h = 0 }

abbrev pub Frame : Type 0
Frame = List (List String)

pub record DashLayout : Type 0 where
  pub wide : Bool
  pub status : Rect
  pub left : Rect
  pub right : Rect
  pub logs : Rect
  pub frame : Frame

-- `strings.Repeat`, and the rows of `blankRows`.
unfoldable pub repeat : {A : Type 0} → A → ℕ → List A
repeat a zero = []
repeat a (suc n) = a ∷ repeat a n

-- The segments of a row, each with the border behind it.
unfoldable pub segments_row : List ℕ → List String
unfolding repeat
segments_row [] = []
segments_row (seg ∷ segs) = repeat " " seg ++ "│" ∷ segments_row segs

unfoldable pub blank_row : List ℕ → List String
unfolding segments_row
blank_row segs = "│" ∷ segments_row segs

unfoldable pub rule : String → String → ℕ → List String
unfolding repeat
rule a b n = a ∷ repeat "─" n ++ b ∷ []

unfoldable pub split_rule : String → ℕ → ℕ → List String
unfolding repeat
split_rule c m n = "├" ∷ (repeat "─" m ++ (c ∷ (repeat "─" n ++ ("┤" ∷ []))))

unfoldable pub dash_frame : ℕ → ℕ → ℕ → ℕ → ℕ → ℕ → Frame
unfolding blank_row rule split_rule repeat
dash_frame w status_h mid_h logs_h left_w right_w =
    let bottom = repeat (blank_row ((w - 2) ∷ [])) logs_h ++ (rule "└" "┘" (w - 2) ∷ []) in
    let middle =
      repeat (blank_row (left_w ∷ right_w ∷ [])) mid_h
      ++ (split_rule "┴" left_w right_w ∷ bottom) in
    let upper =
      repeat (blank_row ((w - 2) ∷ [])) status_h ++ (split_rule "┬" left_w right_w ∷ middle) in
    rule "┌" "┐" (w - 2) ∷ upper

abbrev pub stacked : ℕ → DashLayout
stacked w = record {
  wide = false;
  status = record no_rect { w = w };
  left = no_rect;
  right = no_rect;
  logs = no_rect;
  frame = [];
}

-- The height of the middle row before the logs get their minimum.
unfoldable pub first_mid_height : ℕ → ℕ
first_mid_height remaining =
    if ltb (remaining * 40 / 100) dash_mid_min_height
    then dash_mid_min_height
    else remaining * 40 / 100

unfoldable pub mid_height : ℕ → ℕ
unfolding first_mid_height
mid_height remaining =
    if ltb (remaining - first_mid_height remaining) dash_logs_min_height
    then remaining - dash_logs_min_height
    else first_mid_height remaining

unfoldable pub logs_height : ℕ → ℕ
unfolding first_mid_height
logs_height remaining =
    if ltb (remaining - first_mid_height remaining) dash_logs_min_height
    then dash_logs_min_height
    else remaining - first_mid_height remaining

-- The wide layout for the two heights; `w - 2` is the interior width.
unfoldable pub wide_layout : ℕ → ℕ → ℕ → ℕ → DashLayout
unfolding dash_frame
wide_layout w status_h mid_h logs_h =
    let left_w = (w - 2 - 1) / 2 in
    let right_w = w - 2 - 1 - left_w in
    let mid_y = 1 + status_h + 1 in
    let logs_y = mid_y + mid_h + 1 in
    record {
      wide = true;
      status = record { x = 1; y = 1; w = w - 2; h = status_h };
      left = record { x = 1; y = mid_y; w = left_w; h = mid_h };
      right = record { x = 1 + left_w + 1; y = mid_y; w = right_w; h = mid_h };
      logs = record { x = 1; y = logs_y; w = w - 2; h = logs_h };
      frame = dash_frame w status_h mid_h logs_h left_w right_w;
    }

unfoldable pub dash_layout_for : ℕ → ℕ → ℕ → DashLayout
unfolding mid_height logs_height wide_layout
dash_layout_for w h status_h =
    let remaining = h - 4 - status_h in
    if ltb w dash_wide_min_width || ltb h dash_wide_min_height
    then stacked w
    else if ltb remaining (dash_mid_min_height + dash_logs_min_height)
    then stacked w
    else wide_layout w status_h (mid_height remaining) (logs_height remaining)
