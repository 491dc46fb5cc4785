-- ===== src/Gallery/Status.antt =====
-- src/video_display_kitty.rs: the status near the bottom of the terminal. A text is its characters,
-- and what is written to the terminal a list of commands.
use meshconf.Prelude.{
  ℕ, zero, suc, ◌+◌, ◌-◌, ◌/◌, ◌%◌, ◌^◌, Option, none, some, List, [], ◌∷◌, ◌++◌, ◌==◌, ltb,
  if◌then◌else◌, length,
}
use meshconf.Decoder.{RgbFrame}

-- `StatusInfo` of src/video_compositor.rs.
pub record StatusInfo : Type 0 where
  pub message : List ℕ
  pub copyable : Option (List ℕ)

-- Colours are left out.
pub data Draw : Type 0 where
  clear_screen : Draw
  clear_line : ℕ → Draw
  text : ℕ → ℕ → List ℕ → Draw
  delete_id : ℕ → Draw
  transmit : ℕ → RgbFrame → Draw
  place : ℕ → ℕ → ℕ → ℕ → ℕ → Draw
  banner : List ℕ → Draw

abbrev pub wrapped_line_count : List ℕ → ℕ → ℕ
wrapped_line_count [] width = 1
wrapped_line_count (c ∷ cs) width = if width == 0 then 1 else (length (c ∷ cs) + width - 1) / width

abbrev pub copyable_lines : Option (List ℕ) → ℕ → ℕ
copyable_lines none term_cols = 0
copyable_lines (some t) term_cols = wrapped_line_count t term_cols

abbrev pub total_rows : ℕ → ℕ
total_rows lines = if ltb 0 lines then 1 + 1 + lines else 1

unfoldable pub status_row_count : Option StatusInfo → ℕ → ℕ
status_row_count none term_cols = 0
status_row_count (some info) term_cols = total_rows (copyable_lines info.copyable term_cols)

-- The first row of a status of some rows.
abbrev pub top_row : ℕ → ℕ → ℕ
top_row anchor_row rows = anchor_row - (rows - 1) % 2 ^ 16

-- A row is a `u16`.
abbrev pub clear_rows : ℕ → ℕ → List Draw
clear_rows zero row = []
clear_rows (suc n) row = clear_line (row % 2 ^ 16) ∷ clear_rows n (row + 1)

abbrev pub draw_copyable : ℕ → Option (List ℕ) → List Draw
draw_copyable row none = []
draw_copyable row (some ticket) = text 0 (row % 2 ^ 16) ticket ∷ []

abbrev pub draw_info : ℕ → ℕ → Option StatusInfo → List Draw
draw_info term_cols anchor_row none = []
draw_info term_cols anchor_row (some info) =
    let top = top_row anchor_row (total_rows (copyable_lines info.copyable term_cols)) in
    clear_line top
    ∷ text ((term_cols - length info.message) / 2 % 2 ^ 16) top info.message
    ∷ draw_copyable (top + 2) info.copyable

unfoldable pub draw_status_text : Option StatusInfo → Option StatusInfo → ℕ → ℕ → List Draw
unfolding status_row_count
draw_status_text new_status old_status term_cols anchor_row =
    let old_row_count = status_row_count old_status term_cols in
    clear_rows old_row_count (top_row anchor_row old_row_count)
    ++ draw_info term_cols anchor_row new_status
