-- ===== src/Tui.antt =====
-- src/tui.rs: wrapping and boxes. A text is its bytes, and where the code cuts one inside a character
-- it panics, `none`; on screen a byte is taken for a column, as the code takes it.
pub mod Wrap
pub mod Box
pub mod Banner
pub mod Words
pub mod Break
pub mod LogBuffer
pub mod Tests
use meshconf.Prelude.{
  ℕ, zero, suc, ◌+◌, ◌-◌, ◌/◌, ◌%◌, ◌^◌, Bool, true, false, ◌&&◌, Option, none, some, List, [], ◌∷◌,
  ◌++◌, ltb, leb, ◌==◌, if◌then◌else◌, length, take, drop, replicate, min, max,
}

-- Whether a text starts at a character: its first byte does not continue one.
abbrev pub is_char_start : List ℕ → Bool
is_char_start [] = true
is_char_start (b ∷ bs) = if leb 128 b then leb 192 b else true

abbrev pub cons_line : List ℕ → Option (List (List ℕ)) → Option (List (List ℕ))
cons_line line none = none
cons_line line (some lines) = some (line ∷ lines)

-- The loop of `wrap_line`, for a width that is not 0: each turn takes bytes away.
pub wrap_loop : ℕ → ℕ → List ℕ → Option (List (List ℕ))
wrap_loop zero width s = none
wrap_loop (suc fuel) width s =
    let rest = cons_line (take width s) (wrap_loop fuel width (drop width s)) in
    if ltb width (length s)
    then if is_char_start (drop width s) then rest else none
    else some (s ∷ [])

unfoldable pub wrap_line : ℕ → List ℕ → Option (List (List ℕ))
unfolding wrap_loop
wrap_line width s = if width == 0 then some (s ∷ []) else wrap_loop (suc (length s)) width s

abbrev pub append_lines : Option (List (List ℕ)) → Option (List (List ℕ)) → Option (List (List ℕ))
append_lines none more = none
append_lines (some lines) none = none
append_lines (some lines) (some more) = some (lines ++ more)

unfoldable pub wrap_all : ℕ → List (List ℕ) → Option (List (List ℕ))
unfolding wrap_line
wrap_all max_content_w [] = some []
wrap_all max_content_w (line ∷ lines) =
    append_lines
      (if ltb max_content_w (length line) then wrap_line max_content_w line else some (line ∷ []))
      (wrap_all max_content_w lines)

abbrev pub max_length : List (List ℕ) → ℕ
max_length [] = 0
max_length (l ∷ ls) = max (length l) (max_length ls)

-- The width of what stands in the box.
unfoldable pub content_width : ℕ → List ℕ → List (List ℕ) → ℕ
content_width term_w title lines = min (max (max (max_length lines) (length title)) 20) (term_w - 8)

-- A text at a cell.
pub record Placed : Type 0 where
  pub col : ℕ
  pub row : ℕ
  pub text : List ℕ

abbrev pub space : ℕ
space = 32

abbrev pub horizontal : ℕ
horizontal = 0x2500

abbrev pub vertical : ℕ
vertical = 0x2502

-- `{:<width$}`.
abbrev pub pad_right : ℕ → List ℕ → List ℕ
pad_right width line = line ++ replicate (width - length line) space

abbrev pub border : ℕ → ℕ → ℕ → List ℕ
border left right content_w = left ∷ (replicate (content_w + 4 - 2) horizontal ++ (right ∷ []))

abbrev pub title_row : ℕ → List ℕ → List ℕ
title_row box_w title =
    let title_pad = (box_w - 2 - length title) / 2 in
    vertical
    ∷ (replicate title_pad space
        ++ (title ++ (replicate (box_w - 2 - title_pad - length title) space ++ (vertical ∷ []))))

abbrev pub content_row : ℕ → List ℕ → List ℕ
content_row content_w line =
    vertical ∷ space ∷ (pad_right content_w line ++ (space ∷ vertical ∷ []))

abbrev pub content_rows : ℕ → List (List ℕ) → List (List ℕ)
content_rows content_w [] = []
content_rows content_w (line ∷ lines) = content_row content_w line ∷ content_rows content_w lines

abbrev pub place_rows : ℕ → ℕ → List (List ℕ) → List Placed
place_rows col row [] = []
place_rows col row (text ∷ texts) =
    record { col = col % 2 ^ 16; row = row % 2 ^ 16; text = text } ∷ place_rows col (row + 1) texts

-- The rows of a box, from its top border on.
abbrev pub box_rows : ℕ → List ℕ → List (List ℕ) → List (List ℕ)
box_rows content_w title lines =
    border 0x256d 0x256e content_w
    ∷ title_row (content_w + 4) title
    ∷ border 0x251c 0x2524 content_w
    ∷ (content_rows content_w lines ++ (border 0x2570 0x256f content_w ∷ []))

-- A box with a title in the middle of a line, from a row on. A title that is longer than the box is
-- wide makes a subtraction underflow, which is a panic.
unfoldable pub draw_box : ℕ → ℕ → List ℕ → List (List ℕ) → Option (List Placed)
unfolding content_width
draw_box term_w start_row title lines =
    let content_w = content_width term_w title lines in
    if ltb (content_w + 4 - 2) (length title)
    then none
    else some
        (place_rows ((term_w - (content_w + 4)) / 2) start_row (box_rows content_w title lines))

pub draw_wrapped : ℕ → ℕ → List ℕ → Option (List (List ℕ)) → Option (List Placed)
unfolding draw_box
draw_wrapped term_w term_h title none = none
draw_wrapped term_w term_h title (some wrapped) =
    draw_box term_w ((term_h - (length wrapped + 4)) / 2) title wrapped

unfoldable pub draw_centered_box : ℕ → ℕ → List ℕ → List (List ℕ) → Option (List Placed)
unfolding wrap_all draw_wrapped
draw_centered_box term_w term_h title lines =
    draw_wrapped term_w term_h title (wrap_all (term_w - 8) lines)

abbrev pub with_copyable : ℕ → List ℕ → Option (List Placed) → Option (List Placed)
with_copyable copy_row copyable none = none
with_copyable copy_row copyable (some rows) =
    some (rows ++ (record { col = 0; row = copy_row % 2 ^ 16; text = copyable } ∷ []))

-- The lines are not wrapped, and below the box stands a text from the first column on.
unfoldable pub draw_centered_box_with_copyable :
    ℕ → ℕ → List ℕ → List (List ℕ) → List ℕ → Option (List Placed)
unfolding draw_box
draw_centered_box_with_copyable term_w term_h title lines copyable =
    let start_row = (term_h - (length lines + 4 + 2)) / 2 in
    let bottom_row = start_row + 3 + length lines in
    with_copyable (bottom_row + 2) copyable (draw_box term_w start_row title lines)

-- The text on the last row.
pub draw_status : ℕ → List ℕ → Placed
draw_status rows text = record { col = 0; row = rows - 1; text = text }
