-- ===== src/Tui/LogBuffer.antt =====
-- src/tui.rs: the buffer of log lines, and the pane that shows its end.
use meshconf.Prelude.{
  and_then, ℕ, ◌+◌, ◌-◌, ◌%◌, ◌^◌, ◌≤◌, ◌≡◌, Option, none, some, List, [], ◌∷◌, ◌++◌, ltb, leb,
  if◌then◌else◌, length, take, drop, min,
}
use meshconf.Tui.{Placed}

pub record LogBuffer : Type 0 where
  pub lines : List (List ℕ)
  pub capacity : ℕ

abbrev pub LogBuffer_new : ℕ → LogBuffer
LogBuffer_new capacity = record { lines = []; capacity = capacity }

-- `Vec::remove(0)`, which panics on an empty vector.
abbrev pub remove_first : List (List ℕ) → Option (List (List ℕ))
remove_first [] = none
remove_first (l ∷ ls) = some ls

abbrev pub with_line : LogBuffer → List ℕ → Option (List (List ℕ)) → Option LogBuffer
with_line b line none = none
with_line b line (some ls) = some (record b { lines = ls ++ (line ∷ []) })

unfoldable pub push : List ℕ → LogBuffer → Option LogBuffer
push line b =
    with_line b line
      (if leb b.capacity (length b.lines) then remove_first b.lines else some b.lines)

unfoldable pub push_all : List (List ℕ) → LogBuffer → Option LogBuffer
unfolding push
push_all [] b = some b
push_all (line ∷ lines) b = and_then (push line b) (push_all lines)

abbrev pub display_lines : ℕ → List (List ℕ) → List (List ℕ)
display_lines max_lines lines =
    if ltb max_lines (length lines) then drop (length lines - max_lines) lines else lines

abbrev pub place_log : ℕ → ℕ → List (List ℕ) → List Placed
place_log term_w row [] = []
place_log term_w row (line ∷ lines) =
    record { col = 0; row = row % 2 ^ 16; text = take term_w line }
    ∷ place_log term_w (row + 1) lines

-- The pane above the status line of a terminal.
unfoldable pub draw_log_pane : ℕ → ℕ → ℕ → LogBuffer → List Placed
draw_log_pane term_w rows max_lines b =
    place_log term_w (rows - (max_lines + 1)) (display_lines max_lines b.lines)

-- The buffer that has the end of what was pushed.
abbrev pub HasLast : ℕ → List (List ℕ) → Option LogBuffer → Type 0
HasLast capacity pushed none = ⊥
HasLast capacity pushed (some b) =
    (b.lines ≡ drop (length pushed - capacity) pushed) × (b.capacity ≡ capacity)

-- The texts of a pane.
abbrev pub shown : List Placed → List (List ℕ)
shown [] = []
shown (p ∷ ps) = p.text ∷ shown ps

abbrev pub cut : ℕ → List (List ℕ) → List (List ℕ)
cut term_w [] = []
cut term_w (l ∷ ls) = take term_w l ∷ cut term_w ls

-- What the pane shows of a buffer that lines were pushed to.
abbrev pub ShowsLast : ℕ → ℕ → ℕ → ℕ → List (List ℕ) → Option LogBuffer → Type 0
ShowsLast term_w rows max_lines capacity lines none = ⊥
ShowsLast term_w rows max_lines capacity lines (some b) =
    (length b.lines ≤ capacity)
    × (shown (draw_log_pane term_w rows max_lines b)
        ≡ cut term_w (drop (length lines - min capacity max_lines) lines))
