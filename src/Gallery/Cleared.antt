-- ===== src/Gallery/Cleared.antt =====
-- src/video_display_kitty.rs: a new status clears what the old one wrote.
use native.Mathlib.Nat.{mul-le-mul_right, le-div_iff_mul-le}
use meshconf.Prelude.{
  ℕ, zero, suc, ◌+◌, ◌-◌, ◌*◌, ◌/◌, ◌%◌, ◌^◌, ◌≤◌, ◌<◌, ◌≡◌, refl, ap, sym, ◌∙◌, Bool, true, false,
  ◌||◌, ◌&&◌, Option, none, some, List, [], ◌∷◌, ◌++◌, ◌==◌, ltb, leb, length, arith, Bool-cases,
  inl, inr,
}
use meshconf.Gallery.Status.{
  StatusInfo, Draw, clear_screen, clear_line, text, delete_id, transmit, place, banner,
  wrapped_line_count, copyable_lines, total_rows, status_row_count, top_row, clear_rows,
  draw_copyable, draw_info, draw_status_text,
}

-- Whether a row has characters of a text that starts in a row and a column and goes on in the next
-- row where the terminal ends.
abbrev pub spans : ℕ → ℕ → ℕ → ℕ → ℕ → Bool
spans term_cols col row len r = leb row r && ltb ((r - row) * term_cols) (col + len)

-- Whether commands write to a row, and whether they clear it before they write anything.
abbrev pub writes : ℕ → ℕ → List Draw → Bool
writes term_cols r [] = false
writes term_cols r (text col row cs ∷ ds) =
    spans term_cols col row (length cs) r || writes term_cols r ds
writes term_cols r (clear_screen ∷ ds) = writes term_cols r ds
writes term_cols r (clear_line row ∷ ds) = writes term_cols r ds
writes term_cols r (delete_id id ∷ ds) = writes term_cols r ds
writes term_cols r (transmit id f ∷ ds) = writes term_cols r ds
writes term_cols r (place id col row cols rows ∷ ds) = writes term_cols r ds
writes term_cols r (banner message ∷ ds) = writes term_cols r ds

abbrev pub clears : ℕ → List Draw → Bool
clears r [] = false
clears r (clear_line row ∷ ds) = (r == row) || clears r ds
clears r (clear_screen ∷ ds) = true
clears r (text col row cs ∷ ds) = false
clears r (delete_id id ∷ ds) = false
clears r (transmit id f ∷ ds) = false
clears r (place id col row cols rows ∷ ds) = false
clears r (banner message ∷ ds) = false

clears-clear_rows :
    (n row r : ℕ) (more : List Draw)
    → row + n ≤ 2 ^ 16
    → row ≤ r
    → r < row + n
    → clears r (clear_rows n row ++ more) ≡ true
clears-clear_rows zero row r more small low high = absurd (omega arith)
clears-clear_rows (suc n) row r more small low high = elim (Bool-cases (r == row)) [
  | inl e ↦ ground arith
  | inr e ↦ ground (arith, clears-clear_rows n (row + 1) r more)
]

-- A text of some lines does not go further than them.
spans_lines :
    (term_cols row r : ℕ) (cs : List ℕ)
    → 0 < term_cols
    → spans term_cols 0 row (length cs) r ≡ true
    → (row ≤ r) × (r < row + wrapped_line_count cs term_cols)
spans_lines term_cols row r [] pos h = absurd (ground arith)
spans_lines term_cols row r (c ∷ cs) pos h =
    let k : (r - row) * term_cols < length (c ∷ cs) = ground arith in
    let skip : (term_cols == 0) ≡ false = ground arith in
    let m : r - row + 1 ≤ (length (c ∷ cs) + term_cols - 1) / term_cols =
      (le-div_iff_mul-le pos).1 (omega (arith, k)) in
    (ground arith, rw skip (ground (arith, m)))

-- A message that is not wider than the terminal stands in one row.
spans_message :
    (term_cols row r len : ℕ)
    → len ≤ term_cols
    → spans term_cols ((term_cols - len) / 2 % 2 ^ 16) row len r ≡ true
    → r ≡ row
spans_message term_cols row r len fits h = elim (Bool-cases (ltb row r)) [
  | inl k ↦
      let m : 1 * term_cols ≤ (r - row) * term_cols = mul-le-mul_right term_cols (ground arith) in
      absurd (ground (arith, m))
  | inr k ↦ ground arith
]

lines_pos : (term_cols : ℕ) (cs : List ℕ) → 0 < term_cols → 0 < wrapped_line_count cs term_cols
lines_pos term_cols [] pos = omega arith
lines_pos term_cols (c ∷ cs) pos =
    let skip : (term_cols == 0) ≡ false = ground arith in
    let m : 1 ≤ (length (c ∷ cs) + term_cols - 1) / term_cols =
      (le-div_iff_mul-le pos).1 (omega arith) in
    rw skip m

first_true : (b : Bool) → (b || false) ≡ true → b ≡ true
first_true true h = refl
first_true false h = h

copyable_part :
    (term_cols top r : ℕ) (copyable : Option (List ℕ))
    → 0 < term_cols
    → let n = total_rows (copyable_lines copyable term_cols) in
      top + n ≤ 2 ^ 16
      → writes term_cols r (draw_copyable (top + 2) copyable) ≡ true
      → (top ≤ r) × (r < top + n)
copyable_part term_cols top r none pos small h = absurd (ground arith)
copyable_part term_cols top r (some ticket) pos small h =
    let lines : ℕ = wrapped_line_count ticket term_cols in
    let some_line : 0 < lines = lines_pos term_cols ticket pos in
    let total : total_rows lines ≡ 2 + lines = ground arith in
    let row : (top + 2) % 2 ^ 16 ≡ top + 2 = omega (arith, small, total) in
    let spanned : spans term_cols 0 (top + 2) (length ticket) r ≡ true =
      ap (λ k. spans term_cols 0 k (length ticket) r) (sym row) ∙ first_true _ h in
    let (low, high) = spans_lines term_cols (top + 2) r ticket pos spanned in
    (omega (arith, low), omega (arith, high, total))

second_true : (a b : Bool) → a ≡ false → (a || b) ≡ true → b ≡ true
second_true true b e h = absurd (ground arith)
second_true false b e h = h

total_rows_pos : (lines : ℕ) → 0 < total_rows lines
total_rows_pos lines = ground arith

-- The rows that a status writes to are those that it counts.
writes-draw_info :
    (term_cols anchor_row r : ℕ) (info : StatusInfo)
    → 0 < term_cols
    → length info.message ≤ term_cols
    → let n = status_row_count (some info) term_cols in
      top_row anchor_row n + n ≤ 2 ^ 16
      → writes term_cols r (draw_info term_cols anchor_row (some info)) ≡ true
      → (top_row anchor_row n ≤ r) × (r < top_row anchor_row n + n)
unfolding status_row_count
writes-draw_info term_cols anchor_row r info pos fits small h =
    let n : ℕ = total_rows (copyable_lines info.copyable term_cols) in
    let top : ℕ = top_row anchor_row n in
    let len : ℕ = length info.message in
    elim (Bool-cases (spans term_cols ((term_cols - len) / 2 % 2 ^ 16) top len r)) [
      | inl e ↦
          let q : r ≡ top = spans_message term_cols top r len fits e in
          (
            omega (arith, q),
            omega (arith, q, total_rows_pos (copyable_lines info.copyable term_cols)),
          )
      | inr e ↦ copyable_part term_cols top r info.copyable pos small (second_true _ _ e h)
    ]

-- Whatever status comes, or none, every row to which the old one wrote is cleared before anything is
-- written, in a terminal that is at least as wide as its message, with the status above row 2^16.
pub clears-draw_status_text :
    (term_cols anchor_row r : ℕ) (new_status : Option StatusInfo) (info : StatusInfo)
    → 0 < term_cols
    → length info.message ≤ term_cols
    → let n = status_row_count (some info) term_cols in
      top_row anchor_row n + n ≤ 2 ^ 16
      → writes term_cols r (draw_info term_cols anchor_row (some info)) ≡ true
      → clears r (draw_status_text new_status (some info) term_cols anchor_row) ≡ true
unfolding draw_status_text
clears-draw_status_text term_cols anchor_row r new_status info pos fits small h =
    let n : ℕ = status_row_count (some info) term_cols in
    let (low, high) = writes-draw_info term_cols anchor_row r info pos fits small h in
    clears-clear_rows n (top_row anchor_row n) r (draw_info term_cols anchor_row new_status) small
      low high
