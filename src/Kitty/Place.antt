-- ===== src/Kitty/Place.antt =====
-- src/kitty.rs and src/term.rs: where an image is displayed.
use meshconf.Prelude.{
  ℕ, ◌+◌, ◌-◌, ◌*◌, ◌/◌, ◌%◌, ◌^◌, ◌≤◌, ◌<◌, ◌≡◌, ◌≢◌, Bool, false, ◌||◌, Option, none, some, List,
  ◌++◌, ◌==◌, if◌then◌else◌, arith,
}
use meshconf.Kitty.{codes, Encodings}

pub record WinSize : Type 0 where
  pub cols : ℕ
  pub rows : ℕ
  pub x_pixel : ℕ
  pub y_pixel : ℕ

abbrev pub u16_mod : ℕ
u16_mod = 2 ^ 16

abbrev pub div_ceil : ℕ → ℕ → ℕ
div_ceil a b = (a + b - 1) / b

abbrev pub is_unusable : WinSize → Bool
is_unusable ws = ws.x_pixel == 0 || ws.y_pixel == 0 || (ws.cols == 0) || (ws.rows == 0)

abbrev pub cell_w : WinSize → ℕ
cell_w ws = ws.x_pixel / ws.cols

abbrev pub cell_h : WinSize → ℕ
cell_h ws = ws.y_pixel / ws.rows

-- The cell of an image of a size in pixels, in the middle of the terminal. `none` is a terminal that
-- does not tell its size.
unfoldable pub centered_position : ℕ → ℕ → Option WinSize → ℕ × ℕ
centered_position img_w img_h none = (0, 0)
centered_position img_w img_h (some ws) =
    if is_unusable ws then (0, 0) else if cell_w ws == 0 || (cell_h ws == 0) then (0, 0) else (
      (ws.cols - div_ceil img_w (cell_w ws)) / 2 % u16_mod,
      (ws.rows - div_ceil img_h (cell_h ws)) / 2 % u16_mod,
    )

-- What a terminal of 16-bit sizes tells.
pub record IsTerminal (ws : WinSize) : Type 0 where
  pub cols : ws.cols < 65536
  pub rows : ws.rows < 65536
  pub cell_w : cell_w ws ≢ 0
  pub cell_h : cell_h ws ≢ 0
  pub usable : is_unusable ws ≡ false

-- An offset leaves as much in front of an extent as behind it, up to one cell.
abbrev pub Centers : ℕ → ℕ → ℕ → Type 0
Centers offset extent whole =
    (offset + extent ≤ whole) × (whole ≤ offset * 2 + extent + 1) × (offset * 2 + extent ≤ whole)

half_Centers :
    (extent whole : ℕ)
    → whole < 65536
    → extent ≤ whole
    → Centers ((whole - extent) / 2 % 65536) extent whole
half_Centers extent whole small fits = omega arith

-- An image that the terminal has room for is displayed inside it, with margins that differ by at most
-- one cell in each direction.
pub centered_position-Centers :
    (img_w img_h : ℕ) (ws : WinSize)
    → IsTerminal ws
    → div_ceil img_w (cell_w ws) ≤ ws.cols
    → div_ceil img_h (cell_h ws) ≤ ws.rows
    → let (col, row) = centered_position img_w img_h (some ws) in
      Centers col (div_ceil img_w (cell_w ws)) ws.cols
      × Centers row (div_ceil img_h (cell_h ws)) ws.rows
unfolding centered_position
centered_position-Centers img_w img_h ws v fw fh =
    let a : (cell_w ws == 0) ≡ false = ground (arith, v.cell_w) in
    let b : (cell_h ws == 0) ≡ false = ground (arith, v.cell_h) in
    rw (v.usable, a, b) (half_Centers _ ws.cols v.cols fw, half_Centers _ ws.rows v.rows fh)

module _ (enc : Encodings) where
  open enc use {format}

  -- Rows and columns are counted from 1 there.
  pub move_to : ℕ → ℕ → List ℕ
  move_to col row =
      codes "\u{1b}["
      ++ (format ((row + 1) % u16_mod)
          ++ (codes ";" ++ (format ((col + 1) % u16_mod) ++ codes "H")))

  abbrev pub delete_placement : ℕ → List ℕ
  delete_placement id = codes "\u{1b}_Ga=d,d=i,i=" ++ (format id ++ codes ",q=2\u{1b}\\")

  abbrev pub put_image : ℕ → List ℕ
  put_image id = codes "\u{1b}_Ga=p,i=" ++ (format id ++ codes ",q=2\u{1b}\\")

  pub display_image_sized : ℕ → ℕ → ℕ → Option WinSize → List ℕ
  unfolding move_to
  display_image_sized id img_w img_h ws =
      let (col, row) = centered_position img_w img_h ws in
      delete_placement id ++ (move_to col row ++ put_image id)

  -- The size of a captured image.
  abbrev pub encode_width : ℕ
  encode_width = 640

  abbrev pub encode_height : ℕ
  encode_height = 480

  pub display_image : ℕ → Option WinSize → List ℕ
  unfolding display_image_sized
  display_image id ws = display_image_sized id encode_width encode_height ws

  pub display_image_at : ℕ → ℕ → ℕ → Option ℕ → Option ℕ → List ℕ
  unfolding move_to
  display_image_at id col row (some c) (some r) =
      move_to col row
      ++ (codes "\u{1b}_Ga=p,i="
          ++ (format id
              ++ (codes ",c="
                  ++ (format c ++ (codes ",r=" ++ (format r ++ codes ",q=2\u{1b}\\"))))))
  display_image_at id col row (some c) none = move_to col row ++ put_image id
  display_image_at id col row none fit_rows = move_to col row ++ put_image id

  pub delete_image : ℕ → List ℕ
  delete_image id = codes "\u{1b}_Ga=d,d=I,i=" ++ (format id ++ codes "\u{1b}\\")
