-- ===== src/Window/Pixels.antt =====
-- src/video_display_window.rs: drawing into a buffer of pixels, row by row. A colour is red, green and
-- blue in a number.
use meshconf.Prelude.{
  ℕ, zero, suc, ◌+◌, ◌-◌, ◌*◌, ◌/◌, ◌%◌, ◌^◌, Bool, true, false, ◌&&◌, Option, none, some, List, [],
  ◌∷◌, ◌++◌, ltb, leb, if◌then◌else◌, length, take, drop, u32_mod, and_then,
}
use meshconf.Kitty.{codes}
use meshconf.Decoder.{RgbFrame}
use meshconf.Compositor.{ConnectionKind, unknown, direct, relay, local, TileFrame}

-- `noto_sans_mono_bitmap`: the width of a character and the intensities of its pixels, in bold or not.
pub record Font : Type 0 where
  pub raster_width : Bool → ℕ
  pub raster : ℕ → Bool → Option (List (List ℕ))

-- `buf[i] = f(buf[i])`; nothing where there is no such pixel.
abbrev pub modify : ℕ → (ℕ → ℕ) → List ℕ → List ℕ
modify i f [] = []
modify zero f (p ∷ ps) = f p ∷ ps
modify (suc i) f (p ∷ ps) = p ∷ modify i f ps

-- `&xs[from..to]`.
abbrev pub slice : ℕ → ℕ → List ℕ → Option (List ℕ)
slice from n xs = if leb (from + n) (length xs) then some (take n (drop from xs)) else none

-- `buf[to..to + n].copy_from_slice(row)`, of a row of `n` pixels.
unfoldable pub copy_row : ℕ → List ℕ → List ℕ → Option (List ℕ)
copy_row to row buf =
    if leb (to + length row) (length buf)
    then some (take to buf ++ (row ++ drop (to + length row) buf))
    else none

-- The rows of a tile from the `dy`th on, of which there are `n`.
unfoldable pub blit_rows : ℕ → ℕ → ℕ → ℕ → ℕ → ℕ → List ℕ → List ℕ → Option (List ℕ)
unfolding copy_row
blit_rows zero dy buf_w x0 y0 tw data_ buf = some buf
blit_rows (suc n) dy buf_w x0 y0 tw data_ buf = and_then (slice (dy * tw) tw data_) (λ row.
    and_then (copy_row ((y0 + dy) * buf_w + x0) row buf)
      (blit_rows n (suc dy) buf_w x0 y0 tw data_))

unfoldable pub blit_tile : ℕ → ℕ → ℕ → RgbFrame → List ℕ → Option (List ℕ)
unfolding blit_rows
blit_tile buf_w x0 y0 f buf = blit_rows f.height 0 buf_w x0 y0 f.width f.pixels buf

-- A channel of a blended pixel, with the foreground's weight of 255.
abbrev pub mix : ℕ → ℕ → ℕ → ℕ
mix fg bg a = (fg * a + bg * (255 - a)) / 255

unfoldable pub blend_pixel : ℕ → ℕ → ℕ → ℕ
blend_pixel bg fg a =
    mix (fg / 2 ^ 16 % 256) (bg / 2 ^ 16 % 256) a * 2 ^ 16
    + mix (fg / 2 ^ 8 % 256) (bg / 2 ^ 8 % 256) a * 2 ^ 8
    + mix (fg % 256) (bg % 256) a

-- The distance of a pixel of the square around a circle from its middle, in one direction.
abbrev pub distance : ℕ → ℕ → ℕ
distance r d = (d - r) + (r - d)

abbrev pub in_circle : ℕ → ℕ → ℕ → Bool
in_circle r dx dy = leb (distance r dx * distance r dx + distance r dy * distance r dy) (r * r)

-- `buf[idx] = color`.
unfoldable pub set_pixel : ℕ → ℕ → List ℕ → Option (List ℕ)
set_pixel i color buf = if ltb i (length buf) then some (modify i (λ p. color) buf) else none

-- A pixel of the square, counted from its top left corner; it may lie outside of the buffer.
unfoldable pub circle_pixel : ℕ → ℕ → ℕ → ℕ → ℕ → ℕ → ℕ → ℕ → List ℕ → Option (List ℕ)
unfolding set_pixel
circle_pixel buf_w buf_h cx cy r color dx dy buf =
    if in_circle r dx dy
      && leb r (cx + dx)
      && leb r (cy + dy)
      && ltb (cx + dx - r) buf_w
      && ltb (cy + dy - r) buf_h
    then set_pixel (((cy + dy - r) * buf_w + (cx + dx - r)) % u32_mod) color buf
    else some buf

unfoldable pub circle_row : ℕ → ℕ → ℕ → ℕ → ℕ → ℕ → ℕ → ℕ → ℕ → List ℕ → Option (List ℕ)
unfolding circle_pixel
circle_row zero dx buf_w buf_h cx cy r color dy buf = some buf
circle_row (suc n) dx buf_w buf_h cx cy r color dy buf =
    and_then (circle_pixel buf_w buf_h cx cy r color dx dy buf)
      (circle_row n (suc dx) buf_w buf_h cx cy r color dy)

unfoldable pub circle_rows : ℕ → ℕ → ℕ → ℕ → ℕ → ℕ → ℕ → ℕ → List ℕ → Option (List ℕ)
unfolding circle_row
circle_rows zero dy buf_w buf_h cx cy r color buf = some buf
circle_rows (suc n) dy buf_w buf_h cx cy r color buf =
    and_then (circle_row (2 * r + 1) 0 buf_w buf_h cx cy r color dy buf)
      (circle_rows n (suc dy) buf_w buf_h cx cy r color)

unfoldable pub draw_filled_circle : ℕ → ℕ → ℕ → ℕ → ℕ → ℕ → List ℕ → Option (List ℕ)
unfolding circle_rows
draw_filled_circle buf_w buf_h cx cy radius color buf =
    circle_rows (2 * radius + 1) 0 buf_w buf_h cx cy radius color buf

-- A row of a character, from the column `px` on.
unfoldable pub draw_intensities : ℕ → ℕ → ℕ → ℕ → List ℕ → List ℕ → List ℕ
unfolding blend_pixel
draw_intensities buf_w color py px [] buf = buf
draw_intensities buf_w color py px (intensity ∷ row) buf =
    let buf1 =
      if ltb 0 intensity
      then modify ((py * buf_w + px) % u32_mod) (λ bg. blend_pixel bg color intensity) buf
      else buf in
    let rest = draw_intensities buf_w color py (px + 1) row buf1 in
    if ltb px buf_w then rest else buf

unfoldable pub draw_raster : ℕ → ℕ → ℕ → ℕ → ℕ → List (List ℕ) → List ℕ → List ℕ
unfolding draw_intensities
draw_raster buf_w buf_h color cx py [] buf = buf
draw_raster buf_w buf_h color cx py (row ∷ rows) buf =
    let rest =
      draw_raster buf_w buf_h color cx (py + 1) rows (draw_intensities buf_w color py cx row buf) in
    if ltb py buf_h then rest else buf

-- `tile.name`, or a question mark.
abbrev pub shown_name : List ℕ → List ℕ
shown_name [] = codes "?"
shown_name (c ∷ cs) = c ∷ cs

abbrev pub kind_str : ConnectionKind → List ℕ
kind_str local = codes "(you)"
kind_str direct = codes "(direct)"
kind_str relay = codes "(relay)"
kind_str unknown = codes "(…)"

abbrev pub kind_color : ConnectionKind → ℕ
kind_color local = 0x888888
kind_color direct = 0x44cc44
kind_color relay = 0xcccc44
kind_color unknown = 0x888888

abbrev pub name_color : ℕ
name_color = 0xffffff

module _ (font : Font) where
  abbrev pub draw_glyph : ℕ → ℕ → ℕ → ℕ → ℕ → Option (List (List ℕ)) → List ℕ → List ℕ
  draw_glyph buf_w buf_h color cx y none buf = buf
  draw_glyph buf_w buf_h color cx y (some rows) buf = draw_raster buf_w buf_h color cx y rows buf

  -- The position after the last character, and the buffer.
  unfoldable pub draw_text : ℕ → ℕ → ℕ → ℕ → List ℕ → ℕ → Bool → List ℕ → ℕ × List ℕ
  unfolding draw_raster
  draw_text buf_w buf_h x y [] color bold buf = (x, buf)
  draw_text buf_w buf_h x y (ch ∷ text) color bold buf =
      draw_text buf_w buf_h (x + font.raster_width bold) y text color bold
        (draw_glyph buf_w buf_h color x y (font.raster ch bold) buf)

  abbrev pub measure_text : List ℕ → ℕ
  measure_text text = length text * font.raster_width false

  -- The name is measured in the regular weight and drawn in bold.
  unfoldable pub draw_tile_label : ℕ → ℕ → ℕ → ℕ → ℕ → TileFrame → List ℕ → List ℕ
  unfolding draw_text
  draw_tile_label buf_w buf_h x0 y0 tile_w t buf =
      let name = shown_name t.name in
      let kind = kind_str t.conn_kind in
      let text_w = measure_text name + measure_text (32 ∷ []) + measure_text kind in
      let (x1, buf1) =
        draw_text buf_w buf_h (x0 + (tile_w - text_w) / 2) y0 name name_color true buf in
      let (x2, buf2) = draw_text buf_w buf_h x1 y0 (32 ∷ []) name_color false buf1 in
      let (x3, buf3) = draw_text buf_w buf_h x2 y0 kind (kind_color t.conn_kind) false buf2 in buf3
