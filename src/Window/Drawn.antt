-- ===== src/Window/Drawn.antt =====
-- src/video_display_window.rs: drawing keeps the size of the buffer.
use native.Mathlib.Nat.{mul-le-mul_right, mul_comm}
use meshconf.Prelude.{
  ℕ, zero, suc, ◌+◌, ◌-◌, ◌-◌, ◌*◌, ◌/◌, ◌%◌, ◌^◌, ◌≤◌, ◌<◌, ◌≡◌, refl, ap, ◌∙◌, Bool, true, false,
  ◌&&◌, Option, none, some, List, [], ◌∷◌, ltb, leb, if◌then◌else◌, get_elem?, length, arith,
  u32_mod, if_cases, and_then-IsSomeWith, IsSomeWith, IsSomeWith-map,
}
use meshconf.Compositor.{TileFrame}
use meshconf.Window.Pixels.{
  Font, modify, blend_pixel, set_pixel, in_circle, circle_pixel, circle_row, circle_rows,
  draw_filled_circle, draw_intensities, draw_raster, draw_glyph, shown_name, kind_str, kind_color,
  name_color, measure_text, draw_text, draw_tile_label, blit_tile,
}
use meshconf.Decoder.{RgbFrame}
use meshconf.Window.Blit.{IsBlitted, covers, blit_tile-IsBlitted}

abbrev pub HasSize : ℕ → List ℕ → Type 0
HasSize n buf = length buf ≡ n

length-modify : (i : ℕ) (f : ℕ → ℕ) (buf : List ℕ) → length (modify i f buf) ≡ length buf
length-modify i f [] = refl
length-modify zero f (p ∷ ps) = refl
length-modify (suc i) f (p ∷ ps) = ap suc (length-modify i f ps)

length-draw_intensities :
    (w color py px : ℕ) (row buf : List ℕ)
    → length (draw_intensities w color py px row buf) ≡ length buf
unfolding draw_intensities
length-draw_intensities w color py px [] buf = refl
length-draw_intensities w color py px (i ∷ row) buf =
    let drawn : List ℕ = modify ((py * w + px) % u32_mod) (λ bg. blend_pixel bg color i) buf in
    let buf1 : List ℕ = if ltb 0 i then drawn else buf in
    let same : length buf1 ≡ length buf =
      if_cases (HasSize (length buf)) (ltb 0 i) (λ e. length-modify _ _ buf) (λ e. refl) in
    if_cases (HasSize (length buf)) (ltb px w)
      (λ e. length-draw_intensities w color py (px + 1) row buf1 ∙ same) (λ e. refl)

length-draw_raster :
    (w h color cx py : ℕ) (rows : List (List ℕ)) (buf : List ℕ)
    → length (draw_raster w h color cx py rows buf) ≡ length buf
unfolding draw_raster
length-draw_raster w h color cx py [] buf = refl
length-draw_raster w h color cx py (row ∷ rows) buf =
    if_cases (HasSize (length buf)) (ltb py h)
      (λ e.
        length-draw_raster w h color cx (py + 1) rows (draw_intensities w color py cx row buf)
        ∙ length-draw_intensities w color py cx row buf)
      (λ e. refl)

-- A circle is drawn in a buffer of a width and a height, of fewer than 2^32 pixels.
module _ (w h : ℕ) (small : w * h < 2 ^ 32) where
  circle_pixel_fits :
      (cx cy r color dx dy : ℕ) (buf : List ℕ)
      → HasSize (w * h) buf
      → IsSomeWith (HasSize (w * h)) (circle_pixel w h cx cy r color dx dy buf)
  unfolding circle_pixel set_pixel
  circle_pixel_fits cx cy r color dx dy buf len =
      let x : ℕ = cx + dx - r in
      let y : ℕ = cy + dy - r in
      let place : ℕ = (y * w + x) % u32_mod in
      if_cases (IsSomeWith (HasSize (w * h)))
        (in_circle r dx dy && leb r (cx + dx) && leb r (cy + dy) && ltb x w && ltb y h)
        (λ e.
          let m : (y + 1) * w ≤ h * w = mul-le-mul_right w (ground arith) in
          let hx : x < w = ground arith in
          let inside : place < length buf = omega (arith, m, hx, len, small, mul_comm w h) in
          if_cases (IsSomeWith (HasSize (w * h))) (ltb place (length buf))
            (λ k. length-modify place (λ p. color) buf ∙ len) (λ k. absurd (ground arith)))
        (λ e. len)

  circle_row_fits :
      (n dx cx cy r color dy : ℕ) (buf : List ℕ)
      → HasSize (w * h) buf
      → IsSomeWith (HasSize (w * h)) (circle_row n dx w h cx cy r color dy buf)
  unfolding circle_row
  circle_row_fits zero dx cx cy r color dy buf len = len
  circle_row_fits (suc n) dx cx cy r color dy buf len =
      and_then-IsSomeWith (HasSize (w * h)) (HasSize (w * h))
        (circle_pixel w h cx cy r color dx dy buf) (circle_row n (suc dx) w h cx cy r color dy)
        (circle_pixel_fits cx cy r color dx dy buf len)
        (λ b k. circle_row_fits n (suc dx) cx cy r color dy b k)

  circle_rows_fits :
      (n dy cx cy r color : ℕ) (buf : List ℕ)
      → HasSize (w * h) buf
      → IsSomeWith (HasSize (w * h)) (circle_rows n dy w h cx cy r color buf)
  unfolding circle_rows
  circle_rows_fits zero dy cx cy r color buf len = len
  circle_rows_fits (suc n) dy cx cy r color buf len =
      and_then-IsSomeWith (HasSize (w * h)) (HasSize (w * h))
        (circle_row (2 * r + 1) 0 w h cx cy r color dy buf)
        (circle_rows n (suc dy) w h cx cy r color)
        (circle_row_fits (2 * r + 1) 0 cx cy r color dy buf len)
        (λ b k. circle_rows_fits n (suc dy) cx cy r color b k)

  pub draw_filled_circle_fits :
      (cx cy r color : ℕ) (buf : List ℕ)
      → HasSize (w * h) buf
      → IsSomeWith (HasSize (w * h)) (draw_filled_circle w h cx cy r color buf)
  unfolding draw_filled_circle
  draw_filled_circle_fits cx cy r color buf len =
      circle_rows_fits (2 * r + 1) 0 cx cy r color buf len

pub blit_tile_fits :
    (w x0 y0 n : ℕ) (f : RgbFrame) (buf : List ℕ)
    → 0 < w
    → x0 + f.width ≤ w
    → length f.pixels ≡ f.height * f.width
    → HasSize n buf
    → (y0 + f.height) * w ≤ n
    → IsSomeWith (HasSize n) (blit_tile w x0 y0 f buf)
blit_tile_fits w x0 y0 n f buf pos hx hd len room =
    IsSomeWith-map
      (IsBlitted (length buf) (0 * w + 0) buf (covers x0 f.width y0 (y0 + f.height) 0 0)
        (get_elem? f.pixels ((0 - y0) * f.width + (0 - x0))))
      (HasSize n) (blit_tile w x0 y0 f buf) (λ b k. k.0 ∙ len)
      (blit_tile-IsBlitted w x0 y0 0 0 f buf pos hx hd (omega (arith, len, room)))

module _ (font : Font) where
  length-draw_glyph :
      (w h color x y : ℕ) (rows : Option (List (List ℕ))) (buf : List ℕ)
      → length (draw_glyph font w h color x y rows buf) ≡ length buf
  length-draw_glyph w h color x y none buf = refl
  length-draw_glyph w h color x y (some rows) buf = length-draw_raster w h color x y rows buf

  length-draw_text :
      (w h x y : ℕ) (text : List ℕ) (color : ℕ) (bold : Bool) (buf : List ℕ)
      → length (draw_text font w h x y text color bold buf).1 ≡ length buf
  unfolding draw_text
  length-draw_text w h x y [] color bold buf = refl
  length-draw_text w h x y (ch ∷ text) color bold buf =
      length-draw_text w h (x + font.raster_width bold) y text color bold _
      ∙ length-draw_glyph w h color x y (font.raster ch bold) buf

  pub length-draw_tile_label :
      (w h x0 y0 tile_w : ℕ) (t : TileFrame) (buf : List ℕ)
      → length (draw_tile_label font w h x0 y0 tile_w t buf) ≡ length buf
  unfolding draw_tile_label
  length-draw_tile_label w h x0 y0 tile_w t buf =
      let name : List ℕ = shown_name t.name in
      let kind : List ℕ = kind_str t.conn_kind in
      let text_w : ℕ =
        measure_text font name + measure_text font (32 ∷ []) + measure_text font kind in
      let r1 : ℕ × List ℕ =
        draw_text font w h (x0 + (tile_w - text_w) / 2) y0 name name_color true buf in
      let r2 : ℕ × List ℕ = draw_text font w h r1.0 y0 (32 ∷ []) name_color false r1.1 in
      length-draw_text w h r2.0 y0 kind (kind_color t.conn_kind) false r2.1
      ∙ length-draw_text w h r1.0 y0 (32 ∷ []) name_color false r1.1
      ∙ length-draw_text w h (x0 + (tile_w - text_w) / 2) y0 name name_color true buf
