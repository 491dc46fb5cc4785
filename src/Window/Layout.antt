-- ===== src/Window/Layout.antt =====
-- src/video_display_window.rs: where tiles stand in the window.
use native.Mathlib.Nat.{mul-le-mul_right, le-mul_of_pos_right, mul_comm}
use meshconf.Prelude.{
  ℕ, ◌+◌, ◌-◌, ◌*◌, ◌≤◌, ◌<◌, ◌≡◌, List, [], ◌∷◌, length, All, All-map, arith, ◌^◌,
}
use meshconf.Compositor.{TileFrame, GalleryFrame}
use meshconf.Window.{
  tile_gap, outer_pad, label_height, max_width, max_height, out_w, out_h, tile_x, tile_y,
}

-- The size of the window without wrapping.
abbrev pub full_w : GalleryFrame → ℕ
full_w g = 2 * outer_pad + g.cols * max_width g.tiles + (g.cols - 1) * tile_gap

abbrev pub full_h : GalleryFrame → ℕ
full_h g = 2 * outer_pad + g.rows * (max_height g.tiles + label_height) + (g.rows - 1) * tile_gap

-- A tile in the grid, with its pixels.
abbrev pub IsWhole : GalleryFrame → TileFrame → Type 0
IsWhole g t =
    (t.grid_col < g.cols)
    × (t.grid_row < g.rows)
    × (length t.frame.pixels ≡ t.frame.height * t.frame.width)

-- A gallery whose window has fewer than 2^32 pixels.
pub record IsLaidOut (g : GalleryFrame) : Type 0 where
  pub tiles : All (IsWhole g) g.tiles
  pub size : full_w g * full_h g < 2 ^ 32

-- A tile for which there is room in the window.
abbrev pub IsPlaced : GalleryFrame → TileFrame → Type 0
IsPlaced g t =
    (tile_x g t + t.frame.width ≤ out_w g)
    × (tile_y g t + t.frame.height ≤ out_h g)
    × (length t.frame.pixels ≡ t.frame.height * t.frame.width)

pub sizes :
    (g : GalleryFrame) → full_w g * full_h g < 2 ^ 32 → (out_w g ≡ full_w g) × (out_h g ≡ full_h g)
sizes g h =
    let a : full_w g ≤ full_w g * full_h g = le-mul_of_pos_right (full_w g) (omega arith) in
    let b : full_h g ≤ full_h g * full_w g = le-mul_of_pos_right (full_h g) (omega arith) in
    (omega (arith, a), omega (arith, b, mul_comm (full_w g) (full_h g)))

-- The place of the `c`th of some tiles, of a size and with gaps.
place_fits : (c cols tw gap : ℕ) → c < cols → c * (tw + gap) + tw ≤ cols * tw + (cols - 1) * gap
place_fits c cols tw gap h =
    let a : (c + 1) * tw ≤ cols * tw = mul-le-mul_right tw (omega arith) in
    let b : c * gap ≤ (cols - 1) * gap = mul-le-mul_right gap (omega arith) in omega (arith, a, b)

tile_IsPlaced :
    (g : GalleryFrame) (t : TileFrame)
    → full_w g * full_h g < 2 ^ 32
    → t.frame.width ≤ max_width g.tiles
    → t.frame.height ≤ max_height g.tiles
    → IsWhole g t
    → IsPlaced g t
tile_IsPlaced g t small hw hh v =
    let (ew, eh) = sizes g small in
    let a : t.grid_col * (max_width g.tiles + tile_gap) + max_width g.tiles
        ≤ g.cols * max_width g.tiles + (g.cols - 1) * tile_gap =
      place_fits t.grid_col g.cols (max_width g.tiles) tile_gap v.0 in
    let b : t.grid_row * (max_height g.tiles + label_height + tile_gap)
          + (max_height g.tiles + label_height)
        ≤ g.rows * (max_height g.tiles + label_height) + (g.rows - 1) * tile_gap =
      place_fits t.grid_row g.rows (max_height g.tiles + label_height) tile_gap v.1 in
    (omega (arith, a, ew, hw), omega (arith, b, eh, hh), v.2)

max_bounds :
    (ts : List TileFrame)
    → All (λ t. (t.frame.width ≤ max_width ts) × (t.frame.height ≤ max_height ts)) ts
max_bounds [] = tt
max_bounds (t ∷ ts) = (
  (omega arith, omega arith),
  All-map _ _ ts (λ u h. (omega (arith, h.0), omega (arith, h.1))) (max_bounds ts),
)

All-both :
    (P Q : TileFrame → Type 0) (ts : List TileFrame) → All P ts → All Q ts → All (λ t. P t × Q t) ts
All-both P Q [] h k = tt
All-both P Q (t ∷ ts) h k = ((h.0, k.0), All-both P Q ts h.1 k.1)

-- Each tile of a gallery has its place in the window.
pub tiles-IsPlaced : (g : GalleryFrame) → IsLaidOut g → All (IsPlaced g) g.tiles
tiles-IsPlaced g v =
    All-map _ _ g.tiles (λ t h. tile_IsPlaced g t v.size h.0.0 h.0.1 h.1)
      (All-both _ (IsWhole g) g.tiles (max_bounds g.tiles) v.tiles)
