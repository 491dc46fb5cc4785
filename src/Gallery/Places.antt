-- ===== src/Gallery/Places.antt =====
-- src/video_display_kitty.rs: the cells of the tiles.
use native.Mathlib.Nat.{mul-le-mul_right}
use meshconf.Prelude.{
  ℕ, ◌+◌, ◌-◌, ◌*◌, ◌/◌, ◌%◌, ◌^◌, ◌≤◌, ◌<◌, ◌≡◌, ◌≢◌, ◌⊎◌, inl, inr, arith, u32_mod, Bool-cases,
  ltb,
}
use meshconf.Compositor.{TileFrame, GalleryFrame}
use meshconf.Kitty.Place.{WinSize}
use meshconf.Gallery.Cells.{
  tile_cols, tile_rows, label_rows, cell_gap_cols, cell_gap_rows, tile_col, tile_row,
}

-- The size of a gallery in cells, without wrapping.
abbrev pub whole_cols : WinSize → GalleryFrame → ℕ
whole_cols ws g = g.cols * tile_cols ws g + (g.cols - 1) * cell_gap_cols

abbrev pub whole_rows : WinSize → GalleryFrame → ℕ
whole_rows ws g = g.rows * (tile_rows ws g + label_rows) + (g.rows - 1) * cell_gap_rows

-- A tile of the grid.
abbrev pub InGrid : GalleryFrame → TileFrame → Type 0
InGrid g t = (t.grid_col < g.cols) × (t.grid_row < g.rows)

-- The picture of a tile, and the row below it, inside of the terminal.
abbrev pub IsVisible : WinSize → GalleryFrame → TileFrame → Type 0
IsVisible ws g t =
    (tile_col ws g t + tile_cols ws g ≤ ws.cols)
    × (tile_row ws g t + tile_rows ws g + label_rows ≤ ws.rows)

-- One extent behind another.
abbrev pub Apart : ℕ → ℕ → ℕ → Type 0
Apart a b n = (a + n ≤ b) ⊎ (b + n ≤ a)

-- Two tiles whose pictures, each with the row below it, share no cell.
abbrev pub AreApart : WinSize → GalleryFrame → TileFrame → TileFrame → Type 0
AreApart ws g t u =
    Apart (tile_col ws g t) (tile_col ws g u) (tile_cols ws g)
    ⊎ Apart (tile_row ws g t) (tile_row ws g u) (tile_rows ws g + label_rows)

-- The `c`th of some extents with gaps of one cell, in the middle of a whole.
abbrev offset : ℕ → ℕ → ℕ → ℕ → ℕ
offset whole n extent c = (whole - (n * extent + (n - 1) * 1) % u32_mod) / 2 + c * (extent + 1)

offset_fits :
    (whole n extent c : ℕ)
    → whole < 2 ^ 16
    → n * extent + (n - 1) * 1 ≤ whole
    → c < n
    → (offset whole n extent c % u32_mod ≡ offset whole n extent c)
      × (offset whole n extent c + extent ≤ whole)
offset_fits whole n extent c small fits h =
    let a : (c + 1) * extent ≤ n * extent = mul-le-mul_right extent (omega arith) in
    (omega (arith, a), omega (arith, a))

offset_apart :
    (whole n extent c d : ℕ) → c < d → offset whole n extent c + extent ≤ offset whole n extent d
offset_apart whole n extent c d h =
    let a : (c + 1) * (extent + 1) ≤ d * (extent + 1) =
      mul-le-mul_right (extent + 1) (omega arith) in
    omega (arith, a)

offsets_Apart :
    (whole n extent c d : ℕ)
    → whole < 2 ^ 16
    → n * extent + (n - 1) * 1 ≤ whole
    → c < n
    → d < n
    → c ≢ d
    → Apart (offset whole n extent c % u32_mod) (offset whole n extent d % u32_mod) extent
offsets_Apart whole n extent c d small fits hc hd ne =
    let (ec, fc) = offset_fits whole n extent c small fits hc in
    let (ed, fd) = offset_fits whole n extent d small fits hd in
    elim (Bool-cases (ltb c d)) [
      | inl k ↦ inl (omega (arith, ec, ed, offset_apart whole n extent c d (ground arith)))
      | inr k ↦ inr (omega (arith, ec, ed, offset_apart whole n extent d c (ground arith)))
    ]

-- In a terminal that has room for the gallery, the picture of every tile of the grid is inside of it,
-- with the row below it, and two pictures at different places of the grid, each with the row below it
-- as wide as the picture, share no cell. The text of a label may be wider than its picture.
pub tiles-AreApart :
    (ws : WinSize) (g : GalleryFrame) (t u : TileFrame)
    → ws.cols < 2 ^ 16
    → ws.rows < 2 ^ 16
    → whole_cols ws g ≤ ws.cols
    → whole_rows ws g ≤ ws.rows
    → InGrid g t
    → InGrid g u
    → (t.grid_col ≢ u.grid_col) ⊎ (t.grid_row ≢ u.grid_row)
    → IsVisible ws g t × AreApart ws g t u
unfolding tile_col tile_row
tiles-AreApart ws g t u sc sr fc fr (ct, rt) (cu, ru) ne =
    let rows : ℕ = tile_rows ws g + label_rows in
    let (ec, vc) = offset_fits ws.cols g.cols (tile_cols ws g) t.grid_col sc fc ct in
    let (er, vr) = offset_fits ws.rows g.rows rows t.grid_row sr fr rt in
    (
      (omega (arith, ec, vc), omega (arith, er, vr)),
      elim ne [
        | inl n ↦
            inl (offsets_Apart ws.cols g.cols (tile_cols ws g) t.grid_col u.grid_col sc fc ct cu n)
        | inr n ↦ inr (offsets_Apart ws.rows g.rows rows t.grid_row u.grid_row sr fr rt ru n)
      ],
    )
