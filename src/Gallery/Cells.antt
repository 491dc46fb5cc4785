-- ===== src/Gallery/Cells.antt =====
-- src/video_display_kitty.rs: the cells of the gallery's tiles, their labels and their drop dots.
use meshconf.Prelude.{
  ℕ, zero, suc, ◌+◌, ◌-◌, ◌*◌, ◌/◌, ◌%◌, ◌^◌, Bool, true, false, not, ◌&&◌, Option, none, some,
  List, [], ◌∷◌, ◌++◌, ltb, ◌==◌, if◌then◌else◌, length, replicate, u32_mod,
}
use meshconf.Kitty.{codes}
use meshconf.Kitty.Place.{WinSize, div_ceil, cell_w, cell_h}
use meshconf.Decoder.Hevc.{same_bytes}
use meshconf.Compositor.{ConnectionKind, unknown, direct, relay, local, TileFrame, GalleryFrame}
use meshconf.Window.{max_width, max_height}
use meshconf.Window.Pixels.{shown_name, kind_str}
use meshconf.Gallery.Status.{Draw, clear_screen, text, delete_id}

abbrev pub max_tiles : ℕ
max_tiles = 9

abbrev pub cell_gap_cols : ℕ
cell_gap_cols = 1

abbrev pub cell_gap_rows : ℕ
cell_gap_rows = 1

abbrev pub delete_ids : ℕ → ℕ → List Draw
delete_ids zero id = []
delete_ids (suc n) id = delete_id id ∷ delete_ids n (id + 1)

abbrev pub clear_all_images : List Draw
clear_all_images = clear_screen ∷ delete_ids (max_tiles * 2 + 2) 1

pub record DrawnLabel : Type 0 where
  pub name : List ℕ
  pub conn_kind_tag : ℕ

pub record TileDropState : Type 0 where
  pub last_drop_count : ℕ
  pub last_drop_time : Option ℕ
  pub dot_drawn : Bool

abbrev pub conn_kind_tag : ConnectionKind → ℕ
conn_kind_tag unknown = 0
conn_kind_tag direct = 1
conn_kind_tag relay = 2
conn_kind_tag local = 3

-- The cells of a tile, without its label.
abbrev pub tile_cols : WinSize → GalleryFrame → ℕ
tile_cols ws g = div_ceil (max_width g.tiles) (cell_w ws)

abbrev pub tile_rows : WinSize → GalleryFrame → ℕ
tile_rows ws g = div_ceil (max_height g.tiles) (cell_h ws)

abbrev pub label_rows : ℕ
label_rows = 1

abbrev pub total_cols : WinSize → GalleryFrame → ℕ
total_cols ws g = (g.cols * tile_cols ws g + (g.cols - 1) * cell_gap_cols) % u32_mod

abbrev pub total_rows : WinSize → GalleryFrame → ℕ
total_rows ws g = (g.rows * (tile_rows ws g + label_rows) + (g.rows - 1) * cell_gap_rows) % u32_mod

-- The cell of a tile.
unfoldable pub tile_col : WinSize → GalleryFrame → TileFrame → ℕ
tile_col ws g t =
    ((ws.cols - total_cols ws g) / 2 + t.grid_col * (tile_cols ws g + cell_gap_cols)) % u32_mod

unfoldable pub tile_row : WinSize → GalleryFrame → TileFrame → ℕ
tile_row ws g t =
    ((ws.rows - total_rows ws g) / 2 + t.grid_row * (tile_rows ws g + label_rows + cell_gap_rows))
    % u32_mod

-- `resize` where the list is short, and an assignment.
abbrev pub set_at : {A : Type 0} → ℕ → A → A → List A → List A
set_at zero fill a [] = a ∷ []
set_at zero fill a (x ∷ xs) = a ∷ xs
set_at (suc i) fill a [] = fill ∷ set_at i fill a []
set_at (suc i) fill a (x ∷ xs) = x ∷ set_at i fill a xs

abbrev pub get_or : {A : Type 0} → A → Option A → A
get_or fill none = fill
get_or fill (some a) = a

abbrev pub same_label : DrawnLabel → Option DrawnLabel → Bool
same_label l none = false
same_label l (some m) = same_bytes l.name m.name && (l.conn_kind_tag == m.conn_kind_tag)

abbrev pub label_of : TileFrame → DrawnLabel
label_of t = record { name = t.name; conn_kind_tag = conn_kind_tag t.conn_kind }

abbrev pub label_text : ℕ → TileFrame → List ℕ
label_text cols t =
    let visible_len = length (shown_name t.name) + 1 + length (kind_str t.conn_kind) in
    shown_name t.name ++ (32 ∷ (kind_str t.conn_kind ++ (32 ∷ replicate (cols - visible_len) 32)))

abbrev pub new_drop_state : TileDropState
new_drop_state = record { last_drop_count = 0; last_drop_time = none; dot_drawn = false }

abbrev pub note_drops : ℕ → ℕ → TileDropState → TileDropState
note_drops now drops ds =
    if ltb ds.last_drop_count drops
    then record ds { last_drop_count = drops; last_drop_time = some now }
    else ds

abbrev pub dot_draws : ℕ → ℕ → Bool → List Draw
dot_draws col row shown =
    if ltb 0 row
    then text (col % 2 ^ 16) ((row - 1) % 2 ^ 16) (if shown then codes "●" else codes " ") ∷ []
    else []

abbrev pub same_flag : Bool → Bool → Bool
same_flag true b = b
same_flag false b = not b
