-- ===== src/Gallery.antt =====
-- src/video_display_kitty.rs: the gallery as images in a terminal. The commands that are written, in
-- order, stand for their escape sequences, which `Kitty` models.
pub mod Cells
pub mod Status
pub mod Cleared
pub mod Places
pub mod Tests
use meshconf.Prelude.{
  ℕ, zero, suc, ◌+◌, ◌-◌, ◌*◌, ◌/◌, ◌%◌, ◌^◌, Bool, true, false, not, ◌&&◌, ◌||◌, Option, none,
  some, List, [], ◌∷◌, ◌++◌, ltb, leb, ◌==◌, if◌then◌else◌, length, replicate, get_elem?, u32_mod,
}
use Prim.Native.String.{String}
use meshconf.Kitty.{codes}
use meshconf.Kitty.Place.{WinSize, div_ceil, cell_w, cell_h, is_unusable}
use meshconf.Decoder.Hevc.{same_bytes}
use meshconf.Compositor.{ConnectionKind, unknown, direct, relay, local, TileFrame, GalleryFrame}
use meshconf.Window.{max_width, max_height, show_dot}
use meshconf.Window.Pixels.{shown_name, kind_str}
use meshconf.Gallery.Status.{
  StatusInfo, Draw, clear_screen, text, delete_id, transmit, place, banner, draw_status_text,
}
use meshconf.Gallery.Cells.{
  max_tiles, cell_gap_cols, cell_gap_rows, delete_ids, clear_all_images, DrawnLabel, conn_kind_tag,
  TileDropState, tile_cols, tile_rows, label_rows, total_cols, total_rows, tile_col, tile_row,
  set_at, get_or, same_label, label_of, label_text, new_drop_state, note_drops, dot_draws,
  same_flag,
}

-- The variables of the loop, with what was written to the terminal.
pub record Display : Type 0 where
  pub back_toggle : List Bool
  pub last_tile_count : ℕ
  pub last_status_drawn : Option StatusInfo
  pub error_drawn : Bool
  pub last_gallery : Option GalleryFrame
  pub drawn_labels : List DrawnLabel
  pub tile_drop_states : List TileDropState
  pub draws : List Draw

abbrev pub write : List Draw → Display → Display
write ds s = record s { draws = s.draws ++ ds }

-- The label below a tile, where it is not the one that is drawn.
unfoldable pub draw_label : WinSize → GalleryFrame → ℕ → TileFrame → Display → Display
draw_label ws g i t s =
    if same_label (label_of t) (get_elem? s.drawn_labels i)
    then s
    else (let visible_len = length (shown_name t.name) + 1 + length (kind_str t.conn_kind) in
        let col = tile_col ws g t + (tile_cols ws g - visible_len) / 2 in
        let row = tile_row ws g t + tile_rows ws g in
        write (text (col % 2 ^ 16) (row % 2 ^ 16) (label_text (tile_cols ws g) t) ∷ []) (record s {
          drawn_labels =
              set_at i (record { name = []; conn_kind_tag = 0 }) (label_of t) s.drawn_labels;
        }))

-- The dot above a tile, where it comes or goes.
unfoldable pub draw_dot : WinSize → GalleryFrame → ℕ → ℕ → TileFrame → Display → Display
draw_dot ws g now i t s =
    let ds =
      note_drops now t.video_drops (get_or new_drop_state (get_elem? s.tile_drop_states i)) in
    let shown = show_dot now ds.last_drop_time in
    let s1 = record s {
      tile_drop_states =
          set_at i new_drop_state (record ds { dot_drawn = shown }) s.tile_drop_states;
    } in
    if same_flag shown ds.dot_drawn
    then s1
    else write (dot_draws (tile_col ws g t) (tile_row ws g t) shown) s1

-- The identifier of the buffer behind a slot.
abbrev pub back_id : ℕ → List Bool → ℕ
back_id slot toggle = if get_or false (get_elem? toggle slot) then slot * 2 + 2 else slot * 2 + 1

abbrev pub flip : ℕ → List Bool → List Bool
flip slot toggle = set_at slot false (not (get_or false (get_elem? toggle slot))) toggle

-- A tile; `sends` tells whether its image can be transmitted.
unfoldable pub render_tile :
    (ℕ → Bool) → WinSize → GalleryFrame → ℕ → ℕ → TileFrame → Display → Display
unfolding draw_label draw_dot
render_tile sends ws g now i t s =
    let id = back_id i s.back_toggle in
    let s1 = record s { back_toggle = flip i s.back_toggle } in
    if sends i
    then draw_dot ws g now i t (
        draw_label ws g i t (
          write
            (transmit id t.frame
              ∷ place id (tile_col ws g t % 2 ^ 16) (tile_row ws g t % 2 ^ 16) (tile_cols ws g)
                  (tile_rows ws g)
              ∷ [])
            s1))
    else s1

unfoldable pub render_tiles :
    (ℕ → Bool) → WinSize → GalleryFrame → ℕ → ℕ → List TileFrame → Display → Display
unfolding render_tile
render_tiles sends ws g now i [] s = s
render_tiles sends ws g now i (t ∷ ts) s =
    let rest = render_tiles sends ws g now (suc i) ts (render_tile sends ws g now i t s) in
    if leb max_tiles i then s else rest

abbrev pub same_copyable : Option (List ℕ) → Option (List ℕ) → Bool
same_copyable none none = true
same_copyable none (some b) = false
same_copyable (some a) none = false
same_copyable (some a) (some b) = same_bytes a b

abbrev pub same_status : Option StatusInfo → Option StatusInfo → Bool
same_status none none = true
same_status none (some b) = false
same_status (some a) none = false
same_status (some a) (some b) =
    same_bytes a.message b.message && same_copyable a.copyable b.copyable

-- The status, where it is not the one that is drawn.
unfoldable pub draw_status : WinSize → Option StatusInfo → Display → Display
draw_status ws status s =
    if same_status status s.last_status_drawn
    then s
    else write (draw_status_text status s.last_status_drawn ws.cols (ws.rows - 3))
        (record s { last_status_drawn = status })

-- What a turn meets: the terminal, whose size may be unknown, the clock, the images that can be
-- transmitted, the status and the camera's error, and whether the terminal was resized.
pub record Conditions : Type 0 where
  pub ws : Option WinSize
  pub now : ℕ
  pub sends : ℕ → Bool
  pub status : Option StatusInfo
  pub camera_error : Option (List ℕ)
  pub resized : Bool

unfoldable pub render_gallery : Conditions → Option WinSize → GalleryFrame → Display → Display
unfolding render_tiles draw_status
render_gallery cond none g s = s
render_gallery cond (some ws) g s =
    if is_unusable ws || (cell_w ws == 0) || (cell_h ws == 0)
    then s
    else draw_status ws cond.status (render_tiles cond.sends ws g cond.now 0 g.tiles s)

-- What is drawn anew, behind a cleared screen.
abbrev pub forget : Display → Display
forget s = write clear_all_images (record s {
  last_status_drawn = none;
  error_drawn = false;
  drawn_labels = [];
  tile_drop_states = [];
})

abbrev pub render_last : Conditions → Option GalleryFrame → Display → Display
render_last cond none s = s
render_last cond (some g) s = render_gallery cond cond.ws g s

unfoldable pub handle_resize : Conditions → Display → Display
unfolding render_gallery
handle_resize cond s = if cond.resized then render_last cond s.last_gallery (forget s) else s

abbrev pub show_error : Option (List ℕ) → Display → Display
show_error none s = s
show_error (some message) s =
    if s.error_drawn then s else write (banner message ∷ []) (record s { error_drawn = true })

-- An empty gallery; the status is taken for drawn also where the size is unknown.
unfoldable pub show_nothing : Conditions → Option WinSize → Display → Display
unfolding draw_status
show_nothing cond none s = record s { last_gallery = none; last_status_drawn = cond.status }
show_nothing cond (some ws) s = draw_status ws cond.status (record s { last_gallery = none })

unfoldable pub show_gallery : Conditions → GalleryFrame → Display → Display
unfolding show_nothing render_gallery
show_gallery cond g s =
    let s1 =
      if length g.tiles == s.last_tile_count
      then s
      else record (forget s) { last_tile_count = length g.tiles } in
    elim g.tiles [
      | [] ↦ show_nothing cond cond.ws s1
      | t ∷ ts ↦ record (render_gallery cond cond.ws g s1) { last_gallery = some g }
    ]

unfoldable pub turn : Conditions → GalleryFrame → Display → Display
unfolding handle_resize show_gallery
turn cond g s = show_gallery cond g (show_error cond.camera_error (handle_resize cond s))

-- The loop, up to its end, where all images are deleted.
unfoldable pub run : List (Conditions × GalleryFrame) → Display → Display
run [] s = write (delete_ids (max_tiles * 2 + 2) 1) s
run ((cond, g) ∷ ts) s = run ts (turn cond g s)

abbrev pub start : Display
start = record {
  back_toggle = replicate max_tiles false;
  last_tile_count = 0;
  last_status_drawn = none;
  error_drawn = false;
  last_gallery = none;
  drawn_labels = [];
  tile_drop_states = [];
  draws = [];
}
