-- ===== src/Window.antt =====
-- src/video_display_window.rs: the gallery as the pixels of a window. The font and the window are
-- parameters; where the code would index out of a buffer, it panics, `none`.
pub mod Rows
pub mod Pixels
pub mod Blit
pub mod Blend
pub mod Layout
pub mod Drawn
pub mod Safe
pub mod Tests
use meshconf.Prelude.{
  ℕ, zero, suc, ◌+◌, ◌-◌, ◌*◌, ◌/◌, ◌%◌, ◌^◌, Bool, true, false, not, ◌&&◌, Option, none, some,
  List, [], ◌∷◌, ◌++◌, ltb, leb, ◌==◌, if◌then◌else◌, length, take, drop, replicate, max, u32_mod,
  and_then,
}
use meshconf.Compositor.{ConnectionKind, TileFrame, GalleryFrame}
use meshconf.Window.Pixels.{Font, blit_tile, draw_filled_circle, draw_tile_label}

abbrev pub tile_gap : ℕ
tile_gap = 20

abbrev pub outer_pad : ℕ
outer_pad = 16

abbrev pub label_height : ℕ
label_height = 32

abbrev pub label_y_offset : ℕ
label_y_offset = 4

abbrev pub bg_color : ℕ
bg_color = 0x181818

-- In microseconds.
abbrev pub drop_dot_duration : ℕ
drop_dot_duration = 1_000_000

abbrev pub drop_dot_radius : ℕ
drop_dot_radius = 5

abbrev pub drop_dot_color : ℕ
drop_dot_color = 0xff3333

pub record TileDropState : Type 0 where
  pub last_drop_count : ℕ
  pub last_drop_time : Option ℕ

abbrev pub new_drop_state : TileDropState
new_drop_state = record { last_drop_count = 0; last_drop_time = none }

-- The size of the places of tiles: the largest of the tiles.
abbrev pub max_width : List TileFrame → ℕ
max_width [] = 0
max_width (t ∷ ts) = max t.frame.width (max_width ts)

abbrev pub max_height : List TileFrame → ℕ
max_height [] = 0
max_height (t ∷ ts) = max t.frame.height (max_height ts)

-- The size of the window, which wraps.
abbrev pub out_w : GalleryFrame → ℕ
out_w g = (2 * outer_pad + g.cols * max_width g.tiles + (g.cols - 1) * tile_gap) % u32_mod

abbrev pub out_h : GalleryFrame → ℕ
out_h g =
    (2 * outer_pad + g.rows * (max_height g.tiles + label_height) + (g.rows - 1) * tile_gap)
    % u32_mod

-- The place of a tile.
abbrev pub tile_x : GalleryFrame → TileFrame → ℕ
tile_x g t = (outer_pad + t.grid_col * (max_width g.tiles + tile_gap)) % u32_mod

abbrev pub tile_y : GalleryFrame → TileFrame → ℕ
tile_y g t = (outer_pad + t.grid_row * (max_height g.tiles + label_height + tile_gap)) % u32_mod

-- Whether a drop is new, at the time `now`.
abbrev pub note_drops : ℕ → ℕ → TileDropState → TileDropState
note_drops now video_drops ds =
    if ltb ds.last_drop_count video_drops
    then record { last_drop_count = video_drops; last_drop_time = some now }
    else ds

abbrev pub show_dot : ℕ → Option ℕ → Bool
show_dot now none = false
show_dot now (some t) = ltb (now - t) drop_dot_duration

-- The states of the tiles, of which there are enough.
abbrev pub note_all : ℕ → List TileFrame → List TileDropState → List TileDropState
note_all now [] ds = ds
note_all now (t ∷ ts) [] = note_drops now t.video_drops new_drop_state ∷ note_all now ts []
note_all now (t ∷ ts) (d ∷ ds) = note_drops now t.video_drops d ∷ note_all now ts ds

module _ (font : Font) where
  unfoldable pub draw_dot : Bool → GalleryFrame → TileFrame → List ℕ → Option (List ℕ)
  draw_dot shown g t buf =
      if shown
      then draw_filled_circle (out_w g) (out_h g) (tile_x g t + drop_dot_radius + 4)
          (tile_y g t + drop_dot_radius + 4) drop_dot_radius drop_dot_color buf
      else some buf

  unfoldable pub draw_tile : Bool → GalleryFrame → TileFrame → List ℕ → Option (List ℕ)
  unfolding draw_dot
  draw_tile shown g t buf =
      and_then (blit_tile (out_w g) (tile_x g t) (tile_y g t) t.frame buf) (λ blitted.
        and_then (draw_dot shown g t blitted) (λ dotted. some (
          draw_tile_label font (out_w g) (out_h g) (tile_x g t)
            ((tile_y g t + t.frame.height + label_y_offset) % u32_mod) (max_width g.tiles) t
            dotted)))

  -- The tiles in order, each with its state.
  unfoldable pub draw_tiles :
      ℕ → GalleryFrame → List TileFrame → List TileDropState → List ℕ → Option (List ℕ)
  unfolding draw_tile
  draw_tiles now g [] ds buf = some buf
  draw_tiles now g (t ∷ ts) [] buf = none
  draw_tiles now g (t ∷ ts) (d ∷ ds) buf =
      and_then (draw_tile (show_dot now d.last_drop_time) g t buf) (draw_tiles now g ts ds)

  -- What happens in a turn: the clock, whether the window is still open and Escape not pressed,
  -- whether a window can be made and whether it takes the pixels.
  pub record Conditions : Type 0 where
    pub now : ℕ
    pub is_open : Bool
    pub creates : Bool
    pub updates : Bool

  -- The variables of the loop, with the pixels that the window was given, newest first.
  pub record WindowLoop : Type 0 where
    pub has_window : Bool
    pub cur_w : ℕ
    pub cur_h : ℕ
    pub pixel_buf : List ℕ
    pub drop_states : List TileDropState
    pub presented : List (List ℕ)
    pub cancelled : Bool
    pub ended : Bool

  unfoldable pub fit_window : Bool → GalleryFrame → WindowLoop → WindowLoop
  fit_window creates g s =
      if s.has_window && (out_w g == s.cur_w) && (out_h g == s.cur_h)
      then s
      else if creates
      then record s {
        has_window = true;
        cur_w = out_w g;
        cur_h = out_h g;
        pixel_buf = replicate (out_w g * out_h g % u32_mod) bg_color;
      }
      else record s { ended = true }

  abbrev pub present : Bool → WindowLoop → List ℕ → Option WindowLoop
  present updates s buf =
      let s1 = record s { pixel_buf = buf } in
      some (
        if updates then record s1 { presented = buf ∷ s.presented } else record s1 { ended = true })

  unfoldable pub draw_gallery : Conditions → GalleryFrame → WindowLoop → Option WindowLoop
  unfolding fit_window draw_tiles
  draw_gallery cond g s =
      let s1 = fit_window cond.creates g s in
      if s1.ended
      then some s1
      else (let states = note_all cond.now g.tiles s1.drop_states in
          and_then (draw_tiles cond.now g g.tiles states (replicate (length s1.pixel_buf) bg_color))
            (present cond.updates (record s1 { drop_states = states })))

  -- A turn of the loop with the gallery that it receives.
  unfoldable pub turn : Conditions → GalleryFrame → WindowLoop → Option WindowLoop
  unfolding draw_gallery
  turn cond g s =
      if s.ended
      then some s
      else if s.has_window && not cond.is_open
      then some (record s { cancelled = true; ended = true })
      else elim g.tiles [ [] ↦ some s | t ∷ ts ↦ draw_gallery cond g s ]

  unfoldable pub run : List (Conditions × GalleryFrame) → WindowLoop → Option WindowLoop
  unfolding turn
  run [] s = some s
  run ((cond, g) ∷ ts) s = and_then (turn cond g s) (run ts)

  abbrev pub start : WindowLoop
  start = record {
    has_window = false;
    cur_w = 0;
    cur_h = 0;
    pixel_buf = [];
    drop_states = [];
    presented = [];
    cancelled = false;
    ended = false;
  }
