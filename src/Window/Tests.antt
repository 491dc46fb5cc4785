-- ===== src/Window/Tests.antt =====
-- Runs of src/video_display_window.rs.
use meshconf.Prelude.{
  ℕ, ◌+◌, ◌*◌, ◌≡◌, refl, true, some, List, [], ◌∷◌, replicate, IsSomeWith, arith,
}
use meshconf.Decoder.{RgbFrame}
use meshconf.Compositor.{relay, TileFrame, GalleryFrame}
use meshconf.Window.Pixels.{Font, copy_row, blit_rows, blit_tile}
use meshconf.Window.Blit.{IsBlitted, covers, blit_tile-IsBlitted}
use meshconf.Window.Layout.{IsLaidOut}
use meshconf.Window.{Conditions, run, start}
use meshconf.Window.Safe.{IsSafe, run-IsSafe}

-- Each character is one pixel of half intensity.
abbrev dots : Font
dots = record { raster_width = λ bold. 2; raster = λ ch bold. some ((128 ∷ []) ∷ []) }

abbrev small_frame : RgbFrame
small_frame = record {
  group_id = 1;
  capture_timestamp_us = 0;
  width = 2;
  height = 2;
  pixels = 1 ∷ 2 ∷ 3 ∷ 4 ∷ [];
}

abbrev grey : List ℕ
grey = replicate 12 9

blit_tile_draws :
    blit_tile 4 1 1 small_frame grey ≡ some (9 ∷ 9 ∷ 9 ∷ 9 ∷ 9 ∷ 1 ∷ 2 ∷ 9 ∷ 9 ∷ 3 ∷ 4 ∷ 9 ∷ [])
unfolding blit_tile blit_rows copy_row
blit_tile_draws = refl

blit_tile-IsBlitted_example :
    IsSomeWith
      (IsBlitted 12 (2 * 4 + 1) grey (covers 1 2 1 3 1 2) (some 3))
      (blit_tile 4 1 1 small_frame grey)
blit_tile-IsBlitted_example =
    blit_tile-IsBlitted 4 1 1 1 2 small_frame grey (omega arith) (omega arith) refl (omega arith)

abbrev tile_at : ℕ → TileFrame
tile_at col = record {
  peer_id = col;
  frame = small_frame;
  grid_col = col;
  grid_row = 0;
  name = [];
  conn_kind = relay;
  video_drops = col;
}

abbrev gallery : GalleryFrame
gallery = record { tiles = tile_at 0 ∷ tile_at 1 ∷ []; cols = 2; rows = 1 }

gallery-IsLaidOut : IsLaidOut gallery
gallery-IsLaidOut = record {
  tiles = ((omega arith, omega arith, refl), ((omega arith, omega arith, refl), tt));
  size = omega arith;
}

abbrev working : Conditions dots
working = record { now = 5_000_000; is_open = true; creates = true; updates = true }

run-IsSafe_example :
    IsSafe dots (run dots ((working, gallery) ∷ (working, gallery) ∷ []) (start dots))
run-IsSafe_example =
    run-IsSafe dots ((working, gallery) ∷ (working, gallery) ∷ []) (start dots)
      (gallery-IsLaidOut, (gallery-IsLaidOut, tt)) (λ e. absurd (ground arith))
