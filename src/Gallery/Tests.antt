-- ===== src/Gallery/Tests.antt =====
-- Runs of src/video_display_kitty.rs.
use meshconf.Prelude.{ℕ, ◌≡◌, inl, refl, true, none, some, [], ◌∷◌, arith, replicate}
use meshconf.Kitty.{codes}
use meshconf.Kitty.Place.{WinSize}
use meshconf.Decoder.{RgbFrame}
use meshconf.Compositor.{relay, TileFrame, GalleryFrame}
use meshconf.Gallery.Status.{StatusInfo, status_row_count, draw_status_text}
use meshconf.Gallery.Cleared.{clears, clears-draw_status_text}
use meshconf.Gallery.Places.{IsVisible, AreApart, tiles-AreApart}

abbrev screen : WinSize
screen = record { cols = 80; rows = 24; x_pixel = 800; y_pixel = 480 }

abbrev picture : RgbFrame
picture = record {
  group_id = 1;
  capture_timestamp_us = 0;
  width = 20;
  height = 40;
  pixels = replicate 800 7;
}

abbrev tile_at : ℕ → TileFrame
tile_at col = record {
  peer_id = col;
  frame = picture;
  grid_col = col;
  grid_row = 0;
  name = codes "Ada";
  conn_kind = relay;
  video_drops = 0;
}

abbrev gallery : GalleryFrame
gallery = record { tiles = tile_at 0 ∷ tile_at 1 ∷ []; cols = 2; rows = 1 }

tiles-AreApart_example :
    IsVisible screen gallery (tile_at 0) × AreApart screen gallery (tile_at 0) (tile_at 1)
tiles-AreApart_example =
    tiles-AreApart screen gallery (tile_at 0) (tile_at 1) (omega arith) (omega arith) (omega arith)
      (omega arith) (omega arith, omega arith) (omega arith, omega arith)
      (inl (λ e. absurd (ground arith)))

-- A ticket of two rows of ten columns.
abbrev waiting : StatusInfo
waiting = record { message = codes "Waiting"; copyable = some (codes "ticket-12345") }

waiting_rows : status_row_count (some waiting) 10 ≡ 4
unfolding status_row_count
waiting_rows = refl

clears-draw_status_text_example : clears 21 (draw_status_text none (some waiting) 10 21) ≡ true
clears-draw_status_text_example =
    clears-draw_status_text 10 21 21 none waiting (omega arith) (omega arith)
      (omega (arith, waiting_rows)) refl
