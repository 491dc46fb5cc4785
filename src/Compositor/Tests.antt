-- ===== src/Compositor/Tests.antt =====
-- Galleries of src/video_compositor.rs.
use meshconf.Prelude.{ℕ, ◌<◌, ◌≡◌, refl, [], ◌∷◌, length, All}
use meshconf.Decoder.{RgbFrame}
use meshconf.Compositor.{Compositor, gallery_of, direct}
use meshconf.Compositor.Tiles.{Shows, IsAscending, IsAt, ids, gallery_of-tiles}

abbrev picture : ℕ → RgbFrame
picture group = record {
  group_id = group;
  capture_timestamp_us = 0;
  width = 1;
  height = 1;
  pixels = 7 ∷ [];
}

abbrev three : Compositor
three = record {
  latest_frames = (30, picture 3) ∷ (10, picture 1) ∷ (20, picture 2) ∷ [];
  peer_names = (10, 65 ∷ []) ∷ [];
  peer_conn_kinds = (30, direct) ∷ [];
  peer_drop_counters = (20, 0) ∷ [];
}

abbrev counts : ℕ → ℕ
counts c = 4

gallery_of-tiles_example :
    let g = gallery_of counts three in
    (length g.tiles ≡ 3)
    × All (Shows counts three) g.tiles
    × IsAscending (ids g.tiles)
    × All (λ t. (t.grid_col < g.cols) × (t.grid_row < g.rows)) g.tiles
    × IsAt g.cols 0 g.tiles
gallery_of-tiles_example = gallery_of-tiles counts three (refl, (refl, (refl, tt)))
