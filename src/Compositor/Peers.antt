-- ===== src/Compositor/Peers.antt =====
-- src/video_compositor.rs: which peers a gallery shows.
use meshconf.Prelude.{
  ℕ, ◌≡◌, ◌≢◌, refl, ap, ◌∙◌, true, false, Option, none, some, List, [], ◌==◌, if◌then◌else◌, arith,
}
use meshconf.Prelude.HashMap.{contains, contains-remove, contains-put}
use meshconf.Decoder.{RgbFrame}
use meshconf.Compositor.{
  sort_peers, Compositor, GalleryFrame, gallery_of, build_gallery, remove_peer, frame_from, command,
  step, unwrap_or, empty_gallery,
}
use meshconf.Compositor.Tiles.{ids, ids-tiles_from, has_id, has_id-keys, contains-sort_peers}

-- What the display is offered, or the empty gallery.
abbrev pub shown : Option GalleryFrame → List ℕ
shown none = []
shown (some g) = ids g.tiles

has_id-gallery_of :
    (counts : ℕ → ℕ) (k : ℕ) (s : Compositor)
    → has_id k (ids (gallery_of counts s).tiles) ≡ contains k s.latest_frames
unfolding gallery_of
has_id-gallery_of counts k s =
    ap (has_id k) (ids-tiles_from counts s _ 0 (sort_peers s.latest_frames))
    ∙ has_id-keys k (sort_peers s.latest_frames)
    ∙ contains-sort_peers k s.latest_frames

has_id-build_gallery :
    (counts : ℕ → ℕ) (k : ℕ) (s : Compositor)
    → has_id k (shown (build_gallery counts s)) ≡ contains k s.latest_frames
unfolding build_gallery has_id
has_id-build_gallery counts k s = ground (arith, has_id-gallery_of counts k s)

ids-unwrap_or : (o : Option GalleryFrame) → ids (unwrap_or empty_gallery o).tiles ≡ shown o
ids-unwrap_or none = refl
ids-unwrap_or (some g) = refl

-- A frame of a peer adds its tile to the gallery that is offered, and the removal of a peer takes its
-- tile away and keeps the others, also where no tile is left.
pub step-has_id :
    (counts : ℕ → ℕ) (peer k : ℕ) (frame : RgbFrame) (s : Compositor)
    → (has_id k (shown (step counts (frame_from peer frame) s).1)
        ≡ (if k == peer then true else contains k s.latest_frames))
      × (has_id k (shown (step counts (command (remove_peer peer)) s).1)
          ≡ (if k == peer then false else contains k s.latest_frames))
      × ((step counts (command (remove_peer peer)) s).1 ≢ none)
unfolding step
step-has_id counts peer k frame s = (
  has_id-build_gallery counts k _ ∙ contains-put peer frame k s.latest_frames,
  ap (has_id k) (ids-unwrap_or _)
      ∙ has_id-build_gallery counts k _
      ∙ contains-remove peer k s.latest_frames,
  ground arith,
)
