-- ===== src/Compositor.antt =====
-- src/video_compositor.rs: the gallery of the peers' frames. A peer is its public key, read as a
-- number with the first byte in front, so that the order of keys is that of numbers. A string is its
-- bytes. Drop counters are shared: a counter is a place, and its count is looked up when a gallery is
-- built.
pub mod Entries
pub mod Grid
pub mod Tiles
pub mod Peers
pub mod Tests
use meshconf.Prelude.{
  ℕ, zero, suc, ◌+◌, ◌-◌, ◌*◌, ◌/◌, ◌%◌, Bool, true, false, Option, none, some, List, [], ◌∷◌, leb,
  ltb, if◌then◌else◌, length,
}
use meshconf.Prelude.HashMap.{get, put, remove}
use meshconf.Decoder.{RgbFrame}

pub data ConnectionKind : Type 0 where
  unknown direct relay local : ConnectionKind

pub data CompositorCommand : Type 0 where
  remove_peer : ℕ → CompositorCommand
  set_peer_name : ℕ → List ℕ → CompositorCommand
  set_connection_kind : ℕ → ConnectionKind → CompositorCommand
  set_video_drop_counter : ℕ → ℕ → CompositorCommand

pub record TileFrame : Type 0 where
  pub peer_id : ℕ
  pub frame : RgbFrame
  pub grid_col : ℕ
  pub grid_row : ℕ
  pub name : List ℕ
  pub conn_kind : ConnectionKind
  pub video_drops : ℕ

pub record GalleryFrame : Type 0 where
  pub tiles : List TileFrame
  pub cols : ℕ
  pub rows : ℕ

-- `(n as f64).sqrt().ceil()`, which is exact for a number of peers.
pub ceil_sqrt : ℕ → ℕ
ceil_sqrt zero = 0
ceil_sqrt (suc n) = let c = ceil_sqrt n in if leb (suc n) (c * c) then c else c + 1

-- `(n as f64 / cols as f64).ceil()`, for `cols` above 0.
abbrev pub ceil_div : ℕ → ℕ → ℕ
ceil_div n cols = (n + (cols - 1)) / cols

-- `peers.sort_by(...)` on the keys.
pub insert_peer : ℕ × RgbFrame → List (ℕ × RgbFrame) → List (ℕ × RgbFrame)
insert_peer p [] = p ∷ []
insert_peer p (q ∷ qs) = if leb p.0 q.0 then p ∷ q ∷ qs else q ∷ insert_peer p qs

pub sort_peers : List (ℕ × RgbFrame) → List (ℕ × RgbFrame)
unfolding insert_peer
sort_peers [] = []
sort_peers (p ∷ ps) = insert_peer p (sort_peers ps)

-- The variables of the task.
pub record Compositor : Type 0 where
  pub latest_frames : List (ℕ × RgbFrame)
  pub peer_names : List (ℕ × List ℕ)
  pub peer_conn_kinds : List (ℕ × ConnectionKind)
  pub peer_drop_counters : List (ℕ × ℕ)

abbrev pub unwrap_or : {A : Type 0} → A → Option A → A
unwrap_or a none = a
unwrap_or a (some b) = b

abbrev pub drops_of : (ℕ → ℕ) → Option ℕ → ℕ
drops_of counts none = 0
drops_of counts (some c) = counts c

-- The tile of the `i`th peer.
abbrev pub tile : (ℕ → ℕ) → Compositor → ℕ → ℕ → ℕ × RgbFrame → TileFrame
tile counts s cols i (peer_id, frame) = record {
  peer_id = peer_id;
  frame = frame;
  grid_col = i % cols;
  grid_row = i / cols;
  name = unwrap_or [] (get peer_id s.peer_names);
  conn_kind = unwrap_or unknown (get peer_id s.peer_conn_kinds);
  video_drops = drops_of counts (get peer_id s.peer_drop_counters);
}

pub tiles_from : (ℕ → ℕ) → Compositor → ℕ → ℕ → List (ℕ × RgbFrame) → List TileFrame
tiles_from counts s cols i [] = []
tiles_from counts s cols i (p ∷ ps) = tile counts s cols i p ∷ tiles_from counts s cols (suc i) ps

unfoldable pub gallery_of : (ℕ → ℕ) → Compositor → GalleryFrame
unfolding ceil_sqrt sort_peers tiles_from
gallery_of counts s =
    let n = length s.latest_frames in
    let cols = ceil_sqrt n in
    record {
      tiles = tiles_from counts s cols 0 (sort_peers s.latest_frames);
      cols = cols;
      rows = ceil_div n cols;
    }

unfoldable pub build_gallery : (ℕ → ℕ) → Compositor → Option GalleryFrame
build_gallery counts s = elim s.latest_frames [ [] ↦ none | p ∷ ps ↦ some (gallery_of counts s) ]

abbrev pub empty_gallery : GalleryFrame
empty_gallery = record { tiles = []; cols = 0; rows = 0 }

-- A message of either channel.
pub data Message : Type 0 where
  frame_from : ℕ → RgbFrame → Message
  command : CompositorCommand → Message

-- One turn of the loop, with the gallery that is offered to the display, if any. The channel to the
-- display may refuse it.
unfoldable pub step : (ℕ → ℕ) → Message → Compositor → Compositor × Option GalleryFrame
step counts (frame_from peer_id frame) s =
    let s' = record s { latest_frames = put peer_id frame s.latest_frames } in
    (s', build_gallery counts s')
step counts (command (remove_peer peer_id)) s =
    let s' : Compositor = record {
      latest_frames = remove peer_id s.latest_frames;
      peer_names = remove peer_id s.peer_names;
      peer_conn_kinds = remove peer_id s.peer_conn_kinds;
      peer_drop_counters = remove peer_id s.peer_drop_counters;
    } in
    (s', some (unwrap_or empty_gallery (build_gallery counts s')))
step counts (command (set_peer_name peer_id name)) s =
    let s' = record s { peer_names = put peer_id name s.peer_names } in
    (s', build_gallery counts s')
step counts (command (set_connection_kind peer_id kind)) s =
    let s' = record s { peer_conn_kinds = put peer_id kind s.peer_conn_kinds } in
    (s', build_gallery counts s')
step counts (command (set_video_drop_counter peer_id counter)) s =
    (record s { peer_drop_counters = put peer_id counter s.peer_drop_counters }, none)

abbrev pub start : Compositor
start = record {
  latest_frames = [];
  peer_names = [];
  peer_conn_kinds = [];
  peer_drop_counters = [];
}

-- A run of messages, each with the counts at its time.
unfoldable pub run : List ((ℕ → ℕ) × Message) → Compositor → Compositor
run [] s = s
run ((counts, m) ∷ ms) s = run ms (step counts m s).0
