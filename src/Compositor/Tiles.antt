-- ===== src/Compositor/Tiles.antt =====
-- The tiles of the gallery in src/video_compositor.rs.
use native.Mathlib.Nat.{div-add-mod'}
use meshconf.Prelude.{
  sym, subst, ◌==◌, ℕ, suc, ◌+◌, ◌*◌, ◌≤◌, ◌<◌, ◌≡◌, ◌≢◌, refl, ap, ◌∙◌, Bool, true, false, List,
  [], ◌∷◌, map, if◌then◌else◌, length, All, arith,
}
use meshconf.Prelude.HashMap.{contains, IsMap, put-IsMap, remove-IsMap}
use meshconf.Decoder.{RgbFrame}
use meshconf.Compositor.{
  drops_of, unknown, unwrap_or, some, get, ceil_sqrt, ceil_div, insert_peer, sort_peers, Compositor,
  tiles_from, TileFrame, gallery_of, remove_peer, set_peer_name, set_connection_kind,
  set_video_drop_counter, Message, frame_from, command, step, run,
}
use meshconf.Compositor.Grid.{tile_inside}
use meshconf.Compositor.Entries.{IsEntry, entries-IsEntry, All-sort_peers}

-- Two lists of entries that differ by their order: what iterating over a `HashMap` may yield.
pub data IsReordered : List (ℕ × RgbFrame) → List (ℕ × RgbFrame) → Type 0 where
  done : IsReordered [] []
  keep :
      (p : ℕ × RgbFrame) {ps qs : List (ℕ × RgbFrame)}
      → IsReordered ps qs
      → IsReordered (p ∷ ps) (p ∷ qs)
  swap :
      (p q : ℕ × RgbFrame) {ps : List (ℕ × RgbFrame)}
      → p.0 ≢ q.0
      → IsReordered (p ∷ q ∷ ps) (q ∷ p ∷ ps)
  both :
      {ps qs rs : List (ℕ × RgbFrame)} → IsReordered ps qs → IsReordered qs rs → IsReordered ps rs

insert_peer_swap :
    (p q : ℕ × RgbFrame) (ps : List (ℕ × RgbFrame))
    → p.0 ≢ q.0
    → insert_peer p (insert_peer q ps) ≡ insert_peer q (insert_peer p ps)
unfolding insert_peer
insert_peer_swap p q [] ne = ground arith
insert_peer_swap p q (r ∷ ps) ne = ground (arith, insert_peer_swap p q ps ne)

sort_peers_order : {ps qs : List (ℕ × RgbFrame)} → IsReordered ps qs → sort_peers ps ≡ sort_peers qs
unfolding sort_peers
sort_peers_order done = refl
sort_peers_order (keep p h) = ap (insert_peer p) (sort_peers_order h)
sort_peers_order (swap p q {ps} ne) = insert_peer_swap p q (sort_peers ps) ne
sort_peers_order (both h k) = sort_peers_order h ∙ sort_peers_order k

length_order : {ps qs : List (ℕ × RgbFrame)} → IsReordered ps qs → length ps ≡ length qs
length_order done = refl
length_order (keep p h) = ap suc (length_order h)
length_order (swap p q ne) = refl
length_order (both h k) = length_order h ∙ length_order k

tiles_from_same :
    (counts : ℕ → ℕ) (s : Compositor) (frames : List (ℕ × RgbFrame)) (cols i : ℕ)
    (ps : List (ℕ × RgbFrame))
    → tiles_from counts s cols i ps
      ≡ tiles_from counts (record s { latest_frames = frames }) cols i ps
unfolding tiles_from
tiles_from_same counts s frames cols i [] = refl
tiles_from_same counts s frames cols i (p ∷ ps) =
    rw (tiles_from_same counts s frames cols (suc i) ps) refl

-- The gallery does not depend on the order in which the map of frames yields its entries.
pub gallery_of_order :
    (counts : ℕ → ℕ) (s : Compositor) (frames : List (ℕ × RgbFrame))
    → IsReordered s.latest_frames frames
    → gallery_of counts s ≡ gallery_of counts (record s { latest_frames = frames })
unfolding gallery_of
gallery_of_order counts s frames h =
    rw
      (
        length_order h,
        sort_peers_order h,
        tiles_from_same counts s frames (ceil_sqrt (length frames)) 0 (sort_peers frames),
      )
      refl

-- The keys of the list ascend strictly.
abbrev pub Below : ℕ → List ℕ → Type 0
Below k [] = Unit
Below k (i ∷ is) = k < i

abbrev pub IsAscending : List ℕ → Type 0
IsAscending [] = Unit
IsAscending (i ∷ is) = Below i is × IsAscending is

abbrev pub ids : List TileFrame → List ℕ
ids ts = map (λ t. t.peer_id) ts

abbrev pub keys : List (ℕ × RgbFrame) → List ℕ
keys ps = map (λ p. p.0) ps

insert_peer-Below :
    (k : ℕ) (p : ℕ × RgbFrame) (ps : List (ℕ × RgbFrame))
    → k < p.0
    → Below k (keys ps)
    → Below k (keys (insert_peer p ps))
unfolding insert_peer
insert_peer-Below k p [] h b = h
insert_peer-Below k p (q ∷ qs) h b = ground arith

contains-insert_peer :
    (k : ℕ) (p : ℕ × RgbFrame) (ps : List (ℕ × RgbFrame))
    → contains k (insert_peer p ps) ≡ contains k (p ∷ ps)
unfolding insert_peer
contains-insert_peer k p [] = refl
contains-insert_peer k p (q ∷ qs) = ground (arith, contains-insert_peer k p qs)

insert_peer-IsAscending :
    (p : ℕ × RgbFrame) (ps : List (ℕ × RgbFrame))
    → contains p.0 ps ≡ false
    → IsAscending (keys ps)
    → IsAscending (keys (insert_peer p ps))
unfolding insert_peer
insert_peer-IsAscending p [] h a = ground arith
insert_peer-IsAscending p (q ∷ qs) h a =
    ground (arith, insert_peer-IsAscending p qs, insert_peer-Below q.0 p qs)

pub contains-sort_peers :
    (k : ℕ) (ps : List (ℕ × RgbFrame)) → contains k (sort_peers ps) ≡ contains k ps
unfolding sort_peers
contains-sort_peers k [] = refl
contains-sort_peers k (p ∷ ps) =
    ground (arith, contains-insert_peer k p (sort_peers ps), contains-sort_peers k ps)

sort_peers-IsAscending : (ps : List (ℕ × RgbFrame)) → IsMap ps → IsAscending (keys (sort_peers ps))
unfolding sort_peers
sort_peers-IsAscending [] m = tt
sort_peers-IsAscending (p ∷ ps) m =
    insert_peer-IsAscending p (sort_peers ps) (contains-sort_peers p.0 ps ∙ m.0)
      (sort_peers-IsAscending ps m.1)

length-insert_peer :
    (p : ℕ × RgbFrame) (ps : List (ℕ × RgbFrame)) → length (insert_peer p ps) ≡ suc (length ps)
unfolding insert_peer
length-insert_peer p [] = refl
length-insert_peer p (q ∷ qs) = ground (arith, length-insert_peer p qs)

length-sort_peers : (ps : List (ℕ × RgbFrame)) → length (sort_peers ps) ≡ length ps
unfolding sort_peers
length-sort_peers [] = refl
length-sort_peers (p ∷ ps) = length-insert_peer p (sort_peers ps) ∙ ap suc (length-sort_peers ps)

-- A tile that shows what the compositor has of its peer: the latest frame, the name, the kind of its
-- connection and its drops.
abbrev pub Shows : (ℕ → ℕ) → Compositor → TileFrame → Type 0
Shows counts s t =
    (get t.peer_id s.latest_frames ≡ some t.frame)
    × (t.name ≡ unwrap_or [] (get t.peer_id s.peer_names))
    × (t.conn_kind ≡ unwrap_or unknown (get t.peer_id s.peer_conn_kinds))
    × (t.video_drops ≡ drops_of counts (get t.peer_id s.peer_drop_counters))

-- The tiles fill the grid row by row, from the place `i` on.
abbrev pub IsAt : ℕ → ℕ → List TileFrame → Type 0
IsAt cols i [] = Unit
IsAt cols i (t ∷ ts) = (t.grid_row * cols + t.grid_col ≡ i) × IsAt cols (suc i) ts

module _ (counts : ℕ → ℕ) (s : Compositor) where
  pub ids-tiles_from :
      (cols i : ℕ) (ps : List (ℕ × RgbFrame)) → ids (tiles_from counts s cols i ps) ≡ keys ps
  unfolding tiles_from
  ids-tiles_from cols i [] = refl
  ids-tiles_from cols i (p ∷ ps) = ap (◌∷◌ p.0) (ids-tiles_from cols (suc i) ps)

  length-tiles_from :
      (cols i : ℕ) (ps : List (ℕ × RgbFrame)) → length (tiles_from counts s cols i ps) ≡ length ps
  unfolding tiles_from
  length-tiles_from cols i [] = refl
  length-tiles_from cols i (p ∷ ps) = ap suc (length-tiles_from cols (suc i) ps)

  tiles_from-IsAt :
      (cols i : ℕ) (ps : List (ℕ × RgbFrame)) → IsAt cols i (tiles_from counts s cols i ps)
  unfolding tiles_from
  tiles_from-IsAt cols i [] = tt
  tiles_from-IsAt cols i (p ∷ ps) = (div-add-mod' i cols, tiles_from-IsAt cols (suc i) ps)

  tiles_from_inside :
      (n i : ℕ) (ps : List (ℕ × RgbFrame))
      → i + length ps ≤ n
      → All
          (λ t. (t.grid_col < ceil_sqrt n) × (t.grid_row < ceil_div n (ceil_sqrt n)))
          (tiles_from counts s (ceil_sqrt n) i ps)
  unfolding tiles_from
  tiles_from_inside n i [] h = tt
  tiles_from_inside n i (p ∷ ps) h =
      (tile_inside n i (omega arith), tiles_from_inside n (suc i) ps (omega arith))

  tiles_from-Shows :
      (cols i : ℕ) (ps : List (ℕ × RgbFrame))
      → All (IsEntry s.latest_frames) ps
      → All (Shows counts s) (tiles_from counts s cols i ps)
  unfolding tiles_from
  tiles_from-Shows cols i [] a = tt
  tiles_from-Shows cols i (p ∷ ps) a =
      ((a.0, refl, refl, refl), tiles_from-Shows cols (suc i) ps a.1)

  -- Where the map has one frame for each peer, a gallery has as many tiles as the map has frames, of
  -- peers whose keys ascend strictly, and each shows its peer's latest frame, name, kind of connection
  -- and drops; the tiles are inside of the grid and fill it row by row, so no two are at one place.
  pub gallery_of-tiles :
      IsMap s.latest_frames
      → let g = gallery_of counts s in
        (length g.tiles ≡ length s.latest_frames)
        × All (Shows counts s) g.tiles
        × IsAscending (ids g.tiles)
        × All (λ t. (t.grid_col < g.cols) × (t.grid_row < g.rows)) g.tiles
        × IsAt g.cols 0 g.tiles
  unfolding gallery_of
  gallery_of-tiles m =
      let n : ℕ = length s.latest_frames in
      let ps : List (ℕ × RgbFrame) = sort_peers s.latest_frames in
      (
        length-tiles_from (ceil_sqrt n) 0 ps ∙ length-sort_peers s.latest_frames,
        tiles_from-Shows (ceil_sqrt n) 0 ps (
            All-sort_peers (IsEntry s.latest_frames) s.latest_frames
              (entries-IsEntry s.latest_frames m)),
        subst IsAscending (sym (ids-tiles_from (ceil_sqrt n) 0 ps))
            (sort_peers-IsAscending s.latest_frames m),
        tiles_from_inside n 0 ps (omega (arith, length-sort_peers s.latest_frames)),
        tiles_from-IsAt (ceil_sqrt n) 0 ps,
      )

step-IsMap :
    (counts : ℕ → ℕ) (m : Message) (s : Compositor)
    → IsMap s.latest_frames
    → IsMap (step counts m s).0.latest_frames
unfolding step
step-IsMap counts (frame_from k f) s h = put-IsMap k f s.latest_frames h
step-IsMap counts (command (remove_peer k)) s h = remove-IsMap k s.latest_frames h
step-IsMap counts (command (set_peer_name k name)) s h = h
step-IsMap counts (command (set_connection_kind k kind)) s h = h
step-IsMap counts (command (set_video_drop_counter k c)) s h = h

-- A run keeps one frame for each peer, so that its galleries have the layout of `gallery_of-tiles`.
pub run-IsMap :
    (ms : List ((ℕ → ℕ) × Message)) (s : Compositor)
    → IsMap s.latest_frames
    → IsMap (run ms s).latest_frames
unfolding run
run-IsMap [] s h = h
run-IsMap ((counts, m) ∷ ms) s h = run-IsMap ms (step counts m s).0 (step-IsMap counts m s h)

unfoldable pub has_id : ℕ → List ℕ → Bool
has_id k [] = false
has_id k (i ∷ is) = if k == i then true else has_id k is

pub has_id-keys : (k : ℕ) (ps : List (ℕ × RgbFrame)) → has_id k (keys ps) ≡ contains k ps
unfolding has_id
has_id-keys k [] = refl
has_id-keys k (p ∷ ps) = ground (arith, has_id-keys k ps)
