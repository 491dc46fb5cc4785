-- ===== src/Window/Safe.antt =====
-- src/video_display_window.rs: drawing never runs out of the buffer.
use native.Mathlib.Nat.{mul-le-mul_right, mul_comm}
use meshconf.Prelude.{
  ℕ, ◌+◌, ◌*◌, ◌%◌, ◌^◌, ◌≤◌, ◌<◌, ◌≡◌, ap, sym, ◌∙◌, Bool, true, false, not, ◌&&◌, Option, some,
  List, [], ◌∷◌, ◌==◌, length, replicate, length-replicate, All, arith, u32_mod, if_cases,
  and_then-IsSomeWith, IsSomeWith,
}
use meshconf.Compositor.{TileFrame, GalleryFrame}
use meshconf.Window.Pixels.{Font, draw_filled_circle, blit_tile}
use meshconf.Window.Layout.{IsLaidOut, IsPlaced, sizes, tiles-IsPlaced}
use meshconf.Window.{
  drop_dot_color, drop_dot_radius, bg_color, TileDropState, out_w, out_h, tile_x, tile_y, note_all,
  show_dot, draw_dot, draw_tile, draw_tiles, Conditions, WindowLoop, fit_window, present,
  draw_gallery, turn, run,
}
use meshconf.Window.Drawn.{HasSize, draw_filled_circle_fits, blit_tile_fits, length-draw_tile_label}

module _ (font : Font) where
  draw_dot_fits :
      (shown : Bool) (g : GalleryFrame) (t : TileFrame) (buf : List ℕ)
      → out_w g * out_h g < 2 ^ 32
      → HasSize (out_w g * out_h g) buf
      → IsSomeWith (HasSize (out_w g * out_h g)) (draw_dot font shown g t buf)
  unfolding draw_dot
  draw_dot_fits true g t buf small len =
      draw_filled_circle_fits (out_w g) (out_h g) small _ _ drop_dot_radius drop_dot_color buf len
  draw_dot_fits false g t buf small len = len

  draw_tile_fits :
      (shown : Bool) (g : GalleryFrame) (t : TileFrame) (buf : List ℕ)
      → out_w g * out_h g < 2 ^ 32
      → 0 < out_w g
      → IsPlaced g t
      → HasSize (out_w g * out_h g) buf
      → IsSomeWith (HasSize (out_w g * out_h g)) (draw_tile font shown g t buf)
  unfolding draw_tile draw_dot draw_filled_circle
  draw_tile_fits shown g t buf small pos v len =
      let n : ℕ = out_w g * out_h g in
      let m : (tile_y g t + t.frame.height) * out_w g ≤ out_h g * out_w g =
        mul-le-mul_right (out_w g) v.1 in
      and_then-IsSomeWith (HasSize n) (HasSize n)
        (blit_tile (out_w g) (tile_x g t) (tile_y g t) t.frame buf) _
        (blit_tile_fits (out_w g) (tile_x g t) (tile_y g t) n t.frame buf pos v.0 v.2 len
          (omega (arith, m, mul_comm (out_w g) (out_h g))))
        (λ b k.
          and_then-IsSomeWith (HasSize n) (HasSize n) (draw_dot font shown g t b) _
            (draw_dot_fits shown g t b small k)
            (λ b2 k2. length-draw_tile_label font (out_w g) (out_h g) (tile_x g t) _ _ t b2 ∙ k2))

  -- As many states as there are tiles, at least.
  abbrev Covers : List TileFrame → List TileDropState → Type 0
  Covers [] ds = Unit
  Covers (t ∷ ts) [] = ⊥
  Covers (t ∷ ts) (d ∷ ds) = Covers ts ds

  note_all-Covers :
      (now : ℕ) (ts : List TileFrame) (ds : List TileDropState) → Covers ts (note_all now ts ds)
  note_all-Covers now [] ds = tt
  note_all-Covers now (t ∷ ts) [] = note_all-Covers now ts []
  note_all-Covers now (t ∷ ts) (d ∷ ds) = note_all-Covers now ts ds

  draw_tiles_fits :
      (now : ℕ) (g : GalleryFrame) (ts : List TileFrame) (ds : List TileDropState) (buf : List ℕ)
      → out_w g * out_h g < 2 ^ 32
      → 0 < out_w g
      → All (IsPlaced g) ts
      → Covers ts ds
      → HasSize (out_w g * out_h g) buf
      → IsSomeWith (HasSize (out_w g * out_h g)) (draw_tiles font now g ts ds buf)
  unfolding draw_tiles
  draw_tiles_fits now g [] ds buf small pos v c len = len
  draw_tiles_fits now g (t ∷ ts) [] buf small pos v c len = absurd c
  draw_tiles_fits now g (t ∷ ts) (d ∷ ds) buf small pos v c len =
      let n : ℕ = out_w g * out_h g in
      and_then-IsSomeWith (HasSize n) (HasSize n)
        (draw_tile font (show_dot now d.last_drop_time) g t buf) (draw_tiles font now g ts ds)
        (draw_tile_fits (show_dot now d.last_drop_time) g t buf small pos v.0 len)
        (λ b k. draw_tiles_fits now g ts ds b small pos v.1 c k)

  -- The buffer has the window's size, and each picture was of some size.
  abbrev IsFitted : WindowLoop font → Type 0
  IsFitted s = s.has_window ≡ true → length s.pixel_buf ≡ s.cur_w * s.cur_h % u32_mod

  fit_window-fits :
      (creates : Bool) (g : GalleryFrame) (s : WindowLoop font)
      → IsFitted s
      → let s' = fit_window font creates g s in
        IsFitted s' × (s'.ended ≡ false → length s'.pixel_buf ≡ out_w g * out_h g % u32_mod)
  unfolding fit_window
  fit_window-fits creates g s v =
      let Good : WindowLoop font → Type 0 = λ s'.
        IsFitted s' × (s'.ended ≡ false → length s'.pixel_buf ≡ out_w g * out_h g % u32_mod) in
      if_cases Good (s.has_window && (out_w g == s.cur_w) && (out_h g == s.cur_h))
        (λ e. (
          v,
          λ a.
              v (ground arith)
              ∙ ap (λ k. k * s.cur_h % u32_mod)
                  (sym (let q : out_w g ≡ s.cur_w = ground arith in q))
              ∙ ap (λ k. out_w g * k % u32_mod)
                  (sym (let q : out_h g ≡ s.cur_h = ground arith in q)),
        ))
        (λ e.
          if_cases Good creates (λ e1. (λ a. length-replicate _ _, λ a. length-replicate _ _))
            (λ e1. (v, λ a. absurd (ground arith))))

  -- A turn that does not panic, and leaves a buffer of the window's size.
  abbrev pub IsSafe : Option (WindowLoop font) → Type 0
  IsSafe o = IsSomeWith IsFitted o

  present-IsSafe :
      (updates : Bool) (s : WindowLoop font) (buf : List ℕ)
      → (s.has_window ≡ true → length buf ≡ s.cur_w * s.cur_h % u32_mod)
      → IsSafe (present font updates s buf)
  present-IsSafe true s buf v = v
  present-IsSafe false s buf v = v

  draw_gallery-IsSafe :
      (cond : Conditions font) (g : GalleryFrame) (s : WindowLoop font)
      → IsLaidOut g
      → IsFitted s
      → IsSafe (draw_gallery font cond g s)
  unfolding draw_gallery
  draw_gallery-IsSafe cond g s laid v =
      let s1 : WindowLoop font = fit_window font cond.creates g s in
      let states : List TileDropState = note_all cond.now g.tiles s1.drop_states in
      let (fitted, sized) = fit_window-fits cond.creates g s v in
      let (ew, eh) = sizes g laid.size in
      let small : out_w g * out_h g < 2 ^ 32 = rw (ew, eh) laid.size in
      let n : ℕ = length s1.pixel_buf in
      if_cases IsSafe s1.ended (λ e. fitted)
        (λ e.
          let full : n ≡ out_w g * out_h g = omega (arith, sized e, small) in
          and_then-IsSomeWith (HasSize (out_w g * out_h g)) IsFitted
            (draw_tiles font cond.now g g.tiles states (replicate n bg_color))
            (present font cond.updates (record s1 { drop_states = states }))
            (draw_tiles_fits cond.now g g.tiles states (replicate n bg_color) small
              (omega (arith, ew)) (tiles-IsPlaced g laid)
              (note_all-Covers cond.now g.tiles s1.drop_states)
              (length-replicate n bg_color ∙ full))
            (λ buf k.
              present-IsSafe cond.updates (record s1 { drop_states = states }) buf
                (λ a. k ∙ sym full ∙ fitted a)))

  tiles-IsSafe :
      (ts : List TileFrame) (s : WindowLoop font) (r : Option (WindowLoop font))
      → IsSafe (some s)
      → IsSafe r
      → IsSafe (elim ts [ [] ↦ some s | t ∷ more ↦ r ])
  tiles-IsSafe [] s r h k = h
  tiles-IsSafe (t ∷ ts) s r h k = k

  turn-IsSafe :
      (cond : Conditions font) (g : GalleryFrame) (s : WindowLoop font)
      → IsLaidOut g
      → IsFitted s
      → IsSafe (turn font cond g s)
  unfolding turn
  turn-IsSafe cond g s laid v =
      if_cases IsSafe s.ended (λ e. v)
        (λ e.
          if_cases IsSafe (s.has_window && not cond.is_open) (λ e1. v)
            (λ e1. tiles-IsSafe g.tiles s _ v (draw_gallery-IsSafe cond g s laid v)))

  -- From its start on, the window's loop never panics, whatever galleries come, as long as the tiles
  -- of each are in its grid and have as many pixels as their sizes say, and its window has fewer than
  -- 2^32 pixels.
  pub run-IsSafe :
      (ts : List (Conditions font × GalleryFrame)) (s : WindowLoop font)
      → All (λ (t : Conditions font × GalleryFrame). IsLaidOut t.1) ts
      → IsFitted s
      → IsSafe (run font ts s)
  unfolding run
  run-IsSafe [] s h v = v
  run-IsSafe ((cond, g) ∷ ts) s h v =
      and_then-IsSomeWith IsFitted IsFitted (turn font cond g s) (run font ts)
        (turn-IsSafe cond g s h.0 v) (λ s' v'. run-IsSafe ts s' h.1 v')
