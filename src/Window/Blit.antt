-- ===== src/Window/Blit.antt =====
-- src/video_display_window.rs, `blit_tile`: where the pixels of a tile go.
use native.Mathlib.Nat.{mul-le-mul_right}
use meshconf.Prelude.{
  ℕ, zero, suc, ◌+◌, ◌-◌, ◌*◌, ◌≤◌, ◌<◌, ◌≡◌, refl, ap, sym, ◌∙◌, Bool, true, false, ◌&&◌, Option,
  some, List, ◌++◌, ltb, leb, if◌then◌else◌, length, take, drop, get_elem?, get_elem?-take,
  get_elem?-drop, length-take, length-drop, arith, Bool-cases, inl, inr, IsSomeWith, IsSomeWith-map,
  subst,
}
use meshconf.Decoder.{RgbFrame}
use meshconf.Window.Pixels.{slice, copy_row, blit_rows, blit_tile}
use meshconf.Window.Rows.{get_elem?-copied, length-copied, same_rows, in_row_iff}

-- A pixel of the rows of a tile from the `dy`th on, of which there are `n`.
abbrev pub covers : ℕ → ℕ → ℕ → ℕ → ℕ → ℕ → Bool
covers x0 tw from to x y = leb from y && ltb y to && leb x0 x && ltb x (x0 + tw)

-- A buffer as large as another, with the tile's pixel at a place that the tile covers.
abbrev pub IsBlitted : ℕ → ℕ → List ℕ → Bool → Option ℕ → List ℕ → Type 0
IsBlitted size place data_ covered pixel buf =
    (length buf ≡ size) × (get_elem? buf place ≡ (if covered then pixel else get_elem? data_ place))

module _ (buf_w x0 y0 tw x y : ℕ) (data_ : List ℕ) where
  -- The tile's pixel at the place.
  abbrev source : Option ℕ
  source = get_elem? data_ ((y - y0) * tw + (x - x0))

  get_elem?-row :
      (dy : ℕ)
      → x0 ≤ x
      → x < x0 + tw
      → y ≡ y0 + dy
      → get_elem? (take tw (drop (dy * tw) data_)) (x - x0) ≡ source
  get_elem?-row dy low high e =
      get_elem?-take tw (x - x0) (drop (dy * tw) data_) (omega arith)
      ∙ get_elem?-drop (dy * tw) (x - x0) data_
      ∙ ap (λ k. get_elem? data_ (k * tw + (x - x0))) (omega arith)

  copy_row-fits :
      (to : ℕ) (row buf : List ℕ)
      → to + length row ≤ length buf
      → copy_row to row buf ≡ some (take to buf ++ (row ++ drop (to + length row) buf))
  unfolding copy_row
  copy_row-fits to row buf h = ground arith

  -- What one row adds.
  next_row :
      (dy n : ℕ) (buf buf1 b : List ℕ)
      → x < buf_w
      → x0 + tw ≤ buf_w
      → let row = take tw (drop (dy * tw) data_) in
        let to = (y0 + dy) * buf_w + x0 in
        length row ≡ tw
        → to + length row ≤ length buf
        → buf1 ≡ take to buf ++ (row ++ drop (to + length row) buf)
        → IsBlitted
            (length buf1)
            (y * buf_w + x)
            buf1
            (covers x0 tw (y0 + suc dy) (y0 + suc dy + n) x y)
            source
            b
        → IsBlitted
            (length buf)
            (y * buf_w + x)
            buf
            (covers x0 tw (y0 + dy) (y0 + dy + suc n) x y)
            source
            b
  next_row dy n buf buf1 b hx fits len room same h =
      let row : List ℕ = take tw (drop (dy * tw) data_) in
      let to : ℕ = (y0 + dy) * buf_w + x0 in
      let place : ℕ = y * buf_w + x in
      let here : Bool = leb (y0 + dy) y && leb y (y0 + dy) && leb x0 x && ltb x (x0 + tw) in
      let old : get_elem? buf1 place
          ≡ (if here then get_elem? row (place - to) else get_elem? buf place) =
        ap (λ xs. get_elem? xs place) same
        ∙ get_elem?-copied to place row buf room
        ∙ ap (λ c. if c then get_elem? row (place - to) else get_elem? buf place)
            (ap (λ k. leb to place && ltb place (to + k)) len
              ∙ in_row_iff buf_w x y x0 tw (y0 + dy) hx fits) in
      let size : length buf1 ≡ length buf = ap length same ∙ length-copied to row buf room in
      (
        h.0 ∙ size,
        elim (Bool-cases here) [
          | inl e ↦
              let at : place - to ≡ x - x0 =
                (let m : y * buf_w ≡ (y0 + dy) * buf_w =
                    same_rows buf_w y (y0 + dy) (ground arith) in
                  omega (arith, m)) in
              let pixel : get_elem? row (place - to) ≡ source =
                ap (get_elem? row) at
                ∙ get_elem?-row dy (ground arith) (ground arith) (ground arith) in
              let later : covers x0 tw (y0 + suc dy) (y0 + suc dy + n) x y ≡ false = ground arith in
              let now : covers x0 tw (y0 + dy) (y0 + dy + suc n) x y ≡ true = ground arith in
              h.1
              ∙ ap (λ k. if k then source else get_elem? buf1 place) later
              ∙ old
              ∙ ap (λ k. if k then get_elem? row (place - to) else get_elem? buf place) e
              ∙ pixel
              ∙ ap (λ k. if k then source else get_elem? buf place) (sym now)
          | inr e ↦
              let later : Bool = covers x0 tw (y0 + suc dy) (y0 + suc dy + n) x y in
              let now : later ≡ covers x0 tw (y0 + dy) (y0 + dy + suc n) x y = ground arith in
              h.1
              ∙ ap (λ o. if later then source else o)
                  (old ∙ ap (λ k. if k then get_elem? row (place - to) else get_elem? buf place) e)
              ∙ ap (λ k. if k then source else get_elem? buf place) now
        ],
      )

  blit_rows-IsBlitted :
      (n dy : ℕ) (buf : List ℕ)
      → x < buf_w
      → x0 + tw ≤ buf_w
      → (dy + n) * tw ≤ length data_
      → (y0 + dy + n) * buf_w ≤ length buf
      → IsSomeWith
          (IsBlitted
            (length buf)
            (y * buf_w + x)
            buf
            (covers x0 tw (y0 + dy) (y0 + dy + n) x y)
            source)
          (blit_rows n dy buf_w x0 y0 tw data_ buf)
  unfolding blit_rows
  blit_rows-IsBlitted zero dy buf hx fits hd hb = (refl, ground arith)
  blit_rows-IsBlitted (suc n) dy buf hx fits hd hb =
      let row : List ℕ = take tw (drop (dy * tw) data_) in
      let to : ℕ = (y0 + dy) * buf_w + x0 in
      let buf1 : List ℕ = take to buf ++ (row ++ drop (to + length row) buf) in
      let m1 : (dy + 1) * tw ≤ (dy + suc n) * tw = mul-le-mul_right tw (omega arith) in
      let m2 : (y0 + dy + 1) * buf_w ≤ (y0 + dy + suc n) * buf_w =
        mul-le-mul_right buf_w (omega arith) in
      let d1 : dy * tw + tw ≤ length data_ = omega (arith, m1, hd) in
      let b1 : (y0 + dy) * buf_w + buf_w ≤ length buf = omega (arith, m2, hb) in
      let len : length row ≡ tw =
        omega (arith, length-take tw (drop (dy * tw) data_), length-drop (dy * tw) data_) in
      let sliced : slice (dy * tw) tw data_ ≡ some row = ground arith in
      let copied : copy_row to row buf ≡ some buf1 =
        copy_row-fits to row buf (omega (arith, len, b1)) in
      rw (sliced, copied)
        (IsSomeWith-map _ _ (blit_rows n (suc dy) buf_w x0 y0 tw data_ buf1)
          (λ b h. next_row dy n buf buf1 b hx fits len (omega (arith, len, b1)) refl h)
          (blit_rows-IsBlitted n (suc dy) buf1 hx fits
            (omega (arith, same_rows tw (dy + suc n) (suc dy + n) (omega arith), hd))
            (omega (
              arith,
              same_rows buf_w (y0 + dy + suc n) (y0 + suc dy + n) (omega arith),
              hb,
              length-copied to row buf (omega (arith, len, b1)),
            ))))

-- A tile with as many pixels as its size says, at a place in a buffer where there is room for it, is
-- drawn without a panic: the buffer keeps its size, a place that the tile covers gets its pixel, row
-- by row, and every other place keeps its own.
pub blit_tile-IsBlitted :
    (buf_w x0 y0 x y : ℕ) (f : RgbFrame) (buf : List ℕ)
    → x < buf_w
    → x0 + f.width ≤ buf_w
    → length f.pixels ≡ f.height * f.width
    → (y0 + f.height) * buf_w ≤ length buf
    → IsSomeWith
        (IsBlitted
          (length buf)
          (y * buf_w + x)
          buf
          (covers x0 f.width y0 (y0 + f.height) x y)
          (get_elem? f.pixels ((y - y0) * f.width + (x - x0))))
        (blit_tile buf_w x0 y0 f buf)
unfolding blit_tile
blit_tile-IsBlitted buf_w x0 y0 x y f buf hx fits hd hb =
    subst
      (λ from.
        IsSomeWith
          (IsBlitted (length buf) (y * buf_w + x) buf (covers x0 f.width from (from + f.height) x y)
            (get_elem? f.pixels ((y - y0) * f.width + (x - x0))))
          (blit_tile buf_w x0 y0 f buf))
      (let e : y0 + 0 ≡ y0 = omega arith in e)
      (blit_rows-IsBlitted buf_w x0 y0 f.width x y f.pixels f.height 0 buf hx fits
        (omega (arith, same_rows f.width (0 + f.height) f.height (omega arith), hd))
        (omega (arith, same_rows buf_w (y0 + 0 + f.height) (y0 + f.height) (omega arith), hb)))
