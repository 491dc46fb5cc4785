-- ===== src/Compositor/Grid.antt =====
-- The grid of the gallery in src/video_compositor.rs.
use meshconf.Prelude.{
  ap, leb→le, if_cases, ℕ, zero, suc, ◌+◌, ◌-◌, ◌*◌, ◌/◌, ◌%◌, ◌≤◌, ◌<◌, ◌≡◌, leb, arith,
}
use meshconf.Compositor.{ceil_sqrt, ceil_div}
use native.Mathlib.Nat.{div-lt_iff_lt-mul, lt-div-mul-add, div-mul-le_self, mod-lt}

-- `c` is the least number whose square is at least `n`.
record IsRoot (n c : ℕ) : Type 0 where
  enough : n ≤ c * c
  least : (d : ℕ) → suc d ≡ c → d * d < n

grows : (n c d : ℕ) → c * c ≤ n → suc d ≡ c + 1 → d * d < suc n
grows n c d h e = let p : d ≡ c = omega arith in rw p (omega arith)

square_suc : (c : ℕ) → (c + 1) * (c + 1) ≡ c * c + 2 * c + 1
square_suc c = grind arith

ceil_sqrt-IsRoot : (n : ℕ) → IsRoot n (ceil_sqrt n)
unfolding ceil_sqrt
ceil_sqrt-IsRoot zero = record { enough = omega arith; least = λ d e. absurd (omega arith) }
ceil_sqrt-IsRoot (suc n) =
    let c : ℕ = ceil_sqrt n in
    if_cases (IsRoot (suc n)) (leb (suc n) (c * c))
      (λ e. record {
        enough = leb→le (suc n) (c * c) e;
        least = λ d h. omega (arith, (ceil_sqrt-IsRoot n).least d h);
      })
      (λ e. record {
        enough = omega (arith, square_suc c, (ceil_sqrt-IsRoot n).enough);
        least = λ d h. grows n c d (ground arith) h;
      })

positive : (n c : ℕ) → 0 < n → n ≤ c * c → 0 < c
positive n zero h e = omega arith
positive n (suc c) h e = omega arith

last_row : (r c n : ℕ) → 0 < n → 0 < c → r * c ≤ n + (c - 1) → (r - 1) * c < n
last_row zero c n hn hc h = omega arith
last_row (suc r) c n hn hc h =
    let expand : suc r * c ≡ r * c + c = grind arith in
    let less : (suc r - 1) * c ≡ r * c = ap (λ (t : ℕ). t * c) (omega arith) in omega arith

-- For at least one tile the grid is the smallest: `n` tiles fit the square of its columns and no smaller square, and the
-- rows are those that the tiles fill, the last one perhaps in part.
pub grid_smallest :
    (n : ℕ)
    → 0 < n
    → let cols = ceil_sqrt n in
      let rows = ceil_div n cols in
      (n ≤ cols * cols)
      × ((cols - 1) * (cols - 1) < n)
      × (n ≤ rows * cols)
      × ((rows - 1) * cols < n)
      × (rows ≤ cols)
grid_smallest n h =
    let c : ℕ = ceil_sqrt n in
    let r : ℕ = ceil_div n c in
    let v : IsRoot n c = ceil_sqrt-IsRoot n in
    let pos : 0 < c = positive n c h v.enough in
    let expand : (c + 1) * c ≡ c * c + c = grind arith in
    let over : n + (c - 1) < r * c + c = lt-div-mul-add pos in
    let fewer : r < c + 1 = (div-lt_iff_lt-mul pos).1 (omega (arith, v.enough)) in
    (
      v.enough,
      v.least (c - 1) (omega arith),
      omega (arith, over),
      last_row r c n h pos (div-mul-le_self (n + (c - 1)) c),
      omega arith,
    )

-- A tile that is one of the `n` is inside of the grid.
pub tile_inside :
    (n i : ℕ)
    → i < n
    → (i % ceil_sqrt n < ceil_sqrt n) × (i / ceil_sqrt n < ceil_div n (ceil_sqrt n))
tile_inside n i h =
    let c : ℕ = ceil_sqrt n in
    let v : IsRoot n c = ceil_sqrt-IsRoot n in
    let pos : 0 < c = positive n c (omega arith) v.enough in
    (mod-lt i pos, (div-lt_iff_lt-mul pos).1 (omega (arith, (grid_smallest n (omega arith)).2)))
