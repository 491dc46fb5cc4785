-- ===== src/Window/Rows.antt =====
-- src/video_display_window.rs: copying a row into a buffer.
use native.Mathlib.Nat.{mul-le-mul_right}
use meshconf.Prelude.{
  ℕ, ◌+◌, ◌-◌, ◌*◌, ◌≤◌, ◌<◌, ◌≡◌, ap, ◌∙◌, ◌&&◌, List, ◌++◌, ltb, leb, if◌then◌else◌, length, take,
  drop, get_elem?, get_elem?-take, get_elem?-append_left, get_elem?-append_right, get_elem?-drop,
  length-take, length-drop, length-append, arith, if_cases, Bool-cases, inl, inr,
}

-- The pixels after a row was copied.
pub get_elem?-copied :
    (to i : ℕ) (row buf : List ℕ)
    → to + length row ≤ length buf
    → get_elem? (take to buf ++ (row ++ drop (to + length row) buf)) i
      ≡ (if leb to i && ltb i (to + length row) then get_elem? row (i - to) else get_elem? buf i)
get_elem?-copied to i row buf h =
    let front : length (take to buf) ≡ to = omega (arith, length-take to buf) in
    let rest : List ℕ = drop (to + length row) buf in
    if_cases (λ o. get_elem? (take to buf ++ (row ++ rest)) i ≡ o)
      (leb to i && ltb i (to + length row))
      (λ e.
        get_elem?-append_right i (take to buf) (row ++ rest) (ground (arith, front))
        ∙ ap (get_elem? (row ++ rest)) (ap (λ n. i - n) front)
        ∙ get_elem?-append_left (i - to) row rest (ground arith))
      (λ e. elim (Bool-cases (ltb i to)) [
        | inl l ↦
            get_elem?-append_left i (take to buf) (row ++ rest) (ground (arith, front))
            ∙ get_elem?-take to i buf (ground arith)
        | inr l ↦
            get_elem?-append_right i (take to buf) (row ++ rest) (ground (arith, front))
            ∙ ap (get_elem? (row ++ rest)) (ap (λ n. i - n) front)
            ∙ get_elem?-append_right (i - to) row rest (ground arith)
            ∙ get_elem?-drop (to + length row) (i - to - length row) buf
            ∙ ap (get_elem? buf) (ground arith)
      ])

pub length-copied :
    (to : ℕ) (row buf : List ℕ)
    → to + length row ≤ length buf
    → length (take to buf ++ (row ++ drop (to + length row) buf)) ≡ length buf
length-copied to row buf h = omega (
  arith,
  length-append (take to buf) (row ++ drop (to + length row) buf),
  length-append row (drop (to + length row) buf),
  length-take to buf,
  length-drop (to + length row) buf,
)

pub same_rows : (w a b : ℕ) → a ≡ b → a * w ≡ b * w
same_rows w a b e = ap (λ k. k * w) e

-- A pixel lies in a row of a tile where its place in the buffer does.
pub in_row_iff :
    (w x y x0 tw r : ℕ)
    → x < w
    → x0 + tw ≤ w
    → (leb (r * w + x0) (y * w + x) && ltb (y * w + x) (r * w + x0 + tw))
      ≡ (leb r y && leb y r && leb x0 x && ltb x (x0 + tw))
in_row_iff w x y x0 tw r h fits = elim (Bool-cases (ltb y r)) [
  | inl l ↦
      let m : (y + 1) * w ≤ r * w = mul-le-mul_right w (ground arith) in
      let m' : y * w + w ≤ r * w = omega (arith, m) in ground (arith, m')
  | inr l ↦ elim (Bool-cases (ltb r y)) [
    | inl k ↦
        let m : (r + 1) * w ≤ y * w = mul-le-mul_right w (ground arith) in
        let m' : r * w + w ≤ y * w = omega (arith, m) in ground (arith, m')
    | inr k ↦ let e : y * w ≡ r * w = same_rows w y r (ground arith) in ground (arith, e)
  ]
]
