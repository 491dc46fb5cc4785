-- ===== src/Tui/Wrap.antt =====
-- src/tui.rs: what wrapping keeps.
use mathlib.Core.List.{append-nil}
use meshconf.Prelude.{
  ℕ, zero, suc, ◌≤◌, ◌<◌, ◌≡◌, refl, ap, ◌∙◌, true, false, Option, none, some, List, [], ◌∷◌, ◌++◌,
  ltb, ◌==◌, length, take, drop, All, All-append, All-drop, take-append-drop, length-take,
  length-drop, arith, if_cases,
}
use meshconf.Tui.{append_lines, is_char_start, cons_line, wrap_loop, wrap_line, wrap_all}

abbrev pub concat : List (List ℕ) → List ℕ
concat [] = []
concat (l ∷ ls) = l ++ concat ls

abbrev pub IsAscii : List ℕ → Type 0
IsAscii s = All (λ b. b < 128) s

-- Lines that make up a text, none longer than a width.
abbrev pub Wraps : ℕ → List ℕ → Option (List (List ℕ)) → Type 0
Wraps width s none = ⊥
Wraps width s (some lines) = (concat lines ≡ s) × All (λ l. length l ≤ width) lines

is_char_start-IsAscii : (s : List ℕ) → IsAscii s → is_char_start s ≡ true
is_char_start-IsAscii [] h = refl
is_char_start-IsAscii (b ∷ bs) h = ground (arith, h.0)

cons_line-Wraps :
    (width : ℕ) (s : List ℕ) (o : Option (List (List ℕ)))
    → Wraps width (drop width s) o
    → Wraps width s (cons_line (take width s) o)
cons_line-Wraps width s none h = h
cons_line-Wraps width s (some lines) h = (
  ap (λ xs. take width s ++ xs) h.0 ∙ take-append-drop width s,
  (omega (arith, length-take width s), h.1),
)

wrap_loop-Wraps :
    (fuel width : ℕ) (s : List ℕ)
    → length s < fuel
    → 0 < width
    → IsAscii s
    → Wraps width s (wrap_loop fuel width s)
unfolding wrap_loop
wrap_loop-Wraps zero width s len pos h = absurd (omega arith)
wrap_loop-Wraps (suc fuel) width s len pos h =
    if_cases (Wraps width s) (ltb width (length s))
      (λ long. rw (is_char_start-IsAscii (drop width s) (All-drop _ width s h)) (
        cons_line-Wraps width s (wrap_loop fuel width (drop width s)) (
          wrap_loop-Wraps fuel width (drop width s) (ground (arith, length-drop width s)) pos
            (All-drop _ width s h))))
      (λ short. (append-nil s, (ground arith, tt)))

-- An ASCII text is cut into lines of at most the width, which is not 0, and nothing of it is lost: the
-- loop ends, and the lines together are the text.
pub wrap_line-Wraps :
    (width : ℕ) (s : List ℕ) → 0 < width → IsAscii s → Wraps width s (wrap_line width s)
unfolding wrap_line
wrap_line-Wraps width s pos h =
    let k : (width == 0) ≡ false = ground arith in
    rw k (wrap_loop-Wraps (suc (length s)) width s (omega arith) pos h)

-- Lines of which none is longer than a width.
abbrev pub FitAll : ℕ → Option (List (List ℕ)) → Type 0
FitAll width none = ⊥
FitAll width (some lines) = All (λ l. length l ≤ width) lines

append_lines-FitAll :
    (width : ℕ) (o more : Option (List (List ℕ)))
    → FitAll width o
    → FitAll width more
    → FitAll width (append_lines o more)
append_lines-FitAll width none more h k = h
append_lines-FitAll width (some lines) none h k = k
append_lines-FitAll width (some lines) (some more) h k = All-append _ lines more h k

Wraps-FitAll :
    (width : ℕ) (s : List ℕ) (o : Option (List (List ℕ))) → Wraps width s o → FitAll width o
Wraps-FitAll width s none h = h
Wraps-FitAll width s (some lines) h = h.1

pub wrap_all-FitAll :
    (width : ℕ) (lines : List (List ℕ))
    → 0 < width
    → All IsAscii lines
    → FitAll width (wrap_all width lines)
unfolding wrap_all
wrap_all-FitAll width [] pos h = tt
wrap_all-FitAll width (line ∷ lines) pos h =
    append_lines-FitAll width _ (wrap_all width lines)
      (if_cases (FitAll width) (ltb width (length line))
        (λ long.
          Wraps-FitAll width line (wrap_line width line) (wrap_line-Wraps width line pos h.0))
        (λ short. (ground arith, tt)))
      (wrap_all-FitAll width lines pos h.1)
