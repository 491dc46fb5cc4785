-- ===== src/Tui/Words.antt =====
-- src/tui.rs, `draw_error_banner`: what becomes of the words of a message.
use mathlib.Core.List.{append_assoc, append-nil}
use meshconf.Prelude.{
  and_then, ℕ, ◌+◌, ◌-◌, ◌≤◌, ◌<◌, ◌≡◌, refl, subst, tests, le→not-ltb, ap, sym, ◌∙◌, false, Option,
  none, some, List, [], ◌∷◌, ◌++◌, ltb, leb, All, All-append, arith, if_cases,
}
use meshconf.Tui.{space}
use meshconf.Tui.Banner.{
  byte_len, line_max, Lines, add_word, add_words, pending, at_least_one, finish_lines, banner_lines,
}

-- The words behind one another, each with a space in front.
abbrev pub spaced : List (List ℕ) → List ℕ
spaced [] = []
spaced (w ∷ ws) = space ∷ (w ++ spaced ws)

spaced-append : (xs ys : List (List ℕ)) → spaced (xs ++ ys) ≡ spaced xs ++ spaced ys
spaced-append [] ys = refl
spaced-append (x ∷ xs) ys =
    ap (◌∷◌ space)
      (ap (λ zs. x ++ zs) (spaced-append xs ys) ∙ sym (append_assoc x (spaced xs) (spaced ys)))

-- A word that a line has room for.
abbrev pub IsShort : ℕ → List ℕ → Type 0
IsShort n word = (0 < byte_len word) × (byte_len word ≤ n)

lt→not-leb : (a b : ℕ) → b < a → leb a b ≡ false
lt→not-leb a b h = ground arith

byte_len-append : (xs ys : List ℕ) → byte_len (xs ++ ys) ≡ byte_len xs + byte_len ys
byte_len-append [] ys = omega arith
byte_len-append (x ∷ xs) ys = omega (arith, byte_len-append xs ys)

-- Lines that hold the words so far, of at most a width.
abbrev IsFilled : ℕ → List ℕ → Option Lines → Type 0
IsFilled max_w text none = ⊥
IsFilled max_w text (some s) =
    (spaced (pending s) ≡ text) × All (λ l. byte_len l ≤ max_w) (pending s)

spaced_last : (xs : List (List ℕ)) (w : List ℕ) → spaced (xs ++ (w ∷ [])) ≡ spaced xs ++ (space ∷ w)
spaced_last xs w = spaced-append xs (w ∷ []) ∙ ap (λ zs. spaced xs ++ (space ∷ zs)) (append-nil w)

All-front : (P : List ℕ → Type 0) (xs ys : List (List ℕ)) → All P (xs ++ ys) → All P xs
All-front P [] ys h = tt
All-front P (x ∷ xs) ys h = (h.0, All-front P xs ys h.1)

line_max_bounds :
    (first_max max_w : ℕ) (lines : List (List ℕ))
    → first_max ≤ max_w
    → (first_max ≤ line_max first_max max_w lines) × (line_max first_max max_w lines ≤ max_w)
line_max_bounds first_max max_w lines le = ground arith

grown_line :
    (lines : List (List ℕ)) (line word : List ℕ)
    → spaced (lines ++ ((line ++ (space ∷ word)) ∷ []))
      ≡ spaced (lines ++ (line ∷ [])) ++ (space ∷ word)
grown_line lines line word =
    spaced_last lines (line ++ (space ∷ word))
    ∙ sym (append_assoc (spaced lines) (space ∷ line) (space ∷ word))
    ∙ ap (λ zs. zs ++ (space ∷ word)) (sym (spaced_last lines line))

add_word-IsFilled :
    (fuel first_max max_w : ℕ) (word : List ℕ) (s : Lines)
    → first_max ≤ max_w
    → IsShort first_max word
    → All (λ l. byte_len l ≤ max_w) (pending s)
    → IsFilled max_w (spaced (pending s) ++ (space ∷ word)) (add_word fuel first_max max_w word s)
unfolding add_word
add_word-IsFilled fuel first_max max_w [] s le short h = absurd (omega arith)
add_word-IsFilled fuel first_max max_w (d ∷ ds) (lines, []) le short h =
    let word : List ℕ = d ∷ ds in
    let (low, high) = line_max_bounds first_max max_w lines le in
    if_cases (IsFilled max_w (spaced lines ++ (space ∷ word)))
      (ltb (line_max first_max max_w lines) (byte_len word))
      (λ long. absurd (omega (tests, short.1)))
      (λ e. (spaced_last lines word, All-append _ lines (word ∷ []) h (omega (arith, short.1), tt)))
add_word-IsFilled fuel first_max max_w (d ∷ ds) (lines, c ∷ cs) le short h =
    let word : List ℕ = d ∷ ds in
    let line : List ℕ = c ∷ cs in
    let (low, high) = line_max_bounds first_max max_w lines le in
    if_cases (IsFilled max_w (spaced (lines ++ (line ∷ [])) ++ (space ∷ word)))
      (leb (byte_len line + 1 + byte_len word) (line_max first_max max_w lines))
      (λ e. (
        grown_line lines line word,
        All-append _ lines ((line ++ (space ∷ word)) ∷ []) (All-front _ lines (line ∷ []) h)
            (omega (tests, byte_len-append line (space ∷ word)), tt),
      ))
      (λ e. (
        spaced_last (lines ++ (line ∷ [])) word,
        All-append _ (lines ++ (line ∷ [])) (word ∷ []) h (omega (arith, short.1), tt),
      ))

then-IsFilled :
    (fuel first_max max_w : ℕ) (words : List (List ℕ)) (text : List ℕ) (o : Option Lines)
    → ((s : Lines)
        → All (λ l. byte_len l ≤ max_w) (pending s)
        → IsFilled max_w
            (spaced (pending s) ++ spaced words)
            (add_words fuel first_max max_w words s))
    → IsFilled max_w text o
    → IsFilled max_w (text ++ spaced words) (and_then o (add_words fuel first_max max_w words))
then-IsFilled fuel first_max max_w words text none next h = h
then-IsFilled fuel first_max max_w words text (some s) next h =
    subst (λ xs. IsFilled max_w (xs ++ spaced words) (add_words fuel first_max max_w words s)) h.0
      (next s h.1)

add_words-IsFilled :
    (fuel first_max max_w : ℕ) (words : List (List ℕ)) (s : Lines)
    → first_max ≤ max_w
    → All (IsShort first_max) words
    → All (λ l. byte_len l ≤ max_w) (pending s)
    → IsFilled max_w (spaced (pending s) ++ spaced words) (add_words fuel first_max max_w words s)
unfolding add_words
add_words-IsFilled fuel first_max max_w [] s le short h = (sym (append-nil (spaced (pending s))), h)
add_words-IsFilled fuel first_max max_w (word ∷ words) s le short h =
    subst (λ xs. IsFilled max_w xs (add_words fuel first_max max_w (word ∷ words) s))
      (append_assoc (spaced (pending s)) (space ∷ word) (spaced words))
      (then-IsFilled fuel first_max max_w words _ (add_word fuel first_max max_w word s)
        (λ s' h'. add_words-IsFilled fuel first_max max_w words s' le short.1 h')
        (add_word-IsFilled fuel first_max max_w word s le short.0 h))

-- Lines with the words of a message in order, none wider than the terminal less its margin.
abbrev pub Holds : ℕ → List (List ℕ) → Option (List (List ℕ)) → Type 0
Holds max_w words none = ⊥
Holds max_w words (some lines) = (spaced lines ≡ spaced words) × All (λ l. byte_len l ≤ max_w) lines

at_least_one-spaced :
    (ls : List (List ℕ)) (text : List ℕ) → spaced ls ≡ space ∷ text → at_least_one ls ≡ ls
at_least_one-spaced [] text e = absurd (ground arith)
at_least_one-spaced (l ∷ ls) text e = refl

finish-Holds :
    (max_w : ℕ) (w : List ℕ) (words : List (List ℕ)) (o : Option Lines)
    → IsFilled max_w (spaced (w ∷ words)) o
    → Holds max_w (w ∷ words) (finish_lines o)
finish-Holds max_w w words none h = h
finish-Holds max_w w words (some s) h =
    subst (λ ls. (spaced ls ≡ spaced (w ∷ words)) × All (λ l. byte_len l ≤ max_w) ls)
      (sym (at_least_one-spaced (pending s) (w ++ spaced words) h.0)) h

-- A message of which each word has at least eight columns less than the terminal is broken at spaces
-- only: its words stand on the lines in order, and no line is wider than the terminal less four.
pub banner_lines-Holds :
    (fuel term_w : ℕ) (word : List ℕ) (words : List (List ℕ))
    → All (IsShort (term_w - 4 - 4)) (word ∷ words)
    → Holds (term_w - 4) (word ∷ words) (banner_lines fuel term_w (word ∷ words))
unfolding banner_lines
banner_lines-Holds fuel term_w word words short = finish-Holds (term_w - 4) word words _ (
    add_words-IsFilled fuel (term_w - 4 - 4) (term_w - 4) (word ∷ words) ([], []) (omega arith)
      short tt)

-- A long word behind a short one is not broken: it stands on a line of its own, however wide that is.
pub banner_lines_overflow :
    (fuel term_w : ℕ) (first second : List ℕ)
    → IsShort (term_w - 4 - 4) first
    → term_w - 4 < byte_len second
    → banner_lines fuel term_w (first ∷ second ∷ []) ≡ some (first ∷ second ∷ [])
unfolding banner_lines add_words add_word
banner_lines_overflow fuel term_w [] second short long = absurd (omega arith)
banner_lines_overflow fuel term_w (c ∷ cs) [] short long = absurd (omega arith)
banner_lines_overflow fuel term_w (c ∷ cs) (d ∷ ds) short long =
    let first_max : ℕ = term_w - 4 - 4 in
    let e1 : ltb first_max (byte_len (c ∷ cs)) ≡ false = le→not-ltb _ _ short.1 in
    let e2 : leb (byte_len (c ∷ cs) + 1 + byte_len (d ∷ ds)) first_max ≡ false =
      lt→not-leb _ _ (omega (arith, long)) in
    rw (e1, e2) refl
