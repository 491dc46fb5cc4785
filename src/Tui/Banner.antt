-- ===== src/Tui/Banner.antt =====
-- src/tui.rs, `draw_error_banner`: a message in lines. A word is its characters; the code measures text
-- by the bytes of its UTF-8 form, and cuts it by characters.
use meshconf.Prelude.{
  and_then, ℕ, zero, suc, ◌+◌, ◌-◌, ◌/◌, ◌%◌, ◌^◌, Bool, true, false, Option, none, some, List, [],
  ◌∷◌, ◌++◌, ltb, leb, ◌==◌, if◌then◌else◌, take, drop, replicate,
}
use meshconf.Tui.{Placed, space}

abbrev pub utf8_len : ℕ → ℕ
utf8_len c = if ltb c 0x80 then 1 else if ltb c 0x800 then 2 else if ltb c 0x10000 then 3 else 4

abbrev pub byte_len : List ℕ → ℕ
byte_len [] = 0
byte_len (c ∷ cs) = utf8_len c + byte_len cs

abbrev pub is_empty {ℓ} : {A : Type ℓ} → List A → Bool
is_empty [] = true
is_empty (x ∷ xs) = false

abbrev pub line_max : ℕ → ℕ → List (List ℕ) → ℕ
line_max first_max max_w lines = if is_empty lines then first_max else max_w

-- The loop that breaks a long word; `none` is for a loop that the fuel does not end.
unfoldable pub break_word : ℕ → ℕ → ℕ → List (List ℕ) → List ℕ → Option (List (List ℕ))
break_word zero first_max max_w lines remaining = none
break_word (suc fuel) first_max max_w lines [] = some lines
break_word (suc fuel) first_max max_w lines (c ∷ cs) =
    let lmax = line_max first_max max_w lines in
    break_word fuel first_max max_w (lines ++ (take lmax (c ∷ cs) ∷ [])) (drop lmax (c ∷ cs))

abbrev pub Lines : Type 0
Lines = List (List ℕ) × List ℕ

abbrev pub broken : Option (List (List ℕ)) → Option Lines
broken none = none
broken (some lines) = some (lines, [])

-- One word: the lines so far, and the line that is being filled.
unfoldable pub add_word : ℕ → ℕ → ℕ → List ℕ → Lines → Option Lines
unfolding break_word
add_word fuel first_max max_w word (lines, []) =
    if ltb (line_max first_max max_w lines) (byte_len word)
    then broken (break_word fuel first_max max_w lines word)
    else some (lines, word)
add_word fuel first_max max_w word (lines, c ∷ cs) =
    if leb (byte_len (c ∷ cs) + 1 + byte_len word) (line_max first_max max_w lines)
    then some (lines, (c ∷ cs) ++ (space ∷ word))
    else some (lines ++ ((c ∷ cs) ∷ []), word)

unfoldable pub add_words : ℕ → ℕ → ℕ → List (List ℕ) → Lines → Option Lines
unfolding add_word
add_words fuel first_max max_w [] s = some s
add_words fuel first_max max_w (word ∷ words) s =
    and_then (add_word fuel first_max max_w word s) (add_words fuel first_max max_w words)

abbrev pub pending : Lines → List (List ℕ)
pending (lines, []) = lines
pending (lines, c ∷ cs) = lines ++ ((c ∷ cs) ∷ [])

abbrev pub at_least_one : List (List ℕ) → List (List ℕ)
at_least_one [] = [] ∷ []
at_least_one (l ∷ ls) = l ∷ ls

abbrev pub finish_lines : Option Lines → Option (List (List ℕ))
finish_lines none = none
finish_lines (some s) = some (at_least_one (pending s))

-- The lines of a message, by its words, in a terminal of a width.
unfoldable pub banner_lines : ℕ → ℕ → List (List ℕ) → Option (List (List ℕ))
unfolding add_words
banner_lines fuel term_w words =
    finish_lines (add_words fuel (term_w - 4 - 4) (term_w - 4) words ([], []))

-- `"⚠ "`, of four bytes.
abbrev pub prefix : List ℕ
prefix = 0x26a0 ∷ space ∷ []

abbrev pub full_line : Bool → List ℕ → List ℕ
full_line is_first line = (if is_first then prefix else replicate 4 space) ++ line

abbrev pub place_lines : ℕ → ℕ → List (List ℕ) → List Placed
place_lines term_w i [] = []
place_lines term_w i (line ∷ lines) =
    let text = full_line (i == 0) line in
    record { col = (term_w - byte_len text) / 2 % 2 ^ 16; row = (1 + i) % 2 ^ 16; text = text }
    ∷ place_lines term_w (i + 1) lines

-- The words are those of `split_whitespace`, which are not empty.
unfoldable pub draw_error_banner : ℕ → ℕ → List (List ℕ) → Option (List Placed)
unfolding banner_lines
draw_error_banner fuel term_w words = elim (banner_lines fuel term_w words) [
  | none ↦ none
  | some lines ↦ some (place_lines term_w 0 lines)
]
