-- ===== src/Tui/Break.antt =====
-- src/tui.rs, `draw_error_banner`: when the loop that breaks a long word ends.
use meshconf.Prelude.{
  and_then, ℕ, zero, suc, ◌+◌, ◌-◌, ◌≤◌, ◌<◌, ◌≡◌, refl, true, Option, none, some, List, [], ◌∷◌,
  ◌++◌, ltb, leb, length, take, drop, length-drop, All, arith, if_cases,
}
use meshconf.Tui.Banner.{
  byte_len, is_empty, line_max, break_word, Lines, broken, add_word, add_words, finish_lines,
  banner_lines,
}

break_word_stuck :
    (fuel c : ℕ) (cs : List ℕ) (lines : List (List ℕ)) → break_word fuel 0 0 lines (c ∷ cs) ≡ none
unfolding break_word
break_word_stuck zero c cs lines = refl
break_word_stuck (suc fuel) c cs lines =
    if_cases (λ n. break_word fuel 0 0 (lines ++ (take n (c ∷ cs) ∷ [])) (drop n (c ∷ cs)) ≡ none)
      (is_empty lines) (λ e. break_word_stuck fuel c cs _) (λ e. break_word_stuck fuel c cs _)

-- In a terminal of at most four columns the lines of a message that has a word are never found, with
-- whatever fuel: the loop that breaks a long word does not end.
pub banner_lines-stuck :
    (fuel term_w c : ℕ) (cs : List ℕ) (words : List (List ℕ))
    → term_w ≤ 4
    → banner_lines fuel term_w ((c ∷ cs) ∷ words) ≡ none
unfolding banner_lines add_words add_word
banner_lines-stuck fuel term_w c cs words h =
    let e1 : term_w - 4 - 4 ≡ 0 = omega arith in
    let e2 : term_w - 4 ≡ 0 = omega arith in
    let long : ltb 0 (byte_len (c ∷ cs)) ≡ true = ground arith in
    rw (e1, e2, long, break_word_stuck) refl

abbrev pub IsFound {ℓ} : {A : Type ℓ} → Option A → Type 0
IsFound none = ⊥
IsFound (some a) = Unit

break_word-IsFound :
    (fuel first_max max_w : ℕ) (lines : List (List ℕ)) (word : List ℕ)
    → 0 < first_max
    → first_max ≤ max_w
    → length word < fuel
    → IsFound (break_word fuel first_max max_w lines word)
unfolding break_word
break_word-IsFound zero first_max max_w lines word pos le len = absurd (omega arith)
break_word-IsFound (suc fuel) first_max max_w lines [] pos le len = tt
break_word-IsFound (suc fuel) first_max max_w lines (c ∷ cs) pos le len =
    let n : ℕ = line_max first_max max_w lines in
    break_word-IsFound fuel first_max max_w _ (drop n (c ∷ cs)) pos le
      (ground (arith, length-drop n (c ∷ cs)))

broken-IsFound : (o : Option (List (List ℕ))) → IsFound o → IsFound (broken o)
broken-IsFound none h = h
broken-IsFound (some lines) h = tt

add_word-IsFound :
    (fuel first_max max_w : ℕ) (word : List ℕ) (s : Lines)
    → 0 < first_max
    → first_max ≤ max_w
    → length word < fuel
    → IsFound (add_word fuel first_max max_w word s)
unfolding add_word
add_word-IsFound fuel first_max max_w word (lines, []) pos le len =
    if_cases IsFound (ltb (line_max first_max max_w lines) (byte_len word))
      (λ e. broken-IsFound _ (break_word-IsFound fuel first_max max_w lines word pos le len))
      (λ e. tt)
add_word-IsFound fuel first_max max_w word (lines, c ∷ cs) pos le len =
    if_cases IsFound (leb (byte_len (c ∷ cs) + 1 + byte_len word) (line_max first_max max_w lines))
      (λ e. tt) (λ e. tt)

then-IsFound :
    (o : Option Lines) (f : Lines → Option Lines)
    → IsFound o
    → ((s : Lines) → IsFound (f s))
    → IsFound (and_then o f)
then-IsFound none f h next = h
then-IsFound (some s) f h next = next s

add_words-IsFound :
    (fuel first_max max_w : ℕ) (words : List (List ℕ)) (s : Lines)
    → 0 < first_max
    → first_max ≤ max_w
    → All (λ w. length w < fuel) words
    → IsFound (add_words fuel first_max max_w words s)
unfolding add_words
add_words-IsFound fuel first_max max_w [] s pos le len = tt
add_words-IsFound fuel first_max max_w (word ∷ words) s pos le len =
    then-IsFound (add_word fuel first_max max_w word s) (add_words fuel first_max max_w words)
      (add_word-IsFound fuel first_max max_w word s pos le len.0)
      (λ s'. add_words-IsFound fuel first_max max_w words s' pos le len.1)

finish-IsFound : (o : Option Lines) → IsFound o → IsFound (finish_lines o)
finish-IsFound none h = h
finish-IsFound (some s) h = tt

-- In a terminal of more than eight columns every message is laid out: more fuel than the longest word
-- has characters is enough for the loop that breaks it.
pub banner_lines-IsFound :
    (fuel term_w : ℕ) (words : List (List ℕ))
    → 8 < term_w
    → All (λ w. length w < fuel) words
    → IsFound (banner_lines fuel term_w words)
unfolding banner_lines
banner_lines-IsFound fuel term_w words wide len = finish-IsFound _ (
    add_words-IsFound fuel (term_w - 4 - 4) (term_w - 4) words ([], []) (omega arith) (omega arith)
      len)
