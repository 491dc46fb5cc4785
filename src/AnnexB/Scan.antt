-- ===== src/AnnexB/Scan.antt =====
-- The scanner of src/video_decode.rs finds the units of a stream.
use mathlib.Core.List.{append-nil}
use meshconf.Prelude.{
  ap, ◌∙◌, ℕ, zero, suc, ◌≤◌, ◌<◌, ◌≡◌, ◌≢◌, refl, Bool, true, false, not, ◌&&◌, Option, none, some,
  List, [], ◌∷◌, ◌++◌, length, All, arith, Option-cases, inl, inr, length-append,
}
use meshconf.AnnexB.{
  code_end, start_code, is_code, take_nalu, yield_nalu, scan, parse_annex_b_nalus,
}

-- A unit with no start code inside.
abbrev pub is_plain : List ℕ → Bool
is_plain [] = true
is_plain (x ∷ xs) = not (is_code (start_code (x ∷ xs))) && is_plain xs

-- A stream of units, each behind a start code of four bytes.
abbrev pub annex_b : List (List ℕ) → List ℕ
annex_b [] = []
annex_b (nalu ∷ nalus) = 0 ∷ 0 ∷ 0 ∷ 1 ∷ (nalu ++ annex_b nalus)

-- A start code behind a unit makes none that begins inside of it.
start_code_inside :
    (x : ℕ) (xs r : List ℕ)
    → start_code (x ∷ xs) ≡ none
    → start_code (x ∷ (xs ++ (0 ∷ 0 ∷ 0 ∷ 1 ∷ r))) ≡ none
start_code_inside x [] r h = ground arith
start_code_inside x (a ∷ []) r h = ground arith
start_code_inside x (a ∷ b ∷ []) r h = ground arith
start_code_inside x (a ∷ b ∷ c ∷ xs) r h = ground arith

code_none : (o : Option (List ℕ)) → is_code o ≡ false → o ≡ none
code_none none h = refl
code_none (some rest) h = ground arith

plain_parts :
    (x : ℕ) (xs : List ℕ)
    → is_plain (x ∷ xs) ≡ true
    → (start_code (x ∷ xs) ≡ none) × (is_plain xs ≡ true)
plain_parts x xs h = (code_none (start_code (x ∷ xs)) (ground arith), ground arith)

take_nalu-append :
    (nalu r : List ℕ)
    → is_plain nalu ≡ true
    → take_nalu (nalu ++ (0 ∷ 0 ∷ 0 ∷ 1 ∷ r)) ≡ (nalu, 0 ∷ 0 ∷ 0 ∷ 1 ∷ r)
take_nalu-append [] r h = refl
take_nalu-append (x ∷ xs) r h =
    let (inside, plain) = plain_parts x xs h in
    rw (start_code_inside x xs r inside, take_nalu-append xs r plain) refl

take_nalu_last : (nalu : List ℕ) → is_plain nalu ≡ true → take_nalu nalu ≡ (nalu, [])
take_nalu_last [] h = refl
take_nalu_last (x ∷ xs) h =
    let (inside, plain) = plain_parts x xs h in rw (inside, take_nalu_last xs plain) refl

take_nalu-annex_b :
    (nalu : List ℕ) (nalus : List (List ℕ))
    → is_plain nalu ≡ true
    → take_nalu (nalu ++ annex_b nalus) ≡ (nalu, annex_b nalus)
take_nalu-annex_b nalu [] h = rw (append-nil nalu) (take_nalu_last nalu h)
take_nalu-annex_b nalu (v ∷ vs) h = take_nalu-append nalu (v ++ annex_b vs) h

-- A unit as the encoder makes them.
abbrev pub IsUnit : List ℕ → Type 0
IsUnit nalu = (nalu ≢ []) × (is_plain nalu ≡ true)

yield_nonempty :
    (nalu : List ℕ) (later : List (List ℕ)) → nalu ≢ [] → yield_nalu nalu later ≡ nalu ∷ later
yield_nonempty [] later ne = absurd (ne refl)
yield_nonempty (y ∷ ys) later ne = refl

scan-annex_b :
    (nalus : List (List ℕ)) (fuel : ℕ)
    → length (annex_b nalus) ≤ fuel
    → All IsUnit nalus
    → scan fuel (annex_b nalus) ≡ nalus
unfolding scan
scan-annex_b [] zero h v = refl
scan-annex_b [] (suc fuel) h v = refl
scan-annex_b (nalu ∷ nalus) zero h v = absurd (omega arith)
scan-annex_b (nalu ∷ nalus) (suc fuel) h (v, vs) = rw (take_nalu-annex_b nalu nalus v.1) (
    yield_nonempty nalu (scan fuel (annex_b nalus)) v.0
    ∙ ap (◌∷◌ nalu)
        (scan-annex_b nalus fuel (omega (arith, length-append nalu (annex_b nalus))) vs))

-- The scanner yields the units that a stream was made of, where none is empty or has a start code
-- inside; a unit may end in zeros.
pub parse_annex_b_nalus-annex_b :
    (nalus : List (List ℕ)) → All IsUnit nalus → parse_annex_b_nalus (annex_b nalus) ≡ nalus
unfolding parse_annex_b_nalus
parse_annex_b_nalus-annex_b nalus v = scan-annex_b nalus (length (annex_b nalus)) (omega arith) v

code_end_shorter : (c : ℕ) (xs rest : List ℕ) → code_end c xs ≡ some rest → length rest ≤ length xs
code_end_shorter c [] rest h = ground arith
code_end_shorter c (d ∷ xs) rest h = ground arith

start_code_shorter : (xs rest : List ℕ) → start_code xs ≡ some rest → length rest < length xs
start_code_shorter [] rest h = ground arith
start_code_shorter (a ∷ []) rest h = ground arith
start_code_shorter (a ∷ b ∷ []) rest h = ground arith
start_code_shorter (a ∷ b ∷ c ∷ xs) rest h = ground (arith, code_end_shorter c xs rest)

take_nalu_shorter : (xs : List ℕ) → length (take_nalu xs).1 ≤ length xs
take_nalu_shorter [] = omega arith
take_nalu_shorter (x ∷ xs) = ground (arith, take_nalu_shorter xs)

-- With at least as much fuel as the stream has bytes, the fuel does not change what the scanner finds.
pub scan_fuel : (n m : ℕ) (xs : List ℕ) → length xs ≤ n → length xs ≤ m → scan n xs ≡ scan m xs
unfolding scan
scan_fuel zero zero [] hn hm = refl
scan_fuel zero (suc m) [] hn hm = refl
scan_fuel (suc n) zero [] hn hm = refl
scan_fuel (suc n) (suc m) [] hn hm = refl
scan_fuel zero m (x ∷ xs) hn hm = absurd (omega arith)
scan_fuel (suc n) zero (x ∷ xs) hn hm = absurd (omega arith)
scan_fuel (suc n) (suc m) (x ∷ xs) hn hm = elim (Option-cases (start_code (x ∷ xs))) [
  | inl e ↦ rw (scan, e) (scan_fuel n m xs (omega arith) (omega arith))
  | inr (rest, e) ↦
      rw (scan, e)
        (ap (yield_nalu (take_nalu rest).0) (
          scan_fuel n m (take_nalu rest).1
            (omega (arith, start_code_shorter (x ∷ xs) rest e, take_nalu_shorter rest))
            (omega (arith, start_code_shorter (x ∷ xs) rest e, take_nalu_shorter rest))))
]
