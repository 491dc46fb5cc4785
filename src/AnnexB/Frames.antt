-- ===== src/AnnexB/Frames.antt =====
-- A sample of the encoder in src/video_encode.rs, sent as a byte stream and converted back for the
-- decoder in src/video_decode.rs.
use mathlib.Core.List.{append-nil, append_assoc}
use meshconf.Prelude.{
  ap, ◌∙◌, sym, ℕ, zero, suc, ◌+◌, ◌%◌, ◌≤◌, ◌<◌, ◌≡◌, refl, true, false, not, List, [], ◌∷◌, ◌++◌,
  length, take_append, drop_append, All, All-append, arith, length-append, u32_mod, be_bytes32,
  from_be, ok, ◌>>=◌, ltb, leb, le→not-ltb,
}
use meshconf.AnnexB.{
  is_param_set, is_picture, hvcc_unit, hvcc_of, annex_b_to_hvcc_into, param_bytes,
  collect_param_set_bytes, push_bytes, push_nalu, push_nalus, push_sample, extract_annex_b,
}
use meshconf.AnnexB.Scan.{annex_b, IsUnit, parse_annex_b_nalus-annex_b}

-- A sample: its units, each with its length in four bytes in front.
abbrev pub sample : List (List ℕ) → List ℕ
sample [] = []
sample (nalu ∷ nalus) = hvcc_unit nalu ++ sample nalus

abbrev pub joined : List (List ℕ) → List ℕ
joined [] = []
joined (nalu ∷ nalus) = nalu ++ joined nalus

push_bytes_fits :
    (estimate : ℕ) (buf s : List ℕ)
    → length buf + length s ≤ estimate
    → push_bytes estimate buf s ≡ ok (buf ++ s)
push_bytes_fits estimate buf s h = rw (le→not-ltb estimate (length buf + length s) h) refl

push_nalu_fits :
    (estimate : ℕ) (buf nalu : List ℕ)
    → length buf + (4 + length nalu) ≤ estimate
    → push_nalu estimate buf nalu ≡ ok (buf ++ (0 ∷ 0 ∷ 0 ∷ 1 ∷ nalu))
push_nalu_fits estimate buf nalu h =
    ap (λ r. r >>= (λ b. push_bytes estimate b nalu))
      (push_bytes_fits estimate buf (0 ∷ 0 ∷ 0 ∷ 1 ∷ []) (omega arith))
    ∙ push_bytes_fits estimate (buf ++ (0 ∷ 0 ∷ 0 ∷ 1 ∷ [])) nalu
        (omega (arith, length-append buf (0 ∷ 0 ∷ 0 ∷ 1 ∷ [])))
    ∙ ap ok (append_assoc buf (0 ∷ 0 ∷ 0 ∷ 1 ∷ []) nalu)

push_nalus_fit :
    (estimate : ℕ) (buf : List ℕ) (nalus : List (List ℕ))
    → length buf + length (annex_b nalus) ≤ estimate
    → push_nalus estimate buf nalus ≡ ok (buf ++ annex_b nalus)
push_nalus_fit estimate buf [] h = ap ok (sym (append-nil buf))
push_nalus_fit estimate buf (nalu ∷ nalus) h =
    let size = length-append nalu (annex_b nalus) in
    ap (λ r. r >>= (λ b. push_nalus estimate b nalus))
      (push_nalu_fits estimate buf nalu (omega (arith, size)))
    ∙ push_nalus_fit estimate (buf ++ (0 ∷ 0 ∷ 0 ∷ 1 ∷ nalu)) nalus
        (omega (arith, size, length-append buf (0 ∷ 0 ∷ 0 ∷ 1 ∷ nalu)))
    ∙ ap ok (append_assoc buf (0 ∷ 0 ∷ 0 ∷ 1 ∷ nalu) (annex_b nalus))

read_back : (n : ℕ) → n < u32_mod → from_be 0 (be_bytes32 (n % u32_mod)) ≡ n
read_back n h = omega arith

-- One turn of the loop, on a sample that goes on with a unit.
push_sample_unit :
    (fuel estimate : ℕ) (nalu rest buf : List ℕ)
    → length nalu < u32_mod
    → length buf + (4 + length nalu) ≤ estimate
    → push_sample (suc fuel) 4 estimate (hvcc_unit nalu ++ rest) buf
      ≡ push_sample fuel 4 estimate rest (buf ++ (0 ∷ 0 ∷ 0 ∷ 1 ∷ nalu))
unfolding push_sample
push_sample_unit fuel estimate nalu rest buf small fits =
    let long : leb 4 (length (hvcc_unit nalu ++ rest)) ≡ true = ground arith in
    let inside : ltb (length (nalu ++ rest)) (length nalu) ≡ false =
      le→not-ltb (length (nalu ++ rest)) (length nalu) (omega (arith, length-append nalu rest)) in
    rw
      (
        long,
        read_back (length nalu) small,
        inside,
        take_append nalu rest,
        drop_append nalu rest,
        push_nalu_fits estimate buf nalu fits,
      )
      refl

length-sample : (nalus : List (List ℕ)) → length (sample nalus) ≡ length (annex_b nalus)
length-sample [] = refl
length-sample (nalu ∷ nalus) = omega (
  arith,
  length-append nalu (annex_b nalus),
  length-append nalu (sample nalus),
  length-sample nalus,
)

push_sample-sample :
    (nalus : List (List ℕ)) (fuel estimate : ℕ) (buf : List ℕ)
    → length (sample nalus) < fuel
    → All (λ nalu. length nalu < u32_mod) nalus
    → length buf + length (annex_b nalus) ≤ estimate
    → push_sample fuel 4 estimate (sample nalus) buf ≡ ok (buf ++ annex_b nalus)
unfolding push_sample
push_sample-sample nalus zero estimate buf h small fits = absurd (omega arith)
push_sample-sample [] (suc fuel) estimate buf h small fits = ap ok (sym (append-nil buf))
push_sample-sample (nalu ∷ nalus) (suc fuel) estimate buf h (s, small) fits =
    let size = length-append nalu (annex_b nalus) in
    let size_sample = length-append nalu (sample nalus) in
    push_sample_unit fuel estimate nalu (sample nalus) buf s (omega (arith, size))
    ∙ push_sample-sample nalus fuel estimate (buf ++ (0 ∷ 0 ∷ 0 ∷ 1 ∷ nalu))
        (omega (arith, size_sample)) small
        (omega (arith, size, length-append buf (0 ∷ 0 ∷ 0 ∷ 1 ∷ nalu)))
    ∙ ap ok (append_assoc buf (0 ∷ 0 ∷ 0 ∷ 1 ∷ nalu) (annex_b nalus))

-- The encoder's stream holds the parameter sets and the units of the sample, each behind a start code,
-- where the parameter sets fit the 256 bytes that the estimate adds.
pub extract_annex_b-sample :
    (param_sets nalus : List (List ℕ))
    → length (annex_b param_sets) ≤ 256
    → All (λ nalu. length nalu < u32_mod) nalus
    → extract_annex_b param_sets 4 (sample nalus) ≡ ok (annex_b param_sets ++ annex_b nalus)
unfolding extract_annex_b
extract_annex_b-sample param_sets nalus fits small =
    let n : ℕ = length (sample nalus) in
    ap (λ r. r >>= push_sample (suc n) 4 (n + 256) (sample nalus))
      (push_nalus_fit (n + 256) [] param_sets (omega arith))
    ∙ push_sample-sample nalus (suc n) (n + 256) (annex_b param_sets) (omega arith) small
        (omega (arith, length-sample nalus))

annex_b-append : (xs ys : List (List ℕ)) → annex_b xs ++ annex_b ys ≡ annex_b (xs ++ ys)
annex_b-append [] ys = refl
annex_b-append (x ∷ xs) ys =
    ap (λ (r : List ℕ). 0 ∷ 0 ∷ 0 ∷ 1 ∷ r)
      (append_assoc x (annex_b xs) (annex_b ys) ∙ ap (◌++◌ x) (annex_b-append xs ys))

param_set_not_picture : (nalu : List ℕ) → is_param_set nalu ≡ true → is_picture nalu ≡ false
param_set_not_picture [] h = ground arith
param_set_not_picture (a ∷ []) h = ground arith
param_set_not_picture (a ∷ b ∷ rest) h = ap not h

picture_not_param_set : (nalu : List ℕ) → is_picture nalu ≡ true → is_param_set nalu ≡ false
picture_not_param_set [] h = ground arith
picture_not_param_set (a ∷ []) h = ground arith
picture_not_param_set (a ∷ b ∷ rest) h = ground arith

hvcc_of_frame :
    (param_sets nalus : List (List ℕ))
    → All (λ nalu. is_param_set nalu ≡ true) param_sets
    → All (λ nalu. is_picture nalu ≡ true) nalus
    → hvcc_of (param_sets ++ nalus) ≡ sample nalus
hvcc_of_frame [] [] hp hn = refl
hvcc_of_frame [] (nalu ∷ nalus) hp (h, hn) = rw (h, hvcc_of_frame [] nalus hp hn) refl
hvcc_of_frame (p ∷ ps) nalus (h, hp) hn =
    rw (param_set_not_picture p h, hvcc_of_frame ps nalus hp hn) refl

pub param_bytes_frame :
    (param_sets nalus : List (List ℕ))
    → All (λ nalu. is_param_set nalu ≡ true) param_sets
    → All (λ nalu. is_picture nalu ≡ true) nalus
    → param_bytes (param_sets ++ nalus) ≡ joined param_sets
param_bytes_frame [] [] hp hn = refl
param_bytes_frame [] (nalu ∷ nalus) hp (h, hn) =
    rw (picture_not_param_set nalu h, param_bytes_frame [] nalus hp hn) refl
param_bytes_frame (p ∷ ps) nalus (h, hp) hn = rw (h, param_bytes_frame ps nalus hp hn) refl

pub collect_param_set_bytes-annex_b :
    (param_sets nalus : List (List ℕ))
    → All IsUnit (param_sets ++ nalus)
    → All (λ nalu. is_param_set nalu ≡ true) param_sets
    → All (λ nalu. is_picture nalu ≡ true) nalus
    → collect_param_set_bytes (annex_b (param_sets ++ nalus)) ≡ joined param_sets
unfolding collect_param_set_bytes
collect_param_set_bytes-annex_b param_sets nalus u hp hn =
    ap param_bytes (parse_annex_b_nalus-annex_b (param_sets ++ nalus) u)
    ∙ param_bytes_frame param_sets nalus hp hn

-- A keyframe that the encoder makes of its parameter sets and a sample is converted back, by the
-- receiver, to that sample, and the parameter sets that the receiver compares are those sent. The
-- units are not empty and have no start code inside, each is a parameter set or a picture as its
-- place says, and the parameter sets with their start codes take at most 256 bytes.
pub annex_b_to_hvcc_into-extract_annex_b :
    (param_sets nalus : List (List ℕ))
    → length (annex_b param_sets) ≤ 256
    → All (λ nalu. length nalu < u32_mod) nalus
    → All IsUnit param_sets
    → All IsUnit nalus
    → All (λ nalu. is_param_set nalu ≡ true) param_sets
    → All (λ nalu. is_picture nalu ≡ true) nalus
    → let stream = annex_b (param_sets ++ nalus) in
      (extract_annex_b param_sets 4 (sample nalus) ≡ ok stream)
      × (annex_b_to_hvcc_into stream ≡ sample nalus)
      × (collect_param_set_bytes stream ≡ joined param_sets)
unfolding annex_b_to_hvcc_into
annex_b_to_hvcc_into-extract_annex_b param_sets nalus fits small up un hp hn =
    let scanned =
      parse_annex_b_nalus-annex_b (param_sets ++ nalus)
        (All-append IsUnit param_sets nalus up un) in
    (
      extract_annex_b-sample param_sets nalus fits small ∙ ap ok (annex_b-append param_sets nalus),
      ap hvcc_of scanned ∙ hvcc_of_frame param_sets nalus hp hn,
      collect_param_set_bytes-annex_b param_sets nalus (All-append IsUnit param_sets nalus up un) hp
          hn,
    )
