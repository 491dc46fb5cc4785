-- ===== src/AnnexB/Tests.antt =====
-- Runs of the scanner and the conversions on a keyframe with one parameter set and one picture.
use meshconf.Prelude.{ℕ, ◌≡◌, refl, List, [], ◌∷◌, ok, arith}
use meshconf.AnnexB.{
  parse_annex_b_nalus, annex_b_to_hvcc_into, collect_param_set_bytes, extract_annex_b,
}
use meshconf.AnnexB.Scan.{annex_b}
use meshconf.AnnexB.Frames.{sample, annex_b_to_hvcc_into-extract_annex_b}

-- A VPS, whose type is 32, and a picture of type 1 that ends in a zero.
abbrev vps : List ℕ
vps = 64 ∷ 1 ∷ 12 ∷ []

abbrev picture : List ℕ
picture = 2 ∷ 1 ∷ 0 ∷ 3 ∷ 0 ∷ []

-- A start code of three bytes, an empty unit, and one of four bytes.
scan_short_codes :
    parse_annex_b_nalus (9 ∷ 0 ∷ 0 ∷ 1 ∷ 0 ∷ 0 ∷ 0 ∷ 1 ∷ 5 ∷ 6 ∷ []) ≡ (5 ∷ 6 ∷ []) ∷ []
unfolding parse_annex_b_nalus
scan_short_codes = refl

annex_b_to_hvcc_into-extract_annex_b_example :
    (extract_annex_b (vps ∷ []) 4 (sample (picture ∷ [])) ≡ ok (annex_b (vps ∷ picture ∷ [])))
    × (annex_b_to_hvcc_into (annex_b (vps ∷ picture ∷ [])) ≡ sample (picture ∷ []))
    × (collect_param_set_bytes (annex_b (vps ∷ picture ∷ [])) ≡ vps)
annex_b_to_hvcc_into-extract_annex_b_example =
    annex_b_to_hvcc_into-extract_annex_b (vps ∷ []) (picture ∷ []) (omega arith) (omega arith, tt)
      ((λ e. ground arith, refl), tt) ((λ e. ground arith, refl), tt) (refl, tt) (refl, tt)
