-- ===== src/AnnexB.antt =====
-- The byte stream of HEVC units: `extract_annex_b` of src/video_encode.rs on the sending side, and the
-- scanner and the conversions of src/video_decode.rs on the receiving side. A unit is its bytes, where
-- the code has offsets into the stream.
pub mod Scan
pub mod Frames
pub mod Tests
use meshconf.Prelude.{
  ℕ, zero, suc, ◌+◌, ◌/◌, ◌%◌, Bool, true, false, not, ◌&&◌, ◌||◌, Option, none, some, List, [],
  ◌∷◌, ◌++◌, length, take, drop, ltb, leb, ◌==◌, if◌then◌else◌, bit_and, u32_mod, be_bytes32,
  from_be, Result, ok, err, ◌>>=◌, fuel_spent, estimate_exceeded, nalu_beyond_buffer,
  bad_header_length,
}

-- Behind two zeros: the end of a start code of four bytes or of three, with what follows it.
abbrev pub code_end : ℕ → List ℕ → Option (List ℕ)
code_end c [] = if c == 1 then some [] else none
code_end c (d ∷ rest) =
    if (c == 0) && (d == 1) then some rest else if c == 1 then some (d ∷ rest) else none

-- What follows the start code at the front, if there is one.
abbrev pub start_code : List ℕ → Option (List ℕ)
start_code [] = none
start_code (a ∷ []) = none
start_code (a ∷ b ∷ []) = none
start_code (a ∷ b ∷ c ∷ rest) = if (a == 0) && (b == 0) then code_end c rest else none

abbrev pub is_code : Option (List ℕ) → Bool
is_code none = false
is_code (some rest) = true

-- The bytes up to the next start code, and the stream from there on.
abbrev pub take_nalu : List ℕ → List ℕ × List ℕ
take_nalu [] = ([], [])
take_nalu (x ∷ xs) =
    let (nalu, rest) = take_nalu xs in
    if is_code (start_code (x ∷ xs)) then ([], x ∷ xs) else (x ∷ nalu, rest)

-- A unit is yielded unless it is empty.
abbrev pub yield_nalu : List ℕ → List (List ℕ) → List (List ℕ)
yield_nalu [] later = later
yield_nalu (y ∷ ys) later = (y ∷ ys) ∷ later

-- The units that the iterator yields. Each turn moves on, so the length of the stream is enough fuel.
unfoldable pub scan : ℕ → List ℕ → List (List ℕ)
scan zero xs = []
scan (suc fuel) [] = []
scan (suc fuel) (x ∷ xs) = elim (start_code (x ∷ xs)) [
  | none ↦ scan fuel xs
  | some rest ↦ let (nalu, rest') = take_nalu rest in yield_nalu nalu (scan fuel rest')
]

unfoldable pub parse_annex_b_nalus : List ℕ → List (List ℕ)
unfolding scan
parse_annex_b_nalus xs = scan (length xs) xs

abbrev pub is_param_type : ℕ → Bool
is_param_type t = (t == 32) || (t == 33) || (t == 34)

-- VPS, SPS and PPS; a unit of less than two bytes is passed over.
abbrev pub is_param_set : List ℕ → Bool
is_param_set [] = false
is_param_set (a ∷ []) = false
is_param_set (a ∷ b ∷ rest) = is_param_type (bit_and (a / 2) 0x3f)

abbrev pub is_picture : List ℕ → Bool
is_picture [] = false
is_picture (a ∷ []) = false
is_picture (a ∷ b ∷ rest) = not (is_param_type (bit_and (a / 2) 0x3f))

abbrev pub hvcc_unit : List ℕ → List ℕ
hvcc_unit nalu = be_bytes32 (length nalu % u32_mod) ++ nalu

abbrev pub hvcc_of : List (List ℕ) → List ℕ
hvcc_of [] = []
hvcc_of (nalu ∷ nalus) =
    let later = hvcc_of nalus in if is_picture nalu then hvcc_unit nalu ++ later else later

-- The output is cleared first.
pub annex_b_to_hvcc_into : List ℕ → List ℕ
unfolding parse_annex_b_nalus
annex_b_to_hvcc_into annex_b = hvcc_of (parse_annex_b_nalus annex_b)

abbrev pub param_bytes : List (List ℕ) → List ℕ
param_bytes [] = []
param_bytes (nalu ∷ nalus) =
    let later = param_bytes nalus in if is_param_set nalu then nalu ++ later else later

pub collect_param_set_bytes : List ℕ → List ℕ
unfolding parse_annex_b_nalus
collect_param_set_bytes annex_b = param_bytes (parse_annex_b_nalus annex_b)

-- `push_bytes!`, into a buffer of `estimate` bytes.
abbrev pub push_bytes : ℕ → List ℕ → List ℕ → Result (List ℕ)
push_bytes estimate buf s =
    if ltb estimate (length buf + length s) then err estimate_exceeded else ok (buf ++ s)

abbrev pub push_nalu : ℕ → List ℕ → List ℕ → Result (List ℕ)
push_nalu estimate buf nalu = do
  buf1 ← push_bytes estimate buf (0 ∷ 0 ∷ 0 ∷ 1 ∷ [])
  push_bytes estimate buf1 nalu

abbrev pub push_nalus : ℕ → List ℕ → List (List ℕ) → Result (List ℕ)
push_nalus estimate buf [] = ok buf
push_nalus estimate buf (nalu ∷ nalus) = do
  buf1 ← push_nalu estimate buf nalu
  push_nalus estimate buf1 nalus

abbrev pub read_nalu_len : ℕ → List ℕ → Result ℕ
read_nalu_len header_len data_ =
    if (header_len == 4) || (header_len == 2) || (header_len == 1)
    then ok (from_be 0 (take header_len data_))
    else err bad_header_length

-- The units of the sample, each with its length in front.
pub push_sample : ℕ → ℕ → ℕ → List ℕ → List ℕ → Result (List ℕ)
push_sample zero header_len estimate data_ buf = err fuel_spent
push_sample (suc fuel) header_len estimate data_ buf =
    if leb header_len (length data_)
    then (do
      nalu_len ← read_nalu_len header_len data_
      let rest : List ℕ = drop header_len data_
      if ltb (length rest) nalu_len then err nalu_beyond_buffer else (do
        buf1 ← push_nalu estimate buf (take nalu_len rest)
        push_sample fuel header_len estimate (drop nalu_len rest) buf1))
    else ok buf

-- The parameter sets are those of the format description, for a keyframe, and none otherwise.
pub extract_annex_b : List (List ℕ) → ℕ → List ℕ → Result (List ℕ)
unfolding push_sample
extract_annex_b param_sets header_len data_ =
    let estimate = length data_ + 256 in
    do
      buf ← push_nalus estimate [] param_sets
      push_sample (suc (length data_)) header_len estimate data_ buf
