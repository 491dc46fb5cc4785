-- ===== src/Decoder/Hevc.antt =====
-- src/video_decode.rs, `HevcDecoder`: the session around VideoToolbox, as the decoder's task uses it.
use meshconf.Prelude.{
  ℕ, ◌≡◌, refl, ap, ◌∙◌, Bool, true, false, Option, none, some, List, [], ◌∷◌, ◌++◌, ◌==◌,
  if◌then◌else◌, All, arith,
}
use meshconf.AnnexB.{
  is_param_set, is_picture, parse_annex_b_nalus, annex_b_to_hvcc_into, collect_param_set_bytes,
  param_bytes,
}
use meshconf.AnnexB.Scan.{annex_b, IsUnit, parse_annex_b_nalus-annex_b}
use meshconf.AnnexB.Frames.{joined, param_bytes_frame, collect_param_set_bytes-annex_b}
use meshconf.Decoder.{HevcDecoder, Decoded, buffered}

-- A session is made of parameter sets, and decodes a sample of units with their lengths in front.
pub record VideoToolbox : Type 1 where
  pub Vt : Type 0
  pub create : List (List ℕ) → Option Vt
  pub decode_frame : Vt → List ℕ → Vt × Decoded

pub record HevcSession (Vt : Type 0) : Type 0 where
  pub session : Vt
  pub hvcc_buf : List ℕ
  pub param_set_bytes : List ℕ

abbrev pub param_sets_of : List (List ℕ) → List (List ℕ)
param_sets_of [] = []
param_sets_of (nalu ∷ nalus) =
    let later = param_sets_of nalus in if is_param_set nalu then nalu ∷ later else later

-- `scratch == self.param_set_bytes`.
abbrev pub same_bytes : List ℕ → List ℕ → Bool
same_bytes [] [] = true
same_bytes [] (y ∷ ys) = false
same_bytes (x ∷ xs) [] = false
same_bytes (x ∷ xs) (y ∷ ys) = let rest = same_bytes xs ys in if x == y then rest else false

module _ (toolbox : VideoToolbox) where
  open toolbox use {Vt, create, decode_frame}

  abbrev pub wrap_session : List ℕ → Option Vt → Option (HevcSession Vt)
  wrap_session bytes none = none
  wrap_session bytes (some v) =
      some (record { session = v; hvcc_buf = []; param_set_bytes = bytes })

  -- `none` where there are no parameter sets, or VideoToolbox refuses them.
  abbrev pub create_session : List (List ℕ) → List ℕ → Option (HevcSession Vt)
  create_session [] bytes = none
  create_session (p ∷ ps) bytes = wrap_session bytes (create (p ∷ ps))

  unfoldable pub new_from_annex_b : List ℕ → Option (HevcSession Vt)
  new_from_annex_b stream =
      let nalus = parse_annex_b_nalus stream in
      create_session (param_sets_of nalus) (param_bytes nalus)

  pub params_match : HevcSession Vt → List ℕ → Bool
  params_match s stream = same_bytes (collect_param_set_bytes stream) s.param_set_bytes

  -- A stream with no picture is not an error.
  abbrev pub decode_hvcc : HevcSession Vt → List ℕ → HevcSession Vt × Decoded
  decode_hvcc s [] = (record s { hvcc_buf = [] }, buffered)
  decode_hvcc s (b ∷ bs) =
      let (v, result) = decode_frame s.session (b ∷ bs) in
      (record s { session = v; hvcc_buf = b ∷ bs }, result)

  pub decode_annex_b : HevcSession Vt → List ℕ → HevcSession Vt × Decoded
  decode_annex_b s stream = decode_hvcc s (annex_b_to_hvcc_into stream)

  -- The decoder that the task of the module `Decoder` takes.
  pub hevc_decoder : HevcDecoder
  unfolding new_from_annex_b params_match decode_annex_b
  hevc_decoder = record {
    Session = HevcSession Vt;
    new_from_annex_b = new_from_annex_b;
    params_match = params_match;
    decode_annex_b = decode_annex_b;
  }

  bytes-wrap_session :
      (bytes : List ℕ) (o : Option Vt) (s : HevcSession Vt)
      → wrap_session bytes o ≡ some s
      → s.param_set_bytes ≡ bytes
  bytes-wrap_session bytes none s h = ground arith
  bytes-wrap_session bytes (some v) s h = ground arith

  bytes-create_session :
      (ps : List (List ℕ)) (bytes : List ℕ) (s : HevcSession Vt)
      → create_session ps bytes ≡ some s
      → s.param_set_bytes ≡ bytes
  bytes-create_session [] bytes s h = ground arith
  bytes-create_session (p ∷ ps) bytes s h = bytes-wrap_session bytes (create (p ∷ ps)) s h

  -- A session that was made of one keyframe matches another keyframe exactly where the bytes of their
  -- parameter sets agree, whatever pictures the two carry. The keyframes are made of units as the
  -- encoder makes them, with the parameter sets in front.
  pub params_match-new_from_annex_b :
      (ps ps' nalus nalus' : List (List ℕ)) (s : HevcSession Vt)
      → All IsUnit (ps ++ nalus)
      → All IsUnit (ps' ++ nalus')
      → All (λ nalu. is_param_set nalu ≡ true) ps
      → All (λ nalu. is_param_set nalu ≡ true) ps'
      → All (λ nalu. is_picture nalu ≡ true) nalus
      → All (λ nalu. is_picture nalu ≡ true) nalus'
      → new_from_annex_b (annex_b (ps ++ nalus)) ≡ some s
      → params_match s (annex_b (ps' ++ nalus')) ≡ same_bytes (joined ps') (joined ps)
  unfolding new_from_annex_b params_match
  params_match-new_from_annex_b ps ps' nalus nalus' s u u' p p' n n' e =
      let bytes : s.param_set_bytes ≡ joined ps =
        bytes-create_session _ _ s e
        ∙ ap param_bytes (parse_annex_b_nalus-annex_b (ps ++ nalus) u)
        ∙ param_bytes_frame ps nalus p n in
      rw (bytes, collect_param_set_bytes-annex_b ps' nalus' u' p' n') refl
