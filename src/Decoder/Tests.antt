-- ===== src/Decoder/Tests.antt =====
-- Runs of the decoder's task of src/video_decode.rs, with a decoder that shows every payload but an
-- empty one.
use meshconf.Prelude.{◌*◌, ℕ, ◌≡◌, refl, true, false, none, some, List, [], ◌∷◌, arith}
use meshconf.Protocol.Object.{MediaObject}
use meshconf.Decoder.{
  finish, decode, prepare, gate, detect_gap, VideoDropCounter_new, HevcDecoder, Decoded, frame,
  failed, DecoderTask, start, step, run,
}
use meshconf.AnnexB.{parse_annex_b_nalus, scan}
use meshconf.AnnexB.Scan.{annex_b}
use meshconf.Decoder.Hevc.{VideoToolbox, HevcSession, new_from_annex_b}
use meshconf.Decoder.Chain.{step-refused}
use meshconf.Decoder.History.{IsContinuous, IsShown, decoded, run-start-IsContinuous}

abbrev show_payload : List ℕ → Decoded
show_payload [] = failed
show_payload (p ∷ ps) = frame (record { width = 1; height = 1; pixels = p ∷ ps })

abbrev echo : HevcDecoder
echo = record {
  Session = Unit;
  new_from_annex_b = λ bytes. some tt;
  params_match = λ session bytes. true;
  decode_annex_b = λ session bytes. (session, show_payload bytes);
}

abbrev object : ℕ → ℕ → MediaObject
object group subgroup = record {
  group_id = group;
  subgroup_id = subgroup;
  object_id = 0;
  capture_timestamp_us = 1000 * group;
  codec = none;
  payload = 1 ∷ [];
}

-- A keyframe, the frame behind it, and one that comes after a gap.
abbrev objects : List MediaObject
objects = object 4 0 ∷ object 5 1 ∷ object 7 1 ∷ object 8 1 ∷ object 9 0 ∷ []

abbrev running : DecoderTask Unit
running = record {
  decoder = some tt;
  got_keyframe = true;
  keyframe_group = 4;
  last_decoded_group = 5;
  video_drops = VideoDropCounter_new;
  sent = [];
  free = 9;
}

run_decodes :
    decoded echo objects (start echo 9 VideoDropCounter_new) []
    ≡ object 9 0 ∷ object 5 1 ∷ object 4 0 ∷ []
unfolding decoded start step detect_gap gate prepare decode finish
run_decodes = refl

run-start-IsContinuous_example :
    IsContinuous (decoded echo objects (start echo 9 VideoDropCounter_new) [])
    × IsShown
        (run echo objects (start echo 9 VideoDropCounter_new)).sent
        (decoded echo objects (start echo 9 VideoDropCounter_new) [])
run-start-IsContinuous_example = run-start-IsContinuous echo 9 VideoDropCounter_new objects

step-refused_example :
    ((step echo (object 7 1) running).got_keyframe ≡ false)
    × ((step echo (object 7 1) running).sent ≡ [])
    × ((step echo (object 7 1) running).video_drops.drops ≡ 2)
step-refused_example = step-refused echo (object 7 1) running (omega arith) refl

-- A VideoToolbox that takes all parameter sets and shows every sample.
abbrev showing : VideoToolbox
showing = record {
  Vt = Unit;
  create = λ ps. some tt;
  decode_frame = λ v bytes. (v, show_payload bytes);
}

abbrev vps : List ℕ
vps = 64 ∷ 1 ∷ 12 ∷ []

abbrev picture : List ℕ
picture = 2 ∷ 1 ∷ 7 ∷ []

abbrev vps_session : HevcSession Unit
vps_session = record { session = tt; hvcc_buf = []; param_set_bytes = vps }

new_from_annex_b_keyframe :
    new_from_annex_b showing (annex_b (vps ∷ picture ∷ [])) ≡ some vps_session
unfolding new_from_annex_b parse_annex_b_nalus scan
new_from_annex_b_keyframe = refl
