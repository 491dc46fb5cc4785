-- ===== src/Decoder.antt =====
-- src/video_decode.rs, `run_video_decoder`: the keyframe gate and the gap detection in front of the
-- decoder, and what the compositor receives. The counters are those of src/video_compositor.rs.
pub mod Chain
pub mod History
pub mod Hevc
pub mod Tests
use meshconf.Prelude.{
  ◌-◌, ◌^◌, ℕ, ◌+◌, ◌%◌, Bool, true, false, not, ◌&&◌, Option, none, some, List, [], ◌∷◌, ltb, ◌==◌,
  if◌then◌else◌, u64_mod,
}
use meshconf.Protocol.Object.{MediaObject}

pub record VideoDropCounter : Type 0 where
  pub drops : ℕ
  pub received : ℕ

abbrev pub VideoDropCounter_new : VideoDropCounter
VideoDropCounter_new = record { drops = 0; received = 0 }

-- `fetch_add` wraps.
abbrev pub VideoDropCounter_increment : VideoDropCounter → VideoDropCounter
VideoDropCounter_increment c = record c { drops = (c.drops + 1) % u64_mod }

abbrev pub VideoDropCounter_increment_received : VideoDropCounter → VideoDropCounter
VideoDropCounter_increment_received c = record c { received = (c.received + 1) % u64_mod }

pub record RgbFrame : Type 0 where
  pub group_id : ℕ
  pub capture_timestamp_us : ℕ
  pub width : ℕ
  pub height : ℕ
  pub pixels : List ℕ

-- What the decoder's callback hands over.
pub record DecodedRgbFrame : Type 0 where
  pub width : ℕ
  pub height : ℕ
  pub pixels : List ℕ

-- `Result<Option<DecodedRgbFrame>>`.
pub data Decoded : Type 0 where
  frame : DecodedRgbFrame → Decoded
  buffered : Decoded
  failed : Decoded

-- A session of VideoToolbox.
pub record HevcDecoder : Type 1 where
  pub Session : Type 0
  pub new_from_annex_b : List ℕ → Option Session
  pub params_match : Session → List ℕ → Bool
  pub decode_annex_b : Session → List ℕ → Session × Decoded

-- The variables of the task, with what the channel to the compositor accepted, newest first, and
-- the slots that it has free.
pub record DecoderTask (S : Type 0) : Type 0 where
  pub decoder : Option S
  pub got_keyframe : Bool
  pub keyframe_group : ℕ
  pub last_decoded_group : ℕ
  pub video_drops : VideoDropCounter
  pub sent : List RgbFrame
  pub free : ℕ

abbrev pub is_key : MediaObject → Bool
is_key obj = obj.subgroup_id == 0

abbrev pub drop_frame : {S : Type 0} → DecoderTask S → DecoderTask S
drop_frame s = record s { video_drops = VideoDropCounter_increment s.video_drops }

-- The gap detection.
unfoldable pub detect_gap : {S : Type 0} → MediaObject → DecoderTask S → DecoderTask S
detect_gap obj s =
    if s.got_keyframe && not (is_key obj)
    then if obj.group_id == (s.last_decoded_group + 1) % u64_mod
      then s
      else drop_frame (record s { got_keyframe = false; decoder = none })
    else s

-- The keyframe gate, and the update of `keyframe_group` behind it: `false` for `continue`.
unfoldable pub gate : {S : Type 0} → MediaObject → DecoderTask S → DecoderTask S × Bool
gate obj s =
    if not s.got_keyframe && not (is_key obj)
    then (drop_frame s, false)
    else let s1 =
        if s.got_keyframe
        then s
        else record s { got_keyframe = true; keyframe_group = obj.group_id } in
      (
        if is_key obj && ltb s1.keyframe_group obj.group_id
            then record s1 { keyframe_group = obj.group_id }
            else s1,
        true,
      )

module _ (hevc : HevcDecoder) where
  open hevc use {Session, new_from_annex_b, params_match, decode_annex_b}

  abbrev needs_new_session : MediaObject → Option Session → Bool
  needs_new_session obj none = true
  needs_new_session obj (some dec) = not (params_match dec obj.payload)

  abbrev open_session : Option Session → DecoderTask Session → DecoderTask Session × Bool
  open_session none s = (drop_frame (record s { got_keyframe = false }), false)
  open_session (some d) s = (record s { decoder = some d }, true)

  -- The session of a keyframe, created anew where the parameter sets changed.
  unfoldable pub prepare : MediaObject → DecoderTask Session → DecoderTask Session × Bool
  prepare obj s =
      if is_key obj && needs_new_session obj s.decoder
      then open_session (new_from_annex_b obj.payload) s
      else (s, true)

  abbrev send_frame : MediaObject → DecodedRgbFrame → DecoderTask Session → DecoderTask Session
  send_frame obj f s =
      if ltb 0 s.free
      then record s {
        sent =
            record {
              group_id = obj.group_id;
              capture_timestamp_us = obj.capture_timestamp_us;
              width = f.width % 2 ^ 32;
              height = f.height % 2 ^ 32;
              pixels = f.pixels;
            }
            ∷ s.sent;
        free = s.free - 1;
      }
      else drop_frame s

  -- What the result of the decoder does.
  unfoldable pub finish :
      MediaObject → Session → Decoded → DecoderTask Session → DecoderTask Session
  finish obj dec (frame f) s =
      send_frame obj f (record s { decoder = some dec; last_decoded_group = obj.group_id })
  finish obj dec buffered s = record s { decoder = some dec; last_decoded_group = obj.group_id }
  finish obj dec failed s = drop_frame (record s { got_keyframe = false; decoder = none })

  unfoldable pub decode : MediaObject → Option Session → DecoderTask Session → DecoderTask Session
  decode obj none s = drop_frame s
  decode obj (some dec) s =
      let (dec', result) = decode_annex_b dec obj.payload in finish obj dec' result s

  -- One turn of the loop.
  unfoldable pub step : MediaObject → DecoderTask Session → DecoderTask Session
  step obj s =
      let (s1, through) = gate obj (detect_gap obj s) in
      if through
      then (let (s2, ready) = prepare obj s1 in if ready then decode obj s2.decoder s2 else s2)
      else s1

  unfoldable pub run : List MediaObject → DecoderTask Session → DecoderTask Session
  run [] s = s
  run (obj ∷ objs) s = run objs (step obj s)

  -- The variables before the loop.
  unfoldable pub start : ℕ → VideoDropCounter → DecoderTask Session
  start free counter = record {
    decoder = none;
    got_keyframe = false;
    keyframe_group = 0;
    last_decoded_group = 0;
    video_drops = counter;
    sent = [];
    free = free;
  }
