-- ===== src/Encoder/Session.antt =====
-- src/video_encode.rs, `encode_loop`: the VideoToolbox session follows the estimator's configuration,
-- and each captured frame is encoded at the session's size. What VideoToolbox and vImage do in a turn
-- is given to it.
pub mod Coherent
pub mod Follow
pub mod Adaptive
pub mod Requests
use meshconf.Prelude.{
  ℕ, ◌+◌, ◌%◌, Bool, true, false, not, ◌&&◌, Option, none, some, List, [], ◌∷◌, ◌==◌, if◌then◌else◌,
  u64_mod, Outlet, offer,
}
use meshconf.Bandwidth.{QualityPreset, EncoderConfig, highest}
use meshconf.Encoder.{EncodedPacket}

-- `Frame` of src/video_capture.rs, without its pixels.
pub record Frame : Type 0 where
  pub width : ℕ
  pub height : ℕ
  pub capture_timestamp_us : ℕ

pub record EncodedOutput : Type 0 where
  pub payload : List ℕ
  pub is_keyframe : Bool

-- What the system's calls do: whether a session can be created, whether scaling, filling a pixel
-- buffer and encoding succeed, what the output callback has sent, and whether there is a receiver of
-- packets.
pub record Conditions : Type 0 where
  pub creates : Bool
  pub scales : Bool
  pub fills : Bool
  pub encodes : Bool
  pub output : Option EncodedOutput
  pub receiver_open : Bool

-- A frame that the session is given: which session, the size of the pixel buffer and of the session,
-- and whether a keyframe is demanded.
pub record EncodeRequest : Type 0 where
  pub session : ℕ
  pub buffer : ℕ × ℕ
  pub size : ℕ × ℕ
  pub forced : Bool

-- The variables of the loop. `session` has the settings of the session, `session_id` its number, and
-- `requests` what sessions were given, newest first.
pub record EncodeLoop : Type 0 where
  pub enc_width : ℕ
  pub enc_height : ℕ
  pub enc_fps : ℕ
  pub applied_bitrate : ℕ
  pub session : QualityPreset
  pub session_id : ℕ
  pub frame_count : ℕ
  pub resize_pool : Option (ℕ × ℕ)
  pub force_keyframe : Bool
  pub packet_tx : Outlet EncodedPacket
  pub requests : List EncodeRequest
  pub ended : Bool

abbrev pub settings : EncoderConfig → QualityPreset
settings c = record {
  width = c.target_width;
  height = c.target_height;
  fps = c.target_fps;
  bitrate_bps = c.target_bitrate;
}

-- The settings before the loop: those of the highest preset, where there is no configuration.
abbrev pub initial_settings : Option EncoderConfig → QualityPreset
initial_settings none = highest
initial_settings (some c) = settings c

unfoldable pub recreate : Bool → EncoderConfig → EncodeLoop → EncodeLoop
recreate creates c s =
    let s1 = record s {
      enc_width = c.target_width;
      enc_height = c.target_height;
      enc_fps = c.target_fps;
      applied_bitrate = c.target_bitrate;
      frame_count = 0;
      resize_pool = none;
    } in
    if creates
    then record s1 { session = settings c; session_id = s.session_id + 1; force_keyframe = true }
    else record s1 { ended = true }

-- Whether the configuration has another resolution or frame rate.
abbrev pub is_stale : EncoderConfig → EncodeLoop → Bool
is_stale c s = not (
    c.target_width == s.enc_width
    && (c.target_height == s.enc_height)
    && (c.target_fps == s.enc_fps))

unfoldable pub apply_quality : Bool → EncoderConfig → EncodeLoop → EncodeLoop
unfolding recreate
apply_quality creates c s = if c.quality_changed && is_stale c s then recreate creates c s else s

unfoldable pub apply_bitrate : EncoderConfig → EncodeLoop → EncodeLoop
apply_bitrate c s = if c.target_bitrate == s.applied_bitrate then s else record s {
  applied_bitrate = c.target_bitrate;
  session = record s.session { bitrate_bps = c.target_bitrate };
}

-- The top of the loop, where there is a configuration; it takes the flag down.
unfoldable pub adapt : Bool → EncoderConfig → EncodeLoop → EncoderConfig × EncodeLoop
unfolding apply_quality apply_bitrate
adapt creates c s =
    let s1 = apply_quality creates c s in
    (record c { quality_changed = false }, if s1.ended then s1 else apply_bitrate c s1)

abbrev pub pool_size : Option (ℕ × ℕ) → ℕ × ℕ → ℕ × ℕ
pool_size none size = size
pool_size (some pool) size = pool

-- The size of the pixel buffer that is encoded: the camera's own, or one of the pool; `none` for
-- `continue`.
unfoldable pub pixel_buffer : Conditions → Frame → EncodeLoop → EncodeLoop × Option (ℕ × ℕ)
pixel_buffer cond f s =
    if f.width == s.enc_width && (f.height == s.enc_height)
    then (s, some (f.width, f.height))
    else if cond.scales
    then (let size = pool_size s.resize_pool (s.enc_width, s.enc_height) in
        (record s { resize_pool = some size }, if cond.fills then some size else none))
    else (s, none)

-- The output of the callback, to the channel of packets.
unfoldable pub forward_output : Bool → ℕ → Option EncodedOutput → EncodeLoop → EncodeLoop
forward_output receiver_open ts none s = s
forward_output receiver_open ts (some out) s =
    if receiver_open
    then record s {
      packet_tx =
          offer
            (record {
              payload = out.payload;
              capture_timestamp_us = ts;
              is_keyframe = out.is_keyframe;
            })
            s.packet_tx;
    }
    else record s { ended = true }

unfoldable pub submit : Conditions → ℕ → Option (ℕ × ℕ) → EncodeLoop → EncodeLoop
unfolding forward_output
submit cond ts none s = s
submit cond ts (some buffer) s =
    let request : EncodeRequest = record {
      session = s.session_id;
      buffer = buffer;
      size = (s.session.width, s.session.height);
      forced = s.force_keyframe;
    } in
    let s1 = record s { force_keyframe = false; requests = request ∷ s.requests } in
    if cond.encodes then forward_output cond.receiver_open ts cond.output s1 else s1

unfoldable pub encode : Conditions → Frame → EncodeLoop → EncodeLoop
unfolding pixel_buffer submit
encode cond f s =
    let s1 = record s { frame_count = (s.frame_count + 1) % u64_mod } in
    let (s2, buffer) = pixel_buffer cond f s1 in submit cond f.capture_timestamp_us buffer s2

-- A frame that the loop was waiting for, and the top of the next turn; `cancelled` is what the token
-- says there.
unfoldable pub turn :
    Conditions → Frame → Bool → EncoderConfig → EncodeLoop → EncoderConfig × EncodeLoop
unfolding encode adapt
turn cond f cancelled c s =
    if s.ended
    then (c, s)
    else (let s1 = encode cond f s in
        if s1.ended
        then (c, s1)
        else if cancelled
        then (c, record s1 { ended = true })
        else adapt cond.creates c s1)

-- The state before the first frame, with the session created. The top of the first turn finds nothing
-- to do, since the configuration has just been read.
unfoldable pub start : Option EncoderConfig → Outlet EncodedPacket → EncodeLoop
start config packet_tx =
    let p = initial_settings config in
    record {
      enc_width = p.width;
      enc_height = p.height;
      enc_fps = p.fps;
      applied_bitrate = p.bitrate_bps;
      session = p;
      session_id = 0;
      frame_count = 0;
      resize_pool = none;
      force_keyframe = false;
      packet_tx = packet_tx;
      requests = [];
      ended = false;
    }
