-- ===== src/Encoder/Session/Follow.antt =====
-- src/video_encode.rs: a turn of the encode loop brings the session to the configuration.
use meshconf.Prelude.{
  ℕ, ◌+◌, ◌%◌, u64_mod, ◌≡◌, Bool, true, false, Option, none, some, ◌∷◌, arith, if_cases,
}
use meshconf.Bandwidth.{EncoderConfig}
use meshconf.Encoder.Session.{
  Frame, Conditions, EncodedOutput, EncodeLoop, settings, recreate, apply_quality, apply_bitrate,
  adapt, pixel_buffer, forward_output, submit, encode, turn,
}

-- The session has the settings that the loop's variables say; they are those of the configuration,
-- but for the bitrate, where the flag is down.
pub record IsFollowing (c : EncoderConfig) (s : EncodeLoop) : Type 0 where
  pub session : s.session ≡ record {
    width = s.enc_width;
    height = s.enc_height;
    fps = s.enc_fps;
    bitrate_bps = s.applied_bitrate;
  }
  pub width : c.quality_changed ≡ false → s.enc_width ≡ c.target_width
  pub height : c.quality_changed ≡ false → s.enc_height ≡ c.target_height
  pub fps : c.quality_changed ≡ false → s.enc_fps ≡ c.target_fps

-- A loop that has ended follows nothing.
abbrev pub FollowsIfAlive : EncoderConfig → EncodeLoop → Type 0
FollowsIfAlive c s = s.ended ≡ false → IsFollowing c s

abbrev pub Settles : EncoderConfig → EncoderConfig × EncodeLoop → Type 0
Settles c (c', s') = s'.ended ≡ false → (s'.session ≡ settings c) × IsFollowing c' s'

-- What a frame leaves alone.
record IsSameSession (s s' : EncodeLoop) : Type 0 where
  session : s'.session ≡ s.session
  width : s'.enc_width ≡ s.enc_width
  height : s'.enc_height ≡ s.enc_height
  fps : s'.enc_fps ≡ s.enc_fps
  bitrate : s'.applied_bitrate ≡ s.applied_bitrate
  ended : s.ended ≡ true → s'.ended ≡ true

forward_output-IsSameSession :
    (open_ : Bool) (ts : ℕ) (out : Option EncodedOutput) (s : EncodeLoop)
    → IsSameSession s (forward_output open_ ts out s)
unfolding forward_output
forward_output-IsSameSession open_ ts none s = ground arith
forward_output-IsSameSession open_ ts (some out) s = ground arith

submit-IsSameSession :
    (cond : Conditions) (ts : ℕ) (buffer : Option (ℕ × ℕ)) (s : EncodeLoop)
    → IsSameSession s (submit cond ts buffer s)
unfolding submit
submit-IsSameSession cond ts none s = ground arith
submit-IsSameSession cond ts (some buffer) s =
    let s1 : EncodeLoop = record s {
      force_keyframe = false;
      requests =
          record {
            session = s.session_id;
            buffer = buffer;
            size = (s.session.width, s.session.height);
            forced = s.force_keyframe;
          }
          ∷ s.requests;
    } in
    ground (arith, forward_output-IsSameSession cond.receiver_open ts cond.output s1)

encode-IsSameSession :
    (cond : Conditions) (f : Frame) (s : EncodeLoop) → IsSameSession s (encode cond f s)
unfolding encode pixel_buffer
encode-IsSameSession cond f s =
    let s1 : EncodeLoop = record s { frame_count = (s.frame_count + 1) % u64_mod } in
    let buffer : EncodeLoop × Option (ℕ × ℕ) = pixel_buffer cond f s1 in
    ground (arith, submit-IsSameSession cond f.capture_timestamp_us buffer.1 buffer.0)

adapt-settings :
    (creates : Bool) (c : EncoderConfig) (s : EncodeLoop)
    → IsFollowing c s
    → Settles c (adapt creates c s)
unfolding adapt apply_quality apply_bitrate recreate
adapt-settings creates c s v h = ground arith

encode-IsFollowing :
    (cond : Conditions) (f : Frame) (c : EncoderConfig) (s : EncodeLoop)
    → FollowsIfAlive c s
    → FollowsIfAlive c (encode cond f s)
encode-IsFollowing cond f c s v alive =
    let w : IsFollowing c s = v (ground (arith, encode-IsSameSession cond f s)) in
    ground (arith, encode-IsSameSession cond f s)

-- A turn at whose end the loop goes on has brought the session to the configuration.
pub turn-settings :
    (cond : Conditions) (f : Frame) (cancelled : Bool) (c : EncoderConfig) (s : EncodeLoop)
    → FollowsIfAlive c s
    → Settles c (turn cond f cancelled c s)
unfolding turn
turn-settings cond f cancelled c s v =
    let s1 : EncodeLoop = encode cond f s in
    if_cases (Settles c) s.ended (λ e a. absurd (cc))
      (λ e.
        if_cases (Settles c) s1.ended (λ e1 a. absurd (cc))
          (λ e1.
            if_cases (Settles c) cancelled (λ e2 a. absurd (cc))
              (λ e2. adapt-settings cond.creates c s1 (encode-IsFollowing cond f c s v e1))))
