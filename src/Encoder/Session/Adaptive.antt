-- ===== src/Encoder/Session/Adaptive.antt =====
-- src/video_encode.rs with src/bandwidth.rs: the encode loop beside the estimator, with their events in any order.
use meshconf.Prelude.{◌∙◌, ℕ, ◌≡◌, Bool, true, false, some, List, [], ◌∷◌, arith, Outlet}
use meshconf.Bandwidth.{
  preset, EncoderConfig, EncoderConfig_new, BandwidthEvent, BandwidthEstimator,
  BandwidthEstimator_new, handle_event,
}
use meshconf.Bandwidth.Floats.{F64}
use meshconf.Bandwidth.Ladder.{IsTracking, handle_event-IsTracking, new-IsTracking}
use meshconf.Bandwidth.Flag.{IsFlagged, handle_event-IsFlagged}
use meshconf.Encoder.{EncodedPacket}
use meshconf.Encoder.Session.{Frame, Conditions, EncodeLoop, adapt, turn, start}
use meshconf.Encoder.Session.Follow.{IsFollowing, FollowsIfAlive, turn-settings}

-- What happens around the loop: the estimator has an event at a time, or a peer joins and the
-- broadcaster asks for a keyframe.
pub data LoopEvent (F : Type 0) : Type 0 where
  estimate : ℕ → BandwidthEvent F → LoopEvent F
  keyframe_wanted : LoopEvent F
  captured : Conditions → Frame → Bool → LoopEvent F

-- The estimator, with the configuration, and the encoder's loop.
pub record Encoding (F : Type 0) : Type 0 where
  pub estimator : BandwidthEstimator F
  pub encoder : EncodeLoop

module _ (fl : F64) where
  open fl use {F}

  unfoldable pub step : LoopEvent F → Encoding F → Encoding F
  step (estimate now event) s = record s { estimator = handle_event fl now event s.estimator }
  step keyframe_wanted s = record s { encoder = record s.encoder { force_keyframe = true } }
  step (captured cond f cancelled) s =
      let (config, encoder) = turn cond f cancelled s.estimator.config s.encoder in
      record { estimator = record s.estimator { config = config }; encoder = encoder }

  unfoldable pub run : List (LoopEvent F) → Encoding F → Encoding F
  run [] s = s
  run (event ∷ events) s = run events (step event s)

  abbrev pub begin : ℕ → Outlet EncodedPacket → Encoding F
  begin now packet_tx = record {
    estimator = BandwidthEstimator_new fl now EncoderConfig_new;
    encoder = start (some EncoderConfig_new) packet_tx;
  }

  record IsInStep (s : Encoding F) : Type 0 where
    tracking : IsTracking s.estimator
    following : FollowsIfAlive s.estimator.config s.encoder

  estimate-IsFollowing :
      (c c' : EncoderConfig) (s : EncodeLoop)
      → IsFlagged c c'
      → FollowsIfAlive c s
      → FollowsIfAlive c' s
  estimate-IsFollowing c c' s k v alive = let w : IsFollowing c s = v alive in ground arith

  turn-config :
      (cond : Conditions) (f : Frame) (cancelled : Bool) (c : EncoderConfig) (s : EncodeLoop)
      → let c' = (turn cond f cancelled c s).0 in
        (c'.target_bitrate ≡ c.target_bitrate)
        × (c'.target_width ≡ c.target_width)
        × (c'.target_height ≡ c.target_height)
        × (c'.target_fps ≡ c.target_fps)
  unfolding turn adapt
  turn-config cond f cancelled c s = ground arith

  step-IsInStep : (event : LoopEvent F) (s : Encoding F) → IsInStep s → IsInStep (step event s)
  unfolding step
  step-IsInStep (estimate now event) s v = record {
    tracking = handle_event-IsTracking fl now event s.estimator v.tracking;
    following =
        estimate-IsFollowing s.estimator.config _ s.encoder
          (handle_event-IsFlagged fl now event s.estimator) v.following;
  }
  step-IsInStep keyframe_wanted s v = record {
    tracking = v.tracking;
    following = λ alive.
        let w : IsFollowing s.estimator.config s.encoder = v.following alive in ground arith;
  }
  step-IsInStep (captured cond f cancelled) s v = record {
    tracking =
        let t : IsTracking s.estimator = v.tracking in
        ground (arith, turn-config cond f cancelled s.estimator.config s.encoder);
    following =
        λ alive. (turn-settings cond f cancelled s.estimator.config s.encoder v.following alive).1;
  }

  run-IsInStep :
      (events : List (LoopEvent F)) (s : Encoding F) → IsInStep s → IsInStep (run events s)
  unfolding run
  run-IsInStep [] s v = v
  run-IsInStep (event ∷ events) s v = run-IsInStep events (step event s) (step-IsInStep event s v)

  -- Whatever the estimator hears and whenever, a captured frame with which the loop goes on leaves the
  -- session with the resolution and the frame rate of the estimator's quality step, and with its
  -- bitrate.
  pub session-run :
      (now : ℕ) (packet_tx : Outlet EncodedPacket) (events : List (LoopEvent F)) (cond : Conditions)
      (f : Frame) (cancelled : Bool)
      → let s = step (captured cond f cancelled) (run events (begin now packet_tx)) in
        s.encoder.ended ≡ false
        → s.encoder.session
          ≡ record (preset s.estimator.quality_idx) { bitrate_bps = s.estimator.current_bitrate }
  unfolding step start BandwidthEstimator_new
  session-run now packet_tx events cond f cancelled alive =
      let s : Encoding F = run events (begin now packet_tx) in
      let v : IsInStep s =
        run-IsInStep events (begin now packet_tx)
          (record { tracking = new-IsTracking fl now; following = λ a. ground arith }) in
      let t : IsTracking s.estimator = v.tracking in
      (turn-settings cond f cancelled s.estimator.config s.encoder v.following alive).0
      ∙ ground arith
