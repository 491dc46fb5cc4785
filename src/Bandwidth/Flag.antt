-- ===== src/Bandwidth/Flag.antt =====
-- src/bandwidth.rs: what the estimator leaves alone while it does not raise the flag for the encoder.
use meshconf.Prelude.{ℕ, ◌≡◌, refl, subst, false, arith}
use meshconf.Bandwidth.{
  EncoderConfig, BandwidthEvent, send_complete, rtt_sample, stream_stopped, receiver_feedback,
  CongestionLevel, clear, mild, moderate, severe, BandwidthEstimator, try_probe, decrease, assess,
  react, handle_event,
}
use meshconf.Bandwidth.Floats.{F64}

-- Where the flag is down after a change, it was down before, and the resolution and the frame rate
-- are the same.
pub record IsFlagged (c c' : EncoderConfig) : Type 0 where
  pub flag : c'.quality_changed ≡ false → c.quality_changed ≡ false
  pub width : c'.quality_changed ≡ false → c'.target_width ≡ c.target_width
  pub height : c'.quality_changed ≡ false → c'.target_height ≡ c.target_height
  pub fps : c'.quality_changed ≡ false → c'.target_fps ≡ c.target_fps

module _ (fl : F64) where
  open fl use {F, lit}

  try_probe-IsFlagged :
      (now : ℕ) (s : BandwidthEstimator F) → IsFlagged s.config (try_probe fl now s).config
  unfolding try_probe
  try_probe-IsFlagged now s = ground arith

  decrease-IsFlagged :
      (now : ℕ) (factor : F) (s : BandwidthEstimator F)
      → IsFlagged s.config (decrease fl now factor s).config
  unfolding decrease
  decrease-IsFlagged now factor s = ground arith

  react-IsFlagged :
      (now : ℕ) (level : CongestionLevel) (s : BandwidthEstimator F)
      → IsFlagged s.config (react fl now level s).config
  unfolding react
  react-IsFlagged now clear s = try_probe-IsFlagged now s
  react-IsFlagged now mild s = decrease-IsFlagged now (lit 85 100) s
  react-IsFlagged now moderate s = decrease-IsFlagged now (lit 80 100) s
  react-IsFlagged now severe s = decrease-IsFlagged now (lit 50 100) s

  pub config-assess :
      (event : BandwidthEvent F) (s : BandwidthEstimator F)
      → (assess fl event s).0.config ≡ s.config
  unfolding assess
  config-assess (send_complete secs bytes) s = refl
  config-assess (rtt_sample us) s = ground arith
  config-assess stream_stopped s = refl
  config-assess (receiver_feedback lost jitter) s = refl

  pub handle_event-IsFlagged :
      (now : ℕ) (event : BandwidthEvent F) (s : BandwidthEstimator F)
      → IsFlagged s.config (handle_event fl now event s).config
  unfolding handle_event
  handle_event-IsFlagged now event s =
      subst (λ c. IsFlagged c (handle_event fl now event s).config) (config-assess event s)
        (react-IsFlagged now (assess fl event s).1 (assess fl event s).0)
