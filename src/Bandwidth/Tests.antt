-- ===== src/Bandwidth/Tests.antt =====
-- Runs of the estimator of src/bandwidth.rs, with fractions in the place of floating-point numbers.
use meshconf.Prelude.{ℕ, ◌≡◌, refl, List, [], ◌∷◌, arith, none}
use meshconf.Bandwidth.Sample.{fractions}
use meshconf.Bandwidth.{
  BandwidthEvent, send_complete, rtt_sample, stream_stopped, receiver_feedback, EncoderConfig_new,
  BandwidthEstimator, BandwidthEstimator_new, handle_event, react, assess, decrease, run,
}
use meshconf.Bandwidth.Ladder.{IsTracking, run-new-IsTracking}

abbrev fresh : BandwidthEstimator (ℕ × ℕ)
fresh = record {
  config = EncoderConfig_new;
  current_bitrate = 500_000;
  quality_idx = 2;
  baseline_rtt_us = none;
  smoothed_rtt_us = none;
  last_probe = 0;
  last_decrease = 0;
  frame_interval_ms = (1000, 15);
}

abbrev bad_minute : List (ℕ × BandwidthEvent (ℕ × ℕ))
bad_minute =
    (1_000_000, receiver_feedback (30, 100) 0)
    ∷ (2_000_000, stream_stopped)
    ∷ (3_000_000, send_complete (1, 2) 4000)
    ∷ (9_000_000, rtt_sample 30_000)
    ∷ []

halved : (handle_event fractions 1_000_000 stream_stopped fresh).current_bitrate ≡ 250_000
unfolding handle_event react assess decrease
halved = refl

lowered : (handle_event fractions 1_000_000 stream_stopped fresh).quality_idx ≡ 1
unfolding handle_event react assess decrease
lowered = refl

run-new-IsTracking_example :
    IsTracking (run fractions bad_minute (BandwidthEstimator_new fractions 0 EncoderConfig_new))
run-new-IsTracking_example = run-new-IsTracking fractions 0 bad_minute

fresh-IsTracking : IsTracking fresh
fresh-IsTracking = ground arith
