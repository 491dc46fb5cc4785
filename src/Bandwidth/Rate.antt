-- ===== src/Bandwidth/Rate.antt =====
-- How the bitrate of src/bandwidth.rs moves.
use meshconf.Prelude.{◌∙◌, ℕ, ◌+◌, ◌<◌, ◌≤◌, ◌≡◌, ◌≢◌, refl, true, false, arith}
use meshconf.Bandwidth.Floats.{F64}
use meshconf.Bandwidth.{
  min_bitrate_bps, max_bitrate_bps, hold_after_decrease, BandwidthEvent, send_complete, rtt_sample,
  stream_stopped, receiver_feedback, EncoderConfig_new, CongestionLevel, clear, mild, moderate,
  severe, BandwidthEstimator, BandwidthEstimator_new, try_probe, decrease, assess, react,
  handle_event,
}
use meshconf.Bandwidth.Ladder.{IsTracking, shrunk, raised}

module _ (fl : F64) where
  open fl use {F, of_ℕ, lit, mul, add, gtb, to_u32, scale_le}

  -- What `assess` leaves alone.
  assess-keeps :
      (event : BandwidthEvent F) (s : BandwidthEstimator F)
      → let s' = (assess fl event s).0 in
        (s'.current_bitrate ≡ s.current_bitrate)
        × (s'.last_decrease ≡ s.last_decrease)
        × (s'.last_probe ≡ s.last_probe)
        × (s'.quality_idx ≡ s.quality_idx)
        × (s'.config ≡ s.config)
  unfolding assess
  assess-keeps (send_complete secs bytes) s = (refl, refl, refl, refl, refl)
  assess-keeps (rtt_sample us) s = ground arith
  assess-keeps stream_stopped s = (refl, refl, refl, refl, refl)
  assess-keeps (receiver_feedback lost jitter) s = (refl, refl, refl, refl, refl)

  bitrate-decrease :
      (now n : ℕ) (s : BandwidthEstimator F)
      → 50 ≤ n
      → n ≤ 85
      → min_bitrate_bps ≤ s.current_bitrate
      → s.current_bitrate ≤ max_bitrate_bps
      → let s' = decrease fl now (lit n 100) s in
        (s'.current_bitrate ≤ s.current_bitrate) × (s'.last_decrease ≡ now)
  unfolding decrease
  bitrate-decrease now n s lo hi l h = ground (arith, shrunk fl s.current_bitrate n lo hi l h)

  bitrate-react :
      (now : ℕ) (level : CongestionLevel) (s : BandwidthEstimator F)
      → level ≢ clear
      → min_bitrate_bps ≤ s.current_bitrate
      → s.current_bitrate ≤ max_bitrate_bps
      → let s' = react fl now level s in
        (s'.current_bitrate ≤ s.current_bitrate) × (s'.last_decrease ≡ now)
  unfolding react
  bitrate-react now clear s ne l h = absurd (ne refl)
  bitrate-react now mild s ne l h = bitrate-decrease now 85 s (omega arith) (omega arith) l h
  bitrate-react now moderate s ne l h = bitrate-decrease now 80 s (omega arith) (omega arith) l h
  bitrate-react now severe s ne l h = bitrate-decrease now 50 s (omega arith) (omega arith) l h

  bitrate-try_probe_held :
      (now : ℕ) (s : BandwidthEstimator F)
      → now < s.last_decrease + hold_after_decrease
      → try_probe fl now s ≡ s
  unfolding try_probe
  bitrate-try_probe_held now s h = ground arith

  -- While the hold after a decrease lasts, no event raises the bitrate of an estimator that tracks
  -- its state, as every estimator does from its start on.
  pub handle_event-held :
      (now : ℕ) (event : BandwidthEvent F) (s : BandwidthEstimator F)
      → IsTracking s
      → now < s.last_decrease + hold_after_decrease
      → (handle_event fl now event s).current_bitrate ≤ s.current_bitrate
  unfolding handle_event react
  handle_event-held now event s v h = ground (
    arith,
    assess-keeps event s,
    bitrate-try_probe_held now (assess fl event s).0,
    bitrate-react now (assess fl event s).1 (assess fl event s).0,
  )

  flagged-decrease :
      (now : ℕ) (factor : F) (s : BandwidthEstimator F)
      → (decrease fl now factor s).quality_idx ≢ s.quality_idx
      → (decrease fl now factor s).config.quality_changed ≡ true
  unfolding decrease
  flagged-decrease now factor s ne = ground arith

  flagged-try_probe :
      (now : ℕ) (s : BandwidthEstimator F)
      → (try_probe fl now s).quality_idx ≢ s.quality_idx
      → (try_probe fl now s).config.quality_changed ≡ true
  unfolding try_probe
  flagged-try_probe now s ne = ground arith

  flagged-react :
      (now : ℕ) (level : CongestionLevel) (s : BandwidthEstimator F)
      → (react fl now level s).quality_idx ≢ s.quality_idx
      → (react fl now level s).config.quality_changed ≡ true
  unfolding react
  flagged-react now clear s ne = flagged-try_probe now s ne
  flagged-react now mild s ne = flagged-decrease now (lit 85 100) s ne
  flagged-react now moderate s ne = flagged-decrease now (lit 80 100) s ne
  flagged-react now severe s ne = flagged-decrease now (lit 50 100) s ne

  -- A quality step that changes is flagged to the encoder.
  pub quality_changed-handle_event :
      (now : ℕ) (event : BandwidthEvent F) (s : BandwidthEstimator F)
      → (handle_event fl now event s).quality_idx ≢ s.quality_idx
      → (handle_event fl now event s).config.quality_changed ≡ true
  unfolding handle_event
  quality_changed-handle_event now event s ne =
      flagged-react now (assess fl event s).1 (assess fl event s).0
        (λ e. ne (e ∙ (assess-keeps event s).3))

  -- Receiver feedback without loss, at least two seconds after the start, raises the bitrate of a
  -- new estimator above the 500 kbps of the README, which is the rate it starts at.
  pub receiver_feedback-exceeds :
      (start now jitter : ℕ) (lost : F)
      → start + 2_000_000 ≤ now
      → gtb lost (lit 2 100) ≡ false
      → gtb lost (lit 5 100) ≡ false
      → gtb lost (lit 10 100) ≡ false
      → 500_000
        < (handle_event fl now
            (receiver_feedback lost jitter)
            (BandwidthEstimator_new fl start EncoderConfig_new)).config.target_bitrate
  unfolding handle_event react assess try_probe BandwidthEstimator_new
  receiver_feedback-exceeds start now jitter lost h a b c =
      ground (arith, raised fl 500_000 (omega arith))
