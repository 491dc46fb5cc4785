-- ===== src/Bandwidth/Ladder.antt =====
-- The quality that the estimator of src/bandwidth.rs sets follows its bitrate.
use meshconf.Prelude.{inr, ◌⊎◌, inl, ℕ, ◌+◌, ◌*◌, ◌/◌, ◌<◌, ◌≤◌, ◌≡◌, List, [], ◌∷◌, arith}
use meshconf.Bandwidth.Floats.{F64}
use meshconf.Bandwidth.{
  receiver_feedback, rtt_sample, send_complete, preset, min_bitrate_bps, max_bitrate_bps,
  BandwidthEvent, EncoderConfig_new, CongestionLevel, clear, mild, moderate, severe,
  BandwidthEstimator, send_complete, rtt_sample, stream_stopped, receiver_feedback,
  BandwidthEstimator_new, try_probe, decrease, assess, react, handle_event, run,
}

-- The bitrates at which the quality `i` is kept: above that of the step below, and below that of
-- the step above.
abbrev pub InBand : ℕ → ℕ → Type 0
InBand i bitrate =
    (i ≤ 2)
    × (i ≡ 0 → bitrate < 250_000)
    × (i ≡ 1 → (100_000 < bitrate) × (bitrate < 500_000))
    × (i ≡ 2 → 250_000 < bitrate)

-- The configuration that the encoder reads agrees with the estimator's state.
pub record IsTracking {F : Type 0} (s : BandwidthEstimator F) : Type 0 where
  pub low : min_bitrate_bps ≤ s.current_bitrate
  pub high : s.current_bitrate ≤ max_bitrate_bps
  pub published : s.config.target_bitrate ≡ s.current_bitrate
  pub band : InBand s.quality_idx s.current_bitrate
  pub width : s.config.target_width ≡ (preset s.quality_idx).width
  pub height : s.config.target_height ≡ (preset s.quality_idx).height
  pub fps : s.config.target_fps ≡ (preset s.quality_idx).fps

idx_cases : (i b : ℕ) → InBand i b → (i ≡ 0) ⊎ (i ≡ 1) ⊎ (i ≡ 2)
idx_cases i b h = ground arith

most_le : (b n : ℕ) → n ≤ 85 → 50_000 ≤ b → b * n / 100 + 1 ≤ b
most_le b n h lo = let p : b * n ≤ b * 85 = grind arith in omega arith

half_le : (b n : ℕ) → 50 ≤ n → b ≤ b * n / 100 * 2 + 1
half_le b n h = let p : b * 50 ≤ b * n = grind arith in omega arith

module _ (fl : F64) where
  open fl use {F, of_ℕ, lit, mul, add, to_u32, scale_le, scale_ge, raise_le, raise_ge}

  pub shrunk :
      (b n : ℕ)
      → 50 ≤ n
      → n ≤ 85
      → min_bitrate_bps ≤ b
      → b ≤ max_bitrate_bps
      → let r = to_u32 (mul (of_ℕ b) (lit n 100)) in (r ≤ b) × (b ≤ 2 * r + 3)
  shrunk b n lo hi l h = (
    omega (arith, scale_le b n (omega arith) (omega arith), most_le b n hi l),
    omega (arith, scale_ge b n (omega arith) (omega arith), half_le b n lo),
  )

  pub raised :
      (b : ℕ)
      → b ≤ max_bitrate_bps
      → let r = to_u32 (mul (of_ℕ b) (add (lit 1 1) (lit 5 100))) in
        (b + b / 20 ≤ r + 1) × (r ≤ 2 * b + 1)
  raised b h = (
    omega (arith, raise_ge b 5 (omega arith) (omega arith)),
    omega (arith, raise_le b 5 (omega arith) (omega arith)),
  )

  decrease-IsTracking :
      (now n : ℕ) (s : BandwidthEstimator F)
      → 50 ≤ n
      → n ≤ 85
      → IsTracking s
      → IsTracking (decrease fl now (lit n 100) s)
  unfolding decrease
  decrease-IsTracking now n s lo hn v = elim (idx_cases s.quality_idx s.current_bitrate v.band) [
    | inl e ↦ ground (arith, e, shrunk s.current_bitrate n lo hn v.low v.high)
    | inr (inl e) ↦ ground (arith, e, shrunk s.current_bitrate n lo hn v.low v.high)
    | inr (inr e) ↦ ground (arith, e, shrunk s.current_bitrate n lo hn v.low v.high)
  ]

  try_probe-IsTracking :
      (now : ℕ) (s : BandwidthEstimator F) → IsTracking s → IsTracking (try_probe fl now s)
  unfolding try_probe
  try_probe-IsTracking now s v = elim (idx_cases s.quality_idx s.current_bitrate v.band) [
    | inl e ↦ ground (arith, e, raised s.current_bitrate v.high)
    | inr (inl e) ↦ ground (arith, e, raised s.current_bitrate v.high)
    | inr (inr e) ↦ ground (arith, e, raised s.current_bitrate v.high)
  ]

  assess-IsTracking :
      (event : BandwidthEvent F) (s : BandwidthEstimator F)
      → IsTracking s
      → IsTracking (assess fl event s).0
  unfolding assess
  assess-IsTracking (send_complete secs bytes) s v = v
  assess-IsTracking (rtt_sample us) s v = ground arith
  assess-IsTracking stream_stopped s v = v
  assess-IsTracking (receiver_feedback lost jitter) s v = v

  react-IsTracking :
      (now : ℕ) (level : CongestionLevel) (s : BandwidthEstimator F)
      → IsTracking s
      → IsTracking (react fl now level s)
  unfolding react
  react-IsTracking now clear s v = try_probe-IsTracking now s v
  react-IsTracking now mild s v = decrease-IsTracking now 85 s (omega arith) (omega arith) v
  react-IsTracking now moderate s v = decrease-IsTracking now 80 s (omega arith) (omega arith) v
  react-IsTracking now severe s v = decrease-IsTracking now 50 s (omega arith) (omega arith) v

  pub handle_event-IsTracking :
      (now : ℕ) (event : BandwidthEvent F) (s : BandwidthEstimator F)
      → IsTracking s
      → IsTracking (handle_event fl now event s)
  unfolding handle_event
  handle_event-IsTracking now event s v =
      react-IsTracking now (assess fl event s).1 (assess fl event s).0 (assess-IsTracking event s v)

  run-IsTracking :
      (es : List (ℕ × BandwidthEvent F)) (s : BandwidthEstimator F)
      → IsTracking s
      → IsTracking (run fl es s)
  unfolding run
  run-IsTracking [] s v = v
  run-IsTracking ((now, event) ∷ es) s v =
      run-IsTracking es (handle_event fl now event s) (handle_event-IsTracking now event s v)

  pub new-IsTracking : (start : ℕ) → IsTracking (BandwidthEstimator_new fl start EncoderConfig_new)
  unfolding BandwidthEstimator_new
  new-IsTracking start = ground arith

  -- After any events at any times, the bitrate is within its bounds and published, the resolution
  -- and the frame rate are those of the quality step, and the bitrate is in that step's band: one
  -- step for an event is always enough.
  pub run-new-IsTracking :
      (start : ℕ) (es : List (ℕ × BandwidthEvent F))
      → IsTracking (run fl es (BandwidthEstimator_new fl start EncoderConfig_new))
  run-new-IsTracking start es =
      run-IsTracking es (BandwidthEstimator_new fl start EncoderConfig_new) (new-IsTracking start)
