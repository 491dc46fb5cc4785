-- ===== src/Bandwidth.antt =====
-- src/bandwidth.rs: the adaptive bitrate estimator. An instant is a number of microseconds; the
-- atomics of the shared configuration are fields that the estimator writes.
pub mod Floats
pub mod Ladder
pub mod Rate
pub mod Flag
pub mod Sample
pub mod Tests
use meshconf.Prelude.{
  ℕ, zero, suc, ◌+◌, ◌-◌, ◌≤◌, Bool, true, false, ◌&&◌, Option, none, some, List, [], ◌∷◌, ltb, leb,
  ◌==◌, if◌then◌else◌, min, max,
}
use Floats.{F64}

pub record QualityPreset : Type 0 where
  pub width : ℕ
  pub height : ℕ
  pub fps : ℕ
  pub bitrate_bps : ℕ

abbrev pub quality_ladder : List QualityPreset
quality_ladder =
    record { width = 320; height = 240; fps = 10; bitrate_bps = 100_000 }
    ∷ record { width = 480; height = 360; fps = 15; bitrate_bps = 250_000 }
    ∷ record { width = 640; height = 480; fps = 15; bitrate_bps = 500_000 }
    ∷ []

abbrev pub highest : QualityPreset
highest = record { width = 640; height = 480; fps = 15; bitrate_bps = 500_000 }

-- `QUALITY_LADDER[i]`. An index out of range panics in the code; it does not arise here.
abbrev pub nth_preset : List QualityPreset → ℕ → QualityPreset
nth_preset [] i = highest
nth_preset (p ∷ ps) zero = p
nth_preset (p ∷ ps) (suc i) = nth_preset ps i

abbrev pub preset : ℕ → QualityPreset
preset i = nth_preset quality_ladder i

abbrev pub default_quality_idx : ℕ
default_quality_idx = 2

abbrev pub min_bitrate_bps : ℕ
min_bitrate_bps = 50_000

abbrev pub max_bitrate_bps : ℕ
max_bitrate_bps = 2_000_000

abbrev pub probe_interval : ℕ
probe_interval = 2_000_000

abbrev pub hold_after_decrease : ℕ
hold_after_decrease = 2_000_000

-- A send duration in seconds and a loss are floating-point numbers.
pub data BandwidthEvent (F : Type 0) : Type 0 where
  send_complete : F → ℕ → BandwidthEvent F
  rtt_sample : ℕ → BandwidthEvent F
  stream_stopped : BandwidthEvent F
  receiver_feedback : F → ℕ → BandwidthEvent F

pub record EncoderConfig : Type 0 where
  pub target_bitrate : ℕ
  pub target_width : ℕ
  pub target_height : ℕ
  pub target_fps : ℕ
  pub quality_changed : Bool

abbrev pub EncoderConfig_new : EncoderConfig
EncoderConfig_new = record {
  target_bitrate = highest.bitrate_bps;
  target_width = highest.width;
  target_height = highest.height;
  target_fps = highest.fps;
  quality_changed = false;
}

pub data CongestionLevel : Type 0 where
  clear mild moderate severe : CongestionLevel

pub record BandwidthEstimator (F : Type 0) : Type 0 where
  pub config : EncoderConfig
  pub current_bitrate : ℕ
  pub quality_idx : ℕ
  pub baseline_rtt_us : Option F
  pub smoothed_rtt_us : Option F
  pub last_probe : ℕ
  pub last_decrease : ℕ
  pub frame_interval_ms : F

module _ (fl : F64) where
  open fl use {F, of_ℕ, lit, mul, add, div, gtb, to_u32}

  abbrev pub frame_interval : ℕ → F
  frame_interval fps = div (lit 1000 1) (of_ℕ fps)

  unfoldable pub BandwidthEstimator_new : ℕ → EncoderConfig → BandwidthEstimator F
  BandwidthEstimator_new now config = record {
    config = config;
    current_bitrate = (preset default_quality_idx).bitrate_bps;
    quality_idx = default_quality_idx;
    baseline_rtt_us = none;
    smoothed_rtt_us = none;
    last_probe = now;
    last_decrease = now;
    frame_interval_ms = frame_interval (preset default_quality_idx).fps;
  }

  -- `bps.clamp(MIN_BITRATE_BPS, MAX_BITRATE_BPS)`, stored.
  pub set_bitrate : ℕ → BandwidthEstimator F → BandwidthEstimator F
  set_bitrate bps s =
      let clamped = min (max bps min_bitrate_bps) max_bitrate_bps in
      record s { current_bitrate = clamped; config = record s.config { target_bitrate = clamped } }

  pub apply_preset : QualityPreset → BandwidthEstimator F → BandwidthEstimator F
  apply_preset p s = record s {
    frame_interval_ms = frame_interval p.fps;
    config = record s.config {
      target_width = p.width;
      target_height = p.height;
      target_fps = p.fps;
      quality_changed = true;
    };
  }

  pub maybe_step_down_quality : BandwidthEstimator F → BandwidthEstimator F
  unfolding apply_preset
  maybe_step_down_quality s =
      if s.quality_idx == 0
      then s
      else let lower = preset (s.quality_idx - 1) in
        if leb s.current_bitrate lower.bitrate_bps
        then apply_preset lower (record s { quality_idx = s.quality_idx - 1 })
        else s

  pub maybe_step_up_quality : BandwidthEstimator F → BandwidthEstimator F
  unfolding apply_preset
  maybe_step_up_quality s =
      if leb 3 (s.quality_idx + 1)
      then s
      else let higher = preset (s.quality_idx + 1) in
        if leb higher.bitrate_bps s.current_bitrate
        then apply_preset higher (record s { quality_idx = s.quality_idx + 1 })
        else s

  -- `INCREASE_RATE` is 0.05.
  pub try_probe : ℕ → BandwidthEstimator F → BandwidthEstimator F
  unfolding set_bitrate maybe_step_up_quality
  try_probe now s =
      if leb probe_interval (now - s.last_probe) && leb hold_after_decrease (now - s.last_decrease)
      then (let s' = record s { last_probe = now } in
          let new = to_u32 (mul (of_ℕ s.current_bitrate) (add (lit 1 1) (lit 5 100))) in
          maybe_step_up_quality (set_bitrate (min new max_bitrate_bps) s'))
      else s

  pub decrease : ℕ → F → BandwidthEstimator F → BandwidthEstimator F
  unfolding set_bitrate maybe_step_down_quality
  decrease now factor s =
      let s' = record s { last_decrease = now } in
      let new = to_u32 (mul (of_ℕ s.current_bitrate) factor) in
      maybe_step_down_quality (set_bitrate (max new min_bitrate_bps) s')

  -- The baseline, with the level of congestion, once the smoothed RTT is updated.
  pub judge_rtt : F → Option F → Option F × CongestionLevel
  judge_rtt smoothed none = (none, clear)
  judge_rtt smoothed (some baseline) =
      if gtb smoothed (mul baseline (add (lit 1 1) (lit 20 100)))
      then (some baseline, mild)
      else (some (add (mul baseline (lit 999 1000)) (mul smoothed (lit 1 1000))), clear)

  pub sample_rtt : F → Option F → BandwidthEstimator F → BandwidthEstimator F × CongestionLevel
  unfolding judge_rtt
  sample_rtt rtt none s =
      (record s { smoothed_rtt_us = some rtt; baseline_rtt_us = some rtt }, clear)
  sample_rtt rtt (some old) s =
      let smoothed = add (mul old (lit 9 10)) (mul rtt (lit 1 10)) in
      let (baseline, level) = judge_rtt smoothed s.baseline_rtt_us in
      (record s { smoothed_rtt_us = some smoothed; baseline_rtt_us = baseline }, level)

  -- The level that an event shows.
  pub assess : BandwidthEvent F → BandwidthEstimator F → BandwidthEstimator F × CongestionLevel
  unfolding sample_rtt
  assess (send_complete secs payload_bytes) s =
      (s, if gtb (mul secs (lit 1000 1)) s.frame_interval_ms then moderate else clear)
  assess (rtt_sample rtt_us) s = sample_rtt (of_ℕ rtt_us) s.smoothed_rtt_us s
  assess stream_stopped s = (s, severe)
  assess (receiver_feedback fraction_lost jitter_us) s = (
    s,
    if gtb fraction_lost (lit 10 100)
        then severe
        else if gtb fraction_lost (lit 5 100)
        then moderate
        else if gtb fraction_lost (lit 2 100)
        then mild
        else clear,
  )

  pub react : ℕ → CongestionLevel → BandwidthEstimator F → BandwidthEstimator F
  react now clear s = try_probe now s
  react now mild s = decrease now (lit 85 100) s
  react now moderate s = decrease now (lit 80 100) s
  react now severe s = decrease now (lit 50 100) s

  pub handle_event : ℕ → BandwidthEvent F → BandwidthEstimator F → BandwidthEstimator F
  handle_event now event s = let (s', congestion) = assess event s in react now congestion s'

  -- The events that `run` takes from the channel, each with its time.
  pub run : List (ℕ × BandwidthEvent F) → BandwidthEstimator F → BandwidthEstimator F
  run [] s = s
  run ((now, event) ∷ es) s = run es (handle_event now event s)
