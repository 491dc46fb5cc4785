-- ===== src/Mixer/Tests.antt =====
-- Runs of the mixer of src/audio_mixer.rs and of the decoder of src/audio_decode.rs, with numbers in
-- the place of samples.
use meshconf.Prelude.{
  ℕ, ◌+◌, ◌-◌, ◌*◌, ◌≤◌, ◌≡◌, refl, false, Option, none, some, List, [], ◌∷◌, leb, length, take,
  All, get_elem?, arith, length-take,
}
use meshconf.Protocol.Object.{MediaObject}
use meshconf.Jitter.{plc_sentinel_timestamp}
use meshconf.Mixer.{F32, Mixer, soft_clip, mix_buffers, try_mix, receive, run, start}
use meshconf.Mixer.Length.{AllShort, run-AllShort}
use meshconf.Mixer.Sum.{sample_sum, sent-try_mix}
use meshconf.AudioDecoder.{
  Opus, DecodeTask, run_audio_decoder, IsFrameOf, run_audio_decoder-IsFrameOf,
}

abbrev counts : F32
counts = record {
  F = ℕ;
  zero_ = 0;
  one = 1000;
  add = λ a b. a + b;
  sub = λ a b. a - b;
  mul = λ a b. a * b;
  neg = λ a. a;
  abs = λ a. a;
  signum = λ a. 1;
  exp = λ a. 0;
  le = leb;
}

-- Two peers, one of which has a sample left behind a mix of three.
abbrev messages : List (ℕ × List ℕ)
messages = (1, 5 ∷ 6 ∷ []) ∷ (2, 7 ∷ []) ∷ (1, 8 ∷ 9 ∷ []) ∷ []

abbrev silent : Mixer counts
silent = start counts (record { sent = []; free = 2 })

-- Room for three frames.
abbrev roomy : Mixer counts
roomy = start counts (record { sent = []; free = 3 })

abbrev played : Mixer counts
played = run counts 3 messages silent

run_mixes : played ≡ record {
  peer_buffers = (1, 9 ∷ []) ∷ (2, []) ∷ [];
  playback_tx = record { sent = (12 ∷ 6 ∷ 8 ∷ []) ∷ []; free = 1 };
}
unfolding run receive try_mix mix_buffers soft_clip
run_mixes = refl

run-AllShort_example : AllShort counts 3 played.peer_buffers
run-AllShort_example = run-AllShort counts 3 messages silent (omega arith) (omega arith) tt

abbrev full : Mixer counts
full = record {
  peer_buffers = (1, 5 ∷ 6 ∷ 8 ∷ 9 ∷ []) ∷ (2, 7 ∷ []) ∷ [];
  playback_tx = record { sent = []; free = 2 };
}

sent-try_mix_example :
    (x : List ℕ) × ((try_mix counts 3 full).playback_tx.sent ≡ x ∷ [])
    × (get_elem? x 1 ≡ some (soft_clip counts (sample_sum counts 1 full.peer_buffers 0)))
sent-try_mix_example = sent-try_mix counts 3 1 full (omega arith) refl (omega arith)

length-taken :
    (room : ℕ) (bytes : List ℕ) {pcm : List ℕ} {d d' : Unit {0}}
    → (let taken : Option (Unit {0} × List ℕ) = some (d, take room bytes) in taken ≡ some (d', pcm))
    → length pcm ≤ room
length-taken room bytes e = ground (arith, length-take room bytes)

-- A decoder that takes the bytes for samples.
abbrev bytes_as_samples : Opus
bytes_as_samples = record {
  F = ℕ;
  Decoder = Unit;
  decode_float = λ d bytes room. some (d, take room bytes);
  length-decode_float = λ d bytes room e. length-taken room bytes e;
}

abbrev packet : ℕ → List ℕ → MediaObject
packet ts payload = record {
  group_id = 0;
  subgroup_id = 0;
  object_id = 0;
  capture_timestamp_us = ts;
  codec = none;
  payload = payload;
}

abbrev decoding : DecodeTask bytes_as_samples
decoding = record { decoder = tt; mixer_tx = record { sent = []; free = 4 }; ended = false }

-- A packet, and a lost one.
run_audio_decoder-IsFrameOf_example :
    All
      (IsFrameOf bytes_as_samples 6)
      (run_audio_decoder bytes_as_samples 6
        (packet 20 (1 ∷ 2 ∷ []) ∷ packet plc_sentinel_timestamp [] ∷ [])
        decoding).mixer_tx.sent
run_audio_decoder-IsFrameOf_example =
    run_audio_decoder-IsFrameOf bytes_as_samples 6
      (packet 20 (1 ∷ 2 ∷ []) ∷ packet plc_sentinel_timestamp [] ∷ []) decoding tt
