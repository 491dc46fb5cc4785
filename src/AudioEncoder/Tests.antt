-- ===== src/AudioEncoder/Tests.antt =====
-- A run of src/audio_encode.rs, with an encoder that takes samples for bytes and refuses an empty
-- chunk.
use meshconf.Prelude.{
  ℕ, ◌+◌, ◌≡◌, Bool, Option, none, some, List, [], ◌∷◌, ◌++◌, map, ok, ◌==◌, arith,
}
use meshconf.Broadcaster.{Broadcaster}
use meshconf.AudioEncoder.{OpusEncoder, Chunk, EncodeTask, run_audio_encoder}
use meshconf.AudioEncoder.Heard.{heard_on, encoded, heard_on-run_audio_encoder}

abbrev bytes_of : List ℕ → Option (List ℕ)
bytes_of [] = none
bytes_of (x ∷ xs) = some (x ∷ xs)

-- The state counts the chunks.
abbrev samples_as_bytes : OpusEncoder
samples_as_bytes = record {
  F = ℕ;
  Encoder = ℕ;
  encode_float = λ n samples. (n + 1, bytes_of samples);
}

-- Two peers, of which only the second one's connection takes datagrams.
abbrev two_peers : Broadcaster
two_peers = record { peers = (10, 1) ∷ (20, 2) ∷ []; force_keyframe = none }

abbrev second_only : ℕ → Bool
second_only conn = conn == 2

abbrev chunk : ℕ → List ℕ → Chunk samples_as_bytes
chunk ts samples = record {
  samples = samples;
  sent_us = ts;
  now = ts + 3;
  broadcaster = two_peers;
  accepts = second_only;
}

abbrev chunks : List (Chunk samples_as_bytes)
chunks = chunk 20_000 (5 ∷ 6 ∷ []) ∷ chunk 40_000 [] ∷ chunk 60_000 (7 ∷ []) ∷ []

abbrev silent : EncodeTask samples_as_bytes
silent = record { encoder = 0; sent = [] }

heard_on-run_audio_encoder_example :
    heard_on 2 (run_audio_encoder samples_as_bytes chunks silent).sent
    ≡ [] ++ map ok (encoded samples_as_bytes chunks 0)
heard_on-run_audio_encoder_example =
    heard_on-run_audio_encoder samples_as_bytes 2 chunks silent (ground arith)
