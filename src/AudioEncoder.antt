-- ===== src/AudioEncoder.antt =====
-- src/audio_encode.rs: the captured audio, encoded and sent to the peers as datagrams. Opus is a
-- parameter.
pub mod Heard
pub mod Tests
use meshconf.Prelude.{
  ℕ, Bool, true, false, Option, none, some, List, [], ◌∷◌, ◌++◌, ◌==◌, if◌then◌else◌,
}
use meshconf.Broadcaster.{Broadcaster, peer_count, send_audio_datagram_to_all}

-- `opus::Encoder`: the state after a call, and what it encodes; `none` is an error.
pub record OpusEncoder : Type 1 where
  pub F : Type 0
  pub Encoder : Type 0
  pub encode_float : Encoder → List F → Encoder × Option (List ℕ)

module _ (opus : OpusEncoder) where
  open opus use {F, Encoder, encode_float}

  -- A chunk of samples, with the clock when it is sent and when its age is looked at, the peers of
  -- that time, and which connections take a datagram.
  pub record Chunk : Type 0 where
    pub samples : List F
    pub sent_us : ℕ
    pub now : ℕ
    pub broadcaster : Broadcaster
    pub accepts : ℕ → Bool

  -- The variables of the task, with the datagrams that went out, in order, each with its connection.
  pub record EncodeTask : Type 0 where
    pub encoder : Encoder
    pub sent : List (ℕ × List ℕ)

  -- What is done with an encoded packet.
  unfoldable pub broadcast : Chunk → Option (List ℕ) → EncodeTask → EncodeTask
  broadcast c none s = s
  broadcast c (some bytes) s = if peer_count c.broadcaster == 0 then s else record s {
    sent = s.sent ++ (send_audio_datagram_to_all c.accepts c.now c.sent_us bytes c.broadcaster).0;
  }

  unfoldable pub step : Chunk → EncodeTask → EncodeTask
  unfolding broadcast
  step c s =
      let (encoder, out) = encode_float s.encoder c.samples in
      broadcast c out (record s { encoder = encoder })

  unfoldable pub run_audio_encoder : List Chunk → EncodeTask → EncodeTask
  run_audio_encoder [] s = s
  run_audio_encoder (c ∷ cs) s = run_audio_encoder cs (step c s)
