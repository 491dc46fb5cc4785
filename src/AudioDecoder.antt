-- ===== src/AudioDecoder.antt =====
-- src/audio_decode.rs: the packets of a peer, decoded for the mixer. Opus is a parameter.
use meshconf.Prelude.{
  ℕ, ◌≤◌, ◌≡◌, refl, Bool, true, Option, none, some, List, [], ◌∷◌, ◌==◌, if◌then◌else◌, length,
  All, Outlet, offer, if_cases, ltb, Option-cases, inl, inr,
}
use meshconf.Protocol.Object.{MediaObject}
use meshconf.Jitter.{plc_sentinel_timestamp}

-- `opus::Decoder`: it writes no more samples than there is room for, and an empty packet makes a
-- concealment frame. `none` is an error.
pub record Opus : Type 1 where
  pub F : Type 0
  pub Decoder : Type 0
  pub decode_float : Decoder → List ℕ → ℕ → Option (Decoder × List F)
  pub length-decode_float :
      (d : Decoder) (bytes : List ℕ) (room : ℕ) {d' : Decoder} {pcm : List F}
      → decode_float d bytes room ≡ some (d', pcm)
      → length pcm ≤ room

abbrev pub pcm_room : ℕ
pcm_room = 960

module _ (opus : Opus) where
  open opus use {F, Decoder, decode_float, length-decode_float}

  pub record DecodeTask : Type 0 where
    pub decoder : Decoder
    pub mixer_tx : Outlet (ℕ × List F)
    pub ended : Bool

  -- The bytes that Opus is given.
  abbrev pub packet_of : MediaObject → List ℕ
  packet_of obj = if obj.capture_timestamp_us == plc_sentinel_timestamp then [] else obj.payload

  -- One packet; an error ends the task.
  unfoldable pub step : ℕ → MediaObject → DecodeTask → DecodeTask
  step peer_id obj s =
      if s.ended then s else elim (decode_float s.decoder (packet_of obj) pcm_room) [
        | none ↦ record s { ended = true }
        | some (d, pcm) ↦ record s { decoder = d; mixer_tx = offer (peer_id, pcm) s.mixer_tx }
      ]

  unfoldable pub run_audio_decoder : ℕ → List MediaObject → DecodeTask → DecodeTask
  run_audio_decoder peer_id [] s = s
  run_audio_decoder peer_id (obj ∷ objs) s = run_audio_decoder peer_id objs (step peer_id obj s)

  -- A frame of the peer, of at most 20 ms.
  abbrev pub IsFrameOf : ℕ → ℕ × List F → Type 0
  IsFrameOf peer_id m = (m.0 ≡ peer_id) × (length m.1 ≤ pcm_room)

  step-IsFrameOf :
      (peer_id : ℕ) (obj : MediaObject) (s : DecodeTask)
      → All (IsFrameOf peer_id) s.mixer_tx.sent
      → All (IsFrameOf peer_id) (step peer_id obj s).mixer_tx.sent
  unfolding step
  step-IsFrameOf peer_id obj s v =
      let Fine : DecodeTask → Type 0 = λ t. All (IsFrameOf peer_id) t.mixer_tx.sent in
      if_cases Fine s.ended (λ e. v)
        (λ e. elim (Option-cases (decode_float s.decoder (packet_of obj) pcm_room)) [
          | inl k ↦ rw (k) v
          | inr ((d, pcm), k) ↦ rw (k) (
              if_cases (λ (tx : Outlet (ℕ × List F)). All (IsFrameOf peer_id) tx.sent)
                (ltb 0 s.mixer_tx.free)
                (λ c. ((refl, length-decode_float s.decoder (packet_of obj) pcm_room k), v))
                (λ c. v))
        ])

  -- Each message to the mixer is a frame of the peer with at most 960 samples.
  pub run_audio_decoder-IsFrameOf :
      (peer_id : ℕ) (objs : List MediaObject) (s : DecodeTask)
      → All (IsFrameOf peer_id) s.mixer_tx.sent
      → All (IsFrameOf peer_id) (run_audio_decoder peer_id objs s).mixer_tx.sent
  unfolding run_audio_decoder
  run_audio_decoder-IsFrameOf peer_id [] s v = v
  run_audio_decoder-IsFrameOf peer_id (obj ∷ objs) s v =
      run_audio_decoder-IsFrameOf peer_id objs (step peer_id obj s) (step-IsFrameOf peer_id obj s v)
