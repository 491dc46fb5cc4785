-- ===== src/Mixer.antt =====
-- src/audio_mixer.rs: the decoded audio of the peers, buffered and added up. A buffer that the pool
-- gives out is zeroed, which Pool/Clean proves of src/pool.rs.
pub mod Samples
pub mod Played
pub mod Length
pub mod Sum
pub mod Tests
use meshconf.Prelude.{
  ℕ, ◌+◌, ◌≤◌, Bool, true, false, ◌||◌, Option, none, some, List, [], ◌∷◌, ◌++◌, map, leb, ◌==◌,
  if◌then◌else◌, min, length, take, drop, replicate, Outlet, offer,
}
use meshconf.Prelude.HashMap.{get, put}

-- The arithmetic of `f32` that the mixer uses.
pub record F32 : Type 1 where
  pub F : Type 0
  pub zero_ : F
  pub one : F
  pub add : F → F → F
  pub sub : F → F → F
  pub mul : F → F → F
  pub neg : F → F
  pub abs : F → F
  pub signum : F → F
  pub exp : F → F
  pub le : F → F → Bool

-- 20 ms at 48 kHz.
abbrev pub audio_mix_size : ℕ
audio_mix_size = 960

module _ (fl : F32) where
  open fl use {F, zero_, one, add, sub, mul, neg, abs, signum, exp, le}

  -- The buffers of the peers, and the channel to the playback engine.
  pub record Mixer : Type 0 where
    pub peer_buffers : List (ℕ × List F)
    pub playback_tx : Outlet (List F)

  unfoldable pub soft_clip : F → F
  soft_clip x = if le (abs x) one then x else mul (signum x) (sub one (exp (neg (abs x))))

  abbrev pub any_ready : ℕ → List (ℕ × List F) → Bool
  any_ready mix_size [] = false
  any_ready mix_size ((peer, buf) ∷ m) = leb mix_size (length buf) || any_ready mix_size m

  -- `mixed[i] += sample`; the code takes no more samples than there are places.
  abbrev pub add_samples : List F → List F → List F
  add_samples mixed [] = mixed
  add_samples [] (x ∷ xs) = []
  add_samples (m ∷ ms) (x ∷ xs) = add m x ∷ add_samples ms xs

  -- `buf.drain(..n)`: what it takes, and what stays.
  abbrev pub drained : ℕ → List F → List F
  drained mix_size buf = take (min (length buf) mix_size) buf

  abbrev pub left : ℕ → List F → List F
  left mix_size buf = drop (min (length buf) mix_size) buf

  unfoldable pub mix_buffers : ℕ → List (ℕ × List F) → List F → List F
  mix_buffers mix_size [] mixed = mixed
  mix_buffers mix_size ((peer, buf) ∷ m) mixed =
      mix_buffers mix_size m (add_samples mixed (drained mix_size buf))

  abbrev pub left_all : ℕ → List (ℕ × List F) → List (ℕ × List F)
  left_all mix_size [] = []
  left_all mix_size ((peer, buf) ∷ m) = (peer, left mix_size buf) ∷ left_all mix_size m

  unfoldable pub try_mix : ℕ → Mixer → Mixer
  unfolding mix_buffers soft_clip
  try_mix mix_size s =
      if any_ready mix_size s.peer_buffers
      then record {
        peer_buffers = left_all mix_size s.peer_buffers;
        playback_tx =
            offer (map soft_clip (mix_buffers mix_size s.peer_buffers (replicate mix_size zero_)))
              s.playback_tx;
      }
      else s

  abbrev pub buffer_of : Option (List F) → List F
  buffer_of none = []
  buffer_of (some buf) = buf

  abbrev pub extend : ℕ → List F → Mixer → Mixer
  extend peer samples s = record s {
    peer_buffers = put peer (buffer_of (get peer s.peer_buffers) ++ samples) s.peer_buffers;
  }

  -- The decoded audio of a peer.
  unfoldable pub receive : ℕ → ℕ → List F → Mixer → Mixer
  unfolding try_mix
  receive mix_size peer samples s = try_mix mix_size (extend peer samples s)

  -- The messages up to the end of the channel or the cancellation.
  unfoldable pub run : ℕ → List (ℕ × List F) → Mixer → Mixer
  run mix_size [] s = s
  run mix_size ((peer, samples) ∷ msgs) s = run mix_size msgs (receive mix_size peer samples s)

  abbrev pub start : Outlet (List F) → Mixer
  start playback_tx = record { peer_buffers = []; playback_tx = playback_tx }
