-- ===== src/Mixer/Played.antt =====
-- src/audio_mixer.rs: the frames that go to the playback engine, over a run of the mixer.
use meshconf.Prelude.{ℕ, zero, suc, ◌≡◌, List, [], ◌∷◌, ◌++◌, map}
use meshconf.Prelude.HashMap.{get}
use meshconf.Mixer.{F32, Mixer, soft_clip, buffer_of}
use meshconf.Mixer.Samples.{heard, buffered}
use meshconf.Mixer.Sum.{sample_sum}

-- The values of a function at `n` places from `k` on.
abbrev pub places : {A : Type 0} → (ℕ → A) → ℕ → ℕ → List A
places f k zero = []
places f k (suc n) = f k ∷ places f (suc k) n

module _ (fl : F32) where
  open fl use {F, zero_}

  -- The specification of a frame: at each place the clipped sum of the peers' samples.
  abbrev pub frame : ℕ → List (ℕ × List F) → List F
  frame mix_size c = places (λ i. soft_clip fl (sample_sum fl i c zero_)) 0 mix_size

  -- What some mixes, newest first, took of a peer.
  abbrev taken_of : ℕ → List (List (ℕ × List F)) → List F
  taken_of p [] = []
  taken_of p (c ∷ cs) = taken_of p cs ++ buffer_of fl (get p c)

  -- From one state to another, some mixes were sent, each the frame of what it took, and of each peer
  -- what was buffered, with what came, is what the mixes took, in order, and what is still buffered.
  abbrev pub IsPlayed : ℕ → List (ℕ × List F) → Mixer fl → Mixer fl → Type 0
  IsPlayed mix_size msgs s s' =
      (cs : List (List (ℕ × List F))) × (s'.playback_tx.sent
        ≡ map (frame mix_size) cs ++ s.playback_tx.sent)
      × ((p : ℕ) → buffered fl p s ++ heard fl p msgs ≡ taken_of p cs ++ buffered fl p s')
