-- ===== src/Mixer/Length.antt =====
-- src/audio_mixer.rs: how much of a peer's audio waits.
use meshconf.Prelude.{
  ℕ, ◌+◌, ◌≤◌, ◌<◌, ◌≡◌, false, List, [], ◌∷◌, ◌++◌, ◌==◌, min, length, All, All-map, length-append,
  length-drop, arith, if_cases, Bool-cases, inl, inr,
}
use meshconf.Prelude.HashMap.{get, put}
use meshconf.Mixer.{F32, Mixer, any_ready, left_all, try_mix, buffer_of, extend, receive, run}

module _ (fl : F32) where
  open fl use {F}

  -- Each buffer has less than `n` samples.
  abbrev pub AllShort : ℕ → List (ℕ × List F) → Type 0
  AllShort n m = All (λ (b : ℕ × List F). length b.1 < n) m

  left_all-AllShort :
      (n mix_size : ℕ) (m : List (ℕ × List F))
      → AllShort (n + mix_size) m
      → 0 < n
      → AllShort n (left_all fl mix_size m)
  left_all-AllShort n mix_size [] h pos = tt
  left_all-AllShort n mix_size ((peer, buf) ∷ m) h pos = (
    omega (arith, length-drop (min (length buf) mix_size) buf, h.0),
    left_all-AllShort n mix_size m h.1 pos,
  )

  any_ready-AllShort :
      (mix_size : ℕ) (m : List (ℕ × List F)) → any_ready fl mix_size m ≡ false → AllShort mix_size m
  any_ready-AllShort mix_size [] h = tt
  any_ready-AllShort mix_size ((peer, buf) ∷ m) h =
      (ground arith, any_ready-AllShort mix_size m (ground arith))

  put-AllShort :
      (n peer : ℕ) (xs : List F) (m : List (ℕ × List F))
      → length xs < n
      → AllShort n m
      → AllShort n (put peer xs m)
  put-AllShort n peer xs [] h v = (h, tt)
  put-AllShort n peer xs ((p, buf) ∷ m) h v =
      if_cases (AllShort n) (peer == p) (λ e. (h, v.1)) (λ e. (v.0, put-AllShort n peer xs m h v.1))

  length-buffer_of :
      (n peer : ℕ) (m : List (ℕ × List F))
      → 0 < n
      → AllShort n m
      → length (buffer_of fl (get peer m)) < n
  length-buffer_of n peer [] pos v = pos
  length-buffer_of n peer ((p, buf) ∷ m) pos v =
      if_cases (λ o. length (buffer_of fl o) < n) (peer == p) (λ e. v.0)
        (λ e. length-buffer_of n peer m pos v.1)

  extend-AllShort :
      (mix_size peer : ℕ) (samples : List F) (m : List (ℕ × List F))
      → length samples ≤ mix_size
      → 0 < mix_size
      → AllShort mix_size m
      → AllShort (mix_size + mix_size) (put peer (buffer_of fl (get peer m) ++ samples) m)
  extend-AllShort mix_size peer samples m h pos v =
      let buf : List F = buffer_of fl (get peer m) in
      put-AllShort (mix_size + mix_size) peer (buf ++ samples) m
        (omega (arith, length-append buf samples, length-buffer_of mix_size peer m pos v))
        (All-map _ _ m (λ (b : ℕ × List F) (k : length b.1 < mix_size). omega arith) v)

  try_mix-AllShort :
      (mix_size : ℕ) (s : Mixer fl)
      → 0 < mix_size
      → AllShort (mix_size + mix_size) s.peer_buffers
      → AllShort mix_size (try_mix fl mix_size s).peer_buffers
  unfolding try_mix
  try_mix-AllShort mix_size s pos v = elim (Bool-cases (any_ready fl mix_size s.peer_buffers)) [
    | inl e ↦ rw (try_mix, e) (left_all-AllShort mix_size mix_size s.peer_buffers v pos)
    | inr e ↦ rw (try_mix, e) (any_ready-AllShort mix_size s.peer_buffers e)
  ]

  -- Where no message is longer than a mix, as none of the audio decoder is, less than a mix of each
  -- peer's audio waits after any messages: the delay does not grow.
  pub run-AllShort :
      (mix_size : ℕ) (msgs : List (ℕ × List F)) (s : Mixer fl)
      → 0 < mix_size
      → All (λ (m : ℕ × List F). length m.1 ≤ mix_size) msgs
      → AllShort mix_size s.peer_buffers
      → AllShort mix_size (run fl mix_size msgs s).peer_buffers
  unfolding run receive
  run-AllShort mix_size [] s pos h v = v
  run-AllShort mix_size ((peer, samples) ∷ msgs) s pos h v =
      let s1 : Mixer fl = extend fl peer samples s in
      run-AllShort mix_size msgs (try_mix fl mix_size s1) pos h.1 (
        try_mix-AllShort mix_size s1 pos
          (extend-AllShort mix_size peer samples s.peer_buffers h.0 pos v))
