-- ===== src/Mixer/Sum.antt =====
-- src/audio_mixer.rs: what a mix sounds like.
use meshconf.Prelude.{
  sym, ℕ, zero, suc, ◌≤◌, ◌<◌, ◌≡◌, refl, ap, ◌∙◌, true, Option, none, some, List, [], ◌∷◌, min,
  length, map, replicate, get_elem?, get_elem?-replicate, get_elem?-take, get_elem?-eq-none,
  length-take, length-replicate, arith, Bool-cases, inl, inr, ltb,
}
use meshconf.Mixer.{F32, Mixer, soft_clip, any_ready, add_samples, drained, mix_buffers, try_mix}

module _ (fl : F32) where
  open fl use {F, zero_, add}

  abbrev pub add_to : F → Option F → F
  add_to a none = a
  add_to a (some x) = add a x

  -- The specification: the sum of the `i`th samples that wait, over the peers that have one.
  abbrev pub sample_sum : ℕ → List (ℕ × List F) → F → F
  sample_sum i [] a = a
  sample_sum i ((peer, buf) ∷ m) a = sample_sum i m (add_to a (get_elem? buf i))

  get_elem?-add_samples :
      (i : ℕ) (mixed xs : List F) (a : F)
      → length xs ≤ length mixed
      → get_elem? mixed i ≡ some a
      → get_elem? (add_samples fl mixed xs) i ≡ some (add_to a (get_elem? xs i))
  get_elem?-add_samples i mixed [] a h e = e
  get_elem?-add_samples i [] (x ∷ xs) a h e = absurd (omega arith)
  get_elem?-add_samples zero (m ∷ ms) (x ∷ xs) a h e = ground arith
  get_elem?-add_samples (suc i) (m ∷ ms) (x ∷ xs) a h e =
      get_elem?-add_samples i ms xs a (omega arith) e

  length-add_samples :
      (mixed xs : List F)
      → length xs ≤ length mixed
      → length (add_samples fl mixed xs) ≡ length mixed
  length-add_samples mixed [] h = refl
  length-add_samples [] (x ∷ xs) h = absurd (omega arith)
  length-add_samples (m ∷ ms) (x ∷ xs) h = ap suc (length-add_samples ms xs (omega arith))

  pub get_elem?-drained :
      (mix_size i : ℕ) (buf : List F)
      → i < mix_size
      → get_elem? (drained fl mix_size buf) i ≡ get_elem? buf i
  get_elem?-drained mix_size i buf h = elim (Bool-cases (ltb i (length buf))) [
    | inl e ↦ get_elem?-take (min (length buf) mix_size) i buf (ground arith)
    | inr e ↦
        get_elem?-eq-none i (drained fl mix_size buf)
          (ground (arith, length-take (min (length buf) mix_size) buf))
        ∙ sym (get_elem?-eq-none i buf (ground arith))
  ]

  length-drained : (mix_size : ℕ) (buf : List F) → length (drained fl mix_size buf) ≤ mix_size
  length-drained mix_size buf = omega (arith, length-take (min (length buf) mix_size) buf)

  pub get_elem?-mix_buffers :
      (mix_size i : ℕ) (m : List (ℕ × List F)) (mixed : List F) (a : F)
      → i < mix_size
      → length mixed ≡ mix_size
      → get_elem? mixed i ≡ some a
      → (get_elem? (mix_buffers fl mix_size m mixed) i ≡ some (sample_sum i m a))
        × (length (mix_buffers fl mix_size m mixed) ≡ mix_size)
  unfolding mix_buffers
  get_elem?-mix_buffers mix_size i [] mixed a h len e = (e, len)
  get_elem?-mix_buffers mix_size i ((peer, buf) ∷ m) mixed a h len e =
      let xs : List F = drained fl mix_size buf in
      let short : length xs ≤ length mixed = omega (arith, length-drained mix_size buf) in
      get_elem?-mix_buffers mix_size i m (add_samples fl mixed xs) (add_to a (get_elem? buf i)) h
        (length-add_samples mixed xs short ∙ len)
        (get_elem?-add_samples i mixed xs a short e
          ∙ ap (λ o. some (add_to a o)) (get_elem?-drained mix_size i buf h))

  pub get_elem?-map :
      (f : F → F) (i : ℕ) (xs : List F) (a : F)
      → get_elem? xs i ≡ some a
      → get_elem? (map f xs) i ≡ some (f a)
  get_elem?-map f i [] a e = absurd (ground arith)
  get_elem?-map f zero (x ∷ xs) a e = ground arith
  get_elem?-map f (suc i) (x ∷ xs) a e = get_elem?-map f i xs a e

  pub length-mix_buffers :
      (mix_size : ℕ) (m : List (ℕ × List F)) (mixed : List F)
      → length mixed ≡ mix_size
      → length (mix_buffers fl mix_size m mixed) ≡ mix_size
  unfolding mix_buffers
  length-mix_buffers mix_size [] mixed len = len
  length-mix_buffers mix_size ((peer, buf) ∷ m) mixed len =
      let xs : List F = drained fl mix_size buf in
      length-mix_buffers mix_size m (add_samples fl mixed xs)
        (length-add_samples mixed xs (omega (arith, length-drained mix_size buf)) ∙ len)

  -- Once a peer has enough samples, and playback has room, one frame goes out, and each of its samples
  -- is the clipped sum of those that wait at its place, of every peer that has one.
  pub sent-try_mix :
      (mix_size i : ℕ) (s : Mixer fl)
      → i < mix_size
      → any_ready fl mix_size s.peer_buffers ≡ true
      → 0 < s.playback_tx.free
      → (x : List F) × ((try_mix fl mix_size s).playback_tx.sent ≡ x ∷ s.playback_tx.sent)
        × (get_elem? x i ≡ some (soft_clip fl (sample_sum i s.peer_buffers zero_)))
  unfolding try_mix
  sent-try_mix mix_size i s h ready room =
      let silence : List F = replicate mix_size zero_ in
      (
        map (soft_clip fl) (mix_buffers fl mix_size s.peer_buffers silence),
        rw (try_mix, ready) (ground arith),
        get_elem?-map (soft_clip fl) i _ _
            (get_elem?-mix_buffers mix_size i s.peer_buffers silence zero_ h
              (length-replicate mix_size zero_) (get_elem?-replicate mix_size i zero_ h)).0,
      )
