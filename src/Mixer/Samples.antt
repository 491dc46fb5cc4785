-- ===== src/Mixer/Samples.antt =====
-- src/audio_mixer.rs: what comes from a peer, and what a mix takes of it.
use mathlib.Core.List.{append-nil}
use meshconf.Prelude.{
  take, ℕ, ◌≡◌, refl, sym, ap, List, [], ◌∷◌, ◌++◌, ◌==◌, if◌then◌else◌, min, length, drop,
  take-append-drop, arith, Bool-cases, inl, inr, ==_iff, zero, suc,
}
use meshconf.Prelude.HashMap.{get, get-put}
use meshconf.Mixer.{F32, Mixer, drained, left, left_all, buffer_of, extend}

drop-nil : {A : Type 0} (n : ℕ) → (let xs : List A = [] in drop n xs ≡ xs)
drop-nil zero = refl
drop-nil (suc n) = refl

take-nil : {A : Type 0} (n : ℕ) → (let xs : List A = [] in take n xs ≡ xs)
take-nil zero = refl
take-nil (suc n) = refl

module _ (fl : F32) where
  open fl use {F}

  -- The samples of a peer among the messages.
  abbrev pub heard : ℕ → List (ℕ × List F) → List F
  heard p [] = []
  heard p ((peer, samples) ∷ msgs) = if p == peer then samples ++ heard p msgs else heard p msgs

  abbrev pub buffered : ℕ → Mixer fl → List F
  buffered p s = buffer_of fl (get p s.peer_buffers)

  buffered-left_all :
      (mix_size p : ℕ) (m : List (ℕ × List F))
      → buffer_of fl (get p (left_all fl mix_size m)) ≡ left fl mix_size (buffer_of fl (get p m))
  buffered-left_all mix_size p [] = sym (drop-nil (min 0 mix_size))
  buffered-left_all mix_size p ((peer, buf) ∷ m) = ground (arith, buffered-left_all mix_size p m)

  -- What a mix takes of each peer.
  abbrev pub chunk : ℕ → List (ℕ × List F) → List (ℕ × List F)
  chunk mix_size [] = []
  chunk mix_size ((peer, buf) ∷ m) = (peer, drained fl mix_size buf) ∷ chunk mix_size m

  buffered-chunk :
      (mix_size p : ℕ) (m : List (ℕ × List F))
      → buffer_of fl (get p (chunk mix_size m)) ≡ drained fl mix_size (buffer_of fl (get p m))
  buffered-chunk mix_size p [] = sym (take-nil (min 0 mix_size))
  buffered-chunk mix_size p ((peer, buf) ∷ m) = ground (arith, buffered-chunk mix_size p m)

  pub chunk-append-left :
      (mix_size p : ℕ) (m : List (ℕ × List F))
      → buffer_of fl (get p m)
        ≡ buffer_of fl (get p (chunk mix_size m)) ++ buffer_of fl (get p (left_all fl mix_size m))
  chunk-append-left mix_size p m =
      let buf : List F = buffer_of fl (get p m) in
      rw (buffered-chunk mix_size p m, buffered-left_all mix_size p m)
        (sym (take-append-drop (min (length buf) mix_size) buf))

  pub buffered-extend :
      (p peer : ℕ) (samples : List F) (s : Mixer fl)
      → buffered p (extend fl peer samples s) ≡ buffered p s ++ heard p ((peer, samples) ∷ [])
  buffered-extend p peer samples s = elim (Bool-cases (p == peer)) [
    | inl e ↦
        rw (get-put, e, append-nil) (ap (λ k. buffered k s ++ samples) (sym ((==_iff p peer).0 e)))
    | inr e ↦ rw (get-put, e) (sym (append-nil (buffered p s)))
  ]

  pub heard-cons :
      (p peer : ℕ) (samples : List F) (msgs : List (ℕ × List F))
      → heard p ((peer, samples) ∷ msgs) ≡ heard p ((peer, samples) ∷ []) ++ heard p msgs
  heard-cons p peer samples msgs = elim (Bool-cases (p == peer)) [
    | inl e ↦ rw (e, append-nil) refl
    | inr e ↦ rw e refl
  ]
