-- ===== src/Decoder/Chain.antt =====
-- src/video_decode.rs: what reaches the decoder is an unbroken chain from a keyframe on.
use meshconf.Prelude.{
  ap, ◌∙◌, sym, ◌≢◌, if_cases, ℕ, ◌+◌, ◌%◌, ◌<◌, ◌≡◌, refl, inl, inr, Bool, true, false, ◌||◌,
  Option, none, some, ◌∷◌, ltb, ◌==◌, if◌then◌else◌, u64_mod, arith, Bool-cases,
}
use meshconf.Protocol.Object.{MediaObject}
use meshconf.Decoder.{
  RgbFrame, Decoded, frame, buffered, failed, HevcDecoder, DecoderTask, is_key, detect_gap, gate,
  prepare, finish, decode, step,
}

-- Where the decoder stands: the group that it decoded last, or `none` while it waits for a keyframe.
abbrev pub position : {S : Type 0} → DecoderTask S → Option ℕ
position s = if s.got_keyframe then some s.last_decoded_group else none

-- What it can decode there.
abbrev pub is_expected : Option ℕ → MediaObject → Bool
is_expected none obj = is_key obj
is_expected (some g) obj = is_key obj || (obj.group_id == (g + 1) % u64_mod)

-- An open gate has a session behind it.
abbrev pub IsGated : {S : Type 0} → DecoderTask S → Type 0
IsGated s = s.got_keyframe ≡ true → s.decoder ≢ none

module _ (hevc : HevcDecoder) where
  open hevc use {Session, new_from_annex_b, params_match, decode_annex_b}

  -- What a step does to an object that is expected.
  pub data Outcome (obj : MediaObject) (s s' : DecoderTask Session) : Type 0 where
    -- The object is lost, and the decoder waits for the next keyframe.
    lost : s'.got_keyframe ≡ false → s'.sent ≡ s.sent → Outcome obj s s'
    -- It is decoded, and no frame leaves: the decoder buffers it, or the compositor is full.
    kept :
        s'.got_keyframe ≡ true
        → s'.last_decoded_group ≡ obj.group_id
        → s'.sent ≡ s.sent
        → s'.decoder ≢ none
        → Outcome obj s s'
    -- Its frame is on the way to the compositor.
    shown :
        (f : RgbFrame)
        → s'.got_keyframe ≡ true
        → s'.last_decoded_group ≡ obj.group_id
        → s'.sent ≡ f ∷ s.sent
        → f.group_id ≡ obj.group_id
        → f.capture_timestamp_us ≡ obj.capture_timestamp_us
        → s'.decoder ≢ none
        → Outcome obj s s'

  -- An object that is not expected shuts the gate and shows nothing, and it is counted as one drop
  -- behind a gate that was shut and as two behind one that was open, while the counter does not wrap.
  pub step-refused :
      (obj : MediaObject) (s : DecoderTask Session)
      → s.video_drops.drops + 2 < u64_mod
      → is_expected (position s) obj ≡ false
      → let s' = step hevc obj s in
        (s'.got_keyframe ≡ false)
        × (s'.sent ≡ s.sent)
        × (s'.video_drops.drops ≡ s.video_drops.drops + (if s.got_keyframe then 2 else 1))
  unfolding step detect_gap gate
  step-refused obj s small h = ground arith

  pub step-shut :
      (obj : MediaObject) (s : DecoderTask Session)
      → is_expected (position s) obj ≡ false
      → ((step hevc obj s).got_keyframe ≡ false) × ((step hevc obj s).sent ≡ s.sent)
  unfolding step detect_gap gate
  step-shut obj s h = ground arith

  finish-Outcome :
      (obj : MediaObject) (dec : Session) (r : Decoded) (s : DecoderTask Session)
      → s.got_keyframe ≡ true
      → Outcome obj s (finish hevc obj dec r s)
  unfolding finish
  finish-Outcome obj dec (frame f) s g =
      if_cases (Outcome obj s) (ltb 0 s.free)
        (λ c. shown _ g refl refl refl refl (λ e. ground arith))
        (λ c. kept g refl refl (λ e. ground arith))
  finish-Outcome obj dec buffered s g = kept g refl refl (λ e. ground arith)
  finish-Outcome obj dec failed s g = lost refl refl

  decode-Outcome :
      (obj : MediaObject) (d : Option Session) (s : DecoderTask Session)
      → d ≢ none
      → s.got_keyframe ≡ true
      → Outcome obj s (decode hevc obj d s)
  unfolding decode
  decode-Outcome obj none s ne g = absurd (ne refl)
  decode-Outcome obj (some dec) s ne g =
      finish-Outcome obj (decode_annex_b dec obj.payload).0 (decode_annex_b dec obj.payload).1 s g

  -- From a gate that is open, the session is there or the gate shuts.
  pub prepare-cases :
      (obj : MediaObject) (s : DecoderTask Session)
      → (is_key obj ≡ false → s.decoder ≢ none)
      → let (s', ready) = prepare hevc obj s in
        (s'.sent ≡ s.sent)
        × (ready ≡ true → (s'.decoder ≢ none) × (s'.got_keyframe ≡ s.got_keyframe))
        × (ready ≡ false → s'.got_keyframe ≡ false)
  unfolding prepare
  prepare-cases obj s h = ground arith

  pub gate-expected :
      (obj : MediaObject) (s : DecoderTask Session)
      → is_expected (position s) obj ≡ true
      → let (s', through) = gate obj (detect_gap obj s) in
        (through ≡ true)
        × (s'.got_keyframe ≡ true)
        × (s'.sent ≡ s.sent)
        × (s'.decoder ≡ s.decoder)
        × (is_key obj ≡ false → s.got_keyframe ≡ true)
  unfolding gate detect_gap
  gate-expected obj s e = ground arith

  Outcome-from :
      (obj : MediaObject) (s t s' : DecoderTask Session)
      → t.sent ≡ s.sent
      → Outcome obj t s'
      → Outcome obj s s'
  Outcome-from obj s t s' e (lost g h) = lost g (h ∙ e)
  Outcome-from obj s t s' e (kept g l h d) = kept g l (h ∙ e) d
  Outcome-from obj s t s' e (shown f g l h i c d) = shown f g l (h ∙ ap (◌∷◌ f) e) i c d

  -- Where an open gate has a session behind it, an object that is expected is lost and shuts the
  -- gate, or the decoder moves on to its group and at most its own frame leaves.
  pub step-Outcome :
      (obj : MediaObject) (s : DecoderTask Session)
      → IsGated s
      → is_expected (position s) obj ≡ true
      → Outcome obj s (step hevc obj s)
  unfolding step
  step-Outcome obj s gated e =
      let s1 : DecoderTask Session = (gate obj (detect_gap obj s)).0 in
      let s2 : DecoderTask Session = (prepare hevc obj s1).0 in
      let (through, open_, same, session, key) = gate-expected obj s e in
      let (same2, on_ready, on_failure) =
        prepare-cases obj s1 (λ k d. gated (key k) (sym session ∙ d)) in
      rw through (elim (Bool-cases (prepare hevc obj s1).1) [
        | inl ready ↦ rw ready (
            Outcome-from obj s s2 _ (same2 ∙ same)
              (decode-Outcome obj s2.decoder s2 (on_ready ready).0 ((on_ready ready).1 ∙ open_)))
        | inr failure ↦ rw failure (lost (on_failure failure) (same2 ∙ same))
      ])

  Outcome-IsGated : (obj : MediaObject) (s s' : DecoderTask Session) → Outcome obj s s' → IsGated s'
  Outcome-IsGated obj s s' (lost g h) = ground arith
  Outcome-IsGated obj s s' (kept g l h d) = λ x. d
  Outcome-IsGated obj s s' (shown f g l h i c d) = λ x. d

  pub step-IsGated :
      (obj : MediaObject) (s : DecoderTask Session) → IsGated s → IsGated (step hevc obj s)
  step-IsGated obj s gated = elim (Bool-cases (is_expected (position s) obj)) [
    | inl e ↦ Outcome-IsGated obj s (step hevc obj s) (step-Outcome obj s gated e)
    | inr e ↦ ground (arith, step-shut obj s e)
  ]
