-- ===== src/Decoder/History.antt =====
-- src/video_decode.rs: the objects that were decoded, over a run of the decoder's task.
use meshconf.Prelude.{
  sym, subst, if_cases, ℕ, ◌+◌, ◌%◌, ◌≡◌, refl, ◌⊎◌, inl, inr, true, false, List, [], ◌∷◌,
  if◌then◌else◌, u64_mod, arith, Bool-cases,
}
use meshconf.Protocol.Object.{MediaObject}
use meshconf.Decoder.{
  VideoDropCounter, RgbFrame, HevcDecoder, DecoderTask, is_key, step, run, start,
}
use meshconf.Decoder.Chain.{
  position, is_expected, IsGated, Outcome, lost, kept, shown, step-Outcome, step-IsGated, step-shut,
}

-- `obj` can be decoded behind the objects `past`, newest first.
abbrev pub Follows : MediaObject → List MediaObject → Type 0
Follows obj [] = is_key obj ≡ true
Follows obj (p ∷ past) = (is_key obj ≡ true) ⊎ (obj.group_id ≡ (p.group_id + 1) % u64_mod)

abbrev pub IsContinuous : List MediaObject → Type 0
IsContinuous [] = Unit
IsContinuous (obj ∷ past) = Follows obj past × IsContinuous past

-- The frames are those of some of the objects, in their order.
pub data IsShown : List RgbFrame → List MediaObject → Type 0 where
  none_shown : IsShown [] []
  hidden :
      (obj : MediaObject) {fs : List RgbFrame} {past : List MediaObject}
      → IsShown fs past
      → IsShown fs (obj ∷ past)
  visible :
      (f : RgbFrame) (obj : MediaObject) {fs : List RgbFrame} {past : List MediaObject}
      → f.group_id ≡ obj.group_id
      → f.capture_timestamp_us ≡ obj.capture_timestamp_us
      → IsShown fs past
      → IsShown (f ∷ fs) (obj ∷ past)

-- The newest object is the one where the decoder stands.
abbrev LeadsTo : {S : Type 0} → List MediaObject → DecoderTask S → Type 0
LeadsTo [] s = s.got_keyframe ≡ false
LeadsTo (p ∷ past) s = s.got_keyframe ≡ true → p.group_id ≡ s.last_decoded_group

record IsHistory {S : Type 0} (past : List MediaObject) (s : DecoderTask S) : Type 0 where
  gated : IsGated s
  continuous : IsContinuous past
  is_shown : IsShown s.sent past
  leads : LeadsTo past s

module _ (hevc : HevcDecoder) where
  open hevc use {Session}

  -- The objects that a run decodes, newest first: behind those, the gate is open.
  unfoldable pub decoded :
      List MediaObject → DecoderTask Session → List MediaObject → List MediaObject
  decoded [] s past = past
  decoded (obj ∷ objs) s past =
      let s' = step hevc obj s in decoded objs s' (if s'.got_keyframe then obj ∷ past else past)

  shut-LeadsTo :
      (past : List MediaObject) (s : DecoderTask Session) → s.got_keyframe ≡ false → LeadsTo past s
  shut-LeadsTo [] s g = g
  shut-LeadsTo (p ∷ past) s g = λ h. ground arith

  expected-Follows :
      (obj : MediaObject) (past : List MediaObject) (s : DecoderTask Session)
      → LeadsTo past s
      → is_expected (position s) obj ≡ true
      → Follows obj past
  expected-Follows obj [] s l e = ground arith
  expected-Follows obj (p ∷ past) s l e = ground arith

  shut-IsHistory :
      (obj : MediaObject) (past : List MediaObject) (s s' : DecoderTask Session)
      → IsHistory past s
      → (s'.got_keyframe ≡ false) × (s'.sent ≡ s.sent)
      → IsHistory (if s'.got_keyframe then obj ∷ past else past) s'
  shut-IsHistory obj past s s' v (g, h) =
      if_cases (λ q. IsHistory q s') s'.got_keyframe (λ k. absurd (ground arith))
        (λ k. record {
          gated = λ k2. absurd (ground arith);
          continuous = v.continuous;
          is_shown = subst (λ fs. IsShown fs past) (sym h) v.is_shown;
          leads = shut-LeadsTo past s' g;
        })

  Outcome-IsHistory :
      (obj : MediaObject) (past : List MediaObject) (s s' : DecoderTask Session)
      → IsHistory past s
      → Follows obj past
      → IsGated s'
      → Outcome hevc obj s s'
      → IsHistory (if s'.got_keyframe then obj ∷ past else past) s'
  Outcome-IsHistory obj past s s' v f gated (lost g h) = shut-IsHistory obj past s s' v (g, h)
  Outcome-IsHistory obj past s s' v f gated (kept g l h d) =
      if_cases (λ q. IsHistory q s') s'.got_keyframe
        (λ k. record {
          gated = gated;
          continuous = (f, v.continuous);
          is_shown = subst (λ fs. IsShown fs (obj ∷ past)) (sym h) (hidden obj v.is_shown);
          leads = λ k2. sym l;
        })
        (λ k. absurd (ground arith))
  Outcome-IsHistory obj past s s' v f gated (shown fr g l h i c d) =
      if_cases (λ q. IsHistory q s') s'.got_keyframe
        (λ k. record {
          gated = gated;
          continuous = (f, v.continuous);
          is_shown = subst (λ fs. IsShown fs (obj ∷ past)) (sym h) (visible fr obj i c v.is_shown);
          leads = λ k2. sym l;
        })
        (λ k. absurd (ground arith))

  step-IsHistory :
      (obj : MediaObject) (past : List MediaObject) (s : DecoderTask Session)
      → IsHistory past s
      → let s' = step hevc obj s in IsHistory (if s'.got_keyframe then obj ∷ past else past) s'
  step-IsHistory obj past s v = elim (Bool-cases (is_expected (position s) obj)) [
    | inl e ↦
        Outcome-IsHistory obj past s (step hevc obj s) v (expected-Follows obj past s v.leads e)
          (step-IsGated hevc obj s v.gated) (step-Outcome hevc obj s v.gated e)
    | inr e ↦ shut-IsHistory obj past s (step hevc obj s) v (step-shut hevc obj s e)
  ]

  run-IsHistory :
      (objs past : List MediaObject) (s : DecoderTask Session)
      → IsHistory past s
      → IsHistory (decoded objs s past) (run hevc objs s)
  unfolding run decoded
  run-IsHistory [] past s v = v
  run-IsHistory (obj ∷ objs) past s v =
      run-IsHistory objs _ (step hevc obj s) (step-IsHistory obj past s v)

  -- Whatever objects arrive and get lost, each object that is decoded is a keyframe or has the
  -- group behind that of the object decoded before it, and the frames that the compositor receives
  -- are those of decoded objects, in their order.
  pub run-start-IsContinuous :
      (free : ℕ) (counter : VideoDropCounter) (objs : List MediaObject)
      → let s = start hevc free counter in
        IsContinuous (decoded objs s []) × IsShown (run hevc objs s).sent (decoded objs s [])
  unfolding start
  run-start-IsContinuous free counter objs =
      let v : IsHistory (decoded objs (start hevc free counter) [])
          (run hevc objs (start hevc free counter)) =
        run-IsHistory objs [] (start hevc free counter) (record {
          gated = λ h. ground arith;
          continuous = tt;
          is_shown = none_shown;
          leads = refl;
        }) in
      (v.continuous, v.is_shown)
