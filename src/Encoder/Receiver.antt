-- ===== src/Encoder/Receiver.antt =====
-- src/video_encode.rs with src/video_decode.rs: what the decoder's task makes of the objects of a
-- connection.
use mathlib.Core.List.{reverse, reverse-cons, append_assoc, append-nil}
use meshconf.Prelude.{
  ℕ, ◌+◌, ◌^◌, ◌<◌, ◌≤◌, ◌≡◌, ◌≢◌, refl, ap, sym, ◌∙◌, true, false, Option, List, [], ◌∷◌, ◌++◌,
  if◌then◌else◌, length, arith, some, none, All, Option-cases, inl, inr, Outlet,
}
use meshconf.Protocol.Object.{MediaObject}
use meshconf.Bandwidth.{BandwidthEvent}
use meshconf.Decoder.{
  VideoDropCounter, RgbFrame, Decoded, frame, buffered, failed, HevcDecoder, DecoderTask, is_key,
  detect_gap, gate, prepare, finish, decode,
}
use meshconf.Decoder
use meshconf.Decoder.Chain.{
  position, is_expected, IsGated, gate-expected, prepare-cases, step-IsGated,
}
use meshconf.Decoder.History.{decoded}
use meshconf.Encoder.{EncodedPacket, SendEvent, packet, task_done, frame_of, run, start}
use meshconf.Encoder.Groups.{object_of, sent_on, Serves, packets, numbered, sent_on-run}

-- The first packet of a peer's time is a keyframe.
abbrev pub KeyFirst : List EncodedPacket → Type 0
KeyFirst [] = Unit
KeyFirst (pkt ∷ pkts) = pkt.is_keyframe ≡ true

length-packets :
    {F : Type 0} (events : List (SendEvent F)) → length (packets events) ≤ length events
length-packets [] = omega arith
length-packets (packet pkt count peers paths ∷ es) = omega (arith, length-packets es)
length-packets (task_done h result ∷ es) = omega (arith, length-packets es)

module _ (hevc : HevcDecoder) where
  open hevc use {Session, new_from_annex_b, decode_annex_b}

  -- The system's decoder takes the frame: a session can be made of a keyframe, and decoding the frame
  -- is no error.
  abbrev pub Accepts : MediaObject → Type 0
  Accepts obj =
      (is_key obj ≡ true → new_from_annex_b obj.payload ≢ none)
      × ((d : Session) → (decode_annex_b d obj.payload).1 ≢ failed)

  prepare-accepted :
      (obj : MediaObject) (s : DecoderTask Session) → Accepts obj → (prepare hevc obj s).1 ≡ true
  unfolding prepare
  prepare-accepted obj s a = elim (Option-cases (new_from_annex_b obj.payload)) [
    | inl e ↦ ground (arith, e, a.0)
    | inr (d, e) ↦ ground (arith, e)
  ]

  -- The gate is open, and the decoder stands at the object.
  abbrev StandsAt : MediaObject → DecoderTask Session → Type 0
  StandsAt obj s = (s.got_keyframe ≡ true) × (s.last_decoded_group ≡ obj.group_id)

  finish-accepted :
      (obj : MediaObject) (d : Session) (r : Decoded) (s : DecoderTask Session)
      → r ≢ failed
      → s.got_keyframe ≡ true
      → StandsAt obj (finish hevc obj d r s)
  unfolding finish
  finish-accepted obj d (frame f) s ne g = ground arith
  finish-accepted obj d buffered s ne g = (g, refl)
  finish-accepted obj d failed s ne g = absurd (ne refl)

  decode-accepted :
      (obj : MediaObject) (d : Option Session) (s : DecoderTask Session)
      → Accepts obj
      → d ≢ none
      → s.got_keyframe ≡ true
      → StandsAt obj (decode hevc obj d s)
  unfolding decode
  decode-accepted obj none s a ne g = absurd (ne refl)
  decode-accepted obj (some d) s a ne g =
      finish-accepted obj (decode_annex_b d obj.payload).0 (decode_annex_b d obj.payload).1 s
        (a.1 d) g

  step-accepted :
      (obj : MediaObject) (s : DecoderTask Session)
      → IsGated s
      → Accepts obj
      → is_expected (position s) obj ≡ true
      → StandsAt obj (Decoder.step hevc obj s)
  unfolding Decoder.step
  step-accepted obj s gated a e =
      let s1 : DecoderTask Session = (gate obj (detect_gap obj s)).0 in
      let s2 : DecoderTask Session = (prepare hevc obj s1).0 in
      let (through, open_, same, session, key) = gate-expected hevc obj s e in
      let (same2, on_ready, on_failure) =
        prepare-cases hevc obj s1 (λ k d. gated (key k) (sym session ∙ d)) in
      let ready : (prepare hevc obj s1).1 ≡ true = prepare-accepted obj s1 a in
      rw (through, ready)
        (decode-accepted obj s2.decoder s2 a (on_ready ready).0 ((on_ready ready).1 ∙ open_))

  decoded-numbered :
      (n : ℕ) (pkts : List EncodedPacket) (s : DecoderTask Session) (past : List MediaObject)
      → IsGated s
      → n + length pkts < 2 ^ 62
      → (s.got_keyframe ≡ false → KeyFirst pkts)
      → (s.got_keyframe ≡ true → s.last_decoded_group ≡ n)
      → All Accepts (numbered n pkts)
      → decoded hevc (numbered n pkts) s past ≡ reverse (numbered n pkts) ++ past
  unfolding decoded
  decoded-numbered n [] s past gated small shut open_ a = refl
  decoded-numbered n (pkt ∷ pkts) s past gated small shut open_ a =
      let obj : MediaObject = object_of (frame_of (n + 1) pkt) in
      let s' : DecoderTask Session = Decoder.step hevc obj s in
      let (open', at) = step-accepted obj s gated a.0 (ground (arith, shut, open_)) in
      ap (λ b. decoded hevc (numbered (n + 1) pkts) s' (if b then obj ∷ past else past)) open'
      ∙ decoded-numbered (n + 1) pkts s' (obj ∷ past) (step-IsGated hevc obj s gated) (omega arith)
          (λ e. absurd (ground arith)) (λ e. ground arith) a.1
      ∙ rw (reverse-cons, append_assoc) refl

  -- A connection that is served from the loop's start on, for fewer than 2^62 events of which the
  -- first packet is a keyframe, and whose frames arrive in order and are taken by the system's
  -- decoder, has each of its packets decoded, in order.
  pub decoded-sent_on :
      {F : Type 0} (conn : ℕ) (events : List (SendEvent F))
      (bw_tx : Option (Outlet (BandwidthEvent F))) (free : ℕ) (counter : VideoDropCounter)
      → All (Serves conn) events
      → length events < 2 ^ 62
      → KeyFirst (packets events)
      → All Accepts (sent_on conn (run events (start bw_tx)).spawned)
      → decoded hevc
          (sent_on conn (run events (start bw_tx)).spawned)
          (Decoder.start hevc free counter)
          []
        ≡ reverse (numbered 0 (packets events))
  unfolding start Decoder.start
  decoded-sent_on {F} conn events bw_tx free counter serves small key a =
      let e : sent_on conn (run events (start {F = F} bw_tx)).spawned
          ≡ numbered 0 (packets events) =
        sent_on-run conn events (start bw_tx) serves (omega arith) in
      rw e (
        decoded-numbered 0 (packets events) (Decoder.start hevc free counter) []
          (λ g. absurd (ground arith)) (omega (arith, length-packets events)) (λ g. key)
          (λ g. absurd (ground arith)) (rw e at a)
        ∙ append-nil (reverse (numbered 0 (packets events))))
