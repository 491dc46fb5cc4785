-- ===== src/AudioEncoder/Heard.antt =====
-- src/audio_encode.rs with src/broadcaster.rs and src/protocol.rs: what a peer hears.
use mathlib.Core.List.{append_assoc, append-nil}
use meshconf.Prelude.{
  ℕ, ◌+◌, ◌-◌, ◌%◌, ◌^◌, ◌≤◌, ◌<◌, ◌≡◌, refl, ap, sym, ◌∙◌, Bool, true, false, ◌&&◌, Option, none,
  some, List, [], ◌∷◌, ◌++◌, ◌==◌, ltb, if◌then◌else◌, length, map, All, ok, Result, arith,
  Bool-cases, inl, inr,
}
use meshconf.Protocol.Object.{MediaObject}
use meshconf.Protocol.Datagram.{
  encode_audio_datagram, decode_audio_datagram, audio_object, decode_audio_datagram-encode,
}
use meshconf.Broadcaster.{peer_count, deliveries, send_audio_datagram_to_all, max_send_age_audio_us}
use meshconf.Encoder.Groups.{occurrences}
use meshconf.AudioEncoder.{OpusEncoder, Chunk, EncodeTask, broadcast, step, run_audio_encoder}

-- What a receiver makes of the datagrams of a connection.
abbrev pub heard_on : ℕ → List (ℕ × List ℕ) → List (Result MediaObject)
heard_on conn [] = []
heard_on conn ((c, datagram) ∷ ds) =
    if conn == c then decode_audio_datagram datagram ∷ heard_on conn ds else heard_on conn ds

heard_on-append :
    (conn : ℕ) (xs ys : List (ℕ × List ℕ))
    → heard_on conn (xs ++ ys) ≡ heard_on conn xs ++ heard_on conn ys
heard_on-append conn [] ys = refl
heard_on-append conn ((c, d) ∷ xs) ys = ground (arith, heard_on-append conn xs ys)

heard_on_absent :
    (conn : ℕ) (accepts : ℕ → Bool) (d : List ℕ) (ps : List (ℕ × ℕ))
    → occurrences conn ps ≡ 0
    → heard_on conn (deliveries accepts d ps) ≡ []
heard_on_absent conn accepts d [] e = refl
heard_on_absent conn accepts d ((id, c) ∷ ps) e = ground (arith, heard_on_absent conn accepts d ps)

heard_on_once :
    (conn : ℕ) (accepts : ℕ → Bool) (d : List ℕ) (ps : List (ℕ × ℕ))
    → accepts conn ≡ true
    → occurrences conn ps ≡ 1
    → heard_on conn (deliveries accepts d ps) ≡ decode_audio_datagram d ∷ []
heard_on_once conn accepts d [] a e = absurd (omega arith)
heard_on_once conn accepts d ((id, c) ∷ ps) a e = elim (Bool-cases (conn == c)) [
  | inl same ↦ ground (arith, heard_on_absent conn accepts d ps)
  | inr other ↦ ground (arith, heard_on_once conn accepts d ps a)
]

module _ (opus : OpusEncoder) where
  open opus use {Encoder, encode_float}

  -- A connection of one peer that takes each datagram, which is sent within its age and before 2^62
  -- microseconds.
  abbrev pub Serves : ℕ → Chunk opus → Type 0
  Serves conn c =
      (occurrences conn c.broadcaster.peers ≡ 1)
      × (c.accepts conn ≡ true)
      × (c.now ≤ c.sent_us + max_send_age_audio_us)
      × (c.sent_us < 2 ^ 62)

  abbrev pub cons_object : ℕ → Option (List ℕ) → List MediaObject → List MediaObject
  cons_object ts none objs = objs
  cons_object ts (some bytes) objs = audio_object ts bytes ∷ objs

  -- The specification: the packets that Opus makes of the chunks, with their times.
  abbrev pub encoded : List (Chunk opus) → Encoder → List MediaObject
  encoded [] e = []
  encoded (c ∷ cs) e =
      cons_object c.sent_us (encode_float e c.samples).1 (encoded cs (encode_float e c.samples).0)

  occurrences_pos : (conn : ℕ) (ps : List (ℕ × ℕ)) → occurrences conn ps ≡ 1 → 0 < length ps
  occurrences_pos conn [] e = absurd (omega arith)
  occurrences_pos conn (p ∷ ps) e = omega arith

  heard_on-broadcast :
      (conn : ℕ) (c : Chunk opus) (out : Option (List ℕ)) (s : EncodeTask opus)
      → Serves conn c
      → heard_on conn (broadcast opus c out s).sent
        ≡ heard_on conn s.sent ++ map ok (cons_object c.sent_us out [])
  unfolding broadcast send_audio_datagram_to_all
  heard_on-broadcast conn c none s v = sym (append-nil (heard_on conn s.sent))
  heard_on-broadcast conn c (some bytes) s v =
      let d : List ℕ = encode_audio_datagram c.sent_us bytes in
      let peers : (peer_count c.broadcaster == 0) ≡ false =
        ground (arith, occurrences_pos conn c.broadcaster.peers v.0) in
      let fresh : (ltb 0 c.sent_us && ltb max_send_age_audio_us (c.now - c.sent_us)) ≡ false =
        ground (arith, v.2) in
      let low : c.sent_us % 2 ^ 62 ≡ c.sent_us = omega (arith, v.3) in
      rw (peers, fresh)
        (heard_on-append conn s.sent (deliveries c.accepts d c.broadcaster.peers)
          ∙ ap (λ xs. heard_on conn s.sent ++ xs)
              (heard_on_once conn c.accepts d c.broadcaster.peers v.1 v.0
                ∙ ap (λ o. o ∷ [])
                    ((decode_audio_datagram-encode c.sent_us bytes [] (omega (arith, v.3))).0
                      ∙ ap (λ t. ok (audio_object t bytes)) low)))

  encoder-broadcast :
      (c : Chunk opus) (out : Option (List ℕ)) (s : EncodeTask opus)
      → (broadcast opus c out s).encoder ≡ s.encoder
  unfolding broadcast
  encoder-broadcast c none s = refl
  encoder-broadcast c (some bytes) s = ground arith

  map-cons_object :
      (ts : ℕ) (out : Option (List ℕ)) (objs : List MediaObject)
      → let decoded : List (Result MediaObject) = map ok (cons_object ts out objs) in
        map ok (cons_object ts out []) ++ map ok objs ≡ decoded
  map-cons_object ts none objs = refl
  map-cons_object ts (some bytes) objs = refl

  -- On a connection that is served throughout, the receiver decodes each packet that Opus made, in
  -- order and with its time, and nothing else.
  pub heard_on-run_audio_encoder :
      (conn : ℕ) (cs : List (Chunk opus)) (s : EncodeTask opus)
      → All (Serves conn) cs
      → heard_on conn (run_audio_encoder opus cs s).sent
        ≡ heard_on conn s.sent ++ map ok (encoded cs s.encoder)
  unfolding run_audio_encoder step
  heard_on-run_audio_encoder conn [] s v = sym (append-nil (heard_on conn s.sent))
  heard_on-run_audio_encoder conn (c ∷ cs) s v =
      let r : Encoder × Option (List ℕ) = encode_float s.encoder c.samples in
      let s1 : EncodeTask opus = record s { encoder = r.0 } in
      let s2 : EncodeTask opus = broadcast opus c r.1 s1 in
      let front : List (Result MediaObject) = heard_on conn s.sent in
      heard_on-run_audio_encoder conn cs s2 v.1
      ∙ ap (λ e. heard_on conn s2.sent ++ map ok (encoded cs e)) (encoder-broadcast c r.1 s1)
      ∙ ap (λ xs. xs ++ map ok (encoded cs r.0)) (heard_on-broadcast conn c r.1 s1 v.0)
      ∙ append_assoc front (map ok (cons_object c.sent_us r.1 [])) (map ok (encoded cs r.0))
      ∙ ap (λ xs. front ++ xs) (map-cons_object c.sent_us r.1 (encoded cs r.0))
