-- ===== src/Encoder/Kept.antt =====
-- src/video_encode.rs: the send tasks that the loop leaves alone.
use mathlib.Core.List.{append_assoc, append-nil}
use meshconf.Prelude.{
  ℕ, ◌+◌, ◌<◌, ◌≡◌, ◌≢◌, refl, ap, sym, ◌∙◌, false, not, ◌&&◌, Option, none, some, List, [], ◌∷◌,
  ◌++◌, ◌==◌, if◌then◌else◌, length, arith, u64_mod, All, Bool-cases, Option-cases, inl, inr,
  Outlet,
}
use meshconf.Protocol.Object.{MediaObject}
use meshconf.Bandwidth.{BandwidthEvent}
use meshconf.Encoder.{
  EncodedPacket, VideoFrame, SendTask, SendLoop, SendEvent, packet, task_done, elem, spawn_send,
  spawn_all, prepare_frame, poll, send_packet, nth_task, end_task, step, run, start, frame_of,
}
use meshconf.Encoder.Groups.{
  object_of, occurrences, Serves, packets, numbered, prepare_frame_counts, frame_seq-spawn_all,
}
use meshconf.Encoder.Bounded.{
  elem_above, IsBounded, abort_all-IsBounded, prepare_frame-IsBounded, spawn_send-IsBounded,
  spawn_all-IsBounded,
}

-- What the tasks of a connection send that were not aborted, in the order in which they were spawned.
abbrev kept_on : ℕ → List ℕ → List SendTask → List MediaObject
kept_on conn aborted [] = []
kept_on conn aborted (t ∷ ts) =
    if conn == t.conn && not (elem (length ts) aborted)
    then kept_on conn aborted ts ++ (object_of t.frame ∷ [])
    else kept_on conn aborted ts

abbrev IsDelta : {F : Type 0} → SendEvent F → Type 0
IsDelta (packet pkt count peers paths) = pkt.is_keyframe ≡ false
IsDelta (task_done h result) = Unit

module _ {F : Type 0} where
  abbrev pub kept : ℕ → SendLoop F → List MediaObject
  kept conn s = kept_on conn s.aborted s.spawned

  spawn_all-absent :
      (conn : ℕ) (f : VideoFrame) (ps : List (ℕ × ℕ)) (s : SendLoop F)
      → occurrences conn ps ≡ 0
      → kept conn (spawn_all f ps s) ≡ kept conn s
  unfolding spawn_all spawn_send
  spawn_all-absent conn f [] s e = refl
  spawn_all-absent conn f ((peer, c) ∷ ps) s e =
      spawn_all-absent conn f ps (spawn_send f peer c s) (ground arith) ∙ ground arith

  spawn_all-once :
      (conn : ℕ) (f : VideoFrame) (ps : List (ℕ × ℕ)) (s : SendLoop F)
      → IsBounded s
      → occurrences conn ps ≡ 1
      → kept conn (spawn_all f ps s) ≡ kept conn s ++ (object_of f ∷ [])
  unfolding spawn_all spawn_send
  spawn_all-once conn f [] s v e = absurd (omega arith)
  spawn_all-once conn f ((peer, c) ∷ ps) s v e =
      let s1 : SendLoop F = spawn_send f peer c s in
      let free : elem (length s.spawned) s.aborted ≡ false =
        elem_above (length s.spawned) s.aborted v.stopped in
      elim (Bool-cases (conn == c)) [
        | inl same ↦ spawn_all-absent conn f ps s1 (ground arith) ∙ ground (arith, free)
        | inr other ↦
            spawn_all-once conn f ps s1 (spawn_send-IsBounded f peer c s v) (ground arith)
            ∙ ap (λ xs. xs ++ (object_of f ∷ [])) (ground arith)
      ]

  poll_keeps :
      (ps : List (ℕ × ℕ)) (paths : ℕ → Option ℕ) (s : SendLoop F)
      → ((poll ps paths s).spawned ≡ s.spawned)
        × ((poll ps paths s).aborted ≡ s.aborted)
        × ((poll ps paths s).in_flight ≡ s.in_flight)
        × ((poll ps paths s).frame_seq ≡ s.frame_seq)
  unfolding poll
  poll_keeps ps paths s = ground arith

  end_task_keeps :
      (h : ℕ) (result : Option F) (s : SendLoop F)
      → let s' = end_task h result s in
        (s'.spawned ≡ s.spawned)
        × (s'.aborted ≡ s.aborted)
        × (s'.in_flight ≡ s.in_flight)
        × (s'.frame_seq ≡ s.frame_seq)
  unfolding end_task
  end_task_keeps h result s = elim (Option-cases (nth_task s.spawned h)) [
    | inl e ↦ rw (end_task, e) (refl, refl, refl, refl)
    | inr (task, e) ↦
        rw (end_task, e) (elim result [ none ↦ ground arith | some secs ↦ ground arith ])
  ]

  -- A packet for a connection is a task behind those that its keyframe did not abort.
  send_packet_keeps :
      (conn : ℕ) (pkt : EncodedPacket) (count : ℕ) (peers : List (ℕ × ℕ)) (paths : ℕ → Option ℕ)
      (s : SendLoop F)
      → count ≢ 0
      → occurrences conn peers ≡ 1
      → s.frame_seq + 1 < u64_mod
      → IsBounded s
      → let s' = send_packet pkt count peers paths s in
        IsBounded s'
        × (s'.frame_seq ≡ s.frame_seq + 1)
        × (kept conn s'
            ≡ kept conn (prepare_frame pkt s) ++ (object_of (frame_of (s.frame_seq + 1) pkt) ∷ []))
  unfolding send_packet
  send_packet_keeps conn pkt count peers paths s ne once small v =
      let s1 : SendLoop F = prepare_frame pkt s in
      let f : VideoFrame = frame_of s1.frame_seq pkt in
      let s2 : SendLoop F = spawn_all f peers s1 in
      let (seq, same) = prepare_frame_counts pkt s small in
      let (spawned, aborted, in_flight, seq2) = poll_keeps peers paths s2 in
      let v1 : IsBounded s1 = prepare_frame-IsBounded pkt s v in
      let v2 : IsBounded s2 = spawn_all-IsBounded f peers s1 v1 in
      let skip : (count == 0) ≡ false = ground arith in
      rw skip (
        record {
          flying = rw (spawned, in_flight) v2.flying;
          stopped = rw (spawned, aborted) v2.stopped;
        },
        seq2 ∙ frame_seq-spawn_all f peers s1 ∙ seq,
        rw (spawned, aborted)
            (spawn_all-once conn f peers s1 v1 once
              ∙ ap (λ n. kept conn s1 ++ (object_of (frame_of n pkt) ∷ [])) seq),
      )

  delta_keeps :
      (conn : ℕ) (pkt : EncodedPacket) (s : SendLoop F)
      → pkt.is_keyframe ≡ false
      → kept conn (prepare_frame pkt s) ≡ kept conn s
  unfolding prepare_frame
  delta_keeps conn pkt s delta = rw delta refl

  end_task-IsBounded :
      (h : ℕ) (result : Option F) (s : SendLoop F) → IsBounded s → IsBounded (end_task h result s)
  end_task-IsBounded h result s v =
      let (spawned, aborted, in_flight, seq) = end_task_keeps h result s in
      record {
        flying = rw (spawned, in_flight) v.flying;
        stopped = rw (spawned, aborted) v.stopped;
      }

  step-IsBounded : (event : SendEvent F) (s : SendLoop F) → IsBounded s → IsBounded (step event s)
  unfolding step send_packet
  step-IsBounded (task_done h result) s v = end_task-IsBounded h result s v
  step-IsBounded (packet pkt count peers paths) s v = elim (Bool-cases (count == 0)) [
    | inl e ↦ rw e (abort_all-IsBounded s v)
    | inr e ↦
        let s1 : SendLoop F = prepare_frame pkt s in
        let s2 : SendLoop F = spawn_all (frame_of s1.frame_seq pkt) peers s1 in
        let v2 : IsBounded s2 =
          spawn_all-IsBounded (frame_of s1.frame_seq pkt) peers s1
            (prepare_frame-IsBounded pkt s v) in
        let (spawned, aborted, in_flight, seq) = poll_keeps peers paths s2 in
        rw e (record {
          flying = rw (spawned, in_flight) v2.flying;
          stopped = rw (spawned, aborted) v2.stopped;
        })
  ]

  run-IsBounded :
      (events : List (SendEvent F)) (s : SendLoop F) → IsBounded s → IsBounded (run events s)
  unfolding run
  run-IsBounded [] s v = v
  run-IsBounded (e ∷ es) s v = run-IsBounded es (step e s) (step-IsBounded e s v)

  kept-deltas :
      (conn : ℕ) (events : List (SendEvent F)) (s : SendLoop F)
      → IsBounded s
      → All (Serves conn) events
      → All IsDelta events
      → s.frame_seq + length events < u64_mod
      → kept conn (run events s) ≡ kept conn s ++ numbered s.frame_seq (packets events)
  unfolding run step
  kept-deltas conn [] s v serves delta small = sym (append-nil (kept conn s))
  kept-deltas conn (packet pkt count peers paths ∷ es) s v serves delta small =
      let s' : SendLoop F = send_packet pkt count peers paths s in
      let (v', seq, sent) =
        send_packet_keeps conn pkt count peers paths s serves.0.0 serves.0.1 (omega arith) v in
      kept-deltas conn es s' v' serves.1 delta.1 (omega (arith, seq))
      ∙ rw (seq, sent, delta_keeps conn pkt s delta.0) (append_assoc (kept conn s) _ _)
  kept-deltas conn (task_done h result ∷ es) s v serves delta small =
      let (spawned, aborted, in_flight, seq) = end_task_keeps h result s in
      kept-deltas conn es (end_task h result s) (end_task-IsBounded h result s v) serves.1 delta.1
        (omega (arith, seq))
      ∙ rw (spawned, aborted, seq) refl

  -- After any events, from a packet on and as long as no other keyframe follows, no send task for a
  -- connection that is served is aborted: what its tasks send that were not aborted ends with that
  -- packet and each later one, in order, their groups numbered without a gap, up to 2^64 frames.
  pub kept-run :
      (conn : ℕ) (before after : List (SendEvent F)) (pkt : EncodedPacket) (count : ℕ)
      (peers : List (ℕ × ℕ)) (paths : ℕ → Option ℕ) (bw_tx : Option (Outlet (BandwidthEvent F)))
      → count ≢ 0
      → occurrences conn peers ≡ 1
      → All (Serves conn) after
      → All IsDelta after
      → (run before (start bw_tx)).frame_seq + 1 + length after < u64_mod
      → let s = run before (start bw_tx) in
        (older : List MediaObject) × (kept conn (run (packet pkt count peers paths ∷ after) s)
          ≡ older ++ numbered s.frame_seq (pkt ∷ packets after))
  unfolding run step start
  kept-run conn before after pkt count peers paths bw_tx ne once serves delta small =
      let s : SendLoop F = run before (start bw_tx) in
      let v : IsBounded s =
        run-IsBounded before (start bw_tx) (record { flying = tt; stopped = tt }) in
      let (v', seq, sent) =
        send_packet_keeps conn pkt count peers paths s ne once (omega arith) v in
      (
        kept conn (prepare_frame pkt s),
        kept-deltas conn after (send_packet pkt count peers paths s) v' serves delta
              (omega (arith, seq))
            ∙ rw (seq, sent) (append_assoc (kept conn (prepare_frame pkt s)) _ _),
      )
