-- ===== src/Encoder/Groups.antt =====
-- src/video_encode.rs: the frames for which send tasks of a connection are started.
use meshconf.Prelude.{
  Bool-cases, ℕ, ◌+◌, ◌<◌, ◌≡◌, ◌≢◌, refl, ap, sym, ◌∙◌, false, Option, List, [], ◌∷◌, ◌++◌, ◌==◌,
  if◌then◌else◌, length, arith, some, none, u64_mod, All, Option-cases, inl, inr,
}
use mathlib.Core.List.{append_assoc, append-nil}
use meshconf.Protocol.Extension.{hevc}
use meshconf.Protocol.Object.{MediaObject}
use meshconf.Dispatch.Delivery.{frame_object}
use meshconf.Encoder.{
  EncodedPacket, VideoFrame, SendTask, SendLoop, SendEvent, packet, task_done, abort_all,
  spawn_send, spawn_all, prepare_frame, poll, send_packet, nth_task, end_task, step, run, frame_of,
}

-- The object that arrives of a frame, by `Dispatch.Delivery`.
abbrev pub object_of : VideoFrame → MediaObject
object_of f = frame_object f.group_id f.subgroup_id 0 f.capture_timestamp_us (some hevc) f.payload

-- What the tasks of a connection send, in the order in which they were spawned.
abbrev pub sent_on : ℕ → List SendTask → List MediaObject
sent_on conn [] = []
sent_on conn (t ∷ ts) =
    if conn == t.conn then sent_on conn ts ++ (object_of t.frame ∷ []) else sent_on conn ts

-- How often a connection is in a list of peers.
abbrev pub occurrences : ℕ → List (ℕ × ℕ) → ℕ
occurrences conn [] = 0
occurrences conn ((peer, c) ∷ ps) = (if conn == c then 1 else 0) + occurrences conn ps

-- A connection that is there for a packet, once.
abbrev pub Serves : {F : Type 0} → ℕ → SendEvent F → Type 0
Serves conn (packet pkt count peers paths) = (count ≢ 0) × (occurrences conn peers ≡ 1)
Serves conn (task_done h result) = Unit

abbrev pub packets : {F : Type 0} → List (SendEvent F) → List EncodedPacket
packets [] = []
packets (packet pkt count peers paths ∷ es) = pkt ∷ packets es
packets (task_done h result ∷ es) = packets es

-- The specification: each packet is an object, numbered from behind `n` on without a gap.
abbrev pub numbered : ℕ → List EncodedPacket → List MediaObject
numbered n [] = []
numbered n (pkt ∷ pkts) = object_of (frame_of (n + 1) pkt) ∷ numbered (n + 1) pkts

module _ {F : Type 0} where
  spawn_all-absent :
      (conn : ℕ) (f : VideoFrame) (ps : List (ℕ × ℕ)) (s : SendLoop F)
      → occurrences conn ps ≡ 0
      → sent_on conn (spawn_all f ps s).spawned ≡ sent_on conn s.spawned
  unfolding spawn_all spawn_send
  spawn_all-absent conn f [] s e = refl
  spawn_all-absent conn f ((peer, c) ∷ ps) s e =
      spawn_all-absent conn f ps (spawn_send f peer c s) (ground arith) ∙ ground arith

  spawn_all-once :
      (conn : ℕ) (f : VideoFrame) (ps : List (ℕ × ℕ)) (s : SendLoop F)
      → occurrences conn ps ≡ 1
      → sent_on conn (spawn_all f ps s).spawned ≡ sent_on conn s.spawned ++ (object_of f ∷ [])
  unfolding spawn_all spawn_send
  spawn_all-once conn f [] s e = absurd (omega arith)
  spawn_all-once conn f ((peer, c) ∷ ps) s e =
      let s1 : SendLoop F = spawn_send f peer c s in
      elim (Bool-cases (conn == c)) [
        | inl same ↦ spawn_all-absent conn f ps s1 (ground arith) ∙ ground arith
        | inr other ↦
            spawn_all-once conn f ps s1 (ground arith)
            ∙ ap (λ xs. xs ++ (object_of f ∷ [])) (ground arith)
      ]

  pub frame_seq-spawn_all :
      (f : VideoFrame) (ps : List (ℕ × ℕ)) (s : SendLoop F)
      → (spawn_all f ps s).frame_seq ≡ s.frame_seq
  unfolding spawn_all spawn_send
  frame_seq-spawn_all f [] s = refl
  frame_seq-spawn_all f ((peer, c) ∷ ps) s = frame_seq-spawn_all f ps (spawn_send f peer c s)

  pub prepare_frame_counts :
      (pkt : EncodedPacket) (s : SendLoop F)
      → s.frame_seq + 1 < u64_mod
      → ((prepare_frame pkt s).frame_seq ≡ s.frame_seq + 1)
        × ((prepare_frame pkt s).spawned ≡ s.spawned)
  unfolding prepare_frame abort_all
  prepare_frame_counts pkt s small = ground arith

  poll_keeps :
      (ps : List (ℕ × ℕ)) (paths : ℕ → Option ℕ) (s : SendLoop F)
      → ((poll ps paths s).spawned ≡ s.spawned) × ((poll ps paths s).frame_seq ≡ s.frame_seq)
  unfolding poll
  poll_keeps ps paths s = ground arith

  end_task_keeps :
      (h : ℕ) (result : Option F) (s : SendLoop F)
      → ((end_task h result s).spawned ≡ s.spawned)
        × ((end_task h result s).frame_seq ≡ s.frame_seq)
  unfolding end_task
  end_task_keeps h result s = elim (Option-cases (nth_task s.spawned h)) [
    | inl e ↦ rw (end_task, e) (refl, refl)
    | inr (task, e) ↦
        rw (end_task, e) (elim result [ none ↦ ground arith | some secs ↦ ground arith ])
  ]

  send_packet_sends :
      (conn : ℕ) (pkt : EncodedPacket) (count : ℕ) (peers : List (ℕ × ℕ)) (paths : ℕ → Option ℕ)
      (s : SendLoop F)
      → count ≢ 0
      → occurrences conn peers ≡ 1
      → s.frame_seq + 1 < u64_mod
      → let s' = send_packet pkt count peers paths s in
        (s'.frame_seq ≡ s.frame_seq + 1)
        × (sent_on conn s'.spawned
            ≡ sent_on conn s.spawned ++ (object_of (frame_of (s.frame_seq + 1) pkt) ∷ []))
  unfolding send_packet
  send_packet_sends conn pkt count peers paths s ne once small =
      let s1 : SendLoop F = prepare_frame pkt s in
      let s2 : SendLoop F = spawn_all (frame_of s1.frame_seq pkt) peers s1 in
      let (seq, same) = prepare_frame_counts pkt s small in
      let (same2, seq2) = poll_keeps peers paths s2 in
      let skip : (count == 0) ≡ false = ground arith in
      rw skip (
        seq2 ∙ frame_seq-spawn_all (frame_of s1.frame_seq pkt) peers s1 ∙ seq,
        ap (sent_on conn) same2
            ∙ spawn_all-once conn (frame_of s1.frame_seq pkt) peers s1 once
            ∙ rw (same, seq) refl,
      )

  -- For a connection that is served throughout, a send task is started for each packet, in order, and
  -- their groups follow one another without a gap, whatever packets were lost in front of the loop, up
  -- to 2^64 frames.
  pub sent_on-run :
      (conn : ℕ) (events : List (SendEvent F)) (s : SendLoop F)
      → All (Serves conn) events
      → s.frame_seq + length events < u64_mod
      → sent_on conn (run events s).spawned
        ≡ sent_on conn s.spawned ++ numbered s.frame_seq (packets events)
  unfolding run step
  sent_on-run conn [] s serves small = sym (append-nil (sent_on conn s.spawned))
  sent_on-run conn (packet pkt count peers paths ∷ es) s serves small =
      let s' : SendLoop F = send_packet pkt count peers paths s in
      let (seq, sent) =
        send_packet_sends conn pkt count peers paths s serves.0.0 serves.0.1 (omega arith) in
      sent_on-run conn es s' serves.1 (omega (arith, seq))
      ∙ rw (seq, sent) (append_assoc (sent_on conn s.spawned) _ _)
  sent_on-run conn (task_done h result ∷ es) s serves small =
      let (same, seq) = end_task_keeps h result s in
      sent_on-run conn es (end_task h result s) serves.1 (omega (arith, seq)) ∙ rw (same, seq) refl
