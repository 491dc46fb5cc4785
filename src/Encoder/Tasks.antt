-- ===== src/Encoder/Tasks.antt =====
-- src/video_encode.rs: what becomes of the send tasks.
use meshconf.Prelude.{
  ◌∙◌, ℕ, ◌<◌, ◌≡◌, ◌⊎◌, inl, inr, refl, Bool, true, ◌||◌, Option, List, [], ◌∷◌, ◌++◌, ◌==◌,
  length, arith, Outlet, if_cases, Bool-cases, Option-cases, some, none,
}
use meshconf.Prelude.HashMap.{get, put}
use meshconf.Bandwidth.{BandwidthEvent}
use meshconf.Encoder.{
  EncodedPacket, VideoFrame, SendLoop, elem, handles, all_handles, retain_tasks, retain_all,
  tasks_of, SendEvent, packet, task_done, abort_all, spawn_send, spawn_all, prepare_frame, poll,
  send_packet, nth_task, end_task, step, run, start, send_loop,
}

elem-append : (h : ℕ) (xs ys : List ℕ) → elem h (xs ++ ys) ≡ (elem h xs || elem h ys)
elem-append h [] ys = refl
elem-append h (x ∷ xs) ys = ground (arith, elem-append h xs ys)

handles-append : (xs ys : List (ℕ × ℕ)) → handles (xs ++ ys) ≡ handles xs ++ handles ys
handles-append [] ys = refl
handles-append ((seq, h) ∷ xs) ys = ground (arith, handles-append xs ys)

elem-retain_tasks :
    (h : ℕ) (finished : List ℕ) (ts : List (ℕ × ℕ))
    → elem h (handles ts) ≡ true
    → (elem h finished || elem h (handles (retain_tasks finished ts))) ≡ true
elem-retain_tasks h finished [] e = absurd (ground arith)
elem-retain_tasks h finished ((seq, k) ∷ ts) e = ground (arith, elem-retain_tasks h finished ts)

elem-retain_all :
    (h : ℕ) (finished : List ℕ) (m : List (ℕ × List (ℕ × ℕ)))
    → elem h (all_handles m) ≡ true
    → (elem h finished || elem h (all_handles (retain_all finished m))) ≡ true
elem-retain_all h finished [] e = absurd (ground arith)
elem-retain_all h finished ((peer, ts) ∷ m) e = ground (
  arith,
  elem-append h (handles ts) (all_handles m),
  elem-append h (handles (retain_tasks finished ts)) (all_handles (retain_all finished m)),
  elem-retain_tasks h finished ts,
  elem-retain_all h finished m,
)

elem-put_task :
    (h peer seq k : ℕ) (m : List (ℕ × List (ℕ × ℕ)))
    → (elem h (all_handles m) || (h == k)) ≡ true
    → elem h (all_handles (put peer (tasks_of (get peer m) ++ ((seq, k) ∷ [])) m)) ≡ true
elem-put_task h peer seq k [] e = ground arith
elem-put_task h peer seq k ((p, ts) ∷ m) e = ground (
  arith,
  elem-append h (handles ts) (all_handles m),
  handles-append ts ((seq, k) ∷ []),
  elem-append h (handles ts ++ (k ∷ [])) (all_handles m),
  elem-append h (handles ts) (k ∷ []),
  elem-append h (handles ts) (all_handles (put peer (tasks_of (get peer m) ++ ((seq, k) ∷ [])) m)),
  elem-put_task h peer seq k m,
)

-- A task is over once it has ended or was aborted.
abbrev pub is_over : {F : Type 0} → ℕ → SendLoop F → Bool
is_over h s = elem h s.finished || elem h s.aborted

abbrev is_tracked : {F : Type 0} → ℕ → SendLoop F → Bool
is_tracked h s = is_over h s || elem h (all_handles s.in_flight)

-- No task is lost sight of.
abbrev IsTracked : {F : Type 0} → SendLoop F → Type 0
IsTracked s = (h : ℕ) → h < length s.spawned → is_tracked h s ≡ true

module _ {F : Type 0} where
  abort_all_settles :
      (s : SendLoop F)
      → IsTracked s
      → (h : ℕ) → h < length s.spawned
      → is_over h (abort_all s) ≡ true
  unfolding abort_all
  abort_all_settles s v h lt =
      ground (arith, v h lt, elem-append h (all_handles s.in_flight) s.aborted)

  abort_all-IsTracked : (s : SendLoop F) → IsTracked s → IsTracked (abort_all s)
  unfolding abort_all
  abort_all-IsTracked s v h lt = ground (arith, abort_all_settles s v h lt)

  spawn_send-IsTracked :
      (f : VideoFrame) (peer conn : ℕ) (s : SendLoop F)
      → IsTracked s
      → IsTracked (spawn_send f peer conn s)
  unfolding spawn_send
  spawn_send-IsTracked f peer conn s v h lt = elim (Bool-cases (h == length s.spawned)) [
    | inl e ↦ ground (arith, elem-put_task h peer f.group_id (length s.spawned) s.in_flight)
    | inr e ↦
        ground (
          arith,
          v h (ground arith),
          elem-put_task h peer f.group_id (length s.spawned) s.in_flight,
        )
  ]

  spawn_all-IsTracked :
      (f : VideoFrame) (ps : List (ℕ × ℕ)) (s : SendLoop F)
      → IsTracked s
      → IsTracked (spawn_all f ps s)
  unfolding spawn_all
  spawn_all-IsTracked f [] s v = v
  spawn_all-IsTracked f ((peer, conn) ∷ ps) s v =
      spawn_all-IsTracked f ps (spawn_send f peer conn s) (spawn_send-IsTracked f peer conn s v)

  prepare_frame-IsTracked :
      (pkt : EncodedPacket) (s : SendLoop F) → IsTracked s → IsTracked (prepare_frame pkt s)
  unfolding prepare_frame
  prepare_frame-IsTracked pkt s v h lt =
      ground (arith, v h, abort_all_settles s v h, elem-retain_all h s.finished s.in_flight)

  poll-IsTracked :
      (ps : List (ℕ × ℕ)) (paths : ℕ → Option ℕ) (s : SendLoop F)
      → IsTracked s
      → IsTracked (poll ps paths s)
  unfolding poll
  poll-IsTracked ps paths s v h = ground (arith, v h)

  end_task-IsTracked :
      (k : ℕ) (result : Option F) (s : SendLoop F) → IsTracked s → IsTracked (end_task k result s)
  unfolding end_task
  end_task-IsTracked k result s v h = elim (Option-cases (nth_task s.spawned k)) [
    | inl e ↦ rw (end_task, e) (v h)
    | inr (task, e) ↦
        rw (end_task, e)
          (elim result [ none ↦ ground (arith, v h) | some secs ↦ ground (arith, v h) ])
  ]

  step-IsTracked : (event : SendEvent F) (s : SendLoop F) → IsTracked s → IsTracked (step event s)
  unfolding step send_packet
  step-IsTracked (packet pkt count peers paths) s v =
      if_cases IsTracked (count == 0) (λ c. abort_all-IsTracked s v)
        (λ c.
          poll-IsTracked peers paths _
            (spawn_all-IsTracked _ peers _ (prepare_frame-IsTracked pkt s v)))
  step-IsTracked (task_done k result) s v = end_task-IsTracked k result s v

  run-IsTracked :
      (events : List (SendEvent F)) (s : SendLoop F) → IsTracked s → IsTracked (run events s)
  unfolding run
  run-IsTracked [] s v = v
  run-IsTracked (event ∷ events) s v =
      run-IsTracked events (step event s) (step-IsTracked event s v)

  start-IsTracked : (bw_tx : Option (Outlet (BandwidthEvent F))) → IsTracked (start bw_tx)
  unfolding start
  start-IsTracked bw_tx h lt = absurd (omega arith)

  spawn_all_keeps :
      (h : ℕ) (f : VideoFrame) (ps : List (ℕ × ℕ)) (s : SendLoop F)
      → is_over h (spawn_all f ps s) ≡ is_over h s
  unfolding spawn_all spawn_send
  spawn_all_keeps h f [] s = refl
  spawn_all_keeps h f ((peer, conn) ∷ ps) s = spawn_all_keeps h f ps (spawn_send f peer conn s)

  poll_keeps :
      (h : ℕ) (ps : List (ℕ × ℕ)) (paths : ℕ → Option ℕ) (s : SendLoop F)
      → is_over h (poll ps paths s) ≡ is_over h s
  unfolding poll
  poll_keeps h ps paths s = ground arith

  keyframe_settles :
      (pkt : EncodedPacket) (s : SendLoop F)
      → IsTracked s
      → pkt.is_keyframe ≡ true
      → (h : ℕ) → h < length s.spawned
      → is_over h (prepare_frame pkt s) ≡ true
  unfolding prepare_frame
  keyframe_settles pkt s v key h lt = ground (arith, abort_all_settles s v h lt)

  step-packet_settles :
      (pkt : EncodedPacket) (count : ℕ) (peers : List (ℕ × ℕ)) (paths : ℕ → Option ℕ)
      (s : SendLoop F)
      → IsTracked s
      → (pkt.is_keyframe ≡ true) ⊎ (count ≡ 0)
      → (h : ℕ) → h < length s.spawned
      → is_over h (step (packet pkt count peers paths) s) ≡ true
  unfolding step send_packet
  step-packet_settles pkt count peers paths s v k h lt =
      if_cases (λ (s' : SendLoop F). is_over h s' ≡ true) (count == 0)
        (λ c. abort_all_settles s v h lt)
        (λ c.
          poll_keeps h peers paths _
          ∙ spawn_all_keeps h _ peers _
          ∙ keyframe_settles pkt s v (ground arith) h lt)

  -- After any events, a packet with a keyframe, or one for nobody, leaves no older send task at work:
  -- each has ended or was aborted. When the loop ends, that holds of all its tasks.
  pub send_loop_settles :
      (events : List (SendEvent F)) (bw_tx : Option (Outlet (BandwidthEvent F)))
      (pkt : EncodedPacket) (count : ℕ) (peers : List (ℕ × ℕ)) (paths : ℕ → Option ℕ) (h : ℕ)
      → (pkt.is_keyframe ≡ true) ⊎ (count ≡ 0)
      → h < length (run events (start bw_tx)).spawned
      → (is_over h (step (packet pkt count peers paths) (run events (start bw_tx))) ≡ true)
        × (is_over h (send_loop events bw_tx) ≡ true)
  unfolding send_loop
  send_loop_settles events bw_tx pkt count peers paths h k lt =
      let s : SendLoop F = run events (start bw_tx) in
      let v : IsTracked s = run-IsTracked events (start bw_tx) (start-IsTracked bw_tx) in
      (step-packet_settles pkt count peers paths s v k h lt, abort_all_settles s v h lt)
