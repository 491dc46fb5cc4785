-- ===== src/Encoder.antt =====
-- src/video_encode.rs, `VideoEncoder::send_loop`: each encoded packet becomes a stream to each peer,
-- and a keyframe aborts the sends that it makes pointless. A send task is known by its handle, the
-- number of tasks that were spawned before it.
pub mod Bounded
pub mod Tasks
pub mod Groups
pub mod Kept
pub mod Receiver
pub mod Session
pub mod Tests
use meshconf.Prelude.{
  ℕ, ◌+◌, ◌-◌, ◌%◌, ◌^◌, Bool, true, false, not, ◌&&◌, ◌||◌, Option, none, some, List, [], ◌∷◌,
  ◌++◌, ltb, ◌==◌, if◌then◌else◌, min, length, u64_mod, Outlet, offer,
}
use meshconf.Prelude.HashMap.{get, put}
use meshconf.Protocol.Subgroup.{track_video, write_subgroup_header}
use meshconf.Protocol.Extension.{hevc}
use meshconf.Protocol.Object.{write_object}
use meshconf.Bandwidth.{BandwidthEvent, send_complete, rtt_sample}

pub record EncodedPacket : Type 0 where
  pub payload : List ℕ
  pub capture_timestamp_us : ℕ
  pub is_keyframe : Bool

-- The arguments of `send_video_frame`, next to its connection.
pub record VideoFrame : Type 0 where
  pub group_id : ℕ
  pub subgroup_id : ℕ
  pub quic_priority : ℕ
  pub capture_timestamp_us : ℕ
  pub payload : List ℕ

pub record SendTask : Type 0 where
  pub peer : ℕ
  pub conn : ℕ
  pub frame : VideoFrame

abbrev pub priority_video : ℕ
priority_video = 1

-- The header of a video stream.
unfoldable pub open_video_subgroup : ℕ → ℕ → ℕ → List ℕ
open_video_subgroup group_id subgroup_id publisher_priority =
    write_subgroup_header [] track_video group_id subgroup_id publisher_priority

-- What `send_video_frame` writes to its stream, which it finishes.
unfoldable pub send_video_frame : VideoFrame → List ℕ
unfolding open_video_subgroup
send_video_frame f =
    open_video_subgroup f.group_id f.subgroup_id priority_video
    ++ write_object [] 0 f.capture_timestamp_us (some hevc) f.payload

abbrev pub i32_max : ℕ
i32_max = 2 ^ 31 - 1

-- The variables of the loop, with the tasks that were spawned, newest first, the handles of those that
-- have ended and of those that were aborted. `in_flight` has the frame's number with each handle.
pub record SendLoop (F : Type 0) : Type 0 where
  pub frame_seq : ℕ
  pub current_gop : ℕ
  pub rtt_poll_counter : ℕ
  pub in_flight : List (ℕ × List (ℕ × ℕ))
  pub spawned : List SendTask
  pub finished : List ℕ
  pub aborted : List ℕ
  pub bw_tx : Option (Outlet (BandwidthEvent F))
  pub force_keyframe : Bool

abbrev pub elem : ℕ → List ℕ → Bool
elem h [] = false
elem h (k ∷ ks) = (h == k) || elem h ks

abbrev pub handles : List (ℕ × ℕ) → List ℕ
handles [] = []
handles ((seq, h) ∷ ts) = h ∷ handles ts

abbrev pub all_handles : List (ℕ × List (ℕ × ℕ)) → List ℕ
all_handles [] = []
all_handles ((peer, ts) ∷ m) = handles ts ++ all_handles m

abbrev pub retain_tasks : List ℕ → List (ℕ × ℕ) → List (ℕ × ℕ)
retain_tasks finished [] = []
retain_tasks finished ((seq, h) ∷ ts) =
    if elem h finished then retain_tasks finished ts else (seq, h) ∷ retain_tasks finished ts

abbrev pub retain_all : List ℕ → List (ℕ × List (ℕ × ℕ)) → List (ℕ × List (ℕ × ℕ))
retain_all finished [] = []
retain_all finished ((peer, ts) ∷ m) = (peer, retain_tasks finished ts) ∷ retain_all finished m

abbrev pub tasks_of : Option (List (ℕ × ℕ)) → List (ℕ × ℕ)
tasks_of none = []
tasks_of (some ts) = ts

abbrev pub offer_to : {A : Type 0} → A → Option (Outlet A) → Option (Outlet A)
offer_to a none = none
offer_to a (some tx) = some (offer a tx)

-- `paths` is the selected path's round-trip time of each connection that has one.
abbrev pub offer_rtt :
    {F : Type 0}
    → Option ℕ
    → Option (Outlet (BandwidthEvent F))
    → Option (Outlet (BandwidthEvent F))
offer_rtt none tx = tx
offer_rtt (some us) tx = offer_to (rtt_sample us) tx

abbrev pub poll_rtts :
    {F : Type 0}
    → (ℕ → Option ℕ)
    → List (ℕ × ℕ)
    → Option (Outlet (BandwidthEvent F))
    → Option (Outlet (BandwidthEvent F))
poll_rtts paths [] tx = tx
poll_rtts paths ((peer, conn) ∷ ps) tx = poll_rtts paths ps (offer_rtt (paths conn) tx)

abbrev pub frame_of : ℕ → EncodedPacket → VideoFrame
frame_of frame_seq pkt = record {
  group_id = frame_seq;
  subgroup_id = if pkt.is_keyframe then 0 else 1;
  quic_priority = min frame_seq i32_max;
  capture_timestamp_us = pkt.capture_timestamp_us;
  payload = pkt.payload;
}

-- A turn has the packet, the number of peers and later their list as the broadcaster gives them, and
-- the paths. A task ends by itself with the time in seconds that a successful send took.
pub data SendEvent (F : Type 0) : Type 0 where
  packet : EncodedPacket → ℕ → List (ℕ × ℕ) → (ℕ → Option ℕ) → SendEvent F
  task_done : ℕ → Option F → SendEvent F

-- The payload of a task, by its handle.
abbrev pub nth_task : List SendTask → ℕ → Option SendTask
nth_task [] h = none
nth_task (t ∷ ts) h = if h == length ts then some t else nth_task ts h

module _ {F : Type 0} where
  pub abort_all : SendLoop F → SendLoop F
  abort_all s = record s { in_flight = []; aborted = all_handles s.in_flight ++ s.aborted }

  pub spawn_send : VideoFrame → ℕ → ℕ → SendLoop F → SendLoop F
  spawn_send f peer conn s =
      let task : SendTask = record { peer = peer; conn = conn; frame = f } in
      record s {
        spawned = task ∷ s.spawned;
        in_flight =
            put peer (tasks_of (get peer s.in_flight) ++ ((f.group_id, length s.spawned) ∷ []))
              s.in_flight;
      }

  pub spawn_all : VideoFrame → List (ℕ × ℕ) → SendLoop F → SendLoop F
  unfolding spawn_send
  spawn_all f [] s = s
  spawn_all f ((peer, conn) ∷ ps) s = spawn_all f ps (spawn_send f peer conn s)

  pub prepare_frame : EncodedPacket → SendLoop F → SendLoop F
  unfolding abort_all
  prepare_frame pkt s =
      let s1 = record s { frame_seq = (s.frame_seq + 1) % u64_mod } in
      let s2 =
        if pkt.is_keyframe
        then abort_all (record s1 { current_gop = (s1.current_gop + 1) % u64_mod })
        else s1 in
      record s2 { in_flight = retain_all s2.finished s2.in_flight }

  pub poll : List (ℕ × ℕ) → (ℕ → Option ℕ) → SendLoop F → SendLoop F
  poll peers paths s =
      let s1 = record s { rtt_poll_counter = (s.rtt_poll_counter + 1) % u64_mod } in
      if s1.rtt_poll_counter % 30 == 0
      then record s1 { bw_tx = poll_rtts paths peers s1.bw_tx }
      else s1

  pub send_packet : EncodedPacket → ℕ → List (ℕ × ℕ) → (ℕ → Option ℕ) → SendLoop F → SendLoop F
  unfolding abort_all prepare_frame spawn_all poll
  send_packet pkt peer_count peers paths s =
      if peer_count == 0
      then abort_all s
      else (let s1 = prepare_frame pkt s in
          poll peers paths (spawn_all (frame_of s1.frame_seq pkt) peers s1))

  abbrev pub report : SendTask → Option F → SendLoop F → SendLoop F
  report task none s = s
  report task (some secs) s = record s {
    bw_tx = offer_to (send_complete secs (length task.frame.payload)) s.bw_tx;
  }

  -- A task that was aborted or has ended does not end again.
  pub end_task : ℕ → Option F → SendLoop F → SendLoop F
  end_task h result s = elim (nth_task s.spawned h) [
    | none ↦ s
    | some task ↦
        if elem h s.aborted || elem h s.finished
        then s
        else report task result (record s { finished = h ∷ s.finished })
  ]

  unfoldable pub step : SendEvent F → SendLoop F → SendLoop F
  unfolding send_packet end_task
  step (packet pkt peer_count peers paths) s = send_packet pkt peer_count peers paths s
  step (task_done h result) s = end_task h result s

  unfoldable pub run : List (SendEvent F) → SendLoop F → SendLoop F
  run [] s = s
  run (event ∷ events) s = run events (step event s)

  -- The encoder is asked for a keyframe first.
  unfoldable pub start : Option (Outlet (BandwidthEvent F)) → SendLoop F
  start bw_tx = record {
    frame_seq = 0;
    current_gop = 0;
    rtt_poll_counter = 0;
    in_flight = [];
    spawned = [];
    finished = [];
    aborted = [];
    bw_tx = bw_tx;
    force_keyframe = true;
  }

  -- The whole loop, up to its end: cancelled, or without an encoder.
  unfoldable pub send_loop : List (SendEvent F) → Option (Outlet (BandwidthEvent F)) → SendLoop F
  unfolding abort_all
  send_loop events bw_tx = abort_all (run events (start bw_tx))
