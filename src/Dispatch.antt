-- ===== src/Dispatch.antt =====
-- src/dispatch.rs: the streams, the datagrams and the control streams of one connection. The task of
-- a video stream runs up to its header, and later to its end: between the two, the other tasks run.
pub mod Streams
pub mod Delivery
pub mod Tests
use meshconf.Prelude.{
  ℕ, zero, suc, ◌+◌, ◌%◌, Bool, true, false, Option, none, some, List, [], ◌∷◌, ◌++◌, ltb, ◌==◌,
  if◌then◌else◌, max, Result, ok, err,
}
use meshconf.Protocol.Stream.{Reader, read_u8}
use meshconf.Protocol.Subgroup.{SubgroupHeader, read_subgroup_header}
use meshconf.Protocol.Object.{ObjectData, MediaObject, read_object}
use meshconf.Protocol.Datagram.{decode_audio_datagram}
use meshconf.Decoder.{
  VideoDropCounter, VideoDropCounter_new, VideoDropCounter_increment,
  VideoDropCounter_increment_received,
}
use meshconf.Control.{stream_type_control}
use meshconf.Jitter.{Channel, try_send}

-- What the tasks of the connection share, and the streams whose header is read and whose object is
-- not. `stopped` counts the calls of `recv.stop`.
pub record Dispatcher : Type 0 where
  pub latest_keyframe : ℕ
  pub video_drops : VideoDropCounter
  pub video_tx : Channel
  pub audio_tx : Channel
  pub pending : List (SubgroupHeader × Reader)
  pub stopped : ℕ

unfoldable pub start : VideoDropCounter → Channel → Channel → Dispatcher
start counter video_tx audio_tx = record {
  latest_keyframe = 0;
  video_drops = counter;
  video_tx = video_tx;
  audio_tx = audio_tx;
  pending = [];
  stopped = 0;
}

-- `handle_video_stream`, up to the check of the group.
unfoldable pub open_video_stream : Reader → Dispatcher → Dispatcher
open_video_stream recv s = elim (read_subgroup_header recv) [
  | err e ↦ s
  | ok (header, rest) ↦
      if ltb header.group_id s.latest_keyframe
      then record s {
        stopped = s.stopped + 1;
        video_drops = VideoDropCounter_increment s.video_drops;
      }
      else record s { pending = s.pending ++ ((header, rest) ∷ []) }
]

abbrev pub media_object : SubgroupHeader → ObjectData → MediaObject
media_object header data_ = record {
  group_id = header.group_id;
  subgroup_id = header.subgroup_id;
  object_id = data_.object_id;
  capture_timestamp_us = data_.capture_timestamp_us;
  codec = data_.codec;
  payload = data_.payload;
}

-- What follows once the object is read.
unfoldable pub deliver : MediaObject → Dispatcher → Dispatcher
deliver obj s =
    let s1 =
      if obj.subgroup_id == 0
      then record s { latest_keyframe = max s.latest_keyframe obj.group_id }
      else s in
    let s2 = record s1 { video_drops = VideoDropCounter_increment_received s1.video_drops } in
    let (tx, accepted) = try_send obj s2.video_tx in
    let s3 = record s2 { video_tx = tx } in
    if accepted then s3 else record s3 { video_drops = VideoDropCounter_increment s3.video_drops }

unfoldable pub read_pending : SubgroupHeader → Reader → Dispatcher → Dispatcher
read_pending header recv s = elim (read_object recv) [
  | err e ↦ s
  | ok (none, rest) ↦ s
  | ok (some data_, rest) ↦ deliver (media_object header data_) s
]

-- The `i`th pending stream, and the others.
abbrev pub pick : {A : Type 0} → ℕ → List A → Option (A × List A)
pick i [] = none
pick zero (a ∷ xs) = some (a, xs)
pick (suc i) (a ∷ xs) = elim (pick i xs) [ none ↦ none | some (b, ys) ↦ some (b, a ∷ ys) ]

-- The rest of `handle_video_stream`, for the `i`th pending stream.
unfoldable pub finish_video_stream : ℕ → Dispatcher → Dispatcher
finish_video_stream i s = elim (pick i s.pending) [
  | none ↦ s
  | some ((header, recv), rest) ↦ read_pending header recv (record s { pending = rest })
]

unfoldable pub receive_datagram : List ℕ → Dispatcher → Dispatcher
receive_datagram bytes s = elim (decode_audio_datagram bytes) [
  | err e ↦ s
  | ok obj ↦ record s { audio_tx = (try_send obj s.audio_tx).0 }
]

-- The control stream that the dispatcher takes up, if any: `has_handler` tells whether there is a
-- `control_tx`.
unfoldable pub accept_bi : Bool → Reader → Option Reader
accept_bi has_handler recv = elim (read_u8 recv) [
  | err e ↦ none
  | ok (tag, rest) ↦
      if tag == stream_type_control then if has_handler then some rest else none else none
]

pub data Event : Type 0 where
  datagram : List ℕ → Event
  uni_opened : Reader → Event
  uni_finished : ℕ → Event

unfoldable pub step : Event → Dispatcher → Dispatcher
step (datagram bytes) s = receive_datagram bytes s
step (uni_opened recv) s = open_video_stream recv s
step (uni_finished i) s = finish_video_stream i s

-- `run_dispatcher`, in an order of the turns of its tasks.
unfoldable pub run : List Event → Dispatcher → Dispatcher
run [] s = s
run (event ∷ events) s = run events (step event s)
