-- ===== src/Dispatch/Tests.antt =====
-- Runs of the dispatcher of src/dispatch.rs on concrete streams.
use meshconf.Prelude.{◌*◌, ℕ, some, List, [], ◌∷◌, arith}
use meshconf.Protocol.Stream.{Reader}
use meshconf.Protocol.Extension.{hevc}
use meshconf.Decoder.{VideoDropCounter_new}
use meshconf.Jitter.{Channel}
use meshconf.Dispatch.{
  Dispatcher, open_video_stream, finish_video_stream, Event, datagram, uni_opened, uni_finished,
  run,
}
use meshconf.Dispatch.Streams.{IsFresh, run-IsFresh}
use meshconf.Dispatch.Delivery.{IsDelivered, frame_stream, frame_object, finish-open_video_stream}

abbrev tx : ℕ → Channel
tx n = record { sent = []; free = n }

abbrev stream : ℕ → ℕ → Reader
stream group subgroup = frame_stream 0 group subgroup 128 0 (1000 * group) (some hevc) (1 ∷ 2 ∷ [])

-- The keyframe 10 overtakes the frame 9, and the frame 8 comes behind it.
abbrev events : List Event
events =
    uni_opened (stream 9 1)
    ∷ uni_opened (stream 10 0)
    ∷ uni_finished 1
    ∷ uni_finished 0
    ∷ uni_opened (stream 8 1)
    ∷ uni_finished 0
    ∷ datagram (5 ∷ 6 ∷ [])
    ∷ []

abbrev after_key : Dispatcher
after_key = record {
  latest_keyframe = 10;
  video_drops = VideoDropCounter_new;
  video_tx = tx 4;
  audio_tx = tx 4;
  pending = [];
  stopped = 0;
}

run-IsFresh_example : IsFresh 10 [] (run events after_key).video_tx.sent
run-IsFresh_example = run-IsFresh events after_key tt

finish-open_video_stream_example :
    IsDelivered
      (frame_object 12 1 0 12_000 (some hevc) (1 ∷ 2 ∷ []))
      after_key
      (finish_video_stream 0 (open_video_stream (stream 12 1) after_key))
finish-open_video_stream_example =
    finish-open_video_stream 0 12 1 128 0 12_000 (some hevc) (1 ∷ 2 ∷ []) after_key (omega arith)
      (omega arith) (omega arith) (omega arith) (omega arith) (λ e. ground arith) (omega arith)
      (omega arith)
