-- ===== src/Encoder/Tests.antt =====
-- Runs of the encoder's task and of the send loop of src/video_encode.rs.
use meshconf.Prelude.{
  ℕ, ◌≡◌, ◌≢◌, refl, inl, true, false, Option, none, some, List, [], ◌∷◌, ◌++◌, All, arith, Outlet,
  length,
}
use mathlib.Core.List.{reverse}
use meshconf.Protocol.Object.{MediaObject}
use meshconf.Bandwidth.{preset, EncoderConfig, EncoderConfig_new, receiver_feedback}
use meshconf.Bandwidth.Sample.{fractions}
use meshconf.Decoder.{
  HevcDecoder, Decoded, frame, failed, buffered, RgbFrame, VideoDropCounter, VideoDropCounter_new,
}
use meshconf.Decoder
use meshconf.Decoder.History.{decoded}
use meshconf.Encoder.{
  EncodedPacket, SendLoop, SendEvent, packet, task_done, spawn_all, spawn_send, prepare_frame, poll,
  send_packet, end_task, step, run, start, send_loop,
}
use meshconf.Encoder.Tasks.{is_over, send_loop_settles}
use meshconf.Encoder.Kept.{kept, kept-run}
use meshconf.Encoder.Groups.{sent_on, packets, numbered}
use meshconf.Encoder.Receiver.{Accepts, decoded-sent_on}
use meshconf.Encoder.Session.{Frame, EncodedOutput, Conditions, EncodeLoop}
use meshconf.Encoder.Session
use meshconf.Encoder.Session.Adaptive.{session-run}
use meshconf.Encoder.Session.Adaptive
use meshconf.Encoder.Session.Coherent.{IsForcedFirst, IsFitting}
use meshconf.Encoder.Session.Requests.{run-start-IsForcedFirst}
use meshconf.Encoder.Session.Requests

abbrev key_packet : EncodedPacket
key_packet = record { payload = 7 ∷ 8 ∷ []; capture_timestamp_us = 40; is_keyframe = true }

abbrev delta_packet : EncodedPacket
delta_packet = record { payload = 9 ∷ []; capture_timestamp_us = 80; is_keyframe = false }

-- The peers 1 and 2, on the connections 10 and 20.
abbrev two_peers : List (ℕ × ℕ)
two_peers = (1, 10) ∷ (2, 20) ∷ []

abbrev no_path : ℕ → Option ℕ
no_path conn = none

-- A keyframe and a delta for two peers; one send ends, and the peer 2 leaves.
abbrev events : List (SendEvent ℕ)
events =
    packet key_packet 2 two_peers no_path
    ∷ task_done 0 (some 3)
    ∷ packet delta_packet 2 two_peers no_path
    ∷ packet delta_packet 1 ((1, 10) ∷ []) no_path
    ∷ []

abbrev begin : SendLoop ℕ
begin = start none

run_counts : (run events begin).frame_seq ≡ 3
unfolding run step send_packet prepare_frame spawn_all spawn_send poll end_task start
run_counts = refl

run_spawns : length (run events begin).spawned ≡ 5
unfolding run step send_packet prepare_frame spawn_all spawn_send poll end_task start
run_spawns = refl

send_loop_settles_example :
    (is_over 4 (step (packet key_packet 1 ((1, 10) ∷ []) no_path) (run events begin)) ≡ true)
    × (is_over 4 (send_loop events none) ≡ true)
send_loop_settles_example =
    send_loop_settles events none key_packet 1 ((1, 10) ∷ []) no_path 4 (inl refl)
      (omega (arith, run_spawns))

-- A keyframe behind the events, a delta behind it, and a task that ends.
kept-run_example :
    (older : List MediaObject) × (kept 10 (
        run
          (packet key_packet 1 ((1, 10) ∷ []) no_path
            ∷ packet delta_packet 1 ((1, 10) ∷ []) no_path
            ∷ task_done 4 none
            ∷ [])
          (run events begin))
      ≡ older ++ numbered (run events begin).frame_seq (key_packet ∷ delta_packet ∷ []))
kept-run_example =
    kept-run 10 events (packet delta_packet 1 ((1, 10) ∷ []) no_path ∷ task_done 4 none ∷ [])
      key_packet 1 ((1, 10) ∷ []) no_path none (λ e. ground arith) refl (ground arith)
      (refl, (tt, tt)) (omega (arith, run_counts))

abbrev show_payload : List ℕ → Decoded
show_payload [] = failed
show_payload (p ∷ ps) = frame (record { width = 1; height = 1; pixels = p ∷ ps })

abbrev echo : HevcDecoder
echo = record {
  Session = Unit;
  new_from_annex_b = λ bytes. some tt;
  params_match = λ session bytes. true;
  decode_annex_b = λ session bytes. (session, show_payload bytes);
}

abbrev sent : List MediaObject
sent = sent_on 10 (run events begin).spawned

sent_objects : sent ≡ numbered 0 (packets events)
unfolding run step send_packet prepare_frame spawn_all spawn_send poll end_task start
sent_objects = refl

shown : (p : ℕ) (ps : List ℕ) → show_payload (p ∷ ps) ≢ failed
shown p ps e = absurd (ground arith)

accepted : All (Accepts echo) sent
unfolding run step send_packet prepare_frame spawn_all spawn_send poll end_task start
accepted = (
  (λ k e. absurd (ground arith), λ d. shown 7 (8 ∷ [])),
  (
    (λ k e. absurd (ground arith), λ d. shown 9 []),
    ((λ k e. absurd (ground arith), λ d. shown 9 []), tt),
  ),
)

decoded-sent_on_example :
    decoded echo sent (Decoder.start echo 9 VideoDropCounter_new) []
    ≡ reverse (numbered 0 (packets events))
decoded-sent_on_example =
    decoded-sent_on echo 10 events none 9 VideoDropCounter_new (ground arith) (omega arith) refl
      accepted

-- A camera of 640 by 360 pixels, and a turn in which all calls succeed.
abbrev camera : Frame
camera = record { width = 640; height = 360; capture_timestamp_us = 40 }

abbrev fine : Conditions
fine = record {
  creates = true;
  scales = true;
  fills = true;
  encodes = true;
  output = some (record { payload = 7 ∷ []; is_keyframe = true });
  receiver_open = true;
}

abbrev outlet : Outlet EncodedPacket
outlet = record { sent = []; free = 3 }

abbrev worsening : List (Adaptive.LoopEvent (ℕ × ℕ))
worsening =
    Adaptive.captured fine camera false
    ∷ Adaptive.estimate 6_000_000 (receiver_feedback (30, 100) 0)
    ∷ Adaptive.keyframe_wanted
    ∷ []

abbrev session : Adaptive.Encoding (ℕ × ℕ)
session =
    Adaptive.step fractions (Adaptive.captured fine camera false)
      (Adaptive.run fractions worsening (Adaptive.begin fractions 0 outlet))

turn-fine :
    (c : EncoderConfig) (s : EncodeLoop)
    → s.ended ≡ false
    → (Session.turn fine camera false c s).1.ended ≡ false
unfolding Session.turn Session.encode Session.pixel_buffer Session.submit Session.forward_output
    Session.adapt Session.apply_quality Session.apply_bitrate Session.recreate
turn-fine c s e = ground arith

session_open : session.encoder.ended ≡ false
unfolding Adaptive.step Adaptive.run Session.start
session_open =
    let s : Adaptive.Encoding (ℕ × ℕ) = Adaptive.begin fractions 0 outlet in
    turn-fine _ _ (turn-fine s.estimator.config s.encoder refl)

session-run_example : session.encoder.session ≡ record (preset session.estimator.quality_idx) {
  bitrate_bps = session.estimator.current_bitrate;
}
session-run_example = session-run fractions 0 outlet worsening fine camera false session_open

-- A lower preset comes, and a peer joins.
abbrev inputs : List Requests.Input
inputs =
    Requests.captured fine camera false EncoderConfig_new
    ∷ Requests.captured fine camera false (record EncoderConfig_new {
      target_width = 320;
      target_height = 180;
      quality_changed = true;
    })
    ∷ Requests.keyframe_wanted
    ∷ Requests.captured fine camera false EncoderConfig_new
    ∷ []

abbrev looped : EncodeLoop
looped = Requests.run inputs (Session.start none outlet)

run-start-IsForcedFirst_example : All IsFitting looped.requests × IsForcedFirst looped.requests
run-start-IsForcedFirst_example = run-start-IsForcedFirst none outlet inputs
