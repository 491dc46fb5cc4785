-- ===== src/Jitter/Tests.antt =====
-- Runs of the jitter buffer of src/jitter.rs on concrete events.
use meshconf.Prelude.{
  u64_mod, ◌%◌, ℕ, ◌+◌, ◌≡◌, refl, true, false, none, some, List, [], ◌∷◌, length, arith,
}
use meshconf.Protocol.Object.{MediaObject}
use meshconf.Jitter.{
  conceal, update_offset, step, Task, Buffer, Channel, PeerClock_new, audio_config, video_config,
  Event, received_at, ticked_at, start, emit_loop, tick, run, receive,
}
use meshconf.Jitter.Count.{dropped, run-start-balance}
use meshconf.Jitter.Order.{IsOrdered}
use meshconf.Jitter.Order.Audio.{run-start-IsOrdered}
use meshconf.Jitter.Order.Conceal.{IsAudioTask}
use meshconf.Jitter.Window.{IsTimely, tick-IsTimely}

-- A drift that keeps the old offset.
abbrev keep_offset : ℕ → ℕ → ℕ
keep_offset o i = o

abbrev audio_task : Task
audio_task = record { config = audio_config keep_offset; is_clock_master = true; emit_plc = true }

abbrev video_task : Task
video_task = record { config = video_config keep_offset; is_clock_master = false; emit_plc = false }

abbrev audio_at : ℕ → MediaObject
audio_at ts = record {
  group_id = 0;
  subgroup_id = 0;
  object_id = 0;
  capture_timestamp_us = ts;
  codec = none;
  payload = 1 ∷ [];
}

abbrev tx8 : Channel
tx8 = record { sent = []; free = 8 }

-- Two frames out of order, one twice, and ticks behind them.
abbrev events : List Event
events =
    received_at 1_000_000 (audio_at 920_000)
    ∷ received_at 1_001_000 (audio_at 900_000)
    ∷ received_at 1_002_000 (audio_at 920_000)
    ∷ ticked_at 1_041_000
    ∷ ticked_at 1_090_000
    ∷ []

abbrev audio_buffer : Buffer
audio_buffer = start audio_task PeerClock_new tx8 none

run_sends : (run audio_task events audio_buffer).tx.sent ≡ audio_at 920_000 ∷ audio_at 900_000 ∷ []
unfolding run start step receive update_offset tick emit_loop conceal
run_sends = refl

audio_task-IsAudioTask : IsAudioTask audio_task
audio_task-IsAudioTask = record {
  master = refl;
  short_target = omega arith;
  short_late = omega arith;
  drift_near = λ o i near_o near_i. near_o;
}

run-start-IsOrdered_example : IsOrdered (run audio_task events audio_buffer)
run-start-IsOrdered_example =
    run-start-IsOrdered audio_task PeerClock_new 8 none events audio_task-IsAudioTask (ground arith)

abbrev video_buffer : Buffer
video_buffer = record {
  queue = [];
  clock_offset_us = none;
  last_emitted_ts = none;
  stats = record { received = 0; played = 0; dropped_late = 0; dropped_duplicate = 0 };
  peer_clock = PeerClock_new;
  tx = tx8;
  drop_counter = some 0;
}

-- A buffer with two objects, the first of them due at 1 s.
abbrev filled : Buffer
filled = record video_buffer {
  queue = audio_at 900_000 ∷ audio_at 960_000 ∷ [];
  clock_offset_us = some 100_000;
}

tick-IsTimely_example :
    IsTimely video_task 1_010_000 100_000 none [] (tick video_task 1_010_000 filled).tx.sent
tick-IsTimely_example = tick-IsTimely video_task 1_010_000 100_000 filled refl

-- A channel with room for one object.
abbrev counted : Buffer
counted =
    run video_task events (start video_task PeerClock_new (record { sent = []; free = 1 }) (some 0))

run-start-balance_example :
    3 % u64_mod
    ≡ (length counted.tx.sent + dropped counted.drop_counter + length counted.queue) % u64_mod
run-start-balance_example = run-start-balance video_task PeerClock_new 1 events refl (ground arith)
