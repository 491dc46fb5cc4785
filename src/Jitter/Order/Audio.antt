-- ===== src/Jitter/Order/Audio.antt =====
-- The order over PLC frames, for the audio buffer: a clock master that emits them. The code casts
-- between `i64` and `u64` and does not check for overflow, so times and timestamps have bounds here,
-- which the 62 bits of a varint and any clock of this age meet by far.
use meshconf.Jitter.{start, PeerClock, update_offset, instantaneous_offset}
use meshconf.Prelude.{
  ap, ℕ, ◌+◌, ◌^◌, ◌<◌, ◌≤◌, refl, Bool, false, Option, none, some, List, [], ◌∷◌, arith,
}
use meshconf.Protocol.Object.{MediaObject}
use meshconf.Jitter.{
  Task, Buffer, Event, received_at, ticked_at, clock_set, drained, receive, emit, is_sent,
  emit_loop, tick, tick_cases, step, run,
}
use meshconf.Jitter.Order.{
  stamp, StampsFit, floor, IsOrdered, receive-IsOrdered, emit_loop-IsOrdered,
}
use meshconf.Jitter.Order.Conceal.{
  IsNear, OffsetIsNear, IsAudioTask, IsSane, AllSane, IsSound, inst-IsNear, insert-StampsFit,
  emit_loop-Waits, conceal-IsSound,
}

update_offset-IsNear :
    (t : Task) (now ts : ℕ) (old : Option ℕ) (clock : PeerClock)
    → IsAudioTask t
    → now < 2 ^ 61
    → ts < 2 ^ 62
    → OffsetIsNear old
    → IsNear (update_offset t now ts old clock).0
unfolding update_offset
update_offset-IsNear t now ts none clock a hn ht n =
    rw a.master (inst-IsNear t now ts a.short_target hn ht)
update_offset-IsNear t now ts (some o) clock a hn ht n =
    rw a.master
      (a.drift_near o (instantaneous_offset t now ts) n (inst-IsNear t now ts a.short_target hn ht))

receive-IsSound :
    (t : Task) (now : ℕ) (obj : MediaObject) (b : Buffer)
    → IsAudioTask t
    → now < 2 ^ 61
    → stamp obj < 2 ^ 62
    → IsSound b
    → IsSound (receive t now obj b)
unfolding receive
receive-IsSound t now obj b a hn ho v = record {
  ordered = receive-IsOrdered t now obj b v.ordered;
  offset_near = ground (
    arith,
    update_offset-IsNear t now (stamp obj) b.clock_offset_us b.peer_clock a hn ho v.offset_near,
  );
  stamps_fit = ground (arith, insert-StampsFit obj b.queue ho v.stamps_fit);
  last_fits = ground (arith, v.last_fits);
}

emit_loop-fits :
    (t : Task) (now offset : ℕ) (q : List MediaObject) (b : Buffer) (emitted : Bool)
    → OffsetIsNear b.clock_offset_us
    → StampsFit q
    → floor b.last_emitted_ts < 2 ^ 63
    → let b' = (emit_loop t now offset q b emitted).0 in
      OffsetIsNear b'.clock_offset_us × StampsFit b'.queue × (floor b'.last_emitted_ts < 2 ^ 63)
unfolding emit_loop
emit_loop-fits t now offset [] b emitted n f l = (n, tt, l)
emit_loop-fits t now offset (obj ∷ rest) b emitted n f l = ground (
  arith,
  emit_loop-fits t now offset rest (emit t now offset obj b) (is_sent t now offset obj emitted),
)

tick-IsSound :
    (t : Task) (now : ℕ) (b : Buffer)
    → IsAudioTask t
    → 20_000 + t.config.max_late_us ≤ now
    → now < 2 ^ 61
    → IsSound b
    → IsSound (tick t now b)
tick-IsSound t now b a lo hi v =
    tick_cases IsSound t now b (λ _. v) (λ offset _. looped offset)
      (λ offset e _ _.
        conceal-IsSound t now offset _ _ a lo hi (rw (ap OffsetIsNear e) at v.offset_near) refl
          (emit_loop-Waits t now offset b.queue b false) (looped offset))
  where
    looped : (offset : ℕ) → IsSound (emit_loop t now offset b.queue b false).0
    looped offset =
        let fits =
          emit_loop-fits t now offset b.queue b false v.offset_near v.stamps_fit v.last_fits in
        record {
          ordered =
              emit_loop-IsOrdered t now offset b.queue b false v.ordered.queued v.stamps_fit
                v.ordered.reached v.ordered.in_order;
          offset_near = fits.0;
          stamps_fit = fits.1;
          last_fits = fits.2;
        }

step-IsSound :
    (t : Task) (e : Event) (b : Buffer)
    → IsAudioTask t
    → IsSane t e
    → IsSound b
    → IsSound (step t e b)
unfolding step
step-IsSound t (received_at now obj) b a s v = receive-IsSound t now obj b a s.0 s.1 v
step-IsSound t (ticked_at now) b a s v = tick-IsSound t now b a s.0 s.1 v
step-IsSound t (clock_set offset) b a s v = ground arith
step-IsSound t (drained n) b a s v = ground arith

run-IsSound :
    (t : Task) (es : List Event) (b : Buffer)
    → IsAudioTask t
    → AllSane t es
    → IsSound b
    → IsSound (run t es b)
unfolding run
run-IsSound t [] b a s v = v
run-IsSound t (e ∷ es) b a s v = run-IsSound t es (step t e b) a s.1 (step-IsSound t e b a s.0 v)

-- The audio buffer, started with nothing sent, is in order after any sane events: each object that it
-- sends with a timestamp lies strictly behind the object before it and the 20 ms of each PLC frame
-- between them, and the queue lies sorted behind all that. Objects with the timestamp 0 pass through.
pub run-start-IsOrdered :
    (t : Task) (clock : PeerClock) (free : ℕ) (drops : Option ℕ) (es : List Event)
    → IsAudioTask t
    → AllSane t es
    → IsOrdered (run t es (start t clock (record { sent = []; free = free }) drops))
unfolding start
run-start-IsOrdered t clock free drops es a s =
    (run-IsSound t es (start t clock (record { sent = []; free = free }) drops) a s (record {
      ordered = record { queued = tt; reached = omega arith; in_order = tt };
      offset_near = rw a.master tt;
      stamps_fit = tt;
      last_fits = omega arith;
    })).ordered
