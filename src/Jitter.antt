-- ===== src/Jitter.antt =====
-- src/jitter.rs: the jitter buffer of one peer and the clock that audio shares with video.
-- An `i64` is its bit pattern below 2^64, so that the casts between `i64` and `u64` are the identity
-- and sums wrap, as they do in a release build. The buffer's map is a list sorted by timestamp.
-- The task is a step function on its state: each arm of its `select!` is an event.
pub mod Count
pub mod Order
pub mod Window
pub mod Tests
use meshconf.Prelude.{
  arith, ◌≡◌, inl, inr, Option-cases, if_cases, ℕ, zero, suc, ◌+◌, ◌-◌, ◌%◌, ◌^◌, ◌<◌, ◌≤◌, Bool,
  true, false, not, ◌&&◌, ◌||◌, Option, none, some, List, [], ◌∷◌, ltb, leb, ◌==◌, if◌then◌else◌,
  u64_mod,
}
use meshconf.Protocol.Object.{MediaObject}

-- `drift_alpha` is the function that it stands for: the old offset and the instantaneous one go
-- to `(old * (1 - alpha) + new * alpha) as i64`, which is floating-point arithmetic.
pub record JitterBufferConfig : Type 0 where
  pub target_delay_us : ℕ
  pub max_late_us : ℕ
  pub drift : ℕ → ℕ → ℕ

-- The two configurations, for the drift functions of alpha 0.005 and alpha 0.01.
abbrev pub audio_config : (ℕ → ℕ → ℕ) → JitterBufferConfig
audio_config drift = record { target_delay_us = 60_000; max_late_us = 40_000; drift = drift }

abbrev pub video_config : (ℕ → ℕ → ℕ) → JitterBufferConfig
video_config drift = record { target_delay_us = 40_000; max_late_us = 80_000; drift = drift }

pub record PeerClock : Type 0 where
  pub offset_us : ℕ
  pub initialised : Bool

abbrev pub PeerClock_new : PeerClock
PeerClock_new = record { offset_us = 0; initialised = false }

abbrev pub PeerClock_update : ℕ → PeerClock → PeerClock
PeerClock_update offset_us clock = record { offset_us = offset_us; initialised = true }

pub record JitterStats : Type 0 where
  pub received : ℕ
  pub played : ℕ
  pub dropped_late : ℕ
  pub dropped_duplicate : ℕ

abbrev pub plc_sentinel_timestamp : ℕ
plc_sentinel_timestamp = 2 ^ 64 - 1

abbrev pub plc_sentinel : MediaObject
plc_sentinel = record {
  group_id = 0;
  subgroup_id = 0;
  object_id = 0;
  capture_timestamp_us = plc_sentinel_timestamp;
  codec = none;
  payload = [];
}

-- The channel to the decoder: what it accepted, newest first, and the slots that are free.
pub record Channel : Type 0 where
  pub sent : List MediaObject
  pub free : ℕ

-- `tx.try_send(obj)`, with `false` for a channel that is full or closed.
abbrev pub try_send : MediaObject → Channel → Channel × Bool
try_send obj tx =
    if ltb 0 tx.free
    then (record tx { sent = obj ∷ tx.sent; free = tx.free - 1 }, true)
    else (tx, false)

-- The arguments that stay, and the variables of the task.
pub record Task : Type 0 where
  pub config : JitterBufferConfig
  pub is_clock_master : Bool
  pub emit_plc : Bool

pub record Buffer : Type 0 where
  pub queue : List MediaObject
  pub clock_offset_us : Option ℕ
  pub last_emitted_ts : Option ℕ
  pub stats : JitterStats
  pub peer_clock : PeerClock
  pub tx : Channel
  -- The count of the drop counter, where there is one.
  pub drop_counter : Option ℕ

-- `dc.increment()`, which wraps.
abbrev pub increment : Option ℕ → Option ℕ
increment none = none
increment (some n) = some ((n + 1) % u64_mod)

abbrev pub contains_key : ℕ → List MediaObject → Bool
contains_key ts [] = false
contains_key ts (o ∷ q) = (o.capture_timestamp_us == ts) || contains_key ts q

-- `queue.insert(ts, obj)`, for a key that is not there.
abbrev pub insert : MediaObject → List MediaObject → List MediaObject
insert obj [] = obj ∷ []
insert obj (o ∷ q) =
    if ltb obj.capture_timestamp_us o.capture_timestamp_us then obj ∷ o ∷ q else o ∷ insert obj q

-- `(ts as i64 + offset) as u64`, and `playout_us + config.max_late_us`.
abbrev pub playout : ℕ → ℕ → ℕ
playout ts offset = (ts + offset) % u64_mod

abbrev pub latest : Task → ℕ → ℕ
latest t playout_us = (playout_us + t.config.max_late_us) % u64_mod

-- The variables before the loop.
unfoldable pub start : Task → PeerClock → Channel → Option ℕ → Buffer
start t clock tx drops = record {
  queue = [];
  clock_offset_us =
      if not t.is_clock_master && clock.initialised then some clock.offset_us else none;
  last_emitted_ts = none;
  stats = record { received = 0; played = 0; dropped_late = 0; dropped_duplicate = 0 };
  peer_clock = clock;
  tx = tx;
  drop_counter = drops;
}

-- How long the loop sleeps, in microseconds, when it starts to wait at `now`.
unfoldable pub sleep_dur : Buffer → ℕ → ℕ
sleep_dur b now = elim b.queue [
  | [] ↦ 5_000
  | obj ∷ rest ↦ elim b.clock_offset_us [
    | none ↦ 5_000
    | some offset ↦
        let playout_us = playout obj.capture_timestamp_us offset in
        if ltb now playout_us then playout_us - now else 0
  ]
]

-- `now as i64 - ts as i64 + config.target_delay_us as i64`.
abbrev pub instantaneous_offset : Task → ℕ → ℕ → ℕ
instantaneous_offset t now ts = (now + u64_mod - ts + t.config.target_delay_us) % u64_mod

-- The offset that the match on `clock_offset_us` leaves, and the shared clock.
unfoldable pub update_offset : Task → ℕ → ℕ → Option ℕ → PeerClock → ℕ × PeerClock
update_offset t now ts none clock =
    let inst = instantaneous_offset t now ts in
    if t.is_clock_master then (inst, PeerClock_update inst clock) else (inst, clock)
update_offset t now ts (some offset) clock =
    let inst = instantaneous_offset t now ts in
    let drifted = t.config.drift offset inst in
    if t.is_clock_master
    then (drifted, PeerClock_update drifted clock)
    else if clock.initialised
    then ((clock.offset_us + u64_mod - 60_000 + t.config.target_delay_us) % u64_mod, clock)
    else (offset, clock)

abbrev pub drop_late : Buffer → Buffer
drop_late b = record b {
  stats = record b.stats { dropped_late = (b.stats.dropped_late + 1) % u64_mod };
  drop_counter = increment b.drop_counter;
}

abbrev pub drop_duplicate : Buffer → Buffer
drop_duplicate b = record b {
  stats = record b.stats { dropped_duplicate = (b.stats.dropped_duplicate + 1) % u64_mod };
  drop_counter = increment b.drop_counter;
}

-- `if let Some(last_ts) = last_emitted_ts { if ts <= last_ts ... }`
abbrev pub is_emitted : ℕ → Option ℕ → Bool
is_emitted ts none = false
is_emitted ts (some last_ts) = leb ts last_ts

-- The arm `obj = rx.recv()`, on an object.
unfoldable pub receive : Task → ℕ → MediaObject → Buffer → Buffer
receive t now obj b0 =
    let b = record b0 {
      stats = record b0.stats { received = (b0.stats.received + 1) % u64_mod };
    } in
    let ts = obj.capture_timestamp_us in
    if ts == 0
    then record b {
      tx = (try_send obj b.tx).0;
      stats = record b.stats { played = (b.stats.played + 1) % u64_mod };
    }
    else let (offset, clock) = update_offset t now ts b.clock_offset_us b.peer_clock in
      let b' = record b { clock_offset_us = some offset; peer_clock = clock } in
      if ltb (latest t (playout ts offset)) now
      then drop_late b'
      else if is_emitted ts b'.last_emitted_ts
      then drop_duplicate b'
      else if contains_key ts b'.queue
      then drop_duplicate b'
      else record b' { queue = insert obj b'.queue }

-- One round of the `while` whose front is due: it is dropped if it is too late, and sent if not.
abbrev pub emit : Task → ℕ → ℕ → MediaObject → Buffer → Buffer
emit t now offset obj b =
    if ltb (latest t (playout obj.capture_timestamp_us offset)) now
    then drop_late b
    else let (tx, accepted) = try_send obj b.tx in
      record b {
        last_emitted_ts = some obj.capture_timestamp_us;
        stats = record b.stats { played = (b.stats.played + 1) % u64_mod };
        tx = tx;
        drop_counter = if accepted then b.drop_counter else increment b.drop_counter;
      }

-- `emitted` after that round.
abbrev pub is_sent : Task → ℕ → ℕ → MediaObject → Bool → Bool
is_sent t now offset obj emitted =
    if ltb (latest t (playout obj.capture_timestamp_us offset)) now then emitted else true

-- The `while` over the front of the queue, with the offset that the loop finds there.
unfoldable pub emit_loop : Task → ℕ → ℕ → List MediaObject → Buffer → Bool → Buffer × Bool
emit_loop t now offset [] b emitted = (record b { queue = [] }, emitted)
emit_loop t now offset (obj ∷ rest) b emitted =
    let further =
      emit_loop t now offset rest (emit t now offset obj b) (is_sent t now offset obj emitted) in
    if leb (playout obj.capture_timestamp_us offset) now
    then further
    else (record b { queue = obj ∷ rest }, emitted)

-- The PLC frame that stands in for the next audio frame, 20 ms behind the last.
unfoldable pub conceal : Task → ℕ → ℕ → Option ℕ → Buffer → Buffer
conceal t now offset none b = b
conceal t now offset (some last_ts) b =
    let expected_next = (last_ts + 20_000) % u64_mod in
    let expected_playout = playout expected_next offset in
    if leb expected_playout now && ltb now (latest t expected_playout)
    then record b { last_emitted_ts = some expected_next; tx = (try_send plc_sentinel b.tx).0 }
    else b

-- The arm of the timer. With no offset yet the loop breaks at once, and there is no PLC.
unfoldable pub tick : Task → ℕ → Buffer → Buffer
tick t now b = elim b.clock_offset_us [
  | none ↦ b
  | some offset ↦
      let (b', emitted) = emit_loop t now offset b.queue b false in
      if not emitted && t.emit_plc then conceal t now offset b'.last_emitted_ts b' else b'
]

-- What holds after a tick: nothing moves before there is an offset, and then the loop runs, and
-- perhaps a PLC frame is sent if the loop sent nothing.
pub tick_cases {ℓ} :
    (P : Buffer → Type ℓ) (t : Task) (now : ℕ) (b : Buffer)
    → (b.clock_offset_us ≡ none → P b)
    → ((offset : ℕ)
        → b.clock_offset_us ≡ some offset
        → P (emit_loop t now offset b.queue b false).0)
    → ((offset : ℕ)
        → b.clock_offset_us ≡ some offset
        → (emit_loop t now offset b.queue b false).1 ≡ false
        → t.emit_plc ≡ true
        → let b' = (emit_loop t now offset b.queue b false).0 in
          P (conceal t now offset b'.last_emitted_ts b'))
    → P (tick t now b)
unfolding tick
tick_cases P t now b idle looped concealed = elim (Option-cases b.clock_offset_us) [
  | inl e ↦ rw (e, tick) (idle e)
  | inr (offset, e) ↦
      rw (e, tick)
        (if_cases P (not (emit_loop t now offset b.queue b false).1 && t.emit_plc)
          (λ c. concealed offset e (ground arith) (ground arith)) (λ _. looped offset e))
]

-- What can happen to a buffer: the two arms, an update of the shared clock by the other buffer, and
-- the decoder taking objects out of the channel.
pub data Event : Type 0 where
  received_at : ℕ → MediaObject → Event
  ticked_at : ℕ → Event
  clock_set : ℕ → Event
  drained : ℕ → Event

unfoldable pub step : Task → Event → Buffer → Buffer
step t (received_at now obj) b = receive t now obj b
step t (ticked_at now) b = tick t now b
step t (clock_set offset) b = record b { peer_clock = PeerClock_update offset b.peer_clock }
step t (drained n) b = record b { tx = record b.tx { free = b.tx.free + n } }

unfoldable pub run : Task → List Event → Buffer → Buffer
run t [] b = b
run t (e ∷ es) b = run t es (step t e b)
