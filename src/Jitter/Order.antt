-- ===== src/Jitter/Order.antt =====
-- The order of what the buffer sends (src/jitter.rs). A PLC frame counts for the 20 ms that it fills.
-- Objects without a timestamp pass through, and stand outside the order.
pub mod Conceal
pub mod Audio
use meshconf.Prelude.{
  ℕ, ◌^◌, suc, ◌+◌, ◌<◌, ◌≤◌, ◌≡◌, refl, Bool, true, false, ◌||◌, Option, none, some, List, [], ◌∷◌,
  arith, ltb, leb, ◌==◌, if◌then◌else◌,
}
use meshconf.Protocol.Object.{MediaObject}
use meshconf.Jitter.{
  Task, Buffer, PeerClock, Channel, Event, received_at, ticked_at, clock_set, drained, insert,
  start, contains_key, receive, emit, is_sent, emit_loop, conceal, tick, tick_cases, step, run,
  update_offset, plc_sentinel_timestamp,
}

abbrev pub stamp : MediaObject → ℕ
stamp o = o.capture_timestamp_us

abbrev pub StampsFit : List MediaObject → Type 0
StampsFit [] = Unit {0}
StampsFit (o ∷ q) = (stamp o < 2 ^ 62) × StampsFit q

-- A queue with its timestamps rising strictly from above `n`.
abbrev pub Above : ℕ → List MediaObject → Type 0
Above n [] = Unit {0}
Above n (o ∷ q) = (n < stamp o) × Above (stamp o) q

-- How far the playback has come with what was sent, newest first: to the timestamp of an object, and
-- 20 ms further with a PLC frame. Objects without a timestamp pass through.
abbrev pub position : List MediaObject → ℕ
position [] = 0
position (o ∷ s) =
    if stamp o == 0
    then position s
    else if stamp o == plc_sentinel_timestamp
    then position s + 20_000
    else stamp o

-- Each object that has a timestamp and is no PLC frame lies behind all that was sent before it.
abbrev Falls : List MediaObject → Type 0
Falls [] = Unit {0}
Falls (o ∷ s) = elim ((stamp o == 0) || (stamp o == plc_sentinel_timestamp)) [
  | true ↦ Falls s
  | false ↦ (position s < stamp o) × Falls s
]

abbrev pub floor : Option ℕ → ℕ
floor none = 0
floor (some ts) = ts

-- The queue is sorted and lies behind the last timestamp, what was sent does not go beyond that, and
-- it is in order.
pub record IsOrdered (b : Buffer) : Type 0 where
  pub queued : Above (floor b.last_emitted_ts) b.queue
  pub reached : position b.tx.sent ≤ floor b.last_emitted_ts
  pub in_order : Falls b.tx.sent

Above-mono : (m n : ℕ) (q : List MediaObject) → m ≤ n → Above n q → Above m q
Above-mono m n [] h a = tt
Above-mono m n (o ∷ q) h a = (omega arith, a.1)

insert-Above :
    (n : ℕ) (obj : MediaObject) (q : List MediaObject)
    → n < stamp obj
    → contains_key (stamp obj) q ≡ false
    → Above n q
    → Above n (insert obj q)
insert-Above n obj [] h c a = (h, tt)
insert-Above n obj (o ∷ q) h c a = ground (arith, insert-Above (stamp o) obj q)

pub receive-IsOrdered :
    (t : Task) (now : ℕ) (obj : MediaObject) (b : Buffer)
    → IsOrdered b
    → IsOrdered (receive t now obj b)
unfolding receive
receive-IsOrdered t now obj b v = ground (arith, insert-Above (floor b.last_emitted_ts) obj b.queue)

-- The loop sends from the front, so what it leaves lies behind what it sent.
pub emit_loop-IsOrdered :
    (t : Task) (now offset : ℕ) (q : List MediaObject) (b : Buffer) (emitted : Bool)
    → Above (floor b.last_emitted_ts) q
    → StampsFit q
    → position b.tx.sent ≤ floor b.last_emitted_ts
    → Falls b.tx.sent
    → IsOrdered (emit_loop t now offset q b emitted).0
unfolding emit_loop
emit_loop-IsOrdered t now offset [] b emitted a fit r f = record {
  queued = tt;
  reached = r;
  in_order = f;
}
emit_loop-IsOrdered t now offset (obj ∷ rest) b emitted a fit r f = ground (
  arith,
  Above-mono (floor b.last_emitted_ts) (stamp obj) rest,
  emit_loop-IsOrdered t now offset rest (emit t now offset obj b)
      (is_sent t now offset obj emitted),
)
