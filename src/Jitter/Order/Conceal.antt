-- ===== src/Jitter/Order/Conceal.antt =====
-- What a PLC frame stands for (src/jitter.rs), under bounds that exclude wrap-around: it comes after
-- what was sent and before what waits.
use meshconf.Jitter.{playout, instantaneous_offset}
use meshconf.Prelude.{
  ap, ℕ, ◌+◌, ◌-◌, ◌^◌, ◌%◌, ◌<◌, ◌≤◌, ◌≡◌, Bool, true, Option, none, some, List, [], ◌∷◌, arith,
  ◌⊎◌, u64_mod,
}
use meshconf.Protocol.Object.{MediaObject}
use meshconf.Jitter.{
  Task, Buffer, Event, received_at, ticked_at, clock_set, drained, emit, is_sent, emit_loop,
  conceal, insert,
}
use meshconf.Jitter.Order.{stamp, Above, floor, IsOrdered, StampsFit, position}

-- An offset between -2^62 and 2^62, as a bit pattern.
abbrev pub IsNear : ℕ → Type 0
IsNear offset = (offset ≤ 2 ^ 62) ⊎ ((2 ^ 64 - 2 ^ 62 ≤ offset) × (offset < 2 ^ 64))

abbrev pub OffsetIsNear : Option ℕ → Type 0
OffsetIsNear none = Unit {0}
OffsetIsNear (some offset) = IsNear offset

-- The clock master, with sane delays and a drift that stays between the two offsets.
pub record IsAudioTask (t : Task) : Type 0 where
  pub master : t.is_clock_master ≡ true
  pub short_target : t.config.target_delay_us < 2 ^ 40
  pub short_late : t.config.max_late_us < 2 ^ 40
  pub drift_near : (o i : ℕ) → IsNear o → IsNear i → IsNear (t.config.drift o i)

-- Timestamps of 62 bits, and a clock that is past its first moments and below 2^61 us.
abbrev pub IsSane : Task → Event → Type 0
IsSane t (received_at now obj) = (now < 2 ^ 61) × (stamp obj < 2 ^ 62)
IsSane t (ticked_at now) = (20_000 + t.config.max_late_us ≤ now) × (now < 2 ^ 61)
IsSane t (clock_set offset) = Unit {0}
IsSane t (drained n) = Unit {0}

abbrev pub AllSane : Task → List Event → Type 0
AllSane t [] = Unit {0}
AllSane t (e ∷ es) = IsSane t e × AllSane t es

pub record IsSound (b : Buffer) : Type 0 where
  pub ordered : IsOrdered b
  pub offset_near : OffsetIsNear b.clock_offset_us
  pub stamps_fit : StampsFit b.queue
  pub last_fits : floor b.last_emitted_ts < 2 ^ 63

pub inst-IsNear :
    (t : Task) (now ts : ℕ)
    → t.config.target_delay_us < 2 ^ 40
    → now < 2 ^ 61
    → ts < 2 ^ 62
    → IsNear (instantaneous_offset t now ts)
inst-IsNear t now ts h hn ht = ground arith

pub insert-StampsFit :
    (obj : MediaObject) (q : List MediaObject)
    → stamp obj < 2 ^ 62
    → StampsFit q
    → StampsFit (insert obj q)
insert-StampsFit obj [] h f = (h, tt)
insert-StampsFit obj (o ∷ q) h f = ground (arith, insert-StampsFit obj q)

-- A front that is not due.
abbrev Waits : ℕ → ℕ → List MediaObject → Type 0
Waits now offset [] = Unit {0}
Waits now offset (o ∷ q) = now < playout (stamp o) offset

pub emit_loop-Waits :
    (t : Task) (now offset : ℕ) (q : List MediaObject) (b : Buffer) (emitted : Bool)
    → Waits now offset (emit_loop t now offset q b emitted).0.queue
unfolding emit_loop
emit_loop-Waits t now offset [] b emitted = tt
emit_loop-Waits t now offset (obj ∷ rest) b emitted = ground (
  arith,
  emit_loop-Waits t now offset rest (emit t now offset obj b) (is_sent t now offset obj emitted),
)

-- What a PLC frame stands for lies behind the last timestamp and before the front of the queue.
conceal_numbers :
    (now offset late last front : ℕ)
    → IsNear offset
    → late < 2 ^ 40
    → 20_000 + late ≤ now
    → now < 2 ^ 61
    → last < 2 ^ 63
    → last < front
    → front < 2 ^ 62
    → now < playout front offset
    → playout (last + 20_000) offset ≤ now
    → now < (playout (last + 20_000) offset + late) % u64_mod
    → last + 20_000 < front
conceal_numbers now offset late last front near hl lo hi h1 h2 h3 w due open_ = ground arith

conceal_last :
    (now offset late last : ℕ)
    → IsNear offset
    → late < 2 ^ 40
    → now < 2 ^ 61
    → last < 2 ^ 63
    → playout (last + 20_000) offset ≤ now
    → last + 20_000 < 2 ^ 63
conceal_last now offset late last near hl hi h due = ground arith

conceal-Above :
    (now offset late last : ℕ) (q : List MediaObject)
    → IsNear offset
    → late < 2 ^ 40
    → 20_000 + late ≤ now
    → now < 2 ^ 61
    → last < 2 ^ 63
    → Above last q
    → StampsFit q
    → Waits now offset q
    → playout (last + 20_000) offset ≤ now
    → now < (playout (last + 20_000) offset + late) % u64_mod
    → Above (last + 20_000) q
conceal-Above now offset late last [] near hl lo hi h a f w due open_ = tt
conceal-Above now offset late last (o ∷ q) near hl lo hi h a f w due open_ =
    (conceal_numbers now offset late last (stamp o) near hl lo hi h a.0 f.0 w due open_, a.1)

pub conceal-IsSound :
    (t : Task) (now offset : ℕ) (last : Option ℕ) (b : Buffer)
    → IsAudioTask t
    → 20_000 + t.config.max_late_us ≤ now
    → now < 2 ^ 61
    → IsNear offset
    → b.last_emitted_ts ≡ last
    → Waits now offset b.queue
    → IsSound b
    → IsSound (conceal t now offset last b)
unfolding conceal
conceal-IsSound t now offset none b a lo hi near e w v = v
conceal-IsSound t now offset (some last) b a lo hi near e w v =
    let v' : (last < 2 ^ 63) × Above last b.queue × (position b.tx.sent ≤ last) = (
      rw (ap floor e) at v.last_fits,
      rw (ap floor e) at v.ordered.queued,
      rw (ap floor e) at v.ordered.reached,
    ) in
    let exp : (last + 20_000) % u64_mod ≡ last + 20_000 = omega (arith, v'.0) in
    ground (
      arith,
      exp,
      v',
      conceal_last now offset t.config.max_late_us last near,
      conceal-Above now offset t.config.max_late_us last b.queue near,
      v.ordered.in_order,
    )
