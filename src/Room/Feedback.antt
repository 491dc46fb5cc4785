-- ===== src/Room/Feedback.antt =====
-- src/room.rs, `run_feedback_sender`: the reports of received and dropped frames.
use meshconf.Prelude.{
  ℕ, ◌+◌, ◌-◌, ◌%◌, ◌≤◌, ◌≡◌, refl, sym, subst, Bool, true, false, List, [], ◌∷◌, ltb,
  if◌then◌else◌, u64_mod, arith,
}
use meshconf.Decoder.{VideoDropCounter}
use meshconf.Control.{ControlMessage, congestion_feedback}

-- A tick of the interval: the counter as it stands, whether a stream can be opened, and whether it
-- takes the message.
pub record Tick : Type 0 where
  pub counter : VideoDropCounter
  pub opens : Bool
  pub writes : Bool

module _ (F : Type 0) (zero_ : F) (ratio : ℕ → ℕ → F) where
  -- The variables of the task, with the reports that went out, newest first.
  pub record FeedbackSender : Type 0 where
    pub prev_received : ℕ
    pub prev_dropped : ℕ
    pub sent : List (ControlMessage F)
    pub ended : Bool

  abbrev pub fraction_lost : ℕ → ℕ → F
  fraction_lost received dropped =
      if ltb 0 ((received + dropped) % u64_mod)
      then ratio dropped ((received + dropped) % u64_mod)
      else zero_

  unfoldable pub report : VideoDropCounter → FeedbackSender → ControlMessage F
  report c s =
      let delta_received = c.received - s.prev_received in
      let delta_dropped = c.drops - s.prev_dropped in
      congestion_feedback delta_received delta_dropped (fraction_lost delta_received delta_dropped)
        0

  -- A stream that cannot be opened ends the task, and a message that cannot be written is lost.
  unfoldable pub tick : Tick → FeedbackSender → FeedbackSender
  unfolding report
  tick t s =
      if s.ended
      then s
      else (let msg = report t.counter s in
          let s1 = record s {
            prev_received = t.counter.received;
            prev_dropped = t.counter.drops;
          } in
          if t.opens
          then if t.writes then record s1 { sent = msg ∷ s1.sent } else s1
          else record s1 { ended = true })

  unfoldable pub run_feedback_sender : List Tick → FeedbackSender → FeedbackSender
  run_feedback_sender [] s = s
  run_feedback_sender (t ∷ ts) s = run_feedback_sender ts (tick t s)

  abbrev pub start : FeedbackSender
  start = record { prev_received = 0; prev_dropped = 0; sent = []; ended = false }

  abbrev pub received_in : List (ControlMessage F) → ℕ
  received_in [] = 0
  received_in (congestion_feedback received dropped lost jitter ∷ ms) = received + received_in ms
  received_in (ControlMessage.hello addr name ∷ ms) = received_in ms
  received_in (ControlMessage.peer_list peers ∷ ms) = received_in ms

  abbrev pub dropped_in : List (ControlMessage F) → ℕ
  dropped_in [] = 0
  dropped_in (congestion_feedback received dropped lost jitter ∷ ms) = dropped + dropped_in ms
  dropped_in (ControlMessage.hello addr name ∷ ms) = dropped_in ms
  dropped_in (ControlMessage.peer_list peers ∷ ms) = dropped_in ms

  -- The counters never go back, and every stream takes its message.
  abbrev pub Rising : ℕ → ℕ → List Tick → Type 0
  Rising received dropped [] = Unit
  Rising received dropped (t ∷ ts) =
      (received ≤ t.counter.received)
      × (dropped ≤ t.counter.drops)
      × (t.opens ≡ true)
      × (t.writes ≡ true)
      × Rising t.counter.received t.counter.drops ts

  abbrev pub last_counter : VideoDropCounter → List Tick → VideoDropCounter
  last_counter c [] = c
  last_counter c (t ∷ ts) = last_counter t.counter ts

  -- The reports add up to a counter.
  abbrev pub Totals : VideoDropCounter → FeedbackSender → Type 0
  Totals c s = (received_in s.sent ≡ c.received) × (dropped_in s.sent ≡ c.drops)

  run-Totals :
      (ts : List Tick) (s : FeedbackSender)
      → s.ended ≡ false
      → Rising s.prev_received s.prev_dropped ts
      → received_in s.sent ≡ s.prev_received
      → dropped_in s.sent ≡ s.prev_dropped
      → Totals
          (last_counter (record { drops = s.prev_dropped; received = s.prev_received }) ts)
          (run_feedback_sender ts s)
  unfolding run_feedback_sender tick report
  run-Totals [] s alive up e d = (e, d)
  run-Totals (t ∷ ts) s alive up e d =
      let s1 : FeedbackSender = record s {
        prev_received = t.counter.received;
        prev_dropped = t.counter.drops;
        sent = report t.counter s ∷ s.sent;
      } in
      let k : tick t s ≡ s1 = ground (arith, up.2, up.3) in
      subst (λ s'. Totals (last_counter t.counter ts) (run_feedback_sender ts s')) (sym k)
        (run-Totals ts s1 alive up.4 (omega (arith, e, up.0)) (omega (arith, d, up.1)))

  -- While every stream takes its report and the counters do not wrap, the reports of a peer's session
  -- add up to the counters at the last tick: each frame is reported once.
  pub run_feedback_sender-Totals :
      (ts : List Tick)
      → Rising 0 0 ts
      → Totals (last_counter (record { drops = 0; received = 0 }) ts) (run_feedback_sender ts start)
  run_feedback_sender-Totals ts up = run-Totals ts start refl up refl refl
