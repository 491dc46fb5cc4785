-- ===== src/Jitter/Count.antt =====
-- What becomes of the objects that the buffer of src/jitter.rs receives, and its drop counter.
use meshconf.Prelude.{
  ap, subst, sym, ◌∙◌, ℕ, suc, ◌+◌, ◌%◌, ◌≡◌, ◌≢◌, refl, Bool, false, Option, none, some, List, [],
  ◌∷◌, length, arith, u64_mod, All,
}
use meshconf.Protocol.Object.{MediaObject}
use meshconf.Jitter.{
  playout, leb, if_cases, Task, Buffer, PeerClock, Event, received_at, ticked_at, clock_set,
  drained, insert, increment, start, receive, emit, is_sent, emit_loop, tick, tick_cases, step, run,
}

length-insert : (obj : MediaObject) (q : List MediaObject) → length (insert obj q) ≡ suc (length q)
length-insert obj [] = refl
length-insert obj (o ∷ q) = ground (arith, length-insert obj q)

abbrev pub dropped : Option ℕ → ℕ
dropped none = 0
dropped (some n) = n

abbrev IsCounting : Option ℕ → Type 0
IsCounting none = ⊥
IsCounting (some n) = Unit

-- How many objects come with the events.
abbrev arrivals : List Event → ℕ
arrivals [] = 0
arrivals (received_at now obj ∷ es) = suc (arrivals es)
arrivals (ticked_at now ∷ es) = arrivals es
arrivals (clock_set offset ∷ es) = arrivals es
arrivals (drained n ∷ es) = arrivals es

abbrev IsStamped : Event → Type 0
IsStamped (received_at now obj) = obj.capture_timestamp_us ≢ 0
IsStamped (ticked_at now) = Unit
IsStamped (clock_set offset) = Unit
IsStamped (drained n) = Unit

-- Of `n` objects, each is in the channel, counted as a drop, or still in the queue; the counter wraps.
record IsAccounted (n : ℕ) (b : Buffer) : Type 0 where
  counts : IsCounting b.drop_counter
  balance : n % u64_mod ≡ (length b.tx.sent + dropped b.drop_counter + length b.queue) % u64_mod

increment_counts :
    (d : Option ℕ)
    → IsCounting d
    → IsCounting (increment d) × (dropped (increment d) % u64_mod ≡ (dropped d + 1) % u64_mod)
increment_counts none h = absurd h
increment_counts (some n) h = (tt, omega arith)

receive-IsAccounted :
    (n : ℕ) (t : Task) (now : ℕ) (obj : MediaObject) (b : Buffer)
    → obj.capture_timestamp_us ≢ 0
    → IsAccounted n b
    → IsAccounted (suc n) (receive t now obj b)
unfolding receive
receive-IsAccounted n t now obj b ne v = ground (
  arith,
  ne,
  v.counts,
  v.balance,
  increment_counts b.drop_counter v.counts,
  length-insert obj b.queue,
)

emit-counts :
    (t : Task) (now offset : ℕ) (obj : MediaObject) (b : Buffer) (k : ℕ)
    → IsCounting b.drop_counter
    → let b' = emit t now offset obj b in
      IsCounting b'.drop_counter
      × ((length b'.tx.sent + dropped b'.drop_counter + k) % u64_mod
          ≡ (length b.tx.sent + dropped b.drop_counter + suc k) % u64_mod)
emit-counts t now offset obj b k h = ground (arith, increment_counts b.drop_counter h)

emit_loop-IsAccounted :
    (n : ℕ) (t : Task) (now offset : ℕ) (q : List MediaObject) (b : Buffer) (emitted : Bool)
    → IsCounting b.drop_counter
    → n % u64_mod ≡ (length b.tx.sent + dropped b.drop_counter + length q) % u64_mod
    → IsAccounted n (emit_loop t now offset q b emitted).0
unfolding emit_loop
emit_loop-IsAccounted n t now offset [] b emitted c h = record { counts = c; balance = h }
emit_loop-IsAccounted n t now offset (obj ∷ rest) b emitted c h =
    let (c', h') = emit-counts t now offset obj b (length rest) c in
    if_cases (λ (r : Buffer × Bool). IsAccounted n r.0)
      (leb (playout obj.capture_timestamp_us offset) now)
      (λ e.
        emit_loop-IsAccounted n t now offset rest (emit t now offset obj b)
          (is_sent t now offset obj emitted) c' (h ∙ sym h'))
      (λ e. record { counts = c; balance = h })

tick-IsAccounted :
    (n : ℕ) (t : Task) (now : ℕ) (b : Buffer)
    → t.emit_plc ≡ false
    → IsAccounted n b
    → IsAccounted n (tick t now b)
tick-IsAccounted n t now b no_plc v =
    tick_cases (IsAccounted n) t now b (λ _. v)
      (λ offset _. emit_loop-IsAccounted n t now offset b.queue b false v.counts v.balance)
      (λ offset _ _ plc. cc)

run-IsAccounted :
    (n : ℕ) (t : Task) (es : List Event) (b : Buffer)
    → t.emit_plc ≡ false
    → All IsStamped es
    → IsAccounted n b
    → IsAccounted (n + arrivals es) (run t es b)
unfolding run step
run-IsAccounted n t [] b no_plc h v = subst (λ k. IsAccounted k b) (omega arith) v
run-IsAccounted n t (received_at now obj ∷ es) b no_plc h v =
    subst (λ k. IsAccounted k (run t es (receive t now obj b))) (omega arith)
      (run-IsAccounted (suc n) t es (receive t now obj b) no_plc h.1
        (receive-IsAccounted n t now obj b h.0 v))
run-IsAccounted n t (ticked_at now ∷ es) b no_plc h v =
    run-IsAccounted n t es (tick t now b) no_plc h.1 (tick-IsAccounted n t now b no_plc v)
run-IsAccounted n t (clock_set offset ∷ es) b no_plc h v =
    run-IsAccounted n t es _ no_plc h.1 (record { counts = v.counts; balance = v.balance })
run-IsAccounted n t (drained k ∷ es) b no_plc h v =
    run-IsAccounted n t es _ no_plc h.1 (record { counts = v.counts; balance = v.balance })

-- Without PLC frames, and where every object has a timestamp, after any events each object that came
-- is one that the channel took, one that the drop counter counts, be it late, a duplicate or refused
-- by the channel, or one that is still in the queue; modulo 2^64, at which the counter wraps.
pub run-start-balance :
    (t : Task) (clock : PeerClock) (free : ℕ) (es : List Event)
    → t.emit_plc ≡ false
    → All IsStamped es
    → let b = run t es (start t clock (record { sent = []; free = free }) (some 0)) in
      arrivals es % u64_mod ≡ (length b.tx.sent + dropped b.drop_counter + length b.queue) % u64_mod
unfolding start
run-start-balance t clock free es no_plc h =
    let v =
      run-IsAccounted 0 t es (start t clock (record { sent = []; free = free }) (some 0)) no_plc h
        (record { counts = tt; balance = refl }) in
    ap (λ k. k % u64_mod) (omega arith) ∙ v.balance
