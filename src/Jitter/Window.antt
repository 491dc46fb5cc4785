-- ===== src/Jitter/Window.antt =====
-- When the jitter buffer (src/jitter.rs) sends an object, and that it does not hold one back.
use mathlib.Core.List.{append_assoc}
use meshconf.Prelude.{
  subst, ◌⊎◌, ◌&&◌, ◌%◌, ◌^◌, All-append, ◌∙◌, leb→le, Bool-cases, ℕ, ◌+◌, ◌≤◌, ◌≡◌, refl, Bool,
  false, Option, none, some, List, [], ◌∷◌, ◌++◌, arith, ltb, leb, All,
}
use meshconf.Protocol.Object.{MediaObject}
use meshconf.Jitter.{
  if_cases, u64_mod, Channel, plc_sentinel, true, inr, inl, Task, Buffer, emit, is_sent, emit_loop,
  conceal, tick, tick_cases, playout, latest,
}

-- A time that is not before a timestamp with the offset, and not more than `max_late_us` behind it.
abbrev InTime : Task → ℕ → ℕ → ℕ → Type 0
InTime t now offset ts =
    ((ts + offset) % 2 ^ 64 ≤ now) × (now ≤ (ts + offset + t.config.max_late_us) % 2 ^ 64)

-- A PLC frame that stands for the 20 ms behind the last timestamp.
abbrev IsFill : Task → ℕ → ℕ → Option ℕ → MediaObject → Type 0
IsFill t now offset none o = ⊥
IsFill t now offset (some last) o = (o ≡ plc_sentinel) × InTime t now offset (last + 20_000)

-- What is sent in its window.
abbrev InWindow : Task → ℕ → ℕ → MediaObject → Type 0
InWindow t now offset o = InTime t now offset o.capture_timestamp_us

-- Besides `old`, `s` has objects in their window, or no object and one PLC frame.
abbrev pub IsTimely : Task → ℕ → ℕ → Option ℕ → List MediaObject → List MediaObject → Type 0
IsTimely t now offset last old s =
    ((new : List MediaObject) × (s ≡ new ++ old) × All (InWindow t now offset) new)
    ⊎ ((o : MediaObject) × (s ≡ o ∷ old) × IsFill t now offset last o)

-- The objects of `s` that are not in `old` are in their window.
abbrev Fresh : Task → ℕ → ℕ → List MediaObject → List MediaObject → Type 0
Fresh t now offset old s =
    (new : List MediaObject) × (s ≡ new ++ old) × All (InWindow t now offset) new

emitted-InWindow :
    (t : Task) (now offset : ℕ) (obj : MediaObject) (b : Buffer) (s : List MediaObject)
    → playout obj.capture_timestamp_us offset ≤ now
    → Fresh t now offset (emit t now offset obj b).tx.sent s
    → Fresh t now offset b.tx.sent s
emitted-InWindow t now offset obj b s due (new, e, w) =
    elim (Bool-cases (ltb (latest t (playout obj.capture_timestamp_us offset)) now)) [
      | inl late ↦ (new, e ∙ rw late, w)
      | inr in_time ↦ elim (Bool-cases (ltb 0 b.tx.free)) [
        | inr full ↦ (new, e ∙ rw (in_time, full), w)
        | inl room ↦ (
          new ++ (obj ∷ []),
          e ∙ rw (in_time, room, append_assoc),
          All-append (InWindow t now offset) new (obj ∷ []) w ((due, ground arith), tt),
        )
      ]
    ]

emit_loop-InWindow :
    (t : Task) (now offset : ℕ) (q : List MediaObject) (b : Buffer) (emitted : Bool)
    → (new : List MediaObject) × ((emit_loop t now offset q b emitted).0.tx.sent ≡ new ++ b.tx.sent)
      × All (InWindow t now offset) new
unfolding emit_loop
emit_loop-InWindow t now offset [] b emitted = ([], refl, tt)
emit_loop-InWindow t now offset (obj ∷ rest) b emitted =
    elim (Bool-cases (leb (playout obj.capture_timestamp_us offset) now)) [
      | inr waits ↦ rw waits ([], refl, tt)
      | inl due ↦ rw due (
          emitted-InWindow t now offset obj b _ (leb→le _ _ due) (
            emit_loop-InWindow t now offset rest (emit t now offset obj b)
              (is_sent t now offset obj emitted)))
    ]

emit_loop_emitted :
    (t : Task) (now offset : ℕ) (q : List MediaObject) (b : Buffer)
    → (emit_loop t now offset q b true).1 ≡ true
unfolding emit_loop
emit_loop_emitted t now offset [] b = refl
emit_loop_emitted t now offset (obj ∷ rest) b =
    ground (arith, emit_loop_emitted t now offset rest (emit t now offset obj b))

-- A loop that sends nothing leaves the last timestamp and the channel.
emit_loop_idle :
    (t : Task) (now offset : ℕ) (q : List MediaObject) (b : Buffer)
    → (emit_loop t now offset q b false).1 ≡ false
    → let b' = (emit_loop t now offset q b false).0 in
      (b'.last_emitted_ts ≡ b.last_emitted_ts) × (b'.tx ≡ b.tx)
unfolding emit_loop
emit_loop_idle t now offset [] b e = (refl, refl)
emit_loop_idle t now offset (obj ∷ rest) b e =
    let b' : Buffer = emit t now offset obj b in
    ground (arith, e, emit_loop_emitted t now offset rest b', emit_loop_idle t now offset rest b')

conceal-IsTimely :
    (t : Task) (now offset : ℕ) (last : Option ℕ) (b : Buffer)
    → IsTimely t now offset last b.tx.sent (conceal t now offset last b).tx.sent
unfolding conceal
conceal-IsTimely t now offset none b = inl ([], refl, tt)
conceal-IsTimely t now offset (some ts) b =
    let expected : ℕ = (ts + 20_000) % u64_mod in
    if_cases (λ (b' : Buffer). IsTimely t now offset (some ts) b.tx.sent b'.tx.sent)
      (leb (playout expected offset) now && ltb now (latest t (playout expected offset)))
      (λ e. elim (Bool-cases (ltb 0 b.tx.free)) [
        | inl room ↦ inr (plc_sentinel, rw room refl, (refl, (ground arith, ground arith)))
        | inr full ↦ inl ([], rw full refl, tt)
      ])
      (λ e. inl ([], refl, tt))

-- What a tick sends, once there is an offset, is either objects, each not before its timestamp with the
-- offset and not more than `max_late_us` behind it, or one PLC frame, for which the same holds of the
-- time 20 ms behind the last timestamp.
pub tick-IsTimely :
    (t : Task) (now offset : ℕ) (b : Buffer)
    → b.clock_offset_us ≡ some offset
    → IsTimely t now offset b.last_emitted_ts b.tx.sent (tick t now b).tx.sent
tick-IsTimely t now offset b has =
    tick_cases (λ b'. IsTimely t now offset b.last_emitted_ts b.tx.sent b'.tx.sent) t now b
      (λ e. cc)
      (λ o e.
        let same : o ≡ offset = ground arith in
        inl (
          subst
            (λ k.
              (new : List MediaObject) × ((emit_loop t now o b.queue b false).0.tx.sent
                ≡ new ++ b.tx.sent)
              × All (InWindow t now k) new)
            same (emit_loop-InWindow t now o b.queue b false)))
      (λ o e idle plc.
        let same : o ≡ offset = ground arith in
        let b' : Buffer = (emit_loop t now o b.queue b false).0 in
        let (last, tx) = emit_loop_idle t now o b.queue b idle in
        subst
          (λ k.
            IsTimely t now k b.last_emitted_ts b.tx.sent
              (conceal t now o b'.last_emitted_ts b').tx.sent)
          same
          (subst (λ l. IsTimely t now o l b.tx.sent (conceal t now o b'.last_emitted_ts b').tx.sent)
            last
            (subst
              (λ (c : Channel).
                IsTimely t now o b'.last_emitted_ts c.sent
                  (conceal t now o b'.last_emitted_ts b').tx.sent)
              tx (conceal-IsTimely t now o b'.last_emitted_ts b'))))
