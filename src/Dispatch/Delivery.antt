-- ===== src/Dispatch/Delivery.antt =====
-- src/dispatch.rs: a frame that the sender of src/video_encode.rs writes to a stream arrives, and the
-- counters account for every stream.
use mathlib.Core.Bool.{true}
use meshconf.Prelude.{
  Bool, true, false, if◌then◌else◌, ◌==◌, sym, Bool-cases, subst, ap, ◌∙◌, ℕ, suc, ◌+◌, ◌%◌, ◌^◌,
  ◌≤◌, ◌<◌, ◌≡◌, ◌≢◌, refl, Option, none, some, List, [], ◌∷◌, ◌++◌, ltb, ok, arith, u64_mod,
  length, IsU64, Result-cases, Option-cases, inl, inr, if_cases,
}
use meshconf.Protocol.Stream.{Reader, finished, feed}
use meshconf.Protocol.Subgroup.{
  SubgroupHeader, read_subgroup_header, write_subgroup_header, read_subgroup_header-write,
}
use meshconf.Protocol.Extension.{Codec}
use meshconf.Protocol.Object.{ObjectData, MediaObject, read_object, write_object}
use meshconf.Protocol.Object.RoundTrip.{read_object-write}
use meshconf.Protocol.Datagram.{decode_audio_datagram}
use meshconf.Decoder.{VideoDropCounter_new}
use meshconf.Jitter.{Channel}
use meshconf.Dispatch.{
  Bool, Dispatcher, start, open_video_stream, deliver, read_pending, pick, finish_video_stream,
  receive_datagram, Event, datagram, uni_opened, uni_finished, step, run, media_object,
}

-- The bytes of a stream with one frame.
abbrev pub frame_stream : ℕ → ℕ → ℕ → ℕ → ℕ → ℕ → Option Codec → List ℕ → Reader
frame_stream track group subgroup prio id ts codec payload =
    feed (write_subgroup_header [] track group subgroup prio)
      (feed (write_object [] id ts codec payload) finished)

pick_last : {A : Type 0} (xs : List A) (a : A) → pick (length xs) (xs ++ (a ∷ [])) ≡ some (a, xs)
pick_last [] a = refl
pick_last (x ∷ xs) a = rw (pick_last xs a) refl

-- The frame that arrives. A field of a header holds 62 bits.
abbrev pub frame_object : ℕ → ℕ → ℕ → ℕ → Option Codec → List ℕ → MediaObject
frame_object group subgroup id ts codec payload = record {
  group_id = group % 2 ^ 62;
  subgroup_id = subgroup % 2 ^ 62;
  object_id = id % 2 ^ 62;
  capture_timestamp_us = ts % 2 ^ 62;
  codec = codec;
  payload = payload;
}

open_new :
    (recv rest : Reader) (header : SubgroupHeader) (s : Dispatcher)
    → read_subgroup_header recv ≡ ok (header, rest)
    → s.latest_keyframe ≤ header.group_id
    → open_video_stream recv s ≡ record s { pending = s.pending ++ ((header, rest) ∷ []) }
unfolding open_video_stream
open_new recv rest header s e h = rw (open_video_stream, e) (ground arith)

finish_last :
    (header : SubgroupHeader) (rest : Reader) (s : Dispatcher)
    → finish_video_stream
        (length s.pending)
        (record s { pending = s.pending ++ ((header, rest) ∷ []) })
      ≡ read_pending header rest s
unfolding finish_video_stream
finish_last header rest s = rw (finish_video_stream, pick_last s.pending (header, rest)) refl

read_some :
    (header : SubgroupHeader) (recv rest : Reader) (data_ : ObjectData) (s : Dispatcher)
    → read_object recv ≡ ok (some data_, rest)
    → read_pending header recv s ≡ deliver (media_object header data_) s
unfolding read_pending
read_some header recv rest data_ s e = rw (read_pending, e) refl

finish_delivers :
    (track group subgroup prio id ts : ℕ) (codec : Option Codec) (payload : List ℕ) (s : Dispatcher)
    → IsU64 track
    → IsU64 group
    → IsU64 subgroup
    → IsU64 id
    → IsU64 ts
    → payload ≢ []
    → length payload < 2 ^ 62
    → s.latest_keyframe ≤ group % 2 ^ 62
    → finish_video_stream
        (length s.pending)
        (open_video_stream (frame_stream track group subgroup prio id ts codec payload) s)
      ≡ deliver (frame_object group subgroup id ts codec payload) s
finish_delivers track group subgroup prio id ts codec payload s ht hg hs hi hc ne hp new =
    let body : Reader = feed (write_object [] id ts codec payload) finished in
    let header : SubgroupHeader = record {
      track_alias = track % 2 ^ 62;
      group_id = group % 2 ^ 62;
      subgroup_id = subgroup % 2 ^ 62;
      publisher_priority = prio;
    } in
    ap (finish_video_stream (length s.pending)) (
      open_new (frame_stream track group subgroup prio id ts codec payload) body header s
        (read_subgroup_header-write track group subgroup prio body ht hg hs) new)
    ∙ finish_last header body s
    ∙ read_some header body finished _ s
        (read_object-write id ts codec payload finished hi hc ne hp)

-- The channel to the decoder with room for a frame, which takes it, and without, where the frame is a
-- drop.
abbrev IsOffered : Bool → MediaObject → Dispatcher → Dispatcher → Type 0
IsOffered true obj s s' =
    (s'.video_tx.sent ≡ obj ∷ s.video_tx.sent) × (s'.video_drops.drops ≡ s.video_drops.drops)
IsOffered false obj s s' =
    (s'.video_tx.sent ≡ s.video_tx.sent)
    × (s'.video_drops.drops ≡ (s.video_drops.drops + 1) % u64_mod)

-- A frame that was handed on: a keyframe moves the latest group up to its own, the frame is counted
-- as received, and it is offered to the decoder.
abbrev pub IsDelivered : MediaObject → Dispatcher → Dispatcher → Type 0
IsDelivered obj s s' =
    (s'.latest_keyframe ≡ (if obj.subgroup_id == 0 then obj.group_id else s.latest_keyframe))
    × (s'.video_drops.received ≡ (s.video_drops.received + 1) % u64_mod)
    × IsOffered (ltb 0 s.video_tx.free) obj s s'
    × (s'.pending ≡ s.pending)

deliver-IsDelivered :
    (obj : MediaObject) (s : Dispatcher)
    → s.latest_keyframe ≤ obj.group_id
    → IsDelivered obj s (deliver obj s)
unfolding deliver
deliver-IsDelivered obj s new = elim (Bool-cases (ltb 0 s.video_tx.free)) [
  | inl room ↦ ground (arith, room)
  | inr full ↦ ground (arith, full)
]

-- A stream whose frame is not of an older group than the latest keyframe, and has a payload that is
-- not empty and has less than 2^62 bytes, is delivered as it was sent once it is read to its end, each
-- of its fields with its low 62 bits: the frame is counted, a keyframe moves the latest group up to its
-- own, and the decoder's channel takes the frame where it has room, or else it is a drop. The streams
-- that are still being read stay.
pub finish-open_video_stream :
    (track group subgroup prio id ts : ℕ) (codec : Option Codec) (payload : List ℕ) (s : Dispatcher)
    → IsU64 track
    → IsU64 group
    → IsU64 subgroup
    → IsU64 id
    → IsU64 ts
    → payload ≢ []
    → length payload < 2 ^ 62
    → s.latest_keyframe ≤ group % 2 ^ 62
    → IsDelivered (frame_object group subgroup id ts codec payload) s (
        finish_video_stream
          (length s.pending)
          (open_video_stream (frame_stream track group subgroup prio id ts codec payload) s))
finish-open_video_stream track group subgroup prio id ts codec payload s ht hg hs hi hc ne hp new =
    let obj : MediaObject = frame_object group subgroup id ts codec payload in
    subst (IsDelivered obj s)
      (sym
        (finish_delivers track group subgroup prio id ts codec payload s ht hg hs hi hc ne hp new))
      (deliver-IsDelivered obj s new)

-- With `n` turns behind it, each stream that was received or stopped is a frame handed on or a drop
-- that was counted.
record IsAccounted (n : ℕ) (s : Dispatcher) : Type 0 where
  balance : s.video_drops.received + s.stopped ≡ length s.video_tx.sent + s.video_drops.drops
  few_received : s.video_drops.received ≤ n
  few_drops : s.video_drops.drops ≤ n

deliver-IsAccounted :
    (n : ℕ) (obj : MediaObject) (s : Dispatcher)
    → n + 1 < u64_mod
    → IsAccounted n s
    → IsAccounted (suc n) (deliver obj s)
unfolding deliver
deliver-IsAccounted n obj s small v = ground (arith, v.balance, v.few_received, v.few_drops)

stay-IsAccounted :
    (n : ℕ) (s s' : Dispatcher)
    → s'.video_drops ≡ s.video_drops
    → s'.stopped ≡ s.stopped
    → s'.video_tx ≡ s.video_tx
    → IsAccounted n s
    → IsAccounted (suc n) s'
stay-IsAccounted n s s' e f g v = ground (arith, v.balance, v.few_received, v.few_drops)

read_pending-IsAccounted :
    (n : ℕ) (header : SubgroupHeader) (recv : Reader) (s : Dispatcher)
    → n + 1 < u64_mod
    → IsAccounted n s
    → IsAccounted (suc n) (read_pending header recv s)
unfolding read_pending
read_pending-IsAccounted n header recv s h v = elim (Result-cases (read_object recv)) [
  | inr (e, k) ↦ rw (read_pending, k) (stay-IsAccounted n s s refl refl refl v)
  | inl ((none, rest), k) ↦ rw (read_pending, k) (stay-IsAccounted n s s refl refl refl v)
  | inl ((some data_, rest), k) ↦
      rw (read_pending, k) (deliver-IsAccounted n (media_object header data_) s h v)
]

step-IsAccounted :
    (n : ℕ) (event : Event) (s : Dispatcher)
    → n + 1 < u64_mod
    → IsAccounted n s
    → IsAccounted (suc n) (step event s)
unfolding step receive_datagram open_video_stream finish_video_stream
step-IsAccounted n (datagram bytes) s h v = elim (Result-cases (decode_audio_datagram bytes)) [
  | inr (e, k) ↦ rw (receive_datagram, k) (stay-IsAccounted n s s refl refl refl v)
  | inl (obj, k) ↦ rw (receive_datagram, k) (stay-IsAccounted n s _ refl refl refl v)
]
step-IsAccounted n (uni_opened recv) s h v = elim (Result-cases (read_subgroup_header recv)) [
  | inr (e, k) ↦ rw (open_video_stream, k) (stay-IsAccounted n s s refl refl refl v)
  | inl ((header, rest), k) ↦
      rw (open_video_stream, k)
        (if_cases (IsAccounted (suc n)) (ltb header.group_id s.latest_keyframe)
          (λ c. ground (arith, v.balance, v.few_received, v.few_drops))
          (λ c. stay-IsAccounted n s _ refl refl refl v))
]
step-IsAccounted n (uni_finished i) s h v = elim (Option-cases (pick i s.pending)) [
  | inl k ↦ rw (finish_video_stream, k) (stay-IsAccounted n s s refl refl refl v)
  | inr (((header, recv), rest), k) ↦
      rw (finish_video_stream, k)
        (read_pending-IsAccounted n header recv (record s { pending = rest }) h
          (record { balance = v.balance; few_received = v.few_received; few_drops = v.few_drops }))
]

run-balance :
    (n : ℕ) (events : List Event) (s : Dispatcher)
    → n + length events < u64_mod
    → IsAccounted n s
    → let s' = run events s in
      s'.video_drops.received + s'.stopped ≡ length s'.video_tx.sent + s'.video_drops.drops
unfolding run
run-balance n [] s h v = v.balance
run-balance n (event ∷ events) s h v =
    run-balance (suc n) events (step event s) (omega arith)
      (step-IsAccounted n event s (omega arith) v)

-- In every order of the tasks, the frames received and the streams stopped are, together, the
-- frames handed to the decoder and the drops, until there are 2^64 turns.
pub run-start-balance :
    (events : List Event) (free : ℕ) (audio_tx : Channel)
    → length events < u64_mod
    → let s =
        run events (start VideoDropCounter_new (record { sent = []; free = free }) audio_tx) in
      s.video_drops.received + s.stopped ≡ length s.video_tx.sent + s.video_drops.drops
unfolding start
run-start-balance events free audio_tx h =
    run-balance 0 events (start VideoDropCounter_new (record { sent = []; free = free }) audio_tx)
      (omega arith) (record { balance = refl; few_received = omega arith; few_drops = omega arith })
