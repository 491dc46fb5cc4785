-- ===== src/Dispatch/Streams.antt =====
-- src/dispatch.rs: which frames reach the decoder, and what the counters tell, in every order in
-- which the tasks of the streams run.
use meshconf.Prelude.{
  sym, subst, if_cases, ℕ, zero, suc, ◌≤◌, ◌≡◌, none, some, List, [], ◌∷◌, ltb, if◌then◌else◌, All,
  All-append, arith, Result-cases, Option-cases, inl, inr,
}
use meshconf.Protocol.Stream.{Reader}
use meshconf.Protocol.Subgroup.{SubgroupHeader, read_subgroup_header}
use meshconf.Protocol.Object.{MediaObject, read_object}
use meshconf.Protocol.Datagram.{decode_audio_datagram}
use meshconf.Dispatch.{
  Dispatcher, open_video_stream, deliver, read_pending, pick, finish_video_stream, receive_datagram,
  Event, datagram, uni_opened, uni_finished, step, run, media_object,
}

-- A list that adds objects to `old`, all of the group `g` or later.
pub data IsFresh (g : ℕ) (old : List MediaObject) : List MediaObject → Type 0 where
  same : IsFresh g old old
  more :
      (obj : MediaObject) {objs : List MediaObject}
      → g ≤ obj.group_id
      → IsFresh g old objs
      → IsFresh g old (obj ∷ objs)

-- A keyframe of the group `g` was received, and no stream of an older group is being read.
record IsPast (g : ℕ) (old : List MediaObject) (s : Dispatcher) : Type 0 where
  keyframe : g ≤ s.latest_keyframe
  waiting : All (λ p. g ≤ p.0.group_id) s.pending
  fresh : IsFresh g old s.video_tx.sent

pick-All :
    {A : Type 0} (P : A → Type 0) (i : ℕ) (xs ys : List A) (a : A)
    → pick i xs ≡ some (a, ys)
    → All P xs
    → P a × All P ys
pick-All P i [] ys a e h = ground arith
pick-All P zero (x ∷ xs) ys a e h = ground arith
pick-All P (suc i) (x ∷ xs) ys a e h = elim (Option-cases (pick i xs)) [
  | inl k ↦ ground arith
  | inr ((b, zs), k) ↦ ground (arith, pick-All P i xs zs b k)
]

deliver-fields :
    (obj : MediaObject) (s : Dispatcher)
    → let s' = deliver obj s in
      (s.latest_keyframe ≤ s'.latest_keyframe)
      × (s'.pending ≡ s.pending)
      × (s'.video_tx.sent
          ≡ (if ltb 0 s.video_tx.free then obj ∷ s.video_tx.sent else s.video_tx.sent))
unfolding deliver
deliver-fields obj s = ground arith

deliver-IsPast :
    (g : ℕ) (old : List MediaObject) (obj : MediaObject) (s : Dispatcher)
    → g ≤ obj.group_id
    → IsPast g old s
    → IsPast g old (deliver obj s)
deliver-IsPast g old obj s h v =
    let (monotone, pending, sent) = deliver-fields obj s in
    record {
      keyframe = omega (arith, v.keyframe);
      waiting = subst (All (λ p. g ≤ p.0.group_id)) (sym pending) v.waiting;
      fresh = subst (IsFresh g old) (sym sent) (
          if_cases (IsFresh g old) (ltb 0 s.video_tx.free) (λ c. more obj h v.fresh)
            (λ c. v.fresh));
    }

open-IsPast :
    (g : ℕ) (old : List MediaObject) (recv : Reader) (s : Dispatcher)
    → IsPast g old s
    → IsPast g old (open_video_stream recv s)
unfolding open_video_stream
open-IsPast g old recv s v = elim (Result-cases (read_subgroup_header recv)) [
  | inr (e, k) ↦ rw (open_video_stream, k) v
  | inl ((header, rest), k) ↦
      rw (open_video_stream, k)
        (if_cases (IsPast g old) (ltb header.group_id s.latest_keyframe)
          (λ c. record { keyframe = v.keyframe; waiting = v.waiting; fresh = v.fresh })
          (λ c. record {
            keyframe = v.keyframe;
            waiting =
                All-append (λ p. g ≤ p.0.group_id) s.pending ((header, rest) ∷ []) v.waiting
                  (ground (arith, v.keyframe), tt);
            fresh = v.fresh;
          }))
]

read_pending-IsPast :
    (g : ℕ) (old : List MediaObject) (header : SubgroupHeader) (recv : Reader) (s : Dispatcher)
    → g ≤ header.group_id
    → IsPast g old s
    → IsPast g old (read_pending header recv s)
unfolding read_pending
read_pending-IsPast g old header recv s h v = elim (Result-cases (read_object recv)) [
  | inr (e, k) ↦ rw (read_pending, k) v
  | inl ((none, rest), k) ↦ rw (read_pending, k) v
  | inl ((some data_, rest), k) ↦
      rw (read_pending, k) (deliver-IsPast g old (media_object header data_) s h v)
]

finish-IsPast :
    (g : ℕ) (old : List MediaObject) (i : ℕ) (s : Dispatcher)
    → IsPast g old s
    → IsPast g old (finish_video_stream i s)
unfolding finish_video_stream
finish-IsPast g old i s v = elim (Option-cases (pick i s.pending)) [
  | inl k ↦ rw (finish_video_stream, k) v
  | inr (((header, recv), rest), k) ↦
      let (h, hs) = pick-All (λ p. g ≤ p.0.group_id) i s.pending rest (header, recv) k v.waiting in
      rw (finish_video_stream, k)
        (read_pending-IsPast g old header recv (record s { pending = rest }) h
          (record { keyframe = v.keyframe; waiting = hs; fresh = v.fresh }))
]

step-IsPast :
    (g : ℕ) (old : List MediaObject) (event : Event) (s : Dispatcher)
    → IsPast g old s
    → IsPast g old (step event s)
unfolding step receive_datagram
step-IsPast g old (datagram bytes) s v = elim (Result-cases (decode_audio_datagram bytes)) [
  | inr (e, k) ↦ rw (receive_datagram, k) v
  | inl (obj, k) ↦
      rw (receive_datagram, k)
        (record { keyframe = v.keyframe; waiting = v.waiting; fresh = v.fresh })
]
step-IsPast g old (uni_opened recv) s v = open-IsPast g old recv s v
step-IsPast g old (uni_finished i) s v = finish-IsPast g old i s v

run-IsPast :
    (g : ℕ) (old : List MediaObject) (events : List Event) (s : Dispatcher)
    → IsPast g old s
    → IsPast g old (run events s)
unfolding run
run-IsPast g old [] s v = v
run-IsPast g old (event ∷ events) s v =
    run-IsPast g old events (step event s) (step-IsPast g old event s v)

-- Where the streams that are being read are not of an older group than the latest keyframe, only
-- frames of its group or of later ones are handed to the decoder from then on, in every order of the
-- tasks.
pub run-IsFresh :
    (events : List Event) (s : Dispatcher)
    → All (λ p. s.latest_keyframe ≤ p.0.group_id) s.pending
    → IsFresh s.latest_keyframe s.video_tx.sent (run events s).video_tx.sent
run-IsFresh events s waiting =
    (run-IsPast s.latest_keyframe s.video_tx.sent events s
      (record { keyframe = omega arith; waiting = waiting; fresh = same })).fresh
