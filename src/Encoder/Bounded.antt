-- ===== src/Encoder/Bounded.antt =====
-- src/video_encode.rs: the handles in flight and the aborted ones are those of tasks that were spawned.
use meshconf.Prelude.{
  ℕ, suc, ◌<◌, ◌≤◌, ◌≡◌, refl, false, List, [], ◌∷◌, ◌++◌, ◌==◌, length, arith, All, All-append,
  Bool-cases, inl, inr,
}
use meshconf.Prelude.HashMap.{get, put}
use meshconf.Encoder.{
  EncodedPacket, VideoFrame, SendLoop, elem, handles, all_handles, retain_tasks, retain_all,
  tasks_of, abort_all, spawn_send, spawn_all, prepare_frame,
}

abbrev AllBelow : ℕ → List ℕ → Type 0
AllBelow n hs = All (λ h. h < n) hs

AllBelow-mono : (m n : ℕ) (hs : List ℕ) → m ≤ n → AllBelow m hs → AllBelow n hs
AllBelow-mono m n [] h a = tt
AllBelow-mono m n (k ∷ hs) h a = (omega (arith, a.0), AllBelow-mono m n hs h a.1)

pub elem_above : (n : ℕ) (hs : List ℕ) → AllBelow n hs → elem n hs ≡ false
elem_above n [] a = refl
elem_above n (k ∷ hs) a = ground (arith, a.0, elem_above n hs a.1)

AllBelow-split : (n : ℕ) (xs ys : List ℕ) → AllBelow n (xs ++ ys) → AllBelow n xs × AllBelow n ys
AllBelow-split n [] ys a = (tt, a)
AllBelow-split n (x ∷ xs) ys a = let (l, r) = AllBelow-split n xs ys a.1 in ((a.0, l), r)

retain_tasks-AllBelow :
    (n : ℕ) (finished : List ℕ) (ts : List (ℕ × ℕ))
    → AllBelow n (handles ts)
    → AllBelow n (handles (retain_tasks finished ts))
retain_tasks-AllBelow n finished [] a = tt
retain_tasks-AllBelow n finished ((seq, h) ∷ ts) a =
    ground (arith, a.0, retain_tasks-AllBelow n finished ts a.1)

retain_all-AllBelow :
    (n : ℕ) (finished : List ℕ) (m : List (ℕ × List (ℕ × ℕ)))
    → AllBelow n (all_handles m)
    → AllBelow n (all_handles (retain_all finished m))
retain_all-AllBelow n finished [] a = tt
retain_all-AllBelow n finished ((peer, ts) ∷ m) a =
    let (l, r) = AllBelow-split n (handles ts) (all_handles m) a in
    All-append (λ h. h < n) (handles (retain_tasks finished ts)) _
      (retain_tasks-AllBelow n finished ts l) (retain_all-AllBelow n finished m r)

handles-push :
    (n seq k : ℕ) (ts : List (ℕ × ℕ))
    → k < n
    → AllBelow n (handles ts)
    → AllBelow n (handles (ts ++ ((seq, k) ∷ [])))
handles-push n seq k [] lt a = (lt, tt)
handles-push n seq k ((s, h) ∷ ts) lt a = (a.0, handles-push n seq k ts lt a.1)

put-AllBelow :
    (n peer : ℕ) (ts : List (ℕ × ℕ)) (m : List (ℕ × List (ℕ × ℕ)))
    → AllBelow n (handles ts)
    → AllBelow n (all_handles m)
    → AllBelow n (all_handles (put peer ts m))
put-AllBelow n peer ts [] b a = All-append (λ h. h < n) (handles ts) [] b tt
put-AllBelow n peer ts ((p, us) ∷ m) b a =
    let (l, r) = AllBelow-split n (handles us) (all_handles m) a in
    elim (Bool-cases (peer == p)) [
      | inl e ↦ rw e (All-append (λ h. h < n) (handles ts) _ b r)
      | inr e ↦ rw e (All-append (λ h. h < n) (handles us) _ l (put-AllBelow n peer ts m b r))
    ]

tasks_of-AllBelow :
    (n peer : ℕ) (m : List (ℕ × List (ℕ × ℕ)))
    → AllBelow n (all_handles m)
    → AllBelow n (handles (tasks_of (get peer m)))
tasks_of-AllBelow n peer [] a = tt
tasks_of-AllBelow n peer ((p, ts) ∷ m) a =
    let (l, r) = AllBelow-split n (handles ts) (all_handles m) a in
    elim (Bool-cases (peer == p)) [ inl e ↦ rw e l | inr e ↦ rw e (tasks_of-AllBelow n peer m r) ]

module _ {F : Type 0} where
  -- All handles are those of tasks.
  pub record IsBounded (s : SendLoop F) : Type 0 where
    pub flying : AllBelow (length s.spawned) (all_handles s.in_flight)
    pub stopped : AllBelow (length s.spawned) s.aborted

  pub abort_all-IsBounded : (s : SendLoop F) → IsBounded s → IsBounded (abort_all s)
  unfolding abort_all
  abort_all-IsBounded s v = record {
    flying = tt;
    stopped =
        All-append (λ h. h < length s.spawned) (all_handles s.in_flight) s.aborted v.flying
          v.stopped;
  }

  pub prepare_frame-IsBounded :
      (pkt : EncodedPacket) (s : SendLoop F) → IsBounded s → IsBounded (prepare_frame pkt s)
  unfolding prepare_frame abort_all
  prepare_frame-IsBounded pkt s v = elim (Bool-cases pkt.is_keyframe) [
    | inl e ↦ rw e (record { flying = tt; stopped = (abort_all-IsBounded s v).stopped })
    | inr e ↦ rw e (record {
      flying = retain_all-AllBelow (length s.spawned) s.finished s.in_flight v.flying;
      stopped = v.stopped;
    })
  ]

  pub spawn_send-IsBounded :
      (f : VideoFrame) (peer conn : ℕ) (s : SendLoop F)
      → IsBounded s
      → IsBounded (spawn_send f peer conn s)
  unfolding spawn_send
  spawn_send-IsBounded f peer conn s v = record {
    flying =
        let n : ℕ = suc (length s.spawned) in
        let a : AllBelow n (all_handles s.in_flight) =
          AllBelow-mono (length s.spawned) n _ (omega arith) v.flying in
        put-AllBelow n peer _ s.in_flight
          (handles-push n f.group_id (length s.spawned) (tasks_of (get peer s.in_flight))
            (omega arith) (tasks_of-AllBelow n peer s.in_flight a))
          a;
    stopped = AllBelow-mono (length s.spawned) (suc (length s.spawned)) _ (omega arith) v.stopped;
  }

  pub spawn_all-IsBounded :
      (f : VideoFrame) (ps : List (ℕ × ℕ)) (s : SendLoop F)
      → IsBounded s
      → IsBounded (spawn_all f ps s)
  unfolding spawn_all
  spawn_all-IsBounded f [] s v = v
  spawn_all-IsBounded f ((peer, conn) ∷ ps) s v =
      spawn_all-IsBounded f ps (spawn_send f peer conn s) (spawn_send-IsBounded f peer conn s v)
