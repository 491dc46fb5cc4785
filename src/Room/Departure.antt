-- ===== src/Room/Departure.antt =====
-- src/room.rs: who connects, and what is left when a peer or the room goes.
use meshconf.Prelude.{
  ℕ, ◌≡◌, ◌≢◌, ◌∙◌, inl, inr, true, not, none, some, List, [], ◌∷◌, ◌++◌, ◌==◌, All, All-map, arith,
  Bool-cases,
}
use meshconf.Prelude.HashMap.{get}
use meshconf.Control.{ControlMessage, Json}
use meshconf.Broadcaster.{Broadcaster, remove_peer, get-add_peer}
use meshconf.Room.{Text, TaskKind, PeerState, Room, should_initiate}
use meshconf.Room.Events.{cleanup_all_peers, remove_all, sessions_of}
use meshconf.Room.Members.{IsSound, IsTracked, conn_at, session_at, is_cancelled}

-- Of two peers that learn of each other, exactly one connects.
pub should_initiate_once :
    (ours theirs : ℕ)
    → ours ≢ theirs
    → should_initiate ours theirs ≡ not (should_initiate theirs ours)
unfolding should_initiate
should_initiate_once ours theirs ne = ground arith

module _ (F : Type 0) (text : Text) (json : Json (ControlMessage F)) where
  open text use {Addr}

  cancelled_left :
      (n : ℕ) (xs ys : List ℕ) → is_cancelled n ys ≡ true → is_cancelled n (xs ++ ys) ≡ true
  cancelled_left n [] ys h = h
  cancelled_left n (x ∷ xs) ys h = ground (arith, cancelled_left n xs ys)

  session_cancelled :
      (k n : ℕ) (peers : List (ℕ × PeerState Addr)) (cs : List ℕ)
      → session_at k peers ≡ some n
      → is_cancelled n (sessions_of F text json peers ++ cs) ≡ true
  session_cancelled k n [] cs h = ground arith
  session_cancelled k n ((i, st) ∷ ps) cs h = ground (arith, session_cancelled k n ps cs)

  get-remove_all :
      (k : ℕ) (peers : List (ℕ × PeerState Addr)) (b : Broadcaster)
      → get k b.peers ≡ none
      → get k (remove_all F text json peers b).peers ≡ none
  get-remove_all k [] b h = h
  get-remove_all k ((i, st) ∷ ps) b h =
      get-remove_all k ps (remove_peer i b) ((get-add_peer i 0 k b).1 ∙ ground arith)

  removed :
      (k : ℕ) (peers : List (ℕ × PeerState Addr)) (b : Broadcaster)
      → get k b.peers ≡ conn_at k peers
      → get k (remove_all F text json peers b).peers ≡ none
  removed k [] b h = h
  removed k ((i, st) ∷ ps) b h = elim (Bool-cases (k == i)) [
    | inl e ↦ get-remove_all k ps (remove_peer i b) ((get-add_peer i 0 k b).1 ∙ ground arith)
    | inr e ↦ removed k ps (remove_peer i b) ((get-add_peer i 0 k b).1 ∙ ground arith)
  ]

  is_cancelled-sessions :
      (peers : List (ℕ × PeerState Addr)) (cs : List ℕ) (t : TaskKind × ℕ × ℕ)
      → IsTracked peers cs t
      → is_cancelled t.2 (sessions_of F text json peers ++ cs) ≡ true
  is_cancelled-sessions peers cs (kind, p, n) (inl h) =
      cancelled_left n (sessions_of F text json peers) cs h
  is_cancelled-sessions peers cs (kind, p, n) (inr h) = session_cancelled p n peers cs h

  -- The clean-up of a room whose parts agree cancels the session of every task that was spawned, and
  -- leaves no connection with the broadcasters.
  pub cleanup_all_peers-stops :
      (s : Room F Addr)
      → IsSound s
      → let s' = cleanup_all_peers F text json s in
        All (λ t. is_cancelled t.2 s'.cancelled ≡ true) s'.tasks
        × ((k : ℕ)
            → (get k s'.audio_broadcaster.peers ≡ none) × (get k s'.video_broadcaster.peers ≡ none))
  unfolding cleanup_all_peers
  cleanup_all_peers-stops s v = (
    All-map (IsTracked s.peers s.cancelled) _ s.tasks (is_cancelled-sessions s.peers s.cancelled)
        v.tracked,
    λ k. (
      removed k s.peers s.audio_broadcaster (v.audio k),
      removed k s.peers s.video_broadcaster (v.video k),
    ),
  )
