-- ===== src/Room/Opening.antt =====
-- src/room.rs: a room from its start on, with or without an initial peer.
use meshconf.Prelude.{
  Outlet, ℕ, ◌≡◌, refl, Bool, false, Option, none, some, List, arith, Option-cases, inl, inr, subst,
}
use meshconf.Prelude.HashMap.{contains}
use meshconf.Control.{ControlMessage, Json}
use meshconf.Broadcaster.{Broadcaster_new_with_keyframe}
use meshconf.Room.{Text, Link, Room, open_control_and_add_peer}
use meshconf.Room.Events.{RoomEvent, join_link, join_via_peer, open_room, run, Room_new}
use meshconf.Room.Members.{IsSound}
use meshconf.Room.Sessions.{
  open_control-IsSound, start_control-IsSound, handle_received_peer_list-IsSound, run-IsSound,
}

-- A room that is there is sound.
abbrev IsSoundIf : {F Addr : Type 0} → Option (Room F Addr) → Type 0
IsSoundIf none = Unit
IsSoundIf (some s) = IsSound s

module _ (F : Type 0) (text : Text) (json : Json (ControlMessage F)) where
  open text use {Addr}

  join_link-IsSoundIf :
      (dial : Addr → Option Link) (link : Link) (addr : Addr) (s : Room F Addr)
      → contains link.remote_id s.peers ≡ false
      → IsSound s
      → IsSoundIf (join_link F text json dial link addr s)
  unfolding join_link
  join_link-IsSoundIf dial link addr s h v =
      let s1 : Room F Addr = (open_control_and_add_peer F text json link.remote_id link addr s).0 in
      let (sound, added) = open_control-IsSound F text json link.remote_id link addr s h v in
      elim (Option-cases (open_control_and_add_peer F text json link.remote_id link addr s).1) [
        | inl e ↦ rw (join_link, e) tt
        | inr (initial_peers, e) ↦
            rw (join_link, e)
              (handle_received_peer_list-IsSound F text json dial initial_peers _ (
                start_control-IsSound F text json link.remote_id link.conn s1
                  (added (rw e (λ k. ground arith))) sound))
      ]

  open_room-IsSoundIf :
      (dial : Addr → Option Link) (initial : Option Addr) (s : Room F Addr)
      → ((k : ℕ) → contains k s.peers ≡ false)
      → IsSound s
      → IsSoundIf (open_room F text json dial initial s)
  unfolding open_room join_via_peer
  open_room-IsSoundIf dial none s h v = v
  open_room-IsSoundIf dial (some addr) s h v = elim (Option-cases (dial addr)) [
    | inl e ↦ rw (join_via_peer, e) tt
    | inr (link, e) ↦
        rw (join_via_peer, e) (join_link-IsSoundIf dial link addr s (h link.remote_id) v)
  ]

  -- A room that has opened, with an initial peer joined where there is one, keeps its parts in
  -- agreement over any events: both broadcasters know the connection of each peer and no other, and
  -- the session of each task that was spawned is cancelled or is that of its peer, so that no task
  -- outlives its peer's membership.
  pub run-open_room-IsSound :
      (events : List (RoomEvent F text json)) (dial : Addr → Option Link) (initial : Option Addr)
      (our_id : ℕ) (our_addr : Addr) (our_name : List ℕ) (flag : Bool)
      (bw_tx : Option (Outlet (F × ℕ))) (s : Room F Addr)
      → open_room F text json dial initial
          (Room_new F text json our_id our_addr our_name (Broadcaster_new_with_keyframe flag) bw_tx)
        ≡ some s
      → IsSound (run F text json events s)
  unfolding Room_new
  run-open_room-IsSound events dial initial our_id our_addr our_name flag bw_tx s e =
      let fresh : Room F Addr =
        Room_new F text json our_id our_addr our_name (Broadcaster_new_with_keyframe flag) bw_tx in
      run-IsSound F text json events s (
        subst IsSoundIf e (
          open_room-IsSoundIf dial initial fresh (λ k. refl)
            (record { audio = λ k. refl; video = λ k. refl; tracked = tt })))
