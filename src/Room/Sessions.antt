-- ===== src/Room/Sessions.antt =====
-- src/room.rs: over a run of a room, its peers, broadcasters and tasks agree.
use meshconf.Prelude.{
  ℕ, ◌≡◌, ◌≢◌, refl, ◌⊎◌, inl, inr, false, Option, none, some, List, [], ◌∷◌, ◌==◌, All, All-map,
  arith, Option-cases, Bool-cases, if_cases,
}
use meshconf.Prelude.HashMap.{get, contains}
use meshconf.Control.{
  ControlMessage, hello, peer_list, congestion_feedback, PeerInfo, Json, read_control_msg,
}
use meshconf.Room.{
  connect_link, Text, Link, PeerState, Room, string_to_addr, should_initiate, peers_of,
  open_control_and_add_peer, start_control, connect_to_peer,
}
use meshconf.Room.Events.{
  admit_hello, update_name, same_name, meet_peer, handle_received_peer_list, read_hello, admit_peer,
  handle_incoming_connection, handle_control_msg, RoomEvent, timer, peer_disconnected,
  incoming_connection, control_msg, step, run,
}
use meshconf.Room.Members.{
  get-add_peer_with_media, IsOf, IsSound, IsTracked, broadcast_peer_list-IsSound, replaced-IsSound,
  add_peer_with_media-IsSound, handle_peer_disconnected-IsSound,
}

module _ (F : Type 0) (text : Text) (json : Json (ControlMessage F)) where
  open text use {Addr, parse_key}

  weak :
      (s : Room F Addr)
      → IsSound s
      → (id n : ℕ) → All (λ t. IsTracked s.peers s.cancelled t ⊎ IsOf id n t) s.tasks
  weak s v id n =
      All-map (IsTracked s.peers s.cancelled) (λ t. IsTracked s.peers s.cancelled t ⊎ IsOf id n t)
        s.tasks (λ t h. inl h) v.tracked

  -- A handshake that succeeds adds the peer.
  pub open_control-IsSound :
      (id : ℕ) (link : Link) (addr : Addr) (s : Room F Addr)
      → contains id s.peers ≡ false
      → IsSound s
      → let (s', result) = open_control_and_add_peer F text json id link addr s in
        IsSound s' × (result ≢ none → get id s'.peers ≢ none)
  unfolding open_control_and_add_peer
  open_control-IsSound id link addr s h v = elim (Bool-cases link.works) [
    | inr w ↦ rw (open_control_and_add_peer, w) (v, λ ne. absurd (ne refl))
    | inl w ↦ elim (Option-cases (peers_of F text json (read_control_msg json link.control))) [
      | inl e ↦
          rw (open_control_and_add_peer, w, e)
            (
              record { audio = v.audio; video = v.video; tracked = v.tracked },
              λ ne. absurd (ne refl),
            )
      | inr (peers, e) ↦
          rw (open_control_and_add_peer, w, e)
            (
              add_peer_with_media-IsSound F text json id link.conn s.next_session addr none [] _ h
                  v.audio v.video (weak s v id s.next_session),
              λ ne.
                  get-add_peer_with_media F text json id link.conn s.next_session addr none [] _ h,
            )
    ]
  ]

  pub start_control-IsSound :
      (id conn : ℕ) (s : Room F Addr)
      → get id s.peers ≢ none
      → IsSound s
      → IsSound (start_control F text json id conn s)
  unfolding start_control
  start_control-IsSound id conn s ne v = elim (Option-cases (get id s.peers)) [
    | inl e ↦ absurd (ne e)
    | inr (st, e) ↦
        rw (start_control, e)
          (replaced-IsSound F text json id (record st { control_send = some conn }) s _ (rw e refl)
            (rw e refl) refl refl refl refl (inr (rw e refl), v.tracked) v)
  ]

  update_name-IsSound :
      (id : ℕ) (name : List ℕ) (st : PeerState Addr) (s : Room F Addr)
      → get id s.peers ≡ some st
      → IsSound s
      → IsSound (update_name F text json id name st s)
  unfolding update_name
  update_name-IsSound id [] st s e v = v
  update_name-IsSound id (c ∷ cs) st s e v =
      if_cases IsSound (same_name F text json st.name (c ∷ cs)) (λ k. v)
        (λ k.
          replaced-IsSound F text json id (record st { name = c ∷ cs }) s _ (rw e refl) (rw e refl)
            refl refl refl refl v.tracked v)

  admit_peer-IsSound :
      (link : Link) (addr : Addr) (name : List ℕ) (s : Room F Addr)
      → contains link.remote_id s.peers ≡ false
      → IsSound s
      → IsSound (admit_peer F text json link addr name s)
  unfolding admit_peer
  admit_peer-IsSound link addr name s h v = broadcast_peer_list-IsSound F text json _ (
      add_peer_with_media-IsSound F text json link.remote_id link.conn s.next_session addr
        (some link.conn) name _ h v.audio v.video
        (inr (refl, refl), weak s v link.remote_id s.next_session))

  hello-IsSound :
      (link : Link) (o : Option (List ℕ × List ℕ)) (s : Room F Addr)
      → contains link.remote_id s.peers ≡ false
      → IsSound s
      → IsSound (admit_hello F text json link o s)
  unfolding admit_hello
  hello-IsSound link none s h v = v
  hello-IsSound link (some (addr_str, name)) s h v =
      elim (Option-cases (string_to_addr F text json addr_str)) [
        | inl e ↦ rw (admit_hello, e) v
        | inr (addr, e) ↦ rw (admit_hello, e) (admit_peer-IsSound link addr name s h v)
      ]

  handle_incoming_connection-IsSound :
      (link : Link) (s : Room F Addr)
      → IsSound s
      → IsSound (handle_incoming_connection F text json link s)
  unfolding handle_incoming_connection
  handle_incoming_connection-IsSound link s v =
      if_cases IsSound (contains link.remote_id s.peers) (λ k. v)
        (λ new.
          if_cases IsSound link.works
            (λ w. hello-IsSound link (read_hello F text json link.control) s new v) (λ w. v))

  linked-IsSound :
      (id : ℕ) (link : Link) (addr : Addr) (s : Room F Addr)
      → contains id s.peers ≡ false
      → IsSound s
      → IsSound (connect_link F text json id link addr s)
  unfolding connect_link
  linked-IsSound id link addr s new v =
      let s1 : Room F Addr = (open_control_and_add_peer F text json id link addr s).0 in
      let (sound, added) = open_control-IsSound id link addr s new v in
      elim (Option-cases (open_control_and_add_peer F text json id link addr s).1) [
        | inl e ↦ rw (connect_link, e) sound
        | inr (peers, e) ↦
            rw (connect_link, e)
              (broadcast_peer_list-IsSound F text json _
                (start_control-IsSound id link.conn s1 (added (rw e (λ k. ground arith))) sound))
      ]

  connect_to_peer-IsSound :
      (dial : Addr → Option Link) (id : ℕ) (addr : Addr) (s : Room F Addr)
      → IsSound s
      → IsSound (connect_to_peer F text json dial id addr s)
  unfolding connect_to_peer
  connect_to_peer-IsSound dial id addr s v =
      if_cases IsSound (contains id s.peers) (λ k. v)
        (λ new. elim (Option-cases (dial addr)) [
          | inl e ↦ rw e v
          | inr (link, e) ↦ rw e (linked-IsSound id link addr s new v)
        ])

  meet_peer-IsSound :
      (dial : Addr → Option Link) (id : ℕ) (info : PeerInfo) (s : Room F Addr)
      → IsSound s
      → IsSound (meet_peer F text json dial id info s)
  unfolding meet_peer
  meet_peer-IsSound dial id info s v =
      if_cases IsSound (id == s.our_id) (λ k. v)
        (λ other. elim (Option-cases (get id s.peers)) [
          | inr (st, e) ↦ rw e (update_name-IsSound id info.name st s e v)
          | inl e ↦ rw e (elim (Option-cases (string_to_addr F text json info.addr)) [
            | inl a ↦ rw a v
            | inr (addr, a) ↦ rw a (
                if_cases IsSound (should_initiate s.our_id id)
                  (λ k. connect_to_peer-IsSound dial id addr s v) (λ k. v))
          ])
        ])

  pub handle_received_peer_list-IsSound :
      (dial : Addr → Option Link) (infos : List PeerInfo) (s : Room F Addr)
      → IsSound s
      → IsSound (handle_received_peer_list F text json dial infos s)
  unfolding handle_received_peer_list
  handle_received_peer_list-IsSound dial [] s v = v
  handle_received_peer_list-IsSound dial (info ∷ infos) s v =
      elim (Option-cases (parse_key info.peer_id)) [
        | inl e ↦
            rw (handle_received_peer_list, e) (handle_received_peer_list-IsSound dial infos s v)
        | inr (id, e) ↦
            rw (handle_received_peer_list, e)
              (handle_received_peer_list-IsSound dial infos _ (meet_peer-IsSound dial id info s v))
      ]

  step-IsSound :
      (event : RoomEvent F text json) (s : Room F Addr)
      → IsSound s
      → IsSound (step F text json event s)
  unfolding step handle_control_msg
  step-IsSound timer s v = broadcast_peer_list-IsSound F text json s v
  step-IsSound (peer_disconnected id) s v =
      broadcast_peer_list-IsSound F text json _
        (handle_peer_disconnected-IsSound F text json id s v)
  step-IsSound (incoming_connection link) s v = handle_incoming_connection-IsSound link s v
  step-IsSound (control_msg dial (peer_list peers)) s v =
      handle_received_peer_list-IsSound dial peers s v
  step-IsSound (control_msg dial (congestion_feedback received dropped lost jitter)) s v = record {
    audio = v.audio;
    video = v.video;
    tracked = v.tracked;
  }
  step-IsSound (control_msg dial (hello addr name)) s v = v

  pub run-IsSound :
      (events : List (RoomEvent F text json)) (s : Room F Addr)
      → IsSound s
      → IsSound (run F text json events s)
  unfolding run
  run-IsSound [] s v = v
  run-IsSound (event ∷ events) s v =
      run-IsSound events (step F text json event s) (step-IsSound event s v)
