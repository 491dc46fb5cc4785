-- ===== src/Room/Events.antt =====
-- src/room.rs: the events of a room, and its loop.
use meshconf.Prelude.{
  Outlet, offer, ℕ, suc, Bool, true, false, Option, none, some, List, [], ◌∷◌, ◌++◌, ◌==◌,
  if◌then◌else◌, ok, err,
}
use meshconf.Prelude.HashMap.{get, put, contains}
use meshconf.Protocol.Stream.{Reader, read_u8}
use meshconf.Control.{
  ControlMessage, hello, peer_list, congestion_feedback, PeerInfo, Json, read_control_msg,
  stream_type_control,
}
use meshconf.Broadcaster.{Broadcaster, Broadcaster_new, remove_peer}
use meshconf.Compositor.{CompositorCommand, ConnectionKind}
use meshconf.Room.{
  Text, should_initiate, control_reader, Link, PeerState, Room, string_to_addr, build_peer_list,
  broadcast_peer_list, add_peer_with_media, handle_peer_disconnected, hello_of,
  open_control_and_add_peer, start_control, connect_to_peer,
}

module _ (F : Type 0) (text : Text) (json : Json (ControlMessage F)) where
  open text use {Addr, parse_key}

  -- `state.name != info.name` of two names.
  abbrev pub same_name : List ℕ → List ℕ → Bool
  same_name [] [] = true
  same_name [] (y ∷ ys) = false
  same_name (x ∷ xs) [] = false
  same_name (x ∷ xs) (y ∷ ys) = if x == y then same_name xs ys else false

  -- The new name of a peer that is known: an empty one is not taken.
  unfoldable pub update_name : ℕ → List ℕ → PeerState Addr → Room F Addr → Room F Addr
  update_name peer_id [] state s = s
  update_name peer_id (c ∷ cs) state s = if same_name state.name (c ∷ cs) then s else record s {
    peers = put peer_id (record state { name = c ∷ cs }) s.peers;
    compositor_cmd_tx =
        offer (CompositorCommand.set_peer_name peer_id (c ∷ cs)) s.compositor_cmd_tx;
  }

  unfoldable pub meet_peer : (Addr → Option Link) → ℕ → PeerInfo → Room F Addr → Room F Addr
  unfolding update_name should_initiate connect_to_peer string_to_addr
  meet_peer dial peer_id info s = if peer_id == s.our_id then s else elim (get peer_id s.peers) [
    | some state ↦ update_name peer_id info.name state s
    | none ↦ elim (string_to_addr F text json info.addr) [
      | none ↦ s
      | some addr ↦
          if should_initiate s.our_id peer_id
          then connect_to_peer F text json dial peer_id addr s
          else s
    ]
  ]

  unfoldable pub handle_received_peer_list :
      (Addr → Option Link) → List PeerInfo → Room F Addr → Room F Addr
  unfolding meet_peer
  handle_received_peer_list dial [] s = s
  handle_received_peer_list dial (info ∷ infos) s = elim (parse_key info.peer_id) [
    | none ↦ handle_received_peer_list dial infos s
    | some peer_id ↦ handle_received_peer_list dial infos (meet_peer dial peer_id info s)
  ]

  -- The tag and the Hello of a control stream that was accepted.
  unfoldable pub read_hello : Reader → Option (List ℕ × List ℕ)
  unfolding read_u8
  read_hello r = elim (read_u8 r) [
    | err e ↦ none
    | ok (tag, r1) ↦
        if tag == stream_type_control then hello_of F text json (read_control_msg json r1) else none
  ]

  -- The peer list that is sent does not hold the newcomer yet; the broadcast at the end does.
  unfoldable pub admit_peer : Link → Addr → List ℕ → Room F Addr → Room F Addr
  unfolding add_peer_with_media broadcast_peer_list
  admit_peer link addr name s =
      let session = s.next_session in
      let s1 : Room F Addr = record s {
        outbox = (link.conn, build_peer_list F text json s) ∷ s.outbox;
        next_session = suc session;
        tasks = (control_reader, link.remote_id, session) ∷ s.tasks;
      } in
      broadcast_peer_list F text json (
        add_peer_with_media F text json link.remote_id link.conn addr session (some link.conn) name
          s1)

  unfoldable pub admit_hello : Link → Option (List ℕ × List ℕ) → Room F Addr → Room F Addr
  unfolding admit_peer string_to_addr
  admit_hello link none s = s
  admit_hello link (some (addr_str, name)) s = elim (string_to_addr F text json addr_str) [
    | none ↦ s
    | some addr ↦ admit_peer link addr name s
  ]

  -- Every error leaves the room as it is.
  unfoldable pub handle_incoming_connection : Link → Room F Addr → Room F Addr
  unfolding read_hello admit_hello
  handle_incoming_connection link s =
      if contains link.remote_id s.peers
      then s
      else if link.works
      then admit_hello link (read_hello link.control) s
      else s

  -- The handshake with the initial peer, and what its list leads to. `none` is for an error, which
  -- ends the room.
  unfoldable pub join_link : (Addr → Option Link) → Link → Addr → Room F Addr → Option (Room F Addr)
  unfolding open_control_and_add_peer start_control handle_received_peer_list
  join_link dial link addr s =
      let (s1, result) = open_control_and_add_peer F text json link.remote_id link addr s in
      elim result [
        | none ↦ none
        | some initial_peers ↦ some (
            handle_received_peer_list dial initial_peers
              (start_control F text json link.remote_id link.conn s1))
      ]

  unfoldable pub join_via_peer : (Addr → Option Link) → Addr → Room F Addr → Option (Room F Addr)
  unfolding join_link
  join_via_peer dial addr s = elim (dial addr) [
    | none ↦ none
    | some link ↦ join_link dial link addr s
  ]

  -- What `run` does before its loop: it joins the initial peer, where there is one.
  unfoldable pub open_room : (Addr → Option Link) → Option Addr → Room F Addr → Option (Room F Addr)
  unfolding join_via_peer
  open_room dial none s = some s
  open_room dial (some addr) s = join_via_peer dial addr s

  abbrev pub offer_feedback : F × ℕ → Option (Outlet (F × ℕ)) → Option (Outlet (F × ℕ))
  offer_feedback a none = none
  offer_feedback a (some tx) = some (offer a tx)

  unfoldable pub handle_control_msg :
      (Addr → Option Link) → ControlMessage F → Room F Addr → Room F Addr
  handle_control_msg dial (peer_list peers) s = handle_received_peer_list dial peers s
  handle_control_msg dial (congestion_feedback received dropped lost jitter) s = record s {
    bw_tx = offer_feedback (lost, jitter) s.bw_tx;
  }
  handle_control_msg dial (hello addr name) s = s

  -- The turns of the loop; `dial` is what the network does in that turn.
  pub data RoomEvent : Type 0 where
    timer : RoomEvent
    peer_disconnected : ℕ → RoomEvent
    incoming_connection : Link → RoomEvent
    control_msg : (Addr → Option Link) → ControlMessage F → RoomEvent

  unfoldable pub step : RoomEvent → Room F Addr → Room F Addr
  unfolding broadcast_peer_list
  step timer s = broadcast_peer_list F text json s
  step (peer_disconnected peer_id) s =
      broadcast_peer_list F text json (handle_peer_disconnected F text json peer_id s)
  step (incoming_connection link) s = handle_incoming_connection link s
  step (control_msg dial msg) s = handle_control_msg dial msg s

  unfoldable pub run : List RoomEvent → Room F Addr → Room F Addr
  run [] s = s
  run (event ∷ events) s = run events (step event s)

  abbrev pub remove_all : List (ℕ × PeerState Addr) → Broadcaster → Broadcaster
  remove_all [] b = b
  remove_all ((id, state) ∷ ps) b = remove_all ps (remove_peer id b)

  abbrev pub sessions_of : List (ℕ × PeerState Addr) → List ℕ
  sessions_of [] = []
  sessions_of ((id, state) ∷ ps) = state.session_cancel ∷ sessions_of ps

  unfoldable pub cleanup_all_peers : Room F Addr → Room F Addr
  unfolding remove_peer
  cleanup_all_peers s = record s {
    peers = [];
    cancelled = sessions_of s.peers ++ s.cancelled;
    audio_broadcaster = remove_all s.peers s.audio_broadcaster;
    video_broadcaster = remove_all s.peers s.video_broadcaster;
  }

  -- The room before its loop. The compositor's channel holds ten commands.
  unfoldable pub Room_new : ℕ → Addr → List ℕ → Broadcaster → Option (Outlet (F × ℕ)) → Room F Addr
  Room_new our_id our_addr our_name video_broadcaster bw_tx = record {
    our_id = our_id;
    our_addr = our_addr;
    our_name = our_name;
    peers = [];
    audio_broadcaster = Broadcaster_new;
    video_broadcaster = video_broadcaster;
    compositor_cmd_tx =
        offer (CompositorCommand.set_connection_kind our_id ConnectionKind.local) (
          offer (CompositorCommand.set_peer_name our_id our_name)
            (record { sent = []; free = 10 }));
    bw_tx = bw_tx;
    next_session = 0;
    cancelled = [];
    tasks = [];
    outbox = [];
  }
