-- ===== src/Room.antt =====
-- src/room.rs: the membership of a call. A peer is its public key, as in Compositor; a connection and
-- a cancellation token are numbers. The handlers run one at a time. What the network does is given to
-- them: what dialling an address yields, and what a peer sends on a control stream.
pub mod Events
pub mod Members
pub mod Sessions
pub mod Opening
pub mod Departure
pub mod Feedback
pub mod Tests
use meshconf.Prelude.{
  ℕ, zero, suc, ◌+◌, ◌-◌, ◌≡◌, Bool, true, false, not, Option, none, some, List, [], ◌∷◌, ◌++◌, map,
  ltb, ◌==◌, if◌then◌else◌, length, Result, ok, err, Outlet, offer,
}
use meshconf.Prelude.HashMap.{get, put, remove, contains}
use meshconf.Protocol.Stream.{Reader, read_u8}
use meshconf.Control.{
  ControlMessage, hello, peer_list, congestion_feedback, PeerInfo, Json, read_control_msg,
  stream_type_control,
}
use meshconf.Broadcaster.{Broadcaster, Broadcaster_new, add_peer, remove_peer}
use meshconf.Compositor.{CompositorCommand, ConnectionKind}

-- Keys and addresses as text: `iroh`, `serde_json` and `base64`.
pub record Text : Type 1 where
  pub Addr : Type 0
  pub key_to_string : ℕ → List ℕ
  pub parse_key : List ℕ → Option ℕ
  pub parse-key_to_string : (k : ℕ) → parse_key (key_to_string k) ≡ some k
  pub addr_to_vec : Addr → List ℕ
  pub addr_from_slice : List ℕ → Option Addr
  pub addr_from_slice-to_vec : (a : Addr) → addr_from_slice (addr_to_vec a) ≡ some a
  pub encode : List ℕ → List ℕ
  pub decode : List ℕ → Option (List ℕ)
  pub decode-encode : (bytes : List ℕ) → decode (encode bytes) ≡ some bytes

-- The side with the smaller key connects.
unfoldable pub should_initiate : ℕ → ℕ → Bool
should_initiate our_id their_id = ltb our_id their_id

-- The tasks of a peer; each ends when its session is cancelled.
pub data TaskKind : Type 0 where
  control_reader dispatcher jitter_buffer audio_decoder video_decoder feedback_sender : TaskKind
  disconnect_monitor path_watcher : TaskKind

-- A connection with what its control stream yields, and whether it can be opened and written to.
pub record Link : Type 0 where
  pub conn : ℕ
  pub remote_id : ℕ
  pub works : Bool
  pub control : Reader

pub record PeerState (Addr : Type 0) : Type 0 where
  pub conn : ℕ
  pub addr : Addr
  pub name : List ℕ
  pub session_cancel : ℕ
  pub control_send : Option ℕ

-- The tokens up to `next_session` were made, and those of `cancelled` were cancelled. `tasks` holds
-- what was spawned, with the peer and the session. `outbox` holds the messages written, newest first,
-- each with its connection.
pub record Room (F Addr : Type 0) : Type 0 where
  pub our_id : ℕ
  pub our_addr : Addr
  pub our_name : List ℕ
  pub peers : List (ℕ × PeerState Addr)
  pub audio_broadcaster : Broadcaster
  pub video_broadcaster : Broadcaster
  pub compositor_cmd_tx : Outlet CompositorCommand
  pub bw_tx : Option (Outlet (F × ℕ))
  pub next_session : ℕ
  pub cancelled : List ℕ
  pub tasks : List (TaskKind × ℕ × ℕ)
  pub outbox : List (ℕ × ControlMessage F)

abbrev pub media_tasks : ℕ → ℕ → List (TaskKind × ℕ × ℕ)
media_tasks peer_id session =
    (dispatcher, peer_id, session)
    ∷ (jitter_buffer, peer_id, session)
    ∷ (audio_decoder, peer_id, session)
    ∷ (video_decoder, peer_id, session)
    ∷ (feedback_sender, peer_id, session)
    ∷ (disconnect_monitor, peer_id, session)
    ∷ (path_watcher, peer_id, session)
    ∷ []

module _ (F : Type 0) (text : Text) (json : Json (ControlMessage F)) where
  open text use {Addr, key_to_string, parse_key, addr_to_vec, addr_from_slice, encode, decode}

  pub addr_to_string : Addr → List ℕ
  addr_to_string addr = encode (addr_to_vec addr)

  pub string_to_addr : List ℕ → Option Addr
  string_to_addr s = elim (decode s) [ none ↦ none | some bytes ↦ addr_from_slice bytes ]

  abbrev pub peer_info : ℕ × PeerState Addr → PeerInfo
  peer_info (id, state) = record {
    peer_id = key_to_string id;
    addr = encode (addr_to_vec state.addr);
    name = state.name;
  }

  pub build_peer_list : Room F Addr → ControlMessage F
  unfolding addr_to_string
  build_peer_list s = peer_list (
      record {
        peer_id = key_to_string s.our_id;
        addr = addr_to_string s.our_addr;
        name = s.our_name;
      }
      ∷ map peer_info s.peers)

  -- The writes of one message to all peers that have a control stream.
  abbrev pub writes : ControlMessage F → List (ℕ × PeerState Addr) → List (ℕ × ControlMessage F)
  writes msg [] = []
  writes msg ((id, state) ∷ ps) = elim state.control_send [
    | none ↦ writes msg ps
    | some conn ↦ (conn, msg) ∷ writes msg ps
  ]

  unfoldable pub broadcast_peer_list : Room F Addr → Room F Addr
  unfolding build_peer_list
  broadcast_peer_list s = record s { outbox = writes (build_peer_list s) s.peers ++ s.outbox }

  -- The name goes to the compositor, unless it is empty.
  abbrev pub announce : ℕ → List ℕ → Outlet CompositorCommand → Outlet CompositorCommand
  announce peer_id [] tx = tx
  announce peer_id (c ∷ cs) tx = offer (CompositorCommand.set_peer_name peer_id (c ∷ cs)) tx

  unfoldable pub add_peer_with_media :
      ℕ → ℕ → Addr → ℕ → Option ℕ → List ℕ → Room F Addr → Room F Addr
  unfolding add_peer
  add_peer_with_media peer_id conn addr session control_send name s =
      if contains peer_id s.peers then s else record s {
        audio_broadcaster = add_peer peer_id conn s.audio_broadcaster;
        video_broadcaster = add_peer peer_id conn s.video_broadcaster;
        compositor_cmd_tx =
            announce peer_id name (
              offer (CompositorCommand.set_video_drop_counter peer_id session) s.compositor_cmd_tx);
        tasks = media_tasks peer_id session ++ s.tasks;
        peers =
            put peer_id
              (record {
                conn = conn;
                addr = addr;
                name = name;
                session_cancel = session;
                control_send = control_send;
              })
              s.peers;
      }

  unfoldable pub handle_peer_disconnected : ℕ → Room F Addr → Room F Addr
  unfolding remove_peer
  handle_peer_disconnected peer_id s = elim (get peer_id s.peers) [
    | none ↦ s
    | some state ↦ record s {
      peers = remove peer_id s.peers;
      cancelled = state.session_cancel ∷ s.cancelled;
      audio_broadcaster = remove_peer peer_id s.audio_broadcaster;
      video_broadcaster = remove_peer peer_id s.video_broadcaster;
      compositor_cmd_tx = offer (CompositorCommand.remove_peer peer_id) s.compositor_cmd_tx;
    }
  ]

  -- A message that starts a handshake, with the reply that is read: only a peer list will do.
  abbrev pub peers_of : Result (ControlMessage F × Reader) → Option (List PeerInfo)
  peers_of (ok (peer_list peers, r)) = some peers
  peers_of (ok (hello addr name, r)) = none
  peers_of (ok (congestion_feedback received dropped lost jitter, r)) = none
  peers_of (err e) = none

  abbrev pub hello_of : Result (ControlMessage F × Reader) → Option (List ℕ × List ℕ)
  hello_of (ok (hello addr name, r)) = some (addr, name)
  hello_of (ok (peer_list peers, r)) = none
  hello_of (ok (congestion_feedback received dropped lost jitter, r)) = none
  hello_of (err e) = none

  -- `none` for an error.
  unfoldable pub open_control_and_add_peer :
      ℕ → Link → Addr → Room F Addr → Room F Addr × Option (List PeerInfo)
  unfolding add_peer_with_media addr_to_string
  open_control_and_add_peer peer_id link addr s =
      if link.works
      then (let s1 : Room F Addr = record s {
        outbox = (link.conn, hello (addr_to_string s.our_addr) s.our_name) ∷ s.outbox;
      } in
          elim (peers_of (read_control_msg json link.control)) [
            | none ↦ (s1, none)
            | some peers ↦
                let s2 : Room F Addr = record s1 { next_session = suc s1.next_session } in
                (add_peer_with_media peer_id link.conn addr s1.next_session none [] s2, some peers)
          ])
      else (s, none)

  -- The send half is stored, and the control reader spawned.
  unfoldable pub start_control : ℕ → ℕ → Room F Addr → Room F Addr
  start_control peer_id conn s = elim (get peer_id s.peers) [
    | none ↦ record s {
      next_session = suc s.next_session;
      tasks = (control_reader, peer_id, s.next_session) ∷ s.tasks;
    }
    | some state ↦ record s {
      peers = put peer_id (record state { control_send = some conn }) s.peers;
      tasks = (control_reader, peer_id, state.session_cancel) ∷ s.tasks;
    }
  ]

  -- The handshake on a new connection, with what follows it.
  unfoldable pub connect_link : ℕ → Link → Addr → Room F Addr → Room F Addr
  unfolding broadcast_peer_list start_control open_control_and_add_peer
  connect_link peer_id link addr s =
      let (s1, result) = open_control_and_add_peer peer_id link addr s in
      elim result [
        | none ↦ s1
        | some peers ↦ broadcast_peer_list (start_control peer_id link.conn s1)
      ]

  -- `dial` is `net::connect_to_peer`.
  unfoldable pub connect_to_peer : (Addr → Option Link) → ℕ → Addr → Room F Addr → Room F Addr
  unfolding connect_link
  connect_to_peer dial peer_id addr s =
      if contains peer_id s.peers
      then s
      else elim (dial addr) [ none ↦ s | some link ↦ connect_link peer_id link addr s ]
