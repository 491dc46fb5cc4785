-- ===== src/Room/Tests.antt =====
-- Runs of a room of src/room.rs, with keys and addresses that are written as numbers.
use meshconf.Prelude.{
  inr, ◌*◌, ◌/◌, length, ◌∙◌, ok, ℕ, ◌≡◌, refl, true, false, Option, none, some, List, [], ◌∷◌, All,
  arith,
}
use meshconf.Prelude.HashMap.{get}
use meshconf.Protocol.Stream.{finished, feed}
use meshconf.Control.{read_control_msg, hello, peer_list, write_control_msg}
use meshconf.Control.Sample.{print, print_infos, sample_json}
use meshconf.Broadcaster.{Broadcaster_new_with_keyframe}
use meshconf.Room.{media_tasks, open_control_and_add_peer, start_control, Text, Link, Room}
use meshconf.Room.Events.{
  handle_received_peer_list, join_link, join_via_peer, open_room, RoomEvent, timer,
  peer_disconnected, incoming_connection, control_msg, run, Room_new, cleanup_all_peers,
}
use meshconf.Room.Members.{IsSound, is_cancelled}
use meshconf.Room.Opening.{run-open_room-IsSound}
use meshconf.Control.Frame.{read_control_msg-write}
use meshconf.Room.Feedback.{Tick, Totals, run_feedback_sender, start, run_feedback_sender-Totals}
use meshconf.Room.Departure.{cleanup_all_peers-stops}

-- Two reports of a session.
abbrev ticks : List Tick
ticks =
    record { counter = record { drops = 1; received = 9 }; opens = true; writes = true }
    ∷ record { counter = record { drops = 4; received = 30 }; opens = true; writes = true }
    ∷ []

abbrev permille : ℕ → ℕ → ℕ
permille part whole = part * 1000 / whole

run_feedback_sender-Totals_example :
    Totals ℕ 0 permille
      (record { drops = 4; received = 30 })
      (run_feedback_sender ℕ 0 permille ticks (start ℕ 0 permille))
run_feedback_sender-Totals_example = run_feedback_sender-Totals ℕ 0 permille ticks (ground arith)

abbrev parse_one : List ℕ → Option ℕ
parse_one [] = none
parse_one (k ∷ ks) = some k

abbrev numbers : Text
numbers = record {
  Addr = ℕ;
  key_to_string = λ k. k ∷ [];
  parse_key = parse_one;
  parse-key_to_string = λ k. refl;
  addr_to_vec = λ a. a ∷ [];
  addr_from_slice = parse_one;
  addr_from_slice-to_vec = λ a. refl;
  encode = λ bytes. bytes;
  decode = λ bytes. some bytes;
  decode-encode = λ bytes. refl;
}

-- A connection from the peer 7, which says hello.
abbrev caller : Link
caller = record {
  conn = 70;
  remote_id = 7;
  works = true;
  control = feed (1 ∷ write_control_msg sample_json [] (hello (107 ∷ []) (65 ∷ []))) finished;
}

-- A dial that nobody answers.
abbrev no_answer : ℕ → Option Link
no_answer addr = none

abbrev events : List (RoomEvent ℕ numbers sample_json)
events =
    incoming_connection caller
    ∷ control_msg no_answer
        (peer_list (record { peer_id = 9 ∷ []; addr = 109 ∷ []; name = [] } ∷ []))
    ∷ peer_disconnected 7
    ∷ timer
    ∷ []

-- The peer 3, which answers a dial with an empty list of peers.
abbrev host : Link
host = record {
  conn = 30;
  remote_id = 3;
  works = true;
  control = feed (write_control_msg sample_json [] (peer_list [])) finished;
}

abbrev answer : ℕ → Option Link
answer addr = some host

abbrev fresh : Room ℕ ℕ
fresh = Room_new ℕ numbers sample_json 5 105 (66 ∷ []) (Broadcaster_new_with_keyframe false) none

-- The room that has joined the peer 3.
abbrev opened : Room ℕ ℕ
opened =
    start_control ℕ numbers sample_json 3 30
      (open_control_and_add_peer ℕ numbers sample_json 3 host 103 fresh).0

length-empty_list : length (print (peer_list [])) ≡ 2
unfolding print print_infos
length-empty_list = refl

host_replies : read_control_msg sample_json host.control ≡ ok (peer_list [], finished)
host_replies =
    read_control_msg-write sample_json (peer_list []) finished (omega (arith, length-empty_list))
    ∙ ground (arith, length-empty_list)

host_is_heard : (open_control_and_add_peer ℕ numbers sample_json 3 host 103 fresh).1 ≡ some []
unfolding open_control_and_add_peer
host_is_heard = rw (open_control_and_add_peer, host_replies) refl

open_room-host : open_room ℕ numbers sample_json answer (some 103) fresh ≡ some opened
unfolding open_room join_via_peer join_link handle_received_peer_list
open_room-host = rw (join_link, host_is_heard) refl

run-open_room-IsSound_example : IsSound (run ℕ numbers sample_json events opened)
run-open_room-IsSound_example =
    run-open_room-IsSound ℕ numbers sample_json events answer (some 103) 5 105 (66 ∷ []) false none
      opened open_room-host

-- A room with the peer 7 in its second session.
abbrev joined : Room ℕ ℕ
joined = record {
  our_id = 5;
  our_addr = 105;
  our_name = 66 ∷ [];
  peers =
      (
        7,
        record {
          conn = 71;
          addr = 107;
          name = 65 ∷ [];
          session_cancel = 1;
          control_send = some 71;
        },
      )
      ∷ [];
  audio_broadcaster = record { peers = (7, 71) ∷ []; force_keyframe = none };
  video_broadcaster = record { peers = (7, 71) ∷ []; force_keyframe = some false };
  compositor_cmd_tx = record { sent = []; free = 4 };
  bw_tx = none;
  next_session = 2;
  cancelled = 0 ∷ [];
  tasks = media_tasks 7 1;
  outbox = [];
}

joined-IsSound : IsSound joined
joined-IsSound = record {
  audio = λ k. ground arith;
  video = λ k. ground arith;
  tracked = (inr refl, (inr refl, (inr refl, (inr refl, (inr refl, (inr refl, (inr refl, tt)))))));
}

cleanup_all_peers-stops_example :
    let s = cleanup_all_peers ℕ numbers sample_json joined in
    All (λ t. is_cancelled t.2 s.cancelled ≡ true) s.tasks
    × ((k : ℕ)
        → (get k s.audio_broadcaster.peers ≡ none) × (get k s.video_broadcaster.peers ≡ none))
cleanup_all_peers-stops_example =
    cleanup_all_peers-stops ℕ numbers sample_json joined joined-IsSound
