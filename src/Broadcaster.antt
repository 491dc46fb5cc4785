-- ===== src/Broadcaster.antt =====
-- src/broadcaster.rs: the peers that encoded media goes to. A peer is its key and a connection a
-- number.
use meshconf.Prelude.{
  ◌≢◌, ◌⊎◌, ◌==◌, ℕ, ◌+◌, ◌-◌, ◌≤◌, ◌<◌, ◌≡◌, Bool, true, false, ◌&&◌, Option, none, some, List, [],
  ◌∷◌, ltb, if◌then◌else◌, arith, length,
}
use meshconf.Prelude.HashMap.{get, put, remove, get-put, get-remove}
use meshconf.Protocol.Datagram.{encode_audio_datagram}

abbrev pub max_send_age_audio_us : ℕ
max_send_age_audio_us = 60_000

-- `force_keyframe` is the flag of the encoder, where the broadcaster has one.
pub record Broadcaster : Type 0 where
  pub peers : List (ℕ × ℕ)
  pub force_keyframe : Option Bool

abbrev pub Broadcaster_new : Broadcaster
Broadcaster_new = record { peers = []; force_keyframe = none }

abbrev pub Broadcaster_new_with_keyframe : Bool → Broadcaster
Broadcaster_new_with_keyframe flag = record { peers = []; force_keyframe = some flag }

abbrev raise_flag : Option Bool → Option Bool
raise_flag none = none
raise_flag (some flag) = some true

unfoldable pub add_peer : ℕ → ℕ → Broadcaster → Broadcaster
add_peer id conn b = record {
  peers = put id conn b.peers;
  force_keyframe = raise_flag b.force_keyframe;
}

unfoldable pub remove_peer : ℕ → Broadcaster → Broadcaster
remove_peer id b = record b { peers = remove id b.peers }

abbrev pub peer_count : Broadcaster → ℕ
peer_count b = length b.peers

-- The peers for which sending fails.
abbrev pub failures : (ℕ → Bool) → List (ℕ × ℕ) → List ℕ
failures accepts [] = []
failures accepts ((id, conn) ∷ ps) =
    if accepts conn then failures accepts ps else id ∷ failures accepts ps

abbrev pub deliveries : (ℕ → Bool) → List ℕ → List (ℕ × ℕ) → List (ℕ × List ℕ)
deliveries accepts datagram [] = []
deliveries accepts datagram ((id, conn) ∷ ps) =
    if accepts conn
    then (conn, datagram) ∷ deliveries accepts datagram ps
    else deliveries accepts datagram ps

-- The datagrams that were taken, each with its connection, and the peers that failed. `accepts` tells
-- which connections take a datagram, and `now` is the clock.
unfoldable pub send_audio_datagram_to_all :
    (ℕ → Bool) → ℕ → ℕ → List ℕ → Broadcaster → List (ℕ × List ℕ) × List ℕ
unfolding encode_audio_datagram
send_audio_datagram_to_all accepts now capture_timestamp_us payload b =
    if ltb 0 capture_timestamp_us && ltb max_send_age_audio_us (now - capture_timestamp_us)
    then ([], [])
    else let datagram = encode_audio_datagram capture_timestamp_us payload in
      (deliveries accepts datagram b.peers, failures accepts b.peers)

accounted :
    (accepts : ℕ → Bool) (datagram : List ℕ) (ps : List (ℕ × ℕ))
    → length (deliveries accepts datagram ps) + length (failures accepts ps) ≡ length ps
accounted accepts datagram [] = omega arith
accounted accepts datagram ((id, conn) ∷ ps) = ground (arith, accounted accepts datagram ps)

-- A frame of audio that is at most 60 ms old, or has no timestamp, is taken by the connection of a
-- peer or the peer is reported, for each peer; an older one goes to nobody.
pub send_audio_datagram_to_all_counts :
    (accepts : ℕ → Bool) (now ts : ℕ) (payload : List ℕ) (b : Broadcaster)
    → let (sent, failed) = send_audio_datagram_to_all accepts now ts payload b in
      ((ts ≡ 0) ⊎ (now ≤ ts + 60_000) → length sent + length failed ≡ peer_count b)
      × (0 < ts → ts + 60_000 < now → (sent ≡ []) × (failed ≡ []))
unfolding send_audio_datagram_to_all
send_audio_datagram_to_all_counts accepts now ts payload b =
    ground (arith, accounted accepts (encode_audio_datagram ts payload) b.peers)

-- The connections that a broadcaster knows are those of the peers added and not removed; adding a
-- peer asks the encoder for a keyframe, where the broadcaster has its flag.
pub get-add_peer :
    (id conn i : ℕ) (b : Broadcaster)
    → (get i (add_peer id conn b).peers ≡ (if i == id then some conn else get i b.peers))
      × (get i (remove_peer id b).peers ≡ (if i == id then none else get i b.peers))
      × ((add_peer id conn b).force_keyframe ≢ some false)
unfolding add_peer remove_peer
get-add_peer id conn i b = (get-put id conn i b.peers, get-remove id i b.peers, ground arith)
