-- ===== src/Room/Members.antt =====
-- src/room.rs: the peers, the broadcasters and the tasks of a room agree.
use meshconf.Prelude.{
  ℕ, ◌≡◌, ◌≢◌, refl, sym, ap, ◌∙◌, ◌⊎◌, inl, inr, Bool, true, false, Option, none, some, List, [],
  ◌∷◌, ◌==◌, if◌then◌else◌, All, All-map, All-append, arith, Option-cases, Bool-cases,
}
use meshconf.Prelude.HashMap.{get, put, remove, contains, get-put, get-remove}
use meshconf.Control.{ControlMessage, Json}
use meshconf.Broadcaster.{get-add_peer}
use meshconf.Room.{
  Text, TaskKind, PeerState, Room, broadcast_peer_list, add_peer_with_media,
  handle_peer_disconnected, media_tasks,
}

module _ {Addr : Type 0} where
  abbrev conn_of : Option (PeerState Addr) → Option ℕ
  conn_of none = none
  conn_of (some state) = some state.conn

  abbrev session_of : Option (PeerState Addr) → Option ℕ
  session_of none = none
  session_of (some state) = some state.session_cancel

  -- The connection and the session of a peer.
  abbrev pub conn_at : ℕ → List (ℕ × PeerState Addr) → Option ℕ
  conn_at k peers = conn_of (get k peers)

  abbrev pub session_at : ℕ → List (ℕ × PeerState Addr) → Option ℕ
  session_at k peers = session_of (get k peers)

abbrev pub is_cancelled : ℕ → List ℕ → Bool
is_cancelled session [] = false
is_cancelled session (c ∷ cs) = if session == c then true else is_cancelled session cs

-- A task's session was cancelled, or is that of the peer.
abbrev pub IsTracked :
    {Addr : Type 0} → List (ℕ × PeerState Addr) → List ℕ → TaskKind × ℕ × ℕ → Type 0
IsTracked peers cancelled (kind, peer_id, session) =
    (is_cancelled session cancelled ≡ true) ⊎ (session_at peer_id peers ≡ some session)

abbrev pub IsOf : ℕ → ℕ → TaskKind × ℕ × ℕ → Type 0
IsOf id session (kind, p, n) = (p ≡ id) × (n ≡ session)

pub record IsSound {F Addr : Type 0} (s : Room F Addr) : Type 0 where
  pub audio : (k : ℕ) → get k s.audio_broadcaster.peers ≡ conn_at k s.peers
  pub video : (k : ℕ) → get k s.video_broadcaster.peers ≡ conn_at k s.peers
  pub tracked : All (IsTracked s.peers s.cancelled) s.tasks

module _ {Addr : Type 0} where
  get-missing :
      (k : ℕ) (peers : List (ℕ × PeerState Addr)) → contains k peers ≡ false → get k peers ≡ none
  get-missing k [] h = refl
  get-missing k ((i, st) ∷ ps) h = ground (arith, get-missing k ps)

  put-IsTracked :
      (id : ℕ) (st : PeerState Addr) (peers : List (ℕ × PeerState Addr)) (cancelled : List ℕ)
      (t : TaskKind × ℕ × ℕ)
      → (session_at id peers ≡ none) ⊎ (session_at id peers ≡ some st.session_cancel)
      → IsTracked peers cancelled t
      → IsTracked (put id st peers) cancelled t
  put-IsTracked id st peers cancelled (kind, p, n) h (inl c) = inl c
  put-IsTracked id st peers cancelled (kind, p, n) h (inr c) =
      inr (ap session_of (get-put id st p peers) ∙ ground arith)

  session_at-put :
      (id : ℕ) (st : PeerState Addr) (peers : List (ℕ × PeerState Addr))
      → session_at id (put id st peers) ≡ some st.session_cancel
  session_at-put id st peers = ap session_of (get-put id st id peers) ∙ ground arith

  added-IsTracked :
      (id : ℕ) (st : PeerState Addr) (peers : List (ℕ × PeerState Addr)) (cancelled : List ℕ)
      (t : TaskKind × ℕ × ℕ)
      → get id peers ≡ none
      → IsTracked peers cancelled t ⊎ IsOf id st.session_cancel t
      → IsTracked (put id st peers) cancelled t
  added-IsTracked id st peers cancelled t e (inl h) =
      put-IsTracked id st peers cancelled t (inl (ap session_of e)) h
  added-IsTracked id st peers cancelled (kind, p, n) e (inr (hp, hn)) =
      inr (rw (hp, hn) (session_at-put id st peers))

  remove-IsTracked :
      (id : ℕ) (st : PeerState Addr) (peers : List (ℕ × PeerState Addr)) (cancelled : List ℕ)
      (t : TaskKind × ℕ × ℕ)
      → get id peers ≡ some st
      → IsTracked peers cancelled t
      → IsTracked (remove id peers) (st.session_cancel ∷ cancelled) t
  remove-IsTracked id st peers cancelled (kind, p, n) e (inl c) = inl (ground arith)
  remove-IsTracked id st peers cancelled (kind, p, n) e (inr c) = elim (Bool-cases (p == id)) [
    | inl k ↦ inl (ground arith)
    | inr k ↦ inr (ap session_of (get-remove id p peers) ∙ rw k c)
  ]

  conn_at-put :
      (id k : ℕ) (st : PeerState Addr) (peers : List (ℕ × PeerState Addr))
      → conn_at k (put id st peers) ≡ (if k == id then some st.conn else conn_at k peers)
  conn_at-put id k st peers = ap conn_of (get-put id st k peers) ∙ ground arith

  conn_at-remove :
      (id k : ℕ) (peers : List (ℕ × PeerState Addr))
      → conn_at k (remove id peers) ≡ (if k == id then none else conn_at k peers)
  conn_at-remove id k peers = ap conn_of (get-remove id k peers) ∙ ground arith

  -- The connection of a peer that is put back with the same one.
  conn_at-same :
      (id k : ℕ) (st : PeerState Addr) (peers : List (ℕ × PeerState Addr))
      → conn_at id peers ≡ some st.conn
      → conn_at k (put id st peers) ≡ conn_at k peers
  conn_at-same id k st peers h = conn_at-put id k st peers ∙ ground arith

module _ (F : Type 0) (text : Text) (json : Json (ControlMessage F)) where
  open text use {Addr}

  pub broadcast_peer_list-IsSound :
      (s : Room F Addr) → IsSound s → IsSound (broadcast_peer_list F text json s)
  unfolding broadcast_peer_list
  broadcast_peer_list-IsSound s v = record { audio = v.audio; video = v.video; tracked = v.tracked }

  -- A peer with the same connection and session in the place of the old one.
  pub replaced-IsSound :
      (id : ℕ) (st : PeerState Addr) (s s' : Room F Addr)
      → conn_at id s.peers ≡ some st.conn
      → session_at id s.peers ≡ some st.session_cancel
      → s'.peers ≡ put id st s.peers
      → s'.audio_broadcaster ≡ s.audio_broadcaster
      → s'.video_broadcaster ≡ s.video_broadcaster
      → s'.cancelled ≡ s.cancelled
      → All (IsTracked s.peers s.cancelled) s'.tasks
      → IsSound s
      → IsSound s'
  replaced-IsSound id st s s' hc hs ep ea ev ec ht v = record {
    audio = λ k. rw (ea, ep) (v.audio k ∙ sym (conn_at-same id k st s.peers hc));
    video = λ k. rw (ev, ep) (v.video k ∙ sym (conn_at-same id k st s.peers hc));
    tracked =
        rw (ep, ec)
          (All-map (IsTracked s.peers s.cancelled) (IsTracked (put id st s.peers) s.cancelled)
            s'.tasks (λ t. put-IsTracked id st s.peers s.cancelled t (inr hs)) ht);
  }

  -- A new peer is registered with both broadcasters, and its tasks have its session. The tasks
  -- before may have it too.
  pub add_peer_with_media-IsSound :
      (id conn session : ℕ) (addr : Addr) (send : Option ℕ) (name : List ℕ) (s : Room F Addr)
      → contains id s.peers ≡ false
      → ((k : ℕ) → get k s.audio_broadcaster.peers ≡ conn_at k s.peers)
      → ((k : ℕ) → get k s.video_broadcaster.peers ≡ conn_at k s.peers)
      → All (λ t. IsTracked s.peers s.cancelled t ⊎ IsOf id session t) s.tasks
      → IsSound (add_peer_with_media F text json id conn addr session send name s)
  unfolding add_peer_with_media
  add_peer_with_media-IsSound id conn session addr send name s h ha hv ht =
      let missing : get id s.peers ≡ none = get-missing id s.peers h in
      let st : PeerState Addr = record {
        conn = conn;
        addr = addr;
        name = name;
        session_cancel = session;
        control_send = send;
      } in
      rw h (record {
        audio = λ k.
            (get-add_peer id conn k s.audio_broadcaster).0
            ∙ ground (arith, ha k, conn_at-put id k st s.peers);
        video = λ k.
            (get-add_peer id conn k s.video_broadcaster).0
            ∙ ground (arith, hv k, conn_at-put id k st s.peers);
        tracked =
            All-append (IsTracked (put id st s.peers) s.cancelled) (media_tasks id session) s.tasks
              (let new = session_at-put id st s.peers in
                (inr new, (inr new, (inr new, (inr new, (inr new, (inr new, (inr new, tt))))))))
              (All-map (λ t. IsTracked s.peers s.cancelled t ⊎ IsOf id session t)
                (IsTracked (put id st s.peers) s.cancelled) s.tasks
                (λ t. added-IsTracked id st s.peers s.cancelled t missing) ht);
      })

  pub handle_peer_disconnected-IsSound :
      (id : ℕ) (s : Room F Addr) → IsSound s → IsSound (handle_peer_disconnected F text json id s)
  unfolding handle_peer_disconnected
  handle_peer_disconnected-IsSound id s v = elim (Option-cases (get id s.peers)) [
    | inl e ↦ rw (handle_peer_disconnected, e) v
    | inr (st, e) ↦
        rw (handle_peer_disconnected, e)
          (record {
            audio = λ k.
                (get-add_peer id 0 k s.audio_broadcaster).1
                ∙ ground (arith, v.audio k, conn_at-remove id k s.peers);
            video = λ k.
                (get-add_peer id 0 k s.video_broadcaster).1
                ∙ ground (arith, v.video k, conn_at-remove id k s.peers);
            tracked =
                All-map (IsTracked s.peers s.cancelled)
                  (IsTracked (remove id s.peers) (st.session_cancel ∷ s.cancelled)) s.tasks
                  (λ t. remove-IsTracked id st s.peers s.cancelled t e) v.tracked;
          })
  ]

  pub get-add_peer_with_media :
      (id conn session : ℕ) (addr : Addr) (send : Option ℕ) (name : List ℕ) (s : Room F Addr)
      → contains id s.peers ≡ false
      → get id (add_peer_with_media F text json id conn addr session send name s).peers ≢ none
  unfolding add_peer_with_media
  get-add_peer_with_media id conn session addr send name s h = rw h (
      ground (
        arith,
        get-put id
            (record {
              conn = conn;
              addr = addr;
              name = name;
              session_cancel = session;
              control_send = send;
            })
            id s.peers,
      ))
