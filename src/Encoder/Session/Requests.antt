-- ===== src/Encoder/Session/Requests.antt =====
-- src/video_encode.rs: the frames that the sessions are given.
use meshconf.Prelude.{inl, refl, Bool, true, Option, List, [], ◌∷◌, Outlet, All}
use meshconf.Bandwidth.{EncoderConfig}
use meshconf.Encoder.{EncodedPacket}
use meshconf.Encoder.Session.{Frame, Conditions, EncodeLoop, turn, start}
use meshconf.Encoder.Session.Coherent.{
  IsForcedFirst, IsPending_up, IsFitting, IsCoherent, turn-IsCoherent,
}

-- What the loop meets: a frame with the configuration of that time, or a peer that joins.
pub data Input : Type 0 where
  captured : Conditions → Frame → Bool → EncoderConfig → Input
  keyframe_wanted : Input

unfoldable pub run : List Input → EncodeLoop → EncodeLoop
run [] s = s
run (captured cond f cancelled c ∷ is) s = run is (turn cond f cancelled c s).1
run (keyframe_wanted ∷ is) s = run is (record s { force_keyframe = true })

run-IsCoherent : (is : List Input) (s : EncodeLoop) → IsCoherent s → IsCoherent (run is s)
unfolding run
run-IsCoherent [] s v = v
run-IsCoherent (captured cond f cancelled c ∷ is) s v =
    run-IsCoherent is (turn cond f cancelled c s).1 (turn-IsCoherent cond f cancelled c s v)
run-IsCoherent (keyframe_wanted ∷ is) s v =
    run-IsCoherent is (record s { force_keyframe = true })
      (record {
        width = v.width;
        height = v.height;
        pool = v.pool;
        pending = IsPending_up s.session_id s.requests;
        forced = v.forced;
        fitting = v.fitting;
      })

-- Whatever configurations the loop meets and whatever fails, each frame that a session is given has
-- the session's size, and the first frame of each session that replaced another, one without frames
-- too, is demanded as a keyframe.
pub run-start-IsForcedFirst :
    (config : Option EncoderConfig) (packet_tx : Outlet EncodedPacket) (is : List Input)
    → let s = run is (start config packet_tx) in All IsFitting s.requests × IsForcedFirst s.requests
unfolding start
run-start-IsForcedFirst config packet_tx is =
    let v : IsCoherent (run is (start config packet_tx)) =
      run-IsCoherent is (start config packet_tx) (record {
        width = λ a. refl;
        height = λ a. refl;
        pool = tt;
        pending = inl refl;
        forced = tt;
        fitting = tt;
      }) in
    (v.fitting, v.forced)
