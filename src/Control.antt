-- ===== src/Control.antt =====
-- src/control.rs: the control messages and their frames, and the loop of src/dispatch.rs and of
-- src/room.rs that reads them from a stream.
pub mod Frame
pub mod Tests
pub mod Sample
use meshconf.Prelude.{
  ℕ, zero, suc, ◌%◌, ◌≡◌, Bool, List, [], ◌∷◌, ◌++◌, length, ltb, if◌then◌else◌, u32_mod,
  be_bytes32, from_be, Result, ok, err, ◌>>=◌, Error, message_too_large, fuel_spent,
}
use meshconf.Protocol.Stream.{Reader, read_exact}

abbrev pub stream_type_control : ℕ
stream_type_control = 0x01

-- A string is its bytes.
pub record PeerInfo : Type 0 where
  pub peer_id : List ℕ
  pub addr : List ℕ
  pub name : List ℕ

-- The fraction that is lost is a floating-point number.
pub data ControlMessage (F : Type 0) : Type 0 where
  hello : List ℕ → List ℕ → ControlMessage F
  peer_list : List PeerInfo → ControlMessage F
  congestion_feedback : ℕ → ℕ → F → ℕ → ControlMessage F

-- `serde_json`. What it prints of a message it reads back, and bytes come out.
pub record Json (M : Type 0) : Type 0 where
  pub to_vec : M → List ℕ
  pub from_slice : List ℕ → Result M
  pub from_slice-to_vec : (m : M) → from_slice (to_vec m) ≡ ok m

module _ {M : Type 0} (json : Json M) where
  open json use {to_vec, from_slice}

  pub write_control_msg : List ℕ → M → List ℕ
  write_control_msg w msg =
      let bytes = to_vec msg in
      let len = be_bytes32 (length bytes % u32_mod) in let w1 = w ++ len in w1 ++ bytes

  pub read_control_msg : Reader → Result (M × Reader)
  unfolding read_exact
  read_control_msg r = do
    (len_buf, r1) ← read_exact 4 r
    let len : ℕ = from_be 0 len_buf
    if ltb 1_000_000 len
        then err message_too_large
        else (do (buf, r2) ← read_exact len r1; msg ← from_slice buf; ok (msg, r2))

  -- The messages that the loop forwards from a stream, with the error that ends it. The receiver
  -- of the channel stays, and nothing is cancelled. A message takes at least four bytes of the
  -- stream, so the fuel of its length is enough.
  pub handle_control_stream : ℕ → Reader → List M × Error
  unfolding read_control_msg
  handle_control_stream zero r = ([], fuel_spent)
  handle_control_stream (suc fuel) r = elim (read_control_msg r) [
    | ok (msg, r') ↦ let (msgs, e) = handle_control_stream fuel r' in (msg ∷ msgs, e)
    | err e ↦ ([], e)
  ]
