-- ===== src/Control/Frame.antt =====
-- The frames of src/control.rs: what is written is read, up to the limit on its length.
use meshconf.Prelude.{
  ◌∙◌, sym, inr, inl, Result-cases, ℕ, zero, suc, ◌+◌, ◌%◌, ◌≡◌, ◌≤◌, ◌<◌, refl, List, [], ◌∷◌,
  ◌++◌, length, ltb, if◌then◌else◌, u32_mod, be_bytes32, from_be, ok, err, message_too_large,
  unexpected_eof, arith, All,
}
use mathlib.Core.List.{append_assoc, append-nil}
use meshconf.Protocol.Stream.{
  lost, byte, read_u8, Reader, finished, read_exact, feed, feed-append, read_exact-feed,
}
use meshconf.Control.{Json, write_control_msg, read_control_msg, handle_control_stream}

from_be-be_bytes32 : (n : ℕ) → n < u32_mod → from_be 0 (be_bytes32 n) ≡ n
from_be-be_bytes32 n h = omega arith

module _ {M : Type 0} (json : Json M) where
  open json use {to_vec, from_slice, from_slice-to_vec}

  -- A message that is written is read back, with the rest of the stream left, where its JSON is at
  -- most a million bytes long; where it is longer, but its length fits 32 bits, the reader refuses it.
  pub read_control_msg-write :
      (msg : M) (r : Reader)
      → length (to_vec msg) < u32_mod
      → read_control_msg json (feed (write_control_msg json [] msg) r)
        ≡ (if ltb 1_000_000 (length (to_vec msg)) then err message_too_large else ok (msg, r))
  unfolding read_control_msg write_control_msg
  read_control_msg-write msg r h =
      let size : from_be 0 (be_bytes32 (length (to_vec msg) % u32_mod)) ≡ length (to_vec msg) =
        omega arith in
      rw (size, read_exact-feed (to_vec msg) r, from_slice-to_vec msg)

  -- The messages written to one stream, one behind the other.
  abbrev pub write_msgs : List ℕ → List M → List ℕ
  write_msgs w [] = w
  write_msgs w (msg ∷ msgs) = write_msgs (write_control_msg json w msg) msgs

  write_control_msg-append :
      (w v : List ℕ) (msg : M)
      → write_control_msg json (w ++ v) msg ≡ w ++ write_control_msg json v msg
  unfolding write_control_msg
  write_control_msg-append w v msg = simp append_assoc

  write_msgs-append :
      (w v : List ℕ) (msgs : List M) → write_msgs (w ++ v) msgs ≡ w ++ write_msgs v msgs
  write_msgs-append w v [] = refl
  write_msgs-append w v (msg ∷ msgs) =
      rw (write_control_msg-append w v msg)
        (write_msgs-append w (write_control_msg json v msg) msgs)

  step_written :
      (fuel : ℕ) (r r' : Reader) (msg : M)
      → read_control_msg json r ≡ ok (msg, r')
      → handle_control_stream json (suc fuel) r
        ≡ (let (msgs, e) = handle_control_stream json fuel r' in (msg ∷ msgs, e))
  unfolding handle_control_stream
  step_written fuel r r' msg h = rw (handle_control_stream, h) refl

  -- With more fuel than messages, the loop forwards all the messages written to a stream, in their
  -- order, and ends where the stream is finished, where each message's JSON is at most a million bytes
  -- long.
  pub handle_control_stream-write :
      (msgs : List M) (fuel : ℕ)
      → All (λ msg. length (to_vec msg) ≤ 1_000_000) msgs
      → length msgs < fuel
      → handle_control_stream json fuel (feed (write_msgs [] msgs) finished)
        ≡ (msgs, unexpected_eof)
  unfolding handle_control_stream read_control_msg read_exact
  handle_control_stream-write [] zero h lt = absurd (omega arith)
  handle_control_stream-write [] (suc fuel) h lt = refl
  handle_control_stream-write (msg ∷ msgs) zero h lt = absurd (omega arith)
  handle_control_stream-write (msg ∷ msgs) (suc fuel) h lt =
      let first : List ℕ = write_control_msg json [] msg in
      let rest : Reader = feed (write_msgs [] msgs) finished in
      let split_ : write_msgs first msgs ≡ first ++ write_msgs [] msgs =
        rw (sym (write_msgs-append first [] msgs), append-nil first) in
      let head : read_control_msg json (feed first rest) ≡ ok (msg, rest) =
        read_control_msg-write msg rest (omega (arith, h.0)) ∙ ground (arith, h.0) in
      rw (split_, feed-append first (write_msgs [] msgs) finished)
        (step_written fuel (feed first rest) rest msg head
          ∙ rw (handle_control_stream-write msgs fuel h.1 (omega arith)) refl)

-- How many bytes a reader still gives.
abbrev pub bytes_left : Reader → ℕ
bytes_left finished = 0
bytes_left lost = 0
bytes_left (byte b r) = suc (bytes_left r)

read_exact-bytes_left :
    (n : ℕ) (r r' : Reader) (bs : List ℕ)
    → read_exact n r ≡ ok (bs, r')
    → bytes_left r ≡ n + bytes_left r'
unfolding read_exact read_u8
read_exact-bytes_left zero r r' bs h = ground arith
read_exact-bytes_left (suc n) finished r' bs h = ground arith
read_exact-bytes_left (suc n) lost r' bs h = ground arith
read_exact-bytes_left (suc n) (byte b r) r' bs h = elim (Result-cases (read_exact n r)) [
  | inl (a, e) ↦ ground (arith, e, read_exact-bytes_left n r a.1 a.0)
  | inr (e, k) ↦ ground arith
]

read_control_msg-bytes_left :
    {M : Type 0} (json : Json M) (r r' : Reader) (msg : M)
    → read_control_msg json r ≡ ok (msg, r')
    → bytes_left r' < bytes_left r
unfolding read_control_msg
read_control_msg-bytes_left json r r' msg h = elim (Result-cases (read_exact 4 r)) [
  | inr (e, k) ↦ ground arith
  | inl ((len_buf, r1), k) ↦ elim (Result-cases (read_exact (from_be 0 len_buf) r1)) [
    | inr (e, k2) ↦ ground arith
    | inl ((buf, r2), k2) ↦ elim (Result-cases (json.from_slice buf)) [
      | inr (e, k3) ↦ ground arith
      | inl (m, k3) ↦ ground (
        arith,
        read_exact-bytes_left 4 r r1 len_buf k,
        read_exact-bytes_left (from_be 0 len_buf) r1 r2 buf k2,
      )
    ]
  ]
]

-- With more fuel than the stream has bytes, the fuel does not change what the loop does.
pub handle_control_stream_fuel :
    {M : Type 0} (json : Json M) (n m : ℕ) (r : Reader)
    → bytes_left r < n
    → bytes_left r < m
    → handle_control_stream json n r ≡ handle_control_stream json m r
unfolding handle_control_stream
handle_control_stream_fuel json zero m r hn hm = absurd (omega arith)
handle_control_stream_fuel json (suc n) zero r hn hm = absurd (omega arith)
handle_control_stream_fuel json (suc n) (suc m) r hn hm =
    elim (Result-cases (read_control_msg json r)) [
      | inr (e, k) ↦ rw (handle_control_stream, k) refl
      | inl ((msg, r'), k) ↦
          let less : bytes_left r' < bytes_left r = read_control_msg-bytes_left json r r' msg k in
          let same : handle_control_stream json n r' ≡ handle_control_stream json m r' =
            handle_control_stream_fuel json n m r' (omega arith) (omega arith) in
          rw (handle_control_stream, k, same) refl
    ]
