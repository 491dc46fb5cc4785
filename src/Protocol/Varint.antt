-- ===== src/Protocol/Varint.antt =====
-- src/protocol.rs, "Varint encoding/decoding": QUIC variable-length integers.
pub mod RoundTrip
use meshconf.Prelude.{
  ℕ, ◌+◌, ◌*◌, ◌/◌, ◌%◌, ◌^◌, ◌<◌, ◌≤◌, bit_and, bit_or, List, [], ◌∷◌, ◌++◌, length, take, drop,
  replicate, ltb, leb, ◌==◌, if◌then◌else◌, Result, ok, err, ◌>>=◌, varint_end, varint_truncated,
  be_bytes16, be_bytes32, be_bytes64, from_be,
}
use meshconf.Protocol.Stream.{Reader, read_exact, read_u8}

-- The array of eight bytes, and how many of them count.
pub encode_varint : ℕ → List ℕ × ℕ
encode_varint val =
    if leb val 0x3f
    then ((val % 2 ^ 8) ∷ replicate 7 0, 1)
    else if leb val 0x3fff
    then (let v = bit_or (val % 2 ^ 16) 0x4000 in (be_bytes16 v ++ replicate 6 0, 2))
    else if leb val 0x3fff_ffff
    then (let v = bit_or (val % 2 ^ 32) 0x8000_0000 in (be_bytes32 v ++ replicate 4 0, 4))
    else let v = bit_or val 0xc000_0000_0000_0000 in (be_bytes64 v, 8)

-- `&buf[..len]`.
unfoldable pub varint_bytes : ℕ → List ℕ
unfolding encode_varint
varint_bytes val = let (buf, len) = encode_varint val in take len buf

unfoldable pub write_varint : List ℕ → ℕ → List ℕ
unfolding varint_bytes
write_varint w val = w ++ varint_bytes val

-- The first byte with its two length bits off, and the bytes behind it, as one number.
abbrev pub join_varint : ℕ → List ℕ → ℕ
join_varint first rest = from_be 0 (bit_and first 0x3f ∷ rest)

-- The four arms of the match; a byte has no other prefix (`unreachable!()`).
unfoldable pub decode_varint_first_byte : ℕ → Reader → Result (ℕ × Reader)
unfolding read_exact read_u8
decode_varint_first_byte first r =
    let prefix = first / 2 ^ 6 in
    if prefix == 0
    then ok (bit_and first 0x3f, r)
    else if prefix == 1
    then (do (second, r') ← read_u8 r; ok (join_varint first (second ∷ []), r'))
    else if prefix == 2
    then (do (rest, r') ← read_exact 3 r; ok (join_varint first rest, r'))
    else (do (rest, r') ← read_exact 7 r; ok (join_varint first rest, r'))

unfoldable pub read_varint : Reader → Result (ℕ × Reader)
unfolding read_exact read_u8
read_varint s = do
  (first, r) ← read_u8 s
  let prefix = first / 2 ^ 6
  if prefix == 0
      then ok (bit_and first 0x3f, r)
      else if prefix == 1
      then (do (second, r') ← read_u8 r; ok (join_varint first (second ∷ []), r'))
      else if prefix == 2
      then (do (rest, r') ← read_exact 3 r; ok (join_varint first rest, r'))
      else (do (rest, r') ← read_exact 7 r; ok (join_varint first rest, r'))

-- From the front of a slice: the value and the remaining bytes.
pub decode_varint_from_slice : List ℕ → Result (ℕ × List ℕ)
decode_varint_from_slice [] = err varint_end
decode_varint_from_slice (first ∷ tail) =
    let size = length (first ∷ tail) in
    let prefix = first / 2 ^ 6 in
    if prefix == 0
    then ok (bit_and first 0x3f, tail)
    else if prefix == 1
    then if ltb size 2
      then err varint_truncated
      else ok (join_varint first (take 1 tail), drop 1 tail)
    else if prefix == 2
    then if ltb size 4
      then err varint_truncated
      else ok (join_varint first (take 3 tail), drop 3 tail)
    else if ltb size 8
    then err varint_truncated
    else ok (join_varint first (take 7 tail), drop 7 tail)
