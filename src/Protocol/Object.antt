-- ===== src/Protocol/Object.antt =====
-- src/protocol.rs, "MoQ Object with LOC extensions". A payload is its bytes; the pool that its
-- buffer comes from is modelled in Pool, and memory is not bounded.
pub mod RoundTrip
use meshconf.Prelude.{
  ℕ, ◌++◌, ◌==◌, ltb, if◌then◌else◌, Option, none, some, List, [], length, Result, ok, err, ◌>>=◌,
  unexpected_eof, extensions_too_large, Error,
}
use meshconf.Protocol.Stream.{Reader, read_u8, read_exact}
use meshconf.Protocol.Varint.{write_varint, read_varint, decode_varint_first_byte}
use meshconf.Protocol.Extension.{
  Codec, build_extension_headers, ExtensionValues, parse_extension_headers, no_extensions,
}

pub record ObjectData : Type 0 where
  pub object_id : ℕ
  pub capture_timestamp_us : ℕ
  pub codec : Option Codec
  pub payload : List ℕ

-- What the receive path hands on.
pub record MediaObject : Type 0 where
  pub group_id : ℕ
  pub subgroup_id : ℕ
  pub object_id : ℕ
  pub capture_timestamp_us : ℕ
  pub codec : Option Codec
  pub payload : List ℕ

pub write_object : List ℕ → ℕ → ℕ → Option Codec → List ℕ → List ℕ
unfolding write_varint
write_object w object_id capture_timestamp_us codec payload =
    let w1 = write_varint w object_id in
    let ext = build_extension_headers capture_timestamp_us codec in
    let w2 = write_varint w1 (length ext) in
    let w3 = w2 ++ ext in let w4 = write_varint w3 (length payload) in w4 ++ payload

-- The extension headers, from a buffer of 64 bytes.
read_extensions : ℕ → Reader → Result (ExtensionValues × Reader)
unfolding read_exact
read_extensions ext_len r =
    if ltb 0 ext_len
    then if ltb 64 ext_len then err extensions_too_large else (do
      (ext_buf, r') ← read_exact ext_len r
      exts ← parse_extension_headers ext_buf
      ok (exts, r'))
    else ok (no_extensions, r)

abbrev object_of : ℕ → ExtensionValues → List ℕ → ObjectData
object_of object_id exts payload = record {
  object_id = object_id;
  capture_timestamp_us = exts.capture_timestamp_us;
  codec = exts.codec;
  payload = payload;
}

-- What follows the first byte of an object.
read_object_body : ℕ → Reader → Result (Option ObjectData × Reader)
unfolding read_extensions read_exact
read_object_body first r0 = do
  (object_id, r1) ← decode_varint_first_byte first r0
  (ext_len, r2) ← read_varint r1
  (exts, r3) ← read_extensions ext_len r2
  (payload_len, r4) ← read_varint r3
  if payload_len == 0
      then (do (_status, r5) ← read_varint r4; ok (some (object_of object_id exts []), r5))
      else (do (buf, r5) ← read_exact payload_len r4; ok (some (object_of object_id exts buf), r5))

-- `none` is a clean end of the stream, before the first byte of an object.
pub read_object : Reader → Result (Option ObjectData × Reader)
unfolding read_object_body
read_object Reader.finished = ok (none, Reader.finished)
read_object Reader.lost = err Error.connection_lost
read_object (Reader.byte first r) = read_object_body first r
