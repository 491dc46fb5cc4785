-- ===== src/Protocol/Extension.antt =====
-- src/protocol.rs: the codec identifiers and the LOC extension headers of an object.
pub mod Parse
use meshconf.Prelude.{
  ℕ, zero, suc, ◌%◌, ◌<◌, ◌≤◌, ◌≡◌, Option, none, some, List, [], ◌∷◌, ◌++◌, length, drop, ltb,
  ◌==◌, if◌then◌else◌, Result, ok, err, ◌>>=◌, extension_truncated, fuel_spent, arith,
  length-append,
}
use meshconf.Protocol.Varint.{varint_bytes, decode_varint_from_slice}
use meshconf.Protocol.Varint.RoundTrip.{length-varint_bytes}

abbrev pub loc_ext_capture_timestamp : ℕ
loc_ext_capture_timestamp = 2

abbrev pub loc_ext_codec : ℕ
loc_ext_codec = 4

pub data Codec : Type 0 where
  av1 hevc : Codec

-- `c as u64`.
abbrev pub codec_id : Codec → ℕ
codec_id av1 = 0
codec_id hevc = 1

abbrev pub Codec_from_u64 : ℕ → Option Codec
Codec_from_u64 v = if v == 0 then some av1 else if v == 1 then some hevc else none

-- `buf[..pos]` at the end. The array has 32 bytes, and a write past them would panic.
unfoldable pub build_extension_headers : ℕ → Option Codec → List ℕ
unfolding varint_bytes
build_extension_headers capture_timestamp_us none =
    varint_bytes loc_ext_capture_timestamp ++ varint_bytes capture_timestamp_us
build_extension_headers capture_timestamp_us (some c) =
    varint_bytes loc_ext_capture_timestamp
    ++ (varint_bytes capture_timestamp_us
        ++ (varint_bytes loc_ext_codec ++ varint_bytes (codec_id c)))

pub record ExtensionValues : Type 0 where
  pub capture_timestamp_us : ℕ
  pub codec : Option Codec

-- The value of an even-typed header, which is one varint.
abbrev pub set_value : ℕ → ℕ → ExtensionValues → ExtensionValues
set_value header_type value vals =
    if header_type == loc_ext_capture_timestamp
    then record vals { capture_timestamp_us = value }
    else if header_type == loc_ext_codec
    then record vals { codec = Codec_from_u64 value }
    else vals

-- `while !data.is_empty()`.
pub parse_loop : ℕ → List ℕ → ExtensionValues → Result ExtensionValues
parse_loop fuel [] vals = ok vals
parse_loop zero (b ∷ bs) vals = err fuel_spent
parse_loop (suc fuel) (b ∷ bs) vals = do
  (header_type, rest) ← decode_varint_from_slice (b ∷ bs)
  if header_type % 2 == 0
      then (do
        (value, rest') ← decode_varint_from_slice rest
        parse_loop fuel rest' (set_value header_type value vals))
      else (do
        (len, rest') ← decode_varint_from_slice rest
        if ltb (length rest') len
            then err extension_truncated
            else parse_loop fuel (drop len rest') vals)

abbrev pub no_extensions : ExtensionValues
no_extensions = record { capture_timestamp_us = 0; codec = none }

-- Every round takes bytes, so the length of the input is fuel enough.
pub parse_extension_headers : List ℕ → Result ExtensionValues
parse_extension_headers data_bytes = parse_loop (length data_bytes) data_bytes no_extensions

-- The buffer is large enough.
pub length-build_extension_headers :
    (ts : ℕ) (codec : Option Codec)
    → (2 ≤ length (build_extension_headers ts codec))
      × (length (build_extension_headers ts codec) ≤ 32)
unfolding build_extension_headers
length-build_extension_headers ts none = ground (
  arith,
  length-append (varint_bytes 2) (varint_bytes ts),
  length-varint_bytes 2,
  length-varint_bytes ts,
)
length-build_extension_headers ts (some c) = ground (
  arith,
  length-append (varint_bytes 2) (varint_bytes ts ++ (varint_bytes 4 ++ varint_bytes (codec_id c))),
  length-append (varint_bytes ts) (varint_bytes 4 ++ varint_bytes (codec_id c)),
  length-append (varint_bytes 4) (varint_bytes (codec_id c)),
  length-varint_bytes 2,
  length-varint_bytes ts,
  length-varint_bytes 4,
  length-varint_bytes (codec_id c),
)
