-- ===== src/Protocol/Datagram.antt =====
-- src/protocol.rs, "Audio datagram framing".
use meshconf.Prelude.{ℕ, ◌%◌, ◌^◌, ◌≡◌, refl, none, List, [], ◌++◌, Result, ok, ◌>>=◌, IsU64}
use meshconf.Protocol.Varint.{varint_bytes, decode_varint_from_slice}
use meshconf.Protocol.Varint.RoundTrip.{decode_varint_from_slice-varint_bytes}
use meshconf.Protocol.Object.{MediaObject}

-- The buffer is cleared first, so what it held does not show.
unfoldable pub encode_audio_datagram_into : ℕ → List ℕ → List ℕ → List ℕ
unfolding varint_bytes
encode_audio_datagram_into capture_timestamp_us payload buf =
    let buf1 = [] in let buf2 = buf1 ++ varint_bytes capture_timestamp_us in buf2 ++ payload

-- The same bytes, from a pooled buffer that is empty.
unfoldable pub encode_audio_datagram : ℕ → List ℕ → List ℕ
unfolding varint_bytes
encode_audio_datagram capture_timestamp_us payload =
    ([] ++ varint_bytes capture_timestamp_us) ++ payload

abbrev pub audio_object : ℕ → List ℕ → MediaObject
audio_object ts payload = record {
  group_id = 0;
  subgroup_id = 0;
  object_id = 0;
  capture_timestamp_us = ts;
  codec = none;
  payload = payload;
}

unfoldable pub decode_audio_datagram : List ℕ → Result MediaObject
decode_audio_datagram bytes = do
  (capture_timestamp_us, rest) ← decode_varint_from_slice bytes
  ok (audio_object capture_timestamp_us rest)

-- A datagram decodes to the payload, also an empty one, and to the low 62 bits of the timestamp.
pub decode_audio_datagram-encode :
    (ts : ℕ) (payload buf : List ℕ)
    → IsU64 ts
    → (decode_audio_datagram (encode_audio_datagram ts payload)
        ≡ ok (audio_object (ts % 2 ^ 62) payload))
      × (decode_audio_datagram (encode_audio_datagram_into ts payload buf)
          ≡ ok (audio_object (ts % 2 ^ 62) payload))
unfolding decode_audio_datagram encode_audio_datagram encode_audio_datagram_into
decode_audio_datagram-encode ts payload buf h =
    rw (decode_varint_from_slice-varint_bytes ts payload h) (refl, refl)
