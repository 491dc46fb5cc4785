-- ===== src/Protocol/Tests.antt =====
-- Runs of the code of src/protocol.rs on concrete bytes.
use meshconf.Prelude.{
  ◌%◌, ◌^◌, ◌≡◌, ◌≢◌, refl, none, some, [], ◌∷◌, ◌++◌, ok, err, unexpected_eof, fuel_spent, arith,
}
use meshconf.Protocol.Stream.{finished, lost, feed}
use meshconf.Protocol.Varint.{varint_bytes, decode_varint_from_slice}
use meshconf.Protocol.Varint.RoundTrip.{decode_varint_from_slice-varint_bytes}
use meshconf.Protocol.Extension.{hevc, parse_extension_headers}
use meshconf.Protocol.Extension.Parse.{parse_extension_headers-ne-fuel_spent}
use meshconf.Protocol.Object.{write_object, read_object}
use meshconf.Protocol.Object.RoundTrip.{read_object-write, read_object-write_empty}

varint_two_bytes : varint_bytes 0x1234 ≡ 0x52 ∷ 0x34 ∷ []
unfolding varint_bytes
varint_two_bytes = refl

decode_varint_from_slice-varint_bytes_example :
    decode_varint_from_slice (varint_bytes 300 ++ (7 ∷ [])) ≡ ok (300 % 2 ^ 62, 7 ∷ [])
decode_varint_from_slice-varint_bytes_example =
    decode_varint_from_slice-varint_bytes 300 (7 ∷ []) (omega arith)

parse_extension_headers-ne-fuel_spent_example :
    parse_extension_headers (9 ∷ 2 ∷ 1 ∷ []) ≢ err fuel_spent
parse_extension_headers-ne-fuel_spent_example =
    parse_extension_headers-ne-fuel_spent (9 ∷ 2 ∷ 1 ∷ [])

read_object-write_example :
    read_object (feed (write_object [] 0 1_700_000 (some hevc) (1 ∷ 2 ∷ 3 ∷ [])) lost)
    ≡ ok (
      some (record {
        object_id = 0;
        capture_timestamp_us = 1_700_000;
        codec = some hevc;
        payload = 1 ∷ 2 ∷ 3 ∷ [];
      }),
      lost,
    )
read_object-write_example =
    read_object-write 0 1_700_000 (some hevc) (1 ∷ 2 ∷ 3 ∷ []) lost (omega arith) (omega arith)
      (λ e. ground arith) (omega arith)

read_object-write_empty_example :
    (read_object (feed (write_object [] 0 5 none []) finished) ≡ err unexpected_eof)
    × (read_object (feed (write_object [] 0 5 none []) (feed (varint_bytes 1 ++ (6 ∷ [])) finished))
        ≡ ok (
          some (record { object_id = 0; capture_timestamp_us = 5; codec = none; payload = [] }),
          feed (6 ∷ []) finished,
        ))
read_object-write_empty_example =
    read_object-write_empty 0 5 1 none (6 ∷ []) finished (omega arith) (omega arith) (omega arith)
