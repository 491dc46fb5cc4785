-- ===== src/Protocol/Object/RoundTrip.antt =====
-- Objects that are written and read again.
use meshconf.Prelude.{
  ℕ, ◌%◌, ◌^◌, ◌<◌, ◌≡◌, ◌≢◌, refl, ◌∙◌, Option, some, List, [], ◌∷◌, ◌++◌, length, ok, err, ◌>>=◌,
  unexpected_eof, IsU64, arith, ◌==◌, if◌then◌else◌,
}
use mathlib.Core.List.{append_assoc}
use meshconf.Protocol.Stream.{
  Reader, finished, lost, byte, feed, feed-append, read_exact, read_exact-feed,
}
use meshconf.Protocol.Varint.{varint_bytes, read_varint, decode_varint_first_byte}
use meshconf.Protocol.Varint.RoundTrip.{read_varint-written, read_varint-small}
use meshconf.Protocol.Extension.{
  Codec, build_extension_headers, length-build_extension_headers, ExtensionValues,
}
use meshconf.Protocol.Extension.Parse.{parse_extension_headers-build}
use meshconf.Protocol.Object.{
  write_object, read_extensions, object_of, read_object_body, read_object,
}

write_object_lem :
    (id ts : ℕ) (codec : Option Codec) (payload : List ℕ)
    → write_object [] id ts codec payload
      ≡ varint_bytes id
        ++ (varint_bytes (length (build_extension_headers ts codec))
            ++ (build_extension_headers ts codec ++ (varint_bytes (length payload) ++ payload)))
unfolding write_object
write_object_lem id ts codec payload = simp append_assoc

read_extensions-build :
    (ts : ℕ) (codec : Option Codec) (r : Reader)
    → IsU64 ts
    → read_extensions
        (length (build_extension_headers ts codec))
        (feed (build_extension_headers ts codec) r)
      ≡ ok (record { capture_timestamp_us = ts % 2 ^ 62; codec = codec }, r)
unfolding read_extensions
read_extensions-build ts codec r h = ground (
  arith,
  length-build_extension_headers ts codec,
  read_exact-feed (build_extension_headers ts codec) r,
  parse_extension_headers-build ts codec h,
)

-- On a reader with a byte at least, the object is read through `read_varint`.
read_object-varint :
    (r : Reader) {p : ℕ × Reader}
    → read_varint r ≡ ok p
    → read_object r ≡ (do
      (object_id, r1) ← read_varint r
      (ext_len, r2) ← read_varint r1
      (exts, r3) ← read_extensions ext_len r2
      (payload_len, r4) ← read_varint r3
      if payload_len == 0
          then (do (_status, r5) ← read_varint r4; ok (some (object_of object_id exts []), r5))
          else (do
            (buf, r5) ← read_exact payload_len r4
            ok (some (object_of object_id exts buf), r5)))
unfolding read_object read_object_body read_varint decode_varint_first_byte
read_object-varint finished e = cc
read_object-varint lost e = cc
read_object-varint (byte b r) e = refl

-- Up to the length of the payload, which is where the two cases part.
read_object-payload_len :
    (id ts : ℕ) (codec : Option Codec) (payload : List ℕ) (r : Reader)
    → IsU64 id
    → IsU64 ts
    → length payload < 2 ^ 62
    → let exts : ExtensionValues = record { capture_timestamp_us = ts % 2 ^ 62; codec = codec } in
      read_object (feed (write_object [] id ts codec payload) r) ≡ (
        if length payload == 0
        then (do
          (_status, r') ← read_varint (feed payload r)
          ok (some (object_of (id % 2 ^ 62) exts []), r'))
        else (do
          (buf, r') ← read_exact (length payload) (feed payload r)
          ok (some (object_of (id % 2 ^ 62) exts buf), r')))
read_object-payload_len id ts codec payload r hi ht hp =
    let ext = build_extension_headers ts codec in
    let s3 = varint_bytes (length payload) ++ payload in
    let s2 = ext ++ s3 in
    let s1 = varint_bytes (length ext) ++ s2 in
    let short : length ext < 2 ^ 62 = omega (arith, length-build_extension_headers ts codec) in
    rw (
      write_object_lem id ts codec payload,
      read_object-varint (feed (varint_bytes id ++ s1) r) (read_varint-written id s1 r hi),
      read_varint-written id s1 r hi,
      read_varint-small (length ext) s2 r short,
      feed-append ext s3 r,
      read_extensions-build ts codec (feed s3 r) ht,
      read_varint-small (length payload) payload r hp,
    )

-- An object with a payload of at most 2^62 - 1 bytes is read back, with the low 62 bits of its id and of its timestamp, and
-- the reader stands behind it.
pub read_object-write :
    (id ts : ℕ) (codec : Option Codec) (payload : List ℕ) (r : Reader)
    → IsU64 id
    → IsU64 ts
    → payload ≢ []
    → length payload < 2 ^ 62
    → read_object (feed (write_object [] id ts codec payload) r)
      ≡ ok (
        some (record {
          object_id = id % 2 ^ 62;
          capture_timestamp_us = ts % 2 ^ 62;
          codec = codec;
          payload = payload;
        }),
        r,
      )
read_object-write id ts codec [] r hi ht ne hp = absurd (ne refl)
read_object-write id ts codec (b ∷ bs) r hi ht ne hp =
    read_object-payload_len id ts codec (b ∷ bs) r hi ht hp
    ∙ ground (arith, read_exact-feed (b ∷ bs) r)

-- An object with an empty payload is not read back as a whole: the reader expects a status behind the length, which the
-- writer does not write. On a stream that ends there it fails, and where another object follows
-- it takes that object's id for the status.
pub read_object-write_empty :
    (id ts next_id : ℕ) (codec : Option Codec) (s : List ℕ) (r : Reader)
    → IsU64 id
    → IsU64 ts
    → IsU64 next_id
    → (read_object (feed (write_object [] id ts codec []) finished) ≡ err unexpected_eof)
      × (read_object (feed (write_object [] id ts codec []) (feed (varint_bytes next_id ++ s) r))
          ≡ ok (
            some (record {
              object_id = id % 2 ^ 62;
              capture_timestamp_us = ts % 2 ^ 62;
              codec = codec;
              payload = [];
            }),
            feed s r,
          ))
unfolding read_varint
read_object-write_empty id ts next_id codec s r hi ht hn = (
  read_object-payload_len id ts codec [] finished hi ht (omega arith),
  read_object-payload_len id ts codec [] (feed (varint_bytes next_id ++ s) r) hi ht (omega arith)
      ∙ rw (read_varint-written next_id s r hn),
)
