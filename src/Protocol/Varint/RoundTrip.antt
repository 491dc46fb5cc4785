-- ===== src/Protocol/Varint/RoundTrip.antt =====
-- What the three varint decoders of src/protocol.rs make of what `encode_varint` writes.
use meshconf.Prelude.{
  ℕ, ◌+◌, ◌*◌, ◌/◌, ◌%◌, ◌^◌, ◌<◌, ◌≤◌, ◌≡◌, refl, bit_or, List, [], ◌∷◌, ◌++◌, length, be_bytes32,
  be_bytes64, leb, if◌then◌else◌, Result, ok, err, unexpected_eof, fuel_spent, ◌≢◌, IsU64, IsByte,
  length-drop, arith, ◌⊎◌, inl, inr, ap, ◌∙◌, All,
}
use meshconf.Prelude.Bits.{low_six, bit_or_high, or_top}
use meshconf.Protocol.Stream.{
  Reader, finished, byte, feed, read_exact-finished, read_exact-enough, feed-append,
}
use mathlib.Core.List.{append-nil}
use meshconf.Protocol.Varint.{
  varint_bytes, decode_varint_first_byte, read_varint, decode_varint_from_slice,
}

or_two : (v : ℕ) → v ≤ 0x3fff → bit_or (v % 2 ^ 16) 0x4000 ≡ v + 0x4000
or_two v h =
    let e : v % 2 ^ 16 ≡ 0 * 2 ^ 14 + v = omega arith in
    rw (e, bit_or_high 14 0 1 v (omega arith)) (omega arith)

or_four : (v : ℕ) → v ≤ 0x3fff_ffff → bit_or (v % 2 ^ 32) 0x8000_0000 ≡ v + 0x8000_0000
or_four v h =
    let e : v % 2 ^ 32 ≡ 0 * 2 ^ 30 + v = omega arith in
    rw (e, bit_or_high 30 0 2 v (omega arith)) (omega arith)

or_eight : (v : ℕ) → IsU64 v → bit_or v 0xc000_0000_0000_0000 ≡ v % 2 ^ 62 + 3 * 2 ^ 62
or_eight v h =
    let e : v ≡ v / 2 ^ 62 * 2 ^ 62 + v % 2 ^ 62 = omega arith in
    ap (λ x. bit_or x 0xc000_0000_0000_0000) e
    ∙ bit_or_high 62 (v / 2 ^ 62) 3 (v % 2 ^ 62) (omega arith)
    ∙ rw (or_top (v / 2 ^ 62) (omega arith)) (omega arith)

-- The four layouts, in plain arithmetic.
one_byte : (v : ℕ) → v ≤ 0x3f → varint_bytes v ≡ v ∷ []
unfolding varint_bytes
one_byte v h = ground arith

two_bytes : (v : ℕ) → 0x3f < v → v ≤ 0x3fff → varint_bytes v ≡ (v / 256 + 64) ∷ (v % 256) ∷ []
unfolding varint_bytes
two_bytes v lo hi = ground (arith, or_two v)

four_bytes : (v : ℕ) → 0x3fff < v → v ≤ 0x3fff_ffff → varint_bytes v ≡ be_bytes32 (v + 0x8000_0000)
unfolding varint_bytes
four_bytes v lo hi = ground (arith, or_four v)

eight_bytes :
    (v : ℕ) → 0x3fff_ffff < v → IsU64 v → varint_bytes v ≡ be_bytes64 (v % 2 ^ 62 + 3 * 2 ^ 62)
unfolding varint_bytes
eight_bytes v lo h = ground (arith, or_eight v h)

decode_one : (a : ℕ) (rest : List ℕ) → a < 64 → decode_varint_from_slice (a ∷ rest) ≡ ok (a, rest)
unfolding decode_varint_from_slice
decode_one a rest h = ground (arith, low_six a)

decode_two :
    (a b : ℕ) (rest : List ℕ)
    → a < 64
    → decode_varint_from_slice ((a + 64) ∷ b ∷ rest) ≡ ok (a * 256 + b, rest)
unfolding decode_varint_from_slice
decode_two a b rest h = ground (arith, low_six (a + 64))

decode_four :
    (v : ℕ) (rest : List ℕ)
    → v < 2 ^ 30
    → decode_varint_from_slice (be_bytes32 (v + 0x8000_0000) ++ rest) ≡ ok (v, rest)
unfolding decode_varint_from_slice
decode_four v rest h = ground (arith, low_six ((v + 0x8000_0000) / 2 ^ 24 % 256))

decode_eight :
    (v : ℕ) (rest : List ℕ)
    → v < 2 ^ 62
    → decode_varint_from_slice (be_bytes64 (v + 3 * 2 ^ 62) ++ rest) ≡ ok (v, rest)
unfolding decode_varint_from_slice
decode_eight v rest h = ground (arith, low_six ((v + 3 * 2 ^ 62) / 2 ^ 56 % 256))

size_cases :
    (v : ℕ)
    → (v ≤ 0x3f)
      ⊎ ((0x3f < v) × (v ≤ 0x3fff))
      ⊎ ((0x3fff < v) × (v ≤ 0x3fff_ffff))
      ⊎ (0x3fff_ffff < v)
size_cases v = ground arith

-- The decoder reads back the low 62 bits of the 64-bit value that was encoded, and leaves what follows.
pub decode_varint_from_slice-varint_bytes :
    (v : ℕ) (rest : List ℕ)
    → IsU64 v
    → decode_varint_from_slice (varint_bytes v ++ rest) ≡ ok (v % 2 ^ 62, rest)
decode_varint_from_slice-varint_bytes v rest h = elim (size_cases v) [
  | inl s ↦
      rw (one_byte v s) (decode_one v rest (omega arith) ∙ ap (λ x. ok (x, rest)) (omega arith))
  | inr (inl (lo, hi)) ↦
      rw (two_bytes v lo hi)
        (decode_two (v / 256) (v % 256) rest (omega arith) ∙ ap (λ x. ok (x, rest)) (omega arith))
  | inr (inr (inl (lo, hi))) ↦
      rw (four_bytes v lo hi)
        (decode_four v rest (omega arith) ∙ ap (λ x. ok (x, rest)) (omega arith))
  | inr (inr (inr lo)) ↦ rw (eight_bytes v lo h) (decode_eight (v % 2 ^ 62) rest (omega arith))
]

-- A slice that ends too early is an end of input to a reader of a stream that finishes there.
abbrev pub as_read : Result (ℕ × List ℕ) → Result (ℕ × Reader)
as_read (ok (v, rest)) = ok (v, feed rest finished)
as_read (err e) = err unexpected_eof

-- The decoder that has its first byte already goes on as the one that reads it.
pub decode_varint_first_byte_lem :
    (first : ℕ) (r : Reader) → decode_varint_first_byte first r ≡ read_varint (byte first r)
unfolding decode_varint_first_byte read_varint
decode_varint_first_byte_lem first r = refl

-- The decoder of a reader and that of a slice agree on every stream that finishes.
pub read_varint-decode :
    (s : List ℕ) → read_varint (feed s finished) ≡ as_read (decode_varint_from_slice s)
unfolding read_varint decode_varint_from_slice
read_varint-decode [] = refl
read_varint-decode (first ∷ []) = ground arith
read_varint-decode (first ∷ second ∷ r) =
    ground (arith, read_exact-finished 3 (second ∷ r), read_exact-finished 7 (second ∷ r))

-- What a slice decodes to, a reader that has the slice in front reads.
pub read_varint-feed :
    (s : List ℕ) (r : Reader) {v : ℕ} {rest : List ℕ}
    → decode_varint_from_slice s ≡ ok (v, rest)
    → read_varint (feed s r) ≡ ok (v, feed rest r)
unfolding read_varint decode_varint_from_slice
read_varint-feed [] r e = cc
read_varint-feed (first ∷ []) r e = ground arith
read_varint-feed (first ∷ second ∷ tail) r e =
    ground (arith, read_exact-enough 3 (second ∷ tail) r, read_exact-enough 7 (second ∷ tail) r)

pub read_varint-varint_bytes :
    (v : ℕ) (r : Reader) → IsU64 v → read_varint (feed (varint_bytes v) r) ≡ ok (v % 2 ^ 62, r)
read_varint-varint_bytes v r h =
    read_varint-feed (varint_bytes v) r
      (rw append-nil at (decode_varint_from_slice-varint_bytes v [] h))

pub read_varint-written :
    (v : ℕ) (s : List ℕ) (r : Reader)
    → IsU64 v
    → read_varint (feed (varint_bytes v ++ s) r) ≡ ok (v % 2 ^ 62, feed s r)
read_varint-written v s r h =
    rw (feed-append (varint_bytes v) s r) (read_varint-varint_bytes v (feed s r) h)

-- One, two, four or eight bytes, the least that holds the value.
pub length-varint_bytes :
    (v : ℕ)
    → length (varint_bytes v)
      ≡ (if leb v 0x3f then 1 else if leb v 0x3fff then 2 else if leb v 0x3fff_ffff then 4 else 8)
unfolding varint_bytes
length-varint_bytes v = ground arith

pub varint_bytes-IsByte : (v : ℕ) → All IsByte (varint_bytes v)
unfolding varint_bytes
varint_bytes-IsByte v = ground arith

-- A decoded varint takes at least one byte.
pub length-decode_varint :
    (s : List ℕ) {v : ℕ} {rest : List ℕ}
    → decode_varint_from_slice s ≡ ok (v, rest)
    → length rest < length s
unfolding decode_varint_from_slice
length-decode_varint [] e = cc
length-decode_varint (first ∷ tail) e =
    ground (arith, length-drop 1 tail, length-drop 3 tail, length-drop 7 tail)

pub decode_varint-ne-fuel_spent : (s : List ℕ) → decode_varint_from_slice s ≢ err fuel_spent
unfolding decode_varint_from_slice
decode_varint-ne-fuel_spent [] e = cc
decode_varint-ne-fuel_spent (first ∷ tail) e = ground arith

-- A value that fits 62 bits comes back whole.
pub decode_varint-small :
    (v : ℕ) (rest : List ℕ)
    → v < 2 ^ 62
    → decode_varint_from_slice (varint_bytes v ++ rest) ≡ ok (v, rest)
decode_varint-small v rest h =
    let e : v % 2 ^ 62 ≡ v = omega arith in
    rw e at (decode_varint_from_slice-varint_bytes v rest (omega arith))

pub read_varint-small :
    (v : ℕ) (s : List ℕ) (r : Reader)
    → v < 2 ^ 62
    → read_varint (feed (varint_bytes v ++ s) r) ≡ ok (v, feed s r)
read_varint-small v s r h =
    let e : v % 2 ^ 62 ≡ v = omega arith in rw e at (read_varint-written v s r (omega arith))
