-- ===== src/Protocol/Stream.antt =====
-- What src/protocol.rs and src/control.rs use of `tokio::io`. A writer is the bytes that were
-- written to it.
use meshconf.Prelude.{
  ℕ, zero, suc, ◌≤◌, ◌≡◌, refl, List, [], ◌∷◌, ◌++◌, length, take, drop, ltb, if◌then◌else◌, Result,
  ok, err, ◌>>=◌, unexpected_eof, connection_lost, arith,
}

-- A reader is the bytes that are still to come, up to the finish of the stream or to its failure.
pub data Reader : Type 0 where
  finished lost : Reader
  byte : ℕ → Reader → Reader

-- `r.read_exact(&mut [0u8; 1])`.
unfoldable pub read_u8 : Reader → Result (ℕ × Reader)
read_u8 finished = err unexpected_eof
read_u8 lost = err connection_lost
read_u8 (byte b r) = ok (b, r)

-- `r.read_exact(&mut buf)` with a buffer of `n` bytes.
unfoldable pub read_exact : ℕ → Reader → Result (List ℕ × Reader)
unfolding read_u8
read_exact zero r = ok ([], r)
read_exact (suc n) r = do (b, r') ← read_u8 r; (bs, r'') ← read_exact n r'; ok (b ∷ bs, r'')

-- A reader that has some bytes in front.
abbrev pub feed : List ℕ → Reader → Reader
feed [] r = r
feed (b ∷ bs) r = byte b (feed bs r)

pub feed-append : (xs ys : List ℕ) (r : Reader) → feed (xs ++ ys) r ≡ feed xs (feed ys r)
feed-append [] ys r = refl
feed-append (x ∷ xs) ys r = rw (feed-append xs ys r)

pub read_exact-feed : (xs : List ℕ) (r : Reader) → read_exact (length xs) (feed xs r) ≡ ok (xs, r)
unfolding read_exact
read_exact-feed [] r = refl
read_exact-feed (x ∷ xs) r = rw (read_exact-feed xs r)

-- On a stream that finishes behind `xs`.
pub read_exact-finished :
    (n : ℕ) (xs : List ℕ)
    → read_exact n (feed xs finished) ≡ (
        if ltb (length xs) n then err unexpected_eof else ok (take n xs, feed (drop n xs) finished))
unfolding read_exact
read_exact-finished zero xs = ground arith
read_exact-finished (suc n) [] = ground arith
read_exact-finished (suc n) (x ∷ xs) = ground (arith, read_exact-finished n xs)

pub read_exact-enough :
    (n : ℕ) (xs : List ℕ) (r : Reader)
    → n ≤ length xs
    → read_exact n (feed xs r) ≡ ok (take n xs, feed (drop n xs) r)
unfolding read_exact
read_exact-enough zero xs r h = refl
read_exact-enough (suc n) [] r h = elim h [ ]
read_exact-enough (suc n) (x ∷ xs) r h = rw (read_exact-enough n xs r (omega arith))
