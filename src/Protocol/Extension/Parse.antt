-- ===== src/Protocol/Extension/Parse.antt =====
-- What `parse_extension_headers` makes of headers, written ones and others.
use meshconf.Prelude.{
  ℕ, zero, suc, ◌%◌, ◌^◌, ◌<◌, ◌≤◌, ◌≡◌, ◌≢◌, refl, sym, ◌∙◌, ap, Option, none, some, List, [], ◌∷◌,
  ◌++◌, length, drop, Result, ok, err, fuel_spent, arith, length-append, length-drop, drop_append,
  IsU64, Result-cases, inl, inr,
}
use mathlib.Core.List.{append-nil}
use meshconf.Protocol.Varint.{varint_bytes, decode_varint_from_slice}
use meshconf.Protocol.Varint.RoundTrip.{
  length-decode_varint, decode_varint_from_slice-varint_bytes, decode_varint-ne-fuel_spent,
  decode_varint-small,
}
use meshconf.Protocol.Extension.{
  Codec, av1, hevc, codec_id, build_extension_headers, ExtensionValues, set_value, parse_loop,
  parse_extension_headers, no_extensions,
}

-- More fuel than bytes changes nothing.
parse_loop_fuel :
    (n m : ℕ) (s : List ℕ) (vals : ExtensionValues)
    → length s ≤ n
    → length s ≤ m
    → parse_loop n s vals ≡ parse_loop m s vals
unfolding parse_loop
parse_loop_fuel zero zero [] vals hn hm = refl
parse_loop_fuel zero (suc m) [] vals hn hm = refl
parse_loop_fuel (suc n) zero [] vals hn hm = refl
parse_loop_fuel (suc n) (suc m) [] vals hn hm = refl
parse_loop_fuel zero m (b ∷ bs) vals hn hm = elim hn [ ]
parse_loop_fuel (suc n) zero (b ∷ bs) vals hn hm = elim hm [ ]
parse_loop_fuel (suc n) (suc m) (b ∷ bs) vals hn hm =
    elim (Result-cases (decode_varint_from_slice (b ∷ bs))) [
      | inr (x, e) ↦ rw e
      | inl ((t, rest), e) ↦ elim (Result-cases (decode_varint_from_slice rest)) [
        | inr (x, e') ↦ rw (e, e') (ground arith)
        | inl ((v, rest'), e') ↦
            rw (e, e')
              (ground (
                arith,
                length-decode_varint (b ∷ bs) e,
                length-decode_varint rest e',
                length-drop v rest',
                parse_loop_fuel n m rest' (set_value t v vals),
                parse_loop_fuel n m (drop v rest') vals,
              ))
      ]
    ]

-- The loop with the fuel that `parse_extension_headers` gives it.
abbrev pub parse_from : List ℕ → ExtensionValues → Result ExtensionValues
parse_from s vals = parse_loop (length s) s vals

-- One round on a header of even type, and one on a header of odd type.
parse_even :
    (s : List ℕ) (vals : ExtensionValues) {t v : ℕ} {rest rest' : List ℕ}
    → t % 2 ≡ 0
    → decode_varint_from_slice s ≡ ok (t, rest)
    → decode_varint_from_slice rest ≡ ok (v, rest')
    → parse_from s vals ≡ parse_from rest' (set_value t v vals)
unfolding parse_loop
parse_even [] vals h e e' = absurd (omega (arith, length-decode_varint [] e))
parse_even (b ∷ bs) vals {t} {v} {rest} {rest'} h e e' = ground (
  arith,
  length-decode_varint (b ∷ bs) e,
  length-decode_varint rest e',
  parse_loop_fuel (length bs) (length rest') rest' (set_value t v vals),
)

parse_odd :
    (s : List ℕ) (vals : ExtensionValues) {t v : ℕ} {rest rest' : List ℕ}
    → t % 2 ≡ 1
    → decode_varint_from_slice s ≡ ok (t, rest)
    → decode_varint_from_slice rest ≡ ok (v, rest')
    → v ≤ length rest'
    → parse_from s vals ≡ parse_from (drop v rest') vals
unfolding parse_loop
parse_odd [] vals h e e' le = absurd (omega (arith, length-decode_varint [] e))
parse_odd (b ∷ bs) vals {t} {v} {rest} {rest'} h e e' le = ground (
  arith,
  length-decode_varint (b ∷ bs) e,
  length-decode_varint rest e',
  length-drop v rest',
  parse_loop_fuel (length bs) (length (drop v rest')) (drop v rest') vals,
)

parse_loop-ne-fuel_spent :
    (n : ℕ) (s : List ℕ) (vals : ExtensionValues)
    → length s ≤ n
    → parse_loop n s vals ≢ err fuel_spent
unfolding parse_loop
parse_loop-ne-fuel_spent zero [] vals h p = cc
parse_loop-ne-fuel_spent (suc n) [] vals h p = cc
parse_loop-ne-fuel_spent zero (b ∷ bs) vals h p = elim h [ ]
parse_loop-ne-fuel_spent (suc n) (b ∷ bs) vals h p =
    elim (Result-cases (decode_varint_from_slice (b ∷ bs))) [
      | inr (x, e) ↦ ground (arith, decode_varint-ne-fuel_spent (b ∷ bs))
      | inl ((t, rest), e) ↦ elim (Result-cases (decode_varint_from_slice rest)) [
        | inr (x, e') ↦ ground (arith, decode_varint-ne-fuel_spent rest)
        | inl ((v, rest'), e') ↦ ground (
          arith,
          length-decode_varint (b ∷ bs) e,
          length-decode_varint rest e',
          length-drop v rest',
          parse_loop-ne-fuel_spent n rest' (set_value t v vals),
          parse_loop-ne-fuel_spent n (drop v rest') vals,
        )
      ]
    ]

-- The parser ends on every input: its loop never runs out of fuel.
pub parse_extension_headers-ne-fuel_spent :
    (s : List ℕ) → parse_extension_headers s ≢ err fuel_spent
unfolding parse_extension_headers
parse_extension_headers-ne-fuel_spent s =
    parse_loop-ne-fuel_spent (length s) s no_extensions (omega arith)

parse_even_written :
    (t v : ℕ) (s : List ℕ) (vals : ExtensionValues)
    → t < 2 ^ 62
    → IsU64 v
    → t % 2 ≡ 0
    → parse_from (varint_bytes t ++ (varint_bytes v ++ s)) vals
      ≡ parse_from s (set_value t (v % 2 ^ 62) vals)
parse_even_written t v s vals ht hv h =
    parse_even (varint_bytes t ++ (varint_bytes v ++ s)) vals h (decode_varint-small t _ ht)
      (decode_varint_from_slice-varint_bytes v s hv)

-- An unknown header whose type and length fit 62 bits is skipped: one of even type other than 2 and 4 has one varint for its
-- value, and one of odd type as many bytes as its length says.
pub parse_unknown_skipped :
    (t v : ℕ) (body s : List ℕ) (vals : ExtensionValues)
    → t < 2 ^ 62
    → IsU64 v
    → length body < 2 ^ 62
    → (t % 2 ≡ 0
        → t ≢ 2
        → t ≢ 4
        → parse_from (varint_bytes t ++ (varint_bytes v ++ s)) vals ≡ parse_from s vals)
      × (t % 2 ≡ 1
          → parse_from (varint_bytes t ++ (varint_bytes (length body) ++ (body ++ s))) vals
            ≡ parse_from s vals)
parse_unknown_skipped t v body s vals ht hv hb = (
  λ even n2 n4. parse_even_written t v s vals ht hv even ∙ ground arith,
  λ odd.
      parse_odd (varint_bytes t ++ (varint_bytes (length body) ++ (body ++ s))) vals odd
        (decode_varint-small t _ ht) (decode_varint-small (length body) (body ++ s) hb)
        (omega (arith, length-append body s))
      ∙ ap (λ (x : List ℕ). parse_from x vals) (drop_append body s),
)

parse_codec_header :
    (ts : ℕ) (c : Codec)
    → parse_from
        (varint_bytes 4 ++ (varint_bytes (codec_id c) ++ []))
        (record { capture_timestamp_us = ts; codec = none })
      ≡ ok (record { capture_timestamp_us = ts; codec = some c })
unfolding parse_loop
parse_codec_header ts av1 = parse_even_written 4 0 [] _ (omega arith) (omega arith) refl
parse_codec_header ts hevc = parse_even_written 4 1 [] _ (omega arith) (omega arith) refl

parse_timestamp_header :
    (ts : ℕ) (s : List ℕ)
    → IsU64 ts
    → parse_from (varint_bytes 2 ++ (varint_bytes ts ++ s)) no_extensions
      ≡ parse_from s (record { capture_timestamp_us = ts % 2 ^ 62; codec = none })
parse_timestamp_header ts s h = parse_even_written 2 ts s no_extensions (omega arith) h refl

-- The parser gives back what the builder wrote: the codec, and the low 62 bits of the timestamp.
pub parse_extension_headers-build :
    (ts : ℕ) (codec : Option Codec)
    → IsU64 ts
    → parse_extension_headers (build_extension_headers ts codec)
      ≡ ok (record { capture_timestamp_us = ts % 2 ^ 62; codec = codec })
unfolding parse_loop parse_extension_headers build_extension_headers
parse_extension_headers-build ts none h =
    ap (λ (x : List ℕ). parse_from (varint_bytes 2 ++ x) no_extensions)
      (sym (append-nil (varint_bytes ts)))
    ∙ parse_timestamp_header ts [] h
parse_extension_headers-build ts (some c) h =
    ap
      (λ (x : List ℕ).
        parse_from (varint_bytes 2 ++ (varint_bytes ts ++ (varint_bytes 4 ++ x))) no_extensions)
      (sym (append-nil (varint_bytes (codec_id c))))
    ∙ parse_timestamp_header ts (varint_bytes 4 ++ (varint_bytes (codec_id c) ++ [])) h
    ∙ parse_codec_header (ts % 2 ^ 62) c
