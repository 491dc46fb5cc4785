-- ===== src/Prelude/Errors.antt =====
-- Fallible code: `anyhow::Result`, with the errors that the protocol code raises told apart.
use mathlib.Core.Path.{◌≡◌, refl}
use mathlib.Core.Logic.{◌⊎◌, inl, inr}

pub data Error : Type 0 where
  -- An I/O error of kind `UnexpectedEof`, from `read_exact`.
  unexpected_eof : Error
  -- Any other I/O error: the stream was reset, or the connection lost.
  connection_lost : Error
  -- "Unexpected end of varint" and "Varint truncated".
  varint_end varint_truncated : Error
  -- "Expected SUBGROUP_HEADER (0x4), got ..."
  bad_stream_type : Error
  -- "Extension header truncated" and "Extension headers too large".
  extension_truncated extensions_too_large : Error
  -- "Control message too large", and a refusal of `serde_json`.
  message_too_large bad_json : Error
  -- "Annex B output exceeded estimate", "NALU extends beyond buffer" and "Unsupported NAL header
  -- length: ..."
  estimate_exceeded nalu_beyond_buffer bad_header_length : Error
  -- No Rust value: the fuel of a loop ran out. The loops that take fuel are proved not to return it.
  fuel_spent : Error

pub data Result {ℓ} (A : Type ℓ) : Type ℓ where
  ok : A → Result A
  err : Error → Result A

infixl 5 ◌>>=◌
abbrev pub ◌>>=◌ {ℓ κ} : {A : Type ℓ} {B : Type κ} → Result A → (A → Result B) → Result B
ok a >>= f = f a
err e >>= f = err e

pub Result-cases {ℓ} :
    {A : Type ℓ} (r : Result A) → ((a : A) × (r ≡ ok a)) ⊎ ((e : Error) × (r ≡ err e))
Result-cases (ok a) = inl (a, refl)
Result-cases (err e) = inr (e, refl)
