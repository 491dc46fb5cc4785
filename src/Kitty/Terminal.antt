-- ===== src/Kitty/Terminal.antt =====
-- src/kitty.rs: a terminal that reads what `transmit_image_pty` writes.
use meshconf.Prelude.{ℕ, ◌≢◌, Bool, Option, none, some, List, [], ◌∷◌, ◌++◌}
use meshconf.Kitty.{Encodings, more_flag, control}
use meshconf.Kitty.Reader.{read_image}

-- No separator stands in control data.
abbrev NoSeparator : ℕ → Type 0
NoSeparator b = b ≢ 59

module _ (enc : Encodings) where
  open enc use {
    format, format-IsDigit, compress, decompress, decompress-compress, compress_pos, encode, decode,
    decode-encode, encode_printable, length-encode,
  }

  -- The control data with its flag.
  abbrev flagged : ℕ → ℕ → ℕ → Bool → Bool → List ℕ
  flagged id width height first last_ =
      control enc id width height first ++ (more_flag enc last_ ∷ [])

  abbrev inflate : Option (List ℕ) → Option (List ℕ)
  inflate none = none
  inflate (some z) = decompress z

  abbrev with_rest : List ℕ → Option (List ℕ) → Option (List ℕ × List ℕ)
  with_rest rest none = none
  with_rest rest (some rgb) = some (rgb, rest)

  abbrev inflate_image : Option (List ℕ × List ℕ) → Option (List ℕ × List ℕ)
  inflate_image none = none
  inflate_image (some (b64, rest)) = with_rest rest (inflate (decode b64))

  -- The terminal: it puts the payloads together, undoes base64 and inflates.
  pub receive_image : ℕ → List ℕ → Option (List ℕ × List ℕ)
  receive_image fuel input = inflate_image (read_image fuel input)
