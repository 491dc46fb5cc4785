-- ===== src/Kitty.antt =====
-- src/kitty.rs: images for a terminal that speaks the Kitty graphics protocol. Compression, base64
-- and the printing of numbers are parameters; what is written to the terminal is its bytes.
pub mod Reader
pub mod Terminal
pub mod Shared
pub mod Place
pub mod Tests
use Prim.Native.Char.{code}
use Prim.Native.String.{String}
use meshconf.Prelude.{
  ℕ, zero, suc, ◌+◌, ◌-◌, ◌*◌, ◌/◌, ◌%◌, ◌^◌, ◌≤◌, ◌<◌, ◌≡◌, ◌≢◌, Bool, true, false, ◌||◌, Option,
  none, some, List, [], ◌∷◌, ◌++◌, ◌==◌, if◌then◌else◌, length, take, drop, All, u32_mod,
}

-- The code points of a text: its bytes, if it is ASCII.
abbrev pub codes : String → List ℕ
codes String.[] = []
codes (String.◌∷◌ c s) = code c ∷ codes s

abbrev pub esc : ℕ
esc = 0x1b

abbrev pub IsDigit : ℕ → Type 0
IsDigit b = (48 ≤ b) × (b ≤ 57)

-- `itoa`, `flate2` and `base64`. Base64 has printable characters, and is undone by its decoder; so is
-- the compression.
pub record Encodings : Type 0 where
  pub format : ℕ → List ℕ
  pub format-IsDigit : (n : ℕ) → All IsDigit (format n)
  pub format_injective : (n m : ℕ) → format n ≡ format m → n ≡ m
  pub compress : List ℕ → List ℕ
  pub decompress : List ℕ → Option (List ℕ)
  pub decompress-compress : (xs : List ℕ) → decompress (compress xs) ≡ some xs
  pub compress_pos : (xs : List ℕ) → 0 < length (compress xs)
  pub encode : List ℕ → List ℕ
  pub decode : List ℕ → Option (List ℕ)
  pub decode-encode : (xs : List ℕ) → decode (encode xs) ≡ some xs
  pub length-encode : (xs : List ℕ) → length xs ≤ length (encode xs)
  pub encode_printable : (xs : List ℕ) → All (λ b. b ≢ esc) (encode xs)

-- Red, green and blue of a packed pixel.
abbrev pub rgb24 : ℕ → List ℕ
rgb24 px = (px / 2 ^ 16 % 256) ∷ (px / 2 ^ 8 % 256) ∷ (px % 256) ∷ []

-- `pixel_data[..pixel_count]`: too few pixels are a panic, `none`.
unfoldable pub convert_to_rgb24 : List ℕ → ℕ → Option (List ℕ)
convert_to_rgb24 pixel_data zero = some []
convert_to_rgb24 [] (suc n) = none
convert_to_rgb24 (px ∷ pixel_data) (suc n) = elim (convert_to_rgb24 pixel_data n) [
  | none ↦ none
  | some rgb ↦ some (rgb24 px ++ rgb)
]

abbrev pub chunk_size : ℕ
chunk_size = 4096

module _ (enc : Encodings) where
  open enc use {format, compress, encode}

  abbrev pub more_flag : Bool → ℕ
  more_flag is_last = if is_last then 48 else 49

  -- The control data of a chunk, up to the flag.
  abbrev pub control : ℕ → ℕ → ℕ → Bool → List ℕ
  control id width height is_first =
      if is_first
      then codes "i="
        ++ (format id
            ++ (codes ",s="
                ++ (format width
                    ++ (codes ",v=" ++ (format height ++ codes ",a=t,f=24,o=z,t=d,q=2,m=")))))
      else codes "m="

  abbrev pub chunk_command : ℕ → ℕ → ℕ → Bool → Bool → List ℕ → List ℕ
  chunk_command id width height is_first is_last chunk =
      codes "\u{1b}_G"
      ++ ((control id width height is_first ++ (more_flag is_last ∷ []))
          ++ (59 ∷ (chunk ++ codes "\u{1b}\\")))

  -- The loop over the chunks from the `i`th on; a chunk is not empty, so that their number is at most
  -- the fuel.
  pub chunk_commands : ℕ → ℕ → ℕ → ℕ → ℕ → ℕ → List ℕ → List ℕ
  chunk_commands zero id width height total i b64 = []
  chunk_commands (suc fuel) id width height total i [] = []
  chunk_commands (suc fuel) id width height total i (b ∷ bs) =
      chunk_command id width height (i == 0) (i == total - 1) (take chunk_size (b ∷ bs))
      ++ chunk_commands fuel id width height total (i + 1) (drop chunk_size (b ∷ bs))

  pub total_chunks : List ℕ → ℕ
  total_chunks b64 = (length b64 + chunk_size - 1) / chunk_size

  -- What `transmit_image_pty` writes; `none` is a panic. The product of the sizes wraps.
  unfoldable pub transmit_image_pty : ℕ → ℕ → ℕ → List ℕ → Option (List ℕ)
  unfolding chunk_commands total_chunks
  transmit_image_pty id width height pixel_data =
      elim (convert_to_rgb24 pixel_data (width * height % u32_mod)) [
        | none ↦ none
        | some rgb ↦
            let b64 = encode (compress rgb) in
            some (chunk_commands (length b64) id width height (total_chunks b64) 0 b64)
      ]
