-- ===== src/Kitty/Tests.antt =====
-- Runs of src/kitty.rs, with numbers in unary and bytes shifted away from the escape character in the
-- place of decimal numbers and base64.
use meshconf.Prelude.{
  ℕ, zero, suc, ◌+◌, ◌-◌, ◌*◌, ◌%◌, ◌≤◌, ◌≡◌, ◌≢◌, refl, ap, true, Option, none, some, List, [],
  ◌∷◌, length, replicate, All, arith, u32_mod, length-replicate,
}
use meshconf.Kitty.{IsDigit, esc, Encodings, convert_to_rgb24}
use meshconf.Kitty.Shared.{
  ShmCalls, Shm, shm_name, shm_command, Placed, transmit_image_shm, transmit_image_shm-Placed,
}

abbrev unary : ℕ → List ℕ
unary n = replicate n 49

abbrev shift : List ℕ → List ℕ
shift [] = []
shift (x ∷ xs) = (x + 28) ∷ shift xs

abbrev unshift : List ℕ → List ℕ
unshift [] = []
unshift (x ∷ xs) = (x - 28) ∷ unshift xs

abbrev mark : List ℕ → List ℕ
mark xs = 0 ∷ xs

abbrev unmark : List ℕ → Option (List ℕ)
unmark [] = none
unmark (x ∷ xs) = some xs

unary-IsDigit : (n : ℕ) → All IsDigit (unary n)
unary-IsDigit zero = tt
unary-IsDigit (suc n) = (omega arith, unary-IsDigit n)

unary_injective : (n m : ℕ) → unary n ≡ unary m → n ≡ m
unary_injective n m e =
    omega (arith, ap length e, length-replicate {A = ℕ} n 49, length-replicate {A = ℕ} m 49)

unshift-shift : (xs : List ℕ) → unshift (shift xs) ≡ xs
unshift-shift [] = refl
unshift-shift (x ∷ xs) = ground (arith, unshift-shift xs)

length-shift : (xs : List ℕ) → length xs ≤ length (shift xs)
length-shift [] = omega arith
length-shift (x ∷ xs) = omega (arith, length-shift xs)

shift_printable : (xs : List ℕ) → All (λ b. b ≢ esc) (shift xs)
shift_printable [] = tt
shift_printable (x ∷ xs) = (omega arith, shift_printable xs)

abbrev shifting : Encodings
shifting = record {
  format = unary;
  format-IsDigit = unary-IsDigit;
  format_injective = unary_injective;
  compress = mark;
  decompress = unmark;
  decompress-compress = λ xs. refl;
  compress_pos = λ xs. omega arith;
  encode = shift;
  decode = λ xs. some (unshift xs);
  decode-encode = λ xs. ap some (unshift-shift xs);
  length-encode = length-shift;
  encode_printable = shift_printable;
}

-- Two pixels.
abbrev pixels : List ℕ
pixels = 0xff8001 ∷ 0x1b1b1b ∷ []

abbrev rgb : List ℕ
rgb = 0xff ∷ 0x80 ∷ 0x01 ∷ 0x1b ∷ 0x1b ∷ 0x1b ∷ []

pixels_rgb : convert_to_rgb24 pixels (2 * 1 % u32_mod) ≡ some rgb
unfolding convert_to_rgb24
pixels_rgb = refl

-- The second image of the process 4; the first one is still there.
abbrev one_object : Shm
one_object = record { objects = (shm_name shifting 4 1, 1 ∷ 2 ∷ 3 ∷ []) ∷ []; shm_counter = 1 }

abbrev working : ShmCalls
working = record { opens = true; truncates = true; maps = true; writes = true }

transmit_image_shm-Placed_example :
    Placed shifting true true
      (shm_name shifting 4 2)
      rgb
      (shm_command shifting 3 2 1 (shm_name shifting 4 2))
      one_object.objects
      (transmit_image_shm shifting working 4 3 2 1 pixels one_object)
    × All (λ (o : List ℕ × List ℕ). o.0 ≢ shm_name shifting 4 2) one_object.objects
    × (length rgb ≡ 2 * 1 % u32_mod * 3)
transmit_image_shm-Placed_example =
    transmit_image_shm-Placed shifting working 4 3 2 1 pixels rgb one_object pixels_rgb
      (omega arith) ((1, omega arith, refl), tt)
