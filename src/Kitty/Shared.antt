-- ===== src/Kitty/Shared.antt =====
-- src/kitty.rs, `transmit_image_shm`: an image in a shared memory object, whose name goes to the
-- terminal. Whether the system's calls succeed is given; closing and unlinking an object do.
use meshconf.Prelude.{
  true, false, ◌-◌, ◌&&◌, ◌||◌, Bool-cases, take, replicate, ℕ, ◌+◌, ◌*◌, ◌%◌, ◌≤◌, ◌<◌, ◌≡◌, ◌≢◌,
  refl, sym, ◌∙◌, Bool, Option, none, some, List, [], ◌∷◌, ◌++◌, if◌then◌else◌, length, arith,
  u32_mod, u64_mod, All, zero, suc, Option-cases, inl, inr,
}
use meshconf.Decoder.Hevc.{same_bytes}
use meshconf.Kitty.{codes, Encodings, convert_to_rgb24, transmit_image_pty}

pub record ShmCalls : Type 0 where
  pub opens : Bool
  pub truncates : Bool
  pub maps : Bool
  pub writes : Bool

-- The objects that the system has, by name, and the counter of `TransmitScratch`.
pub record Shm : Type 0 where
  pub objects : List (List ℕ × List ℕ)
  pub shm_counter : ℕ

abbrev has_object : List ℕ → List (List ℕ × List ℕ) → Bool
has_object name [] = false
has_object name (o ∷ os) = same_bytes o.0 name || has_object name os

-- `shm_open` with `O_CREAT`.
abbrev open_object : List ℕ → Shm → Shm
open_object name s =
    if has_object name s.objects then s else record s { objects = (name, []) ∷ s.objects }

abbrev change_object : List ℕ → (List ℕ → List ℕ) → List (List ℕ × List ℕ) → List (List ℕ × List ℕ)
change_object name f [] = []
change_object name f (o ∷ os) =
    if same_bytes o.0 name then (o.0, f o.1) ∷ os else o ∷ change_object name f os

-- `ftruncate`, and the copy through the mapping, which has the object's size.
abbrev truncate_object : List ℕ → ℕ → Shm → Shm
truncate_object name len s = record s {
  objects = change_object name (λ c. take len c ++ replicate (len - length c) 0) s.objects;
}

abbrev fill_object : List ℕ → List ℕ → Shm → Shm
fill_object name rgb s = record s { objects = change_object name (λ c. rgb) s.objects }

abbrev unlink_from : List ℕ → List (List ℕ × List ℕ) → List (List ℕ × List ℕ)
unlink_from name [] = []
unlink_from name (o ∷ os) = if same_bytes o.0 name then os else o ∷ unlink_from name os

-- `shm_unlink`.
abbrev unlink_object : List ℕ → Shm → Shm
unlink_object name s = record s { objects = unlink_from name s.objects }

length-convert_to_rgb24 :
    (pixel_data : List ℕ) (n : ℕ) (rgb : List ℕ)
    → convert_to_rgb24 pixel_data n ≡ some rgb
    → length rgb ≡ n * 3
unfolding convert_to_rgb24
length-convert_to_rgb24 pixel_data zero rgb e = ground arith
length-convert_to_rgb24 [] (suc n) rgb e = absurd (ground arith)
length-convert_to_rgb24 (px ∷ pixel_data) (suc n) rgb e =
    elim (Option-cases (convert_to_rgb24 pixel_data n)) [
      | inl k ↦ absurd (ground arith)
      | inr (rest, k) ↦ ground (arith, length-convert_to_rgb24 pixel_data n rest k)
    ]

module _ (enc : Encodings) where
  open enc use {format, format-IsDigit, format_injective}

  abbrev pub shm_name : ℕ → ℕ → List ℕ
  shm_name pid counter = codes "/vc_" ++ (format pid ++ (codes "_" ++ format counter))

  abbrev pub shm_command : ℕ → ℕ → ℕ → List ℕ → List ℕ
  shm_command id width height name =
      codes "\u{1b}_Gi="
      ++ (format id
          ++ (codes ",s="
              ++ (format width
                  ++ (codes ",v="
                      ++ (format height
                          ++ (codes ",a=t,f=24,t=shm,q=2;" ++ (name ++ codes "\u{1b}\\")))))))

  -- What the terminal is told: `none` is an error. Its escape sequence is written last, and may fail.
  abbrev place_object : ShmCalls → List ℕ → List ℕ → List ℕ → Shm → Shm × Option (List ℕ)
  place_object calls name rgb command s =
      if calls.opens
      then (let s1 = open_object name s in
          if calls.truncates
          then (let s2 = truncate_object name (length rgb) s1 in
              if calls.maps
              then (fill_object name rgb s2, if calls.writes then some command else none)
              else (unlink_object name s2, none))
          else (unlink_object name s1, none))
      else (s, none)

  -- The outer `none` is a panic, for too few pixels. The object's size is that of the pixels.
  unfoldable pub transmit_image_shm :
      ShmCalls → ℕ → ℕ → ℕ → ℕ → List ℕ → Shm → Option (Shm × Option (List ℕ))
  transmit_image_shm calls pid id width height pixel_data s =
      elim (convert_to_rgb24 pixel_data (width * height % u32_mod)) [
        | none ↦ none
        | some rgb ↦
            let s1 = record s { shm_counter = (s.shm_counter + 1) % u64_mod } in
            let name = shm_name pid s1.shm_counter in
            some (place_object calls name rgb (shm_command id width height name) s1)
      ]

  -- `TransferMode::Shm` with what the system's calls do, or `TransferMode::Pty`.
  data TransferMode : Type 0 where
    shm : ShmCalls → TransferMode
    pty : TransferMode

  abbrev with_shm : Shm → Option (List ℕ) → Option (Shm × Option (List ℕ))
  with_shm s none = none
  with_shm s (some out) = some (s, some out)

  transmit_image : TransferMode → ℕ → ℕ → ℕ → ℕ → List ℕ → Shm → Option (Shm × Option (List ℕ))
  unfolding transmit_image_shm
  transmit_image (shm calls) pid id width height pixel_data s =
      transmit_image_shm calls pid id width height pixel_data s
  transmit_image pty pid id width height pixel_data s =
      with_shm s (transmit_image_pty enc id width height pixel_data)

  -- Names are told apart by the counter.
  append_injective : (xs ys zs : List ℕ) → xs ++ ys ≡ xs ++ zs → ys ≡ zs
  append_injective [] ys zs e = e
  append_injective (x ∷ xs) ys zs e = append_injective xs ys zs (cc e)

  shm_name_injective : (pid a b : ℕ) → shm_name pid a ≡ shm_name pid b → a ≡ b
  shm_name_injective pid a b e = format_injective a b (
      append_injective (codes "_") _ _
        (append_injective (format pid) _ _ (append_injective (codes "/vc_") _ _ e)))

  -- The names that objects have, of a process with a number of images so far.
  abbrev IsNamed : ℕ → Shm → Type 0
  IsNamed pid s =
      All (λ (o : List ℕ × List ℕ). (k : ℕ) × (k ≤ s.shm_counter) × (o.0 ≡ shm_name pid k))
        s.objects

  -- What is there, by whether the object could be made and the terminal written to: no new object and
  -- an error, the new one and an error, or the new one and the command.
  abbrev pub Placed :
      Bool
      → Bool
      → List ℕ
      → List ℕ
      → List ℕ
      → List (List ℕ × List ℕ)
      → Option (Shm × Option (List ℕ))
      → Type 0
  Placed made written name rgb command objects none = ⊥
  Placed false written name rgb command objects (some (s', out)) =
      (s'.objects ≡ objects) × (out ≡ none)
  Placed true false name rgb command objects (some (s', out)) =
      (s'.objects ≡ (name, rgb) ∷ objects) × (out ≡ none)
  Placed true true name rgb command objects (some (s', out)) =
      (s'.objects ≡ (name, rgb) ∷ objects) × (out ≡ some command)

  same_bytes_refl : (xs : List ℕ) → same_bytes xs xs ≡ true
  same_bytes_refl [] = refl
  same_bytes_refl (x ∷ xs) = ground (arith, same_bytes_refl xs)

  same_bytes_sound : (xs ys : List ℕ) → same_bytes xs ys ≡ true → xs ≡ ys
  same_bytes_sound [] [] e = refl
  same_bytes_sound [] (y ∷ ys) e = absurd (ground arith)
  same_bytes_sound (x ∷ xs) [] e = absurd (ground arith)
  same_bytes_sound (x ∷ xs) (y ∷ ys) e = ground (arith, same_bytes_sound xs ys)

  has_object_fresh :
      (name : List ℕ) (os : List (List ℕ × List ℕ))
      → All (λ (o : List ℕ × List ℕ). o.0 ≢ name) os
      → has_object name os ≡ false
  has_object_fresh name [] h = refl
  has_object_fresh name (o ∷ os) h = elim (Bool-cases (same_bytes o.0 name)) [
    | inl e ↦ absurd (h.0 (same_bytes_sound o.0 name e))
    | inr e ↦ rw e (has_object_fresh name os h.1)
  ]

  place_object-Placed :
      (calls : ShmCalls) (name rgb command : List ℕ) (s : Shm)
      → has_object name s.objects ≡ false
      → Placed
          (calls.opens && calls.truncates && calls.maps)
          calls.writes
          name
          rgb
          command
          s.objects
          (some (place_object calls name rgb command s))
  place_object-Placed calls name rgb command s fresh = elim (Bool-cases calls.opens) [
    | inr a ↦ rw a (refl, refl)
    | inl a ↦ elim (Bool-cases calls.truncates) [
      | inr b ↦ rw (a, b, fresh, same_bytes_refl name) (refl, refl)
      | inl b ↦ elim (Bool-cases calls.maps) [
        | inr c ↦ rw (a, b, c, fresh, same_bytes_refl name, same_bytes_refl name) (refl, refl)
        | inl c ↦ elim (Bool-cases calls.writes) [
          | inr d ↦ rw (a, b, c, d, fresh, same_bytes_refl name, same_bytes_refl name) (refl, refl)
          | inl d ↦ rw (a, b, c, d, fresh, same_bytes_refl name, same_bytes_refl name) (refl, refl)
        ]
      ]
    ]
  ]

  fresh_names :
      (pid counter : ℕ) (objects : List (List ℕ × List ℕ))
      → All (λ (o : List ℕ × List ℕ). (k : ℕ) × (k ≤ counter) × (o.0 ≡ shm_name pid k)) objects
      → All (λ (o : List ℕ × List ℕ). o.0 ≢ shm_name pid (counter + 1)) objects
  fresh_names pid counter [] h = tt
  fresh_names pid counter (o ∷ os) ((k, le, e), rest) = (
    λ same.
        let q : k ≡ counter + 1 = shm_name_injective pid k (counter + 1) (sym e ∙ same) in
        absurd (omega arith),
    fresh_names pid counter os rest,
  )

  -- An image goes to the terminal by a new object with its pixels, three bytes each, whose name no
  -- object of the process has. Where the object cannot be opened, sized or mapped, that is an error and
  -- no object is left behind; where only the terminal cannot be written to, the object stays.
  pub transmit_image_shm-Placed :
      (calls : ShmCalls) (pid id width height : ℕ) (pixel_data rgb : List ℕ) (s : Shm)
      → convert_to_rgb24 pixel_data (width * height % u32_mod) ≡ some rgb
      → s.shm_counter + 1 < u64_mod
      → IsNamed pid s
      → let name = shm_name pid (s.shm_counter + 1) in
        Placed
          (calls.opens && calls.truncates && calls.maps)
          calls.writes
          name
          rgb
          (shm_command id width height name)
          s.objects
          (transmit_image_shm calls pid id width height pixel_data s)
        × All (λ (o : List ℕ × List ℕ). o.0 ≢ name) s.objects
        × (length rgb ≡ width * height % u32_mod * 3)
  unfolding transmit_image_shm
  transmit_image_shm-Placed calls pid id width height pixel_data rgb s e small named =
      let counter : (s.shm_counter + 1) % u64_mod ≡ s.shm_counter + 1 = omega arith in
      let name : List ℕ = shm_name pid (s.shm_counter + 1) in
      let fresh = fresh_names pid s.shm_counter s.objects named in
      (
        rw (transmit_image_shm, e, counter)
            (place_object-Placed calls name rgb (shm_command id width height name)
              (record s { shm_counter = s.shm_counter + 1 })
              (has_object_fresh name s.objects fresh)),
        fresh,
        length-convert_to_rgb24 pixel_data (width * height % u32_mod) rgb e,
      )
