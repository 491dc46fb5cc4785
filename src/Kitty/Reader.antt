-- ===== src/Kitty/Reader.antt =====
-- src/kitty.rs: the reading side of graphics commands, by the protocol's documentation.
use meshconf.Prelude.{
  ℕ, zero, suc, ◌+◌, ◌-◌, ◌/◌, ◌≤◌, ◌<◌, ◌≡◌, ◌≢◌, refl, ap, true, false, Option, none, some, List,
  [], ◌∷◌, ◌++◌, ◌==◌, if◌then◌else◌, length, take, drop, All, arith, ==_iff,
}
use meshconf.Kitty.{codes, esc}

-- What stands in front of the first `c`, and what comes behind it.
pub split_at : ℕ → List ℕ → Option (List ℕ × List ℕ)
split_at c [] = none
split_at c (x ∷ xs) =
    if x == c
    then some ([], xs)
    else elim (split_at c xs) [ none ↦ none | some (front, rest) ↦ some (x ∷ front, rest) ]

abbrev strip : List ℕ → List ℕ → Option (List ℕ)
strip [] xs = some xs
strip (c ∷ cs) [] = none
strip (c ∷ cs) (x ∷ xs) = if x == c then strip cs xs else none

abbrev after_end : List ℕ → List ℕ → Option (List ℕ) → Option (List ℕ × List ℕ × List ℕ)
after_end ctrl payload none = none
after_end ctrl payload (some rest) = some (ctrl, payload, rest)

abbrev pub after_payload : List ℕ → Option (List ℕ × List ℕ) → Option (List ℕ × List ℕ × List ℕ)
after_payload ctrl none = none
after_payload ctrl (some (payload, r)) = after_end ctrl payload (strip (codes "\\") r)

abbrev pub after_control : Option (List ℕ × List ℕ) → Option (List ℕ × List ℕ × List ℕ)
after_control none = none
after_control (some (ctrl, r)) = after_payload ctrl (split_at esc r)

abbrev after_start : Option (List ℕ) → Option (List ℕ × List ℕ × List ℕ)
after_start none = none
after_start (some r) = after_control (split_at 59 r)

-- A graphics command: its control data, its payload, and what follows it.
unfoldable pub read_command : List ℕ → Option (List ℕ × List ℕ × List ℕ)
read_command input = after_start (strip (codes "\u{1b}_G") input)

abbrev last_byte : ℕ → List ℕ → ℕ
last_byte a [] = a
last_byte a (x ∷ xs) = last_byte x xs

abbrev pub prepend : List ℕ → Option (List ℕ × List ℕ) → Option (List ℕ × List ℕ)
prepend payload none = none
prepend payload (some (more, rest)) = some (payload ++ more, rest)

abbrev pub after_command :
    (List ℕ → Option (List ℕ × List ℕ))
    → Option (List ℕ × List ℕ × List ℕ)
    → Option (List ℕ × List ℕ)
after_command next none = none
after_command next (some (ctrl, payload, rest)) =
    if last_byte 0 ctrl == 48 then some (payload, rest) else prepend payload (next rest)

-- The payload of the commands up to one that says that no more follow.
unfoldable pub read_image : ℕ → List ℕ → Option (List ℕ × List ℕ)
unfolding read_command
read_image zero input = none
read_image (suc fuel) input = after_command (read_image fuel) (read_command input)

pub take_all : (n : ℕ) (xs : List ℕ) → length xs ≤ n → take n xs ≡ xs
take_all zero [] h = refl
take_all zero (x ∷ xs) h = absurd (omega arith)
take_all (suc n) [] h = refl
take_all (suc n) (x ∷ xs) h = ap (◌∷◌ x) (take_all n xs (omega arith))

pub drop_all : (n : ℕ) (xs : List ℕ) → length xs ≤ n → drop n xs ≡ []
drop_all zero [] h = refl
drop_all zero (x ∷ xs) h = absurd (omega arith)
drop_all (suc n) [] h = refl
drop_all (suc n) (x ∷ xs) h = drop_all n xs (omega arith)

-- The index says which chunk is the last.
pub is_last_small :
    (i total n : ℕ) → total ≡ i + (n + 4095) / 4096 → (i == total - 1) ≡ true → n ≤ 4096
is_last_small i total n e k = let q : i ≡ total - 1 = (==_iff i (total - 1)).0 k in omega arith

pub is_more_large :
    (i total n : ℕ) → total ≡ i + (n + 4095) / 4096 → 0 < n → (i == total - 1) ≡ false → 4096 < n
is_more_large i total n e pos k =
    let q : i ≢ total - 1 = λ x. absurd (ground (arith, (==_iff i (total - 1)).1 x)) in omega arith

pub split_at-append :
    (c : ℕ) (xs ys : List ℕ) → All (λ b. b ≢ c) xs → split_at c (xs ++ (c ∷ ys)) ≡ some (xs, ys)
unfolding split_at
split_at-append c [] ys h = ground arith
split_at-append c (x ∷ xs) ys h = ground (arith, h.0, split_at-append c xs ys h.1)

pub last_byte-append : (a b : ℕ) (xs : List ℕ) → last_byte a (xs ++ (b ∷ [])) ≡ b
last_byte-append a b [] = refl
last_byte-append a b (x ∷ xs) = last_byte-append x b xs
