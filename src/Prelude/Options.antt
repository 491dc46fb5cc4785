-- ===== src/Prelude/Options.antt =====
-- `Option` as the value of a function that may stop: with a panic, or without a result.
use mathlib.Core.Option.{Option, none, some}

abbrev pub and_then {ℓ κ} : {A : Type ℓ} {B : Type κ} → Option A → (A → Option B) → Option B
and_then none f = none
and_then (some a) f = f a

-- There is a value, and it has a property.
abbrev pub IsSomeWith {ℓ} : {A : Type ℓ} → (A → Type 0) → Option A → Type 0
IsSomeWith P none = ⊥
IsSomeWith P (some a) = P a

pub and_then-IsSomeWith {ℓ κ} :
    {A : Type ℓ} {B : Type κ} (P : A → Type 0) (Q : B → Type 0) (o : Option A) (f : A → Option B)
    → IsSomeWith P o
    → ((a : A) → P a → IsSomeWith Q (f a))
    → IsSomeWith Q (and_then o f)
and_then-IsSomeWith P Q none f h k = absurd h
and_then-IsSomeWith P Q (some a) f h k = k a h

pub IsSomeWith-map {ℓ} :
    {A : Type ℓ} (P Q : A → Type 0) (o : Option A)
    → ((a : A) → P a → Q a)
    → IsSomeWith P o
    → IsSomeWith Q o
IsSomeWith-map P Q none f h = h
IsSomeWith-map P Q (some a) f h = f a h
