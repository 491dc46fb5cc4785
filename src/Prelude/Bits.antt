-- ===== src/Prelude/Bits.antt =====
-- Shifts, masks and `|` as arithmetic, at variables.
use Prim.Native.Nat.{
  ℕ, zero, suc, ◌+◌, ◌*◌, ◌/◌, ◌%◌, ◌^◌, ◌≤◌, ◌<◌, max, bit_or, bit_and, digits, bit_or-bitwise,
}
use mathlib.Core.Path.{◌≡◌, refl, ap, ◌∙◌}
use mathlib.Core.Bool.{Bool, true, ◌&&◌}
use native.Mathlib.Omega.{arith}
use native.Mathlib.Nat.{pow-suc}
use meshconf.Prelude.Tests.{◌==◌, ==_iff}

pub table : (ℕ → Bool) → ℕ → Bool
table p zero = true
table p (suc n) = p n && table p n

pub table_sound : (n : ℕ) (p : ℕ → Bool) (x : ℕ) → table p n ≡ true → x < n → p x ≡ true
unfolding table
table_sound zero p x h lt = absurd (omega arith)
table_sound (suc n) p x h lt = ground (arith, table_sound n p x)

low_six_table : table (λ b. bit_and b 0x3f == b % 64) 256 ≡ true
unfolding table
low_six_table = refl

-- `b & 0x3F` on a byte.
pub low_six : (b : ℕ) → b < 256 → bit_and b 0x3f ≡ b % 64
low_six b h = (==_iff _ _).0 (table_sound 256 _ b low_six_table h)

-- The digits of `a | b`, with `n` bounding the recursion.
abbrev or_digits : ℕ → ℕ → ℕ → ℕ
or_digits = digits (λ d. d) max

or_digits_enough : (n m a b : ℕ) → a ≤ n → a ≤ m → or_digits n a b ≡ or_digits m a b
or_digits_enough zero zero a b p q = refl
or_digits_enough zero (suc m) zero b p q = refl
or_digits_enough (suc n) zero zero b p q = refl
or_digits_enough (suc n) (suc m) zero b p q = refl
or_digits_enough zero (suc m) (suc a) b p q = elim p [ ]
or_digits_enough (suc n) zero (suc a) b p q = elim q [ ]
or_digits_enough (suc n) (suc m) (suc a) b p q =
    let half : ℕ = suc a / 2 in
    omega (arith, or_digits_enough n m half (b / 2) (omega arith) (omega arith))

-- `|` by its lowest digit and the rest.
bit_or_step : (a b : ℕ) → bit_or a b ≡ bit_or (a / 2) (b / 2) * 2 + max (a % 2) (b % 2)
bit_or_step zero b = omega (arith, bit_or-bitwise 0 b, bit_or-bitwise 0 (b / 2))
bit_or_step (suc a) b = omega (
  arith,
  bit_or-bitwise (suc a) b,
  bit_or-bitwise (suc a / 2) (b / 2),
  or_digits_enough a (suc a / 2) (suc a / 2) (b / 2) (omega arith) (omega arith),
)

double_pow : (q k : ℕ) → q * 2 ^ suc k ≡ 2 * (q * 2 ^ k)
double_pow q k = omega (arith, ap (λ (t : ℕ). q * t) (pow-suc 2 k))

zero-bit_or : (a : ℕ) → bit_or 0 a ≡ a
zero-bit_or a = bit_or-bitwise 0 a

-- `(q << k | x) | (c << k)` touches the high field alone, where `x` fits `k` bits.
pub bit_or_high :
    (k q c x : ℕ) → x < 2 ^ k → bit_or (q * 2 ^ k + x) (c * 2 ^ k) ≡ bit_or q c * 2 ^ k + x
bit_or_high zero q c x h =
    let lo : q * 2 ^ 0 + x ≡ q = omega arith in
    let hi : c * 2 ^ 0 ≡ c = omega arith in rw (lo, hi) (omega arith)
bit_or_high (suc k) q c x h =
    let left : (q * 2 ^ suc k + x) / 2 ≡ q * 2 ^ k + x / 2 = omega (arith, double_pow q k) in
    let right : c * 2 ^ suc k / 2 ≡ c * 2 ^ k = omega (arith, double_pow c k) in
    let small : x / 2 < 2 ^ k = omega (arith, pow-suc 2 k) in
    bit_or_step (q * 2 ^ suc k + x) (c * 2 ^ suc k)
    ∙ rw (left, right, bit_or_high k q c (x / 2) small)
        (omega (arith, double_pow q k, double_pow c k, double_pow (bit_or q c) k))

or_top_table : table (λ q. bit_or q 3 == 3) 4 ≡ true
unfolding table
or_top_table = refl

pub or_top : (q : ℕ) → q < 4 → bit_or q 3 ≡ 3
or_top q h = (==_iff _ _).0 (table_sound 4 _ q or_top_table h)
