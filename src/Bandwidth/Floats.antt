-- ===== src/Bandwidth/Floats.antt =====
-- The floating-point arithmetic that src/bandwidth.rs uses. The laws are those of `f64` for
-- bitrates of 32 bits, where `b as f64` is exact, a product is rounded once, and `as u32` truncates:
-- the rounding and the truncation lose less than one.
use meshconf.Prelude.{ℕ, ◌+◌, ◌*◌, ◌/◌, ◌≤◌, ◌<◌, Bool}

pub record F64 : Type 1 where
  pub F : Type 0
  pub of_ℕ : ℕ → F
  -- The literal `n / d`.
  pub lit : ℕ → ℕ → F
  pub mul : F → F → F
  pub add : F → F → F
  pub div : F → F → F
  pub gtb : F → F → Bool
  pub to_u32 : F → ℕ
  -- `b * n%`, for a percentage of at most 100.
  pub scale_le :
      (b n : ℕ) → n ≤ 100 → b < 2_000_001 → to_u32 (mul (of_ℕ b) (lit n 100)) ≤ b * n / 100 + 1
  pub scale_ge :
      (b n : ℕ) → n ≤ 100 → b < 2_000_001 → b * n / 100 ≤ to_u32 (mul (of_ℕ b) (lit n 100)) + 1
  -- `b * (1.0 + n%)`.
  pub raise_le :
      (b n : ℕ)
      → n ≤ 100
      → b < 2_000_001
      → to_u32 (mul (of_ℕ b) (add (lit 1 1) (lit n 100))) ≤ b + b * n / 100 + 1
  pub raise_ge :
      (b n : ℕ)
      → n ≤ 100
      → b < 2_000_001
      → b + b * n / 100 ≤ to_u32 (mul (of_ℕ b) (add (lit 1 1) (lit n 100))) + 1
