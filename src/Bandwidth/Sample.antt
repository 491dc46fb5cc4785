-- ===== src/Bandwidth/Sample.antt =====
-- Fractions in the place of the floating-point numbers of src/bandwidth.rs.
use meshconf.Prelude.{ℕ, ◌+◌, ◌*◌, ◌/◌, ◌≡◌, ltb, arith}
use meshconf.Bandwidth.Floats.{F64}

pub raise_fraction : (b n : ℕ) → b * (1 * 100 + n * 1) ≡ b * 100 + b * n
raise_fraction b n = grind arith

-- A fraction is its numerator and its denominator, and `as u32` rounds down.
abbrev pub fractions : F64
fractions = record {
  F = ℕ × ℕ;
  of_ℕ = λ n. (n, 1);
  lit = λ n d. (n, d);
  mul = λ x y. (x.0 * y.0, x.1 * y.1);
  add = λ x y. (x.0 * y.1 + y.0 * x.1, x.1 * y.1);
  div = λ x y. (x.0 * y.1, x.1 * y.0);
  gtb = λ x y. ltb (y.0 * x.1) (x.0 * y.1);
  to_u32 = λ x. x.0 / x.1;
  scale_le = λ b n h lt. omega arith;
  scale_ge = λ b n h lt. omega arith;
  raise_le = λ b n h lt. omega (arith, raise_fraction b n);
  raise_ge = λ b n h lt. omega (arith, raise_fraction b n);
}
