-- ===== src/Window/Blend.antt =====
-- src/video_display_window.rs, `blend_pixel`: the channels of a blended pixel.
use native.Mathlib.Nat.{mul-add, mul-le-mul_right}
use meshconf.Prelude.{
  ℕ, ◌+◌, ◌-◌, ◌*◌, ◌/◌, ◌%◌, ◌^◌, ◌≤◌, ◌<◌, ◌≡◌, ap, sym, subst, ◌∙◌, min, max, arith,
}
use meshconf.Window.Pixels.{mix, blend_pixel}

abbrev pub red : ℕ → ℕ
red p = p / 2 ^ 16 % 256

abbrev pub green : ℕ → ℕ
green p = p / 2 ^ 8 % 256

abbrev pub blue : ℕ → ℕ
blue p = p % 256

-- A channel lies between those of the background and of the foreground.
abbrev pub IsBetween : ℕ → ℕ → ℕ → Type 0
IsBetween a b c = (min a b ≤ c) × (c ≤ max a b)

weights : (x a : ℕ) → a ≤ 255 → x * a + x * (255 - a) ≡ x * 255
weights x a h = sym (mul-add x a (255 - a)) ∙ ap (λ k. x * k) (omega arith)

mix-IsBetween : (fg bg a : ℕ) → a ≤ 255 → IsBetween bg fg (mix fg bg a)
mix-IsBetween fg bg a h =
    let hi : ℕ = max bg fg in
    let lo : ℕ = min bg fg in
    let e1 : fg * a ≤ hi * a = mul-le-mul_right a (omega arith) in
    let e2 : bg * (255 - a) ≤ hi * (255 - a) = mul-le-mul_right (255 - a) (omega arith) in
    let e3 : lo * a ≤ fg * a = mul-le-mul_right a (omega arith) in
    let e4 : lo * (255 - a) ≤ bg * (255 - a) = mul-le-mul_right (255 - a) (omega arith) in
    let all : (x : ℕ) → x * a + x * (255 - a) ≡ x * 255 = λ x. weights x a h in
    let top : fg * a + bg * (255 - a) ≤ hi * 255 = omega (arith, e1, e2, all hi) in
    let bottom : lo * 255 ≤ fg * a + bg * (255 - a) = omega (arith, e3, e4, all lo) in
    (omega (arith, bottom), omega (arith, top))

mix_range : (fg bg a : ℕ) → a ≤ 255 → fg < 256 → bg < 256 → mix fg bg a < 256
mix_range fg bg a h hf hb = omega (arith, (mix-IsBetween fg bg a h).1)

channels :
    (r g b : ℕ)
    → r < 256
    → g < 256
    → b < 256
    → let p = r * 2 ^ 16 + g * 2 ^ 8 + b in (red p ≡ r) × (green p ≡ g) × (blue p ≡ b)
channels r g b hr hg hb = (omega arith, omega arith, omega arith)

-- A pixel blended with any weight of a byte is a colour, each channel of which lies between those of
-- the background and of the foreground; no channel runs into its neighbour.
pub blend_pixel-IsBetween :
    (bg fg a : ℕ)
    → a ≤ 255
    → let p = blend_pixel bg fg a in
      IsBetween (red bg) (red fg) (red p)
      × IsBetween (green bg) (green fg) (green p)
      × IsBetween (blue bg) (blue fg) (blue p)
      × (p < 2 ^ 24)
unfolding blend_pixel
blend_pixel-IsBetween bg fg a h =
    let r : ℕ = mix (red fg) (red bg) a in
    let g : ℕ = mix (green fg) (green bg) a in
    let b : ℕ = mix (blue fg) (blue bg) a in
    let hr : r < 256 = mix_range (red fg) (red bg) a h (omega arith) (omega arith) in
    let hg : g < 256 = mix_range (green fg) (green bg) a h (omega arith) (omega arith) in
    let hb : b < 256 = mix_range (blue fg) (blue bg) a h (omega arith) (omega arith) in
    let (er, eg, eb) = channels r g b hr hg hb in
    (
      subst (IsBetween (red bg) (red fg)) (sym er) (mix-IsBetween (red fg) (red bg) a h),
      subst (IsBetween (green bg) (green fg)) (sym eg) (mix-IsBetween (green fg) (green bg) a h),
      subst (IsBetween (blue bg) (blue fg)) (sym eb) (mix-IsBetween (blue fg) (blue bg) a h),
      omega arith,
    )
