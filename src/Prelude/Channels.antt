-- ===== src/Prelude/Channels.antt =====
-- The sending half of a bounded channel of `tokio`.
use Prim.Native.Nat.{ℕ, ◌-◌}
use mathlib.Core.List.{List, ◌∷◌}
use meshconf.Prelude.Tests.{ltb, if◌then◌else◌}

-- What it accepted, newest first, and the slots that are free.
pub record Outlet (A : Type 0) : Type 0 where
  pub sent : List A
  pub free : ℕ

-- `try_send` with its result ignored: a full channel drops the value.
abbrev pub offer : {A : Type 0} → A → Outlet A → Outlet A
offer a c = if ltb 0 c.free then record { sent = a ∷ c.sent; free = c.free - 1 } else c
