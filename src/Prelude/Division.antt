-- ===== src/Prelude/Division.antt =====
-- Quotients of native numbers, as the quotes round them.
use Prim.Native.Nat.{ℕ, ◌+◌, ◌*◌, ◌/◌, ◌≤◌, ◌<◌}
use mathlib.Core.Path.{◌≡◌}
use native.Mathlib.Omega.{arith}

pub div_mul-le : (a b : ℕ) → a / b * b ≤ a
div_mul-le a b = grind arith

pub lt-div_mul : (a b : ℕ) → 0 < b → a < (a / b + 1) * b
lt-div_mul a b h = grind arith

-- What a quotient is, by multiplication.
pub le-div : (q a b : ℕ) → 0 < b → q * b ≤ a → q ≤ a / b
le-div q a b h k = grind (arith, lt-div_mul a b)

pub div-le : (q a b : ℕ) → 0 < b → a < (q + 1) * b → a / b ≤ q
div-le q a b h k = grind (arith, div_mul-le a b)

pub div_mono : (a a' b : ℕ) → 0 < b → a ≤ a' → a / b ≤ a' / b
div_mono a a' b h k = le-div (a / b) a' b h (omega (arith, div_mul-le a b))

pub mul_div_cancel : (a b : ℕ) → 0 < b → a * b / b ≡ a
mul_div_cancel a b h = grind (arith, div-le a (a * b) b, le-div a (a * b) b)

pub mul_mono_right : (a b c : ℕ) → b ≤ c → a * b ≤ a * c
mul_mono_right a b c h = grind arith
