-- ===== src/Numbers/Bits.antt =====
-- The masks of `getNumberParts` as arithmetic, from tables over the values of a byte.
use Prim.Native.Nat.{bit_and, bit_or}
use crownfi_sei_swaps.Prelude.{
  ℕ, zero, suc, ◌+◌, ◌*◌, ◌/◌, ◌%◌, ◌<◌, ◌≡◌, refl, Bool, true, ◌&&◌, eqb, eqb_iff, arith,
}

-- Two functions have the same values below a bound.
module _ (f g : ℕ → ℕ) where
  same_below : ℕ → Bool
  same_below zero = true
  same_below (suc n) = eqb (f n) (g n) && same_below n

  same_below→eq : (n : ℕ) → same_below n ≡ true → (i : ℕ) → i < n → f i ≡ g i
  unfolding same_below
  same_below→eq zero e i h = absurd (omega arith)
  same_below→eq (suc n) e i h =
      ground (arith, same_below→eq n (ground arith) i, eqb_iff (f n) (g n))

pub seven_bits : (b : ℕ) → b < 256 → bit_and b 0x7f ≡ b % 128
unfolding same_below
seven_bits = same_below→eq _ _ 256 refl

-- `& 0x0f`, then `| 0x30`
pub exponent_1075 : (b : ℕ) → b < 256 → bit_or (bit_and b 0x0f) 0x30 ≡ b % 16 + 48
unfolding same_below
exponent_1075 = same_below→eq _ _ 256 refl

-- `a << 4 | c`, with both in one number
joined : (n : ℕ) → n < 2048 → bit_or (n / 16 * 16) (n % 16) ≡ n
unfolding same_below
joined = same_below→eq _ _ 2048 refl

pub joined_bits : (a c : ℕ) → a < 128 → c < 16 → bit_or (a * 16) c ≡ a * 16 + c
joined_bits a c ha hc =
    let high : (a * 16 + c) / 16 ≡ a = omega arith in
    let rest : (a * 16 + c) % 16 ≡ c = omega arith in
    let e : bit_or ((a * 16 + c) / 16 * 16) ((a * 16 + c) % 16) ≡ a * 16 + c =
      joined (a * 16 + c) (omega arith) in
    rw (high, rest) at e
