-- ===== src/Numbers.antt =====
-- packages/npm/sei-swaps-sdk/src/swap_market.ts, the two helpers that read the bits of a number:
-- `getNumberParts` and `bigIntMulNumber`.
pub mod Bits
pub mod Product
mod Examples
use Prim.Native.Nat.{bit_and, bit_or}
use crownfi_sei_swaps.Prelude.{
  ℕ, suc, ◌+◌, ◌-◌, ◌*◌, ◌/◌, ◌%◌, ◌^◌, Bool, not, eqb, leb, if◌then◌else◌,
}
use crownfi_sei_swaps.Prelude.Integers.{ℤ, pos, negsuc, sub_ℕ, ◌+ℤ◌, ◌-ℤ◌, ◌*ℤ◌}
use crownfi_sei_swaps.Platform.{Result, ok, err, ◌>>=◌, range_error}

-- A double as the bytes of `Float64Array`, the lowest first: bytes 0 to 5, which the code leaves
-- alone, as one number, and bytes 6 and 7.
pub record Double : Type 0 where
  pub low : ℕ
  pub byte6 : ℕ
  pub byte7 : ℕ

-- The three fields of IEEE 754.
abbrev pub sign_bit : Double → ℕ
sign_bit x = x.byte7 / 128

abbrev pub exponent_field : Double → ℕ
exponent_field x = x.byte7 % 128 * 16 + x.byte6 / 16

abbrev pub fraction : Double → ℕ
fraction x = x.byte6 % 16 * 2 ^ 48 + x.low

-- An integer by its sign and magnitude.
abbrev pub signed : Bool → ℕ → ℤ
signed negative n = if negative then sub_ℕ 0 n else pos n

-- The value is `significand` * 2 ^ (`raised` - 1075).
abbrev pub significand : Double → ℕ
significand x = if eqb (exponent_field x) 0 then fraction x else 2 ^ 52 + fraction x

abbrev pub raised : Double → ℕ
raised x = if eqb (exponent_field x) 0 then 1 else exponent_field x

-- `BigInt(x)`, which throws for a number that is not an integer.
unfoldable pub big_int : Double → Result ℤ
big_int x =
    if eqb (exponent_field x) 2047
    then err range_error
    else if leb 1075 (raised x)
    then ok (signed (eqb (sign_bit x) 1) (significand x * 2 ^ (raised x - 1075)))
    else if eqb (significand x % 2 ^ (1075 - raised x)) 0
    then ok (signed (eqb (sign_bit x) 1) (significand x / 2 ^ (1075 - raised x)))
    else err range_error

pub record NumberParts : Type 0 where
  pub negative : Bool
  pub exponent : ℤ
  pub mantissa : ℤ

unfoldable pub get_number_parts : Double → Result NumberParts
unfolding big_int
get_number_parts x =
    let sign = x.byte7 / 2 ^ 7 in
    let exponent = bit_or (bit_and x.byte7 0x7f * 2 ^ 4) (x.byte6 / 2 ^ 4) in
    let raised_double = record x { byte7 = 0x43; byte6 = bit_or (bit_and x.byte6 0x0f) 0x30 } in
    big_int raised_double >>= λ n. ok (record {
      negative = not (eqb sign 0);
      exponent = pos exponent -ℤ pos 1023;
      mantissa = n -ℤ pos (2 ^ 52);
    })

-- `a << n`; a negative count shifts to the right, which rounds down.
unfoldable pub shift_left : ℤ → ℤ → ℤ
shift_left (pos a) (pos n) = pos (a * 2 ^ n)
shift_left (negsuc a) (pos n) = sub_ℕ 0 (suc a * 2 ^ n)
shift_left (pos a) (negsuc n) = pos (a / 2 ^ suc n)
shift_left (negsuc a) (negsuc n) = negsuc (a / 2 ^ suc n)

unfoldable pub big_int_mul_number : ℤ → Double → Result ℤ
unfolding get_number_parts shift_left
big_int_mul_number input num = get_number_parts num >>= λ p. ok (
    shift_left (input *ℤ (pos 0x10000000000000 +ℤ p.mantissa)) (p.exponent -ℤ pos 52)
    *ℤ (if p.negative then negsuc 0 else pos 1))
