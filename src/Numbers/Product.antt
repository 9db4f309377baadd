-- ===== src/Numbers/Product.antt =====
-- What `getNumberParts` reads, and the product of `bigIntMulNumber`.
use Prim.Native.Nat.{bit_and, bit_or}
use crownfi_sei_swaps.Prelude.{
  ℕ, zero, suc, ◌+◌, ◌-◌, ◌*◌, ◌/◌, ◌%◌, ◌^◌, ◌≤◌, ◌<◌, ◌≡◌, refl, ap, ◌∙◌, ◌⊎◌, inl, inr, Bool,
  true, false, not, eqb, ltb, leb, arith, if◌then◌else◌, Bool-cases,
}
use crownfi_sei_swaps.Prelude.Integers.{ℤ, pos, negsuc, sub_ℕ, ◌-ℤ◌, ◌*ℤ◌, -ℤ-pos, +ℤ-pos, *ℤ-pos}
use crownfi_sei_swaps.Prelude.Division.{div_mul-le, lt-div_mul}
use crownfi_sei_swaps.Platform.{ok}
use crownfi_sei_swaps.Numbers.{
  Double, exponent_field, fraction, significand, raised, signed, big_int, get_number_parts,
  shift_left, big_int_mul_number,
}
use crownfi_sei_swaps.Numbers.Bits.{seven_bits, exponent_1075, joined_bits}

pub record IsDouble (x : Double) : Type 0 where
  pub bytes : x.low < 2 ^ 48
  pub byte6 : x.byte6 < 256
  pub byte7 : x.byte7 < 256

raised_value :
    (x : Double)
    → x.byte6 < 256
    → big_int (record x { byte7 = 0x43; byte6 = bit_or (bit_and x.byte6 0x0f) 0x30 })
      ≡ ok (pos (2 ^ 52 + fraction x))
unfolding big_int
raised_value x h =
    let high : (x.byte6 % 16 + 48) / 16 ≡ 3 = omega arith in
    let rest : (x.byte6 % 16 + 48) % 16 ≡ x.byte6 % 16 = omega arith in
    rw (exponent_1075 x.byte6 h, high, rest) (ap (λ n. ok (pos n)) (omega arith))

exponent_read :
    (x : Double)
    → IsDouble x
    → bit_or (bit_and x.byte7 0x7f * 2 ^ 4) (x.byte6 / 2 ^ 4) ≡ exponent_field x
exponent_read x h =
    rw (seven_bits x.byte7 h.byte7)
      (joined_bits (x.byte7 % 128) (x.byte6 / 16) (omega arith) (omega (arith, h.byte6)))

pub get_number_parts_lem :
    (x : Double)
    → IsDouble x
    → get_number_parts x
      ≡ ok (record {
        negative = ltb 127 x.byte7;
        exponent = pos (exponent_field x) -ℤ pos 1023;
        mantissa = pos (fraction x);
      })
unfolding get_number_parts
get_number_parts_lem x h =
    let sign : not (eqb (x.byte7 / 128) 0) ≡ ltb 127 x.byte7 = ground arith in
    let left : pos (2 ^ 52 + fraction x) -ℤ pos (2 ^ 52) ≡ pos (fraction x) =
      -ℤ-pos (2 ^ 52 + fraction x) (2 ^ 52) (omega arith) ∙ ap pos (omega arith) in
    rw (raised_value x h.byte6) (simp (exponent_read x h, sign, left))

-- The exponent of 2 in the product: the field less 1075.
places : (e : ℕ) → (pos e -ℤ pos 1023) -ℤ pos 52 ≡ sub_ℕ e 1075
unfolding ◌-ℤ◌
places e = ground arith

-- The two directions of the shift.
places-cases :
    (e : ℕ)
    → ((sub_ℕ e 1075 ≡ pos (e - 1075)) × (1075 - e ≡ 0))
      ⊎ ((k : ℕ) × (sub_ℕ e 1075 ≡ negsuc k) × (1075 - e ≡ suc k) × (e - 1075 ≡ 0))
places-cases e = elim (Bool-cases (leb 1075 e)) [
  | inl up ↦ inl (rw up refl, ground arith)
  | inr down ↦ inr (1075 - e - 1, rw down refl, ground arith, ground arith)
]

shift-pos :
    (a e : ℕ) → shift_left (pos a) (sub_ℕ e 1075) ≡ pos (a * 2 ^ (e - 1075) / 2 ^ (1075 - e))
unfolding shift_left
shift-pos a e = elim (places-cases e) [
  | inl (up, z) ↦ rw (up, z) (ap pos (omega arith))
  | inr (k, down, s, z) ↦ rw (down, s, z) (ap (λ n. pos (n / 2 ^ suc k)) (one a))
]
  where
    one : (n : ℕ) → n ≡ n * 2 ^ 0
    one n = omega arith

power_pos : (k : ℕ) → 0 < 2 ^ k
power_pos zero = omega arith
power_pos (suc k) = omega (arith, power_pos k)

-- A negative number is rounded away from 0.
shift-negsuc :
    (a e : ℕ)
    → (q : ℕ) × (shift_left (negsuc a) (sub_ℕ e 1075) ≡ negsuc q)
      × (suc a * 2 ^ (e - 1075) ≤ suc q * 2 ^ (1075 - e))
      × (q * 2 ^ (1075 - e) < suc a * 2 ^ (e - 1075))
unfolding shift_left
shift-negsuc a e = elim (places-cases e) [
  | inl (up, z) ↦
      let h : 0 < suc a * 2 ^ (e - 1075) = grind (arith, power_pos (e - 1075)) in
      (suc a * 2 ^ (e - 1075) - 1, rw up (ground arith), rw z (omega arith), rw z (omega arith))
  | inr (k, down, s, z) ↦ (
    a / 2 ^ suc k,
    rw down refl,
    rw (s, z) (omega (arith, lt-div_mul a (2 ^ suc k) (power_pos (suc k)))),
    rw (s, z) (omega (arith, div_mul-le a (2 ^ suc k))),
  )
]

-- The last step of the product, by the sign of the double.
times_sign :
    (negative : Bool) (n : ℕ) → pos n *ℤ (if negative then negsuc 0 else pos 1) ≡ signed negative n
unfolding ◌*ℤ◌
times_sign true n = ground arith
times_sign false n = ground arith

negsuc-times_sign :
    (negative : Bool) (q : ℕ)
    → negsuc q *ℤ (if negative then negsuc 0 else pos 1) ≡ signed (not negative) (suc q)
unfolding ◌*ℤ◌
negsuc-times_sign true q = ground arith
negsuc-times_sign false q = ground arith

negsuc-times : (n s : ℕ) → 0 < s → negsuc n *ℤ pos s ≡ negsuc (suc n * s - 1)
unfolding ◌*ℤ◌
negsuc-times n s h = let k : 0 < suc n * s = grind arith in ground arith

-- The parts put together again, for every double.
product-parts :
    (z : ℤ) (x : Double)
    → IsDouble x
    → big_int_mul_number z x
      ≡ ok (
          shift_left (z *ℤ pos (2 ^ 52 + fraction x)) (sub_ℕ (exponent_field x) 1075)
          *ℤ (if ltb 127 x.byte7 then negsuc 0 else pos 1))
unfolding big_int_mul_number
product-parts z x h =
    rw (get_number_parts_lem x h)
      (rw (+ℤ-pos (2 ^ 52) (fraction x), places (exponent_field x)) refl)

product-pos :
    (n : ℕ) (x : Double)
    → IsDouble x
    → big_int_mul_number (pos n) x
      ≡ ok (
          signed (ltb 127 x.byte7) (
            n
            * (2 ^ 52 + fraction x)
            * 2 ^ (exponent_field x - 1075)
            / 2 ^ (1075 - exponent_field x)))
product-pos n x h =
    let s = 2 ^ 52 + fraction x in
    product-parts (pos n) x h
    ∙ rw (*ℤ-pos n s, shift-pos (n * s) (exponent_field x)) (ap ok (times_sign (ltb 127 x.byte7) _))

product-negsuc :
    (n : ℕ) (x : Double)
    → IsDouble x
    → (q : ℕ) × (big_int_mul_number (negsuc n) x ≡ ok (signed (not (ltb 127 x.byte7)) q))
      × (suc n * (2 ^ 52 + fraction x) * 2 ^ (exponent_field x - 1075)
          ≤ q * 2 ^ (1075 - exponent_field x))
      × (q * 2 ^ (1075 - exponent_field x)
          < suc n * (2 ^ 52 + fraction x) * 2 ^ (exponent_field x - 1075)
            + 2 ^ (1075 - exponent_field x))
product-negsuc n x h =
    let s = 2 ^ 52 + fraction x in
    let e = exponent_field x in
    let (q, shifted, above, below) = shift-negsuc (suc n * s - 1) e in
    let same : suc (suc n * s - 1) ≡ suc n * s = grind arith in
    (
      suc q,
      product-parts (negsuc n) x h
          ∙ rw (negsuc-times n s (omega arith), shifted)
              (ap ok (negsuc-times_sign (ltb 127 x.byte7) q)),
      rw same at above,
      omega (arith, rw same at below),
    )

-- The bounds determine the magnitude of a product that is not 0 and no more than 1.
one_unit : (a q d : ℕ) → 0 < a → a ≤ d → a ≤ q * d → q * d < a + d → q ≡ 1
one_unit a zero d h k l m = absurd (omega arith)
one_unit a (suc zero) d h k l m = refl
one_unit a (suc (suc q)) d h k l m = absurd (grind arith)

-- For a double that is not 0, not subnormal and finite, the product of `bigIntMulNumber` with a
-- `bigint` n that is not negative is n times the double's exact value, rounded towards 0. With a
-- negative n it is rounded away from 0: the magnitude is the smallest integer from which the exact
-- product is not more. The sign is that of the product.
pub big_int_mul_number_lem :
    (x : Double) (n : ℕ)
    → IsDouble x
    → 0 < exponent_field x
    → exponent_field x < 2047
    → (big_int_mul_number (pos n) x
        ≡ ok (
            signed
              (ltb 127 x.byte7)
              (n * significand x * 2 ^ (raised x - 1075) / 2 ^ (1075 - raised x))))
      × ((q : ℕ) × (big_int_mul_number (negsuc n) x ≡ ok (signed (not (ltb 127 x.byte7)) q))
          × (suc n * significand x * 2 ^ (raised x - 1075) ≤ q * 2 ^ (1075 - raised x))
          × (q * 2 ^ (1075 - raised x)
              < suc n * significand x * 2 ^ (raised x - 1075) + 2 ^ (1075 - raised x)))
big_int_mul_number_lem x n h normal finite =
    let e : eqb (exponent_field x) 0 ≡ false = ground arith in
    rw e (product-pos n x h, product-negsuc n x h)

-- A negative `bigint` of magnitude at most 2 ^ 1023 times 0 is not 0: it is -1, and 1 for the
-- negative 0.
big_int_mul_number_zero :
    (x : Double) (n : ℕ)
    → IsDouble x
    → exponent_field x ≡ 0
    → fraction x ≡ 0
    → suc n * 2 ^ 52 ≤ 2 ^ 1075
    → big_int_mul_number (negsuc n) x ≡ ok (signed (not (ltb 127 x.byte7)) 1)
big_int_mul_number_zero x n h zero_field zero_fraction small =
    let (q, e, above, below) = product-negsuc n x h in
    let q_one : q ≡ 1 =
      one_unit (suc n * 2 ^ 52) q (2 ^ 1075) (omega arith) small
        (omega (arith, rw (zero_field, zero_fraction) at above))
        (omega (arith, rw (zero_field, zero_fraction) at below)) in
    e ∙ rw q_one refl
