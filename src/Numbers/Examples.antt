-- ===== src/Numbers/Examples.antt =====
-- Doubles as bytes, the products of some, and applications.
use crownfi_sei_swaps.Prelude.{ℕ, suc, ◌*◌, ◌^◌, ◌+◌, ◌-◌, ◌≤◌, ◌<◌, ◌≡◌, refl, arith, true}
use crownfi_sei_swaps.Prelude.Integers.{pos, negsuc, ◌-ℤ◌, ◌+ℤ◌, ◌*ℤ◌}
use crownfi_sei_swaps.Platform.{ok}
use crownfi_sei_swaps.Numbers.{
  Double, significand, raised, signed, big_int, big_int_mul_number, get_number_parts, shift_left,
}
use crownfi_sei_swaps.Numbers.Product.{IsDouble, big_int_mul_number_lem}

-- 2.5, whose bytes 6 and 7 are 0x04 and 0x40.
abbrev two_and_half : Double
two_and_half = record { low = 0; byte6 = 0x04; byte7 = 0x40 }

seven_times : big_int_mul_number (pos 7) two_and_half ≡ ok (pos 17)
unfolding big_int_mul_number get_number_parts big_int shift_left ◌-ℤ◌ ◌+ℤ◌ ◌*ℤ◌
seven_times = refl

minus_seven_times : big_int_mul_number (negsuc 6) two_and_half ≡ ok (negsuc 17)
unfolding big_int_mul_number get_number_parts big_int shift_left ◌-ℤ◌ ◌+ℤ◌ ◌*ℤ◌
minus_seven_times = refl

two_and_half-IsDouble : IsDouble two_and_half
two_and_half-IsDouble = record { bytes = omega arith; byte6 = omega arith; byte7 = omega arith }

big_int_mul_number_lem_example :
    (big_int_mul_number (pos 6) two_and_half ≡ ok (pos 15))
    × ((q : ℕ) × (big_int_mul_number (negsuc 6) two_and_half ≡ ok (signed true q))
        × (suc 6 * significand two_and_half * 2 ^ (raised two_and_half - 1075)
            ≤ q * 2 ^ (1075 - raised two_and_half))
        × (q * 2 ^ (1075 - raised two_and_half)
            < suc 6 * significand two_and_half * 2 ^ (raised two_and_half - 1075)
              + 2 ^ (1075 - raised two_and_half)))
big_int_mul_number_lem_example =
    big_int_mul_number_lem two_and_half 6 two_and_half-IsDouble (omega arith) (omega arith)
