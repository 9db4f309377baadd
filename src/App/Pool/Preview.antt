-- ===== src/App/Pool/Preview.antt =====
-- The forms of the pool dialog: what a form shows before it is submitted, and what it submits.
use crownfi_sei_swaps.Prelude.{ℕ, zero, suc, ◌*◌, ◌≤◌, ◌∷◌, ◌^◌, ◌<◌, ◌≡◌, refl, false, some, arith}
use crownfi_sei_swaps.Prelude.Division.{mul_mono_right}
use crownfi_sei_swaps.Prelude.Integers.{pos}
use crownfi_sei_swaps.Text.{Str}
use crownfi_sei_swaps.Platform.{Result, ok, Account, Clock}
use crownfi_sei_swaps.Pair
use crownfi_sei_swaps.Pair.{SwapMarketPair}
use crownfi_sei_swaps.Pair.Quotes.{share_value}
use crownfi_sei_swaps.App.Swap.From.{DecimalTexts}
use crownfi_sei_swaps.App.Pool.{
  Numerals, Withdraw, valid_amount, simulate_withdraw, input_settled, submit,
}

power_ge : (d : ℕ) → 1 ≤ 10 ^ d
power_ge zero = omega arith
power_ge (suc d) = omega (arith, power_ge d)

more_by_decimals : (count d : ℕ) → 0 < count → 0 < d → count < count * 10 ^ d
more_by_decimals count (suc d) h k =
    let e : 10 ^ suc d ≡ 10 * 10 ^ d = omega arith in
    let more : 2 ≤ 10 ^ suc d = omega (arith, e, power_ge d) in
    omega (arith, mul_mono_right count 2 (10 ^ suc d) more)
more_by_decimals count zero h k = absurd (omega (arith, k))

valid_positive : (n : ℕ) → 0 < n → valid_amount (some (pos n)) "Invalid Amount" ≡ ok (pos n)
valid_positive (suc n) h = refl
valid_positive zero h = absurd (omega (arith, h))

module _ (texts : DecimalTexts) (numerals : Numerals) (w : Withdraw) (count d : ℕ)
    (some_shares : 0 < count) (read_whole : numerals.to_bigint w.shares_amount_input ≡ ok count)
    (read_decimal : texts.from_text w.shares_amount_input d ≡ some (pos (count * 10 ^ d)))
    (affordable : numerals.exceeds w.shares_amount_input w.shares_balance.decimal ≡ false) where
  -- For a withdrawal whose text is a whole number of shares (it reads as that number without
  -- decimals, and as that number times the power of ten with them), not 0 and within the balance,
  -- where the shares have decimals, once the input has settled and the pair has been refreshed: the
  -- button is enabled, and the two amounts shown are the value of that number of smallest units of
  -- a share; a connected user then submits the pair's two tokens with a larger number of units, the
  -- one that the decimals make.
  pub withdraw_preview :
      (clock : Clock) (n : ℕ) (account : Account) (c : ℕ) (address : Str)
      (get_decimals : Str → Result ℕ)
      → 0 < d
      → account.sei_address ≡ c ∷ address
      → (Pair.refresh clock n w.pool_pair).1 ≡ ok tt
      → get_decimals (Pair.refresh clock n w.pool_pair).0.shares_denom ≡ ok d
      → let p = (Pair.refresh clock n w.pool_pair).0 in
        let settled = input_settled numerals clock n w in
        ((settled.1 ≡ ok tt)
          × (settled.0.submit_disabled ≡ false)
          × (settled.0.received ≡ ((share_value p count).0.0, (share_value p count).1.0)))
        × ((submit texts numerals (some account) get_decimals settled.0
              ≡ ok (
                  some (record {
                    from = p.unwrapped_assets.0;
                    to = p.unwrapped_assets.1;
                    amount = pos (count * 10 ^ d);
                    receiver = c ∷ address;
                  })))
            × (count < count * 10 ^ d))
  unfolding input_settled simulate_withdraw submit
  withdraw_preview clock n account c address get_decimals has_decimals sender refreshed decimals =
      let valid : valid_amount (some (pos (count * 10 ^ d))) "Invalid Amount"
          ≡ ok (pos (count * 10 ^ d)) =
        valid_positive (count * 10 ^ d)
          (omega (arith, more_by_decimals count d some_shares has_decimals)) in
      (
        (
          simp (affordable, simulate_withdraw, refreshed, read_whole),
          simp (affordable, simulate_withdraw, refreshed, read_whole),
          simp (affordable, simulate_withdraw, refreshed, read_whole),
        ),
        (
          simp (
            affordable, simulate_withdraw, refreshed, read_whole, submit, sender, decimals,
            read_decimal, valid,
          ),
          more_by_decimals count d some_shares has_decimals,
        ),
      )
