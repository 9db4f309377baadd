-- ===== src/Pair/Quotes.antt =====
-- packages/npm/sei-swaps-sdk/src/swap_market.ts, the class SwapMarketPair: the quotes that it
-- computes from its cached deposits, and the comparison of denoms with its assets.
-- `bigint` values are integers where the code lets them fall below 0, and numbers elsewhere.
use crownfi_sei_swaps.Prelude.{
  ℕ, zero, suc, ◌+◌, ◌*◌, ◌/◌, Bool, ◌&&◌, ◌||◌, List, [], ◌∷◌, Option, none, some, eqb,
  if◌then◌else◌,
}
use crownfi_sei_swaps.Prelude.Integers.{ℤ, pos, ◌-ℤ◌, ◌*ℤ◌, quot}
use crownfi_sei_swaps.Text.{Str, ◌==◌}
use crownfi_sei_swaps.Platform.{Result, ok, err, ◌>>=◌, range_error, Env, Number}
use crownfi_sei_swaps.Pair.{SwapMarketPair, total_fee_basis_points}

-- `a / b` on bigints: a division by 0 throws.
unfoldable pub div_bigint : ℤ → ℕ → Result ℤ
div_bigint a zero = err range_error
div_bigint a (suc b) = ok (quot a (suc b))

unfoldable pub div_ℕ : ℕ → ℕ → Result ℕ
div_ℕ a zero = err range_error
div_ℕ a (suc b) = ok (a / suc b)

module _ (p : SwapMarketPair) where
  unfoldable pub exchange_rate : Env → Bool → Number
  exchange_rate env inverse =
      let n0 = env.bigint_number (pos p.total_deposits.0) in
      let n1 = env.bigint_number (pos p.total_deposits.1) in
      if inverse then env.number_div n0 n1 else env.number_div n1 n0

  -- The fees are taken from the input first.
  unfoldable pub after_fees : ℤ → ℤ
  after_fees value = quot (value *ℤ (pos 10000 -ℤ total_fee_basis_points p)) 10000

  unfoldable pub exchange_value : ℤ → Bool → Bool → Result ℤ
  exchange_value value inverse include_fees =
      let v = if include_fees then after_fees value else value in
      if inverse
      then div_bigint (v *ℤ pos p.total_deposits.0) p.total_deposits.1
      else div_bigint (v *ℤ pos p.total_deposits.1) p.total_deposits.0

  unfoldable pub other_denom : Str → Bool → Option Str
  other_denom denom unwrapped =
      if p.assets.0 == denom || p.unwrapped_assets.0 == denom
      then some (if unwrapped then p.unwrapped_assets.1 else p.assets.1)
      else if p.assets.1 == denom || p.unwrapped_assets.1 == denom
      then some (if unwrapped then p.unwrapped_assets.0 else p.assets.0)
      else none

  -- The values of both assets, each with its denom.
  unfoldable pub share_value : ℕ → (ℕ × Str) × (ℕ × Str)
  share_value shares = if eqb p.total_shares 0 then ((0, p.assets.0), (0, p.assets.1)) else (
    (p.total_deposits.0 * shares / p.total_shares, p.assets.0),
    (p.total_deposits.1 * shares / p.total_shares, p.assets.1),
  )

-- `SwapMarketPairMatch`
pub data PairMatch : Type 0 where
  unmatched match inverse_match : PairMatch

unfoldable pub is_pair : SwapMarketPair → List Str → PairMatch
is_pair p (d0 ∷ d1 ∷ []) =
    if d0 == p.assets.0 && d1 == p.assets.1
    then match
    else if d1 == p.assets.0 && d0 == p.assets.1
    then inverse_match
    else unmatched
is_pair p _ = unmatched

-- `SwapMarketDepositCalcResult`
pub record DepositCalcResult : Type 0 where
  pub new_shares : ℕ
  pub new_share_value : (ℕ × Str) × (ℕ × Str)

-- `bigIntMin` of the shares that each amount is worth.
unfoldable pub shares_for : Env → SwapMarketPair → (token0_amount token1_amount : ℕ) → Result ℕ
unfolding div_ℕ
shares_for env p token0_amount token1_amount = do
  s0 ← div_ℕ (token0_amount * p.total_shares) p.total_deposits.0
  s1 ← div_ℕ (token1_amount * p.total_shares) p.total_deposits.1
  ok (env.big_int_min s0 s1)

unfoldable pub calculate_provide_liquidity :
    Env → SwapMarketPair → (token0_amount token1_amount : ℕ) → Result DepositCalcResult
unfolding shares_for
calculate_provide_liquidity env p token0_amount token1_amount =
    if eqb p.total_deposits.0 0 || eqb p.total_deposits.1 0
    then ok (record {
      new_shares = 1000;
      new_share_value = ((token0_amount, p.assets.0), (token1_amount, p.assets.1));
    })
    else (do
      new_shares ← shares_for env p token0_amount token1_amount
      let total_shares_after = p.total_shares + new_shares
      v0 ← div_ℕ ((p.total_deposits.0 + token0_amount) * new_shares) total_shares_after
      v1 ← div_ℕ ((p.total_deposits.1 + token1_amount) * new_shares) total_shares_after
      ok (record {
        new_shares = new_shares;
        new_share_value = ((v0, p.assets.0), (v1, p.assets.1));
      }))
