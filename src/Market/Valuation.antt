-- ===== src/Market/Valuation.antt =====
-- packages/npm/sei-swaps-sdk/src/swap_market.ts, the class SwapMarket: routes between the denoms
-- of the market, and the quotes along a route.
use crownfi_sei_swaps.Prelude.{Bool, true, false, List, [], ◌∷◌, Option, none, some, if◌then◌else◌}
use crownfi_sei_swaps.Prelude.Integers.{ℤ, pos, ◌+ℤ◌, ◌-ℤ◌}
use crownfi_sei_swaps.Text.{Str, ◌==◌}
use crownfi_sei_swaps.Platform.{Result, ok, ◌>>=◌, non_null, Env, Number}
use crownfi_sei_swaps.Pair.{SwapMarketPair, total_fee_basis_points}
use crownfi_sei_swaps.Pair.Quotes as PairQuotes
use crownfi_sei_swaps.Market.{
  SwapMarket, wrapped_or, wrapped_of, get_all_pairs, get_direct_trade_map, get_pair,
}
use crownfi_sei_swaps.Market.Routing.{Route, find_route}

module _ (m : SwapMarket) where
  unfoldable pub resolve_multi_swap_route : Str → Str → Result (Option Route)
  resolve_multi_swap_route from to =
      let from' = wrapped_or m from in
      let to' = wrapped_or m to in
      if from' == to'
      then ok (some [])
      else find_route (get_direct_trade_map (get_all_pairs m)) from' to'

  -- The loop of `exchangeRate`: `from_denom` stays what it was.
  unfoldable pub rate_along : Env → Str → Bool → Route → Number → Result Number
  rate_along env from_denom include_fees [] result = ok result
  rate_along env from_denom include_fees (hop ∷ rest) result = do
    pair ← non_null (get_pair m hop true)
    let direct_rate = PairQuotes.exchange_rate pair env (pair.assets.1 == from_denom)
    let fee =
        env.number_div (env.bigint_number (pos 10000 -ℤ total_fee_basis_points pair))
          (env.bigint_number (pos 10000))
    let rate = if include_fees then env.number_mul direct_rate fee else direct_rate
    rate_along env from_denom include_fees rest (env.number_mul result rate)

  -- `none` is NaN.
  abbrev pub rate_on_route : Env → Str → Bool → Option Route → Result (Option Number)
  rate_on_route env from include_fees none = ok none
  rate_on_route env from include_fees (some []) = ok none
  rate_on_route env from include_fees (some (hop ∷ rest)) = do
    ok (some (← rate_along env from include_fees (hop ∷ rest) (env.bigint_number (pos 1))))

  unfoldable pub exchange_rate : Env → Str → Str → Bool → Result (Option Number)
  unfolding resolve_multi_swap_route rate_along
  exchange_rate env from_denom to_denom include_fees =
      let from = wrapped_of m from_denom in
      let to = wrapped_of m to_denom in
      if from == to
      then ok (some (env.bigint_number (pos 1)))
      else (resolve_multi_swap_route from to >>= rate_on_route env from include_fees)

  -- The denom behind a hop that enters by `from_denom`.
  abbrev pub next_denom : SwapMarketPair → Str → Str
  next_denom pair from_denom = if pair.assets.0 == from_denom then pair.assets.1 else pair.assets.0

  -- The loop of `exchangeValue`.
  unfoldable pub value_along : Str → Bool → Route → ℤ → Result ℤ
  value_along from_denom include_fees [] value = ok value
  value_along from_denom include_fees (hop ∷ rest) value = do
    pair ← non_null (get_pair m hop true)
    next ← PairQuotes.exchange_value pair value (pair.assets.1 == from_denom) include_fees
    value_along (next_denom pair from_denom) include_fees rest next

  abbrev pub value_on_route : ℤ → Str → Bool → Option Route → Result (Option ℤ)
  value_on_route value from include_fees none = ok none
  value_on_route value from include_fees (some []) = ok none
  value_on_route value from include_fees (some (hop ∷ rest)) = do
    ok (some (← value_along from include_fees (hop ∷ rest) value))

  unfoldable pub exchange_value : ℤ → Str → Str → Bool → Result (Option ℤ)
  unfolding resolve_multi_swap_route value_along
  exchange_value value from_denom to_denom include_fees =
      let from = wrapped_of m from_denom in
      let to = wrapped_of m to_denom in
      if from == to
      then ok (some value)
      else (resolve_multi_swap_route from to >>= value_on_route value from include_fees)

  -- `x ?? 0n`
  abbrev pub or_zero : Option ℤ → ℤ
  or_zero none = pos 0
  or_zero (some v) = v

  -- The loop of `getTotalValueLocked`.
  unfoldable pub value_locked : Str → List SwapMarketPair → ℤ → Result ℤ
  value_locked denom [] total = ok total
  value_locked denom (p ∷ ps) total = do
    v0 ← exchange_value (pos p.total_deposits.0) p.assets.0 denom false
    v1 ← exchange_value (pos p.total_deposits.1) p.assets.1 denom false
    value_locked denom ps (total +ℤ or_zero v0 +ℤ or_zero v1)

  unfoldable pub get_total_value_locked : Str → List SwapMarketPair → Result ℤ
  unfolding value_locked
  get_total_value_locked valuation_denom pairs =
      value_locked (wrapped_of m valuation_denom) pairs (pos 0)
