-- ===== src/App/Service.antt =====
-- packages/npm/sei-swaps-webapp/src/services/swap-service.ts: the class SwapService. Its state is the
-- market. A method that refreshes it takes the time of that query, and then the times of those that
-- follow. What a method that executes instructions hands to the client is its result; running them
-- is the client's part, and so is the connected account.

pub mod Serving
pub mod Answers
use crownfi_sei_swaps.Prelude.{
  ℕ, ◌+◌, Bool, true, false, List, [], ◌∷◌, Option, none, some, if◌then◌else◌,
}
use crownfi_sei_swaps.Prelude.Integers.{ℤ, pos}
use crownfi_sei_swaps.Text.{Str, codes}
use crownfi_sei_swaps.Text.Split.{join_key}
use crownfi_sei_swaps.Platform.{
  Result, ok, err, ◌>>=◌, message, Coin, Account, Number, Expectation, Instruction, Env, Clock,
}
use crownfi_sei_swaps.Platform.Dict.{lookup, insert}
use crownfi_sei_swaps.Wrapper.Multi.{MultiTokenWrapper}
use crownfi_sei_swaps.Pair
use crownfi_sei_swaps.Pair.{SwapMarketPair}
use crownfi_sei_swaps.Pair.Quotes.{DepositCalcResult, calculate_provide_liquidity}
use crownfi_sei_swaps.Pair.Instructions.{
  build_wrap_and_provide_liquidity, build_withdraw_and_unwrap_liquidity_ixs,
}
use crownfi_sei_swaps.Pair.Volumes.{get_estimated_apy_past_days}
use crownfi_sei_swaps.Market
use crownfi_sei_swaps.Market.{SwapMarket, new_market, or_else, get_all_pairs, wrapped_or}
use crownfi_sei_swaps.Market.Valuation.{
  exchange_value, exchange_rate, or_zero, get_total_value_locked,
}
use crownfi_sei_swaps.Market.Swapping.{SwapSimResult, simulate_market_swap, build_wrapable_swap_ixs}
use crownfi_sei_swaps.Market.Volumes.{
  MultiVolume, normalized_trade_volume_all_time, normalized_trade_volume_past_hours,
}

-- The two settings of env/index.ts that the service reads: `SLIPPAGE_TOLERANCE_FRACTION`, and its
-- text.
pub record Settings : Type 0 where
  pub slippage_tolerance_fraction : Number
  pub slippage_tolerance_text : Str

-- The values of `getNetworkSummary`
pub record NetworkSummary : Type 0 where
  pub total_value_locked : ℤ
  pub total_volume_traded : ℕ
  pub last_day_total_value_locked : ℕ

-- `promise.then(({ totalVolume }) => totalVolume).catch(() => 0n)`
abbrev pub volume_or_zero : Result MultiVolume → ℕ
volume_or_zero (ok v) = v.total_volume
volume_or_zero (err e) = 0

-- `if (!pair) throw new Error("Invalid pair")`
abbrev pub valid_pair : Option SwapMarketPair → Result SwapMarketPair
valid_pair none = err (message (codes "Invalid pair"))
valid_pair (some p) = ok p

-- `client.account`, where connecting to the client may fail.
abbrev pub connected : Result (Option Account) → Result Account
connected (err e) = err e
connected (ok none) = err (message (codes "Wallet not connected"))
connected (ok (some account)) = ok account

-- The changed pair is the object that the market holds under the key by which it was found.
unfoldable pub put_pair : SwapMarket → Str × Str → SwapMarketPair → SwapMarket
unfolding wrapped_or
put_pair m pair p =
    let a = wrapped_or m pair.0 in
    let b = wrapped_or m pair.1 in
    record m {
      asset_pair_map = elim (lookup (join_key a b) m.asset_pair_map) [
        | some q ↦ insert (join_key a b) p m.asset_pair_map
        | none ↦ insert (join_key b a) p m.asset_pair_map
      ];
    }

module _ (env : Env) (clock : Clock) where
  -- `await this.swapMarket.refresh()`, and then the rest of the method.
  abbrev pub refreshed_then {ℓ} :
      {A : Type ℓ} → ℕ → SwapMarket → (SwapMarket → Result A) → SwapMarket × Result A
  refreshed_then n m rest = let (m', r) = Market.refresh env clock n m in (m', r >>= (λ _. rest m'))

  unfoldable pub create :
      ℕ
      → (factory_contract_address router_contract_address cw20_wrapper_contract_address
          erc20_wrapper_contract_address : Str)
      → Result SwapMarket
  create n factory router cw20_wrapper erc20_wrapper =
      let (m, r) =
        Market.refresh env clock n (new_market factory router cw20_wrapper erc20_wrapper) in
      r >>= (λ _. ok m)

  unfoldable pub get_pairs : ℕ → SwapMarket → SwapMarket × Result (List SwapMarketPair)
  get_pairs n m = refreshed_then n m (λ m'. ok (get_all_pairs m'))

  unfoldable pub get_pair : ℕ → Str × Str → SwapMarket → SwapMarket × Result (Option SwapMarketPair)
  get_pair n pair m =
      refreshed_then n m
        (λ m'. ok (or_else (Market.get_pair m' pair false) (Market.get_pair m' pair true)))

  unfoldable pub get_normalized_value : ℕ → Coin → Str → SwapMarket → SwapMarket × Result ℤ
  get_normalized_value n from valuation_denom m = refreshed_then n m (λ m'.
      exchange_value m' (pos from.amount) from.denom valuation_denom false
      >>= (λ v. ok (or_zero m' v)))

  -- The market is not refreshed; the queries for the two volumes start at `n` and at `k`.
  unfoldable pub get_network_summary : ℕ → ℕ → Str → SwapMarket → Result NetworkSummary
  get_network_summary n k evaluation_denom m =
      get_total_value_locked m evaluation_denom (get_all_pairs m) >>= (λ locked. ok (record {
        total_value_locked = locked;
        total_volume_traded =
            volume_or_zero (normalized_trade_volume_all_time m clock n evaluation_denom none);
        last_day_total_value_locked =
            volume_or_zero
              (normalized_trade_volume_past_hours m clock k evaluation_denom (some 24) none);
      }))

  -- Two refreshes, the second by `getPair`, and a query at `l`.
  unfoldable pub get_estimated_apy_past_30_days :
      ℕ → ℕ → ℕ → (from to : Str) → SwapMarket → SwapMarket × Result Str
  unfolding get_pair
  get_estimated_apy_past_30_days n k l from to m =
      let (m1, r1) = Market.refresh env clock n m in
      elim r1 [
        | err e ↦ (m1, err e)
        | ok _ ↦
            let (m2, r2) = get_pair k (from, to) m1 in
            (m2, r2 >>= valid_pair >>= (λ p. get_estimated_apy_past_days p (clock l) 30))
      ]

  unfoldable pub simulate_swap :
      ℕ → ℕ → (from to : Str) → ℕ → SwapMarket → SwapMarket × Result SwapSimResult
  simulate_swap n k from to amount m =
      refreshed_then n m
        (λ m'. simulate_market_swap env m' clock k (record { denom = from; amount = amount }) to)

  -- The pair that is found is refreshed too, in the market.
  unfoldable pub simulate_deposit :
      ℕ → ℕ → (from to : Coin) → SwapMarket → SwapMarket × Result DepositCalcResult
  unfolding get_pair put_pair
  simulate_deposit n k from to m =
      let (m1, r1) = get_pair n (from.denom, to.denom) m in
      elim (r1 >>= valid_pair) [
        | err e ↦ (m1, err e)
        | ok p ↦
            let (p', r2) = Pair.refresh clock k p in
            (
              put_pair m1 (from.denom, to.denom) p',
              r2 >>= (λ _. calculate_provide_liquidity env p' from.amount to.amount),
            )
      ]

  unfoldable pub get_exchange_rate : (from to : Str) → SwapMarket → Result (Option Number)
  get_exchange_rate from to m = exchange_rate m env from to false

  -- Without an answer for the slippage tolerance it is the one of the settings; the expectation takes
  -- that of the settings in any case. Nothing is executed if there is no route.
  unfoldable pub execute_swap :
      Settings
      → Result (Option Account)
      → (from to : Str) → ℕ
      → (amount_expected : ℕ) → Option Number
      → SwapMarket
      → Result (Option (List Instruction))
  execute_swap settings client from to amount amount_expected slippage_tolerance m = do
    sender ← connected client
    build_wrapable_swap_ixs env m sender sender (record { denom = from; amount = amount }) to
        (elim slippage_tolerance [ none ↦ settings.slippage_tolerance_fraction | some s ↦ s ])
        (some (record {
          expected_amount = amount_expected;
          slippage_tolerance = settings.slippage_tolerance_text;
        }))

  unfoldable pub execute_deposit :
      ℕ
      → Settings
      → Result (Option Account)
      → (from to : Coin) → Option Number
      → SwapMarket
      → SwapMarket × Result (List Instruction)
  unfolding get_pair
  execute_deposit n settings client from to slippage_tolerance m =
      let (m1, r) = get_pair n (from.denom, to.denom) m in
      (
        m1,
        r >>= valid_pair >>= (λ p. connected client >>= (λ sender.
            build_wrap_and_provide_liquidity env p sender sender (from, to)
              (elim slippage_tolerance [
                | none ↦ settings.slippage_tolerance_fraction
                | some s ↦ s
              ]))),
      )

  -- The receiver that is given is not used.
  unfoldable pub execute_withdraw :
      ℕ
      → Result (Option Account)
      → (from to : Str) → ℕ
      → (receiver : Str) → SwapMarket
      → SwapMarket × Result (List Instruction)
  unfolding get_pair
  execute_withdraw n client from to amount receiver m =
      let (m1, r) = get_pair n (from, to) m in
      (
        m1,
        r >>= valid_pair >>= (λ p.
            connected client
            >>= (λ sender. build_withdraw_and_unwrap_liquidity_ixs env p amount sender)),
      )
