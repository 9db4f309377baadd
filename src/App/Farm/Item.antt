-- ===== src/App/Farm/Item.antt =====
-- packages/npm/sei-swaps-webapp/src/app/components/farm/pool-item/pool-item.ts: what
-- PoolItemComponent shows of its pool. The pool is the market's object under its key, so what is
-- read after the query for the yield is read after the refreshes that this makes.
use crownfi_sei_swaps.Prelude.{ℕ, Option}
use crownfi_sei_swaps.Prelude.Integers.{ℤ}
use crownfi_sei_swaps.Text.{Str}
use crownfi_sei_swaps.Platform.{Result, ok, non_null, ◌>>=◌, Number, Env, Clock}
use crownfi_sei_swaps.Platform.Dict.{lookup}
use crownfi_sei_swaps.Pair.{SwapMarketPair, total_fee_basis_points}
use crownfi_sei_swaps.Market.{SwapMarket}
use crownfi_sei_swaps.App.Service.{get_exchange_rate, get_estimated_apy_past_30_days}
use crownfi_sei_swaps.App.Pool.Figures.{and_then, answered}

-- A denom and an amount for each display; the rate of the fees is the number that `toFixed` prints.
pub record PoolItem : Type 0 where
  pub from_denom : Str
  pub to_denom : Str
  pub exchange_rate_from : ℤ
  pub exchange_rate_to : ℤ
  pub total_deposits_from : ℕ
  pub total_deposits_to : ℕ
  pub fee_rate : ℤ
  pub apy : Str

-- The functions of other packages: the decimals of a token's information, and
-- `stringDecimalToBigInt`.
module _ (env : Env) (clock : Clock) (get_decimals : Str → Result ℕ)
    (string_decimal_to_bigint : Option Number → ℕ → Result ℤ) (key : Str) where
  abbrev item_rate : Str → Str → ℕ → SwapMarket → Result ℤ
  item_rate from to decimals m = do
    rate ← get_exchange_rate env clock from to m
    string_decimal_to_bigint rate decimals

  -- `connectedCallback`, with the times of the three queries for the yield.
  unfoldable pub show_item :
      (n k l : ℕ) → SwapMarket → SwapMarketPair → SwapMarket × Result PoolItem
  show_item n k l m p =
      let from = p.unwrapped_assets.0 in
      let to = p.unwrapped_assets.1 in
      answered m (get_decimals from) (λ from_decimals. answered m (get_decimals to) (λ to_decimals.
        answered m (item_rate from to from_decimals m) (λ rate_from.
          answered m (item_rate to from to_decimals m) (λ rate_to.
            and_then (get_estimated_apy_past_30_days env clock n k l from to m) (λ m' apy.
              answered m' (non_null (lookup key m'.asset_pair_map)) (λ p'. (
                m',
                ok (record {
                  from_denom = from;
                  to_denom = to;
                  exchange_rate_from = rate_from;
                  exchange_rate_to = rate_to;
                  total_deposits_from = p'.total_deposits.0;
                  total_deposits_to = p'.total_deposits.1;
                  fee_rate = total_fee_basis_points p;
                  apy = apy;
                }),
              )))))))
