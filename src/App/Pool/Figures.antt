-- ===== src/App/Pool/Figures.antt =====
-- packages/npm/sei-swaps-webapp/src/app/components/farm/pool-dialog/pool-dialog.ts: the figures that
-- `renderData` of PoolDialogComponent shows. The dialog's pair is the market's object under its key,
-- so it changes with every refresh of the market. What is shown before an error is left out, and so
-- are symbols, names and icons.
use crownfi_sei_swaps.Prelude.{ℕ}
use crownfi_sei_swaps.Prelude.Integers.{ℤ, ◌+ℤ◌}
use crownfi_sei_swaps.Text.{Str}
use crownfi_sei_swaps.Platform.{Result, ok, err, non_null, ◌>>=◌, Coin, Number, Env, Clock}
use crownfi_sei_swaps.Platform.Dict.{lookup, insert}
use crownfi_sei_swaps.Pair
use crownfi_sei_swaps.Pair.{SwapMarketPair}
use crownfi_sei_swaps.Pair.Quotes.{share_value}
use crownfi_sei_swaps.Market.{SwapMarket}
use crownfi_sei_swaps.App.Service.{get_normalized_value, get_exchange_rate}

pub record Figures : Type 0 where
  pub exchange_rate_from : Number
  pub total_deposits_from : ℕ
  pub total_deposits_normalized : ℤ
  pub exchange_rate_to : Number
  pub total_deposits_to : ℕ
  pub pool_shares : ℕ
  pub share_value_from : ℕ
  pub share_value_to : ℕ
  pub share_values_normalized : ℤ

-- A step that may change the market, and the rest.
unfoldable pub and_then {ℓ κ} :
    {A : Type ℓ} {B : Type κ}
    → SwapMarket × Result A
    → (SwapMarket → A → SwapMarket × Result B)
    → SwapMarket × Result B
and_then (m, err e) rest = (m, err e)
and_then (m, ok a) rest = rest m a

-- An answer that leaves the market as it is, and the rest.
unfoldable pub answered {ℓ κ} :
    {A : Type ℓ} {B : Type κ}
    → SwapMarket
    → Result A
    → (A → SwapMarket × Result B)
    → SwapMarket × Result B
answered m (err e) rest = (m, err e)
answered m (ok a) rest = rest a

module _ (env : Env) (clock : Clock) (get_decimals : Str → Result ℕ) (currency key : Str) where
  unfoldable pub refresh_pool_pair :
      ℕ → SwapMarket → SwapMarketPair → SwapMarket × Result (Unit {0})
  refresh_pool_pair n m p =
      let (p', r) = Pair.refresh clock n p in
      (record m { asset_pair_map = insert key p' m.asset_pair_map }, r)

  -- The values of two amounts: each call of the service refreshes the market.
  unfoldable pub normalized_sum : ℕ → ℕ → Coin → Coin → SwapMarket → SwapMarket × Result ℤ
  unfolding and_then
  normalized_sum n k from to m =
      and_then (get_normalized_value env clock n from currency m) (λ m1 a.
        and_then (get_normalized_value env clock k to currency m1) (λ m2 b. (m2, ok (a +ℤ b))))

  abbrev pub pool_pair : SwapMarket → Result SwapMarketPair
  pool_pair m = non_null (lookup key m.asset_pair_map)

  -- `toFixed` of no rate throws.
  abbrev pub shown_rate : Str → Str → SwapMarket → Result Number
  shown_rate from to m = do rate ← get_exchange_rate env clock from to m; non_null rate

  -- `renderData`, with the times of the refresh and of the four values.
  unfoldable pub render_data :
      (n k0 k1 k2 k3 : ℕ) → SwapMarket → SwapMarketPair → SwapMarket × Result Figures
  unfolding refresh_pool_pair normalized_sum
  render_data n k0 k1 k2 k3 m p =
      let from = p.unwrapped_assets.0 in
      let to = p.unwrapped_assets.1 in
      and_then (refresh_pool_pair n m p) (λ m1 _. answered m1 (get_decimals from) (λ _.
        answered m1 (shown_rate from to m1) (λ rate_from. answered m1 (pool_pair m1) (λ p1.
          and_then
            (normalized_sum k0 k1 (record { denom = from; amount = p1.total_deposits.0 })
              (record { denom = to; amount = p1.total_deposits.1 }) m1)
            (λ m2 deposits. answered m2 (get_decimals to) (λ _.
              answered m2 (shown_rate to from m2) (λ rate_to. answered m2 (pool_pair m2) (λ p2.
                answered m2 (get_decimals p2.shares_denom) (λ _.
                  let value = share_value p2 p2.total_shares in
                  and_then
                    (normalized_sum k2 k3 (record { denom = from; amount = value.0.0 })
                      (record { denom = to; amount = value.1.0 }) m2)
                    (λ m3 shares. (
                      m3,
                      ok (record {
                        exchange_rate_from = rate_from;
                        total_deposits_from = p1.total_deposits.0;
                        total_deposits_normalized = deposits;
                        exchange_rate_to = rate_to;
                        total_deposits_to = p2.total_deposits.1;
                        pool_shares = p2.total_shares;
                        share_value_from = value.0.0;
                        share_value_to = value.1.0;
                        share_values_normalized = shares;
                      }),
                    )))))))))))
