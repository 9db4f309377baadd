-- ===== src/Pair/Volumes.antt =====
-- packages/npm/sei-swaps-sdk/src/swap_market.ts, the class SwapMarketPair: simulated swaps, traded
-- volumes and the estimated yield, from one query each.
use crownfi_sei_swaps.Prelude.{ℕ, ◌*◌, [], ◌∷◌, Option, if◌then◌else◌}
use crownfi_sei_swaps.Text.{Str, ◌==◌}
use crownfi_sei_swaps.Platform.{
  Result, ok, err, ◌>>=◌, invalid_denom, Coin, CalcSwap, CalcNaiveSwap, Volume, Chain,
}
use crownfi_sei_swaps.Pair.{SwapMarketPair}

-- `SwapMarketAssetVolumeResult` with two coins; a `Date` is its time in milliseconds.
pub record AssetVolume : Type 0 where
  pub coins : Coin × Coin
  pub from : ℕ
  pub to : ℕ

-- `SwapMarketNormalizedVolumeResult`
pub record NormalizedVolume : Type 0 where
  pub amount : ℕ
  pub from : ℕ
  pub to : ℕ

module _ (p : SwapMarketPair) where
  unfoldable pub simulate_swap : Chain → Coin → Result CalcSwap
  simulate_swap chain offer = chain.simulate_swap p.contract offer

  unfoldable pub simulate_naive_swap : Chain → Coin → Result CalcNaiveSwap
  simulate_naive_swap chain offer = chain.simulate_naive_swap p.contract offer

  -- The contract lists the volumes in the order of `canonAssets`.
  unfoldable pub asset_volume : Volume → AssetVolume
  asset_volume v = record {
    coins = (
      record { denom = p.canon_assets.0; amount = v.volume.0 },
      record { denom = p.canon_assets.1; amount = v.volume.1 },
    );
    from = v.from_timestamp_ms;
    to = v.to_timestamp_ms;
  }

  unfoldable pub asset_trade_volume_all_time : Chain → Result AssetVolume
  unfolding asset_volume
  asset_trade_volume_all_time chain = do ok (asset_volume (← chain.total_volume_sum p.contract))

  unfoldable pub asset_trade_volume_past_hours : Chain → Option ℕ → Result AssetVolume
  unfolding asset_volume
  asset_trade_volume_past_hours chain hours = do
    ok (asset_volume (← chain.hourly_volume_sum p.contract hours))

  unfoldable pub asset_trade_volume_past_days : Chain → Option ℕ → Result AssetVolume
  unfolding asset_volume
  asset_trade_volume_past_days chain days = do
    ok (asset_volume (← chain.daily_volume_sum p.contract days))

  abbrev pub normalized : Volume → ℕ → NormalizedVolume
  normalized v amount = record {
    amount = amount * 2;
    from = v.from_timestamp_ms;
    to = v.to_timestamp_ms;
  }

  -- Twice the volume of the asset asked for.
  unfoldable pub normalized_volume : Str → Volume → Result NormalizedVolume
  normalized_volume denom v =
      if p.canon_assets.0 == denom
      then ok (normalized v v.volume.0)
      else if p.canon_assets.1 == denom
      then ok (normalized v v.volume.1)
      else err (invalid_denom denom (p.canon_assets.0 ∷ p.canon_assets.1 ∷ []))

  unfoldable pub normalized_trade_volume_all_time : Chain → Str → Result NormalizedVolume
  unfolding normalized_volume
  normalized_trade_volume_all_time chain denom = do
    normalized_volume denom (← chain.total_volume_sum p.contract)

  unfoldable pub normalized_trade_volume_past_hours :
      Chain → Str → Option ℕ → Result NormalizedVolume
  unfolding normalized_volume
  normalized_trade_volume_past_hours chain denom hours = do
    normalized_volume denom (← chain.hourly_volume_sum p.contract hours)

  unfoldable pub normalized_trade_volume_past_days :
      Chain → Str → Option ℕ → Result NormalizedVolume
  unfolding normalized_volume
  normalized_trade_volume_past_days chain denom days = do
    normalized_volume denom (← chain.daily_volume_sum p.contract days)

  unfoldable pub get_estimated_apy_past_days : Chain → ℕ → Result Str
  get_estimated_apy_past_days chain past_days = chain.estimate_apy p.contract past_days
