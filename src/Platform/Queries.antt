-- ===== src/Platform/Queries.antt =====
-- The answers of the contracts to the SDKs' queries (the query methods of
-- packages/npm/*/src/base/*.ts). A contract is named by its address, and a query may reject.
use crownfi_sei_swaps.Prelude.{ℕ, List, Option}
use crownfi_sei_swaps.Text.{Str}
use crownfi_sei_swaps.Platform.Results.{Result}
use crownfi_sei_swaps.Platform.Messages.{Coin}

pub record PairConfig : Type 0 where
  pub total_fee_bps : ℕ
  pub maker_fee_bps : ℕ

-- `PoolFactoryCreatedPair`
pub record CreatedPair : Type 0 where
  pub address : Str
  pub canonical_pair : Str × Str

pub record CalcSwap : Type 0 where
  pub maker_fee_amount : ℕ
  pub result_amount : ℕ
  pub spread_amount : ℕ
  pub total_fee_amount : ℕ

pub record CalcNaiveSwap : Type 0 where
  pub maker_fee_amount : ℕ
  pub result_amount : ℕ
  pub total_fee_amount : ℕ

-- `VolumeQueryResponse`
pub record Volume : Type 0 where
  pub from_timestamp_ms : ℕ
  pub to_timestamp_ms : ℕ
  pub volume : ℕ × ℕ

pub record Chain : Type 0 where
  -- The wrapper contract of this repository rejects for an unknown denom and never answers null.
  pub unwrapped_addr_of : Str → Str → Result Str
  pub pair_config : Str → Result PairConfig
  pub total_shares : Str → Result ℕ
  pub pair_denoms : Str → Result (Str × Str)
  pub share_value : Str → ℕ → Result (Coin × Coin)
  pub pairs : Str → Result (List CreatedPair)
  pub simulate_swap : Str → Coin → Result CalcSwap
  pub simulate_naive_swap : Str → Coin → Result CalcNaiveSwap
  pub total_volume_sum : Str → Result Volume
  pub hourly_volume_sum : Str → Option ℕ → Result Volume
  pub daily_volume_sum : Str → Option ℕ → Result Volume
  pub estimate_apy : Str → ℕ → Result Str

-- The n-th query that a method issues is answered by `clock n`: between two queries the chain may
-- change in any way.
abbrev pub Clock : Type 0
Clock = ℕ → Chain
