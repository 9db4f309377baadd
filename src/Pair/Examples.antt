-- ===== src/Pair/Examples.antt =====
-- The theorems on pairs, at concrete pairs.
use crownfi_sei_swaps.Prelude.{
  ℕ, ◌+◌, ◌*◌, ◌≤◌, ◌<◌, ◌≡◌, ◌≢◌, ◌↔◌, ◌⊎◌, refl, Bool, true, false, [], ◌∷◌, arith, some, none,
}
use crownfi_sei_swaps.Prelude.Integers.{pos, negsuc, ◌+ℤ◌, ◌-ℤ◌}
use crownfi_sei_swaps.Text.{codes, ◌==◌, starts_with}
use crownfi_sei_swaps.Platform.{
  Env, Bytes, Msg, unwrap_cw20, ok, err, range_error, invalid_denom, execute, swap, Coin,
  PairConfig, Volume,
}
use crownfi_sei_swaps.Platform.Samples.{sample_env, sample_clock, alice, coin}
use crownfi_sei_swaps.Wrapper.Denoms.{factory_token_source_matches}
use crownfi_sei_swaps.Wrapper.Cw20
use crownfi_sei_swaps.Wrapper.Erc20
use crownfi_sei_swaps.Wrapper.Multi.{wrapped_denom_kind, normalize_to_unwrapped_denom}
use crownfi_sei_swaps.Wrapper.Plain.{IsPlain}
use crownfi_sei_swaps.Wrapper.Samples.{wrappers, wrapped_cw20}
use crownfi_sei_swaps.Pair.{SwapMarketPair, total_fee_basis_points, new_pair, create, refresh}
use crownfi_sei_swaps.Pair.Quotes.{
  exchange_value, share_value, calculate_provide_liquidity, DepositCalcResult, other_denom,
}
use crownfi_sei_swaps.Pair.Instructions.{build_wrapable_swap_ixs}
use crownfi_sei_swaps.Pair.Volumes.{NormalizedVolume, asset_volume, normalized_volume}
use crownfi_sei_swaps.Pair.Identity.{
  IsDerived, HasFigures, IsCreated, create-IsCreated, refresh-HasFigures,
}
use crownfi_sei_swaps.Pair.Exchange.{
  IsFunded, net, quote, exchange_value-pos, exchange_value_there_and_back,
  exchange_value_throws_iff,
}
use crownfi_sei_swaps.Pair.Deposits.{
  HasShares, after_deposit, share_value_lem, calculate_provide_liquidity_fair,
}
use crownfi_sei_swaps.Pair.Payout.{AreUnwrapped, swap_pays_receiver}
use crownfi_sei_swaps.Pair.Traded.{normalized_volume_lem}
use crownfi_sei_swaps.Pair.Samples.{usei, uatom, sample_pair, native_pair}

created : create sample_env sample_clock 0 (codes "pair1") wrappers ≡ ok sample_pair
unfolding create new_pair normalize_to_unwrapped_denom ◌-ℤ◌ Cw20.is_wrapped_denom
    Erc20.is_wrapped_denom factory_token_source_matches starts_with
created = refl

create-IsCreated_example : IsCreated sample_env sample_clock 0 (codes "pair1") wrappers sample_pair
create-IsCreated_example =
    create-IsCreated sample_env sample_clock 0 (codes "pair1") wrappers sample_pair created

refreshed : (refresh sample_clock 3 sample_pair).1 ≡ ok tt
unfolding refresh
refreshed = refl

refresh-HasFigures_example :
    (config : PairConfig) × (shares : ℕ) × (deposits : Coin × Coin) × ((sample_clock 3).total_shares
        sample_pair.contract
      ≡ ok shares)
    × ((sample_clock 4).pair_config sample_pair.contract ≡ ok config)
    × ((sample_clock 5).share_value sample_pair.contract shares ≡ ok deposits)
    × HasFigures (refresh sample_clock 3 sample_pair).0 config shares deposits
refresh-HasFigures_example = refresh-HasFigures sample_clock 3 sample_pair refreshed

funded : IsFunded sample_pair 30
unfolding new_pair total_fee_basis_points ◌+ℤ◌
funded = record {
  deposit0 = omega arith;
  deposit1 = omega arith;
  total_fee = refl;
  fee-le = omega arith;
}

exchange_value-pos_example :
    exchange_value sample_pair (pos 1000) false true
    ≡ ok (pos (quote sample_pair false (net 30 true 1000)))
exchange_value-pos_example = exchange_value-pos sample_pair 30 1000 false true funded

exchange_value_there_and_back_example :
    (w u : ℕ) × (exchange_value sample_pair (pos 1000) false true ≡ ok (pos w))
    × (exchange_value sample_pair (pos w) true false ≡ ok (pos u))
    × (u ≤ 1000)
exchange_value_there_and_back_example =
    exchange_value_there_and_back sample_pair 30 1000 false true false funded

exchange_value_throws_iff_example :
    (exchange_value sample_pair (negsuc 4) true false ≡ err range_error)
    ↔ (sample_pair.total_deposits.1 ≡ 0)
exchange_value_throws_iff_example = exchange_value_throws_iff sample_pair (negsuc 4) true false

with_shares : HasShares sample_pair
unfolding new_pair
with_shares = record { shares = omega arith; deposit0 = omega arith; deposit1 = omega arith }

share_value_lem_example :
    ((share_value sample_pair 300).0.0 ≤ sample_pair.total_deposits.0)
    × ((share_value sample_pair 300).1.0 ≤ sample_pair.total_deposits.1)
    × (share_value sample_pair sample_pair.total_shares ≡ (
      (sample_pair.total_deposits.0, sample_pair.assets.0),
      (sample_pair.total_deposits.1, sample_pair.assets.1),
    ))
    × ((share_value sample_pair 300).0.0 + (share_value sample_pair 201).0.0
        ≤ (share_value sample_pair 501).0.0)
    × ((share_value sample_pair 300).1.0 + (share_value sample_pair 201).1.0
        ≤ (share_value sample_pair 501).1.0)
unfolding new_pair
share_value_lem_example = share_value_lem sample_pair 300 201 (omega arith) (omega arith)

calculate_provide_liquidity_fair_example :
    (r : DepositCalcResult) × (calculate_provide_liquidity sample_env sample_pair 7 29 ≡ ok r)
    × (r.new_shares * sample_pair.total_deposits.0 ≤ 7 * sample_pair.total_shares)
    × (r.new_shares * sample_pair.total_deposits.1 ≤ 29 * sample_pair.total_shares)
    × ((7 * sample_pair.total_shares < (r.new_shares + 1) * sample_pair.total_deposits.0)
        ⊎ (29 * sample_pair.total_shares < (r.new_shares + 1) * sample_pair.total_deposits.1))
    × (r.new_share_value ≡ share_value (after_deposit sample_pair r.new_shares 7 29) r.new_shares)
    × (r.new_share_value.0.0 ≤ 7)
    × (r.new_share_value.1.0 ≤ 29)
    × (sample_pair.total_deposits.0
        ≤ (share_value (after_deposit sample_pair r.new_shares 7 29) sample_pair.total_shares).0.0)
    × (sample_pair.total_deposits.1
        ≤ (share_value (after_deposit sample_pair r.new_shares 7 29) sample_pair.total_shares).1.0)
calculate_provide_liquidity_fair_example =
    calculate_provide_liquidity_fair sample_env sample_pair 7 29 (λ a b. refl) with_shares

other_of_usei : (unwrapped : Bool) → other_denom sample_pair usei unwrapped ≡ some uatom
unfolding new_pair other_denom ◌==◌
other_of_usei true = refl
other_of_usei false = refl

IsPlain-usei : IsPlain usei
unfolding starts_with
IsPlain-usei = record { not_cw20 = refl; not_erc20 = refl }

IsPlain-uatom : IsPlain uatom
unfolding starts_with
IsPlain-uatom = record { not_cw20 = refl; not_erc20 = refl }

unwrapped : AreUnwrapped sample_pair
unfolding new_pair wrapped_denom_kind Cw20.is_wrapped_denom Erc20.is_wrapped_denom
    factory_token_source_matches starts_with
unwrapped = record { left = refl; right = refl }

swap_pays_receiver_example :
    build_wrapable_swap_ixs sample_env sample_pair alice alice (coin usei 100) true 1 none
    ≡ ok (
        execute sample_pair.contract
          (swap (some alice.sei_address) none (sample_env.number_text 1) none)
          (coin usei 100 ∷ [])
        ∷ [])
swap_pays_receiver_example =
    swap_pays_receiver sample_env sample_pair alice alice (coin usei 100) true 1 none uatom
      unwrapped IsPlain-usei (other_of_usei true)

-- A pair of a native token and a wrapped one, marketed in the reverse of the canonical order.
abbrev reversed_pair : SwapMarketPair
reversed_pair = native_pair (codes "pair2") usei wrapped_cw20 500 2000

-- A text of a message that tells its receiver.
abbrev receiver_bytes : Msg → Bytes
receiver_bytes (unwrap_cw20 (some address)) = address
receiver_bytes _ = []

abbrev telling_env : Env
telling_env = record sample_env { json_bytes = receiver_bytes }

derived : IsDerived sample_pair
unfolding new_pair
derived = record { canonical = refl; shares = refl; valid = refl }

abbrev day : Volume
day = record { from_timestamp_ms = 0; to_timestamp_ms = 86400000; volume = (11, 40) }

normalized_volume_lem_example :
    ((r : NormalizedVolume)
      → normalized_volume sample_pair usei day ≡ ok r
      → ((((asset_volume sample_pair day).coins.0.denom ≡ usei)
            × (r.amount ≡ (asset_volume sample_pair day).coins.0.amount * 2))
          ⊎ (((asset_volume sample_pair day).coins.1.denom ≡ usei)
              × (r.amount ≡ (asset_volume sample_pair day).coins.1.amount * 2)))
        × (r.from ≡ (asset_volume sample_pair day).from)
        × (r.to ≡ (asset_volume sample_pair day).to))
    × ((normalized_volume sample_pair usei day
          ≡ err (invalid_denom usei (sample_pair.canon_assets.0 ∷ sample_pair.canon_assets.1 ∷ [])))
        ↔ ((usei ≢ sample_pair.assets.0) × (usei ≢ sample_pair.assets.1)))
normalized_volume_lem_example = normalized_volume_lem sample_pair usei day derived
