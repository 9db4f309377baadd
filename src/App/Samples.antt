-- ===== src/App/Samples.antt =====
-- A service, a list of pools, timers and a swap for the examples.
use crownfi_sei_swaps.Prelude.{
  ◌≡◌, refl, sym, ◌∙◌, subst, none, some, arith, Bool-cases, inl, inr, if◌then◌else◌,
}
use crownfi_sei_swaps.Prelude.Integers.{pos, ◌+ℤ◌, ◌-ℤ◌}
use crownfi_sei_swaps.Text.{Str, codes, ◌==◌, starts_with}
use crownfi_sei_swaps.Text.Split.{join_key}
use crownfi_sei_swaps.Platform.{ok}
use crownfi_sei_swaps.Platform.Dict.{lookup, insert}
use crownfi_sei_swaps.Platform.Samples.{sample_env}
use crownfi_sei_swaps.Wrapper.Cw20
use crownfi_sei_swaps.Wrapper.Erc20
use crownfi_sei_swaps.Wrapper.Denoms.{factory_token_source_matches}
use crownfi_sei_swaps.Wrapper.Multi.{normalize_to_unwrapped_denom}
use crownfi_sei_swaps.Wrapper.Samples.{wrappers}
use crownfi_sei_swaps.Pair.Samples.{usei, uatom}
use crownfi_sei_swaps.Pair
use crownfi_sei_swaps.Pair.{SwapMarketPair, new_pair, total_fee_basis_points}
use crownfi_sei_swaps.Pair.Exchange.{IsFunded}
use crownfi_sei_swaps.Market
use crownfi_sei_swaps.Market.{SwapMarket, new_market, add_pair, refresh_one, refresh_all}
use crownfi_sei_swaps.Market.Quotes.{AllFunded}
use crownfi_sei_swaps.Market.Samples.{listing_clock, key1}
use crownfi_sei_swaps.App.Service.{create}
use crownfi_sei_swaps.App.Service.Serving.{Served, created}

abbrev pub made : SwapMarket
made =
    (Market.refresh sample_env listing_clock 0 (
      new_market (codes "factory") (codes "router") wrappers.cw20_wrapper wrappers.erc20_wrapper)).0

create-made :
    create sample_env listing_clock 0
      (codes "factory")
      (codes "router")
      wrappers.cw20_wrapper
      wrappers.erc20_wrapper
    ≡ ok made
unfolding create Market.refresh refresh_all refresh_one lookup new_market Pair.create
    normalize_to_unwrapped_denom Cw20.is_wrapped_denom factory_token_source_matches starts_with
    Erc20.is_wrapped_denom
create-made = refl

pub made-Served : Served sample_env listing_clock wrappers made
made-Served = created 0 (codes "factory") (codes "router") create-made

abbrev pub made_pair : SwapMarketPair
made_pair =
    new_pair sample_env (codes "pair1") (500, 2000) 10 (pos 30 -ℤ pos 10) (usei, uatom)
      (usei, uatom) 1000 wrappers

made_pairs :
    (key : Str) → lookup key made.asset_pair_map ≡ (if key1 == key then some made_pair else none)
unfolding Market.refresh refresh_all refresh_one lookup new_market Pair.create
    normalize_to_unwrapped_denom Cw20.is_wrapped_denom factory_token_source_matches starts_with
    Erc20.is_wrapped_denom insert add_pair join_key
made_pairs key = refl

made-IsFunded : IsFunded made_pair 30
unfolding new_pair total_fee_basis_points ◌+ℤ◌ ◌-ℤ◌
made-IsFunded = record {
  deposit0 = omega arith;
  deposit1 = omega arith;
  total_fee = refl;
  fee-le = omega arith;
}

some_injective : {a b : SwapMarketPair} → some a ≡ some b → a ≡ b
some_injective h = cc

pub made-AllFunded : AllFunded made
made-AllFunded key p found =
    let e = sym (made_pairs key) ∙ found in
    elim (Bool-cases (key1 == key)) [
      | inl same ↦
          let e' : some made_pair ≡ some p = ground arith in
          (30, subst (λ q. IsFunded q 30) (some_injective e') made-IsFunded)
      | inr other ↦ absurd (ground arith)
    ]
