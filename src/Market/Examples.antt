-- ===== src/Market/Examples.antt =====
-- The theorems on the market and its routes, at concrete markets.
use crownfi_sei_swaps.Prelude.{
  ℕ, ◌+◌, ◌*◌, ◌≤◌, ◌≡◌, ◌≢◌, ◌↔◌, ◌⊎◌, inr, refl, true, false, [], ◌∷◌, Option, some, none, length,
  In, arith,
}
use crownfi_sei_swaps.Prelude.Integers.{pos}
use crownfi_sei_swaps.Text.{Str, codes, ◌==◌}
use crownfi_sei_swaps.Platform.{ok}
use crownfi_sei_swaps.Platform.Dict.{lookup, insert, values}
use crownfi_sei_swaps.Platform.Samples.{sample_env}
use crownfi_sei_swaps.Pair.{SwapMarketPair, new_pair}
use crownfi_sei_swaps.Pair.Samples.{usei, uatom, sample_pair}
use crownfi_sei_swaps.Market.{
  new_market, add_pair, get_all_pairs, wrapped_of, wrapped_or, get_direct_trade_map, has_asset,
}
use crownfi_sei_swaps.Market.Routing.{Route, Trades, find_route, search, scan, prepend, better}
use crownfi_sei_swaps.Market.Routing.Walks.{Edge, Walk, IsChain, IsSimple}
use crownfi_sei_swaps.Market.Routing.Terminates.{find_route-returns}
use crownfi_sei_swaps.Market.Routing.Complete.{find_route_iff}
use crownfi_sei_swaps.Market.Routing.Sources.{SomeTrades, get_direct_trade_map-Edge}
use crownfi_sei_swaps.Market.Consistency.{IsConsistent, market_trades}
use crownfi_sei_swaps.Market.Holdings.{HeldBy, HasWrapped, has_asset_iff}
use crownfi_sei_swaps.Market.Valuation.{exchange_value, get_total_value_locked}
use crownfi_sei_swaps.Market.Quotes.{exchange_value_returns, get_total_value_locked_returns}
use crownfi_sei_swaps.Platform.{Instruction}
use crownfi_sei_swaps.Prelude.{map, All}
use crownfi_sei_swaps.Platform.Samples.{sample_clock}
use crownfi_sei_swaps.Text.{str_lt}
use crownfi_sei_swaps.Text.Sort.{sort_pair}
use crownfi_sei_swaps.Pair.Volumes.{AssetVolume, asset_volume, asset_trade_volume_all_time}
use crownfi_sei_swaps.Market.{get_all_pairs}
use crownfi_sei_swaps.Market.Volumes.{VolumeQuery, normalized_trade_volume}
use crownfi_sei_swaps.Market.Totals.{
  IsValued, AreAnswered, AnswerWith, entry, total, normalized_trade_volume_lem,
}
use crownfi_sei_swaps.Market.Samples.{key1}
use crownfi_sei_swaps.Platform.Samples.{coin}
use crownfi_sei_swaps.Market.{SwapMarket, refresh, wrapped_or}
use crownfi_sei_swaps.Market.Swapping.{build_swap_ixs}
use crownfi_sei_swaps.Market.Trading.{IsSwap, build_swap_ixs_returns}
use crownfi_sei_swaps.Market.Samples.{sample_market-AllNamed}
use crownfi_sei_swaps.Market.Loading.{Reachable, Reachable-IsConsistent, constructed, refreshed}
use crownfi_sei_swaps.Wrapper.Samples.{wrappers}
use crownfi_sei_swaps.Market.Samples.{
  listing_clock, tradable, denoms_of, listing-KeepsTo, token, wrapped_pair, sample_market,
  sample_market-IsConsistent, sample_market-AllFunded,
}
use crownfi_sei_swaps.Market.Swapping.{SwapSimResult, simulate_market_swap}
use crownfi_sei_swaps.Market.Simulating.{Simulates, AreSteps, simulate_market_swap_returns}
use crownfi_sei_swaps.Platform.{Coin, CalcSwap, CalcNaiveSwap, Error, err}

abbrev a : Str
a = codes "A"

abbrev b : Str
b = codes "B"

abbrev c : Str
c = codes "C"

abbrev d : Str
d = codes "D"

-- A triangle of A, B and C, and D beside C.
abbrev triangle : Trades
triangle = (a, b ∷ c ∷ []) ∷ (b, a ∷ c ∷ []) ∷ (c, a ∷ b ∷ d ∷ []) ∷ (d, c ∷ []) ∷ []

-- From A to D the search goes over B, though A and C can be traded directly: C is seen on the way
-- through B, and never looked at again.
longer_route : find_route triangle a d ≡ ok (some ((a, b) ∷ (b, c) ∷ (c, d) ∷ []))
unfolding find_route search scan prepend better lookup ◌==◌
longer_route = refl

find_route-returns_example :
    (o : Option Route) × (find_route triangle a d ≡ ok o)
    × ((r : Route)
        → o ≡ some r
        → (r ≢ []) × IsChain triangle a d r × IsSimple [] r × (length r ≤ length triangle))
find_route-returns_example = find_route-returns triangle a d

find_route_iff_example : ((r : Route) × (find_route triangle a d ≡ ok (some r))) ↔ Walk triangle d a
find_route_iff_example = find_route_iff triangle a d

get_direct_trade_map-Edge_example :
    Edge (get_direct_trade_map (sample_pair ∷ wrapped_pair ∷ [])) uatom usei
    ↔ SomeTrades (sample_pair ∷ wrapped_pair ∷ []) uatom usei
get_direct_trade_map-Edge_example =
    get_direct_trade_map-Edge (sample_pair ∷ wrapped_pair ∷ []) uatom usei

exchange_value_returns_example :
    let x = wrapped_of sample_market usei in
    let y = wrapped_of sample_market token in
    ((w : ℕ) × (exchange_value sample_market (pos 100) usei token true ≡ ok (some (pos w)))
      × ((x ≡ y) ⊎ Walk (market_trades sample_market) y x))
    ⊎ ((exchange_value sample_market (pos 100) usei token true ≡ ok none)
        × (x ≢ y)
        × (¬ Walk (market_trades sample_market) y x))
exchange_value_returns_example =
    exchange_value_returns sample_market sample_market-IsConsistent sample_market-AllFunded 100 usei
      token true

get_total_value_locked_returns_example :
    (n : ℕ) × (get_total_value_locked sample_market usei (sample_pair ∷ wrapped_pair ∷ [])
      ≡ ok (pos n))
    × ((p : SwapMarketPair)
        → In p (sample_pair ∷ wrapped_pair ∷ [])
        → wrapped_of sample_market p.assets.0 ≡ wrapped_of sample_market usei
        → p.total_deposits.0 ≤ n)
    × ((p : SwapMarketPair)
        → In p (sample_pair ∷ wrapped_pair ∷ [])
        → wrapped_of sample_market p.assets.1 ≡ wrapped_of sample_market usei
        → p.total_deposits.1 ≤ n)
get_total_value_locked_returns_example =
    get_total_value_locked_returns sample_market sample_market-IsConsistent sample_market-AllFunded
      usei (sample_pair ∷ wrapped_pair ∷ [])

abbrev fresh : SwapMarket
fresh = new_market (codes "factory") (codes "router") wrappers.cw20_wrapper wrappers.erc20_wrapper

-- The market after one call of `refresh`, which finds the pair that the factory lists.
abbrev loaded : SwapMarket
loaded = (refresh sample_env listing_clock 0 fresh).0

loaded-Reachable : Reachable sample_env listing_clock wrappers loaded
loaded-Reachable = refreshed 0 (constructed (codes "factory") (codes "router"))

Reachable-IsConsistent_example : IsConsistent loaded
Reachable-IsConsistent_example =
    Reachable-IsConsistent sample_env listing_clock wrappers tradable denoms_of loaded
      listing-KeepsTo loaded-Reachable

-- From SEI over ATOM to the wrapped token, named by its unwrapped form.
build_swap_ixs_returns_example :
    let x = wrapped_or sample_market usei in
    let y = wrapped_or sample_market token in
    let built =
      build_swap_ixs sample_env sample_market (coin usei 100) token (codes "sei1bob") 1 none in
    ((r : Route) × (ix : Instruction) × (built ≡ ok (some (ix ∷ [])))
      × IsChain (market_trades sample_market) x y r
      × IsSwap sample_env sample_market sample_market-IsConsistent sample_market-AllNamed r
          (coin usei 100)
          (codes "sei1bob")
          1
          none
          ix
      × (x ≢ y))
    ⊎ ((built ≡ ok none) × ((x ≡ y) ⊎ (¬ Walk (market_trades sample_market) y x)))
build_swap_ixs_returns_example =
    build_swap_ixs_returns sample_env sample_market sample_market-IsConsistent
      sample_market-AllNamed (coin usei 100) token (codes "sei1bob") 1 none

-- A market of the one pair of SEI and ATOM.
abbrev one_pair : SwapMarket
one_pair = add_pair key1 sample_pair fresh

abbrev traded : Str → AssetVolume
traded key = record { coins = (coin uatom 40, coin usei 11); from = 0; to = 1000 }

valued : All (IsValued traded (wrapped_of one_pair usei)) (get_all_pairs one_pair)
unfolding get_all_pairs values add_pair new_market insert new_pair wrapped_of lookup ◌==◌ sort_pair
    str_lt
valued = (record { side = refl; coin = inr refl }, tt)

abbrev asked : VolumeQuery
asked = asset_trade_volume_all_time

first_answers : AreAnswered asked sample_clock 0 (get_all_pairs one_pair)
unfolding get_all_pairs values add_pair new_market insert new_pair asset_trade_volume_all_time
    asset_volume sort_pair str_lt
first_answers = ((_, refl), tt)

second_answers :
    AnswerWith asked sample_clock traded
      (0 + length (get_all_pairs one_pair))
      (get_all_pairs one_pair)
unfolding get_all_pairs values add_pair new_market insert new_pair asset_trade_volume_all_time
    asset_volume sort_pair str_lt
second_answers = (refl, tt)

normalized_trade_volume_lem_example :
    let entries = map (entry traded (wrapped_of one_pair usei)) (get_all_pairs one_pair) in
    normalized_trade_volume one_pair asked sample_clock 1 0 false usei none
    ≡ ok (record { pair_volumes = entries; total_volume = total entries; from = none; to = none })
normalized_trade_volume_lem_example =
    normalized_trade_volume_lem one_pair asked sample_clock traded 0 0 usei valued first_answers
      second_answers

abbrev doubled : Str → Coin → CalcSwap
doubled contract offer = record {
  maker_fee_amount = 0;
  result_amount = offer.amount * 2;
  spread_amount = 1;
  total_fee_amount = 0;
}

abbrev tripled : Str → Coin → CalcNaiveSwap
tripled contract offer = record {
  maker_fee_amount = 0;
  result_amount = offer.amount * 3;
  total_fee_amount = 0;
}

sample_clock-Simulates : Simulates sample_clock doubled tripled
sample_clock-Simulates = record {
  swaps = λ n contract offer. refl;
  naive_swaps = λ n contract offer. refl;
}

simulate_market_swap_returns_example :
    let x = wrapped_or sample_market usei in
    let y = wrapped_or sample_market token in
    let simulated =
      simulate_market_swap sample_env sample_market sample_clock 0 (coin usei 100) token in
    ((r : Route) × (s : SwapSimResult) × (simulated ≡ ok s)
      × (usei ≢ token)
      × IsChain (market_trades sample_market) x y r
      × AreSteps doubled r 100 s.swaps s.result_amount
      × (s.result_denom ≡ token))
    ⊎ ((e : Error) × (simulated ≡ err e)
        × ((usei ≡ token) ⊎ ((x ≢ y) × (¬ Walk (market_trades sample_market) y x))))
simulate_market_swap_returns_example =
    simulate_market_swap_returns sample_env sample_market sample_market-IsConsistent sample_clock
      doubled tripled sample_clock-Simulates 0 (coin usei 100) token

has_asset_iff_example : (has_asset sample_market (usei ∷ token ∷ []) ≡ true) ↔ (
    (a : Str)
    → In a (usei ∷ token ∷ [])
    → HeldBy sample_market.asset_pair_map a ⊎ HasWrapped sample_market a)
has_asset_iff_example =
    has_asset_iff sample_market (usei ∷ token ∷ []) sample_market-IsConsistent
      (λ k. ground arith, (λ k. k, tt))
