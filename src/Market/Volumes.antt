-- ===== src/Market/Volumes.antt =====
-- packages/npm/sei-swaps-sdk/src/swap_market.ts, the class SwapMarket: the trade volumes of several
-- pairs in one denom. The queries of one `Promise.all` answer in the order in which they are issued,
-- each pair's second query after all first ones.
use crownfi_sei_swaps.Prelude.{
  ℕ, zero, suc, ◌+◌, ◌*◌, Bool, true, false, ◌||◌, ◌&&◌, not, List, [], ◌∷◌, ◌++◌, Option, none,
  some, eqb, length, if◌then◌else◌,
}
use crownfi_sei_swaps.Text.{Str, codes, ◌==◌, contains}
use crownfi_sei_swaps.Text.Split.{join_key, split}
use crownfi_sei_swaps.Text.Sort.{sort_pair}
use crownfi_sei_swaps.Platform.{
  Result, ok, err, ◌>>=◌, map_result, message, pair_not_found, unsatisfiable_route, out_of_fuel,
  Coin, Chain, Clock,
}
use crownfi_sei_swaps.Platform.Dict.{Dict, lookup, insert}
use crownfi_sei_swaps.Pair.{SwapMarketPair}
use crownfi_sei_swaps.Pair.Quotes.{div_ℕ}
use crownfi_sei_swaps.Pair.Volumes as PairVolumes
use crownfi_sei_swaps.Pair.Volumes.{AssetVolume}
use crownfi_sei_swaps.Market.{
  SwapMarket, wrapped_of, get_all_pairs, get_direct_trade_map, get_pair, remove_first,
}
use crownfi_sei_swaps.Market.Routing.{Route, Trades, find_route}

-- `SwapMarketMultiNormalizedVolumeResult`; `none` is an invalid date.
pub record MultiVolume : Type 0 where
  pub pair_volumes : List ((Str × Str) × ℕ)
  pub total_volume : ℕ
  pub from : Option ℕ
  pub to : Option ℕ

abbrev pub VolumeQuery : Type 0
VolumeQuery = SwapMarketPair → Chain → Result AssetVolume

-- The routes by the denom that they start from, and the keys of further pairs that they need.
abbrev pub Hops : Type 0
Hops = Dict Route × List Str

abbrev pub canon_key : SwapMarketPair → Str
canon_key p = join_key p.canon_assets.0 p.canon_assets.1

abbrev pub sorted_key : Str × Str → Str
sorted_key hop = let s = sort_pair hop in join_key s.0 s.1

-- `set.add(key)`
abbrev pub add_key : Str → List Str → List Str
add_key key keys = if contains keys key then keys else keys ++ (key ∷ [])

abbrev pub add_keys : Route → List Str → List Str
add_keys [] keys = keys
add_keys (hop ∷ r) keys = add_keys r (add_key (sorted_key hop) keys)

-- The first two parts of a key; a missing part joins as the empty text.
abbrev pub two_parts : List Str → Str × Str
two_parts [] = ([], [])
two_parts (a ∷ []) = (a, [])
two_parts (a ∷ b ∷ rest) = (a, b)

abbrev pub has_side : SwapMarketPair → Str → Bool
has_side p denom = p.assets.0 == denom || p.assets.1 == denom

module _ (m : SwapMarket) where
  unfoldable pub chosen_pairs : Option (List (Str × Str)) → Result (List SwapMarketPair)
  unfolding map_result
  chosen_pairs none = ok (get_all_pairs m)
  chosen_pairs (some ids) =
      map_result
        (λ id. elim (get_pair m id true) [ none ↦ err (pair_not_found id) | some p ↦ ok p ]) ids

  -- One asset of the loop that collects the routes: over the given pairs, or over all.
  unfoldable pub note_route : Trades → Str → Str → Hops → Result Hops
  note_route given valuation asset (hops, needed) = elim (lookup asset hops) [
    | some r ↦ ok (hops, needed)
    | none ↦ find_route given asset valuation >>= (λ first. elim first [
      | some r ↦ ok (insert asset r hops, needed)
      | none ↦ find_route (get_direct_trade_map (get_all_pairs m)) asset valuation >>= (λ second.
          elim second [
            | none ↦ err (unsatisfiable_route asset valuation)
            | some r ↦ ok (insert asset r hops, add_keys r needed)
          ])
    ])
  ]

  unfoldable pub collect_routes : Trades → Str → List SwapMarketPair → Hops → Result Hops
  unfolding note_route
  collect_routes given valuation [] hops = ok hops
  collect_routes given valuation (p ∷ ps) hops =
      if has_side p valuation
      then collect_routes given valuation ps hops
      else (note_route given valuation p.assets.0 hops >>= (λ hops1.
          note_route given valuation p.assets.1 hops1
          >>= (λ hops2. collect_routes given valuation ps hops2)))

  -- The keys that remain once those of the given pairs are deleted.
  unfoldable pub further_keys : List SwapMarketPair → List Str → List Str
  further_keys [] keys = keys
  further_keys (p ∷ ps) keys = further_keys ps (remove_first (canon_key p) keys)

  unfoldable pub further_pairs : List Str → Result (List SwapMarketPair)
  unfolding map_result
  further_pairs keys =
      map_result
        (λ key. elim (get_pair m (two_parts (split 0 key)) false) [
          | none ↦ err (
              message
                (codes "This shouldn't happen: Could not get pair even though it was in the route"))
          | some p ↦ ok p
        ])
        keys

-- One query for each pair, from the n-th on.
unfoldable pub query_volumes :
    VolumeQuery → Clock → ℕ → List SwapMarketPair → Result (List AssetVolume)
query_volumes query clock n [] = ok []
query_volumes query clock n (p ∷ ps) = do
  ok ((← query p (clock n)) ∷ (← query_volumes query clock (n + 1) ps))

unfoldable pub volumes_by_key :
    List SwapMarketPair → List AssetVolume → Dict AssetVolume → Dict AssetVolume
volumes_by_key [] vs d = d
volumes_by_key (p ∷ ps) [] d = d
volumes_by_key (p ∷ ps) (v ∷ vs) d = volumes_by_key ps vs (insert (canon_key p) v d)

abbrev pub all_to : ℕ → List AssetVolume → Bool
all_to t [] = true
all_to t (v ∷ vs) = eqb v.to t && all_to t vs

-- Whether all volumes end at the same time.
abbrev pub same_to : List AssetVolume → Bool
same_to [] = true
same_to (v ∷ vs) = all_to v.to (v ∷ vs)

-- `doVolumeMultiRoute`: every hop trades at the ratio of its pair's two volumes.
unfoldable pub volume_along : Dict AssetVolume → Route → Str → ℕ → Result ℕ
volume_along volumes [] from_denom amount = ok amount
volume_along volumes (hop ∷ rest) from_denom amount = elim (lookup (sorted_key hop) volumes) [
  | none ↦ err (
      message
        (codes "This shouldn't happen: Couldn't get pair volume even though it was in the route"))
  | some v ↦
      let second = v.coins.1.denom == from_denom in
      let own : Coin = if second then v.coins.1 else v.coins.0 in
      let other : Coin = if second then v.coins.0 else v.coins.1 in
      div_ℕ (amount * other.amount) own.amount
      >>= (λ next. volume_along volumes rest other.denom next)
]

unfoldable pub do_volume_multi_route : Dict Route → Dict AssetVolume → Coin → Result ℕ
unfolding volume_along
do_volume_multi_route hops volumes coin = elim (lookup coin.denom hops) [
  | none ↦
      err (message (codes "This shouldn't happen: doVolumeMultiRoute was called without a route"))
  | some r ↦ volume_along volumes r coin.denom coin.amount
]

-- A pair's volume in the denom of the valuation.
unfoldable pub pair_volume : Str → Dict Route → Dict AssetVolume → AssetVolume → Result ℕ
unfolding do_volume_multi_route
pair_volume valuation hops volumes v =
    if v.coins.0.denom == valuation
    then ok (v.coins.0.amount * 2)
    else if v.coins.1.denom == valuation
    then ok (v.coins.1.amount * 2)
    else (do_volume_multi_route hops volumes v.coins.0
        >>= (λ a. do_volume_multi_route hops volumes v.coins.1 >>= (λ b. ok (a + b))))

-- The loop that adds up the volumes; the two times stay infinite, so the dates are invalid.
unfoldable pub sum_volumes :
    Str
    → Dict Route
    → Dict AssetVolume
    → List SwapMarketPair
    → List ((Str × Str) × ℕ)
    → ℕ
    → Result MultiVolume
sum_volumes valuation hops volumes [] done total =
    ok (record { pair_volumes = done; total_volume = total; from = none; to = none })
sum_volumes valuation hops volumes (p ∷ ps) done total = elim (lookup (canon_key p) volumes) [
  | none ↦
      err (
        message
          (codes "This shouldn't happen: We apparently didn't get the total volume we needed"))
  | some v ↦ pair_volume valuation hops volumes v >>= (λ amount.
      sum_volumes valuation hops volumes ps (done ++ ((p.assets, amount) ∷ [])) (total + amount))
]

module _ (m : SwapMarket) (query : VolumeQuery) (clock : Clock) where
  -- What stands before the queries: the pairs, the routes and the further pairs.
  unfoldable pub prepare :
      Str
      → Option (List (Str × Str))
      → Result (List SwapMarketPair × Dict Route × List SwapMarketPair)
  unfolding chosen_pairs collect_routes further_keys further_pairs
  prepare valuation pairs = do
    given ← chosen_pairs m pairs
    (hops, needed) ← collect_routes m (get_direct_trade_map given) valuation given ([], [])
    further ← further_pairs m (further_keys m given needed)
    ok (given, hops, further)

  -- The recursion asks again if the volumes had to end at the same time and did not; each round
  -- issues two queries for every pair.
  unfoldable pub normalized_trade_volume :
      ℕ → ℕ → Bool → Str → Option (List (Str × Str)) → Result MultiVolume
  unfolding prepare query_volumes volumes_by_key sum_volumes
  normalized_trade_volume zero n enforce denom pairs = err out_of_fuel
  normalized_trade_volume (suc fuel) n enforce denom pairs = do
    let valuation = wrapped_of m denom
    (given, hops, further) ← prepare valuation pairs
    let all = given ++ further
    firsts ← query_volumes query clock n all
    seconds ← query_volumes query clock (n + length all) all
    let again = normalized_trade_volume fuel (n + length all + length all) enforce valuation pairs
    if enforce && not (same_to firsts)
        then again
        else sum_volumes valuation hops (volumes_by_key all seconds []) given [] 0

-- The three methods of the market, none of which asks again.
module _ (m : SwapMarket) (clock : Clock) where
  unfoldable pub normalized_trade_volume_all_time :
      ℕ → Str → Option (List (Str × Str)) → Result MultiVolume
  unfolding normalized_trade_volume
  normalized_trade_volume_all_time n denom pairs =
      normalized_trade_volume m PairVolumes.asset_trade_volume_all_time clock 1 n false denom pairs

  unfoldable pub normalized_trade_volume_past_hours :
      ℕ → Str → Option ℕ → Option (List (Str × Str)) → Result MultiVolume
  unfolding normalized_trade_volume
  normalized_trade_volume_past_hours n denom hours pairs =
      normalized_trade_volume m (λ p chain. PairVolumes.asset_trade_volume_past_hours p chain hours)
        clock 1 n false denom pairs

  unfoldable pub normalized_trade_volume_past_days :
      ℕ → Str → Option ℕ → Option (List (Str × Str)) → Result MultiVolume
  unfolding normalized_trade_volume
  normalized_trade_volume_past_days n denom days pairs =
      normalized_trade_volume m (λ p chain. PairVolumes.asset_trade_volume_past_days p chain days)
        clock 1 n false denom pairs
