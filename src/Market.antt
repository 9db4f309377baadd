-- ===== src/Market.antt =====
-- packages/npm/sei-swaps-sdk/src/swap_market.ts, the class SwapMarket: its state, the constructor,
-- `refresh` and the lookups. `Routing` is the search for a route, `Valuation` the quotes over
-- several pairs, `Swapping` the instructions and simulations, `Volumes` the trade volumes.
pub mod Routing
pub mod Valuation
pub mod Swapping
pub mod Consistency
pub mod Holdings
pub mod Quotes
pub mod EitherOrder
pub mod Loading
pub mod Volumes
pub mod Totals
pub mod Trading
pub mod Simulating
pub mod Samples
mod Examples
use crownfi_sei_swaps.Prelude.{
  ℕ, ◌+◌, Bool, true, false, not, ◌&&◌, List, [], ◌∷◌, ◌++◌, Option, none, some, if◌then◌else◌,
}
use crownfi_sei_swaps.Text.{Str, codes, ◌==◌}
use crownfi_sei_swaps.Text.Split.{join_key, split}
use crownfi_sei_swaps.Platform.{Result, ok, err, ◌>>=◌, message, Env, Clock, CreatedPair}
use crownfi_sei_swaps.Platform.Dict.{Dict, lookup, insert, values}
use crownfi_sei_swaps.Wrapper.Multi.{MultiTokenWrapper}
use crownfi_sei_swaps.Pair
use crownfi_sei_swaps.Pair.{SwapMarketPair}

-- The pair objects are held once, in `asset_pair_map`, under their keys: an entry is never
-- replaced by another object, so the second map of objects, from names, holds the keys.
pub record SwapMarket : Type 0 where
  pub token_wrapper : MultiTokenWrapper
  pub factory_contract : Str
  pub router_contract : Str
  pub asset_pair_map : Dict SwapMarketPair
  pub marketing_name_to_pair : Dict Str
  pub unwrapped_to_wrapped : Dict Str

unfoldable pub new_market :
    (factory_contract_address router_contract_address cw20_wrapper_address
      erc20_wrapper_address : Str)
    → SwapMarket
new_market factory_contract_address router_contract_address cw20_wrapper_address
      erc20_wrapper_address =
    record {
      token_wrapper = record {
        cw20_wrapper = cw20_wrapper_address;
        erc20_wrapper = erc20_wrapper_address;
      };
      factory_contract = factory_contract_address;
      router_contract = router_contract_address;
      asset_pair_map = [];
      marketing_name_to_pair = [];
      unwrapped_to_wrapped = [];
    }

-- No chain has known contracts.
unfoldable pub get_from_chain_id : Str → Result SwapMarket
get_from_chain_id chain_id =
    err (message (codes "SwapMarket contract addresses aren't known for chain: " ++ chain_id))

-- One round of the loop over a new pair's assets.
abbrev pub note_unwrapped : (asset unwrapped : Str) → Dict Str → Dict Str
note_unwrapped asset unwrapped known =
    if asset == unwrapped then known else insert unwrapped asset known

unfoldable pub add_pair : Str → SwapMarketPair → SwapMarket → SwapMarket
add_pair key pair m = record m {
  asset_pair_map = insert key pair m.asset_pair_map;
  marketing_name_to_pair = insert pair.name key m.marketing_name_to_pair;
  unwrapped_to_wrapped =
      note_unwrapped pair.assets.1 pair.unwrapped_assets.1
        (note_unwrapped pair.assets.0 pair.unwrapped_assets.0 m.unwrapped_to_wrapped);
}

module _ (env : Env) (clock : Clock) where
  -- One round of the loop of `refresh`: a new pair is created, a known one is refreshed in place.
  unfoldable pub refresh_one : ℕ → SwapMarket → CreatedPair → SwapMarket × Result (Unit {0})
  unfolding add_pair
  refresh_one n m info =
      let key = join_key info.canonical_pair.0 info.canonical_pair.1 in
      elim (lookup key m.asset_pair_map) [
        | none ↦ elim (Pair.create env clock n info.address m.token_wrapper) [
          | err e ↦ (m, err e)
          | ok pair ↦ (add_pair key pair m, ok tt)
        ]
        | some pair ↦
            let (pair', r) = Pair.refresh clock n pair in
            (record m { asset_pair_map = insert key pair' m.asset_pair_map }, r)
      ]

  -- A round issues at most six queries. An error ends the loop.
  unfoldable pub refresh_all : ℕ → SwapMarket → List CreatedPair → SwapMarket × Result (Unit {0})
  unfolding refresh_one
  refresh_all n m [] = (m, ok tt)
  refresh_all n m (info ∷ infos) =
      let (m', r) = refresh_one n m info in
      elim r [ err e ↦ (m', err e) | ok _ ↦ refresh_all (n + 6) m' infos ]

  unfoldable pub refresh : ℕ → SwapMarket → SwapMarket × Result (Unit {0})
  unfolding refresh_all
  refresh n m = elim ((clock n).pairs m.factory_contract) [
    | err e ↦ (m, err e)
    | ok infos ↦ refresh_all (n + 1) m infos
  ]

unfoldable pub get_all_pairs : SwapMarket → List SwapMarketPair
get_all_pairs m = values m.asset_pair_map

-- `this.#unwrappedToWrapped[asset] || asset`, where an empty text counts as missing.
abbrev pub non_empty_or : Option Str → Str → Str
non_empty_or none asset = asset
non_empty_or (some []) asset = asset
non_empty_or (some (c ∷ s)) asset = c ∷ s

unfoldable pub wrapped_or : SwapMarket → Str → Str
wrapped_or m asset = non_empty_or (lookup asset m.unwrapped_to_wrapped) asset

-- `this.#unwrappedToWrapped[asset] ?? asset`
abbrev pub present_or : Option Str → Str → Str
present_or none asset = asset
present_or (some w) asset = w

unfoldable pub wrapped_of : SwapMarket → Str → Str
wrapped_of m asset = present_or (lookup asset m.unwrapped_to_wrapped) asset

-- `a ?? b`
abbrev pub or_else {ℓ} : {A : Type ℓ} → Option A → Option A → Option A
or_else none b = b
or_else (some a) b = some a

unfoldable pub get_pair : SwapMarket → Str × Str → Bool → Option SwapMarketPair
unfolding wrapped_or
get_pair m pair try_inverse =
    let a = wrapped_or m pair.0 in
    let b = wrapped_or m pair.1 in
    or_else (lookup (join_key a b) m.asset_pair_map)
      (if try_inverse then lookup (join_key b a) m.asset_pair_map else none)

unfoldable pub get_pair_from_name : SwapMarket → Str → Option SwapMarketPair
get_pair_from_name m marketing_name = elim (lookup marketing_name m.marketing_name_to_pair) [
  | none ↦ none
  | some key ↦ lookup key m.asset_pair_map
]

-- Adds a denom to the list of a denom.
unfoldable pub push_trade : Str → Str → Dict (List Str) → Dict (List Str)
push_trade from to trade = elim (lookup from trade) [
  | none ↦ insert from (to ∷ []) trade
  | some tos ↦ insert from (tos ++ (to ∷ [])) trade
]

unfoldable pub direct_trades : Dict (List Str) → List SwapMarketPair → Dict (List Str)
unfolding push_trade
direct_trades trade [] = trade
direct_trades trade (p ∷ ps) =
    direct_trades (push_trade p.assets.1 p.assets.0 (push_trade p.assets.0 p.assets.1 trade)) ps

unfoldable pub get_direct_trade_map : List SwapMarketPair → Dict (List Str)
unfolding direct_trades
get_direct_trade_map pairs = direct_trades [] pairs

-- `indexOf` and, if it is found, `splice` of one element.
unfoldable pub remove_first : Str → List Str → List Str
remove_first a [] = []
remove_first a (x ∷ xs) = if x == a then xs else x ∷ remove_first a xs

-- The first two parts of a key, those that there are.
abbrev pub remove_parts : List Str → List Str → List Str
remove_parts [] asset = asset
remove_parts (a ∷ []) asset = remove_first a asset
remove_parts (a ∷ b ∷ rest) asset = remove_first b (remove_first a asset)

abbrev pub all_known : SwapMarket → List Str → Bool
all_known m [] = true
all_known m (a ∷ as') =
    (elim (lookup a m.unwrapped_to_wrapped) [
      | none ↦ false
      | some [] ↦ false
      | some (c ∷ s) ↦ true
    ])
    && all_known m as'

-- The loop over the keys, which ends once no asset is left.
unfoldable pub has_asset_loop : SwapMarket → Dict SwapMarketPair → List Str → Bool
unfolding remove_first
has_asset_loop m [] asset = all_known m asset
has_asset_loop m ((k, p) ∷ rest) asset =
    let left = remove_parts (split 0 k) asset in
    elim left [ [] ↦ true | a ∷ more ↦ has_asset_loop m rest (a ∷ more) ]

unfoldable pub has_asset : SwapMarket → List Str → Bool
unfolding has_asset_loop
has_asset m asset = has_asset_loop m m.asset_pair_map asset
