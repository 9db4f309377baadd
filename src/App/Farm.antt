-- ===== src/App/Farm.antt =====
-- packages/npm/sei-swaps-webapp/src/app/components/farm/farm.ts: the list of pools of the class
-- FarmComponent, which pools it shows and in which order.

pub mod Sorting
pub mod Searching
pub mod Listing
pub mod Item
use crownfi_sei_swaps.Prelude.{
  ℕ, ◌+◌, Bool, true, false, not, ◌&&◌, ◌||◌, List, [], ◌∷◌, Option, none, some, ltb, leb, length,
  if◌then◌else◌,
}
use crownfi_sei_swaps.Prelude.Integers.{gtb_ℤ}
use crownfi_sei_swaps.Text.{Str, codes, to_lower, includes, str_lt}
use crownfi_sei_swaps.Text.Split.{split}
use crownfi_sei_swaps.Platform.{Result, ok, err, ◌>>=◌}
use crownfi_sei_swaps.Platform.Dict.{Dict, lookup, insert}
use crownfi_sei_swaps.Pair.{SwapMarketPair, total_fee_basis_points}

pub data SortBy : Type 0 where
  alphabetical tvd uvd apy fees : SortBy

-- `FarmFiltersEventDetail`
pub record FarmFilters : Type 0 where
  pub my_pools : Bool
  pub crownfi_endorsed : Bool

pub record Farm : Type 0 where
  pub sort_by : SortBy
  pub filters : FarmFilters
  pub search : Str
  pub pool_pairs : List SwapMarketPair
  pub shares_balances : Dict ℕ

unfoldable pub new_farm : Farm
new_farm = record {
  sort_by = alphabetical;
  filters = record { my_pools = false; crownfi_endorsed = false };
  search = [];
  pool_pairs = [];
  shares_balances = [];
}

-- `Object.fromEntries` of the names and balances: a later pair of one name replaces the balance.
unfoldable pub balances_of : (Str → Result ℕ) → List SwapMarketPair → Dict ℕ → Result (Dict ℕ)
balances_of get_balance [] known = ok known
balances_of get_balance (p ∷ ps) known = do
  raw ← get_balance p.shares_denom
  balances_of get_balance ps (insert p.name raw known)

-- The pairs are those that the service answers; they are kept also if a balance is not answered.
unfoldable pub refresh_pool_pairs :
    Result (List SwapMarketPair) → (Str → Result ℕ) → Farm → Farm × Result (Unit {0})
unfolding balances_of
refresh_pool_pairs (err e) get_balance f = (f, err e)
refresh_pool_pairs (ok pairs) get_balance f = elim (balances_of get_balance pairs []) [
  | err e ↦ (record f { pool_pairs = pairs }, err e)
  | ok balances ↦ (record f { pool_pairs = pairs; shares_balances = balances }, ok tt)
]

-- `undefined` for a pair without a balance.
unfoldable pub get_share_balance : Farm → SwapMarketPair → Option ℕ
get_share_balance f p = lookup p.name f.shares_balances

-- `a > b`, which is false where either is `undefined`.
abbrev pub gt_known : Option ℕ → Option ℕ → Bool
gt_known none b = false
gt_known (some a) none = false
gt_known (some a) (some b) = ltb b a

abbrev pub keep : (SwapMarketPair → Bool) → List SwapMarketPair → List SwapMarketPair
keep test [] = []
keep test (p ∷ ps) = if test p then p ∷ keep test ps else keep test ps

abbrev pub every_term : (Str → Bool) → List Str → Bool
every_term test [] = true
every_term test (t ∷ ts) = test t && every_term test ts

abbrev pub some_term : (Str → Bool) → List Str → Bool
some_term test [] = false
some_term test (t ∷ ts) = test t || some_term test ts

unfoldable pub has_term : Str → SwapMarketPair → Bool
has_term term p = includes (to_lower p.name) (to_lower term)

unfoldable pub get_filtered_list : Farm → List SwapMarketPair → List SwapMarketPair
unfolding get_share_balance has_term
get_filtered_list f pairs =
    let nothing_asked = not f.filters.my_pools && not f.filters.crownfi_endorsed in
    let mine =
      if f.filters.my_pools
      then keep (λ p. gt_known (get_share_balance f p) (some 0)) pairs
      else pairs in
    let terms = split b' ' f.search in
    let check = λ (p : SwapMarketPair).
      if ltb 1 (length terms)
      then every_term (λ t. has_term t p) terms
      else some_term (λ t. has_term t p) terms in
    elim f.search [
      | [] ↦ if nothing_asked then pairs else keep check mine
      | c ∷ s ↦ keep check mine
    ]

abbrev pub sum_deposits : SwapMarketPair → ℕ
sum_deposits p = p.total_deposits.0 + p.total_deposits.1

-- Whether the comparison of the order asked for is -1, and not 1.
unfoldable pub comes_first : Farm → SortBy → (curr next : SwapMarketPair) → Bool
unfolding get_share_balance
comes_first f alphabetical curr next = not (str_lt next.name curr.name)
comes_first f tvd curr next = ltb (sum_deposits next) (sum_deposits curr)
comes_first f uvd curr next = gt_known (get_share_balance f curr) (get_share_balance f next)
comes_first f apy curr next =
    not (gtb_ℤ (total_fee_basis_points curr) (total_fee_basis_points next))
comes_first f fees curr next =
    not (gtb_ℤ (total_fee_basis_points curr) (total_fee_basis_points next))

-- `array.sort(compare)`, as an insertion of one element after the other: each goes in front of the
-- first that it compares as less than. The comparisons are never 0, so where two keys are equal
-- they are inconsistent, and another host may order such elements otherwise.
unfoldable pub insert_pair :
    (SwapMarketPair → SwapMarketPair → Bool)
    → SwapMarketPair
    → List SwapMarketPair
    → List SwapMarketPair
insert_pair first p [] = p ∷ []
insert_pair first p (q ∷ qs) = if first p q then p ∷ q ∷ qs else q ∷ insert_pair first p qs

unfoldable pub sort_pairs :
    (SwapMarketPair → SwapMarketPair → Bool)
    → List SwapMarketPair
    → List SwapMarketPair
    → List SwapMarketPair
unfolding insert_pair
sort_pairs first [] sorted = sorted
sort_pairs first (p ∷ ps) sorted = sort_pairs first ps (insert_pair first p sorted)

unfoldable pub get_sorted_list : Farm → SortBy → List SwapMarketPair → List SwapMarketPair
unfolding sort_pairs comes_first
get_sorted_list f sort pairs = sort_pairs (comes_first f sort) pairs []

-- The pools that `renderList` shows, in order.
unfoldable pub render_list : Farm → List SwapMarketPair
unfolding get_filtered_list get_sorted_list
render_list f = get_sorted_list f f.sort_by (get_filtered_list f f.pool_pairs)

-- The events that lead to a new list: another order, other filters, and, where it differs, another
-- search text, which is shown once the debouncing is over.
unfoldable pub on_sort_by : SortBy → Farm → Farm
on_sort_by sort_by f = record f { sort_by = sort_by }

unfoldable pub on_farm_filters : FarmFilters → Farm → Farm
on_farm_filters filters f = record f { filters = filters }

unfoldable pub handle_search : Str → Farm → Farm
handle_search search f = record f { search = search }
