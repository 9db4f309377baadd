-- ===== src/App/Page.antt =====
-- packages/npm/sei-swaps-webapp/src/app/components/farm: the page of pools with its two controls.
-- sort-by/sort-by.ts is SortByComponent, filters/filters.ts is FarmFiltersComponent, and farm.ts has
-- the listeners of FarmComponent, over the list that App/Farm renders. Each of the three objects has
-- its own debounced callbacks, each with one function, whose text is a parameter.
pub mod Uses
pub mod Controls
pub mod InStep
pub mod Settles
mod Examples
use crownfi_sei_swaps.Prelude.{
  ℕ, ◌+◌, ◌≤◌, Bool, true, false, not, ◌||◌, List, [], Option, none, some, ◌≡◌, In, if◌then◌else◌,
}
use crownfi_sei_swaps.Text.{Str, ◌==◌}
use crownfi_sei_swaps.Platform.{Result, ok, err}
use crownfi_sei_swaps.Pair.{SwapMarketPair}
use crownfi_sei_swaps.App.Debounce.{Timer, quietly, Debounced, new_debounced, call, fire}
use crownfi_sei_swaps.App.Farm.{
  SortBy, FarmFilters, Farm, new_farm, refresh_pool_pairs, render_list, on_sort_by, on_farm_filters,
  handle_search,
}

-- `SortByComponent`: its choice, the radio button that is checked, and its callbacks, which
-- dispatch an order.
pub record SortByControl : Type 0 where
  pub selected : Option SortBy
  pub checked : Option SortBy
  pub callbacks : Debounced SortBy

-- `FarmFiltersComponent`: its two boxes, and its callbacks, which dispatch filters.
pub record FiltersControl : Type 0 where
  pub my_pools : Bool
  pub crownfi_endorsed : Bool
  pub callbacks : Debounced FarmFilters

-- What is shown are the pools as they were at the latest `renderList`, while the farm's are the
-- market's own objects, whose figures other requests refresh. The page listens to its controls once
-- it has loaded.
pub record Page : Type 0 where
  pub farm : Farm
  pub listening : Bool
  pub shown : List SwapMarketPair
  pub sort_control : SortByControl
  pub filters_control : FiltersControl
  pub searches : Debounced (Unit {0})

unfoldable pub new_sort_by : ℕ → SortByControl
new_sort_by now = record { selected = none; checked = none; callbacks = new_debounced now }

unfoldable pub handle_checked : Option SortBy → SortByControl → SortByControl
handle_checked none c = c
handle_checked (some sort_by) c = record c { checked = some sort_by }

unfoldable pub on_default_changed : Option SortBy → SortByControl → SortByControl
unfolding handle_checked
on_default_changed default c = handle_checked default (record c { selected = default })

unfoldable pub dropdown_open : SortByControl → SortByControl
unfolding handle_checked
dropdown_open c = handle_checked c.selected c

unfoldable pub new_filters : ℕ → FiltersControl
new_filters now = record {
  my_pools = false;
  crownfi_endorsed = false;
  callbacks = new_debounced now;
}

module _ (text : Str) where
  unfoldable pub dispatch_sort_by_event : SortByControl → SortByControl
  dispatch_sort_by_event c = elim c.selected [
    | none ↦ c
    | some sort_by ↦ record c { callbacks = call text sort_by 500 c.callbacks }
  ]

  -- `dropdownSelect`, with the value of the radio button, `none` where there is none.
  unfoldable pub dropdown_select : Option SortBy → SortByControl → SortByControl
  unfolding dispatch_sort_by_event
  dropdown_select none c = c
  dropdown_select (some sort_by) c = dispatch_sort_by_event (record c { selected = some sort_by })

  unfoldable pub dispatch_filter_event : FiltersControl → FiltersControl
  dispatch_filter_event c = record c {
    callbacks =
        call text (record { my_pools = c.my_pools; crownfi_endorsed = c.crownfi_endorsed }) 500
          c.callbacks;
  }

  -- A click on the box for the own pools, and one on the other, to which nothing listens.
  unfoldable pub change_my_pools : Bool → FiltersControl → FiltersControl
  unfolding dispatch_filter_event
  change_my_pools checked c = dispatch_filter_event (record c { my_pools = checked })

  -- What the user types into the field of the search.
  unfoldable pub type_search : Str → Page → Page
  type_search search p =
      if not p.listening || search == p.farm.search
      then p
      else record p { farm = handle_search search p.farm; searches = call text tt 500 p.searches }

unfoldable pub change_crownfi_endorsed : Bool → FiltersControl → FiltersControl
change_crownfi_endorsed checked c = record c { crownfi_endorsed = checked }

unfoldable pub render : Page → Page
render p = record p { shown = render_list p.farm }

-- The start of `connectedCallback`, up to the wait for the pools.
unfoldable pub new_page : ℕ → Page
unfolding new_farm new_sort_by on_default_changed new_filters
new_page now = record {
  farm = new_farm;
  listening = false;
  shown = [];
  sort_control = on_default_changed (some new_farm.sort_by) (new_sort_by now);
  filters_control = new_filters now;
  searches = new_debounced now;
}

-- `await this.refreshPoolPairs()` and then `renderList`, which an error leaves out: at the start,
-- and after a deposit or a withdrawal.
unfoldable pub refresh_page :
    Result (List SwapMarketPair) → (Str → Result ℕ) → Page → Page × Result (Unit {0})
unfolding render
refresh_page pairs get_balance p =
    let (f, r) = refresh_pool_pairs pairs get_balance p.farm in
    elim r [
      | err e ↦ (record p { farm = f }, err e)
      | ok _ ↦ (render (record p { farm = f }), ok tt)
    ]

-- The rest of `connectedCallback`: the listeners are added once the first list is rendered.
unfoldable pub load_page :
    Result (List SwapMarketPair) → (Str → Result ℕ) → Page → Page × Result (Unit {0})
unfolding refresh_page
load_page pairs get_balance p =
    let (q, r) = refresh_page pairs get_balance p in
    elim r [ err e ↦ (q, err e) | ok _ ↦ (record q { listening = true }, ok tt) ]

-- The listeners of `sortByEvent` and `farmFiltersEvent`; an event that comes before they are added
-- is lost.
unfoldable pub hear_order : SortBy → Page → Page
unfolding render
hear_order sort_by p =
    if p.listening then render (record p { farm = on_sort_by sort_by p.farm }) else p

unfoldable pub hear_filters : FarmFilters → Page → Page
unfolding render
hear_filters filters p =
    if p.listening then render (record p { farm = on_farm_filters filters p.farm }) else p

-- The timers run, and dispatch `sortByEvent` and `farmFiltersEvent`, or render the list of a search.
unfoldable pub order_fired : Timer SortBy → Page → Page
unfolding hear_order
order_fired t p = hear_order t.callback (record p {
  sort_control = record p.sort_control { callbacks = fire t quietly p.sort_control.callbacks };
})

unfoldable pub filters_fired : Timer FarmFilters → Page → Page
unfolding hear_filters
filters_fired t p = hear_filters t.callback (record p {
  filters_control = record p.filters_control {
    callbacks = fire t quietly p.filters_control.callbacks;
  };
})

unfoldable pub search_fired : Timer (Unit {0}) → Page → Page
unfolding render
search_fired t p = render (record p { searches = fire t quietly p.searches })

-- Another request of the application refreshes the figures of the market's pairs in place.
unfoldable pub pools_changed : List SwapMarketPair → Page → Page
pools_changed ps p = record p { farm = record p.farm { pool_pairs = ps } }
