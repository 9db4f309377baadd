-- ===== src/App/Page/Controls.antt =====
-- The two controls of the page of pools, each with what the list goes by.
use crownfi_sei_swaps.Prelude.{ℕ, ◌≡◌, refl, Bool, true, Option, none, some}
use crownfi_sei_swaps.Text.{Str}
use crownfi_sei_swaps.App.Debounce.Tracking.{Tracks, Tracks-call}
use crownfi_sei_swaps.App.Farm.{SortBy, FarmFilters}
use crownfi_sei_swaps.App.Page.{
  SortByControl, FiltersControl, handle_checked, dispatch_sort_by_event, dropdown_select,
  dropdown_open, dispatch_filter_event, change_my_pools,
}

module _ (text : Str) (start : ℕ) where
  -- A control's latest value is dispatched by its timer, and taken over if it is heard.
  pub record OrderInStep (heard : Bool) (c : SortByControl) (sort_by : SortBy) : Type 0 where
    pub order : SortBy
    pub dispatched : SortBy
    pub selected : c.selected ≡ some order
    pub tracked : Tracks text start c.callbacks order dispatched
    pub taken : heard ≡ true → dispatched ≡ sort_by

  pub record FiltersInStep (heard : Bool) (c : FiltersControl) (filters : FarmFilters)
      : Type 0 where
    pub chosen : FarmFilters
    pub dispatched : FarmFilters
    pub own : chosen.my_pools ≡ c.my_pools
    pub tracked : Tracks text start c.callbacks chosen dispatched
    pub taken : heard ≡ true → dispatched ≡ filters

  pub OrderInStep-open :
      (heard : Bool) (c : SortByControl) (sort_by : SortBy)
      → OrderInStep heard c sort_by
      → OrderInStep heard (dropdown_open c) sort_by
  unfolding dropdown_open handle_checked
  OrderInStep-open heard c sort_by h = record {
    order = h.order;
    dispatched = h.dispatched;
    selected = rw h.selected refl;
    tracked = rw h.selected h.tracked;
    taken = h.taken;
  }

  pub OrderInStep-select :
      (heard : Bool) (value : Option SortBy) (c : SortByControl) (sort_by : SortBy)
      → OrderInStep heard c sort_by
      → OrderInStep heard (dropdown_select text value c) sort_by
  unfolding dropdown_select dispatch_sort_by_event
  OrderInStep-select heard none c sort_by h = h
  OrderInStep-select heard (some value) c sort_by h = record {
    order = value;
    dispatched = h.dispatched;
    selected = refl;
    tracked = Tracks-call text start 500 c.callbacks h.order h.dispatched value h.tracked;
    taken = h.taken;
  }

  pub FiltersInStep-change :
      (heard checked : Bool) (c : FiltersControl) (filters : FarmFilters)
      → FiltersInStep heard c filters
      → FiltersInStep heard (change_my_pools text checked c) filters
  unfolding change_my_pools dispatch_filter_event
  FiltersInStep-change heard checked c filters h = record {
    chosen = record { my_pools = checked; crownfi_endorsed = c.crownfi_endorsed };
    dispatched = h.dispatched;
    own = refl;
    tracked = Tracks-call text start 500 c.callbacks h.chosen h.dispatched _ h.tracked;
    taken = h.taken;
  }
