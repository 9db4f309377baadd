-- ===== src/App/Page/Uses.antt =====
-- What can happen to the page of pools.
use crownfi_sei_swaps.Prelude.{ℕ, ◌+◌, ◌≤◌, ◌≡◌, Bool, true, false, ◌||◌, List, Option, In}
use crownfi_sei_swaps.Text.{Str}
use crownfi_sei_swaps.Platform.{Result, ok, err}
use crownfi_sei_swaps.Pair.{SwapMarketPair}
use crownfi_sei_swaps.App.Debounce.{Timer}
use crownfi_sei_swaps.App.Farm.{SortBy, FarmFilters}
use crownfi_sei_swaps.App.Page.{
  Page, new_page, refresh_page, load_page, pools_changed, order_fired, filters_fired, search_fired,
  dropdown_select, dropdown_open, change_my_pools, change_crownfi_endorsed, type_search,
}

-- Time passes.
unfoldable pub pass : ℕ → Page → Page
pass n p = record p {
  sort_control = record p.sort_control {
    callbacks = record p.sort_control.callbacks { now = p.sort_control.callbacks.now + n };
  };
  filters_control = record p.filters_control {
    callbacks = record p.filters_control.callbacks { now = p.filters_control.callbacks.now + n };
  };
  searches = record p.searches { now = p.searches.now + n };
}

-- What is to be known of the past of a page: whether the latest order and the latest filters that a
-- control dispatched were heard, where one was, and whether the list has been rendered since the
-- pools last changed.
pub record Past : Type 0 where
  pub order_heard : Bool
  pub filters_heard : Bool
  pub rendered : Bool

abbrev pub is_ok : Result (Unit {0}) → Bool
is_ok (ok r) = true
is_ok (err e) = false

module _ (order_text filters_text search_text : Str) (start : ℕ) where
  -- The pages that can come to be from the new one on, whatever the order of what happens, refreshes
  -- that fail included. The three objects' timers are those of one host, on which time passes for
  -- all of them.
  pub data Reached : Past → Page → Type 0 where
    created :
        Reached
          (record { order_heard = true; filters_heard = true; rendered = true })
          (new_page start)
    loaded :
        {past : Past} {p : Page} (pairs : Result (List SwapMarketPair))
        (get_balance : Str → Result ℕ)
        → Reached past p
        → p.listening ≡ false
        → Reached
            (record past { rendered = is_ok (load_page pairs get_balance p).1 })
            (load_page pairs get_balance p).0
    refreshed :
        {past : Past} {p : Page} (pairs : Result (List SwapMarketPair))
        (get_balance : Str → Result ℕ)
        → Reached past p
        → Reached
            (record past { rendered = is_ok (refresh_page pairs get_balance p).1 })
            (refresh_page pairs get_balance p).0
    changed :
        {past : Past} {p : Page} (pairs : List SwapMarketPair)
        → Reached past p
        → Reached (record past { rendered = false }) (pools_changed pairs p)
    opened :
        {past : Past} {p : Page}
        → Reached past p
        → Reached past (record p { sort_control = dropdown_open p.sort_control })
    ordered :
        {past : Past} {p : Page} (value : Option SortBy)
        → Reached past p
        → Reached past (record p { sort_control = dropdown_select order_text value p.sort_control })
    own_pools :
        {past : Past} {p : Page} (checked : Bool)
        → Reached past p
        → Reached past
            (record p { filters_control = change_my_pools filters_text checked p.filters_control })
    endorsed :
        {past : Past} {p : Page} (checked : Bool)
        → Reached past p
        → Reached past
            (record p { filters_control = change_crownfi_endorsed checked p.filters_control })
    searched :
        {past : Past} {p : Page} (search : Str)
        → Reached past p
        → Reached past (type_search search_text search p)
    passed : {past : Past} {p : Page} (n : ℕ) → Reached past p → Reached past (pass n p)
    order_ran :
        {past : Past} {p : Page} (t : Timer SortBy)
        → Reached past p
        → In t p.sort_control.callbacks.pending
        → t.due ≤ p.sort_control.callbacks.now
        → Reached
            (record past { order_heard = p.listening; rendered = past.rendered || p.listening })
            (order_fired t p)
    filters_ran :
        {past : Past} {p : Page} (t : Timer FarmFilters)
        → Reached past p
        → In t p.filters_control.callbacks.pending
        → t.due ≤ p.filters_control.callbacks.now
        → Reached
            (record past { filters_heard = p.listening; rendered = past.rendered || p.listening })
            (filters_fired t p)
    search_ran :
        {past : Past} {p : Page} (t : Timer (Unit {0}))
        → Reached past p
        → In t p.searches.pending
        → t.due ≤ p.searches.now
        → Reached (record past { rendered = true }) (search_fired t p)
