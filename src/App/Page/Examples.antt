-- ===== src/App/Page/Examples.antt =====
-- A page of pools on which an order is chosen, and an application.
use crownfi_sei_swaps.Prelude.{ℕ, ◌≡◌, ◌≤◌, refl, true, In, [], ◌∷◌, some}
use crownfi_sei_swaps.Text.{Str, codes}
use crownfi_sei_swaps.Platform.{Result, ok}
use crownfi_sei_swaps.Pair.Samples.{sample_pair}
use crownfi_sei_swaps.App.Debounce.{Timer}
use crownfi_sei_swaps.App.Farm.{
  SortBy, fees, FarmFilters, refresh_pool_pairs, balances_of, render_list,
}
use crownfi_sei_swaps.App.Page.{
  Page, new_page, refresh_page, load_page, dropdown_select, order_fired, filters_fired,
}
use crownfi_sei_swaps.App.Page.Uses.{Past, is_ok, Reached, created, loaded, ordered}
use crownfi_sei_swaps.App.Page.Settles.{page_settles}

abbrev five_shares : Str → Result ℕ
five_shares denom = ok 5

-- An order that is chosen while the page loads, and waits for its timer as the first list comes.
abbrev early_page : Page
early_page = record (new_page 0) {
  sort_control = dropdown_select (codes "order") (some fees) (new_page 0).sort_control;
}

abbrev chosen_page : Page
chosen_page = (load_page (ok (sample_pair ∷ [])) five_shares early_page).0

abbrev chosen_past : Past
chosen_past = record {
  order_heard = true;
  filters_heard = true;
  rendered = is_ok (load_page (ok (sample_pair ∷ [])) five_shares early_page).1;
}

chosen_page-loads : (load_page (ok (sample_pair ∷ [])) five_shares early_page).1 ≡ ok tt
unfolding load_page refresh_page refresh_pool_pairs balances_of
chosen_page-loads = refl

chosen_page-Reached :
    Reached (codes "order") (codes "filters") (codes "search") 0 chosen_past chosen_page
unfolding new_page
chosen_page-Reached = loaded (ok (sample_pair ∷ [])) five_shares (ordered (some fees) created) refl

page_settles_example :
    (chosen_past.order_heard ≡ true
      → chosen_page.sort_control.callbacks.pending ≡ []
      → chosen_page.sort_control.selected ≡ some chosen_page.farm.sort_by)
    × (chosen_past.filters_heard ≡ true
        → chosen_page.filters_control.callbacks.pending ≡ []
        → chosen_page.farm.filters.my_pools ≡ chosen_page.filters_control.my_pools)
    × (chosen_past.rendered ≡ true
        → chosen_page.searches.pending ≡ []
        → chosen_page.shown ≡ render_list chosen_page.farm)
    × ((t : Timer SortBy)
        → chosen_page.listening ≡ true
        → In t chosen_page.sort_control.callbacks.pending
        → t.due ≤ chosen_page.sort_control.callbacks.now
        → (chosen_page.sort_control.selected ≡ some (order_fired t chosen_page).farm.sort_by)
          × ((order_fired t chosen_page).sort_control.callbacks.pending ≡ []))
    × ((t : Timer FarmFilters)
        → chosen_page.listening ≡ true
        → In t chosen_page.filters_control.callbacks.pending
        → t.due ≤ chosen_page.filters_control.callbacks.now
        → ((filters_fired t chosen_page).farm.filters.my_pools
            ≡ chosen_page.filters_control.my_pools)
          × ((filters_fired t chosen_page).filters_control.callbacks.pending ≡ []))
page_settles_example =
    page_settles (codes "order") (codes "filters") (codes "search") 0 chosen_past chosen_page
      chosen_page-Reached
