-- ===== src/App/Page/Settles.antt =====
-- The page of pools comes to show what its controls say.
use crownfi_sei_swaps.Prelude.{ℕ, ◌≤◌, ◌≡◌, refl, sym, ap, ◌∙◌, true, [], some, arith, In}
use crownfi_sei_swaps.Text.{Str}
use crownfi_sei_swaps.App.Debounce.{Timer}
use crownfi_sei_swaps.App.Debounce.Tracking.{Tracks-callback, Tracks-fire}
use crownfi_sei_swaps.App.Farm.{SortBy, FarmFilters, render_list, on_sort_by, on_farm_filters}
use crownfi_sei_swaps.App.Page.{
  Page, render, hear_order, hear_filters, pools_changed, order_fired, filters_fired, search_fired,
  change_crownfi_endorsed,
}
use crownfi_sei_swaps.App.Page.Uses.{
  Past, Reached, created, changed, loaded, refreshed, opened, ordered, own_pools, endorsed,
  searched, passed, order_ran, filters_ran, search_ran,
}
use crownfi_sei_swaps.App.Page.Controls.{OrderInStep-open, OrderInStep-select, FiltersInStep-change}
use crownfi_sei_swaps.App.Page.InStep.{
  IsInStep, start-IsInStep, load-IsInStep, refresh-IsInStep, search-IsInStep, pass-IsInStep,
  order-IsInStep, filters-IsInStep,
}

module _ (order_text filters_text search_text : Str) (start : ℕ) where
  Reached-IsInStep :
      {past : Past} {p : Page}
      → Reached order_text filters_text search_text start past p
      → IsInStep order_text filters_text search_text start past p
  unfolding change_crownfi_endorsed search_fired render pools_changed
  Reached-IsInStep created = start-IsInStep order_text filters_text search_text start
  Reached-IsInStep (loaded {past} {p} pairs get_balance r _) =
      load-IsInStep order_text filters_text search_text start pairs get_balance past p
        (Reached-IsInStep r)
  Reached-IsInStep (refreshed {past} {p} pairs get_balance r) =
      refresh-IsInStep order_text filters_text search_text start pairs get_balance past p
        (Reached-IsInStep r)
  Reached-IsInStep (changed pairs r) =
      let h = Reached-IsInStep r in
      record { orders = h.orders; filters = h.filters; listed = λ e. absurd (ground (arith, e)) }
  Reached-IsInStep (opened {past} {p} r) =
      let h = Reached-IsInStep r in
      record {
        orders =
            OrderInStep-open order_text start past.order_heard p.sort_control p.farm.sort_by
              h.orders;
        filters = h.filters;
        listed = h.listed;
      }
  Reached-IsInStep (ordered {past} {p} value r) =
      let h = Reached-IsInStep r in
      record {
        orders =
            OrderInStep-select order_text start past.order_heard value p.sort_control p.farm.sort_by
              h.orders;
        filters = h.filters;
        listed = h.listed;
      }
  Reached-IsInStep (own_pools {past} {p} checked r) =
      let h = Reached-IsInStep r in
      record {
        orders = h.orders;
        filters =
            FiltersInStep-change filters_text start past.filters_heard checked p.filters_control
              p.farm.filters h.filters;
        listed = h.listed;
      }
  Reached-IsInStep (endorsed checked r) =
      let h = Reached-IsInStep r in
      record {
        orders = h.orders;
        filters = record {
          chosen = h.filters.chosen;
          dispatched = h.filters.dispatched;
          own = h.filters.own;
          tracked = h.filters.tracked;
          taken = h.filters.taken;
        };
        listed = h.listed;
      }
  Reached-IsInStep (searched {past} {p} search r) =
      search-IsInStep order_text filters_text search_text start search past p (Reached-IsInStep r)
  Reached-IsInStep (passed {past} {p} n r) =
      pass-IsInStep order_text filters_text search_text start n past p (Reached-IsInStep r)
  Reached-IsInStep (order_ran {past} {p} t r m due) =
      order-IsInStep order_text filters_text search_text start t past p (Reached-IsInStep r) m due
  Reached-IsInStep (filters_ran {past} {p} t r m due) =
      filters-IsInStep order_text filters_text search_text start t past p (Reached-IsInStep r) m due
  Reached-IsInStep (search_ran t r m due) =
      let h = Reached-IsInStep r in
      record { orders = h.orders; filters = h.filters; listed = λ e k. refl }

  -- On every page that can come to be, before and after its first list, whether its refreshes
  -- succeed or fail: once no timer of the control of the order is pending, the list goes by the
  -- order that the control has selected, unless the latest order was dispatched before the page
  -- listened; once none of the filters is, it asks for the own pools exactly if the box is checked,
  -- with the same exception; and once no timer of the search is, what is shown is the list of the
  -- current order, filters, search text and pools, unless the pools have changed since the latest
  -- rendering. On a page that listens, a pending timer of either control brings this about when it
  -- is due: then the order is the selected one, or the own pools are asked for as the box says, and
  -- no timer of it is left.
  pub page_settles :
      (past : Past) (p : Page)
      → Reached order_text filters_text search_text start past p
      → (past.order_heard ≡ true
          → p.sort_control.callbacks.pending ≡ []
          → p.sort_control.selected ≡ some p.farm.sort_by)
        × (past.filters_heard ≡ true
            → p.filters_control.callbacks.pending ≡ []
            → p.farm.filters.my_pools ≡ p.filters_control.my_pools)
        × (past.rendered ≡ true → p.searches.pending ≡ [] → p.shown ≡ render_list p.farm)
        × ((t : Timer SortBy)
            → p.listening ≡ true
            → In t p.sort_control.callbacks.pending
            → t.due ≤ p.sort_control.callbacks.now
            → (p.sort_control.selected ≡ some (order_fired t p).farm.sort_by)
              × ((order_fired t p).sort_control.callbacks.pending ≡ []))
        × ((t : Timer FarmFilters)
            → p.listening ≡ true
            → In t p.filters_control.callbacks.pending
            → t.due ≤ p.filters_control.callbacks.now
            → ((filters_fired t p).farm.filters.my_pools ≡ p.filters_control.my_pools)
              × ((filters_fired t p).filters_control.callbacks.pending ≡ []))
  unfolding order_fired filters_fired hear_order hear_filters render on_sort_by on_farm_filters
  page_settles past p r =
      let h = Reached-IsInStep r in
      let o = h.orders in
      let f = h.filters in
      (
        λ heard e. o.selected ∙ ap some (sym (sym (o.taken heard) ∙ o.tracked.settled e)),
        λ heard e.
            ap (λ (x : FarmFilters). x.my_pools) (sym (f.taken heard) ∙ f.tracked.settled e)
            ∙ f.own,
        h.listed,
        λ t on m due.
            let (same, _) = Tracks-callback order_text start _ o.order _ t o.tracked m in
            let (_, empty) = Tracks-fire order_text start _ o.order _ t o.tracked m due in
            rw on (o.selected ∙ ap some (sym same), empty),
        λ t on m due.
            let (same, _) = Tracks-callback filters_text start _ f.chosen _ t f.tracked m in
            let (_, empty) = Tracks-fire filters_text start _ f.chosen _ t f.tracked m due in
            rw on (ap (λ (x : FarmFilters). x.my_pools) same ∙ f.own, empty),
      )
