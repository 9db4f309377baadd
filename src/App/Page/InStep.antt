-- ===== src/App/Page/InStep.antt =====
-- What holds of every page of pools, and what keeps it.
use crownfi_sei_swaps.Prelude.{
  ℕ, ◌≤◌, ◌≡◌, inl, inr, refl, sym, subst, true, not, ◌||◌, List, [], arith, In, Bool-cases,
}
use crownfi_sei_swaps.Text.{Str, ◌==◌}
use crownfi_sei_swaps.Platform.{Result, ok, err, Result-cases}
use crownfi_sei_swaps.Pair.{SwapMarketPair}
use crownfi_sei_swaps.App.Debounce.{Timer}
use crownfi_sei_swaps.App.Debounce.Tracking.{Tracks-begin, Tracks-wait, Tracks-fire, call_pending}
use crownfi_sei_swaps.App.Farm.{
  SortBy, FarmFilters, Farm, new_farm, refresh_pool_pairs, balances_of, render_list, on_sort_by,
  on_farm_filters, handle_search, get_sorted_list, sort_pairs, get_filtered_list,
}
use crownfi_sei_swaps.App.Page.{
  Page, new_page, new_sort_by, new_filters, on_default_changed, handle_checked, render,
  refresh_page, load_page, hear_order, hear_filters, order_fired, filters_fired, type_search,
}
use crownfi_sei_swaps.App.Page.Uses.{Past, is_ok, pass}
use crownfi_sei_swaps.App.Page.Controls.{OrderInStep, FiltersInStep}

module _ (order_text filters_text search_text : Str) (start : ℕ) where
  -- What holds of a page with this past: of its two controls and of its list.
  pub record IsInStep (past : Past) (p : Page) : Type 0 where
    pub orders : OrderInStep order_text start past.order_heard p.sort_control p.farm.sort_by
    pub filters :
        FiltersInStep filters_text start past.filters_heard p.filters_control p.farm.filters
    pub listed : past.rendered ≡ true → p.searches.pending ≡ [] → p.shown ≡ render_list p.farm

  -- A refresh changes neither the order nor the filters.
  refresh-kept :
      (pairs : Result (List SwapMarketPair)) (get_balance : Str → Result ℕ) (f : Farm)
      → ((refresh_pool_pairs pairs get_balance f).0.sort_by ≡ f.sort_by)
        × ((refresh_pool_pairs pairs get_balance f).0.filters ≡ f.filters)
  unfolding refresh_pool_pairs
  refresh-kept (err e) get_balance f = (refl, refl)
  refresh-kept (ok pairs) get_balance f = elim (Result-cases (balances_of get_balance pairs [])) [
    | inl (balances, e) ↦ rw (e, refresh_pool_pairs) (refl, refl)
    | inr (error, e) ↦ rw (e, refresh_pool_pairs) (refl, refl)
  ]

  pub refresh-IsInStep :
      (pairs : Result (List SwapMarketPair)) (get_balance : Str → Result ℕ) (past : Past) (p : Page)
      → IsInStep past p
      → IsInStep
          (record past { rendered = is_ok (refresh_page pairs get_balance p).1 })
          (refresh_page pairs get_balance p).0
  unfolding refresh_page render
  refresh-IsInStep pairs get_balance past p h =
      let (order, filters) = refresh-kept pairs get_balance p.farm in
      let orders =
        subst (OrderInStep order_text start past.order_heard p.sort_control) (sym order) h.orders in
      let filtered =
        subst (FiltersInStep filters_text start past.filters_heard p.filters_control) (sym filters)
          h.filters in
      elim (Result-cases (refresh_pool_pairs pairs get_balance p.farm).1) [
        | inl (_, done) ↦
            rw (done, refresh_page)
              (record { orders = orders; filters = filtered; listed = λ e k. refl })
        | inr (error, failed) ↦
            rw (failed, refresh_page)
              (record {
                orders = orders;
                filters = filtered;
                listed = λ e. absurd (ground (arith, e));
              })
      ]

  pub load-IsInStep :
      (pairs : Result (List SwapMarketPair)) (get_balance : Str → Result ℕ) (past : Past) (p : Page)
      → IsInStep past p
      → IsInStep
          (record past { rendered = is_ok (load_page pairs get_balance p).1 })
          (load_page pairs get_balance p).0
  unfolding load_page
  load-IsInStep pairs get_balance past p h =
      let q = refresh_page pairs get_balance p in
      let g = refresh-IsInStep pairs get_balance past p h in
      elim (Result-cases q.1) [
        | inl (_, done) ↦
            rw (done, load_page)
              (record {
                orders = g.orders;
                filters = g.filters;
                listed = λ e. g.listed (rw done refl);
              })
        | inr (error, failed) ↦
            rw (failed, load_page)
              (record {
                orders = g.orders;
                filters = g.filters;
                listed = λ e. absurd (ground (arith, e));
              })
      ]

  pub start-IsInStep :
      IsInStep
        (record { order_heard = true; filters_heard = true; rendered = true })
        (new_page start)
  unfolding new_page new_farm new_sort_by on_default_changed handle_checked new_filters render_list
      get_sorted_list sort_pairs get_filtered_list
  start-IsInStep = record {
    orders = record {
      order = SortBy.alphabetical;
      dispatched = SortBy.alphabetical;
      selected = refl;
      tracked = Tracks-begin order_text start SortBy.alphabetical;
      taken = λ e. refl;
    };
    filters = record {
      chosen = new_farm.filters;
      dispatched = new_farm.filters;
      own = refl;
      tracked = Tracks-begin filters_text start new_farm.filters;
      taken = λ e. refl;
    };
    listed = λ e k. refl;
  }

  pub search-IsInStep :
      (search : Str) (past : Past) (p : Page)
      → IsInStep past p
      → IsInStep past (type_search search_text search p)
  unfolding type_search handle_search
  search-IsInStep search past p h = elim (Bool-cases (not p.listening || search == p.farm.search)) [
    | inl same ↦ rw same h
    | inr other ↦ rw other (record {
      orders = h.orders;
      filters = h.filters;
      listed = λ e k. absurd (call_pending search_text tt 500 p.searches k);
    })
  ]

  pub pass-IsInStep : (n : ℕ) (past : Past) (p : Page) → IsInStep past p → IsInStep past (pass n p)
  unfolding pass
  pass-IsInStep n past p h = record {
    orders = record {
      order = h.orders.order;
      dispatched = h.orders.dispatched;
      selected = h.orders.selected;
      tracked = Tracks-wait order_text start n p.sort_control.callbacks _ _ h.orders.tracked;
      taken = h.orders.taken;
    };
    filters = record {
      chosen = h.filters.chosen;
      dispatched = h.filters.dispatched;
      own = h.filters.own;
      tracked = Tracks-wait filters_text start n p.filters_control.callbacks _ _ h.filters.tracked;
      taken = h.filters.taken;
    };
    listed = h.listed;
  }

  pub order-IsInStep :
      (t : Timer SortBy) (past : Past) (p : Page)
      → IsInStep past p
      → In t p.sort_control.callbacks.pending
      → t.due ≤ p.sort_control.callbacks.now
      → IsInStep
          (record past { order_heard = p.listening; rendered = past.rendered || p.listening })
          (order_fired t p)
  unfolding order_fired hear_order render on_sort_by
  order-IsInStep t past p h m due =
      let o = h.orders in
      let after =
        (Tracks-fire order_text start p.sort_control.callbacks o.order o.dispatched t o.tracked m
          due).0 in
      elim (Bool-cases p.listening) [
        | inl on ↦ rw on (record {
          orders = record {
            order = o.order;
            dispatched = t.callback;
            selected = o.selected;
            tracked = after;
            taken = λ e. refl;
          };
          filters = h.filters;
          listed = λ e k. refl;
        })
        | inr off ↦ rw off (record {
          orders = record {
            order = o.order;
            dispatched = t.callback;
            selected = o.selected;
            tracked = after;
            taken = λ e. absurd (ground (arith, e));
          };
          filters = h.filters;
          listed = λ e. h.listed (ground (arith, e));
        })
      ]

  pub filters-IsInStep :
      (t : Timer FarmFilters) (past : Past) (p : Page)
      → IsInStep past p
      → In t p.filters_control.callbacks.pending
      → t.due ≤ p.filters_control.callbacks.now
      → IsInStep
          (record past { filters_heard = p.listening; rendered = past.rendered || p.listening })
          (filters_fired t p)
  unfolding filters_fired hear_filters render on_farm_filters
  filters-IsInStep t past p h m due =
      let f = h.filters in
      let after =
        (Tracks-fire filters_text start p.filters_control.callbacks f.chosen f.dispatched t
          f.tracked m due).0 in
      elim (Bool-cases p.listening) [
        | inl on ↦ rw on (record {
          orders = h.orders;
          filters = record {
            chosen = f.chosen;
            dispatched = t.callback;
            own = f.own;
            tracked = after;
            taken = λ e. refl;
          };
          listed = λ e k. refl;
        })
        | inr off ↦ rw off (record {
          orders = h.orders;
          filters = record {
            chosen = f.chosen;
            dispatched = t.callback;
            own = f.own;
            tracked = after;
            taken = λ e. absurd (ground (arith, e));
          };
          listed = λ e. h.listed (ground (arith, e));
        })
      ]
