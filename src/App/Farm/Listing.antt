-- ===== src/App/Farm/Listing.antt =====
-- farm.ts: what the list of pools shows, after the pairs and balances are loaded and the user has
-- chosen an order, filters and a search text.
use mathlib.Core.List.{Perm}
use mathlib.Core.List.Perm
use crownfi_sei_swaps.Prelude.{
  ℕ, ◌≡◌, inl, inr, refl, sym, subst, ◌∙◌, true, not, List, [], ◌∷◌, ◌++◌, some, arith, append-nil,
  All, All-mono, Bool-cases,
}
use crownfi_sei_swaps.Text.{Str, ◌==◌}
use crownfi_sei_swaps.Platform.{Result, ok, >>=-eq-ok, Result-cases}
use crownfi_sei_swaps.Platform.Dict.{Dict, lookup, insert, lookup-insert, lookup-insert_self}
use crownfi_sei_swaps.Pair.{SwapMarketPair}
use crownfi_sei_swaps.App.Farm.{
  SortBy, FarmFilters, Farm, balances_of, refresh_pool_pairs, get_share_balance, keep,
  get_filtered_list, comes_first, get_sorted_list, render_list, on_sort_by, on_farm_filters,
  handle_search,
}
use crownfi_sei_swaps.App.Farm.Sorting.{
  IsOrdered, Before, HasBalance, sort_pairs-All, sort_pairs-perm, get_sorted_list-IsOrdered,
}
use crownfi_sei_swaps.App.Farm.Searching.{
  Wanted, wanted, wanted_iff, get_filtered_list_as_keep, keep-All, keep-All_of, keep-perm,
}

Listed : Dict ℕ → Str → Type 0
Listed d name = (n : ℕ) × (lookup name d ≡ some n)

insert-Listed : (name key : Str) (n : ℕ) (d : Dict ℕ) → Listed d name → Listed (insert key n d) name
unfolding Listed
insert-Listed name key n d (m, e) = elim (Bool-cases (key == name)) [
  | inl same ↦ (n, lookup-insert key name n d ∙ rw same refl)
  | inr other ↦ (m, lookup-insert key name n d ∙ rw other e)
]

-- A balance that is known stays known.
balances_of-Listed :
    (get_balance : Str → Result ℕ) (ps : List SwapMarketPair) (known d : Dict ℕ)
    → balances_of get_balance ps known ≡ ok d
    → (name : Str) → Listed known name
    → Listed d name
unfolding balances_of
balances_of-Listed get_balance [] known d h name k = subst (λ r. Listed r name) (cc) k
balances_of-Listed get_balance (p ∷ ps) known d h name k =
    let (raw, e, h') =
      >>=-eq-ok (get_balance p.shares_denom)
        (λ raw. balances_of get_balance ps (insert p.name raw known)) h in
    balances_of-Listed get_balance ps (insert p.name raw known) d h' name
      (insert-Listed name p.name raw known k)

balances_of-All :
    (get_balance : Str → Result ℕ) (ps : List SwapMarketPair) (known d : Dict ℕ)
    → balances_of get_balance ps known ≡ ok d
    → All (λ p. Listed d p.name) ps
unfolding balances_of Listed
balances_of-All get_balance [] known d h = tt
balances_of-All get_balance (p ∷ ps) known d h =
    let (raw, e, h') =
      >>=-eq-ok (get_balance p.shares_denom)
        (λ raw. balances_of get_balance ps (insert p.name raw known)) h in
    let stored : Listed (insert p.name raw known) p.name =
      (raw, lookup-insert_self p.name raw known) in
    (
      balances_of-Listed get_balance ps (insert p.name raw known) d h' p.name stored,
      balances_of-All get_balance ps (insert p.name raw known) d h',
    )

-- After a refresh that succeeds, the pairs are kept, and each has a balance.
refreshed :
    (pairs : List SwapMarketPair) (get_balance : Str → Result ℕ) (f : Farm)
    → (refresh_pool_pairs (ok pairs) get_balance f).1 ≡ ok tt
    → (d : Dict ℕ) × ((refresh_pool_pairs (ok pairs) get_balance f).0
        ≡ record f { pool_pairs = pairs; shares_balances = d })
      × All (λ p. Listed d p.name) pairs
unfolding refresh_pool_pairs
refreshed pairs get_balance f h = elim (Result-cases (balances_of get_balance pairs [])) [
  | inr (e, failed) ↦ cc
  | inl (d, known) ↦
      (d, rw (known, refresh_pool_pairs) refl, balances_of-All get_balance pairs [] d known)
]

render_list-perm :
    (f : Farm) → Perm (render_list f ++ keep (λ p. not (wanted f p)) f.pool_pairs) f.pool_pairs
unfolding render_list get_sorted_list
render_list-perm f =
    let shown = get_filtered_list f f.pool_pairs in
    let hidden = keep (λ p. not (wanted f p)) f.pool_pairs in
    Perm.trans (Perm.append_right hidden (sort_pairs-perm (comes_first f f.sort_by) shown [])) (
      rw (append-nil shown)
        (rw (get_filtered_list_as_keep f f.pool_pairs) (keep-perm (wanted f) f.pool_pairs)))

-- What is shown for an order, filters and a search text, of the pairs that were loaded.
abbrev pub Shows : SortBy → FarmFilters → Str → Farm → List SwapMarketPair → Type 0
Shows sort_by filters search f pairs =
    IsOrdered (Before f sort_by) (render_list f)
    × All (Wanted filters search f) (render_list f)
    × ((hidden : List SwapMarketPair) × Perm (render_list f ++ hidden) pairs
        × All (λ p. ¬ (Wanted filters search f p)) hidden)

not-wanted :
    (f : Farm) (p : SwapMarketPair) → not (wanted f p) ≡ true → ¬ (Wanted f.filters f.search f p)
not-wanted f p h k = absurd (ground (arith, h, (wanted_iff f p).1 k))

Shows-render_list :
    (f : Farm) → All (HasBalance f) f.pool_pairs → Shows f.sort_by f.filters f.search f f.pool_pairs
unfolding render_list get_sorted_list
Shows-render_list f h =
    let kept = keep (wanted f) f.pool_pairs in
    let e = get_filtered_list_as_keep f f.pool_pairs in
    (
      get_sorted_list-IsOrdered f f.sort_by (get_filtered_list f f.pool_pairs) (
          subst (All (HasBalance f)) (sym e)
            (keep-All_of (HasBalance f) (wanted f) f.pool_pairs h)),
      sort_pairs-All (comes_first f f.sort_by) (Wanted f.filters f.search f)
          (get_filtered_list f f.pool_pairs) []
          (subst (All (Wanted f.filters f.search f)) (sym e) (
            All-mono (λ p. wanted f p ≡ true) (Wanted f.filters f.search f) kept
              (λ p. (wanted_iff f p).0) (keep-All (wanted f) f.pool_pairs)))
          tt,
      (
        keep (λ p. not (wanted f p)) f.pool_pairs,
        render_list-perm f,
        All-mono (λ p. not (wanted f p) ≡ true) (λ p. ¬ (Wanted f.filters f.search f p))
            (keep (λ p. not (wanted f p)) f.pool_pairs) (not-wanted f)
            (keep-All (λ p. not (wanted f p)) f.pool_pairs),
      ),
    )

-- Once the pairs and balances are loaded without an error, whatever order, filters and search text
-- are chosen: the pools are shown in the chosen order (`Before`: by name, or the largest deposits
-- first, or one's own largest share first, or the lowest fees first); the shown pools, each of them
-- wanted (one's own if only those are asked for, and with every word of the search text in its
-- name, whatever the case of the letters), together with pools that are not wanted are exactly the
-- loaded pairs, each as often as it was loaded.
pub render_list_lem :
    (pairs : List SwapMarketPair) (get_balance : Str → Result ℕ) (start : Farm) (sort_by : SortBy)
    (filters : FarmFilters) (search : Str)
    → (refresh_pool_pairs (ok pairs) get_balance start).1 ≡ ok tt
    → Shows sort_by filters search
        (handle_search search (
          on_farm_filters filters
            (on_sort_by sort_by (refresh_pool_pairs (ok pairs) get_balance start).0)))
        pairs
unfolding on_sort_by on_farm_filters handle_search Listed get_share_balance
render_list_lem pairs get_balance start sort_by filters search h =
    let (d, e, known) = refreshed pairs get_balance start h in
    let f = record start {
      pool_pairs = pairs;
      shares_balances = d;
      sort_by = sort_by;
      filters = filters;
      search = search;
    } in
    subst
      (λ (g : Farm).
        Shows sort_by filters search
          (record g { sort_by = sort_by; filters = filters; search = search }) pairs)
      (sym e) (Shows-render_list f known)
