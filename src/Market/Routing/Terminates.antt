-- ===== src/Market/Routing/Terminates.antt =====
-- The search returns with fuel for every denom, and what it returns is a route.
use crownfi_sei_swaps.Prelude.{
  ℕ, zero, suc, ◌≤◌, ◌<◌, ◌≡◌, ◌≢◌, inl, inr, refl, sym, subst, false, List, [], ◌∷◌, Option, none,
  some, arith, length, In, Bool-cases, Option-cases, ltb,
}
use crownfi_sei_swaps.Text.{Str, ◌==◌, contains}
use crownfi_sei_swaps.Text.Laws.{==_iff}
use crownfi_sei_swaps.Platform.{Result, ok}
use crownfi_sei_swaps.Platform.Dict.{lookup}
use crownfi_sei_swaps.Market.Routing.{Route, Trades, better, prepend, scan, search, find_route}
use crownfi_sei_swaps.Market.Routing.Walks.{
  Edge, IsChain, IsSimple, Within, Within-cons, Within-trans, IsSimple-Within, unseen, unseen-le,
  unseen-lt, unseen-le_length, length-simple_chain,
}

-- A result is null or a chain of at least one hop that avoids the denoms seen before.
abbrev pub IsFound : Trades → List Str → (from to : Str) → Option Route → Type 0
IsFound trades seen from to none = Unit
IsFound trades seen from to (some r) = (r ≢ []) × IsChain trades from to r × IsSimple seen r

-- The best route so far starts at a neighbour of `from`.
abbrev IsBest : Trades → List Str → (from to : Str) → Option Route → Type 0
IsBest trades seen from to none = Unit
IsBest trades seen from to (some r) =
    (d : Str) × Edge trades from d × (r ≢ []) × IsChain trades d to r × IsSimple seen r

-- A call returns, with more denoms seen, and with such a result.
abbrev Returns :
    Trades → List Str → List Str → (from to : Str) → Result (Option Route × List Str) → Type 0
Returns trades grown seen from to call =
    (o : Option Route) × (s : List Str) × (call ≡ ok (o, s))
    × Within grown s
    × IsFound trades seen from to o

module _ (trades : Trades) (seen : List Str) (from to : Str) where
  prepend-IsFound :
      (best : Option Route)
      → contains seen from ≡ false
      → IsBest trades (from ∷ seen) from to best
      → (o : Option Route) × (prepend from best ≡ ok o) × IsFound trades seen from to o
  unfolding prepend
  prepend-IsFound none fresh b = (none, refl, tt)
  prepend-IsFound (some []) fresh (d, edge, full, chain, simple) = absurd (full refl)
  prepend-IsFound (some ((a, b) ∷ r)) fresh (d, edge, full, (e, hop, chain), simple) = (
    some ((from, a) ∷ (a, b) ∷ r),
    refl,
    (
      λ empty. cc,
      (refl, subst (Edge trades from) (sym e) edge, (refl, hop, chain)),
      (fresh, simple),
    ),
  )

  better-IsBest :
      (d : Str) (s : List Str) (best o : Option Route)
      → Edge trades from d
      → Within (from ∷ seen) s
      → IsBest trades (from ∷ seen) from to best
      → IsFound trades s d to o
      → IsBest trades (from ∷ seen) from to (better best o)
  unfolding better
  better-IsBest d s best none edge grown b f = b
  better-IsBest d s none (some r) edge grown b (full, chain, simple) =
      (d, edge, full, chain, IsSimple-Within (from ∷ seen) s r grown simple)
  better-IsBest d s (some q) (some r) edge grown b (full, chain, simple) =
      elim (Bool-cases (ltb (length r) (length q))) [
        | inl shorter ↦
            rw shorter (d, edge, full, chain, IsSimple-Within (from ∷ seen) s r grown simple)
        | inr longer ↦ rw longer b
      ]

  scan-Returns :
      (go : Str → List Str → Result (Option Route × List Str)) (fuel : ℕ)
      (returns : (d : Str) (s : List Str)
        → unseen trades s < fuel
        → Returns trades s s d to (go d s))
      (tos : List Str) (s : List Str) (best : Option Route)
      → contains seen from ≡ false
      → ((d : Str) → In d tos → Edge trades from d)
      → Within (from ∷ seen) s
      → unseen trades s < fuel
      → IsBest trades (from ∷ seen) from to best
      → Returns trades s seen from to (scan go from to tos s best)
  unfolding scan
  scan-Returns go fuel returns [] s best fresh edges grown enough b =
      let (o, e, found) = prepend-IsFound best fresh b in (o, s, rw e, λ x h. h, found)
  scan-Returns go fuel returns (d ∷ tos) s best fresh edges grown enough b =
      elim (Bool-cases (d == to)) [
        | inl same ↦ (
          some ((from, to) ∷ []),
          s,
          rw same,
          λ x h. h,
          (
            λ empty. cc,
            (refl, subst (Edge trades from) ((==_iff d to).0 same) (edges d (inl refl)), refl),
            (fresh, tt),
          ),
        )
        | inr other ↦
            let (o, s1, e, more, found) = returns d s enough in
            let (o2, s2, e2, more2, found2) =
              scan-Returns go fuel returns tos s1 (better best o) fresh (λ x m. edges x (inr m))
                (Within-trans (from ∷ seen) s s1 grown more)
                (omega (arith, unseen-le trades s s1 more))
                (better-IsBest d s best o (edges d (inl refl)) grown b found) in
            (o2, s2, rw (other, e) e2, Within-trans s s1 s2 more more2, found2)
      ]

search-Returns :
    (trades : Trades) (to : Str) (fuel : ℕ) (from : Str) (seen : List Str)
    → unseen trades seen < fuel
    → Returns trades seen seen from to (search trades fuel from to seen)
unfolding search
search-Returns trades to zero from seen enough = absurd (omega arith)
search-Returns trades to (suc fuel) from seen enough = elim (Bool-cases (contains seen from)) [
  | inl old ↦ (none, seen, rw old, λ x h. h, tt)
  | inr fresh ↦ elim (Option-cases (lookup from trades)) [
    | inl missing ↦ (none, from ∷ seen, rw (fresh, missing, search), Within-cons seen from, tt)
    | inr (tos, e) ↦
        let fewer = unseen-lt trades seen from tos e fresh in
        let (o, s, e2, more, found) =
          scan-Returns trades seen from to (λ d s. search trades fuel d to s) fuel
            (λ d s h. search-Returns trades to fuel d s h) tos (from ∷ seen) none fresh
            (λ d m. (tos, e, m)) (λ x h. h) (omega arith) tt in
        (
          o,
          s,
          rw (fresh, e, search) e2,
          Within-trans seen (from ∷ seen) s (Within-cons seen from) more,
          found,
        )
  ]
]

-- The search always returns, never out of fuel and never by reading a hop of an empty route. A
-- route that it returns is a chain of direct trades from the first denom to the second, has at
-- least one hop and at most as many as there are denoms, and starts no two hops at one denom.
pub find_route-returns :
    (trades : Trades) (from to : Str)
    → (o : Option Route) × (find_route trades from to ≡ ok o)
      × ((r : Route)
          → o ≡ some r
          → (r ≢ []) × IsChain trades from to r × IsSimple [] r × (length r ≤ length trades))
unfolding find_route
find_route-returns trades from to =
    let (o, s, e, more, found) =
      search-Returns trades to (suc (length trades)) from []
        (omega (arith, unseen-le_length trades [])) in
    (
      o,
      rw e,
      λ r same.
          let (full, chain, simple) = subst (IsFound trades [] from to) same found in
          (
            full,
            chain,
            simple,
            omega (
              arith,
              length-simple_chain trades [] from to r chain simple,
              unseen-le_length trades [],
            ),
          ),
    )
