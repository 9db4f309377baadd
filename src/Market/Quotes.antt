-- ===== src/Market/Quotes.antt =====
-- The quotes of a consistent market whose pairs are funded: they are returned, and when.
use crownfi_sei_swaps.Prelude.{
  ℕ, ◌+◌, ◌≤◌, ◌≡◌, ◌≢◌, ◌⊎◌, inl, inr, refl, sym, ap, ◌∙◌, Bool, true, false, List, [], ◌∷◌,
  Option, none, some, arith, In, Option-cases, Bool-cases,
}
use crownfi_sei_swaps.Prelude.Integers.{ℤ, pos, +ℤ-pos}
use crownfi_sei_swaps.Text.{Str, ◌==◌}
use crownfi_sei_swaps.Text.Laws.{==_iff}
use crownfi_sei_swaps.Platform.{ok}
use crownfi_sei_swaps.Platform.Dict.{lookup}
use crownfi_sei_swaps.Pair.{SwapMarketPair}
use crownfi_sei_swaps.Pair.Exchange.{IsFunded, net, quote, exchange_value-pos}
use crownfi_sei_swaps.Market.{SwapMarket, wrapped_of}
use crownfi_sei_swaps.Market.Routing.{Route, find_route}
use crownfi_sei_swaps.Market.Routing.Walks.{Walk, IsChain}
use crownfi_sei_swaps.Market.Routing.Terminates.{find_route-returns}
use crownfi_sei_swaps.Market.Routing.Complete.{find_route_iff}
use crownfi_sei_swaps.Market.Routing.Sources.{TradesOf}
use crownfi_sei_swaps.Market.Valuation.{
  resolve_multi_swap_route, next_denom, value_along, value_on_route, exchange_value, value_locked,
  get_total_value_locked, or_zero,
}
use crownfi_sei_swaps.Market.Consistency.{
  IsConsistent, market_trades, Edge-pair, wrapped_or-wrapped_of, wrapped_of-wrapped_of,
}

-- Every pair of the market has deposits of both assets, and a total fee of at most 100%.
abbrev pub AllFunded : SwapMarket → Type 0
AllFunded m =
    (key : Str) (p : SwapMarketPair)
    → lookup key m.asset_pair_map ≡ some p
    → (fee : ℕ) × IsFunded p fee

next_denom-trade :
    (m : SwapMarket) (p : SwapMarketPair) (a b : Str) → TradesOf p a b → next_denom m p a ≡ b
next_denom-trade m p a b t = ground (arith, ==_iff p.assets.0 a)

module _ (m : SwapMarket) (h : IsConsistent m) (funded : AllFunded m) where
  -- Along a chain of direct trades every hop finds its pair and quotes a number.
  value_along-chain :
      (from to : Str) (r : Route) (include_fees : Bool) (v : ℕ)
      → IsChain (market_trades m) from to r
      → (w : ℕ) × (value_along m from include_fees r (pos v) ≡ ok (pos w))
  unfolding value_along
  value_along-chain from to [] include_fees v c = (v, refl)
  value_along-chain from to ((a, b) ∷ r) include_fees v (e, edge, c) =
      let (p, found, t, (key, entry)) = Edge-pair m h a b edge in
      let (fee, good) = funded key p entry in
      let inverse = p.assets.1 == from in
      let q = quote p inverse (net fee include_fees v) in
      let next : next_denom m p from ≡ b =
        ap (next_denom m p) (sym e) ∙ next_denom-trade m p a b t in
      let (w, rest) = value_along-chain b to r include_fees q c in
      (w, rw (found, exchange_value-pos p fee v inverse include_fees good, next) rest)

  resolve-wrapped :
      (from to : Str)
      → (wrapped_of m from == wrapped_of m to) ≡ false
      → resolve_multi_swap_route m (wrapped_of m from) (wrapped_of m to)
        ≡ find_route (market_trades m) (wrapped_of m from) (wrapped_of m to)
  unfolding resolve_multi_swap_route
  resolve-wrapped from to differ =
      rw (wrapped_or-wrapped_of m h from, wrapped_or-wrapped_of m h to, differ)

  -- On a consistent market whose pairs all have deposits of both assets and a fee of at most 100%,
  -- a quote for a natural number never throws. It is null exactly if the two denoms, each in its
  -- wrapped form, differ and no walk of direct trades leads from the one to the other; otherwise
  -- it is a number that is not negative.
  pub exchange_value_returns :
      (v : ℕ) (from to : Str) (include_fees : Bool)
      → let a = wrapped_of m from in
        let b = wrapped_of m to in
        ((w : ℕ) × (exchange_value m (pos v) from to include_fees ≡ ok (some (pos w)))
          × ((a ≡ b) ⊎ Walk (market_trades m) b a))
        ⊎ ((exchange_value m (pos v) from to include_fees ≡ ok none)
            × (a ≢ b)
            × (¬ Walk (market_trades m) b a))
  unfolding exchange_value
  exchange_value_returns v from to include_fees =
      let a = wrapped_of m from in
      let b = wrapped_of m to in
      elim (Bool-cases (a == b)) [
        | inl same ↦ inl (v, rw same, inl ((==_iff a b).0 same))
        | inr differ ↦
            let (o, e, good) = find_route-returns (market_trades m) a b in
            let resolved = resolve-wrapped from to differ ∙ e in
            let apart : a ≢ b = λ s. absurd (ground (arith, ==_iff a b)) in
            elim (Option-cases o) [
              | inl nothing ↦ inr (
                rw (differ, resolved, nothing),
                apart,
                λ walk.
                    let (r, found) = (find_route_iff (market_trades m) a b).1 walk in
                    absurd (ground (arith, e, found, nothing)),
              )
              | inr (r, some_r) ↦
                  let (full, chain, _, _) = good r some_r in
                  let walk = (find_route_iff (market_trades m) a b).0 (r, e ∙ ap ok some_r) in
                  let (w, value) = value_along-chain a b r include_fees v chain in
                  inl (w, rw (differ, resolved, some_r) (on_route r full value), inr walk)
            ]
      ]
    where
      on_route :
          {w : ℕ} (r : Route)
          → r ≢ []
          → value_along m (wrapped_of m from) include_fees r (pos v) ≡ ok (pos w)
          → value_on_route m (pos v) (wrapped_of m from) include_fees (some r) ≡ ok (some (pos w))
      on_route [] full e = absurd (full refl)
      on_route (hop ∷ r) full e = rw e

  exchange_value-same :
      (v : ℕ) (from denom : Str) (include_fees : Bool)
      → (wrapped_of m from == wrapped_of m denom) ≡ true
      → exchange_value m (pos v) from denom include_fees ≡ ok (some (pos v))
  unfolding exchange_value
  exchange_value-same v from denom include_fees same = rw same

  -- What a pair of the market adds to a valuation.
  or_zero-natural :
      (v : ℕ) (from denom : Str)
      → (o : Option ℤ) × (n : ℕ) × (exchange_value m (pos v) from denom false ≡ ok o)
        × (or_zero m o ≡ pos n)
        × (wrapped_of m from ≡ wrapped_of m denom → n ≡ v)
  or_zero-natural v from denom = elim (Bool-cases (wrapped_of m from == wrapped_of m denom)) [
    | inl same ↦ (some (pos v), v, exchange_value-same v from denom false same, refl, λ _. refl)
    | inr differ ↦
        let apart : wrapped_of m from ≢ wrapped_of m denom =
          λ s. absurd (ground (arith, ==_iff (wrapped_of m from) (wrapped_of m denom))) in
        elim (exchange_value_returns v from denom false) [
          | inl (w, e, _) ↦ (some (pos w), w, e, refl, λ s. absurd (apart s))
          | inr (e, _, _) ↦ (none, 0, e, refl, λ s. absurd (apart s))
        ]
  ]

  value_locked-natural :
      (denom : Str) (ps : List SwapMarketPair) (total : ℕ)
      → (n : ℕ) × (value_locked m denom ps (pos total) ≡ ok (pos n))
        × (total ≤ n)
        × ((p : SwapMarketPair)
            → In p ps
            → wrapped_of m p.assets.0 ≡ wrapped_of m denom
            → p.total_deposits.0 ≤ n)
        × ((p : SwapMarketPair)
            → In p ps
            → wrapped_of m p.assets.1 ≡ wrapped_of m denom
            → p.total_deposits.1 ≤ n)
  unfolding value_locked
  value_locked-natural denom [] total =
      (total, refl, omega arith, λ p m s. absurd m, λ p m s. absurd m)
  value_locked-natural denom (p ∷ ps) total =
      let (o0, n0, e0, z0, f0) = or_zero-natural p.total_deposits.0 p.assets.0 denom in
      let (o1, n1, e1, z1, f1) = or_zero-natural p.total_deposits.1 p.assets.1 denom in
      let (n, rest, grown, left, right) = value_locked-natural denom ps (total + n0 + n1) in
      (
        n,
        rw (e0, e1, z0, z1, +ℤ-pos total n0, +ℤ-pos (total + n0) n1) rest,
        omega arith,
        λ q k s. elim k [
          | inl same ↦
              let own = f0 (ap (λ (x : SwapMarketPair). wrapped_of m x.assets.0) (sym same) ∙ s) in
              rw same (omega arith)
          | inr later ↦ left q later s
        ],
        λ q k s. elim k [
          | inl same ↦
              let own = f1 (ap (λ (x : SwapMarketPair). wrapped_of m x.assets.1) (sym same) ∙ s) in
              rw same (omega arith)
          | inr later ↦ right q later s
        ],
      )

  -- On a consistent market whose pairs all have deposits of both assets and a fee of at most 100%,
  -- the total value locked in any list of pairs is returned, and is a number that is not negative;
  -- it is at least the deposit of each of them in the denom of the valuation itself.
  pub get_total_value_locked_returns :
      (denom : Str) (ps : List SwapMarketPair)
      → (n : ℕ) × (get_total_value_locked m denom ps ≡ ok (pos n))
        × ((p : SwapMarketPair)
            → In p ps
            → wrapped_of m p.assets.0 ≡ wrapped_of m denom
            → p.total_deposits.0 ≤ n)
        × ((p : SwapMarketPair)
            → In p ps
            → wrapped_of m p.assets.1 ≡ wrapped_of m denom
            → p.total_deposits.1 ≤ n)
  unfolding get_total_value_locked
  get_total_value_locked_returns denom ps =
      let (n, e, _, left, right) = value_locked-natural (wrapped_of m denom) ps 0 in
      (
        n,
        e,
        λ p k s. left p k (s ∙ sym (wrapped_of-wrapped_of m h denom)),
        λ p k s. right p k (s ∙ sym (wrapped_of-wrapped_of m h denom)),
      )
