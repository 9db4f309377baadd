-- ===== src/Market/Trading.antt =====
-- The instructions of `buildSwapIxs` on a consistent market: when there are some, and what they
-- send.
use crownfi_sei_swaps.Prelude.{
  ◌≡◌, ◌≢◌, ◌⊎◌, inl, inr, refl, List, [], ◌∷◌, Option, none, some, arith, Option-cases, Bool-cases,
}
use crownfi_sei_swaps.Text.{Str, codes, ◌==◌}
use crownfi_sei_swaps.Text.Laws.{==_iff}
use crownfi_sei_swaps.Platform.{
  ok, map_result, Coin, Number, Expectation, Instruction, execute, execute_swaps, swap, direct, Env,
}
use crownfi_sei_swaps.Platform.Dict.{lookup}
use crownfi_sei_swaps.Pair.{SwapMarketPair}
use crownfi_sei_swaps.Pair.Instructions as PairInstructions
use crownfi_sei_swaps.Market.{SwapMarket, wrapped_or}
use crownfi_sei_swaps.Market.Routing.{Route}
use crownfi_sei_swaps.Market.Routing.Walks.{Walk, IsChain}
use crownfi_sei_swaps.Market.Routing.Terminates.{find_route-returns}
use crownfi_sei_swaps.Market.Routing.Complete.{find_route_iff}
use crownfi_sei_swaps.Market.Routing.Sources.{TradesOf}
use crownfi_sei_swaps.Market.Valuation.{resolve_multi_swap_route}
use crownfi_sei_swaps.Market.Swapping.{address_or_throw, swappers, swap_on_route, build_swap_ixs}
use crownfi_sei_swaps.Market.Consistency.{IsConsistent, market_trades, Edge-pair}

-- Every pair's contract has an address.
abbrev pub AllNamed : SwapMarket → Type 0
AllNamed m =
    (key : Str) (p : SwapMarketPair) → lookup key m.asset_pair_map ≡ some p → p.contract ≢ []

-- The addresses are those of contracts of pairs that trade the hops, one for each.
abbrev pub AreSwappers : SwapMarket → Route → List Str → Type 0
AreSwappers m [] [] = Unit
AreSwappers m [] (c ∷ cs) = ⊥
AreSwappers m (hop ∷ r) [] = ⊥
AreSwappers m ((a, b) ∷ r) (c ∷ cs) =
    ((p : SwapMarketPair) × TradesOf p a b × (p.contract ≡ c)) × AreSwappers m r cs

address_or_throw-named :
    (text : Str) (p : SwapMarketPair)
    → p.contract ≢ []
    → address_or_throw text (some p) ≡ ok p.contract
address_or_throw-named text p full = go p.contract refl
  where
    go : (c : Str) → p.contract ≡ c → address_or_throw text (some p) ≡ ok p.contract
    go [] e = absurd (full e)
    go (x ∷ s) e = rw e refl

module _ (env : Env) (m : SwapMarket) (h : IsConsistent m) (named : AllNamed m) where
  swappers-chain :
      (text from to : Str) (r : Route)
      → IsChain (market_trades m) from to r
      → (cs : List Str) × (swappers env m text r ≡ ok cs) × AreSwappers m r cs
  unfolding swappers map_result
  swappers-chain text from to [] c = ([], refl, tt)
  swappers-chain text from to ((a, b) ∷ r) (e, edge, c) =
      let (p, found, t, (key, entry)) = Edge-pair m h a b edge in
      let (cs, rest, good) = swappers-chain text b to r c in
      (
        p.contract ∷ cs,
        rw (found, address_or_throw-named text p (named key p entry), rest),
        ((p, t, refl), good),
      )

  abbrev pub pair_swap : SwapMarketPair → Coin → Str → Number → Instruction
  pair_swap p offer receiver slippage =
      execute p.contract (swap (some receiver) none (env.number_text slippage) none) (offer ∷ [])

  abbrev pub router_swap : List Str → Coin → Str → Number → Option Expectation → Instruction
  router_swap cs offer receiver slippage expectation =
      execute m.router_contract
        (execute_swaps cs expectation (env.number_text slippage) (direct receiver)) (offer ∷ [])

  -- The one instruction for a route: a swap by the pair of its only hop, or by the router over the
  -- pairs of all its hops.
  abbrev pub IsSwap : Route → Coin → Str → Number → Option Expectation → Instruction → Type 0
  IsSwap [] offer receiver slippage expectation ix = ⊥
  IsSwap ((a, b) ∷ []) offer receiver slippage expectation ix =
      (p : SwapMarketPair) × TradesOf p a b × (ix ≡ pair_swap p offer receiver slippage)
  IsSwap (hop ∷ hop' ∷ r) offer receiver slippage expectation ix =
      (cs : List Str) × AreSwappers m (hop ∷ hop' ∷ r) cs
      × (ix ≡ router_swap cs offer receiver slippage expectation)

  swap_on_route-chain :
      (offer : Coin) (to receiver : Str) (slippage : Number) (expectation : Option Expectation)
      (from : Str) (r : Route)
      → r ≢ []
      → IsChain (market_trades m) from to r
      → (ix : Instruction) × (swap_on_route env m offer receiver slippage expectation (some r)
          ≡ ok (some (ix ∷ [])))
        × IsSwap r offer receiver slippage expectation ix
  unfolding swap_on_route PairInstructions.build_swap_ixs
  swap_on_route-chain offer to receiver slippage expectation from [] full c = absurd (full refl)
  swap_on_route-chain offer to receiver slippage expectation from ((a, b) ∷ []) full (e, edge, c) =
      let (p, found, t, _) = Edge-pair m h a b edge in
      (pair_swap p offer receiver slippage, rw found refl, (p, t, refl))
  swap_on_route-chain offer to receiver slippage expectation from (hop ∷ hop' ∷ r) full c =
      let (cs, addresses, good) =
        swappers-chain (codes "Invalid pair") from to (hop ∷ hop' ∷ r) c in
      (router_swap cs offer receiver slippage expectation, rw addresses refl, (cs, good, refl))

  -- On a consistent market whose contracts have addresses, `buildSwapIxs` never throws. It is null
  -- exactly if the two denoms, wrapped where the market knows a wrapped form, are the same or no
  -- walk of direct trades leads from the one to the other. Otherwise it is one instruction, which
  -- sends the offer: to a pair that trades the only hop of a chain of direct trades between them, or
  -- to the router with one pair for each of several hops, each trading its hop.
  pub build_swap_ixs_returns :
      (offer : Coin) (ask receiver : Str) (slippage : Number) (expectation : Option Expectation)
      → let a = wrapped_or m offer.denom in
        let b = wrapped_or m ask in
        let built = build_swap_ixs env m offer ask receiver slippage expectation in
        ((r : Route) × (ix : Instruction) × (built ≡ ok (some (ix ∷ [])))
          × IsChain (market_trades m) a b r
          × IsSwap r offer receiver slippage expectation ix
          × (a ≢ b))
        ⊎ ((built ≡ ok none) × ((a ≡ b) ⊎ (¬ Walk (market_trades m) b a)))
  unfolding build_swap_ixs resolve_multi_swap_route swap_on_route
  build_swap_ixs_returns offer ask receiver slippage expectation =
      let a = wrapped_or m offer.denom in
      let b = wrapped_or m ask in
      elim (Bool-cases (a == b)) [
        | inl same ↦ inr (rw same refl, inl ((==_iff a b).0 same))
        | inr differ ↦
            let (o, e, good) = find_route-returns (market_trades m) a b in
            elim (Option-cases o) [
              | inl nothing ↦ inr (
                rw (differ, e, nothing) refl,
                inr (λ walk.
                    let (r, found) = (find_route_iff (market_trades m) a b).1 walk in
                    absurd (ground (arith, e, found, nothing))),
              )
              | inr (r, some_r) ↦
                  let (full, chain, _, _) = good r some_r in
                  let (ix, built, is_swap) =
                    swap_on_route-chain offer b receiver slippage expectation a r full chain in
                  inl (
                    r,
                    ix,
                    rw (differ, e, some_r) built,
                    chain,
                    is_swap,
                    λ s. absurd (ground (arith, ==_iff a b)),
                  )
            ]
      ]
