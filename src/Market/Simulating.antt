-- ===== src/Market/Simulating.antt =====
-- The simulation of a swap on a consistent market: when there is one, and what it is made of.
use crownfi_sei_swaps.Prelude.{
  ℕ, ◌+◌, ◌≡◌, ◌≢◌, ◌⊎◌, inl, inr, refl, sym, ap, ◌∙◌, List, [], ◌∷◌, ◌++◌, append_assoc,
  append-nil, arith, Option-cases, Bool-cases,
}
use crownfi_sei_swaps.Prelude.Integers.{pos, ◌-ℤ◌}
use crownfi_sei_swaps.Text.{Str, codes, ◌==◌}
use crownfi_sei_swaps.Text.Laws.{==_iff}
use crownfi_sei_swaps.Platform.{Env, ok, err, Error, message, Coin, Clock, CalcSwap, CalcNaiveSwap}
use crownfi_sei_swaps.Pair.{SwapMarketPair}
use crownfi_sei_swaps.Pair.Volumes.{simulate_swap, simulate_naive_swap}
use crownfi_sei_swaps.Market.{SwapMarket, wrapped_or}
use crownfi_sei_swaps.Market.Routing.{Route}
use crownfi_sei_swaps.Market.Routing.Walks.{Walk, IsChain}
use crownfi_sei_swaps.Market.Routing.Terminates.{find_route-returns}
use crownfi_sei_swaps.Market.Routing.Complete.{find_route_iff}
use crownfi_sei_swaps.Market.Routing.Sources.{TradesOf}
use crownfi_sei_swaps.Market.Valuation.{resolve_multi_swap_route}
use crownfi_sei_swaps.Market.Swapping.{SwapSimResult, simulate_along, simulate_market_swap}
use crownfi_sei_swaps.Market.Consistency.{IsConsistent, market_trades, Edge-pair}

-- The contracts answer every simulation, always alike.
pub record Simulates (clock : Clock) (calc : Str → Coin → CalcSwap)
    (naive : Str → Coin → CalcNaiveSwap) : Type 0 where
  pub swaps :
      (n : ℕ) (contract : Str) (offer : Coin)
      → (clock n).simulate_swap contract offer ≡ ok (calc contract offer)
  pub naive_swaps :
      (n : ℕ) (contract : Str) (offer : Coin)
      → (clock n).simulate_naive_swap contract offer ≡ ok (naive contract offer)

-- One simulated swap for each hop, by a pair that trades it, of the amount that the former hop gave;
-- the last amount is the result. The denom asked with is the one that the hop leads to.
abbrev pub AreSteps : (Str → Coin → CalcSwap) → Route → ℕ → List CalcSwap → ℕ → Type 0
AreSteps calc [] amount [] result = result ≡ amount
AreSteps calc [] amount (s ∷ ss) result = ⊥
AreSteps calc (hop ∷ r) amount [] result = ⊥
AreSteps calc ((a, b) ∷ r) amount (s ∷ ss) result =
    ((p : SwapMarketPair) × TradesOf p a b
      × (s ≡ calc p.contract (record { denom = b; amount = amount })))
    × AreSteps calc r s.result_amount ss result

module _ (env : Env) (m : SwapMarket) (h : IsConsistent m) (clock : Clock)
    (calc : Str → Coin → CalcSwap) (naive_calc : Str → Coin → CalcNaiveSwap)
    (answers : Simulates clock calc naive_calc) where
  simulate_along-chain :
      (n : ℕ) (from to : Str) (r : Route) (amount naive : ℕ) (before : List CalcSwap)
      → IsChain (market_trades m) from to r
      → (result last : ℕ) × (ss : List CalcSwap) × (simulate_along env m clock n r amount naive
            before
          ≡ ok (result, last, before ++ ss))
        × AreSteps calc r amount ss result
  unfolding simulate_along simulate_swap simulate_naive_swap
  simulate_along-chain n from to [] amount naive before c =
      (amount, naive, [], ap (λ ss. ok (amount, naive, ss)) (sym (append-nil before)), refl)
  simulate_along-chain n from to ((a, b) ∷ r) amount naive before (e, edge, c) =
      let (p, found, t, _) = Edge-pair m h a b edge in
      let offer : Coin = record { denom = b; amount = amount } in
      let swap = calc p.contract offer in
      let naive_swap = naive_calc p.contract offer in
      let (result, last, ss, done, steps) =
        simulate_along-chain (n + 2) b to r swap.result_amount naive_swap.result_amount
          (before ++ (swap ∷ [])) c in
      (
        result,
        last,
        swap ∷ ss,
        rw
            (
              found,
              simulate_along,
              answers.swaps n p.contract offer,
              answers.naive_swaps (n + 1) p.contract offer,
            )
            (done ∙ ap (λ all. ok (result, last, all)) (append_assoc before (swap ∷ []) ss)),
        ((p, t, refl), steps),
      )

  -- On a consistent market where the contracts answer every simulation, always alike: a swap is
  -- simulated exactly if the two denoms differ and, with each wrapped where the market knows
  -- a wrapped form, are the same or a walk of direct trades leads from the one to the other. It is
  -- then of a chain of direct trades between them, one simulated swap for each hop, each of the
  -- amount that the former gave, and its result is the last amount in the denom asked for.
  pub simulate_market_swap_returns :
      (n : ℕ) (offer : Coin) (ask : Str)
      → let a = wrapped_or m offer.denom in
        let b = wrapped_or m ask in
        let simulated = simulate_market_swap env m clock n offer ask in
        ((r : Route) × (s : SwapSimResult) × (simulated ≡ ok s)
          × (offer.denom ≢ ask)
          × IsChain (market_trades m) a b r
          × AreSteps calc r offer.amount s.swaps s.result_amount
          × (s.result_denom ≡ ask))
        ⊎ ((e : Error) × (simulated ≡ err e)
            × ((offer.denom ≡ ask) ⊎ ((a ≢ b) × (¬ Walk (market_trades m) b a))))
  unfolding simulate_market_swap resolve_multi_swap_route
  simulate_market_swap_returns n offer ask =
      let a = wrapped_or m offer.denom in
      let b = wrapped_or m ask in
      elim (Bool-cases (offer.denom == ask)) [
        | inl same ↦ inr (
          message (codes "Trading input denom must differ from trading output denom"),
          rw same refl,
          inl ((==_iff offer.denom ask).0 same),
        )
        | inr differ ↦
            let distinct : offer.denom ≢ ask =
              λ e. absurd (ground (arith, (==_iff offer.denom ask).1 e)) in
            elim (Bool-cases (a == b)) [
              | inl joined ↦ inl (
                [],
                record {
                  result_amount = offer.amount;
                  result_denom = ask;
                  slip_amount = pos offer.amount -ℤ pos offer.amount;
                  swaps = [];
                },
                rw (differ, joined) refl,
                distinct,
                (==_iff a b).0 joined,
                refl,
                refl,
              )
              | inr apart ↦
                  let (o, e, good) = find_route-returns (market_trades m) a b in
                  elim (Option-cases o) [
                    | inl nothing ↦ inr (
                      message (codes "Market does not hold assets offered or requested"),
                      rw (differ, apart, e, nothing) refl,
                      inr (
                        λ k. absurd (ground (arith, (==_iff a b).1 k)),
                        λ walk.
                            let (r, found) = (find_route_iff (market_trades m) a b).1 walk in
                            absurd (ground (arith, e, found, nothing)),
                      ),
                    )
                    | inr (r, some_r) ↦
                        let (full, chain, _, _) = good r some_r in
                        let (result, last, ss, done, steps) =
                          simulate_along-chain n a b r offer.amount offer.amount [] chain in
                        inl (
                          r,
                          record {
                            result_amount = result;
                            result_denom = ask;
                            slip_amount = pos last -ℤ pos result;
                            swaps = ss;
                          },
                          rw (differ, apart, e, some_r, done) refl,
                          distinct,
                          chain,
                          steps,
                          refl,
                        )
                  ]
            ]
      ]
