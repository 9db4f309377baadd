-- ===== src/Market/Swapping.antt =====
-- packages/npm/sei-swaps-sdk/src/swap_market.ts, the class SwapMarket, and `matchTokenKind` of
-- types.ts: the instructions of a swap over a route, and its simulation.
use crownfi_sei_swaps.Prelude.{ℕ, ◌+◌, true, List, [], ◌∷◌, ◌++◌, Option, none, some, if◌then◌else◌}
use crownfi_sei_swaps.Prelude.Integers.{ℤ, pos, ◌-ℤ◌}
use crownfi_sei_swaps.Text.{Str, codes, ◌==◌}
use crownfi_sei_swaps.Text.Split.{split}
use crownfi_sei_swaps.Platform.{
  Result, ok, err, ◌>>=◌, non_null, map_result, message, Coin, Account, Number, Expectation,
  Instruction, execute, execute_swaps, SwapReceiver, direct, wasm_unwrap, evm_unwrap, addr, Env,
  CalcSwap, Clock,
}
use crownfi_sei_swaps.Wrapper.Erc20.{evm_base64}
use crownfi_sei_swaps.Wrapper.Multi.{is_wrapable, build_wrap_ixs}
use crownfi_sei_swaps.Pair.{SwapMarketPair}
use crownfi_sei_swaps.Pair.Instructions as PairInstructions
use crownfi_sei_swaps.Pair.Volumes.{simulate_swap, simulate_naive_swap}
use crownfi_sei_swaps.Market.{SwapMarket, get_pair}
use crownfi_sei_swaps.Market.Routing.{Route}
use crownfi_sei_swaps.Market.Valuation.{resolve_multi_swap_route}

-- The second part of a split text, `undefined` if there is none.
abbrev pub second_part : List Str → Option Str
second_part [] = none
second_part (a ∷ []) = none
second_part (a ∷ b ∷ rest) = some b

abbrev pub first_part : List Str → Str
first_part [] = []
first_part (a ∷ rest) = a

unfoldable pub match_token_kind {ℓ} :
    {T : Type ℓ} → Str → (Option Str → T) → (Option Str → T) → (Str → T) → Result T
match_token_kind unified_denom if_cw20 if_erc20 if_native =
    let parts = split b'/' unified_denom in
    let kind = first_part parts in
    if kind == codes "cw20"
    then ok (if_cw20 (second_part parts))
    else if kind == codes "erc20"
    then ok (if_erc20 (second_part parts))
    else if kind == codes "factory"
    then ok (if_native unified_denom)
    else err (message (codes "Unknown token: " ++ unified_denom))

-- `SwapMarketSwapSimResult`
pub record SwapSimResult : Type 0 where
  pub result_amount : ℕ
  pub result_denom : Str
  pub slip_amount : ℤ
  pub swaps : List CalcSwap

-- A contract address that is missing or empty throws.
abbrev pub address_or_throw : Str → Option SwapMarketPair → Result Str
address_or_throw text none = err (message text)
address_or_throw text (some p) = elim p.contract [ [] ↦ err (message text) | c ∷ s ↦ ok (c ∷ s) ]

module _ (env : Env) (m : SwapMarket) where
  unfoldable pub swappers : Str → Route → Result (List Str)
  unfolding map_result
  swappers text route = map_result (λ pair. address_or_throw text (get_pair m pair true)) route

  -- `buildSwapIxs` by the length of the route.
  unfoldable pub swap_on_route :
      Coin → Str → Number → Option Expectation → Option Route → Result (Option (List Instruction))
  unfolding swappers
  swap_on_route offer receiver slippage expectation none = ok none
  swap_on_route offer receiver slippage expectation (some []) = ok none
  swap_on_route offer receiver slippage expectation (some (hop ∷ [])) = do
    pair ← non_null (get_pair m hop true)
    ok (some (PairInstructions.build_swap_ixs env pair offer slippage (addr receiver)))
  swap_on_route offer receiver slippage expectation (some (hop ∷ hop' ∷ rest)) = do
    addresses ← swappers (codes "Invalid pair") (hop ∷ hop' ∷ rest)
    ok (
        some (
          execute m.router_contract
            (execute_swaps addresses expectation (env.number_text slippage) (direct receiver))
            (offer ∷ [])
          ∷ []))

  unfoldable pub build_swap_ixs :
      Coin → Str → Str → Number → Option Expectation → Result (Option (List Instruction))
  unfolding swap_on_route
  build_swap_ixs offer ask_denom receiver slippage expectation = do
    route ← resolve_multi_swap_route m offer.denom ask_denom
    swap_on_route offer receiver slippage expectation route

  -- Without an expectation the pair's default slippage tolerance applies: 0.01.
  abbrev pub pair_slippage : Option Expectation → Number
  pair_slippage none = env.text_number (codes "0.01")
  pair_slippage (some e) = env.text_number e.slippage_tolerance

  abbrev pub pair_expected : Option Expectation → Option ℕ
  pair_expected none = none
  pair_expected (some e) = some e.expected_amount

  -- Where the router sends the result.
  unfoldable pub final_receiver : Str → Account → Result SwapReceiver
  unfolding match_token_kind
  final_receiver ask_denom receiver =
      match_token_kind ask_denom (λ cw20_addr. wasm_unwrap cw20_addr receiver.sei_address)
        (λ erc20_addr. evm_unwrap erc20_addr (evm_base64 env receiver.evm_address))
        (λ _. direct receiver.sei_address)

  abbrev pub wrap_offer : Account → Coin → Result (List Instruction)
  wrap_offer from offer =
      if is_wrapable offer.denom
      then build_wrap_ixs m.token_wrapper env offer.amount offer.denom from from
      else ok []

  unfoldable pub wrapable_swap_on_route :
      Account
      → Account
      → Coin
      → Str
      → Number
      → Option Expectation
      → Option Route
      → Result (Option (List Instruction))
  unfolding swappers final_receiver
  wrapable_swap_on_route from receiver offer ask slippage expectation none = ok none
  wrapable_swap_on_route from receiver offer ask slippage expectation (some []) = ok none
  wrapable_swap_on_route from receiver offer ask slippage expectation (some (hop ∷ [])) = do
    pair ← non_null (get_pair m hop true)
    ixs ←
        PairInstructions.build_wrapable_swap_ixs env pair from receiver offer (is_wrapable ask)
          (pair_slippage expectation) (pair_expected expectation)
    ok (some ixs)
  wrapable_swap_on_route from receiver offer ask slippage expectation (some (hop ∷ hop' ∷ rest)) =
      do
        wraps ← wrap_offer from offer
        addresses ←
            swappers (codes "Should not happen: Route returned an invalid pair") (hop ∷ hop' ∷ rest)
        target ← final_receiver ask receiver
        ok (
            some (
              wraps
              ++ (execute m.router_contract
                    (execute_swaps addresses expectation (env.number_text slippage) target)
                    (offer ∷ [])
                  ∷ [])))

  unfoldable pub build_wrapable_swap_ixs :
      Account
      → Account
      → Coin
      → Str
      → Number
      → Option Expectation
      → Result (Option (List Instruction))
  unfolding wrapable_swap_on_route
  build_wrapable_swap_ixs from receiver offer ask_denom slippage expectation = do
    route ← resolve_multi_swap_route m offer.denom ask_denom
    wrapable_swap_on_route from receiver offer ask_denom slippage expectation route

  -- The loop of `simulateSwap`: both simulations start from the last simulated result, and are
  -- asked in the denom that the hop leads to.
  unfoldable pub simulate_along :
      Clock → ℕ → Route → (result naive : ℕ) → List CalcSwap → Result (ℕ × ℕ × List CalcSwap)
  simulate_along clock n [] result naive swaps = ok (result, naive, swaps)
  simulate_along clock n ((from, to) ∷ rest) result naive swaps =
      elim (get_pair m (from, to) true) [
        | none ↦ err (message (codes "Pair not found"))
        | some pair ↦
            let offer : Coin = record { denom = to; amount = result } in
            simulate_swap pair (clock n) offer >>= (λ swap.
              simulate_naive_swap pair (clock (n + 1)) offer >>= (λ naive_swap.
                simulate_along clock (n + 2) rest swap.result_amount naive_swap.result_amount
                  (swaps ++ (swap ∷ []))))
      ]

  abbrev pub simulate_on_route : Clock → ℕ → Coin → Str → Option Route → Result SwapSimResult
  simulate_on_route clock n offer ask none =
      err (message (codes "Market does not hold assets offered or requested"))
  simulate_on_route clock n offer ask (some route) =
      simulate_along clock n route offer.amount offer.amount [] >>= (λ (result, naive, swaps).
        ok (record {
          result_amount = result;
          result_denom = ask;
          slip_amount = pos naive -ℤ pos result;
          swaps = swaps;
        }))

  unfoldable pub simulate_market_swap : Clock → ℕ → Coin → Str → Result SwapSimResult
  unfolding simulate_along
  simulate_market_swap clock n offer ask_denom =
      if offer.denom == ask_denom
      then err (message (codes "Trading input denom must differ from trading output denom"))
      else (resolve_multi_swap_route m offer.denom ask_denom
          >>= simulate_on_route clock n offer ask_denom)
