-- ===== src/App/Service/Answers.antt =====
-- What the service answers on a market that it has kept consistent.
use crownfi_sei_swaps.Prelude.{
  ℕ, ◌≡◌, refl, sym, ap, ◌∙◌, Bool, true, false, Option, none, some, arith,
}
use crownfi_sei_swaps.Prelude.Integers.{pos}
use crownfi_sei_swaps.Text.{Str}
use crownfi_sei_swaps.Platform.{Error, Result, ok, err, ◌>>=◌, Account, Env, Clock}
use crownfi_sei_swaps.Wrapper.Multi.{MultiTokenWrapper}
use crownfi_sei_swaps.Pair.{SwapMarketPair}
use crownfi_sei_swaps.Pair.Instructions.{build_withdraw_and_unwrap_liquidity_ixs}
use crownfi_sei_swaps.Market
use crownfi_sei_swaps.Market.{SwapMarket, or_else, get_all_pairs}
use crownfi_sei_swaps.Market.Consistency.{IsConsistent}
use crownfi_sei_swaps.Market.EitherOrder.{get_pair_comm}
use crownfi_sei_swaps.Market.Loading.{KeepsTo}
use crownfi_sei_swaps.Market.Quotes.{AllFunded, get_total_value_locked_returns}
use crownfi_sei_swaps.Market.Volumes.{
  MultiVolume, normalized_trade_volume_all_time, normalized_trade_volume_past_hours,
}
use crownfi_sei_swaps.App.Service.{
  NetworkSummary, volume_or_zero, valid_pair, connected, get_pairs, get_pair, get_network_summary,
  execute_withdraw,
}
use crownfi_sei_swaps.App.Service.Serving.{serve, Served, served, pairs, Served-IsConsistent}

-- Trying the order given first, and then either, is trying either.
get_pair_twice :
    (m : SwapMarket) (id : Str × Str)
    → or_else (Market.get_pair m id false) (Market.get_pair m id true) ≡ Market.get_pair m id true
unfolding Market.get_pair
get_pair_twice m id = ground arith

module _ (env : Env) (clock : Clock) (w : MultiTokenWrapper) (tradable : Str → Bool)
    (denoms : Str → Str × Str) (m : SwapMarket) (k : KeepsTo env clock w tradable denoms)
    (s : Served env clock w m) where
  refreshed-IsConsistent : (n : ℕ) → IsConsistent (Market.refresh env clock n m).0
  unfolding serve get_pairs
  refreshed-IsConsistent n =
      Served-IsConsistent env clock w tradable denoms _ k (served {m = m} n n n pairs s)

  swapped_get_pair :
      (n : ℕ) (from to : Str)
      → get_pair env clock n (from, to) m ≡ get_pair env clock n (to, from) m
  unfolding get_pair
  swapped_get_pair n from to =
      let m' = (Market.refresh env clock n m).0 in
      let same =
        get_pair_twice m' (from, to)
        ∙ get_pair_comm m' from to (refreshed-IsConsistent n)
        ∙ sym (get_pair_twice m' (to, from)) in
      ap
        (λ (o : Option SwapMarketPair).
          let (m'', r) = Market.refresh env clock n m in (m'', r >>= (λ _. ok o)))
        same

  -- For a service that has served any requests, where the contracts' answers keep to what a market
  -- relies on: the two denoms of a pair can be given in either order, to look the pair up and to
  -- withdraw from it; and a withdrawal is the same whatever receiver it is given.
  pub either_order :
      (n : ℕ) (from to : Str) (client : Result (Option Account)) (amount : ℕ)
      (receiver receiver' : Str)
      → (get_pair env clock n (from, to) m ≡ get_pair env clock n (to, from) m)
        × (execute_withdraw env clock n client from to amount receiver m
            ≡ execute_withdraw env clock n client to from amount receiver' m)
  unfolding execute_withdraw
  either_order n from to client amount receiver receiver' = (
    swapped_get_pair n from to,
    ap
        (λ (x : SwapMarket × Result (Option SwapMarketPair)). (
          x.0,
          x.1 >>= valid_pair >>= (λ p.
              connected client
              >>= (λ sender. build_withdraw_and_unwrap_liquidity_ixs env p amount sender)),
        ))
        (swapped_get_pair n from to),
  )

  -- For a service that has served any requests, where the contracts' answers keep to what a market
  -- relies on, on a market whose pairs all have deposits of both assets and a fee of at most 100%:
  -- the summary of the network is always returned, its value locked is not negative, and a volume
  -- for which a query or a route fails counts as 0; the volume of all time is otherwise the market's.
  pub get_network_summary_returns :
      (n l : ℕ) (denom : Str)
      → AllFunded m
      → (summary : NetworkSummary) × (locked : ℕ) × (get_network_summary env clock n l denom m
          ≡ ok summary)
        × (summary.total_value_locked ≡ pos locked)
        × ((e : Error)
            → normalized_trade_volume_all_time m clock n denom none ≡ err e
            → summary.total_volume_traded ≡ 0)
        × ((v : MultiVolume)
            → normalized_trade_volume_all_time m clock n denom none ≡ ok v
            → summary.total_volume_traded ≡ v.total_volume)
        × ((e : Error)
            → normalized_trade_volume_past_hours m clock l denom (some 24) none ≡ err e
            → summary.last_day_total_value_locked ≡ 0)
  unfolding get_network_summary
  get_network_summary_returns n l denom funded =
      let (locked, e, _, _) =
        get_total_value_locked_returns m (Served-IsConsistent env clock w tradable denoms m k s)
          funded denom (get_all_pairs m) in
      (
        record {
          total_value_locked = pos locked;
          total_volume_traded =
              volume_or_zero (normalized_trade_volume_all_time m clock n denom none);
          last_day_total_value_locked =
              volume_or_zero (normalized_trade_volume_past_hours m clock l denom (some 24) none);
        },
        locked,
        rw e refl,
        refl,
        λ f h. rw h refl,
        λ v h. rw h refl,
        λ f h. rw h refl,
      )
