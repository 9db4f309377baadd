-- ===== src/App/Service/Serving.antt =====
-- A service over its lifetime: whatever the page asks of it, its market stays consistent.
use crownfi_sei_swaps.Prelude.{
  ℕ, ◌≡◌, inl, inr, ◌∙◌, subst, Bool, true, false, Option, none, some, Option-cases,
}
use crownfi_sei_swaps.Text.{Str}
use crownfi_sei_swaps.Text.Split.{join_key}
use crownfi_sei_swaps.Platform.{
  Result, ok, ◌>>=◌, >>=-eq-ok, ok-injective, Result-cases, Coin, Account, Number, Env, Clock,
}
use crownfi_sei_swaps.Platform.Dict.{lookup}
use crownfi_sei_swaps.Wrapper.Multi.{MultiTokenWrapper}
use crownfi_sei_swaps.Pair
use crownfi_sei_swaps.Pair.{SwapMarketPair}
use crownfi_sei_swaps.Market
use crownfi_sei_swaps.Market.{SwapMarket, new_market, or_else, wrapped_or}
use crownfi_sei_swaps.Market.Consistency.{IsConsistent}
use crownfi_sei_swaps.Market.Loading.{
  KeepsTo, Reachable, constructed, refreshed, pair_refreshed, Reachable-IsConsistent,
}
use crownfi_sei_swaps.App.Service.{
  Settings, valid_pair, put_pair, create, get_pairs, get_pair, get_normalized_value,
  get_estimated_apy_past_30_days, simulate_swap, simulate_deposit, execute_deposit,
  execute_withdraw,
}

-- What the page asks of the service, where the answer may change its market.
pub data Request : Type 0 where
  pairs : Request
  pair : Str × Str → Request
  normalized_value : Coin → Str → Request
  estimated_apy : (from to : Str) → Request
  swap_simulation : (from to : Str) → ℕ → Request
  deposit_simulation : (from to : Coin) → Request
  deposit : Settings → Result (Option Account) → (from to : Coin) → Option Number → Request
  withdrawal : Result (Option Account) → (from to : Str) → ℕ → (receiver : Str) → Request

-- The market that a request leaves behind, its queries starting at the three times.
unfoldable pub serve : Env → Clock → ℕ → ℕ → ℕ → Request → SwapMarket → SwapMarket
serve env clock n k l pairs m = (get_pairs env clock n m).0
serve env clock n k l (pair p) m = (get_pair env clock n p m).0
serve env clock n k l (normalized_value from denom) m =
    (get_normalized_value env clock n from denom m).0
serve env clock n k l (estimated_apy from to) m =
    (get_estimated_apy_past_30_days env clock n k l from to m).0
serve env clock n k l (swap_simulation from to amount) m =
    (simulate_swap env clock n k from to amount m).0
serve env clock n k l (deposit_simulation from to) m = (simulate_deposit env clock n k from to m).0
serve env clock n k l (deposit settings client from to slippage) m =
    (execute_deposit env clock n settings client from to slippage m).0
serve env clock n k l (withdrawal client from to amount receiver) m =
    (execute_withdraw env clock n client from to amount receiver m).0

-- The markets of a service that `create` made with these wrappers and that has served requests.
pub data Served (env : Env) (clock : Clock) (w : MultiTokenWrapper) : SwapMarket → Type 0 where
  created :
      {m : SwapMarket} (n : ℕ) (factory router : Str)
      → create env clock n factory router w.cw20_wrapper w.erc20_wrapper ≡ ok m
      → Served env clock w m
  served :
      {m : SwapMarket} (n k l : ℕ) (q : Request)
      → Served env clock w m
      → Served env clock w (serve env clock n k l q m)

module _ (env : Env) (clock : Clock) (w : MultiTokenWrapper) where
  abbrev Reached : SwapMarket → Type 0
  Reached = Reachable env clock w

  created-Reached :
      (n : ℕ) (factory router : Str) (m : SwapMarket)
      → create env clock n factory router w.cw20_wrapper w.erc20_wrapper ≡ ok m
      → Reached m
  unfolding create
  created-Reached n factory router m e =
      let before = new_market factory router w.cw20_wrapper w.erc20_wrapper in
      let (u, done, same) = >>=-eq-ok (Market.refresh env clock n before).1 _ e in
      subst Reached (ok-injective same) (refreshed n (constructed factory router))

  -- The pair that `getPair` finds is held under one of the two keys, at which `put_pair` writes.
  put_pair-Reached :
      (n : ℕ) (m : SwapMarket) (id : Str × Str) (p : SwapMarketPair)
      → or_else (Market.get_pair m id false) (Market.get_pair m id true) ≡ some p
      → Reached m
      → Reached (put_pair m id (Pair.refresh clock n p).0)
  unfolding put_pair Market.get_pair
  put_pair-Reached n m id p found r =
      let a = wrapped_or m id.0 in
      let b = wrapped_or m id.1 in
      elim (Option-cases (lookup (join_key a b) m.asset_pair_map)) [
        | inr (q, first) ↦
            let e : some q ≡ some p = rw (first, Market.get_pair) at found in
            rw (first, put_pair) (pair_refreshed n (join_key a b) p r (first ∙ e))
        | inl missing ↦
            let e : lookup (join_key b a) m.asset_pair_map ≡ some p =
              rw (missing, Market.get_pair) at found in
            rw (missing, put_pair) (pair_refreshed n (join_key b a) p r e)
      ]

  get_pair-Reached :
      (n : ℕ) (id : Str × Str) (m : SwapMarket) → Reached m → Reached (get_pair env clock n id m).0
  unfolding get_pair
  get_pair-Reached n id m r = refreshed n r

  apy-Reached :
      (n k l : ℕ) (from to : Str) (m : SwapMarket)
      → Reached m
      → Reached (get_estimated_apy_past_30_days env clock n k l from to m).0
  unfolding get_estimated_apy_past_30_days
  apy-Reached n k l from to m r = elim (Result-cases (Market.refresh env clock n m).1) [
    | inr (e, failed) ↦ rw (failed, get_estimated_apy_past_30_days) (refreshed n r)
    | inl (u, done) ↦
        rw (done, get_estimated_apy_past_30_days) (get_pair-Reached k (from, to) _ (refreshed n r))
  ]

  some_of : (o : Option SwapMarketPair) (p : SwapMarketPair) → valid_pair o ≡ ok p → o ≡ some p
  some_of none p e = cc
  some_of (some q) p e = cc

  deposit-Reached :
      (n k : ℕ) (from to : Coin) (m : SwapMarket)
      → Reached m
      → Reached (simulate_deposit env clock n k from to m).0
  unfolding simulate_deposit get_pair
  deposit-Reached n k from to m r =
      let id : Str × Str = (from.denom, to.denom) in
      let (m1, r1) = get_pair env clock n id m in
      elim (Result-cases (r1 >>= valid_pair)) [
        | inr (e, failed) ↦ rw (failed, simulate_deposit) (refreshed n r)
        | inl (p, valid) ↦
            let (o, answered, is_some) = >>=-eq-ok r1 valid_pair valid in
            let (u, done, same) = >>=-eq-ok (Market.refresh env clock n m).1 _ answered in
            rw (valid, simulate_deposit)
              (put_pair-Reached k (Market.refresh env clock n m).0 id p
                (ok-injective same ∙ some_of o p is_some) (refreshed n r))
      ]

  serve-Reached :
      (n k l : ℕ) (q : Request) (m : SwapMarket) → Reached m → Reached (serve env clock n k l q m)
  unfolding serve get_pairs get_normalized_value simulate_swap execute_deposit execute_withdraw
      get_pair
  serve-Reached n k l pairs m r = refreshed n r
  serve-Reached n k l (pair p) m r = refreshed n r
  serve-Reached n k l (normalized_value from denom) m r = refreshed n r
  serve-Reached n k l (estimated_apy from to) m r = apy-Reached n k l from to m r
  serve-Reached n k l (swap_simulation from to amount) m r = refreshed n r
  serve-Reached n k l (deposit_simulation from to) m r = deposit-Reached n k from to m r
  serve-Reached n k l (deposit settings client from to slippage) m r = refreshed n r
  serve-Reached n k l (withdrawal client from to amount receiver) m r = refreshed n r

  Served-Reached : {m : SwapMarket} → Served env clock w m → Reached m
  Served-Reached (created {m = m} n factory router e) = created-Reached n factory router m e
  Served-Reached (served {m = m} n k l q s) = serve-Reached n k l q m (Served-Reached s)

-- Where the contracts' answers keep to what a market relies on, the market of a service is
-- consistent after any requests, in any order, answered at any times, also those that were rejected
-- and those that changed a pair in place.
pub Served-IsConsistent :
    (env : Env) (clock : Clock) (w : MultiTokenWrapper) (tradable : Str → Bool)
    (denoms : Str → Str × Str) (m : SwapMarket)
    → KeepsTo env clock w tradable denoms
    → Served env clock w m
    → IsConsistent m
Served-IsConsistent env clock w tradable denoms m k s =
    Reachable-IsConsistent env clock w tradable denoms m k (Served-Reached env clock w s)
