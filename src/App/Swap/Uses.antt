-- ===== src/App/Swap/Uses.antt =====
-- swap.ts: the states that the component can come to, as a relation.
use crownfi_sei_swaps.Prelude.{ℕ, Bool, List, In, if◌then◌else◌}
use crownfi_sei_swaps.Text.{Str}
use crownfi_sei_swaps.Platform.{Result, ok}
use crownfi_sei_swaps.Pair.{SwapMarketPair}
use crownfi_sei_swaps.Market.Swapping.{SwapSimResult}
use crownfi_sei_swaps.App.Swap.From.{
  DecimalTexts, Details, refresh_balance, on_token_changed, update_percentage, type_amount,
}
use crownfi_sei_swaps.App.Swap.{
  Swap, new_swap, connected_callback, select_token, set_wallet_connected, handle_amount_changed,
  amount_simulated, confirm_swap, swap_executed,
}

-- The states that the component can come to, with pairs that the service has answered once. Either
-- dropdown tells of a token that it offers, and the answers may come in any order.
pub data Used (texts : DecimalTexts) (pairs : List SwapMarketPair) : Swap → Type 0 where
  opened : Used texts pairs (connected_callback (ok pairs) new_swap).0
  selects :
      {s : Swap} (is_from : Bool) (denom : Str)
      → Used texts pairs s
      → In denom (if is_from then s.from_token.options else s.to_token.options)
      → Used texts pairs (select_token is_from denom s)
  token_loads :
      {s : Swap} (get_decimals get_balance : Str → Result ℕ)
      → Used texts pairs s
      → Used texts pairs (record s {
        from_token = (on_token_changed texts get_decimals get_balance s.from_token).0;
      })
  refreshes :
      {s : Swap} (get_decimals get_balance : Str → Result ℕ)
      → Used texts pairs s
      → Used texts pairs (record s {
        from_token = (refresh_balance texts get_decimals get_balance s.from_token).0;
      })
  slides :
      {s : Swap} (percentage : ℕ)
      → Used texts pairs s
      → Used texts pairs (record s { from_token = update_percentage texts percentage s.from_token })
  types :
      {s : Swap} (text : Str)
      → Used texts pairs s
      → Used texts pairs (record s { from_token = type_amount texts text s.from_token })
  amount_changes :
      {s : Swap} (details : Details)
      → Used texts pairs s
      → Used texts pairs (handle_amount_changed texts details s).0
  simulates :
      {s : Swap} (answer : Result SwapSimResult)
      → Used texts pairs s
      → Used texts pairs (amount_simulated texts answer s).0
  confirms :
      {s : Swap} (is_connected is_confirmed : Bool)
      → Used texts pairs s
      → Used texts pairs (confirm_swap texts is_connected is_confirmed s).0
  executes :
      {s : Swap} (answer : Result (Unit {0}))
      → Used texts pairs s
      → Used texts pairs (swap_executed texts answer s).0
  connects :
      {s : Swap} (is_connected : Bool)
      → Used texts pairs s
      → Used texts pairs (set_wallet_connected is_connected s)
