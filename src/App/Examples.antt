-- ===== src/App/Examples.antt =====
-- The theorems on the web application, at concrete states.
use crownfi_sei_swaps.Prelude.{
  ℕ, ◌+◌, ◌^◌, ◌*◌, ◌<◌, ◌≡◌, ◌≢◌, inl, inr, refl, Bool, true, false, List, [], ◌∷◌, Option, none,
  some, arith, In,
}
use crownfi_sei_swaps.Prelude.Integers.{ℤ, pos, pos_part}
use crownfi_sei_swaps.Text.{Str, codes, ◌==◌}
use crownfi_sei_swaps.Platform.{Error, Result, ok, err, type_error}
use crownfi_sei_swaps.Platform.Dict.{lookup, insert}
use crownfi_sei_swaps.Platform.Samples.{sample_env, alice, sample_clock}
use crownfi_sei_swaps.Wrapper.Samples.{wrappers}
use crownfi_sei_swaps.Pair.{SwapMarketPair, new_pair}
use crownfi_sei_swaps.Pair.Samples.{usei, uatom, sample_pair, native_pair}
use crownfi_sei_swaps.Market.{SwapMarket}
use crownfi_sei_swaps.Market.Consistency.{IsConsistent}
use crownfi_sei_swaps.Market.Swapping.{SwapSimResult}
use crownfi_sei_swaps.Market.Samples.{listing_clock, tradable, denoms_of, listing-KeepsTo}
use crownfi_sei_swaps.Market.Volumes.{
  MultiVolume, normalized_trade_volume_all_time, normalized_trade_volume_past_hours,
}
use crownfi_sei_swaps.App.Debounce.{
  Timer, Ran, AreOthers, Debounced, new_debounced, call, call_all, run_callback, clear, fire, Run,
  begin, calls, waits, called, waited, Event,
}
use crownfi_sei_swaps.App.Debounce.Latest.{latest, debounce_latest}
use crownfi_sei_swaps.App.Service.{NetworkSummary, get_pair, get_network_summary, execute_withdraw}
use crownfi_sei_swaps.App.Service.Serving.{
  serve, Served, served, swap_simulation, Served-IsConsistent,
}
use crownfi_sei_swaps.App.Service.Answers.{either_order, get_network_summary_returns}
use crownfi_sei_swaps.App.Samples.{made, made-Served, made-AllFunded}
use crownfi_sei_swaps.Pair
use crownfi_sei_swaps.Pair.Quotes.{share_value}
use crownfi_sei_swaps.App.Pool.{Numerals, Withdraw, new_withdraw, input_settled, submit}
use crownfi_sei_swaps.App.Pool.Preview.{withdraw_preview}
use crownfi_sei_swaps.App.Farm.{
  uvd, FarmFilters, new_farm, balances_of, refresh_pool_pairs, on_sort_by, on_farm_filters,
  handle_search,
}
use crownfi_sei_swaps.App.Farm.Listing.{Shows, render_list_lem}
use crownfi_sei_swaps.App.Swap.From.{
  DecimalTexts, SwapFrom, Details, set_disabled, new_from, changed_event,
}
use crownfi_sei_swaps.App.Currency.{
  CurrencySelector, get_currency, new_selector, refresh_options, select_currency, started,
  refreshed, selected, Selected-get_currency,
}
use crownfi_sei_swaps.App.Tokens.{get_tokens_from_pairs, add_tokens, add}
use crownfi_sei_swaps.App.Swap.{
  Swap, new_swap, new_to, set_inputs_disabled, update_token_and_options, connected_callback,
  select_token, handle_amount_changed,
}
use crownfi_sei_swaps.App.Swap.Uses.{Used, opened, selects}
use crownfi_sei_swaps.App.Swap.Choices.{Chosen, Used-Chosen}
use crownfi_sei_swaps.App.Swap.Kept.{tokens_of}
use crownfi_sei_swaps.App.Swap.Submission.{Submits, handle_amount_changed_lem}

-- A search that is typed twice within the delay, and something else once.
abbrev search_key : Str
search_key = codes "render"

abbrev typed_twice : Debounced ℕ
typed_twice =
    call search_key 7 500
      (record (call (codes "other") 6 100 (call search_key 5 500 (new_debounced 0))) {
        now = 0 + 200;
      })

abbrev typed_events : List (Event ℕ)
typed_events =
    called search_key 7 700
    ∷ waited 200
    ∷ called (codes "other") 6 100
    ∷ called search_key 5 500
    ∷ []

abbrev second_timer : Timer ℕ
second_timer = record { id = 3; key = search_key; callback = 7; due = 700 }

typed-Run : Run ℕ 0 typed_events typed_twice
unfolding call new_debounced
typed-Run =
    calls search_key 7 500 (waits 200 (calls (codes "other") 6 100 (calls search_key 5 500 begin)))

second_timer-pending : In second_timer typed_twice.pending
unfolding call new_debounced clear lookup insert ◌==◌
second_timer-pending = inr (inl refl)

debounce_latest_example :
    (lookup search_key typed_twice.timeouts ≡ some (some 3))
    × (latest search_key typed_events ≡ some (7, 700))
    × ((u : Timer ℕ) → In u typed_twice.pending → u.key ≡ search_key → u ≡ second_timer)
    × ((ran : Ran ℕ)
        → AreOthers search_key ran.made
        → (u : Timer ℕ) → In u (fire second_timer ran typed_twice).pending
        → u.key ≢ search_key)
debounce_latest_example =
    debounce_latest 0 typed_events typed_twice second_timer typed-Run second_timer-pending

-- A callback that calls a function with its own text again.
abbrev again : Ran ℕ
again = record {
  made = record { key = search_key; callback = 8; delay = 500 } ∷ [];
  returned = true;
}

-- The timer that it sets is pending, but no timeout is kept for it: nothing will clear it.
again_forgotten :
    (lookup search_key (fire second_timer again typed_twice).timeouts ≡ some none)
    × In
        (record { id = 4; key = search_key; callback = 8; due = 700 })
        (fire second_timer again typed_twice).pending
unfolding fire run_callback call_all call new_debounced clear lookup insert ◌==◌
again_forgotten = (refl, inr (inl refl))

-- A service that has simulated a swap.
abbrev used : SwapMarket
used = serve sample_env listing_clock 10 20 30 (swap_simulation usei uatom 100) made

used-Served : Served sample_env listing_clock wrappers used
used-Served = served 10 20 30 (swap_simulation usei uatom 100) made-Served

Served-IsConsistent_example : IsConsistent used
Served-IsConsistent_example =
    Served-IsConsistent sample_env listing_clock wrappers tradable denoms_of used listing-KeepsTo
      used-Served

either_order_example :
    (get_pair sample_env listing_clock 40 (usei, uatom) used
      ≡ get_pair sample_env listing_clock 40 (uatom, usei) used)
    × (execute_withdraw sample_env listing_clock 40
          (ok (some alice))
          usei
          uatom
          10
          (codes "bob")
          used
        ≡ execute_withdraw sample_env listing_clock 40
            (ok (some alice))
            uatom
            usei
            10
            (codes "eve")
            used)
either_order_example =
    either_order sample_env listing_clock wrappers tradable denoms_of used listing-KeepsTo
      used-Served 40 usei uatom (ok (some alice)) 10 (codes "bob") (codes "eve")

get_network_summary_returns_example :
    (summary : NetworkSummary) × (locked : ℕ) × (get_network_summary sample_env listing_clock 10 20
        usei made
      ≡ ok summary)
    × (summary.total_value_locked ≡ pos locked)
    × ((e : Error)
        → normalized_trade_volume_all_time made listing_clock 10 usei none ≡ err e
        → summary.total_volume_traded ≡ 0)
    × ((v : MultiVolume)
        → normalized_trade_volume_all_time made listing_clock 10 usei none ≡ ok v
        → summary.total_volume_traded ≡ v.total_volume)
    × ((e : Error)
        → normalized_trade_volume_past_hours made listing_clock 20 usei (some 24) none ≡ err e
        → summary.last_day_total_value_locked ≡ 0)
get_network_summary_returns_example =
    get_network_summary_returns sample_env listing_clock wrappers tradable denoms_of made
      listing-KeepsTo made-Served 10 20 usei made-AllFunded

abbrev uusdc : Str
uusdc = codes "uusdc"

abbrev other_pair : SwapMarketPair
other_pair = native_pair (codes "pair2") usei uusdc 300 900

abbrev two_pairs : List SwapMarketPair
two_pairs = sample_pair ∷ other_pair ∷ []

-- Each share has the balance 5.
abbrev five : Str → Result ℕ
five denom = ok 5

abbrev my_pools_only : FarmFilters
my_pools_only = record { my_pools = true; crownfi_endorsed = false }

two_pairs_refreshed : (refresh_pool_pairs (ok two_pairs) five new_farm).1 ≡ ok tt
unfolding refresh_pool_pairs balances_of
two_pairs_refreshed = refl

render_list_lem_example :
    Shows uvd my_pools_only
      (codes "ATOM sei")
      (handle_search (codes "ATOM sei") (
        on_farm_filters my_pools_only
          (on_sort_by uvd (refresh_pool_pairs (ok two_pairs) five new_farm).0)))
      two_pairs
render_list_lem_example =
    render_list_lem two_pairs five new_farm uvd my_pools_only (codes "ATOM sei") two_pairs_refreshed

-- A text holds an amount as its only code.
abbrev amount_text : ℤ → ℕ → Bool → Str
amount_text z d trim = pos_part z ∷ []

abbrev text_amount : Str → ℕ → Option ℤ
text_amount [] d = none
text_amount (c ∷ s) d = some (pos c)

abbrev sample_texts : DecimalTexts
sample_texts = record { to_text = amount_text; from_text = text_amount }

abbrev rich : SwapFrom
rich = record new_from { token = some usei; balance = 1000 }

abbrev first_state : Swap
first_state = (connected_callback (ok two_pairs) new_swap).0

abbrev second_state : Swap
second_state = select_token true uusdc first_state

uusdc_offered : In uusdc first_state.from_token.options
unfolding connected_callback update_token_and_options new_swap new_from new_to set_inputs_disabled
    set_disabled get_tokens_from_pairs add_tokens add new_pair ◌==◌
uusdc_offered = inl refl

second_state-Used : Used sample_texts two_pairs second_state
second_state-Used = selects true uusdc opened uusdc_offered

sample_pair-differs : sample_pair.unwrapped_assets.0 ≢ sample_pair.unwrapped_assets.1
unfolding new_pair
sample_pair-differs = λ e. absurd (ground (arith, e))

Used-Chosen_example : Chosen two_pairs (tokens_of second_state)
Used-Chosen_example =
    Used-Chosen sample_texts sample_pair (other_pair ∷ []) second_state sample_pair-differs
      second_state-Used

abbrev offering : Swap
offering = record new_swap {
  from_token = record new_from { token = some usei; amount = pos 250; balance = 1000 };
  to_token = record new_to { token = some uatom };
}

abbrev offered : Details
offered = record { denom = usei; amount = pos 250; is_valid = true }

abbrev simulation : SwapSimResult
simulation = record { result_amount = 1000; result_denom = uatom; slip_amount = pos 3; swaps = [] }

offering_event : changed_event offering.from_token ≡ some offered
unfolding changed_event new_from
offering_event = refl

handle_amount_changed_lem_example :
    let handled = handle_amount_changed sample_texts offered offering in
    Submits sample_texts offering handled.0 simulation true true handled.1
handle_amount_changed_lem_example =
    handle_amount_changed_lem sample_texts offering.from_token offering offered simulation true true
      offering_event refl refl refl

-- A text whose only code is a number of whole units.
abbrev whole_units : Str → ℕ → Option ℤ
whole_units [] d = none
whole_units (c ∷ s) d = some (pos (c * 10 ^ d))

abbrev whole_number : Str → Result ℕ
whole_number [] = err type_error
whole_number (c ∷ s) = ok c

abbrev whole_texts : DecimalTexts
whole_texts = record { to_text = amount_text; from_text = whole_units }

abbrev numerals : Numerals
numerals = record { to_bigint = whole_number; exceeds = λ a b. false }

abbrev withdrawing : Withdraw
withdrawing = record (new_withdraw sample_pair) { shares_amount_input = 5 ∷ [] }

five_read : numerals.to_bigint withdrawing.shares_amount_input ≡ ok 5
unfolding new_withdraw
five_read = refl

five_units : whole_texts.from_text withdrawing.shares_amount_input 6 ≡ some (pos (5 * 10 ^ 6))
unfolding new_withdraw
five_units = refl

refreshed_ok : (Pair.refresh sample_clock 0 withdrawing.pool_pair).1 ≡ ok tt
unfolding Pair.refresh new_withdraw new_pair
refreshed_ok = refl

withdraw_preview_example :
    let p = (Pair.refresh sample_clock 0 withdrawing.pool_pair).0 in
    let settled = input_settled numerals sample_clock 0 withdrawing in
    ((settled.1 ≡ ok tt)
      × (settled.0.submit_disabled ≡ false)
      × (settled.0.received ≡ ((share_value p 5).0.0, (share_value p 5).1.0)))
    × ((submit whole_texts numerals (some alice) (λ denom. ok 6) settled.0
          ≡ ok (
              some (record {
                from = p.unwrapped_assets.0;
                to = p.unwrapped_assets.1;
                amount = pos (5 * 10 ^ 6);
                receiver = alice.sei_address;
              })))
        × (5 < 5 * 10 ^ 6))
withdraw_preview_example =
    withdraw_preview whole_texts numerals withdrawing 5 6 (omega arith) five_read five_units refl
      sample_clock 0 alice b's' (codes "ei1alice") (λ denom. ok 6) (omega arith) refl refreshed_ok
      refl

-- A selector on which a currency is chosen, after a list of pairs that failed.
abbrev chosen_currency : CurrencySelector
chosen_currency =
    (select_currency uatom (refresh_options (err type_error) (new_selector (some []) usei)).0).0

Selected-get_currency_example :
    (get_currency chosen_currency.stored usei ≡ chosen_currency.selected_denom)
    × (chosen_currency.stored ≡ some chosen_currency.selected_denom)
Selected-get_currency_example =
    Selected-get_currency (some []) usei chosen_currency
      (selected uatom (refreshed (err type_error) started))
