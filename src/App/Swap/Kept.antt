-- ===== src/App/Swap/Kept.antt =====
-- swap.ts: the operations that leave the tokens as they are.
use crownfi_sei_swaps.Prelude.{ℕ, ◌≡◌, refl, Bool, List, Option, arith}
use crownfi_sei_swaps.Text.{Str}
use crownfi_sei_swaps.Platform.{Result, ok, err}
use crownfi_sei_swaps.Market.Swapping.{SwapSimResult}
use crownfi_sei_swaps.App.Swap.From.{
  DecimalTexts, SwapFrom, Details, update_validity, update_balance_text, set_loading_balance,
  refresh_balance, on_token_changed, update_percentage, update_amount, set_defaults, set_disabled,
}
use crownfi_sei_swaps.App.Swap.{
  Swap, set_swap_button_loading, set_inputs_disabled, set_expected, set_loading,
  handle_amount_changed, amount_simulated, confirm_swap, swap_executed,
}

-- What a state shows of the tokens: the two chosen ones, what each dropdown offers, and all.
abbrev pub Tokens : Type 0
Tokens = (Option Str × List Str) × (Option Str × List Str) × List Str

unfoldable pub tokens_of : Swap → Tokens
tokens_of s =
    ((s.from_token.token, s.from_token.options), (s.to_token.token, s.to_token.options), s.tokens)

unfoldable pub chosen_of : SwapFrom → Option Str × List Str
chosen_of f = (f.token, f.options)

pub chosen_of-refresh_balance :
    (texts : DecimalTexts) (get_decimals get_balance : Str → Result ℕ) (f : SwapFrom)
    → chosen_of (refresh_balance texts get_decimals get_balance f).0 ≡ chosen_of f
unfolding chosen_of refresh_balance set_loading_balance update_balance_text
chosen_of-refresh_balance texts get_decimals get_balance f = ground arith

pub chosen_of-on_token_changed :
    (texts : DecimalTexts) (get_decimals get_balance : Str → Result ℕ) (f : SwapFrom)
    → chosen_of (on_token_changed texts get_decimals get_balance f).0 ≡ chosen_of f
unfolding chosen_of on_token_changed refresh_balance set_loading_balance update_balance_text
chosen_of-on_token_changed texts get_decimals get_balance f = ground arith

pub chosen_of-update_percentage :
    (texts : DecimalTexts) (p : ℕ) (f : SwapFrom)
    → chosen_of (update_percentage texts p f) ≡ chosen_of f
unfolding chosen_of update_percentage update_validity
chosen_of-update_percentage texts p f = ground arith

pub chosen_of-update_amount :
    (texts : DecimalTexts) (text : Str) (f : SwapFrom)
    → chosen_of (update_amount texts text f) ≡ chosen_of f
unfolding chosen_of update_amount update_validity
chosen_of-update_amount texts text f = ground arith

pub tokens_of-handle_amount_changed :
    (texts : DecimalTexts) (details : Details) (s : Swap)
    → tokens_of (handle_amount_changed texts details s).0 ≡ tokens_of s
unfolding tokens_of handle_amount_changed set_expected set_loading
tokens_of-handle_amount_changed texts details s = ground arith

pub tokens_of-amount_simulated :
    (texts : DecimalTexts) (answer : Result SwapSimResult) (s : Swap)
    → tokens_of (amount_simulated texts answer s).0 ≡ tokens_of s
unfolding tokens_of amount_simulated set_expected set_loading
tokens_of-amount_simulated texts (ok r) s = refl
tokens_of-amount_simulated texts (err e) s = refl

pub tokens_of-confirm_swap :
    (texts : DecimalTexts) (is_connected is_confirmed : Bool) (s : Swap)
    → tokens_of (confirm_swap texts is_connected is_confirmed s).0 ≡ tokens_of s
unfolding tokens_of confirm_swap set_swap_button_loading set_inputs_disabled set_disabled
tokens_of-confirm_swap texts is_connected is_confirmed s = ground arith

pub tokens_of-swap_executed :
    (texts : DecimalTexts) (answer : Result (Unit {0})) (s : Swap)
    → tokens_of (swap_executed texts answer s).0 ≡ tokens_of s
unfolding tokens_of swap_executed set_swap_button_loading set_inputs_disabled set_disabled
    set_expected set_defaults update_amount update_validity
tokens_of-swap_executed texts (err e) s = refl
tokens_of-swap_executed texts (ok r) s = ground arith
