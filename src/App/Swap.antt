-- ===== src/App/Swap.antt =====
-- packages/npm/sei-swaps-webapp/src/app/components/swap/swap.ts: the class SwapComponent, and its
-- part of to-token/to-token.ts, the class SwapToComponent. The part of from-token is App/Swap/From.
-- An attribute that is absent, or a text that is `undefined`, is `none`. What the service answers
-- comes as an argument of the operation that waits for it.
pub mod From
pub mod Uses
pub mod Kept
pub mod Choices
pub mod Submission
use crownfi_sei_swaps.Prelude.{
  ℕ, zero, suc, Bool, true, false, not, ◌&&◌, ◌||◌, List, [], ◌∷◌, Option, none, some,
  if◌then◌else◌,
}
use crownfi_sei_swaps.Prelude.Integers.{ℤ, pos, negsuc}
use crownfi_sei_swaps.Text.{Str, codes, ◌==◌}
use crownfi_sei_swaps.Platform.{Result, ok, err}
use crownfi_sei_swaps.Pair.{SwapMarketPair}
use crownfi_sei_swaps.Market.Swapping.{SwapSimResult}
use crownfi_sei_swaps.App.Tokens.{get_tokens_from_pairs}
use crownfi_sei_swaps.App.Swap.From.{
  DecimalTexts, SwapFrom, Details, new_from, present, refresh_balance, on_token_changed,
  set_defaults, set_disabled,
}

-- `SwapToComponent`: its attributes, and the value of the field that shows the amount. The number
-- of decimals is never changed.
pub record SwapTo : Type 0 where
  pub token : Option Str
  pub options : List Str
  pub amount : Option ℕ
  pub slippage : Option ℤ
  pub slippage_amount : Str
  pub to_amount : Str
  pub decimals : ℕ
  pub loading : Bool
  pub disabled : Bool

unfoldable pub new_to : SwapTo
new_to = record {
  token = none;
  options = [];
  amount = none;
  slippage = none;
  slippage_amount = codes "0";
  to_amount = codes "0";
  decimals = 6;
  loading = false;
  disabled = false;
}

-- `SwapComponent`. `swap_loading` is the spinner of the button.
pub record Swap : Type 0 where
  pub from_token : SwapFrom
  pub to_token : SwapTo
  pub tokens : List Str
  pub exceeds_balance_warning : Bool
  pub connect_wallet_warning : Bool
  pub swap_disabled : Bool
  pub swap_loading : Bool

unfoldable pub set_inputs_disabled : Bool → Swap → Swap
unfolding set_disabled
set_inputs_disabled is_disabled s = record s {
  from_token = set_disabled is_disabled s.from_token;
  to_token = record s.to_token { disabled = is_disabled };
}

-- The template shows the first warning only, and its button is disabled.
unfoldable pub new_swap : Swap
unfolding new_from new_to set_inputs_disabled
new_swap = set_inputs_disabled true (record {
  from_token = new_from;
  to_token = new_to;
  tokens = [];
  exceeds_balance_warning = false;
  connect_wallet_warning = true;
  swap_disabled = true;
  swap_loading = false;
})

-- `getAttribute("token") || ""`
abbrev or_empty : Option Str → Str
or_empty none = []
or_empty (some token) = token

-- `token === getAttribute("token")`
abbrev is_same : Str → Option Str → Bool
is_same token none = false
is_same token (some t) = token == t

abbrev pub other_tokens : Str → Str → List Str → List Str
other_tokens from to [] = []
other_tokens from to (t ∷ ts) =
    if not (t == from) && not (t == to)
    then t ∷ other_tokens from to ts
    else other_tokens from to ts

-- Only an attribute that differs is set; what `onTokenChanged` then loads for the offered token is
-- `on_token_changed`, an operation of its own.
unfoldable pub update_token_and_options : Option Str → Option Str → Swap → Swap
update_token_and_options from_given to_given s =
    let from : Str = elim from_given [ none ↦ or_empty s.from_token.token | some t ↦ t ] in
    let to : Str = elim to_given [ none ↦ or_empty s.to_token.token | some t ↦ t ] in
    let options = other_tokens from to s.tokens in
    if is_same from s.from_token.token && is_same to s.to_token.token then s else record s {
      from_token = record s.from_token { token = some from; options = options };
      to_token = record s.to_token { token = some to; options = options };
    }

-- `this.tokens[i]`
abbrev first : List Str → Option Str
first [] = none
first (t ∷ ts) = some t

abbrev second : List Str → Option Str
second [] = none
second (t ∷ ts) = first ts

-- The start of `connectedCallback`, with the pairs that the service answers.
unfoldable pub connected_callback : Result (List SwapMarketPair) → Swap → Swap × Result (Unit {0})
unfolding update_token_and_options
connected_callback (err e) s = (s, err e)
connected_callback (ok pairs) s =
    let tokens = get_tokens_from_pairs pairs in
    (update_token_and_options (first tokens) (second tokens) (record s { tokens = tokens }), ok tt)

-- `tokenDropdownSelected` of the dropdown of either side. A dropdown tells of no empty denom.
unfoldable pub select_token : (is_from : Bool) → Str → Swap → Swap
unfolding update_token_and_options
select_token true denom s = update_token_and_options (present (some denom)) none s
select_token false denom s = update_token_and_options none (present (some denom)) s

unfoldable pub set_wallet_connected : Bool → Swap → Swap
unfolding set_inputs_disabled
set_wallet_connected is_connected s =
    set_inputs_disabled (not is_connected) (record s { connect_wallet_warning = not is_connected })

unfoldable pub set_swap_button_loading : Bool → Swap → Swap
unfolding set_inputs_disabled
set_swap_button_loading is_loading s =
    set_inputs_disabled is_loading
      (record s { swap_disabled = is_loading; swap_loading = is_loading })

abbrev pub is_zero : ℤ → Bool
is_zero (pos zero) = true
is_zero (pos (suc n)) = false
is_zero (negsuc n) = false

module _ (texts : DecimalTexts) where
  -- `toToken.slippage` and `toToken.amount` are set, and shown.
  unfoldable pub set_expected : ℤ → ℕ → SwapTo → SwapTo
  set_expected slippage amount t = record t {
    slippage = some slippage;
    slippage_amount = texts.to_text slippage t.decimals true;
    amount = some amount;
    to_amount = texts.to_text (pos amount) t.decimals true;
  }

  -- `SwapToComponent.setLoading`
  unfoldable pub set_loading : Bool → SwapTo → SwapTo
  set_loading true t = record t { slippage_amount = []; to_amount = codes "0"; loading = true }
  set_loading false t = record t { loading = false }

  -- `handleAmountChangedEvent` up to its call of the service: the tokens and the amount to simulate,
  -- or `none` where nothing is simulated.
  unfoldable pub handle_amount_changed : Details → Swap → Swap × Option (Str × Str × ℤ)
  unfolding set_expected set_loading
  handle_amount_changed details s =
      let warned = record s { exceeds_balance_warning = not details.is_valid } in
      let nothing = record warned {
        to_token = set_expected (pos 0) 0 s.to_token;
        swap_disabled = true;
      } in
      elim (present (some details.denom)) [
        | none ↦ (nothing, none)
        | some denom ↦ elim (present s.to_token.token) [
          | none ↦ (nothing, none)
          | some to ↦ if not details.is_valid || is_zero details.amount then (nothing, none) else (
            record warned { to_token = set_loading true s.to_token },
            some (denom, to, details.amount),
          )
        ]
      ]

  -- The rest of it, with the service's answer.
  unfoldable pub amount_simulated : Result SwapSimResult → Swap → Swap × Result (Unit {0})
  unfolding set_expected set_loading
  amount_simulated (err e) s = (record s { to_token = set_loading false s.to_token }, err e)
  amount_simulated (ok r) s = (
    record s {
      to_token = set_loading false (set_expected r.slip_amount r.result_amount s.to_token);
      swap_disabled = false;
    },
    ok tt,
  )

  -- A click of the button, up to the call of `executeSwap` with the tokens, the offered amount and
  -- the expected one. A button that is disabled is not clicked, and without an account nothing
  -- happens. `is_confirmed` is whether the library's `coin` accepts both amounts and the user
  -- confirms them, before anything else happens; it does not accept a token or an amount that is
  -- missing.
  unfoldable pub confirm_swap :
      (is_connected is_confirmed : Bool) → Swap → Swap × Option (Str × Str × ℤ × ℕ)
  unfolding set_swap_button_loading
  confirm_swap is_connected is_confirmed s =
      if s.swap_disabled || not is_connected || not is_confirmed
      then (s, none)
      else elim s.from_token.token [
        | none ↦ (s, none)
        | some from ↦ elim s.to_token.token [
          | none ↦ (s, none)
          | some to ↦ elim s.to_token.amount [
            | none ↦ (s, none)
            | some expected ↦
                (set_swap_button_loading true s, some (from, to, s.from_token.amount, expected))
          ]
        ]
      ]

  -- The rest of it, with the answer of `executeSwap`. The balance is refreshed on its own.
  unfoldable pub swap_executed : Result (Unit {0}) → Swap → Swap × Result (Unit {0})
  unfolding set_defaults set_expected set_swap_button_loading
  swap_executed (err e) s =
      (record (set_swap_button_loading false s) { swap_disabled = true }, err e)
  swap_executed (ok _) s =
      let s1 = record s {
        from_token = set_defaults texts s.from_token;
        to_token = set_expected (pos 0) 0 s.to_token;
      } in
      (record (set_swap_button_loading false s1) { swap_disabled = true }, ok tt)
