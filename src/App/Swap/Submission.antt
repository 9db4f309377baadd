-- ===== src/App/Swap/Submission.antt =====
-- swap.ts: what a click submits after the amount has changed.
use crownfi_sei_swaps.Prelude.{
  ◌≡◌, ◌≢◌, inl, inr, sym, ap, subst, ◌∙◌, Bool, true, false, Option, none, some, arith,
  Option-cases,
}
use crownfi_sei_swaps.Prelude.Integers.{ℤ, pos}
use crownfi_sei_swaps.Text.{Str}
use crownfi_sei_swaps.Platform.{ok}
use crownfi_sei_swaps.Market.Swapping.{SwapSimResult}
use crownfi_sei_swaps.App.Swap.From.{DecimalTexts, SwapFrom, Details, changed_event, set_disabled}
use crownfi_sei_swaps.App.Swap.{
  Swap, set_swap_button_loading, set_inputs_disabled, set_expected, set_loading, is_zero,
  handle_amount_changed, amount_simulated, confirm_swap,
}

abbrev pub Request : Type 0
Request = Str × Str × ℤ

-- What follows from a request to the service, or from none: without one, no click submits anything.
-- With one, the chosen tokens and the offered amount, which is valid and not 0, are simulated; once
-- the service has answered, a click submits just these with the amount that the simulation expects,
-- and a further click right after it submits nothing.
abbrev pub Submits :
    DecimalTexts
    → (before after : Swap) → SwapSimResult
    → (is_connected is_confirmed : Bool) → Option Request
    → Type 0
Submits texts before after answer is_connected is_confirmed none =
    (confirm_swap texts is_connected is_confirmed after).1 ≡ none
Submits texts before after answer is_connected is_confirmed (some (from, to, amount)) =
    ((before.from_token.token ≡ some from) × (before.to_token.token ≡ some to))
    × ((before.from_token.amount ≡ amount) × (before.from_token.is_valid ≡ true) × (amount ≢ pos 0))
    × (let simulated = (amount_simulated texts (ok answer) after).0 in
        let clicked = confirm_swap texts true true simulated in
        (clicked.1 ≡ some (from, to, amount, answer.result_amount))
        × ((confirm_swap texts is_connected is_confirmed clicked.0).1 ≡ none))

is_zero-false : (a : ℤ) → is_zero a ≡ false → a ≢ pos 0
is_zero-false a h e = cc

handled-none :
    (texts : DecimalTexts) (s : Swap) (details : Details)
    → (handle_amount_changed texts details s).1 ≡ none
    → (handle_amount_changed texts details s).0.swap_disabled ≡ true
unfolding handle_amount_changed
handled-none texts s details h = ground (arith, h)

handled-some :
    (texts : DecimalTexts) (s : Swap) (details : Details) (from to : Str) (amount : ℤ)
    → (handle_amount_changed texts details s).1 ≡ some (from, to, amount)
    → (details.denom ≡ from)
      × (s.to_token.token ≡ some to)
      × (details.amount ≡ amount)
      × (details.is_valid ≡ true)
      × (is_zero amount ≡ false)
      × ((handle_amount_changed texts details s).0.from_token ≡ s.from_token)
      × ((handle_amount_changed texts details s).0.to_token.token ≡ s.to_token.token)
unfolding handle_amount_changed set_loading
handled-some texts s details from to amount h = ground (arith, h)

disabled-confirm_swap :
    (texts : DecimalTexts) (s : Swap) (is_connected is_confirmed : Bool)
    → s.swap_disabled ≡ true
    → (confirm_swap texts is_connected is_confirmed s).1 ≡ none
unfolding confirm_swap
disabled-confirm_swap texts s is_connected is_confirmed h = ground (arith, h)

simulated-confirm_swap :
    (texts : DecimalTexts) (s : Swap) (answer : SwapSimResult) (from to : Str)
    → s.from_token.token ≡ some from
    → s.to_token.token ≡ some to
    → let clicked = confirm_swap texts true true (amount_simulated texts (ok answer) s).0 in
      (clicked.1 ≡ some (from, to, s.from_token.amount, answer.result_amount))
      × (clicked.0.swap_disabled ≡ true)
unfolding confirm_swap amount_simulated set_expected set_loading set_swap_button_loading
    set_inputs_disabled set_disabled
simulated-confirm_swap texts s answer from to h k = (simp (h, k), simp (h, k))

changed_event-details :
    (f : SwapFrom) (details : Details)
    → changed_event f ≡ some details
    → (f.token ≡ some details.denom) × (details.amount ≡ f.amount) × (details.is_valid ≡ f.is_valid)
unfolding changed_event
changed_event-details f details h = ground (arith, h)

Submits-request :
    (texts : DecimalTexts) (s : Swap) (details : Details) (answer : SwapSimResult)
    (is_connected is_confirmed : Bool) (from to : Str) (amount : ℤ)
    → s.from_token.token ≡ some details.denom
    → s.from_token.amount ≡ details.amount
    → s.from_token.is_valid ≡ details.is_valid
    → (handle_amount_changed texts details s).1 ≡ some (from, to, amount)
    → Submits texts s
        (handle_amount_changed texts details s).0
        answer
        is_connected
        is_confirmed
        (some (from, to, amount))
Submits-request texts s details answer is_connected is_confirmed from to amount token offered valid
      e =
    let after = (handle_amount_changed texts details s).0 in
    let (ef, et, ea, ev, ez, kept_from, kept_to) = handled-some texts s details from to amount e in
    let from_eq : s.from_token.token ≡ some from = token ∙ ap some ef in
    let amount_eq : s.from_token.amount ≡ amount = offered ∙ ea in
    let (submitted, disabled) =
      simulated-confirm_swap texts after answer from to
        (ap (λ (f : SwapFrom). f.token) kept_from ∙ from_eq) (kept_to ∙ et) in
    (
      (from_eq, et),
      (amount_eq, valid ∙ ev, is_zero-false amount ez),
      (
        submitted
            ∙ ap (λ a. some (from, to, a, answer.result_amount))
                (ap (λ (f : SwapFrom). f.amount) kept_from ∙ amount_eq),
        disabled-confirm_swap texts _ is_connected is_confirmed disabled,
      ),
    )

-- When the form handles the event of a changed amount, which carries what the component offered when
-- the debounced function was called, and token, amount and validity are still the same: either no
-- click submits anything, or the service is asked for the chosen tokens and the offered amount,
-- which is valid and not 0, and if it answers before anything else happens, a click of a connected
-- user who confirms submits these tokens and this amount with the expected amount that was
-- answered, and a further click right after that one submits nothing.
pub handle_amount_changed_lem :
    (texts : DecimalTexts) (f : SwapFrom) (s : Swap) (details : Details) (answer : SwapSimResult)
    (is_connected is_confirmed : Bool)
    → changed_event f ≡ some details
    → s.from_token.token ≡ f.token
    → s.from_token.amount ≡ f.amount
    → s.from_token.is_valid ≡ f.is_valid
    → Submits texts s
        (handle_amount_changed texts details s).0
        answer
        is_connected
        is_confirmed
        (handle_amount_changed texts details s).1
handle_amount_changed_lem texts f s details answer is_connected is_confirmed h same_token
      same_amount same_validity =
    let handled = handle_amount_changed texts details s in
    let (token, offered, valid) = changed_event-details f details h in
    elim (Option-cases handled.1) [
      | inl e ↦ subst (Submits texts s handled.0 answer is_connected is_confirmed) (sym e) (
          disabled-confirm_swap texts handled.0 is_connected is_confirmed
            (handled-none texts s details e))
      | inr ((from, to, amount), e) ↦
          subst (Submits texts s handled.0 answer is_connected is_confirmed) (sym e) (
            Submits-request texts s details answer is_connected is_confirmed from to amount
              (same_token ∙ token) (same_amount ∙ sym offered) (same_validity ∙ sym valid) e)
    ]
