-- ===== src/App/Pool/Deposit.antt =====
-- packages/npm/sei-swaps-webapp/src/app/components/farm/pool-dialog/deposit-form/deposit-form.ts: the
-- class DepositForm.
use crownfi_sei_swaps.Prelude.{ℕ, Bool, true, false, [], ◌∷◌, Option, none, some, if◌then◌else◌}
use crownfi_sei_swaps.Prelude.Integers.{ℤ}
use crownfi_sei_swaps.Text.{Str, codes}
use crownfi_sei_swaps.Platform.{Result, ok, err, ◌>>=◌, Account, Coin}
use crownfi_sei_swaps.Pair.{SwapMarketPair}
use crownfi_sei_swaps.Pair.Quotes.{DepositCalcResult}
use crownfi_sei_swaps.App.Swap.From.{DecimalTexts}
use crownfi_sei_swaps.App.Pool.{Balance, no_balance, Numerals, valid_amount, submitter}

pub record Deposit : Type 0 where
  pub pool_pair : SwapMarketPair
  pub from_balance : Balance
  pub to_balance : Balance
  pub from_amount : Str
  pub to_amount : Str
  pub shares_amount : Str
  pub submit_disabled : Bool

-- The arguments of `executeDeposit`, amounts with their denoms.
pub record Offer : Type 0 where
  pub offer_from : ℤ × Str
  pub offer_to : ℤ × Str

unfoldable pub new_deposit : SwapMarketPair → Deposit
new_deposit p = record {
  pool_pair = p;
  from_balance = no_balance;
  to_balance = no_balance;
  from_amount = [];
  to_amount = [];
  shares_amount = codes "0";
  submit_disabled = true;
}

unfoldable pub deposit_defaults : Deposit → Deposit
deposit_defaults d = record d {
  from_amount = codes "0";
  to_amount = codes "0";
  shares_amount = codes "0";
  submit_disabled = true;
}

-- `fromMax` and `toMax`, which do not calculate the shares.
unfoldable pub click_from_max : Deposit → Deposit
click_from_max d = record d { from_amount = d.from_balance.decimal }

unfoldable pub click_to_max : Deposit → Deposit
click_to_max d = record d { to_amount = d.to_balance.decimal }

abbrev pub is_empty : Str → Bool
is_empty [] = true
is_empty (c ∷ s) = false

abbrev pub deposit_coins : Numerals → Deposit → Result (Coin × Coin)
deposit_coins numerals d = do
  a ← numerals.to_bigint d.from_amount
  b ← numerals.to_bigint d.to_amount
  ok (
    record { denom = d.pool_pair.unwrapped_assets.0; amount = a },
    record { denom = d.pool_pair.unwrapped_assets.1; amount = b },
  )

-- `calculateShares` up to its call of `simulateDeposit`, with the coins to simulate.
unfoldable pub calculate_shares : Numerals → Deposit → Deposit × Result (Option (Coin × Coin))
calculate_shares numerals d =
    if is_empty d.from_amount
    then (record d { submit_disabled = true; shares_amount = codes "0" }, ok none)
    else if is_empty d.to_amount
    then (record d { submit_disabled = true; shares_amount = codes "0" }, ok none)
    else (
      record d { submit_disabled = false },
      deposit_coins numerals d >>= (λ coins. ok (some coins)),
    )

-- The rest of it. `ui_amount` is `UIAmount(amount, denom, true, false)` of @crownfi/sei-utils.
unfoldable pub shares_calculated :
    (ui_amount : ℕ → Str → Str) → Result DepositCalcResult → Deposit → Deposit × Result (Unit {0})
shares_calculated ui_amount (err e) d = (d, err e)
shares_calculated ui_amount (ok r) d =
    (record d { shares_amount = ui_amount r.new_shares d.pool_pair.shares_denom }, ok tt)

-- The first balance is kept also if the second is not answered.
unfoldable pub refresh_balances : (from to : Result Balance) → Deposit → Deposit × Result (Unit {0})
refresh_balances (err e) to d = (d, err e)
refresh_balances (ok b) (err e) d = (record d { from_balance = b }, err e)
refresh_balances (ok b) (ok c) d = (record d { from_balance = b; to_balance = c }, ok tt)

-- The event `submit`, up to the call of `executeDeposit`.
unfoldable pub submit_deposit :
    DecimalTexts
    → Option Account
    → (get_decimals : Str → Result ℕ) → Deposit
    → Result (Option Offer)
submit_deposit texts account get_decimals d =
    let from = d.pool_pair.unwrapped_assets.0 in
    let to = d.pool_pair.unwrapped_assets.1 in
    elim (submitter account) [
      | none ↦ ok none
      | some address ↦ (do
        from_decimals ← get_decimals from
        to_decimals ← get_decimals to
        a ← valid_amount (texts.from_text d.from_amount from_decimals) "Invalid amounts"
        b ← valid_amount (texts.from_text d.to_amount to_decimals) "Invalid amounts"
        ok (some (record { offer_from = (a, from); offer_to = (b, to) })))
    ]

abbrev pub after_deposit :
    Result (Unit {0}) → (from to : Result Balance) → Deposit → Deposit × Result (Unit {0})
after_deposit (err e) from to d = (d, err e)
after_deposit (ok _) from to d =
    let (d1, r) = refresh_balances from to d in
    elim r [ err e ↦ (d1, err e) | ok _ ↦ (deposit_defaults d1, ok tt) ]

-- The rest of it: on success the balances are refreshed and the fields reset, and in any case the
-- balances are refreshed at the end, whose error replaces an earlier one.
unfoldable pub deposit_finished :
    (answer : Result (Unit {0}))
    → (from to last_from last_to : Result Balance) → Deposit
    → Deposit × Result (Unit {0})
unfolding refresh_balances deposit_defaults
deposit_finished answer from to last_from last_to d =
    let (d1, r1) = after_deposit answer from to d in
    let (d2, r2) = refresh_balances last_from last_to d1 in (d2, r2 >>= (λ _. r1))
