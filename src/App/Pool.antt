-- ===== src/App/Pool.antt =====
-- packages/npm/sei-swaps-webapp/src: hooks/use-get-balance.ts, and of the pool dialog
-- (app/components/farm/pool-dialog) withdraw-form/withdraw-form.ts, the class WithdrawForm. The
-- deposit form is Pool/Deposit. What the network or the service answers comes as an argument; a
-- submission is the call of the service, and its rest an operation of its own.
pub mod Deposit
pub mod Preview
pub mod Figures
pub mod Shares
use Prim.Native.String.{String}
use crownfi_sei_swaps.Prelude.{
  ℕ, zero, suc, Bool, true, false, not, ◌||◌, List, [], ◌∷◌, Option, none, some, if◌then◌else◌,
}
use crownfi_sei_swaps.Prelude.Integers.{ℤ, pos, negsuc}
use crownfi_sei_swaps.Text.{Str, codes}
use crownfi_sei_swaps.Platform.{Result, ok, err, ◌>>=◌, message, Account, Clock}
use crownfi_sei_swaps.Pair
use crownfi_sei_swaps.Pair.Quotes.{share_value}
use crownfi_sei_swaps.Pair.{SwapMarketPair}
use crownfi_sei_swaps.App.Swap.From.{DecimalTexts}

-- `UseGetBalanceOutput`
pub record Balance : Type 0 where
  pub raw : ℕ
  pub decimal : Str

abbrev pub no_balance : Balance
no_balance = record { raw = 0; decimal = codes "0" }

-- Of the host: `BigInt(text)`, which throws for a text that is no integer, and `+a > +b`. Texts of
-- negative integers are left out.
pub record Numerals : Type 0 where
  pub to_bigint : Str → Result ℕ
  pub exceeds : Str → Str → Bool

-- Without an account the balance is 0. `get_balance` is the client's, for an address.
unfoldable pub use_get_balance :
    DecimalTexts
    → Result (Option Account)
    → (get_decimals : Str → Result ℕ) → (get_balance : Str → Str → Result ℕ) → Str
    → Result Balance
use_get_balance texts (err e) get_decimals get_balance denom = err e
use_get_balance texts (ok none) get_decimals get_balance denom = ok no_balance
use_get_balance texts (ok (some account)) get_decimals get_balance denom = do
  decimals ← get_decimals denom
  balance ← get_balance denom account.sei_address
  ok (record { raw = balance; decimal = texts.to_text (pos balance) decimals false })

-- `!amount`, of an amount that may be `null`.
abbrev pub valid_amount : Option ℤ → String → Result ℤ
valid_amount none text = err (message (codes text))
valid_amount (some (pos zero)) text = err (message (codes text))
valid_amount (some (pos (suc n))) text = ok (pos (suc n))
valid_amount (some (negsuc n)) text = ok (negsuc n)

-- The account that a form submits for.
abbrev pub submitter : Option Account → Option Str
submitter none = none
submitter (some account) = elim account.sei_address [ [] ↦ none | c ∷ s ↦ some (c ∷ s) ]

-- `WithdrawForm`; `received` is what the two badges show.
pub record Withdraw : Type 0 where
  pub pool_pair : SwapMarketPair
  pub shares_balance : Balance
  pub shares_amount_input : Str
  pub received : ℕ × ℕ
  pub submit_disabled : Bool

-- The arguments of `executeWithdraw`
pub record Withdrawal : Type 0 where
  pub from : Str
  pub to : Str
  pub amount : ℤ
  pub receiver : Str

unfoldable pub new_withdraw : SwapMarketPair → Withdraw
new_withdraw p = record {
  pool_pair = p;
  shares_balance = no_balance;
  shares_amount_input = [];
  received = (0, 0);
  submit_disabled = true;
}

unfoldable pub set_defaults : Withdraw → Withdraw
set_defaults w = record w {
  shares_amount_input = codes "0";
  received = (0, 0);
  submit_disabled = true;
}

unfoldable pub refresh_balance : Result Balance → Withdraw → Withdraw × Result (Unit {0})
refresh_balance (err e) w = (w, err e)
refresh_balance (ok balance) w = (record w { shares_balance = balance }, ok tt)

abbrev pub receive : Result ℕ → Withdraw → Withdraw × Result (Unit {0})
receive (err e) w = (w, err e)
receive (ok shares) w =
    let value = share_value w.pool_pair shares in
    (record w { received = (value.0.0, value.1.0) }, ok tt)

-- `simulateWithdraw`: the pair is refreshed first, and stays as far as that came.
unfoldable pub simulate_withdraw : Numerals → Clock → ℕ → Withdraw → Withdraw × Result (Unit {0})
simulate_withdraw numerals clock n w =
    let (p, r) = Pair.refresh clock n w.pool_pair in
    let w1 = record w { pool_pair = p } in
    elim r [ err e ↦ (w1, err e) | ok _ ↦ receive (numerals.to_bigint w.shares_amount_input) w1 ]

-- What runs once the debouncing of an input is over.
unfoldable pub input_settled : Numerals → Clock → ℕ → Withdraw → Withdraw × Result (Unit {0})
unfolding simulate_withdraw
input_settled numerals clock n w =
    if numerals.exceeds w.shares_amount_input w.shares_balance.decimal
    then (record w { received = (0, 0); submit_disabled = true }, ok tt)
    else simulate_withdraw numerals clock n (record w { submit_disabled = false })

unfoldable pub click_max : Withdraw → Withdraw
click_max w = record w { shares_amount_input = w.shares_balance.decimal }

-- The event `submit`, up to the call of `executeWithdraw`; nothing is submitted without an account.
unfoldable pub submit :
    DecimalTexts
    → Numerals
    → Option Account
    → (get_decimals : Str → Result ℕ) → Withdraw
    → Result (Option Withdrawal)
submit texts numerals account get_decimals w = elim (submitter account) [
  | none ↦ ok none
  | some receiver ↦
      if numerals.exceeds w.shares_amount_input w.shares_balance.decimal
      then err (message (codes "Exceeds Balance"))
      else (do
        decimals ← get_decimals w.pool_pair.shares_denom
        amount ← valid_amount (texts.from_text w.shares_amount_input decimals) "Invalid Amount"
        ok (
            some (record {
              from = w.pool_pair.unwrapped_assets.0;
              to = w.pool_pair.unwrapped_assets.1;
              amount = amount;
              receiver = receiver;
            })))
]

-- What is left of the `try` block once the service has answered, or something has thrown before.
abbrev pub after_answer :
    Result (Unit {0}) → Result Balance → Withdraw → Withdraw × Result (Unit {0})
after_answer (err e) balance w = (w, err e)
after_answer (ok _) (err e) w = (w, err e)
after_answer (ok _) (ok balance) w = (set_defaults (record w { shares_balance = balance }), ok tt)

-- The `finally` block, whose error replaces an earlier one.
unfoldable pub withdraw_finished :
    (answer : Result (Unit {0}))
    → (balance last_balance : Result Balance) → Withdraw
    → Withdraw × Result (Unit {0})
unfolding refresh_balance set_defaults
withdraw_finished answer balance last_balance w =
    let (w1, r1) = after_answer answer balance w in
    let (w2, r2) = refresh_balance last_balance w1 in (w2, r2 >>= (λ _. r1))
