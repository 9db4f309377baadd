-- ===== src/App/Swap/From.antt =====
-- packages/npm/sei-swaps-webapp/src/app/components/swap/from-token/from-token.ts: the class
-- SwapFromComponent, the offered amount. A percentage is kept as a number of units of a power of
-- ten, where the code rounds it to a `number`; the two decimal places that are shown of it, and the
-- colours of the slider, are left out.
pub mod Laws
use crownfi_sei_swaps.Prelude.{
  ℕ, ◌+◌, ◌*◌, ◌^◌, eqb, Bool, true, false, not, List, [], ◌∷◌, Option, none, some, if◌then◌else◌,
}
use crownfi_sei_swaps.Prelude.Integers.{ℤ, pos, ◌*ℤ◌, quot, gtb_ℤ}
use crownfi_sei_swaps.Text.{Str, codes}
use crownfi_sei_swaps.Platform.{Result, ok, err}
use crownfi_sei_swaps.App.Debounce.{Debounced, call}

-- Of @crownfi/sei-utils: `bigIntToStringDecimal(value, decimals, trim)` and
-- `stringDecimalToBigInt(text, decimals)`.
pub record DecimalTexts : Type 0 where
  pub to_text : ℤ → ℕ → Bool → Str
  pub from_text : Str → ℕ → Option ℤ

-- `units` / 10 ^ `places` percent.
pub record Percentage : Type 0 where
  pub units : ℤ
  pub places : ℕ

-- What stands beside the slider.
pub data ShownPercentage : Type 0 where
  at : Percentage → ShownPercentage
  over_100 : ShownPercentage

pub record SwapFrom : Type 0 where
  pub token : Option Str
  pub options : List Str
  pub amount : ℤ
  pub percentage : Percentage
  pub decimals : ℕ
  pub balance : ℕ
  pub is_valid : Bool
  pub selected_amount : Str
  pub current_percentage : ShownPercentage
  pub balance_amount : Str
  pub balance_loading : Bool
  pub disabled : Bool

-- `SwapFromTokenChangedAmountEventDetails`
pub record Details : Type 0 where
  pub denom : Str
  pub amount : ℤ
  pub is_valid : Bool

abbrev pub none_percent : Percentage
none_percent = record { units = pos 0; places = 0 }

unfoldable pub new_from : SwapFrom
new_from = record {
  token = none;
  options = [];
  amount = pos 0;
  percentage = none_percent;
  decimals = 6;
  balance = 0;
  is_valid = true;
  selected_amount = codes "0";
  current_percentage = at none_percent;
  balance_amount = codes "0";
  balance_loading = false;
  disabled = false;
}

-- `!!token`, of an attribute or a property.
abbrev pub present : Option Str → Option Str
present none = none
present (some []) = none
present (some (c ∷ s)) = some (c ∷ s)

unfoldable pub update_validity : SwapFrom → SwapFrom
update_validity s = record s { is_valid = not (gtb_ℤ s.amount (pos s.balance)) }

-- Whether a percentage is greater than 100.
abbrev pub exceeds_max : Percentage → Bool
exceeds_max p = gtb_ℤ p.units (pos (100 * 10 ^ p.places))

module _ (texts : DecimalTexts) where
  unfoldable pub update_balance_text : ℕ → SwapFrom → SwapFrom
  update_balance_text value s = record s {
    balance_amount = elim (present s.token) [
      | none ↦ codes "0"
      | some token ↦ if eqb value 0 then codes "0" else texts.to_text (pos value) s.decimals false
    ];
  }

  unfoldable pub set_loading_balance : Bool → SwapFrom → SwapFrom
  unfolding update_balance_text
  set_loading_balance true s = record s { balance_amount = []; balance_loading = true }
  set_loading_balance false s = record (update_balance_text s.balance s) { balance_loading = false }

  -- The token's decimals and the balance are those that the network answers. If it answers no
  -- balance, the text stays the one shown while loading.
  unfoldable pub refresh_balance :
      (Str → Result ℕ) → (Str → Result ℕ) → SwapFrom → SwapFrom × Result (Unit {0})
  unfolding update_balance_text set_loading_balance
  refresh_balance get_decimals get_balance s = elim (present s.token) [
    | none ↦ (update_balance_text 0 s, ok tt)
    | some token ↦ elim (get_decimals token) [
      | err e ↦ (s, err e)
      | ok decimals ↦
          let loading = set_loading_balance true (record s { decimals = decimals }) in
          elim (get_balance token) [
            | err e ↦ (loading, err e)
            | ok raw ↦ (set_loading_balance false (record loading { balance = raw }), ok tt)
          ]
    ]
  ]

  -- What follows once the attribute `token` is set.
  unfoldable pub on_token_changed :
      (Str → Result ℕ) → (Str → Result ℕ) → SwapFrom → SwapFrom × Result (Unit {0})
  unfolding refresh_balance
  on_token_changed get_decimals get_balance s = elim (present s.token) [
    | none ↦ (s, ok tt)
    | some token ↦ elim (get_decimals token) [
      | err e ↦ (s, err e)
      | ok decimals ↦ refresh_balance get_decimals get_balance (record s { decimals = decimals })
    ]
  ]

  -- A place of the slider, from 0 to 100.
  unfoldable pub update_percentage : ℕ → SwapFrom → SwapFrom
  unfolding update_validity
  update_percentage percentage s =
      let percent : Percentage = record { units = pos percentage; places = 0 } in
      let amount = quot (pos percentage *ℤ pos s.balance) 100 in
      if eqb s.balance 0
      then s
      else update_validity (record s {
        percentage = percent;
        amount = amount;
        current_percentage = at percent;
        selected_amount = texts.to_text amount s.decimals true;
      })

  unfoldable pub update_amount : Str → SwapFrom → SwapFrom
  unfolding update_validity
  update_amount text s = if eqb s.balance 0 then s else elim (texts.from_text text s.decimals) [
    | none ↦ s
    | some new_amount ↦
        let percent : Percentage = record {
          units = quot (new_amount *ℤ pos (100 * 10 ^ s.decimals)) s.balance;
          places = s.decimals;
        } in
        update_validity (record s {
          amount = new_amount;
          percentage = percent;
          current_percentage = if exceeds_max percent then over_100 else at percent;
        })
  ]

  -- A text that the user types, which is then shown; an empty one counts as "0".
  unfoldable pub type_amount : Str → SwapFrom → SwapFrom
  unfolding update_amount
  type_amount text s =
      update_amount (elim text [ [] ↦ codes "0" | c ∷ r ↦ c ∷ r ])
        (record s { selected_amount = text })

  unfoldable pub set_defaults : SwapFrom → SwapFrom
  unfolding update_amount
  set_defaults s = update_amount (codes "0") (record s { selected_amount = codes "0" })

unfoldable pub set_disabled : Bool → SwapFrom → SwapFrom
set_disabled is_disabled s = record s { disabled = is_disabled }

-- The arguments with which `dispatchChangedEvent` calls the debounced function, if there is a
-- token. They are captured by that call: the event carries just these when its timer runs, whatever
-- the component has become since.
unfoldable pub changed_event : SwapFrom → Option Details
changed_event s = elim (present s.token) [
  | none ↦ none
  | some token ↦ some (record { denom = token; amount = s.amount; is_valid = s.is_valid })
]

-- `dispatchChangedEvent()`, over the component's debounced callbacks; the text of the function
-- that is debounced is a parameter.
unfoldable pub dispatch_changed_event : Str → SwapFrom → Debounced Details → Debounced Details
unfolding changed_event
dispatch_changed_event text s callbacks = elim (changed_event s) [
  | none ↦ callbacks
  | some details ↦ call text details 500 callbacks
]
