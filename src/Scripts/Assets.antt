-- ===== src/Scripts/Assets.antt =====
-- scripts/helpers.ts: the classes NativeAsset, TokenAsset, NativeSwap and AstroSwap, and
-- `checkParams`.
use crownfi_sei_swaps.Prelude.{
  Bool, true, false, List, [], ◌∷◌, ◌++◌, Option, none, some, if◌then◌else◌,
}
use crownfi_sei_swaps.Text.{Str, codes}
use crownfi_sei_swaps.Platform.{Result, ok, err, message}
use crownfi_sei_swaps.Platform.Dict.{Dict, lookup}

pub data AssetInfo : Type 0 where
  native_token : (denom : Str) → AssetInfo
  token : (contract_addr : Str) → AssetInfo

-- `NativeAsset | TokenAsset`
pub data ScriptAsset : Type 0 where
  native_asset : (denom : Str) (amount : Option Str) → ScriptAsset
  token_asset : (addr : Str) (amount : Option Str) → ScriptAsset

pub record AssetWithAmount : Type 0 where
  pub info : AssetInfo
  pub amount : Option Str

-- The arguments of `coin`
pub record TextCoin : Type 0 where
  pub amount : Str
  pub denom : Str

unfoldable pub get_info : ScriptAsset → AssetInfo
get_info (native_asset denom amount) = native_token denom
get_info (token_asset addr amount) = token addr

abbrev pub amount_of : ScriptAsset → Option Str
amount_of (native_asset denom amount) = amount
amount_of (token_asset addr amount) = amount

unfoldable pub with_amount : ScriptAsset → AssetWithAmount
unfolding get_info
with_amount a = record { info = get_info a; amount = amount_of a }

unfoldable pub get_denom : ScriptAsset → Str
get_denom (native_asset denom amount) = denom
get_denom (token_asset addr amount) = addr

-- `this.amount || "0"`
abbrev amount_or_zero : Option Str → Str
amount_or_zero none = codes "0"
amount_or_zero (some []) = codes "0"
amount_or_zero (some (c ∷ s)) = c ∷ s

unfoldable pub to_coin : ScriptAsset → Option TextCoin
to_coin (native_asset denom amount) =
    some (record { amount = amount_or_zero amount; denom = denom })
to_coin (token_asset addr amount) = none

-- `NativeSwap | AstroSwap`, and what its `getInfo` gives.
pub data ScriptSwap : Type 0 where
  native_swap_of : (offer_denom ask_denom : Str) → ScriptSwap
  astro_swap_of : (offer_asset_info ask_asset_info : ScriptAsset) → ScriptSwap

pub data SwapInfo : Type 0 where
  native_swap : (offer_denom ask_denom : Str) → SwapInfo
  astro_swap : (offer_asset_info ask_asset_info : AssetInfo) → SwapInfo

unfoldable pub get_swap_info : ScriptSwap → SwapInfo
unfolding get_info
get_swap_info (native_swap_of offer ask) = native_swap offer ask
get_swap_info (astro_swap_of offer ask) = astro_swap (get_info offer) (get_info ask)

-- `!network[name]`, where an empty text counts as missing.
abbrev pub is_set : Dict Str → Str → Bool
is_set network name = elim (lookup name network) [
  | none ↦ false
  | some [] ↦ false
  | some (c ∷ s) ↦ true
]

-- `checkParams`; what is thrown is a text and no error object.
unfoldable pub check_params : Dict Str → List Str → Result (Unit {0})
check_params network [] = ok tt
check_params network (name ∷ names) =
    if is_set network name
    then check_params network names
    else err (message (codes "Set required param: " ++ name))
