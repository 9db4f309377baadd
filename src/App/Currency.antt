-- ===== src/App/Currency.antt =====
-- packages/npm/sei-swaps-webapp/src: the currency in which values are shown. utils/get-currency.ts,
-- app/components/currency-selector/currency-selector.ts, the class CurrencySelector, and
-- app/components/farm/treasury-chests/treasury-chests.ts, the class TreasuryChests.
use crownfi_sei_swaps.Prelude.{ℕ, ◌≡◌, refl, not, List, [], ◌∷◌, Option, none, some, if◌then◌else◌}
use crownfi_sei_swaps.Prelude.Integers.{ℤ}
use crownfi_sei_swaps.Text.{Str, ◌==◌}
use crownfi_sei_swaps.Platform.{Result, ok, err, Env, Clock}
use crownfi_sei_swaps.Pair.{SwapMarketPair}
use crownfi_sei_swaps.Market.{SwapMarket}
use crownfi_sei_swaps.App.Tokens.{get_tokens_from_pairs}
use crownfi_sei_swaps.App.Service.{NetworkSummary, get_network_summary}

-- `localStorage.getItem("preferred-currency") || env.NORMALIZE_CURRENCY`
unfoldable pub get_currency : (stored : Option Str) → (normalize_currency : Str) → Str
get_currency none normalize_currency = normalize_currency
get_currency (some []) normalize_currency = normalize_currency
get_currency (some (c ∷ s)) normalize_currency = c ∷ s

-- `CurrencySelector` with the item "preferred-currency" of the local storage.
pub record CurrencySelector : Type 0 where
  pub selected_denom : Str
  pub stored : Option Str
  pub shown : Str
  pub options : List Str

unfoldable pub set_selected_denom : Str → CurrencySelector → CurrencySelector
set_selected_denom denom s = record s { selected_denom = denom; stored = some denom }

unfoldable pub new_selector : (stored : Option Str) → (normalize_currency : Str) → CurrencySelector
unfolding get_currency set_selected_denom
new_selector stored normalize_currency =
    set_selected_denom (get_currency stored normalize_currency)
      (record { selected_denom = []; stored = stored; shown = []; options = [] })

abbrev pub without : Str → List Str → List Str
without denom [] = []
without denom (d ∷ ds) = if not (d == denom) then d ∷ without denom ds else without denom ds

-- `refreshOptions`, with the pairs that the service answers.
unfoldable pub refresh_options :
    Result (List SwapMarketPair) → CurrencySelector → CurrencySelector × Result (Unit {0})
refresh_options (err e) s = (record s { shown = s.selected_denom; options = [] }, err e)
refresh_options (ok pairs) s = (
  record s {
    shown = s.selected_denom;
    options = without s.selected_denom (get_tokens_from_pairs pairs);
  },
  ok tt,
)

-- `dropdownSelect`, up to the refresh of the options: the denom that the event `currencySelected`
-- tells, which is `none` where the selected value is empty.
unfoldable pub select_currency : Str → CurrencySelector → CurrencySelector × Option Str
unfolding set_selected_denom
select_currency [] s = (s, none)
select_currency (c ∷ denom) s = (set_selected_denom (c ∷ denom) s, some (c ∷ denom))

-- `TreasuryChests`: what its three places show, which is `none` while loading.
pub record Chests : Type 0 where
  pub tvl_amount : Option (ℤ × Str)
  pub tvt_amount : Option (ℕ × Str)
  pub tvl_last_day_amount : Option (ℕ × Str)

abbrev pub loading_chests : Chests
loading_chests = record { tvl_amount = none; tvt_amount = none; tvl_last_day_amount = none }

abbrev pub show_summary : Str → Result NetworkSummary → Chests × Result (Unit {0})
show_summary currency (err e) = (loading_chests, err e)
show_summary currency (ok s) = (
  record {
    tvl_amount = some (s.total_value_locked, currency);
    tvt_amount = some (s.total_volume_traded, currency);
    tvl_last_day_amount = some (s.last_day_total_value_locked, currency);
  },
  ok tt,
)

-- `refresh(currency)`, with the times of the service's two queries.
unfoldable pub refresh_chests :
    Env → Clock → ℕ → ℕ → (currency : Str) → SwapMarket → Chests × Result (Unit {0})
refresh_chests env clock n k currency m =
    show_summary currency (get_network_summary env clock n k currency m)

-- What the user has done with the selector, from the page's start.
pub data Selected (stored : Option Str) (normalize_currency : Str) : CurrencySelector → Type 0 where
  started : Selected stored normalize_currency (new_selector stored normalize_currency)
  refreshed :
      {s : CurrencySelector} (answer : Result (List SwapMarketPair))
      → Selected stored normalize_currency s
      → Selected stored normalize_currency (refresh_options answer s).0
  selected :
      {s : CurrencySelector} (denom : Str)
      → Selected stored normalize_currency s
      → Selected stored normalize_currency (select_currency denom s).0

get_currency_idem :
    (stored : Option Str) (normalize_currency : Str)
    → get_currency (some (get_currency stored normalize_currency)) normalize_currency
      ≡ get_currency stored normalize_currency
unfolding get_currency
get_currency_idem none [] = refl
get_currency_idem none (c ∷ s) = refl
get_currency_idem (some []) [] = refl
get_currency_idem (some []) (c ∷ s) = refl
get_currency_idem (some (c ∷ s)) normalize_currency = refl

refresh_options-kept :
    (answer : Result (List SwapMarketPair)) (s : CurrencySelector) (normalize_currency : Str)
    → get_currency s.stored normalize_currency ≡ s.selected_denom
    → s.stored ≡ some s.selected_denom
    → (get_currency (refresh_options answer s).0.stored normalize_currency
        ≡ (refresh_options answer s).0.selected_denom)
      × ((refresh_options answer s).0.stored ≡ some (refresh_options answer s).0.selected_denom)
unfolding refresh_options
refresh_options-kept (ok pairs) s normalize_currency e k = (e, k)
refresh_options-kept (err f) s normalize_currency e k = (e, k)

select_currency-kept :
    (denom : Str) (s : CurrencySelector) (normalize_currency : Str)
    → get_currency s.stored normalize_currency ≡ s.selected_denom
    → s.stored ≡ some s.selected_denom
    → (get_currency (select_currency denom s).0.stored normalize_currency
        ≡ (select_currency denom s).0.selected_denom)
      × ((select_currency denom s).0.stored ≡ some (select_currency denom s).0.selected_denom)
unfolding select_currency set_selected_denom get_currency
select_currency-kept [] s normalize_currency e k = (e, k)
select_currency-kept (c ∷ denom) s normalize_currency e k = (refl, refl)

-- Whatever is stored at the start and selected since, the currency that the other components read is
-- the one that the selector holds, and the stored one.
pub Selected-get_currency :
    (stored : Option Str) (normalize_currency : Str) (s : CurrencySelector)
    → Selected stored normalize_currency s
    → (get_currency s.stored normalize_currency ≡ s.selected_denom)
      × (s.stored ≡ some s.selected_denom)
unfolding new_selector set_selected_denom
Selected-get_currency stored normalize_currency s started =
    (get_currency_idem stored normalize_currency, refl)
Selected-get_currency stored normalize_currency _ (refreshed {s} answer u) =
    let (e, k) = Selected-get_currency stored normalize_currency s u in
    refresh_options-kept answer s normalize_currency e k
Selected-get_currency stored normalize_currency _ (selected {s} denom u) =
    let (e, k) = Selected-get_currency stored normalize_currency s u in
    select_currency-kept denom s normalize_currency e k
