-- ===== src/App/Elements/Icon.antt =====
-- packages/npm/sei-swaps-webapp/src/app/components/token-icon/token-icon.ts: the class TokenIcon,
-- and hooks/use-get-token-info.ts. The answers of the network come as steps of their own, so that
-- other changes come between.
use crownfi_sei_swaps.Prelude.{
  ℕ, ◌≡◌, ◌≢◌, ◌⊎◌, inl, inr, refl, sym, ◌∙◌, Bool, true, false, List, [], ◌∷◌, ◌++◌, Option, none,
  some, arith, if◌then◌else◌,
}
use crownfi_sei_swaps.Text.{Str, ◌==◌}
use crownfi_sei_swaps.Text.Laws.{==_iff, Str-cases}
use crownfi_sei_swaps.Platform.{Result, ok, err}

-- `useGetTokenInfo`, over the table of the known tokens, which is another package's: whether a denom
-- is known, how it is added and what is known of it.
unfoldable pub use_get_token_info {ℓ κ} :
    {Table : Type ℓ} {Info : Type κ}
    → (has_user_token_info : Str → Table → Bool)
    → (add_user_token_info : Str → Table → Result Table)
    → (get_user_token_info : Str → Table → Result Info) → Str
    → Table
    → Table × Result Info
use_get_token_info has_user_token_info add_user_token_info get_user_token_info denom table =
    if has_user_token_info denom table
    then (table, get_user_token_info denom table)
    else elim (add_user_token_info denom table) [
      | err e ↦ (table, err e)
      | ok table' ↦ (table', get_user_token_info denom table')
    ]

-- The image, with the denoms whose information is waited for, the oldest first.
pub record TokenIcon : Type 0 where
  pub denom : Option Str
  pub src : Option Str
  pub spinner : Bool
  pub waiting : List Str

unfoldable pub new_icon : TokenIcon
new_icon = record { denom = none; src = none; spinner = false; waiting = [] }

-- `loadIcon`, up to the wait, by the attribute `denom`.
unfoldable pub load_of : Option Str → TokenIcon → TokenIcon
load_of none s = record s { spinner = true }
load_of (some []) s = record s { spinner = true }
load_of (some (c ∷ d)) s = record s { spinner = true; waiting = s.waiting ++ ((c ∷ d) ∷ []) }

unfoldable pub load_icon : TokenIcon → TokenIcon
unfolding load_of
load_icon s = load_of s.denom s

-- `oldValue !== newValue`
abbrev is_other : Option Str → Option Str → Bool
is_other none none = false
is_other none (some b) = true
is_other (some a) none = true
is_other (some a) (some b) = if a == b then false else true

-- A change of the attribute `denom`.
unfoldable pub attribute_changed : Option Str → TokenIcon → TokenIcon
unfolding load_icon
attribute_changed value s =
    if is_other s.denom value
    then load_icon (record s { denom = value })
    else record s { denom = value }

module _ (icon : Str → Str) where
  -- `loadIcon` after the wait for the information of a denom; `left` still wait.
  unfoldable pub icon_loaded : Str → (left : List Str) → TokenIcon → TokenIcon
  icon_loaded denom left s = record s { src = some (icon denom); spinner = false; waiting = left }

  -- What happens to an image whose information is answered in the order in which it was asked for.
  pub data InOrder : TokenIcon → Type 0 where
    made : InOrder new_icon
    connects : {s : TokenIcon} → InOrder s → InOrder (load_icon s)
    changes : {s : TokenIcon} (value : Option Str) → InOrder s → InOrder (attribute_changed value s)
    loads :
        {s : TokenIcon} (denom : Str) (left : List Str)
        → InOrder s
        → s.waiting ≡ denom ∷ left
        → InOrder (icon_loaded denom left s)

  -- The source and the spinner once all that is waited for is answered, in order.
  abbrev final_src : List Str → Option Str → Option Str
  final_src [] src = src
  final_src (d ∷ ds) src = final_src ds (some (icon d))

  abbrev final_spinner : List Str → Bool → Bool
  final_spinner [] spinner = spinner
  final_spinner (d ∷ ds) spinner = final_spinner ds false

  final-append :
      (ds : List Str) (d : Str) (src : Option Str) (spinner : Bool)
      → (final_src (ds ++ (d ∷ [])) src ≡ some (icon d))
        × (final_spinner (ds ++ (d ∷ [])) spinner ≡ false)
  final-append [] d src spinner = (refl, refl)
  final-append (e ∷ ds) d src spinner = final-append ds d (some (icon e)) false

  some_injective : {a b : Str} → some a ≡ some b → a ≡ b
  some_injective e = cc

  -- The denom of the image, if it has one, is the last to be shown.
  abbrev Settling : TokenIcon → Type 0
  Settling s =
      (c : ℕ) (d : Str)
      → s.denom ≡ some (c ∷ d)
      → (final_src s.waiting s.src ≡ some (icon (c ∷ d)))
        × (final_spinner s.waiting s.spinner ≡ false)

  Settling-load : (o : Option Str) (s : TokenIcon) → s.denom ≡ o → Settling (load_of o s)
  unfolding load_of
  Settling-load none s at c d e = absurd (ground (arith, at, e))
  Settling-load (some []) s at c d e = absurd (ground (arith, at, e))
  Settling-load (some (a ∷ t)) s at c d e =
      let same : a ∷ t ≡ c ∷ d = some_injective (sym at ∙ e) in
      rw⁻¹ same (final-append s.waiting (a ∷ t) s.src true)

  other_or_same : (a b : Option Str) → (is_other a b ≡ true) ⊎ ((is_other a b ≡ false) × (a ≡ b))
  other_or_same none none = inr (refl, refl)
  other_or_same none (some b) = inl refl
  other_or_same (some a) none = inl refl
  other_or_same (some a) (some b) = ground (arith, ==_iff a b)

  Settling-change :
      (value : Option Str) (s : TokenIcon) → Settling s → Settling (attribute_changed value s)
  unfolding attribute_changed
  Settling-change value s h = elim (other_or_same s.denom value) [
    | inl other ↦
        rw (other, attribute_changed) (Settling-load value (record s { denom = value }) refl)
    | inr (same, at) ↦ rw (same, attribute_changed) (λ c d e. h c d (at ∙ e))
  ]

  InOrder-Settling : {s : TokenIcon} → InOrder s → Settling s
  unfolding icon_loaded new_icon load_icon
  InOrder-Settling made c d e = absurd (ground arith)
  InOrder-Settling (connects {s} r) c d e = Settling-load s.denom s refl c d e
  InOrder-Settling (changes {s} value r) c d e = Settling-change value s (InOrder-Settling r) c d e
  InOrder-Settling (loads {s} denom left r w) c d e = rw w at (InOrder-Settling r c d e)

  -- If the information is answered in the order in which it was asked for, and nothing is waited for
  -- any more, an image whose denom is a text that is not empty shows that denom's icon, and no
  -- spinner, whatever its denoms were before.
  pub icon_settles :
      (s : TokenIcon) (denom : Str)
      → InOrder s
      → s.waiting ≡ []
      → s.denom ≡ some denom
      → denom ≢ []
      → (s.src ≡ some (icon denom)) × (s.spinner ≡ false)
  icon_settles s [] r w e some_denom = absurd (some_denom refl)
  icon_settles s (c ∷ d) r w e some_denom = rw w at (InOrder-Settling r c d e)

  -- Two loads whose answers come in the other order leave the icon of the former denom.
  icon_stale :
      (a b : ℕ) (s t : Str)
      → (a ∷ s) ≢ (b ∷ t)
      → let two = attribute_changed (some (b ∷ t)) (attribute_changed (some (a ∷ s)) new_icon) in
        let last = icon_loaded (a ∷ s) [] (icon_loaded (b ∷ t) ((a ∷ s) ∷ []) two) in
        (two.waiting ≡ (a ∷ s) ∷ (b ∷ t) ∷ [])
        × (last.denom ≡ some (b ∷ t))
        × (last.src ≡ some (icon (a ∷ s)))
  unfolding attribute_changed load_icon new_icon icon_loaded
  icon_stale a b s t apart = elim (Str-cases (a ∷ s) (b ∷ t)) [
    | inl same ↦ absurd (apart same)
    | inr other ↦ rw (other, attribute_changed) (refl, refl, refl)
  ]
