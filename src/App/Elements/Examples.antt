-- ===== src/App/Elements/Examples.antt =====
-- A dropdown and an image, and applications.
use crownfi_sei_swaps.Prelude.{◌≡◌, refl, [], ◌∷◌, ◌++◌, some, none, false, arith}
use crownfi_sei_swaps.Text.{Str, codes, ◌==◌}
use crownfi_sei_swaps.Pair.Samples.{usei, uatom}
use crownfi_sei_swaps.App.Elements.Dropdown.{TokenDropdown}
use crownfi_sei_swaps.App.Elements.Icon.{
  TokenIcon, new_icon, load_of, load_icon, attribute_changed, icon_loaded, InOrder, made, changes,
  loads, icon_settles,
}

abbrev sample_dropdown : TokenDropdown
sample_dropdown = record {
  id = some (codes "from");
  selected_token = none;
  options = [];
  arrow_up = false;
}

abbrev icon_of : Str → Str
icon_of denom = codes "/icons/" ++ denom

-- One denom, then another, whose icons come in this order.
abbrev first_denom : TokenIcon
first_denom = attribute_changed (some usei) new_icon

abbrev both_denoms : TokenIcon
both_denoms = attribute_changed (some uatom) first_denom

abbrev both_loaded : TokenIcon
both_loaded = icon_loaded icon_of uatom [] (icon_loaded icon_of usei (uatom ∷ []) both_denoms)

both_loaded-InOrder : InOrder icon_of both_loaded
unfolding attribute_changed load_icon load_of new_icon icon_loaded ◌==◌
both_loaded-InOrder =
    loads uatom [] (loads usei (uatom ∷ []) (changes (some uatom) (changes (some usei) made)) refl)
      refl

both_loaded_denom : both_loaded.denom ≡ some uatom
unfolding attribute_changed load_icon load_of new_icon icon_loaded ◌==◌
both_loaded_denom = refl

both_loaded_waiting : both_loaded.waiting ≡ []
unfolding icon_loaded
both_loaded_waiting = refl

icon_settles_example : (both_loaded.src ≡ some (icon_of uatom)) × (both_loaded.spinner ≡ false)
icon_settles_example =
    icon_settles icon_of both_loaded uatom both_loaded-InOrder both_loaded_waiting both_loaded_denom
      (λ e. absurd (ground arith))
