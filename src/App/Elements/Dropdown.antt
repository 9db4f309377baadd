-- ===== src/App/Elements/Dropdown.antt =====
-- packages/npm/sei-swaps-webapp/src/app/components/token-dropdown/token-dropdown.ts: the class
-- TokenDropdownComponent, whose options come as one text.
use crownfi_sei_swaps.Prelude.{
  ◌≡◌, ◌≢◌, refl, ap, ◌∙◌, Bool, true, false, List, [], ◌∷◌, Option, none, some, All,
}
use crownfi_sei_swaps.Text.{Str}
use crownfi_sei_swaps.Text.Split.{split, Lacks, split_of_Lacks, split-append}
use crownfi_sei_swaps.Platform.Errors.{join}

pub record TokenDropdown : Type 0 where
  pub id : Option Str
  pub selected_token : Option Str
  pub options : List Str
  pub arrow_up : Bool

unfoldable pub on_selected_changed : Str → TokenDropdown → TokenDropdown
on_selected_changed denom d = record d { selected_token = some denom }

-- The options, each an item of the menu with its token as its value.
unfoldable pub on_options_changed : Str → TokenDropdown → TokenDropdown
on_options_changed tokens d = record d { options = split b',' tokens }

unfoldable pub on_dropdown_open : TokenDropdown → TokenDropdown
on_dropdown_open d = record d { arrow_up = true }

unfoldable pub on_dropdown_close : TokenDropdown → TokenDropdown
on_dropdown_close d = record d { arrow_up = false }

-- The details of `tokenDropdownSelected`, if it is dispatched: an empty text counts as missing.
unfoldable pub on_dropdown_select : Option Str → TokenDropdown → Option (Str × Str)
on_dropdown_select none d = none
on_dropdown_select (some []) d = none
on_dropdown_select (some (c ∷ denom)) d = elim d.id [
  | none ↦ none
  | some [] ↦ none
  | some (i ∷ id) ↦ some (i ∷ id, c ∷ denom)
]

split-join :
    (t : Str) (ts : List Str)
    → All (Lacks b',') (t ∷ ts)
    → split b',' (join (b',' ∷ []) (t ∷ ts)) ≡ t ∷ ts
unfolding join
split-join t [] (h, _) = split_of_Lacks b',' t h
split-join t (u ∷ ts) (h, rest) =
    split-append b',' t (join (b',' ∷ []) (u ∷ ts)) h ∙ ap (λ us. t ∷ us) (split-join u ts rest)

-- A dropdown that is given the texts of tokens, none of which holds a comma, joined by commas, as
-- the swap form does, offers these tokens in their order. If it is given no token it offers one
-- item, whose token is empty. If it has an identifier, which is not empty, the choice of a token
-- that is not empty dispatches an event with both; the choice of the empty item dispatches none.
dropdown_offers :
    (tokens : List Str) (d : TokenDropdown)
    → All (Lacks b',') tokens
    → ((on_options_changed (join (b',' ∷ []) tokens) d).options
        ≡ elim tokens [ [] ↦ [] ∷ [] | t ∷ ts ↦ t ∷ ts ])
      × ((id : Str)
          → d.id ≡ some id
          → id ≢ []
          → ((token : Str) → token ≢ [] → on_dropdown_select (some token) d ≡ some (id, token))
            × (on_dropdown_select (some []) d ≡ none))
unfolding on_options_changed on_dropdown_select split join
dropdown_offers tokens d h = (offered tokens h, selects)
  where
    offered :
        (ts : List Str)
        → All (Lacks b',') ts
        → split b',' (join (b',' ∷ []) ts) ≡ elim ts [ [] ↦ [] ∷ [] | t ∷ us ↦ t ∷ us ]
    offered [] k = refl
    offered (t ∷ ts) k = split-join t ts k

    selects :
        (id : Str)
        → d.id ≡ some id
        → id ≢ []
        → ((token : Str) → token ≢ [] → on_dropdown_select (some token) d ≡ some (id, token))
          × (on_dropdown_select (some []) d ≡ none)
    selects [] e ne = absurd (ne refl)
    selects (i ∷ id) e ne = (
      λ token some_token.
          elim token as (λ u. u ≢ [] → on_dropdown_select (some u) d ≡ some (i ∷ id, u)) [
            | [] ↦ λ k. absurd (k refl)
            | c ∷ u ↦ λ k. rw (e, on_dropdown_select) refl
          ]
            some_token,
      refl,
    )
