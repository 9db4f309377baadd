-- ===== src/App/Elements/Frame.antt =====
-- packages/npm/sei-swaps-webapp/src/app/components: the frame of the page. navbar/navbar.ts is the
-- class NavbarComponent, app-container/app-container.ts the class AppContainer.
use crownfi_sei_swaps.Prelude.{
  ℕ, ◌≡◌, refl, Bool, true, false, List, [], ◌∷◌, Option, none, some, leb, arith, if◌then◌else◌,
}
use crownfi_sei_swaps.Text.{Str, codes, ◌==◌}

-- `open_position` is the attribute of the wallet button's menu, if it has a menu.
pub record Navbar : Type 0 where
  pub is_mobile : Option Bool
  pub has_menu : Bool
  pub open_position : Option Str

unfoldable pub new_navbar : (has_menu : Bool) → Option Str → Navbar
new_navbar has_menu open_position = record {
  is_mobile = none;
  has_menu = has_menu;
  open_position = open_position;
}

-- `MOBILE_BREAKPOINT`
abbrev pub mobile_breakpoint : ℕ
mobile_breakpoint = 425

abbrev same_bool : Bool → Bool → Bool
same_bool true b = b
same_bool false true = false
same_bool false false = true

-- `this.isMobile !== null && isMobile === this.isMobile`
abbrev is_known : Bool → Option Bool → Bool
is_known is_mobile none = false
is_known is_mobile (some known) = same_bool is_mobile known

-- The widths of the observed entries.
unfoldable pub react_to_resize : List ℕ → Navbar → Navbar
react_to_resize [] n = n
react_to_resize (width ∷ more) n =
    let is_mobile = leb width mobile_breakpoint in
    if is_known is_mobile n.is_mobile
    then n
    else if n.has_menu
    then record n {
      open_position =
          some
            (if is_mobile then codes "element-top-centered" else codes "element-bottom-centered");
    }
    else n

unfoldable pub react_to_all : List (List ℕ) → Navbar → Navbar
unfolding react_to_resize
react_to_all [] n = n
react_to_all (entries ∷ rest) n = react_to_all rest (react_to_resize entries n)

-- The kind of width is never kept, so no resize is passed over.
is_mobile-react_to_resize :
    (entries : List ℕ) (n : Navbar) → (react_to_resize entries n).is_mobile ≡ n.is_mobile
unfolding react_to_resize
is_mobile-react_to_resize [] n = refl
is_mobile-react_to_resize (width ∷ more) n = ground arith

-- The component of the tab that is selected.
pub data Screen : Type 0 where
  swap_screen farm_screen : Screen

unfoldable pub on_tab_selected : Str → Screen
on_tab_selected tab = if tab == codes "swap" then swap_screen else farm_screen

-- `connectedCallback` selects the tab of the pools.
unfoldable pub connected_tab : Screen
unfolding on_tab_selected
connected_tab = on_tab_selected (codes "farm")
