-- ===== src/App/Elements.antt =====
-- packages/npm/sei-swaps-webapp/src/app/components: the elements that the larger components use.
-- `Dropdown` is token-dropdown/token-dropdown.ts, `Icon` is token-icon/token-icon.ts with
-- hooks/use-get-token-info.ts, and `Frame` is
-- navbar/navbar.ts with app-container/app-container.ts.
pub mod Dropdown
pub mod Icon
pub mod Frame
mod Examples
