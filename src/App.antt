-- ===== src/App.antt =====
-- packages/npm/sei-swaps-webapp/src: the web application's own logic, from services, lib, utils and
-- the components of app/components. A component is the part of its state that decides what it does.
pub mod Debounce
pub mod Service
pub mod Farm
pub mod Page
pub mod Elements
pub mod Tokens
pub mod Swap
pub mod Samples
mod Examples
pub mod Pool
pub mod Currency
