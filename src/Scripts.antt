-- ===== src/Scripts.antt =====
-- scripts: the repository's own scripts. `Client` is the class ClientEnv of scripts/helpers.ts with
-- the functions that it stands on, `Assets` are the classes of assets there, and `Deploy` is
-- scripts/deploy_contracts.ts. `Trace` holds what the scripts do to the chain, in order.
pub mod Trace
pub mod Client
pub mod Assets
pub mod Deploy
mod Examples
