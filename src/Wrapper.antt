-- ===== src/Wrapper.antt =====
-- packages/npm/token-wrapper-sdk/src: the denoms of wrapped tokens and the instructions that wrap
-- and unwrap them. `Denoms` is common.ts, `Cw20`, `Erc20` and `Multi` are the classes of cw20.ts,
-- erc20.ts and multi_wrapper.ts.
pub mod Denoms
pub mod Funds
pub mod Cw20
pub mod Erc20
pub mod Multi
pub mod RoundTrip
pub mod Kinds
pub mod Plain
pub mod Unwrapping
pub mod Samples
mod Examples
