-- ===== src/Platform.antt =====
-- What the SDKs share with their surroundings: coins, accounts, messages and instructions
-- (packages/npm/*/src/base/types.ts), errors, and the functions of other packages that they call.
pub mod Results
pub mod Errors
pub mod Dict
pub mod Messages
pub mod Queries
pub mod Samples
unfoldable pub use Results.*
pub use Messages.*
pub use Queries.*
