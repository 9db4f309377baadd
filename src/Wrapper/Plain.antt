-- ===== src/Wrapper/Plain.antt =====
-- Denoms without a contract token's prefix pass through the wrapper unchanged.
use crownfi_sei_swaps.Prelude.{◌≡◌, false}
use crownfi_sei_swaps.Text.{Str, codes, starts_with}
use crownfi_sei_swaps.Text.Laws.{starts_with-prefix}
use crownfi_sei_swaps.Platform.{ok, Env}
use crownfi_sei_swaps.Wrapper.Cw20
use crownfi_sei_swaps.Wrapper.Erc20
use crownfi_sei_swaps.Wrapper.Multi.{MultiTokenWrapper, is_wrapable, normalize_to_wrapped_denom}

-- Neither "cw20/…" nor "erc20/…".
pub record IsPlain (denom : Str) : Type 0 where
  pub not_cw20 : starts_with (codes "cw20/") denom ≡ false
  pub not_erc20 : starts_with (codes "erc20/") denom ≡ false

pub is_wrapable-plain : (denom : Str) → IsPlain denom → is_wrapable denom ≡ false
unfolding is_wrapable Cw20.is_wrapable Erc20.is_wrapable
is_wrapable-plain denom h = rw (
  starts_with-prefix (codes "cw20/") (codes "sei1") denom h.not_cw20,
  starts_with-prefix (codes "erc20/") (codes "0x") denom h.not_erc20,
)

pub normalize_to_wrapped_denom-plain :
    (w : MultiTokenWrapper) (env : Env) (denom : Str)
    → IsPlain denom
    → normalize_to_wrapped_denom w env denom ≡ ok denom
unfolding normalize_to_wrapped_denom
normalize_to_wrapped_denom-plain w env denom h = rw (h.not_cw20, h.not_erc20)
