-- ===== src/Wrapper/Kinds.antt =====
-- How MultiTokenWrapper tells the two kinds of wrapped denoms apart.
use crownfi_sei_swaps.Prelude.{◌≡◌, ◌≢◌, ◌↔◌, true, false, arith, Bool-cases, inl, inr}
use crownfi_sei_swaps.Text.{Str}
use crownfi_sei_swaps.Text.Split.{Lacks}
use crownfi_sei_swaps.Platform.{Error, ok, err, wrapper_denom, Env}
use crownfi_sei_swaps.Wrapper.Denoms.{assert_factory_token_source_matches, source_unique}
use crownfi_sei_swaps.Wrapper.Cw20
use crownfi_sei_swaps.Wrapper.Erc20
use crownfi_sei_swaps.Wrapper.Multi.{
  MultiTokenWrapper, not_wrapped, cw20, erc20, is_wrapped_denom, wrapped_denom_kind,
  assert_wrapped_denom, normalize_to_wrapped_denom,
}

-- Two wrapper contracts have different addresses, which hold no slash.
pub record AreDistinct (w : MultiTokenWrapper) : Type 0 where
  pub differ : w.cw20_wrapper ≢ w.erc20_wrapper
  pub cw20_plain : Lacks b'/' w.cw20_wrapper
  pub erc20_plain : Lacks b'/' w.erc20_wrapper

module _ (w : MultiTokenWrapper) (h : AreDistinct w) where
  pub never_both :
      (denom : Str)
      → Cw20.is_wrapped_denom w.cw20_wrapper denom ≡ true
      → Erc20.is_wrapped_denom w.erc20_wrapper denom ≡ false
  unfolding Cw20.is_wrapped_denom Erc20.is_wrapped_denom
  never_both denom p = elim (Bool-cases (Erc20.is_wrapped_denom w.erc20_wrapper denom)) [
    | inl q ↦ absurd (
        h.differ (
          source_unique denom w.cw20_wrapper w.erc20_wrapper Cw20.valid_subdenom
            Erc20.valid_subdenom h.cw20_plain h.erc20_plain p q))
    | inr q ↦ q
  ]

  -- Where the two wrapper contracts have different addresses without a slash, the kind of a denom
  -- names the one wrapper that recognises it, and is 0 exactly if neither does.
  pub wrapped_denom_kind_iff :
      (denom : Str)
      → ((wrapped_denom_kind w denom ≡ cw20) ↔ (Cw20.is_wrapped_denom w.cw20_wrapper denom ≡ true))
        × ((wrapped_denom_kind w denom ≡ erc20)
            ↔ (Erc20.is_wrapped_denom w.erc20_wrapper denom ≡ true))
        × ((wrapped_denom_kind w denom ≡ not_wrapped) ↔ (is_wrapped_denom w denom ≡ false))
  unfolding wrapped_denom_kind is_wrapped_denom
  wrapped_denom_kind_iff denom =
      (ground (arith, never_both denom), ground (arith, never_both denom), ground arith)

  -- Where the two wrapper contracts have different addresses without a slash, the assertion throws
  -- for every denom: it demands that both wrappers recognise it.
  pub assert_wrapped_denom-throws :
      (denom : Str) → (e : Error) × (assert_wrapped_denom w denom ≡ err e)
  unfolding assert_wrapped_denom Cw20.assert_wrapped_denom Erc20.assert_wrapped_denom
      assert_factory_token_source_matches Cw20.is_wrapped_denom Erc20.is_wrapped_denom
  assert_wrapped_denom-throws denom =
      elim (Bool-cases (Cw20.is_wrapped_denom w.cw20_wrapper denom)) [
        | inl p ↦ (wrapper_denom denom w.erc20_wrapper, rw (p, never_both denom p))
        | inr p ↦ (wrapper_denom denom w.cw20_wrapper, rw p)
      ]

-- Whatever the denom, what `normalizeToWrappedDenom` returns is the denom that it was given: a
-- prefixed denom is never replaced by its wrapped one.
normalize_to_wrapped_denom-same :
    (w : MultiTokenWrapper) (env : Env) (denom normalized : Str)
    → normalize_to_wrapped_denom w env denom ≡ ok normalized
    → normalized ≡ denom
unfolding normalize_to_wrapped_denom
normalize_to_wrapped_denom-same w env denom normalized h = ground arith
