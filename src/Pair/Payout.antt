-- ===== src/Pair/Payout.antt =====
-- Where swapped tokens are sent.
use crownfi_sei_swaps.Prelude.{
  ℕ, ◌≡◌, Bool, true, [], ◌∷◌, Option, some, none, arith, Bool-cases, inl, inr,
}
use crownfi_sei_swaps.Text.{Str}
use crownfi_sei_swaps.Platform.{ok, Coin, Account, Number, swap, execute, Env}
use crownfi_sei_swaps.Wrapper.Multi.{not_wrapped, wrapped_denom_kind}
use crownfi_sei_swaps.Wrapper.Plain.{IsPlain, is_wrapable-plain, normalize_to_wrapped_denom-plain}
use crownfi_sei_swaps.Pair.{SwapMarketPair}
use crownfi_sei_swaps.Pair.Quotes.{other_denom}
use crownfi_sei_swaps.Pair.Instructions.{build_wrapable_swap_ixs}

-- The two unwrapped forms of a pair are not themselves denoms of the wrapper contracts.
pub record AreUnwrapped (p : SwapMarketPair) : Type 0 where
  pub left : wrapped_denom_kind p.token_wrapper p.unwrapped_assets.0 ≡ not_wrapped
  pub right : wrapped_denom_kind p.token_wrapper p.unwrapped_assets.1 ≡ not_wrapped

other-unwrapped :
    (p : SwapMarketPair) (d e : Str)
    → AreUnwrapped p
    → other_denom p d true ≡ some e
    → wrapped_denom_kind p.token_wrapper e ≡ not_wrapped
unfolding other_denom
other-unwrapped p d e h o = ground arith

-- Where the unwrapped forms of a pair's assets are not wrapped denoms, a swap of a token of the
-- pair without a contract token's prefix sends that token to the pair's contract in one
-- instruction, and the result is paid to the receiver's own address as it is: it is never sent on
-- to be unwrapped, also where `unwrapOnReceive` asks for that.
pub swap_pays_receiver :
    (env : Env) (p : SwapMarketPair) (from receiver : Account) (offer : Coin) (unwrap : Bool)
    (slippage : Number) (expected : Option ℕ) (result_denom : Str)
    → AreUnwrapped p
    → IsPlain offer.denom
    → other_denom p offer.denom true ≡ some result_denom
    → build_wrapable_swap_ixs env p from receiver offer unwrap slippage expected
      ≡ ok (
          execute p.contract
            (swap (some receiver.sei_address) none (env.number_text slippage) expected)
            (offer ∷ [])
          ∷ [])
unfolding build_wrapable_swap_ixs
swap_pays_receiver env p from receiver offer unwrap slippage expected result_denom h plain other =
    let kind = other-unwrapped p offer.denom result_denom h other in
    rw
      (
        is_wrapable-plain offer.denom plain,
        normalize_to_wrapped_denom-plain p.token_wrapper env offer.denom plain,
        other,
        kind,
      )
      (elim (Bool-cases unwrap) [ inl e ↦ rw e | inr e ↦ rw e ])
