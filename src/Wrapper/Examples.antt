-- ===== src/Wrapper/Examples.antt =====
-- The theorems on the wrappers, at concrete wrappers and denoms.
use mathlib.Core.List.{Perm}
use crownfi_sei_swaps.Prelude.{
  ◌≡◌, ◌↔◌, ◌⊎◌, refl, true, false, [], ◌∷◌, ◌++◌, arith, some, drop, take,
}
use crownfi_sei_swaps.Text.{Str, codes, starts_with, is_run, all_chars, to_lower}
use crownfi_sei_swaps.Text.Laws.{starts_with_sound}
use crownfi_sei_swaps.Platform.{Error, ok, err, message, unwrap_cw20, unwrap_erc20}
use crownfi_sei_swaps.Platform.Samples.{sample_env, sample_base32, alice, coin}
use crownfi_sei_swaps.Wrapper.Cw20
use crownfi_sei_swaps.Wrapper.Erc20
use crownfi_sei_swaps.Wrapper.Denoms.{factory_token_source_matches}
use crownfi_sei_swaps.Wrapper.Funds.{sort_coins}
use crownfi_sei_swaps.Wrapper.Multi.{
  not_wrapped, cw20, erc20, is_wrapped_denom, wrapped_denom_kind, assert_wrapped_denom,
  normalize_to_wrapped_denom, build_unwrap_ixs,
}
use crownfi_sei_swaps.Wrapper.RoundTrip.{
  rfc4648_char, cw20_wrapped-recognised, erc20_wrapped-recognised,
}
use crownfi_sei_swaps.Wrapper.Kinds.{wrapped_denom_kind_iff, assert_wrapped_denom-throws}
use crownfi_sei_swaps.Wrapper.Unwrapping.{select, send, build_unwrap_ixs_lem}
use crownfi_sei_swaps.Wrapper.Samples.{
  wrappers, wrappers-AreDistinct, digits, wrapped_erc20, wrapped_cw20,
}

cw20_denom :
    Cw20.wrapped_denom_of (codes "cwrap") sample_env (codes "cw20/sei1token") ≡ ok wrapped_cw20
unfolding Cw20.wrapped_denom_of starts_with to_lower
cw20_denom = refl

sample_alphabet : all_chars rfc4648_char (take 44 sample_base32) ≡ true
unfolding all_chars
sample_alphabet = refl

cw20_wrapped-recognised_example : Cw20.is_wrapped_denom (codes "cwrap") wrapped_cw20 ≡ true
cw20_wrapped-recognised_example =
    cw20_wrapped-recognised (codes "cwrap") (codes "cw20/sei1token") wrapped_cw20 sample_env
      (λ b h. (omega arith, sample_alphabet)) cw20_denom

erc20_wrapped-recognised_example :
    ((sample_env.is_valid_evm_address (Erc20.strip_prefix (codes "0x" ++ digits)) ≡ true)
      × (denom : Str) × (Erc20.wrapped_denom_of (codes "ewrap") sample_env (codes "0x" ++ digits)
          ≡ ok denom)
      × (Erc20.is_wrapped_denom (codes "ewrap") denom ≡ true))
    ⊎ ((sample_env.is_valid_evm_address (Erc20.strip_prefix (codes "0x" ++ digits)) ≡ false)
        × (Erc20.wrapped_denom_of (codes "ewrap") sample_env (codes "0x" ++ digits)
            ≡ err (
                message (
                  Erc20.strip_prefix (codes "0x" ++ digits)
                  ++ codes " is not a valid EVM address"))))
erc20_wrapped-recognised_example =
    erc20_wrapped-recognised (codes "ewrap") (codes "0x" ++ digits) sample_env
      (λ s h. (drop 2 s, starts_with_sound (codes "0x") s (ground arith), ground arith))

wrapped_denom_kind_iff_example :
    ((wrapped_denom_kind wrappers wrapped_erc20 ≡ cw20)
      ↔ (Cw20.is_wrapped_denom wrappers.cw20_wrapper wrapped_erc20 ≡ true))
    × ((wrapped_denom_kind wrappers wrapped_erc20 ≡ erc20)
        ↔ (Erc20.is_wrapped_denom wrappers.erc20_wrapper wrapped_erc20 ≡ true))
    × ((wrapped_denom_kind wrappers wrapped_erc20 ≡ not_wrapped)
        ↔ (is_wrapped_denom wrappers wrapped_erc20 ≡ false))
wrapped_denom_kind_iff_example = wrapped_denom_kind_iff wrappers wrappers-AreDistinct wrapped_erc20

assert_wrapped_denom-throws_example :
    (e : Error) × (assert_wrapped_denom wrappers wrapped_erc20 ≡ err e)
assert_wrapped_denom-throws_example =
    assert_wrapped_denom-throws wrappers wrappers-AreDistinct wrapped_erc20

normalized_cw20 :
    normalize_to_wrapped_denom wrappers sample_env (codes "cw20/sei1token")
    ≡ ok (codes "cw20/sei1token")
unfolding normalize_to_wrapped_denom Cw20.wrapped_denom_of starts_with to_lower
normalized_cw20 = refl

build_unwrap_ixs_lem_example :
    let tokens = coin wrapped_erc20 5 ∷ coin wrapped_cw20 7 ∷ coin (codes "usei") 9 ∷ [] in
    let cw20s = select (Cw20.is_wrapped_denom wrappers.cw20_wrapper) tokens in
    let erc20s = select (Erc20.is_wrapped_denom wrappers.erc20_wrapper) tokens in
    (build_unwrap_ixs wrappers sample_env tokens alice
      ≡ ok (
          send wrappers.cw20_wrapper
            (unwrap_cw20 (some alice.sei_address))
            cw20s
            (sort_coins sample_env.denom_le cw20s)
          ++ send wrappers.erc20_wrapper
              (unwrap_erc20 (Erc20.evm_base64 sample_env alice.evm_address))
              erc20s
              (sort_coins sample_env.denom_le erc20s)))
    × Perm (sort_coins sample_env.denom_le cw20s) cw20s
    × Perm (sort_coins sample_env.denom_le erc20s) erc20s
build_unwrap_ixs_lem_example =
    build_unwrap_ixs_lem wrappers wrappers-AreDistinct sample_env
      (coin wrapped_erc20 5 ∷ coin wrapped_cw20 7 ∷ coin (codes "usei") 9 ∷ []) alice

recognised : Erc20.is_wrapped_denom (codes "ewrap") wrapped_erc20 ≡ true
unfolding Erc20.is_wrapped_denom factory_token_source_matches Erc20.valid_subdenom starts_with
    is_run all_chars
recognised = refl
