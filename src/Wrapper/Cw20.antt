-- ===== src/Wrapper/Cw20.antt =====
-- packages/npm/token-wrapper-sdk/src/cw20.ts: the class CW20TokenWrapper, whose only state is the
-- address of its contract.
use crownfi_sei_swaps.Prelude.{
  ℕ, Bool, ◌&&◌, ◌||◌, List, [], ◌∷◌, ◌++◌, Option, none, some, length, if◌then◌else◌,
}
use crownfi_sei_swaps.Text.{
  Str, codes, starts_with, substring, substring_to, is_run, lower_alnum, base32_char, to_lower,
}
use crownfi_sei_swaps.Platform.{
  Result, ok, ◌>>=◌, ◌>>◌, map_result, Coin, Bytes, Instruction, execute, execute_cw20, unwrap_cw20,
  Env, Chain,
}
use crownfi_sei_swaps.Wrapper.Denoms.{
  denom_prefix, factory_token_source_matches, assert_factory_token_source_matches,
}
use crownfi_sei_swaps.Wrapper.Funds.{sort_coins}

-- `/^cw20\/sei1(?:[a-z0-9]{38}|[a-z0-9]{58})$/.test(denom)`
unfoldable pub is_wrapable : Str → Bool
unfolding starts_with is_run
is_wrapable denom =
    let rest = substring denom (length (codes "cw20/sei1")) in
    starts_with (codes "cw20/sei1") denom
    && (is_run lower_alnum 38 rest || is_run lower_alnum 58 rest)

-- `/^[a-z2-7]{44}$/.test(subDenom)`
abbrev pub valid_subdenom : Str → Bool
valid_subdenom sub = is_run base32_char 44 sub

abbrev pub strip_prefix : Str → Str
strip_prefix cw20_addr =
    if starts_with (codes "cw20/") cw20_addr
    then substring cw20_addr (length (codes "cw20/"))
    else cw20_addr

module _ (address : Str) where
  unfoldable pub is_wrapped_denom : Str → Bool
  is_wrapped_denom denom = factory_token_source_matches denom address valid_subdenom

  unfoldable pub assert_wrapped_denom : Str → Result (Unit {0})
  assert_wrapped_denom denom = assert_factory_token_source_matches denom address valid_subdenom

  unfoldable pub wrapped_denom_of : Env → Str → Result Str
  wrapped_denom_of env cw20_addr = do
    canonical ← env.canonical_addr (strip_prefix cw20_addr)
    ok (denom_prefix address ++ to_lower (substring_to (env.base32_encode canonical) 44))

  unfoldable pub unwrapped_denom_of : Chain → Str → Result Str
  unfolding assert_wrapped_denom
  unwrapped_denom_of chain wrapped_denom = do
    assert_wrapped_denom wrapped_denom
    chain.unwrapped_addr_of address wrapped_denom

  -- `recipient ? stringToCanonicalAddr(recipient) : []`
  abbrev pub recipient_payload : Env → Option Str → Result Bytes
  recipient_payload env none = ok []
  recipient_payload env (some []) = ok []
  recipient_payload env (some (c ∷ s)) = env.canonical_addr (c ∷ s)

  unfoldable pub build_wrap_ix : Env → ℕ → Str → Option Str → Result Instruction
  build_wrap_ix env amount cw20_addr recipient = do
    payload ← recipient_payload env recipient
    ok (execute_cw20 address payload (strip_prefix cw20_addr) amount)

  -- The body of the `map` in `buildUnwrapIx`.
  unfoldable pub checked_coin : Coin → Result Coin
  unfolding assert_wrapped_denom
  checked_coin token = do assert_wrapped_denom token.denom; ok token

  unfoldable pub build_unwrap_ix : Env → List Coin → Option Str → Result Instruction
  unfolding checked_coin map_result
  build_unwrap_ix env wrapped_tokens recipient = do
    funds ← map_result checked_coin wrapped_tokens
    ok (execute address (unwrap_cw20 recipient) (sort_coins env.denom_le funds))

  unfoldable pub build_unwrap_ix_unchecked : Option Str → Instruction
  build_unwrap_ix_unchecked recipient = execute address (unwrap_cw20 recipient) []
