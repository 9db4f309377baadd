-- ===== src/Wrapper/Erc20.antt =====
-- packages/npm/token-wrapper-sdk/src/erc20.ts: the class ERC20TokenWrapper, whose only state is
-- the address of its contract.
use crownfi_sei_swaps.Prelude.{
  ℕ, ◌-◌, Bool, ◌&&◌, List, [], ◌∷◌, ◌++◌, Option, length, drop, if◌then◌else◌,
}
use crownfi_sei_swaps.Text.{
  Str, codes, starts_with, substring, is_run, hex_char, upper_hex_char, to_upper,
}
use crownfi_sei_swaps.Platform.{
  Result, ok, ◌>>=◌, ◌>>◌, guard, message, map_result, Coin, Instruction, execute, evm_approve,
  wrap_erc20, unwrap_erc20, Env,
}
use crownfi_sei_swaps.Wrapper.Denoms.{
  denom_prefix, factory_token_source_matches, assert_factory_token_source_matches,
}
use crownfi_sei_swaps.Wrapper.Funds.{sort_coins}

-- `/^erc20\/0x[a-fA-F0-9]{40}$/.test(denom)`
unfoldable pub is_wrapable : Str → Bool
unfolding starts_with is_run
is_wrapable denom =
    starts_with (codes "erc20/0x") denom
    && is_run hex_char 40 (substring denom (length (codes "erc20/0x")))

-- `/^crwn[A-F0-9]{40}$/.test(subdenom)`
unfoldable pub valid_subdenom : Str → Bool
unfolding starts_with is_run
valid_subdenom sub =
    starts_with (codes "crwn") sub
    && is_run upper_hex_char 40 (substring sub (length (codes "crwn")))

abbrev pub strip_prefix : Str → Str
strip_prefix erc20_addr =
    if starts_with (codes "erc20/") erc20_addr
    then substring erc20_addr (length (codes "erc20/"))
    else erc20_addr

-- `Buffer.from(evmAddr.substring(2), "hex").toString("base64")`
abbrev pub evm_base64 : Env → Str → Str
evm_base64 env evm_addr = env.base64 (env.hex_bytes (substring evm_addr 2))

module _ (address : Str) where
  unfoldable pub is_wrapped_denom : Str → Bool
  is_wrapped_denom denom = factory_token_source_matches denom address valid_subdenom

  unfoldable pub assert_wrapped_denom : Str → Result (Unit {0})
  assert_wrapped_denom denom = assert_factory_token_source_matches denom address valid_subdenom

  unfoldable pub wrapped_denom_of : Env → Str → Result Str
  wrapped_denom_of env erc20_addr = do
    let addr = strip_prefix erc20_addr
    guard (env.is_valid_evm_address addr) (message (addr ++ codes " is not a valid EVM address"))
    ok (denom_prefix address ++ (codes "crwn" ++ to_upper (substring addr 2)))

  unfoldable pub unwrapped_denom_of : Env → Str → Result Str
  unfolding assert_wrapped_denom
  unwrapped_denom_of env wrapped_denom = do
    assert_wrapped_denom wrapped_denom
    env.checksum_address (substring wrapped_denom (length wrapped_denom - 4))

  unfoldable pub build_wrap_ixs : Env → ℕ → Str → Str → Option Str → Result (List Instruction)
  build_wrap_ixs env amount erc20_addr sender_evm_addr recipient = do
    let addr = strip_prefix erc20_addr
    canonical ← env.canonical_addr address
    ok (
        evm_approve addr (codes "0x" ++ env.hex_text (drop 12 canonical)) amount
        ∷ execute address (wrap_erc20 amount addr (evm_base64 env sender_evm_addr) recipient) []
        ∷ [])

  -- The body of the `map` in `buildUnwrapIx`.
  unfoldable pub checked_coin : Coin → Result Coin
  unfolding assert_wrapped_denom
  checked_coin token = do assert_wrapped_denom token.denom; ok token

  unfoldable pub build_unwrap_ix : Env → List Coin → Str → Result Instruction
  unfolding checked_coin map_result
  build_unwrap_ix env wrapped_tokens recipient_evm_addr = do
    funds ← map_result checked_coin wrapped_tokens
    ok (
        execute address (unwrap_erc20 (evm_base64 env recipient_evm_addr))
          (sort_coins env.denom_le funds))

  unfoldable pub build_unwrap_ix_unchecked : Env → Str → Instruction
  build_unwrap_ix_unchecked env recipient_evm_addr =
      execute address (unwrap_erc20 (evm_base64 env recipient_evm_addr)) []
