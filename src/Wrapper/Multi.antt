-- ===== src/Wrapper/Multi.antt =====
-- packages/npm/token-wrapper-sdk/src/multi_wrapper.ts: the class MultiTokenWrapper. A class calls
-- the two wrappers by their contracts' addresses.
use crownfi_sei_swaps.Prelude.{ℕ, Bool, ◌||◌, List, [], ◌∷◌, ◌++◌, some, if◌then◌else◌}
use crownfi_sei_swaps.Text.{Str, codes, starts_with}
use crownfi_sei_swaps.Platform.{
  Result, ok, err, ◌>>=◌, ◌>>◌, message, Coin, Account, Instruction, Env, Chain,
}
use crownfi_sei_swaps.Wrapper.Cw20
use crownfi_sei_swaps.Wrapper.Erc20

-- `MaybeContractTokenKind`; `not_wrapped` is 0.
pub data TokenKind : Type 0 where
  not_wrapped cw20 erc20 : TokenKind

pub record MultiTokenWrapper : Type 0 where
  pub cw20_wrapper : Str
  pub erc20_wrapper : Str

abbrev pub bad_prefix : Str
bad_prefix =
    codes "MultiTokenWrapper: "
    ++ codes "buildWrapIxs: Must provide a contract address prefixed with \"erc20/\" or \"cw20/\""

unfoldable pub is_wrapable : Str → Bool
is_wrapable denom = Cw20.is_wrapable denom || Erc20.is_wrapable denom

module _ (w : MultiTokenWrapper) where
  unfoldable pub is_wrapped_denom : Str → Bool
  is_wrapped_denom denom =
      Cw20.is_wrapped_denom w.cw20_wrapper denom || Erc20.is_wrapped_denom w.erc20_wrapper denom

  unfoldable pub wrapped_denom_kind : Str → TokenKind
  wrapped_denom_kind denom =
      if Cw20.is_wrapped_denom w.cw20_wrapper denom
      then cw20
      else if Erc20.is_wrapped_denom w.erc20_wrapper denom
      then erc20
      else not_wrapped

  unfoldable pub assert_wrapped_denom : Str → Result (Unit {0})
  assert_wrapped_denom denom = do
    Cw20.assert_wrapped_denom w.cw20_wrapper denom
    Erc20.assert_wrapped_denom w.erc20_wrapper denom

  -- The wrapped denom is computed, which may throw, and the denom given is returned.
  unfoldable pub normalize_to_wrapped_denom : Env → Str → Result Str
  normalize_to_wrapped_denom env denom =
      if starts_with (codes "cw20/") denom
      then Cw20.wrapped_denom_of w.cw20_wrapper env denom >>= (λ _. ok denom)
      else if starts_with (codes "erc20/") denom
      then Erc20.wrapped_denom_of w.erc20_wrapper env denom >>= (λ _. ok denom)
      else ok denom

  unfoldable pub normalize_to_unwrapped_denom : Env → Chain → Str → Result Str
  normalize_to_unwrapped_denom env chain denom =
      if Cw20.is_wrapped_denom w.cw20_wrapper denom
      then Cw20.unwrapped_denom_of w.cw20_wrapper chain denom
      else if Erc20.is_wrapped_denom w.erc20_wrapper denom
      then Erc20.unwrapped_denom_of w.erc20_wrapper env denom
      else ok denom

  unfoldable pub build_wrap_ixs : Env → ℕ → Str → Account → Account → Result (List Instruction)
  build_wrap_ixs env amount prefixed_contract_addr sender recipient =
      if starts_with (codes "erc20/") prefixed_contract_addr
      then Erc20.build_wrap_ixs w.erc20_wrapper env amount prefixed_contract_addr sender.evm_address
          (some recipient.sei_address)
      else if starts_with (codes "cw20/") prefixed_contract_addr
      then Cw20.build_wrap_ix w.cw20_wrapper env amount prefixed_contract_addr
          (some recipient.sei_address)
        >>= (λ ix. ok (ix ∷ []))
      else err (message bad_prefix)

  -- The loop of `buildUnwrapIxs`: the CW20 tokens and the ERC20 tokens, others ignored.
  unfoldable pub partition_tokens : List Coin → List Coin × List Coin
  partition_tokens [] = ([], [])
  partition_tokens (t ∷ ts) =
      let (cw20s, erc20s) = partition_tokens ts in
      if Cw20.is_wrapped_denom w.cw20_wrapper t.denom
      then (t ∷ cw20s, erc20s)
      else if Erc20.is_wrapped_denom w.erc20_wrapper t.denom
      then (cw20s, t ∷ erc20s)
      else (cw20s, erc20s)

  abbrev pub unless_empty : List Coin → Result Instruction → Result (List Instruction)
  unless_empty [] ix = ok []
  unless_empty (t ∷ ts) ix = do ok ((← ix) ∷ [])

  unfoldable pub build_unwrap_ixs : Env → List Coin → Account → Result (List Instruction)
  unfolding partition_tokens
  build_unwrap_ixs env wrapped_tokens recipient = do
    let (cw20s, erc20s) = partition_tokens wrapped_tokens
    first ←
        unless_empty cw20s
          (Cw20.build_unwrap_ix w.cw20_wrapper env cw20s (some recipient.sei_address))
    second ←
        unless_empty erc20s (Erc20.build_unwrap_ix w.erc20_wrapper env erc20s recipient.evm_address)
    ok (first ++ second)

  -- Both kinds call the CW20 wrapper; the ERC20 kind with the EVM address.
  unfoldable pub build_unwrap_ixs_unchecked : TokenKind → Account → Result Instruction
  build_unwrap_ixs_unchecked cw20 recipient =
      ok (Cw20.build_unwrap_ix_unchecked w.cw20_wrapper (some recipient.sei_address))
  build_unwrap_ixs_unchecked erc20 recipient =
      ok (Cw20.build_unwrap_ix_unchecked w.cw20_wrapper (some recipient.evm_address))
  build_unwrap_ixs_unchecked not_wrapped recipient =
      err (message (codes "Invalid ContractTokenKind value"))
