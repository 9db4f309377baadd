-- ===== src/Pair/Instructions.antt =====
-- packages/npm/sei-swaps-sdk/src/swap_market.ts, the class SwapMarketPair: the contract
-- instructions that it builds.
use crownfi_sei_swaps.Prelude.{
  ℕ, Bool, true, false, List, [], ◌∷◌, ◌++◌, Option, none, some, if◌then◌else◌,
}
use crownfi_sei_swaps.Text.{Str, ◌==◌, contains}
use crownfi_sei_swaps.Platform.{
  Result, ok, ◌>>=◌, ◌>>◌, guard, non_null, invalid_denom, Coin, Account, Number, Bytes, Payload,
  text, bigint, object, Receiver, sender, addr, addr_with_payload, Instruction, execute,
  provide_liquidity, withdraw_liquidity, withdraw_and_split_liquidity, swap, Env,
}
use crownfi_sei_swaps.Wrapper.Multi.{
  TokenKind, not_wrapped, cw20, erc20, is_wrapable, normalize_to_wrapped_denom, wrapped_denom_kind,
  build_wrap_ixs, build_unwrap_ixs_unchecked,
}
use crownfi_sei_swaps.Pair.{SwapMarketPair}
use crownfi_sei_swaps.Pair.Quotes.{other_denom}

unfoldable pub normalize_payload_coin : Env → Payload → Str → Result Coin
normalize_payload_coin env (object c) fallback_denom = ok (env.coin_of_object c)
normalize_payload_coin env (text s) fallback_denom = env.coin_of_amount (text s) fallback_denom
normalize_payload_coin env (bigint n) fallback_denom = env.coin_of_amount (bigint n) fallback_denom

-- Only an object is checked.
unfoldable pub assert_valid_denom : Payload → List Str → Result (Unit {0})
assert_valid_denom (object c) valid_denoms =
    guard (contains valid_denoms c.denom) (invalid_denom c.denom valid_denoms)
assert_valid_denom (text s) valid_denoms = ok tt
assert_valid_denom (bigint n) valid_denoms = ok tt

abbrev pub receiver_address : Receiver → Option Str
receiver_address sender = none
receiver_address (addr a) = some a
receiver_address (addr_with_payload a payload) = some a

abbrev pub receiver_payload : Env → Receiver → Option Str
receiver_payload env sender = none
receiver_payload env (addr a) = none
receiver_payload env (addr_with_payload a none) = none
receiver_payload env (addr_with_payload a (some payload)) = some (env.base64 payload)

-- Where an unwrap instruction sends tokens: its contract's address, and its message in base64.
abbrev pub unwrap_contract : Instruction → Str
unwrap_contract (execute contract msg funds) = contract
unwrap_contract (Instruction.execute_cw20 contract payload token amount) = contract
unwrap_contract (Instruction.evm_approve contract spender amount) = contract

abbrev pub unwrap_json : Env → Instruction → Bytes
unwrap_json env (execute contract msg funds) = env.json_bytes msg
unwrap_json env (Instruction.execute_cw20 contract payload token amount) = []
unwrap_json env (Instruction.evm_approve contract spender amount) = []

abbrev pub unwrap_receiver : Account → Option Instruction → Str
unwrap_receiver account none = account.sei_address
unwrap_receiver account (some ix) = unwrap_contract ix

abbrev pub unwrap_payload : Env → Option Instruction → Option Str
unwrap_payload env none = none
unwrap_payload env (some ix) = some (env.base64 (unwrap_json env ix))

module _ (env : Env) (p : SwapMarketPair) where
  unfoldable pub build_provide_liquidity_ixs :
      Payload → Payload → Number → Receiver → Result (List Instruction)
  unfolding assert_valid_denom normalize_payload_coin
  build_provide_liquidity_ixs token0_amount token1_amount slippage receiver = do
    assert_valid_denom token0_amount (p.assets.0 ∷ [])
    assert_valid_denom token1_amount (p.assets.1 ∷ [])
    coin0 ← normalize_payload_coin env token0_amount p.assets.0
    coin1 ← normalize_payload_coin env token1_amount p.assets.1
    ok (
        execute p.contract
          (provide_liquidity (env.number_text slippage) (receiver_address receiver)
            (receiver_payload env receiver))
          (coin0 ∷ coin1 ∷ [])
        ∷ [])

  -- One round of the loop of `buildWrapAndProvideLiquidity`, and the same steps on the offer in
  -- `buildWrapableSwapIxs`. The check is given the denom, a string.
  unfoldable pub wrap_liquidity_token : Account → Coin → Result (List Instruction)
  unfolding assert_valid_denom
  wrap_liquidity_token from token = do
    assert_valid_denom (text token.denom) p.valid_assets
    if is_wrapable token.denom
        then build_wrap_ixs p.token_wrapper env token.amount token.denom from from
        else ok []

  unfoldable pub build_wrap_and_provide_liquidity :
      Account → Account → Coin × Coin → Number → Result (List Instruction)
  unfolding wrap_liquidity_token build_provide_liquidity_ixs
  build_wrap_and_provide_liquidity from receiver tokens slippage = do
    wrap0 ← wrap_liquidity_token from tokens.0
    wrap1 ← wrap_liquidity_token from tokens.1
    denom0 ← normalize_to_wrapped_denom p.token_wrapper env tokens.0.denom
    denom1 ← normalize_to_wrapped_denom p.token_wrapper env tokens.1.denom
    let in_order = denom0 == p.assets.0
    let first = if in_order then tokens.0.amount else tokens.1.amount
    let second = if in_order then tokens.1.amount else tokens.0.amount
    provide ←
        build_provide_liquidity_ixs (bigint first) (bigint second) slippage
          (addr receiver.sei_address)
    ok (wrap0 ++ (wrap1 ++ provide))

  unfoldable pub build_withdraw_liquidity_ixs : ℕ → Receiver → List Instruction
  build_withdraw_liquidity_ixs shares receiver =
      execute p.contract
        (withdraw_liquidity (receiver_address receiver) (receiver_payload env receiver))
        (record { denom = p.shares_denom; amount = shares } ∷ [])
      ∷ []

  -- No instruction for a denom that is not wrapped.
  unfoldable pub unwrap_ix : TokenKind → Account → Result (Option Instruction)
  unwrap_ix not_wrapped receiver = ok none
  unwrap_ix cw20 receiver = do
    ok (some (← build_unwrap_ixs_unchecked p.token_wrapper cw20 receiver))
  unwrap_ix erc20 receiver = do
    ok (some (← build_unwrap_ixs_unchecked p.token_wrapper erc20 receiver))

  -- The case of two assets of one kind.
  unfoldable pub withdraw_same_kind : TokenKind → ℕ → Account → Result (List Instruction)
  unfolding unwrap_ix build_withdraw_liquidity_ixs
  withdraw_same_kind kind shares receiver = do
    unwrap ← unwrap_ix kind receiver
    ok (elim unwrap [
      | none ↦ build_withdraw_liquidity_ixs shares (addr receiver.sei_address)
      | some ix ↦
          build_withdraw_liquidity_ixs shares
            (addr_with_payload (unwrap_contract ix) (some (unwrap_json env ix)))
    ])

  unfoldable pub withdraw_split : TokenKind → TokenKind → ℕ → Account → Result (List Instruction)
  unfolding unwrap_ix
  withdraw_split left_kind right_kind shares receiver = do
    left ← unwrap_ix left_kind receiver
    right ← unwrap_ix right_kind receiver
    ok (
        execute p.contract
          (withdraw_and_split_liquidity (unwrap_receiver receiver left) (unwrap_payload env left)
            (unwrap_receiver receiver right) (unwrap_payload env right))
          (record { denom = p.shares_denom; amount = shares } ∷ [])
        ∷ [])

  abbrev pub same_kind : TokenKind → TokenKind → Bool
  same_kind not_wrapped not_wrapped = true
  same_kind cw20 cw20 = true
  same_kind erc20 erc20 = true
  same_kind _ _ = false

  unfoldable pub build_withdraw_and_unwrap_liquidity_ixs : ℕ → Account → Result (List Instruction)
  unfolding withdraw_same_kind withdraw_split
  build_withdraw_and_unwrap_liquidity_ixs shares receiver =
      let left_kind = wrapped_denom_kind p.token_wrapper p.assets.0 in
      let right_kind = wrapped_denom_kind p.token_wrapper p.assets.1 in
      if same_kind left_kind right_kind
      then withdraw_same_kind left_kind shares receiver
      else withdraw_split left_kind right_kind shares receiver

  unfoldable pub build_swap_ixs : Coin → Number → Receiver → List Instruction
  build_swap_ixs offer slippage receiver =
      execute p.contract
        (swap (receiver_address receiver) (receiver_payload env receiver) (env.number_text slippage)
          none)
        (offer ∷ [])
      ∷ []

  unfoldable pub build_wrapable_swap_ixs :
      Account → Account → Coin → Bool → Number → Option ℕ → Result (List Instruction)
  unfolding wrap_liquidity_token unwrap_ix
  build_wrapable_swap_ixs from receiver offer unwrap_on_receive slippage expected_result = do
    wraps ← wrap_liquidity_token from offer
    denom ← normalize_to_wrapped_denom p.token_wrapper env offer.denom
    result_denom ← non_null (other_denom p denom true)
    let kind = wrapped_denom_kind p.token_wrapper result_denom
    unwrap ← unwrap_ix (if unwrap_on_receive then kind else not_wrapped) receiver
    ok (
        wraps
        ++ (execute p.contract
              (swap (some (unwrap_receiver receiver unwrap)) (unwrap_payload env unwrap)
                (env.number_text slippage) expected_result)
              (record { denom = denom; amount = offer.amount } ∷ [])
            ∷ []))
