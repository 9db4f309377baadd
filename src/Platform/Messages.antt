-- ===== src/Platform/Messages.antt =====
-- Coins, accounts, contract messages and instructions (packages/npm/sei-swaps-sdk/src/base/types.ts
-- and packages/npm/token-wrapper-sdk/src/base/types.ts), and the functions of other packages.
-- An amount is the number that its decimal text or `bigint` denotes. A JavaScript `number` is the
-- 64-bit pattern of its double, and arithmetic on it is a parameter.
use crownfi_sei_swaps.Prelude.{ℕ, Bool, List, Option}
use crownfi_sei_swaps.Prelude.Integers.{ℤ}
use crownfi_sei_swaps.Text.{Str}
use crownfi_sei_swaps.Platform.Results.{Result}

pub record Coin : Type 0 where
  pub denom : Str
  pub amount : ℕ

pub record Account : Type 0 where
  pub sei_address : Str
  pub evm_address : Str

abbrev pub Number : Type 0
Number = ℕ

abbrev pub Bytes : Type 0
Bytes = List ℕ

pub data SwapReceiver : Type 0 where
  direct : Str → SwapReceiver
  -- the contract is `undefined` if the denom had nothing behind its prefix
  wasm_unwrap : (contract : Option Str) (receiver : Str) → SwapReceiver
  evm_unwrap : (contract : Option Str) (evm_receiver : Str) → SwapReceiver

pub record Expectation : Type 0 where
  pub expected_amount : ℕ
  pub slippage_tolerance : Str

-- `string | bigint | Coin | IBigIntCoin`
pub data Payload : Type 0 where
  text : Str → Payload
  bigint : ℕ → Payload
  object : Coin → Payload

-- `undefined`, an `Addr`, or an `AddrWithPayload`
pub data Receiver : Type 0 where
  sender : Receiver
  addr : Str → Receiver
  addr_with_payload : Str → Option Bytes → Receiver

-- The messages that the SDKs send, with `undefined` members as `none`.
pub data Msg : Type 0 where
  provide_liquidity :
      (slippage_tolerance : Str) (receiver : Option Str) (receiver_payload : Option Str) → Msg
  withdraw_liquidity : (receiver : Option Str) (receiver_payload : Option Str) → Msg
  withdraw_and_split_liquidity :
      (left_coin_receiver : Str) (left_coin_receiver_payload : Option Str)
      (right_coin_receiver : Str) (right_coin_receiver_payload : Option Str)
      → Msg
  swap :
      (receiver : Option Str) (receiver_payload : Option Str) (slippage_tolerance : Str)
      (expected_result : Option ℕ)
      → Msg
  execute_swaps :
      (swappers : List Str) (expectation : Option Expectation)
      (intermediate_slippage_tolerance : Str) (receiver : SwapReceiver)
      → Msg
  -- the CW20 wrapper's `unwrap`
  unwrap_cw20 : (receiver : Option Str) → Msg
  -- the ERC20 wrapper's `wrap` and `unwrap`
  wrap_erc20 : (amount : ℕ) (token_addr evm_sender : Str) (recipient : Option Str) → Msg
  unwrap_erc20 : (evm_recipient : Str) → Msg

pub data Instruction : Type 0 where
  -- a contract's `executeIx`: its address, the message and the funds sent along
  execute : (contract_address : Str) (msg : Msg) (funds : List Coin) → Instruction
  -- a contract's `executeIxCw20`: the payload, the token's address and the amount
  execute_cw20 : (contract_address : Str) (payload : Bytes) (token : Str) (amount : ℕ) → Instruction
  -- the EVM call `approve(spender, amount)`
  evm_approve : (contract_address : Str) (spender : Str) (amount : ℕ) → Instruction

-- Functions of other packages and of the platform.
pub record Env : Type 0 where
  -- `stringToCanonicalAddr`
  pub canonical_addr : Str → Result Bytes
  -- hi-base32's `encode(bytes, true)`
  pub base32_encode : Bytes → Str
  -- `isValidEvmAddress(s, true)`
  pub is_valid_evm_address : Str → Bool
  -- `toChecksumAddressEvm(s, false)`
  pub checksum_address : Str → Result Str
  -- `Buffer.from(s, "hex")`, `toString("hex")` and `toString("base64")`
  pub hex_bytes : Str → Bytes
  pub hex_text : Bytes → Str
  pub base64 : Bytes → Str
  -- `Buffer.from(JSON.stringify(msg))`
  pub json_bytes : Msg → Bytes
  -- `number + ""`, `Number(text)` and `Number(bigint)`
  pub number_text : Number → Str
  pub text_number : Str → Number
  pub bigint_number : ℤ → Number
  -- the arithmetic of doubles
  pub number_mul : Number → Number → Number
  pub number_div : Number → Number → Number
  -- math-bigint's `bigIntMin`
  pub big_int_min : ℕ → ℕ → ℕ
  -- `new BigIntCoin(object).intoCosmCoin()` and `new BigIntCoin(amount, denom).intoCosmCoin()`
  pub coin_of_object : Coin → Coin
  pub coin_of_amount : Payload → Str → Result Coin
  -- `nativeDenomSortCompare(a, b) <= 0`, on the denoms
  pub denom_le : Str → Str → Bool
  -- `getUserTokenInfo(denom).symbol`
  pub token_symbol : Str → Str
