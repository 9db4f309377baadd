-- ===== src/Pair/Withdrawals.antt =====
-- Where the two coins of a withdrawal go: the instruction that the SDK builds, as
-- contracts/crownfi-pool-pair/src/contract.rs pays it out, which takes the coins in canonical order.
use crownfi_sei_swaps.Prelude.{◌≡◌, ℕ, List, [], ◌∷◌, Option, some, none}
use crownfi_sei_swaps.Text.{Str}
use crownfi_sei_swaps.Platform.{
  Result, ok, Account, Msg, withdraw_liquidity, withdraw_and_split_liquidity, unwrap_cw20,
  Instruction, execute, Env,
}
use crownfi_sei_swaps.Wrapper.Multi.{TokenKind, not_wrapped, cw20, erc20, wrapped_denom_kind}
use crownfi_sei_swaps.Wrapper.Cw20
use crownfi_sei_swaps.Pair.{SwapMarketPair}

-- An address, and what is executed there; without it, the coin is sent by the bank.
abbrev pub Payout : Type 0
Payout = Str × Option Str

or_sender : Option Str → Str → Str
or_sender none from = from
or_sender (some receiver) from = receiver

-- Where the pair's contract pays the two coins of a withdrawal, the first in canonical order first;
-- `none` for a message of another kind.
unfoldable pub coin_receivers : (from : Str) → Msg → Option (Payout × Payout)
unfolding or_sender
coin_receivers from (withdraw_liquidity receiver payload) =
    some ((or_sender receiver from, payload), (or_sender receiver from, payload))
coin_receivers from (withdraw_and_split_liquidity left left_payload right right_payload) =
    some ((left, left_payload), (right, right_payload))
coin_receivers from _ = none

module _ (env : Env) (p : SwapMarketPair) (receiver : Account) where
  -- The message to the CW20 wrapper, in base64.
  abbrev pub unwrap_for : Str → Str
  unwrap_for address = env.base64 (env.json_bytes (unwrap_cw20 (some address)))

  -- Where a coin is to go: a native one to the account, and a wrapped one to the CW20 wrapper, to be
  -- unwrapped for the Sei address, or for the EVM address if the ERC20 wrapper has issued it.
  abbrev pub destination_of : TokenKind → Payout
  destination_of not_wrapped = (receiver.sei_address, none)
  destination_of cw20 = (p.token_wrapper.cw20_wrapper, some (unwrap_for receiver.sei_address))
  destination_of erc20 = (p.token_wrapper.cw20_wrapper, some (unwrap_for receiver.evm_address))

  abbrev pub kind_of : Str → TokenKind
  kind_of denom = wrapped_denom_kind p.token_wrapper denom

  -- The instruction for two kinds, and where its coins go.
  abbrev Pays : ℕ → Result (List Instruction) → Payout → Payout → Type 0
  Pays shares built left right =
      (msg : Msg) × (built
        ≡ ok
            (execute p.contract msg (record { denom = p.shares_denom; amount = shares } ∷ []) ∷ []))
      × (coin_receivers receiver.sei_address msg ≡ some (left, right))
