-- ===== src/Pair/Provision.antt =====
-- The instructions of `buildWrapAndProvideLiquidity` for native tokens.
use crownfi_sei_swaps.Prelude.{
  ℕ, ◌≡◌, ◌≢◌, false, List, [], ◌∷◌, some, none, arith, if◌then◌else◌, Bool-cases, inl, inr, ◌∙◌,
}
use crownfi_sei_swaps.Text.{Str, ◌==◌}
use crownfi_sei_swaps.Text.Laws.{==_iff, ==_refl}
use crownfi_sei_swaps.Platform.{
  ok, Coin, Account, Number, bigint, Instruction, execute, provide_liquidity, Env,
}
use crownfi_sei_swaps.Wrapper.Plain.{IsPlain, is_wrapable-plain, normalize_to_wrapped_denom-plain}
use crownfi_sei_swaps.Pair.{SwapMarketPair}
use crownfi_sei_swaps.Pair.Instructions.{wrap_liquidity_token, build_wrap_and_provide_liquidity}

-- The one instruction that deposits these amounts of the pair's assets, in their order.
abbrev pub provide : Env → SwapMarketPair → Account → Number → ℕ → ℕ → List Instruction
provide env p receiver slippage first second =
    execute p.contract
      (provide_liquidity (env.number_text slippage) (some receiver.sei_address) none)
      (record { denom = p.assets.0; amount = first }
        ∷ record { denom = p.assets.1; amount = second }
        ∷ [])
    ∷ []

-- What `BigIntCoin` makes of an amount and a denom.
abbrev pub MakesCoins : Env → Type 0
MakesCoins env =
    (n : ℕ) (d : Str) → env.coin_of_amount (bigint n) d ≡ ok (record { denom = d; amount = n })

wrap_liquidity_token-plain :
    (env : Env) (p : SwapMarketPair) (from : Account) (token : Coin)
    → IsPlain token.denom
    → wrap_liquidity_token env p from token ≡ ok []
unfolding wrap_liquidity_token
wrap_liquidity_token-plain env p from token h = rw (is_wrapable-plain token.denom h)

-- Where `BigIntCoin` makes coins of an amount and a denom, two tokens without a contract token's
-- prefix are never refused, whatever their denoms: the one instruction deposits the two amounts as
-- the pair's own assets, in the order given if the first denom is the pair's first asset, and in
-- the reverse order if it is not.
provide_plain :
    (env : Env) (p : SwapMarketPair) (from receiver : Account) (t0 t1 : Coin) (slippage : Number)
    → MakesCoins env
    → IsPlain t0.denom
    → IsPlain t1.denom
    → build_wrap_and_provide_liquidity env p from receiver (t0, t1) slippage
      ≡ ok (
          if t0.denom == p.assets.0
          then provide env p receiver slippage t0.amount t1.amount
          else provide env p receiver slippage t1.amount t0.amount)
unfolding build_wrap_and_provide_liquidity
provide_plain env p from receiver t0 t1 slippage coins h0 h1 =
    rw
      (
        wrap_liquidity_token-plain env p from t0 h0,
        wrap_liquidity_token-plain env p from t1 h1,
        normalize_to_wrapped_denom-plain p.token_wrapper env t0.denom h0,
        normalize_to_wrapped_denom-plain p.token_wrapper env t1.denom h1,
      )
      (elim (Bool-cases (t0.denom == p.assets.0)) [
        | inl first ↦ rw (first, coins t0.amount p.assets.0, coins t1.amount p.assets.1)
        | inr second ↦ rw (second, coins t1.amount p.assets.0, coins t0.amount p.assets.1)
      ])

-- Where `BigIntCoin` makes coins of an amount and a denom, and the pair's two assets differ and
-- have no contract token's prefix, the order in which tokens of these assets are given does not
-- matter: the one instruction deposits them in the pair's order.
provide_in_any_order :
    (env : Env) (p : SwapMarketPair) (from receiver : Account) (n0 n1 : ℕ) (slippage : Number)
    → MakesCoins env
    → IsPlain p.assets.0
    → IsPlain p.assets.1
    → p.assets.0 ≢ p.assets.1
    → let t0 : Coin = record { denom = p.assets.0; amount = n0 } in
      let t1 : Coin = record { denom = p.assets.1; amount = n1 } in
      (build_wrap_and_provide_liquidity env p from receiver (t0, t1) slippage
        ≡ ok (provide env p receiver slippage n0 n1))
      × (build_wrap_and_provide_liquidity env p from receiver (t1, t0) slippage
          ≡ ok (provide env p receiver slippage n0 n1))
provide_in_any_order env p from receiver n0 n1 slippage coins h0 h1 differ =
    let t0 : Coin = record { denom = p.assets.0; amount = n0 } in
    let t1 : Coin = record { denom = p.assets.1; amount = n1 } in
    let other : (p.assets.1 == p.assets.0) ≡ false = ground (arith, ==_iff p.assets.1 p.assets.0) in
    (
      provide_plain env p from receiver t0 t1 slippage coins h0 h1 ∙ (rw (==_refl p.assets.0)),
      provide_plain env p from receiver t1 t0 slippage coins h1 h0 ∙ (rw other),
    )
