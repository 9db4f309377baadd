-- ===== src/Pair/Identity.antt =====
-- What `create` sets up and `refresh` keeps, and the fee that a pair reports.
use crownfi_sei_swaps.Prelude.{ℕ, ◌+◌, ◌≡◌, ◌∷◌, ◌++◌, arith, refl, subst, inl, inr}
use crownfi_sei_swaps.Prelude.Integers.{pos, ◌+ℤ◌, ◌-ℤ◌}
use crownfi_sei_swaps.Text.{Str, codes}
use crownfi_sei_swaps.Text.Sort.{sort_pair}
use crownfi_sei_swaps.Platform.{
  ok, >>=-eq-ok, ok-injective, Result-cases, Env, Clock, PairConfig, Coin,
}
use crownfi_sei_swaps.Wrapper.Multi.{MultiTokenWrapper, normalize_to_unwrapped_denom}
use crownfi_sei_swaps.Pair.{
  SwapMarketPair, total_fee_basis_points, push_unless_equal, create, refresh,
}

pub +ℤ-ℤ_cancel : (a b : ℕ) → pos a +ℤ (pos b -ℤ pos a) ≡ pos b
unfolding ◌+ℤ◌ ◌-ℤ◌
+ℤ-ℤ_cancel a b = ground arith

-- The parts of a pair that follow from its contract's address, its assets and their unwrapped forms.
pub record IsDerived (p : SwapMarketPair) : Type 0 where
  pub canonical : p.canon_assets ≡ sort_pair p.assets
  pub shares : p.shares_denom ≡ codes "factory/" ++ (p.contract ++ codes "/lp")
  pub valid :
      p.valid_assets
      ≡ p.assets.0
        ∷ p.assets.1
        ∷ (push_unless_equal p.assets.0 p.unwrapped_assets.0
            ++ push_unless_equal p.assets.1 p.unwrapped_assets.1)

-- The figures of a pair are the answers that the contract gave.
pub record HasFigures (p : SwapMarketPair) (config : PairConfig) (shares : ℕ)
    (deposits : Coin × Coin) : Type 0 where
  pub fee : total_fee_basis_points p ≡ pos config.total_fee_bps
  pub maker : p.maker_fee_basis_points ≡ config.maker_fee_bps
  pub total_shares : p.total_shares ≡ shares
  pub total_deposits : p.total_deposits ≡ (deposits.0.amount, deposits.1.amount)

-- What a pair is that `create` made from the answers of the contract at `address`.
pub record IsCreated (env : Env) (clock : Clock) (n : ℕ) (address : Str) (w : MultiTokenWrapper)
    (p : SwapMarketPair) : Type 0 where
  pub derived : IsDerived p
  pub contract : p.contract ≡ address
  pub assets : (clock (n + 2)).pair_denoms address ≡ ok p.assets
  pub unwrapped0 :
      normalize_to_unwrapped_denom w env (clock (n + 3)) p.assets.0 ≡ ok p.unwrapped_assets.0
  pub unwrapped1 :
      normalize_to_unwrapped_denom w env (clock (n + 4)) p.assets.1 ≡ ok p.unwrapped_assets.1
  pub config : PairConfig
  pub shares : ℕ
  pub deposits : Coin × Coin
  pub config_answer : (clock n).pair_config address ≡ ok config
  pub shares_answer : (clock (n + 1)).total_shares address ≡ ok shares
  pub deposits_answer : (clock (n + 5)).share_value address shares ≡ ok deposits
  pub figures : HasFigures p config shares deposits

-- A pair that `create` returns has the contract's address and denoms, their unwrapped forms as the
-- wrapper answers them, and derived parts that fit them; its fees, shares and deposits are the
-- contract's answers to the queries, the deposits being the value of all shares; the total fee that
-- it reports is the contract's.
pub create-IsCreated :
    (env : Env) (clock : Clock) (n : ℕ) (address : Str) (w : MultiTokenWrapper) (p : SwapMarketPair)
    → create env clock n address w ≡ ok p
    → IsCreated env clock n address w p
unfolding create total_fee_basis_points
create-IsCreated env clock n address w p h =
    let (config, e1, h1) = >>=-eq-ok ((clock n).pair_config address) _ h in
    let (shares, e2, h2) = >>=-eq-ok ((clock (n + 1)).total_shares address) _ h1 in
    let (assets, e3, h3) = >>=-eq-ok ((clock (n + 2)).pair_denoms address) _ h2 in
    let (u0, e4, h4) =
      >>=-eq-ok (normalize_to_unwrapped_denom w env (clock (n + 3)) assets.0) _ h3 in
    let (u1, e5, h5) =
      >>=-eq-ok (normalize_to_unwrapped_denom w env (clock (n + 4)) assets.1) _ h4 in
    let (deposits, e6, h6) = >>=-eq-ok ((clock (n + 5)).share_value address shares) _ h5 in
    subst (IsCreated env clock n address w) (ok-injective h6) (record {
      derived = record { canonical = refl; shares = refl; valid = refl };
      contract = refl;
      assets = e3;
      unwrapped0 = e4;
      unwrapped1 = e5;
      config = config;
      shares = shares;
      deposits = deposits;
      config_answer = e1;
      shares_answer = e2;
      deposits_answer = e6;
      figures = record {
        fee = +ℤ-ℤ_cancel config.maker_fee_bps config.total_fee_bps;
        maker = refl;
        total_shares = refl;
        total_deposits = refl;
      };
    })

-- What identifies a pair, and all that follows from it.
pub record SameIdentity (p q : SwapMarketPair) : Type 0 where
  pub contract : q.contract ≡ p.contract
  pub name : q.name ≡ p.name
  pub assets : q.assets ≡ p.assets
  pub shares_denom : q.shares_denom ≡ p.shares_denom
  pub canon_assets : q.canon_assets ≡ p.canon_assets
  pub unwrapped_assets : q.unwrapped_assets ≡ p.unwrapped_assets
  pub valid_assets : q.valid_assets ≡ p.valid_assets
  pub token_wrapper : q.token_wrapper ≡ p.token_wrapper

-- `refresh` keeps the identity of a pair, also where a query is rejected half-way.
pub refresh-SameIdentity :
    (clock : Clock) (n : ℕ) (p : SwapMarketPair) → SameIdentity p (refresh clock n p).0
unfolding refresh
refresh-SameIdentity clock n p = record {
  contract = ground arith;
  name = ground arith;
  assets = ground arith;
  shares_denom = ground arith;
  canon_assets = ground arith;
  unwrapped_assets = ground arith;
  valid_assets = ground arith;
  token_wrapper = ground arith;
}

-- A `refresh` that succeeds leaves the pair with the contract's new figures, the deposits being
-- the value of the new total of shares.
pub refresh-HasFigures :
    (clock : Clock) (n : ℕ) (p : SwapMarketPair)
    → (refresh clock n p).1 ≡ ok tt
    → (config : PairConfig) × (shares : ℕ) × (deposits : Coin × Coin) × ((clock n).total_shares
          p.contract
        ≡ ok shares)
      × ((clock (n + 1)).pair_config p.contract ≡ ok config)
      × ((clock (n + 2)).share_value p.contract shares ≡ ok deposits)
      × HasFigures (refresh clock n p).0 config shares deposits
unfolding refresh total_fee_basis_points
refresh-HasFigures clock n p h = elim (Result-cases ((clock n).total_shares p.contract)) [
  | inr (e, e1) ↦ absurd (ground arith)
  | inl (shares, e1) ↦ elim (Result-cases ((clock (n + 1)).pair_config p.contract)) [
    | inr (e, e2) ↦ absurd (ground arith)
    | inl (config, e2) ↦ elim (Result-cases ((clock (n + 2)).share_value p.contract shares)) [
      | inr (e, e3) ↦ absurd (ground arith)
      | inl (deposits, e3) ↦ (
        config,
        shares,
        deposits,
        e1,
        e2,
        e3,
        rw (e1, e2, e3, refresh)
            (record {
              fee = +ℤ-ℤ_cancel config.maker_fee_bps config.total_fee_bps;
              maker = refl;
              total_shares = refl;
              total_deposits = refl;
            }),
      )
    ]
  ]
]
