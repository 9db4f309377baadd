-- ===== src/Pair.antt =====
-- packages/npm/sei-swaps-sdk/src/swap_market.ts, the class SwapMarketPair: its state, the
-- constructor, `create` and `refresh`. The quotes are in `Quotes`, the instructions in
-- `Instructions`, the volumes in `Volumes`.
pub mod Quotes
pub mod Instructions
pub mod Volumes
pub mod Identity
pub mod Exchange
pub mod Deposits
pub mod Matching
pub mod Provision
pub mod Payout
pub mod Withdrawals
pub mod Traded
pub mod Samples
mod Examples
use crownfi_sei_swaps.Prelude.{ℕ, suc, ◌+◌, ◌≡◌, Bool, not, List, [], ◌∷◌, ◌++◌, if◌then◌else◌}
use crownfi_sei_swaps.Prelude.Integers.{ℤ, pos, ◌+ℤ◌, ◌-ℤ◌}
use crownfi_sei_swaps.Text.{Str, codes, ◌==◌}
use crownfi_sei_swaps.Text.Sort.{sort_pair}
use crownfi_sei_swaps.Platform.{Result, ok, err, ◌>>=◌, Env, Clock}
use crownfi_sei_swaps.Wrapper.Multi.{MultiTokenWrapper, normalize_to_unwrapped_denom}

-- `contract` is the address of the pair's contract. The deposits and shares are unsigned 128-bit
-- numbers of the contract; the pool fee is a difference, which can be negative.
pub record SwapMarketPair : Type 0 where
  pub contract : Str
  pub name : Str
  pub assets : Str × Str
  pub shares_denom : Str
  pub canon_assets : Str × Str
  pub unwrapped_assets : Str × Str
  pub valid_assets : List Str
  pub maker_fee_basis_points : ℕ
  pub pool_fee_basis_points : ℤ
  pub total_shares : ℕ
  pub total_deposits : ℕ × ℕ
  pub token_wrapper : MultiTokenWrapper

unfoldable pub total_fee_basis_points : SwapMarketPair → ℤ
total_fee_basis_points p = pos p.maker_fee_basis_points +ℤ p.pool_fee_basis_points

-- The unwrapped form of an asset is valid too, where it differs from the asset.
abbrev pub push_unless_equal : Str → Str → List Str
push_unless_equal asset unwrapped = if asset == unwrapped then [] else unwrapped ∷ []

unfoldable pub new_pair :
    Env
    → Str
    → ℕ × ℕ
    → ℕ
    → ℤ
    → (assets unwrapped_assets : Str × Str) → ℕ
    → MultiTokenWrapper
    → SwapMarketPair
new_pair env contract deposits maker_fee pool_fee assets unwrapped_assets shares wrapper = record {
  contract = contract;
  name = env.token_symbol assets.0 ++ (codes "-" ++ env.token_symbol assets.1);
  assets = assets;
  shares_denom = codes "factory/" ++ (contract ++ codes "/lp");
  canon_assets = sort_pair assets;
  unwrapped_assets = unwrapped_assets;
  valid_assets =
      assets.0
      ∷ assets.1
      ∷ (push_unless_equal assets.0 unwrapped_assets.0
          ++ push_unless_equal assets.1 unwrapped_assets.1);
  maker_fee_basis_points = maker_fee;
  pool_fee_basis_points = pool_fee;
  total_shares = shares;
  total_deposits = deposits;
  token_wrapper = wrapper;
}

-- The queries are issued in this order, the first from `clock n`; a rejected one rejects the whole.
-- The wrapper is given, as its type says; the case of an undefined one is left out.
unfoldable pub create : Env → Clock → ℕ → Str → MultiTokenWrapper → Result SwapMarketPair
unfolding new_pair
create env clock n pair_address wrapper = do
  config ← (clock n).pair_config pair_address
  shares ← (clock (n + 1)).total_shares pair_address
  assets ← (clock (n + 2)).pair_denoms pair_address
  unwrapped0 ← normalize_to_unwrapped_denom wrapper env (clock (n + 3)) assets.0
  unwrapped1 ← normalize_to_unwrapped_denom wrapper env (clock (n + 4)) assets.1
  deposits ← (clock (n + 5)).share_value pair_address shares
  ok (
      new_pair env pair_address (deposits.0.amount, deposits.1.amount) config.maker_fee_bps
        (pos config.total_fee_bps -ℤ pos config.maker_fee_bps) assets (unwrapped0, unwrapped1)
        shares wrapper)

-- The pair is changed in place after each answer, so a rejected query leaves what came before it.
unfoldable pub refresh : Clock → ℕ → SwapMarketPair → SwapMarketPair × Result (Unit {0})
refresh clock n p = elim ((clock n).total_shares p.contract) [
  | err e ↦ (p, err e)
  | ok shares ↦
      let p1 = record p { total_shares = shares } in
      elim ((clock (n + 1)).pair_config p.contract) [
        | err e ↦ (p1, err e)
        | ok config ↦
            let p2 = record p1 {
              maker_fee_basis_points = config.maker_fee_bps;
              pool_fee_basis_points = pos config.total_fee_bps -ℤ pos config.maker_fee_bps;
            } in
            elim ((clock (n + 2)).share_value p.contract shares) [
              | err e ↦ (p2, err e)
              | ok deposits ↦
                  (record p2 { total_deposits = (deposits.0.amount, deposits.1.amount) }, ok tt)
            ]
      ]
]
