-- ===== src/Pair/Deposits.antt =====
-- Shares: what they are worth, and what a deposit earns.
use crownfi_sei_swaps.Prelude.{
  ℕ, zero, suc, ◌+◌, ◌*◌, ◌/◌, ◌≤◌, ◌<◌, ◌≡◌, ◌⊎◌, refl, ap, false, arith, min, eqb, if◌then◌else◌,
}
use crownfi_sei_swaps.Prelude.Division.{
  div_mul-le, mul_div_cancel, div-le, le-div, mul_mono_right, lt-div_mul,
}
use crownfi_sei_swaps.Platform.{ok, Env}
use crownfi_sei_swaps.Pair.{SwapMarketPair}
use crownfi_sei_swaps.Pair.Quotes.{
  div_ℕ, share_value, shares_for, DepositCalcResult, calculate_provide_liquidity,
}

-- The value in one asset of some of the shares.
abbrev pub part : (total deposit shares : ℕ) → ℕ
part total deposit shares = if eqb total 0 then 0 else deposit * shares / total

pub share_value-part :
    (p : SwapMarketPair) (shares : ℕ)
    → share_value p shares ≡ (
      (part p.total_shares p.total_deposits.0 shares, p.assets.0),
      (part p.total_shares p.total_deposits.1 shares, p.assets.1),
    )
unfolding share_value
share_value-part p shares = ground arith

eqb-pos : (n : ℕ) → 0 < n → eqb n 0 ≡ false
eqb-pos n h = ground arith

part-pos : (total d shares : ℕ) → 0 < total → part total d shares ≡ d * shares / total
part-pos total d shares h = rw (eqb-pos total h)

part-le : (total d shares : ℕ) → 0 < total → shares ≤ total → part total d shares ≤ d
part-le t d shares k h =
    rw (part-pos t d shares k)
      (div-le d (d * shares) t k (omega (arith, mul_mono_right d shares t h)))

part_full : (total d : ℕ) → 0 < total → part total d total ≡ d
part_full t d k = rw (part-pos t d t k) (mul_div_cancel d t k)

part_split : (total d a b : ℕ) → 0 < total → part total d a + part total d b ≤ part total d (a + b)
part_split t d a b k =
    rw (part-pos t d a k, part-pos t d b k, part-pos t d (a + b) k)
      (le-div (d * a / t + d * b / t) (d * (a + b)) t k
        (omega (arith, div_mul-le (d * a) t, div_mul-le (d * b) t)))

-- In a pool that has shares, any number of them up to all is worth at most the deposits of each
-- asset, all of them are worth exactly the deposits, and splitting a holding never raises its
-- value.
pub share_value_lem :
    (p : SwapMarketPair) (a b : ℕ)
    → a ≤ p.total_shares
    → 0 < p.total_shares
    → ((share_value p a).0.0 ≤ p.total_deposits.0)
      × ((share_value p a).1.0 ≤ p.total_deposits.1)
      × (share_value p p.total_shares
          ≡ ((p.total_deposits.0, p.assets.0), (p.total_deposits.1, p.assets.1)))
      × ((share_value p a).0.0 + (share_value p b).0.0 ≤ (share_value p (a + b)).0.0)
      × ((share_value p a).1.0 + (share_value p b).1.0 ≤ (share_value p (a + b)).1.0)
share_value_lem p a b h k =
    rw
      (
        share_value-part p a,
        share_value-part p b,
        share_value-part p (a + b),
        share_value-part p p.total_shares,
      )
      (
        part-le p.total_shares p.total_deposits.0 a k h,
        part-le p.total_shares p.total_deposits.1 a k h,
        rw (
          part_full p.total_shares p.total_deposits.0 k,
          part_full p.total_shares p.total_deposits.1 k,
        ),
        part_split p.total_shares p.total_deposits.0 a b k,
        part_split p.total_shares p.total_deposits.1 a b k,
      )

-- A pool with shares and with deposits of both assets.
pub record HasShares (p : SwapMarketPair) : Type 0 where
  pub shares : 0 < p.total_shares
  pub deposit0 : 0 < p.total_deposits.0
  pub deposit1 : 0 < p.total_deposits.1

-- The number of shares minted for a deposit of both amounts.
abbrev pub minted : SwapMarketPair → ℕ → ℕ → ℕ
minted p t0 t1 =
    min (t0 * p.total_shares / p.total_deposits.0) (t1 * p.total_shares / p.total_deposits.1)

-- The pair after a deposit of both amounts that mints a number of shares.
abbrev pub after_deposit : SwapMarketPair → (shares t0 t1 : ℕ) → SwapMarketPair
after_deposit p shares t0 t1 = record p {
  total_shares = p.total_shares + shares;
  total_deposits = (p.total_deposits.0 + t0, p.total_deposits.1 + t1);
}

div_ℕ-pos : (a b : ℕ) → 0 < b → div_ℕ a b ≡ ok (a / b)
unfolding div_ℕ
div_ℕ-pos a zero h = absurd (omega arith)
div_ℕ-pos a (suc b) h = refl

shares_for-minted :
    (env : Env) (p : SwapMarketPair) (t0 t1 : ℕ)
    → ((a b : ℕ) → env.big_int_min a b ≡ min a b)
    → HasShares p
    → shares_for env p t0 t1 ≡ ok (minted p t0 t1)
unfolding shares_for
shares_for-minted env p t0 t1 is_min h =
    rw
      (
        div_ℕ-pos (t0 * p.total_shares) p.total_deposits.0 h.deposit0,
        div_ℕ-pos (t1 * p.total_shares) p.total_deposits.1 h.deposit1,
      )
      (ap ok (is_min _ _))

-- The quote for a deposit is what the shares that it mints are worth after the deposit, at the
-- value that `shareValue` then gives them.
pub calculate_provide_liquidity_lem :
    (env : Env) (p : SwapMarketPair) (t0 t1 : ℕ)
    → ((a b : ℕ) → env.big_int_min a b ≡ min a b)
    → HasShares p
    → calculate_provide_liquidity env p t0 t1
      ≡ ok (record {
        new_shares = minted p t0 t1;
        new_share_value = share_value (after_deposit p (minted p t0 t1) t0 t1) (minted p t0 t1);
      })
unfolding calculate_provide_liquidity
calculate_provide_liquidity_lem env p t0 t1 is_min h =
    let s : ℕ = p.total_shares + minted p t0 t1 in
    let pos : 0 < s = omega arith in
    let some_shares : shares_for env p t0 t1 ≡ ok (minted p t0 t1) =
      shares_for-minted env p t0 t1 is_min h in
    rw (
      eqb-pos p.total_deposits.0 h.deposit0,
      eqb-pos p.total_deposits.1 h.deposit1,
      some_shares,
      div_ℕ-pos _ s pos,
      div_ℕ-pos _ s pos,
      share_value-part (after_deposit p (minted p t0 t1) t0 t1) (minted p t0 t1),
      part-pos s (p.total_deposits.0 + t0) (minted p t0 t1) pos,
      part-pos s (p.total_deposits.1 + t1) (minted p t0 t1) pos,
    )

-- As many shares as an amount pays for, at the deposits and shares before it.
paid_for : (s d t n : ℕ) → n ≤ t * s / d → n * d ≤ t * s
paid_for s d t n h = omega (arith, div_mul-le (t * s) d, mul_mono_right d n (t * s / d) h)

new_value-le : (s d t n : ℕ) → 0 < s → 0 < d → n ≤ t * s / d → part (s + n) (d + t) n ≤ t
new_value-le s d t n h k m =
    let bound : n * d ≤ t * s = paid_for s d t n m in
    rw (part-pos (s + n) (d + t) n (omega arith))
      (div-le t ((d + t) * n) (s + n) (omega arith) (omega arith))

kept-le : (s d t n : ℕ) → 0 < s → 0 < d → n ≤ t * s / d → d ≤ part (s + n) (d + t) s
kept-le s d t n h k m =
    let bound : n * d ≤ t * s = paid_for s d t n m in
    rw (part-pos (s + n) (d + t) s (omega arith))
      (le-div d ((d + t) * s) (s + n) (omega arith) (omega arith))

-- One more share than are minted would be more than one of the amounts pays for.
minted-most :
    (p : SwapMarketPair) (t0 t1 : ℕ)
    → HasShares p
    → (t0 * p.total_shares < (minted p t0 t1 + 1) * p.total_deposits.0)
      ⊎ (t1 * p.total_shares < (minted p t0 t1 + 1) * p.total_deposits.1)
minted-most p t0 t1 h =
    let below0 = lt-div_mul (t0 * p.total_shares) p.total_deposits.0 h.deposit0 in
    let below1 = lt-div_mul (t1 * p.total_shares) p.total_deposits.1 h.deposit1 in
    ground (arith, below0, below1)

-- In a pool with shares and deposits of both assets, and where `bigIntMin` is the minimum, a
-- deposit is quoted, and the quote is fair. The new shares are the most that both amounts pay for at
-- the ratio of the deposits to the shares. The value quoted is that of the new shares in the pool
-- that holds them and the amounts besides, and is at most the amounts deposited. In that pool the
-- shares that were there before are worth at least the deposits that were there before.
pub calculate_provide_liquidity_fair :
    (env : Env) (p : SwapMarketPair) (t0 t1 : ℕ)
    → ((a b : ℕ) → env.big_int_min a b ≡ min a b)
    → HasShares p
    → (r : DepositCalcResult) × (calculate_provide_liquidity env p t0 t1 ≡ ok r)
      × (r.new_shares * p.total_deposits.0 ≤ t0 * p.total_shares)
      × (r.new_shares * p.total_deposits.1 ≤ t1 * p.total_shares)
      × ((t0 * p.total_shares < (r.new_shares + 1) * p.total_deposits.0)
          ⊎ (t1 * p.total_shares < (r.new_shares + 1) * p.total_deposits.1))
      × (r.new_share_value ≡ share_value (after_deposit p r.new_shares t0 t1) r.new_shares)
      × (r.new_share_value.0.0 ≤ t0)
      × (r.new_share_value.1.0 ≤ t1)
      × (p.total_deposits.0 ≤ (share_value (after_deposit p r.new_shares t0 t1) p.total_shares).0.0)
      × (p.total_deposits.1 ≤ (share_value (after_deposit p r.new_shares t0 t1) p.total_shares).1.0)
calculate_provide_liquidity_fair env p t0 t1 is_min h =
    let n = minted p t0 t1 in
    let q = after_deposit p n t0 t1 in
    (
      record { new_shares = n; new_share_value = share_value q n },
      calculate_provide_liquidity_lem env p t0 t1 is_min h,
      paid_for p.total_shares p.total_deposits.0 t0 n (omega arith),
      paid_for p.total_shares p.total_deposits.1 t1 n (omega arith),
      minted-most p t0 t1 h,
      refl,
      rw (share_value-part q n)
          (new_value-le p.total_shares p.total_deposits.0 t0 n h.shares h.deposit0 (omega arith)),
      rw (share_value-part q n)
          (new_value-le p.total_shares p.total_deposits.1 t1 n h.shares h.deposit1 (omega arith)),
      rw (share_value-part q p.total_shares)
          (kept-le p.total_shares p.total_deposits.0 t0 n h.shares h.deposit0 (omega arith)),
      rw (share_value-part q p.total_shares)
          (kept-le p.total_shares p.total_deposits.1 t1 n h.shares h.deposit1 (omega arith)),
    )
