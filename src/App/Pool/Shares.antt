-- ===== src/App/Pool/Shares.antt =====
-- pool-dialog.ts: the figures that the dialog shows of the pool's shares.
use crownfi_sei_swaps.Prelude.{ℕ, ◌<◌, ◌≡◌, ap, arith}
use crownfi_sei_swaps.Text.{Str}
use crownfi_sei_swaps.Platform.{Error, Result, ok, err, Env, Clock}
use crownfi_sei_swaps.Pair.{SwapMarketPair}
use crownfi_sei_swaps.Pair.Quotes.{share_value}
use crownfi_sei_swaps.Pair.Deposits.{share_value_lem}
use crownfi_sei_swaps.Market.{SwapMarket}
use crownfi_sei_swaps.App.Pool.Figures.{Figures, and_then, answered, render_data}

-- What holds of the figures, if there are any.
data Yields (P : Figures → Type 0) : SwapMarket × Result Figures → Type 0 where
  failed : {m : SwapMarket} {e : Error} → Yields P (m, err e)
  shown : {m : SwapMarket} {f : Figures} → P f → Yields P (m, ok f)

and_then-Yields {ℓ} :
    {A : Type ℓ} (P : Figures → Type 0) (x : SwapMarket × Result A)
    (rest : SwapMarket → A → SwapMarket × Result Figures)
    → ((m : SwapMarket) (a : A) → Yields P (rest m a))
    → Yields P (and_then x rest)
unfolding and_then
and_then-Yields P (m, err e) rest h = failed
and_then-Yields P (m, ok a) rest h = h m a

answered-Yields {ℓ} :
    {A : Type ℓ} (P : Figures → Type 0) (m : SwapMarket) (x : Result A)
    (rest : A → SwapMarket × Result Figures)
    → ((a : A) → Yields P (rest a))
    → Yields P (answered m x rest)
unfolding answered
answered-Yields P m (err e) rest h = failed
answered-Yields P m (ok a) rest h = h a

-- The pool's shares together are worth its deposits.
abbrev SharesAreDeposits : Figures → Type 0
SharesAreDeposits f = 0 < f.pool_shares → f.share_value_to ≡ f.total_deposits_to

all_shares :
    (p : SwapMarketPair)
    → 0 < p.total_shares
    → (share_value p p.total_shares).1.0 ≡ p.total_deposits.1
all_shares p h =
    let (_, _, all, _, _) = share_value_lem p p.total_shares 0 (omega arith) h in
    ap (λ (v : (ℕ × Str) × (ℕ × Str)). v.1.0) all

-- If the figures of the dialog can be shown, and the pool has shares, the value shown for all shares
-- in the second token is the deposit shown of it, although the market is refreshed while they are
-- gathered.
render_data_lem :
    (env : Env) (clock : Clock) (get_decimals : Str → Result ℕ) (currency key : Str)
    (n k0 k1 k2 k3 : ℕ) (m : SwapMarket) (p : SwapMarketPair)
    → Yields SharesAreDeposits (render_data env clock get_decimals currency key n k0 k1 k2 k3 m p)
unfolding render_data
render_data_lem env clock get_decimals currency key n k0 k1 k2 k3 m p =
    search (and_then-Yields, answered-Yields, shown, all_shares) depth 14
