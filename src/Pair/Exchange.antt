-- ===== src/Pair/Exchange.antt =====
-- `exchangeValue`: its value, its one error, and what a trade there and back returns.
use crownfi_sei_swaps.Prelude.{
  ℕ, zero, suc, ◌-◌, ◌*◌, ◌/◌, ◌≤◌, ◌<◌, ◌≡◌, ◌↔◌, refl, Bool, true, false, not, arith,
  if◌then◌else◌,
}
use crownfi_sei_swaps.Prelude.Integers.{ℤ, pos, *ℤ-pos, -ℤ-pos, quot-pos}
use crownfi_sei_swaps.Prelude.Division.{
  div_mul-le, div_mono, mul_div_cancel, div-le, mul_mono_right,
}
use crownfi_sei_swaps.Platform.{ok, err, range_error}
use crownfi_sei_swaps.Pair.{SwapMarketPair, total_fee_basis_points}
use crownfi_sei_swaps.Pair.Quotes.{div_bigint, after_fees, exchange_value}

-- A pair with deposits of both assets and a total fee of at most 100%.
pub record IsFunded (p : SwapMarketPair) (fee : ℕ) : Type 0 where
  pub deposit0 : 0 < p.total_deposits.0
  pub deposit1 : 0 < p.total_deposits.1
  pub total_fee : total_fee_basis_points p ≡ pos fee
  pub fee-le : fee ≤ 10000

-- The amount that is exchanged, and the quote for it, in natural numbers.
abbrev pub net : ℕ → Bool → ℕ → ℕ
net fee include_fees value = if include_fees then value * (10000 - fee) / 10000 else value

abbrev pub quote : SwapMarketPair → Bool → ℕ → ℕ
quote p inverse value =
    if inverse
    then value * p.total_deposits.0 / p.total_deposits.1
    else value * p.total_deposits.1 / p.total_deposits.0

div_bigint-pos : (a b : ℕ) → 0 < b → div_bigint (pos a) b ≡ ok (pos (a / b))
unfolding div_bigint
div_bigint-pos a zero h = absurd (omega arith)
div_bigint-pos a (suc b) h = rw quot-pos

after_fees-pos :
    (p : SwapMarketPair) (fee value : ℕ)
    → IsFunded p fee
    → after_fees p (pos value) ≡ pos (value * (10000 - fee) / 10000)
unfolding after_fees
after_fees-pos p fee value h = simp (h.total_fee, -ℤ-pos 10000 fee h.fee-le, *ℤ-pos, quot-pos)

-- On a funded pair the quote for a natural number is the natural number that the formula gives:
-- the fees are taken first, and both divisions round down.
pub exchange_value-pos :
    (p : SwapMarketPair) (fee value : ℕ) (inverse include_fees : Bool)
    → IsFunded p fee
    → exchange_value p (pos value) inverse include_fees
      ≡ ok (pos (quote p inverse (net fee include_fees value)))
unfolding exchange_value
exchange_value-pos p fee value true true h =
    simp (after_fees-pos p fee value h, *ℤ-pos) (div_bigint-pos _ _ h.deposit1)
exchange_value-pos p fee value true false h = simp *ℤ-pos (div_bigint-pos _ _ h.deposit1)
exchange_value-pos p fee value false true h =
    simp (after_fees-pos p fee value h, *ℤ-pos) (div_bigint-pos _ _ h.deposit0)
exchange_value-pos p fee value false false h = simp *ℤ-pos (div_bigint-pos _ _ h.deposit0)

pub net-le : (fee value : ℕ) (include_fees : Bool) → net fee include_fees value ≤ value
net-le fee value true =
    div-le value (value * (10000 - fee)) 10000 (omega arith)
      (omega (arith, mul_mono_right value (10000 - fee) 10000 (omega arith)))
net-le fee value false = omega arith

quote_mono :
    (p : SwapMarketPair) (fee : ℕ) (inverse : Bool) (v v' : ℕ)
    → IsFunded p fee
    → v ≤ v'
    → quote p inverse v ≤ quote p inverse v'
quote_mono p fee true v v' h k = div_mono _ _ _ h.deposit1 (grind arith)
quote_mono p fee false v v' h k = div_mono _ _ _ h.deposit0 (grind arith)

-- A quotient of a product, taken back.
back-le : (v d e : ℕ) → 0 < d → 0 < e → v * d / e * e / d ≤ v
back-le v d e h k =
    subst_le (div_mono (v * d / e * e) (v * d) d h (div_mul-le (v * d) e)) (mul_div_cancel v d h)
  where
    subst_le : {a b c : ℕ} → a ≤ b → b ≡ c → a ≤ c
    subst_le x y = omega arith

quote-back :
    (p : SwapMarketPair) (fee : ℕ) (inverse : Bool) (v : ℕ)
    → IsFunded p fee
    → quote p (not inverse) (quote p inverse v) ≤ v
quote-back p fee true v h = back-le v p.total_deposits.0 p.total_deposits.1 h.deposit0 h.deposit1
quote-back p fee false v h = back-le v p.total_deposits.1 p.total_deposits.0 h.deposit1 h.deposit0

-- On a funded pair an amount can be exchanged and the result exchanged back, in either order, with
-- or without fees; the amount that comes back is at most the amount that went in.
pub exchange_value_there_and_back :
    (p : SwapMarketPair) (fee value : ℕ) (inverse fees_there fees_back : Bool)
    → IsFunded p fee
    → (w u : ℕ) × (exchange_value p (pos value) inverse fees_there ≡ ok (pos w))
      × (exchange_value p (pos w) (not inverse) fees_back ≡ ok (pos u))
      × (u ≤ value)
exchange_value_there_and_back p fee value inverse fees_there fees_back h =
    let v1 = net fee fees_there value in
    let w = quote p inverse v1 in
    let v2 = net fee fees_back w in
    let back : quote p (not inverse) v2 ≤ quote p (not inverse) w =
      quote_mono p fee (not inverse) v2 w h (net-le fee w fees_back) in
    let round : quote p (not inverse) w ≤ v1 = quote-back p fee inverse v1 h in
    (
      w,
      quote p (not inverse) v2,
      exchange_value-pos p fee value inverse fees_there h,
      exchange_value-pos p fee w (not inverse) fees_back h,
      omega (arith, net-le fee value fees_there),
    )

-- Including the fees never raises a quote on a funded pair.
exchange_value_fees :
    (p : SwapMarketPair) (fee value : ℕ) (inverse : Bool)
    → IsFunded p fee
    → (with_fees without_fees : ℕ) × (exchange_value p (pos value) inverse true
        ≡ ok (pos with_fees))
      × (exchange_value p (pos value) inverse false ≡ ok (pos without_fees))
      × (with_fees ≤ without_fees)
exchange_value_fees p fee value inverse h = (
  quote p inverse (net fee true value),
  quote p inverse value,
  exchange_value-pos p fee value inverse true h,
  exchange_value-pos p fee value inverse false h,
  quote_mono p fee inverse (net fee true value) value h (net-le fee value true),
)

div_bigint_throws_iff : (a : ℤ) (b : ℕ) → (div_bigint a b ≡ err range_error) ↔ (b ≡ 0)
unfolding div_bigint
div_bigint_throws_iff a zero = (λ h. refl, λ h. refl)
div_bigint_throws_iff a (suc b) = (λ h. cc, λ h. absurd (omega arith))

-- A quote throws, with the error of a division by 0, exactly if the deposit of the asset that is
-- given is 0.
pub exchange_value_throws_iff :
    (p : SwapMarketPair) (value : ℤ) (inverse include_fees : Bool)
    → (exchange_value p value inverse include_fees ≡ err range_error)
      ↔ ((if inverse then p.total_deposits.1 else p.total_deposits.0) ≡ 0)
unfolding exchange_value
exchange_value_throws_iff p value true include_fees = div_bigint_throws_iff _ _
exchange_value_throws_iff p value false include_fees = div_bigint_throws_iff _ _
