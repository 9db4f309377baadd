-- ===== src/Wrapper/Funds.antt =====
-- `funds.sort(nativeDenomSortCompare)`: a stable sort of coins by denom, for the wrappers'
-- `buildUnwrapIx`. The comparison of denoms belongs to another package and is a parameter.
use mathlib.Core.List.{Perm}
use mathlib.Core.List.Perm
use crownfi_sei_swaps.Prelude.{Bool, List, [], ◌∷◌, if◌then◌else◌, Bool-cases, inl, inr}
use crownfi_sei_swaps.Text.{Str}
use crownfi_sei_swaps.Platform.{Coin}

module _ (le : Str → Str → Bool) where
  unfoldable pub insert_coin : Coin → List Coin → List Coin
  insert_coin c [] = c ∷ []
  insert_coin c (d ∷ ds) = if le c.denom d.denom then c ∷ d ∷ ds else d ∷ insert_coin c ds

  unfoldable pub sort_coins : List Coin → List Coin
  unfolding insert_coin
  sort_coins [] = []
  sort_coins (c ∷ cs) = insert_coin c (sort_coins cs)

  insert_coin-perm : (c : Coin) (cs : List Coin) → Perm (insert_coin c cs) (c ∷ cs)
  unfolding insert_coin
  insert_coin-perm c [] = Perm.refl (c ∷ [])
  insert_coin-perm c (d ∷ ds) = elim (Bool-cases (le c.denom d.denom)) [
    | inl small ↦ rw small (Perm.refl (c ∷ d ∷ ds))
    | inr large ↦ rw large (Perm.trans (Perm.cons d (insert_coin-perm c ds)) (Perm.swap c d ds))
  ]

  -- Sorting loses no coin and adds none.
  pub sort_coins-perm : (cs : List Coin) → Perm (sort_coins cs) cs
  unfolding sort_coins
  sort_coins-perm [] = Perm.refl []
  sort_coins-perm (c ∷ cs) =
      Perm.trans (insert_coin-perm c (sort_coins cs)) (Perm.cons c (sort_coins-perm cs))
