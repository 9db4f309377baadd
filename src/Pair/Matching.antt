-- ===== src/Pair/Matching.antt =====
-- `isPair` and `otherDenom`: how denoms are compared with the two sides of a pair.
use crownfi_sei_swaps.Prelude.{
  ◌≡◌, ◌≢◌, ◌↔◌, ◌⊎◌, inl, inr, Bool, true, [], ◌∷◌, some, arith, if◌then◌else◌,
}
use crownfi_sei_swaps.Text.{Str}
use crownfi_sei_swaps.Text.Laws.{==_iff}
use crownfi_sei_swaps.Pair.{SwapMarketPair}
use crownfi_sei_swaps.Pair.Quotes.{other_denom, match, inverse_match, is_pair}

-- Two denoms match a pair of two different assets exactly if they are its assets in order, match
-- it inversely exactly if they are its assets in the other order, and are unmatched otherwise;
-- so swapping the denoms swaps the two kinds of match.
is_pair_iff :
    (p : SwapMarketPair) (a b : Str)
    → p.assets.0 ≢ p.assets.1
    → ((is_pair p (a ∷ b ∷ []) ≡ match) ↔ ((a ≡ p.assets.0) × (b ≡ p.assets.1)))
      × ((is_pair p (a ∷ b ∷ []) ≡ inverse_match) ↔ ((a ≡ p.assets.1) × (b ≡ p.assets.0)))
      × ((is_pair p (a ∷ b ∷ []) ≡ inverse_match) ↔ (is_pair p (b ∷ a ∷ []) ≡ match))
unfolding is_pair
is_pair_iff p a b h = (
  ground
      (arith, ==_iff a p.assets.0, ==_iff b p.assets.1, ==_iff b p.assets.0, ==_iff a p.assets.1),
  ground
      (arith, ==_iff a p.assets.0, ==_iff b p.assets.1, ==_iff b p.assets.0, ==_iff a p.assets.1),
  ground
      (arith, ==_iff a p.assets.0, ==_iff b p.assets.1, ==_iff b p.assets.0, ==_iff a p.assets.1),
)

-- The forms of a denom on either side: the asset, or its unwrapped form.
abbrev pub OnLeft : SwapMarketPair → Str → Type 0
OnLeft p d = (p.assets.0 ≡ d) ⊎ (p.unwrapped_assets.0 ≡ d)

abbrev pub OnRight : SwapMarketPair → Str → Type 0
OnRight p d = (p.assets.1 ≡ d) ⊎ (p.unwrapped_assets.1 ≡ d)

-- No form of one side is a form of the other.
pub record SidesDiffer (p : SwapMarketPair) : Type 0 where
  pub assets : p.assets.0 ≢ p.assets.1
  pub left_unwrapped : p.unwrapped_assets.0 ≢ p.assets.1
  pub right_unwrapped : p.assets.0 ≢ p.unwrapped_assets.1
  pub unwrapped : p.unwrapped_assets.0 ≢ p.unwrapped_assets.1

module _ (p : SwapMarketPair) (h : SidesDiffer p) where
  other-left :
      (d : Str) (unwrapped : Bool)
      → OnLeft p d
      → other_denom p d unwrapped ≡ some (if unwrapped then p.unwrapped_assets.1 else p.assets.1)
  unfolding other_denom
  other-left d unwrapped l = ground (arith, ==_iff p.assets.0 d, ==_iff p.unwrapped_assets.0 d)

  other-right :
      (d : Str) (unwrapped : Bool)
      → OnRight p d
      → other_denom p d unwrapped ≡ some (if unwrapped then p.unwrapped_assets.0 else p.assets.0)
  unfolding other_denom
  other-right d unwrapped r = ground (
    arith,
    ==_iff p.assets.0 d,
    ==_iff p.unwrapped_assets.0 d,
    ==_iff p.assets.1 d,
    ==_iff p.unwrapped_assets.1 d,
  )

  other-sides :
      (d e : Str) (unwrapped : Bool)
      → other_denom p d unwrapped ≡ some e
      → (OnLeft p d × OnRight p e) ⊎ (OnRight p d × OnLeft p e)
  unfolding other_denom
  other-sides d e true o = ground (
    arith,
    ==_iff p.assets.0 d,
    ==_iff p.unwrapped_assets.0 d,
    ==_iff p.assets.1 d,
    ==_iff p.unwrapped_assets.1 d,
  )
  other-sides d e _ o = ground (
    arith,
    ==_iff p.assets.0 d,
    ==_iff p.unwrapped_assets.0 d,
    ==_iff p.assets.1 d,
    ==_iff p.unwrapped_assets.1 d,
  )

  -- In a pair where no form of one side, wrapped or unwrapped, is a form of the other, the other
  -- denom of the other denom is on the side of the one given, in the form asked for last.
  other_denom-other_denom :
      (d e : Str) (u v : Bool)
      → other_denom p d u ≡ some e
      → (OnLeft p d × (other_denom p e v ≡ some (if v then p.unwrapped_assets.0 else p.assets.0)))
        ⊎ (OnRight p d
            × (other_denom p e v ≡ some (if v then p.unwrapped_assets.1 else p.assets.1)))
  other_denom-other_denom d e u v o = elim (other-sides d e u o) [
    | inl (l, r) ↦ inl (l, other-right e v r)
    | inr (r, l) ↦ inr (r, other-left e v l)
  ]
