-- ===== src/Pair/Traded.antt =====
-- The volumes of a pair in one of its denoms.
use crownfi_sei_swaps.Prelude.{◌*◌, ◌≡◌, ◌≢◌, ◌↔◌, ◌⊎◌, [], ◌∷◌, arith}
use crownfi_sei_swaps.Text.{Str}
use crownfi_sei_swaps.Text.Laws.{==_iff}
use crownfi_sei_swaps.Text.Sort.{sort_pair-cases}
use crownfi_sei_swaps.Platform.{ok, err, invalid_denom, Volume}
use crownfi_sei_swaps.Pair.{SwapMarketPair}
use crownfi_sei_swaps.Pair.Identity.{IsDerived}
use crownfi_sei_swaps.Pair.Volumes.{asset_volume, NormalizedVolume, normalized_volume}

canon-sides :
    (p : SwapMarketPair)
    → IsDerived p
    → ((p.canon_assets.0 ≡ p.assets.0) × (p.canon_assets.1 ≡ p.assets.1))
      ⊎ ((p.canon_assets.0 ≡ p.assets.1) × (p.canon_assets.1 ≡ p.assets.0))
canon-sides p h = ground (arith, sort_pair-cases p.assets.0 p.assets.1, h.canonical)

-- For a pair whose canonical assets, shares denom and valid assets are what the constructor
-- derives from its assets, the volume normalized to a denom is twice the volume that the pair
-- reports for that denom, over the same period; it throws exactly for a denom that is neither of
-- the pair's assets, as an invalid denom.
pub normalized_volume_lem :
    (p : SwapMarketPair) (denom : Str) (v : Volume)
    → IsDerived p
    → ((r : NormalizedVolume)
        → normalized_volume p denom v ≡ ok r
        → ((((asset_volume p v).coins.0.denom ≡ denom)
              × (r.amount ≡ (asset_volume p v).coins.0.amount * 2))
            ⊎ (((asset_volume p v).coins.1.denom ≡ denom)
                × (r.amount ≡ (asset_volume p v).coins.1.amount * 2)))
          × (r.from ≡ (asset_volume p v).from)
          × (r.to ≡ (asset_volume p v).to))
      × ((normalized_volume p denom v
            ≡ err (invalid_denom denom (p.canon_assets.0 ∷ p.canon_assets.1 ∷ [])))
          ↔ ((denom ≢ p.assets.0) × (denom ≢ p.assets.1)))
unfolding normalized_volume asset_volume
normalized_volume_lem p denom v h = (
  λ r e. ground (arith, ==_iff p.canon_assets.0 denom, ==_iff p.canon_assets.1 denom),
  ground (arith, ==_iff p.canon_assets.0 denom, ==_iff p.canon_assets.1 denom, canon-sides p h),
)
