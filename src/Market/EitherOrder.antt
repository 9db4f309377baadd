-- ===== src/Market/EitherOrder.antt =====
-- On a consistent market the order of two denoms does not decide which pair is found.
use crownfi_sei_swaps.Prelude.{
  ◌≡◌, inl, inr, refl, sym, ap, ◌∙◌, subst, true, false, [], ◌∷◌, ◌++◌, some, arith, Option-cases,
}
use crownfi_sei_swaps.Text.{Str, str_lt}
use crownfi_sei_swaps.Text.Split.{join_key, Lacks}
use crownfi_sei_swaps.Text.Sort.{sort_pair, sort_pair-cases, str_lt_asym, str_lt_total}
use crownfi_sei_swaps.Platform.Dict.{lookup}
use crownfi_sei_swaps.Pair.{SwapMarketPair}
use crownfi_sei_swaps.Market.{SwapMarket, wrapped_or, get_pair}
use crownfi_sei_swaps.Market.Consistency.{IsEntry, IsConsistent}

not-Lacks : (u v : Str) → ¬ Lacks 0 (u ++ (0 ∷ v))
not-Lacks [] v (p, h) = p refl
not-Lacks (x ∷ u) v (p, h) = not-Lacks u v h

-- A key made of two texts without NUL was made of no others.
join_key-determined :
    (a b c d : Str) → Lacks 0 c → Lacks 0 d → join_key a b ≡ join_key c d → (a ≡ c) × (b ≡ d)
unfolding join_key
join_key-determined [] b [] d h k e = (refl, cc)
join_key-determined [] b (x ∷ c) d (p, h) k e = absurd (p (cc))
join_key-determined (x ∷ a) b [] d h k e =
    let same : d ≡ a ++ (0 ∷ b) = cc in absurd (not-Lacks a b (subst (Lacks 0) same k))
join_key-determined (x ∷ a) b (y ∷ c) d (p, h) k e =
    let (same, rest) = join_key-determined a b c d h k (cc) in (cc, rest)

sort_pair-sorted : (p : Str × Str) → str_lt (sort_pair p).1 (sort_pair p).0 ≡ false
unfolding sort_pair
sort_pair-sorted (a, b) = ground (arith, str_lt_asym b a)

canon-plain :
    (m : SwapMarket) (key : Str) (p : SwapMarketPair)
    → IsEntry m key p
    → Lacks 0 p.canon_assets.0 × Lacks 0 p.canon_assets.1
canon-plain m key p en =
    subst (λ (q : Str × Str). Lacks 0 q.0 × Lacks 0 q.1) (sym en.canonical)
      (elim (sort_pair-cases p.assets.0 p.assets.1) [
        | inl e ↦
            subst (λ (q : Str × Str). Lacks 0 q.0 × Lacks 0 q.1) (sym e) (en.plain0, en.plain1)
        | inr e ↦
            subst (λ (q : Str × Str). Lacks 0 q.0 × Lacks 0 q.1) (sym e) (en.plain1, en.plain0)
      ])

-- A key of two denoms under which a pair is held has them in the order of code units.
key_sorted :
    (m : SwapMarket) (a b : Str) (p : SwapMarketPair)
    → IsConsistent m
    → lookup (join_key a b) m.asset_pair_map ≡ some p
    → str_lt b a ≡ false
key_sorted m a b p h found =
    let en = h.entries (join_key a b) p found in
    let (plain0, plain1) = canon-plain m (join_key a b) p en in
    let (e0, e1) =
      join_key-determined a b p.canon_assets.0 p.canon_assets.1 plain0 plain1 en.keyed in
    rw (e0, e1, en.canonical) (sort_pair-sorted p.assets)

same_pair :
    (m : SwapMarket) (a b : Str) (p q : SwapMarketPair)
    → IsConsistent m
    → lookup (join_key a b) m.asset_pair_map ≡ some p
    → lookup (join_key b a) m.asset_pair_map ≡ some q
    → some p ≡ some q
same_pair m a b p q h found found' =
    let same : a ≡ b =
      str_lt_total a b (key_sorted m b a q h found') (key_sorted m a b p h found) in
    let keys : join_key a b ≡ join_key b a =
      ap (λ x. join_key x b) same ∙ ap (join_key b) (sym same) in
    sym found ∙ ap (λ k. lookup k m.asset_pair_map) keys ∙ found'

-- With `tryInverse`, `getPair` finds the same pair for two denoms in either order.
pub get_pair_comm :
    (m : SwapMarket) (a b : Str) → IsConsistent m → get_pair m (a, b) true ≡ get_pair m (b, a) true
unfolding get_pair
get_pair_comm m a b h =
    let x = wrapped_or m a in
    let y = wrapped_or m b in
    elim (Option-cases (lookup (join_key x y) m.asset_pair_map)) [
      | inl none1 ↦ elim (Option-cases (lookup (join_key y x) m.asset_pair_map)) [
        | inl none2 ↦ rw (none1, none2) refl
        | inr (q, some2) ↦ rw (none1, some2) refl
      ]
      | inr (p, some1) ↦ elim (Option-cases (lookup (join_key y x) m.asset_pair_map)) [
        | inl none2 ↦ rw (some1, none2) refl
        | inr (q, some2) ↦ rw (some1, some2) (same_pair m x y p q h some1 some2)
      ]
    ]
