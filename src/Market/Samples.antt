-- ===== src/Market/Samples.antt =====
-- A market of two pairs for the examples: SEI against ATOM, and a wrapped CW20 token against ATOM.
use crownfi_sei_swaps.Prelude.{
  ℕ, ◌≡◌, refl, sym, ap, subst, ◌∙◌, Bool, true, List, [], ◌∷◌, ◌≢◌, ◌++◌, some, none, arith, In,
  Bool-cases, inl, inr, if◌then◌else◌,
}
use crownfi_sei_swaps.Prelude.Integers.{pos, ◌+ℤ◌}
use crownfi_sei_swaps.Text.{Str, codes, ◌==◌, str_lt, contains, starts_with}
use crownfi_sei_swaps.Text.Laws.{==_iff}
use crownfi_sei_swaps.Text.Split.{join_key}
use crownfi_sei_swaps.Text.Sort.{sort_pair}
use crownfi_sei_swaps.Platform.{ok, ok-injective, CreatedPair, Clock}
use crownfi_sei_swaps.Platform.Dict.{lookup, insert}
use crownfi_sei_swaps.Platform.Samples.{sample_env, sample_chain}
use crownfi_sei_swaps.Wrapper.Denoms.{factory_token_source_matches}
use crownfi_sei_swaps.Wrapper.Cw20
use crownfi_sei_swaps.Wrapper.Erc20
use crownfi_sei_swaps.Wrapper.Multi.{normalize_to_unwrapped_denom}
use crownfi_sei_swaps.Wrapper.Samples.{wrappers, wrapped_cw20}
use crownfi_sei_swaps.Pair.{SwapMarketPair, new_pair, total_fee_basis_points}
use crownfi_sei_swaps.Pair.Exchange.{IsFunded}
use crownfi_sei_swaps.Pair.Samples.{usei, uatom, sample_pair}
use crownfi_sei_swaps.Market.{SwapMarket, new_market, add_pair}
use crownfi_sei_swaps.Market.Consistency.{IsEntry, IsConsistent}
use crownfi_sei_swaps.Market.Loading.{KeepsTo}
use crownfi_sei_swaps.Market.Quotes.{AllFunded}
use crownfi_sei_swaps.Market.Trading.{AllNamed}

abbrev pub token : Str
token = codes "sei1token"

abbrev pub wrapped_pair : SwapMarketPair
wrapped_pair =
    new_pair sample_env (codes "pair2") (300, 900) 10 (pos 20) (wrapped_cw20, uatom) (token, uatom)
      1000 wrappers

abbrev pub key1 : Str
key1 = uatom ++ (0 ∷ usei)

abbrev pub key2 : Str
key2 = wrapped_cw20 ++ (0 ∷ uatom)

abbrev pub sample_market : SwapMarket
sample_market = add_pair key2 wrapped_pair (
    add_pair key1 sample_pair
      (new_market (codes "factory") (codes "router") (codes "cwrap") (codes "ewrap")))

sample_pairs :
    (key : Str)
    → lookup key sample_market.asset_pair_map
      ≡ (if key1 == key then some sample_pair else if key2 == key then some wrapped_pair else none)
unfolding add_pair new_market insert lookup ◌==◌ join_key
sample_pairs key = refl

sample_table :
    (d : Str)
    → lookup d sample_market.unwrapped_to_wrapped ≡ (if token == d then some wrapped_cw20 else none)
unfolding add_pair new_market insert lookup ◌==◌ new_pair
sample_table d = refl

-- An entry of the market is one of the two.
module _ {ℓ} (P : Str → SwapMarketPair → Type ℓ) (first : P key1 sample_pair)
    (second : P key2 wrapped_pair) where
  sample_entries :
      (key : Str) (p : SwapMarketPair) → lookup key sample_market.asset_pair_map ≡ some p → P key p
  sample_entries key p found =
      let e = sym (sample_pairs key) ∙ found in
      elim (Bool-cases (key1 == key)) [
        | inl same ↦
            let at : sample_pair ≡ p = some_injective (ground arith) in
            subst (λ k. P k p) ((==_iff key1 key).0 same) (subst (P key1) at first)
        | inr other ↦ elim (Bool-cases (key2 == key)) [
          | inl same ↦
              let at : wrapped_pair ≡ p = some_injective (ground arith) in
              subst (λ k. P k p) ((==_iff key2 key).0 same) (subst (P key2) at second)
          | inr none_left ↦ absurd (ground arith)
        ]
      ]
    where
      some_injective : {a b : SwapMarketPair} → some a ≡ some b → a ≡ b
      some_injective h = cc

entry1 : IsEntry sample_market key1 sample_pair
unfolding add_pair new_market insert lookup ◌==◌ new_pair sort_pair str_lt join_key
entry1 = record {
  canonical = refl;
  keyed = refl;
  plain0 = ground arith;
  plain1 = ground arith;
  wrapped0 = refl;
  wrapped1 = refl;
}

entry2 : IsEntry sample_market key2 wrapped_pair
unfolding add_pair new_market insert lookup ◌==◌ new_pair sort_pair str_lt join_key
entry2 = record {
  canonical = refl;
  keyed = refl;
  plain0 = ground arith;
  plain1 = ground arith;
  wrapped0 = refl;
  wrapped1 = refl;
}

wrapped_settled : lookup wrapped_cw20 sample_market.unwrapped_to_wrapped ≡ none
unfolding add_pair new_market insert lookup ◌==◌ new_pair
wrapped_settled = refl

sample_settled :
    (d w : Str)
    → lookup d sample_market.unwrapped_to_wrapped ≡ some w
    → lookup w sample_market.unwrapped_to_wrapped ≡ none
sample_settled d w e =
    let e' = sym (sample_table d) ∙ e in
    let at : wrapped_cw20 ≡ w = elim (Bool-cases (token == d)) [
      | inl same ↦ ok_some (ground arith)
      | inr other ↦ absurd (ground arith)
    ] in
    subst (λ x. lookup x sample_market.unwrapped_to_wrapped ≡ none) at wrapped_settled
  where
    ok_some : {a b : Str} → some a ≡ some b → a ≡ b
    ok_some h = cc

pub sample_market-IsConsistent : IsConsistent sample_market
unfolding add_pair new_market insert lookup ◌==◌ join_key
sample_market-IsConsistent = record {
  dict = (refl, (refl, tt));
  entries = sample_entries (IsEntry sample_market) entry1 entry2;
  settled = sample_settled;
}

funded1 : IsFunded sample_pair 30
unfolding new_pair total_fee_basis_points ◌+ℤ◌
funded1 = record {
  deposit0 = omega arith;
  deposit1 = omega arith;
  total_fee = refl;
  fee-le = omega arith;
}

funded2 : IsFunded wrapped_pair 30
unfolding new_pair total_fee_basis_points ◌+ℤ◌
funded2 = record {
  deposit0 = omega arith;
  deposit1 = omega arith;
  total_fee = refl;
  fee-le = omega arith;
}

pub sample_market-AllFunded : AllFunded sample_market
sample_market-AllFunded =
    sample_entries (λ key p. (fee : _) × IsFunded p fee) (30, funded1) (30, funded2)

named1 : sample_pair.contract ≢ []
unfolding new_pair
named1 = λ e. absurd (ground arith)

named2 : wrapped_pair.contract ≢ []
unfolding new_pair
named2 = λ e. absurd (ground arith)

pub sample_market-AllNamed : AllNamed sample_market
sample_market-AllNamed = sample_entries (λ key p. p.contract ≢ []) named1 named2

-- A chain whose factory lists one pair of SEI and ATOM.
abbrev pub listing_clock : Clock
listing_clock n = record sample_chain {
  pairs = λ factory. ok (record { address = codes "pair1"; canonical_pair = (uatom, usei) } ∷ []);
}

abbrev pub tradable : Str → Bool
tradable d = contains (usei ∷ uatom ∷ []) d

abbrev pub denoms_of : Str → Str × Str
denoms_of address = (usei, uatom)

same_pair : {x y : Str × Str} → ok x ≡ ok y → y ≡ x
same_pair h = cc

listing_sorted :
    (infos : List CreatedPair) (info : CreatedPair)
    → ok (record { address = codes "pair1"; canonical_pair = (uatom, usei) } ∷ []) ≡ ok infos
    → In info infos
    → info.canonical_pair ≡ sort_pair (usei, uatom)
unfolding sort_pair str_lt
listing_sorted infos info e m = elim (subst (In info) (sym (ok-injective e)) m) [
  | inl same ↦ ap (λ (i : CreatedPair). i.canonical_pair) same
  | inr none_left ↦ absurd none_left
]

unwrapped_usei :
    (n : ℕ) → normalize_to_unwrapped_denom wrappers sample_env (listing_clock n) usei ≡ ok usei
unfolding normalize_to_unwrapped_denom Cw20.is_wrapped_denom Erc20.is_wrapped_denom
    factory_token_source_matches starts_with
unwrapped_usei n = refl

unwrapped_uatom :
    (n : ℕ) → normalize_to_unwrapped_denom wrappers sample_env (listing_clock n) uatom ≡ ok uatom
unfolding normalize_to_unwrapped_denom Cw20.is_wrapped_denom Erc20.is_wrapped_denom
    factory_token_source_matches starts_with
unwrapped_uatom n = refl

unwrapped_same :
    (n : ℕ) (d u : Str)
    → tradable d ≡ true
    → normalize_to_unwrapped_denom wrappers sample_env (listing_clock n) d ≡ ok u
    → u ≡ d
unwrapped_same n d u t e = elim (Bool-cases (usei == d)) [
  | inl same ↦
      let at = (==_iff usei d).0 same in
      ok-injective (
        sym e
        ∙ subst (λ x. normalize_to_unwrapped_denom wrappers sample_env (listing_clock n) x ≡ ok x)
            at (unwrapped_usei n))
  | inr other ↦
      let at = (==_iff uatom d).0 (ground arith) in
      ok-injective (
        sym e
        ∙ subst (λ x. normalize_to_unwrapped_denom wrappers sample_env (listing_clock n) x ≡ ok x)
            at (unwrapped_uatom n))
]

pub listing-KeepsTo : KeepsTo sample_env listing_clock wrappers tradable denoms_of
unfolding ◌==◌
listing-KeepsTo = record {
  pair_denoms = λ n address d e. same_pair e;
  listed = λ n factory infos info e m. listing_sorted infos info e m;
  plain = λ address. (ground arith, ground arith);
  traded = λ address. (refl, refl);
  unwrapped = λ n d u t e. inl (unwrapped_same n d u t e);
}
