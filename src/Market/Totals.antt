-- ===== src/Market/Totals.antt =====
-- The normalized trade volumes of pairs that trade the denom of the valuation themselves.
use crownfi_sei_swaps.Prelude.{
  ℕ, suc, ◌+◌, ◌*◌, ◌≡◌, ◌⊎◌, inl, inr, refl, ap, ◌∙◌, true, false, List, [], ◌∷◌, ◌++◌, map, none,
  some, arith, append_assoc, append-nil, All, if◌then◌else◌, Bool-cases, length,
}
use crownfi_sei_swaps.Text.{Str, ◌==◌}
use crownfi_sei_swaps.Text.Laws.{==_iff}
use crownfi_sei_swaps.Platform.{ok, Clock}
use crownfi_sei_swaps.Platform.Dict.{Dict, lookup, insert, lookup-insert, lookup-insert_self}
use crownfi_sei_swaps.Pair.{SwapMarketPair}
use crownfi_sei_swaps.Pair.Volumes.{AssetVolume}
use crownfi_sei_swaps.Market.{
  SwapMarket, wrapped_of, get_all_pairs, get_direct_trade_map, remove_first,
}
use crownfi_sei_swaps.Market.Routing.{Route, Trades}
use crownfi_sei_swaps.Market.Volumes.{
  VolumeQuery, Hops, canon_key, has_side, chosen_pairs, collect_routes, further_keys, further_pairs,
  query_volumes, volumes_by_key, pair_volume, sum_volumes, prepare, normalized_trade_volume,
}

-- What the theorem asks of a pair: one of its assets is the denom of the valuation, and so is the
-- denom of one of the coins of its key's volume.
pub record IsValued (answers : Str → AssetVolume) (valuation : Str) (p : SwapMarketPair)
    : Type 0 where
  pub side : has_side p valuation ≡ true
  pub coin :
      ((answers (canon_key p)).coins.0.denom ≡ valuation)
      ⊎ ((answers (canon_key p)).coins.1.denom ≡ valuation)

-- One query for each pair, from the n-th on, answers with some volume.
abbrev pub AreAnswered : VolumeQuery → Clock → ℕ → List SwapMarketPair → Type 0
AreAnswered query clock n [] = Unit
AreAnswered query clock n (p ∷ ps) =
    ((v : AssetVolume) × (query p (clock n) ≡ ok v)) × AreAnswered query clock (n + 1) ps

-- One query for each pair, from the n-th on, answers with the volume of the pair's key.
abbrev pub AnswerWith : VolumeQuery → Clock → (Str → AssetVolume) → ℕ → List SwapMarketPair → Type 0
AnswerWith query clock answers n [] = Unit
AnswerWith query clock answers n (p ∷ ps) =
    (query p (clock n) ≡ ok (answers (canon_key p))) × AnswerWith query clock answers (n + 1) ps

-- Twice the volume in the denom of the valuation.
abbrev pub twice : Str → AssetVolume → ℕ
twice valuation v =
    (if v.coins.0.denom == valuation then v.coins.0.amount else v.coins.1.amount) * 2

abbrev pub total : List ((Str × Str) × ℕ) → ℕ
total [] = 0
total ((pair, amount) ∷ rest) = amount + total rest

pub total-append : (xs ys : List ((Str × Str) × ℕ)) → total (xs ++ ys) ≡ total xs + total ys
total-append [] ys = omega arith
total-append ((pair, amount) ∷ xs) ys = omega (arith, total-append xs ys)

remove_first-nil : (a : Str) → remove_first a [] ≡ []
unfolding remove_first
remove_first-nil a = refl

further_keys-nil : (m : SwapMarket) (ps : List SwapMarketPair) → further_keys m ps [] ≡ []
unfolding further_keys
further_keys-nil m [] = refl
further_keys-nil m (p ∷ ps) = rw (remove_first-nil (canon_key p)) (further_keys-nil m ps)

query_volumes-some :
    (query : VolumeQuery) (clock : Clock) (n : ℕ) (ps : List SwapMarketPair)
    → AreAnswered query clock n ps
    → (vs : List AssetVolume) × (query_volumes query clock n ps ≡ ok vs)
unfolding query_volumes
query_volumes-some query clock n [] h = ([], refl)
query_volumes-some query clock n (p ∷ ps) ((v, e), h) =
    let (vs, es) = query_volumes-some query clock (n + 1) ps h in (v ∷ vs, rw (e, es) refl)

query_volumes-answers :
    (query : VolumeQuery) (clock : Clock) (answers : Str → AssetVolume) (n : ℕ)
    (ps : List SwapMarketPair)
    → AnswerWith query clock answers n ps
    → query_volumes query clock n ps ≡ ok (map (λ p. answers (canon_key p)) ps)
unfolding query_volumes
query_volumes-answers query clock answers n [] h = refl
query_volumes-answers query clock answers n (p ∷ ps) (e, h) =
    rw (e, query_volumes-answers query clock answers (n + 1) ps h)

module _ (answers : Str → AssetVolume) (valuation : Str) where
  abbrev Valued : List SwapMarketPair → Type 0
  Valued = All (IsValued answers valuation)

  abbrev answer_of : SwapMarketPair → AssetVolume
  answer_of p = answers (canon_key p)

  -- What the result lists for a pair.
  abbrev pub entry : SwapMarketPair → (Str × Str) × ℕ
  entry p = (p.assets, twice valuation (answer_of p))

  collect_routes-sides :
      (m : SwapMarket) (given : Trades) (ps : List SwapMarketPair) (hops : Hops)
      → Valued ps
      → collect_routes m given valuation ps hops ≡ ok hops
  unfolding collect_routes
  collect_routes-sides m given [] hops h = refl
  collect_routes-sides m given (p ∷ ps) hops (v, h) =
      rw v.side (collect_routes-sides m given ps hops h)

  -- Every volume that is kept is the answer of its key.
  abbrev Faithful : Dict AssetVolume → Type 0
  Faithful d = (key : Str) (v : AssetVolume) → lookup key d ≡ some v → v ≡ answers key

  pair_volume-twice :
      (hops : Dict Route) (volumes : Dict AssetVolume) (p : SwapMarketPair)
      → IsValued answers valuation p
      → pair_volume valuation hops volumes (answer_of p) ≡ ok (twice valuation (answer_of p))
  unfolding pair_volume
  pair_volume-twice hops volumes p h =
      elim (Bool-cases ((answer_of p).coins.0.denom == valuation)) [
        | inl first ↦ rw first refl
        | inr other ↦
            let second : ((answer_of p).coins.1.denom == valuation) ≡ true = ground (
              arith,
              h.coin,
              ==_iff (answer_of p).coins.0.denom valuation,
              ==_iff (answer_of p).coins.1.denom valuation,
            ) in
            rw (other, second) refl
      ]

  -- A key that was inserted stays, with its answer.
  volumes_by_key-keeps :
      (ps : List SwapMarketPair) (d : Dict AssetVolume) (key : Str)
      → lookup key d ≡ some (answers key)
      → lookup key (volumes_by_key ps (map answer_of ps) d) ≡ some (answers key)
  unfolding volumes_by_key
  volumes_by_key-keeps [] d key h = h
  volumes_by_key-keeps (p ∷ ps) d key h =
      volumes_by_key-keeps ps (insert (canon_key p) (answer_of p) d) key
        (lookup-insert (canon_key p) key (answer_of p) d ∙ kept)
    where
      kept : (if canon_key p == key then some (answer_of p) else lookup key d) ≡ some (answers key)
      kept = elim (Bool-cases (canon_key p == key)) [
        | inl same ↦ rw (same, (==_iff (canon_key p) key).0 same) refl
        | inr other ↦ rw other h
      ]

  abbrev Found : Dict AssetVolume → SwapMarketPair → Type 0
  Found d p = lookup (canon_key p) d ≡ some (answer_of p)

  volumes_by_key-Found :
      (ps : List SwapMarketPair) (d : Dict AssetVolume)
      → All (Found (volumes_by_key ps (map answer_of ps) d)) ps
  unfolding volumes_by_key
  volumes_by_key-Found [] d = tt
  volumes_by_key-Found (p ∷ ps) d = (
    volumes_by_key-keeps ps (insert (canon_key p) (answer_of p) d) (canon_key p)
        (lookup-insert_self (canon_key p) (answer_of p) d),
    volumes_by_key-Found ps (insert (canon_key p) (answer_of p) d),
  )

  sum_volumes-entries :
      (hops : Dict Route) (volumes : Dict AssetVolume) (ps : List SwapMarketPair)
      (done : List ((Str × Str) × ℕ)) (t : ℕ)
      → t ≡ total done
      → Valued ps
      → All (Found volumes) ps
      → sum_volumes valuation hops volumes ps done t
        ≡ ok (record {
          pair_volumes = done ++ map entry ps;
          total_volume = total (done ++ map entry ps);
          from = none;
          to = none;
        })
  unfolding sum_volumes
  sum_volumes-entries hops volumes [] done t e h found = rw (append-nil done, e) refl
  sum_volumes-entries hops volumes (p ∷ ps) done t e (v, h) (f, found) =
      let more = done ++ (entry p ∷ []) in
      let step : t + twice valuation (answer_of p) ≡ total more =
        omega (arith, e, total-append done (entry p ∷ [])) in
      rw (f, sum_volumes, pair_volume-twice hops volumes p v)
        (sum_volumes-entries hops volumes ps more (t + twice valuation (answer_of p)) step h found
          ∙ ap
              (λ (es : List ((Str × Str) × ℕ)).
                ok (record { pair_volumes = es; total_volume = total es; from = none; to = none }))
              (append_assoc done (entry p ∷ []) (map entry ps)))

-- If every pair of the market trades the denom of the valuation, both queries of each pair answer,
-- the second ones with the volumes of the pairs' keys, and one coin of each of these is of that
-- denom, the normalized trade volumes are returned, of the second answers whatever the first ones
-- were: for each pair in order twice its volume in that denom, and as the total their sum; but both
-- times are invalid dates.
pub normalized_trade_volume_lem :
    (m : SwapMarket) (query : VolumeQuery) (clock : Clock) (answers : Str → AssetVolume)
    (fuel n : ℕ) (denom : Str)
    → All (IsValued answers (wrapped_of m denom)) (get_all_pairs m)
    → AreAnswered query clock n (get_all_pairs m)
    → AnswerWith query clock answers (n + length (get_all_pairs m)) (get_all_pairs m)
    → let entries = map (entry answers (wrapped_of m denom)) (get_all_pairs m) in
      normalized_trade_volume m query clock (suc fuel) n false denom none
      ≡ ok (record { pair_volumes = entries; total_volume = total entries; from = none; to = none })
unfolding normalized_trade_volume prepare chosen_pairs further_pairs
normalized_trade_volume_lem m query clock answers fuel n denom h first second =
    let ps = get_all_pairs m in
    let valuation = wrapped_of m denom in
    let routes = collect_routes-sides answers valuation m (get_direct_trade_map ps) ps ([], []) h in
    let (firsts, e) = query_volumes-some query clock n ps first in
    rw
      (
        routes,
        further_keys-nil m ps,
        append-nil ps,
        e,
        query_volumes-answers query clock answers (n + length ps) ps second,
      )
      (sum_volumes-entries answers valuation [] _ ps [] 0 refl h
        (volumes_by_key-Found answers valuation ps []))
