-- ===== src/Market/Loading.antt =====
-- `refresh` keeps the tables of a market consistent, whatever the order of the queries' answers
-- and wherever one is rejected.
use crownfi_sei_swaps.Prelude.{
  ℕ, ◌+◌, ◌≡◌, ◌⊎◌, inl, inr, refl, sym, ap, ◌∙◌, subst, Bool, true, false, List, [], ◌∷◌, none,
  some, arith, In, Option-cases, Bool-cases,
}
use crownfi_sei_swaps.Text.{Str, ◌==◌}
use crownfi_sei_swaps.Text.Laws.{==_iff}
use crownfi_sei_swaps.Text.Split.{join_key, Lacks}
use crownfi_sei_swaps.Text.Sort.{sort_pair}
use crownfi_sei_swaps.Platform.{ok, Result-cases, Env, Clock, CreatedPair}
use crownfi_sei_swaps.Platform.Dict.{Dict, lookup, insert, lookup-insert, lookup-insert_ne}
use crownfi_sei_swaps.Wrapper.Multi.{MultiTokenWrapper, normalize_to_unwrapped_denom}
use crownfi_sei_swaps.Pair
use crownfi_sei_swaps.Pair.{SwapMarketPair}
use crownfi_sei_swaps.Pair.Identity.{create-IsCreated, refresh-SameIdentity}
use crownfi_sei_swaps.Market.{
  SwapMarket, new_market, note_unwrapped, add_pair, refresh_one, refresh_all, refresh,
}
use crownfi_sei_swaps.Market.Consistency.{IsDict, IsConsistent}

insert-IsDict :
    (key : Str) (p : SwapMarketPair) (d : Dict SwapMarketPair) → IsDict d → IsDict (insert key p d)
unfolding insert lookup
insert-IsDict key p [] h = (refl, tt)
insert-IsDict key p ((k, q) ∷ d) (new, h) = elim (Bool-cases (k == key)) [
  | inl same ↦ rw same (new, h)
  | inr other ↦
      let differ : (key == k) ≡ false = ground (arith, ==_iff key k, ==_iff k key) in
      rw other (lookup-insert_ne key k p d differ ∙ new, insert-IsDict key p d h)
]

-- The answers of the contracts that a market relies on: the denoms of a pair's contract never
-- change, are tradable and hold no NUL; the factory lists a pair under its sorted denoms; and the
-- unwrapped form of a tradable denom is the denom itself, or a denom that no pair trades.
pub record KeepsTo (env : Env) (clock : Clock) (w : MultiTokenWrapper) (tradable : Str → Bool)
    (denoms : Str → Str × Str) : Type 0 where
  pub pair_denoms :
      (n : ℕ) (address : Str) (d : Str × Str)
      → (clock n).pair_denoms address ≡ ok d
      → d ≡ denoms address
  pub listed :
      (n : ℕ) (factory : Str) (infos : List CreatedPair) (info : CreatedPair)
      → (clock n).pairs factory ≡ ok infos
      → In info infos
      → info.canonical_pair ≡ sort_pair (denoms info.address)
  pub plain : (address : Str) → Lacks 0 (denoms address).0 × Lacks 0 (denoms address).1
  pub traded :
      (address : Str) → (tradable (denoms address).0 ≡ true) × (tradable (denoms address).1 ≡ true)
  pub unwrapped :
      (n : ℕ) (d u : Str)
      → tradable d ≡ true
      → normalize_to_unwrapped_denom w env (clock n) d ≡ ok u
      → (u ≡ d) ⊎ (tradable u ≡ false)

module _ (tradable : Str → Bool) where
  -- A pair under its key, with tradable assets.
  record IsPlaced (key : Str) (p : SwapMarketPair) : Type 0 where
    canonical : p.canon_assets ≡ sort_pair p.assets
    keyed : key ≡ join_key p.canon_assets.0 p.canon_assets.1
    plain : Lacks 0 p.assets.0 × Lacks 0 p.assets.1
    traded : (tradable p.assets.0 ≡ true) × (tradable p.assets.1 ≡ true)

  -- The table leads from denoms that no pair trades to tradable ones.
  abbrev IsTable : Dict Str → Type 0
  IsTable table = (d w : Str) → lookup d table ≡ some w → (tradable d ≡ false) × (tradable w ≡ true)

  record IsClassified (m : SwapMarket) : Type 0 where
    dict : IsDict m.asset_pair_map
    entries :
        (key : Str) (p : SwapMarketPair) → lookup key m.asset_pair_map ≡ some p → IsPlaced key p
    table : IsTable m.unwrapped_to_wrapped

  not_in_table :
      (table : Dict Str) (d : Str) → IsTable table → tradable d ≡ true → lookup d table ≡ none
  not_in_table table d h t = elim (Option-cases (lookup d table)) [
    | inl missing ↦ missing
    | inr (w, found) ↦ absurd (ground (arith, h d w found))
  ]

  IsClassified-IsConsistent : (m : SwapMarket) → IsClassified m → IsConsistent m
  IsClassified-IsConsistent m h = record {
    dict = h.dict;
    entries = λ key p found.
        let e = h.entries key p found in
        record {
          canonical = e.canonical;
          keyed = e.keyed;
          plain0 = e.plain.0;
          plain1 = e.plain.1;
          wrapped0 = not_in_table m.unwrapped_to_wrapped p.assets.0 h.table e.traded.0;
          wrapped1 = not_in_table m.unwrapped_to_wrapped p.assets.1 h.table e.traded.1;
        };
    settled = λ d w found. not_in_table m.unwrapped_to_wrapped w h.table (h.table d w found).1;
  }

  insert-IsPlaced :
      (d : Dict SwapMarketPair) (k : Str) (q : SwapMarketPair)
      → ((key : Str) (p : SwapMarketPair) → lookup key d ≡ some p → IsPlaced key p)
      → IsPlaced k q
      → (key : Str) (p : SwapMarketPair) → lookup key (insert k q d) ≡ some p
      → IsPlaced key p
  insert-IsPlaced d k q h placed key p found =
      let e = sym (lookup-insert k key q d) ∙ found in
      elim (Bool-cases (k == key)) [
        | inl same ↦
            let at : q ≡ p = some_injective (ground arith) in
            subst (λ x. IsPlaced x p) ((==_iff k key).0 same) (subst (IsPlaced k) at placed)
        | inr other ↦ h key p (ground arith)
      ]
    where
      some_injective : {a b : SwapMarketPair} → some a ≡ some b → a ≡ b
      some_injective h = cc

  note_unwrapped-IsTable :
      (asset unwrapped : Str) (table : Dict Str)
      → IsTable table
      → tradable asset ≡ true
      → (unwrapped ≡ asset) ⊎ (tradable unwrapped ≡ false)
      → IsTable (note_unwrapped asset unwrapped table)
  note_unwrapped-IsTable asset unwrapped table h t u d w found = ground (
    arith,
    ==_iff asset unwrapped,
    ==_iff unwrapped d,
    lookup-insert unwrapped d asset table,
    h d w,
  )

  module _ (env : Env) (clock : Clock) (w : MultiTokenWrapper) (denoms : Str → Str × Str)
      (k : KeepsTo env clock w tradable denoms) where
    create-IsPlaced :
        (n : ℕ) (info : CreatedPair) (p : SwapMarketPair)
        → info.canonical_pair ≡ sort_pair (denoms info.address)
        → Pair.create env clock n info.address w ≡ ok p
        → IsPlaced (join_key info.canonical_pair.0 info.canonical_pair.1) p
          × ((p.unwrapped_assets.0 ≡ p.assets.0) ⊎ (tradable p.unwrapped_assets.0 ≡ false))
          × ((p.unwrapped_assets.1 ≡ p.assets.1) ⊎ (tradable p.unwrapped_assets.1 ≡ false))
    create-IsPlaced n info p listed e =
        let c = create-IsCreated env clock n info.address w p e in
        let same : p.assets ≡ denoms info.address =
          k.pair_denoms (n + 2) info.address p.assets c.assets in
        let traded =
          subst (λ (a : Str × Str). (tradable a.0 ≡ true) × (tradable a.1 ≡ true)) (sym same)
            (k.traded info.address) in
        (
          record {
            canonical = c.derived.canonical;
            keyed =
                ap (λ (q : Str × Str). join_key q.0 q.1)
                  (listed ∙ sym (c.derived.canonical ∙ ap sort_pair same));
            plain =
                subst (λ (a : Str × Str). Lacks 0 a.0 × Lacks 0 a.1) (sym same)
                  (k.plain info.address);
            traded = traded;
          },
          k.unwrapped (n + 3) p.assets.0 p.unwrapped_assets.0 traded.0 c.unwrapped0,
          k.unwrapped (n + 4) p.assets.1 p.unwrapped_assets.1 traded.1 c.unwrapped1,
        )

    -- What the loop keeps of the market.
    abbrev Good : SwapMarket → Type 0
    Good m = IsClassified m × (m.token_wrapper ≡ w)

    refreshed-IsPlaced :
        (n : ℕ) (key : Str) (p : SwapMarketPair)
        → IsPlaced key p
        → IsPlaced key (Pair.refresh clock n p).0
    refreshed-IsPlaced n key p h =
        let s = refresh-SameIdentity clock n p in
        record {
          canonical = s.canon_assets ∙ h.canonical ∙ ap sort_pair (sym s.assets);
          keyed = h.keyed ∙ ap (λ (q : Str × Str). join_key q.0 q.1) (sym s.canon_assets);
          plain = subst (λ (a : Str × Str). Lacks 0 a.0 × Lacks 0 a.1) (sym s.assets) h.plain;
          traded =
              subst (λ (a : Str × Str). (tradable a.0 ≡ true) × (tradable a.1 ≡ true))
                (sym s.assets) h.traded;
        }

    add_pair-Good :
        (m : SwapMarket) (key : Str) (p : SwapMarketPair)
        → Good m
        → IsPlaced key p
        → (p.unwrapped_assets.0 ≡ p.assets.0) ⊎ (tradable p.unwrapped_assets.0 ≡ false)
        → (p.unwrapped_assets.1 ≡ p.assets.1) ⊎ (tradable p.unwrapped_assets.1 ≡ false)
        → Good (add_pair key p m)
    unfolding add_pair
    add_pair-Good m key p (h, same) placed u0 u1 = (
      record {
        dict = insert-IsDict key p m.asset_pair_map h.dict;
        entries = insert-IsPlaced m.asset_pair_map key p h.entries placed;
        table =
            note_unwrapped-IsTable p.assets.1 p.unwrapped_assets.1 _
              (note_unwrapped-IsTable p.assets.0 p.unwrapped_assets.0 _ h.table placed.traded.0 u0)
              placed.traded.1 u1;
      },
      same,
    )

    pair_refreshed-Good :
        (n : ℕ) (m : SwapMarket) (key : Str) (p : SwapMarketPair)
        → lookup key m.asset_pair_map ≡ some p
        → Good m
        → Good
            (record m { asset_pair_map = insert key (Pair.refresh clock n p).0 m.asset_pair_map })
    pair_refreshed-Good n m key p found (h, same) = (
      record {
        dict = insert-IsDict key _ m.asset_pair_map h.dict;
        entries =
            insert-IsPlaced m.asset_pair_map key _ h.entries
              (refreshed-IsPlaced n key p (h.entries key p found));
        table = h.table;
      },
      same,
    )

    refresh_one-Good :
        (n : ℕ) (m : SwapMarket) (info : CreatedPair)
        → info.canonical_pair ≡ sort_pair (denoms info.address)
        → Good m
        → Good (refresh_one env clock n m info).0
    unfolding refresh_one
    refresh_one-Good n m info listed (h, same) =
        let key = join_key info.canonical_pair.0 info.canonical_pair.1 in
        elim (Option-cases (lookup key m.asset_pair_map)) [
          | inl missing ↦
              elim (Result-cases (Pair.create env clock n info.address m.token_wrapper)) [
                | inr (e, failed) ↦ rw (missing, failed, refresh_one) (h, same)
                | inl (p, created) ↦
                    let made = ap (Pair.create env clock n info.address) (sym same) ∙ created in
                    let (placed, u0, u1) = create-IsPlaced n info p listed made in
                    rw (missing, created, refresh_one)
                      (add_pair-Good m key p (h, same) placed u0 u1)
              ]
          | inr (p, found) ↦ rw (found, refresh_one) (pair_refreshed-Good n m key p found (h, same))
        ]

    refresh_all-Good :
        (n : ℕ) (m : SwapMarket) (infos : List CreatedPair)
        → ((info : CreatedPair)
            → In info infos
            → info.canonical_pair ≡ sort_pair (denoms info.address))
        → Good m
        → Good (refresh_all env clock n m infos).0
    unfolding refresh_all
    refresh_all-Good n m [] listed good = good
    refresh_all-Good n m (info ∷ infos) listed good =
        let (m', r) = refresh_one env clock n m info in
        let once : Good m' = refresh_one-Good n m info (listed info (inl refl)) good in
        elim (Result-cases r) [
          | inr (e, failed) ↦ rw (failed, refresh_all) once
          | inl (u, done) ↦
              rw (done, refresh_all)
                (refresh_all-Good (n + 6) m' infos (λ i h. listed i (inr h)) once)
        ]

    refresh-Good : (n : ℕ) (m : SwapMarket) → Good m → Good (refresh env clock n m).0
    unfolding refresh
    refresh-Good n m good = elim (Result-cases ((clock n).pairs m.factory_contract)) [
      | inr (e, failed) ↦ rw (failed, refresh) good
      | inl (infos, answered) ↦
          rw (answered, refresh)
            (refresh_all-Good (n + 1) m infos
              (λ info h. k.listed n m.factory_contract infos info answered h) good)
    ]

-- The markets that the constructor produces, and then any number of calls of `refresh`, of the
-- market or of one of its pairs.
pub data Reachable (env : Env) (clock : Clock) (w : MultiTokenWrapper) : SwapMarket → Type 0 where
  constructed :
      (factory router : Str)
      → Reachable env clock w (new_market factory router w.cw20_wrapper w.erc20_wrapper)
  refreshed :
      {m : SwapMarket} (n : ℕ)
      → Reachable env clock w m
      → Reachable env clock w (refresh env clock n m).0
  -- a caller refreshes a pair that it was handed, which is the market's own object
  pair_refreshed :
      {m : SwapMarket} (n : ℕ) (key : Str) (p : SwapMarketPair)
      → Reachable env clock w m
      → lookup key m.asset_pair_map ≡ some p
      → Reachable env clock w
          (record m { asset_pair_map = insert key (Pair.refresh clock n p).0 m.asset_pair_map })

new_market-Good :
    (tradable : Str → Bool) (w : MultiTokenWrapper) (factory router : Str)
    → IsClassified tradable (new_market factory router w.cw20_wrapper w.erc20_wrapper)
      × ((new_market factory router w.cw20_wrapper w.erc20_wrapper).token_wrapper ≡ w)
unfolding new_market lookup
new_market-Good tradable w factory router = (
  record {
    dict = tt;
    entries = λ key p found. absurd (ground arith);
    table = λ d v found. absurd (ground arith);
  },
  refl,
)

Reachable-Good :
    (env : Env) (clock : Clock) (w : MultiTokenWrapper) (tradable : Str → Bool)
    (denoms : Str → Str × Str) (m : SwapMarket)
    → KeepsTo env clock w tradable denoms
    → Reachable env clock w m
    → IsClassified tradable m × (m.token_wrapper ≡ w)
Reachable-Good env clock w tradable denoms m k (constructed factory router) =
    new_market-Good tradable w factory router
Reachable-Good env clock w tradable denoms m k (refreshed {m = before} n r) =
    refresh-Good tradable env clock w denoms k n before
      (Reachable-Good env clock w tradable denoms before k r)
Reachable-Good env clock w tradable denoms m k (pair_refreshed {m = before} n key p r found) =
    pair_refreshed-Good tradable env clock w denoms k n before key p found
      (Reachable-Good env clock w tradable denoms before k r)

-- Where the contracts' answers keep to what a market relies on, its tables are consistent after
-- the constructor and any number of calls of `refresh`, of the market or of one of its pairs, also
-- of calls that were rejected half-way.
pub Reachable-IsConsistent :
    (env : Env) (clock : Clock) (w : MultiTokenWrapper) (tradable : Str → Bool)
    (denoms : Str → Str × Str) (m : SwapMarket)
    → KeepsTo env clock w tradable denoms
    → Reachable env clock w m
    → IsConsistent m
Reachable-IsConsistent env clock w tradable denoms m k r =
    IsClassified-IsConsistent tradable m (Reachable-Good env clock w tradable denoms m k r).0
