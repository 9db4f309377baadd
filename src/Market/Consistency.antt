-- ===== src/Market/Consistency.antt =====
-- When the tables of a market fit together, and what that says of its pairs.
use crownfi_sei_swaps.Prelude.{
  ◌≡◌, ◌⊎◌, inl, inr, refl, sym, ap, ◌∙◌, true, List, [], ◌∷◌, none, some, arith, In, Option-cases,
}
use crownfi_sei_swaps.Text.{Str}
use crownfi_sei_swaps.Text.Laws.{==_iff, ==_refl}
use crownfi_sei_swaps.Text.Split.{join_key, Lacks, split, split-join_key}
use crownfi_sei_swaps.Text.Sort.{sort_pair, sort_pair-cases}
use crownfi_sei_swaps.Platform.Dict.{Dict, lookup, values}
use crownfi_sei_swaps.Pair.{SwapMarketPair}
use crownfi_sei_swaps.Market.{
  SwapMarket, wrapped_or, wrapped_of, get_all_pairs, get_direct_trade_map, get_pair,
}
use crownfi_sei_swaps.Market.Routing.{Trades}
use crownfi_sei_swaps.Market.Routing.Walks.{Edge}
use crownfi_sei_swaps.Market.Routing.Sources.{TradesOf, SomeTrades, get_direct_trade_map-Edge}

-- No key stands twice.
abbrev pub IsDict : Dict SwapMarketPair → Type 0
IsDict [] = Unit
IsDict ((k, p) ∷ d) = (lookup k d ≡ none) × IsDict d

-- An entry of the map of pairs: its key is made of the sorted assets, which hold no NUL, and
-- neither asset is the unwrapped form of another denom.
pub record IsEntry (m : SwapMarket) (key : Str) (p : SwapMarketPair) : Type 0 where
  pub canonical : p.canon_assets ≡ sort_pair p.assets
  pub keyed : key ≡ join_key p.canon_assets.0 p.canon_assets.1
  pub plain0 : Lacks 0 p.assets.0
  pub plain1 : Lacks 0 p.assets.1
  pub wrapped0 : lookup p.assets.0 m.unwrapped_to_wrapped ≡ none
  pub wrapped1 : lookup p.assets.1 m.unwrapped_to_wrapped ≡ none

pub record IsConsistent (m : SwapMarket) : Type 0 where
  pub dict : IsDict m.asset_pair_map
  pub entries :
      (key : Str) (p : SwapMarketPair) → lookup key m.asset_pair_map ≡ some p → IsEntry m key p
  -- a wrapped denom is not itself the unwrapped form of another
  pub settled :
      (d w : Str)
      → lookup d m.unwrapped_to_wrapped ≡ some w
      → lookup w m.unwrapped_to_wrapped ≡ none

pub lookup_of_value :
    (d : Dict SwapMarketPair) (p : SwapMarketPair)
    → IsDict d
    → In p (values d)
    → (key : Str) × (lookup key d ≡ some p)
unfolding values lookup
lookup_of_value [] p h m = absurd m
lookup_of_value ((k, q) ∷ d) p (new, h) (inl e) = (k, rw (==_refl k) (ap some (sym e)))
lookup_of_value ((k, q) ∷ d) p (new, h) (inr m) =
    let (key, found) = lookup_of_value d p h m in (key, ground (arith, found, new, ==_iff k key))

SomeTrades-In :
    (ps : List SwapMarketPair) (a b : Str)
    → SomeTrades ps a b
    → (p : SwapMarketPair) × In p ps × TradesOf p a b
SomeTrades-In [] a b h = absurd h
SomeTrades-In (p ∷ ps) a b (inl t) = (p, inl refl, t)
SomeTrades-In (p ∷ ps) a b (inr s) = let (q, m, t) = SomeTrades-In ps a b s in (q, inr m, t)

join_key-injective :
    (a b c d : Str)
    → Lacks 0 a
    → Lacks 0 b
    → Lacks 0 c
    → Lacks 0 d
    → join_key a b ≡ join_key c d
    → (a ≡ c) × (b ≡ d)
join_key-injective a b c d ha hb hc hd e =
    let same : a ∷ b ∷ [] ≡ c ∷ d ∷ [] =
      sym (split-join_key a b ha hb) ∙ ap (split 0) e ∙ split-join_key c d hc hd in
    (cc, cc)

-- The trades of the market.
abbrev pub market_trades : SwapMarket → Trades
market_trades m = get_direct_trade_map (get_all_pairs m)

module _ (m : SwapMarket) (h : IsConsistent m) where
  -- A step between two denoms comes from an entry of the map.
  pub Edge-entry :
      (a b : Str)
      → Edge (market_trades m) a b
      → (key : Str) × (p : SwapMarketPair) × (lookup key m.asset_pair_map ≡ some p) × TradesOf p a b
  unfolding get_all_pairs
  Edge-entry a b edge =
      let some_trade = (get_direct_trade_map-Edge (get_all_pairs m) a b).0 edge in
      let (p, member, trades) = SomeTrades-In (get_all_pairs m) a b some_trade in
      let (key, found) = lookup_of_value m.asset_pair_map p h.dict member in (key, p, found, trades)

  -- The key of an entry is made of its assets, in one of the two orders.
  entry_key :
      (key : Str) (p : SwapMarketPair)
      → IsEntry m key p
      → (key ≡ join_key p.assets.0 p.assets.1) ⊎ (key ≡ join_key p.assets.1 p.assets.0)
  entry_key key p en = elim (sort_pair-cases p.assets.0 p.assets.1) [
    | inl s ↦ inl (en.keyed ∙ ap (λ (q : Str × Str). join_key q.0 q.1) (en.canonical ∙ s))
    | inr s ↦ inr (en.keyed ∙ ap (λ (q : Str × Str). join_key q.0 q.1) (en.canonical ∙ s))
  ]

  -- An entry found under the key of two denoms has these as its assets, in some order.
  entry_assets :
      (a b : Str) (p : SwapMarketPair)
      → Lacks 0 a
      → Lacks 0 b
      → lookup (join_key a b) m.asset_pair_map ≡ some p
      → TradesOf p a b
  entry_assets a b p ha hb found =
      let en = h.entries (join_key a b) p found in
      elim (entry_key (join_key a b) p en) [
        | inl e ↦ inl (join_key-injective a b p.assets.0 p.assets.1 ha hb en.plain0 en.plain1 e)
        | inr e ↦ inr (join_key-injective a b p.assets.1 p.assets.0 ha hb en.plain1 en.plain0 e)
      ]

  trade_key :
      (a b key : Str) (p : SwapMarketPair)
      → IsEntry m key p
      → TradesOf p a b
      → (key ≡ join_key a b) ⊎ (key ≡ join_key b a)
  trade_key a b key p en t = ground (arith, entry_key key p en)

  -- The facts about the denoms of a trade that an entry gives.
  trade_facts :
      (a b key : Str) (p : SwapMarketPair)
      → IsEntry m key p
      → TradesOf p a b
      → (Lacks 0 a × Lacks 0 b)
        × (lookup a m.unwrapped_to_wrapped ≡ none)
        × (lookup b m.unwrapped_to_wrapped ≡ none)
  trade_facts a b key p en (inl (ea, eb)) =
      rw (ea, eb) ((en.plain0, en.plain1), en.wrapped0, en.wrapped1)
  trade_facts a b key p en (inr (ea, eb)) =
      rw (ea, eb) ((en.plain1, en.plain0), en.wrapped1, en.wrapped0)

  -- On a consistent market every step between two denoms can be looked up: `getPair`, asked for
  -- either order, finds a pair that has them as its assets, and that pair stands in the market's
  -- map.
  pub Edge-pair :
      (a b : Str)
      → Edge (market_trades m) a b
      → (p : SwapMarketPair) × (get_pair m (a, b) true ≡ some p)
        × TradesOf p a b
        × ((key : Str) × (lookup key m.asset_pair_map ≡ some p))
  unfolding get_pair wrapped_or
  Edge-pair a b edge =
      let (key, q, found, t) = Edge-entry a b edge in
      let en = h.entries key q found in
      let ((ha, hb), la, lb) = trade_facts a b key q en t in
      elim (Option-cases (lookup (join_key a b) m.asset_pair_map)) [
        | inr (p, first) ↦
            (p, rw (la, lb, first), entry_assets a b p ha hb first, (join_key a b, first))
        | inl missing ↦ elim (trade_key a b key q en t) [
          | inl same ↦ absurd (ground (arith, found, missing, same))
          | inr inverse ↦
              let second : lookup (join_key b a) m.asset_pair_map ≡ some q =
                ap (λ k. lookup k m.asset_pair_map) (sym inverse) ∙ found in
              (q, rw (la, lb, missing, second), t, (key, found))
        ]
      ]

  -- A denom of the market that can be traded is not the unwrapped form of another.
  pub Edge-wrapped :
      (a b : Str) → Edge (market_trades m) a b → (wrapped_or m a ≡ a) × (wrapped_or m b ≡ b)
  unfolding wrapped_or
  Edge-wrapped a b edge =
      let (key, q, found, t) = Edge-entry a b edge in
      let ((ha, hb), la, lb) = trade_facts a b key q (h.entries key q found) t in (rw la, rw lb)

  -- The wrapped form of a denom is its own wrapped form.
  pub wrapped_or-wrapped_of : (d : Str) → wrapped_or m (wrapped_of m d) ≡ wrapped_of m d
  unfolding wrapped_or wrapped_of
  wrapped_or-wrapped_of d = elim (Option-cases (lookup d m.unwrapped_to_wrapped)) [
    | inl missing ↦ rw (missing, missing)
    | inr (w, found) ↦ rw (found, h.settled d w found)
  ]

  pub wrapped_of-wrapped_of : (d : Str) → wrapped_of m (wrapped_of m d) ≡ wrapped_of m d
  unfolding wrapped_of
  wrapped_of-wrapped_of d = elim (Option-cases (lookup d m.unwrapped_to_wrapped)) [
    | inl missing ↦ rw (missing, missing)
    | inr (w, found) ↦ rw (found, h.settled d w found)
  ]
