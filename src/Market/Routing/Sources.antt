-- ===== src/Market/Routing/Sources.antt =====
-- `getDirectTradeMap`: two denoms can be traded directly exactly if they are the assets of a pair.
use crownfi_sei_swaps.Prelude.{
  ◌≡◌, ◌⊎◌, ◌↔◌, inl, inr, sym, ◌∙◌, subst, List, [], ◌∷◌, ◌++◌, Option, none, some, arith, In,
  In-append_left, In-append_right, if◌then◌else◌, Option-cases, Bool-cases,
}
use crownfi_sei_swaps.Text.{Str, ◌==◌}
use crownfi_sei_swaps.Text.Laws.{==_iff}
use crownfi_sei_swaps.Platform.Dict.{lookup, lookup-insert}
use crownfi_sei_swaps.Pair.{SwapMarketPair}
use crownfi_sei_swaps.Market.{push_trade, direct_trades, get_direct_trade_map}
use crownfi_sei_swaps.Market.Routing.{Trades}
use crownfi_sei_swaps.Market.Routing.Walks.{Edge}

-- The list of a denom, empty if it has none.
abbrev listed : Option (List Str) → List Str
listed none = []
listed (some tos) = tos

lookup-push_trade :
    (from to x : Str) (m : Trades)
    → lookup x (push_trade from to m)
      ≡ (if from == x then some (listed (lookup from m) ++ (to ∷ [])) else lookup x m)
unfolding push_trade
lookup-push_trade from to x m = elim (Option-cases (lookup from m)) [
  | inl missing ↦ rw (missing, push_trade) (lookup-insert from x (to ∷ []) m)
  | inr (tos, found) ↦ rw (found, push_trade) (lookup-insert from x (tos ++ (to ∷ [])) m)
]

In-concat : (b to : Str) (xs : List Str) → In b (xs ++ (to ∷ [])) → In b xs ⊎ (b ≡ to)
In-concat b to [] (inl e) = inr e
In-concat b to [] (inr h) = absurd h
In-concat b to (x ∷ xs) (inl e) = inl (inl e)
In-concat b to (x ∷ xs) (inr h) = elim (In-concat b to xs h) [ inl m ↦ inl (inr m) | inr e ↦ inr e ]

some_injective : {A : Type 0} {a b : A} → some a ≡ some b → a ≡ b
some_injective e = cc

Edge-listed : (m : Trades) (a b : Str) → In b (listed (lookup a m)) → Edge m a b
Edge-listed m a b h = elim (Option-cases (lookup a m)) [
  | inl missing ↦ absurd (subst (λ o. In b (listed o)) missing h)
  | inr (tos, found) ↦ (tos, found, subst (λ o. In b (listed o)) found h)
]

listed-Edge : (m : Trades) (a b : Str) → Edge m a b → In b (listed (lookup a m))
listed-Edge m a b (tos, found, h) = subst (λ o. In b (listed o)) (sym found) h

Edge-push_trade :
    (from to a b : Str) (m : Trades)
    → Edge (push_trade from to m) a b ↔ (Edge m a b ⊎ ((a ≡ from) × (b ≡ to)))
Edge-push_trade from to a b m = elim (Bool-cases (from == a)) [
  | inl same ↦
      let e = (==_iff from a).0 same in
      let now : lookup a (push_trade from to m) ≡ some (listed (lookup from m) ++ (to ∷ [])) =
        lookup-push_trade from to a m ∙ (rw same) in
      (
        λ (tos, found, h).
            elim (In-concat b to (listed (lookup from m))
              (subst (In b) (some_injective (sym found ∙ now)) h)) [
                | inl old ↦ inl (Edge-listed m a b (subst (λ k. In b (listed (lookup k m))) e old))
                | inr new ↦ inr (sym e, new)
              ],
        λ h. elim h [
          | inl edge ↦ (
            _,
            now,
            In-append_left b (listed (lookup from m)) (to ∷ [])
                (subst (λ k. In b (listed (lookup k m))) (sym e) (listed-Edge m a b edge)),
          )
          | inr (_, new) ↦ (_, now, In-append_right b (listed (lookup from m)) (to ∷ []) (inl new))
        ],
      )
  | inr other ↦
      let now : lookup a (push_trade from to m) ≡ lookup a m =
        lookup-push_trade from to a m ∙ (rw other) in
      (
        λ (tos, found, h). inl (tos, sym now ∙ found, h),
        λ h. elim h [
          | inl (tos, found, k) ↦ (tos, now ∙ found, k)
          | inr (e, _) ↦ absurd (ground (arith, ==_iff from a))
        ],
      )
]

-- The assets of a pair, in either order.
abbrev pub TradesOf : SwapMarketPair → Str → Str → Type 0
TradesOf p a b = ((a ≡ p.assets.0) × (b ≡ p.assets.1)) ⊎ ((a ≡ p.assets.1) × (b ≡ p.assets.0))

abbrev pub SomeTrades : List SwapMarketPair → Str → Str → Type 0
SomeTrades [] a b = ⊥
SomeTrades (p ∷ ps) a b = TradesOf p a b ⊎ SomeTrades ps a b

Edge-direct_trades :
    (ps : List SwapMarketPair) (m : Trades) (a b : Str)
    → Edge (direct_trades m ps) a b ↔ (Edge m a b ⊎ SomeTrades ps a b)
unfolding direct_trades
Edge-direct_trades [] m a b = (inl, λ h. elim h [ inl e ↦ e | inr none_left ↦ absurd none_left ])
Edge-direct_trades (p ∷ ps) m a b =
    let m1 = push_trade p.assets.0 p.assets.1 m in
    let m2 = push_trade p.assets.1 p.assets.0 m1 in
    let (to, from) = Edge-direct_trades ps m2 a b in
    let (to2, from2) = Edge-push_trade p.assets.1 p.assets.0 a b m1 in
    let (to1, from1) = Edge-push_trade p.assets.0 p.assets.1 a b m in
    (
      λ h. elim (to h) [
        | inr later ↦ inr (inr later)
        | inl e2 ↦ elim (to2 e2) [
          | inr second ↦ inr (inl (inr second))
          | inl e1 ↦ elim (to1 e1) [ inr first ↦ inr (inl (inl first)) | inl e ↦ inl e ]
        ]
      ],
      λ h. elim h [
        | inl e ↦ from (inl (from2 (inl (from1 (inl e)))))
        | inr (inl (inl first)) ↦ from (inl (from2 (inl (from1 (inr first)))))
        | inr (inl (inr second)) ↦ from (inl (from2 (inr second)))
        | inr (inr later) ↦ from (inr later)
      ],
    )

-- The map lists `b` under `a` exactly if they are the two assets, in either order, of one of the
-- pairs given.
pub get_direct_trade_map-Edge :
    (ps : List SwapMarketPair) (a b : Str) → Edge (get_direct_trade_map ps) a b ↔ SomeTrades ps a b
unfolding get_direct_trade_map lookup
get_direct_trade_map-Edge ps a b =
    let (to, from) = Edge-direct_trades ps [] a b in
    (
      λ e. elim (to e) [ inl (tos, found, h) ↦ absurd (ground arith) | inr s ↦ s ],
      λ s. from (inr s),
    )
