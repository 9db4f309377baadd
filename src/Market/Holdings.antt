-- ===== src/Market/Holdings.antt =====
-- `hasAsset`: which denoms the market is said to hold.
use crownfi_sei_swaps.Prelude.{
  ℕ, ◌≡◌, ◌≢◌, ◌⊎◌, ◌↔◌, inl, inr, refl, sym, ap, ◌∙◌, subst, true, List, [], ◌∷◌, none, some,
  arith, In, List-cases, Option-cases, Bool-cases,
}
use crownfi_sei_swaps.Text.{Str, ◌==◌}
use crownfi_sei_swaps.Text.Laws.{==_iff, ==_refl, Str-cases}
use crownfi_sei_swaps.Text.Split.{join_key, split, split-join_key}
use crownfi_sei_swaps.Text.Sort.{sort_pair, sort_pair-cases}
use crownfi_sei_swaps.Platform.Dict.{Dict, lookup}
use crownfi_sei_swaps.Pair.{SwapMarketPair}
use crownfi_sei_swaps.Market.{SwapMarket, remove_first, all_known, has_asset_loop, has_asset}
use crownfi_sei_swaps.Market.Consistency.{IsDict, IsEntry, IsConsistent}

-- No text stands twice.
abbrev pub Distinct : List Str → Type 0
Distinct [] = Unit
Distinct (x ∷ xs) = (In x xs → ⊥) × Distinct xs

-- An asset of one of the pairs.
abbrev pub HeldBy : Dict SwapMarketPair → Str → Type 0
HeldBy [] a = ⊥
HeldBy ((k, p) ∷ d) a = ((a ≡ p.assets.0) ⊎ (a ≡ p.assets.1)) ⊎ HeldBy d a

-- The unwrapped form of a denom of the market, whose text is not empty.
abbrev pub HasWrapped : SwapMarket → Str → Type 0
HasWrapped m a = (c : ℕ) × (s : Str) × (lookup a m.unwrapped_to_wrapped ≡ some (c ∷ s))

In-remove_first :
    (a x : Str) (xs : List Str) → Distinct xs → In x (remove_first a xs) ↔ (In x xs × (x ≢ a))
unfolding remove_first
In-remove_first a x [] h = (λ k. absurd k, λ k. k.0)
In-remove_first a x (y ∷ ys) (new, h) = elim (Bool-cases (y == a)) [
  | inl same ↦
      let e : y ≡ a = (==_iff y a).0 same in
      rw same (
        λ k. (inr k, λ at. absurd (new (subst (λ t. In t ys) (at ∙ sym e) k))),
        λ (k, apart). elim k [ inl at ↦ absurd (apart (at ∙ e)) | inr later ↦ later ],
      )
  | inr other ↦
      let (to, from) = In-remove_first a x ys h in
      let apart : y ≢ a = λ at. absurd (ground (arith, ==_iff y a)) in
      rw other (
        λ k. elim k [
          | inl at ↦ (inl at, λ e. apart (sym at ∙ e))
          | inr later ↦ (inr (to later).0, (to later).1)
        ],
        λ (k, ne). elim k [ inl at ↦ inl at | inr later ↦ inr (from (later, ne)) ],
      )
]

Distinct-remove_first : (a : Str) (xs : List Str) → Distinct xs → Distinct (remove_first a xs)
unfolding remove_first
Distinct-remove_first a [] h = tt
Distinct-remove_first a (y ∷ ys) (new, h) = elim (Bool-cases (y == a)) [
  | inl same ↦ rw same h
  | inr other ↦
      rw other ((λ k. new ((In-remove_first a y ys h).0 k).0), Distinct-remove_first a ys h)
]

-- Once both assets of a pair are removed, the others are left.
In-remove_two :
    (a b x : Str) (xs : List Str)
    → Distinct xs
    → In x (remove_first b (remove_first a xs)) ↔ (In x xs × (x ≢ a) × (x ≢ b))
In-remove_two a b x xs h =
    let (to, from) = In-remove_first b x (remove_first a xs) (Distinct-remove_first a xs h) in
    let (to', from') = In-remove_first a x xs h in
    (
      λ k. let (k', nb) = to k in ((to' k').0, (to' k').1, nb),
      λ (k, na, nb). from (from' (k, na), nb),
    )

all_known_iff :
    (m : SwapMarket) (xs : List Str)
    → (all_known m xs ≡ true) ↔ ((x : Str) → In x xs → HasWrapped m x)
all_known_iff m [] = (λ h x k. absurd k, λ h. refl)
all_known_iff m (a ∷ xs) = elim (Option-cases (lookup a m.unwrapped_to_wrapped)) [
  | inl missing ↦ rw missing (λ e. cc, λ f. absurd (is_known missing (f a (inl refl))))
  | inr ([], found) ↦ rw found (λ e. cc, λ f. absurd (is_empty found (f a (inl refl))))
  | inr (c ∷ s, found) ↦
      let (to, from) = all_known_iff m xs in
      rw found (
        λ e x k. elim k [ inl at ↦ (c, s, rw at found) | inr later ↦ to e x later ],
        λ f. from (λ x k. f x (inr k)),
      )
]
  where
    is_known : lookup a m.unwrapped_to_wrapped ≡ none → HasWrapped m a → ⊥
    is_known missing (c, s, found) = absurd (cc)

    is_empty : lookup a m.unwrapped_to_wrapped ≡ some [] → HasWrapped m a → ⊥
    is_empty empty (c, s, found) = absurd (ground (arith, empty, found))

-- The key of a pair is made of its two assets, in one of the two orders.
record IsKeyed (key : Str) (p : SwapMarketPair) : Type 0 where
  parts :
      (split 0 key ≡ p.assets.0 ∷ p.assets.1 ∷ []) ⊎ (split 0 key ≡ p.assets.1 ∷ p.assets.0 ∷ [])

abbrev AllKeyed : Dict SwapMarketPair → Type 0
AllKeyed [] = Unit
AllKeyed ((k, p) ∷ d) = IsKeyed k p × AllKeyed d

abbrev Accepts : SwapMarket → Dict SwapMarketPair → List Str → Type 0
Accepts m d xs = (x : Str) → In x xs → HeldBy d x ⊎ HasWrapped m x

swap_held :
    {x a b : Str} {P Q : Type 0} → (((x ≡ a) ⊎ (x ≡ b)) ⊎ P) ⊎ Q → (((x ≡ b) ⊎ (x ≡ a)) ⊎ P) ⊎ Q
swap_held (inl (inl (inl e))) = inl (inl (inr e))
swap_held (inl (inl (inr e))) = inl (inl (inl e))
swap_held (inl (inr h)) = inl (inr h)
swap_held (inr w) = inr w

-- One round of the loop, over a key whose parts are `a` and `b`.
loop_step :
    (m : SwapMarket) (k : Str) (p : SwapMarketPair) (d : Dict SwapMarketPair) (xs : List Str)
    (a b : Str)
    → Distinct xs
    → split 0 k ≡ a ∷ b ∷ []
    → (has_asset_loop m d (remove_first b (remove_first a xs)) ≡ true)
      ↔ Accepts m d (remove_first b (remove_first a xs))
    → (has_asset_loop m ((k, p) ∷ d) xs ≡ true)
      ↔ ((x : Str) → In x xs → (((x ≡ a) ⊎ (x ≡ b)) ⊎ HeldBy d x) ⊎ HasWrapped m x)
unfolding has_asset_loop
loop_step m k p d xs a b h e (to, from) = elim (List-cases left) [
  | inl empty ↦
      rw (e, has_asset_loop)
        (rw empty (
          λ _ x i. elim (parts x i) [
            | inl part ↦ inl (inl part)
            | inr apart ↦
                absurd (subst (In x) empty ((In-remove_two a b x xs h).1 (i, apart.0, apart.1)))
          ],
          λ _. refl,
        ))
  | inr (y, more, some_left) ↦
      rw (e, has_asset_loop)
        (rw some_left (
          λ t x i. elim (parts x i) [
            | inl part ↦ inl (inl part)
            | inr apart ↦
                elim (to (rw some_left t) x ((In-remove_two a b x xs h).1 (i, apart.0, apart.1))) [
                  | inl held ↦ inl (inr held)
                  | inr w ↦ inr w
                ]
          ],
          λ f.
              subst (λ l. has_asset_loop m d l ≡ true) some_left
                (from (λ x i.
                  let (i', na, nb) = (In-remove_two a b x xs h).0 i in
                  elim (f x i') [
                    | inl (inl (inl at)) ↦ absurd (na at)
                    | inl (inl (inr at)) ↦ absurd (nb at)
                    | inl (inr held) ↦ inl held
                    | inr w ↦ inr w
                  ])),
        ))
]
  where
    left : List Str
    left = remove_first b (remove_first a xs)

    parts : (x : Str) → In x xs → ((x ≡ a) ⊎ (x ≡ b)) ⊎ ((x ≢ a) × (x ≢ b))
    parts x i = elim (Str-cases x a) [
      | inl at ↦ inl (inl at)
      | inr na ↦ elim (Str-cases x b) [
        | inl at ↦ inl (inr at)
        | inr nb ↦
            inr
              (λ at. absurd (ground (arith, ==_iff x a)), λ at. absurd (ground (arith, ==_iff x b)))
      ]
    ]

has_asset_loop_iff :
    (m : SwapMarket) (d : Dict SwapMarketPair) (xs : List Str)
    → AllKeyed d
    → Distinct xs
    → (has_asset_loop m d xs ≡ true) ↔ ((x : Str) → In x xs → HeldBy d x ⊎ HasWrapped m x)
unfolding has_asset_loop
has_asset_loop_iff m [] xs kd h =
    let (to, from) = all_known_iff m xs in
    (λ e x k. inr (to e x k), λ f. from (λ x k. elim (f x k) [ inl e ↦ absurd e | inr w ↦ w ]))
has_asset_loop_iff m ((k, p) ∷ d) xs (kp, kd) h =
    let ih = λ (a b : Str).
      has_asset_loop_iff m d (remove_first b (remove_first a xs)) kd
        (Distinct-remove_first b (remove_first a xs) (Distinct-remove_first a xs h)) in
    elim kp.parts [
      | inl e ↦
          let (to, from) = loop_step m k p d xs p.assets.0 p.assets.1 h e (ih _ _) in (to, from)
      | inr e ↦
          let (to, from) = loop_step m k p d xs p.assets.1 p.assets.0 h e (ih _ _) in
          (λ t x i. swap_held (to t x i), λ f. from (λ x i. swap_held (f x i)))
    ]

IsKeyed-entry : (m : SwapMarket) (key : Str) (p : SwapMarketPair) → IsEntry m key p → IsKeyed key p
IsKeyed-entry m key p en = record {
  parts = elim (sort_pair-cases p.assets.0 p.assets.1) [
    | inl s ↦
        inl (ap (split 0) (keyed_by s) ∙ split-join_key p.assets.0 p.assets.1 en.plain0 en.plain1)
    | inr s ↦
        inr (ap (split 0) (keyed_by s) ∙ split-join_key p.assets.1 p.assets.0 en.plain1 en.plain0)
  ];
}
  where
    keyed_by : {q : Str × Str} → sort_pair p.assets ≡ q → key ≡ join_key q.0 q.1
    keyed_by s = en.keyed ∙ ap (λ (q : Str × Str). join_key q.0 q.1) (en.canonical ∙ s)

AllKeyed-entries :
    (m : SwapMarket) (d : Dict SwapMarketPair)
    → IsDict d
    → ((key : Str) (p : SwapMarketPair) → lookup key d ≡ some p → IsEntry m key p)
    → AllKeyed d
unfolding lookup
AllKeyed-entries m [] h f = tt
AllKeyed-entries m ((k, p) ∷ d) (new, h) f = (
  IsKeyed-entry m k p (f k p (rw (==_refl k) refl)),
  AllKeyed-entries m d h (λ key q found. f key q (ground (arith, found, new, ==_iff k key))),
)

-- On a consistent market, `hasAsset`, asked for denoms that are all different, says yes exactly
-- if each of them is an asset of one of the market's pairs, or the unwrapped form of a denom of the
-- market whose text is not empty.
pub has_asset_iff :
    (m : SwapMarket) (assets : List Str)
    → IsConsistent m
    → Distinct assets
    → (has_asset m assets ≡ true)
      ↔ ((a : Str) → In a assets → HeldBy m.asset_pair_map a ⊎ HasWrapped m a)
unfolding has_asset
has_asset_iff m assets h distinct =
    has_asset_loop_iff m m.asset_pair_map assets
      (AllKeyed-entries m m.asset_pair_map h.dict h.entries) distinct
