-- ===== src/App/Tokens/Laws.antt =====
-- tokens-from-pairs.ts: the tokens are those of the pairs, the first two those of the first pair.
use crownfi_sei_swaps.Prelude.{
  ◌≡◌, ◌≢◌, ◌↔◌, ◌⊎◌, inl, inr, refl, sym, ap, subst, ◌∙◌, true, false, List, [], ◌∷◌, ◌++◌,
  append_assoc, append-nil, arith, In, In-append_left, In-append_right, Bool-cases,
}
use crownfi_sei_swaps.Text.{Str, contains, ◌==◌}
use crownfi_sei_swaps.Text.Laws.{==_iff}
use crownfi_sei_swaps.Pair.{SwapMarketPair}
use crownfi_sei_swaps.App.Tokens.{add, add_tokens, get_tokens_from_pairs}

contains-In : (ts : List Str) (k : Str) → contains ts k ≡ true → In k ts
contains-In [] k h = cc
contains-In (t ∷ ts) k h = elim (Bool-cases (t == k)) [
  | inl same ↦ inl (sym ((==_iff t k).0 same))
  | inr other ↦ inr (contains-In ts k (ground (arith, other)))
]

In-contains : (ts : List Str) (k : Str) → In k ts → contains ts k ≡ true
In-contains (t ∷ ts) k (inl e) = ground (arith, (==_iff t k).1 (sym e))
In-contains (t ∷ ts) k (inr h) = ground (arith, In-contains ts k h)
In-contains [] k h = absurd h

In-append-cases : (t : Str) (xs ys : List Str) → In t (xs ++ ys) → In t xs ⊎ In t ys
In-append-cases t [] ys h = inr h
In-append-cases t (x ∷ xs) ys (inl e) = inl (inl e)
In-append-cases t (x ∷ xs) ys (inr h) = elim (In-append-cases t xs ys h) [
  | inl a ↦ inl (inr a)
  | inr b ↦ inr b
]

In-add : (t k : Str) (ts : List Str) → In t (add k ts) ↔ (In t ts ⊎ (t ≡ k))
unfolding add
In-add t k ts = elim (Bool-cases (contains ts k)) [
  | inl known ↦ rw known (
    λ h. inl h,
    λ h. elim h [ inl m ↦ m | inr e ↦ subst (λ r. In r ts) (sym e) (contains-In ts k known) ],
  )
  | inr new ↦ rw new (
    λ h. elim (In-append-cases t ts (k ∷ []) h) [
      | inl m ↦ inl m
      | inr last ↦ elim last [ inl e ↦ inr e | inr none_left ↦ absurd none_left ]
    ],
    λ h. elim h [
      | inl m ↦ In-append_left t ts (k ∷ []) m
      | inr e ↦ In-append_right t ts (k ∷ []) (inl e)
    ],
  )
]

-- A token that one of the pairs trades.
abbrev pub Traded : List SwapMarketPair → Str → Type 0
Traded [] t = ⊥
Traded (p ∷ ps) t = ((t ≡ p.unwrapped_assets.0) ⊎ (t ≡ p.unwrapped_assets.1)) ⊎ Traded ps t

In-add_tokens :
    (t : Str) (ps : List SwapMarketPair) (ts : List Str)
    → In t (add_tokens ps ts) ↔ (In t ts ⊎ Traded ps t)
unfolding add_tokens
In-add_tokens t [] ts = (λ h. inl h, λ h. elim h [ inl m ↦ m | inr n ↦ absurd n ])
In-add_tokens t (p ∷ ps) ts =
    let (a, b) = p.unwrapped_assets in
    let (to, from) = In-add_tokens t ps (add b (add a ts)) in
    let (to_b, from_b) = In-add t b (add a ts) in
    let (to_a, from_a) = In-add t a ts in
    (
      λ h. elim (to h) [
        | inl m ↦ elim (to_b m) [
          | inl m' ↦ elim (to_a m') [ inl m'' ↦ inl m'' | inr e ↦ inr (inl (inl e)) ]
          | inr e ↦ inr (inl (inr e))
        ]
        | inr m ↦ inr (inr m)
      ],
      λ h. elim h [
        | inl m ↦ from (inl (from_b (inl (from_a (inl m)))))
        | inr m ↦ elim m [
          | inl e ↦ elim e [
            | inl ea ↦ from (inl (from_b (inl (from_a (inr ea)))))
            | inr eb ↦ from (inl (from_b (inr eb)))
          ]
          | inr m' ↦ from (inr m')
        ]
      ],
    )

pub get_tokens_from_pairs_iff :
    (t : Str) (ps : List SwapMarketPair) → In t (get_tokens_from_pairs ps) ↔ Traded ps t
unfolding get_tokens_from_pairs
get_tokens_from_pairs_iff t ps =
    let (to, from) = In-add_tokens t ps [] in
    (λ h. elim (to h) [ inl n ↦ absurd n | inr m ↦ m ], λ h. from (inr h))

add-prefix : (k : Str) (ts : List Str) → (r : List Str) × (add k ts ≡ ts ++ r)
unfolding add
add-prefix k ts = elim (Bool-cases (contains ts k)) [
  | inl known ↦ ([], rw known (sym (append-nil ts)))
  | inr new ↦ (k ∷ [], rw new refl)
]

add_tokens-prefix :
    (ps : List SwapMarketPair) (ts : List Str) → (r : List Str) × (add_tokens ps ts ≡ ts ++ r)
unfolding add_tokens
add_tokens-prefix [] ts = ([], sym (append-nil ts))
add_tokens-prefix (p ∷ ps) ts =
    let a = p.unwrapped_assets.0 in
    let b = p.unwrapped_assets.1 in
    let (r, e) = add-prefix a ts in
    let (q, k) = add-prefix b (add a ts) in
    let (v, l) = add_tokens-prefix ps (add b (add a ts)) in
    (
      r ++ (q ++ v),
      l
          ∙ ap (λ x. x ++ v) k
          ∙ ap (λ x. (x ++ q) ++ v) e
          ∙ append_assoc (ts ++ r) q v
          ∙ append_assoc ts r (q ++ v),
    )

-- The first two tokens are those of the first pair, if they differ.
pub first_two :
    (p : SwapMarketPair) (ps : List SwapMarketPair)
    → p.unwrapped_assets.0 ≢ p.unwrapped_assets.1
    → (rest : List Str) × (get_tokens_from_pairs (p ∷ ps)
        ≡ p.unwrapped_assets.0 ∷ p.unwrapped_assets.1 ∷ rest)
unfolding get_tokens_from_pairs add_tokens add
first_two p ps h =
    let a = p.unwrapped_assets.0 in
    let b = p.unwrapped_assets.1 in
    let new : (a == b) ≡ false = ground (arith, (==_iff a b).0) in
    let (rest, e) = add_tokens-prefix ps (a ∷ b ∷ []) in (rest, rw new e)
