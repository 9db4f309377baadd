-- ===== src/App/Swap/Choices.antt =====
-- swap.ts: which tokens can be swapped, in every state that the component comes to.
use crownfi_sei_swaps.Prelude.{
  ◌≡◌, ◌≢◌, ◌↔◌, ◌⊎◌, inl, inr, refl, sym, ap, subst, ◌∙◌, Bool, true, false, not, ◌&&◌, List, [],
  ◌∷◌, some, arith, In, Bool-cases, if◌then◌else◌,
}
use crownfi_sei_swaps.Text.{Str, ◌==◌}
use crownfi_sei_swaps.Text.Laws.{==_iff, ==_refl}
use crownfi_sei_swaps.Platform.{ok}
use crownfi_sei_swaps.Pair.{SwapMarketPair}
use crownfi_sei_swaps.App.Tokens.{get_tokens_from_pairs}
use crownfi_sei_swaps.App.Tokens.Laws.{Traded, get_tokens_from_pairs_iff, first_two}
use crownfi_sei_swaps.App.Swap.From.{DecimalTexts, SwapFrom, new_from, type_amount, set_disabled}
use crownfi_sei_swaps.App.Swap.{
  Swap, new_swap, new_to, other_tokens, update_token_and_options, connected_callback, select_token,
  set_wallet_connected, set_inputs_disabled,
}
use crownfi_sei_swaps.App.Swap.Uses.{
  Used, opened, selects, token_loads, refreshes, slides, types, amount_changes, simulates, confirms,
  executes, connects,
}
use crownfi_sei_swaps.App.Swap.Kept.{
  Tokens, tokens_of, chosen_of, chosen_of-refresh_balance, chosen_of-on_token_changed,
  chosen_of-update_percentage, chosen_of-update_amount, tokens_of-handle_amount_changed,
  tokens_of-amount_simulated, tokens_of-confirm_swap, tokens_of-swap_executed,
}

not_left : (t a b : Str) → (not (t == a) && not (t == b)) ≡ false → t ≢ a → t ≢ b → ⊥
not_left t a b h k l = ground (arith, (==_iff t a).0, (==_iff t b).0)

In-other_tokens :
    (x a b : Str) (ts : List Str) → In x (other_tokens a b ts) ↔ (In x ts × (x ≢ a) × (x ≢ b))
In-other_tokens x a b [] = (λ h. absurd h, λ (h, k, l). absurd h)
In-other_tokens x a b (t ∷ ts) =
    let (to, from) = In-other_tokens x a b ts in
    elim (Bool-cases (not (t == a) && not (t == b))) [
      | inl kept ↦ rw kept (
        λ h. elim h [
          | inl e ↦ (
            inl e,
            λ k. absurd (ground (arith, kept, (==_iff t a).1 (sym e ∙ k))),
            λ k. absurd (ground (arith, kept, (==_iff t b).1 (sym e ∙ k))),
          )
          | inr m ↦ let (m', k, l) = to m in (inr m', k, l)
        ],
        λ (h, k, l). elim h [ inl e ↦ inl e | inr m ↦ inr (from (m, k, l)) ],
      )
      | inr left ↦ rw left (
        λ h. let (m', k, l) = to h in (inr m', k, l),
        λ (h, k, l). elim h [
          | inl e ↦ absurd (not_left t a b left (λ r. k (e ∙ r)) (λ r. l (e ∙ r)))
          | inr m ↦ from (m, k, l)
        ],
      )
    ]

-- Two different tokens of the pairs are chosen, and each dropdown offers exactly the others.
abbrev pub Chosen : List SwapMarketPair → Tokens → Type 0
Chosen pairs ((from, from_options), (to, to_options), tokens) =
    (a b : Str) × ((from ≡ some a) × (to ≡ some b) × (a ≢ b))
    × (Traded pairs a × Traded pairs b)
    × ((x : Str) → In x from_options ↔ (Traded pairs x × (x ≢ a) × (x ≢ b)))
    × ((to_options ≡ from_options) × (tokens ≡ get_tokens_from_pairs pairs))

choice : Str → Str → List Str → Tokens
choice a b tokens = ((some a, other_tokens a b tokens), (some b, other_tokens a b tokens), tokens)

Chosen-choice :
    (pairs : List SwapMarketPair) (a b : Str)
    → a ≢ b
    → Traded pairs a
    → Traded pairs b
    → Chosen pairs (choice a b (get_tokens_from_pairs pairs))
unfolding choice
Chosen-choice pairs a b h ta tb =
    let tokens = get_tokens_from_pairs pairs in
    (
      a,
      b,
      (refl, refl, h),
      (ta, tb),
      λ x. (
        λ m.
            let (m', k, l) = (In-other_tokens x a b tokens).0 m in
            ((get_tokens_from_pairs_iff x pairs).0 m', k, l),
        λ (t, k, l).
            (In-other_tokens x a b tokens).1 ((get_tokens_from_pairs_iff x pairs).1 t, k, l),
      ),
      (refl, refl),
    )

-- A token other than the chosen ones is chosen on either side; nothing changes for an empty one.
tokens_of-select_from :
    (s : Swap) (denom a b : Str)
    → s.from_token.token ≡ some a
    → s.to_token.token ≡ some b
    → denom ≢ a
    → (tokens_of (select_token true denom s) ≡ choice denom b s.tokens)
      ⊎ (tokens_of (select_token true denom s) ≡ tokens_of s)
unfolding select_token update_token_and_options tokens_of choice
tokens_of-select_from s [] a b f t h = inr (simp (f, t, ==_refl))
tokens_of-select_from s (c ∷ r) a b f t h =
    let other : ((c ∷ r) == a) ≡ false = ground (arith, (==_iff (c ∷ r) a).0) in
    inl (simp (f, t, other))

tokens_of-select_to :
    (s : Swap) (denom a b : Str)
    → s.from_token.token ≡ some a
    → s.to_token.token ≡ some b
    → denom ≢ b
    → (tokens_of (select_token false denom s) ≡ choice a denom s.tokens)
      ⊎ (tokens_of (select_token false denom s) ≡ tokens_of s)
unfolding select_token update_token_and_options tokens_of choice
tokens_of-select_to s [] a b f t h = inr (simp (f, t, ==_refl))
tokens_of-select_to s (c ∷ r) a b f t h =
    let other : ((c ∷ r) == b) ≡ false = ground (arith, (==_iff (c ∷ r) b).0) in
    inl (simp (f, t, other, ==_refl))

Chosen-select_token :
    (pairs : List SwapMarketPair) (s : Swap) (is_from : Bool) (denom : Str)
    → In denom (if is_from then s.from_token.options else s.to_token.options)
    → Chosen pairs (tokens_of s)
    → Chosen pairs (tokens_of (select_token is_from denom s))
unfolding tokens_of
Chosen-select_token pairs s true denom m (a, b, (f, t, h), (ta, tb), offered, (eo, et)) =
    let (td, da, db) = (offered denom).0 m in
    elim (tokens_of-select_from s denom a b f t da) [
      | inl e ↦
          subst (Chosen pairs) (sym (e ∙ ap (choice denom b) et))
            (Chosen-choice pairs denom b db td tb)
      | inr e ↦ subst (Chosen pairs) (sym e) (a, b, (f, t, h), (ta, tb), offered, (eo, et))
    ]
Chosen-select_token pairs s false denom m (a, b, (f, t, h), (ta, tb), offered, (eo, et)) =
    let (td, da, db) = (offered denom).0 (subst (In denom) eo m) in
    elim (tokens_of-select_to s denom a b f t db) [
      | inl e ↦
          subst (Chosen pairs) (sym (e ∙ ap (choice a denom) et))
            (Chosen-choice pairs a denom (λ k. da (sym k)) ta td)
      | inr e ↦ subst (Chosen pairs) (sym e) (a, b, (f, t, h), (ta, tb), offered, (eo, et))
    ]

tokens_of-opened :
    (p : SwapMarketPair) (ps : List SwapMarketPair)
    → p.unwrapped_assets.0 ≢ p.unwrapped_assets.1
    → tokens_of (connected_callback (ok (p ∷ ps)) new_swap).0
      ≡ choice p.unwrapped_assets.0 p.unwrapped_assets.1 (get_tokens_from_pairs (p ∷ ps))
unfolding tokens_of choice connected_callback update_token_and_options new_swap new_from new_to
    set_inputs_disabled set_disabled
tokens_of-opened p ps h = let (rest, e) = first_two p ps h in rw e refl

-- A change of the offered amount's part that leaves its tokens leaves all tokens.
tokens_of-from :
    (s : Swap) (f : SwapFrom)
    → chosen_of f ≡ chosen_of s.from_token
    → tokens_of (record s { from_token = f }) ≡ tokens_of s
unfolding tokens_of chosen_of
tokens_of-from s f e = ap (λ c. (c, (s.to_token.token, s.to_token.options), s.tokens)) e

tokens_of-type_amount :
    (texts : DecimalTexts) (text : Str) (s : Swap)
    → tokens_of (record s { from_token = type_amount texts text s.from_token }) ≡ tokens_of s
unfolding type_amount chosen_of
tokens_of-type_amount texts text s =
    let f = record s.from_token { selected_amount = text } in
    tokens_of-from s _ (chosen_of-update_amount texts _ f)

tokens_of-set_wallet_connected :
    (is_connected : Bool) (s : Swap) → tokens_of (set_wallet_connected is_connected s) ≡ tokens_of s
unfolding tokens_of set_wallet_connected set_inputs_disabled set_disabled
tokens_of-set_wallet_connected is_connected s = refl

kept :
    (p : SwapMarketPair) (ps : List SwapMarketPair) (s s' : Swap)
    → tokens_of s' ≡ tokens_of s
    → Chosen (p ∷ ps) (tokens_of s)
    → Chosen (p ∷ ps) (tokens_of s')
kept p ps s s' e h = subst (Chosen (p ∷ ps)) (sym e) h

-- In every state that the component comes to, however the user's choices and the answers of the
-- network are ordered, if the two tokens of the first pair differ: two different tokens of the
-- pairs are chosen, each dropdown offers exactly the other tokens of the pairs, and the tokens known
-- are those of the pairs.
pub Used-Chosen :
    (texts : DecimalTexts) (p : SwapMarketPair) (ps : List SwapMarketPair) (s : Swap)
    → p.unwrapped_assets.0 ≢ p.unwrapped_assets.1
    → Used texts (p ∷ ps) s
    → Chosen (p ∷ ps) (tokens_of s)
Used-Chosen texts p ps s h opened = subst (Chosen (p ∷ ps)) (sym (tokens_of-opened p ps h)) (
    Chosen-choice (p ∷ ps) p.unwrapped_assets.0 p.unwrapped_assets.1 h (inl (inl refl))
      (inl (inr refl)))
Used-Chosen texts p ps _ h (selects {s} is_from denom u m) =
    Chosen-select_token (p ∷ ps) s is_from denom m (Used-Chosen texts p ps s h u)
Used-Chosen texts p ps _ h (token_loads {s} d b u) =
    kept p ps s _ (tokens_of-from s _ (chosen_of-on_token_changed texts d b s.from_token))
      (Used-Chosen texts p ps s h u)
Used-Chosen texts p ps _ h (refreshes {s} d b u) =
    kept p ps s _ (tokens_of-from s _ (chosen_of-refresh_balance texts d b s.from_token))
      (Used-Chosen texts p ps s h u)
Used-Chosen texts p ps _ h (slides {s} n u) =
    kept p ps s _ (tokens_of-from s _ (chosen_of-update_percentage texts n s.from_token))
      (Used-Chosen texts p ps s h u)
Used-Chosen texts p ps _ h (types {s} text u) =
    kept p ps s _ (tokens_of-type_amount texts text s) (Used-Chosen texts p ps s h u)
Used-Chosen texts p ps _ h (amount_changes {s} details u) =
    kept p ps s _ (tokens_of-handle_amount_changed texts details s) (Used-Chosen texts p ps s h u)
Used-Chosen texts p ps _ h (simulates {s} answer u) =
    kept p ps s _ (tokens_of-amount_simulated texts answer s) (Used-Chosen texts p ps s h u)
Used-Chosen texts p ps _ h (confirms {s} c k u) =
    kept p ps s _ (tokens_of-confirm_swap texts c k s) (Used-Chosen texts p ps s h u)
Used-Chosen texts p ps _ h (executes {s} answer u) =
    kept p ps s _ (tokens_of-swap_executed texts answer s) (Used-Chosen texts p ps s h u)
Used-Chosen texts p ps _ h (connects {s} c u) =
    kept p ps s _ (tokens_of-set_wallet_connected c s) (Used-Chosen texts p ps s h u)
