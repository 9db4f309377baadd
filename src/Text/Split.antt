-- ===== src/Text/Split.antt =====
-- `join("\0")` on two texts and `split`.
use crownfi_sei_swaps.Prelude.{
  ℕ, ◌≡◌, ◌≢◌, refl, ap, ◌∙◌, List, [], ◌∷◌, ◌++◌, arith, eqb, eqb_iff, if◌then◌else◌,
}
use crownfi_sei_swaps.Text.{Str}

-- `[a, b].join("\0")`
unfoldable pub join_key : Str → Str → Str
join_key a b = a ++ (0 ∷ b)

abbrev pub cons_head : ℕ → List Str → List Str
cons_head c [] = (c ∷ []) ∷ []
cons_head c (w ∷ ws) = (c ∷ w) ∷ ws

-- `s.split(sep)` for a separator of one character
unfoldable pub split : ℕ → Str → List Str
split sep [] = [] ∷ []
split sep (c ∷ s) = let rest = split sep s in if eqb c sep then [] ∷ rest else cons_head c rest

-- The texts that hold no such character.
abbrev pub Lacks : ℕ → Str → Type 0
Lacks c [] = Unit
Lacks c (a ∷ s) = (a ≢ c) × Lacks c s

pub split_of_Lacks : (sep : ℕ) (s : Str) → Lacks sep s → split sep s ≡ s ∷ []
unfolding split
split_of_Lacks sep [] h = refl
split_of_Lacks sep (c ∷ s) (p, h) = ground (arith, split_of_Lacks sep s h, eqb_iff c sep)

pub split-append :
    (sep : ℕ) (s t : Str) → Lacks sep s → split sep (s ++ (sep ∷ t)) ≡ s ∷ split sep t
unfolding split
split-append sep [] t h = ground arith
split-append sep (c ∷ s) t (p, h) = ground (arith, split-append sep s t h, eqb_iff c sep)

-- A key splits into the two texts it was joined from.
pub split-join_key : (a b : Str) → Lacks 0 a → Lacks 0 b → split 0 (join_key a b) ≡ a ∷ b ∷ []
unfolding join_key
split-join_key a b h k = split-append 0 a b h ∙ ap (λ ws. a ∷ ws) (split_of_Lacks 0 b k)
