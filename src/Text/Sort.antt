-- ===== src/Text/Sort.antt =====
-- `[a, b].sort()`: the order of code units is total, so the sorted pair forgets the order given.
use crownfi_sei_swaps.Prelude.{◌≡◌, refl, true, false, [], ◌∷◌, arith, eqb_iff, if◌then◌else◌, ◌⊎◌}
use crownfi_sei_swaps.Text.{Str, str_lt}

unfoldable pub sort_pair : Str × Str → Str × Str
sort_pair (a, b) = if str_lt b a then (b, a) else (a, b)

pub str_lt_asym : (s t : Str) → str_lt s t ≡ true → str_lt t s ≡ false
unfolding str_lt
str_lt_asym [] [] h = refl
str_lt_asym [] (b ∷ t) h = refl
str_lt_asym (a ∷ s) [] h = ground arith
str_lt_asym (a ∷ s) (b ∷ t) h = ground (arith, str_lt_asym s t)

pub str_lt_total : (s t : Str) → str_lt s t ≡ false → str_lt t s ≡ false → s ≡ t
unfolding str_lt
str_lt_total [] [] h k = refl
str_lt_total [] (b ∷ t) h k = ground arith
str_lt_total (a ∷ s) [] h k = ground arith
str_lt_total (a ∷ s) (b ∷ t) h k = ground (arith, str_lt_total s t, eqb_iff a b)

pub sort_pair_comm : (a b : Str) → sort_pair (a, b) ≡ sort_pair (b, a)
unfolding sort_pair
sort_pair_comm a b = ground (arith, str_lt_asym a b, str_lt_total a b)

pub sort_pair_idem : (p : Str × Str) → sort_pair (sort_pair p) ≡ sort_pair p
unfolding sort_pair
sort_pair_idem (a, b) = ground (arith, str_lt_asym b a)

-- Sorting gives the pair or its reverse.
pub sort_pair-cases : (a b : Str) → (sort_pair (a, b) ≡ (a, b)) ⊎ (sort_pair (a, b) ≡ (b, a))
unfolding sort_pair
sort_pair-cases a b = ground arith
