-- ===== src/App/Farm/Sorting.antt =====
-- farm.ts: the sorting of the list of pools. What an insertion sort promises of any comparison
-- whose answers are an order, and the order of each choice.
use mathlib.Core.List.{Perm, perm_middle}
use mathlib.Core.List.Perm
use crownfi_sei_swaps.Prelude.{
  ℕ, ◌≤◌, ◌≡◌, inl, inr, refl, Bool, true, false, List, [], ◌∷◌, ◌++◌, Option, none, some, arith,
  All, All-mono, Bool-cases,
}
use crownfi_sei_swaps.Prelude.Integers.{◌≤ℤ◌}
use crownfi_sei_swaps.Text.{Str, str_lt}
use crownfi_sei_swaps.Pair.{SwapMarketPair, total_fee_basis_points}
use crownfi_sei_swaps.App.Farm.{
  SortBy, alphabetical, tvd, uvd, apy, fees, Farm, get_share_balance, gt_known, sum_deposits,
  comes_first, insert_pair, sort_pairs, get_sorted_list,
}

-- The list in order: every element stands before those that follow it.
abbrev pub IsOrdered : (SwapMarketPair → SwapMarketPair → Type 0) → List SwapMarketPair → Type 0
IsOrdered Before [] = Unit
IsOrdered Before (p ∷ ps) = All (Before p) ps × IsOrdered Before ps

pub insert_pair-All :
    (first : SwapMarketPair → SwapMarketPair → Bool) (P : SwapMarketPair → Type 0)
    (p : SwapMarketPair) (qs : List SwapMarketPair)
    → P p
    → All P qs
    → All P (insert_pair first p qs)
unfolding insert_pair
insert_pair-All first P p [] h k = (h, tt)
insert_pair-All first P p (q ∷ qs) h (k, ks) = elim (Bool-cases (first p q)) [
  | inl yes_first ↦ rw yes_first (h, (k, ks))
  | inr later ↦ rw later (k, insert_pair-All first P p qs h ks)
]

pub sort_pairs-All :
    (first : SwapMarketPair → SwapMarketPair → Bool) (P : SwapMarketPair → Type 0)
    (ps sorted : List SwapMarketPair)
    → All P ps
    → All P sorted
    → All P (sort_pairs first ps sorted)
unfolding sort_pairs
sort_pairs-All first P [] sorted h k = k
sort_pairs-All first P (p ∷ ps) sorted (hp, h) k =
    sort_pairs-All first P ps (insert_pair first p sorted) h (insert_pair-All first P p sorted hp k)

module _ (first : SwapMarketPair → SwapMarketPair → Bool)
    (Before : SwapMarketPair → SwapMarketPair → Type 0) (Known : SwapMarketPair → Type 0)
    (trans : (a b c : SwapMarketPair) → Before a b → Before b c → Before a c)
    (before : (a b : SwapMarketPair) → first a b ≡ true → Before a b)
    (after : (a b : SwapMarketPair) → Known a → Known b → first a b ≡ false → Before b a) where
  insert_pair-IsOrdered :
      (p : SwapMarketPair) (qs : List SwapMarketPair)
      → Known p
      → All Known qs
      → IsOrdered Before qs
      → IsOrdered Before (insert_pair first p qs)
  unfolding insert_pair
  insert_pair-IsOrdered p [] h ks o = (tt, tt)
  insert_pair-IsOrdered p (q ∷ qs) h (k, ks) (qq, o) = elim (Bool-cases (first p q)) [
    | inl yes_first ↦
        let e = before p q yes_first in
        rw yes_first ((e, All-mono (Before q) (Before p) qs (λ r. trans p q r e) qq), (qq, o))
    | inr later ↦ rw later (
      insert_pair-All first (Before q) p qs (after p q h k later) qq,
      insert_pair-IsOrdered p qs h ks o,
    )
  ]

  sort_pairs-IsOrdered :
      (ps sorted : List SwapMarketPair)
      → All Known ps
      → All Known sorted
      → IsOrdered Before sorted
      → IsOrdered Before (sort_pairs first ps sorted)
  unfolding sort_pairs
  sort_pairs-IsOrdered [] sorted h k o = o
  sort_pairs-IsOrdered (p ∷ ps) sorted (hp, h) k o =
      sort_pairs-IsOrdered ps (insert_pair first p sorted) h
        (insert_pair-All first Known p sorted hp k) (insert_pair-IsOrdered p sorted hp k o)

pub insert_pair-perm :
    (first : SwapMarketPair → SwapMarketPair → Bool) (p : SwapMarketPair) (qs : List SwapMarketPair)
    → Perm (insert_pair first p qs) (p ∷ qs)
unfolding insert_pair
insert_pair-perm first p [] = Perm.refl (p ∷ [])
insert_pair-perm first p (q ∷ qs) = elim (Bool-cases (first p q)) [
  | inl yes_first ↦ rw yes_first (Perm.refl (p ∷ q ∷ qs))
  | inr later ↦ rw later (Perm.trans (Perm.cons q (insert_pair-perm first p qs)) (Perm.swap p q qs))
]

pub sort_pairs-perm :
    (first : SwapMarketPair → SwapMarketPair → Bool) (ps sorted : List SwapMarketPair)
    → Perm (sort_pairs first ps sorted) (ps ++ sorted)
unfolding sort_pairs
sort_pairs-perm first [] sorted = Perm.refl sorted
sort_pairs-perm first (p ∷ ps) sorted =
    Perm.trans (sort_pairs-perm first ps (insert_pair first p sorted))
      (Perm.trans (Perm.append_left ps (insert_pair-perm first p sorted)) (perm_middle ps sorted))

-- The order that each choice promises of a pool and one that stands below it.
abbrev pub Before : Farm → SortBy → SwapMarketPair → SwapMarketPair → Type 0
Before f alphabetical a b = str_lt b.name a.name ≡ false
Before f tvd a b = sum_deposits b ≤ sum_deposits a
Before f uvd a b =
    (n m : ℕ) × (get_share_balance f a ≡ some n) × (get_share_balance f b ≡ some m) × (m ≤ n)
Before f apy a b = total_fee_basis_points a ≤ℤ total_fee_basis_points b
Before f fees a b = total_fee_basis_points a ≤ℤ total_fee_basis_points b

abbrev pub HasBalance : Farm → SwapMarketPair → Type 0
HasBalance f p = (n : ℕ) × (get_share_balance f p ≡ some n)

str_lt_neg_trans : (a b c : Str) → str_lt b a ≡ false → str_lt c b ≡ false → str_lt c a ≡ false
unfolding str_lt
str_lt_neg_trans [] b [] h k = refl
str_lt_neg_trans [] b (z ∷ c) h k = refl
str_lt_neg_trans (x ∷ a) [] c h k = cc
str_lt_neg_trans (x ∷ a) (y ∷ b) [] h k = cc
str_lt_neg_trans (x ∷ a) (y ∷ b) (z ∷ c) h k = ground (arith, str_lt_neg_trans a b c)

str_lt_asym : (a b : Str) → str_lt a b ≡ true → str_lt b a ≡ false
unfolding str_lt
str_lt_asym a [] h = ground arith
str_lt_asym [] (y ∷ b) h = refl
str_lt_asym (x ∷ a) (y ∷ b) h = ground (arith, str_lt_asym a b)

known_unique : (o : Option ℕ) (n m : ℕ) → o ≡ some n → o ≡ some m → n ≡ m
known_unique o n m h k = cc

gt_known_sound :
    (o r : Option ℕ) → gt_known o r ≡ true → (n m : ℕ) × (o ≡ some n) × (r ≡ some m) × (m ≤ n)
gt_known_sound none r h = cc
gt_known_sound (some n) none h = cc
gt_known_sound (some n) (some m) h = (n, m, refl, refl, ground arith)

gt_known-false : (o r : Option ℕ) (n m : ℕ) → o ≡ some n → r ≡ some m → gt_known o r ≡ false → n ≤ m
gt_known-false o r n m h k e = ground (arith, h, k, e)

Before-trans :
    (f : Farm) (sort : SortBy) (a b c : SwapMarketPair)
    → Before f sort a b
    → Before f sort b c
    → Before f sort a c
Before-trans f alphabetical a b c h k = str_lt_neg_trans a.name b.name c.name h k
Before-trans f tvd a b c h k = omega (arith, h, k)
Before-trans f uvd a b c (n, m, en, em, h) (m', k, em', ek, h') =
    (n, k, en, ek, omega (arith, h, h', known_unique (get_share_balance f b) m m' em em'))
Before-trans f apy a b c h k = omega (arith, h, k)
Before-trans f fees a b c h k = omega (arith, h, k)

comes_first-Before :
    (f : Farm) (sort : SortBy) (a b : SwapMarketPair)
    → comes_first f sort a b ≡ true
    → Before f sort a b
unfolding comes_first
comes_first-Before f alphabetical a b h = ground arith
comes_first-Before f tvd a b h = ground arith
comes_first-Before f uvd a b h = gt_known_sound (get_share_balance f a) (get_share_balance f b) h
comes_first-Before f apy a b h = ground arith
comes_first-Before f fees a b h = ground arith

not_first-Before :
    (f : Farm) (sort : SortBy) (a b : SwapMarketPair)
    → HasBalance f a
    → HasBalance f b
    → comes_first f sort a b ≡ false
    → Before f sort b a
unfolding comes_first
not_first-Before f alphabetical a b ha hb h = str_lt_asym b.name a.name (ground arith)
not_first-Before f tvd a b ha hb h = ground arith
not_first-Before f uvd a b (n, en) (m, em) h =
    (m, n, em, en, gt_known-false (get_share_balance f a) (get_share_balance f b) n m en em h)
not_first-Before f apy a b ha hb h = ground arith
not_first-Before f fees a b ha hb h = ground arith

pub get_sorted_list-IsOrdered :
    (f : Farm) (sort : SortBy) (ps : List SwapMarketPair)
    → All (HasBalance f) ps
    → IsOrdered (Before f sort) (get_sorted_list f sort ps)
unfolding get_sorted_list
get_sorted_list-IsOrdered f sort ps h =
    sort_pairs-IsOrdered (comes_first f sort) (Before f sort) (HasBalance f) (Before-trans f sort)
      (comes_first-Before f sort) (not_first-Before f sort) ps [] h tt tt
