-- ===== src/Text/Laws.antt =====
-- Equality, prefixes and character classes of texts.
use crownfi_sei_swaps.Prelude.{
  ℕ, suc, ◌≡◌, refl, ap, ◌↔◌, Bool, true, false, [], ◌∷◌, ◌++◌, arith, length, drop, eqb_iff, ◌⊎◌,
}
use crownfi_sei_swaps.Text.{Str, ◌==◌, starts_with, all_chars, to_upper, upper_char}

pub ==_sound : (s t : Str) → (s == t) ≡ true → s ≡ t
unfolding ◌==◌
==_sound [] [] h = refl
==_sound [] (b ∷ t) h = ground arith
==_sound (a ∷ s) [] h = ground arith
==_sound (a ∷ s) (b ∷ t) h = ground (arith, ==_sound s t, eqb_iff a b)

pub ==_refl : (s : Str) → (s == s) ≡ true
unfolding ◌==◌
==_refl [] = refl
==_refl (a ∷ s) = ground (arith, ==_refl s)

pub ==_iff : (s t : Str) → ((s == t) ≡ true) ↔ (s ≡ t)
==_iff s t = (==_sound s t, λ e. subst_eq e)
  where
    subst_eq : s ≡ t → (s == t) ≡ true
    subst_eq e = ground (arith, ==_refl t)

pub ==_sym : (s t : Str) → (s == t) ≡ (t == s)
==_sym s t = ground (arith, ==_iff s t, ==_iff t s)

pub Str-cases : (s t : Str) → (s ≡ t) ⊎ ((s == t) ≡ false)
Str-cases s t = ground (arith, ==_iff s t)

pub starts_with-append : (p s : Str) → starts_with p (p ++ s) ≡ true
unfolding starts_with
starts_with-append [] s = refl
starts_with-append (a ∷ p) s = ground (arith, starts_with-append p s)

pub drop-append : (p s : Str) → drop (length p) (p ++ s) ≡ s
drop-append [] s = refl
drop-append (a ∷ p) s = drop-append p s

pub starts_with_sound : (p s : Str) → starts_with p s ≡ true → s ≡ p ++ drop (length p) s
unfolding starts_with
starts_with_sound [] s h = refl
starts_with_sound (a ∷ p) [] h = ground arith
starts_with_sound (a ∷ p) (b ∷ s) h = ground (arith, starts_with_sound p s, eqb_iff a b)

pub append_cancel : (p s t : Str) → p ++ s ≡ p ++ t → s ≡ t
append_cancel [] s t h = h
append_cancel (a ∷ p) s t h = append_cancel p s t (ap (drop 1) h)

pub length-to_upper : (s : Str) → length (to_upper s) ≡ length s
unfolding to_upper
length-to_upper [] = refl
length-to_upper (c ∷ s) = ap suc (length-to_upper s)

-- Upper case turns a run of one class into a run of another, if it does so for each character.
pub all_chars-to_upper :
    (p q : ℕ → Bool) (s : Str)
    → ((c : ℕ) → p c ≡ true → q (upper_char c) ≡ true)
    → all_chars p s ≡ true
    → all_chars q (to_upper s) ≡ true
unfolding all_chars to_upper
all_chars-to_upper p q [] f h = refl
all_chars-to_upper p q (c ∷ s) f h = ground (arith, f c, all_chars-to_upper p q s f)

pub starts_with-prefix : (p q s : Str) → starts_with p s ≡ false → starts_with (p ++ q) s ≡ false
unfolding starts_with
starts_with-prefix [] q s h = cc
starts_with-prefix (a ∷ p) q [] h = refl
starts_with-prefix (a ∷ p) q (b ∷ s) h = ground (arith, starts_with-prefix p q s)
