-- ===== src/Wrapper/Denoms.antt =====
-- packages/npm/token-wrapper-sdk/src/common.ts: which contract minted a token factory denom.
use crownfi_sei_swaps.Prelude.{
  ℕ, ◌≡◌, Bool, true, ◌&&◌, [], ◌∷◌, ◌++◌, arith, length, append_assoc, refl, drop, sym, ◌∙◌,
}
use crownfi_sei_swaps.Text.{Str, codes, starts_with, substring}
use crownfi_sei_swaps.Text.Laws.{starts_with-append, drop-append, starts_with_sound, append_cancel}
use crownfi_sei_swaps.Text.Split.{Lacks}
use crownfi_sei_swaps.Platform.{Result, wrapper_denom, guard}

-- `"factory/" + contractAddr + "/"`
abbrev pub denom_prefix : Str → Str
denom_prefix contract_addr = codes "factory/" ++ (contract_addr ++ codes "/")

unfoldable pub factory_token_source_matches : Str → Str → (Str → Bool) → Bool
factory_token_source_matches native_denom contract_addr valid_subdenom_check =
    starts_with (denom_prefix contract_addr) native_denom
    && valid_subdenom_check (substring native_denom (length (denom_prefix contract_addr)))

unfoldable pub assert_factory_token_source_matches : Str → Str → (Str → Bool) → Result (Unit {0})
assert_factory_token_source_matches native_denom contract_addr valid_subdenom_check =
    guard (factory_token_source_matches native_denom contract_addr valid_subdenom_check)
      (wrapper_denom native_denom contract_addr)

-- A denom under the contract's prefix is recognised exactly by its subdenom.
pub factory_token_source_matches-append :
    (addr sub : Str) (check : Str → Bool)
    → factory_token_source_matches (denom_prefix addr ++ sub) addr check ≡ check sub
unfolding factory_token_source_matches
factory_token_source_matches-append addr sub check =
    rw (starts_with-append (denom_prefix addr) sub, drop-append (denom_prefix addr) sub)

-- A denom that is recognised is the prefix and a valid subdenom.
pub factory_token_source_matches_sound :
    (denom addr : Str) (check : Str → Bool)
    → factory_token_source_matches denom addr check ≡ true
    → (sub : Str) × (denom ≡ denom_prefix addr ++ sub) × (check sub ≡ true)
unfolding factory_token_source_matches
factory_token_source_matches_sound denom addr check h = (
  drop (length (denom_prefix addr)) denom,
  starts_with_sound (denom_prefix addr) denom (ground arith),
  ground arith,
)

-- A text without the separator is determined by what stands before the first separator.
pub before_separator :
    (c : ℕ) (a b s t : Str) → Lacks c a → Lacks c b → a ++ (c ∷ s) ≡ b ++ (c ∷ t) → a ≡ b
before_separator c [] [] s t h k e = refl
before_separator c [] (y ∷ b) s t h (p, k) e = absurd (p (cc))
before_separator c (x ∷ a) [] s t (p, h) k e = absurd (p (cc))
before_separator c (x ∷ a) (y ∷ b) s t (p, h) (q, k) e =
    let ih = before_separator c a b s t h k (cc) in cc

-- Two contracts whose addresses hold no slash never recognise the same denom.
pub source_unique :
    (denom a b : Str) (check_a check_b : Str → Bool)
    → Lacks b'/' a
    → Lacks b'/' b
    → factory_token_source_matches denom a check_a ≡ true
    → factory_token_source_matches denom b check_b ≡ true
    → a ≡ b
source_unique denom a b check_a check_b h k p q =
    let (s, es, _) = factory_token_source_matches_sound denom a check_a p in
    let (t, et, _) = factory_token_source_matches_sound denom b check_b q in
    let same : denom_prefix a ++ s ≡ denom_prefix b ++ t = sym es ∙ et in
    before_separator b'/' a b s t h k (
      sym (append_assoc a (codes "/") s)
      ∙ append_cancel (codes "factory/") _ _ same
      ∙ append_assoc b (codes "/") t)
