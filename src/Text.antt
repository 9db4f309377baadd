-- ===== src/Text.antt =====
-- JavaScript strings, as lists of UTF-16 code units: the operations that the SDKs use.
pub mod Laws
pub mod Split
pub mod Sort
use Prim.Native.Char.{code}
use Prim.Native.String.{String}
use crownfi_sei_swaps.Prelude.{
  ℕ, zero, suc, ◌+◌, ◌-◌, Bool, true, false, ◌&&◌, ◌||◌, List, [], ◌∷◌, ◌++◌, ltb, leb, eqb, length,
  drop, take, if◌then◌else◌,
}

abbrev pub Str : Type 0
Str = List ℕ

-- A literal of ASCII characters.
abbrev pub codes : String → Str
codes String.[] = []
codes (String.◌∷◌ c s) = code c ∷ codes s

infix 50 ◌==◌
unfoldable pub ◌==◌ : Str → Str → Bool
[] == [] = true
(a ∷ s) == (b ∷ t) = eqb a b && (s == t)
_ == _ = false

-- Membership in a list or set of texts.
abbrev pub contains : List Str → Str → Bool
contains [] d = false
contains (x ∷ xs) d = x == d || contains xs d

unfoldable pub starts_with : Str → Str → Bool
starts_with [] s = true
starts_with (a ∷ p) [] = false
starts_with (a ∷ p) (b ∷ s) = eqb a b && starts_with p s

-- `s.substring(n)`
abbrev pub substring : Str → ℕ → Str
substring s n = drop n s

-- `s.substring(0, n)`
abbrev pub substring_to : Str → ℕ → Str
substring_to s n = take n s

unfoldable pub all_chars : (ℕ → Bool) → Str → Bool
all_chars test [] = true
all_chars test (c ∷ s) = test c && all_chars test s

-- [a-z0-9], [a-z2-7], [a-fA-F0-9] and [A-F0-9]
abbrev pub in_range : ℕ → ℕ → ℕ → Bool
in_range lo hi c = leb lo c && leb c hi

abbrev pub lower_alnum : ℕ → Bool
lower_alnum c = in_range b'a' b'z' c || in_range b'0' b'9' c

abbrev pub base32_char : ℕ → Bool
base32_char c = in_range b'a' b'z' c || in_range b'2' b'7' c

abbrev pub hex_char : ℕ → Bool
hex_char c = in_range b'a' b'f' c || (in_range b'A' b'F' c || in_range b'0' b'9' c)

abbrev pub upper_hex_char : ℕ → Bool
upper_hex_char c = in_range b'A' b'F' c || in_range b'0' b'9' c

-- `/^[class]{n}$/.test(s)`
unfoldable pub is_run : (ℕ → Bool) → ℕ → Str → Bool
unfolding all_chars
is_run test n s = eqb (length s) n && all_chars test s

-- `toUpperCase` and `toLowerCase` on ASCII letters.
abbrev pub upper_char : ℕ → ℕ
upper_char c = if in_range b'a' b'z' c then c - 32 else c

unfoldable pub to_upper : Str → Str
to_upper [] = []
to_upper (c ∷ s) = upper_char c ∷ to_upper s

abbrev pub lower_char : ℕ → ℕ
lower_char c = if in_range b'A' b'Z' c then c + 32 else c

unfoldable pub to_lower : Str → Str
to_lower [] = []
to_lower (c ∷ s) = lower_char c ∷ to_lower s

-- The order of code units, by which `Array.prototype.sort` orders strings.
unfoldable pub str_lt : Str → Str → Bool
str_lt s [] = false
str_lt [] (b ∷ t) = true
str_lt (a ∷ s) (b ∷ t) = ltb a b || (eqb a b && str_lt s t)

-- `s.includes(t)`
unfoldable pub includes : Str → Str → Bool
unfolding starts_with
includes s [] = true
includes [] (a ∷ t) = false
includes (b ∷ s) (a ∷ t) = starts_with (a ∷ t) (b ∷ s) || includes s (a ∷ t)
