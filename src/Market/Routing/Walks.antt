-- ===== src/Market/Routing/Walks.antt =====
-- What the search is about: steps between denoms, chains of steps, and sets of seen denoms.
use crownfi_sei_swaps.Prelude.{
  ℕ, ◌+◌, ◌≤◌, ◌<◌, ◌≡◌, inl, inr, true, false, List, [], ◌∷◌, some, arith, length, In,
  if◌then◌else◌, Bool-cases,
}
use crownfi_sei_swaps.Text.{Str, ◌==◌, contains}
use crownfi_sei_swaps.Text.Laws.{==_iff, ==_refl}
use crownfi_sei_swaps.Platform.Dict.{lookup}
use crownfi_sei_swaps.Market.Routing.{Route, Trades}

-- `b` is listed among the denoms that `a` can be traded with directly.
abbrev pub Edge : Trades → Str → Str → Type 0
Edge trades a b = (tos : List Str) × (lookup a trades ≡ some tos) × In b tos

-- A walk of one or more steps.
pub data Walk (trades : Trades) (to : Str) : Str → Type 0 where
  last : {a : Str} → Edge trades a to → Walk trades to a
  step : {a b : Str} → Edge trades a b → Walk trades to b → Walk trades to a

-- A chain of hops from one denom to another, each a direct trade.
abbrev pub IsChain : Trades → Str → Str → Route → Type 0
IsChain trades from to [] = from ≡ to
IsChain trades from to ((a, b) ∷ r) = (a ≡ from) × Edge trades a b × IsChain trades b to r

-- No hop starts at a denom of the set, nor where an earlier hop started.
abbrev pub IsSimple : List Str → Route → Type 0
IsSimple seen [] = Unit
IsSimple seen ((a, b) ∷ r) = (contains seen a ≡ false) × IsSimple (a ∷ seen) r

-- Inclusion of sets.
abbrev pub Within : List Str → List Str → Type 0
Within s t = (x : Str) → contains s x ≡ true → contains t x ≡ true

pub Within-cons : (s : List Str) (a : Str) → Within s (a ∷ s)
Within-cons s a x h = ground arith

pub Within-trans : (s t u : List Str) → Within s t → Within t u → Within s u
Within-trans s t u f g x h = g x (f x h)

pub not-Within :
    (s t : List Str) (x : Str) → Within s t → contains t x ≡ false → contains s x ≡ false
not-Within s t x f h = ground (arith, f x)

pub contains_self : (s : List Str) (a : Str) → contains (a ∷ s) a ≡ true
contains_self s a = ground (arith, ==_refl a)

Within-cons_cons : (s t : List Str) (a : Str) → Within s t → Within (a ∷ s) (a ∷ t)
Within-cons_cons s t a f x h = ground (arith, f x)

pub IsSimple-Within : (s t : List Str) (r : Route) → Within s t → IsSimple t r → IsSimple s r
IsSimple-Within s t [] f h = tt
IsSimple-Within s t ((a, b) ∷ r) f (p, h) =
    (not-Within s t a f p, IsSimple-Within (a ∷ s) (a ∷ t) r (Within-cons_cons s t a f) h)

-- The number of denoms that can be traded and are not in the set.
unfoldable pub unseen : Trades → List Str → ℕ
unseen [] seen = 0
unseen ((k, tos) ∷ m) seen = (if contains seen k then 0 else 1) + unseen m seen

pub unseen-le : (trades : Trades) (s t : List Str) → Within s t → unseen trades t ≤ unseen trades s
unfolding unseen
unseen-le [] s t f = omega arith
unseen-le ((k, tos) ∷ m) s t f = ground (arith, unseen-le m s t f, f k)

pub unseen-lt :
    (trades : Trades) (seen : List Str) (a : Str) (tos : List Str)
    → lookup a trades ≡ some tos
    → contains seen a ≡ false
    → unseen trades (a ∷ seen) < unseen trades seen
unfolding unseen lookup
unseen-lt [] seen a tos e h = absurd (ground arith)
unseen-lt ((k, v) ∷ m) seen a tos e h = elim (Bool-cases (k == a)) [
  | inl same ↦
      let eq = (==_iff k a).0 same in
      let rest = unseen-le m seen (a ∷ seen) (Within-cons seen a) in
      ground (arith, rest, eq, ==_refl a)
  | inr other ↦ let ih = unseen-lt m seen a tos (rw (other, lookup) at e) h in ground (arith, ih)
]

pub unseen-le_length : (trades : Trades) (seen : List Str) → unseen trades seen ≤ length trades
unfolding unseen
unseen-le_length [] seen = omega arith
unseen-le_length ((k, tos) ∷ m) seen = ground (arith, unseen-le_length m seen)

-- A simple chain uses up denoms that were not seen, so it has at most that many hops.
pub length-simple_chain :
    (trades : Trades) (seen : List Str) (from to : Str) (r : Route)
    → IsChain trades from to r
    → IsSimple seen r
    → length r ≤ unseen trades seen
length-simple_chain trades seen from to [] c s = omega arith
length-simple_chain trades seen from to ((a, b) ∷ r) (e, (tos, found, m), c) (fresh, s) = omega (
  arith,
  length-simple_chain trades (a ∷ seen) b to r c s,
  unseen-lt trades seen a tos found fresh,
)
