-- ===== src/Market/Routing.antt =====
-- packages/npm/sei-swaps-sdk/src/swap_market.ts: `#resolveMultiSwapRoute`, a depth-first search
-- over the denoms that can be traded directly, with one set of denoms already seen. The recursion
-- takes fuel; `Routing.Terminates` shows that one more than the number of denoms is enough.
pub mod Walks
pub mod Terminates
pub mod Complete
pub mod Sources
use crownfi_sei_swaps.Prelude.{
  ℕ, zero, suc, Bool, List, [], ◌∷◌, Option, none, some, length, ltb, if◌then◌else◌,
}
use crownfi_sei_swaps.Text.{Str, ◌==◌, contains}
use crownfi_sei_swaps.Platform.{Result, ok, err, ◌>>=◌, type_error, out_of_fuel}
use crownfi_sei_swaps.Platform.Dict.{Dict, lookup}

abbrev pub Route : Type 0
Route = List (Str × Str)

-- The denoms that can be traded directly, by denom.
abbrev pub Trades : Type 0
Trades = Dict (List Str)

-- The shorter of the route so far and a new one; the older one if they are equally long.
unfoldable pub better : Option Route → Option Route → Option Route
better best none = best
better none (some r) = some r
better (some b) (some r) = if ltb (length r) (length b) then some r else some b

-- `subResult == null ? null : [[from, subResult[0][0]], ...subResult]`
unfoldable pub prepend : Str → Option Route → Result (Option Route)
prepend from none = ok none
prepend from (some []) = err type_error
prepend from (some ((a, b) ∷ r)) = ok (some ((from, a) ∷ (a, b) ∷ r))

-- The loop over the direct neighbours of `from`, which calls the search `go`.
unfoldable pub scan :
    (Str → List Str → Result (Option Route × List Str))
    → (from to : Str) → List Str
    → List Str
    → Option Route
    → Result (Option Route × List Str)
unfolding prepend better
scan go from to [] seen best = do ok ((← prepend from best), seen)
scan go from to (direct_to ∷ rest) seen best =
    if direct_to == to
    then ok (some ((from, to) ∷ []), seen)
    else go direct_to seen >>= (λ (r, seen'). scan go from to rest seen' (better best r))

-- A set is the list of what was added to it.
unfoldable pub search : Trades → ℕ → (from to : Str) → List Str → Result (Option Route × List Str)
unfolding scan
search trades zero from to seen = err out_of_fuel
search trades (suc fuel) from to seen =
    if contains seen from then ok (none, seen) else elim (lookup from trades) [
      | none ↦ ok (none, from ∷ seen)
      | some direct_tos ↦
          scan (λ d s. search trades fuel d to s) from to direct_tos (from ∷ seen) none
    ]

-- The search from an empty set of seen denoms, with fuel for every denom.
unfoldable pub find_route : Trades → (from to : Str) → Result (Option Route)
unfolding search
find_route trades from to = do (r, seen) ← search trades (suc (length trades)) from to []; ok r
