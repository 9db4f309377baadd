-- ===== src/Platform/Errors.antt =====
-- packages/npm/sei-swaps-sdk/src/error.ts and packages/npm/token-wrapper-sdk/src/error.ts: the
-- messages of the error classes.
use crownfi_sei_swaps.Prelude.{List, [], ◌∷◌, ◌++◌}
use crownfi_sei_swaps.Text.{Str, codes}

-- `texts.join(separator)`
unfoldable pub join : Str → List Str → Str
join separator [] = []
join separator (t ∷ []) = t
join separator (t ∷ u ∷ ts) = t ++ (separator ++ join separator (u ∷ ts))

-- `InvalidDenomError`
unfoldable pub invalid_denom_text : Str → List Str → Str
unfolding join
invalid_denom_text denom [] =
    codes "Denom " ++ (denom ++ codes " was passed where no denoms where expected")
invalid_denom_text denom (valid ∷ []) =
    codes "Denom " ++ (denom ++ (codes " was passed where " ++ (valid ++ codes " was expected")))
invalid_denom_text denom (valid ∷ valid' ∷ rest) =
    codes "Invalid denom "
    ++ (denom ++ (codes " must be one of: " ++ join (codes ", ") (valid ∷ valid' ∷ rest)))

-- `MarketPairNotFoundError`
unfoldable pub pair_not_found_text : Str × Str → Str
unfolding join
pair_not_found_text pair =
    codes "The trading pair "
    ++ (join (codes "<>") (pair.0 ∷ pair.1 ∷ []) ++ codes " could not be found")

-- `UnsatisfiableSwapRouteError`
unfoldable pub unsatisfiable_route_text : Str → Str → Str
unsatisfiable_route_text from to =
    codes "The swap market has no means to trade between " ++ (from ++ (codes " and " ++ to))

-- `WrapperContractDenomError`
unfoldable pub wrapper_denom_text : Str → Str → Str
wrapper_denom_text denom contract_address =
    codes "The token " ++ (denom ++ (codes " does not belong to contract " ++ contract_address))
