-- ===== src/App/Tokens.antt =====
-- packages/npm/sei-swaps-webapp/src/utils/tokens-from-pairs.ts: the tokens of the pairs, each once.
pub mod Laws
use crownfi_sei_swaps.Prelude.{List, [], ◌∷◌, ◌++◌, if◌then◌else◌}
use crownfi_sei_swaps.Text.{Str, contains}
use crownfi_sei_swaps.Pair.{SwapMarketPair}

-- `tokens.add(token)` on a `Set`, which keeps the order of insertion.
unfoldable pub add : Str → List Str → List Str
add token tokens = if contains tokens token then tokens else tokens ++ (token ∷ [])

unfoldable pub add_tokens : List SwapMarketPair → List Str → List Str
unfolding add
add_tokens [] tokens = tokens
add_tokens (p ∷ ps) tokens =
    add_tokens ps (add p.unwrapped_assets.1 (add p.unwrapped_assets.0 tokens))

unfoldable pub get_tokens_from_pairs : List SwapMarketPair → List Str
unfolding add_tokens
get_tokens_from_pairs pairs = add_tokens pairs []
