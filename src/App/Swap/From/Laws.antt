-- ===== src/App/Swap/From/Laws.antt =====
-- from-token.ts: what the slider and the amount field promise of the offered amount.
use crownfi_sei_swaps.Prelude.{ℕ, ◌*◌, ◌/◌, ◌^◌, [], ◌∷◌}
use crownfi_sei_swaps.Text.{Str, codes}

-- What a text that the user types is read as: an empty one counts as "0".
abbrev pub or_zero : Str → Str
or_zero [] = codes "0"
or_zero (c ∷ r) = c ∷ r

-- The percentage that a balance of `b` shows for an amount of `a`.
abbrev shown_units : ℕ → ℕ → ℕ → ℕ
shown_units a b d = a * (100 * 10 ^ d) / b
