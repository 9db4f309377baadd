-- ===== src/Pair/Samples.antt =====
-- A pair for the examples: a fee of 0.3%, and four ATOM for each SEI.
use crownfi_sei_swaps.Prelude.{ℕ}
use crownfi_sei_swaps.Prelude.Integers.{pos}
use crownfi_sei_swaps.Text.{Str, codes}
use crownfi_sei_swaps.Platform.Samples.{sample_env}
use crownfi_sei_swaps.Wrapper.Samples.{wrappers}
use crownfi_sei_swaps.Pair.{SwapMarketPair, new_pair}

abbrev pub usei : Str
usei = codes "usei"

abbrev pub uatom : Str
uatom = codes "uatom"

-- A pair of native tokens with these deposits and 1000 shares.
abbrev pub native_pair : (contract first second : Str) (deposit0 deposit1 : ℕ) → SwapMarketPair
native_pair contract first second deposit0 deposit1 =
    new_pair sample_env contract (deposit0, deposit1) 10 (pos 20) (first, second) (first, second)
      1000 wrappers

abbrev pub sample_pair : SwapMarketPair
sample_pair = native_pair (codes "pair1") usei uatom 500 2000
