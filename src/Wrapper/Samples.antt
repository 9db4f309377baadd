-- ===== src/Wrapper/Samples.antt =====
-- Two wrapper contracts and their denoms, for the examples.
use crownfi_sei_swaps.Prelude.{arith}
use crownfi_sei_swaps.Text.{Str, codes}
use crownfi_sei_swaps.Wrapper.Multi.{MultiTokenWrapper}
use crownfi_sei_swaps.Wrapper.Kinds.{AreDistinct}

abbrev pub wrappers : MultiTokenWrapper
wrappers = record { cw20_wrapper = codes "cwrap"; erc20_wrapper = codes "ewrap" }

pub wrappers-AreDistinct : AreDistinct wrappers
wrappers-AreDistinct = record {
  differ = λ e. absurd (ground arith);
  cw20_plain = ground arith;
  erc20_plain = ground arith;
}

abbrev pub digits : Str
digits = codes "00112233445566778899aabbccddeeff00112233"

abbrev pub wrapped_erc20 : Str
wrapped_erc20 = codes "factory/ewrap/crwn00112233445566778899AABBCCDDEEFF00112233"

abbrev pub wrapped_cw20 : Str
wrapped_cw20 = codes "factory/cwrap/abcdefghijklmnopqrstuvwxyz234567abcdefghijkl"
