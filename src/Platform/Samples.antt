-- ===== src/Platform/Samples.antt =====
-- Concrete surroundings for the examples: simple functions in place of the other packages, and
-- contracts that always give the same answers.
use crownfi_sei_swaps.Prelude.{ℕ, Bool, ◌*◌, ◌/◌, ◌&&◌, true, [], drop, min}
use crownfi_sei_swaps.Text.{Str, codes, starts_with, is_run, hex_char}
use crownfi_sei_swaps.Platform.Results.{Result, ok, err, type_error, rejected}
use crownfi_sei_swaps.Platform.Messages.{Coin, Account, Payload, text, bigint, object, Env}
use crownfi_sei_swaps.Platform.Queries.{Chain, Clock}

abbrev pub sample_base32 : Str
sample_base32 = codes "ABCDEFGHIJKLMNOPQRSTUVWXYZ234567ABCDEFGHIJKLMNOPQRST===="

abbrev pub is_0x_and_digits : Str → Bool
is_0x_and_digits s = starts_with (codes "0x") s && is_run hex_char 40 (drop 2 s)

abbrev pub make_coin : Payload → Str → Result Coin
make_coin (text s) denom = err type_error
make_coin (bigint n) denom = ok (record { denom = denom; amount = n })
make_coin (object c) denom = err type_error

abbrev pub sample_env : Env
sample_env = record {
  canonical_addr = λ s. ok s;
  base32_encode = λ b. sample_base32;
  is_valid_evm_address = is_0x_and_digits;
  checksum_address = λ s. ok s;
  hex_bytes = λ s. s;
  hex_text = λ b. b;
  base64 = λ b. b;
  json_bytes = λ m. codes "json";
  number_text = λ n. codes "0.01";
  text_number = λ s. 1;
  bigint_number = λ z. 1;
  number_mul = λ a b. a * b;
  number_div = λ a b. a / b;
  big_int_min = min;
  coin_of_object = λ c. c;
  coin_of_amount = make_coin;
  denom_le = λ a b. true;
  token_symbol = λ d. d;
}

abbrev pub coin : Str → ℕ → Coin
coin denom amount = record { denom = denom; amount = amount }

abbrev pub alice : Account
alice = record { sei_address = codes "sei1alice"; evm_address = codes "0xA1" }

abbrev pub sample_chain : Chain
sample_chain = record {
  unwrapped_addr_of = λ contract denom. err (rejected (codes "unknown denom"));
  pair_config = λ contract. ok (record { total_fee_bps = 30; maker_fee_bps = 10 });
  total_shares = λ contract. ok 1000;
  pair_denoms = λ contract. ok (codes "usei", codes "uatom");
  share_value = λ contract shares. ok (coin (codes "usei") 500, coin (codes "uatom") 2000);
  pairs = λ contract. ok [];
  simulate_swap = λ contract offer. ok (record {
    maker_fee_amount = 0;
    result_amount = offer.amount * 2;
    spread_amount = 1;
    total_fee_amount = 0;
  });
  simulate_naive_swap = λ contract offer.
      ok (record { maker_fee_amount = 0; result_amount = offer.amount * 3; total_fee_amount = 0 });
  total_volume_sum =
      λ contract. ok (record { from_timestamp_ms = 0; to_timestamp_ms = 1000; volume = (40, 11) });
  hourly_volume_sum = λ contract past. err type_error;
  daily_volume_sum = λ contract past. err type_error;
  estimate_apy = λ contract days. ok (codes "0.1");
}

abbrev pub sample_clock : Clock
sample_clock n = sample_chain
