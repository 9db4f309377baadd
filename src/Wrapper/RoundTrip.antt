-- ===== src/Wrapper/RoundTrip.antt =====
-- The denoms that the wrappers compute are denoms that they recognise.
use crownfi_sei_swaps.Prelude.{
  ℕ, zero, suc, ◌≤◌, ◌≡◌, ◌⊎◌, inl, inr, refl, ap, ◌∙◌, Bool, true, false, ◌||◌, Bool-cases, [],
  ◌∷◌, ◌++◌, arith, length, take,
}
use crownfi_sei_swaps.Text.{
  Str, codes, all_chars, is_run, in_range, base32_char, hex_char, upper_hex_char, upper_char,
  to_upper, to_lower, substring,
}
use crownfi_sei_swaps.Text.Laws.{length-to_upper, all_chars-to_upper}
use crownfi_sei_swaps.Platform.{ok, err, message, >>=-eq-ok, Env, Bytes}
use crownfi_sei_swaps.Wrapper.Denoms.{denom_prefix, factory_token_source_matches-append}
use crownfi_sei_swaps.Wrapper.Cw20
use crownfi_sei_swaps.Wrapper.Erc20

-- The alphabet of RFC 4648, in which hi-base32 writes.
abbrev pub rfc4648_char : ℕ → Bool
rfc4648_char c = in_range b'A' b'Z' c || in_range b'2' b'7' c

take_base32 :
    (n : ℕ) (s : Str)
    → n ≤ length s
    → all_chars rfc4648_char (take n s) ≡ true
    → (length (to_lower (take n s)) ≡ n) × (all_chars base32_char (to_lower (take n s)) ≡ true)
unfolding all_chars to_lower
take_base32 zero s h k = (refl, refl)
take_base32 (suc n) [] h k = absurd (omega arith)
take_base32 (suc n) (c ∷ s) h k =
    let ih = take_base32 n s (omega arith) (ground arith) in (ap suc ih.0, ground (arith, ih.1))

-- The denom computed for a CW20 token is one that the wrapper recognises as its own, if the base32
-- text of the token's address has at least 44 characters, the first 44 of RFC 4648's alphabet.
pub cw20_wrapped-recognised :
    (address cw20_addr denom : Str) (env : Env)
    → ((b : Bytes)
        → env.canonical_addr (Cw20.strip_prefix cw20_addr) ≡ ok b
        → (44 ≤ length (env.base32_encode b))
          × (all_chars rfc4648_char (take 44 (env.base32_encode b)) ≡ true))
    → Cw20.wrapped_denom_of address env cw20_addr ≡ ok denom
    → Cw20.is_wrapped_denom address denom ≡ true
unfolding Cw20.wrapped_denom_of Cw20.is_wrapped_denom is_run
cw20_wrapped-recognised address cw20_addr denom env base32 h =
    let (b, canonical, e) = >>=-eq-ok (env.canonical_addr (Cw20.strip_prefix cw20_addr)) _ h in
    let (long, chars) = base32 b canonical in
    let (size, run) = take_base32 44 (env.base32_encode b) long chars in
    let same : denom_prefix address ++ to_lower (take 44 (env.base32_encode b)) ≡ denom = cc in
    rw (← same)
      (factory_token_source_matches-append address _ Cw20.valid_subdenom ∙ (rw (size, run)))

upper_hex : (c : ℕ) → hex_char c ≡ true → upper_hex_char (upper_char c) ≡ true
upper_hex c h = ground arith

valid_subdenom-crwn :
    (s : Str)
    → is_run hex_char 40 s ≡ true
    → Erc20.valid_subdenom (codes "crwn" ++ to_upper s) ≡ true
unfolding Erc20.valid_subdenom is_run
valid_subdenom-crwn s h =
    ground
      (arith, length-to_upper s, all_chars-to_upper hex_char upper_hex_char s (λ c. upper_hex c))

-- What becomes of an ERC20 address, with or without its prefix, where the check of sei-utils accepts
-- only "0x" followed by 40 hexadecimal digits: if the check accepts it, it is given a denom, which
-- the wrapper recognises as its own; otherwise the text without its prefix is refused by name.
pub erc20_wrapped-recognised :
    (address erc20_addr : Str) (env : Env)
    → ((s : Str)
        → env.is_valid_evm_address s ≡ true
        → (digits : Str) × (s ≡ codes "0x" ++ digits) × (is_run hex_char 40 digits ≡ true))
    → ((env.is_valid_evm_address (Erc20.strip_prefix erc20_addr) ≡ true)
        × (denom : Str) × (Erc20.wrapped_denom_of address env erc20_addr ≡ ok denom)
        × (Erc20.is_wrapped_denom address denom ≡ true))
      ⊎ ((env.is_valid_evm_address (Erc20.strip_prefix erc20_addr) ≡ false)
          × (Erc20.wrapped_denom_of address env erc20_addr
              ≡ err
                  (message (Erc20.strip_prefix erc20_addr ++ codes " is not a valid EVM address"))))
unfolding Erc20.wrapped_denom_of Erc20.is_wrapped_denom
erc20_wrapped-recognised address erc20_addr env valid =
    let addr = Erc20.strip_prefix erc20_addr in
    elim (Bool-cases (env.is_valid_evm_address addr)) [
      | inr refused ↦ inr (refused, rw refused refl)
      | inl accepted ↦
          let (digits, e, run) = valid addr accepted in
          let sub = codes "crwn" ++ to_upper (substring addr 2) in
          let upper : sub ≡ codes "crwn" ++ to_upper digits =
            ap (λ s. codes "crwn" ++ to_upper (substring s 2)) e in
          inl (
            accepted,
            denom_prefix address ++ sub,
            rw accepted refl,
            factory_token_source_matches-append address sub Erc20.valid_subdenom
                ∙ ap Erc20.valid_subdenom upper
                ∙ valid_subdenom-crwn digits run,
          )
    ]
