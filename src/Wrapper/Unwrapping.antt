-- ===== src/Wrapper/Unwrapping.antt =====
-- The instructions that unwrap tokens.
use mathlib.Core.List.{Perm}
use crownfi_sei_swaps.Prelude.{
  ℕ, ◌+◌, ◌-◌, ◌≤◌, subst, ◌≡◌, refl, sym, ap, ◌∙◌, Bool, true, false, List, [], ◌∷◌, ◌++◌, arith,
  length, length-append, drop, some, if◌then◌else◌, Bool-cases, inl, inr,
}
use crownfi_sei_swaps.Text.{Str, codes, to_upper, substring, is_run, hex_char}
use native.Mathlib.Nat.{zero-add, suc-add}
use crownfi_sei_swaps.Text.Laws.{length-to_upper}
use crownfi_sei_swaps.Platform.{
  Result, ok, map_result, Coin, Account, Msg, Instruction, execute, unwrap_cw20, unwrap_erc20, Env,
}
use crownfi_sei_swaps.Wrapper.Denoms.{denom_prefix, assert_factory_token_source_matches}
use crownfi_sei_swaps.Wrapper.Funds.{sort_coins, sort_coins-perm}
use crownfi_sei_swaps.Wrapper.Cw20
use crownfi_sei_swaps.Wrapper.Erc20
use crownfi_sei_swaps.Wrapper.Multi.{
  MultiTokenWrapper, erc20, partition_tokens, unless_empty, build_unwrap_ixs,
  build_unwrap_ixs_unchecked,
}
use crownfi_sei_swaps.Wrapper.Kinds.{AreDistinct, never_both}

-- The coins whose denom passes a test.
abbrev pub select : (Str → Bool) → List Coin → List Coin
select test [] = []
select test (c ∷ cs) = if test c.denom then c ∷ select test cs else select test cs

-- One instruction with these funds, or none if there are no funds.
abbrev pub send : Str → Msg → List Coin → List Coin → List Instruction
send address msg [] funds = []
send address msg (c ∷ cs) funds = execute address msg funds ∷ []

cw20_checked :
    (address : Str) (cs : List Coin)
    → map_result (Cw20.checked_coin address) (select (Cw20.is_wrapped_denom address) cs)
      ≡ ok (select (Cw20.is_wrapped_denom address) cs)
unfolding Cw20.checked_coin Cw20.is_wrapped_denom assert_factory_token_source_matches map_result
cw20_checked address [] = refl
cw20_checked address (c ∷ cs) = elim (Bool-cases (Cw20.is_wrapped_denom address c.denom)) [
  | inl p ↦ rw (p, p, cw20_checked address cs)
  | inr p ↦ rw p (cw20_checked address cs)
]

erc20_checked :
    (address : Str) (cs : List Coin)
    → map_result (Erc20.checked_coin address) (select (Erc20.is_wrapped_denom address) cs)
      ≡ ok (select (Erc20.is_wrapped_denom address) cs)
unfolding Erc20.checked_coin Erc20.is_wrapped_denom assert_factory_token_source_matches map_result
erc20_checked address [] = refl
erc20_checked address (c ∷ cs) = elim (Bool-cases (Erc20.is_wrapped_denom address c.denom)) [
  | inl p ↦ rw (p, p, erc20_checked address cs)
  | inr p ↦ rw p (erc20_checked address cs)
]

unless_empty-send :
    (w : MultiTokenWrapper) (cs : List Coin) (ix : Result Instruction) (address : Str) (msg : Msg)
    (funds : List Coin)
    → ix ≡ ok (execute address msg funds)
    → unless_empty w cs ix ≡ ok (send address msg cs funds)
unless_empty-send w [] ix address msg funds e = refl
unless_empty-send w (c ∷ cs) ix address msg funds e = rw e

cw20_unwrap_ix :
    (address : Str) (env : Env) (cs : List Coin) (r : Str)
    → Cw20.build_unwrap_ix address env (select (Cw20.is_wrapped_denom address) cs) (some r)
      ≡ ok (
          execute address
            (unwrap_cw20 (some r))
            (sort_coins env.denom_le (select (Cw20.is_wrapped_denom address) cs)))
unfolding Cw20.build_unwrap_ix
cw20_unwrap_ix address env cs r = rw (cw20_checked address cs)

erc20_unwrap_ix :
    (address : Str) (env : Env) (cs : List Coin) (r : Str)
    → Erc20.build_unwrap_ix address env (select (Erc20.is_wrapped_denom address) cs) r
      ≡ ok (
          execute address
            (unwrap_erc20 (Erc20.evm_base64 env r))
            (sort_coins env.denom_le (select (Erc20.is_wrapped_denom address) cs)))
unfolding Erc20.build_unwrap_ix
erc20_unwrap_ix address env cs r = rw (erc20_checked address cs)

module _ (w : MultiTokenWrapper) (h : AreDistinct w) where
  partition_tokens-select :
      (cs : List Coin)
      → partition_tokens w cs ≡ (
        select (Cw20.is_wrapped_denom w.cw20_wrapper) cs,
        select (Erc20.is_wrapped_denom w.erc20_wrapper) cs,
      )
  unfolding partition_tokens
  partition_tokens-select [] = refl
  partition_tokens-select (c ∷ cs) =
      ground (arith, partition_tokens-select cs, never_both w h c.denom)

  -- Where the two wrapper contracts have different addresses without a slash, `buildUnwrapIxs`
  -- never throws: it sends the coins that the CW20 wrapper recognises to that wrapper and those
  -- that the ERC20 wrapper recognises to the other, each in one instruction that is left out if
  -- there are none, with the funds sorted and otherwise unchanged.
  pub build_unwrap_ixs_lem :
      (env : Env) (tokens : List Coin) (r : Account)
      → let cw20s = select (Cw20.is_wrapped_denom w.cw20_wrapper) tokens in
        let erc20s = select (Erc20.is_wrapped_denom w.erc20_wrapper) tokens in
        (build_unwrap_ixs w env tokens r
          ≡ ok (
              send w.cw20_wrapper
                (unwrap_cw20 (some r.sei_address))
                cw20s
                (sort_coins env.denom_le cw20s)
              ++ send w.erc20_wrapper
                  (unwrap_erc20 (Erc20.evm_base64 env r.evm_address))
                  erc20s
                  (sort_coins env.denom_le erc20s)))
        × Perm (sort_coins env.denom_le cw20s) cw20s
        × Perm (sort_coins env.denom_le erc20s) erc20s
  unfolding build_unwrap_ixs
  build_unwrap_ixs_lem env tokens r = (
    rw (
      partition_tokens-select tokens,
      unless_empty-send w _ _ _ _ _ (cw20_unwrap_ix w.cw20_wrapper env tokens r.sei_address),
      unless_empty-send w _ _ _ _ _ (erc20_unwrap_ix w.erc20_wrapper env tokens r.evm_address),
    ),
    sort_coins-perm env.denom_le _,
    sort_coins-perm env.denom_le _,
  )

  -- Where the two wrapper contracts have different addresses without a slash, the two ways to
  -- unwrap a coin that the ERC20 wrapper recognises disagree: the checked one instructs the ERC20
  -- wrapper's contract to pay out to the EVM address, the unchecked one instructs the CW20
  -- wrapper's contract.
  unchecked_erc20_goes_to_cw20 :
      (env : Env) (token : Coin) (r : Account)
      → Erc20.is_wrapped_denom w.erc20_wrapper token.denom ≡ true
      → (build_unwrap_ixs w env (token ∷ []) r
          ≡ ok (
              execute w.erc20_wrapper
                (unwrap_erc20 (Erc20.evm_base64 env r.evm_address))
                (token ∷ [])
              ∷ []))
        × (build_unwrap_ixs_unchecked w erc20 r
            ≡ ok (execute w.cw20_wrapper (unwrap_cw20 (some r.evm_address)) []))
  unfolding build_unwrap_ixs_unchecked Cw20.build_unwrap_ix_unchecked sort_coins
  unchecked_erc20_goes_to_cw20 env token r p =
      let not_cw20 : Cw20.is_wrapped_denom w.cw20_wrapper token.denom ≡ false =
        ground (arith, never_both w h token.denom) in
      ((build_unwrap_ixs_lem env (token ∷ []) r).0 ∙ (rw (not_cw20, p)), refl)

drop-append_add : (p s : Str) (n : ℕ) → drop (length p + n) (p ++ s) ≡ drop n s
drop-append_add [] s n = rw zero-add
drop-append_add (c ∷ p) s n = rw suc-add (drop-append_add p s n)

drop_last_four :
    (p s : Str) → 4 ≤ length s → drop (length (p ++ s) - 4) (p ++ s) ≡ drop (length s - 4) s
drop_last_four p s h =
    let e : length (p ++ s) - 4 ≡ length p + (length s - 4) = omega (arith, length-append p s) in
    rw e (drop-append_add p s (length s - 4))

-- For an ERC20 address of "0x" and 40 hexadecimal digits whose wrapped denom the wrapper
-- recognises, unwrapping that denom does not give the token back: the address returned is the
-- checksummed form of the last four of its digits.
erc20_unwrapped_last_four :
    (address erc20_addr digits denom : Str) (env : Env)
    → Erc20.strip_prefix erc20_addr ≡ codes "0x" ++ digits
    → is_run hex_char 40 digits ≡ true
    → Erc20.wrapped_denom_of address env erc20_addr ≡ ok denom
    → Erc20.is_wrapped_denom address denom ≡ true
    → Erc20.unwrapped_denom_of address env denom ≡ env.checksum_address (drop 36 (to_upper digits))
unfolding Erc20.wrapped_denom_of Erc20.unwrapped_denom_of Erc20.is_wrapped_denom
    assert_factory_token_source_matches is_run
erc20_unwrapped_last_four address erc20_addr digits denom env e run h recognised =
    let u = to_upper digits in
    let size : length u ≡ 40 = ground (arith, length-to_upper digits) in
    let sub : codes "crwn" ++ to_upper (substring (Erc20.strip_prefix erc20_addr) 2)
        ≡ codes "crwn" ++ u =
      ap (λ s. codes "crwn" ++ to_upper (substring s 2)) e in
    let made : denom_prefix address ++ (codes "crwn" ++ u) ≡ denom =
      ap (λ s. denom_prefix address ++ s) (sym sub) ∙ (ground arith) in
    let cut : length (codes "crwn" ++ u) - 4 ≡ 40 = omega (arith, size) in
    let last : drop (length denom - 4) denom ≡ drop 36 u =
      subst (λ d. drop (length d - 4) d ≡ drop 36 u) made
        (drop_last_four (denom_prefix address) (codes "crwn" ++ u) (omega arith) ∙ (rw cut)) in
    rw recognised (ap env.checksum_address last)
