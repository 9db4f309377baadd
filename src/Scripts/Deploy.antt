-- ===== src/Scripts/Deploy.antt =====
-- scripts/deploy_contracts.ts: the deployment of the contracts. The client of @crownfi/sei-utils and
-- the files are a `DeployHost`; what is printed is left out.
pub mod Order
pub mod Ends
use crownfi_sei_swaps.Prelude.{
  ℕ, Bool, true, false, ◌&&◌, List, [], ◌∷◌, Option, none, some, ltb, if◌then◌else◌,
}
use crownfi_sei_swaps.Text.{Str, codes, ◌==◌}
use crownfi_sei_swaps.Platform.{Result, ok, err, rejected, Bytes, Coin, CreatedPair}
use crownfi_sei_swaps.Scripts.Trace.{Script, ask, act, ◌>>=◌, ◌>>◌}

-- The messages with which the contracts are instantiated.
pub data InstantiateMsg : Type 0 where
  empty_msg : InstantiateMsg
  factory_config :
      (admin fee_receiver : Option Str)
      (pair_code_id default_total_fee_bps default_maker_fee_bps : ℕ)
      (permissionless_pool_cration : Bool)
      → InstantiateMsg

-- The two instructions of the factory that are executed, with the funds sent along.
pub data FactoryIx : Type 0 where
  create_pool :
      (left_denom : Str) (initial_shares_receiver : Option Str) (funds : List Coin) → FactoryIx
  update_fees_for_pool : (pair : Str × Str) (maker_fee_bps total_fee_bps : ℕ) → FactoryIx

pub record DeployHost : Type 0 where
  pub chain_id : Str
  pub sei_address : Option Str
  pub get_balance : Str → Result ℕ
  pub fund_from_local_keychain : Coin → Result (Unit {0})
  pub read_file : Str → Option Bytes
  pub upload_contract : Bytes → Bool → Result ℕ
  pub instantiate_contract : ℕ → InstantiateMsg → Str → Result Str
  pub execute_contract : Str → FactoryIx → Result (Unit {0})
  pub query_pairs : Str → Result (List CreatedPair)

-- What is done to the chain.
pub data Deed : Type 0 where
  funded : Coin → Deed
  uploaded : (contract_name : Str) (allow_factories : Bool) → Deed
  instantiated : (name : Str) (code_id : ℕ) (msg : InstantiateMsg) (label : Str) → Deed
  executed : (contract_address : Str) (ix : FactoryIx) → Deed

-- `coin(amount, denom)`
abbrev pub coin : ℕ → Str → Coin
coin amount denom = record { denom = denom; amount = amount }

module _ (host : DeployHost) where
  -- A file that cannot be read ends the script with `process.exit(1)`.
  unfoldable pub read_contract_binary : Str → Result Bytes
  read_contract_binary file_name = elim (host.read_file file_name) [
    | none ↦ err (rejected (codes "process.exit(1)"))
    | some content ↦ ok content
  ]

  abbrev pub upload_contract_binary : Str → Bytes → Bool → Script Deed ℕ
  upload_contract_binary contract_name binary allow_factories =
      act (uploaded contract_name allow_factories) (host.upload_contract binary allow_factories)

  abbrev pub deploy_contract : Str → ℕ → InstantiateMsg → Str → Script Deed Str
  deploy_contract name code_id msg label =
      act (instantiated name code_id msg label) (host.instantiate_contract code_id msg label)

  abbrev pub execute_factory : Str → FactoryIx → Script Deed (Unit {0})
  execute_factory factory ix = act (executed factory ix) (host.execute_contract factory ix)

  abbrev pub fund : ℕ → Str → Script Deed (Unit {0})
  fund amount denom =
      act (funded (coin amount denom)) (host.fund_from_local_keychain (coin amount denom))

  unfoldable pub fund_if_low : ℕ → Script Deed (Unit {0})
  fund_if_low balance =
      if ltb balance 1000000
      then (fund 100000000000 (codes "usei") >>= λ _.
          fund 100000000000 (codes "uusdc") >>= λ _. fund 100000000000 (codes "uatom"))
      else ask (ok tt)

  unfoldable pub fund_if_local : Script Deed (Unit {0})
  unfolding fund_if_low
  fund_if_local =
      if host.chain_id == codes "sei-chain"
      then (ask (host.get_balance (codes "usei")) >>= fund_if_low)
      else ask (ok tt)

  -- The balance is asked for once to be printed, and once more on the chain "sei-chain".
  unfoldable pub fund_wallet : Script Deed (Unit {0})
  unfolding fund_if_local
  fund_wallet = ask (host.get_balance (codes "usei")) >>= λ _. fund_if_local

pub record Binaries : Type 0 where
  pub cw20_wrapper : Bytes
  pub erc20_wrapper : Bytes
  pub swap_router : Bytes
  pub pool_pairs : Bytes
  pub pool_factory : Bytes

-- One `await`, and the rest.
abbrev pub and_read : {A : Type 0} → Result Bytes → (Bytes → Result A) → Result A
and_read (err e) rest = err e
and_read (ok b) rest = rest b

-- The identifiers of the uploaded codes.
pub record Codes : Type 0 where
  pub cw20_code : ℕ
  pub erc20_code : ℕ
  pub router_code : ℕ
  pub pair_code : ℕ
  pub factory_code : ℕ

module _ (host : DeployHost) where
  -- The five files, all of which are read before anything is uploaded.
  unfoldable pub read_binaries : Result Binaries
  unfolding read_contract_binary
  read_binaries =
      let read = read_contract_binary host in
      and_read (read (codes "crownfi_cw20_wrapper.wasm")) (λ cw20.
        and_read (read (codes "crownfi_erc20_wrapper.wasm")) (λ erc20.
          and_read (read (codes "crownfi_swap_router_contract.wasm")) (λ router.
            and_read (read (codes "crownfi_pool_pair_contract.wasm")) (λ pairs.
              and_read (read (codes "crownfi_pool_factory_contract.wasm")) (λ factory. ok (record {
                cw20_wrapper = cw20;
                erc20_wrapper = erc20;
                swap_router = router;
                pool_pairs = pairs;
                pool_factory = factory;
              }))))))

  unfoldable pub upload_all : Binaries → Script Deed Codes
  upload_all b = upload_contract_binary host (codes "CW20 Wrapper") b.cw20_wrapper false >>= λ cw20.
      upload_contract_binary host (codes "ERC20 Wrapper") b.erc20_wrapper false >>= λ erc20.
      upload_contract_binary host (codes "Swap Router") b.swap_router false >>= λ router.
      upload_contract_binary host (codes "Pool Pair") b.pool_pairs true >>= λ pair.
      upload_contract_binary host (codes "Pool Factory") b.pool_factory false >>= λ factory. ask (
        ok (record {
          cw20_code = cw20;
          erc20_code = erc20;
          router_code = router;
          pair_code = pair;
          factory_code = factory;
        }))

  -- The factory's address is the result.
  unfoldable pub deploy_all : Codes → Script Deed Str
  deploy_all c =
      deploy_contract host (codes "CW20 Wrapper") c.cw20_code empty_msg (codes "wc20-wrapper")
      >>= λ _.
          deploy_contract host (codes "ERC20 WRapper") c.erc20_code empty_msg
            (codes "erc20-wrapper")
          >>= λ _.
              deploy_contract host (codes "Swap Router") c.router_code empty_msg
                (codes "swap-router")
              >>= λ _.
                  deploy_contract host (codes "Pool Factory") c.factory_code
                    (factory_config host.sei_address host.sei_address c.pair_code 1 1 true)
                    (codes "pool-factory")

  unfoldable pub create_pools : Str → Script Deed (Unit {0})
  create_pools factory =
      execute_factory host factory (
        create_pool (codes "uatom") host.sei_address
          (coin 1000000000 (codes "uatom") ∷ coin 1000000000 (codes "usei") ∷ []))
      >>= λ _.
          execute_factory host factory (
            create_pool (codes "usei") host.sei_address
              (coin 1000000000 (codes "usei") ∷ coin 1000000000 (codes "uusdc") ∷ []))
          >>= λ _.
              execute_factory host factory (update_fees_for_pool (codes "usei", codes "uusdc") 2 3)

  -- The whole script.
  unfoldable pub deploy : Script Deed (List CreatedPair)
  unfolding fund_wallet read_binaries upload_all deploy_all create_pools
  deploy = fund_wallet host >>= λ _. ask read_binaries >>= λ binaries.
      upload_all binaries >>= λ code_ids. deploy_all code_ids >>= λ factory.
      create_pools factory >>= λ _. ask (host.query_pairs factory)
