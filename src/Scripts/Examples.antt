-- ===== src/Scripts/Examples.antt =====
-- Hosts for the scripts, runs on them, and applications.
use crownfi_sei_swaps.Prelude.{ℕ, suc, ◌≡◌, ◌⊎◌, refl, [], ◌∷◌, some, none, In}
use crownfi_sei_swaps.Text.{Str, codes, ◌==◌}
use crownfi_sei_swaps.Platform.{ok, err, Error}
use crownfi_sei_swaps.Market.{non_empty_or}
use crownfi_sei_swaps.Scripts.Trace.{Between}
use crownfi_sei_swaps.Scripts.Client.{
  Host, ClientEnv, admin_address, fund_from_local_admin, fund_account, fund_if_empty,
  expect_account, new_from_env_vars,
}
use crownfi_sei_swaps.Scripts.Client.Creating.{
  wanted_chain, wanted_accounts, AllTo, IsEmptyLocal, IsWanted, new_from_env_vars_lem,
}
use crownfi_sei_swaps.Scripts.Deploy.{
  DeployHost, deploy, fund_wallet, fund_if_local, fund_if_low, read_binaries, read_contract_binary,
  upload_all, deploy_all, create_pools,
}
use crownfi_sei_swaps.Scripts.Deploy.Order.{phase, contract_files, deploy_by_phases}
use crownfi_sei_swaps.Scripts.Deploy.{FactoryIx, executed}
use crownfi_sei_swaps.Scripts.Deploy.Ends.{IsAnswered, factory_address, pool_instructions}

-- A chain of its own, on which the account has no funds.
abbrev local_host : Host
local_host = record {
  vars = record { gas_price = none; mnemonic = none; mnemonic_index = none; chain_id = none };
  parse_int = λ text. none;
  accounts = λ mnemonic index. ok (codes "sei1deployer" ∷ []);
  gas_price_from_string = λ text. ok text;
  rpc_url = λ chain. ok (codes "http://localhost:26657");
  connect = λ rpc. ok tt;
  get_chain_id = λ rpc. ok (codes "localsei");
  get_balance = λ rpc account denom. ok 0;
  keys_list =
      ok (record { name = codes "admin"; kind = codes "local"; address = codes "sei1admin" } ∷ []);
  bank_send = λ from to amount. ok tt;
  decimal = λ n. codes "several";
}

local_transfers :
    (new_from_env_vars local_host).0
    ≡ record {
      from = codes "sei1admin";
      to = codes "sei1deployer";
      amount = codes "100000000000usei";
    }
      ∷ record {
        from = codes "sei1admin";
        to = codes "sei1deployer";
        amount = codes "100000000000uusdc";
      }
      ∷ record {
        from = codes "sei1admin";
        to = codes "sei1deployer";
        amount = codes "100000000000uatom";
      }
      ∷ []
unfolding new_from_env_vars expect_account fund_if_empty fund_account fund_from_local_admin
    admin_address ◌==◌
local_transfers = refl

new_from_env_vars_lem_example :
    ((env : ClientEnv) → (new_from_env_vars local_host).1 ≡ ok env → IsWanted local_host env)
    × (((new_from_env_vars local_host).0 ≡ [])
        ⊎ ((account : Str) × IsEmptyLocal local_host account
            × AllTo account (new_from_env_vars local_host).0))
    × ((account gas_price rpc : Str) (n : ℕ)
        → wanted_accounts local_host ≡ ok (account ∷ [])
        → local_host.gas_price_from_string
            (non_empty_or local_host.vars.gas_price (codes "0.1usei"))
          ≡ ok gas_price
        → local_host.rpc_url (wanted_chain local_host) ≡ ok rpc
        → local_host.connect rpc ≡ ok tt
        → local_host.get_chain_id rpc ≡ ok (wanted_chain local_host)
        → local_host.get_balance rpc account (codes "usei") ≡ ok (suc n)
        → new_from_env_vars local_host ≡ (
          [],
          ok (record {
            account = account;
            chain_id = wanted_chain local_host;
            rpc_url = rpc;
            gas_price = gas_price;
          }),
        ))
new_from_env_vars_lem_example = new_from_env_vars_lem local_host

abbrev deploy_host : DeployHost
deploy_host = record {
  chain_id = codes "sei-chain";
  sei_address = some (codes "sei1deployer");
  get_balance = λ denom. ok 0;
  fund_from_local_keychain = λ amount. ok tt;
  read_file = λ name. some [];
  upload_contract = λ binary allow_factories. ok 7;
  instantiate_contract = λ code_id msg label. ok (codes "sei1contract");
  execute_contract = λ address ix. ok tt;
  query_pairs = λ address. ok [];
}

deploys : (deploy deploy_host).1 ≡ ok []
unfolding deploy fund_wallet fund_if_local fund_if_low read_binaries read_contract_binary upload_all
    deploy_all create_pools ◌==◌
deploys = refl

deploy_by_phases_example :
    Between phase 0 3 (deploy deploy_host).0
    × ((name : Str)
        → In name contract_files
        → deploy_host.read_file name ≡ none
        → Between phase 0 0 (deploy deploy_host).0
          × ((e : Error) × ((deploy deploy_host).1 ≡ err e)))
    × ((answered : IsAnswered deploy_host)
        → ((deploy deploy_host).1 ≡ deploy_host.query_pairs (factory_address deploy_host answered))
          × ((ix : FactoryIx)
              → In ix (pool_instructions deploy_host answered)
              → In (executed (factory_address deploy_host answered) ix) (deploy deploy_host).0))
deploy_by_phases_example = deploy_by_phases deploy_host

deploy_host-IsAnswered : IsAnswered deploy_host
deploy_host-IsAnswered = record {
  balance = 0;
  file = λ name. [];
  code = λ binary allow_factories. 7;
  address = λ code_id msg label. codes "sei1contract";
  balances = refl;
  funds = λ amount. refl;
  files = λ name. refl;
  uploads = λ binary allow_factories. refl;
  instantiates = λ code_id msg label. refl;
  executes = λ address ix. refl;
}
