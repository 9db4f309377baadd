-- ===== src/Scripts/Client.antt =====
-- scripts/helpers.ts: the class ClientEnv with `readArtifact` and `fundFromLocalAdmin`. The files,
-- the environment's variables, the commands and the network are a `Host`.
pub mod Creating
use crownfi_sei_swaps.Prelude.{
  ℕ, Bool, true, false, ◌&&◌, List, [], ◌∷◌, ◌++◌, Option, none, some, eqb, length, if◌then◌else◌,
}
use crownfi_sei_swaps.Prelude.Integers.{ℤ, pos}
use crownfi_sei_swaps.Text.{Str, codes, ◌==◌}
use crownfi_sei_swaps.Platform.{Result, ok, err, message, Coin}
use crownfi_sei_swaps.Market.{non_empty_or}
use crownfi_sei_swaps.Scripts.Trace.{Script, ask, act, ◌>>=◌, ◌>>◌}

-- An entry of `seid keys list`.
pub record KeyEntry : Type 0 where
  pub name : Str
  pub kind : Str
  pub address : Str

-- The variables that `newFromEnvVars` reads; an absent one is `none`.
pub record EnvVars : Type 0 where
  pub gas_price : Option Str
  pub mnemonic : Option Str
  pub mnemonic_index : Option Str
  pub chain_id : Option Str

-- The files and commands, and the functions of other packages. `parse_int` is `none` for NaN.
-- `rpc_url` is the `generalInfo.rpcUrl` that `readArtifact` finds for a chain.
pub record Host : Type 0 where
  pub vars : EnvVars
  pub parse_int : Option Str → Option ℤ
  pub accounts : Str → ℤ → Result (List Str)
  pub gas_price_from_string : Str → Result Str
  pub rpc_url : Str → Result Str
  pub connect : Str → Result (Unit {0})
  pub get_chain_id : Str → Result Str
  pub get_balance : Str → Str → Str → Result ℕ
  pub keys_list : Result (List KeyEntry)
  pub bank_send : Str → Str → Str → Result (Unit {0})
  pub decimal : ℕ → Str

-- `readArtifact`: an unreadable file, or one that does not parse, counts as an empty object.
unfoldable pub read_artifact {ℓ} :
    {Json : Type ℓ} → (read : Str → Result Str) → (parse : Str → Result Json) → Json → Str → Json
read_artifact read parse empty name = elim (read name) [
  | err e ↦ empty
  | ok text ↦ elim (parse text) [ err e ↦ empty | ok json ↦ json ]
]

-- `Coin | string`, as the text of a command's argument.
pub data FundAmount : Type 0 where
  amount_text : Str → FundAmount
  amount_coin : (amount denom : Str) → FundAmount

abbrev pub amount_as_string : FundAmount → Str
amount_as_string (amount_text t) = t
amount_as_string (amount_coin amount denom) = amount ++ denom

-- A transfer by the command `seid tx bank send`.
pub record Transfer : Type 0 where
  pub from : Str
  pub to : Str
  pub amount : Str

-- `parsedOutput.find(...)?.address`
unfoldable pub admin_address : List KeyEntry → Option Str
admin_address [] = none
admin_address (k ∷ ks) =
    if (k.name == codes "admin") && (k.kind == codes "local")
    then some k.address
    else admin_address ks

unfoldable pub fund_from_local_admin : Host → Str → FundAmount → Script Transfer (Unit {0})
unfolding admin_address
fund_from_local_admin host to_address amount = ask host.keys_list >>= λ keys.
    elim (admin_address keys) [
      | none ↦ ask (err (message (codes "Couldn't find local keyed address named \"admin\"")))
      | some admin ↦
          let text = amount_as_string amount in
          act (record { from = admin; to = to_address; amount = text })
            (host.bank_send admin to_address text)
    ]

pub record ClientEnv : Type 0 where
  pub account : Str
  pub chain_id : Str
  pub rpc_url : Str
  pub gas_price : Str

abbrev pub default_mnemonic : Str
default_mnemonic =
    codes
      "abandon abandon abandon abandon abandon abandon abandon abandon abandon abandon abandon about"

-- `parseInt(process.env.MNEMONIC_INDEX + "") || 0`
abbrev pub index_or_zero : Option ℤ → ℤ
index_or_zero none = pos 0
index_or_zero (some n) = n

unfoldable pub expect_account : Host → List Str → Result Str
expect_account host (account ∷ []) = ok account
expect_account host accounts = err (
    message (
      codes "Expected wallet from mnemonic to result in exactly 1 account but got "
      ++ (host.decimal (length accounts) ++ codes " accounts")))

-- The three transfers to an account without funds on a chain of its own.
unfoldable pub fund_account : Host → Str → Script Transfer (Unit {0})
unfolding fund_from_local_admin
fund_account host account =
    fund_from_local_admin host account (amount_text (codes "100000000000usei"))
    >> fund_from_local_admin host account (amount_text (codes "100000000000uusdc"))
    >> fund_from_local_admin host account (amount_text (codes "100000000000uatom"))

unfoldable pub fund_if_empty : Host → (chain_id rpc account : Str) → Script Transfer (Unit {0})
unfolding fund_account
fund_if_empty host chain_id rpc account =
    ask (host.get_balance rpc account (codes "usei")) >>= λ balance.
    if eqb balance 0 && (chain_id == codes "localsei")
    then fund_account host account
    else ask (ok tt)

unfoldable pub new_from_env_vars : Host → Script Transfer ClientEnv
unfolding expect_account fund_if_empty
new_from_env_vars host =
    let gas = non_empty_or host.vars.gas_price (codes "0.1usei") in
    let mnemonic = non_empty_or host.vars.mnemonic default_mnemonic in
    let wanted = non_empty_or host.vars.chain_id (codes "localsei") in
    ask (host.accounts mnemonic (index_or_zero (host.parse_int host.vars.mnemonic_index)))
    >>= λ accounts. ask (expect_account host accounts) >>= λ account.
        ask (host.gas_price_from_string gas) >>= λ gas_price. ask (host.rpc_url wanted) >>= λ rpc.
        ask (host.connect rpc) >>= λ _. ask (host.get_chain_id rpc) >>= λ chain_id.
        if chain_id == wanted
        then (fund_if_empty host wanted rpc account >>= λ _. ask (
            ok (record {
              account = account;
              chain_id = chain_id;
              rpc_url = rpc;
              gas_price = gas_price;
            })))
        else ask (
            err (
              message
                (codes "Chain ID mismatch. Expected " ++ (wanted ++ (codes ", got " ++ chain_id)))))

-- `signAndSend`: a result that failed becomes a `TransactionError`, of which the model keeps the
-- members.
pub record TransactionError : Type 0 where
  pub code : ℕ
  pub txhash : Str
  pub raw_log : Str

pub record DeliverResult : Type 0 where
  pub code : ℕ
  pub transaction_hash : Str
  pub raw_log : Str

pub data Sent : Type 0 where
  delivered : DeliverResult → Sent
  failed : TransactionError → Sent

unfoldable pub sign_and_send : (is_deliver_tx_failure : DeliverResult → Bool) → DeliverResult → Sent
sign_and_send is_deliver_tx_failure result =
    if is_deliver_tx_failure result
    then failed
        (record { code = result.code; txhash = result.transaction_hash; raw_log = result.raw_log })
    else delivered result

-- The access that `uploadContract` asks for.
pub record InstantiatePermission : Type 0 where
  pub address : Str
  pub addresses : List Str
  pub permission : ℕ

unfoldable pub upload_permission :
    (account : Str) → (allow_factories : Bool) → InstantiatePermission
upload_permission account allow_factories =
    if allow_factories
    then record { address = []; addresses = []; permission = 3 }
    else record { address = account; addresses = []; permission = 2 }

-- An event of a transaction's log, with its attributes.
pub record LogEvent : Type 0 where
  pub kind : Str
  pub attributes : List (Str × Str)

abbrev pub values_of : Str → List (Str × Str) → List Str
values_of key [] = []
values_of key ((k, v) ∷ rest) = if k == key then v ∷ values_of key rest else values_of key rest

-- What `instantiateContract` returns: a list of addresses for each event of the first log.
unfoldable pub instantiated_addresses : List LogEvent → List (List Str)
instantiated_addresses [] = []
instantiated_addresses (e ∷ es) =
    if e.kind == codes "instantiate"
    then values_of (codes "_contract_address") e.attributes ∷ instantiated_addresses es
    else instantiated_addresses es
