-- ===== src/Scripts/Client/Creating.antt =====
-- `newFromEnvVars`: the client that it creates, and the accounts that it funds.
use crownfi_sei_swaps.Prelude.{
  ℕ, suc, ◌≡◌, ◌⊎◌, inl, inr, refl, sym, ap, ◌∙◌, false, ◌&&◌, List, [], ◌∷◌, eqb, eqb_iff, arith,
  All, All-append, append-nil, subst, append-nil, subst, Bool-cases, Option-cases,
}
use crownfi_sei_swaps.Text.{Str, codes, ◌==◌}
use crownfi_sei_swaps.Text.Laws.{==_iff, ==_refl}
use crownfi_sei_swaps.Platform.{Result, ok, err, Error, ok-injective}
use crownfi_sei_swaps.Market.{non_empty_or}
use crownfi_sei_swaps.Scripts.Trace.{Script, ask, act, ◌>>=◌, ◌>>◌}
use crownfi_sei_swaps.Scripts.Client.{
  Host, Transfer, FundAmount, amount_text, admin_address, fund_from_local_admin, fund_account,
  fund_if_empty, ClientEnv, default_mnemonic, index_or_zero, expect_account, new_from_env_vars,
}

-- What holds of a script that starts with an answer, by the answer.
ask-elim :
    {E A B : Type 0} (P : Script E B → Type 0) (r : Result A) (next : A → Script E B)
    → ((e : Error) → P ([], err e))
    → ((a : A) → r ≡ ok a → P (next a))
    → P (ask r >>= next)
ask-elim P (ok a) next f g = g a refl
ask-elim P (err e) next f g = f e

-- The chain and the accounts that the variables ask for.
abbrev pub wanted_chain : Host → Str
wanted_chain host = non_empty_or host.vars.chain_id (codes "localsei")

abbrev pub wanted_accounts : Host → Result (List Str)
wanted_accounts host =
    host.accounts (non_empty_or host.vars.mnemonic default_mnemonic)
      (index_or_zero (host.parse_int host.vars.mnemonic_index))

abbrev pub AllTo : Str → List Transfer → Type 0
AllTo account ts = All (λ (t : Transfer). t.to ≡ account) ts

fund_from_local_admin-to :
    (host : Host) (account : Str) (amount : FundAmount)
    → AllTo account (fund_from_local_admin host account amount).0
unfolding fund_from_local_admin
fund_from_local_admin-to host account amount =
    ask-elim (λ s. AllTo account s.0) host.keys_list _ (λ e. tt)
      (λ keys _. elim (Option-cases (admin_address keys)) [
        | inl missing ↦ rw missing tt
        | inr (admin, found) ↦ rw found (sent_to _ (host.bank_send admin account _))
      ])
  where
    sent_to : (t : Transfer) (r : Result (Unit {0})) → AllTo t.to (act t r).0
    sent_to t (ok a) = (refl, tt)
    sent_to t (err e) = tt

AllTo-then :
    {A B : Type 0} (account : Str) (m : Script Transfer A) (next : A → Script Transfer B)
    → AllTo account m.0
    → ((a : A) → AllTo account (next a).0)
    → AllTo account (m >>= next).0
AllTo-then account (ts, err e) next h k = h
AllTo-then account (ts, ok a) next h k = All-append _ ts (next a).0 h (k a)

fund_account-to : (host : Host) (account : Str) → AllTo account (fund_account host account).0
unfolding fund_account
fund_account-to host account =
    let first = fund_from_local_admin host account (amount_text (codes "100000000000usei")) in
    let second = fund_from_local_admin host account (amount_text (codes "100000000000uusdc")) in
    let third = fund_from_local_admin host account (amount_text (codes "100000000000uatom")) in
    AllTo-then account (first >> second) (λ _. third)
      (AllTo-then account first (λ _. second)
        (fund_from_local_admin-to host account (amount_text (codes "100000000000usei")))
        (λ _. fund_from_local_admin-to host account (amount_text (codes "100000000000uusdc"))))
      (λ _. fund_from_local_admin-to host account (amount_text (codes "100000000000uatom")))

-- The account of an empty wallet on a chain of its own.
pub record IsEmptyLocal (host : Host) (account : Str) : Type 0 where
  pub rpc : Str
  pub only : wanted_accounts host ≡ ok (account ∷ [])
  pub local : wanted_chain host ≡ codes "localsei"
  pub url : host.rpc_url (wanted_chain host) ≡ ok rpc
  pub answered : host.get_chain_id rpc ≡ ok (wanted_chain host)
  pub empty : host.get_balance rpc account (codes "usei") ≡ ok 0

-- What a client that is created belongs to.
pub record IsWanted (host : Host) (env : ClientEnv) : Type 0 where
  pub only : wanted_accounts host ≡ ok (env.account ∷ [])
  pub chain : env.chain_id ≡ wanted_chain host
  pub answered : host.get_chain_id env.rpc_url ≡ ok env.chain_id

abbrev Creates : Host → Script Transfer ClientEnv → Type 0
Creates host s =
    ((env : ClientEnv) → s.1 ≡ ok env → IsWanted host env)
    × ((s.0 ≡ []) ⊎ ((account : Str) × IsEmptyLocal host account × AllTo account s.0))

Creates-err : (host : Host) (e : Error) → Creates host ([], err e)
Creates-err host e = (λ env k. absurd (ground (arith, k)), inl refl)

expect_account-one :
    (host : Host) (accounts : List Str) (account : Str)
    → expect_account host accounts ≡ ok account
    → accounts ≡ account ∷ []
unfolding expect_account
expect_account-one host [] account e = absurd (ground (arith, e))
expect_account-one host (a ∷ []) account e = ap (λ x. x ∷ []) (ok-injective e)
expect_account-one host (a ∷ b ∷ more) account e = absurd (ground (arith, e))

-- The client is made once the funding is over.
Creates-made :
    (host : Host) (env : ClientEnv) (m : Script Transfer (Unit {0}))
    → IsWanted host env
    → (m.0 ≡ []) ⊎ ((account : Str) × IsEmptyLocal host account × AllTo account m.0)
    → Creates host (m >>= λ _. ask (ok env))
Creates-made host env (ts, err e) w funded = (λ env' k. absurd (ground (arith, k)), funded)
Creates-made host env (ts, ok _) w funded = (
  λ env' k. subst (IsWanted host) (ok-injective k) w,
  subst (λ us. (us ≡ []) ⊎ ((account : Str) × IsEmptyLocal host account × AllTo account us))
      (sym (append-nil ts)) funded,
)

-- The last steps, once the chain has answered as wanted.
Creates-funded :
    (host : Host) (rpc account gas_price : Str)
    → wanted_accounts host ≡ ok (account ∷ [])
    → host.rpc_url (wanted_chain host) ≡ ok rpc
    → host.get_chain_id rpc ≡ ok (wanted_chain host)
    → Creates host (
        fund_if_empty host (wanted_chain host) rpc account >>= λ _. ask (
          ok (record {
            account = account;
            chain_id = wanted_chain host;
            rpc_url = rpc;
            gas_price = gas_price;
          })))
unfolding fund_if_empty
Creates-funded host rpc account gas_price only url answered =
    let env : ClientEnv = record {
      account = account;
      chain_id = wanted_chain host;
      rpc_url = rpc;
      gas_price = gas_price;
    } in
    let w : IsWanted host env = record { only = only; chain = refl; answered = answered } in
    ask-elim (λ s. Creates host (s >>= λ _. ask (ok env)))
      (host.get_balance rpc account (codes "usei")) _ (Creates-err host)
      (λ balance got. elim (Bool-cases (eqb balance 0 && (wanted_chain host == codes "localsei"))) [
        | inr other ↦ rw other (Creates-made host env (ask (ok tt)) w (inl refl))
        | inl both ↦
            let local : wanted_chain host ≡ codes "localsei" =
              (==_iff (wanted_chain host) (codes "localsei")).0 (ground (arith, both)) in
            let none_left : balance ≡ 0 = ground (arith, both, eqb_iff balance 0) in
            rw both (
              Creates-made host env (fund_account host account) w (
                inr (
                  account,
                  record {
                    rpc = rpc;
                    only = only;
                    local = local;
                    url = url;
                    answered = answered;
                    empty = got ∙ ap ok none_left;
                  },
                  fund_account-to host account,
                )))
      ])

creates_lem : (host : Host) → Creates host (new_from_env_vars host)
unfolding new_from_env_vars
creates_lem host = step (wanted_accounts host) _ (λ accounts listed.
    step (expect_account host accounts) _ (λ account one.
      step (host.gas_price_from_string _) _ (λ gas_price _.
        step (host.rpc_url (wanted_chain host)) _ (λ rpc url. step (host.connect rpc) _ (λ _ _.
          step (host.get_chain_id rpc) _ (λ chain_id answered.
            elim (Bool-cases (chain_id == wanted_chain host)) [
              | inr other ↦ rw other (Creates-err host _)
              | inl same ↦
                  let at = (==_iff chain_id (wanted_chain host)).0 same in
                  let only = listed ∙ ap ok (expect_account-one host accounts account one) in
                  rw (at, ==_refl (wanted_chain host))
                    (Creates-funded host rpc account gas_price only url (answered ∙ ap ok at))
            ]))))))
  where
    step :
        {A : Type 0} (r : Result A) (next : A → Script Transfer ClientEnv)
        → ((a : A) → r ≡ ok a → Creates host (next a))
        → Creates host (ask r >>= next)
    step r next k = ask-elim (Creates host) r next (Creates-err host) k

ask_ok :
    {E A B : Type 0} (P : Script E B → Type 0) (r : Result A) (next : A → Script E B) (a : A)
    → r ≡ ok a
    → P (next a)
    → P (ask r >>= next)
ask_ok P r next a e h = subst (λ r. P (ask r >>= next)) (sym e) h

-- With one account, a chain that answers as wanted and a balance that is not 0, the client is
-- created and nothing is transferred.
creates_funded :
    (host : Host) (account gas_price rpc : Str) (n : ℕ)
    → wanted_accounts host ≡ ok (account ∷ [])
    → host.gas_price_from_string (non_empty_or host.vars.gas_price (codes "0.1usei")) ≡ ok gas_price
    → host.rpc_url (wanted_chain host) ≡ ok rpc
    → host.connect rpc ≡ ok tt
    → host.get_chain_id rpc ≡ ok (wanted_chain host)
    → host.get_balance rpc account (codes "usei") ≡ ok (suc n)
    → new_from_env_vars host ≡ (
      [],
      ok (record {
        account = account;
        chain_id = wanted_chain host;
        rpc_url = rpc;
        gas_price = gas_price;
      }),
    )
unfolding new_from_env_vars expect_account fund_if_empty
creates_funded host account gas_price rpc n only gas url connected answered balance =
    let env : ClientEnv = record {
      account = account;
      chain_id = wanted_chain host;
      rpc_url = rpc;
      gas_price = gas_price;
    } in
    let positive : eqb (suc n) 0 ≡ false = ground arith in
    let Is = λ (s : Script Transfer ClientEnv). s ≡ ([], ok env) in
    ask_ok Is (wanted_accounts host) _ (account ∷ []) only (
      ask_ok Is (host.gas_price_from_string _) _ gas_price gas (
        ask_ok Is (host.rpc_url (wanted_chain host)) _ rpc url (
          ask_ok Is (host.connect rpc) _ tt connected (
            ask_ok Is (host.get_chain_id rpc) _ (wanted_chain host) answered (
              rw (==_refl (wanted_chain host)) (
                ask_ok (λ s. Is (s >>= λ _. ask (ok env)))
                  (host.get_balance rpc account (codes "usei")) _ (suc n) balance
                  (rw positive refl)))))))

-- Whatever the host answers, a client that `newFromEnvVars` creates has the only account of the
-- wallet that the variables name, and the chain that they name (or "localsei"), which is the one
-- that answers at its address. Transfers are made only to the only account of that wallet, and only
-- if the chain asked for and answering is "localsei" and the account's balance of usei there is 0.
-- If the wallet has one account, the price and the address are answered, the chain answers as
-- wanted and the balance is not 0, the client is created and nothing is transferred.
pub new_from_env_vars_lem :
    (host : Host)
    → ((env : ClientEnv) → (new_from_env_vars host).1 ≡ ok env → IsWanted host env)
      × (((new_from_env_vars host).0 ≡ [])
          ⊎ ((account : Str) × IsEmptyLocal host account
              × AllTo account (new_from_env_vars host).0))
      × ((account gas_price rpc : Str) (n : ℕ)
          → wanted_accounts host ≡ ok (account ∷ [])
          → host.gas_price_from_string (non_empty_or host.vars.gas_price (codes "0.1usei"))
            ≡ ok gas_price
          → host.rpc_url (wanted_chain host) ≡ ok rpc
          → host.connect rpc ≡ ok tt
          → host.get_chain_id rpc ≡ ok (wanted_chain host)
          → host.get_balance rpc account (codes "usei") ≡ ok (suc n)
          → new_from_env_vars host ≡ (
            [],
            ok (record {
              account = account;
              chain_id = wanted_chain host;
              rpc_url = rpc;
              gas_price = gas_price;
            }),
          ))
new_from_env_vars_lem host =
    let (created, transferred) = creates_lem host in (created, transferred, creates_funded host)
