-- ===== src/Scripts/Deploy/Ends.antt =====
-- The deployment on a host that answers everything.
use crownfi_sei_swaps.Prelude.{
  ℕ, ◌≡◌, inl, inr, refl, sym, subst, Bool, true, false, List, [], ◌∷◌, some, In, In-append_left,
  In-append_right, ltb, arith, Bool-cases,
}
use crownfi_sei_swaps.Text.{Str, codes, ◌==◌}
use crownfi_sei_swaps.Platform.{Result, ok, err, ok-injective, Bytes, Coin}
use crownfi_sei_swaps.Scripts.Trace.{Script, ask, act, ◌>>=◌}
use crownfi_sei_swaps.Scripts.Deploy.{
  DeployHost, Deed, executed, InstantiateMsg, factory_config, FactoryIx, create_pool,
  update_fees_for_pool, coin, read_contract_binary, fund_if_low, fund_if_local, fund_wallet,
  Binaries, Codes, read_binaries, upload_all, deploy_all, create_pools, deploy,
}

-- Nothing is rejected, and no file is missing.
pub record IsAnswered (host : DeployHost) : Type 0 where
  pub balance : ℕ
  pub file : Str → Bytes
  pub code : Bytes → Bool → ℕ
  pub address : ℕ → InstantiateMsg → Str → Str
  pub balances : host.get_balance (codes "usei") ≡ ok balance
  pub funds : (c : Coin) → host.fund_from_local_keychain c ≡ ok tt
  pub files : (name : Str) → host.read_file name ≡ some (file name)
  pub uploads :
      (binary : Bytes) (allow_factories : Bool)
      → host.upload_contract binary allow_factories ≡ ok (code binary allow_factories)
  pub instantiates :
      (code_id : ℕ) (msg : InstantiateMsg) (label : Str)
      → host.instantiate_contract code_id msg label ≡ ok (address code_id msg label)
  pub executes :
      (contract_address : Str) (ix : FactoryIx) → host.execute_contract contract_address ix ≡ ok tt

ends :
    {A B : Type 0} (m : Script Deed A) (next : A → Script Deed B) (a : A) (r : Result B)
    → m.1 ≡ ok a
    → (next a).1 ≡ r
    → (m >>= next).1 ≡ r
ends (ds, err e) next a r h k = absurd (ground (arith, h))
ends (ds, ok b) next a r h k = subst (λ c. (next c).1 ≡ r) (sym (ok-injective h)) k

done_later :
    {A B : Type 0} (m : Script Deed A) (next : A → Script Deed B) (a : A) (d : Deed)
    → m.1 ≡ ok a
    → In d (next a).0
    → In d (m >>= next).0
done_later (ds, err e) next a d h k = absurd (ground (arith, h))
done_later (ds, ok b) next a d h k =
    In-append_right d ds (next b).0 (subst (λ c. In d (next c).0) (sym (ok-injective h)) k)

done_first :
    {A B : Type 0} (m : Script Deed A) (next : A → Script Deed B) (d : Deed)
    → In d m.0
    → In d (m >>= next).0
done_first (ds, err e) next d h = h
done_first (ds, ok a) next d h = In-append_left d ds (next a).0 h

act_done : {A : Type 0} (d : Deed) (r : Result A) (a : A) → r ≡ ok a → In d (act d r).0
act_done d (ok b) a h = inl refl
act_done d (err e) a h = absurd (ground (arith, h))

act_ends : {A : Type 0} (d : Deed) (r : Result A) (a : A) → r ≡ ok a → (act d r).1 ≡ ok a
act_ends d (ok b) a h = h
act_ends d (err e) a h = absurd (ground (arith, h))

module _ (host : DeployHost) (h : IsAnswered host) where
  abbrev pub pair_code_id : ℕ
  pair_code_id = h.code (h.file (codes "crownfi_pool_pair_contract.wasm")) true

  abbrev pub factory_code_id : ℕ
  factory_code_id = h.code (h.file (codes "crownfi_pool_factory_contract.wasm")) false

  abbrev pub factory_address : Str
  factory_address =
      h.address factory_code_id
        (factory_config host.sei_address host.sei_address pair_code_id 1 1 true)
        (codes "pool-factory")

  fund_if_low_ends : (n : ℕ) → (fund_if_low host n).1 ≡ ok tt
  unfolding fund_if_low
  fund_if_low_ends n = elim (Bool-cases (ltb n 1000000)) [
    | inr enough ↦ rw enough refl
    | inl low ↦ rw low (
        ends _ _ tt (ok tt) (act_ends _ _ tt (h.funds _))
          (ends _ _ tt (ok tt) (act_ends _ _ tt (h.funds _)) (act_ends _ _ tt (h.funds _))))
  ]

  abbrev answered_binaries : Binaries
  answered_binaries = record {
    cw20_wrapper = h.file (codes "crownfi_cw20_wrapper.wasm");
    erc20_wrapper = h.file (codes "crownfi_erc20_wrapper.wasm");
    swap_router = h.file (codes "crownfi_swap_router_contract.wasm");
    pool_pairs = h.file (codes "crownfi_pool_pair_contract.wasm");
    pool_factory = h.file (codes "crownfi_pool_factory_contract.wasm");
  }

  fund_wallet_ends : (fund_wallet host).1 ≡ ok tt
  unfolding fund_wallet fund_if_local
  fund_wallet_ends =
      ends (ask (host.get_balance (codes "usei"))) (λ _. fund_if_local host) h.balance (ok tt)
        h.balances
        (elim (Bool-cases (host.chain_id == codes "sei-chain")) [
          | inr other ↦ rw other refl
          | inl local ↦ rw local (
              ends (ask (host.get_balance (codes "usei"))) (fund_if_low host) h.balance (ok tt)
                h.balances (fund_if_low_ends h.balance))
        ])

  read_ends : (name : Str) → read_contract_binary host name ≡ ok (h.file name)
  unfolding read_contract_binary
  read_ends name = rw (h.files name, read_contract_binary) refl

  read_binaries_ends : read_binaries host ≡ ok answered_binaries
  unfolding read_binaries
  read_binaries_ends = simp (read_ends)

  abbrev answered_codes : Codes
  answered_codes =
      let b = answered_binaries in
      record {
        cw20_code = h.code b.cw20_wrapper false;
        erc20_code = h.code b.erc20_wrapper false;
        router_code = h.code b.swap_router false;
        pair_code = h.code b.pool_pairs true;
        factory_code = h.code b.pool_factory false;
      }

  -- One thing that is done on this host, and the rest.
  done :
      {A B : Type 0} (d : Deed) (r : Result A) (next : A → Script Deed B) (a : A) (end : Result B)
      → r ≡ ok a
      → (next a).1 ≡ end
      → (act d r >>= next).1 ≡ end
  done d r next a end e k = ends (act d r) next a end (act_ends d r a e) k

  upload_all_ends : (upload_all host answered_binaries).1 ≡ ok answered_codes
  unfolding upload_all
  upload_all_ends = done _ _ _ _ _ (h.uploads _ _) (
      done _ _ _ _ _ (h.uploads _ _) (
        done _ _ _ _ _ (h.uploads _ _)
          (done _ _ _ _ _ (h.uploads _ _) (done _ _ _ _ _ (h.uploads _ _) refl))))

  deploy_all_ends : (deploy_all host answered_codes).1 ≡ ok factory_address
  unfolding deploy_all
  deploy_all_ends = done _ _ _ _ _ (h.instantiates _ _ _) (
      done _ _ _ _ _ (h.instantiates _ _ _)
        (done _ _ _ _ _ (h.instantiates _ _ _) (act_ends _ _ _ (h.instantiates _ _ _))))

  create_pools_ends : (factory : Str) → (create_pools host factory).1 ≡ ok tt
  unfolding create_pools
  create_pools_ends factory =
      done _ _ _ _ _ (h.executes _ _)
        (done _ _ _ _ _ (h.executes _ _) (act_ends _ _ _ (h.executes _ _)))

  -- The instructions that the factory is given.
  abbrev pub pool_instructions : List FactoryIx
  pool_instructions =
      create_pool (codes "uatom") host.sei_address
        (coin 1000000000 (codes "uatom") ∷ coin 1000000000 (codes "usei") ∷ [])
      ∷ create_pool (codes "usei") host.sei_address
          (coin 1000000000 (codes "usei") ∷ coin 1000000000 (codes "uusdc") ∷ [])
      ∷ update_fees_for_pool (codes "usei", codes "uusdc") 2 3
      ∷ []

  executed_last :
      (factory : Str) (ix : FactoryIx)
      → In ix pool_instructions
      → In (executed factory ix) (create_pools host factory).0
  unfolding create_pools
  executed_last factory ix (inl e) = rw e (
      done_first (act (executed factory _) (host.execute_contract factory _)) _ _
        (act_done _ _ tt (h.executes factory _)))
  executed_last factory ix (inr (inl e)) = rw e (
      done_later _ _ tt _ (act_ends _ _ tt (h.executes factory _))
        (done_first _ _ _ (act_done _ _ tt (h.executes factory _))))
  executed_last factory ix (inr (inr (inl e))) = rw e (
      done_later _ _ tt _ (act_ends _ _ tt (h.executes factory _)) (
        done_later _ _ tt _ (act_ends _ _ tt (h.executes factory _))
          (act_done _ _ tt (h.executes factory _))))
  executed_last factory ix (inr (inr (inr e))) = absurd e

  -- On a host that answers everything the deployment returns the pairs of the factory, which is
  -- instantiated from the code uploaded for it, with the wallet as its administrator and the code
  -- uploaded for the pools as that of its pairs; the factory has executed the three instructions.
  pub deploy_ends :
      ((deploy host).1 ≡ host.query_pairs factory_address)
      × ((ix : FactoryIx)
          → In ix pool_instructions
          → In (executed factory_address ix) (deploy host).0)
  unfolding deploy
  deploy_ends = (
    ends (fund_wallet host) _ tt _ fund_wallet_ends (
        ends (ask (read_binaries host)) _ answered_binaries _ read_binaries_ends (
          ends (upload_all host answered_binaries) _ answered_codes _ upload_all_ends (
            ends (deploy_all host answered_codes) _ factory_address _ deploy_all_ends (
              ends (create_pools host factory_address) _ tt _ (create_pools_ends factory_address)
                refl)))),
    λ ix member. done_later (fund_wallet host) _ tt _ fund_wallet_ends (
        done_later (ask (read_binaries host)) _ answered_binaries _ read_binaries_ends (
          done_later (upload_all host answered_binaries) _ answered_codes _ upload_all_ends (
            done_later (deploy_all host answered_codes) _ factory_address _ deploy_all_ends (
              done_first (create_pools host factory_address) _ _
                (executed_last factory_address ix member))))),
  )
