-- ===== src/Scripts/Deploy/Order.antt =====
-- The order in which the deployment changes the chain.
use crownfi_sei_swaps.Prelude.{
  ℕ, ◌≤◌, ◌≡◌, ◌⊎◌, inl, inr, refl, sym, ap, ◌∙◌, List, [], ◌∷◌, append-nil, none, In, ltb, arith,
  Bool-cases, Option-cases,
}
use crownfi_sei_swaps.Text.{Str, codes, ◌==◌}
use crownfi_sei_swaps.Platform.{Result, ok, err, Error, rejected, Bytes}
use crownfi_sei_swaps.Scripts.Trace.{
  Script, ask, act, ◌>>=◌, Between, Between-bind, Between-act, Between-refl, Between-down,
}
use crownfi_sei_swaps.Scripts.Deploy.{
  DeployHost, Deed, and_read, funded, uploaded, instantiated, executed, read_contract_binary,
  fund_wallet, fund_if_local, fund_if_low, Binaries, Codes, read_binaries, upload_all, deploy_all,
  create_pools, deploy,
}
use crownfi_sei_swaps.Scripts.Deploy.Ends.{
  IsAnswered, factory_address, pool_instructions, deploy_ends,
}
use crownfi_sei_swaps.Scripts.Deploy.{FactoryIx}

abbrev pub phase : Deed → ℕ
phase (funded c) = 0
phase (uploaded name allow) = 1
phase (instantiated name code_id msg label) = 2
phase (executed factory ix) = 3

-- One thing that is done, in the phase that it belongs to, and then the rest.
act-Between :
    {A B : Type 0} (hi : ℕ) (d : Deed) (r : Result A) (next : A → Script Deed B)
    → phase d ≤ hi
    → ((a : A) → Between phase (phase d) hi (next a).0)
    → Between phase (phase d) hi (act d r >>= next).0
act-Between hi d r next h k =
    Between-bind phase (phase d) (phase d) hi (act d r) next h
      (Between-act phase (phase d) d r refl) k

ask-Between :
    {A B : Type 0} (lo hi : ℕ) (r : Result A) (next : A → Script Deed B)
    → lo ≤ hi
    → ((a : A) → Between phase lo hi (next a).0)
    → Between phase lo hi (ask r >>= next).0
ask-Between lo hi r next h k = Between-bind phase lo lo hi (ask r) next h (Between-refl phase lo) k

module _ (host : DeployHost) where
  fund_if_low-Between : (balance : ℕ) → Between phase 0 0 (fund_if_low host balance).0
  unfolding fund_if_low
  fund_if_low-Between balance = elim (Bool-cases (ltb balance 1000000)) [
    | inr enough ↦ rw enough (omega arith)
    | inl low ↦ rw low (
        act-Between 0 _ _ _ (omega arith)
          (λ _. act-Between 0 _ _ _ (omega arith) (λ _. Between-act phase 0 _ _ refl)))
  ]

  fund_wallet-Between : Between phase 0 0 (fund_wallet host).0
  unfolding fund_wallet fund_if_local
  fund_wallet-Between =
      ask-Between 0 0 (host.get_balance (codes "usei")) (λ _. fund_if_local host) (omega arith)
        (λ _. elim (Bool-cases (host.chain_id == codes "sei-chain")) [
          | inr other ↦ rw other (omega arith)
          | inl local ↦ rw local (
              ask-Between 0 0 (host.get_balance (codes "usei")) (fund_if_low host) (omega arith)
                fund_if_low-Between)
        ])

  upload_all-Between : (b : Binaries) → Between phase 1 1 (upload_all host b).0
  unfolding upload_all
  upload_all-Between b = act-Between 1 _ _ _ (omega arith) (λ _.
      act-Between 1 _ _ _ (omega arith) (λ _. act-Between 1 _ _ _ (omega arith) (λ _.
        act-Between 1 _ _ _ (omega arith)
          (λ _. act-Between 1 _ _ _ (omega arith) (λ _. omega arith)))))

  deploy_all-Between : (c : Codes) → Between phase 2 2 (deploy_all host c).0
  unfolding deploy_all
  deploy_all-Between c = act-Between 2 _ _ _ (omega arith) (λ _.
      act-Between 2 _ _ _ (omega arith)
        (λ _. act-Between 2 _ _ _ (omega arith) (λ _. Between-act phase 2 _ _ refl)))

  create_pools-Between : (factory : Str) → Between phase 3 3 (create_pools host factory).0
  unfolding create_pools
  create_pools-Between factory =
      act-Between 3 _ _ _ (omega arith)
        (λ _. act-Between 3 _ _ _ (omega arith) (λ _. Between-act phase 3 _ _ refl))

  deploy-Between : Between phase 0 3 (deploy host).0
  unfolding deploy
  deploy-Between =
      Between-bind phase 0 0 3 (fund_wallet host) _ (omega arith) fund_wallet-Between (λ _.
        ask-Between 0 3 (read_binaries host) _ (omega arith) (λ binaries.
          Between-bind phase 0 1 3 (upload_all host binaries) _ (omega arith)
            (Between-down phase 0 1 1 _ (omega arith) (upload_all-Between binaries))
            (λ code_ids.
              Between-bind phase 1 2 3 (deploy_all host code_ids) _ (omega arith)
                (Between-down phase 1 2 2 _ (omega arith) (deploy_all-Between code_ids))
                (λ factory.
                  Between-bind phase 2 3 3 (create_pools host factory) _ (omega arith)
                    (Between-down phase 2 3 3 _ (omega arith) (create_pools-Between factory))
                    (λ _. omega arith)))))

-- The files of the contracts.
abbrev pub contract_files : List Str
contract_files =
    codes "crownfi_cw20_wrapper.wasm"
    ∷ codes "crownfi_erc20_wrapper.wasm"
    ∷ codes "crownfi_swap_router_contract.wasm"
    ∷ codes "crownfi_pool_pair_contract.wasm"
    ∷ codes "crownfi_pool_factory_contract.wasm"
    ∷ []

abbrev exited : Error
exited = rejected (codes "process.exit(1)")

module _ (host : DeployHost) where
  -- A file is missing, or what follows ends so.
  and_read-missing :
      {A : Type 0} (file : Str) (rest : Bytes → Result A)
      → (host.read_file file ≡ none) ⊎ ((b : Bytes) → rest b ≡ err exited)
      → and_read (read_contract_binary host file) rest ≡ err exited
  unfolding read_contract_binary
  and_read-missing file rest h = elim (Option-cases (host.read_file file)) [
    | inl missing ↦ rw (missing, read_contract_binary) refl
    | inr (b, found) ↦
        rw (found, read_contract_binary)
          (elim h [ inl missing ↦ absurd (ground (arith, missing, found)) | inr later ↦ later b ])
  ]

  read_binaries-missing :
      (name : Str)
      → In name contract_files
      → host.read_file name ≡ none
      → read_binaries host ≡ err exited
  unfolding read_binaries
  read_binaries-missing name member missing = step _ _ member (λ m1 _.
      step _ _ m1
        (λ m2 _. step _ _ m2 (λ m3 _. step _ _ m3 (λ m4 _. step _ _ m4 (λ m5 _. absurd m5)))))
    where
      step :
          {A : Type 0} {Q : Type 0} (file : Str) (rest : Bytes → Result A)
          → (name ≡ file) ⊎ Q
          → (Q → (b : Bytes) → rest b ≡ err exited)
          → and_read (read_contract_binary host file) rest ≡ err exited
      step file rest (inl e) k =
          and_read-missing file rest (inl (ap host.read_file (sym e) ∙ missing))
      step file rest (inr q) k = and_read-missing file rest (inr (k q))

  funded-then :
      {A : Type 0} (m : Script Deed (Unit {0}))
      → Between phase 0 0 m.0
      → let s = m >>= λ _. ask {E = Deed} {A = A} (err exited) in
        Between phase 0 0 s.0 × ((e : Error) × (s.1 ≡ err e))
  funded-then (ds, err e) h = (h, (e, refl))
  funded-then (ds, ok _) h = (rw (append-nil ds) h, (exited, refl))

  -- Whatever the host answers, the deployment funds the wallet before it uploads anything,
  -- uploads before it instantiates anything and instantiates before it executes anything: none
  -- of the four phases comes back. If one of the five files is missing it ends with an error,
  -- and nothing but the funding has been done. If nothing is rejected and no file is missing,
  -- it returns the pairs of the factory, which is instantiated from the code uploaded for it,
  -- with the wallet as its administrator and the code uploaded for the pools as that of its
  -- pairs; and the factory has executed the two instructions for pools and the one for fees.
  pub deploy_by_phases :
      Between phase 0 3 (deploy host).0
      × ((name : Str)
          → In name contract_files
          → host.read_file name ≡ none
          → Between phase 0 0 (deploy host).0 × ((e : Error) × ((deploy host).1 ≡ err e)))
      × ((answered : IsAnswered host)
          → ((deploy host).1 ≡ host.query_pairs (factory_address host answered))
            × ((ix : FactoryIx)
                → In ix (pool_instructions host answered)
                → In (executed (factory_address host answered) ix) (deploy host).0))
  unfolding deploy
  deploy_by_phases = (
    deploy-Between host,
    λ name member missing.
        rw (read_binaries-missing name member missing, deploy)
          (funded-then (fund_wallet host) (fund_wallet-Between host)),
    deploy_ends host,
  )
