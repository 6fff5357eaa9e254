-- ===== src/Dmccoin/Execution/Keyless.antt =====
-- abci/app/dmccoin/execution.go: `ExecTx` where accounts are read without their public keys, as
-- encoding/json reads them, since it cannot decode into the interface `crypto.PubKey`.
use mathlib.Core.Option.{some-injective}
use de_mars_dmc.Prelude.{
  ◌≡◌, ◌∙◌, ◌⊎◌, sym, ap, refl, inl, inr, Bool, true, false, Option, none, some, length, ltb, ◌==◌,
  Bool-cases, Option-cases,
}
use de_mars_dmc.Prelude.Int.{ℤ}
use de_mars_dmc.Prelude.Bytes.{Bytes}
use de_mars_dmc.Types.Vote.{Scheme}
use de_mars_dmc.Dmccoin.Kvs.{Kvs}
use de_mars_dmc.Dmccoin.Accounts.{
  Account, AccountJson, State, account_key, get_account, state_get_account,
}
use de_mars_dmc.Dmccoin.Tx.{
  TxInput, TxOutput, DmcTx, dmc_tx, Wire, validate_input, validate_output, dmc_sign_bytes,
}
use de_mars_dmc.Dmccoin.Execution.{
  Log, in_validate_input_basic, in_validate_output_basic, in_validate_input_advanced, get_input,
  get_or_make_output, validate_input_advanced, transfer, exec_dmc, exec_tx,
}
use de_mars_dmc.Dmccoin.Execution.Effect.{is_executed}

module _ {S : Type 0} (kvs : Kvs S) (json : AccountJson) (wire : Wire) (scheme : Scheme)
    (keyless : (b : Bytes) → (json.unmarshal b).pub_key ≡ none) where
  -- A panic, or an answer without the execution that leaves the state as it is.
  IsUnexecuted : State S → Option (Log × State S) → Type 0
  IsUnexecuted state outcome =
      (outcome ≡ none) ⊎ ((log : Log) × (outcome ≡ some (log, state)) × (is_executed log ≡ false))

  get_account-keyless :
      (store : S) (addr : Bytes) (acc : Account)
      → get_account kvs json store addr ≡ some acc
      → acc.pub_key ≡ none
  unfolding get_account
  get_account-keyless store addr acc h =
      elim (Bool-cases (length (kvs.get store (account_key addr)) == 0)) [
        | inl e ↦ absurd (let h' = rw e at h in cc)
        | inr e ↦ ap (λ (x : Account). x.pub_key) (sym (some-injective _ _ (rw e at h))) ∙ keyless _
      ]

  get_or_make_output-keyless :
      (state : State S) (tx_out : TxOutput)
      → (get_or_make_output kvs json wire scheme state tx_out).pub_key ≡ none
  unfolding get_or_make_output state_get_account
  get_or_make_output-keyless state tx_out =
      elim (Option-cases (get_account kvs json state.store tx_out.address)) [
        | inl e ↦ rw (e, get_or_make_output) refl
        | inr (acc, e) ↦
            rw (e, get_or_make_output) (get_account-keyless state.store tx_out.address acc e)
      ]

  -- An account without a key lacks the coins, or the call of its key panics.
  advanced-keyless :
      (acc : Account) (msg : Bytes) (tx_in : TxInput)
      → acc.pub_key ≡ none
      → (validate_input_advanced kvs json wire scheme acc msg tx_in ≡ none)
        ⊎ (validate_input_advanced kvs json wire scheme acc msg tx_in ≡ some false)
  unfolding validate_input_advanced
  advanced-keyless acc msg tx_in no_key = elim (Bool-cases (ltb acc.balance tx_in.coins)) [
    | inl e ↦ inr (rw e refl)
    | inr e ↦ inl (rw (e, no_key) refl)
  ]

  transfer-IsUnexecuted :
      (state : State S) (tx : DmcTx) (is_check_tx : Bool)
      → IsUnexecuted state (transfer kvs json wire scheme state tx is_check_tx)
  unfolding IsUnexecuted transfer
  transfer-IsUnexecuted state tx is_check_tx =
      elim (advanced-keyless (get_or_make_output kvs json wire scheme state tx.output)
        (dmc_sign_bytes wire tx) tx.input (get_or_make_output-keyless state tx.output)) [
          | inl e ↦ inl (rw (e, transfer) refl)
          | inr e ↦ inr (in_validate_input_advanced, rw (e, transfer) refl, refl)
        ]

  exec_dmc-IsUnexecuted :
      (state : State S) (tx : DmcTx) (is_check_tx : Bool) (v : Option Bool)
      → validate_input wire tx.input ≡ v
      → IsUnexecuted state (exec_dmc kvs json wire scheme state tx is_check_tx)
  unfolding IsUnexecuted exec_dmc
  exec_dmc-IsUnexecuted state tx is_check_tx none h = inl (rw (h, exec_dmc) refl)
  exec_dmc-IsUnexecuted state tx is_check_tx (some false) h =
      inr (in_validate_input_basic, rw (h, exec_dmc) refl, refl)
  exec_dmc-IsUnexecuted state tx is_check_tx (some true) h =
      elim (Bool-cases (validate_output tx.output)) [
        | inr e ↦ inr (in_validate_output_basic, rw (h, exec_dmc, e) refl, refl)
        | inl e ↦ elim (Option-cases (get_input kvs json wire scheme state tx.input)) [
          | inl g ↦ inl (rw (h, exec_dmc, e, g) refl)
          | inr (acc, g) ↦ rw (h, exec_dmc, e, g) (transfer-IsUnexecuted state tx is_check_tx)
        ]
      ]

  -- Where accounts are read from JSON without their public keys, `ExecTx` executes no `DMCTx`: it
  -- panics, or it answers with a check that failed and leaves the state as it was.
  pub exec_tx-keyless :
      (state : State S) (tx : DmcTx) (is_check_tx : Bool) (height : ℤ)
      → (exec_tx kvs json wire scheme state (dmc_tx tx) is_check_tx height ≡ none)
        ⊎ ((log : Log) × (exec_tx kvs json wire scheme state (dmc_tx tx) is_check_tx height
              ≡ some (log, state))
            × (is_executed log ≡ false))
  unfolding IsUnexecuted exec_tx
  exec_tx-keyless state tx is_check_tx height =
      exec_dmc-IsUnexecuted state tx is_check_tx (validate_input wire tx.input) refl
