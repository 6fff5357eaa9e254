-- ===== src/Dmccoin/Execution.antt =====
-- abci/app/dmccoin/execution.go: `ExecTx`.
pub mod Effect
pub mod Refused
pub mod Keyless
use de_mars_dmc.Prelude.{
  ℕ, ◌+◌, ◌-◌, ◌%◌, Bool, true, false, not, Option, none, some, [], length, ltb, ◌==◌,
  if◌then◌else◌,
}
use de_mars_dmc.Prelude.Int.{ℤ, pos}
use de_mars_dmc.Prelude.Int64.{add64, two_64}
use de_mars_dmc.Prelude.Bytes.{Bytes}
use de_mars_dmc.Types.Vote.{Scheme}
use de_mars_dmc.Dmccoin.Kvs.{Kvs}
use de_mars_dmc.Dmccoin.Accounts.{
  Account, empty_account, AccountJson, State, state_get_account, state_set_account,
}
use de_mars_dmc.Dmccoin.Tx.{
  TxInput, TxOutput, DmcTx, Tx, utxo_tx, app_tx, dmc_tx, Wire, validate_input, validate_output,
  chain_and_address, dmc_sign_bytes, tx_id,
}

-- The log of the answer, which is all that it holds: the check that failed, or the id of the
-- transaction.
pub data Log : Type 0 where
  in_validate_input_basic in_validate_output_basic in_validate_input_advanced : Log
  totals_differ : ℕ → ℕ → Log
  executed : Bytes → Log

-- `acc.Balance + out.Coins` in uint64.
abbrev pub add_u64 : ℕ → ℕ → ℕ
add_u64 a b = (a + b) % two_64

module _ {S : Type 0} (kvs : Kvs S) (json : AccountJson) (wire : Wire) (scheme : Scheme) where
  -- `getInput`: a missing account and a nil key in the input panic (`none`); the account gets the
  -- key of the input, equal or not.
  unfoldable pub get_input : State S → TxInput → Option Account
  unfolding state_get_account
  get_input state tx_in = elim (state_get_account kvs json state tx_in.address) [
    | none ↦ none
    | some acc ↦ elim tx_in.pub_key [
      | none ↦ none
      | some key ↦ some (record acc { pub_key = some key })
    ]
  ]

  -- `getOrMakeOutput`
  unfoldable pub get_or_make_output : State S → TxOutput → Account
  unfolding state_get_account
  get_or_make_output state tx_out = elim (state_get_account kvs json state tx_out.address) [
    | none ↦ empty_account
    | some acc ↦ acc
  ]

  -- `validateInputAdvanced`; the method of a nil key panics.
  unfoldable pub validate_input_advanced : Account → Bytes → TxInput → Option Bool
  validate_input_advanced acc msg tx_in =
      if ltb acc.balance tx_in.coins then some false else elim acc.pub_key [
        | none ↦ none
        | some key ↦ some (scheme.verify_bytes key msg tx_in.signature)
      ]

  -- `adjustByInput`, with the account after it.
  unfoldable pub adjust_by_input : State S → Account → TxInput → Option (Account × State S)
  unfolding state_set_account
  adjust_by_input state acc tx_in =
      if ltb acc.balance tx_in.coins
      then none
      else (let acc1 = record acc {
        balance = acc.balance - tx_in.coins;
        height = add64 acc.height (pos 1);
      } in
          some (acc1, state_set_account kvs json state tx_in.address acc1))

  abbrev pub out_address : TxOutput → Bytes
  out_address tx_out = elim (chain_and_address tx_out) [
    | none ↦ []
    | some (chain, address) ↦ address
  ]

  -- `adjustByOutput`
  unfoldable pub adjust_by_output : State S → Account → TxOutput → Bool → State S
  unfolding state_set_account chain_and_address
  adjust_by_output state acc tx_out is_check_tx =
      if not is_check_tx
      then state_set_account kvs json state (out_address tx_out)
          (record acc { balance = add_u64 acc.balance tx_out.coins })
      else state

  -- `outPlusFees`
  abbrev pub out_plus_fees : DmcTx → ℕ
  out_plus_fees tx = if not (tx.fee == 1) then add_u64 tx.output.coins tx.fee else tx.output.coins

  -- The last part of the case of a `DMCTx`: the accounts are adjusted.
  unfoldable pub adjust : State S → Account → DmcTx → Bool → Option (Log × State S)
  unfolding adjust_by_input adjust_by_output tx_id
  adjust state acc tx is_check_tx = elim (adjust_by_input state acc tx.input) [
    | none ↦ none
    | some (acc1, state1) ↦
        some (executed (tx_id wire (dmc_tx tx)), adjust_by_output state1 acc1 tx.output is_check_tx)
  ]

  -- The part after the basic checks: the account of the input gives way to that of the output.
  unfoldable pub transfer : State S → DmcTx → Bool → Option (Log × State S)
  unfolding get_or_make_output validate_input_advanced dmc_sign_bytes adjust
  transfer state tx is_check_tx =
      let account = get_or_make_output state tx.output in
      elim (validate_input_advanced account (dmc_sign_bytes wire tx) tx.input) [
        | none ↦ none
        | some false ↦ some (in_validate_input_advanced, state)
        | some true ↦
            if not (tx.input.coins == out_plus_fees tx)
            then some (totals_differ tx.input.coins (out_plus_fees tx), state)
            else adjust state account tx is_check_tx
      ]

  -- The case of a `DMCTx`.
  unfoldable pub exec_dmc : State S → DmcTx → Bool → Option (Log × State S)
  unfolding validate_input validate_output get_input transfer
  exec_dmc state tx is_check_tx = elim (validate_input wire tx.input) [
    | none ↦ none
    | some false ↦ some (in_validate_input_basic, state)
    | some true ↦
        if not (validate_output tx.output)
        then some (in_validate_output_basic, state)
        else elim (get_input state tx.input) [
          | none ↦ none
          | some account ↦ transfer state tx is_check_tx
        ]
  ]

  -- `ExecTx`, with the state after it; `none` is a panic.
  unfoldable pub exec_tx : State S → Tx → Bool → ℤ → Option (Log × State S)
  unfolding exec_dmc state_set_account tx_id
  exec_tx state (dmc_tx tx) is_check_tx height = exec_dmc state tx is_check_tx
  exec_tx state (utxo_tx tx) is_check_tx height = some (
    executed (tx_id wire (utxo_tx tx)),
    state_set_account kvs json state tx.address
        (record { pub_key = none; height = height; balance = tx.balance; address = tx.address }),
  )
  exec_tx state (app_tx tx) is_check_tx height = some (executed (tx_id wire (app_tx tx)), state)
