-- ===== src/Dmccoin/Execution/Refused.antt =====
-- abci/app/dmccoin/execution.go: an `ExecTx` that fails a check changes nothing.
use mathlib.Core.Option.{some-injective}
use de_mars_dmc.Prelude.{
  ◌≡◌, ◌≢◌, refl, sym, ap, inl, inr, Bool, true, false, Option, some, ◌==◌, Bool-cases,
  Option-cases,
}
use de_mars_dmc.Prelude.Int.{ℤ}
use de_mars_dmc.Prelude.Bytes.{Bytes}
use de_mars_dmc.Types.Vote.{Scheme}
use de_mars_dmc.Dmccoin.Kvs.{Kvs}
use de_mars_dmc.Dmccoin.Accounts.{Account, AccountJson, State}
use de_mars_dmc.Dmccoin.Tx.{
  DmcTx, Tx, utxo_tx, app_tx, dmc_tx, Wire, validate_input, validate_output, dmc_sign_bytes,
}
use de_mars_dmc.Dmccoin.Execution.Effect.{is_executed, is_executed_outcome}
use de_mars_dmc.Dmccoin.Execution.{
  Log, executed, in_validate_input_advanced, in_validate_input_basic, in_validate_output_basic,
  totals_differ, get_input, get_or_make_output, validate_input_advanced, adjust_by_input,
  out_plus_fees, adjust, transfer, exec_dmc, exec_tx,
}

not_executed : (log : Log) → ((id : Bytes) → log ≢ executed id) → is_executed log ≡ false
not_executed (executed id) r = absurd (r id refl)
not_executed in_validate_input_basic r = refl
not_executed in_validate_output_basic r = refl
not_executed in_validate_input_advanced r = refl
not_executed (totals_differ a b) r = refl

module _ {S : Type 0} (kvs : Kvs S) (json : AccountJson) (wire : Wire) (scheme : Scheme) where
  adjust-is_executed :
      (state state' : State S) (acc : Account) (tx : DmcTx) (c : Bool) (log : Log)
      → adjust kvs json wire scheme state acc tx c ≡ some (log, state')
      → is_executed log ≡ true
  unfolding adjust
  adjust-is_executed state state' acc tx c log h =
      elim (Option-cases (adjust_by_input kvs json wire scheme state acc tx.input)) [
        | inl e ↦ absurd (let h' = rw (e, adjust) at h in cc)
        | inr ((acc1, state1), e) ↦
            sym (ap (is_executed_outcome kvs json wire scheme) (rw (e, adjust) at h))
      ]

  same_state :
      (state state' : State S) (log log' : Log)
      → ◌≡◌ {A = Option (Log × State S)} (some (log, state)) (some (log', state'))
      → state' ≡ state
  same_state state state' log log' h = ap (λ (p : Log × State S). p.1) (sym (some-injective _ _ h))

  transfer-refused :
      (state state' : State S) (tx : DmcTx) (c : Bool) (log : Log)
      → is_executed log ≡ false
      → transfer kvs json wire scheme state tx c ≡ some (log, state')
      → state' ≡ state
  unfolding transfer
  transfer-refused state state' tx c log r h =
      elim (Option-cases (
        validate_input_advanced kvs json wire scheme
          (get_or_make_output kvs json wire scheme state tx.output) (dmc_sign_bytes wire tx)
          tx.input)) [
            | inl v ↦ absurd (let h' = rw (v, transfer) at h in cc)
            | inr (false, v) ↦ same_state state state' _ log (rw (v, transfer) at h)
            | inr (true, v) ↦
                elim (Bool-cases (tx.input.coins == out_plus_fees kvs json wire scheme tx)) [
                  | inr e ↦ same_state state state' _ log (rw (v, transfer, e) at h)
                  | inl e ↦ absurd (
                      let d =
                        adjust-is_executed state state' _ tx c log (rw (v, transfer, e) at h) in
                      cc)
                ]
          ]

  exec_dmc-refused :
      (state state' : State S) (tx : DmcTx) (c : Bool) (log : Log)
      → is_executed log ≡ false
      → exec_dmc kvs json wire scheme state tx c ≡ some (log, state')
      → state' ≡ state
  unfolding exec_dmc
  exec_dmc-refused state state' tx c log r h = elim (Option-cases (validate_input wire tx.input)) [
    | inl v ↦ absurd (let h' = rw (v, exec_dmc) at h in cc)
    | inr (false, v) ↦ same_state state state' _ log (rw (v, exec_dmc) at h)
    | inr (true, v) ↦ elim (Bool-cases (validate_output tx.output)) [
      | inr e ↦ same_state state state' _ log (rw (v, exec_dmc, e) at h)
      | inl e ↦ elim (Option-cases (get_input kvs json wire scheme state tx.input)) [
        | inl g ↦ absurd (let h' = rw (v, exec_dmc, e, g) at h in cc)
        | inr (acc, g) ↦ transfer-refused state state' tx c log r (rw (v, exec_dmc, e, g) at h)
      ]
    ]
  ]

  -- A transaction that `ExecTx` answers without the id of it, because a check failed, leaves the
  -- state as it was.
  pub exec_tx-refused :
      (state state' : State S) (tx : Tx) (c : Bool) (height : ℤ) (log : Log)
      → ((id : Bytes) → log ≢ executed id)
      → exec_tx kvs json wire scheme state tx c height ≡ some (log, state')
      → state' ≡ state
  unfolding exec_tx
  exec_tx-refused state state' (dmc_tx tx) c height log r h =
      exec_dmc-refused state state' tx c log (not_executed log r) h
  exec_tx-refused state state' (utxo_tx tx) c height log r h =
      absurd (r _ (sym (ap (λ (p : Log × State S). p.0) (some-injective _ _ h))))
  exec_tx-refused state state' (app_tx tx) c height log r h =
      absurd (r _ (sym (ap (λ (p : Log × State S). p.0) (some-injective _ _ h))))
