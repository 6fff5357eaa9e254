-- ===== src/Dmccoin/Execution/Effect.antt =====
-- abci/app/dmccoin/execution.go: what `ExecTx` does to the accounts.
use de_mars_dmc.Prelude.{◌-◌, ◌≤◌, ◌≡◌, Bool, true, false, Option, none, some, if◌then◌else◌}
use de_mars_dmc.Prelude.Int.{pos}
use de_mars_dmc.Prelude.Int64.{add64}
use de_mars_dmc.Prelude.Bytes.{Bytes, bytes_equal}
use de_mars_dmc.Types.Vote.{Scheme}
use de_mars_dmc.Dmccoin.Kvs.{Kvs}
use de_mars_dmc.Dmccoin.Accounts.{Account, AccountJson, State, account_key, set_account}
use de_mars_dmc.Dmccoin.Tx.{DmcTx, Wire, dmc_sign_bytes}
use de_mars_dmc.Dmccoin.Execution.{Log, executed, add_u64, out_address, out_plus_fees}

-- Whether a log says that the transaction was executed.
abbrev pub is_executed : Log → Bool
is_executed (executed id) = true
is_executed _ = false

module _ {S : Type 0} (kvs : Kvs S) (json : AccountJson) (wire : Wire) (scheme : Scheme) where
  abbrev pub is_executed_outcome : Option (Log × State S) → Bool
  is_executed_outcome none = false
  is_executed_outcome (some (log, state)) = is_executed log

  -- The accounts after a transfer from an address to another one, both made of one account.
  abbrev pub after_input : Account → DmcTx → Account
  after_input acc tx = record acc {
    balance = acc.balance - tx.input.coins;
    height = add64 acc.height (pos 1);
  }

  abbrev pub after_output : Account → DmcTx → Account
  after_output acc tx =
      let acc1 = after_input acc tx in
      record acc1 { balance = add_u64 (acc1.balance) tx.output.coins }

  -- A transfer that went through: the account of the output had the coins and signed, and takes
  -- the place of that of the input.
  pub record IsTransferred (state state' : State S) (tx : DmcTx) (acc : Account) : Type 0 where
    pub has_coins : tx.input.coins ≤ acc.balance
    pub signing_key : Bytes
    pub known_key : acc.pub_key ≡ some signing_key
    pub signed : scheme.verify_bytes signing_key (dmc_sign_bytes wire tx) tx.input.signature ≡ true
    pub totals : tx.input.coins ≡ out_plus_fees kvs json wire scheme tx
    pub store_eq :
        state'.store
        ≡ set_account kvs json
            (set_account kvs json state.store tx.input.address (after_input acc tx))
            (out_address kvs json wire scheme tx.output)
            (after_output acc tx)

  -- What a key of the store holds after two accounts are written.
  abbrev pub two_writes : Account → DmcTx → S → Bytes → Bytes
  two_writes acc tx store key =
      if bytes_equal key (account_key (out_address kvs json wire scheme tx.output))
      then json.marshal (after_output acc tx)
      else if bytes_equal key (account_key tx.input.address)
      then json.marshal (after_input acc tx)
      else kvs.get store key
