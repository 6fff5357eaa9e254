-- ===== src/Tests/Dmccoin.antt =====
-- Two accounts and a transfer between them, over a store in memory.
use de_mars_dmc.Prelude.{◌⊎◌, ◌≡◌, refl, false, Option, none, some, List, [], ◌∷◌, replicate, ◌≢◌}
use de_mars_dmc.Prelude.Int.{pos, ◌+ℤ◌}
use de_mars_dmc.Prelude.Int64.{add64, wrap64}
use de_mars_dmc.Prelude.Bytes.{Bytes, bytes_equal}
use de_mars_dmc.Prelude.Maps.{lookup, insert}
use de_mars_dmc.Dmccoin.Kvs.{
  MemKvs, mem_kvs, mem_get, Request, read, write, flush, discard, cache_run, Pending, pending_run,
  new_kv_cache,
}
use de_mars_dmc.Dmccoin.Kvs.Sync.{sync-cache_run}
use de_mars_dmc.Dmccoin.Accounts.{
  Account, empty_account, AccountJson, State, get_account, set_account, state_get_account,
  state_set_account, top_k_accounts,
}
use de_mars_dmc.Dmccoin.Execution.Keyless.{exec_tx-keyless}
use de_mars_dmc.Dmccoin.Accounts.TopK.{top_k_accounts-IsLowest, IsLowest}
use de_mars_dmc.Dmccoin.Tx.{
  DmcTx, dmc_tx, Wire, validate_input, key_fits, validate_output, chain_and_address, split_slash,
  dmc_sign_bytes, sign_bytes, tx_id,
}
use de_mars_dmc.Dmccoin.Execution.{
  Log, executed, in_validate_input_basic, get_input, get_or_make_output, validate_input_advanced,
  adjust_by_input, adjust_by_output, adjust, transfer, exec_dmc, exec_tx,
}
use de_mars_dmc.Dmccoin.Execution.Effect.{is_executed}
use de_mars_dmc.Dmccoin.Execution.Refused.{exec_tx-refused}
use de_mars_dmc.Tests.Stand.{scheme, join, split, int, from_int}

abbrev small_store : MemKvs
small_store = (2 ∷ [], 6 ∷ []) ∷ []

abbrev requests : List (Request mem_kvs)
requests =
    write (1 ∷ []) (5 ∷ [])
    ∷ read (2 ∷ [])
    ∷ flush
    ∷ write (2 ∷ []) (9 ∷ [])
    ∷ discard
    ∷ read (2 ∷ [])
    ∷ []

sync-cache_run_example :
    let start : Pending mem_kvs = record { kept = small_store; current = small_store } in
    ((cache_run mem_kvs (new_kv_cache small_store) requests).0
      ≡ (pending_run mem_kvs start requests).0)
    × ((key : Bytes)
        → mem_get (cache_run mem_kvs (new_kv_cache small_store) requests).1.store key
          ≡ mem_get (pending_run mem_kvs start requests).1.kept key)
sync-cache_run_example = sync-cache_run mem_kvs small_store requests

-- An account as four slices.
abbrev opt_key : Option Bytes → Bytes
opt_key none = []
opt_key (some key) = 1 ∷ key

abbrev from_opt_key : Bytes → Option Bytes
from_opt_key [] = none
from_opt_key (_ ∷ key) = some key

abbrev account_fields : Account → List Bytes
account_fields acc = opt_key acc.pub_key ∷ int acc.height ∷ (acc.balance ∷ []) ∷ acc.address ∷ []

abbrev account_of_fields : List Bytes → Account
account_of_fields (k ∷ h ∷ (b ∷ _) ∷ a ∷ _) = record {
  pub_key = from_opt_key k;
  height = from_int h;
  balance = b;
  address = a;
}
account_of_fields _ = empty_account

unfoldable json : AccountJson
unfolding join split
json = record {
  marshal = λ acc. join (account_fields acc);
  unmarshal = λ b. account_of_fields (split b);
}

abbrev owner : Account
owner = record { pub_key = some (7 ∷ []); height = pos 1; balance = 50; address = replicate 20 3 }

abbrev payer : Account
payer = record { pub_key = some (5 ∷ []); height = pos 1; balance = 90; address = replicate 64 2 }

abbrev wire : Wire
wire = record {
  dmc_bytes = λ tx. tx.fee ∷ tx.input.coins ∷ [];
  app_bytes = λ tx. tx.name;
  ripemd160 = λ b. b;
  pub_key_bytes = λ key. key;
}

abbrev two_accounts : State MemKvs
two_accounts = record {
  chain_id = [];
  store =
      set_account mem_kvs json (set_account mem_kvs json [] (replicate 64 2) payer) (replicate 20 3)
        owner;
  read_cache = some [];
  write_cache = none;
}

abbrev payment : DmcTx
payment = record {
  fee = 1;
  input = record {
    address = replicate 64 2;
    coins = 10;
    sequence = pos 1;
    signature = some (7 ∷ 1 ∷ 10 ∷ []);
    pub_key = some (5 ∷ []);
  };
  output = record { address = replicate 20 3; coins = 10 };
}

abbrev state_after : Option (Log × State MemKvs) → State MemKvs
state_after none = two_accounts
state_after (some (log, state)) = state

unfoldable paid : State MemKvs
unfolding exec_tx exec_dmc transfer adjust adjust_by_input adjust_by_output validate_input_advanced
    get_or_make_output get_input state_get_account state_set_account get_account set_account
    validate_input key_fits validate_output chain_and_address split_slash dmc_sign_bytes sign_bytes
    tx_id mem_get lookup insert bytes_equal json join split scheme add64 wrap64 ◌+ℤ◌
paid = state_after (exec_tx mem_kvs json wire scheme two_accounts (dmc_tx payment) false (pos 3))

-- Accounts read without their keys.
abbrev without_key : Account → Account
without_key acc = record acc { pub_key = none }

abbrev keyless_json : AccountJson
keyless_json = record { marshal = json.marshal; unmarshal = λ b. without_key (json.unmarshal b) }

exec_tx-keyless_example :
    (exec_tx mem_kvs keyless_json wire scheme two_accounts (dmc_tx payment) false (pos 3) ≡ none)
    ⊎ ((log : Log) × (exec_tx mem_kvs keyless_json wire scheme two_accounts
            (dmc_tx payment)
            false
            (pos 3)
          ≡ some (log, two_accounts))
        × (is_executed log ≡ false))
exec_tx-keyless_example =
    exec_tx-keyless mem_kvs keyless_json wire scheme (λ b. refl) two_accounts payment false (pos 3)

abbrev bad_payment : DmcTx
bad_payment = record payment { input = record (payment.input) { address = [] } }

bad_payment_refused :
    exec_tx mem_kvs json wire scheme two_accounts (dmc_tx bad_payment) false (pos 3)
    ≡ some (in_validate_input_basic, two_accounts)
unfolding exec_tx exec_dmc validate_input
bad_payment_refused = refl

not_executed_log : (id : Bytes) → in_validate_input_basic ≢ executed id
not_executed_log id e = cc

exec_tx-refused_example : two_accounts ≡ two_accounts
exec_tx-refused_example =
    exec_tx-refused mem_kvs json wire scheme two_accounts two_accounts (dmc_tx bad_payment) false
      (pos 3) in_validate_input_basic not_executed_log bad_payment_refused

top_k_accounts-IsLowest_example :
    (lowest : List Account) × (sorted : List Account) × (top_k_accounts
        (some (payer ∷ owner ∷ []))
        (pos 1)
      ≡ some (some lowest, some sorted))
    × IsLowest (payer ∷ owner ∷ []) lowest sorted 1
top_k_accounts-IsLowest_example = top_k_accounts-IsLowest (payer ∷ owner ∷ []) 1
