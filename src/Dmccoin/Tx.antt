-- ===== src/Dmccoin/Tx.antt =====
-- abci/app/dmccoin/tx.go: transactions and their stateless checks.
use de_mars_dmc.Prelude.{
  ℕ, Bool, true, false, not, Option, none, some, [], ◌∷◌, length, ltb, ◌==◌, is_some, if◌then◌else◌,
}
use de_mars_dmc.Prelude.Int.{ℤ, pos, leb_ℤ, eqb_ℤ}
use de_mars_dmc.Prelude.Bytes.{Bytes, bytes_equal}
use de_mars_dmc.Types.Vote.{Signature, Scheme}

pub record TxInput : Type 0 where
  pub address : Bytes
  pub coins : ℕ
  pub sequence : ℤ
  pub signature : Signature
  pub pub_key : Option Bytes

pub record TxOutput : Type 0 where
  pub address : Bytes
  pub coins : ℕ

pub record DmcTx : Type 0 where
  pub fee : ℕ
  pub input : TxInput
  pub output : TxOutput

pub record TxUtxo : Type 0 where
  pub address : Bytes
  pub balance : ℕ

pub record AppTx : Type 0 where
  pub gas : ℤ
  pub fee : ℕ
  pub name : Bytes
  pub input : TxInput
  pub data' : Bytes

pub data Tx : Type 0 where
  utxo_tx : TxUtxo → Tx
  app_tx : AppTx → Tx
  dmc_tx : DmcTx → Tx

-- `wire.BinaryBytes` of transactions, `wire.BinaryRipemd160`, and `PubKey.Bytes`.
pub record Wire : Type 0 where
  pub dmc_bytes : DmcTx → Bytes
  pub app_bytes : AppTx → Bytes
  pub ripemd160 : Bytes → Bytes
  pub pub_key_bytes : Bytes → Bytes

-- A key with a bytes encoding; the method of a nil key panics.
abbrev pub key_length : Wire → Option Bytes → Option ℕ
key_length wire none = none
key_length wire (some key) = some (length (wire.pub_key_bytes key))

-- The test of the key by the sequence number; `none` is a panic.
unfoldable pub key_fits : Wire → ℤ → Option Bytes → Option Bool
key_fits wire sequence pub_key = elim (key_length wire pub_key) [
  | none ↦ none
  | some n ↦ some (if eqb_ℤ sequence (pos 1) then not (n == 0) else n == 0)
]

-- `TxInput.ValidateBasic`
unfoldable pub validate_input : Wire → TxInput → Option Bool
unfolding key_fits
validate_input wire tx_in =
    if not (length tx_in.address == 64)
    then some false
    else if ltb 100 tx_in.coins
    then some false
    else if tx_in.coins == 0
    then some false
    else if leb_ℤ tx_in.sequence (pos 0)
    then some false
    else key_fits wire tx_in.sequence tx_in.pub_key

-- `NewTxInput`
unfoldable pub new_tx_input : Scheme → Bytes → ℕ → ℤ → TxInput
new_tx_input scheme pub_key coins sequence = record {
  address = scheme.address pub_key;
  coins = coins;
  sequence = sequence;
  signature = none;
  pub_key = if eqb_ℤ sequence (pos 1) then some pub_key else none;
}

-- `bytes.SplitN(address, "/", 2)`: what is before the first slash and after it.
unfoldable pub split_slash : Bytes → Option (Bytes × Bytes)
split_slash [] = none
split_slash (b ∷ bs) =
    let rest = split_slash bs in
    if b == 47 then some ([], bs) else elim rest [ none ↦ none | some (l, r) ↦ some (b ∷ l, r) ]

abbrev of_length_20 : Option Bytes → Bytes → Option (Option Bytes × Bytes)
of_length_20 chain_prefix address =
    if not (length address == 20) then none else some (chain_prefix, address)

-- `TxOutput.ChainAndAddress`; `none` is the answer 0.
unfoldable pub chain_and_address : TxOutput → Option (Option Bytes × Bytes)
unfolding split_slash
chain_and_address tx_out =
    if ltb 20 (length tx_out.address)
    then elim (split_slash tx_out.address) [
      | none ↦ none
      | some (chain, address) ↦ of_length_20 (some chain) address
    ]
    else of_length_20 none tx_out.address

unfoldable pub validate_output : TxOutput → Bool
unfolding chain_and_address
validate_output tx_out =
    if not (is_some (chain_and_address tx_out))
    then false
    else if ltb 100 tx_out.coins
    then false
    else if tx_out.coins == 0
    then false
    else true

-- `SignBytes`, without the signature of a `DMCTx` and with that of an `AppTx`.
unfoldable pub dmc_sign_bytes : Wire → DmcTx → Bytes
dmc_sign_bytes wire tx =
    wire.dmc_bytes (record tx { input = record (tx.input) { signature = none } })

unfoldable pub sign_bytes : Wire → Tx → Bytes
unfolding dmc_sign_bytes
sign_bytes wire (utxo_tx tx) = []
sign_bytes wire (app_tx tx) = wire.app_bytes tx
sign_bytes wire (dmc_tx tx) = dmc_sign_bytes wire tx

-- `DMCTx.SetSignature`
unfoldable pub set_signature : DmcTx → Bytes → Signature → Bool × DmcTx
set_signature tx addr sig =
    if bytes_equal tx.input.address addr
    then (true, record tx { input = record (tx.input) { signature = sig } })
    else (false, tx)

unfoldable pub tx_id : Wire → Tx → Bytes
unfolding sign_bytes
tx_id wire tx = wire.ripemd160 (sign_bytes wire tx)
