-- ===== src/Types/Tx.antt =====
-- types/tx.go: transactions of a block, their root hash and proofs.
pub mod Proof
use de_mars_dmc.Prelude.{
  ℕ, zero, suc, Bool, not, Option, none, some, List, [], ◌∷◌, map, length, take, drop, get_elem?,
  if◌then◌else◌,
}
use de_mars_dmc.Prelude.Int.{ℤ, pos, negsuc, ltb_ℤ, leb_ℤ}
use de_mars_dmc.Prelude.Bytes.{Bytes, bytes_equal}
use de_mars_dmc.Crypto.Merkle.{
  HashLib, SimpleProof, left_size, or_empty, tmhash, simple_hash_from_two_hashes,
  simple_proofs_from_hashers, verify,
}

abbrev pub Txs : Type 0
Txs = List Bytes

pub record TxProof : Type 0 where
  pub index : ℤ
  pub total : ℤ
  pub root_hash : Bytes
  pub data' : Bytes
  pub proof : SimpleProof

pub data TxProofError : Type 0 where
  different_data_hash negative_index no_total not_consistent : TxProofError

-- `Txs.Index`, from an index on.
unfoldable pub tx_index_from : ℕ → Txs → Bytes → ℤ
tx_index_from i [] tx = negsuc 0
tx_index_from i (t ∷ txs) tx =
    let rest = tx_index_from (suc i) txs tx in if bytes_equal t tx then pos i else rest

unfoldable pub tx_index : Txs → Bytes → ℤ
unfolding tx_index_from
tx_index txs tx = tx_index_from 0 txs tx

module _ (lib : HashLib) where
  -- `Txs.Hash`, on fuel; the number of the transactions is enough (Tx/Proof).
  unfoldable pub txs_hash_loop : ℕ → Txs → Option Bytes
  txs_hash_loop fuel [] = none
  txs_hash_loop fuel (tx ∷ []) = some (tmhash lib tx)
  txs_hash_loop zero (tx ∷ tx' ∷ txs) = none
  txs_hash_loop (suc fuel) (tx ∷ tx' ∷ txs) =
      let n = left_size (length (tx ∷ tx' ∷ txs)) in
      let left = txs_hash_loop fuel (take n (tx ∷ tx' ∷ txs)) in
      let right = txs_hash_loop fuel (drop n (tx ∷ tx' ∷ txs)) in
      some (simple_hash_from_two_hashes lib (or_empty left) (or_empty right))

  unfoldable pub txs_hash : Txs → Option Bytes
  unfolding txs_hash_loop
  txs_hash txs = txs_hash_loop (length txs) txs

  unfoldable pub tx_index_by_hash : Txs → Bytes → ℤ
  tx_index_by_hash txs hash = tx_index (map (tmhash lib) txs) hash

  -- `Txs.Proof`; `none` is a panic.
  abbrev pub make_proof : ℕ → ℕ → Bytes → Option Bytes → Option SimpleProof → Option TxProof
  make_proof i total root (some tx) (some proof) =
      some
        (record { index = pos i; total = pos total; root_hash = root; data' = tx; proof = proof })
  make_proof i total root (some tx) none = none
  make_proof i total root none proof = none

  unfoldable pub txs_proof : Txs → ℕ → Option TxProof
  txs_proof txs i = elim (simple_proofs_from_hashers lib (map (tmhash lib) txs)) [
    | none ↦ none
    | some (root, proofs) ↦ make_proof i (length txs) root (get_elem? txs i) (get_elem? proofs i)
  ]

  -- `TxProof.Validate`
  unfoldable pub validate_proof : TxProof → Bytes → Option TxProofError
  validate_proof tp data_hash =
      if not (bytes_equal data_hash tp.root_hash)
      then some different_data_hash
      else if ltb_ℤ tp.index (pos 0)
      then some negative_index
      else if leb_ℤ tp.total (pos 0)
      then some no_total
      else if not (verify lib tp.proof tp.index tp.total (some (tmhash lib tp.data')) tp.root_hash)
      then some not_consistent
      else none
