-- ===== src/Types/Block.antt =====
-- types/block.go: the transactions of a block in buckets, their hash, and the basic validation of a
-- block.
pub mod Binding
use de_mars_dmc.Prelude.{
  Bool, not, Option, none, some, List, [], ◌∷◌, length, is_some, if◌then◌else◌,
}
use de_mars_dmc.Prelude.Int.{ℤ, pos, eqb_ℤ}
use de_mars_dmc.Prelude.Int64.{add64}
use de_mars_dmc.Prelude.Bytes.{Bytes, bytes_equal}
use de_mars_dmc.Crypto.Merkle.{HashLib, or_empty, simple_hash_from_two_hashes}
use de_mars_dmc.Types.Commit.{Commit, CommitError, validate_basic}
use de_mars_dmc.Types.Tx.{Txs, txs_hash}

pub record TxBucket : Type 0 where
  pub bucket_id : Bytes
  pub txs : Txs

-- `hash` is the cache of the hash.
pub record Data : Type 0 where
  pub tx_buckets : List TxBucket
  pub hash : Option Bytes

-- Of `Header`, the fields that the validation reads.
pub record Header : Type 0 where
  pub height : ℤ
  pub num_txs : ℤ
  pub data_hash : Option Bytes

pub record Block : Type 0 where
  pub header : Header
  pub data' : Option Data
  pub commit : Option Commit

pub data BlockError : Type 0 where
  wrong_num_txs : BlockError
  invalid_commit : CommitError → BlockError
  wrong_data_hash : BlockError

unfoldable pub total_txs_from : ℤ → List TxBucket → ℤ
unfolding add64
total_txs_from total [] = total
total_txs_from total (bucket ∷ buckets) =
    total_txs_from (add64 total (pos (length bucket.txs))) buckets

unfoldable pub total_txs_in_buckets : Option Data → ℤ
unfolding total_txs_from
total_txs_in_buckets none = pos 0
total_txs_in_buckets (some d) = total_txs_from (pos 0) d.tx_buckets

-- The commit of a block; `none` is a panic.
unfoldable pub check_commit : Option Commit → Option (Option CommitError)
unfolding validate_basic
check_commit none = none
check_commit (some commit) = some (validate_basic commit)

module _ (lib : HashLib) where
  -- The loop of `TxBuckets.Hash`, after its first round.
  unfoldable pub buckets_hash_from : Bytes → List TxBucket → Bytes
  unfolding txs_hash simple_hash_from_two_hashes
  buckets_hash_from combined [] = combined
  buckets_hash_from combined (bucket ∷ buckets) =
      buckets_hash_from
        (simple_hash_from_two_hashes lib combined (or_empty (txs_hash lib bucket.txs))) buckets

  -- `TxBuckets.Hash`; in the first round the hash of the bucket is not used.
  unfoldable pub tx_buckets_hash : List TxBucket → Option Bytes
  unfolding buckets_hash_from
  tx_buckets_hash [] = none
  tx_buckets_hash (bucket ∷ buckets) = some (buckets_hash_from (lib.sha256 (0 ∷ [])) buckets)

  -- `Data.Hash`, with the data after it.
  unfoldable pub hash_data : Option Data → Option Bytes × Option Data
  unfolding tx_buckets_hash
  hash_data none = (none, none)
  hash_data (some d) =
      if is_some d.hash
      then (d.hash, some d)
      else (tx_buckets_hash d.tx_buckets, some (record d { hash = tx_buckets_hash d.tx_buckets }))

  unfoldable pub fill_header : Block → Block
  unfolding hash_data
  fill_header b = if is_some b.header.data_hash then b else record b {
    header = record b.header { data_hash = (hash_data b.data').0 };
    data' = (hash_data b.data').1;
  }

  -- The end of `ValidateBasic`.
  unfoldable pub check_data_hash : Block → Option BlockError × Block
  unfolding hash_data bytes_equal
  check_data_hash b =
      let b1 : Block = record b { data' = (hash_data b.data').1 } in
      if not (bytes_equal (or_empty b.header.data_hash) (or_empty (hash_data b.data').0))
      then (some wrong_data_hash, b1)
      else (none, b1)

  unfoldable pub with_commit :
      Block → Option (Option CommitError) → Option (Option BlockError × Block)
  unfolding check_data_hash
  with_commit b none = none
  with_commit b (some (some e)) = some (some (invalid_commit e), b)
  with_commit b (some none) = some (check_data_hash b)

  -- `ValidateBasic`; `none` is a panic.
  unfoldable pub block_validate_basic : Block → Option (Option BlockError × Block)
  unfolding total_txs_in_buckets check_commit with_commit check_data_hash
  block_validate_basic b =
      if not (eqb_ℤ b.header.num_txs (total_txs_in_buckets b.data'))
      then some (some wrong_num_txs, b)
      else if not (eqb_ℤ b.header.height (pos 1))
      then with_commit b (check_commit b.commit)
      else some (check_data_hash b)
