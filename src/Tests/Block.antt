-- ===== src/Tests/Block.antt =====
-- Two blocks with one data hash, whose first buckets differ.
use de_mars_dmc.Prelude.{◌≡◌, ◌⊎◌, refl, none, some, [], ◌∷◌}
use de_mars_dmc.Prelude.Int.{pos}
use de_mars_dmc.Prelude.Int64.{add64}
use de_mars_dmc.Prelude.Bytes.{Bytes, bytes_equal}
use de_mars_dmc.Crypto.Merkle.{or_empty, simple_hash_from_two_hashes, tmhash}
use de_mars_dmc.Crypto.Merkle.Sound.{Collision}
use de_mars_dmc.Types.Tx.{txs_hash, txs_hash_loop}
use de_mars_dmc.Types.Block.{
  TxBucket, Data, Block, tx_buckets_hash, buckets_hash_from, hash_data, total_txs_in_buckets,
  total_txs_from, check_data_hash, block_validate_basic,
}
use de_mars_dmc.Types.Block.Binding.{data_hash-binds}
use de_mars_dmc.Tests.Stand.{hash_lib}

abbrev first_bucket : Bytes → TxBucket
first_bucket tx = record { bucket_id = 48 ∷ []; txs = tx ∷ [] }

abbrev second_bucket : TxBucket
second_bucket = record { bucket_id = 49 ∷ []; txs = (5 ∷ []) ∷ [] }

abbrev data_of : Bytes → Data
data_of tx = record { tx_buckets = first_bucket tx ∷ second_bucket ∷ []; hash = none }

abbrev block_of : Bytes → Block
block_of tx = record {
  header = record { height = pos 1; num_txs = pos 2; data_hash = some (7 ∷ 0 ∷ 7 ∷ 5 ∷ []) };
  data' = some (data_of tx);
  commit = none;
}

-- The hash of the first bucket does not count.
block_of-valid :
    (tx : Bytes)
    → block_validate_basic hash_lib (block_of tx)
      ≡ some (
        none,
        record (block_of tx) {
          data' = some (record (data_of tx) { hash = some (7 ∷ 0 ∷ 7 ∷ 5 ∷ []) });
        },
      )
unfolding block_validate_basic total_txs_in_buckets total_txs_from add64 check_data_hash hash_data
    tx_buckets_hash buckets_hash_from txs_hash txs_hash_loop simple_hash_from_two_hashes tmhash
    bytes_equal
block_of-valid tx = refl

data_hash-binds_example :
    (or_empty (txs_hash hash_lib second_bucket.txs)
      ≡ or_empty (txs_hash hash_lib second_bucket.txs))
    ⊎ Collision hash_lib
data_hash-binds_example =
    data_hash-binds hash_lib (block_of (1 ∷ [])) (block_of (2 ∷ [])) _ _ (data_of (1 ∷ []))
      (data_of (2 ∷ [])) 0 second_bucket second_bucket (block_of-valid (1 ∷ []))
      (block_of-valid (2 ∷ [])) refl refl refl refl refl refl refl refl
