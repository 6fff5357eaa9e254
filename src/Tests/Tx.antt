-- ===== src/Tests/Tx.antt =====
-- Three transactions and the proof of the second.
use de_mars_dmc.Prelude.{ℕ, ◌≡◌, ◌⊎◌, refl, none, some, [], ◌∷◌, get_elem?, arith, map}
use de_mars_dmc.Prelude.Int.{ℤ, pos}
use de_mars_dmc.Prelude.Int64.{add64, sub64, div64}
use de_mars_dmc.Prelude.Bytes.{Bytes, bytes_equal}
use de_mars_dmc.Crypto.Merkle.{tmhash, simple_hash_from_hashes, simple_hash_from_two_hashes, verify}
use de_mars_dmc.Crypto.Merkle.Sound.{Collision}
use de_mars_dmc.Types.Tx.{TxProof, txs_hash, txs_hash_loop, txs_proof, validate_proof}
use de_mars_dmc.Types.Tx.Proof.{txs_hash-eq-merkle, validate_proof-txs_proof, validate_proof_sound}
use de_mars_dmc.Tests.Stand.{hash_lib}
use de_mars_dmc.Tests.Merkle.{items, items_root, second_proof}

txs_hash-eq-merkle_example :
    txs_hash hash_lib items ≡ simple_hash_from_hashes hash_lib (map (tmhash hash_lib) items)
txs_hash-eq-merkle_example = txs_hash-eq-merkle hash_lib items

validate_proof-txs_proof_example :
    (tp : TxProof) × (root : Bytes) × (txs_proof hash_lib items 1 ≡ some tp)
    × (tp.data' ≡ 2 ∷ [])
    × (txs_hash hash_lib items ≡ some root)
    × (validate_proof hash_lib tp root ≡ none)
validate_proof-txs_proof_example =
    validate_proof-txs_proof hash_lib items 1 (2 ∷ []) refl (omega arith) (omega arith)

abbrev second : TxProof
second = record {
  index = pos 1;
  total = pos 3;
  root_hash = items_root;
  data' = 2 ∷ [];
  proof = second_proof;
}

items_hashed : txs_hash hash_lib items ≡ some items_root
unfolding txs_hash txs_hash_loop simple_hash_from_two_hashes tmhash
items_hashed = refl

second_valid : validate_proof hash_lib second items_root ≡ none
unfolding validate_proof verify simple_hash_from_two_hashes tmhash bytes_equal add64 sub64 div64
second_valid = refl

validate_proof_sound_example :
    ((i : ℕ) × (tx : Bytes) × (◌≡◌ {A = ℤ} (pos 1) (pos i))
      × (get_elem? items i ≡ some tx)
      × (tmhash hash_lib tx ≡ tmhash hash_lib (2 ∷ [])))
    ⊎ Collision hash_lib
validate_proof_sound_example =
    validate_proof_sound hash_lib items second items_root (omega arith) refl items_hashed
      second_valid
