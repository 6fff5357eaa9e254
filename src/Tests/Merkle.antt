-- ===== src/Tests/Merkle.antt =====
-- crypto/merkle at three items.
use de_mars_dmc.Prelude.{ℕ, ◌≡◌, ◌⊎◌, refl, true, some, List, [], ◌∷◌, arith, length, get_elem?}
use de_mars_dmc.Prelude.Int.{ℤ, pos}
use de_mars_dmc.Prelude.Int64.{add64, sub64, div64}
use de_mars_dmc.Prelude.Bytes.{Bytes, bytes_equal}
use de_mars_dmc.Crypto.Merkle.{
  SimpleProof, simple_hash_from_hashes, simple_hash_from_two_hashes, simple_proofs_from_hashers,
  verify,
}
use de_mars_dmc.Crypto.Merkle.Complete.{verify-simple_proofs}
use de_mars_dmc.Crypto.Merkle.Sound.{Collision, verify_sound}
use de_mars_dmc.Tests.Stand.{hash_lib}

abbrev pub items : List Bytes
items = (1 ∷ []) ∷ (2 ∷ []) ∷ (3 ∷ []) ∷ []

-- 7 7 7 1 7 2 7 3
abbrev pub items_root : Bytes
items_root = 7 ∷ 7 ∷ 1 ∷ 7 ∷ 2 ∷ 7 ∷ 3 ∷ []

abbrev pub second_proof : SimpleProof
second_proof = record { aunts = (1 ∷ []) ∷ (3 ∷ []) ∷ [] }

pub items_hash : simple_hash_from_hashes hash_lib items ≡ some items_root
unfolding simple_hash_from_hashes simple_hash_from_two_hashes
items_hash = refl

second_accepted : verify hash_lib second_proof (pos 1) (pos 3) (some (2 ∷ [])) items_root ≡ true
unfolding verify simple_hash_from_two_hashes bytes_equal add64 sub64 div64
second_accepted = refl

verify-simple_proofs_example :
    (root : Bytes) × (proofs : List SimpleProof) × (proof : SimpleProof) × (simple_hash_from_hashes
        hash_lib items
      ≡ some root)
    × (simple_proofs_from_hashers hash_lib items ≡ some (root, proofs))
    × (length proofs ≡ length items)
    × (get_elem? proofs 1 ≡ some proof)
    × (verify hash_lib proof (pos 1) (pos (length items)) (get_elem? items 1) root ≡ true)
verify-simple_proofs_example = verify-simple_proofs hash_lib items 1 (omega arith) (omega arith)

verify_sound_example :
    ((i : ℕ) × (◌≡◌ {A = ℤ} (pos 1) (pos i)) × (get_elem? items i ≡ some (2 ∷ [])))
    ⊎ Collision hash_lib
verify_sound_example =
    verify_sound hash_lib items second_proof (pos 1) (2 ∷ []) items_root (omega arith) items_hash
      second_accepted
