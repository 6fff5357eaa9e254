-- ===== src/Tests/PartSet.antt =====
-- A set of three parts that gets its second one.
use de_mars_dmc.Prelude.{ℕ, ◌≡◌, ◌⊎◌, refl, true, none, some, [], ◌∷◌, arith, get_elem?}
use de_mars_dmc.Prelude.Int.{pos}
use de_mars_dmc.Prelude.Int64.{add64, sub64, div64}
use de_mars_dmc.Prelude.Bytes.{bytes_equal}
use de_mars_dmc.Prelude.Result.{ok}
use de_mars_dmc.Common.BitArray.{set_index, set_index_of}
use de_mars_dmc.Crypto.Merkle.{verify, simple_hash_from_two_hashes, tmhash}
use de_mars_dmc.Crypto.Merkle.Sound.{Collision}
use de_mars_dmc.Types.PartSet.{Part, PartSet, part_hash, add_at, get_part, add_part}
use de_mars_dmc.Types.PartSet.Accept.{add_part_sound}
use de_mars_dmc.Tests.Stand.{hash_lib}
use de_mars_dmc.Tests.Merkle.{items, items_root, second_proof, items_hash}

abbrev empty_set : PartSet
empty_set = record {
  total = pos 3;
  hash = items_root;
  parts = none ∷ none ∷ none ∷ [];
  parts_bit_array = some (record { bits = 3; elems = 0 ∷ [] });
  count = pos 0;
}

abbrev second_part : Part
second_part = record { index = pos 1; bytes = 2 ∷ []; proof = second_proof }

abbrev second_set : PartSet
second_set = record empty_set {
  parts = none ∷ some second_part ∷ none ∷ [];
  parts_bit_array = some (record { bits = 3; elems = 2 ∷ [] });
  count = pos 1;
}

second_added : add_part hash_lib empty_set second_part ≡ ok (true, second_set)
unfolding add_part get_part add_at part_hash tmhash set_index set_index_of verify
    simple_hash_from_two_hashes bytes_equal add64 sub64 div64
second_added = refl

add_part_sound_example :
    ((i : ℕ) × (second_part.index ≡ pos i)
      × (get_elem? items i ≡ some (part_hash hash_lib second_part)))
    ⊎ Collision hash_lib
add_part_sound_example =
    add_part_sound hash_lib items empty_set second_set second_part (omega arith) refl items_hash
      second_added
