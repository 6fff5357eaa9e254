-- ===== src/Types/PartSet.antt =====
-- types/part_set.go: a block in parts, each with a proof that it belongs to the block.
pub mod Accept
use de_mars_dmc.Prelude.{
  ℕ, zero, suc, ◌+◌, ◌-◌, ◌*◌, ◌/◌, Bool, true, false, not, Option, none, some, List, [], ◌∷◌, ◌++◌,
  map, length, take, drop, set, get_elem?, replicate, ◌==◌, is_some, if◌then◌else◌,
}
use de_mars_dmc.Prelude.Int.{ℤ, pos, negsuc, pos_part, leb_ℤ, ltb_ℤ, eqb_ℤ, ◌+ℤ◌}
use de_mars_dmc.Prelude.Int64.{add64}
use de_mars_dmc.Prelude.Bytes.{Bytes, bytes_equal}
use de_mars_dmc.Prelude.Result.{Result, ok, err, panic, or_panic, ◌>>=◌}
use de_mars_dmc.Common.BitArray.{BitArray, new_bit_array, set_index, min_int}
use de_mars_dmc.Crypto.Merkle.{HashLib, SimpleProof, tmhash, verify, simple_proofs_from_hashers}
use de_mars_dmc.Types.BlockId.{PartSetHeader, header_equals}

-- `Part`, without the cache of its hash.
pub record Part : Type 0 where
  pub index : ℤ
  pub bytes : Bytes
  pub proof : SimpleProof

pub record PartSet : Type 0 where
  pub total : ℤ
  pub hash : Bytes
  pub parts : List (Option Part)
  pub parts_bit_array : Option BitArray
  pub count : ℤ

pub data PartSetError : Type 0 where
  unexpected_index invalid_proof : PartSetError

-- `data[i*partSize : MinInt(len(data), (i+1)*partSize)]`
unfoldable pub part_bytes : Bytes → ℕ → ℕ → Bytes
part_bytes data' part_size i =
    take (min_int (length data') (suc i * part_size) - i * part_size) (drop (i * part_size) data')

-- The chunks from `i` on, `n` of them.
unfoldable pub chunks : Bytes → ℕ → ℕ → ℕ → List Bytes
unfolding part_bytes
chunks data' part_size i zero = []
chunks data' part_size i (suc n) = part_bytes data' part_size i ∷ chunks data' part_size (suc i) n

-- The loop that gives each part its proof.
unfoldable pub with_proofs : ℕ → List Bytes → List SimpleProof → List (Option Part)
with_proofs i [] proofs = []
with_proofs i (b ∷ bs) [] = []
with_proofs i (b ∷ bs) (p ∷ proofs) =
    some (record { index = pos i; bytes = b; proof = p }) ∷ with_proofs (suc i) bs proofs

-- `partsBitArray.SetIndex(i, true)` for the indices from `i` on, `n` of them.
unfoldable pub set_all : ℕ → ℕ → Option BitArray → Option BitArray
unfolding set_index
set_all i zero ba = ba
set_all i (suc n) ba = set_all (suc i) n (set_index ba i true).1

-- `PartSetHeader` of no set.
abbrev pub zero_header : PartSetHeader
zero_header = record { total = pos 0; hash = [] }

unfoldable pub header : Option PartSet → PartSetHeader
header none = zero_header
header (some ps) = record { total = ps.total; hash = ps.hash }

unfoldable pub has_header : Option PartSet → PartSetHeader → Bool
unfolding header header_equals
has_header none other = false
has_header (some ps) other = header_equals (header (some ps)) other

unfoldable pub hashes_to : Option PartSet → Bytes → Bool
hashes_to none hash = false
hashes_to (some ps) hash = bytes_equal ps.hash hash

unfoldable pub count_of : Option PartSet → ℤ
count_of none = pos 0
count_of (some ps) = ps.count

unfoldable pub total_of : Option PartSet → ℤ
total_of none = pos 0
total_of (some ps) = ps.total

unfoldable pub is_complete : PartSet → Bool
is_complete ps = eqb_ℤ ps.count ps.total

unfoldable pub get_part : PartSet → ℤ → Result PartSetError (Option Part)
get_part ps (pos i) = or_panic (get_elem? ps.parts i)
get_part ps (negsuc n) = panic

-- `NewPartSetFromHeader`; a negative total panics.
unfoldable pub new_part_set_from_header : PartSetHeader → Result PartSetError PartSet
new_part_set_from_header psh =
    if ltb_ℤ psh.total (pos 0)
    then panic
    else ok (record {
      total = psh.total;
      hash = psh.hash;
      parts = replicate (pos_part psh.total) none;
      parts_bit_array = new_bit_array (pos_part psh.total);
      count = pos 0;
    })

module _ (lib : HashLib) where
  -- `Part.Hash`
  unfoldable pub part_hash : Part → Bytes
  part_hash part = tmhash lib part.bytes

  -- `NewPartSetFromData`: no data and a part size of 0 panic.
  unfoldable pub new_part_set_from_data : Bytes → ℕ → Result PartSetError PartSet
  unfolding chunks with_proofs set_all
  new_part_set_from_data data' part_size =
      let total = (length data' + part_size - 1) / part_size in
      let pieces = chunks data' part_size 0 total in
      if part_size == 0
      then panic
      else (or_panic (simple_proofs_from_hashers lib (map (tmhash lib) pieces))
          >>= λ (root, proofs). ok (record {
            total = pos total;
            hash = root;
            parts = with_proofs 0 pieces proofs;
            parts_bit_array = set_all 0 total (new_bit_array total);
            count = pos total;
          }))

  -- The part at an index that is in range, once the place of the index is known.
  unfoldable pub add_at : PartSet → Part → Option Part → Result PartSetError (Bool × PartSet)
  unfolding part_hash
  add_at ps part (some existing) = ok (false, ps)
  add_at ps part none =
      if not (verify lib part.proof part.index ps.total (some (part_hash part)) ps.hash)
      then err invalid_proof
      else ok (
        true,
        record ps {
          parts = set ps.parts (pos_part part.index) (some part);
          parts_bit_array = (set_index ps.parts_bit_array (pos_part part.index) true).1;
          count = add64 ps.count (pos 1);
        },
      )

  unfoldable pub add_part : PartSet → Part → Result PartSetError (Bool × PartSet)
  unfolding get_part add_at
  add_part ps part =
      if leb_ℤ ps.total part.index
      then err unexpected_index
      else get_part ps part.index >>= add_at ps part
