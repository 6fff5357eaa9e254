-- ===== src/Types/BlockId.antt =====
-- types/block.go (BlockID) and types/part_set.go (PartSetHeader).
use de_mars_dmc.Prelude.{Bool, true, ◌&&◌, [], ◌++◌, length, ◌==◌, ◌≡◌, arith}
use de_mars_dmc.Prelude.Int.{ℤ, pos, eqb_ℤ}
use de_mars_dmc.Prelude.Bytes.{Bytes, bytes_equal, bytes_equal_eq}

pub record PartSetHeader : Type 0 where
  pub total : ℤ
  pub hash : Bytes

pub record BlockId : Type 0 where
  pub hash : Bytes
  pub parts_header : PartSetHeader

-- `PartSetHeader.IsZero`, `PartSetHeader.Equals`
unfoldable pub header_is_zero : PartSetHeader → Bool
header_is_zero psh = eqb_ℤ psh.total (pos 0)

unfoldable pub header_equals : PartSetHeader → PartSetHeader → Bool
header_equals psh other = eqb_ℤ psh.total other.total && bytes_equal psh.hash other.hash

-- `BlockID{}`
abbrev pub zero_block_id : BlockId
zero_block_id = record { hash = []; parts_header = record { total = pos 0; hash = [] } }

unfoldable pub is_zero : BlockId → Bool
unfolding header_is_zero
is_zero block_id = length block_id.hash == 0 && header_is_zero block_id.parts_header

unfoldable pub equals : BlockId → BlockId → Bool
unfolding header_equals
equals block_id other =
    bytes_equal block_id.hash other.hash && header_equals block_id.parts_header other.parts_header

-- `BlockID.Key`; `encode` is amino's `MarshalBinaryBare` at a `PartSetHeader`.
unfoldable pub key : (PartSetHeader → Bytes) → BlockId → Bytes
key encode block_id = block_id.hash ++ encode block_id.parts_header

pub equals-eq : (a b : BlockId) → equals a b ≡ true → a ≡ b
unfolding equals
equals-eq a b h =
    ground
      (arith, bytes_equal_eq a.hash b.hash, bytes_equal_eq a.parts_header.hash b.parts_header.hash)
