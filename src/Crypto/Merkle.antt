-- ===== src/Crypto/Merkle.antt =====
-- crypto/merkle/simple_tree.go, crypto/merkle/simple_proof.go and crypto/tmhash/hash.go.
-- A nil slice is `none` where the code tells it from an empty one.
pub mod Fuel
pub mod Step
pub mod Complete
pub mod Sound
use mathlib.Core.List.{reverse}
use mathlib.Core.Option
use de_mars_dmc.Prelude.{
  ℕ, zero, suc, ◌+◌, ◌/◌, Bool, false, ◌||◌, Option, none, some, List, [], ◌∷◌, ◌++◌, map, length,
  take, drop, if◌then◌else◌,
}
use de_mars_dmc.Prelude.Int.{ℤ, pos, ltb_ℤ, leb_ℤ, eqb_ℤ}
use de_mars_dmc.Prelude.Int64.{add64, sub64, div64}
use de_mars_dmc.Prelude.Bytes.{Bytes, bytes_equal}

-- What comes from other packages: `sha256.Sum256` and amino's `EncodeByteSlice`.
pub record HashLib : Type 0 where
  pub sha256 : Bytes → Bytes
  pub encode_byte_slice : Bytes → Bytes

-- `TruncatedSize`
abbrev pub truncated_size : ℕ
truncated_size = 20

-- A nil slice where the code reads its bytes.
abbrev pub or_empty : Option Bytes → Bytes
or_empty none = []
or_empty (some b) = b

pub record SimpleProof : Type 0 where
  pub aunts : List Bytes

-- A `SimpleProofNode`, without its parent: `left` and `right` are the hashes of the siblings.
pub record SimpleProofNode : Type 0 where
  pub hash : Bytes
  pub left : Option Bytes
  pub right : Option Bytes

-- The chain of parents of a leaf, the leaf first and the root last.
abbrev pub Trail : Type 0
Trail = List SimpleProofNode

-- `len` halved, the left part being the larger.
abbrev pub left_size : ℕ → ℕ
left_size n = (n + 1) / 2

pub flatten_aunts : Trail → List Bytes
flatten_aunts [] = []
flatten_aunts (n ∷ parents) = elim n.left [
  | some l ↦ l ∷ flatten_aunts parents
  | none ↦ elim n.right [ some r ↦ r ∷ flatten_aunts parents | none ↦ [] ]
]

-- The last node of a chain gets a sibling and a parent: `leftRoot.Parent = root` and
-- `leftRoot.Right = rightRoot` show in each trail that ends in `leftRoot`.
pub attach : (SimpleProofNode → SimpleProofNode) → SimpleProofNode → Trail → Trail
attach sibling root [] = []
attach sibling root (n ∷ []) = sibling n ∷ root ∷ []
attach sibling root (n ∷ m ∷ parents) = n ∷ attach sibling root (m ∷ parents)

abbrev set_right : Bytes → SimpleProofNode → SimpleProofNode
set_right h n = record n { right = some h }

abbrev set_left : Bytes → SimpleProofNode → SimpleProofNode
set_left h n = record n { left = some h }

module _ (lib : HashLib) where
  -- `tmhash.Sum`
  unfoldable pub tmhash : Bytes → Bytes
  tmhash bz = take truncated_size (lib.sha256 bz)

  unfoldable pub simple_hash_from_two_hashes : Bytes → Bytes → Bytes
  unfolding tmhash
  simple_hash_from_two_hashes left right =
      tmhash (lib.encode_byte_slice left ++ lib.encode_byte_slice right)

  -- `simpleHashFromHashes`, on fuel; the length of the list is enough (Merkle/Fuel).
  unfoldable pub simple_hash_loop : ℕ → List Bytes → Option Bytes
  simple_hash_loop fuel [] = none
  simple_hash_loop fuel (h ∷ []) = some h
  simple_hash_loop zero (h ∷ k ∷ hs) = none
  simple_hash_loop (suc fuel) (h ∷ k ∷ hs) =
      let n = left_size (length (h ∷ k ∷ hs)) in
      let left = simple_hash_loop fuel (take n (h ∷ k ∷ hs)) in
      let right = simple_hash_loop fuel (drop n (h ∷ k ∷ hs)) in
      some (simple_hash_from_two_hashes (or_empty left) (or_empty right))

  -- `SimpleHashFromHashers`, from the hashes of the items.
  unfoldable pub simple_hash_from_hashes : List Bytes → Option Bytes
  unfolding simple_hash_loop
  simple_hash_from_hashes hs = simple_hash_loop (length hs) hs

  -- The `default` case of `trailsFromHashers`: the two halves under a new root.
  pub join_trails :
      List Trail × Option Bytes → List Trail × Option Bytes → List Trail × Option Bytes
  join_trails (lefts, left_root) (rights, right_root) =
      let l = or_empty left_root in
      let r = or_empty right_root in
      let root_hash = simple_hash_from_two_hashes l r in
      let root : SimpleProofNode = record { hash = root_hash; left = none; right = none } in
      (
        map (attach (set_right r) root) lefts ++ map (attach (set_left l) root) rights,
        some root_hash,
      )

  -- `trailsFromHashers`, from the hashes of the items: the trails and the hash of the root.
  pub trails_loop : ℕ → List Bytes → List Trail × Option Bytes
  trails_loop fuel [] = ([], none)
  trails_loop fuel (h ∷ []) = ((record { hash = h; left = none; right = none } ∷ []) ∷ [], some h)
  trails_loop zero (h ∷ k ∷ hs) = ([], none)
  trails_loop (suc fuel) (h ∷ k ∷ hs) =
      let n = left_size (length (h ∷ k ∷ hs)) in
      join_trails (trails_loop fuel (take n (h ∷ k ∷ hs))) (trails_loop fuel (drop n (h ∷ k ∷ hs)))

  -- `SimpleProofsFromHashers`, from the hashes of the items. With no item the root node is nil, and
  -- reading its hash panics: `none`.
  unfoldable pub simple_proofs_from_hashers : List Bytes → Option (Bytes × List SimpleProof)
  unfolding trails_loop join_trails attach flatten_aunts
  simple_proofs_from_hashers hs =
      let (trails, root) = trails_loop (length hs) hs in
      elim root [
        | none ↦ none
        | some root_hash ↦ some (root_hash, map (λ t. record { aunts = flatten_aunts t }) trails)
      ]

  -- `computeHashFromAunts`, with the hashes in reverse, so that the one taken off comes first.
  pub compute_from_root : ℤ → ℤ → Option Bytes → List Bytes → Option Bytes
  compute_from_root index total leaf [] =
      if leb_ℤ total index || ltb_ℤ index (pos 0) || leb_ℤ total (pos 0)
      then none
      else if eqb_ℤ total (pos 1)
      then leaf
      else none
  compute_from_root index total leaf (aunt ∷ rest) =
      let num_left = div64 (add64 total (pos 1)) 2 in
      let in_left = compute_from_root index num_left leaf rest in
      let in_right = compute_from_root (sub64 index num_left) (sub64 total num_left) leaf rest in
      if leb_ℤ total index || ltb_ℤ index (pos 0) || leb_ℤ total (pos 0)
      then none
      else if eqb_ℤ total (pos 1)
      then none
      else if ltb_ℤ index num_left
      then Option.map (λ l. simple_hash_from_two_hashes l aunt) in_left
      else Option.map (λ r. simple_hash_from_two_hashes aunt r) in_right

  unfoldable pub compute_hash_from_aunts : ℤ → ℤ → Option Bytes → List Bytes → Option Bytes
  unfolding compute_from_root
  compute_hash_from_aunts index total leaf inner_hashes =
      compute_from_root index total leaf (reverse inner_hashes)

  -- `SimpleProof.Verify`
  unfoldable pub verify : SimpleProof → ℤ → ℤ → Option Bytes → Bytes → Bool
  unfolding compute_hash_from_aunts
  verify proof index total leaf_hash root_hash =
      elim (compute_hash_from_aunts index total leaf_hash proof.aunts) [
        | none ↦ false
        | some computed ↦ bytes_equal computed root_hash
      ]
