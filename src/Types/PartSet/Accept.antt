-- ===== src/Types/PartSet/Accept.antt =====
-- types/part_set.go: a part that `AddPart` adds is the part of the block at its index.
use de_mars_dmc.Prelude.{
  ℕ, ◌<◌, ◌≡◌, ◌⊎◌, ap, Bool, true, not, Option, none, some, List, length, get_elem?, arith,
}
use de_mars_dmc.Prelude.Int.{pos, leb_ℤ}
use de_mars_dmc.Prelude.Int64.{max_int64}
use de_mars_dmc.Prelude.Bytes.{Bytes}
use de_mars_dmc.Prelude.Result.{ok, ok-injective, bind-ok, guard-ok}
use de_mars_dmc.Crypto.Merkle.{HashLib, verify, simple_hash_from_hashes}
use de_mars_dmc.Crypto.Merkle.Sound.{Collision, verify_sound}
use de_mars_dmc.Types.PartSet.{
  Part, PartSet, invalid_proof, unexpected_index, part_hash, add_at, add_part, get_part,
}

abbrev is_added : Bool × PartSet → Bool
is_added (added, ps) = added

module _ (lib : HashLib) where
  add_at-verify :
      (ps ps' : PartSet) (part : Part) (place : Option Part)
      → add_at lib ps part place ≡ ok (true, ps')
      → verify lib part.proof part.index ps.total (some (part_hash lib part)) ps.hash ≡ true
  unfolding add_at
  add_at-verify ps ps' part (some existing) h =
      absurd (let h' = ap is_added (ok-injective _ _ h) in cc)
  add_at-verify ps ps' part none h =
      let (g, h1) =
        guard-ok
          (not (verify lib part.proof part.index ps.total (some (part_hash lib part)) ps.hash))
          invalid_proof _ h in
      ground arith

  -- A part that is added to a set with the total and the root of `hs`, a list of fewer than 2 ^ 63 - 1
  -- hashes, has the hash of `hs` at its index, or a collision of the hash is at hand.
  pub add_part_sound :
      (hs : List Bytes) (ps ps' : PartSet) (part : Part)
      → length hs < max_int64
      → ps.total ≡ pos (length hs)
      → simple_hash_from_hashes lib hs ≡ some ps.hash
      → add_part lib ps part ≡ ok (true, ps')
      → ((i : ℕ) × (part.index ≡ pos i) × (get_elem? hs i ≡ some (part_hash lib part)))
        ⊎ Collision lib
  unfolding add_part
  add_part_sound hs ps ps' part b t root h =
      let (g, h1) = guard-ok (leb_ℤ ps.total part.index) unexpected_index _ h in
      let (place, e1, e2) = bind-ok (get_part ps part.index) (add_at lib ps part) _ h1 in
      let v = add_at-verify ps ps' part place e2 in
      verify_sound lib hs part.proof part.index (part_hash lib part) ps.hash b root (rw t at v)
