-- ===== src/Crypto/Merkle/Fuel.antt =====
-- The recursions of simple_tree.go and simple_proof.go end: the length of the list is fuel enough.
use de_mars_dmc.Prelude.{
  ℕ, zero, suc, ◌-◌, ◌≤◌, ◌<◌, ◌≡◌, refl, some, List, [], ◌∷◌, arith, length, take, drop,
  length-take, length-drop,
}
use de_mars_dmc.Prelude.Bytes.{Bytes}
use de_mars_dmc.Crypto.Merkle.{
  HashLib, or_empty, left_size, simple_hash_from_two_hashes, simple_hash_loop,
  simple_hash_from_hashes, trails_loop, join_trails,
}

-- Both halves of a list of two or more are shorter than the list, and neither is empty.
pub left_size_bounds : (n : ℕ) → 1 < n → (0 < left_size n) × (left_size n < n)
left_size_bounds n h = (omega arith, omega arith)

module _ (hs : List Bytes) (big : 1 < length hs) where
  pub length-left : length (take (left_size (length hs)) hs) ≡ left_size (length hs)
  length-left = omega (arith, length-take (left_size (length hs)) hs)

  pub length-right : length (drop (left_size (length hs)) hs) ≡ length hs - left_size (length hs)
  length-right = length-drop (left_size (length hs)) hs

module _ (lib : HashLib) where
  -- Any two amounts of fuel that cover the length give one result.
  pub simple_hash_loop-fuel :
      (f g : ℕ) (hs : List Bytes)
      → length hs ≤ f
      → length hs ≤ g
      → simple_hash_loop lib f hs ≡ simple_hash_loop lib g hs
  unfolding simple_hash_loop
  simple_hash_loop-fuel f g [] p q = refl
  simple_hash_loop-fuel f g (h ∷ []) p q = refl
  simple_hash_loop-fuel zero g (h ∷ k ∷ hs) p q = absurd (omega arith)
  simple_hash_loop-fuel (suc f) zero (h ∷ k ∷ hs) p q = absurd (omega arith)
  simple_hash_loop-fuel (suc f) (suc g) (h ∷ k ∷ hs) p q =
      let n = left_size (length (h ∷ k ∷ hs)) in
      let l = length-left (h ∷ k ∷ hs) (omega arith) in
      let r = length-right (h ∷ k ∷ hs) (omega arith) in
      rw (simple_hash_loop-fuel f g (take n (h ∷ k ∷ hs)) (omega arith) (omega arith))
        (rw (simple_hash_loop-fuel f g (drop n (h ∷ k ∷ hs)) (omega arith) (omega arith)) refl)

  -- The root of two or more hashes is the hash of the roots of the two halves.
  pub simple_hash_from_hashes-halves :
      (hs : List Bytes)
      → 1 < length hs
      → let n = left_size (length hs) in
        simple_hash_from_hashes lib hs
        ≡ some (
            simple_hash_from_two_hashes lib
              (or_empty (simple_hash_from_hashes lib (take n hs)))
              (or_empty (simple_hash_from_hashes lib (drop n hs))))
  unfolding simple_hash_from_hashes
  simple_hash_from_hashes-halves [] p = absurd (omega arith)
  simple_hash_from_hashes-halves (h ∷ []) p = absurd (omega arith)
  simple_hash_from_hashes-halves (h ∷ k ∷ hs) p =
      let xs = h ∷ k ∷ hs in
      let n = left_size (length xs) in
      let l = length-left xs p in
      let r = length-right xs p in
      rw
        (simple_hash_loop-fuel (suc (length hs)) (length (take n xs)) (take n xs) (omega arith)
          (omega arith))
        (rw
          (simple_hash_loop-fuel (suc (length hs)) (length (drop n xs)) (drop n xs) (omega arith)
            (omega arith))
          refl)

  -- A list that is not empty has a root.
  pub simple_hash_loop_total :
      (f : ℕ) (hs : List Bytes)
      → 0 < length hs
      → length hs ≤ f
      → (r : Bytes) × (simple_hash_loop lib f hs ≡ some r)
  unfolding simple_hash_loop
  simple_hash_loop_total f [] p q = absurd (omega arith)
  simple_hash_loop_total f (h ∷ []) p q = (h, refl)
  simple_hash_loop_total zero (h ∷ k ∷ hs) p q = absurd (omega arith)
  simple_hash_loop_total (suc f) (h ∷ k ∷ hs) p q = (_, refl)

  -- The tree of the proofs and the tree of the root are one.
  pub trails_loop-root :
      (f : ℕ) (hs : List Bytes) → (trails_loop lib f hs).1 ≡ simple_hash_loop lib f hs
  unfolding simple_hash_loop trails_loop join_trails
  trails_loop-root f [] = refl
  trails_loop-root f (h ∷ []) = refl
  trails_loop-root zero (h ∷ k ∷ hs) = refl
  trails_loop-root (suc f) (h ∷ k ∷ hs) =
      let n = left_size (length (h ∷ k ∷ hs)) in
      rw (trails_loop-root f (take n (h ∷ k ∷ hs)))
        (rw (trails_loop-root f (drop n (h ∷ k ∷ hs))) refl)
