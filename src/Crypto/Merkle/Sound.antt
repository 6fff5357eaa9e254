-- ===== src/Crypto/Merkle/Sound.antt =====
-- A proof that Verify accepts against the root of a list is a proof of an item of the list, or shows
-- a collision of the hash of two hashes.
use mathlib.Core.List.{reverse}
use mathlib.Core.Option
use mathlib.Core.Option.{some-injective}
use mathlib.Core.Path.{ap₂}
use de_mars_dmc.Prelude.{
  ℕ, zero, suc, ◌+◌, ◌-◌, ◌≤◌, ◌<◌, ◌≡◌, ◌≢◌, ◌∙◌, sym, refl, ap, ◌⊎◌, inl, inr, true, Option, none,
  some, List, [], ◌∷◌, arith, Bool-cases, Option-cases, ltb, ltb→lt, ltb→ge, length, take, drop,
  get_elem?, get_elem?-take, get_elem?-drop,
}
use de_mars_dmc.Prelude.Int.{ℤ, pos, negsuc}
use de_mars_dmc.Prelude.Int64.{max_int64}
use de_mars_dmc.Prelude.Bytes.{Bytes, bytes_equal, bytes_equal_eq, bytes_equal_iff}
use de_mars_dmc.Crypto.Merkle.{
  HashLib, SimpleProof, or_empty, left_size, simple_hash_from_two_hashes, simple_hash_loop,
  simple_hash_from_hashes, compute_from_root, compute_hash_from_aunts, verify,
}
use de_mars_dmc.Crypto.Merkle.Step.{compute_from_root-cons}
use de_mars_dmc.Crypto.Merkle.Fuel.{length-left, length-right, simple_hash_loop_total}

-- Two different pairs of hashes with one hash.
abbrev pub Collision : HashLib → Type 0
Collision lib =
    (l : Bytes) × (r : Bytes) × (l' : Bytes) × (r' : Bytes) × (simple_hash_from_two_hashes lib l r
      ≡ simple_hash_from_two_hashes lib l' r')
    × ((l ≢ l') ⊎ (r ≢ r'))

module _ (lib : HashLib) where
  -- Pairs with one hash are equal, or collide.
  pub equal_or_collide :
      (l r l' r' : Bytes)
      → simple_hash_from_two_hashes lib l r ≡ simple_hash_from_two_hashes lib l' r'
      → ((l ≡ l') × (r ≡ r')) ⊎ Collision lib
  equal_or_collide l r l' r' e = elim (Bool-cases (bytes_equal l l')) [
    | inl p ↦ elim (Bool-cases (bytes_equal r r')) [
      | inl q ↦ inl (bytes_equal_eq l l' p, bytes_equal_eq r r' q)
      | inr q ↦ inr (l, r, l', r', e, inr (λ x. cc (q, (bytes_equal_iff r r').1 x)))
    ]
    | inr p ↦ inr (l, r, l', r', e, inl (λ x. cc (p, (bytes_equal_iff l l').1 x)))
  ]

  map-eq-some :
      {B : Type 0} (f : Bytes → B) (o : Option Bytes) {b : B}
      → Option.map f o ≡ some b
      → (a : Bytes) × (o ≡ some a) × (f a ≡ b)
  map-eq-some f none e = absurd (cc)
  map-eq-some f (some a) e = (a, refl, cc)

  compute_from_root-one :
      (i : ℕ) (leaf : Option Bytes) (path : List Bytes) {r : Bytes}
      → compute_from_root lib (pos i) (pos 1) leaf path ≡ some r
      → leaf ≡ some r
  unfolding compute_from_root
  compute_from_root-one i leaf [] e = ground arith
  compute_from_root-one i leaf (a ∷ path) e = ground arith

  compute_from_root-short :
      (i n : ℕ) (leaf : Option Bytes) → 1 < n → compute_from_root lib (pos i) (pos n) leaf [] ≡ none
  unfolding compute_from_root
  compute_from_root-short i n leaf p = ground arith

  compute_sound :
      (f : ℕ) (hs : List Bytes) (i n : ℕ) (leaf : Bytes) (path : List Bytes) (root : Bytes)
      → i < n
      → length hs ≡ n
      → length hs ≤ f
      → n < max_int64
      → compute_from_root lib (pos i) (pos n) (some leaf) path ≡ some root
      → simple_hash_loop lib f hs ≡ some root
      → (get_elem? hs i ≡ some leaf) ⊎ Collision lib
  unfolding simple_hash_loop
  compute_sound f [] i n leaf path root p l q b e h = absurd (omega arith)
  compute_sound f (x ∷ []) zero n leaf path root p l q b e h =
      inl (h ∙ sym (compute_from_root-one 0 (some leaf) path (rw (← l) at e)))
  compute_sound f (x ∷ []) (suc i) n leaf path root p l q b e h = absurd (omega arith)
  compute_sound zero (x ∷ y ∷ hs) i n leaf path root p l q b e h = absurd (omega arith)
  compute_sound (suc f) (x ∷ y ∷ hs) i n leaf [] root p l q b e h =
      absurd (cc (compute_from_root-short i n (some leaf) (omega arith)))
  compute_sound (suc f) (x ∷ y ∷ hs) i n leaf (aunt ∷ path) root p l q b e h =
      let xs = x ∷ y ∷ hs in
      let m = left_size (length xs) in
      let ll = length-left xs (omega arith) in
      let lr = length-right xs (omega arith) in
      let (L, eL) = simple_hash_loop_total lib f (take m xs) (omega arith) (omega arith) in
      let (R, eR) = simple_hash_loop_total lib f (drop m xs) (omega arith) (omega arith) in
      let step : _ ≡ some root =
        sym (
          compute_from_root-cons lib i (length xs) (some leaf) aunt path (omega arith) (omega arith)
            (omega arith))
        ∙ ap (λ t. compute_from_root lib (pos i) (pos t) (some leaf) (aunt ∷ path)) l
        ∙ e in
      let root_eq : simple_hash_from_two_hashes lib L R ≡ root = some-injective _ _ (
        ap₂ (λ u v. some (simple_hash_from_two_hashes lib (or_empty u) (or_empty v))) (sym eL)
          (sym eR)
        ∙ h) in
      elim (Bool-cases (ltb i m)) [
        | inl lo ↦
            let (a, ea, ha) =
              map-eq-some (λ l'. simple_hash_from_two_hashes lib l' aunt)
                (compute_from_root lib (pos i) (pos m) (some leaf) path) (rw lo at step) in
            elim (equal_or_collide a aunt L R (ha ∙ sym root_eq)) [
              | inr c ↦ inr c
              | inl same ↦
                  elim (compute_sound f (take m xs) i m leaf path L (ltb→lt i m lo) ll (omega arith)
                    (omega arith) (ea ∙ ap some same.0) eL) [
                      | inr c ↦ inr c
                      | inl found ↦ inl (sym (get_elem?-take m xs i (ltb→lt i m lo)) ∙ found)
                    ]
            ]
        | inr hi ↦
            let ge = ltb→ge i m hi in
            let (a, ea, ha) =
              map-eq-some (λ r'. simple_hash_from_two_hashes lib aunt r')
                (compute_from_root lib (pos (i - m)) (pos (length xs - m)) (some leaf) path)
                (rw hi at step) in
            elim (equal_or_collide aunt a L R (ha ∙ sym root_eq)) [
              | inr c ↦ inr c
              | inl same ↦
                  elim (compute_sound f (drop m xs) (i - m) (length xs - m) leaf path R
                    (omega arith) lr (omega arith) (omega arith) (ea ∙ ap some same.1) eR) [
                      | inr c ↦ inr c
                      | inl found ↦ inl (
                          ap (get_elem? xs) (let g : i ≡ m + (i - m) = omega arith in g)
                          ∙ sym (get_elem?-drop m xs (i - m))
                          ∙ found)
                    ]
            ]
      ]

  -- The guards of the function passed.
  compute_from_root-range :
      (index : ℤ) (n : ℕ) (leaf : Option Bytes) (path : List Bytes) {r : Bytes}
      → compute_from_root lib index (pos n) leaf path ≡ some r
      → (i : ℕ) × (index ≡ pos i) × (i < n)
  unfolding compute_from_root
  compute_from_root-range (pos i) n leaf [] e = (i, refl, ground arith)
  compute_from_root-range (pos i) n leaf (a ∷ path) e = (i, refl, ground arith)
  compute_from_root-range (negsuc i) n leaf [] e = absurd (ground arith)
  compute_from_root-range (negsuc i) n leaf (a ∷ path) e = absurd (ground arith)

  verify-true :
      (proof : SimpleProof) (index total : ℤ) (leaf : Option Bytes) (root : Bytes)
      → verify lib proof index total leaf root ≡ true
      → compute_hash_from_aunts lib index total leaf proof.aunts ≡ some root
  unfolding verify
  verify-true proof index total leaf root e =
      elim (Option-cases (compute_hash_from_aunts lib index total leaf proof.aunts)) [
        | inl p ↦ absurd (cc (rw (p, verify) at e))
        | inr (c, p) ↦ p ∙ ap some (bytes_equal_eq c root (rw (p, verify) at e))
      ]

  -- For a list of fewer than 2^63-1 items and the root that `SimpleHashFromHashers` computes for it:
  -- if `Verify` accepts a leaf at an index with the length of the list for the total, then the index
  -- lies in the list and the leaf is the item there, or two different pairs of hashes with one hash
  -- are at hand.
  pub verify_sound :
      (hs : List Bytes) (proof : SimpleProof) (index : ℤ) (leaf root : Bytes)
      → length hs < max_int64
      → simple_hash_from_hashes lib hs ≡ some root
      → verify lib proof index (pos (length hs)) (some leaf) root ≡ true
      → ((i : ℕ) × (index ≡ pos i) × (get_elem? hs i ≡ some leaf)) ⊎ Collision lib
  unfolding simple_hash_from_hashes compute_hash_from_aunts
  verify_sound hs proof index leaf root b h v =
      let e = verify-true proof index (pos (length hs)) (some leaf) root v in
      let (i, at, p) =
        compute_from_root-range index (length hs) (some leaf) (reverse proof.aunts) e in
      elim (compute_sound (length hs) hs i (length hs) leaf (reverse proof.aunts) root p refl
        (omega arith) b (rw at at e) h) [ inl found ↦ inl (i, at, found) | inr c ↦ inr c ]
