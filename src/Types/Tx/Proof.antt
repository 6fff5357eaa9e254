-- ===== src/Types/Tx/Proof.antt =====
-- types/tx.go: the root of a block's transactions and the proofs against it.
use mathlib.Core.Option
use mathlib.Core.Option.{some-injective}
use de_mars_dmc.Prelude.{
  ℕ, zero, suc, ◌<◌, ◌≡◌, ◌⊎◌, inl, inr, refl, sym, ◌∙◌, ap, true, false, Option, none, some, List,
  [], ◌∷◌, map, length, take, drop, get_elem?, get_elem?-map, length-map, Option-cases, arith,
}
use de_mars_dmc.Prelude.Int.{pos, ltb_ℤ, leb_ℤ}
use de_mars_dmc.Prelude.Int64.{max_int64}
use de_mars_dmc.Prelude.Bytes.{Bytes, bytes_equal_refl, bytes_equal_eq}
use de_mars_dmc.Crypto.Merkle.{
  HashLib, SimpleProof, left_size, or_empty, tmhash, simple_hash_from_two_hashes, simple_hash_loop,
  simple_hash_from_hashes, simple_proofs_from_hashers, verify,
}
use de_mars_dmc.Crypto.Merkle.Complete.{verify-simple_proofs}
use de_mars_dmc.Crypto.Merkle.Sound.{Collision, verify_sound}
use de_mars_dmc.Types.Tx.{Txs, TxProof, txs_hash_loop, txs_hash, txs_proof, validate_proof}

map-take : {A B : Type 0} (f : A → B) (n : ℕ) (xs : List A) → map f (take n xs) ≡ take n (map f xs)
map-take f zero xs = refl
map-take f (suc n) [] = refl
map-take f (suc n) (x ∷ xs) = ap (λ ys. f x ∷ ys) (map-take f n xs)

map-drop : {A B : Type 0} (f : A → B) (n : ℕ) (xs : List A) → map f (drop n xs) ≡ drop n (map f xs)
map-drop f zero xs = refl
map-drop f (suc n) [] = refl
map-drop f (suc n) (x ∷ xs) = map-drop f n xs

module _ (lib : HashLib) where
  txs_hash_loop-map :
      (fuel : ℕ) (txs : Txs)
      → txs_hash_loop lib fuel txs ≡ simple_hash_loop lib fuel (map (tmhash lib) txs)
  unfolding txs_hash_loop simple_hash_loop
  txs_hash_loop-map fuel [] = refl
  txs_hash_loop-map fuel (tx ∷ []) = refl
  txs_hash_loop-map zero (tx ∷ tx' ∷ txs) = refl
  txs_hash_loop-map (suc fuel) (tx ∷ tx' ∷ txs) =
      let xs = tx ∷ tx' ∷ txs in
      let n = left_size (length xs) in
      let hashes = map (tmhash lib) xs in
      let size = ap left_size (length-map xs (tmhash lib)) in
      let left =
        txs_hash_loop-map fuel (take n xs)
        ∙ ap (simple_hash_loop lib fuel) (map-take (tmhash lib) n xs)
        ∙ ap (λ m. simple_hash_loop lib fuel (take m hashes)) (sym size) in
      let right =
        txs_hash_loop-map fuel (drop n xs)
        ∙ ap (simple_hash_loop lib fuel) (map-drop (tmhash lib) n xs)
        ∙ ap (λ m. simple_hash_loop lib fuel (drop m hashes)) (sym size) in
      λ i. some (simple_hash_from_two_hashes lib (or_empty (left i)) (or_empty (right i)))

  -- `Txs.Hash`, which has a recursion of its own, is the root that `SimpleHashFromHashers` computes
  -- from the hashes of the transactions.
  pub txs_hash-eq-merkle :
      (txs : Txs) → txs_hash lib txs ≡ simple_hash_from_hashes lib (map (tmhash lib) txs)
  unfolding txs_hash simple_hash_from_hashes
  txs_hash-eq-merkle txs =
      txs_hash_loop-map (length txs) txs
      ∙ ap (λ n. simple_hash_loop lib n (map (tmhash lib) txs)) (sym (length-map txs (tmhash lib)))

  abbrev proof_of : ℕ → ℕ → Bytes → Bytes → SimpleProof → TxProof
  proof_of i total root tx proof = record {
    index = pos i;
    total = pos total;
    root_hash = root;
    data' = tx;
    proof = proof;
  }

  accepted :
      (i total : ℕ) (root tx : Bytes) (proof : SimpleProof)
      → 0 < total
      → verify lib proof (pos i) (pos total) (some (tmhash lib tx)) root ≡ true
      → validate_proof lib (proof_of i total root tx proof) root ≡ none
  unfolding validate_proof
  accepted i total root tx proof p v =
      let same = bytes_equal_refl root in
      let a : ltb_ℤ (pos i) (pos 0) ≡ false = ground arith in
      let b : leb_ℤ (pos total) (pos 0) ≡ false = ground arith in rw (same, a, b, v) refl

  txs_proof-made :
      (txs : Txs) (i : ℕ) (root tx : Bytes) (proofs : List SimpleProof) (proof : SimpleProof)
      → simple_proofs_from_hashers lib (map (tmhash lib) txs) ≡ some (root, proofs)
      → get_elem? txs i ≡ some tx
      → get_elem? proofs i ≡ some proof
      → txs_proof lib txs i ≡ some (proof_of i (length txs) root tx proof)
  unfolding txs_proof
  txs_proof-made txs i root tx proofs proof made at found = rw (made, at, found, txs_proof) refl

  verify-same :
      (proof : SimpleProof) (i n m : ℕ) (o o' : Option Bytes) (root : Bytes)
      → n ≡ m
      → o ≡ o'
      → verify lib proof (pos i) (pos n) o root ≡ true
      → verify lib proof (pos i) (pos m) o' root ≡ true
  verify-same proof i n m o o' root e q h = rw (e, q) at h

  -- The proof that `Txs.Proof` makes at an index of fewer than 2^63-1 transactions is of the
  -- transaction there, and `Validate` accepts it against the root `Txs.Hash` of all of them.
  pub validate_proof-txs_proof :
      (txs : Txs) (i : ℕ) (tx : Bytes)
      → get_elem? txs i ≡ some tx
      → i < length txs
      → length txs < max_int64
      → (tp : TxProof) × (root : Bytes) × (txs_proof lib txs i ≡ some tp)
        × (tp.data' ≡ tx)
        × (txs_hash lib txs ≡ some root)
        × (validate_proof lib tp root ≡ none)
  validate_proof-txs_proof txs i tx at p b =
      let hashes = map (tmhash lib) txs in
      let len = length-map txs (tmhash lib) in
      let (root, proofs, proof, h, made, _, found, v) =
        verify-simple_proofs lib hashes i (omega arith) (omega arith) in
      let leaf = get_elem?-map (tmhash lib) txs i ∙ ap (Option.map (tmhash lib)) at in
      (
        proof_of i (length txs) root tx proof,
        root,
        txs_proof-made txs i root tx proofs proof made at found,
        refl,
        txs_hash-eq-merkle txs ∙ h,
        accepted i (length txs) root tx proof (omega arith)
            (verify-same proof i (length hashes) (length txs) _ _ root len leaf v),
      )

  validate_proof-verify :
      (tp : TxProof) (root : Bytes)
      → validate_proof lib tp root ≡ none
      → verify lib tp.proof tp.index tp.total (some (tmhash lib tp.data')) root ≡ true
  unfolding validate_proof
  validate_proof-verify tp root h = let e = bytes_equal_eq root tp.root_hash in ground arith

  -- A proof that `Validate` accepts against the root of fewer than 2^63-1 transactions, for their
  -- number, has at its index a transaction with the hash of the proof's, or two pairs of hashes
  -- with one hash are at hand.
  pub validate_proof_sound :
      (txs : Txs) (tp : TxProof) (root : Bytes)
      → length txs < max_int64
      → tp.total ≡ pos (length txs)
      → txs_hash lib txs ≡ some root
      → validate_proof lib tp root ≡ none
      → ((i : ℕ) × (tx : Bytes) × (tp.index ≡ pos i)
          × (get_elem? txs i ≡ some tx)
          × (tmhash lib tx ≡ tmhash lib tp.data'))
        ⊎ Collision lib
  validate_proof_sound txs tp root b t h v =
      let hashes = map (tmhash lib) txs in
      let len = length-map txs (tmhash lib) in
      let ok' = validate_proof-verify tp root v in
      let ok'' = rw (t ∙ ap pos (sym len)) at ok' in
      elim (verify_sound lib hashes tp.proof tp.index (tmhash lib tp.data') root (omega arith)
        (sym (txs_hash-eq-merkle txs) ∙ h) ok'') [
          | inr c ↦ inr c
          | inl (i, e, found) ↦ elim (Option-cases (get_elem? txs i)) [
            | inl q ↦
                absurd
                  (let k = sym found ∙ get_elem?-map (tmhash lib) txs i in let k' = rw q at k in cc)
            | inr (tx, q) ↦ inl (
              i,
              tx,
              e,
              q,
              some-injective _ _ (sym (rw q at (get_elem?-map (tmhash lib) txs i)) ∙ found),
            )
          ]
        ]
