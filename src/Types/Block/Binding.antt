-- ===== src/Types/Block/Binding.antt =====
-- types/block.go: what the data hash of a valid block says of its transactions.
use mathlib.Core.Option.{some-injective}
use de_mars_dmc.Prelude.{
  ℕ, zero, suc, ◌≡◌, ◌∙◌, ◌⊎◌, inl, inr, refl, sym, ap, Option, none, some, List, [], ◌∷◌, length,
  get_elem?, is_some, Bool-cases, arith,
}
use de_mars_dmc.Prelude.Int.{pos, eqb_ℤ}
use de_mars_dmc.Prelude.Bytes.{Bytes, bytes_equal, bytes_equal_eq}
use de_mars_dmc.Crypto.Merkle.{HashLib, or_empty, simple_hash_from_two_hashes}
use de_mars_dmc.Crypto.Merkle.Sound.{Collision, equal_or_collide}
use de_mars_dmc.Types.Commit.{CommitError}
use de_mars_dmc.Types.Tx.{txs_hash}
use de_mars_dmc.Types.Block.{
  TxBucket, Data, Block, total_txs_in_buckets, check_commit, buckets_hash_from, tx_buckets_hash,
  hash_data, check_data_hash, with_commit, block_validate_basic,
}

module _ (lib : HashLib) where
  abbrev bucket_hash : TxBucket → Bytes
  bucket_hash bucket = or_empty (txs_hash lib bucket.txs)

  -- Buckets that agree in their hashes, one by one.
  pub AllAgree : List TxBucket → List TxBucket → Type 0
  AllAgree [] bs' = Unit
  AllAgree (b ∷ bs) [] = Unit
  AllAgree (b ∷ bs) (b' ∷ bs') = (bucket_hash b ≡ bucket_hash b') × AllAgree bs bs'

  AllAgree-at :
      (bs bs' : List TxBucket) (i : ℕ) (b b' : TxBucket)
      → AllAgree bs bs'
      → get_elem? bs i ≡ some b
      → get_elem? bs' i ≡ some b'
      → bucket_hash b ≡ bucket_hash b'
  unfolding AllAgree
  AllAgree-at [] bs' i b b' h e e' = absurd (cc)
  AllAgree-at (c ∷ bs) [] i b b' h e e' = absurd (cc)
  AllAgree-at (c ∷ bs) (c' ∷ bs') zero b b' (q, h) e e' =
      ap bucket_hash (sym (some-injective _ _ e)) ∙ q ∙ ap bucket_hash (some-injective _ _ e')
  AllAgree-at (c ∷ bs) (c' ∷ bs') (suc i) b b' (q, h) e e' = AllAgree-at bs bs' i b b' h e e'

  -- Equal hashes of as many buckets come of equal starts and equal hashes of the buckets.
  buckets_hash_from-AllAgree :
      (bs bs' : List TxBucket) (a a' : Bytes)
      → length bs ≡ length bs'
      → buckets_hash_from lib a bs ≡ buckets_hash_from lib a' bs'
      → ((a ≡ a') × AllAgree bs bs') ⊎ Collision lib
  unfolding AllAgree buckets_hash_from
  buckets_hash_from-AllAgree [] [] a a' l e = inl (e, tt)
  buckets_hash_from-AllAgree [] (b ∷ bs') a a' l e = absurd (omega arith)
  buckets_hash_from-AllAgree (b ∷ bs) [] a a' l e = absurd (omega arith)
  buckets_hash_from-AllAgree (b ∷ bs) (b' ∷ bs') a a' l e =
      elim (buckets_hash_from-AllAgree bs bs' (simple_hash_from_two_hashes lib a (bucket_hash b))
        (simple_hash_from_two_hashes lib a' (bucket_hash b')) (omega arith) e) [
          | inr c ↦ inr c
          | inl (q, h) ↦ elim (equal_or_collide lib a (bucket_hash b) a' (bucket_hash b') q) [
            | inr c ↦ inr c
            | inl (s, t) ↦ inl (s, (t, h))
          ]
        ]

  buckets_agree :
      (bs bs' : List TxBucket) (i : ℕ) (b b' : TxBucket)
      → length bs ≡ length bs'
      → or_empty (tx_buckets_hash lib bs) ≡ or_empty (tx_buckets_hash lib bs')
      → get_elem? bs (suc i) ≡ some b
      → get_elem? bs' (suc i) ≡ some b'
      → (bucket_hash b ≡ bucket_hash b') ⊎ Collision lib
  unfolding tx_buckets_hash
  buckets_agree [] bs' i b b' l e q q' = absurd (cc)
  buckets_agree (c ∷ bs) [] i b b' l e q q' = absurd (cc)
  buckets_agree (c ∷ bs) (c' ∷ bs') i b b' l e q q' =
      elim (buckets_hash_from-AllAgree bs bs' _ _ (omega arith) e) [
        | inl (s, h) ↦ inl (AllAgree-at bs bs' i b b' h q q')
        | inr x ↦ inr x
      ]

  check_data_hash-ok :
      (b c : Block)
      → check_data_hash lib b ≡ (none, c)
      → or_empty b.header.data_hash ≡ or_empty (hash_data lib b.data').0
  unfolding check_data_hash
  check_data_hash-ok b c e =
      elim (Bool-cases
        (bytes_equal (or_empty b.header.data_hash) (or_empty (hash_data lib b.data').0))) [
          | inl q ↦ bytes_equal_eq _ _ q
          | inr q ↦ absurd (let e' = ap (λ x. x.0) (rw q at e) in cc)
        ]

  with_commit-ok :
      (b c : Block) (r : Option (Option CommitError))
      → with_commit lib b r ≡ some (none, c)
      → check_data_hash lib b ≡ (none, c)
  unfolding with_commit
  with_commit-ok b c none e = absurd (cc)
  with_commit-ok b c (some (some x)) e =
      absurd (let e' = ap (λ r. r.0) (some-injective _ _ e) in cc)
  with_commit-ok b c (some none) e = some-injective _ _ e

  block_validate_basic-ok :
      (b c : Block)
      → block_validate_basic lib b ≡ some (none, c)
      → or_empty b.header.data_hash ≡ or_empty (hash_data lib b.data').0
  unfolding block_validate_basic
  block_validate_basic-ok b c e =
      elim (Bool-cases (eqb_ℤ b.header.num_txs (total_txs_in_buckets b.data'))) [
        | inr q ↦ absurd (let e' = ap (λ r. r.0) (some-injective _ _ (rw q at e)) in cc)
        | inl q ↦ elim (Bool-cases (eqb_ℤ b.header.height (pos 1))) [
          | inl p ↦ check_data_hash-ok b c (some-injective _ _ (rw (q, p) at e))
          | inr p ↦
              check_data_hash-ok b c (with_commit-ok b c (check_commit b.commit) (rw (q, p) at e))
        ]
      ]

  fresh_hash :
      (d : Data) → d.hash ≡ none → (hash_data lib (some d)).0 ≡ tx_buckets_hash lib d.tx_buckets
  unfolding hash_data
  fresh_hash d e = elim (Bool-cases (is_some d.hash)) [
    | inl q ↦ absurd (let e' = sym q ∙ ap is_some e in cc)
    | inr q ↦ rw q refl
  ]

  -- For two blocks that ValidateBasic accepts, with one data hash, as many buckets and no hash cached
  -- in the data: from the second bucket on, the transactions of the buckets at one index have one
  -- hash, or two pairs of hashes collide.
  pub data_hash-binds :
      (b b' c c' : Block) (d d' : Data) (i : ℕ) (bucket bucket' : TxBucket)
      → block_validate_basic lib b ≡ some (none, c)
      → block_validate_basic lib b' ≡ some (none, c')
      → b.data' ≡ some d
      → b'.data' ≡ some d'
      → d.hash ≡ none
      → d'.hash ≡ none
      → b.header.data_hash ≡ b'.header.data_hash
      → length d.tx_buckets ≡ length d'.tx_buckets
      → get_elem? d.tx_buckets (suc i) ≡ some bucket
      → get_elem? d'.tx_buckets (suc i) ≡ some bucket'
      → (or_empty (txs_hash lib bucket.txs) ≡ or_empty (txs_hash lib bucket'.txs)) ⊎ Collision lib
  data_hash-binds b b' c c' d d' i bucket bucket' v v' x x' f f' h l e e' =
      let p =
        block_validate_basic-ok b c v
        ∙ ap (λ o. or_empty (hash_data lib o).0) x
        ∙ ap or_empty (fresh_hash d f) in
      let p' =
        block_validate_basic-ok b' c' v'
        ∙ ap (λ o. or_empty (hash_data lib o).0) x'
        ∙ ap or_empty (fresh_hash d' f') in
      buckets_agree d.tx_buckets d'.tx_buckets i bucket bucket' l (sym p ∙ ap or_empty h ∙ p') e e'
