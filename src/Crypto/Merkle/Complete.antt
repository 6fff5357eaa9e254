-- ===== src/Crypto/Merkle/Complete.antt =====
-- The proofs of SimpleProofsFromHashers are accepted by Verify against the root.
use mathlib.Core.Option
use mathlib.Core.List.{reverse, reverse-append}
use de_mars_dmc.Prelude.{
  ℕ, zero, suc, ◌+◌, ◌-◌, ◌≤◌, ◌<◌, ◌≡◌, ◌∙◌, sym, refl, ap, true, ◌||◌, Option, none, some, List,
  [], ◌∷◌, ◌++◌, map, arith, inl, inr, Bool-cases, get_elem?-map, length-map, ltb→lt, ltb→ge,
  is_some, ltb, if◌then◌else◌, length, take, drop, get_elem?, length-map-append,
  get_elem?-map-append_left, get_elem?-map-append_right, get_elem?-take, get_elem?-drop,
}
use de_mars_dmc.Prelude.Int.{pos}
use de_mars_dmc.Prelude.Int64.{max_int64}
use de_mars_dmc.Prelude.Bytes.{Bytes, bytes_equal_refl}
use de_mars_dmc.Crypto.Merkle.{
  HashLib, SimpleProof, SimpleProofNode, Trail, or_empty, left_size, flatten_aunts, attach,
  set_left, set_right, simple_hash_loop, simple_hash_from_hashes, trails_loop, join_trails,
  simple_proofs_from_hashers, compute_from_root, compute_hash_from_aunts, verify,
}
use de_mars_dmc.Crypto.Merkle.Step.{compute_from_root-cons, compute_from_root-nil}
use de_mars_dmc.Crypto.Merkle.Fuel.{
  length-left, length-right, simple_hash_loop_total, trails_loop-root,
}

-- A chain whose inner nodes have a sibling and whose last node is a root.
abbrev HasSibling : SimpleProofNode → Type 0
HasSibling n = (is_some n.left || is_some n.right) ≡ true

abbrev IsBare : SimpleProofNode → Type 0
IsBare n = (n.left ≡ none) × (n.right ≡ none)

IsRooted : Trail → Type 0
IsRooted [] = ⊥
IsRooted (n ∷ []) = IsBare n
IsRooted (n ∷ m ∷ t) = HasSibling n × IsRooted (m ∷ t)

-- The hash that `FlattenAunts` takes from a node with a sibling.
abbrev aunt_of : SimpleProofNode → Bytes
aunt_of n = elim n.left [ some l ↦ l | none ↦ or_empty n.right ]

flatten_aunts-cons :
    (n : SimpleProofNode) (t : Trail)
    → HasSibling n
    → flatten_aunts (n ∷ t) ≡ aunt_of n ∷ flatten_aunts t
unfolding flatten_aunts
flatten_aunts-cons n t h = ground arith

flatten_aunts-bare : (n : SimpleProofNode) (t : Trail) → IsBare n → flatten_aunts (n ∷ t) ≡ []
unfolding flatten_aunts
flatten_aunts-bare n t h = ground arith

-- A function that gives a bare node a sibling with the hash `h`.
record GivesSibling (s : SimpleProofNode → SimpleProofNode) (h : Bytes) : Type 0 where
  has : (n : SimpleProofNode) → IsBare n → HasSibling (s n)
  aunt : (n : SimpleProofNode) → IsBare n → aunt_of (s n) ≡ h

set_right-GivesSibling : (h : Bytes) → GivesSibling (set_right h) h
set_right-GivesSibling h = record { has = λ n b. ground arith; aunt = λ n b. ground arith }

set_left-GivesSibling : (h : Bytes) → GivesSibling (set_left h) h
set_left-GivesSibling h = record { has = λ n b. ground arith; aunt = λ n b. ground arith }

module _ (s : SimpleProofNode → SimpleProofNode) (h : Bytes) (g : GivesSibling s h)
    (root : SimpleProofNode) (bare : IsBare root) where
  attach-IsRooted : (t : Trail) → IsRooted t → IsRooted (attach s root t)
  unfolding IsRooted attach
  attach-IsRooted [] r = absurd r
  attach-IsRooted (n ∷ []) r = (g.has n r, bare)
  attach-IsRooted (n ∷ m ∷ []) r = (r.0, (g.has m r.1, bare))
  attach-IsRooted (n ∷ m ∷ k ∷ t) r = (r.0, attach-IsRooted (m ∷ k ∷ t) r.1)

  flatten_aunts-attach :
      (t : Trail) → IsRooted t → flatten_aunts (attach s root t) ≡ flatten_aunts t ++ h ∷ []
  unfolding IsRooted attach
  flatten_aunts-attach [] r = absurd r
  flatten_aunts-attach (n ∷ []) r =
      rw (flatten_aunts-cons (s n) (root ∷ []) (g.has n r)) (
        rw (flatten_aunts-bare root [] bare)
          (rw (flatten_aunts-bare n [] r) (rw (g.aunt n r) refl)))
  flatten_aunts-attach (n ∷ m ∷ t) r =
      flatten_aunts-cons n (attach s root (m ∷ t)) r.0
      ∙ ap (λ l. aunt_of n ∷ l) (flatten_aunts-attach (m ∷ t) r.1)
      ∙ sym (ap (λ l. l ++ h ∷ []) (flatten_aunts-cons n (m ∷ t) r.0))

-- A trail that exists, and whose aunts are `path` in reverse.
Follows : List Bytes → Option Trail → Type 0
Follows path none = ⊥
Follows path (some t) = IsRooted t × (reverse (flatten_aunts t) ≡ path)

Follows-attach :
    (s : SimpleProofNode → SimpleProofNode) (h : Bytes)
    → GivesSibling s h
    → (root : SimpleProofNode) → IsBare root
    → (path : List Bytes) (o : Option Trail) → Follows path o
    → Follows (h ∷ path) (Option.map (attach s root) o)
unfolding Follows
Follows-attach s h g root bare path none f = f
Follows-attach s h g root bare path (some t) f = (
  attach-IsRooted s h g root bare t f.0,
  ap reverse (flatten_aunts-attach s h g root bare t f.0)
      ∙ reverse-append (flatten_aunts t) (h ∷ [])
      ∙ ap (λ l. h ∷ l) f.1,
)

module _ (lib : HashLib) where
  -- The hashes beside the path from the root to the leaf `i`, the root's child first.
  root_path : ℕ → List Bytes → ℕ → List Bytes
  root_path f [] i = []
  root_path f (h ∷ []) i = []
  root_path zero (h ∷ k ∷ hs) i = []
  root_path (suc f) (h ∷ k ∷ hs) i =
      let n = left_size (length (h ∷ k ∷ hs)) in
      let left = take n (h ∷ k ∷ hs) in
      let right = drop n (h ∷ k ∷ hs) in
      let below_left = or_empty (simple_hash_loop lib f right) ∷ root_path f left i in
      let below_right = or_empty (simple_hash_loop lib f left) ∷ root_path f right (i - n) in
      if ltb i n then below_left else below_right

  module _ (lefts rights : List Trail) (left_root right_root : Option Bytes) where
    abbrev joined : List Trail
    joined = (join_trails lib (lefts, left_root) (rights, right_root)).0

    length-join_trails : length joined ≡ length lefts + length rights
    unfolding join_trails
    length-join_trails = length-map-append _ _ lefts rights

    join_trails-left :
        (path : List Bytes) (i : ℕ)
        → i < length lefts
        → Follows path (get_elem? lefts i)
        → Follows (or_empty right_root ∷ path) (get_elem? joined i)
    unfolding join_trails
    join_trails-left path i p f =
        rw (get_elem?-map-append_left _ _ lefts rights i p)
          (Follows-attach _ _ (set_right-GivesSibling _) _ (refl, refl) path (get_elem? lefts i) f)

    join_trails-right :
        (path : List Bytes) (i : ℕ)
        → length lefts ≤ i
        → Follows path (get_elem? rights (i - length lefts))
        → Follows (or_empty left_root ∷ path) (get_elem? joined i)
    unfolding join_trails
    join_trails-right path i p f = rw (get_elem?-map-append_right _ _ lefts rights i p) (
        Follows-attach _ _ (set_left-GivesSibling _) _ (refl, refl) path
          (get_elem? rights (i - length lefts)) f)

  length-trails_loop :
      (f : ℕ) (hs : List Bytes) → length hs ≤ f → length (trails_loop lib f hs).0 ≡ length hs
  unfolding trails_loop
  length-trails_loop f [] q = refl
  length-trails_loop f (h ∷ []) q = refl
  length-trails_loop zero (h ∷ k ∷ hs) q = absurd (omega arith)
  length-trails_loop (suc f) (h ∷ k ∷ hs) q =
      let xs = h ∷ k ∷ hs in
      let n = left_size (length xs) in
      let l = length-left xs (omega arith) in
      let r = length-right xs (omega arith) in
      let e = length-trails_loop f (take n xs) (omega arith) in
      let e' = length-trails_loop f (drop n xs) (omega arith) in
      length-join_trails _ _ _ _
      ∙ (let g : length (trails_loop lib f (take n xs)).0 + length (trails_loop lib f (drop n xs)).0
              ≡ length xs =
            omega arith in
          g)

  trails_loop-Follows :
      (f : ℕ) (hs : List Bytes) (i : ℕ)
      → i < length hs
      → length hs ≤ f
      → Follows (root_path f hs i) (get_elem? (trails_loop lib f hs).0 i)
  unfolding trails_loop root_path
  trails_loop-Follows f [] i p q = absurd (omega arith)
  trails_loop-Follows f (h ∷ []) zero p q =
      unfold Follows IsRooted flatten_aunts in ((refl, refl), refl)
  trails_loop-Follows f (h ∷ []) (suc i) p q = absurd (omega arith)
  trails_loop-Follows zero (h ∷ k ∷ hs) i p q = absurd (omega arith)
  trails_loop-Follows (suc f) (h ∷ k ∷ hs) i p q =
      let xs = h ∷ k ∷ hs in
      let n = left_size (length xs) in
      let l = length-left xs (omega arith) in
      let r = length-right xs (omega arith) in
      let e = length-trails_loop f (take n xs) (omega arith) in
      elim (Bool-cases (ltb i n)) [
        | inl lo ↦
            let b = ltb→lt i n lo in
            rw lo (
              rw (← trails_loop-root lib f (drop n xs)) (
                join_trails-left _ _ _ _ (root_path f (take n xs) i) i (omega arith)
                  (trails_loop-Follows f (take n xs) i (omega arith) (omega arith))))
        | inr hi ↦
            let b = ltb→ge i n hi in
            rw hi (
              rw (← trails_loop-root lib f (take n xs)) (
                join_trails-right _ _ _ _ (root_path f (drop n xs) (i - n)) i (omega arith) (
                  rw (e, l)
                    (trails_loop-Follows f (drop n xs) (i - n) (omega arith) (omega arith)))))
      ]

  -- Folding the path of a leaf up gives the root.
  compute-root_path :
      (f : ℕ) (hs : List Bytes) (i total : ℕ) (leaf : Option Bytes)
      → i < length hs
      → length hs ≤ f
      → length hs ≡ total
      → total < max_int64
      → get_elem? hs i ≡ leaf
      → compute_from_root lib (pos i) (pos total) leaf (root_path f hs i)
        ≡ simple_hash_loop lib f hs
  unfolding simple_hash_loop root_path
  compute-root_path f [] i total leaf p q t b e = absurd (omega arith)
  compute-root_path f (h ∷ []) zero total leaf p q t b e =
      rw (← t) (compute_from_root-nil lib leaf ∙ sym e)
  compute-root_path f (h ∷ []) (suc i) total leaf p q t b e = absurd (omega arith)
  compute-root_path zero (h ∷ k ∷ hs) i total leaf p q t b e = absurd (omega arith)
  compute-root_path (suc f) (h ∷ k ∷ hs) i total leaf p q t b e =
      let xs = h ∷ k ∷ hs in
      let n = left_size (length xs) in
      let l = length-left xs (omega arith) in
      let r = length-right xs (omega arith) in
      let L = simple_hash_loop_total lib f (take n xs) (omega arith) (omega arith) in
      let R = simple_hash_loop_total lib f (drop n xs) (omega arith) (omega arith) in
      rw (← t) (elim (Bool-cases (ltb i n)) [
        | inl lo ↦
            let c = ltb→lt i n lo in
            rw lo (
              compute_from_root-cons lib i (length xs) leaf _ _ p (omega arith) (omega arith)
              ∙ rw lo (
                  rw
                    (compute-root_path f (take n xs) i n leaf (omega arith) (omega arith) l
                      (omega arith) (get_elem?-take n xs i c ∙ e))
                    (rw L.1 refl)))
        | inr hi ↦
            let c = ltb→ge i n hi in
            rw hi (
              compute_from_root-cons lib i (length xs) leaf _ _ p (omega arith) (omega arith)
              ∙ rw hi (
                  rw
                    (compute-root_path f (drop n xs) (i - n) (length xs - n) leaf (omega arith)
                      (omega arith) r (omega arith)
                      (get_elem?-drop n xs (i - n) ∙ ap (get_elem? xs) (omega arith) ∙ e))
                    (rw R.1 refl)))
      ])

module _ (lib : HashLib) where
  abbrev proof_of : Trail → SimpleProof
  proof_of t = record { aunts = flatten_aunts t }

  -- A trail of the leaf `i` is accepted.
  verify-Follows :
      (hs : List Bytes) (i : ℕ) (root : Bytes) (t : Trail)
      → i < length hs
      → length hs < max_int64
      → simple_hash_from_hashes lib hs ≡ some root
      → Follows (root_path lib (length hs) hs i) (some t)
      → verify lib (proof_of t) (pos i) (pos (length hs)) (get_elem? hs i) root ≡ true
  unfolding Follows verify simple_hash_from_hashes
  verify-Follows hs i root t p b e f =
      let c : compute_hash_from_aunts lib (pos i) (pos (length hs)) (get_elem? hs i)
            (flatten_aunts t)
          ≡ some root =
        ap (compute_from_root lib (pos i) (pos (length hs)) (get_elem? hs i)) f.1
        ∙ compute-root_path lib (length hs) hs i (length hs) (get_elem? hs i) p (omega arith) refl b
            refl
        ∙ e in
      rw (c, verify) (bytes_equal_refl root)

  Follows-some :
      (path : List Bytes) (o : Option Trail)
      → Follows path o
      → (t : Trail) × (o ≡ some t) × Follows path (some t)
  unfolding Follows
  Follows-some path none f = absurd f
  Follows-some path (some t) f = (t, refl, f)

  simple_proofs-some :
      (hs : List Bytes) (root : Bytes)
      → (trails_loop lib (length hs) hs).1 ≡ some root
      → simple_proofs_from_hashers lib hs
        ≡ some (root, map proof_of (trails_loop lib (length hs) hs).0)
  unfolding simple_proofs_from_hashers
  simple_proofs-some hs root e = rw (e, simple_proofs_from_hashers) refl

  -- For every item of a list of fewer than 2^63-1 items, `SimpleProofsFromHashers` returns the root
  -- that `SimpleHashFromHashers` computes, as many proofs as items, and a proof for the item which
  -- `Verify` accepts at its index, with the number of items, against that root.
  pub verify-simple_proofs :
      (hs : List Bytes) (i : ℕ)
      → i < length hs
      → length hs < max_int64
      → (root : Bytes) × (proofs : List SimpleProof) × (proof : SimpleProof)
        × (simple_hash_from_hashes lib hs ≡ some root)
        × (simple_proofs_from_hashers lib hs ≡ some (root, proofs))
        × (length proofs ≡ length hs)
        × (get_elem? proofs i ≡ some proof)
        × (verify lib proof (pos i) (pos (length hs)) (get_elem? hs i) root ≡ true)
  unfolding simple_hash_from_hashes
  verify-simple_proofs hs i p b =
      let (root, e) = simple_hash_loop_total lib (length hs) hs (omega arith) (omega arith) in
      let trails = (trails_loop lib (length hs) hs).0 in
      let (t, found, f) =
        Follows-some (root_path lib (length hs) hs i) (get_elem? trails i)
          (trails_loop-Follows lib (length hs) hs i p (omega arith)) in
      (
        root,
        map proof_of trails,
        proof_of t,
        e,
        simple_proofs-some hs root (trails_loop-root lib (length hs) hs ∙ e),
        length-map trails proof_of ∙ length-trails_loop lib (length hs) hs (omega arith),
        get_elem?-map proof_of trails i ∙ ap (Option.map proof_of) found,
        verify-Follows hs i root t p b e f,
      )
