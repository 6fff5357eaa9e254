-- ===== src/Types/ValidatorSet/Search.antt =====
-- types/validator_set.go: the binary search by address, on a set sorted by address.
use Prim.Native.Nat.{Ordering}
use de_mars_dmc.Prelude.{
  ℕ, zero, suc, ◌+◌, ◌/◌, ◌≤◌, ◌<◌, ◌≡◌, refl, sym, ◌∙◌, ap, ◌↔◌, inl, inr, Bool, true, false, ◌&&◌,
  some, List, length, get_elem?, ltb, Bool-cases, Option-cases, arith, get_elem?-in_range,
  get_elem?-lt, ◌⊎◌, lt→ltb,
}
use de_mars_dmc.Prelude.Bytes.{
  Bytes, bytes_equal_refl, bytes_equal_eq, bytes_compare, bytes_leb, bytes_ltb, bytes_compare_eq,
  bytes_compare_refl, bytes_lt_trans, bytes_gt_lt,
}
use de_mars_dmc.Types.ValidatorSet.{
  Validator, ValidatorSet, search_loop, search, at_or_after, address_index, address_at, has_address,
}

-- What `sort.Search` finds on `f`: false before it, true from it on up to `n`.
abbrev IsBoundary : (ℕ → Bool) → ℕ → ℕ → Type 0
IsBoundary f n r =
    (r ≤ n) × ((k : ℕ) → k < r → f k ≡ false) × ((k : ℕ) → r ≤ k → k < n → f k ≡ true)

-- A test that stays true once it is true.
abbrev IsMonotone : (ℕ → Bool) → ℕ → Type 0
IsMonotone f n = (i j : ℕ) → i ≤ j → j < n → f i ≡ true → f j ≡ true

module _ (f : ℕ → Bool) (n : ℕ) (mono : IsMonotone f n) where
  contra : (i j : ℕ) → i ≤ j → j < n → f j ≡ false → f i ≡ false
  contra i j h k e = elim (Bool-cases (f i)) [
    | inl t ↦ absurd (let t' = mono i j h k t in cc)
    | inr e' ↦ e'
  ]

  search_loop-IsBoundary :
      (fuel i j : ℕ)
      → j ≤ i + fuel
      → i ≤ j
      → j ≤ n
      → ((k : ℕ) → k < i → f k ≡ false)
      → ((k : ℕ) → j ≤ k → k < n → f k ≡ true)
      → IsBoundary f n (search_loop f fuel i j)
  unfolding search_loop
  search_loop-IsBoundary zero i j b h k lo hi = (omega arith, lo, λ k' p q. hi k' (omega arith) q)
  search_loop-IsBoundary (suc fuel) i j b h k lo hi =
      let m = (i + j) / 2 in
      elim (Bool-cases (ltb i j)) [
        | inr e ↦
            let ge : j ≤ i = ground arith in rw e (omega arith, lo, λ k' p q. hi k' (omega arith) q)
        | inl e ↦
            let lt : i < j = ground arith in
            elim (Bool-cases (f m)) [
              | inl t ↦
                  rw (e, t)
                    (search_loop-IsBoundary fuel i m (omega arith) (omega arith) (omega arith) lo
                      (λ k' p q. mono m k' p q t))
              | inr t ↦
                  rw (e, t)
                    (search_loop-IsBoundary fuel (suc m) j (omega arith) (omega arith) k
                      (λ k' p. contra k' m (omega arith) (omega arith) t) hi)
            ]
      ]

-- The addresses go up strictly.
abbrev pub IsSorted : List Validator → Type 0
IsSorted vals =
    (i j : ℕ) (v w : Validator)
    → i < j
    → get_elem? vals i ≡ some v
    → get_elem? vals j ≡ some w
    → bytes_ltb v.address w.address ≡ true

leb_cases : (a b : Bytes) → bytes_leb a b ≡ true → (bytes_ltb a b ≡ true) ⊎ (a ≡ b)
leb_cases a b h = let e = bytes_compare_eq a b in ground arith

leb_ltb_trans : (a b c : Bytes) → bytes_leb a b ≡ true → bytes_ltb b c ≡ true → bytes_leb a c ≡ true
leb_ltb_trans a b c h k = elim (leb_cases a b h) [
  | inl e ↦ let l = bytes_lt_trans a b c e k in ground arith
  | inr e ↦ let l = rw (sym e) at k in ground arith
]

leb_ltb_absurd : (a b : Bytes) → bytes_leb a b ≡ true → bytes_ltb b a ≡ true → ⊥
leb_ltb_absurd a b h k =
    let g = (bytes_gt_lt a b).1 in
    let e : bytes_compare b a ≡ Ordering.lt = ground arith in let e' = g e in absurd (ground arith)

module _ (vals : List Validator) (address : Bytes) where
  at_or_after-some :
      (i : ℕ)
      → at_or_after vals address i ≡ true
      → (v : Validator) × (get_elem? vals i ≡ some v) × (bytes_leb address v.address ≡ true)
  unfolding at_or_after
  at_or_after-some i h = elim (Option-cases (get_elem? vals i)) [
    | inl e ↦ absurd (let h' = rw (e, at_or_after) at h in cc)
    | inr (v, e) ↦ (v, e, rw (e, at_or_after) at h)
  ]

  at_or_after_of :
      (i : ℕ) (v : Validator)
      → get_elem? vals i ≡ some v
      → bytes_leb address v.address ≡ true
      → at_or_after vals address i ≡ true
  unfolding at_or_after
  at_or_after_of i v e h = rw (e, at_or_after) h

  at_or_after-IsMonotone : IsSorted vals → IsMonotone (at_or_after vals address) (length vals)
  at_or_after-IsMonotone s i j le lt h =
      let (v, e, h1) = at_or_after-some i h in
      elim (Option-cases (get_elem? vals j)) [
        | inl n ↦ absurd (get_elem?-lt vals j lt n)
        | inr (w, k) ↦ elim (Bool-cases (ltb i j)) [
          | inl l ↦
              at_or_after_of j w k
                (leb_ltb_trans address v.address w.address h1 (s i j v w (ground arith) e k))
          | inr l ↦ let same : i ≡ j = ground arith in ap (at_or_after vals address) (sym same) ∙ h
        ]
      ]

  -- The search finds the first validator at or after the address.
  address_index-IsBoundary :
      IsSorted vals
      → IsBoundary (at_or_after vals address) (length vals) (address_index vals address)
  unfolding address_index search
  address_index-IsBoundary s =
      search_loop-IsBoundary (at_or_after vals address) (length vals) (at_or_after-IsMonotone s)
        (length vals) 0 (length vals) (omega arith) (omega arith) (omega arith)
        (λ k p. absurd (omega arith)) (λ k p q. absurd (omega arith))

  address_index_found :
      IsSorted vals
      → (i : ℕ) (v : Validator) → get_elem? vals i ≡ some v
      → v.address ≡ address
      → address_index vals address ≡ i
  address_index_found s i v e same =
      let (le, lo, hi) = address_index-IsBoundary s in
      let r = address_index vals address in
      let here =
        at_or_after_of i v e (let q = bytes_compare_refl address in rw same (ground arith)) in
      elim (Bool-cases (ltb i r)) [
        | inl l ↦ absurd (let f = lo i (ground arith) in cc)
        | inr l ↦ elim (Bool-cases (ltb r i)) [
          | inl m ↦
              let in_range = get_elem?-in_range vals i e in
              let (w, k, h) = at_or_after-some r (hi r (omega arith) (ground arith)) in
              let lt = s r i w v (ground arith) k e in
              absurd (leb_ltb_absurd address w.address h (rw same at lt))
          | inr m ↦ ground arith
        ]
      ]

module _ (vals : List Validator) (address : Bytes) (i : ℕ) where
  address_at-some :
      address_at vals i address ≡ true
      → (v : Validator) × (get_elem? vals i ≡ some v) × (v.address ≡ address)
  unfolding address_at
  address_at-some h = elim (Option-cases (get_elem? vals i)) [
    | inl e ↦ absurd (let h' = rw (e, address_at) at h in cc)
    | inr (v, e) ↦ (v, e, bytes_equal_eq v.address address (rw (e, address_at) at h))
  ]

  address_at_of :
      (v : Validator)
      → get_elem? vals i ≡ some v
      → v.address ≡ address
      → address_at vals i address ≡ true
  unfolding address_at
  address_at_of v e same = rw (e, address_at) (rw same (bytes_equal_refl address))

and_true : (a b : Bool) → (a && b) ≡ true → (a ≡ true) × (b ≡ true)
and_true true true h = (refl, refl)
and_true true false h = absurd (cc)
and_true false b h = absurd (cc)

-- On a set sorted by address, `HasAddress` finds an address exactly when a validator has it.
pub has_address_iff :
    (vs : ValidatorSet) (address : Bytes)
    → IsSorted vs.validators
    → (has_address vs address ≡ true)
      ↔ ((i : ℕ) × (v : Validator) × (get_elem? vs.validators i ≡ some v) × (v.address ≡ address))
unfolding has_address
has_address_iff vs address s =
    let vals = vs.validators in
    let r = address_index vals address in
    (
      λ h.
          let (_, at) = and_true (ltb r (length vals)) (address_at vals r address) h in
          let (v, e, same) = address_at-some vals address r at in (r, v, e, same),
      λ (i, v, e, same).
          let found = address_index_found vals address s i v e same in
          let lt = lt→ltb i (length vals) (get_elem?-in_range vals i e) in
          rw (found, has_address, lt) (address_at_of vals address i v e same),
    )
