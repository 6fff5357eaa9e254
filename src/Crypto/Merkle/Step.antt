-- ===== src/Crypto/Merkle/Step.antt =====
-- One level of computeHashFromAunts at an index inside the tree, where no integer wraps around.
use mathlib.Core.Option
use de_mars_dmc.Prelude.{
  ℕ, ◌+◌, ◌-◌, ◌<◌, ◌≡◌, refl, Option, List, [], ◌∷◌, arith, ltb, ltb→ge, Bool-cases, inl, inr,
  false, ◌||◌, if◌then◌else◌,
}
use de_mars_dmc.Prelude.Int.{pos, leb_ℤ, ltb_ℤ, eqb_ℤ}
use de_mars_dmc.Prelude.Int64.{max_int64, add64, div64, add64_nonneg, sub64_nonneg, div64_nonneg}
use de_mars_dmc.Prelude.Bytes.{Bytes}
use de_mars_dmc.Crypto.Merkle.{HashLib, left_size, simple_hash_from_two_hashes, compute_from_root}

left_size_int64 : (n : ℕ) → n < max_int64 → div64 (add64 (pos n) (pos 1)) 2 ≡ pos (left_size n)
left_size_int64 n h = rw (add64_nonneg n 1 (omega arith)) (div64_nonneg (n + 1) 2)

-- The guards of the function pass.
module _ (i n : ℕ) where
  in_range :
      i < n → (leb_ℤ (pos n) (pos i) || ltb_ℤ (pos i) (pos 0) || leb_ℤ (pos n) (pos 0)) ≡ false
  in_range p = ground arith

  not_one : 1 < n → eqb_ℤ (pos n) (pos 1) ≡ false
  not_one q = ground arith

  ltb_ℤ-pos : ltb_ℤ (pos i) (pos n) ≡ ltb i n
  ltb_ℤ-pos = ground arith

module _ (lib : HashLib) where
  pub compute_from_root-cons :
      (i n : ℕ) (leaf : Option Bytes) (aunt : Bytes) (rest : List Bytes)
      → i < n
      → 1 < n
      → n < max_int64
      → compute_from_root lib (pos i) (pos n) leaf (aunt ∷ rest) ≡ (
          if ltb i (left_size n)
          then Option.map
              (λ l. simple_hash_from_two_hashes lib l aunt)
              (compute_from_root lib (pos i) (pos (left_size n)) leaf rest)
          else Option.map
              (λ r. simple_hash_from_two_hashes lib aunt r)
              (compute_from_root lib (pos (i - left_size n)) (pos (n - left_size n)) leaf rest))
  unfolding compute_from_root
  compute_from_root-cons i n leaf aunt rest p q b = rw (left_size_int64 n b) (
      rw (in_range i n p) (
        rw (not_one i n q) (
          rw (ltb_ℤ-pos i (left_size n)) (
            rw (sub64_nonneg n (left_size n) (omega arith) (omega arith))
              (elim (Bool-cases (ltb i (left_size n))) [
                | inl lo ↦ rw lo refl
                | inr hi ↦
                    rw hi (rw (sub64_nonneg i (left_size n) (ltb→ge _ _ hi) (omega arith)) refl)
              ])))))

  pub compute_from_root-nil :
      (leaf : Option Bytes) → compute_from_root lib (pos 0) (pos 1) leaf [] ≡ leaf
  unfolding compute_from_root
  compute_from_root-nil leaf = refl
