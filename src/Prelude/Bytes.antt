-- ===== src/Prelude/Bytes.antt =====
-- Go's byte slices, compared by `bytes.Equal` and `bytes.Compare` (lexicographically).
use Prim.Native.Nat.{compare, Ordering}
use de_mars_dmc.Prelude.{ℕ, ◌≡◌, refl, ◌↔◌, Bool, true, false, ◌&&◌, List, [], ◌∷◌, arith, ◌==◌}

abbrev pub Bytes : Type 0
Bytes = List ℕ

unfoldable pub bytes_equal : Bytes → Bytes → Bool
bytes_equal [] [] = true
bytes_equal [] (b ∷ bs) = false
bytes_equal (a ∷ as') [] = false
bytes_equal (a ∷ as') (b ∷ bs) = a == b && bytes_equal as' bs

-- `bytes.Compare`, whose results -1, 0 and 1 are the three constructors.
unfoldable pub bytes_compare : Bytes → Bytes → Ordering
bytes_compare [] [] = Ordering.eq
bytes_compare [] (b ∷ bs) = Ordering.lt
bytes_compare (a ∷ as') [] = Ordering.gt
bytes_compare (a ∷ as') (b ∷ bs) =
    let rest = bytes_compare as' bs in
    elim (compare a b) [
      | Ordering.lt ↦ Ordering.lt
      | Ordering.eq ↦ rest
      | Ordering.gt ↦ Ordering.gt
    ]

-- `bytes.Compare(a, b) <= 0`
abbrev pub bytes_leb : Bytes → Bytes → Bool
bytes_leb a b = elim (bytes_compare a b) [ Ordering.gt ↦ false | _ ↦ true ]

-- `bytes.Compare(a, b) == -1`
abbrev pub bytes_ltb : Bytes → Bytes → Bool
bytes_ltb a b = elim (bytes_compare a b) [ Ordering.lt ↦ true | _ ↦ false ]

pub bytes_equal_refl : (a : Bytes) → bytes_equal a a ≡ true
unfolding bytes_equal
bytes_equal_refl [] = refl
bytes_equal_refl (a ∷ as') = ground (arith, bytes_equal_refl as')

pub bytes_equal_eq : (a b : Bytes) → bytes_equal a b ≡ true → a ≡ b
unfolding bytes_equal
bytes_equal_eq [] [] h = refl
bytes_equal_eq [] (b ∷ bs) h = cc
bytes_equal_eq (a ∷ as') [] h = cc
bytes_equal_eq (a ∷ as') (b ∷ bs) h = ground (arith, bytes_equal_eq as' bs)

pub bytes_equal_iff : (a b : Bytes) → (bytes_equal a b ≡ true) ↔ (a ≡ b)
bytes_equal_iff a b = (bytes_equal_eq a b, λ e. rw e (bytes_equal_refl b))

-- `bytes.Compare` answers 0 on equal slices only, so it agrees with `bytes.Equal`.
pub bytes_compare_eq : (a b : Bytes) → bytes_compare a b ≡ Ordering.eq → a ≡ b
unfolding bytes_compare
bytes_compare_eq [] [] h = refl
bytes_compare_eq [] (b ∷ bs) h = cc
bytes_compare_eq (a ∷ as') [] h = cc
bytes_compare_eq (a ∷ as') (b ∷ bs) h = ground (arith, bytes_compare_eq as' bs)

pub bytes_compare_refl : (a : Bytes) → bytes_compare a a ≡ Ordering.eq
unfolding bytes_compare
bytes_compare_refl [] = refl
bytes_compare_refl (a ∷ as') = ground (arith, bytes_compare_refl as')

-- Lexicographic order is transitive and antisymmetric.
pub bytes_lt_trans :
    (a b c : Bytes) → bytes_ltb a b ≡ true → bytes_ltb b c ≡ true → bytes_ltb a c ≡ true
unfolding bytes_compare
bytes_lt_trans [] [] c h k = cc
bytes_lt_trans [] (b ∷ bs) [] h k = cc
bytes_lt_trans [] (b ∷ bs) (c ∷ cs) h k = refl
bytes_lt_trans (a ∷ as') [] c h k = cc
bytes_lt_trans (a ∷ as') (b ∷ bs) [] h k = cc
bytes_lt_trans (a ∷ as') (b ∷ bs) (c ∷ cs) h k = ground (arith, bytes_lt_trans as' bs cs)

pub bytes_gt_lt :
    (a b : Bytes) → (bytes_compare a b ≡ Ordering.gt) ↔ (bytes_compare b a ≡ Ordering.lt)
unfolding bytes_compare
bytes_gt_lt [] [] = (λ h. cc, λ h. cc)
bytes_gt_lt [] (b ∷ bs) = (λ h. cc, λ h. cc)
bytes_gt_lt (a ∷ as') [] = (λ h. refl, λ h. refl)
bytes_gt_lt (a ∷ as') (b ∷ bs) = ground (arith, bytes_gt_lt as' bs)
