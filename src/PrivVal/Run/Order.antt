-- ===== src/PrivVal/Run/Order.antt =====
-- Height, round and step in lexicographic order, and what checkHRS decides in it.
use de_mars_dmc.Prelude.{Bool, true, false, ◌&&◌, ◌||◌, ◌≡◌, ◌⊎◌, inl, inr, arith}
use de_mars_dmc.Prelude.Int.{ℤ, ltb_ℤ, eqb_ℤ}
use de_mars_dmc.PrivVal.{FilePv, ok, check_hrs}

-- Height, round and step.
pub record Hrs : Type 0 where
  pub height : ℤ
  pub round : ℤ
  pub step : ℤ

-- The lexicographic order.
abbrev pub hrs_ltb : Hrs → Hrs → Bool
hrs_ltb a b =
    ltb_ℤ a.height b.height
    || eqb_ℤ a.height b.height
      && (ltb_ℤ a.round b.round || eqb_ℤ a.round b.round && ltb_ℤ a.step b.step)

abbrev pub last_hrs : FilePv → Hrs
last_hrs pv = record { height = pv.last_height; round = pv.last_round; step = pv.last_step }

abbrev pub hrs_of : ℤ → ℤ → ℤ → Hrs
hrs_of h r s = record { height = h; round = r; step = s }

ltb_ℤ_trans : (x y z : ℤ) → ltb_ℤ x y ≡ true → ltb_ℤ y z ≡ true → ltb_ℤ x z ≡ true
ltb_ℤ_trans x y z p q = ground arith

eqb_ℤ-eq : (x y : ℤ) → eqb_ℤ x y ≡ true → x ≡ y
eqb_ℤ-eq x y p = ground arith

eqb_ℤ_refl : (x : ℤ) → eqb_ℤ x x ≡ true
eqb_ℤ_refl x = ground arith

lex_cases : (l e r : Bool) → (l || e && r) ≡ true → (l ≡ true) ⊎ ((e ≡ true) × (r ≡ true))
lex_cases l e r h = ground arith

or_true : (l : Bool) → (l || true && true) ≡ true
or_true l = ground arith

or_left : (l r : Bool) → l ≡ true → (l || r) ≡ true
or_left l r h = ground arith

lex_trans :
    (x y z : ℤ) {r s t : Bool}
    → (r ≡ true → s ≡ true → t ≡ true)
    → (ltb_ℤ x y || eqb_ℤ x y && r) ≡ true
    → (ltb_ℤ y z || eqb_ℤ y z && s) ≡ true
    → (ltb_ℤ x z || eqb_ℤ x z && t) ≡ true
lex_trans x y z {r} {s} {t} f p q = elim (lex_cases (ltb_ℤ x y) (eqb_ℤ x y) r p) [
  | inl a ↦ elim (lex_cases (ltb_ℤ y z) (eqb_ℤ y z) s q) [
    | inl b ↦ or_left (ltb_ℤ x z) _ (ltb_ℤ_trans x y z a b)
    | inr b ↦ rw (← eqb_ℤ-eq y z b.0) (or_left (ltb_ℤ x y) _ a)
  ]
  | inr a ↦ elim (lex_cases (ltb_ℤ y z) (eqb_ℤ y z) s q) [
    | inl b ↦ rw (eqb_ℤ-eq x y a.0) (or_left (ltb_ℤ y z) _ b)
    | inr b ↦
        rw (eqb_ℤ-eq x y a.0)
          (rw (eqb_ℤ-eq y z b.0) (rw (f a.1 b.1) (rw (eqb_ℤ_refl z) (or_true (ltb_ℤ z z)))))
  ]
]

pub hrs_ltb_trans : (a b c : Hrs) → hrs_ltb a b ≡ true → hrs_ltb b c ≡ true → hrs_ltb a c ≡ true
hrs_ltb_trans a b c =
    lex_trans a.height b.height c.height
      (lex_trans a.round b.round c.round (λ p q. ltb_ℤ_trans a.step b.step c.step p q))

pub hrs_ltb_irrefl : (a : Hrs) → hrs_ltb a a ≡ false
hrs_ltb_irrefl a = ground arith

-- A signature is made only above what was signed last.
pub check_hrs-new :
    (pv : FilePv) (h r s : ℤ)
    → check_hrs pv h r s ≡ ok false
    → hrs_ltb (last_hrs pv) (hrs_of h r s) ≡ true
unfolding check_hrs
check_hrs-new pv h r s e = ground arith

pub check_hrs-same :
    (pv : FilePv) (h r s : ℤ) → check_hrs pv h r s ≡ ok true → last_hrs pv ≡ hrs_of h r s
unfolding check_hrs
check_hrs-same pv h r s e = ground arith
