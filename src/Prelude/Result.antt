-- ===== src/Prelude/Result.antt =====
-- The outcome of a Go function that returns an error or panics.
use de_mars_dmc.Prelude.{
  ◌≡◌, ◌⊎◌, inl, inr, refl, ap, Option, none, some, Bool, true, false, if◌then◌else◌,
}

pub data Result (E A : Type 0) : Type 0 where
  ok : A → Result E A
  err : E → Result E A
  panic : Result E A

infixl 5 ◌>>=◌
abbrev pub ◌>>=◌ : {E A B : Type 0} → Result E A → (A → Result E B) → Result E B
ok a >>= f = f a
err e >>= f = err e
panic >>= f = panic

-- A nil pointer that is followed, an index out of range, and the panics the source writes.
abbrev pub or_panic : {E A : Type 0} → Option A → Result E A
or_panic none = panic
or_panic (some a) = ok a

abbrev value_or : {E A : Type 0} → A → Result E A → A
value_or d (ok a) = a
value_or d (err e) = d
value_or d panic = d

pub ok-injective : {E A : Type 0} (a b : A) → ◌≡◌ {A = Result E A} (ok a) (ok b) → a ≡ b
ok-injective a b e = ap (value_or a) e

-- A chain that succeeds has a first step that succeeds.
pub bind-ok :
    {E A B : Type 0} (r : Result E A) (f : A → Result E B) (b : B)
    → (r >>= f) ≡ ok b
    → (a : A) × (r ≡ ok a) × (f a ≡ ok b)
bind-ok (ok a) f b e = (a, refl, e)
bind-ok (err e') f b e = absurd (cc)
bind-ok panic f b e = absurd (cc)

-- A guard that lets a result through.
pub guard-ok :
    {E A : Type 0} (b : Bool) (e : E) (r : Result E A) {a : A}
    → (if b then err e else r) ≡ ok a
    → (b ≡ false) × (r ≡ ok a)
guard-ok true e r h = absurd (cc)
guard-ok false e r h = (refl, h)

pub Result-cases :
    {E A : Type 0} (r : Result E A)
    → ((a : A) × (r ≡ ok a)) ⊎ (((e : E) × (r ≡ err e)) ⊎ (r ≡ panic))
Result-cases (ok a) = inl (a, refl)
Result-cases (err e) = inr (inl (e, refl))
Result-cases panic = inr (inr refl)
