-- ===== src/Types/ValidatorSet/Power.antt =====
-- types/validator_set.go: `TotalVotingPower` while the powers fit in an int64.
use mathlib.Core.Option.{some-injective}
use mathlib.Core.Path.{subst}
use de_mars_dmc.Prelude.{
  refl, sym, get_elem?, ℕ, ◌+◌, ◌*◌, ◌/◌, ◌≤◌, ◌≡◌, ◌∙◌, ap, ◌⊎◌, List, [], ◌∷◌, some, arith, zero,
  suc, inl, inr, Bool, Option, none, Bool-cases, if◌then◌else◌,
}
use de_mars_dmc.Prelude.Int.{ℤ, pos, pos_part, eqb_ℤ}
use de_mars_dmc.Prelude.Int64.{max_int64, add64, sub64, mul64, div64, mul64_nonneg, div64_nonneg}
use de_mars_dmc.Types.Vote.{Vote}
use de_mars_dmc.Types.SafeArith.{safe_add_clip}
use de_mars_dmc.Types.ValidatorSet.{Validator, ValidatorSet, add_powers, total_voting_power}

-- The voting power of a validator, as a natural number.
abbrev pub power : Validator → ℕ
power v = pos_part v.voting_power

unfoldable pub sum_power : List Validator → ℕ
sum_power [] = 0
sum_power (v ∷ vs) = power v + sum_power vs

-- No validator has a negative power.
unfoldable pub HasPowers : List Validator → Type 0
HasPowers [] = Unit
HasPowers (v ∷ vs) = (v.voting_power ≡ pos (power v)) × HasPowers vs

-- The cache is empty or right, and twice the sum fits, as `TotalVotingPower()*2/3` needs it.
pub record IsPowered (vs : ValidatorSet) : Type 0 where
  pub powers : HasPowers vs.validators
  pub bound : 2 * sum_power vs.validators ≤ max_int64
  pub cache :
      (vs.total_voting_power ≡ pos 0) ⊎ (vs.total_voting_power ≡ pos (sum_power vs.validators))

safe_add_clip_nonneg : (a b : ℕ) → a + b ≤ max_int64 → safe_add_clip (pos a) (pos b) ≡ pos (a + b)
unfolding safe_add_clip add64 sub64
safe_add_clip_nonneg a b h = ground arith

pub add_powers_sum :
    (vals : List Validator) (acc : ℕ)
    → HasPowers vals
    → acc + sum_power vals ≤ max_int64
    → add_powers vals (pos acc) ≡ pos (acc + sum_power vals)
unfolding add_powers sum_power HasPowers
add_powers_sum [] acc h b = ap pos (omega arith)
add_powers_sum (v ∷ vals) acc (hv, h) b =
    ap (λ p. add_powers vals (safe_add_clip (pos acc) p)) hv
    ∙ ap (add_powers vals) (safe_add_clip_nonneg acc (power v) (omega arith))
    ∙ add_powers_sum vals (acc + power v) h (omega arith)
    ∙ ap pos (omega arith)

-- What `TotalVotingPower` makes of a cache.
pick_total : List Validator → ℤ → ℤ
pick_total vals cache = if eqb_ℤ cache (pos 0) then add_powers vals cache else cache

pick_total-pos : (vals : List Validator) (n : ℕ) → pick_total vals (pos (suc n)) ≡ pos (suc n)
unfolding pick_total
pick_total-pos vals n = ground arith

pick_total-sum :
    (vals : List Validator) (s : ℕ) (cache : ℤ)
    → add_powers vals (pos 0) ≡ pos s
    → (cache ≡ pos 0) ⊎ (cache ≡ pos s)
    → pick_total vals cache ≡ pos s
unfolding pick_total
pick_total-sum vals s cache h (inl e) = ap (pick_total vals) e ∙ h
pick_total-sum vals zero cache h (inr e) = ap (pick_total vals) e ∙ h
pick_total-sum vals (suc s) cache h (inr e) = ap (pick_total vals) e ∙ pick_total-pos vals s

total_voting_power-pick :
    (vs : ValidatorSet) → (total_voting_power vs).0 ≡ pick_total vs.validators vs.total_voting_power
unfolding total_voting_power pick_total
total_voting_power-pick vs = elim (Bool-cases (eqb_ℤ vs.total_voting_power (pos 0))) [
  | inl e ↦ rw e
  | inr e ↦ rw e
]

-- `TotalVotingPower` returns the sum of the powers, whether the cache is filled or not.
pub total_voting_power-sum :
    (vs : ValidatorSet) → IsPowered vs → (total_voting_power vs).0 ≡ pos (sum_power vs.validators)
total_voting_power-sum vs h =
    total_voting_power-pick vs
    ∙ pick_total-sum vs.validators (sum_power vs.validators) vs.total_voting_power
        (add_powers_sum vs.validators 0 h.powers (let b = h.bound in omega arith)
          ∙ ap pos (omega arith))
        h.cache

-- `TotalVotingPower` writes its cache only, and rightly.
pub validators-total_voting_power :
    (vs : ValidatorSet) → (total_voting_power vs).1.validators ≡ vs.validators
unfolding total_voting_power
validators-total_voting_power vs = elim (Bool-cases (eqb_ℤ vs.total_voting_power (pos 0))) [
  | inl e ↦ rw e refl
  | inr e ↦ rw e refl
]

cache-total_voting_power :
    (vs : ValidatorSet) → ((total_voting_power vs).1.total_voting_power ≡ (total_voting_power vs).0)
unfolding total_voting_power
cache-total_voting_power vs = elim (Bool-cases (eqb_ℤ vs.total_voting_power (pos 0))) [
  | inl e ↦ rw e refl
  | inr e ↦ rw e refl
]

pub total_voting_power-IsPowered :
    (vs : ValidatorSet) → IsPowered vs → IsPowered (total_voting_power vs).1
total_voting_power-IsPowered vs h =
    let same = validators-total_voting_power vs in
    record {
      powers = subst HasPowers (sym same) h.powers;
      bound = subst (λ l. 2 * sum_power l ≤ max_int64) (sym same) h.bound;
      cache = inr (
          cache-total_voting_power vs
          ∙ total_voting_power-sum vs h
          ∙ ap (λ l. pos (sum_power l)) (sym same));
    }

pub HasPowers-at :
    (vals : List Validator) (i : ℕ) (v : Validator)
    → HasPowers vals
    → get_elem? vals i ≡ some v
    → v.voting_power ≡ pos (power v)
unfolding HasPowers
HasPowers-at [] i v h e = absurd (cc)
HasPowers-at (w ∷ vals) zero v (p, h) e =
    subst (λ (x : Validator). x.voting_power ≡ pos (power x)) (some-injective _ _ e) p
HasPowers-at (w ∷ vals) (suc i) v (p, h) e = HasPowers-at vals i v h e

-- The quorum test.
pub two_thirds : (n : ℕ) → 2 * n ≤ max_int64 → div64 (mul64 (pos n) (pos 2)) 3 ≡ pos (2 * n / 3)
two_thirds n h =
    ap (λ z. div64 z 3) (mul64_nonneg n 2 (omega arith))
    ∙ div64_nonneg (n * 2) 3
    ∙ ap (λ k. pos (k / 3)) (omega arith)

-- The power of the validators at whose index `votes` holds a vote that meets a test.
unfoldable pub tally : (Validator → Vote → Bool) → List Validator → List (Option Vote) → ℕ
tally good [] votes = 0
tally good (v ∷ vals) [] = 0
tally good (v ∷ vals) (none ∷ votes) = tally good vals votes
tally good (v ∷ vals) (some vote ∷ votes) =
    (if good v vote then power v else 0) + tally good vals votes

-- A tally is at most the sum.
pub tally_le_sum :
    (good : Validator → Vote → Bool) (vals : List Validator) (votes : List (Option Vote))
    → tally good vals votes ≤ sum_power vals
unfolding tally sum_power
tally_le_sum good [] votes = omega arith
tally_le_sum good (v ∷ vals) [] = omega arith
tally_le_sum good (v ∷ vals) (none ∷ votes) = omega (arith, tally_le_sum good vals votes)
tally_le_sum good (v ∷ vals) (some vote ∷ votes) =
    let h = tally_le_sum good vals votes in ground arith
