-- ===== src/Types/VoteSet/Tally.antt =====
-- types/vote_set.go: the lists of votes by the index of the validator, and the power they stand for.
use mathlib.Core.Option.{some-injective}
use de_mars_dmc.Prelude.{
  ℕ, zero, suc, ◌+◌, ◌≤◌, ◌≡◌, refl, ◌∙◌, ap, Bool, true, Option, none, some, List, [], ◌∷◌,
  get_elem?, set, length, is_some, arith,
}
use de_mars_dmc.Types.Vote.{Vote}
use de_mars_dmc.Types.ValidatorSet.{Validator}
use de_mars_dmc.Types.ValidatorSet.Power.{power, tally}
use de_mars_dmc.Types.VoteSet.{copy_votes}

-- Any vote at all.
abbrev pub any : Validator → Vote → Bool
any v vote = true

-- Each vote of the list passes the test for the validator of its index.
unfoldable pub AllGood : (Validator → Vote → Bool) → List Validator → List (Option Vote) → Type 0
AllGood good [] votes = Unit
AllGood good (v ∷ vals) [] = Unit
AllGood good (v ∷ vals) (none ∷ votes) = AllGood good vals votes
AllGood good (v ∷ vals) (some vote ∷ votes) = (good v vote ≡ true) × AllGood good vals votes

-- Where the first list has a vote, the second one has some vote.
unfoldable pub Covers : List (Option Vote) → List (Option Vote) → Type 0
Covers [] votes = Unit
Covers (o ∷ block) [] = Unit
Covers (none ∷ block) (v ∷ votes) = Covers block votes
Covers (some vote ∷ block) (v ∷ votes) = (is_some v ≡ true) × Covers block votes

pub tally-AllGood :
    (good : Validator → Vote → Bool) (vals : List Validator) (votes : List (Option Vote))
    → AllGood good vals votes
    → tally good vals votes ≡ tally any vals votes
unfolding tally AllGood
tally-AllGood good [] votes h = refl
tally-AllGood good (v ∷ vals) [] h = refl
tally-AllGood good (v ∷ vals) (none ∷ votes) h = tally-AllGood good vals votes h
tally-AllGood good (v ∷ vals) (some vote ∷ votes) (e, h) =
    rw e (ap (λ n. power v + n) (tally-AllGood good vals votes h))

pub AllGood-mono :
    (good good' : Validator → Vote → Bool)
    → ((v : Validator) (vote : Vote) → good v vote ≡ true → good' v vote ≡ true)
    → (vals : List Validator) (votes : List (Option Vote)) → AllGood good vals votes
    → AllGood good' vals votes
unfolding AllGood
AllGood-mono good good' m [] votes h = tt
AllGood-mono good good' m (v ∷ vals) [] h = tt
AllGood-mono good good' m (v ∷ vals) (none ∷ votes) h = AllGood-mono good good' m vals votes h
AllGood-mono good good' m (v ∷ vals) (some vote ∷ votes) (e, h) =
    (m v vote e, AllGood-mono good good' m vals votes h)

module _ (vote : Vote) where
  -- A vote in a place that was empty adds the power of its validator.
  pub tally-set_empty :
      (vals : List Validator) (votes : List (Option Vote)) (i : ℕ) (v : Validator)
      → get_elem? vals i ≡ some v
      → get_elem? votes i ≡ some none
      → tally any vals (set votes i (some vote)) ≡ tally any vals votes + power v
  unfolding tally
  tally-set_empty [] votes i v h k = absurd (cc)
  tally-set_empty (w ∷ vals) [] i v h k = absurd (cc)
  tally-set_empty (w ∷ vals) (none ∷ votes) zero v h k =
      let e = ap power (some-injective _ _ h) in omega arith
  tally-set_empty (w ∷ vals) (some u ∷ votes) zero v h k = absurd (cc)
  tally-set_empty (w ∷ vals) (none ∷ votes) (suc i) v h k = tally-set_empty vals votes i v h k
  tally-set_empty (w ∷ vals) (some u ∷ votes) (suc i) v h k =
      omega (arith, tally-set_empty vals votes i v h k)

  -- A vote in a place that has one changes no power.
  pub tally-set_over :
      (vals : List Validator) (votes : List (Option Vote)) (i : ℕ) (old : Vote)
      → get_elem? votes i ≡ some (some old)
      → tally any vals (set votes i (some vote)) ≡ tally any vals votes
  unfolding tally
  tally-set_over [] votes i old k = refl
  tally-set_over (w ∷ vals) [] i old k = refl
  tally-set_over (w ∷ vals) (none ∷ votes) zero old k = absurd (cc)
  tally-set_over (w ∷ vals) (some u ∷ votes) zero old k = refl
  tally-set_over (w ∷ vals) (none ∷ votes) (suc i) old k = tally-set_over vals votes i old k
  tally-set_over (w ∷ vals) (some u ∷ votes) (suc i) old k =
      ap (λ n. power w + n) (tally-set_over vals votes i old k)

  -- A write of a vote that passes, or in an empty place, loses nothing.
  pub tally-set_good :
      (good : Validator → Vote → Bool) (vals : List Validator) (votes : List (Option Vote)) (i : ℕ)
      (v : Validator)
      → get_elem? vals i ≡ some v
      → good v vote ≡ true
      → tally good vals votes ≤ tally good vals (set votes i (some vote))
  unfolding tally
  tally-set_good good [] votes i v h g = omega arith
  tally-set_good good (w ∷ vals) [] i v h g = omega arith
  tally-set_good good (w ∷ vals) (none ∷ votes) zero v h g = omega arith
  tally-set_good good (w ∷ vals) (some u ∷ votes) zero v h g =
      let e = ap (λ x. good x vote) (some-injective _ _ h) ∙ g in ground arith
  tally-set_good good (w ∷ vals) (none ∷ votes) (suc i) v h g =
      tally-set_good good vals votes i v h g
  tally-set_good good (w ∷ vals) (some u ∷ votes) (suc i) v h g =
      omega (arith, tally-set_good good vals votes i v h g)

  pub tally-set_vacant :
      (good : Validator → Vote → Bool) (vals : List Validator) (votes : List (Option Vote)) (i : ℕ)
      → get_elem? votes i ≡ some none
      → tally good vals votes ≤ tally good vals (set votes i (some vote))
  unfolding tally
  tally-set_vacant good [] votes i h = omega arith
  tally-set_vacant good (w ∷ vals) [] i h = omega arith
  tally-set_vacant good (w ∷ vals) (none ∷ votes) zero h = omega arith
  tally-set_vacant good (w ∷ vals) (some u ∷ votes) zero h = absurd (cc)
  tally-set_vacant good (w ∷ vals) (none ∷ votes) (suc i) h = tally-set_vacant good vals votes i h
  tally-set_vacant good (w ∷ vals) (some u ∷ votes) (suc i) h =
      omega (arith, tally-set_vacant good vals votes i h)

  pub AllGood-set :
      (good : Validator → Vote → Bool) (vals : List Validator) (votes : List (Option Vote)) (i : ℕ)
      (v : Validator)
      → get_elem? vals i ≡ some v
      → good v vote ≡ true
      → AllGood good vals votes
      → AllGood good vals (set votes i (some vote))
  unfolding AllGood
  AllGood-set good [] votes i v h g a = tt
  AllGood-set good (w ∷ vals) [] i v h g a = tt
  AllGood-set good (w ∷ vals) (none ∷ votes) zero v h g a =
      (ap (λ x. good x vote) (some-injective _ _ h) ∙ g, a)
  AllGood-set good (w ∷ vals) (some u ∷ votes) zero v h g (e, a) =
      (ap (λ x. good x vote) (some-injective _ _ h) ∙ g, a)
  AllGood-set good (w ∷ vals) (none ∷ votes) (suc i) v h g a = AllGood-set good vals votes i v h g a
  AllGood-set good (w ∷ vals) (some u ∷ votes) (suc i) v h g (e, a) =
      (e, AllGood-set good vals votes i v h g a)

  pub Covers-set_right :
      (block votes : List (Option Vote)) (i : ℕ)
      → Covers block votes
      → Covers block (set votes i (some vote))
  unfolding Covers
  Covers-set_right [] votes i h = tt
  Covers-set_right (o ∷ block) [] i h = tt
  Covers-set_right (none ∷ block) (v ∷ votes) zero h = h
  Covers-set_right (some u ∷ block) (v ∷ votes) zero (e, h) = (refl, h)
  Covers-set_right (none ∷ block) (v ∷ votes) (suc i) h = Covers-set_right block votes i h
  Covers-set_right (some u ∷ block) (v ∷ votes) (suc i) (e, h) =
      (e, Covers-set_right block votes i h)

  pub Covers-set_left :
      (block votes : List (Option Vote)) (i : ℕ) (y : Vote)
      → get_elem? votes i ≡ some (some y)
      → Covers block votes
      → Covers (set block i (some vote)) votes
  unfolding Covers
  Covers-set_left [] votes i y k h = tt
  Covers-set_left (o ∷ block) [] i y k h = absurd (cc)
  Covers-set_left (none ∷ block) (none ∷ votes) zero y k h = absurd (cc)
  Covers-set_left (none ∷ block) (some w ∷ votes) zero y k h = (refl, h)
  Covers-set_left (some u ∷ block) (v ∷ votes) zero y k h = h
  Covers-set_left (none ∷ block) (v ∷ votes) (suc i) y k h = Covers-set_left block votes i y k h
  Covers-set_left (some u ∷ block) (v ∷ votes) (suc i) y k (e, h) =
      (e, Covers-set_left block votes i y k h)

-- The votes of a block that are copied over votes that cover them.
pub tally-copy_votes :
    (vals : List Validator) (block votes : List (Option Vote))
    → Covers block votes
    → tally any vals (copy_votes block votes) ≡ tally any vals votes
unfolding tally copy_votes Covers
tally-copy_votes vals [] votes h = refl
tally-copy_votes [] (o ∷ block) votes h = refl
tally-copy_votes (v ∷ vals) (o ∷ block) [] h = refl
tally-copy_votes (v ∷ vals) (none ∷ block) (none ∷ votes) h = tally-copy_votes vals block votes h
tally-copy_votes (v ∷ vals) (none ∷ block) (some u ∷ votes) h =
    ap (λ n. power v + n) (tally-copy_votes vals block votes h)
tally-copy_votes (v ∷ vals) (some w ∷ block) (none ∷ votes) (e, h) = absurd (cc)
tally-copy_votes (v ∷ vals) (some w ∷ block) (some u ∷ votes) (e, h) =
    ap (λ n. power v + n) (tally-copy_votes vals block votes h)

pub tally-copied :
    (good : Validator → Vote → Bool) (vals : List Validator) (block votes : List (Option Vote))
    → length block ≤ length votes
    → tally good vals block ≤ tally good vals (copy_votes block votes)
unfolding tally copy_votes
tally-copied good [] block votes h = omega arith
tally-copied good (v ∷ vals) [] votes h = omega arith
tally-copied good (v ∷ vals) (o ∷ block) [] h = absurd (omega arith)
tally-copied good (v ∷ vals) (none ∷ block) (none ∷ votes) h =
    tally-copied good vals block votes (omega arith)
tally-copied good (v ∷ vals) (none ∷ block) (some u ∷ votes) h =
    omega (arith, tally-copied good vals block votes (omega arith))
tally-copied good (v ∷ vals) (some w ∷ block) (o ∷ votes) h =
    omega (arith, tally-copied good vals block votes (omega arith))

pub length-copy_votes :
    (block votes : List (Option Vote)) → length (copy_votes block votes) ≡ length votes
unfolding copy_votes
length-copy_votes [] votes = refl
length-copy_votes (o ∷ block) [] = refl
length-copy_votes (none ∷ block) (v ∷ votes) = ap suc (length-copy_votes block votes)
length-copy_votes (some u ∷ block) (v ∷ votes) = ap suc (length-copy_votes block votes)

pub AllGood-copy_votes :
    (good : Validator → Vote → Bool) (vals : List Validator) (block votes : List (Option Vote))
    → AllGood good vals block
    → AllGood good vals votes
    → AllGood good vals (copy_votes block votes)
unfolding AllGood copy_votes
AllGood-copy_votes good [] block votes h k = tt
AllGood-copy_votes good (v ∷ vals) [] votes h k = k
AllGood-copy_votes good (v ∷ vals) (o ∷ block) [] h k = tt
AllGood-copy_votes good (v ∷ vals) (none ∷ block) (none ∷ votes) h k =
    AllGood-copy_votes good vals block votes h k
AllGood-copy_votes good (v ∷ vals) (none ∷ block) (some u ∷ votes) h (e, k) =
    (e, AllGood-copy_votes good vals block votes h k)
AllGood-copy_votes good (v ∷ vals) (some w ∷ block) (none ∷ votes) (e, h) k =
    (e, AllGood-copy_votes good vals block votes h k)
AllGood-copy_votes good (v ∷ vals) (some w ∷ block) (some u ∷ votes) (e, h) (e', k) =
    (e, AllGood-copy_votes good vals block votes h k)

pub Covers-copy_votes :
    (other block votes : List (Option Vote))
    → Covers other votes
    → Covers other (copy_votes block votes)
unfolding Covers copy_votes
Covers-copy_votes [] block votes h = tt
Covers-copy_votes (o ∷ other) [] votes h = h
Covers-copy_votes (o ∷ other) (b ∷ block) [] h = tt
Covers-copy_votes (none ∷ other) (none ∷ block) (v ∷ votes) h =
    Covers-copy_votes other block votes h
Covers-copy_votes (none ∷ other) (some u ∷ block) (v ∷ votes) h =
    Covers-copy_votes other block votes h
Covers-copy_votes (some w ∷ other) (none ∷ block) (v ∷ votes) (e, h) =
    (e, Covers-copy_votes other block votes h)
Covers-copy_votes (some w ∷ other) (some u ∷ block) (v ∷ votes) (e, h) =
    (refl, Covers-copy_votes other block votes h)

-- A test that follows from another one on the votes of a list has at least its tally.
pub tally_mono :
    (a b : Validator → Vote → Bool) (vals : List Validator) (votes : List (Option Vote))
    → ((i : ℕ) (v : Validator) (vote : Vote)
        → get_elem? votes i ≡ some (some vote)
        → a v vote ≡ true
        → b v vote ≡ true)
    → tally a vals votes ≤ tally b vals votes
unfolding tally
tally_mono a b [] votes h = omega arith
tally_mono a b (v ∷ vals) [] h = omega arith
tally_mono a b (v ∷ vals) (none ∷ votes) h = tally_mono a b vals votes (λ i. h (suc i))
tally_mono a b (v ∷ vals) (some vote ∷ votes) h =
    let rest = tally_mono a b vals votes (λ i. h (suc i)) in
    let head = h 0 v vote refl in ground arith
