-- ===== src/Types/ValidatorSet/Verify.antt =====
-- types/validator_set.go: `VerifyCommit` accepts a commit that more than two thirds of the power signed.
use mathlib.Core.Option
use de_mars_dmc.Prelude.{
  ℕ, suc, ◌+◌, ◌*◌, ◌/◌, ◌≤◌, ◌<◌, ◌≡◌, refl, sym, ◌∙◌, ap, Bool, true, false, ◌&&◌, not, Option,
  none, some, List, [], ◌∷◌, get_elem?, length, if◌then◌else◌, arith, ◌==◌,
}
use de_mars_dmc.Prelude.Int.{ℤ, pos, eqb_ℤ, ltb_ℤ}
use de_mars_dmc.Prelude.Int64.{max_int64, add64, mul64, div64, add64_nonneg}
use de_mars_dmc.Prelude.Bytes.{Bytes}
use de_mars_dmc.Prelude.Result.{Result, ok, err, ok-injective, bind-ok}
use de_mars_dmc.Types.BlockId.{BlockId, equals}
use de_mars_dmc.Types.Vote.{Vote, Scheme, vote_type_precommit}
use de_mars_dmc.Types.Canonical.{Codec, vote_sign_bytes}
use de_mars_dmc.Types.Commit.{
  Commit, insufficient_power, CommitError, wrong_height, wrong_set_size, wrong_round, not_precommit,
  invalid_signature, first_precommit, commit_height, commit_round,
}
use de_mars_dmc.Types.ValidatorSet.{
  Validator, ValidatorSet, get_by_index, size, verify_precommit, verify_precommits, check_tally,
  verify_commit,
}
use de_mars_dmc.Types.ValidatorSet.Power.{
  power, sum_power, HasPowers, IsPowered, tally, total_voting_power-sum, two_thirds,
}

-- The tests of the loop's body, with the tally after it.
body_tally :
    (a b c d e : Bool) (x tallied : ℤ) (t q : ℕ)
    → x ≡ pos (t + q)
    → ◌≡◌ {A = Result CommitError ℤ}
        (if not a
          then err wrong_height
          else if not b
          then err wrong_round
          else if not c
          then err not_precommit
          else if not d
          then err invalid_signature
          else if not e
          then ok (pos t)
          else ok x)
        (ok tallied)
    → tallied ≡ pos (t + (if a && b && c && d && e then q else 0))
body_tally false b c d e x tallied t q h k = absurd (cc)
body_tally true false c d e x tallied t q h k = absurd (cc)
body_tally true true false d e x tallied t q h k = absurd (cc)
body_tally true true true false e x tallied t q h k = absurd (cc)
body_tally true true true true false x tallied t q h k =
    sym (ok-injective _ _ k) ∙ ap pos (omega arith)
body_tally true true true true true x tallied t q h k = sym (ok-injective _ _ k) ∙ h

if_le : (b : Bool) (n : ℕ) → (if b then n else 0) ≤ n
if_le true n = omega arith
if_le false n = omega arith

guards :
    {A : Type 0} (a b : Bool) (r : Result CommitError A) {x : A}
    → (if not a then err wrong_set_size else if not b then err wrong_height else r) ≡ ok x
    → (a ≡ true) × (b ≡ true) × (r ≡ ok x)
guards true true r e = (refl, refl, e)
guards true false r e = absurd (cc)
guards false b r e = absurd (cc)

-- The caches that `Height` and `Round` fill leave the precommits.
first_precommit-precommits :
    (commit : Commit) → (first_precommit commit).1.precommits ≡ commit.precommits
unfolding first_precommit
first_precommit-precommits commit = ground arith

pub commit_height-precommits :
    (commit : Commit) → (commit_height commit).1.precommits ≡ commit.precommits
unfolding commit_height
commit_height-precommits commit = let h = first_precommit-precommits commit in ground arith

pub commit_round-precommits :
    (commit : Commit) → (commit_round commit).1.precommits ≡ commit.precommits
unfolding commit_round
commit_round-precommits commit = let h = first_precommit-precommits commit in ground arith

over_two_thirds : (m n : ℕ) → ltb_ℤ (pos (m / 3)) (pos n) ≡ true → m < 3 * n
over_two_thirds m n h = ground arith

if-ok :
    (b : Bool) (vs vs' : ValidatorSet)
    → ◌≡◌ {A = Result CommitError ValidatorSet}
        (if b then ok vs else err insufficient_power)
        (ok vs')
    → b ≡ true
if-ok true vs vs' e = refl
if-ok false vs vs' e = absurd (cc)

check_tally-ok :
    (vs vs' : ValidatorSet) (n : ℕ) (tallied : ℤ)
    → IsPowered vs
    → tallied ≡ pos n
    → check_tally vs tallied ≡ ok vs'
    → 2 * sum_power vs.validators < 3 * n
unfolding check_tally
check_tally-ok vs vs' n tallied h t e =
    let total = total_voting_power-sum vs h in
    let sum = sum_power vs.validators in
    let q = ap (λ z. div64 (mul64 z (pos 2)) 3) total ∙ two_thirds sum h.bound in
    over_two_thirds (2 * sum) n
      (ap (ltb_ℤ (pos (2 * sum / 3))) (sym t) ∙ ap (λ z. ltb_ℤ z tallied) (sym q) ∙ if-ok _ _ vs' e)

same_size :
    (vs : ValidatorSet) (votes : List (Option Vote))
    → (size vs == length votes) ≡ true
    → length votes ≡ length vs.validators
unfolding size
same_size vs votes h = ground arith

module _ (scheme : Scheme) (codec : Codec) (chain_id : Bytes) where
  -- A precommit for the block that the validator signed.
  unfoldable pub is_signed_precommit : BlockId → ℤ → ℤ → Validator → Vote → Bool
  is_signed_precommit block_id height round val vote =
      eqb_ℤ vote.height height
      && eqb_ℤ vote.round round
      && (vote.type' == vote_type_precommit)
      && scheme.verify_bytes val.pub_key (vote_sign_bytes codec chain_id vote) vote.signature
      && equals block_id vote.block_id

  module _ (vs : ValidatorSet) (block_id : BlockId) (height round : ℤ) where
    abbrev good : Validator → Vote → Bool
    good = is_signed_precommit block_id height round

    -- `vals` are the validators of the set from index `idx` on.
    abbrev pub StartsAt : List Validator → ℕ → Type 0
    StartsAt vals idx = (i : ℕ) → get_elem? vs.validators (idx + i) ≡ get_elem? vals i

    pub StartsAt-tail :
        (v : Validator) (vals : List Validator) (idx : ℕ)
        → StartsAt (v ∷ vals) idx
        → StartsAt vals (suc idx)
    StartsAt-tail v vals idx h i = ap (get_elem? vs.validators) (omega arith) ∙ h (suc i)

    pub get_by_index-head :
        (v : Validator) (vals : List Validator) (idx : ℕ)
        → StartsAt (v ∷ vals) idx
        → get_by_index vs (pos idx) ≡ some (v.address, v)
    unfolding get_by_index
    get_by_index-head v vals idx h =
        ap (λ i. Option.map (λ (val : Validator). (val.address, val)) (get_elem? vs.validators i))
          (omega arith)
        ∙ ap (Option.map (λ val. (val.address, val))) (h 0)

    verify_precommit-tally :
        (v : Validator) (vote : Vote) (idx t : ℕ) (tallied : ℤ)
        → get_by_index vs (pos idx) ≡ some (v.address, v)
        → v.voting_power ≡ pos (power v)
        → t + power v ≤ max_int64
        → verify_precommit scheme codec chain_id vs block_id height round vote idx (pos t)
          ≡ ok tallied
        → tallied ≡ pos (t + (if good v vote then power v else 0))
    unfolding verify_precommit is_signed_precommit
    verify_precommit-tally v vote idx t tallied g p b e =
        body_tally (eqb_ℤ vote.height height) (eqb_ℤ vote.round round)
          (vote.type' == vote_type_precommit)
          (scheme.verify_bytes v.pub_key (vote_sign_bytes codec chain_id vote) vote.signature)
          (equals block_id vote.block_id) (add64 (pos t) v.voting_power) tallied t (power v)
          (ap (add64 (pos t)) p ∙ add64_nonneg t (power v) b) (rw g at e)

    verify_precommits-tally :
        (vals : List Validator) (votes : List (Option Vote)) (idx t : ℕ) (tallied : ℤ)
        → StartsAt vals idx
        → length votes ≡ length vals
        → HasPowers vals
        → t + sum_power vals ≤ max_int64
        → verify_precommits scheme codec chain_id vs block_id height round votes idx (pos t)
          ≡ ok tallied
        → tallied ≡ pos (t + tally good vals votes)
    unfolding verify_precommits tally sum_power HasPowers
    verify_precommits-tally [] [] idx t tallied s l p b e =
        ok-injective _ _ (sym e) ∙ ap pos (omega arith)
    verify_precommits-tally (v ∷ vals) [] idx t tallied s l p b e = absurd (omega arith)
    verify_precommits-tally [] (o ∷ votes) idx t tallied s l p b e = absurd (omega arith)
    verify_precommits-tally (v ∷ vals) (none ∷ votes) idx t tallied s l p b e =
        verify_precommits-tally vals votes (suc idx) t tallied (StartsAt-tail v vals idx s)
          (omega arith) p.1 (omega arith) e
    verify_precommits-tally (v ∷ vals) (some vote ∷ votes) idx t tallied s l p b e =
        let (t1, e1, e2) = bind-ok _ _ _ e in
        let h1 =
          verify_precommit-tally v vote idx t t1 (get_by_index-head v vals idx s) p.0 (omega arith)
            e1 in
        let q = if good v vote then power v else 0 in
        let q_le : q ≤ power v = if_le (good v vote) (power v) in
        verify_precommits-tally vals votes (suc idx) (t + q) tallied (StartsAt-tail v vals idx s)
          (omega arith) p.1 (omega arith)
          (ap (verify_precommits scheme codec chain_id vs block_id height round votes (suc idx))
              (sym h1)
            ∙ e2)
        ∙ ap pos (omega arith)

  -- Where the powers fit, a commit that `VerifyCommit` accepts has one precommit or nil per
  -- validator, is of the height, and validators of more than two thirds of the total power signed
  -- precommits for the block at the height and the commit's round.
  pub verify_commit_sound :
      (vs vs' : ValidatorSet) (block_id : BlockId) (height : ℤ) (commit : Commit)
      → IsPowered vs
      → verify_commit scheme codec chain_id vs block_id height commit ≡ ok vs'
      → (length commit.precommits ≡ length vs.validators)
        × ((commit_height commit).0 ≡ height)
        × (2 * sum_power vs.validators
            < 3
              * tally
                  (is_signed_precommit block_id height (commit_round (commit_height commit).1).0)
                  vs.validators
                  commit.precommits)
  unfolding verify_commit
  verify_commit_sound vs vs' block_id height commit h e =
      let (e1, e2, e3) =
        guards (size vs == length commit.precommits) (eqb_ℤ height (commit_height commit).0) _ e in
      let (tallied, e4, e5) = bind-ok _ _ _ e3 in
      let round = (commit_round (commit_height commit).1).0 in
      let same =
        commit_round-precommits (commit_height commit).1 ∙ commit_height-precommits commit in
      let bound = h.bound in
      let len = same_size vs commit.precommits e1 in
      let t =
        verify_precommits-tally vs block_id height round vs.validators commit.precommits 0 0 tallied
          (λ i. ap (get_elem? vs.validators) (omega arith)) len h.powers (omega arith)
          (ap
              (λ votes.
                verify_precommits scheme codec chain_id vs block_id height round votes 0 (pos 0))
              (sym same)
            ∙ e4) in
      (len, ground arith, check_tally-ok vs vs' _ tallied h (t ∙ ap pos (omega arith)) e5)
