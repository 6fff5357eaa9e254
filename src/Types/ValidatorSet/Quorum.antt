-- ===== src/Types/ValidatorSet/Quorum.antt =====
-- types/validator_set.go: two accepted commits share a validator that signed for both.
use de_mars_dmc.Prelude.{
  ℕ, suc, ◌+◌, ◌≤◌, ◌≡◌, ◌⊎◌, refl, inl, inr, Bool, true, Option, none, some, List, [], ◌∷◌,
  get_elem?, Bool-cases, arith,
}
use de_mars_dmc.Prelude.Int.{ℤ}
use de_mars_dmc.Prelude.Bytes.{Bytes}
use de_mars_dmc.Prelude.Result.{ok}
use de_mars_dmc.Types.BlockId.{BlockId}
use de_mars_dmc.Types.Vote.{Vote, Scheme}
use de_mars_dmc.Types.Canonical.{Codec}
use de_mars_dmc.Types.Commit.{Commit, commit_height, commit_round}
use de_mars_dmc.Types.ValidatorSet.{Validator, ValidatorSet, verify_commit}
use de_mars_dmc.Types.ValidatorSet.Power.{sum_power, tally, tally_le_sum, IsPowered}
use de_mars_dmc.Types.ValidatorSet.Verify.{is_signed_precommit, verify_commit_sound}

module _ (good good' : Validator → Vote → Bool) where
  -- A validator whose votes in both lists pass the tests.
  pub record Overlap (vals : List Validator) (votes votes' : List (Option Vote)) : Type 0 where
    pub index : ℕ
    pub val : Validator
    pub vote : Vote
    pub vote' : Vote
    pub val_at : get_elem? vals index ≡ some val
    pub vote_at : get_elem? votes index ≡ some (some vote)
    pub vote_at' : get_elem? votes' index ≡ some (some vote')
    pub is_good : good val vote ≡ true
    pub is_good' : good' val vote' ≡ true

  Overlap-cons :
      (v : Validator) (vals : List Validator) (o o' : Option Vote)
      (votes votes' : List (Option Vote))
      → Overlap vals votes votes'
      → Overlap (v ∷ vals) (o ∷ votes) (o' ∷ votes')
  Overlap-cons v vals o o' votes votes' h = record {
    index = suc h.index;
    val = h.val;
    vote = h.vote;
    vote' = h.vote';
    val_at = h.val_at;
    vote_at = h.vote_at;
    vote_at' = h.vote_at';
    is_good = h.is_good;
    is_good' = h.is_good';
  }

  at_head :
      (v : Validator) (vals : List Validator) (o o' : Option Vote)
      (votes votes' : List (Option Vote))
      → tally good vals votes + tally good' vals votes' ≤ sum_power vals
      → Overlap (v ∷ vals) (o ∷ votes) (o' ∷ votes')
        ⊎ (tally good (v ∷ vals) (o ∷ votes) + tally good' (v ∷ vals) (o' ∷ votes')
            ≤ sum_power (v ∷ vals))
  unfolding tally sum_power
  at_head v vals none none votes votes' h = inr (omega arith)
  at_head v vals none (some q) votes votes' h = inr (ground arith)
  at_head v vals (some p) none votes votes' h = inr (ground arith)
  at_head v vals (some p) (some q) votes votes' h = elim (Bool-cases (good v p)) [
    | inr e ↦ inr (ground arith)
    | inl e ↦ elim (Bool-cases (good' v q)) [
      | inr e' ↦ inr (ground arith)
      | inl e' ↦ inl (record {
        index = 0;
        val = v;
        vote = p;
        vote' = q;
        val_at = refl;
        vote_at = refl;
        vote_at' = refl;
        is_good = e;
        is_good' = e';
      })
    ]
  ]

  -- Either the tallies overlap, or together they are at most the sum of the powers.
  pub tally-Overlap :
      (vals : List Validator) (votes votes' : List (Option Vote))
      → Overlap vals votes votes'
        ⊎ (tally good vals votes + tally good' vals votes' ≤ sum_power vals)
  unfolding tally sum_power
  tally-Overlap [] votes votes' = inr (omega arith)
  tally-Overlap (v ∷ vals) [] votes' =
      let h = tally_le_sum good' (v ∷ vals) votes' in inr (omega arith)
  tally-Overlap (v ∷ vals) (o ∷ votes) [] =
      let h = tally_le_sum good (v ∷ vals) (o ∷ votes) in inr (omega arith)
  tally-Overlap (v ∷ vals) (o ∷ votes) (o' ∷ votes') = elim (tally-Overlap vals votes votes') [
    | inl h ↦ inl (Overlap-cons v vals o o' votes votes' h)
    | inr h ↦ at_head v vals o o' votes votes' h
  ]

-- Where the powers fit, two commits that `VerifyCommit` accepts for one height, whatever their
-- blocks, have an index at which the same validator signed a precommit for each.
pub verify_commit-Overlap :
    (scheme : Scheme) (codec : Codec) (chain_id : Bytes) (vs vs1 vs2 : ValidatorSet)
    (block_id block_id' : BlockId) (height : ℤ) (commit commit' : Commit)
    → IsPowered vs
    → verify_commit scheme codec chain_id vs block_id height commit ≡ ok vs1
    → verify_commit scheme codec chain_id vs block_id' height commit' ≡ ok vs2
    → Overlap
        (is_signed_precommit scheme codec chain_id block_id height
          (commit_round (commit_height commit).1).0)
        (is_signed_precommit scheme codec chain_id block_id' height
          (commit_round (commit_height commit').1).0)
        vs.validators
        commit.precommits
        commit'.precommits
verify_commit-Overlap scheme codec chain_id vs vs1 vs2 block_id block_id' height commit commit' h e
      e' =
    let (_, _, q) = verify_commit_sound scheme codec chain_id vs vs1 block_id height commit h e in
    let (_, _, q') =
      verify_commit_sound scheme codec chain_id vs vs2 block_id' height commit' h e' in
    elim (tally-Overlap
      (is_signed_precommit scheme codec chain_id block_id height
        (commit_round (commit_height commit).1).0)
      (is_signed_precommit scheme codec chain_id block_id' height
        (commit_round (commit_height commit').1).0)
      vs.validators commit.precommits commit'.precommits) [
        | inl found ↦ found
        | inr le ↦ absurd (omega arith)
      ]
