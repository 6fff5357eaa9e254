-- ===== src/Types/VoteSet/Accepted.antt =====
-- types/vote_set.go, types/validator_set.go: the commit that `MakeCommit` makes is one that
-- `VerifyCommit` accepts.
use de_mars_dmc.Prelude.{
  ℕ, suc, ◌+◌, ◌*◌, ◌/◌, ◌≤◌, ◌<◌, ◌≡◌, refl, ◌∙◌, ap, Bool, true, false, ◌&&◌, not, Option, none,
  some, List, [], ◌∷◌, length, get_elem?, ◌==◌, arith, if◌then◌else◌,
}
use de_mars_dmc.Prelude.Int.{ℤ, pos, eqb_ℤ, ltb_ℤ}
use de_mars_dmc.Prelude.Int64.{max_int64, add64, mul64, div64, add64_nonneg}
use de_mars_dmc.Prelude.Bytes.{Bytes, bytes_equal}
use de_mars_dmc.Prelude.Result.{Result, ok, err, ◌>>=◌}
use de_mars_dmc.Types.BlockId.{BlockId, PartSetHeader, key, equals}
use de_mars_dmc.Types.Vote.{Vote, Scheme, vote_type_precommit}
use de_mars_dmc.Types.Canonical.{Codec, vote_sign_bytes}
use de_mars_dmc.Types.Commit.{
  Commit, CommitError, wrong_height, wrong_round, not_precommit, invalid_signature, find_precommit,
  first_precommit, commit_height, commit_round,
}
use de_mars_dmc.Types.ValidatorSet.{
  Validator, ValidatorSet, size, total_voting_power, verify_precommit, verify_precommits,
  check_tally, verify_commit,
}
use de_mars_dmc.Types.ValidatorSet.Power.{
  power, IsPowered, HasPowers, sum_power, tally, total_voting_power-sum, two_thirds,
}
use de_mars_dmc.Types.ValidatorSet.Verify.{
  is_signed_precommit, StartsAt, StartsAt-tail, get_by_index-head, commit_height-precommits,
  commit_round-precommits,
}
use de_mars_dmc.Types.VoteSet.{VoteSet}
use de_mars_dmc.Types.VoteSet.Operations.{make_commit}
use de_mars_dmc.Types.VoteSet.Tally.{AllGood, AllGood-mono, tally_mono}
use de_mars_dmc.Types.VoteSet.Invariant.{Ballot, is_cast, is_cast_for}
use de_mars_dmc.Types.VoteSet.Run.{Reached, ballot_of, Reached-IsSound}

-- What the checks of the loop make of a vote that passes them.
body_ok :
    (a b c d e : Bool) (x : ℤ) (t q : ℕ)
    → (a && b && c && d) ≡ true
    → x ≡ pos (t + q)
    → ◌≡◌ {A = Result CommitError ℤ}
        (if not a
          then err wrong_height
          else if not b
          then err wrong_round
          else if not c
          then err not_precommit
          else if not d
          then err invalid_signature
          else if not e
          then ok (pos t)
          else ok x)
        (ok (pos (t + (if a && b && c && d && e then q else 0))))
body_ok true true true true true x t q g h = ap ok h
body_ok true true true true false x t q g h = ap ok (ap pos (omega arith))
body_ok true true true false e x t q g h = absurd (cc)
body_ok true true false d e x t q g h = absurd (cc)
body_ok true false c d e x t q g h = absurd (cc)
body_ok false b c d e x t q g h = absurd (cc)

check_tally-over :
    (vs : ValidatorSet) (n : ℕ)
    → IsPowered vs
    → 2 * sum_power vs.validators < 3 * n
    → check_tally vs (pos n) ≡ ok (total_voting_power vs).1
unfolding check_tally
check_tally-over vs n h l =
    let sum = sum_power vs.validators in
    let q =
      ap (λ z. div64 (mul64 z (pos 2)) 3) (total_voting_power-sum vs h) ∙ two_thirds sum h.bound in
    let over : ltb_ℤ (pos (2 * sum / 3)) (pos n) ≡ true = ground arith in
    let test = ap (λ z. ltb_ℤ z (pos n)) q ∙ over in rw test refl

-- A commit as `MakeCommit` makes it.
abbrev commit_of : BlockId → List (Option Vote) → Commit
commit_of block_id votes = record { block_id = block_id; precommits = votes; first = none }

with_first : BlockId → List (Option Vote) → Vote → Commit
with_first block_id votes vote = record (commit_of block_id votes) { first = some vote }

commit_of-height :
    (block_id : BlockId) (votes : List (Option Vote)) (vote : Vote)
    → find_precommit votes ≡ some vote
    → commit_height (commit_of block_id votes) ≡ (vote.height, with_first block_id votes vote)
unfolding commit_height first_precommit find_precommit with_first
commit_of-height block_id [] vote h = absurd (cc)
commit_of-height block_id (o ∷ votes) vote h =
    let e : (length (o ∷ votes) == 0) ≡ false = ground arith in rw (h, e) refl

with_first-round :
    (block_id : BlockId) (votes : List (Option Vote)) (vote : Vote)
    → find_precommit votes ≡ some vote
    → (commit_round (with_first block_id votes vote)).0 ≡ vote.round
unfolding commit_round first_precommit find_precommit with_first
with_first-round block_id [] vote h = absurd (cc)
with_first-round block_id (o ∷ votes) vote h =
    let e : (length (o ∷ votes) == 0) ≡ false = ground arith in rw e refl

commit_of-first :
    (block_id : BlockId) (votes : List (Option Vote)) (vote : Vote)
    → find_precommit votes ≡ some vote
    → ((commit_height (commit_of block_id votes)).0 ≡ vote.height)
      × ((commit_round (commit_height (commit_of block_id votes)).1).0 ≡ vote.round)
commit_of-first block_id votes vote h =
    let e = commit_of-height block_id votes vote h in
    (ap (λ c. c.0) e, ap (λ c. (commit_round c.1).0) e ∙ with_first-round block_id votes vote h)

module _ (scheme : Scheme) (codec : Codec) (chain_id : Bytes) (height round : ℤ) where
  -- A precommit of the height and round with the validator's signature.
  unfoldable is_precommit : Validator → Vote → Bool
  is_precommit val vote =
      eqb_ℤ vote.height height
      && eqb_ℤ vote.round round
      && (vote.type' == vote_type_precommit)
      && scheme.verify_bytes val.pub_key (vote_sign_bytes codec chain_id vote) vote.signature

  -- The first precommit is one of them.
  find_precommit-IsFound :
      (vals : List Validator) (votes : List (Option Vote)) (good : Validator → Vote → Bool)
      → 0 < tally good vals votes
      → AllGood is_precommit vals votes
      → (vote : Vote) × (find_precommit votes ≡ some vote)
        × (vote.height ≡ height)
        × (vote.round ≡ round)
  unfolding tally AllGood find_precommit is_precommit
  find_precommit-IsFound [] votes good l h = elim l [ ]
  find_precommit-IsFound (v ∷ vals) [] good l h = elim l [ ]
  find_precommit-IsFound (v ∷ vals) (none ∷ votes) good l h =
      find_precommit-IsFound vals votes good l h
  find_precommit-IsFound (v ∷ vals) (some vote ∷ votes) good l (e, h) =
      (vote, refl, ground arith, ground arith)

  module _ (vs : ValidatorSet) (block_id : BlockId) where
    abbrev for_block : Validator → Vote → Bool
    for_block = is_signed_precommit scheme codec chain_id block_id height round

    verify_precommits-ok :
        (vals : List Validator) (votes : List (Option Vote)) (idx t : ℕ)
        → StartsAt scheme codec chain_id vs block_id height round vals idx
        → length votes ≡ length vals
        → HasPowers vals
        → t + sum_power vals ≤ max_int64
        → AllGood is_precommit vals votes
        → verify_precommits scheme codec chain_id vs block_id height round votes idx (pos t)
          ≡ ok (pos (t + tally for_block vals votes))
    unfolding verify_precommits verify_precommit tally sum_power HasPowers AllGood is_precommit
        is_signed_precommit
    verify_precommits-ok [] [] idx t s l p b g = ap ok (ap pos (omega arith))
    verify_precommits-ok (v ∷ vals) [] idx t s l p b g = absurd (omega arith)
    verify_precommits-ok [] (o ∷ votes) idx t s l p b g = absurd (omega arith)
    verify_precommits-ok (v ∷ vals) (none ∷ votes) idx t s l p b g =
        verify_precommits-ok vals votes (suc idx) t
          (StartsAt-tail scheme codec chain_id vs block_id height round v vals idx s) (omega arith)
          p.1 (omega arith) g
    verify_precommits-ok (v ∷ vals) (some vote ∷ votes) idx t s l (p, ps) b (g, gs) =
        let at = get_by_index-head scheme codec chain_id vs block_id height round v vals idx s in
        let q = if for_block v vote then power v else 0 in
        let q_le : q ≤ power v = ground arith in
        let first =
          body_ok (eqb_ℤ vote.height height) (eqb_ℤ vote.round round)
            (vote.type' == vote_type_precommit)
            (scheme.verify_bytes v.pub_key (vote_sign_bytes codec chain_id vote) vote.signature)
            (equals block_id vote.block_id) (add64 (pos t) v.voting_power) t (power v) g
            (ap (add64 (pos t)) p ∙ add64_nonneg t (power v) (omega arith)) in
        let rest =
          verify_precommits-ok vals votes (suc idx) (t + q)
            (StartsAt-tail scheme codec chain_id vs block_id height round v vals idx s)
            (omega arith) ps (omega arith) gs in
        rw at (
          ap
            (λ r.
              r
              >>= verify_precommits scheme codec chain_id vs block_id height round votes (suc idx))
            first
          ∙ rest
          ∙ ap ok (ap pos (omega arith)))

    -- `VerifyCommit` accepts a list of precommits of the validators.
    verify_commit-ok :
        (votes : List (Option Vote))
        → length votes ≡ length vs.validators
        → IsPowered vs
        → AllGood is_precommit vs.validators votes
        → 2 * sum_power vs.validators < 3 * tally for_block vs.validators votes
        → verify_commit scheme codec chain_id vs block_id height (commit_of block_id votes)
          ≡ ok (total_voting_power vs).1
    unfolding verify_commit size
    verify_commit-ok votes l p g m =
        let (vote, found, h_eq, r_eq) =
          find_precommit-IsFound vs.validators votes for_block (omega arith) g in
        let (first_height, first_round) = commit_of-first block_id votes vote found in
        let bound = p.bound in
        let precommits =
          commit_round-precommits (commit_height (commit_of block_id votes)).1
          ∙ commit_height-precommits (commit_of block_id votes) in
        let counted =
          verify_precommits-ok vs.validators votes 0 0
            (λ i. ap (get_elem? vs.validators) (omega arith)) l p.powers (omega arith) g in
        let counted' =
          ap
            (λ r.
              verify_precommits scheme codec chain_id vs block_id height r
                (commit_round (commit_height (commit_of block_id votes)).1).1.precommits 0 (pos 0))
            (first_round ∙ r_eq)
          ∙ ap (λ c. verify_precommits scheme codec chain_id vs block_id height round c 0 (pos 0))
              precommits
          ∙ counted in
        let same_size : (length vs.validators == length votes) ≡ true = ground arith in
        let same_height : eqb_ℤ height (commit_height (commit_of block_id votes)).0 ≡ true =
          let e = first_height ∙ h_eq in ground arith in
        rw (same_size, same_height)
          (ap (λ r. r >>= check_tally vs) counted'
            ∙ check_tally-over vs (0 + tally for_block vs.validators votes) p (omega arith))

module _ (scheme : Scheme) (codec : Codec) (encode : PartSetHeader → Bytes) (chain_id : Bytes)
    (height round : ℤ) (val_set : ValidatorSet) where
  abbrev ballot : Ballot
  ballot = ballot_of scheme codec encode chain_id height round vote_type_precommit val_set

  cast_for-signed :
      (block_id : BlockId) (v : Validator) (vote : Vote)
      → (bytes_equal (key encode vote.block_id) (key encode block_id) ≡ true
          → equals block_id vote.block_id ≡ true)
      → is_cast_for scheme codec encode ballot (key encode block_id) v vote ≡ true
      → is_signed_precommit scheme codec chain_id block_id height round v vote ≡ true
  unfolding is_cast_for is_cast is_signed_precommit
  cast_for-signed block_id v vote d e = ground arith

  cast-is_precommit :
      (v : Validator) (vote : Vote)
      → is_cast scheme codec encode ballot v vote ≡ true
      → is_precommit scheme codec chain_id height round v vote ≡ true
  unfolding is_cast is_precommit
  cast-is_precommit v vote e = e

-- While no power is negative, twice their sum fits in an int64 and the cached total is unset or
-- right, in any state of a set of precommits from `NewVoteSet` on, whatever `AddVote` and
-- `SetPeerMaj23` are called with, once there is a majority `MakeCommit` returns a commit and
-- `VerifyCommit` of the validators accepts it for the block of the majority and the height, provided
-- that the set has no vote for another block with the same key.
pub verify_commit-make_commit :
    (scheme : Scheme) (codec : Codec) (encode : PartSetHeader → Bytes) (chain_id : Bytes)
    (height round : ℤ) (val_set : ValidatorSet) (vs : VoteSet) (block_id : BlockId)
    → IsPowered val_set
    → Reached scheme codec encode chain_id height round vote_type_precommit val_set vs
    → vs.maj23 ≡ some block_id
    → ((i : ℕ) (vote : Vote)
        → get_elem? vs.votes i ≡ some (some vote)
        → bytes_equal (key encode vote.block_id) (key encode block_id) ≡ true
        → equals block_id vote.block_id ≡ true)
    → (commit : Commit) × (make_commit vs ≡ some commit)
      × (verify_commit scheme codec chain_id val_set block_id height commit
          ≡ ok (total_voting_power val_set).1)
unfolding make_commit
verify_commit-make_commit scheme codec encode chain_id height round val_set vs block_id p r m d =
    let ballot = ballot_of scheme codec encode chain_id height round vote_type_precommit val_set in
    let h =
      Reached-IsSound scheme codec encode chain_id height round vote_type_precommit val_set p r in
    let is_type : (vs.type' == vote_type_precommit) ≡ true = let e = h.type_eq in ground arith in
    let votes_for =
      tally_mono (is_cast_for scheme codec encode ballot (key encode block_id))
        (is_signed_precommit scheme codec chain_id block_id height round) val_set.validators
        vs.votes
        (λ i v vote at e.
          cast_for-signed scheme codec encode chain_id height round val_set block_id v vote
            (d i vote at) e) in
    (
      commit_of block_id vs.votes,
      rw (is_type, m) refl,
      verify_commit-ok scheme codec chain_id height round val_set block_id vs.votes h.len p
          (AllGood-mono (is_cast scheme codec encode ballot)
            (is_precommit scheme codec chain_id height round)
            (cast-is_precommit scheme codec encode chain_id height round val_set) val_set.validators
            vs.votes h.cast)
          (omega (arith, h.majority block_id m, votes_for)),
    )
