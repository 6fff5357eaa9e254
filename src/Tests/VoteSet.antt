-- ===== src/Tests/VoteSet.antt =====
-- The votes of two validators for one block, from a new set on to its commit.
use mathlib.Core.Option.{some-injective}
use de_mars_dmc.Prelude.{ℕ, zero, suc, ◌*◌, ◌<◌, ◌≡◌, refl, true, none, some, get_elem?, ap, sym}
use de_mars_dmc.Prelude.Int.{pos}
use de_mars_dmc.Prelude.Bytes.{bytes_equal}
use de_mars_dmc.Prelude.Result.{ok}
use de_mars_dmc.Prelude.Int64.{add64, sub64, mul64, div64, wrap64}
use de_mars_dmc.Prelude.Int.{◌+ℤ◌, ◌-ℤ◌}
use de_mars_dmc.Common.BitArray.{new_bit_array, set_index, set_index_of}
use de_mars_dmc.Types.BlockId.{equals, header_equals, key}
use de_mars_dmc.Types.Vote.{Vote, vote_type_precommit}
use de_mars_dmc.Types.Canonical.{vote_sign_bytes}
use de_mars_dmc.Types.SafeArith.{safe_add, safe_add_clip}
use de_mars_dmc.Types.Commit.{Commit}
use de_mars_dmc.Types.ValidatorSet.{
  verify_commit, size, total_voting_power, add_powers, get_by_index,
}
use de_mars_dmc.Types.ValidatorSet.Power.{sum_power, tally}
use de_mars_dmc.Types.ValidatorSet.Quorum.{Overlap}
use de_mars_dmc.Types.VoteSet.{
  new_vote_set, has_key, block_vote, signature_equals, get_vote, add_verified_vote, add_primary,
  is_maj23, tracked_entry, new_block_votes, count_vote, add_to_block, insert, lookup, copy_votes,
}
use de_mars_dmc.Types.VoteSet.Operations.{
  make_commit, add_vote, check_vote, check_validator, check_signed, verify_vote, conclude,
  add_checked,
}
use de_mars_dmc.Types.VoteSet.Invariant.{is_vote_for}
use de_mars_dmc.Types.VoteSet.Run.{Reached, ballot_of, created, voted, Reached-HasMajority}
use de_mars_dmc.Types.VoteSet.Accepted.{verify_commit-make_commit}
use de_mars_dmc.Types.VoteSet.Conflict.{majority-Overlap}
use de_mars_dmc.Tests.Stand.{scheme, codec}
use de_mars_dmc.Tests.Types.{
  chain, block, validators, encode, no_votes, one_vote, two_votes, precommit, first_added,
  second_added, majority_found, IsPowered_example,
}

set_created : new_vote_set chain (pos 5) (pos 0) vote_type_precommit validators ≡ some no_votes
unfolding new_vote_set size
set_created = refl

two_votes-Reached :
    Reached scheme codec encode chain (pos 5) (pos 0) vote_type_precommit validators two_votes
two_votes-Reached =
    voted (some (precommit 2 1)) (true, none)
      (voted (some (precommit 1 0)) (true, none) (created set_created) first_added) second_added

same_block :
    (i : ℕ) (vote : Vote)
    → get_elem? two_votes.votes i ≡ some (some vote)
    → bytes_equal (key encode vote.block_id) (key encode block) ≡ true
    → equals block vote.block_id ≡ true
unfolding two_votes one_vote add_vote check_vote check_validator check_signed add_checked conclude
    verify_vote get_vote has_key block_vote signature_equals add_verified_vote add_primary is_maj23
    tracked_entry new_block_votes count_vote add_to_block insert lookup copy_votes set_index
    set_index_of new_bit_array total_voting_power add_powers get_by_index size safe_add
    safe_add_clip add64 sub64 mul64 div64 wrap64 ◌+ℤ◌ ◌-ℤ◌ equals header_equals key bytes_equal
    scheme codec vote_sign_bytes
same_block zero vote h e =
    ap (λ (v : Vote). equals block v.block_id) (sym (some-injective _ _ (some-injective _ _ h)))
same_block (suc zero) vote h e =
    ap (λ (v : Vote). equals block v.block_id) (sym (some-injective _ _ (some-injective _ _ h)))
same_block (suc (suc i)) vote h e = absurd (cc)

Reached-HasMajority_example :
    2 * sum_power validators.validators
    < 3
      * tally
          (is_vote_for scheme codec encode
            (ballot_of scheme codec encode chain (pos 5) (pos 0) vote_type_precommit validators)
            block)
          validators.validators
          two_votes.votes
Reached-HasMajority_example =
    Reached-HasMajority scheme codec encode chain (pos 5) (pos 0) vote_type_precommit validators
      block IsPowered_example two_votes-Reached majority_found same_block

verify_commit-make_commit_example :
    (commit : Commit) × (make_commit two_votes ≡ some commit)
    × (verify_commit scheme codec chain validators block (pos 5) commit
        ≡ ok (total_voting_power validators).1)
verify_commit-make_commit_example =
    verify_commit-make_commit scheme codec encode chain (pos 5) (pos 0) validators two_votes block
      IsPowered_example two_votes-Reached majority_found same_block

majority-Overlap_example :
    Overlap
      (is_vote_for scheme codec encode
        (ballot_of scheme codec encode chain (pos 5) (pos 0) vote_type_precommit validators)
        block)
      (is_vote_for scheme codec encode
        (ballot_of scheme codec encode chain (pos 5) (pos 0) vote_type_precommit validators)
        block)
      validators.validators
      two_votes.votes
      two_votes.votes
majority-Overlap_example =
    majority-Overlap scheme codec encode chain (pos 5) (pos 0) vote_type_precommit validators
      two_votes two_votes block block IsPowered_example two_votes-Reached two_votes-Reached
      majority_found majority_found same_block same_block
