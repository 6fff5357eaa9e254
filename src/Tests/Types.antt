-- ===== src/Tests/Types.antt =====
-- Two validators, their votes for one block and the commit of it.
use mathlib.Core.Option.{some-injective}
use de_mars_dmc.Prelude.{
  ℕ, zero, suc, sym, ◌↔◌, get_elem?, ◌*◌, ◌<◌, ◌≡◌, refl, inl, Bool, true, false, Option, none,
  some, [], ◌∷◌, length, arith,
}
use de_mars_dmc.Prelude.Int.{pos, ◌+ℤ◌, ◌-ℤ◌}
use de_mars_dmc.Prelude.Int64.{add64, sub64, mul64, div64, wrap64, max_i64, min_i64}
use de_mars_dmc.Prelude.Bytes.{Bytes, bytes_equal, bytes_compare}
use de_mars_dmc.Prelude.Result.{ok}
use de_mars_dmc.Types.BlockId.{BlockId, equals, header_equals, key}
use de_mars_dmc.Types.Vote.{Vote, vote_type_precommit}
use de_mars_dmc.Types.Canonical.{vote_sign_bytes}
use de_mars_dmc.Types.SafeArith.{
  safe_add, safe_add_clip, clamp, safe_add_clip-eq-clamp, safe_sub_clip, safe_sub_clip-eq-clamp,
}
use de_mars_dmc.Types.Commit.{Commit, commit_height, commit_round, first_precommit, find_precommit}
use de_mars_dmc.Types.ValidatorSet.{
  Validator, ValidatorSet, verify_commit, verify_precommits, verify_precommit, check_tally, size,
  total_voting_power, add_powers, get_by_index,
}
use de_mars_dmc.Types.ValidatorSet.Power.{IsPowered, HasPowers, sum_power, tally}
use de_mars_dmc.Types.ValidatorSet.Verify.{verify_commit_sound, is_signed_precommit}
use de_mars_dmc.Types.ValidatorSet.{has_address}
use de_mars_dmc.Types.ValidatorSet.Search.{IsSorted, has_address_iff}
use de_mars_dmc.Common.BitArray.{new_bit_array, set_index, set_index_of}
use de_mars_dmc.Types.BlockId.{PartSetHeader}
use de_mars_dmc.Types.VoteSet.{
  VoteSet, AddError, has_key, block_vote, signature_equals, get_vote, add_verified_vote,
  add_primary, is_maj23, tracked_entry, new_block_votes, count_vote, add_to_block, insert, lookup,
  copy_votes,
}
use de_mars_dmc.Types.VoteSet.Operations.{
  add_vote, check_vote, check_validator, check_signed, verify_vote, conclude, add_checked,
}
use de_mars_dmc.Types.VoteSet.Checks.{add_vote-IsVerified, IsVerified}
use de_mars_dmc.Types.VoteSet.Majority.{maj23-add_vote}
use de_mars_dmc.Tests.Stand.{scheme, codec}

safe_add_clip-eq-clamp_example : safe_add_clip max_i64 (pos 1) ≡ clamp (max_i64 +ℤ pos 1)
safe_add_clip-eq-clamp_example =
    safe_add_clip-eq-clamp max_i64 (pos 1) (omega arith, omega arith) (omega arith, omega arith)

safe_sub_clip-eq-clamp_example : safe_sub_clip (pos 1) min_i64 ≡ clamp (pos 1 -ℤ min_i64)
safe_sub_clip-eq-clamp_example =
    safe_sub_clip-eq-clamp (pos 1) min_i64 (omega arith, omega arith) (omega arith, omega arith)

abbrev pub chain : Bytes
chain = 9 ∷ []

abbrev pub block : BlockId
block = record { hash = 3 ∷ []; parts_header = record { total = pos 1; hash = 4 ∷ [] } }

abbrev pub validator : ℕ → Validator
validator n = record { address = n ∷ []; pub_key = n ∷ []; voting_power = pos 10; accum = pos 0 }

abbrev pub validators : ValidatorSet
validators = record {
  validators = validator 1 ∷ validator 2 ∷ [];
  proposer = none;
  total_voting_power = pos 0;
}

abbrev pub unsigned : ℕ → ℕ → Vote
unsigned n i = record {
  validator_address = n ∷ [];
  validator_index = pos i;
  height = pos 5;
  round = pos 0;
  timestamp = pos 1;
  type' = vote_type_precommit;
  block_id = block;
  signature = none;
}

abbrev pub precommit : ℕ → ℕ → Vote
precommit n i = record (unsigned n i) {
  signature = some (n ∷ vote_sign_bytes codec chain (unsigned n i));
}

abbrev pub counted : ValidatorSet
counted = record validators { total_voting_power = pos 20 }

abbrev pub commit : Commit
commit = record {
  block_id = block;
  precommits = some (precommit 1 0) ∷ some (precommit 2 1) ∷ [];
  first = none;
}

pub IsPowered_example : IsPowered validators
unfolding sum_power HasPowers
IsPowered_example = record { powers = (refl, (refl, tt)); bound = omega arith; cache = inl refl }

pub commit_accepted : verify_commit scheme codec chain validators block (pos 5) commit ≡ ok counted
unfolding verify_commit verify_precommits verify_precommit check_tally size total_voting_power
    add_powers get_by_index safe_add safe_add_clip add64 sub64 mul64 div64 wrap64 ◌+ℤ◌ equals
    header_equals bytes_equal commit_height commit_round first_precommit find_precommit scheme codec
    vote_sign_bytes
commit_accepted = refl

verify_commit_sound_example :
    (length commit.precommits ≡ length validators.validators)
    × ((commit_height commit).0 ≡ pos 5)
    × (2 * sum_power validators.validators
        < 3
          * tally
              (is_signed_precommit scheme codec chain block
                (pos 5)
                (commit_round (commit_height commit).1).0)
              validators.validators
              commit.precommits)
verify_commit_sound_example =
    verify_commit_sound scheme codec chain validators counted block (pos 5) commit IsPowered_example
      commit_accepted

IsSorted_example : IsSorted validators.validators
unfolding bytes_compare
IsSorted_example zero zero v w h e k = absurd (omega arith)
IsSorted_example zero (suc zero) v w h e k =
    rw (sym (some-injective _ _ e), sym (some-injective _ _ k)) refl
IsSorted_example zero (suc (suc j)) v w h e k = absurd (cc)
IsSorted_example (suc i) zero v w h e k = absurd (omega arith)
IsSorted_example (suc i) (suc zero) v w h e k = absurd (omega arith)
IsSorted_example (suc i) (suc (suc j)) v w h e k = absurd (cc)

has_address_iff_example : (has_address validators (2 ∷ []) ≡ true) ↔ (
    (i : ℕ) × (v : Validator) × (get_elem? validators.validators i ≡ some v) × (v.address ≡ 2 ∷ []))
has_address_iff_example = has_address_iff validators (2 ∷ []) IsSorted_example

abbrev pub no_votes : VoteSet
no_votes = record {
  chain_id = chain;
  height = pos 5;
  round = pos 0;
  type' = vote_type_precommit;
  val_set = validators;
  votes_bit_array = new_bit_array 2;
  votes = none ∷ none ∷ [];
  sum = pos 0;
  maj23 = none;
  votes_by_block = [];
  peer_maj23s = [];
}

abbrev pub encode : PartSetHeader → Bytes
encode header = 0 ∷ header.hash

-- The set after an `AddVote`, and whether the vote was added.
abbrev pub after : Option ((Bool × Option AddError) × VoteSet) → VoteSet
after none = no_votes
after (some (r, vs)) = vs

unfoldable pub one_vote : VoteSet
unfolding add_vote check_vote check_validator check_signed add_checked conclude verify_vote get_vote
    has_key block_vote signature_equals add_verified_vote add_primary is_maj23 tracked_entry
    new_block_votes count_vote add_to_block insert lookup copy_votes set_index set_index_of
    new_bit_array total_voting_power add_powers get_by_index size safe_add safe_add_clip add64 sub64
    mul64 div64 wrap64 ◌+ℤ◌ ◌-ℤ◌ equals header_equals key bytes_equal scheme codec vote_sign_bytes
one_vote = after (add_vote scheme codec encode no_votes (some (precommit 1 0)))

unfoldable pub two_votes : VoteSet
unfolding one_vote add_vote check_vote check_validator check_signed add_checked conclude verify_vote
    get_vote has_key block_vote signature_equals add_verified_vote add_primary is_maj23
    tracked_entry new_block_votes count_vote add_to_block insert lookup copy_votes set_index
    set_index_of new_bit_array total_voting_power add_powers get_by_index size safe_add
    safe_add_clip add64 sub64 mul64 div64 wrap64 ◌+ℤ◌ ◌-ℤ◌ equals header_equals key bytes_equal
    scheme codec vote_sign_bytes
two_votes = after (add_vote scheme codec encode one_vote (some (precommit 2 1)))

pub first_added :
    add_vote scheme codec encode no_votes (some (precommit 1 0)) ≡ some ((true, none), one_vote)
unfolding one_vote add_vote check_vote check_validator check_signed add_checked conclude verify_vote
    get_vote has_key block_vote signature_equals add_verified_vote add_primary is_maj23
    tracked_entry new_block_votes count_vote add_to_block insert lookup copy_votes set_index
    set_index_of new_bit_array total_voting_power add_powers get_by_index size safe_add
    safe_add_clip add64 sub64 mul64 div64 wrap64 ◌+ℤ◌ ◌-ℤ◌ equals header_equals key bytes_equal
    scheme codec vote_sign_bytes
first_added = refl

add_vote-IsVerified_example :
    (val : Validator) × IsVerified scheme codec encode no_votes (precommit 1 0) val
add_vote-IsVerified_example =
    add_vote-IsVerified scheme codec encode no_votes one_vote (precommit 1 0) none first_added

pub majority_found : two_votes.maj23 ≡ some block
unfolding two_votes one_vote add_vote check_vote check_validator check_signed add_checked conclude
    verify_vote get_vote has_key block_vote signature_equals add_verified_vote add_primary is_maj23
    tracked_entry new_block_votes count_vote add_to_block insert lookup copy_votes set_index
    set_index_of new_bit_array total_voting_power add_powers get_by_index size safe_add
    safe_add_clip add64 sub64 mul64 div64 wrap64 ◌+ℤ◌ ◌-ℤ◌ equals header_equals key bytes_equal
    scheme codec vote_sign_bytes
majority_found = refl

pub second_added :
    add_vote scheme codec encode one_vote (some (precommit 2 1)) ≡ some ((true, none), two_votes)
unfolding two_votes one_vote add_vote check_vote check_validator check_signed add_checked conclude
    verify_vote get_vote has_key block_vote signature_equals add_verified_vote add_primary is_maj23
    tracked_entry new_block_votes count_vote add_to_block insert lookup copy_votes set_index
    set_index_of new_bit_array total_voting_power add_powers get_by_index size safe_add
    safe_add_clip add64 sub64 mul64 div64 wrap64 ◌+ℤ◌ ◌-ℤ◌ equals header_equals key bytes_equal
    scheme codec vote_sign_bytes
second_added = refl

repeated :
    add_vote scheme codec encode two_votes (some (precommit 1 0)) ≡ some ((false, none), two_votes)
unfolding two_votes one_vote add_vote check_vote check_validator check_signed add_checked conclude
    verify_vote get_vote has_key block_vote signature_equals add_verified_vote add_primary is_maj23
    tracked_entry new_block_votes count_vote add_to_block insert lookup copy_votes set_index
    set_index_of new_bit_array total_voting_power add_powers get_by_index size safe_add
    safe_add_clip add64 sub64 mul64 div64 wrap64 ◌+ℤ◌ ◌-ℤ◌ equals header_equals key bytes_equal
    scheme codec vote_sign_bytes
repeated = refl

maj23-add_vote_example : two_votes.maj23 ≡ some block
maj23-add_vote_example =
    maj23-add_vote scheme codec encode two_votes two_votes (some (precommit 1 0)) (false, none)
      block majority_found repeated
