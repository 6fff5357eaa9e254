-- ===== src/Tests/HeightVoteSet.antt =====
-- A peer whose precommit is for a round that the height does not track yet.
use de_mars_dmc.Prelude.{◌≡◌, refl, some, [], ◌∷◌, ◌+◌, ◌≤◌}
use de_mars_dmc.Prelude.Int.{pos, ◌+ℤ◌, ◌-ℤ◌}
use de_mars_dmc.Prelude.Int64.{add64, sub64, mul64, div64, wrap64}
use de_mars_dmc.Prelude.Bytes.{bytes_equal}
use de_mars_dmc.Common.BitArray.{new_bit_array, set_index, set_index_of}
use de_mars_dmc.Types.BlockId.{equals, header_equals, key}
use de_mars_dmc.Types.Vote.{is_vote_type_valid}
use de_mars_dmc.Types.Canonical.{vote_sign_bytes}
use de_mars_dmc.Types.SafeArith.{safe_add, safe_add_clip}
use de_mars_dmc.Types.ValidatorSet.{size, total_voting_power, add_powers, get_by_index}
use de_mars_dmc.Types.VoteSet.{
  new_vote_set, has_key, block_vote, signature_equals, get_vote, add_verified_vote, add_primary,
  is_maj23, tracked_entry, new_block_votes, count_vote, add_to_block, insert, lookup, copy_votes,
}
use de_mars_dmc.Types.VoteSet.Operations.{
  add_vote, check_vote, check_validator, check_signed, verify_vote, conclude, add_checked,
}
use de_mars_dmc.Consensus.HeightVoteSet.{
  HeightVoteSet, find_round, put_round, add_round, get_vote_set, put_vote_set, catchup_rounds,
  add_to_set, add_catchup, add_round_vote,
}
use de_mars_dmc.Consensus.HeightVoteSet.Catchup.{Added, unchanged, added, rounds_opened}
use de_mars_dmc.Consensus.HeightVoteSet.Opened.{round_count}
use de_mars_dmc.Tests.Stand.{scheme, codec}
use de_mars_dmc.Tests.Types.{chain, validators, precommit, encode}

-- The height before its first round is added.
abbrev no_rounds : HeightVoteSet
no_rounds = record {
  chain_id = chain;
  height = pos 5;
  val_set = validators;
  round = pos 0;
  round_vote_sets = [];
  peer_catchup_rounds = [];
}

unfoldable one_round :
    (hvs : HeightVoteSet) × (r : _) × (add_round_vote scheme codec encode no_rounds
        (precommit 1 0)
        (6 ∷ [])
      ≡ some (r, hvs))
unfolding add_round_vote add_catchup add_to_set is_vote_type_valid find_round put_round add_round
    get_vote_set put_vote_set catchup_rounds new_vote_set add_vote check_vote check_validator
    check_signed add_checked conclude verify_vote get_vote has_key block_vote signature_equals
    add_verified_vote add_primary is_maj23 tracked_entry new_block_votes count_vote add_to_block
    insert lookup copy_votes set_index set_index_of new_bit_array total_voting_power add_powers
    get_by_index size safe_add safe_add_clip add64 sub64 mul64 div64 wrap64 ◌+ℤ◌ ◌-ℤ◌ equals
    header_equals key bytes_equal scheme codec vote_sign_bytes
one_round = (_, _, refl)

one_round-Added : Added scheme codec encode ((6 ∷ []) ∷ []) no_rounds one_round.0
unfolding bytes_equal
one_round-Added = added (precommit 1 0) (6 ∷ []) one_round.1 unchanged refl one_round.2

rounds_opened_example : round_count one_round.0 ≤ round_count no_rounds + 2
rounds_opened_example = rounds_opened scheme codec encode ((6 ∷ []) ∷ []) one_round-Added
