-- ===== src/Tests/Consensus.antt =====
-- A validator with a polka for the block that was proposed.
use de_mars_dmc.Prelude.{◌≡◌, refl, Option, none, some, true, [], ◌∷◌, get_elem?}
use de_mars_dmc.Prelude.Int.{pos, negsuc, ◌≤ℤ◌}
use de_mars_dmc.Prelude.Bytes.{Bytes, bytes_equal, bytes_compare}
use de_mars_dmc.Types.BlockId.{BlockId}
use de_mars_dmc.Types.Vote.{vote_type_prevote, vote_type_precommit}
use de_mars_dmc.Types.ValidatorSet.{
  has_address, address_index, search, search_loop, at_or_after, address_at,
}
use de_mars_dmc.Types.VoteSet.{VoteSet}
use de_mars_dmc.Types.VoteSet.Operations.{two_thirds_majority}
use de_mars_dmc.Consensus.HeightVoteSet.{
  HeightVoteSet, find_round, get_vote_set, pol_info, pol_from, majority_at,
}
use de_mars_dmc.Consensus.State.{
  Node, RoundState, vote_request, polka, prevotes_of, hashes_to, to_step, sign_add_vote,
  do_precommit, precommit_block, enter_precommit, step_prevote_wait,
}
use de_mars_dmc.Consensus.State.Run.{Reached, started, precommitted, locked-polka, precommits_agree}
use de_mars_dmc.Tests.Stand.{scheme, codec}
use de_mars_dmc.Tests.Types.{chain, block, validators, no_votes, encode}

-- A block that is its hash.
abbrev node : Node Bytes
node = record { block_hash = λ b. b; validate_block = λ b. true; priv_address = some (1 ∷ []) }

abbrev polka_votes : VoteSet
polka_votes = record no_votes { type' = vote_type_prevote; maj23 = some block }

abbrev height_votes : HeightVoteSet
height_votes = record {
  chain_id = chain;
  height = pos 5;
  val_set = validators;
  round = pos 0;
  round_vote_sets = (pos 0, record { prevotes = polka_votes; precommits = no_votes }) ∷ [];
  peer_catchup_rounds = [];
}

abbrev waiting : RoundState Bytes
waiting = record {
  height = pos 5;
  round = pos 0;
  step = step_prevote_wait;
  validators = validators;
  proposal = none;
  proposal_block = some (3 ∷ []);
  proposal_block_parts = none;
  locked_round = pos 0;
  locked_block = none;
  locked_block_parts = none;
  valid_round = pos 0;
  valid_block = none;
  valid_block_parts = none;
  votes = height_votes;
  commit_round = negsuc 0;
  outputs = [];
}

abbrev state_of : Option (RoundState Bytes) → RoundState Bytes
state_of none = waiting
state_of (some cs) = cs

unfoldable locked_state : RoundState Bytes
unfolding enter_precommit do_precommit polka prevotes_of get_vote_set find_round two_thirds_majority
    pol_info pol_from majority_at precommit_block hashes_to sign_add_vote to_step has_address
    address_index search search_loop at_or_after address_at bytes_equal bytes_compare
locked_state = state_of (enter_precommit node waiting (pos 5) (pos 0))

precommit_done : enter_precommit node waiting (pos 5) (pos 0) ≡ some locked_state
unfolding locked_state enter_precommit do_precommit polka prevotes_of get_vote_set find_round
    two_thirds_majority pol_info pol_from majority_at precommit_block hashes_to sign_add_vote
    to_step has_address address_index search search_loop at_or_after address_at bytes_equal
    bytes_compare
precommit_done = refl

locked_state-Reached : Reached node scheme codec encode waiting locked_state
locked_state-Reached = precommitted (pos 5) started precommit_done

is_locked : locked_state.locked_block ≡ some (3 ∷ [])
unfolding locked_state enter_precommit do_precommit polka prevotes_of get_vote_set find_round
    two_thirds_majority pol_info pol_from majority_at precommit_block hashes_to sign_add_vote
    to_step has_address address_index search search_loop at_or_after address_at bytes_equal
    bytes_compare
is_locked = refl

requested :
    get_elem? locked_state.outputs 0
    ≡ some (vote_request (pos 5) (pos 0) vote_type_precommit (3 ∷ []) block.parts_header)
unfolding locked_state enter_precommit do_precommit polka prevotes_of get_vote_set find_round
    two_thirds_majority pol_info pol_from majority_at precommit_block hashes_to sign_add_vote
    to_step has_address address_index search search_loop at_or_after address_at bytes_equal
    bytes_compare
requested = refl

locked-polka_example :
    (block_id : BlockId) × (polka locked_state.votes locked_state.locked_round ≡ (block_id, true))
    × (hashes_to node (some (3 ∷ [])) block_id.hash ≡ true)
    × (locked_state.locked_round ≤ℤ locked_state.round)
locked-polka_example =
    locked-polka node scheme codec encode (3 ∷ []) refl refl locked_state-Reached is_locked

precommits_agree_example : ◌≡◌ {A = Bytes} (3 ∷ []) (3 ∷ [])
precommits_agree_example =
    precommits_agree node scheme codec encode 0 0 (pos 5) (pos 5) (pos 0) (3 ∷ []) (3 ∷ [])
      block.parts_header block.parts_header refl refl locked_state-Reached requested requested refl
      refl
