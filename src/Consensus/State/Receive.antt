-- ===== src/Consensus/State/Receive.antt =====
-- consensus/state.go: what a proposal, a prevote or a majority of precommits changes in the round
-- state, before a step is entered.
use de_mars_dmc.Prelude.{Bool, ◌&&◌, ◌||◌, not, Option, none, some, leb, is_some, if◌then◌else◌}
use de_mars_dmc.Prelude.Int.{ℤ, pos, negsuc, ltb_ℤ, leb_ℤ, eqb_ℤ}
use de_mars_dmc.Prelude.Result.{Result, ok, err, panic}
use de_mars_dmc.Types.BlockId.{BlockId, is_zero}
use de_mars_dmc.Types.Vote.{Proposal}
use de_mars_dmc.Types.VoteSet.Operations.{two_thirds_majority}
use de_mars_dmc.Types.PartSet.{PartSet, PartSetError, has_header, new_part_set_from_header}
use de_mars_dmc.Consensus.State.{
  Node, RoundState, step_commit, hashes_to, unlock, fetch, polka, precommits_of,
}

-- `ErrInvalidProposalPOLRound`
pub data ProposalError : Type 0 where
  invalid_proposal_pol_round : ProposalError

module _ {B : Type 0} (node : Node B) where
  abbrev pub with_parts :
      RoundState B
      → Proposal
      → Result PartSetError PartSet
      → Option (Option ProposalError × RoundState B)
  with_parts cs proposal (ok parts) =
      some (none, record cs { proposal = some proposal; proposal_block_parts = some parts })
  with_parts cs proposal (err e) = none
  with_parts cs proposal panic = none

  -- `POLRound` is -1, or from 0 up to the round exclusively.
  abbrev pub bad_pol_round : Proposal → Bool
  bad_pol_round proposal =
      not (eqb_ℤ proposal.pol_round (negsuc 0))
      && (ltb_ℤ proposal.pol_round (pos 0) || leb_ℤ proposal.round proposal.pol_round)

  -- `defaultSetProposal`; `none` is the panic of a header with a negative total.
  unfoldable pub set_proposal :
      RoundState B → Proposal → Option (Option ProposalError × RoundState B)
  unfolding new_part_set_from_header
  set_proposal cs proposal =
      if is_some cs.proposal
      then some (none, cs)
      else if not (eqb_ℤ proposal.height cs.height) || not (eqb_ℤ proposal.round cs.round)
      then some (none, cs)
      else if leb step_commit cs.step
      then some (none, cs)
      else if bad_pol_round proposal
      then some (some invalid_proposal_pol_round, cs)
      else with_parts cs proposal (new_part_set_from_header proposal.block_parts_header)

  -- In `addVote`, whether a majority of prevotes of a round unlocks.
  unfoldable pub unlocks : RoundState B → ℤ → BlockId → Bool
  unfolding hashes_to
  unlocks cs vote_round block_id =
      is_some cs.locked_block
      && ltb_ℤ cs.locked_round vote_round
      && leb_ℤ vote_round cs.round
      && not (hashes_to node cs.locked_block block_id.hash)

  unfoldable pub renews_valid : RoundState B → ℤ → BlockId → Bool
  unfolding hashes_to is_zero
  renews_valid cs vote_round block_id =
      not (is_zero block_id)
      && ltb_ℤ cs.valid_round vote_round
      && leb_ℤ vote_round cs.round
      && hashes_to node cs.proposal_block block_id.hash

  abbrev pub renew_valid : RoundState B → ℤ → RoundState B
  renew_valid cs vote_round = record cs {
    valid_round = vote_round;
    valid_block = cs.proposal_block;
    valid_block_parts = cs.proposal_block_parts;
  }

  -- The part of `addVote` after a prevote: a recent polka unlocks, and renews the valid block.
  unfoldable pub see_polka : RoundState B → ℤ → RoundState B
  unfolding polka unlocks renews_valid
  see_polka cs vote_round =
      let (block_id, found) = polka cs.votes vote_round in
      let cs1 = if unlocks cs vote_round block_id then unlock node cs else cs in
      if found
      then if renews_valid cs1 vote_round block_id then renew_valid cs1 vote_round else cs1
      else cs

  -- The body of `enterCommit`: the block to be committed, or the parts to be fetched.
  abbrev pub stage : RoundState B → BlockId → Option (RoundState B)
  stage cs block_id =
      let cs1 =
        if hashes_to node cs.locked_block block_id.hash
        then record cs {
          proposal_block = cs.locked_block;
          proposal_block_parts = cs.locked_block_parts;
        }
        else cs in
      if not (hashes_to node cs1.proposal_block block_id.hash)
      then if not (has_header cs1.proposal_block_parts block_id.parts_header)
        then fetch node cs1 (new_part_set_from_header block_id.parts_header)
        else some cs1
      else some cs1

  unfoldable pub stage_commit : RoundState B → ℤ → Option (RoundState B)
  unfolding precommits_of two_thirds_majority hashes_to has_header new_part_set_from_header
  stage_commit cs commit_round =
      let (block_id, found) = two_thirds_majority (precommits_of cs.votes commit_round) in
      if not found then none else stage cs block_id
