-- ===== src/Consensus/State.antt =====
-- consensus/state.go, consensus/types/round_state.go: the steps of a round, as far as they depend on
-- votes, proposals and locks.
pub mod Receive
pub mod Lock
pub mod Steps
pub mod Precommit
pub mod Rounds
pub mod Votes
pub mod Messages
pub mod Run
use de_mars_dmc.Prelude.{
  ℕ, Bool, true, false, ◌&&◌, ◌||◌, not, Option, none, some, List, [], ◌∷◌, ◌++◌, length, leb, ◌==◌,
  is_some, if◌then◌else◌,
}
use de_mars_dmc.Prelude.Int.{ℤ, pos, negsuc, ltb_ℤ, leb_ℤ, eqb_ℤ}
use de_mars_dmc.Prelude.Bytes.{Bytes, bytes_equal}
use de_mars_dmc.Prelude.Result.{Result, ok, err, panic}
use de_mars_dmc.Types.BlockId.{BlockId, PartSetHeader, is_zero}
use de_mars_dmc.Types.Vote.{Vote, Proposal, vote_type_prevote, vote_type_precommit}
use de_mars_dmc.Types.ValidatorSet.{ValidatorSet, has_address}
use de_mars_dmc.Types.VoteSet.{VoteSet}
use de_mars_dmc.Types.VoteSet.Operations.{
  two_thirds_majority, has_two_thirds_any, has_two_thirds_majority,
}
use de_mars_dmc.Types.PartSet.{
  PartSet, PartSetError, has_header, header, zero_header, new_part_set_from_header,
}
use de_mars_dmc.Consensus.HeightVoteSet.{HeightVoteSet, get_vote_set, pol_info}

-- `RoundStepType`
abbrev pub step_new_height : ℕ
step_new_height = 1

abbrev pub step_new_round : ℕ
step_new_round = 2

abbrev pub step_propose : ℕ
step_propose = 3

abbrev pub step_prevote : ℕ
step_prevote = 4

abbrev pub step_prevote_wait : ℕ
step_prevote_wait = 5

abbrev pub step_precommit : ℕ
step_precommit = 6

abbrev pub step_precommit_wait : ℕ
step_precommit_wait = 7

abbrev pub step_commit : ℕ
step_commit = 8

-- What a step asks of the rest of the node: a vote to be signed and sent, a timeout, the news of a
-- step.
pub data Output : Type 0 where
  vote_request : ℤ → ℤ → ℕ → Bytes → PartSetHeader → Output
  timeout_request : ℤ → ℤ → ℕ → Output
  new_step : ℤ → ℤ → ℕ → Output

-- A block is known by its hash, and by whether `ValidateBlock` finds it valid in the state of the
-- height; `priv_address` is the address of the private validator, if there is one.
pub record Node (B : Type 0) : Type 0 where
  pub block_hash : B → Bytes
  pub validate_block : B → Bool
  pub priv_address : Option Bytes

-- `RoundState`, without the times and what is kept of the last height, with the outputs so far.
pub record RoundState (B : Type 0) : Type 0 where
  pub height : ℤ
  pub round : ℤ
  pub step : ℕ
  pub validators : ValidatorSet
  pub proposal : Option Proposal
  pub proposal_block : Option B
  pub proposal_block_parts : Option PartSet
  pub locked_round : ℤ
  pub locked_block : Option B
  pub locked_block_parts : Option PartSet
  pub valid_round : ℤ
  pub valid_block : Option B
  pub valid_block_parts : Option PartSet
  pub votes : HeightVoteSet
  pub commit_round : ℤ
  pub outputs : List Output

-- `Votes.Prevotes(round)` and `Votes.Precommits(round)`: nil when there is no such round.
abbrev pub flatten : Option (Option VoteSet) → Option VoteSet
flatten none = none
flatten (some vs) = vs

unfoldable pub prevotes_of : HeightVoteSet → ℤ → Option VoteSet
unfolding get_vote_set
prevotes_of votes round = flatten (get_vote_set votes round vote_type_prevote)

unfoldable pub precommits_of : HeightVoteSet → ℤ → Option VoteSet
unfolding get_vote_set
precommits_of votes round = flatten (get_vote_set votes round vote_type_precommit)

-- The majority of the prevotes of a round.
unfoldable pub polka : HeightVoteSet → ℤ → BlockId × Bool
unfolding prevotes_of two_thirds_majority
polka votes round = two_thirds_majority (prevotes_of votes round)

module _ {B : Type 0} (node : Node B) where
  -- `Block.HashesTo`
  unfoldable pub hashes_to : Option B → Bytes → Bool
  hashes_to none hash = false
  hashes_to (some b) hash = if length hash == 0 then false else bytes_equal (node.block_hash b) hash

  -- The test that the `enter` methods of a step begin with.
  abbrev pub is_stale : RoundState B → ℤ → ℤ → ℕ → Bool
  is_stale cs height round step =
      not (eqb_ℤ cs.height height)
      || ltb_ℤ round cs.round
      || (eqb_ℤ cs.round round && leb step cs.step)

  -- `updateRoundStep` and `newStep`
  unfoldable pub to_step : RoundState B → ℤ → ℕ → RoundState B
  to_step cs round step = record cs {
    round = round;
    step = step;
    outputs = cs.outputs ++ (new_step cs.height round step ∷ []);
  }

  abbrev pub is_own : Option Bytes → ValidatorSet → Bool
  is_own none validators = false
  is_own (some address) validators = has_address validators address

  -- `signAddVote`
  unfoldable pub sign_add_vote : RoundState B → ℕ → Bytes → PartSetHeader → RoundState B
  unfolding has_address
  sign_add_vote cs type' hash parts_header =
      if is_own node.priv_address cs.validators
      then record cs {
        outputs = cs.outputs ++ (vote_request cs.height cs.round type' hash parts_header ∷ []);
      }
      else cs

  unfoldable pub schedule_timeout : RoundState B → ℤ → ℤ → ℕ → RoundState B
  schedule_timeout cs height round step = record cs {
    outputs = cs.outputs ++ (timeout_request height round step ∷ []);
  }

  unfoldable pub is_proposal_complete : RoundState B → Bool
  unfolding prevotes_of has_two_thirds_majority
  is_proposal_complete cs = elim cs.proposal [
    | none ↦ false
    | some proposal ↦
        if not (is_some cs.proposal_block)
        then false
        else if ltb_ℤ proposal.pol_round (pos 0)
        then true
        else has_two_thirds_majority (prevotes_of cs.votes proposal.pol_round)
  ]

  -- `defaultDoPrevote`
  unfoldable pub do_prevote : RoundState B → RoundState B
  unfolding sign_add_vote header
  do_prevote cs = elim cs.locked_block [
    | some b ↦ sign_add_vote cs vote_type_prevote (node.block_hash b) (header cs.locked_block_parts)
    | none ↦ elim cs.proposal_block [
      | none ↦ sign_add_vote cs vote_type_prevote [] zero_header
      | some b ↦
          if not (node.validate_block b)
          then sign_add_vote cs vote_type_prevote [] zero_header
          else sign_add_vote cs vote_type_prevote (node.block_hash b)
              (header cs.proposal_block_parts)
    ]
  ]

  unfoldable pub enter_prevote : RoundState B → ℤ → ℤ → RoundState B
  unfolding do_prevote to_step
  enter_prevote cs height round =
      if is_stale cs height round step_prevote
      then cs
      else to_step (do_prevote cs) round step_prevote

  -- `enterPrevoteWait`; `none` is a panic here and below.
  unfoldable pub enter_prevote_wait : RoundState B → ℤ → ℤ → Option (RoundState B)
  unfolding prevotes_of has_two_thirds_any schedule_timeout to_step
  enter_prevote_wait cs height round =
      if is_stale cs height round step_prevote_wait
      then some cs
      else if not (has_two_thirds_any (prevotes_of cs.votes round))
      then none
      else some
          (to_step (schedule_timeout cs height round step_prevote_wait) round step_prevote_wait)

  abbrev pub unlock : RoundState B → RoundState B
  unlock cs = record cs { locked_round = pos 0; locked_block = none; locked_block_parts = none }

  -- The parts of a block that is to be fetched.
  abbrev pub fetch : RoundState B → Result PartSetError PartSet → Option (RoundState B)
  fetch cs (ok parts) =
      some (record cs { proposal_block = none; proposal_block_parts = some parts })
  fetch cs (err e) = none
  fetch cs panic = none

  -- The end of `enterPrecommit`: a polka for a block that is not here.
  unfoldable pub precommit_unknown : RoundState B → BlockId → Option (RoundState B)
  unfolding has_header new_part_set_from_header sign_add_vote
  precommit_unknown cs block_id =
      let cs1 = unlock cs in
      elim (if not (has_header cs1.proposal_block_parts block_id.parts_header)
        then fetch cs1 (new_part_set_from_header block_id.parts_header)
        else some cs1) [
          | none ↦ none
          | some cs2 ↦ some (sign_add_vote cs2 vote_type_precommit [] zero_header)
        ]

  -- The part of `enterPrecommit` for a polka for a block.
  unfoldable pub precommit_block : RoundState B → ℤ → BlockId → Option (RoundState B)
  unfolding hashes_to sign_add_vote precommit_unknown
  precommit_block cs round block_id =
      if hashes_to cs.locked_block block_id.hash
      then some (
          sign_add_vote (record cs { locked_round = round }) vote_type_precommit block_id.hash
            block_id.parts_header)
      else elim cs.proposal_block [
        | none ↦ precommit_unknown cs block_id
        | some b ↦
            if not (hashes_to (some b) block_id.hash)
            then precommit_unknown cs block_id
            else if not (node.validate_block b)
            then none
            else some (
                sign_add_vote
                  (record cs {
                    locked_round = round;
                    locked_block = some b;
                    locked_block_parts = cs.proposal_block_parts;
                  })
                  vote_type_precommit block_id.hash block_id.parts_header)
      ]

  -- The body of `enterPrecommit`, for the majority of the prevotes.
  unfoldable pub do_precommit : RoundState B → ℤ → BlockId × Bool → Option (RoundState B)
  unfolding sign_add_vote pol_info precommit_block
  do_precommit cs round (block_id, found) =
      if not found
      then some (sign_add_vote cs vote_type_precommit [] zero_header)
      else if ltb_ℤ (pol_info cs.votes).0 round
      then none
      else if length block_id.hash == 0
      then some (
          sign_add_vote (if is_some cs.locked_block then unlock cs else cs) vote_type_precommit []
            zero_header)
      else precommit_block cs round block_id

  abbrev pub then_step : Option (RoundState B) → ℤ → ℕ → Option (RoundState B)
  then_step none round step = none
  then_step (some cs) round step = some (to_step cs round step)

  unfoldable pub enter_precommit : RoundState B → ℤ → ℤ → Option (RoundState B)
  unfolding do_precommit polka to_step
  enter_precommit cs height round =
      if is_stale cs height round step_precommit
      then some cs
      else then_step (do_precommit cs round (polka cs.votes round)) round step_precommit

  unfoldable pub enter_precommit_wait : RoundState B → ℤ → ℤ → Option (RoundState B)
  unfolding precommits_of has_two_thirds_any schedule_timeout to_step
  enter_precommit_wait cs height round =
      if is_stale cs height round step_precommit_wait
      then some cs
      else if not (has_two_thirds_any (precommits_of cs.votes round))
      then none
      else some
          (to_step (schedule_timeout cs height round step_precommit_wait) round step_precommit_wait)
