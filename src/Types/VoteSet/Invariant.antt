-- ===== src/Types/VoteSet/Invariant.antt =====
-- types/vote_set.go: what holds of a `VoteSet` between two calls.
use de_mars_dmc.Prelude.{
  ℕ, ◌*◌, ◌<◌, ◌≡◌, Bool, true, arith, ◌&&◌, Option, some, List, length, ◌==◌,
}
use de_mars_dmc.Prelude.Int.{ℤ, pos, eqb_ℤ}
use de_mars_dmc.Prelude.Bytes.{Bytes, bytes_equal}
use de_mars_dmc.Types.BlockId.{BlockId, PartSetHeader, key, equals}
use de_mars_dmc.Types.Vote.{Vote, Scheme}
use de_mars_dmc.Types.Canonical.{Codec, vote_sign_bytes}
use de_mars_dmc.Types.ValidatorSet.{Validator}
use de_mars_dmc.Types.ValidatorSet.Power.{IsPowered, sum_power, tally}
use de_mars_dmc.Types.VoteSet.{VoteSet, BlockVotes, lookup}
use de_mars_dmc.Types.VoteSet.Tally.{any, AllGood, Covers}

-- What a set is for; no call changes it.
pub record Ballot : Type 0 where
  pub chain_id : Bytes
  pub height : ℤ
  pub round : ℤ
  pub type' : ℕ
  pub validators : List Validator

module _ (scheme : Scheme) (codec : Codec) (encode : PartSetHeader → Bytes) (ballot : Ballot) where
  -- A vote of the ballot that the validator signed, and one whose block has a key. Different blocks
  -- can have one key.
  unfoldable pub is_cast : Validator → Vote → Bool
  is_cast val vote =
      eqb_ℤ vote.height ballot.height
      && eqb_ℤ vote.round ballot.round
      && (vote.type' == ballot.type')
      && scheme.verify_bytes val.pub_key (vote_sign_bytes codec ballot.chain_id vote) vote.signature

  unfoldable pub is_cast_for : Bytes → Validator → Vote → Bool
  unfolding is_cast key
  is_cast_for block_key val vote =
      is_cast val vote && bytes_equal (key encode vote.block_id) block_key

  -- A vote of the ballot that the validator signed for the block itself.
  unfoldable pub is_vote_for : BlockId → Validator → Vote → Bool
  unfolding is_cast equals
  is_vote_for block_id val vote = is_cast val vote && equals block_id vote.block_id

  -- Where no vote is for another block with the key of the block, votes with the key are for it.
  pub cast_for-is_vote_for :
      (block_id : BlockId) (val : Validator) (vote : Vote)
      → (bytes_equal (key encode vote.block_id) (key encode block_id) ≡ true
          → equals block_id vote.block_id ≡ true)
      → is_cast_for (key encode block_id) val vote ≡ true
      → is_vote_for block_id val vote ≡ true
  unfolding is_cast_for is_vote_for
  cast_for-is_vote_for block_id val vote d e = ground arith

  -- An entry of `votesByBlock`: its votes have the key of its block, the sum is theirs, and each validator
  -- in it has a vote among the primary ones.
  pub record IsEntry (votes : List (Option Vote)) (block_key : Bytes) (bv : BlockVotes)
      : Type 0 where
    pub len : length bv.votes ≡ length ballot.validators
    pub sum_eq : bv.sum ≡ pos (tally any ballot.validators bv.votes)
    pub cast : AllGood (is_cast_for block_key) ballot.validators bv.votes
    pub covered : Covers bv.votes votes

  -- More than two thirds of the power has a primary vote with the key of the block.
  abbrev pub HasMajority : VoteSet → BlockId → Type 0
  HasMajority vs block_id =
      2 * sum_power ballot.validators
      < 3 * tally (is_cast_for (key encode block_id)) ballot.validators vs.votes

  pub record IsSound (vs : VoteSet) : Type 0 where
    pub chain_eq : vs.chain_id ≡ ballot.chain_id
    pub height_eq : vs.height ≡ ballot.height
    pub round_eq : vs.round ≡ ballot.round
    pub type_eq : vs.type' ≡ ballot.type'
    pub validators_eq : vs.val_set.validators ≡ ballot.validators
    pub powered : IsPowered vs.val_set
    pub len : length vs.votes ≡ length ballot.validators
    pub sum_eq : vs.sum ≡ pos (tally any ballot.validators vs.votes)
    pub cast : AllGood is_cast ballot.validators vs.votes
    pub entries :
        (k : Bytes) (bv : BlockVotes) → lookup k vs.votes_by_block ≡ some bv → IsEntry vs.votes k bv
    pub majority : (b : BlockId) → vs.maj23 ≡ some b → HasMajority vs b
