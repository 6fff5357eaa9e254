-- ===== src/Types/VoteSet/Conflict.antt =====
-- types/vote_set.go: two vote sets of one height, round and type that each have a majority.
use de_mars_dmc.Prelude.{ℕ, ◌≡◌, inl, inr, true, some, arith, get_elem?}
use de_mars_dmc.Prelude.Int.{ℤ}
use de_mars_dmc.Prelude.Bytes.{Bytes, bytes_equal}
use de_mars_dmc.Types.BlockId.{BlockId, PartSetHeader, key, equals}
use de_mars_dmc.Types.Vote.{Vote, Scheme}
use de_mars_dmc.Types.Canonical.{Codec}
use de_mars_dmc.Types.ValidatorSet.{ValidatorSet}
use de_mars_dmc.Types.ValidatorSet.Power.{IsPowered}
use de_mars_dmc.Types.ValidatorSet.Quorum.{Overlap, tally-Overlap}
use de_mars_dmc.Types.VoteSet.{VoteSet}
use de_mars_dmc.Types.VoteSet.Invariant.{is_vote_for}
use de_mars_dmc.Types.VoteSet.Run.{Reached, ballot_of, Reached-HasMajority}

-- While no power is negative, twice their sum fits in an int64 and the cached total is unset or
-- right, two sets of votes for one chain, height, round and type, each in any state from
-- `NewVoteSet` on, that both have a majority, have an index at which the same validator signed a
-- vote for the block of each, provided that neither set has a vote for another block with the key of
-- its majority.
pub majority-Overlap :
    (scheme : Scheme) (codec : Codec) (encode : PartSetHeader → Bytes) (chain_id : Bytes)
    (height round : ℤ) (type' : ℕ) (val_set : ValidatorSet) (vs vs' : VoteSet)
    (block_id block_id' : BlockId)
    → IsPowered val_set
    → Reached scheme codec encode chain_id height round type' val_set vs
    → Reached scheme codec encode chain_id height round type' val_set vs'
    → vs.maj23 ≡ some block_id
    → vs'.maj23 ≡ some block_id'
    → ((i : ℕ) (vote : Vote)
        → get_elem? vs.votes i ≡ some (some vote)
        → bytes_equal (key encode vote.block_id) (key encode block_id) ≡ true
        → equals block_id vote.block_id ≡ true)
    → ((i : ℕ) (vote : Vote)
        → get_elem? vs'.votes i ≡ some (some vote)
        → bytes_equal (key encode vote.block_id) (key encode block_id') ≡ true
        → equals block_id' vote.block_id ≡ true)
    → Overlap
        (is_vote_for scheme codec encode
          (ballot_of scheme codec encode chain_id height round type' val_set)
          block_id)
        (is_vote_for scheme codec encode
          (ballot_of scheme codec encode chain_id height round type' val_set)
          block_id')
        val_set.validators
        vs.votes
        vs'.votes
majority-Overlap scheme codec encode chain_id height round type' val_set vs vs' block_id block_id' p
      r r' m m' d d' =
    let ballot = ballot_of scheme codec encode chain_id height round type' val_set in
    let q =
      Reached-HasMajority scheme codec encode chain_id height round type' val_set block_id p r m
        d in
    let q' =
      Reached-HasMajority scheme codec encode chain_id height round type' val_set block_id' p r' m'
        d' in
    elim (tally-Overlap (is_vote_for scheme codec encode ballot block_id)
      (is_vote_for scheme codec encode ballot block_id') val_set.validators vs.votes vs'.votes) [
        | inl found ↦ found
        | inr le ↦ absurd (omega arith)
      ]
