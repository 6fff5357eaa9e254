-- ===== src/Types/VoteSet.antt =====
-- types/vote_set.go: `VoteSet`, the votes of one height, round and type.
pub mod Operations
pub mod Checks
pub mod Tally
pub mod Invariant
pub mod Sound
pub mod Count
pub mod Keeps
pub mod Run
pub mod Accepted
pub mod Conflict
pub mod Majority
use mathlib.Core.Option
use de_mars_dmc.Prelude.{
  ℕ, ◌+◌, Bool, true, false, ◌&&◌, not, Option, none, some, List, [], ◌∷◌, length, set, get_elem?,
  replicate, ltb, leb, ◌==◌, is_some, if◌then◌else◌,
}
use de_mars_dmc.Prelude.Int.{ℤ, pos, negsuc, pos_part, ltb_ℤ, leb_ℤ, eqb_ℤ}
use de_mars_dmc.Prelude.Int64.{add64, mul64, div64}
use de_mars_dmc.Prelude.Bytes.{Bytes, bytes_equal}
unfoldable pub use de_mars_dmc.Prelude.Maps.{lookup, insert}
use de_mars_dmc.Prelude.Result.{Result, ok, err, panic, or_panic, ◌>>=◌}
use de_mars_dmc.Common.BitArray.{BitArray, new_bit_array, set_index}
use de_mars_dmc.Types.BlockId.{BlockId, PartSetHeader, equals, key, zero_block_id}
use de_mars_dmc.Types.Vote.{Vote, Signature, Scheme, VoteError, vote_type_precommit}
use de_mars_dmc.Types.Canonical.{Codec, vote_sign_bytes}
use de_mars_dmc.Types.Commit.{Commit}
use de_mars_dmc.Types.ValidatorSet.{
  Validator, ValidatorSet, get_by_index, get_by_address, size, total_voting_power,
}

pub record BlockVotes : Type 0 where
  pub peer_maj23 : Bool
  pub bit_array : Option BitArray
  pub votes : List (Option Vote)
  pub sum : ℤ

pub record VoteSet : Type 0 where
  pub chain_id : Bytes
  pub height : ℤ
  pub round : ℤ
  pub type' : ℕ
  pub val_set : ValidatorSet
  pub votes_bit_array : Option BitArray
  pub votes : List (Option Vote)
  pub sum : ℤ
  pub maj23 : Option BlockId
  pub votes_by_block : List (Bytes × BlockVotes)
  pub peer_maj23s : List (Bytes × BlockId)

-- The errors of `AddVote`: `ErrVoteConflictingVotes` holds the validator and the two votes.
pub data AddError : Type 0 where
  invalid : VoteError → AddError
  conflicting_votes : Validator → Vote → Vote → AddError

-- `NewVoteSet`; `none` is the panic at height 0.
unfoldable pub new_vote_set : Bytes → ℤ → ℤ → ℕ → ValidatorSet → Option VoteSet
new_vote_set chain_id height round type' val_set =
    if eqb_ℤ height (pos 0)
    then none
    else some (record {
      chain_id = chain_id;
      height = height;
      round = round;
      type' = type';
      val_set = val_set;
      votes_bit_array = new_bit_array (size val_set);
      votes = replicate (size val_set) none;
      sum = pos 0;
      maj23 = none;
      votes_by_block = [];
      peer_maj23s = [];
    })

unfoldable pub new_block_votes : Bool → ℕ → BlockVotes
new_block_votes peer_maj23 num_validators = record {
  peer_maj23 = peer_maj23;
  bit_array = new_bit_array num_validators;
  votes = replicate num_validators none;
  sum = pos 0;
}

-- `votes[i]`, where an index out of range panics.
abbrev pub vote_at : List (Option Vote) → ℕ → Result VoteError (Option Vote)
vote_at votes i = or_panic (get_elem? votes i)

-- `blockVotes.addVerifiedVote`
unfoldable pub add_to_block : BlockVotes → Vote → ℤ → Result VoteError BlockVotes
add_to_block bv vote power = do
  let i = pos_part vote.validator_index
  existing ← vote_at bv.votes i
  if is_some existing
      then ok bv
      else ok (record bv {
        bit_array = (set_index bv.bit_array i true).1;
        votes = set bv.votes i (some vote);
        sum = add64 bv.sum power;
      })

-- `blockVotes.getByIndex`; `none` is a nil entry.
unfoldable pub block_vote : Option BlockVotes → ℕ → Result VoteError (Option Vote)
block_vote none i = ok none
block_vote (some bv) i = vote_at bv.votes i

-- `Signature.Equals`: the method of a nil signature panics.
unfoldable pub signature_equals : Signature → Signature → Result VoteError Bool
signature_equals none other = panic
signature_equals (some s) none = ok false
signature_equals (some s) (some other) = ok (bytes_equal s other)

-- The loop that copies the votes of a block into `voteSet.votes`.
unfoldable pub copy_votes : List (Option Vote) → List (Option Vote) → List (Option Vote)
copy_votes [] votes = votes
copy_votes (o ∷ block) [] = []
copy_votes (none ∷ block) (v ∷ votes) = v ∷ copy_votes block votes
copy_votes (some vote ∷ block) (v ∷ votes) = some vote ∷ copy_votes block votes

module _ (encode : PartSetHeader → Bytes) where
  -- Whether a vote is for the block with this key.
  unfoldable pub has_key : Bytes → Option Vote → Bool
  unfolding key
  has_key block_key none = false
  has_key block_key (some vote) = bytes_equal (key encode vote.block_id) block_key

  unfoldable pub get_vote : VoteSet → ℕ → Bytes → Result VoteError (Option Vote)
  unfolding has_key lookup block_vote
  get_vote vs i block_key = do
    existing ← vote_at vs.votes i
    if has_key block_key existing
        then ok existing
        else block_vote (lookup block_key vs.votes_by_block) i

  -- Whether a majority is known, for the block with this key.
  unfoldable pub is_maj23 : VoteSet → Bytes → Bool
  unfolding key
  is_maj23 vs block_key = elim vs.maj23 [
    | none ↦ false
    | some b ↦ bytes_equal (key encode b) block_key
  ]

  -- The first part of `addVerifiedVote`: `.votes` and `.sum`, and the conflicting vote if any.
  unfoldable pub add_primary : VoteSet → Vote → Bytes → ℤ → Result VoteError (Option Vote × VoteSet)
  unfolding is_maj23
  add_primary vs vote block_key power = do
    let i = pos_part vote.validator_index
    existing ← vote_at vs.votes i
    let written = record vs {
      votes = set vs.votes i (some vote);
      votes_bit_array = (set_index vs.votes_bit_array i true).1;
    }
    elim existing [
      | none ↦ ok (none, record written { sum = add64 vs.sum power })
      | some e ↦
          if equals e.block_id vote.block_id
          then panic
          else if is_maj23 vs block_key
          then ok (some e, written)
          else ok (some e, vs)
    ]

  -- The second part: the entry the vote goes to, or none when it is forgotten.
  unfoldable pub tracked_entry : VoteSet → Bytes → Option Vote → Option BlockVotes
  unfolding lookup new_block_votes
  tracked_entry vs block_key conflicting = elim (lookup block_key vs.votes_by_block) [
    | none ↦ if is_some conflicting then none else some (new_block_votes false (size vs.val_set))
    | some bv ↦ if is_some conflicting && not bv.peer_maj23 then none else some bv
  ]

  -- The third part: the vote is counted for its block, and the first quorum makes the majority.
  unfoldable pub count_vote : VoteSet → Vote → Bytes → ℤ → BlockVotes → Result VoteError VoteSet
  unfolding add_to_block insert copy_votes total_voting_power
  count_vote vs vote block_key power bv = do
    let (total, val_set) = total_voting_power vs.val_set
    let quorum = add64 (div64 (mul64 total (pos 2)) 3) (pos 1)
    bv' ← add_to_block bv vote power
    let counted = record vs {
      val_set = val_set;
      votes_by_block = insert block_key bv' vs.votes_by_block;
    }
    if ltb_ℤ bv.sum quorum && leb_ℤ quorum bv'.sum && not (is_some vs.maj23)
        then ok
            (record counted { maj23 = some vote.block_id; votes = copy_votes bv'.votes vs.votes })
        else ok counted

  unfoldable pub add_verified_vote :
      VoteSet → Vote → Bytes → ℤ → Result VoteError ((Bool × Option Vote) × VoteSet)
  unfolding add_primary tracked_entry count_vote
  add_verified_vote vs vote block_key power = do
    primary ← add_primary vs vote block_key power
    let (conflicting, vs1) = primary
    elim (tracked_entry vs1 block_key conflicting) [
      | none ↦ ok ((false, conflicting), vs1)
      | some bv ↦
          ◌>>=◌ {B = (Bool × Option Vote) × VoteSet} (count_vote vs1 vote block_key power bv)
            (λ vs2. ok ((true, conflicting), vs2))
    ]
