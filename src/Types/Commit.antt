-- ===== src/Types/Commit.antt =====
-- types/block.go: `Commit`, the precommits that committed a block, by the index of the validator.
use de_mars_dmc.Prelude.{
  ℕ, Bool, not, Option, none, some, List, [], ◌∷◌, length, ◌==◌, is_some, get_elem?, if◌then◌else◌,
}
use de_mars_dmc.Prelude.Int.{ℤ, pos, eqb_ℤ}
use de_mars_dmc.Prelude.Result.{Result, or_panic}
use de_mars_dmc.Types.BlockId.{BlockId, zero_block_id, is_zero}
use de_mars_dmc.Types.Vote.{Vote, vote_type_precommit}

-- `first` is the cache `firstPrecommit`.
pub record Commit : Type 0 where
  pub block_id : BlockId
  pub precommits : List (Option Vote)
  pub first : Option Vote

pub data CommitError : Type 0 where
  nil_block no_precommits not_precommit wrong_set_size wrong_height wrong_round : CommitError
  invalid_signature insufficient_power : CommitError

-- `&Vote{Type: VoteTypePrecommit}`
abbrev pub empty_precommit : Vote
empty_precommit = record {
  validator_address = [];
  validator_index = pos 0;
  height = pos 0;
  round = pos 0;
  timestamp = pos 0;
  type' = vote_type_precommit;
  block_id = zero_block_id;
  signature = none;
}

unfoldable pub find_precommit : List (Option Vote) → Option Vote
find_precommit [] = none
find_precommit (none ∷ precommits) = find_precommit precommits
find_precommit (some precommit ∷ precommits) = some precommit

-- `FirstPrecommit`, with the commit and its cache after the call.
unfoldable pub first_precommit : Commit → Option Vote × Commit
unfolding find_precommit
first_precommit commit =
    if length commit.precommits == 0
    then (none, commit)
    else if is_some commit.first
    then (commit.first, commit)
    else if is_some (find_precommit commit.precommits)
    then (
      find_precommit commit.precommits,
      record commit { first = find_precommit commit.precommits },
    )
    else (some empty_precommit, commit)

abbrev pub height_of : Option Vote → ℤ
height_of none = pos 0
height_of (some vote) = vote.height

abbrev pub round_of : Option Vote → ℤ
round_of none = pos 0
round_of (some vote) = vote.round

-- `Height` and `Round`: on a commit with precommits `FirstPrecommit` is not nil.
unfoldable pub commit_height : Commit → ℤ × Commit
unfolding first_precommit
commit_height commit =
    if length commit.precommits == 0
    then (pos 0, commit)
    else (let (first, commit') = first_precommit commit in (height_of first, commit'))

unfoldable pub commit_round : Commit → ℤ × Commit
unfolding first_precommit
commit_round commit =
    if length commit.precommits == 0
    then (pos 0, commit)
    else (let (first, commit') = first_precommit commit in (round_of first, commit'))

unfoldable pub commit_size : Commit → ℕ
commit_size commit = length commit.precommits

unfoldable pub commit_get_by_index : Commit → ℕ → Result CommitError (Option Vote)
commit_get_by_index commit index = or_panic (get_elem? commit.precommits index)

unfoldable pub is_commit : Commit → Bool
is_commit commit = not (length commit.precommits == 0)

-- The loop of `ValidateBasic`.
unfoldable pub validate_precommits : ℤ → ℤ → List (Option Vote) → Option CommitError
validate_precommits height round [] = none
validate_precommits height round (none ∷ precommits) = validate_precommits height round precommits
validate_precommits height round (some precommit ∷ precommits) =
    if not (precommit.type' == vote_type_precommit)
    then some not_precommit
    else if not (eqb_ℤ precommit.height height)
    then some wrong_height
    else if not (eqb_ℤ precommit.round round)
    then some wrong_round
    else validate_precommits height round precommits

unfoldable pub validate_basic : Commit → Option CommitError
unfolding is_zero commit_height commit_round validate_precommits
validate_basic commit =
    if is_zero commit.block_id
    then some nil_block
    else if length commit.precommits == 0
    then some no_precommits
    else (let (height, commit1) = commit_height commit in
        let (round, commit2) = commit_round commit1 in
        validate_precommits height round commit2.precommits)
