-- ===== src/Types/VoteSet/Operations.antt =====
-- types/vote_set.go: what a `VoteSet` offers to its users, the mutex aside.
use de_mars_dmc.Prelude.{
  ℕ, Bool, true, false, ◌||◌, not, Option, none, some, length, ◌==◌, is_some, if◌then◌else◌,
}
use de_mars_dmc.Prelude.Int.{ℤ, pos, negsuc, pos_part, ltb_ℤ, eqb_ℤ}
use de_mars_dmc.Prelude.Int64.{mul64, div64}
use de_mars_dmc.Prelude.Bytes.{Bytes, bytes_equal}
use de_mars_dmc.Prelude.Result.{Result, ok, err, panic, ◌>>=◌}
use de_mars_dmc.Common.BitArray.{BitArray}
use de_mars_dmc.Types.BlockId.{BlockId, PartSetHeader, equals, key, zero_block_id}
use de_mars_dmc.Types.Vote.{
  Vote, Scheme, VoteError, unexpected_step, invalid_validator_index, invalid_validator_address,
  invalid_signature, non_deterministic_signature, vote_nil, vote_type_precommit,
}
use de_mars_dmc.Types.Canonical.{Codec, vote_sign_bytes}
use de_mars_dmc.Types.Commit.{Commit}
use de_mars_dmc.Types.ValidatorSet.{
  Validator, get_by_index, get_by_address, size, total_voting_power,
}
use de_mars_dmc.Types.VoteSet.{
  VoteSet, AddError, invalid, conflicting_votes, lookup, insert, new_block_votes, vote_at,
  signature_equals, get_vote, add_verified_vote,
}

-- What an operation says of a vote: a duplicate is neither added nor an error.
pub data Refusal : Type 0 where
  duplicate : Refusal
  refused : VoteError → Refusal

-- `Vote.Verify`
unfoldable pub verify_vote : Scheme → Codec → Vote → Bytes → Bytes → Option VoteError
verify_vote scheme codec vote chain_id pub_key =
    if not (bytes_equal (scheme.address pub_key) vote.validator_address)
    then some invalid_validator_address
    else if not (scheme.verify_bytes pub_key (vote_sign_bytes codec chain_id vote) vote.signature)
    then some invalid_signature
    else none

module _ (scheme : Scheme) (codec : Codec) (encode : PartSetHeader → Bytes) where
  abbrev pub verify_result : Option VoteError → Result Refusal Unit
  verify_result none = ok tt
  verify_result (some e) = err (refused e)

  abbrev pub same_result : Result VoteError Bool → Result Refusal Unit
  same_result (ok true) = err duplicate
  same_result (ok false) = err (refused non_deterministic_signature)
  same_result (err e) = err (refused e)
  same_result panic = panic

  -- Whether the vote is known already, and its signature.
  unfoldable pub check_signed : VoteSet → Vote → Bytes → Option Vote → Result Refusal Unit
  unfolding verify_vote signature_equals
  check_signed vs vote pub_key none =
      verify_result (verify_vote scheme codec vote vs.chain_id pub_key)
  check_signed vs vote pub_key (some existing) =
      same_result (signature_equals existing.signature vote.signature)

  abbrev pub known_vote : Result VoteError (Option Vote) → Result Refusal (Option Vote)
  known_vote (ok existing) = ok existing
  known_vote (err e) = err (refused e)
  known_vote panic = panic

  -- The checks against the validator that the set has at the vote's index.
  unfoldable pub check_validator :
      VoteSet → Vote → Option (Bytes × Validator) → Result Refusal Validator
  unfolding get_vote key check_signed
  check_validator vs vote none = err (refused invalid_validator_index)
  check_validator vs vote (some (lookup_addr, val)) =
      if not (bytes_equal vote.validator_address lookup_addr)
      then err (refused invalid_validator_address)
      else (known_vote
            (get_vote encode vs (pos_part vote.validator_index) (key encode vote.block_id))
          >>= λ existing. check_signed vs vote val.pub_key existing >>= λ _. ok val)

  -- The checks of `addVote` before a vote is added: the validator, or a refusal.
  unfoldable pub check_vote : VoteSet → Vote → Result Refusal Validator
  unfolding check_validator
  check_vote vs vote =
      if ltb_ℤ vote.validator_index (pos 0)
      then err (refused invalid_validator_index)
      else if length vote.validator_address == 0
      then err (refused invalid_validator_address)
      else if not (eqb_ℤ vote.height vs.height)
          || not (eqb_ℤ vote.round vs.round)
          || not (vote.type' == vs.type')
      then err (refused unexpected_step)
      else check_validator vs vote (get_by_index vs.val_set vote.validator_index)

  abbrev pub refusal_error : Refusal → Option AddError
  refusal_error duplicate = none
  refusal_error (refused e) = some (invalid e)

  -- The end of `addVote`: a vote that is not added without a conflict panics.
  unfoldable pub conclude :
      Validator
      → Vote
      → (Bool × Option Vote) × VoteSet
      → Option ((Bool × Option AddError) × VoteSet)
  conclude val vote ((added, some conflicting), vs) =
      some ((added, some (conflicting_votes val conflicting vote)), vs)
  conclude val vote ((true, none), vs) = some ((true, none), vs)
  conclude val vote ((false, none), vs) = none

  -- Once a vote is checked. No step after that returns an error.
  unfoldable pub add_checked :
      VoteSet → Vote → Result Refusal Validator → Option ((Bool × Option AddError) × VoteSet)
  unfolding conclude key add_verified_vote
  add_checked vs vote (err r) = some ((false, refusal_error r), vs)
  add_checked vs vote panic = none
  add_checked vs vote (ok val) =
      elim (add_verified_vote encode vs vote (key encode vote.block_id) val.voting_power) [
        | ok r ↦ conclude val vote r
        | err e ↦ none
        | panic ↦ none
      ]

  -- `AddVote` on a set that is not nil; `none` is a panic.
  unfoldable pub add_vote : VoteSet → Option Vote → Option ((Bool × Option AddError) × VoteSet)
  unfolding check_vote add_checked
  add_vote vs none = some ((false, some (invalid vote_nil)), vs)
  add_vote vs (some vote) = add_checked vs vote (check_vote vs vote)

module _ (encode : PartSetHeader → Bytes) where
  -- `SetPeerMaj23`, with whether there was no error.
  unfoldable pub set_peer_maj23 : VoteSet → Bytes → BlockId → Bool × VoteSet
  unfolding key lookup insert new_block_votes equals
  set_peer_maj23 vs peer_id block_id =
      let block_key = key encode block_id in
      elim (lookup peer_id vs.peer_maj23s) [
        | some existing ↦ (equals existing block_id, vs)
        | none ↦ (
          true,
          record vs {
            peer_maj23s = insert peer_id block_id vs.peer_maj23s;
            votes_by_block = elim (lookup block_key vs.votes_by_block) [
              | none ↦ insert block_key (new_block_votes true (size vs.val_set)) vs.votes_by_block
              | some bv ↦ insert block_key (record bv { peer_maj23 = true }) vs.votes_by_block
            ];
          },
        )
      ]

  unfoldable pub bit_array_by_block_id : VoteSet → BlockId → Option BitArray
  unfolding key lookup
  bit_array_by_block_id vs block_id = elim (lookup (key encode block_id) vs.votes_by_block) [
    | none ↦ none
    | some bv ↦ bv.bit_array
  ]

-- The queries, on a nil set (`none`) too; the cache of `TotalVotingPower` that two of them fill is left
-- out.
unfoldable pub vote_set_height : Option VoteSet → ℤ
vote_set_height none = pos 0
vote_set_height (some vs) = vs.height

unfoldable pub vote_set_round : Option VoteSet → ℤ
vote_set_round none = negsuc 0
vote_set_round (some vs) = vs.round

unfoldable pub vote_set_type : Option VoteSet → ℕ
vote_set_type none = 0
vote_set_type (some vs) = vs.type'

unfoldable pub vote_set_size : Option VoteSet → ℕ
vote_set_size none = 0
vote_set_size (some vs) = size vs.val_set

unfoldable pub vote_by_index : VoteSet → ℤ → Result VoteError (Option Vote)
vote_by_index vs (pos i) = vote_at vs.votes i
vote_by_index vs (negsuc n) = panic

unfoldable pub vote_by_address : VoteSet → Bytes → Result VoteError (Option Vote)
unfolding get_by_address vote_by_index
vote_by_address vs address =
    let (index, val) = get_by_address vs.val_set address in
    if is_some val then vote_by_index vs index else panic

unfoldable pub has_two_thirds_majority : Option VoteSet → Bool
has_two_thirds_majority none = false
has_two_thirds_majority (some vs) = is_some vs.maj23

unfoldable pub is_commit : Option VoteSet → Bool
is_commit none = false
is_commit (some vs) = if not (vs.type' == vote_type_precommit) then false else is_some vs.maj23

unfoldable pub has_two_thirds_any : Option VoteSet → Bool
unfolding total_voting_power
has_two_thirds_any none = false
has_two_thirds_any (some vs) =
    ltb_ℤ (div64 (mul64 (total_voting_power vs.val_set).0 (pos 2)) 3) vs.sum

unfoldable pub has_all : VoteSet → Bool
unfolding total_voting_power
has_all vs = eqb_ℤ vs.sum (total_voting_power vs.val_set).0

unfoldable pub two_thirds_majority : Option VoteSet → BlockId × Bool
two_thirds_majority none = (zero_block_id, false)
two_thirds_majority (some vs) = elim vs.maj23 [
  | none ↦ (zero_block_id, false)
  | some block_id ↦ (block_id, true)
]

-- `MakeCommit`; `none` is a panic.
unfoldable pub make_commit : VoteSet → Option Commit
make_commit vs = if not (vs.type' == vote_type_precommit) then none else elim vs.maj23 [
  | none ↦ none
  | some block_id ↦ some (record { block_id = block_id; precommits = vs.votes; first = none })
]
