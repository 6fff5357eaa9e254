-- ===== src/Types/ValidatorSet.antt =====
-- types/validator.go, types/validator_set.go: the validators of a height, sorted by address.
pub mod Search
pub mod Power
pub mod Verify
pub mod Quorum
use Prim.Native.Nat.{Ordering}
use mathlib.Core.Option
use de_mars_dmc.Prelude.{
  ℕ, zero, suc, ◌+◌, ◌/◌, Bool, true, false, ◌&&◌, ◌||◌, not, Option, none, some, List, [], ◌∷◌,
  ◌++◌, length, take, drop, set, get_elem?, ltb, leb, ◌==◌, is_some, if◌then◌else◌,
}
use de_mars_dmc.Prelude.Int.{ℤ, pos, negsuc, pos_part, ltb_ℤ, eqb_ℤ}
use de_mars_dmc.Prelude.Int64.{add64, mul64, div64}
use de_mars_dmc.Prelude.Bytes.{Bytes, bytes_equal, bytes_compare, bytes_leb, bytes_ltb}
use de_mars_dmc.Prelude.Result.{Result, ok, err, panic, or_panic, ◌>>=◌}
use de_mars_dmc.Types.BlockId.{BlockId, equals}
use de_mars_dmc.Types.Vote.{Vote, Scheme, vote_type_precommit}
use de_mars_dmc.Types.Canonical.{Codec, vote_sign_bytes}
use de_mars_dmc.Types.SafeArith.{safe_add_clip}
use de_mars_dmc.Types.Commit.{
  Commit, CommitError, wrong_set_size, wrong_height, wrong_round, not_precommit, invalid_signature,
  insufficient_power, commit_height, commit_round,
}

pub record Validator : Type 0 where
  pub address : Bytes
  pub pub_key : Bytes
  pub voting_power : ℤ
  pub accum : ℤ

unfoldable pub new_validator : Scheme → Bytes → ℤ → Validator
new_validator scheme pub_key voting_power = record {
  address = scheme.address pub_key;
  pub_key = pub_key;
  voting_power = voting_power;
  accum = pos 0;
}

-- `CompareAccum` of a validator or nil; the outcome `none` is the panic on equal addresses.
unfoldable pub compare_accum : Option Validator → Validator → Option Validator
compare_accum none other = some other
compare_accum (some v) other =
    if ltb_ℤ other.accum v.accum
    then some v
    else if ltb_ℤ v.accum other.accum
    then some other
    else elim (bytes_compare v.address other.address) [
      | Ordering.lt ↦ some v
      | Ordering.gt ↦ some other
      | Ordering.eq ↦ none
    ]

pub record ValidatorSet : Type 0 where
  pub validators : List Validator
  pub proposer : Option Validator
  pub total_voting_power : ℤ

-- `sort.Search` on the range from `i` to `j`: the loop halves it, so `j - i` is enough fuel.
unfoldable pub search_loop : (ℕ → Bool) → ℕ → ℕ → ℕ → ℕ
search_loop f zero i j = i
search_loop f (suc fuel) i j =
    if ltb i j
    then if f ((i + j) / 2)
      then search_loop f fuel i ((i + j) / 2)
      else search_loop f fuel (suc ((i + j) / 2)) j
    else i

unfoldable pub search : ℕ → (ℕ → Bool) → ℕ
unfolding search_loop
search n f = search_loop f n 0 n

-- The test that every search passes to `sort.Search`.
unfoldable pub at_or_after : List Validator → Bytes → ℕ → Bool
at_or_after validators address i = elim (get_elem? validators i) [
  | none ↦ false
  | some v ↦ bytes_leb address v.address
]

unfoldable pub address_index : List Validator → Bytes → ℕ
unfolding search
address_index validators address = search (length validators) (at_or_after validators address)

unfoldable pub address_at : List Validator → ℕ → Bytes → Bool
address_at validators i address = elim (get_elem? validators i) [
  | none ↦ false
  | some v ↦ bytes_equal v.address address
]

unfoldable pub has_address : ValidatorSet → Bytes → Bool
unfolding address_index address_at
has_address vs address =
    let idx = address_index vs.validators address in
    ltb idx (length vs.validators) && address_at vs.validators idx address

-- `GetByAddress`, at -1 and nil when there is none.
unfoldable pub get_by_address : ValidatorSet → Bytes → ℤ × Option Validator
unfolding address_index address_at
get_by_address vs address =
    let idx = address_index vs.validators address in
    if ltb idx (length vs.validators) && address_at vs.validators idx address
    then (pos idx, get_elem? vs.validators idx)
    else (negsuc 0, none)

unfoldable pub get_by_index : ValidatorSet → ℤ → Option (Bytes × Validator)
get_by_index vs (negsuc n) = none
get_by_index vs (pos index) = Option.map (λ val. (val.address, val)) (get_elem? vs.validators index)

unfoldable pub size : ValidatorSet → ℕ
size vs = length vs.validators

unfoldable pub add_powers : List Validator → ℤ → ℤ
add_powers [] total = total
add_powers (val ∷ vals) total = add_powers vals (safe_add_clip total val.voting_power)

-- `TotalVotingPower`, with the set and its cache after the call.
unfoldable pub total_voting_power : ValidatorSet → ℤ × ValidatorSet
unfolding add_powers
total_voting_power vs =
    let total = add_powers vs.validators vs.total_voting_power in
    if eqb_ℤ vs.total_voting_power (pos 0)
    then (total, record vs { total_voting_power = total })
    else (vs.total_voting_power, vs)

unfoldable pub find_proposer : Option Validator → List Validator → Option Validator
find_proposer proposer [] = proposer
find_proposer none (val ∷ vals) = find_proposer (some val) vals
find_proposer (some proposer) (val ∷ vals) =
    find_proposer (some (if bytes_ltb val.address proposer.address then val else proposer)) vals

unfoldable pub get_proposer : ValidatorSet → Option Validator × ValidatorSet
unfolding find_proposer
get_proposer vs =
    if length vs.validators == 0
    then (none, vs)
    else if is_some vs.proposer
    then (vs.proposer, vs)
    else (let proposer = find_proposer none vs.validators in
        (proposer, record vs { proposer = proposer }))

-- The caches that `Add`, `Update` and `Remove` invalidate.
unfoldable pub with_validators : List Validator → ValidatorSet
with_validators validators = record {
  validators = validators;
  proposer = none;
  total_voting_power = pos 0;
}

unfoldable pub add : ValidatorSet → Validator → Bool × ValidatorSet
unfolding address_index address_at with_validators
add vs val =
    let idx = address_index vs.validators val.address in
    if leb (length vs.validators) idx
    then (true, with_validators (vs.validators ++ (val ∷ [])))
    else if address_at vs.validators idx val.address
    then (false, vs)
    else (true, with_validators (take idx vs.validators ++ (val ∷ drop idx vs.validators)))

unfoldable pub update : ValidatorSet → Validator → Bool × ValidatorSet
unfolding get_by_address with_validators
update vs val =
    let (index, same_val) = get_by_address vs val.address in
    if is_some same_val
    then (true, with_validators (set vs.validators (pos_part index) val))
    else (false, vs)

unfoldable pub remove : ValidatorSet → Bytes → (Option Validator × Bool) × ValidatorSet
unfolding address_index address_at with_validators
remove vs address =
    let idx = address_index vs.validators address in
    if leb (length vs.validators) idx || not (address_at vs.validators idx address)
    then ((none, false), vs)
    else (
      (get_elem? vs.validators idx, true),
      with_validators (take idx vs.validators ++ drop (suc idx) vs.validators),
    )

-- What the last test of `VerifyCommit` makes of the tally.
unfoldable pub check_tally : ValidatorSet → ℤ → Result CommitError ValidatorSet
unfolding total_voting_power
check_tally vs tallied =
    let (total, vs') = total_voting_power vs in
    if ltb_ℤ (div64 (mul64 total (pos 2)) 3) tallied then ok vs' else err insufficient_power

module _ (scheme : Scheme) (codec : Codec) (chain_id : Bytes) where
  -- The body of the loop of `VerifyCommit`: the tally after a precommit that is not nil.
  unfoldable pub verify_precommit :
      ValidatorSet → BlockId → ℤ → ℤ → Vote → ℕ → ℤ → Result CommitError ℤ
  verify_precommit vs block_id height round precommit idx tallied =
      if not (eqb_ℤ precommit.height height)
      then err wrong_height
      else if not (eqb_ℤ precommit.round round)
      then err wrong_round
      else if not (precommit.type' == vote_type_precommit)
      then err not_precommit
      else elim (get_by_index vs (pos idx)) [
        | none ↦ panic
        | some (address, val) ↦
            if not (
              scheme.verify_bytes val.pub_key (vote_sign_bytes codec chain_id precommit)
                precommit.signature)
            then err invalid_signature
            else if not (equals block_id precommit.block_id)
            then ok tallied
            else ok (add64 tallied val.voting_power)
      ]

  -- The loop, from the index of the first precommit of the list.
  unfoldable pub verify_precommits :
      ValidatorSet → BlockId → ℤ → ℤ → List (Option Vote) → ℕ → ℤ → Result CommitError ℤ
  unfolding verify_precommit
  verify_precommits vs block_id height round [] idx tallied = ok tallied
  verify_precommits vs block_id height round (none ∷ precommits) idx tallied =
      verify_precommits vs block_id height round precommits (suc idx) tallied
  verify_precommits vs block_id height round (some precommit ∷ precommits) idx tallied =
      verify_precommit vs block_id height round precommit idx tallied
      >>= verify_precommits vs block_id height round precommits (suc idx)

  unfoldable pub verify_commit :
      ValidatorSet → BlockId → ℤ → Commit → Result CommitError ValidatorSet
  unfolding verify_precommits check_tally
  verify_commit vs block_id height commit =
      if not (size vs == length commit.precommits)
      then err wrong_set_size
      else (let (commit_h, commit1) = commit_height commit in
          let (round, commit2) = commit_round commit1 in
          if not (eqb_ℤ height commit_h)
          then err wrong_height
          else (verify_precommits vs block_id height round commit2.precommits 0 (pos 0)
              >>= check_tally vs))
