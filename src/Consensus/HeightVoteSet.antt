-- ===== src/Consensus/HeightVoteSet.antt =====
-- consensus/types/height_vote_set.go: the vote sets of all rounds of a height.
pub mod Opened
pub mod Catchup
use de_mars_dmc.Prelude.{
  ℕ, zero, suc, ◌-◌, Bool, true, false, ◌&&◌, not, Option, none, some, List, [], ◌∷◌, ◌++◌, length,
  ltb, ◌==◌, is_some, if◌then◌else◌,
}
use de_mars_dmc.Prelude.Int.{ℤ, pos, negsuc, pos_part, ltb_ℤ, eqb_ℤ, ◌+ℤ◌, ◌-ℤ◌}
use de_mars_dmc.Prelude.Bytes.{Bytes}
use de_mars_dmc.Types.BlockId.{BlockId, PartSetHeader, zero_block_id}
use de_mars_dmc.Types.Vote.{
  Vote, Scheme, vote_type_prevote, vote_type_precommit, is_vote_type_valid,
}
use de_mars_dmc.Types.Canonical.{Codec}
use de_mars_dmc.Types.ValidatorSet.{ValidatorSet}
use de_mars_dmc.Types.VoteSet.{VoteSet, AddError, new_vote_set, lookup, insert}
use de_mars_dmc.Types.VoteSet.Operations.{add_vote, set_peer_maj23, two_thirds_majority}

pub record RoundVoteSet : Type 0 where
  pub prevotes : VoteSet
  pub precommits : VoteSet

pub record HeightVoteSet : Type 0 where
  pub chain_id : Bytes
  pub height : ℤ
  pub val_set : ValidatorSet
  pub round : ℤ
  pub round_vote_sets : List (ℤ × RoundVoteSet)
  pub peer_catchup_rounds : List (Bytes × List ℤ)

-- The errors of `AddVote`: `GotVoteFromUnwantedRoundError`, and those of the vote set.
pub data RoundError : Type 0 where
  unwanted_round : RoundError
  of_vote : AddError → RoundError

-- `roundVoteSets[round]`, and a write to it.
unfoldable pub find_round : ℤ → List (ℤ × RoundVoteSet) → Option RoundVoteSet
find_round r [] = none
find_round r ((r', rvs) ∷ rounds) = if eqb_ℤ r r' then some rvs else find_round r rounds

unfoldable pub put_round : ℤ → RoundVoteSet → List (ℤ × RoundVoteSet) → List (ℤ × RoundVoteSet)
put_round r rvs [] = (r, rvs) ∷ []
put_round r rvs ((r', rvs') ∷ rounds) =
    if eqb_ℤ r r' then (r, rvs) ∷ rounds else (r', rvs') ∷ put_round r rvs rounds

infixl 5 ◌>>=◌
abbrev pub ◌>>=◌ : {A B : Type 0} → Option A → (A → Option B) → Option B
none >>= f = none
some a >>= f = f a

-- `addRound`; `none` is a panic here and below.
unfoldable pub add_round : HeightVoteSet → ℤ → Option HeightVoteSet
unfolding find_round put_round new_vote_set
add_round hvs r =
    if is_some (find_round r hvs.round_vote_sets)
    then none
    else (new_vote_set hvs.chain_id hvs.height r vote_type_prevote hvs.val_set >>= λ prevotes.
        new_vote_set hvs.chain_id hvs.height r vote_type_precommit hvs.val_set >>= λ precommits.
        some (record hvs {
          round_vote_sets =
              put_round r (record { prevotes = prevotes; precommits = precommits })
                hvs.round_vote_sets;
        }))

unfoldable pub reset : HeightVoteSet → ℤ → ValidatorSet → Option HeightVoteSet
unfolding add_round
reset hvs height val_set =
    let cleared = record hvs {
      height = height;
      val_set = val_set;
      round_vote_sets = [];
      peer_catchup_rounds = [];
    } in
    add_round cleared (pos 0) >>= λ hvs'. some (record hvs' { round = pos 0 })

unfoldable pub new_height_vote_set : Bytes → ℤ → ValidatorSet → Option HeightVoteSet
unfolding reset
new_height_vote_set chain_id height val_set =
    let fresh : HeightVoteSet = record {
      chain_id = chain_id;
      height = pos 0;
      val_set = val_set;
      round = pos 0;
      round_vote_sets = [];
      peer_catchup_rounds = [];
    } in
    reset fresh height val_set

-- The loop of `SetRound`, from round `r` on, `n` times.
unfoldable pub add_rounds : ℕ → ℤ → HeightVoteSet → Option HeightVoteSet
unfolding add_round
add_rounds zero r hvs = some hvs
add_rounds (suc n) r hvs =
    (if is_some (find_round r hvs.round_vote_sets) then some hvs else add_round hvs r)
    >>= add_rounds n (r +ℤ pos 1)

unfoldable pub set_round : HeightVoteSet → ℤ → Option HeightVoteSet
unfolding add_rounds ◌+ℤ◌ ◌-ℤ◌
set_round hvs r =
    if not (eqb_ℤ hvs.round (pos 0)) && ltb_ℤ r (hvs.round +ℤ pos 1)
    then none
    else (add_rounds (pos_part (r -ℤ hvs.round)) (hvs.round +ℤ pos 1) hvs >>= λ hvs'.
        some (record hvs' { round = r }))

-- `getVoteSet`, nil for a round that is not there.
unfoldable pub get_vote_set : HeightVoteSet → ℤ → ℕ → Option (Option VoteSet)
unfolding find_round
get_vote_set hvs r type' = elim (find_round r hvs.round_vote_sets) [
  | none ↦ some none
  | some rvs ↦
      if type' == vote_type_prevote
      then some (some rvs.prevotes)
      else if type' == vote_type_precommit
      then some (some rvs.precommits)
      else none
]

-- The set that `getVoteSet` returned after a call has changed it.
unfoldable pub put_vote_set : HeightVoteSet → ℤ → ℕ → VoteSet → HeightVoteSet
unfolding find_round put_round
put_vote_set hvs r type' vs = elim (find_round r hvs.round_vote_sets) [
  | none ↦ hvs
  | some rvs ↦ record hvs {
    round_vote_sets =
        put_round r
          (if type' == vote_type_prevote
            then record rvs { prevotes = vs }
            else record rvs { precommits = vs })
          hvs.round_vote_sets;
  }
]

-- The majority of the prevotes of a round.
unfoldable pub majority_at : HeightVoteSet → ℕ → BlockId × Bool
unfolding get_vote_set two_thirds_majority
majority_at hvs r = elim (get_vote_set hvs (pos r) vote_type_prevote) [
  | none ↦ (zero_block_id, false)
  | some rvs ↦ two_thirds_majority rvs
]

-- `POLInfo`, from round `r` down.
unfoldable pub pol_from : HeightVoteSet → ℕ → ℤ × BlockId
unfolding majority_at
pol_from hvs zero =
    let (block_id, found) = majority_at hvs zero in
    if found then (pos zero, block_id) else (negsuc 0, zero_block_id)
pol_from hvs (suc r) =
    let rest = pol_from hvs r in
    let (block_id, found) = majority_at hvs (suc r) in
    if found then (pos (suc r), block_id) else rest

unfoldable pub pol_info : HeightVoteSet → ℤ × BlockId
unfolding pol_from
pol_info hvs = elim hvs.round [ negsuc n ↦ (negsuc 0, zero_block_id) | pos r ↦ pol_from hvs r ]

-- `peerCatchupRounds[peerID]`: a missing list is an empty one.
abbrev pub rounds_of : Option (List ℤ) → List ℤ
rounds_of none = []
rounds_of (some rounds) = rounds

unfoldable pub catchup_rounds : HeightVoteSet → Bytes → List ℤ
unfolding lookup
catchup_rounds hvs peer_id = rounds_of (lookup peer_id hvs.peer_catchup_rounds)

module _ (scheme : Scheme) (codec : Codec) (encode : PartSetHeader → Bytes) where
  abbrev pub round_error : Option AddError → Option RoundError
  round_error none = none
  round_error (some e) = some (of_vote e)

  -- `voteSet.AddVote(vote)`
  unfoldable pub add_to_set :
      HeightVoteSet → Vote → VoteSet → Option ((Bool × Option RoundError) × HeightVoteSet)
  unfolding put_vote_set add_vote
  add_to_set hvs vote vs = add_vote scheme codec encode vs (some vote) >>= λ ((added, e), vs').
      some ((added, round_error e), put_vote_set hvs vote.round vote.type' vs')

  -- The branch of `AddVote` for a round that is not there.
  unfoldable pub add_catchup :
      HeightVoteSet → Vote → Bytes → Option ((Bool × Option RoundError) × HeightVoteSet)
  unfolding catchup_rounds add_round get_vote_set insert add_to_set
  add_catchup hvs vote peer_id =
      let rounds = catchup_rounds hvs peer_id in
      if not (ltb (length rounds) 2)
      then some ((false, some unwanted_round), hvs)
      else (add_round hvs vote.round >>= λ hvs1.
          get_vote_set hvs1 vote.round vote.type' >>= λ found. found >>= λ vs.
          add_to_set
            (record hvs1 {
              peer_catchup_rounds =
                  insert peer_id (rounds ++ (vote.round ∷ [])) hvs1.peer_catchup_rounds;
            })
            vote vs)

  unfoldable pub add_round_vote :
      HeightVoteSet → Vote → Bytes → Option ((Bool × Option RoundError) × HeightVoteSet)
  unfolding is_vote_type_valid get_vote_set add_catchup add_to_set
  add_round_vote hvs vote peer_id =
      if not (is_vote_type_valid vote.type')
      then some ((false, none), hvs)
      else (get_vote_set hvs vote.round vote.type' >>= λ found. elim found [
        | none ↦ add_catchup hvs vote peer_id
        | some vs ↦ add_to_set hvs vote vs
      ])

-- `SetPeerMaj23`, with whether there was no error; `peer_id` is the peer's id in
-- hexadecimal.
unfoldable pub set_round_peer_maj23 :
    (PartSetHeader → Bytes)
    → HeightVoteSet
    → ℤ
    → ℕ
    → Bytes
    → BlockId
    → Option (Bool × HeightVoteSet)
unfolding is_vote_type_valid get_vote_set put_vote_set set_peer_maj23
set_round_peer_maj23 encode hvs r type' peer_id block_id =
    if not (is_vote_type_valid type')
    then some (false, hvs)
    else (get_vote_set hvs r type' >>= λ found. elim found [
      | none ↦ some (true, hvs)
      | some vs ↦
          let (fine, vs') = set_peer_maj23 encode vs peer_id block_id in
          some (fine, put_vote_set hvs r type' vs')
    ])
