-- ===== src/Types/VoteSet/Run.antt =====
-- types/vote_set.go: a `VoteSet` from `NewVoteSet` on, through any `AddVote` and `SetPeerMaj23`.
use mathlib.Core.Option.{some-injective}
use mathlib.Core.Path.{subst}
use de_mars_dmc.Prelude.{
  ℕ, ◌*◌, ◌<◌, ◌≡◌, inl, inr, refl, sym, ◌∙◌, ap, Bool, true, Option, none, some, List, get_elem?,
  length-replicate, Bool-cases, Option-cases, arith,
}
use de_mars_dmc.Prelude.Int.{ℤ, pos, negsuc, pos_part, eqb_ℤ}
use de_mars_dmc.Prelude.Bytes.{Bytes, bytes_equal, bytes_equal_eq}
use de_mars_dmc.Prelude.Result.{Result, ok, err, panic, Result-cases}
use de_mars_dmc.Types.BlockId.{BlockId, PartSetHeader, key, equals}
use de_mars_dmc.Types.Vote.{Vote, Scheme}
use de_mars_dmc.Types.Canonical.{Codec, vote_sign_bytes}
use de_mars_dmc.Types.ValidatorSet.{Validator, ValidatorSet, get_by_index, size}
use de_mars_dmc.Types.ValidatorSet.Power.{IsPowered, HasPowers-at, sum_power, tally}
use de_mars_dmc.Types.VoteSet.{
  VoteSet, BlockVotes, AddError, lookup, insert, new_vote_set, add_verified_vote,
}
use de_mars_dmc.Types.VoteSet.Operations.{
  Refusal, check_vote, add_checked, add_vote, set_peer_maj23,
}
use de_mars_dmc.Types.VoteSet.Checks.{IsVerified, check_vote_ok}
use de_mars_dmc.Types.VoteSet.Majority.{conclude-set}
use de_mars_dmc.Prelude.Maps.{lookup-insert}
use de_mars_dmc.Types.VoteSet.Invariant.{
  Ballot, is_cast, is_cast_for, is_vote_for, cast_for-is_vote_for, IsEntry, IsSound,
}
use de_mars_dmc.Types.VoteSet.Tally.{tally_mono}
use de_mars_dmc.Types.VoteSet.Keeps.{
  add_verified_vote-IsSound, new_block_votes-IsEntry, size-ballot, tally-no_votes, AllGood-no_votes,
}

get_by_index-at :
    (vs : ValidatorSet) (index : ℤ) (address : Bytes) (val : Validator)
    → get_by_index vs index ≡ some (address, val)
    → get_elem? vs.validators (pos_part index) ≡ some val
unfolding get_by_index
get_by_index-at vs (negsuc n) address val h = absurd (cc)
get_by_index-at vs (pos i) address val h = elim (Option-cases (get_elem? vs.validators i)) [
  | inl e ↦ absurd (let h' = rw e at h in cc)
  | inr (v, e) ↦ e ∙ ap some (ap (λ p. p.1) (some-injective _ _ (rw e at h)))
]

module _ (scheme : Scheme) (codec : Codec) (encode : PartSetHeader → Bytes) where
  module _ (ballot : Ballot) where
    verified-is_cast :
        (vs : VoteSet) (vote : Vote) (val : Validator)
        → IsSound scheme codec encode ballot vs
        → IsVerified scheme codec encode vs vote val
        → is_cast scheme codec encode ballot val vote ≡ true
    unfolding is_cast
    verified-is_cast vs vote val h v =
        let height = v.height_eq ∙ h.height_eq in
        let round = v.round_eq ∙ h.round_eq in
        let type_same = v.type_eq ∙ h.type_eq in
        let signed =
          ap (λ c. scheme.verify_bytes val.pub_key (vote_sign_bytes codec c vote) vote.signature)
            (sym h.chain_eq)
          ∙ v.signed in
        ground arith

    add_checked-IsSound :
        (vs vs' : VoteSet) (vote : Vote) (c : Result Refusal Validator) (r : Bool × Option AddError)
        → IsSound scheme codec encode ballot vs
        → check_vote scheme codec encode vs vote ≡ c
        → add_checked scheme codec encode vs vote c ≡ some (r, vs')
        → IsSound scheme codec encode ballot vs'
    unfolding add_checked
    add_checked-IsSound vs vs' vote (err e) r h k q =
        subst (IsSound scheme codec encode ballot) (ap (λ p. p.1) (some-injective _ _ q)) h
    add_checked-IsSound vs vs' vote panic r h k q = absurd (cc)
    add_checked-IsSound vs vs' vote (ok val) r h k q =
        let v = check_vote_ok scheme codec encode vs vote val k in
        let at =
          get_by_index-at vs.val_set vote.validator_index vote.validator_address val v.at_index in
        let at' =
          subst (λ l. get_elem? l (pos_part vote.validator_index) ≡ some val) h.validators_eq at in
        let p =
          HasPowers-at vs.val_set.validators (pos_part vote.validator_index) val h.powered.powers
            at in
        elim (Result-cases
          (add_verified_vote encode vs vote (key encode vote.block_id) val.voting_power)) [
            | inl (((a, c), vs1), e) ↦
                subst (IsSound scheme codec encode ballot)
                  (conclude-set scheme codec encode vs1 vs' val vote a c r
                    (rw (e, add_checked) at q))
                  (add_verified_vote-IsSound scheme codec encode ballot vote val at'
                    (verified-is_cast vs vote val h v) p vs vs1 (a, c) h e)
            | inr (inl (x, e)) ↦ absurd (let q' = rw (e, add_checked) at q in cc)
            | inr (inr e) ↦ absurd (let q' = rw (e, add_checked) at q in cc)
          ]

    add_vote-IsSound :
        (vs vs' : VoteSet) (vote : Option Vote) (r : Bool × Option AddError)
        → IsSound scheme codec encode ballot vs
        → add_vote scheme codec encode vs vote ≡ some (r, vs')
        → IsSound scheme codec encode ballot vs'
    unfolding add_vote
    add_vote-IsSound vs vs' none r h q =
        subst (IsSound scheme codec encode ballot) (ap (λ p. p.1) (some-injective _ _ q)) h
    add_vote-IsSound vs vs' (some vote) r h q =
        add_checked-IsSound vs vs' vote (check_vote scheme codec encode vs vote) r h refl q

    -- An entry of a block that is written keeps all that holds.
    IsSound-entry :
        (vs : VoteSet) (k : Bytes) (bv : BlockVotes) (peers : List (Bytes × BlockId))
        → IsSound scheme codec encode ballot vs
        → IsEntry scheme codec encode ballot vs.votes k bv
        → IsSound scheme codec encode ballot
            (record vs { peer_maj23s = peers; votes_by_block = insert k bv vs.votes_by_block })
    IsSound-entry vs k bv peers h e = record {
      chain_eq = h.chain_eq;
      height_eq = h.height_eq;
      round_eq = h.round_eq;
      type_eq = h.type_eq;
      validators_eq = h.validators_eq;
      powered = h.powered;
      len = h.len;
      sum_eq = h.sum_eq;
      cast = h.cast;
      entries = λ j w l. elim (Bool-cases (bytes_equal j k)) [
        | inl q ↦
            let same =
              some-injective _ _ (sym (rw q at (lookup-insert j k bv vs.votes_by_block)) ∙ l) in
            subst (λ x. IsEntry scheme codec encode ballot vs.votes x w)
              (sym (bytes_equal_eq j k q))
              (subst (IsEntry scheme codec encode ballot vs.votes k) same e)
        | inr q ↦ h.entries j w (sym (rw q at (lookup-insert j k bv vs.votes_by_block)) ∙ l)
      ];
      majority = h.majority;
    }

    set_peer_maj23-IsSound :
        (vs : VoteSet) (peer_id : Bytes) (block_id : BlockId)
        → IsSound scheme codec encode ballot vs
        → IsSound scheme codec encode ballot (set_peer_maj23 encode vs peer_id block_id).1
    unfolding set_peer_maj23
    set_peer_maj23-IsSound vs peer_id block_id h =
        elim (Option-cases (lookup peer_id vs.peer_maj23s)) [
          | inr (b, e) ↦ rw (e, set_peer_maj23) h
          | inl e ↦ elim (Option-cases (lookup (key encode block_id) vs.votes_by_block)) [
            | inl q ↦
                rw (e, q, set_peer_maj23)
                  (IsSound-entry vs (key encode block_id) _ _ h (
                    new_block_votes-IsEntry scheme codec encode ballot true (size vs.val_set)
                      vs.votes (key encode block_id) (size-ballot scheme codec encode ballot vs h)))
            | inr (bv, q) ↦
                let entry = h.entries (key encode block_id) bv q in
                rw (e, q, set_peer_maj23)
                  (IsSound-entry vs (key encode block_id) (record bv { peer_maj23 = true }) _ h
                    (record {
                      len = entry.len;
                      sum_eq = entry.sum_eq;
                      cast = entry.cast;
                      covered = entry.covered;
                    }))
          ]
        ]

  module _ (chain_id : Bytes) (height round : ℤ) (type' : ℕ) (val_set : ValidatorSet) where
    abbrev pub ballot_of : Ballot
    ballot_of = record {
      chain_id = chain_id;
      height = height;
      round = round;
      type' = type';
      validators = val_set.validators;
    }

    -- The states of a set of votes; a call that panics leads nowhere.
    pub data Reached : VoteSet → Type 0 where
      created :
          {vs : VoteSet} → new_vote_set chain_id height round type' val_set ≡ some vs → Reached vs
      voted :
          {vs vs' : VoteSet} (vote : Option Vote) (r : Bool × Option AddError)
          → Reached vs
          → add_vote scheme codec encode vs vote ≡ some (r, vs')
          → Reached vs'
      claimed :
          {vs : VoteSet} (peer_id : Bytes) (block_id : BlockId)
          → Reached vs
          → Reached (set_peer_maj23 encode vs peer_id block_id).1

    new_vote_set-IsSound :
        (vs : VoteSet)
        → IsPowered val_set
        → new_vote_set chain_id height round type' val_set ≡ some vs
        → IsSound scheme codec encode ballot_of vs
    unfolding new_vote_set size lookup
    new_vote_set-IsSound vs p h = elim (Bool-cases (eqb_ℤ height (pos 0))) [
      | inl e ↦ absurd (let h' = rw e at h in cc)
      | inr e ↦
          subst (IsSound scheme codec encode ballot_of) (some-injective _ _ (rw e at h)) (record {
            chain_eq = refl;
            height_eq = refl;
            round_eq = refl;
            type_eq = refl;
            validators_eq = refl;
            powered = p;
            len = length-replicate _ none;
            sum_eq = ap pos (sym (tally-no_votes val_set.validators _));
            cast = AllGood-no_votes (is_cast scheme codec encode ballot_of) val_set.validators _;
            entries = λ k bv l. absurd (cc);
            majority = λ b m. absurd (cc);
          })
    ]

    -- All that holds of a set between two calls.
    pub Reached-IsSound :
        {vs : VoteSet} → IsPowered val_set → Reached vs → IsSound scheme codec encode ballot_of vs
    Reached-IsSound p (created e) = new_vote_set-IsSound _ p e
    Reached-IsSound p (voted {vs = vs} {vs' = vs'} vote r h e) =
        add_vote-IsSound ballot_of vs vs' vote r (Reached-IsSound p h) e
    Reached-IsSound p (claimed {vs = vs} peer_id block_id h) =
        set_peer_maj23-IsSound ballot_of vs peer_id block_id (Reached-IsSound p h)

    -- While no power is negative, twice their sum fits in an int64 and the cached total is unset or
    -- right, in any state of a set from `NewVoteSet` on, whatever `AddVote` and `SetPeerMaj23` are
    -- called with, a block that is the majority has the votes of validators with more than two
    -- thirds of the power, signed by them for the height, round, type and chain of the set, provided
    -- that the set has no vote for another block with the same key.
    pub Reached-HasMajority :
        {vs : VoteSet} (block_id : BlockId)
        → IsPowered val_set
        → Reached vs
        → vs.maj23 ≡ some block_id
        → ((i : ℕ) (vote : Vote)
            → get_elem? vs.votes i ≡ some (some vote)
            → bytes_equal (key encode vote.block_id) (key encode block_id) ≡ true
            → equals block_id vote.block_id ≡ true)
        → 2 * sum_power val_set.validators
          < 3
            * tally (is_vote_for scheme codec encode ballot_of block_id) val_set.validators vs.votes
    Reached-HasMajority {vs = vs} block_id p h m d =
        let more =
          tally_mono (is_cast_for scheme codec encode ballot_of (key encode block_id))
            (is_vote_for scheme codec encode ballot_of block_id) val_set.validators vs.votes
            (λ i v vote at.
              cast_for-is_vote_for scheme codec encode ballot_of block_id v vote (d i vote at)) in
        let has = (Reached-IsSound p h).majority block_id m in omega arith
