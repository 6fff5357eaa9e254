-- ===== src/Types/VoteSet/Keeps.antt =====
-- types/vote_set.go: `AddVote` and `SetPeerMaj23` keep what holds of a set, and `NewVoteSet` sets it
-- up.
use mathlib.Core.Option.{some-injective}
use mathlib.Core.Path.{subst}
use de_mars_dmc.Prelude.{
  ℕ, zero, suc, ◌*◌, ◌≤◌, ◌≡◌, inl, inr, refl, sym, ◌∙◌, ap, Bool, true, false, ◌&&◌, not, Option,
  none, some, List, [], ◌∷◌, length, replicate, length-replicate, get_elem?, is_some, Bool-cases,
  Option-cases, if◌then◌else◌,
}
use de_mars_dmc.Prelude.Int.{pos, pos_part, ltb_ℤ, leb_ℤ}
use de_mars_dmc.Prelude.Int64.{max_int64, add64, mul64, div64}
use de_mars_dmc.Prelude.Bytes.{Bytes}
use de_mars_dmc.Prelude.Result.{ok, ok-injective, bind-ok}
use de_mars_dmc.Types.BlockId.{PartSetHeader, key}
use de_mars_dmc.Types.Vote.{Vote, Scheme}
use de_mars_dmc.Types.Canonical.{Codec}
use de_mars_dmc.Types.ValidatorSet.{Validator, total_voting_power, size}
use de_mars_dmc.Types.ValidatorSet.Power.{
  power, sum_power, tally, total_voting_power-sum, validators-total_voting_power,
  total_voting_power-IsPowered,
}
use de_mars_dmc.Types.VoteSet.{
  VoteSet, BlockVotes, lookup, add_to_block, add_primary, tracked_entry, new_block_votes,
  count_vote, add_verified_vote,
}
use de_mars_dmc.Types.VoteSet.Tally.{any, AllGood, Covers}
use de_mars_dmc.Types.VoteSet.Invariant.{Ballot, is_cast, is_cast_for, IsEntry, IsSound}
use de_mars_dmc.Types.VoteSet.Sound.{IsPrimary, add_primary-IsPrimary, add_to_block-IsEntry}
use de_mars_dmc.Types.VoteSet.Count.{quorum_reached, conclude-IsSound}

-- No votes yet.
pub tally-no_votes : (vals : List Validator) (n : ℕ) → tally any vals (replicate n none) ≡ 0
unfolding tally
tally-no_votes [] n = refl
tally-no_votes (v ∷ vals) zero = refl
tally-no_votes (v ∷ vals) (suc n) = tally-no_votes vals n

pub AllGood-no_votes :
    (good : Validator → Vote → Bool) (vals : List Validator) (n : ℕ)
    → AllGood good vals (replicate n none)
unfolding AllGood
AllGood-no_votes good [] n = tt
AllGood-no_votes good (v ∷ vals) zero = tt
AllGood-no_votes good (v ∷ vals) (suc n) = AllGood-no_votes good vals n

Covers-no_votes : (n : ℕ) (votes : List (Option Vote)) → Covers (replicate n none) votes
unfolding Covers
Covers-no_votes zero votes = tt
Covers-no_votes (suc n) [] = tt
Covers-no_votes (suc n) (v ∷ votes) = Covers-no_votes n votes

module _ (scheme : Scheme) (codec : Codec) (encode : PartSetHeader → Bytes) (ballot : Ballot) where
  pub new_block_votes-IsEntry :
      (b : Bool) (n : ℕ) (votes : List (Option Vote)) (k : Bytes)
      → n ≡ length ballot.validators
      → IsEntry scheme codec encode ballot votes k (new_block_votes b n)
  unfolding new_block_votes
  new_block_votes-IsEntry b n votes k e = record {
    len = length-replicate n none ∙ e;
    sum_eq = ap pos (sym (tally-no_votes ballot.validators n));
    cast = AllGood-no_votes (is_cast_for scheme codec encode ballot k) ballot.validators n;
    covered = Covers-no_votes n votes;
  }

  pub size-ballot :
      (vs : VoteSet)
      → IsSound scheme codec encode ballot vs
      → size vs.val_set ≡ length ballot.validators
  unfolding size
  size-ballot vs h = ap (λ l. length l) h.validators_eq

  tracked_of-IsEntry :
      (vs : VoteSet) (k : Bytes) (c : Bool) (o : Option BlockVotes) (bv : BlockVotes)
      → IsSound scheme codec encode ballot vs
      → lookup k vs.votes_by_block ≡ o
      → ◌≡◌ {A = Option BlockVotes}
          (elim o [
            | none ↦ if c then none else some (new_block_votes false (size vs.val_set))
            | some e ↦ if c && not e.peer_maj23 then none else some e
          ])
          (some bv)
      → IsEntry scheme codec encode ballot vs.votes k bv
  tracked_of-IsEntry vs k true none bv h l r = absurd (cc)
  tracked_of-IsEntry vs k false none bv h l r =
      subst (IsEntry scheme codec encode ballot vs.votes k) (some-injective _ _ r)
        (new_block_votes-IsEntry false (size vs.val_set) vs.votes k (size-ballot vs h))
  tracked_of-IsEntry vs k c (some e) bv h l r = elim (Bool-cases (c && not e.peer_maj23)) [
    | inl q ↦ absurd (let r' = rw q at r in cc)
    | inr q ↦ h.entries k bv (l ∙ rw q at r)
  ]

  tracked_entry-IsEntry :
      (vs : VoteSet) (k : Bytes) (c : Option Vote) (bv : BlockVotes)
      → IsSound scheme codec encode ballot vs
      → tracked_entry encode vs k c ≡ some bv
      → IsEntry scheme codec encode ballot vs.votes k bv
  unfolding tracked_entry
  tracked_entry-IsEntry vs k c bv h r =
      tracked_of-IsEntry vs k (is_some c) (lookup k vs.votes_by_block) bv h refl r

  module _ (vote : Vote) (val : Validator)
      (at_index : get_elem? ballot.validators (pos_part vote.validator_index) ≡ some val)
      (cast : is_cast scheme codec encode ballot val vote ≡ true)
      (val_power : val.voting_power ≡ pos (power val)) where
    abbrev block_key : Bytes
    block_key = key encode vote.block_id

    count_vote-IsSound :
        (vs vs' : VoteSet) (bv : BlockVotes)
        → IsPrimary scheme codec encode ballot vote val at_index cast val_power vs
        → IsEntry scheme codec encode ballot vs.votes block_key bv
        → count_vote encode vs vote block_key val.voting_power bv ≡ ok vs'
        → IsSound scheme codec encode ballot vs'
    unfolding count_vote
    count_vote-IsSound vs vs' bv (h, (y, at)) e r =
        let (bv', e1, e2) = bind-ok (add_to_block bv vote val.voting_power) _ _ r in
        let b = subst (λ l. 2 * sum_power l ≤ max_int64) h.validators_eq h.powered.bound in
        let entry =
          add_to_block-IsEntry scheme codec encode ballot vote val at_index cast val_power vs.votes
            y bv bv' b at e e1 in
        let total =
          total_voting_power-sum vs.val_set h.powered
          ∙ ap (λ l. pos (sum_power l)) h.validators_eq in
        let quorum = add64 (div64 (mul64 (total_voting_power vs.val_set).0 (pos 2)) 3) (pos 1) in
        conclude-IsSound scheme codec encode ballot vote.block_id vs bv'
          (total_voting_power vs.val_set).1 h entry (validators-total_voting_power vs.val_set)
          (total_voting_power-IsPowered vs.val_set h.powered) (ltb_ℤ bv.sum quorum)
          (leb_ℤ quorum bv'.sum) (not (is_some vs.maj23)) vs'
          (quorum_reached (sum_power ballot.validators) (tally any ballot.validators bv'.votes)
            (total_voting_power vs.val_set).0 bv'.sum quorum b total refl entry.sum_eq)
          e2

    pub add_verified_vote-IsSound :
        (vs vs' : VoteSet) (r : Bool × Option Vote)
        → IsSound scheme codec encode ballot vs
        → add_verified_vote encode vs vote block_key val.voting_power ≡ ok (r, vs')
        → IsSound scheme codec encode ballot vs'
    unfolding add_verified_vote
    add_verified_vote-IsSound vs vs' r h e =
        let ((c, vs1), e1, e2) =
          bind-ok (add_primary encode vs vote block_key val.voting_power) _ _ e in
        let p =
          add_primary-IsPrimary scheme codec encode ballot vote val at_index cast val_power vs vs1 c
            h e1 in
        elim (Option-cases (tracked_entry encode vs1 block_key c)) [
          | inl q ↦
              subst (IsSound scheme codec encode ballot)
                (ap (λ x. x.1) (ok-injective _ _ (rw q at e2))) p.0
          | inr (bv, q) ↦
              let (vs2, e3, e4) =
                bind-ok (count_vote encode vs1 vote block_key val.voting_power bv)
                  (λ vs2. ok ((true, c), vs2)) _ (rw q at e2) in
              subst (IsSound scheme codec encode ballot) (ap (λ x. x.1) (ok-injective _ _ e4)) (
                count_vote-IsSound vs1 vs2 bv p (tracked_entry-IsEntry vs1 block_key c bv p.0 q) e3)
        ]
