-- ===== src/Types/VoteSet/Count.antt =====
-- types/vote_set.go: the end of `addVerifiedVote`, where a vote is counted for its block, keeps what
-- holds of a set.
use mathlib.Core.Option.{some-injective}
use mathlib.Core.Path.{subst}
use de_mars_dmc.Prelude.{
  ℕ, ◌+◌, ◌*◌, ◌/◌, ◌≤◌, ◌<◌, ◌≡◌, inl, inr, refl, sym, ◌∙◌, ap, Bool, true, false, ◌&&◌, some,
  Bool-cases, arith, if◌then◌else◌,
}
use de_mars_dmc.Prelude.Int.{ℤ, pos, leb_ℤ}
use de_mars_dmc.Prelude.Int64.{max_int64, add64, mul64, div64, add64_nonneg}
use de_mars_dmc.Prelude.Bytes.{Bytes, bytes_equal, bytes_equal_eq}
use de_mars_dmc.Prelude.Result.{Result, ok, ok-injective}
use de_mars_dmc.Types.BlockId.{BlockId, PartSetHeader, key}
use de_mars_dmc.Types.Vote.{Vote, Scheme, VoteError}
use de_mars_dmc.Types.Canonical.{Codec}
use de_mars_dmc.Types.ValidatorSet.{Validator, ValidatorSet}
use de_mars_dmc.Types.ValidatorSet.Power.{IsPowered, sum_power, tally, two_thirds}
use de_mars_dmc.Types.VoteSet.{VoteSet, BlockVotes, lookup, insert, copy_votes}
use de_mars_dmc.Prelude.Maps.{lookup-insert}
use de_mars_dmc.Types.VoteSet.Tally.{
  any, tally-copy_votes, length-copy_votes, AllGood-copy_votes, Covers-copy_votes, AllGood-mono,
  tally-AllGood, tally-copied,
}
use de_mars_dmc.Types.VoteSet.Invariant.{
  Ballot, is_cast, is_cast_for, IsEntry, HasMajority, IsSound,
}

and-left : (a b : Bool) → (a && b) ≡ true → a ≡ true
and-left true b h = refl
and-left false b h = h

-- A sum that reaches the quorum is more than two thirds.
pub quorum_reached :
    (total n : ℕ) (t s q : ℤ)
    → 2 * total ≤ max_int64
    → t ≡ pos total
    → q ≡ add64 (div64 (mul64 t (pos 2)) 3) (pos 1)
    → s ≡ pos n
    → leb_ℤ q s ≡ true
    → 2 * total < 3 * n
quorum_reached total n t s q b h k e l =
    let q_eq =
      k
      ∙ ap (λ z. add64 (div64 (mul64 z (pos 2)) 3) (pos 1)) h
      ∙ ap (λ z. add64 z (pos 1)) (two_thirds total b)
      ∙ add64_nonneg (2 * total / 3) 1 (omega arith) in
    let l' : leb_ℤ (pos (2 * total / 3 + 1)) (pos n) ≡ true =
      ap (λ z. leb_ℤ z (pos n)) (sym q_eq) ∙ ap (leb_ℤ q) (sym e) ∙ l in
    ground arith

module _ (scheme : Scheme) (codec : Codec) (encode : PartSetHeader → Bytes) (ballot : Ballot)
    (block_id : BlockId) (vs : VoteSet) (bv' : BlockVotes) (val_set : ValidatorSet)
    (sound : IsSound scheme codec encode ballot vs)
    (entry : IsEntry scheme codec encode ballot vs.votes (key encode block_id) bv')
    (same_validators : val_set.validators ≡ vs.val_set.validators)
    (powered : IsPowered val_set) where
  abbrev block_key : Bytes
  block_key = key encode block_id

  -- The state once the vote is counted, before a majority is looked for.
  abbrev pub counted : VoteSet
  counted = record vs { val_set = val_set; votes_by_block = insert block_key bv' vs.votes_by_block }

  lookup_counted :
      (k : Bytes)
      → lookup k counted.votes_by_block
        ≡ (if bytes_equal k block_key then some bv' else lookup k vs.votes_by_block)
  lookup_counted k = lookup-insert k block_key bv' vs.votes_by_block

  counted_entries :
      (k : Bytes) (e : BlockVotes)
      → lookup k counted.votes_by_block ≡ some e
      → IsEntry scheme codec encode ballot vs.votes k e
  counted_entries k e l = elim (Bool-cases (bytes_equal k block_key)) [
    | inl q ↦
        let same = some-injective _ _ (sym (rw q at (lookup_counted k)) ∙ l) in
        subst (λ x. IsEntry scheme codec encode ballot vs.votes x e)
          (sym (bytes_equal_eq k block_key q))
          (subst (IsEntry scheme codec encode ballot vs.votes block_key) same entry)
    | inr q ↦ sound.entries k e (sym (rw q at (lookup_counted k)) ∙ l)
  ]

  counted-IsSound : IsSound scheme codec encode ballot counted
  counted-IsSound = record {
    chain_eq = sound.chain_eq;
    height_eq = sound.height_eq;
    round_eq = sound.round_eq;
    type_eq = sound.type_eq;
    validators_eq = same_validators ∙ sound.validators_eq;
    powered = powered;
    len = sound.len;
    sum_eq = sound.sum_eq;
    cast = sound.cast;
    entries = counted_entries;
    majority = sound.majority;
  }

  abbrev for_block : Validator → Vote → Bool
  for_block = is_cast_for scheme codec encode ballot block_key

  abbrev crossed : VoteSet
  crossed = record counted { maj23 = some block_id; votes = copy_votes bv'.votes vs.votes }

  IsEntry-copied :
      (k : Bytes) (e : BlockVotes)
      → IsEntry scheme codec encode ballot vs.votes k e
      → IsEntry scheme codec encode ballot (copy_votes bv'.votes vs.votes) k e
  IsEntry-copied k e h = record {
    len = h.len;
    sum_eq = h.sum_eq;
    cast = h.cast;
    covered = Covers-copy_votes e.votes bv'.votes vs.votes h.covered;
  }

  is_cast_for-is_cast :
      (v : Validator) (vote : Vote)
      → is_cast_for scheme codec encode ballot block_key v vote ≡ true
      → is_cast scheme codec encode ballot v vote ≡ true
  unfolding is_cast_for
  is_cast_for-is_cast v vote h = and-left _ _ h

  crossed-IsSound :
      2 * sum_power ballot.validators < 3 * tally any ballot.validators bv'.votes
      → IsSound scheme codec encode ballot crossed
  crossed-IsSound ge = record {
    chain_eq = sound.chain_eq;
    height_eq = sound.height_eq;
    round_eq = sound.round_eq;
    type_eq = sound.type_eq;
    validators_eq = same_validators ∙ sound.validators_eq;
    powered = powered;
    len = length-copy_votes bv'.votes vs.votes ∙ sound.len;
    sum_eq =
        sound.sum_eq
        ∙ ap pos (sym (tally-copy_votes ballot.validators bv'.votes vs.votes entry.covered));
    cast =
        AllGood-copy_votes (is_cast scheme codec encode ballot) ballot.validators bv'.votes vs.votes
          (AllGood-mono (is_cast_for scheme codec encode ballot block_key)
            (is_cast scheme codec encode ballot) is_cast_for-is_cast ballot.validators bv'.votes
            entry.cast)
          sound.cast;
    entries = λ k e l. IsEntry-copied k e (counted_entries k e l);
    majority = λ b m.
        subst (HasMajority scheme codec encode ballot crossed) (some-injective _ _ m) (
          omega (
            arith,
            ge,
            tally-AllGood for_block ballot.validators bv'.votes entry.cast,
            tally-copied for_block ballot.validators bv'.votes vs.votes
                (omega (arith, entry.len, sound.len)),
          ));
  }

  -- What the test for a new majority makes of the state.
  pub conclude-IsSound :
      (x y z : Bool) (vs' : VoteSet)
      → (y ≡ true → 2 * sum_power ballot.validators < 3 * tally any ballot.validators bv'.votes)
      → ◌≡◌ {A = Result VoteError VoteSet} (if x && y && z then ok crossed else ok counted) (ok vs')
      → IsSound scheme codec encode ballot vs'
  conclude-IsSound false y z vs' ge h =
      subst (IsSound scheme codec encode ballot) (ok-injective _ _ h) counted-IsSound
  conclude-IsSound true false z vs' ge h =
      subst (IsSound scheme codec encode ballot) (ok-injective _ _ h) counted-IsSound
  conclude-IsSound true true false vs' ge h =
      subst (IsSound scheme codec encode ballot) (ok-injective _ _ h) counted-IsSound
  conclude-IsSound true true true vs' ge h =
      subst (IsSound scheme codec encode ballot) (ok-injective _ _ h) (crossed-IsSound (ge refl))
