-- ===== src/Types/VoteSet/Majority.antt =====
-- types/vote_set.go: the first majority that a `VoteSet` finds.
use mathlib.Core.Option.{some-injective}
use de_mars_dmc.Prelude.{
  ◌≡◌, refl, sym, ◌∙◌, ap, inl, inr, Bool, true, false, ◌&&◌, not, Option, none, some, is_some,
  Bool-cases, Option-cases, if◌then◌else◌,
}
use de_mars_dmc.Prelude.Int.{ℤ, pos, pos_part, ltb_ℤ, leb_ℤ}
use de_mars_dmc.Prelude.Int64.{add64, mul64, div64}
use de_mars_dmc.Prelude.Bytes.{Bytes}
use de_mars_dmc.Prelude.Result.{Result, ok, err, panic, ok-injective, bind-ok, Result-cases}
use de_mars_dmc.Types.BlockId.{BlockId, PartSetHeader, equals, key}
use de_mars_dmc.Types.Vote.{Vote, Scheme, VoteError}
use de_mars_dmc.Types.Canonical.{Codec}
use de_mars_dmc.Types.ValidatorSet.{Validator, total_voting_power}
use de_mars_dmc.Types.VoteSet.{
  VoteSet, BlockVotes, AddError, vote_at, is_maj23, add_to_block, add_primary, tracked_entry,
  count_vote, add_verified_vote,
}
use de_mars_dmc.Types.VoteSet.Operations.{Refusal, check_vote, conclude, add_checked, add_vote}

module _ (encode : PartSetHeader → Bytes) (vote : Vote) (block_key : Bytes) (power : ℤ) where
  primary_of-maj23 :
      (vs written vs' : VoteSet) (existing c : Option Vote)
      → written.maj23 ≡ vs.maj23
      → ◌≡◌ {A = Result VoteError (Option Vote × VoteSet)}
          (elim existing [
            | none ↦ ok (none, record written { sum = add64 vs.sum power })
            | some e ↦
                if equals e.block_id vote.block_id
                then panic
                else if is_maj23 encode vs block_key
                then ok (some e, written)
                else ok (some e, vs)
          ])
          (ok (c, vs'))
      → vs'.maj23 ≡ vs.maj23
  primary_of-maj23 vs written vs' none c w h = ap (λ p. p.1.maj23) (sym (ok-injective _ _ h)) ∙ w
  primary_of-maj23 vs written vs' (some e) c w h =
      elim (Bool-cases (equals e.block_id vote.block_id)) [
        | inl q ↦ absurd (let h' = rw q at h in cc)
        | inr q ↦ elim (Bool-cases (is_maj23 encode vs block_key)) [
          | inl r ↦ ap (λ p. p.1.maj23) (sym (ok-injective _ _ (rw (q, r) at h))) ∙ w
          | inr r ↦ ap (λ p. p.1.maj23) (sym (ok-injective _ _ (rw (q, r) at h)))
        ]
      ]

  add_primary-maj23 :
      (vs vs' : VoteSet) (c : Option Vote)
      → add_primary encode vs vote block_key power ≡ ok (c, vs')
      → vs'.maj23 ≡ vs.maj23
  unfolding add_primary
  add_primary-maj23 vs vs' c h =
      let (existing, e1, e2) = bind-ok (vote_at vs.votes (pos_part vote.validator_index)) _ _ h in
      primary_of-maj23 vs _ vs' existing c refl e2

  counted_of-maj23 :
      (vs counted crossed vs' : VoteSet) (x y : Bool) (b : BlockId)
      → vs.maj23 ≡ some b
      → counted.maj23 ≡ vs.maj23
      → ◌≡◌ {A = Result VoteError VoteSet}
          (if x && y && not (is_some vs.maj23) then ok crossed else ok counted)
          (ok vs')
      → vs'.maj23 ≡ some b
  counted_of-maj23 vs counted crossed vs' false y b m c h =
      ap (λ v. v.maj23) (sym (ok-injective _ _ h)) ∙ c ∙ m
  counted_of-maj23 vs counted crossed vs' true false b m c h =
      ap (λ v. v.maj23) (sym (ok-injective _ _ h)) ∙ c ∙ m
  counted_of-maj23 vs counted crossed vs' true true b m c h =
      ap (λ v. v.maj23) (sym (ok-injective _ _ (rw m at h))) ∙ c ∙ m

  count_vote-maj23 :
      (vs vs' : VoteSet) (bv : BlockVotes) (b : BlockId)
      → vs.maj23 ≡ some b
      → count_vote encode vs vote block_key power bv ≡ ok vs'
      → vs'.maj23 ≡ some b
  unfolding count_vote
  count_vote-maj23 vs vs' bv b m h =
      let (bv', e1, e2) = bind-ok (add_to_block bv vote power) _ _ h in
      let quorum = add64 (div64 (mul64 (total_voting_power vs.val_set).0 (pos 2)) 3) (pos 1) in
      counted_of-maj23 vs _ _ vs' (ltb_ℤ bv.sum quorum) (leb_ℤ quorum bv'.sum) b m refl e2

  add_verified_vote-maj23 :
      (vs vs' : VoteSet) (r : Bool × Option Vote) (b : BlockId)
      → vs.maj23 ≡ some b
      → add_verified_vote encode vs vote block_key power ≡ ok (r, vs')
      → vs'.maj23 ≡ some b
  unfolding add_verified_vote
  add_verified_vote-maj23 vs vs' r b m h =
      let (primary, e1, e2) = bind-ok (add_primary encode vs vote block_key power) _ _ h in
      let m1 = add_primary-maj23 vs primary.1 primary.0 e1 ∙ m in
      elim (Option-cases (tracked_entry encode primary.1 block_key primary.0)) [
        | inl q ↦ ap (λ p. p.1.maj23) (sym (ok-injective _ _ (rw q at e2))) ∙ m1
        | inr (bv, q) ↦
            let (vs2, e3, e4) =
              bind-ok (count_vote encode primary.1 vote block_key power bv)
                (λ vs2. ok ((true, primary.0), vs2)) _ (rw q at e2) in
            ap (λ p. p.1.maj23) (sym (ok-injective _ _ e4))
            ∙ count_vote-maj23 primary.1 vs2 bv b m1 e3
      ]

module _ (scheme : Scheme) (codec : Codec) (encode : PartSetHeader → Bytes) where
  pub conclude-set :
      (vs vs' : VoteSet) (val : Validator) (vote : Vote) (added : Bool) (c : Option Vote)
      (r : Bool × Option AddError)
      → conclude scheme codec encode val vote ((added, c), vs) ≡ some (r, vs')
      → vs ≡ vs'
  unfolding conclude
  conclude-set vs vs' val vote added (some x) r h = ap (λ p. p.1) (some-injective _ _ h)
  conclude-set vs vs' val vote true none r h = ap (λ p. p.1) (some-injective _ _ h)
  conclude-set vs vs' val vote false none r h = absurd (cc)

  add_checked-maj23 :
      (vs vs' : VoteSet) (vote : Vote) (c : Result Refusal Validator) (r : Bool × Option AddError)
      (b : BlockId)
      → vs.maj23 ≡ some b
      → add_checked scheme codec encode vs vote c ≡ some (r, vs')
      → vs'.maj23 ≡ some b
  unfolding add_checked
  add_checked-maj23 vs vs' vote (err e) r b m h =
      ap (λ p. p.1.maj23) (sym (some-injective _ _ h)) ∙ m
  add_checked-maj23 vs vs' vote panic r b m h = absurd (cc)
  add_checked-maj23 vs vs' vote (ok val) r b m h =
      let added = add_verified_vote encode vs vote (key encode vote.block_id) val.voting_power in
      elim (Result-cases added) [
        | inl (((a, c), vs1), q) ↦
            ap (λ v. v.maj23) (sym (conclude-set vs1 vs' val vote a c r (rw (q, add_checked) at h)))
            ∙ add_verified_vote-maj23 encode vote (key encode vote.block_id) val.voting_power vs vs1
                (a, c) b m q
        | inr (inl (e, q)) ↦ absurd (let h' = rw (q, add_checked) at h in cc)
        | inr (inr q) ↦ absurd (let h' = rw (q, add_checked) at h in cc)
      ]

  -- Once a set has found a majority, no later `AddVote` changes the block of it.
  pub maj23-add_vote :
      (vs vs' : VoteSet) (vote : Option Vote) (r : Bool × Option AddError) (b : BlockId)
      → vs.maj23 ≡ some b
      → add_vote scheme codec encode vs vote ≡ some (r, vs')
      → vs'.maj23 ≡ some b
  unfolding add_vote
  maj23-add_vote vs vs' none r b m h = ap (λ p. p.1.maj23) (sym (some-injective _ _ h)) ∙ m
  maj23-add_vote vs vs' (some vote) r b m h =
      add_checked-maj23 vs vs' vote (check_vote scheme codec encode vs vote) r b m h
