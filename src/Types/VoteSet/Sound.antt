-- ===== src/Types/VoteSet/Sound.antt =====
-- types/vote_set.go: `addVerifiedVote` keeps what holds of a set.
use mathlib.Core.Path.{subst}
use de_mars_dmc.Prelude.{
  ℕ, ◌*◌, ◌≤◌, ◌≡◌, inl, inr, sym, ◌∙◌, ap, true, Option, none, some, List, length-set, get_elem?,
  get_elem?-set_self, get_elem?-in_range, set, is_some, Bool-cases, Option-cases, arith,
  if◌then◌else◌,
}
use de_mars_dmc.Prelude.Int.{ℤ, pos, pos_part}
use de_mars_dmc.Prelude.Int64.{max_int64, add64, add64_nonneg}
use de_mars_dmc.Prelude.Bytes.{Bytes, bytes_equal, bytes_equal_eq, bytes_equal_refl}
use de_mars_dmc.Prelude.Result.{Result, ok, panic, ok-injective, bind-ok}
use de_mars_dmc.Common.BitArray.{BitArray}
use de_mars_dmc.Types.BlockId.{BlockId, PartSetHeader, key, equals}
use de_mars_dmc.Types.Vote.{Vote, Scheme, VoteError}
use de_mars_dmc.Types.Canonical.{Codec}
use de_mars_dmc.Types.ValidatorSet.{Validator}
use de_mars_dmc.Types.ValidatorSet.Power.{power, sum_power, tally, tally_le_sum}
use de_mars_dmc.Types.VoteSet.{VoteSet, BlockVotes, vote_at, is_maj23, add_to_block, add_primary}
use de_mars_dmc.Types.VoteSet.Tally.{
  any, tally-set_empty, tally-set_over, AllGood-set, Covers-set_right, Covers-set_left,
  tally-set_good, tally-set_vacant,
}
use de_mars_dmc.Types.VoteSet.Invariant.{Ballot, is_cast, is_cast_for, IsEntry, IsSound}

pub vote_at-ok :
    (votes : List (Option Vote)) (i : ℕ) (o : Option Vote)
    → vote_at votes i ≡ ok o
    → get_elem? votes i ≡ some o
vote_at-ok votes i o h = elim (Option-cases (get_elem? votes i)) [
  | inl e ↦ absurd (let h' = rw e at h in cc)
  | inr (x, e) ↦ e ∙ ap some (ok-injective _ _ (rw e at h))
]

-- A vote of the validator at index `i`.
module _ (scheme : Scheme) (codec : Codec) (encode : PartSetHeader → Bytes) (ballot : Ballot)
    (vote : Vote) (val : Validator)
    (at_index : get_elem? ballot.validators (pos_part vote.validator_index) ≡ some val)
    (cast : is_cast scheme codec encode ballot val vote ≡ true)
    (val_power : val.voting_power ≡ pos (power val)) where
  abbrev pub i : ℕ
  i = pos_part vote.validator_index

  abbrev pub vals : List Validator
  vals = ballot.validators

  -- A sum in int64 that takes the vote in.
  sum_added :
      (votes : List (Option Vote)) (sum : ℤ)
      → 2 * sum_power vals ≤ max_int64
      → sum ≡ pos (tally any vals votes)
      → get_elem? votes i ≡ some none
      → add64 sum val.voting_power ≡ pos (tally any vals (set votes i (some vote)))
  sum_added votes sum b s e =
      let t = tally-set_empty vote vals votes i val at_index e in
      let le = tally_le_sum any vals (set votes i (some vote)) in
      ap (λ z. add64 z val.voting_power) s
      ∙ ap (add64 (pos (tally any vals votes))) val_power
      ∙ add64_nonneg (tally any vals votes) (power val) (omega arith)
      ∙ ap pos (sym t)

  -- The entries of a set whose primary votes take the vote in.
  IsEntry-set :
      (votes : List (Option Vote)) (k : Bytes) (bv : BlockVotes)
      → IsEntry scheme codec encode ballot votes k bv
      → IsEntry scheme codec encode ballot (set votes i (some vote)) k bv
  IsEntry-set votes k bv h = record {
    len = h.len;
    sum_eq = h.sum_eq;
    cast = h.cast;
    covered = Covers-set_right vote bv.votes votes i h.covered;
  }

  -- After the first part the set is sound, and has a primary vote of the validator.
  abbrev pub IsPrimary : VoteSet → Type 0
  IsPrimary vs =
      IsSound scheme codec encode ballot vs × ((y : Vote) × (get_elem? vs.votes i ≡ some (some y)))

  -- The write of the vote loses no vote for the block with a key.
  abbrev IsKept : Bytes → List (Option Vote) → Type 0
  IsKept k votes =
      tally (is_cast_for scheme codec encode ballot k) vals votes
      ≤ tally (is_cast_for scheme codec encode ballot k) vals (set votes i (some vote))

  cast_for_equal :
      (k : Bytes)
      → bytes_equal (key encode vote.block_id) k ≡ true
      → is_cast_for scheme codec encode ballot k val vote ≡ true
  unfolding is_cast_for
  cast_for_equal k e = rw (cast, e)

  maj23-IsKept :
      (vs : VoteSet) (b : BlockId)
      → is_maj23 encode vs (key encode vote.block_id) ≡ true
      → vs.maj23 ≡ some b
      → IsKept (key encode b) vs.votes
  unfolding is_maj23
  maj23-IsKept vs b m e =
      let same = bytes_equal_eq (key encode b) (key encode vote.block_id) (rw e at m) in
      tally-set_good vote (is_cast_for scheme codec encode ballot (key encode b)) vals vs.votes i
        val at_index
        (cast_for_equal (key encode b) (
          ap (bytes_equal (key encode vote.block_id)) same
          ∙ bytes_equal_refl (key encode vote.block_id)))

  IsPrimary-write :
      (vs : VoteSet) (sum : ℤ) (ba : Option BitArray)
      → IsSound scheme codec encode ballot vs
      → sum ≡ pos (tally any vals (set vs.votes i (some vote)))
      → (o : Option Vote) → get_elem? vs.votes i ≡ some o
      → ((b : BlockId) → vs.maj23 ≡ some b → IsKept (key encode b) vs.votes)
      → IsPrimary
          (record vs { votes = set vs.votes i (some vote); sum = sum; votes_bit_array = ba })
  IsPrimary-write vs sum ba h s o e kept = (
    record {
      chain_eq = h.chain_eq;
      height_eq = h.height_eq;
      round_eq = h.round_eq;
      type_eq = h.type_eq;
      validators_eq = h.validators_eq;
      powered = h.powered;
      len = length-set vs.votes i (some vote) ∙ h.len;
      sum_eq = s;
      cast =
          AllGood-set vote (is_cast scheme codec encode ballot) vals vs.votes i val at_index cast
            h.cast;
      entries = λ k bv l. IsEntry-set vs.votes k bv (h.entries k bv l);
      majority = λ b m. omega (arith, h.majority b m, kept b m);
    },
    (vote, get_elem?-set_self vs.votes i (some vote) (get_elem?-in_range vs.votes i e)),
  )

  bound_of : (vs : VoteSet) → IsSound scheme codec encode ballot vs → 2 * sum_power vals ≤ max_int64
  bound_of vs h = rw (sym h.validators_eq) h.powered.bound

  -- What `add_primary` makes of the vote that is there already.
  keeps_IsPrimary :
      (vs vs' : VoteSet) (ba : Option BitArray) (existing c : Option Vote)
      → IsSound scheme codec encode ballot vs
      → get_elem? vs.votes i ≡ some existing
      → ◌≡◌ {A = Result VoteError (Option Vote × VoteSet)}
          (let written = record vs { votes = set vs.votes i (some vote); votes_bit_array = ba } in
            elim existing [
              | none ↦ ok (none, record written { sum = add64 vs.sum val.voting_power })
              | some e ↦
                  if equals e.block_id vote.block_id
                  then panic
                  else if is_maj23 encode vs (key encode vote.block_id)
                  then ok (some e, written)
                  else ok (some e, vs)
            ])
          (ok (c, vs'))
      → IsPrimary vs'
  keeps_IsPrimary vs vs' ba none c h e r = subst IsPrimary (ap (λ p. p.1) (ok-injective _ _ r)) (
      IsPrimary-write vs (add64 vs.sum val.voting_power) ba h
        (sum_added vs.votes vs.sum (bound_of vs h) h.sum_eq e) none e
        (λ b m.
          tally-set_vacant vote (is_cast_for scheme codec encode ballot (key encode b)) vals
            vs.votes i e))
  keeps_IsPrimary vs vs' ba (some y) c h e r = elim (Bool-cases (equals y.block_id vote.block_id)) [
    | inl q ↦ absurd (let r' = rw q at r in cc)
    | inr q ↦ elim (Bool-cases (is_maj23 encode vs (key encode vote.block_id))) [
      | inl m ↦ subst IsPrimary (ap (λ p. p.1) (ok-injective _ _ (rw (q, m) at r))) (
          IsPrimary-write vs vs.sum ba h
            (h.sum_eq ∙ ap pos (sym (tally-set_over vote vals vs.votes i y e))) (some y) e
            (λ b k. maj23-IsKept vs b m k))
      | inr m ↦ subst IsPrimary (ap (λ p. p.1) (ok-injective _ _ (rw (q, m) at r))) (h, (y, e))
    ]
  ]

  pub add_primary-IsPrimary :
      (vs vs' : VoteSet) (c : Option Vote)
      → IsSound scheme codec encode ballot vs
      → add_primary encode vs vote (key encode vote.block_id) val.voting_power ≡ ok (c, vs')
      → IsPrimary vs'
  unfolding add_primary
  add_primary-IsPrimary vs vs' c h r =
      let (existing, e1, e2) = bind-ok (vote_at vs.votes i) _ _ r in
      keeps_IsPrimary vs vs' _ existing c h (vote_at-ok vs.votes i existing e1) e2

  -- The entry that takes the vote in.
  keeps_IsEntry :
      (votes : List (Option Vote)) (y : Vote) (bv bv' : BlockVotes) (ba : Option BitArray)
      (existing : Option Vote)
      → 2 * sum_power vals ≤ max_int64
      → get_elem? votes i ≡ some (some y)
      → IsEntry scheme codec encode ballot votes (key encode vote.block_id) bv
      → get_elem? bv.votes i ≡ some existing
      → ◌≡◌ {A = Result VoteError BlockVotes}
          (if is_some existing
            then ok bv
            else ok (record bv {
              bit_array = ba;
              votes = set bv.votes i (some vote);
              sum = add64 bv.sum val.voting_power;
            }))
          (ok bv')
      → IsEntry scheme codec encode ballot votes (key encode vote.block_id) bv'
  keeps_IsEntry votes y bv bv' ba (some u) b p h g r =
      subst (IsEntry scheme codec encode ballot votes (key encode vote.block_id))
        (ok-injective _ _ r) h
  keeps_IsEntry votes y bv bv' ba none b p h g r =
      subst (IsEntry scheme codec encode ballot votes (key encode vote.block_id))
        (ok-injective _ _ r)
        (record {
          len = length-set bv.votes i (some vote) ∙ h.len;
          sum_eq = sum_added bv.votes bv.sum b h.sum_eq g;
          cast =
              AllGood-set vote (is_cast_for scheme codec encode ballot (key encode vote.block_id))
                vals bv.votes i val at_index
                (cast_for_equal (key encode vote.block_id)
                  (bytes_equal_refl (key encode vote.block_id)))
                h.cast;
          covered = Covers-set_left vote bv.votes votes i y p h.covered;
        })

  pub add_to_block-IsEntry :
      (votes : List (Option Vote)) (y : Vote) (bv bv' : BlockVotes)
      → 2 * sum_power vals ≤ max_int64
      → get_elem? votes i ≡ some (some y)
      → IsEntry scheme codec encode ballot votes (key encode vote.block_id) bv
      → add_to_block bv vote val.voting_power ≡ ok bv'
      → IsEntry scheme codec encode ballot votes (key encode vote.block_id) bv'
  unfolding add_to_block
  add_to_block-IsEntry votes y bv bv' b p h r =
      let (existing, e1, e2) = bind-ok (vote_at bv.votes i) _ _ r in
      keeps_IsEntry votes y bv bv' _ existing b p h (vote_at-ok bv.votes i existing e1) e2
