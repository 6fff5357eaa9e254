-- ===== src/Types/VoteSet/Checks.antt =====
-- types/vote_set.go: what `AddVote` has checked of a vote that it adds.
use de_mars_dmc.Prelude.{
  ◌≡◌, refl, sym, ap, Bool, true, false, ◌||◌, not, Option, none, some, length, ◌==◌, arith,
}
use de_mars_dmc.Prelude.Int.{pos, pos_part, ltb_ℤ, eqb_ℤ}
use de_mars_dmc.Prelude.Bytes.{Bytes, bytes_equal, bytes_equal_eq}
use de_mars_dmc.Prelude.Result.{Result, ok, err, panic, ◌>>=◌, ok-injective, bind-ok, guard-ok}
use de_mars_dmc.Types.BlockId.{PartSetHeader, key}
use de_mars_dmc.Types.Vote.{
  Vote, Scheme, VoteError, invalid_validator_address, invalid_validator_index, unexpected_step,
}
use de_mars_dmc.Types.Canonical.{Codec, vote_sign_bytes}
use de_mars_dmc.Types.ValidatorSet.{Validator, get_by_index}
use de_mars_dmc.Types.VoteSet.{VoteSet, AddError, get_vote}
use de_mars_dmc.Types.VoteSet.Operations.{
  Refusal, refused, known_vote, verify_result, same_result, check_signed, check_validator,
  check_vote, verify_vote, add_checked, add_vote,
}

abbrev is_added : Option ((Bool × Option AddError) × VoteSet) → Bool
is_added none = false
is_added (some ((added, e), vs)) = added

module _ (scheme : Scheme) (codec : Codec) (encode : PartSetHeader → Bytes) where
  -- A vote of the set's height, round and type, that the validator at its index signed.
  pub record IsVerified (vs : VoteSet) (vote : Vote) (val : Validator) : Type 0 where
    pub height_eq : vote.height ≡ vs.height
    pub round_eq : vote.round ≡ vs.round
    pub type_eq : vote.type' ≡ vs.type'
    pub at_index : get_by_index vs.val_set vote.validator_index ≡ some (vote.validator_address, val)
    pub key_address : scheme.address val.pub_key ≡ vote.validator_address
    pub signed :
        scheme.verify_bytes val.pub_key (vote_sign_bytes codec vs.chain_id vote) vote.signature
        ≡ true

  verify_none :
      (vote : Vote) (chain_id pub_key : Bytes)
      → verify_vote scheme codec vote chain_id pub_key ≡ none
      → (scheme.address pub_key ≡ vote.validator_address)
        × (scheme.verify_bytes pub_key (vote_sign_bytes codec chain_id vote) vote.signature ≡ true)
  unfolding verify_vote
  verify_none vote chain_id pub_key h =
      let e = bytes_equal_eq (scheme.address pub_key) vote.validator_address in ground arith

  verify_result_ok :
      (r : Option VoteError) (u : Unit) → verify_result scheme codec encode r ≡ ok u → r ≡ none
  verify_result_ok none u h = refl
  verify_result_ok (some e) u h = absurd (cc)

  same_result_ok :
      (r : Result VoteError Bool) (u : Unit) → same_result scheme codec encode r ≡ ok u → ⊥
  same_result_ok (ok true) u h = absurd (cc)
  same_result_ok (ok false) u h = absurd (cc)
  same_result_ok (err e) u h = absurd (cc)
  same_result_ok panic u h = absurd (cc)

  check_signed_ok :
      (vs : VoteSet) (vote : Vote) (pub_key : Bytes) (existing : Option Vote) (u : Unit)
      → check_signed scheme codec encode vs vote pub_key existing ≡ ok u
      → verify_vote scheme codec vote vs.chain_id pub_key ≡ none
  unfolding check_signed
  check_signed_ok vs vote pub_key none u h = verify_result_ok _ u h
  check_signed_ok vs vote pub_key (some known) u h = absurd (same_result_ok _ u h)

  -- The validator is the one at the index, and has the vote's address and signature.
  check_validator_ok :
      (vs : VoteSet) (vote : Vote) (found : Option (Bytes × Validator)) (val : Validator)
      → check_validator scheme codec encode vs vote found ≡ ok val
      → (found ≡ some (vote.validator_address, val))
        × (verify_vote scheme codec vote vs.chain_id val.pub_key ≡ none)
  unfolding check_validator
  check_validator_ok vs vote none val h = absurd (cc)
  check_validator_ok vs vote (some (addr, v)) val h =
      let (g, h1) =
        guard-ok (not (bytes_equal vote.validator_address addr)) (refused invalid_validator_address)
          _ h in
      let (existing, e1, e2) =
        bind-ok
          (known_vote scheme codec encode
            (get_vote encode vs (pos_part vote.validator_index) (key encode vote.block_id)))
          (λ o. check_signed scheme codec encode vs vote v.pub_key o >>= λ _. ok v) val h1 in
      let (u, e3, e4) =
        bind-ok (check_signed scheme codec encode vs vote v.pub_key existing) (λ _. ok v) val e2 in
      let same = bytes_equal_eq vote.validator_address addr (ground arith) in
      let v_eq = ok-injective _ _ e4 in
      let checked = check_signed_ok vs vote v.pub_key existing u e3 in
      (λ i. some (sym same i, v_eq i), rw (sym v_eq) checked)

  -- A vote that passes the checks of `addVote` is of the set's height, round and type, and signed
  -- by the validator at its index.
  pub check_vote_ok :
      (vs : VoteSet) (vote : Vote) (val : Validator)
      → check_vote scheme codec encode vs vote ≡ ok val
      → IsVerified vs vote val
  unfolding check_vote
  check_vote_ok vs vote val h =
      let (g1, h1) =
        guard-ok (ltb_ℤ vote.validator_index (pos 0)) (refused invalid_validator_index) _ h in
      let (g2, h2) =
        guard-ok (length vote.validator_address == 0) (refused invalid_validator_address) _ h1 in
      let (g3, h3) =
        guard-ok
          (not (eqb_ℤ vote.height vs.height)
            || not (eqb_ℤ vote.round vs.round)
            || not (vote.type' == vs.type'))
          (refused unexpected_step) _ h2 in
      let (found, v) = check_validator_ok vs vote _ val h3 in
      let (addr, sig) = verify_none vote vs.chain_id val.pub_key v in
      record {
        height_eq = ground arith;
        round_eq = ground arith;
        type_eq = ground arith;
        at_index = found;
        key_address = addr;
        signed = sig;
      }

  add_checked-added :
      (vs vs' : VoteSet) (vote : Vote) (e : Option AddError) (c : Result Refusal Validator)
      → add_checked scheme codec encode vs vote c ≡ some ((true, e), vs')
      → (val : Validator) × (c ≡ ok val)
  unfolding add_checked
  add_checked-added vs vs' vote e (ok val) h = (val, refl)
  add_checked-added vs vs' vote e (err r) h = absurd (let h' = ap (λ o. is_added o) h in cc)
  add_checked-added vs vs' vote e panic h = absurd (cc)

  -- A vote that `AddVote` adds, with or without a conflict, is of the set's height, round and type,
  -- and names a validator of the set by index and address whose signature it carries.
  pub add_vote-IsVerified :
      (vs vs' : VoteSet) (vote : Vote) (e : Option AddError)
      → add_vote scheme codec encode vs (some vote) ≡ some ((true, e), vs')
      → (val : Validator) × IsVerified vs vote val
  unfolding add_vote
  add_vote-IsVerified vs vs' vote e h =
      let (val, c) = add_checked-added vs vs' vote e _ h in (val, check_vote_ok vs vote val c)
