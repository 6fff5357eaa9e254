-- ===== src/PrivVal.antt =====
-- privval/priv_validator.go: `FilePV`, the private validator that keeps what it last signed in a file.
pub mod Run
pub mod Resign
use de_mars_dmc.Prelude.{
  ℕ, Bool, true, false, ◌&&◌, ◌||◌, Option, none, some, [], ◌==◌, is_some, if◌then◌else◌,
}
use de_mars_dmc.Prelude.Int.{ℤ, pos, ltb_ℤ, eqb_ℤ}
use de_mars_dmc.Prelude.Bytes.{Bytes, bytes_equal}
use de_mars_dmc.Types.Vote.{
  Time, Signature, Vote, Proposal, Heartbeat, Scheme, vote_type_prevote, vote_type_precommit,
}
use de_mars_dmc.Types.Canonical.{
  CanonicalJsonVote, CanonicalJsonProposal, Codec, vote_sign_bytes, proposal_sign_bytes,
  heartbeat_sign_bytes,
}

pub data PvError : Type 0 where
  height_regression round_regression step_regression : PvError
  no_last_signature conflicting_data sign_failed : PvError

-- What a method returns; after `panic` the process is gone.
pub data Outcome (A : Type 0) : Type 0 where
  ok : A → Outcome A
  err : PvError → Outcome A
  panic : Outcome A

abbrev pub step_none : ℤ
step_none = pos 0

abbrev pub step_propose : ℤ
step_propose = pos 1

abbrev pub step_prevote : ℤ
step_prevote = pos 2

abbrev pub step_precommit : ℤ
step_precommit = pos 3

pub record FilePv : Type 0 where
  pub address : Bytes
  pub pub_key : Bytes
  pub last_height : ℤ
  pub last_round : ℤ
  pub last_step : ℤ
  pub last_signature : Signature
  pub last_sign_bytes : Option Bytes
  pub priv_key : Bytes
  pub file_path : Bytes

-- The object in memory, and what its file holds: the file is taken to hold the object that amino wrote
-- to it as JSON, and to give it back.
pub record Machine : Type 0 where
  pub pv : FilePv
  pub disk : FilePv

-- What the surroundings decide in one call: whether the file can be written, and the time.
pub record Env : Type 0 where
  pub disk_ok : Bool
  pub now : Time

unfoldable pub vote_to_step : Vote → Option ℤ
vote_to_step vote =
    if vote.type' == vote_type_prevote
    then some step_prevote
    else if vote.type' == vote_type_precommit
    then some step_precommit
    else none

-- Returns an error on a regression, and whether height, round and step are unchanged.
unfoldable pub check_hrs : FilePv → ℤ → ℤ → ℤ → Outcome Bool
check_hrs pv height round step =
    if ltb_ℤ height pv.last_height
    then err height_regression
    else if eqb_ℤ pv.last_height height
    then if ltb_ℤ round pv.last_round
      then err round_regression
      else if eqb_ℤ pv.last_round round
      then if ltb_ℤ step pv.last_step
        then err step_regression
        else if eqb_ℤ pv.last_step step
        then if is_some pv.last_sign_bytes
          then if is_some pv.last_signature then ok true else panic
          else err no_last_signature
        else ok false
      else ok false
    else ok false

-- `save`: the panics are an empty path and a file that cannot be written.
unfoldable pub save : Env → Machine → Outcome Machine
save env m =
    if bytes_equal m.pv.file_path []
    then panic
    else if env.disk_ok
    then ok (record m { disk = m.pv })
    else panic

unfoldable pub save_signed : Env → Machine → ℤ → ℤ → ℤ → Bytes → Bytes → Outcome Machine
save_signed env m height round step sign_bytes sig = save env (record m {
  pv = record (m.pv) {
    last_height = height;
    last_round = round;
    last_step = step;
    last_signature = some sig;
    last_sign_bytes = some sign_bytes;
  };
})

infixl 5 ◌>>=◌
abbrev pub ◌>>=◌ : {A B : Type 0} → Outcome A → (A → Outcome B) → Outcome B
ok a >>= f = f a
err e >>= f = err e
panic >>= f = panic

abbrev pub or_panic : {A : Type 0} → Option A → Outcome A
or_panic none = panic
or_panic (some a) = ok a

abbrev pub bytes_or_nil : Option Bytes → Bytes
bytes_or_nil none = []
bytes_or_nil (some b) = b

module _ (codec : Codec) where
  -- Returns the time of the last vote, and whether the two differ in nothing else.
  unfoldable pub check_votes_only_differ_by_timestamp : Bytes → Bytes → Time → Outcome (Time × Bool)
  check_votes_only_differ_by_timestamp last_sign_bytes new_sign_bytes time = do
    last_vote ← or_panic (codec.unmarshal_vote last_sign_bytes)
    new_vote ← or_panic (codec.unmarshal_vote new_sign_bytes)
    last_time ← or_panic (codec.parse_time last_vote.timestamp)
    let now = codec.canonical_time time
    ok (
      last_time,
      bytes_equal (codec.marshal_vote (record new_vote { timestamp = now }))
          (codec.marshal_vote (record last_vote { timestamp = now })),
    )

  unfoldable pub check_proposals_only_differ_by_timestamp :
      Bytes → Bytes → Time → Outcome (Time × Bool)
  check_proposals_only_differ_by_timestamp last_sign_bytes new_sign_bytes time = do
    last_proposal ← or_panic (codec.unmarshal_proposal last_sign_bytes)
    new_proposal ← or_panic (codec.unmarshal_proposal new_sign_bytes)
    last_time ← or_panic (codec.parse_time last_proposal.timestamp)
    let now = codec.canonical_time time
    ok (
      last_time,
      bytes_equal (codec.marshal_proposal (record new_proposal { timestamp = now }))
          (codec.marshal_proposal (record last_proposal { timestamp = now })),
    )

  -- The branch `sameHRS` of `signVote`.
  unfoldable pub resign_vote : Env → FilePv → Bytes → Vote → Outcome Vote
  resign_vote env pv sign_bytes vote =
      let last = bytes_or_nil pv.last_sign_bytes in
      if bytes_equal sign_bytes last
      then ok (record vote { signature = pv.last_signature })
      else (do
        (timestamp, same) ← check_votes_only_differ_by_timestamp last sign_bytes env.now
        if same
            then ok (record vote { timestamp = timestamp; signature = pv.last_signature })
            else err conflicting_data)

  -- The branch `sameHRS` of `signProposal`.
  unfoldable pub resign_proposal : Env → FilePv → Bytes → Proposal → Outcome Proposal
  resign_proposal env pv sign_bytes proposal =
      let last = bytes_or_nil pv.last_sign_bytes in
      if bytes_equal sign_bytes last
      then ok (record proposal { signature = pv.last_signature })
      else (do
        (timestamp, same) ← check_proposals_only_differ_by_timestamp last sign_bytes env.now
        if same
            then ok (record proposal { timestamp = timestamp; signature = pv.last_signature })
            else err conflicting_data)

abbrev pub or_sign_failed : {A : Type 0} → Option A → Outcome A
or_sign_failed none = err sign_failed
or_sign_failed (some a) = ok a

module _ (scheme : Scheme) (codec : Codec) (chain_id : Bytes) where
  -- The branch that signs: the signature is given out only after the file is written.
  unfoldable pub sign_new : Env → Machine → ℤ → ℤ → ℤ → Bytes → Outcome (Machine × Bytes)
  sign_new env m height round step sign_bytes = do
    sig ← or_sign_failed (scheme.sign m.pv.priv_key sign_bytes)
    saved ← save_signed env m height round step sign_bytes sig
    ok (saved, sig)

  -- `SignVote`: the object after the call and the vote, signed.
  unfoldable pub sign_vote : Env → Vote → Machine → Outcome (Machine × Vote)
  sign_vote env vote m = do
    step ← or_panic (vote_to_step vote)
    let sign_bytes = vote_sign_bytes codec chain_id vote
    same_hrs ← check_hrs m.pv vote.height vote.round step
    if same_hrs
        then (do signed ← resign_vote codec env m.pv sign_bytes vote; ok (m, signed))
        else (do
          (saved, sig) ← sign_new env m vote.height vote.round step sign_bytes
          ok (saved, record vote { signature = some sig }))

  -- `SignProposal`
  unfoldable pub sign_proposal : Env → Proposal → Machine → Outcome (Machine × Proposal)
  sign_proposal env proposal m = do
    let sign_bytes = proposal_sign_bytes codec chain_id proposal
    same_hrs ← check_hrs m.pv proposal.height proposal.round step_propose
    if same_hrs
        then (do signed ← resign_proposal codec env m.pv sign_bytes proposal; ok (m, signed))
        else (do
          (saved, sig) ← sign_new env m proposal.height proposal.round step_propose sign_bytes
          ok (saved, record proposal { signature = some sig }))

  -- `SignHeartbeat`, which keeps no record.
  unfoldable pub sign_heartbeat : Heartbeat → Machine → Outcome Heartbeat
  sign_heartbeat heartbeat m = do
    sig ← or_sign_failed (scheme.sign m.pv.priv_key (heartbeat_sign_bytes codec chain_id heartbeat))
    ok (record heartbeat { signature = some sig })

-- `LoadFilePV`: what the file holds, with the path, which is not written.
unfoldable pub load_file_pv : Bytes → FilePv → FilePv
load_file_pv file_path disk = record disk { file_path = file_path }

-- `GenFilePV`, from a key.
unfoldable pub gen_file_pv : Scheme → Bytes → Bytes → Bytes → FilePv
gen_file_pv scheme pub_key priv_key file_path = record {
  address = scheme.address pub_key;
  pub_key = pub_key;
  last_height = pos 0;
  last_round = pos 0;
  last_step = step_none;
  last_signature = none;
  last_sign_bytes = none;
  priv_key = priv_key;
  file_path = file_path;
}

-- `Reset`
unfoldable pub reset : Env → Machine → Outcome Machine
reset env m = save env (record m {
  pv = record (m.pv) {
    last_height = pos 0;
    last_round = pos 0;
    last_step = pos 0;
    last_signature = none;
    last_sign_bytes = none;
  };
})
