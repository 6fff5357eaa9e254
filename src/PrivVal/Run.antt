-- ===== src/PrivVal/Run.antt =====
-- A validator over time: requests to sign, and restarts, which load the file. A panic ends the
-- process, so it is a restart too; what was released is what a call returned.
pub mod Order
pub mod Invariant
pub mod Safety
use de_mars_dmc.Prelude.{Bool, ◌&&◌, ◌||◌, List, [], ◌∷◌, ◌++◌}
use de_mars_dmc.Prelude.Int.{ℤ, ltb_ℤ, eqb_ℤ}
use de_mars_dmc.Prelude.Bytes.{Bytes}
use de_mars_dmc.Types.Vote.{Vote, Proposal, Heartbeat, Signature, Scheme}
use de_mars_dmc.Types.Canonical.{Codec, vote_sign_bytes, proposal_sign_bytes}
use de_mars_dmc.PrivVal.{
  Outcome, ok, err, panic, Env, Machine, FilePv, step_propose, load_file_pv, sign_vote,
  sign_proposal,
}

pub data Request : Type 0 where
  vote : Env → Vote → Request
  proposal : Env → Proposal → Request
  restart : Request

-- A message that was given out with a signature.
pub data Released : Type 0 where
  vote : Vote → Released
  proposal : Proposal → Released

abbrev pub reload : Machine → Machine
reload m = record { pv = load_file_pv m.pv.file_path m.disk; disk = m.disk }

-- After an error the validator goes on; after a panic it is started again.
abbrev pub settle :
    {A : Type 0} → (A → Released) → Machine → Outcome (Machine × A) → Machine × List Released
settle f m (ok (m', a)) = (m', f a ∷ [])
settle f m (err e) = (m, [])
settle f m panic = (reload m, [])

module _ (scheme : Scheme) (codec : Codec) (chain_id : Bytes) where
  unfoldable pub serve : Machine → Request → Machine × List Released
  serve m (vote env v) = settle Released.vote m (sign_vote scheme codec chain_id env v m)
  serve m (proposal env p) =
      settle Released.proposal m (sign_proposal scheme codec chain_id env p m)
  serve m restart = (reload m, [])

  -- The messages given out over all requests, the newest first.
  unfoldable pub run : Machine → List Released → List Request → Machine × List Released
  run m log [] = (m, log)
  run m log (r ∷ rs) = let (m', new) = serve m r in run m' (new ++ log) rs
