-- ===== src/Tests/PrivVal.antt =====
-- A private validator that is asked twice for one step, with a write that fails and a restart.
use de_mars_dmc.Prelude.{ℕ, ◌≡◌, refl, ap, true, false, none, some, List, [], ◌∷◌, get_elem?}
use de_mars_dmc.Prelude.Int.{pos}
use de_mars_dmc.Prelude.Bytes.{Bytes, bytes_equal}
use de_mars_dmc.Types.BlockId.{zero_block_id}
use de_mars_dmc.Types.Vote.{Vote, vote_type_prevote}
use de_mars_dmc.Types.Canonical.{vote_sign_bytes}
use de_mars_dmc.PrivVal.{
  Env, FilePv, vote_to_step, check_hrs, save, save_signed, resign_vote,
  check_votes_only_differ_by_timestamp, sign_new, sign_vote, load_file_pv,
}
use de_mars_dmc.PrivVal.Run.{Request, Released, run, serve}
use de_mars_dmc.PrivVal.Run.Safety.{no_double_sign}
use de_mars_dmc.PrivVal.Run.Invariant.{bytes_released}
use de_mars_dmc.Tests.Stand.{scheme, codec, codec_laws}

abbrev chain : Bytes
chain = 9 ∷ []

abbrev pv : FilePv
pv = record {
  address = 1 ∷ [];
  pub_key = 1 ∷ [];
  last_height = pos 0;
  last_round = pos 0;
  last_step = pos 0;
  last_signature = none;
  last_sign_bytes = none;
  priv_key = 1 ∷ [];
  file_path = 1 ∷ [];
}

abbrev vote_at : ℕ → Vote
vote_at t = record {
  validator_address = 1 ∷ [];
  validator_index = pos 0;
  height = pos 5;
  round = pos 0;
  timestamp = pos t;
  type' = vote_type_prevote;
  block_id = zero_block_id;
  signature = none;
}

abbrev writable : Env
writable = record { disk_ok = true; now = pos 77 }

abbrev full_disk : Env
full_disk = record { disk_ok = false; now = pos 77 }

-- The vote is lost with the process, asked for again, and asked for once more with another time.
abbrev requests : List Request
requests =
    Request.vote full_disk (vote_at 1)
    ∷ Request.vote writable (vote_at 2)
    ∷ Request.restart
    ∷ Request.vote writable (vote_at 3)
    ∷ []

abbrev released : Vote
released = record (vote_at 2) {
  signature = some (
      1 ∷ 10 ∷ 0 ∷ 119 ∷ 112 ∷ 117 ∷ 102 ∷ 0 ∷ 0 ∷ 0 ∷ 1 ∷ 1 ∷ 0 ∷ 1 ∷ 6 ∷ 0 ∷ 1 ∷ 1 ∷ 0 ∷ 1 ∷ 3 ∷ 0
      ∷ 2 ∷ 0 ∷ []);
}

two_released :
    (run scheme codec chain (record { pv = pv; disk = pv }) [] requests).1
    ≡ Released.vote released ∷ Released.vote released ∷ []
unfolding run serve sign_vote vote_to_step check_hrs resign_vote
    check_votes_only_differ_by_timestamp sign_new save_signed save load_file_pv scheme codec
    vote_sign_bytes bytes_equal
two_released = refl

log_get :
    (i : ℕ) (l : List Released)
    → (run scheme codec chain (record { pv = pv; disk = pv }) [] requests).1 ≡ l
    → get_elem? (run scheme codec chain (record { pv = pv; disk = pv }) [] requests).1 i
      ≡ get_elem? l i
log_get i l e = ap (λ x. get_elem? x i) e

no_double_sign_example :
    bytes_released codec chain (Released.vote released)
    ≡ bytes_released codec chain (Released.vote released)
no_double_sign_example =
    no_double_sign scheme codec chain codec_laws pv refl requests 0 1 (log_get 0 _ two_released)
      (log_get 1 _ two_released) refl
