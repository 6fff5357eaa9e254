-- ===== src/Types/Vote.antt =====
-- types/vote.go, types/proposal.go and types/heartbeat.go: the signed messages.
use de_mars_dmc.Prelude.{ℕ, Bool, ◌||◌, Option, ◌==◌}
use de_mars_dmc.Prelude.Int.{ℤ}
use de_mars_dmc.Prelude.Bytes.{Bytes}
use de_mars_dmc.Types.BlockId.{BlockId, PartSetHeader}

-- A `time.Time`, in nanoseconds.
abbrev pub Time : Type 0
Time = ℤ

-- A `crypto.Signature`: nil, or the bytes of a signature.
abbrev pub Signature : Type 0
Signature = Option Bytes

abbrev pub vote_type_prevote : ℕ
vote_type_prevote = 1

abbrev pub vote_type_precommit : ℕ
vote_type_precommit = 2

unfoldable pub is_vote_type_valid : ℕ → Bool
is_vote_type_valid type' = type' == vote_type_prevote || type' == vote_type_precommit

pub record Vote : Type 0 where
  pub validator_address : Bytes
  pub validator_index : ℤ
  pub height : ℤ
  pub round : ℤ
  pub timestamp : Time
  pub type' : ℕ
  pub block_id : BlockId
  pub signature : Signature

pub record Proposal : Type 0 where
  pub height : ℤ
  pub round : ℤ
  pub timestamp : Time
  pub block_parts_header : PartSetHeader
  pub pol_round : ℤ
  pub pol_block_id : BlockId
  pub signature : Signature

pub record Heartbeat : Type 0 where
  pub validator_address : Bytes
  pub validator_index : ℤ
  pub height : ℤ
  pub round : ℤ
  pub sequence : ℤ
  pub signature : Signature

-- The keys of package crypto, over ed25519 and secp256k1 of other packages: `PubKey.Address`,
-- `PubKey.VerifyBytes` and `PrivKey.Sign`, which is `none` on an error.
pub record Scheme : Type 0 where
  pub address : Bytes → Bytes
  pub verify_bytes : Bytes → Bytes → Signature → Bool
  pub sign : Bytes → Bytes → Option Bytes

pub data VoteError : Type 0 where
  unexpected_step invalid_validator_index invalid_validator_address invalid_signature : VoteError
  invalid_block_hash non_deterministic_signature vote_nil : VoteError
