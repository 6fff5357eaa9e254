-- ===== src/Types/Canonical.antt =====
-- types/canonical_json.go and the SignBytes methods of votes, proposals and heartbeats.
use de_mars_dmc.Prelude.{ℕ, ◌≡◌, Option, some, [], ◌∷◌}
use de_mars_dmc.Prelude.Int.{ℤ}
use de_mars_dmc.Prelude.Bytes.{Bytes}
use de_mars_dmc.Types.BlockId.{BlockId, PartSetHeader}
use de_mars_dmc.Types.Vote.{Time, Vote, Proposal, Heartbeat}

pub record CanonicalJsonPartSetHeader : Type 0 where
  pub hash : Bytes
  pub total : ℤ

pub record CanonicalJsonBlockId : Type 0 where
  pub hash : Bytes
  pub parts_header : CanonicalJsonPartSetHeader

pub record CanonicalJsonProposal : Type 0 where
  pub chain_id : Bytes
  pub type' : Bytes
  pub block_parts_header : CanonicalJsonPartSetHeader
  pub height : ℤ
  pub pol_block_id : CanonicalJsonBlockId
  pub pol_round : ℤ
  pub round : ℤ
  pub timestamp : Bytes

pub record CanonicalJsonVote : Type 0 where
  pub chain_id : Bytes
  pub type' : Bytes
  pub block_id : CanonicalJsonBlockId
  pub height : ℤ
  pub round : ℤ
  pub timestamp : Bytes
  pub vote_type : ℕ

pub record CanonicalJsonHeartbeat : Type 0 where
  pub chain_id : Bytes
  pub type' : Bytes
  pub height : ℤ
  pub round : ℤ
  pub sequence : ℤ
  pub validator_address : Bytes
  pub validator_index : ℤ

-- What comes from other packages: amino's `MarshalJSON` and `UnmarshalJSON`, and the formatting of
-- times by `TimeFormat` (`CanonicalTime`, and `time.Parse`, `none` on an error).
pub record Codec : Type 0 where
  pub marshal_vote : CanonicalJsonVote → Bytes
  pub unmarshal_vote : Bytes → Option CanonicalJsonVote
  pub marshal_proposal : CanonicalJsonProposal → Bytes
  pub unmarshal_proposal : Bytes → Option CanonicalJsonProposal
  pub marshal_heartbeat : CanonicalJsonHeartbeat → Bytes
  pub canonical_time : Time → Bytes
  pub parse_time : Bytes → Option Time

-- What is documented of them: decoding inverts encoding, and a formatted time is read back as a time
-- of the same format (milliseconds are kept, and no more).
pub record CodecLaws (c : Codec) : Type 0 where
  pub unmarshal-marshal_vote :
      (v : CanonicalJsonVote) → c.unmarshal_vote (c.marshal_vote v) ≡ some v
  pub unmarshal-marshal_proposal :
      (p : CanonicalJsonProposal) → c.unmarshal_proposal (c.marshal_proposal p) ≡ some p
  pub parse-canonical_time :
      (t : Time)
      → (t' : Time) × (c.parse_time (c.canonical_time t) ≡ some t')
        × (c.canonical_time t' ≡ c.canonical_time t)

unfoldable pub canonical_part_set_header : PartSetHeader → CanonicalJsonPartSetHeader
canonical_part_set_header psh = record { hash = psh.hash; total = psh.total }

unfoldable pub canonical_block_id : BlockId → CanonicalJsonBlockId
unfolding canonical_part_set_header
canonical_block_id block_id = record {
  hash = block_id.hash;
  parts_header = canonical_part_set_header block_id.parts_header;
}

-- "vote", "proposal" and "heartbeat"
abbrev pub vote_tag : Bytes
vote_tag = b'v' ∷ b'o' ∷ b't' ∷ b'e' ∷ []

abbrev pub proposal_tag : Bytes
proposal_tag = b'p' ∷ b'r' ∷ b'o' ∷ b'p' ∷ b'o' ∷ b's' ∷ b'a' ∷ b'l' ∷ []

abbrev pub heartbeat_tag : Bytes
heartbeat_tag = b'h' ∷ b'e' ∷ b'a' ∷ b'r' ∷ b't' ∷ b'b' ∷ b'e' ∷ b'a' ∷ b't' ∷ []

module _ (c : Codec) (chain_id : Bytes) where
  unfoldable pub canonical_vote : Vote → CanonicalJsonVote
  unfolding canonical_block_id
  canonical_vote vote = record {
    chain_id = chain_id;
    type' = vote_tag;
    block_id = canonical_block_id vote.block_id;
    height = vote.height;
    round = vote.round;
    timestamp = c.canonical_time vote.timestamp;
    vote_type = vote.type';
  }

  unfoldable pub canonical_proposal : Proposal → CanonicalJsonProposal
  unfolding canonical_block_id
  canonical_proposal proposal = record {
    chain_id = chain_id;
    type' = proposal_tag;
    block_parts_header = canonical_part_set_header proposal.block_parts_header;
    height = proposal.height;
    pol_block_id = canonical_block_id proposal.pol_block_id;
    pol_round = proposal.pol_round;
    round = proposal.round;
    timestamp = c.canonical_time proposal.timestamp;
  }

  unfoldable pub canonical_heartbeat : Heartbeat → CanonicalJsonHeartbeat
  canonical_heartbeat heartbeat = record {
    chain_id = chain_id;
    type' = heartbeat_tag;
    height = heartbeat.height;
    round = heartbeat.round;
    sequence = heartbeat.sequence;
    validator_address = heartbeat.validator_address;
    validator_index = heartbeat.validator_index;
  }

  -- `Vote.SignBytes`, `Proposal.SignBytes`, `Heartbeat.SignBytes`
  unfoldable pub vote_sign_bytes : Vote → Bytes
  unfolding canonical_vote
  vote_sign_bytes vote = c.marshal_vote (canonical_vote vote)

  unfoldable pub proposal_sign_bytes : Proposal → Bytes
  unfolding canonical_proposal
  proposal_sign_bytes proposal = c.marshal_proposal (canonical_proposal proposal)

  unfoldable pub heartbeat_sign_bytes : Heartbeat → Bytes
  unfolding canonical_heartbeat
  heartbeat_sign_bytes heartbeat = c.marshal_heartbeat (canonical_heartbeat heartbeat)
