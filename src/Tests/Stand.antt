-- ===== src/Tests/Stand.antt =====
-- A hash, a signature scheme and a codec that meet what is assumed of the real ones.
use de_mars_dmc.Prelude.{
  ℕ, zero, suc, ◌≡◌, ◌∙◌, refl, ap, Bool, false, Option, none, some, List, [], ◌∷◌, ◌++◌, map,
}
use de_mars_dmc.Prelude.Int.{ℤ, pos, negsuc}
use de_mars_dmc.Prelude.Bytes.{Bytes, bytes_equal}
use de_mars_dmc.Types.Vote.{Signature, Scheme}
use de_mars_dmc.Types.Canonical.{
  CanonicalJsonVote, CanonicalJsonProposal, CanonicalJsonHeartbeat, Codec, CodecLaws,
}
use de_mars_dmc.Crypto.Merkle.{HashLib}

-- The hash of nothing is nothing; a slice is written with its first byte doubled.
abbrev pub hash_lib : HashLib
hash_lib = record { sha256 = λ b. b; encode_byte_slice = λ b. 7 ∷ b }

-- A signature is the key and the message.
verify_stand : Bytes → Bytes → Signature → Bool
verify_stand key msg none = false
verify_stand key msg (some s) = bytes_equal s (key ++ msg)

unfoldable pub scheme : Scheme
unfolding verify_stand bytes_equal
scheme = record {
  address = λ key. key;
  verify_bytes = verify_stand;
  sign = λ key msg. some (key ++ msg);
}

-- Slices one after the other: every byte goes up by one, and 0 ends a slice.
unfoldable pub join : List Bytes → Bytes
join [] = []
join (b ∷ bs) = map suc b ++ (zero ∷ join bs)

abbrev pub cons_head : ℕ → List Bytes → List Bytes
cons_head n [] = (n ∷ []) ∷ []
cons_head n (b ∷ bs) = (n ∷ b) ∷ bs

unfoldable pub split : Bytes → List Bytes
split [] = []
split (zero ∷ r) = [] ∷ split r
split (suc n ∷ r) = cons_head n (split r)

split-slice : (b rest : Bytes) → split (map suc b ++ (zero ∷ rest)) ≡ b ∷ split rest
unfolding split
split-slice [] rest = refl
split-slice (n ∷ b) rest = ap (cons_head n) (split-slice b rest)

pub split-join : (bs : List Bytes) → split (join bs) ≡ bs
unfolding split join
split-join [] = refl
split-join (b ∷ bs) = split-slice b (join bs) ∙ ap (λ r. b ∷ r) (split-join bs)

abbrev pub int : ℤ → Bytes
int (pos n) = zero ∷ n ∷ []
int (negsuc n) = suc zero ∷ n ∷ []

abbrev pub from_int : Bytes → ℤ
from_int (zero ∷ n ∷ r) = pos n
from_int (suc _ ∷ n ∷ r) = negsuc n
from_int _ = pos 0

pub from_int-int : (a : ℤ) → from_int (int a) ≡ a
from_int-int (pos n) = refl
from_int-int (negsuc n) = refl

vote_fields : CanonicalJsonVote → List Bytes
vote_fields v =
    v.chain_id
    ∷ v.type'
    ∷ v.block_id.hash
    ∷ v.block_id.parts_header.hash
    ∷ int v.block_id.parts_header.total
    ∷ int v.height
    ∷ int v.round
    ∷ v.timestamp
    ∷ (v.vote_type ∷ [])
    ∷ []

vote_of_fields : List Bytes → Option CanonicalJsonVote
vote_of_fields (c ∷ t ∷ h ∷ ph ∷ pt ∷ ht ∷ r ∷ ts ∷ (vt ∷ _) ∷ _) = some (record {
  chain_id = c;
  type' = t;
  block_id = record { hash = h; parts_header = record { hash = ph; total = from_int pt } };
  height = from_int ht;
  round = from_int r;
  timestamp = ts;
  vote_type = vt;
})
vote_of_fields _ = none

vote_of_fields-vote_fields : (v : CanonicalJsonVote) → vote_of_fields (vote_fields v) ≡ some v
unfolding vote_of_fields vote_fields
vote_of_fields-vote_fields v = simp from_int-int

proposal_fields : CanonicalJsonProposal → List Bytes
proposal_fields p =
    p.chain_id
    ∷ p.type'
    ∷ p.block_parts_header.hash
    ∷ int p.block_parts_header.total
    ∷ int p.height
    ∷ p.pol_block_id.hash
    ∷ p.pol_block_id.parts_header.hash
    ∷ int p.pol_block_id.parts_header.total
    ∷ int p.pol_round
    ∷ int p.round
    ∷ p.timestamp
    ∷ []

proposal_of_fields : List Bytes → Option CanonicalJsonProposal
proposal_of_fields (c ∷ t ∷ bh ∷ bt ∷ ht ∷ h ∷ ph ∷ pt ∷ pr ∷ r ∷ ts ∷ _) = some (record {
  chain_id = c;
  type' = t;
  block_parts_header = record { hash = bh; total = from_int bt };
  height = from_int ht;
  pol_block_id = record { hash = h; parts_header = record { hash = ph; total = from_int pt } };
  pol_round = from_int pr;
  round = from_int r;
  timestamp = ts;
})
proposal_of_fields _ = none

proposal_of_fields-proposal_fields :
    (p : CanonicalJsonProposal) → proposal_of_fields (proposal_fields p) ≡ some p
unfolding proposal_of_fields proposal_fields
proposal_of_fields-proposal_fields p = simp from_int-int

heartbeat_bytes : CanonicalJsonHeartbeat → Bytes
unfolding join
heartbeat_bytes h = join (h.chain_id ∷ h.type' ∷ int h.height ∷ int h.round ∷ [])

unfoldable pub codec : Codec
unfolding join split vote_fields vote_of_fields proposal_fields proposal_of_fields heartbeat_bytes
codec = record {
  marshal_vote = λ v. join (vote_fields v);
  unmarshal_vote = λ b. vote_of_fields (split b);
  marshal_proposal = λ p. join (proposal_fields p);
  unmarshal_proposal = λ b. proposal_of_fields (split b);
  marshal_heartbeat = heartbeat_bytes;
  canonical_time = int;
  parse_time = λ b. some (from_int b);
}

parse-canonical_time_stand :
    (t : ℤ) → (t' : ℤ) × (◌≡◌ {A = Option ℤ} (some (from_int (int t))) (some t')) × (int t' ≡ int t)
parse-canonical_time_stand t = (t, ap some (from_int-int t), refl)

unmarshal_vote_stand :
    (v : CanonicalJsonVote) → vote_of_fields (split (join (vote_fields v))) ≡ some v
unmarshal_vote_stand v =
    ap vote_of_fields (split-join (vote_fields v)) ∙ vote_of_fields-vote_fields v

unmarshal_proposal_stand :
    (p : CanonicalJsonProposal) → proposal_of_fields (split (join (proposal_fields p))) ≡ some p
unmarshal_proposal_stand p =
    ap proposal_of_fields (split-join (proposal_fields p)) ∙ proposal_of_fields-proposal_fields p

pub codec_laws : CodecLaws codec
unfolding codec
codec_laws = record {
  unmarshal-marshal_vote = unmarshal_vote_stand;
  unmarshal-marshal_proposal = unmarshal_proposal_stand;
  parse-canonical_time = parse-canonical_time_stand;
}
