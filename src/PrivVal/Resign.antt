-- ===== src/PrivVal/Resign.antt =====
-- What signVote and signProposal give out for the height, round and step that were signed last.
use mathlib.Core.Option.{some-injective}
use de_mars_dmc.Prelude.{
  Bool, true, false, ◌≡◌, ◌∙◌, sym, ap, refl, some, inl, inr, Bool-cases, if◌then◌else◌,
}
use de_mars_dmc.Prelude.Bytes.{Bytes, bytes_equal, bytes_equal_eq}
use de_mars_dmc.Types.Vote.{Time, Vote, Proposal}
use de_mars_dmc.Types.Canonical.{
  CanonicalJsonVote, CanonicalJsonProposal, Codec, CodecLaws, canonical_vote, canonical_proposal,
  vote_sign_bytes, proposal_sign_bytes,
}
use de_mars_dmc.PrivVal.{
  Outcome, conflicting_data, ok, err, panic, ◌>>=◌, FilePv, Env,
  check_votes_only_differ_by_timestamp, check_proposals_only_differ_by_timestamp, resign_vote,
  resign_proposal,
}

module _ (codec : Codec) (laws : CodecLaws codec) (chain_id : Bytes) where
  marshal_vote-injective :
      (a b : CanonicalJsonVote) → codec.marshal_vote a ≡ codec.marshal_vote b → a ≡ b
  marshal_vote-injective a b e = some-injective a b (
      sym (laws.unmarshal-marshal_vote a)
      ∙ ap codec.unmarshal_vote e
      ∙ laws.unmarshal-marshal_vote b)

  -- Votes that differ in their time only, put at one time.
  retimed_vote :
      (a b : CanonicalJsonVote) (now : Bytes)
      → record a { timestamp = now } ≡ record b { timestamp = now }
      → record a { timestamp = b.timestamp } ≡ b
  retimed_vote a b now e = ap (λ (x : CanonicalJsonVote). record x { timestamp = b.timestamp }) e

  -- Both are votes of this chain, so the comparison answers.
  check_votes_lem :
      (old new : Vote) (time t : Time)
      → codec.parse_time (codec.canonical_time old.timestamp) ≡ some t
      → check_votes_only_differ_by_timestamp codec
          (vote_sign_bytes codec chain_id old)
          (vote_sign_bytes codec chain_id new)
          time
        ≡ ok (
          t,
          bytes_equal
              (codec.marshal_vote (record (canonical_vote codec chain_id new) {
                timestamp = codec.canonical_time time;
              }))
              (codec.marshal_vote (record (canonical_vote codec chain_id old) {
                timestamp = codec.canonical_time time;
              })),
        )
  unfolding check_votes_only_differ_by_timestamp vote_sign_bytes
  check_votes_lem old new time t parsed =
      rw (laws.unmarshal-marshal_vote (canonical_vote codec chain_id old))
        (rw (laws.unmarshal-marshal_vote (canonical_vote codec chain_id new)) (rw parsed refl))

  ok-injective :
      {A B : Type 0} (a c : A) (b d : B)
      → ◌≡◌ {A = Outcome (A × B)} (ok (a, b)) (ok (c, d))
      → (a ≡ c) × (b ≡ d)
  ok-injective a c b d e = (cc, cc)

  vote_retimed :
      (old new : Vote) (now : Bytes) (t : Time)
      → codec.canonical_time t ≡ codec.canonical_time old.timestamp
      → bytes_equal
          (codec.marshal_vote (record (canonical_vote codec chain_id new) { timestamp = now }))
          (codec.marshal_vote (record (canonical_vote codec chain_id old) { timestamp = now }))
        ≡ true
      → vote_sign_bytes codec chain_id (record new { timestamp = t })
        ≡ vote_sign_bytes codec chain_id old
  unfolding vote_sign_bytes
  vote_retimed old new now t shown same =
      let a = canonical_vote codec chain_id old in
      let b = canonical_vote codec chain_id new in
      ap codec.marshal_vote (
        ap (λ s. record b { timestamp = s }) shown
        ∙ retimed_vote b a now (marshal_vote-injective _ _ (bytes_equal_eq _ _ same)))

  check_votes-same :
      (old new : Vote) (time t : Time)
      → check_votes_only_differ_by_timestamp codec
          (vote_sign_bytes codec chain_id old)
          (vote_sign_bytes codec chain_id new)
          time
        ≡ ok (t, true)
      → vote_sign_bytes codec chain_id (record new { timestamp = t })
        ≡ vote_sign_bytes codec chain_id old
  check_votes-same old new time t e =
      let (t', parsed, shown) = laws.parse-canonical_time old.timestamp in
      let (et, same) =
        ok-injective t' t _ true (sym (check_votes_lem old new time t' parsed) ∙ e) in
      vote_retimed old new (codec.canonical_time time) t (ap codec.canonical_time (sym et) ∙ shown)
        same

  resign_vote-choice :
      (pv : FilePv) (new : Vote) (o : Outcome (Time × Bool)) {signed : Vote}
      → (o >>= λ (timestamp, same).
          if same
          then ok (record new { timestamp = timestamp; signature = pv.last_signature })
          else err conflicting_data)
        ≡ ok signed
      → (t : Time) × (o ≡ ok (t, true))
        × (signed ≡ record new { timestamp = t; signature = pv.last_signature })
  resign_vote-choice pv new (ok (t, true)) e = (t, refl, cc)
  resign_vote-choice pv new (ok (t, false)) e = absurd (cc)
  resign_vote-choice pv new (err x) e = absurd (cc)
  resign_vote-choice pv new panic e = absurd (cc)

  -- What is given out again is the vote that was asked for, but for its time, with the last
  -- signature; and the bytes that it stands for are those that were signed last.
  pub resign_vote_lem :
      (env : Env) (pv : FilePv) (old new : Vote) {signed : Vote}
      → pv.last_sign_bytes ≡ some (vote_sign_bytes codec chain_id old)
      → resign_vote codec env pv (vote_sign_bytes codec chain_id new) new ≡ ok signed
      → (vote_sign_bytes codec chain_id signed ≡ vote_sign_bytes codec chain_id old)
        × (signed ≡ record new { timestamp = signed.timestamp; signature = pv.last_signature })
  unfolding resign_vote
  resign_vote_lem env pv old new {signed} last e =
      let old_bytes = vote_sign_bytes codec chain_id old in
      let new_bytes = vote_sign_bytes codec chain_id new in
      let e' = rw last at e in
      elim (Bool-cases (bytes_equal new_bytes old_bytes)) [
        | inl same ↦
            let is : signed ≡ record new { signature = pv.last_signature } = cc (rw same at e') in
            (
              ap (vote_sign_bytes codec chain_id) is
                  ∙ unfold vote_sign_bytes in bytes_equal_eq new_bytes old_bytes same,
              rw is refl,
            )
        | inr other ↦
            let (t, checked, is) = resign_vote-choice pv new _ (rw other at e') in
            (
              ap (vote_sign_bytes codec chain_id) is
                  ∙ unfold vote_sign_bytes in check_votes-same old new env.now t checked,
              rw is refl,
            )
      ]

  marshal_proposal-injective :
      (a b : CanonicalJsonProposal) → codec.marshal_proposal a ≡ codec.marshal_proposal b → a ≡ b
  marshal_proposal-injective a b e = some-injective a b (
      sym (laws.unmarshal-marshal_proposal a)
      ∙ ap codec.unmarshal_proposal e
      ∙ laws.unmarshal-marshal_proposal b)

  -- Proposals that differ in their time only, put at one time.
  retimed_proposal :
      (a b : CanonicalJsonProposal) (now : Bytes)
      → record a { timestamp = now } ≡ record b { timestamp = now }
      → record a { timestamp = b.timestamp } ≡ b
  retimed_proposal a b now e =
      ap (λ (x : CanonicalJsonProposal). record x { timestamp = b.timestamp }) e

  -- Both are proposals of this chain, so the comparison answers.
  check_proposals_lem :
      (old new : Proposal) (time t : Time)
      → codec.parse_time (codec.canonical_time old.timestamp) ≡ some t
      → check_proposals_only_differ_by_timestamp codec
          (proposal_sign_bytes codec chain_id old)
          (proposal_sign_bytes codec chain_id new)
          time
        ≡ ok (
          t,
          bytes_equal
              (codec.marshal_proposal (record (canonical_proposal codec chain_id new) {
                timestamp = codec.canonical_time time;
              }))
              (codec.marshal_proposal (record (canonical_proposal codec chain_id old) {
                timestamp = codec.canonical_time time;
              })),
        )
  unfolding check_proposals_only_differ_by_timestamp proposal_sign_bytes
  check_proposals_lem old new time t parsed =
      rw (laws.unmarshal-marshal_proposal (canonical_proposal codec chain_id old)) (
        rw (laws.unmarshal-marshal_proposal (canonical_proposal codec chain_id new))
          (rw parsed refl))

  proposal_retimed :
      (old new : Proposal) (now : Bytes) (t : Time)
      → codec.canonical_time t ≡ codec.canonical_time old.timestamp
      → bytes_equal
          (codec.marshal_proposal
            (record (canonical_proposal codec chain_id new) { timestamp = now }))
          (codec.marshal_proposal
            (record (canonical_proposal codec chain_id old) { timestamp = now }))
        ≡ true
      → proposal_sign_bytes codec chain_id (record new { timestamp = t })
        ≡ proposal_sign_bytes codec chain_id old
  unfolding proposal_sign_bytes
  proposal_retimed old new now t shown same =
      let a = canonical_proposal codec chain_id old in
      let b = canonical_proposal codec chain_id new in
      ap codec.marshal_proposal (
        ap (λ s. record b { timestamp = s }) shown
        ∙ retimed_proposal b a now (marshal_proposal-injective _ _ (bytes_equal_eq _ _ same)))

  check_proposals-same :
      (old new : Proposal) (time t : Time)
      → check_proposals_only_differ_by_timestamp codec
          (proposal_sign_bytes codec chain_id old)
          (proposal_sign_bytes codec chain_id new)
          time
        ≡ ok (t, true)
      → proposal_sign_bytes codec chain_id (record new { timestamp = t })
        ≡ proposal_sign_bytes codec chain_id old
  check_proposals-same old new time t e =
      let (t', parsed, shown) = laws.parse-canonical_time old.timestamp in
      let (et, same) =
        ok-injective t' t _ true (sym (check_proposals_lem old new time t' parsed) ∙ e) in
      proposal_retimed old new (codec.canonical_time time) t
        (ap codec.canonical_time (sym et) ∙ shown) same

  resign_proposal-choice :
      (pv : FilePv) (new : Proposal) (o : Outcome (Time × Bool)) {signed : Proposal}
      → (o >>= λ (timestamp, same).
          if same
          then ok (record new { timestamp = timestamp; signature = pv.last_signature })
          else err conflicting_data)
        ≡ ok signed
      → (t : Time) × (o ≡ ok (t, true))
        × (signed ≡ record new { timestamp = t; signature = pv.last_signature })
  resign_proposal-choice pv new (ok (t, true)) e = (t, refl, cc)
  resign_proposal-choice pv new (ok (t, false)) e = absurd (cc)
  resign_proposal-choice pv new (err x) e = absurd (cc)
  resign_proposal-choice pv new panic e = absurd (cc)

  -- What is given out again is the proposal that was asked for, but for its time, with the last
  -- signature; and the bytes that it stands for are those that were signed last.
  pub resign_proposal_lem :
      (env : Env) (pv : FilePv) (old new : Proposal) {signed : Proposal}
      → pv.last_sign_bytes ≡ some (proposal_sign_bytes codec chain_id old)
      → resign_proposal codec env pv (proposal_sign_bytes codec chain_id new) new ≡ ok signed
      → (proposal_sign_bytes codec chain_id signed ≡ proposal_sign_bytes codec chain_id old)
        × (signed ≡ record new { timestamp = signed.timestamp; signature = pv.last_signature })
  unfolding resign_proposal
  resign_proposal_lem env pv old new {signed} last e =
      let old_bytes = proposal_sign_bytes codec chain_id old in
      let new_bytes = proposal_sign_bytes codec chain_id new in
      let e' = rw last at e in
      elim (Bool-cases (bytes_equal new_bytes old_bytes)) [
        | inl same ↦
            let is : signed ≡ record new { signature = pv.last_signature } = cc (rw same at e') in
            (
              ap (proposal_sign_bytes codec chain_id) is
                  ∙ unfold proposal_sign_bytes in bytes_equal_eq new_bytes old_bytes same,
              rw is refl,
            )
        | inr other ↦
            let (t, checked, is) = resign_proposal-choice pv new _ (rw other at e') in
            (
              ap (proposal_sign_bytes codec chain_id) is
                  ∙ unfold proposal_sign_bytes in check_proposals-same old new env.now t checked,
              rw is refl,
            )
      ]
