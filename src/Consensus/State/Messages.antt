-- ===== src/Consensus/State/Messages.antt =====
-- consensus/state.go: proposals, votes and majorities keep every lock and precommit justified.
use mathlib.Core.Option.{some-injective}
use mathlib.Core.Path.{subst}
use de_mars_dmc.Prelude.{
  ℕ, ◌≡◌, ap, inl, inr, Bool, true, false, not, Option, none, some, List, [], ◌∷◌, is_some, leb,
  ◌||◌, Bool-cases, if◌then◌else◌, arith,
}
use de_mars_dmc.Prelude.Int.{ℤ, eqb_ℤ, ◌≤ℤ◌}
use de_mars_dmc.Prelude.Result.{Result, ok, err, panic}
use de_mars_dmc.Types.BlockId.{BlockId}
use de_mars_dmc.Types.Vote.{Proposal}
use de_mars_dmc.Types.ValidatorSet.{ValidatorSet}
use de_mars_dmc.Types.VoteSet.Operations.{two_thirds_majority}
use de_mars_dmc.Types.PartSet.{PartSet, PartSetError, new_part_set_from_header, has_header}
use de_mars_dmc.Consensus.HeightVoteSet.{HeightVoteSet}
use de_mars_dmc.Consensus.State.{
  Node, RoundState, Output, vote_request, timeout_request, new_step, polka, precommits_of,
  hashes_to, unlock, fetch, step_commit,
}
use de_mars_dmc.Consensus.State.Receive.{
  ProposalError, set_proposal, with_parts, bad_pol_round, unlocks, renew_valid, see_polka,
  stage_commit,
}
use de_mars_dmc.Consensus.State.Lock.{IsJustified, IsBacked, AllBacked, unlock-IsJustified}
use de_mars_dmc.Consensus.State.Precommit.{fetch-IsKept}

module _ {B : Type 0} (node : Node B) where
  -- What is done to the proposal leaves all that is justified.
  abbrev pub with_proposal :
      RoundState B → Option Proposal → Option B → Option PartSet → RoundState B
  with_proposal cs proposal block parts = record cs {
    proposal = proposal;
    proposal_block = block;
    proposal_block_parts = parts;
  }

  pub with_proposal-IsJustified :
      (cs : RoundState B) (proposal : Option Proposal) (block : Option B) (parts : Option PartSet)
      → IsJustified node cs
      → IsJustified node (with_proposal cs proposal block parts)
  with_proposal-IsJustified cs proposal block parts h = record {
    locked = h.locked;
    requests = h.requests;
  }

  pub renew_valid-IsJustified :
      (cs : RoundState B) (round : ℤ) (b : Bool)
      → IsJustified node cs
      → IsJustified node (if b then renew_valid node cs round else cs)
  renew_valid-IsJustified cs round true h = record { locked = h.locked; requests = h.requests }
  renew_valid-IsJustified cs round false h = h

  pub if_unlock-IsJustified :
      (cs : RoundState B) (b : Bool)
      → IsJustified node cs
      → IsJustified node (if b then unlock node cs else cs)
  if_unlock-IsJustified cs true h = unlock-IsJustified node cs h
  if_unlock-IsJustified cs false h = h

  pub see_polka-IsJustified :
      (cs : RoundState B) (round : ℤ)
      → IsJustified node cs
      → IsJustified node (see_polka node cs round)
  unfolding see_polka
  see_polka-IsJustified cs round h =
      let (block_id, found) = polka cs.votes round in
      elim (Bool-cases (polka cs.votes round).1) [
        | inr e ↦ rw (e, see_polka) h
        | inl e ↦
            rw (e, see_polka)
              (renew_valid-IsJustified _ round _
                (if_unlock-IsJustified cs (unlocks node cs round (polka cs.votes round).0) h))
      ]

  -- A vote or a round that comes in.
  votes-AllBacked :
      (votes votes' : HeightVoteSet) (outputs : List Output)
      → ((k : ℤ) (b : BlockId) → polka votes k ≡ (b, true) → polka votes' k ≡ (b, true))
      → AllBacked node votes outputs
      → AllBacked node votes' outputs
  unfolding AllBacked IsBacked
  votes-AllBacked votes votes' [] keep h = tt
  votes-AllBacked votes votes' (vote_request height round t hash p ∷ outputs) keep (q, h) = (
    λ a b. let (block_id, e, s) = q a b in (block_id, keep round block_id e, s),
    votes-AllBacked votes votes' outputs keep h,
  )
  votes-AllBacked votes votes' (timeout_request height round step ∷ outputs) keep (q, h) =
      (tt, votes-AllBacked votes votes' outputs keep h)
  votes-AllBacked votes votes' (new_step height round step ∷ outputs) keep (q, h) =
      (tt, votes-AllBacked votes votes' outputs keep h)

  pub votes-IsJustified :
      (cs : RoundState B) (votes' : HeightVoteSet)
      → ((k : ℤ) (b : BlockId) → polka cs.votes k ≡ (b, true) → polka votes' k ≡ (b, true))
      → IsJustified node cs
      → IsJustified node (record cs { votes = votes' })
  votes-IsJustified cs votes' keep h = record {
    locked = λ b e.
        let (block_id, p, q, r) = h.locked b e in (block_id, keep cs.locked_round block_id p, q, r);
    requests = votes-AllBacked cs.votes votes' cs.outputs keep h.requests;
  }

  -- A new round, with the validators of it.
  pub advanced-IsJustified :
      (cs : RoundState B) (round : ℤ) (step : ℕ) (validators : ValidatorSet)
      → cs.round ≤ℤ round
      → IsJustified node cs
      → IsJustified node (record cs { round = round; step = step; validators = validators })
  advanced-IsJustified cs round step validators l h = record {
    locked = λ b e. let (block_id, p, q, r) = h.locked b e in (block_id, p, q, omega arith);
    requests = h.requests;
  }

  pub commit_proposal-IsJustified :
      (cs : RoundState B) (b : Bool)
      → IsJustified node cs
      → IsJustified node (
          if b
          then record cs {
            proposal_block = cs.locked_block;
            proposal_block_parts = cs.locked_block_parts;
          }
          else cs)
  commit_proposal-IsJustified cs true h =
      with_proposal-IsJustified cs cs.proposal cs.locked_block cs.locked_block_parts h
  commit_proposal-IsJustified cs false h = h

  -- What is fetched when the block is not here.
  pub staged-IsJustified :
      (cs cs' : RoundState B) (a b : Bool) (r : Result PartSetError PartSet)
      → IsJustified node cs
      → ◌≡◌ {A = Option (RoundState B)}
          (if not a then if not b then fetch node cs r else some cs else some cs)
          (some cs')
      → IsJustified node cs'
  staged-IsJustified cs cs' true b r h e = subst (IsJustified node) (some-injective _ _ e) h
  staged-IsJustified cs cs' false true r h e = subst (IsJustified node) (some-injective _ _ e) h
  staged-IsJustified cs cs' false false r h e = (fetch-IsKept node cs cs' r h e).1

  pub stage_commit-IsJustified :
      (cs cs' : RoundState B) (round : ℤ)
      → IsJustified node cs
      → stage_commit node cs round ≡ some cs'
      → IsJustified node cs'
  unfolding stage_commit
  stage_commit-IsJustified cs cs' round h e =
      let majority = two_thirds_majority (precommits_of cs.votes round) in
      elim (Bool-cases majority.1) [
        | inr q ↦ absurd (let e' = rw (q, stage_commit) at e in cc)
        | inl q ↦
            let block_id = majority.0 in
            let cs1 : RoundState B =
              (if hashes_to node cs.locked_block block_id.hash
                then record cs {
                  proposal_block = cs.locked_block;
                  proposal_block_parts = cs.locked_block_parts;
                }
                else cs) in
            staged-IsJustified cs1 cs' (hashes_to node cs1.proposal_block block_id.hash)
              (has_header cs1.proposal_block_parts block_id.parts_header)
              (new_part_set_from_header block_id.parts_header)
              (commit_proposal-IsJustified cs (hashes_to node cs.locked_block majority.0.hash) h)
              (rw (q, stage_commit) at e)
      ]

  pub guard-IsJustified :
      (cs cs' : RoundState B) (b : Bool) (e1 e : Option ProposalError)
      (o : Option (Option ProposalError × RoundState B))
      → IsJustified node cs
      → (o ≡ some (e, cs') → IsJustified node cs')
      → (if b then some (e1, cs) else o) ≡ some (e, cs')
      → IsJustified node cs'
  guard-IsJustified cs cs' true e1 e o h k q =
      subst (IsJustified node) (ap (λ p. p.1) (some-injective _ _ q)) h
  guard-IsJustified cs cs' false e1 e o h k q = k q

  pub with_parts-IsJustified :
      (cs cs' : RoundState B) (proposal : Proposal) (r : Result PartSetError PartSet)
      (e : Option ProposalError)
      → IsJustified node cs
      → with_parts node cs proposal r ≡ some (e, cs')
      → IsJustified node cs'
  with_parts-IsJustified cs cs' proposal (ok parts) e h q =
      subst (IsJustified node) (ap (λ p. p.1) (some-injective _ _ q))
        (with_proposal-IsJustified cs (some proposal) cs.proposal_block (some parts) h)
  with_parts-IsJustified cs cs' proposal (err x) e h q = absurd (cc)
  with_parts-IsJustified cs cs' proposal panic e h q = absurd (cc)

  pub set_proposal-IsJustified :
      (cs cs' : RoundState B) (proposal : Proposal) (e : Option ProposalError)
      → IsJustified node cs
      → set_proposal node cs proposal ≡ some (e, cs')
      → IsJustified node cs'
  unfolding set_proposal
  set_proposal-IsJustified cs cs' proposal e h q =
      guard-IsJustified cs cs' (is_some cs.proposal) none e _ h
        (guard-IsJustified cs cs'
          (not (eqb_ℤ proposal.height cs.height) || not (eqb_ℤ proposal.round cs.round)) none e _ h
          (guard-IsJustified cs cs' (leb step_commit cs.step) none e _ h (
            guard-IsJustified cs cs' (bad_pol_round node proposal) _ e _ h (
              with_parts-IsJustified cs cs' proposal
                (new_part_set_from_header proposal.block_parts_header) e h))))
        q
