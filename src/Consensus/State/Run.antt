-- ===== src/Consensus/State/Run.antt =====
-- consensus/state.go: the states of a height, through any order of steps and messages.
use mathlib.Core.Option.{some-injective}
use mathlib.Core.Path.{subst}
use de_mars_dmc.Prelude.{
  ℕ, zero, suc, ◌≡◌, ◌∙◌, refl, sym, ap, Bool, true, false, Option, none, some, List, [], ◌∷◌,
  length, get_elem?, ◌==◌,
}
use de_mars_dmc.Prelude.Int.{ℤ, ◌≤ℤ◌}
use de_mars_dmc.Prelude.Bytes.{Bytes}
use de_mars_dmc.Types.BlockId.{BlockId, PartSetHeader}
use de_mars_dmc.Types.Vote.{Vote, Proposal, Scheme, vote_type_precommit}
use de_mars_dmc.Types.Canonical.{Codec}
use de_mars_dmc.Types.ValidatorSet.{ValidatorSet}
use de_mars_dmc.Types.PartSet.{PartSet}
use de_mars_dmc.Consensus.HeightVoteSet.{HeightVoteSet, RoundError, add_round_vote, set_round}
use de_mars_dmc.Consensus.State.{
  Node, RoundState, Output, vote_request, polka, hashes_to, enter_prevote, enter_prevote_wait,
  enter_precommit, enter_precommit_wait,
}
use de_mars_dmc.Consensus.State.Receive.{ProposalError, set_proposal, see_polka, stage_commit}
use de_mars_dmc.Consensus.State.Lock.{IsJustified, IsBacked, AllBacked}
use de_mars_dmc.Consensus.State.Steps.{
  enter_prevote-IsJustified, enter_prevote_wait-IsJustified, enter_precommit_wait-IsJustified,
}
use de_mars_dmc.Consensus.State.Precommit.{enter_precommit-IsJustified}
use de_mars_dmc.Consensus.State.Votes.{polka-add_round_vote, polka-set_round}
use de_mars_dmc.Consensus.State.Messages.{
  with_proposal, with_proposal-IsJustified, see_polka-IsJustified, votes-IsJustified,
  advanced-IsJustified, stage_commit-IsJustified, set_proposal-IsJustified,
}

module _ {B : Type 0} (node : Node B) where
  module _ (scheme : Scheme) (codec : Codec) (encode : PartSetHeader → Bytes) where
    -- The states that a height goes through, in any order of what happens. A new round clears the
    -- proposal or not, and brings validators with their priorities; a proposal block is completed.
    -- `enterPrecommit` is called with the current round, as its callers in the code do.
    pub data Reached (start : RoundState B) : RoundState B → Type 0 where
      started : Reached start start
      advanced :
          {cs : RoundState B} (round : ℤ) (step : ℕ) (validators : ValidatorSet)
          → Reached start cs
          → cs.round ≤ℤ round
          → Reached start (record cs { round = round; step = step; validators = validators })
      tracked :
          {cs : RoundState B} (round : ℤ) (votes : HeightVoteSet)
          → Reached start cs
          → set_round cs.votes round ≡ some votes
          → Reached start (record cs { votes = votes })
      proposed :
          {cs : RoundState B} (proposal : Option Proposal) (block : Option B)
          (parts : Option PartSet)
          → Reached start cs
          → Reached start (with_proposal node cs proposal block parts)
      received :
          {cs cs' : RoundState B} (proposal : Proposal) (e : Option ProposalError)
          → Reached start cs
          → set_proposal node cs proposal ≡ some (e, cs')
          → Reached start cs'
      voted :
          {cs : RoundState B} (vote : Vote) (peer_id : Bytes) (r : Bool × Option RoundError)
          (votes : HeightVoteSet)
          → Reached start cs
          → add_round_vote scheme codec encode cs.votes vote peer_id ≡ some (r, votes)
          → Reached start (record cs { votes = votes })
      saw_polka :
          {cs : RoundState B} (round : ℤ)
          → Reached start cs
          → Reached start (see_polka node cs round)
      prevoted :
          {cs : RoundState B} (height round : ℤ)
          → Reached start cs
          → Reached start (enter_prevote node cs height round)
      prevote_waited :
          {cs cs' : RoundState B} (height round : ℤ)
          → Reached start cs
          → enter_prevote_wait node cs height round ≡ some cs'
          → Reached start cs'
      precommitted :
          {cs cs' : RoundState B} (height : ℤ)
          → Reached start cs
          → enter_precommit node cs height cs.round ≡ some cs'
          → Reached start cs'
      precommit_waited :
          {cs cs' : RoundState B} (height round : ℤ)
          → Reached start cs
          → enter_precommit_wait node cs height round ≡ some cs'
          → Reached start cs'
      staged :
          {cs cs' : RoundState B} (round : ℤ)
          → Reached start cs
          → stage_commit node cs round ≡ some cs'
          → Reached start cs'

    -- From a state where they are justified, a lock stays on the block of a polka of its round, and
    -- every precommit for a block that is asked for is backed by a polka for it in its round,
    -- through any votes, proposals, rounds and steps.
    pub Reached-IsJustified :
        {start cs : RoundState B} → IsJustified node start → Reached start cs → IsJustified node cs
    Reached-IsJustified s started = s
    Reached-IsJustified s (advanced {cs = cs} round step validators h l) =
        advanced-IsJustified node cs round step validators l (Reached-IsJustified s h)
    Reached-IsJustified s (tracked {cs = cs} round votes h e) =
        votes-IsJustified node cs votes (λ k b p. polka-set_round cs.votes votes round k b e p)
          (Reached-IsJustified s h)
    Reached-IsJustified s (proposed {cs = cs} proposal block parts h) =
        with_proposal-IsJustified node cs proposal block parts (Reached-IsJustified s h)
    Reached-IsJustified s (received {cs = cs} {cs' = cs'} proposal e h q) =
        set_proposal-IsJustified node cs cs' proposal e (Reached-IsJustified s h) q
    Reached-IsJustified s (voted {cs = cs} vote peer_id r votes h e) =
        votes-IsJustified node cs votes
          (λ k b p. polka-add_round_vote scheme codec encode cs.votes votes vote peer_id r k b e p)
          (Reached-IsJustified s h)
    Reached-IsJustified s (saw_polka {cs = cs} round h) =
        see_polka-IsJustified node cs round (Reached-IsJustified s h)
    Reached-IsJustified s (prevoted {cs = cs} height round h) =
        enter_prevote-IsJustified node cs height round (Reached-IsJustified s h)
    Reached-IsJustified s (prevote_waited {cs = cs} {cs' = cs'} height round h e) =
        enter_prevote_wait-IsJustified node cs cs' height round (Reached-IsJustified s h) e
    Reached-IsJustified s (precommitted {cs = cs} {cs' = cs'} height h e) =
        enter_precommit-IsJustified node cs cs' height (Reached-IsJustified s h) e
    Reached-IsJustified s (precommit_waited {cs = cs} {cs' = cs'} height round h e) =
        enter_precommit_wait-IsJustified node cs cs' height round (Reached-IsJustified s h) e
    Reached-IsJustified s (staged {cs = cs} {cs' = cs'} round h e) =
        stage_commit-IsJustified node cs cs' round (Reached-IsJustified s h) e

    AllBacked-at :
        (votes : HeightVoteSet) (outputs : List Output) (i : ℕ) (o : Output)
        → AllBacked node votes outputs
        → get_elem? outputs i ≡ some o
        → IsBacked node votes o
    unfolding AllBacked
    AllBacked-at votes [] i o h e = absurd (cc)
    AllBacked-at votes (p ∷ outputs) zero o (q, h) e =
        subst (IsBacked node votes) (some-injective _ _ e) q
    AllBacked-at votes (p ∷ outputs) (suc i) o (q, h) e = AllBacked-at votes outputs i o h e

    -- A height starts without a lock and without requests.
    start-IsJustified :
        (start : RoundState B)
        → start.locked_block ≡ none
        → start.outputs ≡ []
        → IsJustified node start
    unfolding AllBacked
    start-IsJustified start l o = record {
      locked = λ b e. absurd (let e' = sym l ∙ e in cc);
      requests = subst (AllBacked node start.votes) (sym o) tt;
    }

    -- From a state without a lock and without requests, through any votes, proposals, rounds and
    -- steps: a locked block is the block of a polka of the locked round, which is not after the
    -- round.
    pub locked-polka :
        {start cs : RoundState B} (b : B)
        → start.locked_block ≡ none
        → start.outputs ≡ []
        → Reached start cs
        → cs.locked_block ≡ some b
        → (block_id : BlockId) × (polka cs.votes cs.locked_round ≡ (block_id, true))
          × (hashes_to node (some b) block_id.hash ≡ true)
          × (cs.locked_round ≤ℤ cs.round)
    locked-polka {start = start} b l o r e =
        (Reached-IsJustified (start-IsJustified start l o) r).locked b e

    -- From a state without a lock and without requests, through any votes, proposals, rounds and
    -- steps: any two precommits for blocks that the signer is asked for in one round are for blocks
    -- of one hash.
    pub precommits_agree :
        {start cs : RoundState B} (i j : ℕ) (h h' round : ℤ) (hash hash' : Bytes)
        (parts parts' : PartSetHeader)
        → start.locked_block ≡ none
        → start.outputs ≡ []
        → Reached start cs
        → get_elem? cs.outputs i ≡ some (vote_request h round vote_type_precommit hash parts)
        → get_elem? cs.outputs j ≡ some (vote_request h' round vote_type_precommit hash' parts')
        → (length hash == 0) ≡ false
        → (length hash' == 0) ≡ false
        → hash ≡ hash'
    unfolding IsBacked
    precommits_agree {start = start} {cs = cs} i j h h' round hash hash' parts parts' l o r e e' q
          q' =
        let backed = (Reached-IsJustified (start-IsJustified start l o) r).requests in
        let (b, p, s) = AllBacked-at cs.votes cs.outputs i _ backed e refl q in
        let (b', p', s') = AllBacked-at cs.votes cs.outputs j _ backed e' refl q' in
        sym s ∙ ap (λ (x : BlockId × Bool). x.0.hash) (sym p ∙ p') ∙ s'
