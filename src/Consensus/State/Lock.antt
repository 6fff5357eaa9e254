-- ===== src/Consensus/State/Lock.antt =====
-- consensus/state.go: a lock, and a precommit for a block, rest on a polka.
use de_mars_dmc.Prelude.{
  ℕ, ◌≡◌, refl, inl, inr, true, false, some, List, [], ◌∷◌, ◌++◌, length, ◌==◌, Bool-cases, arith,
}
use de_mars_dmc.Prelude.Int.{ℤ, ◌≤ℤ◌}
use de_mars_dmc.Prelude.Bytes.{Bytes}
use de_mars_dmc.Types.BlockId.{BlockId, PartSetHeader}
use de_mars_dmc.Types.Vote.{vote_type_precommit, vote_type_prevote}
use de_mars_dmc.Types.PartSet.{zero_header}
use de_mars_dmc.Consensus.HeightVoteSet.{HeightVoteSet}
use de_mars_dmc.Consensus.State.{
  Node, RoundState, Output, vote_request, timeout_request, new_step, polka, hashes_to, is_own,
  to_step, sign_add_vote, unlock,
}

module _ {B : Type 0} (node : Node B) where
  -- A precommit that is asked for is for nil, or for the block of a polka of its round.
  unfoldable pub IsBacked : HeightVoteSet → Output → Type 0
  IsBacked votes (vote_request height round type' hash parts_header) =
      (type' ≡ vote_type_precommit)
      → (length hash == 0) ≡ false
      → (block_id : BlockId) × (polka votes round ≡ (block_id, true)) × (block_id.hash ≡ hash)
  IsBacked votes (timeout_request height round step) = Unit
  IsBacked votes (new_step height round step) = Unit

  unfoldable pub AllBacked : HeightVoteSet → List Output → Type 0
  unfolding IsBacked
  AllBacked votes [] = Unit
  AllBacked votes (o ∷ outputs) = IsBacked votes o × AllBacked votes outputs

  pub AllBacked-append :
      (votes : HeightVoteSet) (outputs : List Output) (o : Output)
      → AllBacked votes outputs
      → IsBacked votes o
      → AllBacked votes (outputs ++ (o ∷ []))
  unfolding AllBacked
  AllBacked-append votes [] o h b = (b, tt)
  AllBacked-append votes (p ∷ outputs) o (q, h) b = (q, AllBacked-append votes outputs o h b)

  -- A lock is on the block of a polka of the locked round, which has been reached.
  pub record IsJustified (cs : RoundState B) : Type 0 where
    pub locked :
        (b : B)
        → cs.locked_block ≡ some b
        → (block_id : BlockId) × (polka cs.votes cs.locked_round ≡ (block_id, true))
          × (hashes_to node (some b) block_id.hash ≡ true)
          × (cs.locked_round ≤ℤ cs.round)
    pub requests : AllBacked cs.votes cs.outputs

  pub sign_nil-IsJustified :
      (cs : RoundState B) (type' : ℕ)
      → IsJustified cs
      → IsJustified (sign_add_vote node cs type' [] zero_header)
  unfolding sign_add_vote IsBacked
  sign_nil-IsJustified cs type' h =
      elim (Bool-cases (is_own node node.priv_address cs.validators)) [
        | inr e ↦ rw (e, sign_add_vote) h
        | inl e ↦
            rw (e, sign_add_vote)
              (record {
                locked = h.locked;
                requests = AllBacked-append cs.votes cs.outputs _ h.requests (λ t l. absurd (cc));
              })
      ]

  -- A prevote is not a precommit.
  pub sign_prevote-IsJustified :
      (cs : RoundState B) (hash : Bytes) (parts_header : PartSetHeader)
      → IsJustified cs
      → IsJustified (sign_add_vote node cs vote_type_prevote hash parts_header)
  unfolding sign_add_vote IsBacked
  sign_prevote-IsJustified cs hash parts_header h =
      elim (Bool-cases (is_own node node.priv_address cs.validators)) [
        | inr e ↦ rw (e, sign_add_vote) h
        | inl e ↦
            rw (e, sign_add_vote)
              (record {
                locked = h.locked;
                requests =
                    AllBacked-append cs.votes cs.outputs _ h.requests
                      (λ t l. absurd (omega (arith, t)));
              })
      ]

  pub sign_polka-IsJustified :
      (cs : RoundState B) (block_id : BlockId)
      → polka cs.votes cs.round ≡ (block_id, true)
      → IsJustified cs
      → IsJustified (sign_add_vote node cs vote_type_precommit block_id.hash block_id.parts_header)
  unfolding sign_add_vote IsBacked
  sign_polka-IsJustified cs block_id p h =
      elim (Bool-cases (is_own node node.priv_address cs.validators)) [
        | inr e ↦ rw (e, sign_add_vote) h
        | inl e ↦
            rw (e, sign_add_vote)
              (record {
                locked = h.locked;
                requests =
                    AllBacked-append cs.votes cs.outputs _ h.requests (λ t l. (block_id, p, refl));
              })
      ]

  pub unlock-IsJustified : (cs : RoundState B) → IsJustified cs → IsJustified (unlock node cs)
  unlock-IsJustified cs h = record { locked = λ b e. absurd (cc); requests = h.requests }

  pub to_step-IsJustified :
      (cs : RoundState B) (round : ℤ) (step : ℕ)
      → cs.round ≤ℤ round
      → IsJustified cs
      → IsJustified (to_step node cs round step)
  unfolding to_step IsBacked
  to_step-IsJustified cs round step l h = record {
    locked = λ b e. let (block_id, p, q, r) = h.locked b e in (block_id, p, q, omega arith);
    requests = AllBacked-append cs.votes cs.outputs _ h.requests tt;
  }
