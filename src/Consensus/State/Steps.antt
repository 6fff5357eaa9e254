-- ===== src/Consensus/State/Steps.antt =====
-- consensus/state.go: the steps keep every lock and precommit justified.
use mathlib.Core.Option.{some-injective}
use mathlib.Core.Path.{subst}
use de_mars_dmc.Prelude.{
  ℕ, ◌≡◌, inl, inr, Bool, false, not, Option, none, some, List, Bool-cases, Option-cases,
  if◌then◌else◌, arith,
}
use de_mars_dmc.Prelude.Int.{ℤ, ◌≤ℤ◌}
use de_mars_dmc.Types.BlockId.{PartSetHeader}
use de_mars_dmc.Types.VoteSet.Operations.{has_two_thirds_any}
use de_mars_dmc.Consensus.State.{
  Node, RoundState, step_prevote, step_prevote_wait, step_precommit_wait, prevotes_of,
  precommits_of, is_stale, to_step, sign_add_vote, schedule_timeout, do_prevote, enter_prevote,
  enter_prevote_wait, enter_precommit_wait,
}
use de_mars_dmc.Consensus.State.Lock.{
  IsJustified, IsBacked, AllBacked-append, sign_prevote-IsJustified, to_step-IsJustified,
}

module _ {B : Type 0} (node : Node B) where
  pub sign_add_vote-round :
      (cs : RoundState B) (type' : ℕ) (hash : List ℕ) (h : PartSetHeader)
      → (sign_add_vote node cs type' hash h).round ≡ cs.round
  unfolding sign_add_vote
  sign_add_vote-round cs type' hash h = ground arith

  do_prevote-IsJustified :
      (cs : RoundState B) → IsJustified node cs → IsJustified node (do_prevote node cs)
  unfolding do_prevote
  do_prevote-IsJustified cs h = elim (Option-cases cs.locked_block) [
    | inr (b, e) ↦ rw (e, do_prevote) (sign_prevote-IsJustified node cs _ _ h)
    | inl e ↦ elim (Option-cases cs.proposal_block) [
      | inl q ↦ rw (e, q, do_prevote) (sign_prevote-IsJustified node cs _ _ h)
      | inr (b, q) ↦ elim (Bool-cases (node.validate_block b)) [
        | inl v ↦ rw (e, q, v, do_prevote) (sign_prevote-IsJustified node cs _ _ h)
        | inr v ↦ rw (e, q, v, do_prevote) (sign_prevote-IsJustified node cs _ _ h)
      ]
    ]
  ]

  do_prevote-round : (cs : RoundState B) → (do_prevote node cs).round ≡ cs.round
  unfolding do_prevote
  do_prevote-round cs = elim (Option-cases cs.locked_block) [
    | inr (b, e) ↦ rw (e, do_prevote) (sign_add_vote-round cs _ _ _)
    | inl e ↦ elim (Option-cases cs.proposal_block) [
      | inl q ↦ rw (e, q, do_prevote) (sign_add_vote-round cs _ _ _)
      | inr (b, q) ↦ elim (Bool-cases (node.validate_block b)) [
        | inl v ↦ rw (e, q, v, do_prevote) (sign_add_vote-round cs _ _ _)
        | inr v ↦ rw (e, q, v, do_prevote) (sign_add_vote-round cs _ _ _)
      ]
    ]
  ]

  pub not_stale :
      (cs : RoundState B) (height round : ℤ) (step : ℕ)
      → is_stale node cs height round step ≡ false
      → cs.round ≤ℤ round
  not_stale cs height round step h = ground arith

  pub enter_prevote-IsJustified :
      (cs : RoundState B) (height round : ℤ)
      → IsJustified node cs
      → IsJustified node (enter_prevote node cs height round)
  unfolding enter_prevote
  enter_prevote-IsJustified cs height round h =
      elim (Bool-cases (is_stale node cs height round step_prevote)) [
        | inl e ↦ rw (e, enter_prevote) h
        | inr e ↦
            let l = not_stale cs height round step_prevote e in
            rw (e, enter_prevote)
              (to_step-IsJustified node (do_prevote node cs) round step_prevote
                (let r = do_prevote-round cs in rw r l) (do_prevote-IsJustified cs h))
      ]

  schedule_timeout-IsJustified :
      (cs : RoundState B) (height round : ℤ) (step : ℕ)
      → IsJustified node cs
      → IsJustified node (schedule_timeout node cs height round step)
  unfolding schedule_timeout IsBacked
  schedule_timeout-IsJustified cs height round step h = record {
    locked = h.locked;
    requests = AllBacked-append node cs.votes cs.outputs _ h.requests tt;
  }

  -- What the two waiting steps do.
  wait-IsJustified :
      (cs cs' : RoundState B) (height round : ℤ) (step : ℕ) (any : Bool)
      → IsJustified node cs
      → ◌≡◌ {A = Option (RoundState B)}
          (if is_stale node cs height round step
            then some cs
            else if not any
            then none
            else some (to_step node (schedule_timeout node cs height round step) round step))
          (some cs')
      → IsJustified node cs'
  unfolding schedule_timeout
  wait-IsJustified cs cs' height round step any h e =
      elim (Bool-cases (is_stale node cs height round step)) [
        | inl s ↦ subst (IsJustified node) (some-injective _ _ (rw s at e)) h
        | inr s ↦ elim (Bool-cases any) [
          | inr a ↦ absurd (let e' = rw (s, a) at e in cc)
          | inl a ↦ subst (IsJustified node) (some-injective _ _ (rw (s, a) at e)) (
              to_step-IsJustified node (schedule_timeout node cs height round step) round step
                (not_stale cs height round step s)
                (schedule_timeout-IsJustified cs height round step h))
        ]
      ]

  pub enter_prevote_wait-IsJustified :
      (cs cs' : RoundState B) (height round : ℤ)
      → IsJustified node cs
      → enter_prevote_wait node cs height round ≡ some cs'
      → IsJustified node cs'
  unfolding enter_prevote_wait
  enter_prevote_wait-IsJustified cs cs' height round h e =
      wait-IsJustified cs cs' height round step_prevote_wait
        (has_two_thirds_any (prevotes_of cs.votes round)) h e

  pub enter_precommit_wait-IsJustified :
      (cs cs' : RoundState B) (height round : ℤ)
      → IsJustified node cs
      → enter_precommit_wait node cs height round ≡ some cs'
      → IsJustified node cs'
  unfolding enter_precommit_wait
  enter_precommit_wait-IsJustified cs cs' height round h e =
      wait-IsJustified cs cs' height round step_precommit_wait
        (has_two_thirds_any (precommits_of cs.votes round)) h e
