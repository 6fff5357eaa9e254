-- ===== src/Consensus/State/Precommit.antt =====
-- consensus/state.go: `enterPrecommit` locks and precommits the block of a polka of the round.
use mathlib.Core.Option.{some-injective}
use mathlib.Core.Path.{subst}
use de_mars_dmc.Prelude.{
  ◌≡◌, ◌∙◌, refl, sym, ap, inl, inr, Bool, true, false, Option, some, [], length, ◌==◌, is_some,
  Bool-cases, Option-cases, if◌then◌else◌, arith,
}
use de_mars_dmc.Prelude.Int.{ℤ, ltb_ℤ}
use de_mars_dmc.Prelude.Result.{Result, ok, err, panic}
use de_mars_dmc.Types.BlockId.{BlockId}
use de_mars_dmc.Types.Vote.{vote_type_precommit}
use de_mars_dmc.Types.PartSet.{
  PartSet, PartSetError, zero_header, has_header, new_part_set_from_header,
}
use de_mars_dmc.Consensus.HeightVoteSet.{pol_info}
use de_mars_dmc.Consensus.State.{
  Node, RoundState, step_precommit, polka, hashes_to, is_stale, sign_add_vote, unlock, fetch,
  precommit_unknown, precommit_block, do_precommit, enter_precommit,
}
use de_mars_dmc.Consensus.State.Lock.{
  IsJustified, sign_nil-IsJustified, sign_polka-IsJustified, unlock-IsJustified,
  to_step-IsJustified,
}
use de_mars_dmc.Consensus.State.Steps.{sign_add_vote-round}

module _ {B : Type 0} (node : Node B) where
  -- Where a step ends, its round is the same, and what it locks and asks for is justified.
  abbrev pub IsKept : RoundState B → RoundState B → Type 0
  IsKept cs cs' = (cs'.round ≡ cs.round) × IsJustified node cs'

  pub fetch-IsKept :
      (cs cs' : RoundState B) (r : Result PartSetError PartSet)
      → IsJustified node cs
      → fetch node cs r ≡ some cs'
      → IsKept cs cs'
  fetch-IsKept cs cs' (ok parts) h e =
      subst (IsKept cs) (some-injective _ _ e)
        (refl, record { locked = h.locked; requests = h.requests })
  fetch-IsKept cs cs' (err x) h e = absurd (cc)
  fetch-IsKept cs cs' panic h e = absurd (cc)

  sign_nil-IsKept :
      (cs cs' : RoundState B)
      → IsKept cs cs'
      → IsKept cs (sign_add_vote node cs' vote_type_precommit [] zero_header)
  sign_nil-IsKept cs cs' (r, h) = (
    sign_add_vote-round node cs' vote_type_precommit [] zero_header ∙ r,
    sign_nil-IsJustified node cs' vote_type_precommit h,
  )

  sign_polka-IsKept :
      (cs : RoundState B) (block_id : BlockId)
      → polka cs.votes cs.round ≡ (block_id, true)
      → IsJustified node cs
      → IsKept cs (sign_add_vote node cs vote_type_precommit block_id.hash block_id.parts_header)
  sign_polka-IsKept cs block_id p h = (
    sign_add_vote-round node cs vote_type_precommit block_id.hash block_id.parts_header,
    sign_polka-IsJustified node cs block_id p h,
  )

  precommit_unknown-IsKept :
      (cs cs' : RoundState B) (block_id : BlockId)
      → IsJustified node cs
      → precommit_unknown node cs block_id ≡ some cs'
      → IsKept cs cs'
  unfolding precommit_unknown
  precommit_unknown-IsKept cs cs' block_id h e =
      let cs1 = unlock node cs in
      let h1 = unlock-IsJustified node cs h in
      elim (Bool-cases (has_header cs.proposal_block_parts block_id.parts_header)) [
        | inl q ↦
            subst (IsKept cs) (some-injective _ _ (rw (q, precommit_unknown) at e))
              (sign_nil-IsKept cs cs1 (refl, h1))
        | inr q ↦
            elim (Option-cases (fetch node cs1 (new_part_set_from_header block_id.parts_header))) [
              | inl f ↦ absurd (let e' = rw (q, f, precommit_unknown) at e in cc)
              | inr (cs2, f) ↦
                  subst (IsKept cs) (some-injective _ _ (rw (q, f, precommit_unknown) at e)) (
                    sign_nil-IsKept cs cs2
                      (fetch-IsKept cs1 cs2 (new_part_set_from_header block_id.parts_header) h1 f))
            ]
      ]

  -- A block of the polka of the round is locked.
  lock-IsJustified :
      (cs : RoundState B) (b : B) (parts : Option PartSet) (block_id : BlockId)
      → polka cs.votes cs.round ≡ (block_id, true)
      → hashes_to node (some b) block_id.hash ≡ true
      → IsJustified node cs
      → IsJustified node
          (record cs { locked_round = cs.round; locked_block = some b; locked_block_parts = parts })
  lock-IsJustified cs b parts block_id p q h = record {
    locked = λ b' e. (
      block_id,
      p,
      ap (λ x. hashes_to node (some x) block_id.hash) (sym (some-injective _ _ e)) ∙ q,
      omega arith,
    );
    requests = h.requests;
  }

  relock-IsJustified :
      (cs : RoundState B) (block_id : BlockId)
      → polka cs.votes cs.round ≡ (block_id, true)
      → hashes_to node cs.locked_block block_id.hash ≡ true
      → IsJustified node cs
      → IsJustified node (record cs { locked_round = cs.round })
  relock-IsJustified cs block_id p q h = record {
    locked = λ b e. (block_id, p, rw e at q, omega arith);
    requests = h.requests;
  }

  precommit_block-IsKept :
      (cs cs' : RoundState B) (block_id : BlockId)
      → polka cs.votes cs.round ≡ (block_id, true)
      → IsJustified node cs
      → precommit_block node cs cs.round block_id ≡ some cs'
      → IsKept cs cs'
  unfolding precommit_block
  precommit_block-IsKept cs cs' block_id p h e =
      elim (Bool-cases (hashes_to node cs.locked_block block_id.hash)) [
        | inl q ↦ subst (IsKept cs) (some-injective _ _ (rw (q, precommit_block) at e)) (
            sign_polka-IsKept (record cs { locked_round = cs.round }) block_id p
              (relock-IsJustified cs block_id p q h))
        | inr q ↦ elim (Option-cases cs.proposal_block) [
          | inl a ↦ precommit_unknown-IsKept cs cs' block_id h (rw (q, a, precommit_block) at e)
          | inr (b, a) ↦ elim (Bool-cases (hashes_to node (some b) block_id.hash)) [
            | inr c ↦
                precommit_unknown-IsKept cs cs' block_id h (rw (q, a, c, precommit_block) at e)
            | inl c ↦ elim (Bool-cases (node.validate_block b)) [
              | inr v ↦ absurd (let e' = rw (q, a, c, v, precommit_block) at e in cc)
              | inl v ↦
                  subst (IsKept cs) (some-injective _ _ (rw (q, a, c, v, precommit_block) at e)) (
                    sign_polka-IsKept
                      (record cs {
                        locked_round = cs.round;
                        locked_block = some b;
                        locked_block_parts = cs.proposal_block_parts;
                      })
                      block_id p (lock-IsJustified cs b cs.proposal_block_parts block_id p c h))
            ]
          ]
        ]
      ]

  nil_polka-IsKept :
      (cs : RoundState B) (b : Bool)
      → IsJustified node cs
      → IsKept cs (if b then unlock node cs else cs)
  nil_polka-IsKept cs true h = (refl, unlock-IsJustified node cs h)
  nil_polka-IsKept cs false h = (refl, h)

  do_precommit-IsKept :
      (cs cs' : RoundState B) (found : BlockId × Bool)
      → polka cs.votes cs.round ≡ found
      → IsJustified node cs
      → do_precommit node cs cs.round found ≡ some cs'
      → IsKept cs cs'
  unfolding do_precommit
  do_precommit-IsKept cs cs' (block_id, false) p h e =
      subst (IsKept cs) (some-injective _ _ e) (sign_nil-IsKept cs cs (refl, h))
  do_precommit-IsKept cs cs' (block_id, true) p h e =
      elim (Bool-cases (ltb_ℤ (pol_info cs.votes).0 cs.round)) [
        | inl q ↦ absurd (let e' = rw (q, do_precommit) at e in cc)
        | inr q ↦ elim (Bool-cases (length block_id.hash == 0)) [
          | inl l ↦
              subst (IsKept cs) (some-injective _ _ (rw (q, l, do_precommit) at e))
                (sign_nil-IsKept cs _ (nil_polka-IsKept cs (is_some cs.locked_block) h))
          | inr l ↦ precommit_block-IsKept cs cs' block_id p h (rw (q, l, do_precommit) at e)
        ]
      ]

  pub enter_precommit-IsJustified :
      (cs cs' : RoundState B) (height : ℤ)
      → IsJustified node cs
      → enter_precommit node cs height cs.round ≡ some cs'
      → IsJustified node cs'
  unfolding enter_precommit
  enter_precommit-IsJustified cs cs' height h e =
      elim (Bool-cases (is_stale node cs height cs.round step_precommit)) [
        | inl s ↦ subst (IsJustified node) (some-injective _ _ (rw (s, enter_precommit) at e)) h
        | inr s ↦ elim (Option-cases (do_precommit node cs cs.round (polka cs.votes cs.round))) [
          | inl q ↦ absurd (let e' = rw (s, q, enter_precommit) at e in cc)
          | inr (cs1, q) ↦
              let (r, h1) = do_precommit-IsKept cs cs1 (polka cs.votes cs.round) refl h q in
              subst (IsJustified node) (some-injective _ _ (rw (s, q, enter_precommit) at e))
                (to_step-IsJustified node cs1 cs.round step_precommit (rw r (omega arith)) h1)
        ]
      ]
