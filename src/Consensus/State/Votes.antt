-- ===== src/Consensus/State/Votes.antt =====
-- consensus/types/height_vote_set.go: a polka stays one while votes come in.
use mathlib.Core.Option.{some-injective}
use mathlib.Core.Path.{subst}
use de_mars_dmc.Prelude.{
  ℕ, ◌≡◌, ◌∙◌, refl, sym, ap, inl, inr, Bool, true, false, not, Option, none, some, [], ◌∷◌,
  is_some, Bool-cases, if◌then◌else◌,
}
use de_mars_dmc.Prelude.Int.{ℤ, pos, pos_part, eqb_ℤ, ltb_ℤ, ◌+ℤ◌, ◌-ℤ◌}
use de_mars_dmc.Prelude.Bytes.{Bytes}
use de_mars_dmc.Types.BlockId.{BlockId, PartSetHeader}
use de_mars_dmc.Types.Vote.{Vote, Scheme, is_vote_type_valid}
use de_mars_dmc.Types.Canonical.{Codec}
use de_mars_dmc.Types.VoteSet.{VoteSet}
use de_mars_dmc.Types.VoteSet.Operations.{add_vote}
use de_mars_dmc.Types.VoteSet.Majority.{maj23-add_vote}
use de_mars_dmc.Consensus.HeightVoteSet.{
  HeightVoteSet, RoundError, find_round, add_round, get_vote_set, add_to_set, add_catchup,
  add_round_vote, ◌>>=◌,
}
use de_mars_dmc.Consensus.HeightVoteSet.Opened.{bind-some}
use de_mars_dmc.Consensus.HeightVoteSet.{catchup_rounds, add_rounds, set_round}
use de_mars_dmc.Types.VoteSet.{insert}
use de_mars_dmc.Prelude.{◌++◌, ltb, length, zero, suc, ◌&&◌}
use de_mars_dmc.Consensus.State.{polka}
use de_mars_dmc.Consensus.State.Rounds.{
  HasPolka, polka-HasPolka, HasPolka-polka, Keeps, Keeps-same, put_vote_set-Keeps, add_round-Keeps,
}

module _ (scheme : Scheme) (codec : Codec) (encode : PartSetHeader → Bytes) where
  add_to_set-Keeps :
      (votes votes' : HeightVoteSet) (vote : Vote) (vs : VoteSet) (r : Bool × Option RoundError)
      → get_vote_set votes vote.round vote.type' ≡ some (some vs)
      → add_to_set scheme codec encode votes vote vs ≡ some (r, votes')
      → Keeps votes votes'
  unfolding add_to_set
  add_to_set-Keeps votes votes' vote vs r g h =
      let (((added, e), vs'), e1, h1) =
        bind-some (add_vote scheme codec encode vs (some vote)) _ (r, votes') h in
      subst (Keeps votes) (ap (λ p. p.1) (some-injective _ _ h1)) (
        put_vote_set-Keeps votes vote.round vote.type' vs vs' g
          (λ b m. maj23-add_vote scheme codec encode vs vs' (some vote) (added, e) b m e1))

  add_catchup-Keeps :
      (votes votes' : HeightVoteSet) (vote : Vote) (peer_id : Bytes) (r : Bool × Option RoundError)
      → add_catchup scheme codec encode votes vote peer_id ≡ some (r, votes')
      → Keeps votes votes'
  unfolding add_catchup
  add_catchup-Keeps votes votes' vote peer_id r h =
      elim (Bool-cases (not (ltb (length (catchup_rounds votes peer_id)) 2))) [
        | inl e ↦
            Keeps-same votes votes'
              (ap (λ p. p.1.round_vote_sets) (sym (some-injective _ _ (rw (e, add_catchup) at h))))
        | inr e ↦
            let (votes1, e1, h1) =
              bind-some (add_round votes vote.round) _ (r, votes') (rw (e, add_catchup) at h) in
            let (found, e2, h2) =
              bind-some (get_vote_set votes1 vote.round vote.type') _ (r, votes') h1 in
            let (vs, e3, h3) = bind-some found _ (r, votes') h2 in
            let opened = catchup_rounds votes peer_id ++ (vote.round ∷ []) in
            let votes2 = record votes1 {
              peer_catchup_rounds = insert peer_id opened votes1.peer_catchup_rounds;
            } in
            let g = e2 ∙ ap some e3 in
            λ k b p.
              add_to_set-Keeps votes2 votes' vote vs r g h3 k b
                (add_round-Keeps votes votes1 vote.round e1 k b p)
      ]

  found-Keeps :
      (votes votes' : HeightVoteSet) (vote : Vote) (peer_id : Bytes) (r : Bool × Option RoundError)
      (found : Option VoteSet)
      → get_vote_set votes vote.round vote.type' ≡ some found
      → ◌≡◌ {A = Option ((Bool × Option RoundError) × HeightVoteSet)}
          (elim found [
            | none ↦ add_catchup scheme codec encode votes vote peer_id
            | some vs ↦ add_to_set scheme codec encode votes vote vs
          ])
          (some (r, votes'))
      → Keeps votes votes'
  found-Keeps votes votes' vote peer_id r none g h = add_catchup-Keeps votes votes' vote peer_id r h
  found-Keeps votes votes' vote peer_id r (some vs) g h =
      add_to_set-Keeps votes votes' vote vs r g h

  -- A vote that comes in leaves every polka what it is.
  pub polka-add_round_vote :
      (votes votes' : HeightVoteSet) (vote : Vote) (peer_id : Bytes) (r : Bool × Option RoundError)
      (k : ℤ) (b : BlockId)
      → add_round_vote scheme codec encode votes vote peer_id ≡ some (r, votes')
      → polka votes k ≡ (b, true)
      → polka votes' k ≡ (b, true)
  unfolding add_round_vote
  polka-add_round_vote votes votes' vote peer_id r k b h p =
      elim (Bool-cases (not (is_vote_type_valid vote.type'))) [
        | inl e ↦
            ap (λ x. polka x k)
              (ap (λ x. x.1) (sym (some-injective _ _ (rw (e, add_round_vote) at h))))
            ∙ p
        | inr e ↦
            let (found, g, h1) =
              bind-some (get_vote_set votes vote.round vote.type') _ (r, votes')
                (rw (e, add_round_vote) at h) in
            HasPolka-polka votes' k b
              (found-Keeps votes votes' vote peer_id r found g h1 k b (polka-HasPolka votes k b p))
      ]

bind-Keeps :
    (votes : HeightVoteSet) (o : Option HeightVoteSet) (f : HeightVoteSet → Option HeightVoteSet)
    (votes' : HeightVoteSet)
    → ((v : HeightVoteSet) → o ≡ some v → Keeps votes v)
    → ((v : HeightVoteSet) → f v ≡ some votes' → Keeps v votes')
    → (o >>= f) ≡ some votes'
    → Keeps votes votes'
bind-Keeps votes o f votes' first rest h =
    let (v, e1, e2) = bind-some o f votes' h in λ k b p. rest v e2 k b (first v e1 k b p)

if-Keeps :
    (votes : HeightVoteSet) (b : Bool) (o : Option HeightVoteSet)
    → ((v : HeightVoteSet) → o ≡ some v → Keeps votes v)
    → (v : HeightVoteSet) → (if b then some votes else o) ≡ some v
    → Keeps votes v
if-Keeps votes true o f v e = subst (Keeps votes) (some-injective _ _ e) (λ k b p. p)
if-Keeps votes false o f v e = f v e

add_rounds-Keeps :
    (n : ℕ) (r : ℤ) (votes votes' : HeightVoteSet)
    → add_rounds n r votes ≡ some votes'
    → Keeps votes votes'
unfolding add_rounds
add_rounds-Keeps zero r votes votes' h = subst (Keeps votes) (some-injective _ _ h) (λ k b p. p)
add_rounds-Keeps (suc n) r votes votes' h =
    bind-Keeps votes
      (if is_some (find_round r votes.round_vote_sets) then some votes else add_round votes r)
      (add_rounds n (r +ℤ pos 1)) votes'
      (if-Keeps votes (is_some (find_round r votes.round_vote_sets)) (add_round votes r)
        (λ v e. add_round-Keeps votes v r e))
      (λ v e. add_rounds-Keeps n (r +ℤ pos 1) v votes' e) h

-- The rounds that `SetRound` opens leave every polka what it is.
pub polka-set_round :
    (votes votes' : HeightVoteSet) (r k : ℤ) (b : BlockId)
    → set_round votes r ≡ some votes'
    → polka votes k ≡ (b, true)
    → polka votes' k ≡ (b, true)
unfolding set_round
polka-set_round votes votes' r k b h p =
    elim (Bool-cases (not (eqb_ℤ votes.round (pos 0)) && ltb_ℤ r (votes.round +ℤ pos 1))) [
      | inl e ↦ absurd (let h' = rw (e, set_round) at h in cc)
      | inr e ↦
          let (v, e1, e2) =
            bind-some (add_rounds (pos_part (r -ℤ votes.round)) (votes.round +ℤ pos 1) votes) _
              votes' (rw (e, set_round) at h) in
          HasPolka-polka votes' k b (
            subst (λ x. HasPolka x k b) (some-injective _ _ e2)
              (Keeps-same v (record v { round = r }) refl k b
                (add_rounds-Keeps (pos_part (r -ℤ votes.round)) (votes.round +ℤ pos 1) votes v e1 k
                  b (polka-HasPolka votes k b p))))
    ]
