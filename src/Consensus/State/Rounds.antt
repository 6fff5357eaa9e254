-- ===== src/Consensus/State/Rounds.antt =====
-- consensus/types/height_vote_set.go: the rounds that have a polka, after a write to one of them.
use mathlib.Core.Option.{some-injective}
use de_mars_dmc.Prelude.{
  ℕ, ◌≡◌, ◌∙◌, refl, sym, ap, inl, inr, Bool, true, some, List, [], ◌∷◌, is_some, ◌==◌, Bool-cases,
  Option-cases, if◌then◌else◌, arith,
}
use de_mars_dmc.Prelude.Int.{ℤ, eqb_ℤ, eq_of_parts}
use de_mars_dmc.Types.BlockId.{BlockId}
use de_mars_dmc.Types.Vote.{vote_type_prevote, vote_type_precommit}
use de_mars_dmc.Types.VoteSet.{VoteSet, new_vote_set}
use de_mars_dmc.Types.VoteSet.Operations.{two_thirds_majority}
use de_mars_dmc.Consensus.HeightVoteSet.{
  HeightVoteSet, RoundVoteSet, find_round, put_round, add_round, get_vote_set, put_vote_set,
}
use de_mars_dmc.Consensus.HeightVoteSet.Opened.{bind-some}
use de_mars_dmc.Consensus.State.{polka, prevotes_of}

eqb_ℤ-eq : (a b : ℤ) → eqb_ℤ a b ≡ true → a ≡ b
eqb_ℤ-eq a b h = eq_of_parts a b (ground arith)

-- After a write the written round has the new sets, and any other what it had.
find_round-put_round :
    (j k : ℤ) (v : RoundVoteSet) (rounds : List (ℤ × RoundVoteSet))
    → find_round j (put_round k v rounds) ≡ (if eqb_ℤ j k then some v else find_round j rounds)
unfolding find_round put_round
find_round-put_round j k v [] = refl
find_round-put_round j k v ((i, w) ∷ rounds) = elim (Bool-cases (eqb_ℤ k i)) [
  | inl e ↦
      let same = eqb_ℤ-eq k i e in
      elim (Bool-cases (eqb_ℤ j k)) [ inl q ↦ rw (e, q) | inr q ↦ rw (e, q, rw same at q) ]
  | inr e ↦
      let rest = find_round-put_round j k v rounds in
      elim (Bool-cases (eqb_ℤ j k)) [
        | inl q ↦
            let other = ap (λ x. eqb_ℤ x i) (eqb_ℤ-eq j k q) ∙ e in rw (e, q, other) (rw q at rest)
        | inr q ↦ rw (e, q) (ap (λ o. if eqb_ℤ j i then some w else o) (rw q at rest))
      ]
]

-- The prevotes of a round have found a majority.
abbrev pub HasPolka : HeightVoteSet → ℤ → BlockId → Type 0
HasPolka votes k b =
    (rvs : RoundVoteSet) × (find_round k votes.round_vote_sets ≡ some rvs)
    × (rvs.prevotes.maj23 ≡ some b)

pub polka-HasPolka :
    (votes : HeightVoteSet) (k : ℤ) (b : BlockId) → polka votes k ≡ (b, true) → HasPolka votes k b
unfolding polka prevotes_of get_vote_set two_thirds_majority
polka-HasPolka votes k b h = elim (Option-cases (find_round k votes.round_vote_sets)) [
  | inl e ↦ absurd (let h' = rw (e, polka, prevotes_of, get_vote_set) at h in cc)
  | inr (rvs, e) ↦ elim (Option-cases rvs.prevotes.maj23) [
    | inl m ↦
        absurd
          (let h' = rw (e, polka, prevotes_of, get_vote_set, two_thirds_majority, m) at h in cc)
    | inr (b', m) ↦
        let h' = rw (e, polka, prevotes_of, get_vote_set, two_thirds_majority, m) at h in
        (rvs, e, m ∙ ap (λ (p : BlockId × Bool). some p.0) h')
  ]
]

pub HasPolka-polka :
    (votes : HeightVoteSet) (k : ℤ) (b : BlockId) → HasPolka votes k b → polka votes k ≡ (b, true)
unfolding polka prevotes_of get_vote_set two_thirds_majority
HasPolka-polka votes k b (rvs, e, m) =
    rw (e, polka, prevotes_of, get_vote_set, two_thirds_majority, m) refl

abbrev pub Keeps : HeightVoteSet → HeightVoteSet → Type 0
Keeps votes votes' = (k : ℤ) (b : BlockId) → HasPolka votes k b → HasPolka votes' k b

pub Keeps-same :
    (votes votes' : HeightVoteSet)
    → votes'.round_vote_sets ≡ votes.round_vote_sets
    → Keeps votes votes'
Keeps-same votes votes' s k b (rvs, e, m) = (rvs, ap (find_round k) s ∙ e, m)

-- The sets of a round with one of the two replaced.
abbrev replaced : RoundVoteSet → ℕ → VoteSet → RoundVoteSet
replaced rvs type' vs =
    if type' == vote_type_prevote
    then record rvs { prevotes = vs }
    else record rvs { precommits = vs }

found_in :
    (votes : HeightVoteSet) (r : ℤ) (type' : ℕ) (rvs : RoundVoteSet) (vs : VoteSet)
    → find_round r votes.round_vote_sets ≡ some rvs
    → get_vote_set votes r type' ≡ some (some vs)
    → (type' == vote_type_prevote) ≡ true
    → rvs.prevotes ≡ vs
unfolding get_vote_set
found_in votes r type' rvs vs f g t =
    some-injective _ _ (some-injective _ _ (rw (f, get_vote_set, t) at g))

pub put_vote_set-Keeps :
    (votes : HeightVoteSet) (r : ℤ) (type' : ℕ) (vs vs' : VoteSet)
    → get_vote_set votes r type' ≡ some (some vs)
    → ((b : BlockId) → vs.maj23 ≡ some b → vs'.maj23 ≡ some b)
    → Keeps votes (put_vote_set votes r type' vs')
unfolding put_vote_set
put_vote_set-Keeps votes r type' vs vs' g kept k b (rv, e, m) =
    elim (Option-cases (find_round r votes.round_vote_sets)) [
      | inl f ↦ (rv, rw (f, put_vote_set) e, m)
      | inr (rvs, f) ↦
          let written = find_round-put_round k r (replaced rvs type' vs') votes.round_vote_sets in
          elim (Bool-cases (eqb_ℤ k r)) [
            | inr q ↦ (rv, rw (f, put_vote_set) (rw q at written ∙ e), m)
            | inl q ↦
                let same =
                  some-injective _ _
                    (sym e ∙ ap (λ x. find_round x votes.round_vote_sets) (eqb_ℤ-eq k r q) ∙ f) in
                let m' = ap (λ x. x.prevotes.maj23) (sym same) ∙ m in
                (
                  replaced rvs type' vs',
                  rw (f, put_vote_set) (rw q at written),
                  elim (Bool-cases (type' == vote_type_prevote)) [
                    | inl t ↦ rw t (
                        kept b (ap (λ x. x.maj23) (sym (found_in votes r type' rvs vs f g t)) ∙ m'))
                    | inr t ↦ rw t m'
                  ],
                )
          ]
    ]

pub add_round-Keeps :
    (votes votes' : HeightVoteSet) (r : ℤ) → add_round votes r ≡ some votes' → Keeps votes votes'
unfolding add_round
add_round-Keeps votes votes' r h k b (rv, f, m) =
    elim (Bool-cases (is_some (find_round r votes.round_vote_sets))) [
      | inl e ↦ absurd (let h' = rw (e, add_round) at h in cc)
      | inr e ↦
          let (prevotes, e1, h1) =
            bind-some (new_vote_set votes.chain_id votes.height r vote_type_prevote votes.val_set) _
              votes' (rw (e, add_round) at h) in
          let (precommits, e2, h2) =
            bind-some (new_vote_set votes.chain_id votes.height r vote_type_precommit votes.val_set)
              _ votes' h1 in
          let sets : RoundVoteSet = record { prevotes = prevotes; precommits = precommits } in
          let written = find_round-put_round k r sets votes.round_vote_sets in
          elim (Bool-cases (eqb_ℤ k r)) [
            | inl q ↦ absurd (
                let g = ap (λ x. is_some (find_round x votes.round_vote_sets)) (eqb_ℤ-eq k r q) in
                let g' = rw f at g in cc)
            | inr q ↦ (
              rv,
              ap (λ x. find_round k x.round_vote_sets) (sym (some-injective _ _ h2))
                  ∙ rw q at written
                  ∙ f,
              m,
            )
          ]
    ]
