-- ===== src/Consensus/HeightVoteSet/Opened.antt =====
-- consensus/types/height_vote_set.go: whether a call of `AddVote` opens a round.
use mathlib.Core.Option.{some-injective}
use de_mars_dmc.Prelude.{
  ℕ, suc, ◌≤◌, ◌<◌, ◌≡◌, ◌⊎◌, refl, sym, ◌∙◌, ap, inl, inr, Bool, true, false, not, Option, none,
  some, List, [], ◌∷◌, ◌++◌, length, length-append, ltb, Bool-cases, Option-cases, is_some,
  if◌then◌else◌, arith,
}
use de_mars_dmc.Prelude.Int.{ℤ, eqb_ℤ}
use de_mars_dmc.Prelude.Bytes.{Bytes, bytes_equal}
use de_mars_dmc.Prelude.Maps.{lookup-insert}
use de_mars_dmc.Types.BlockId.{PartSetHeader}
use de_mars_dmc.Types.Vote.{
  Vote, Scheme, vote_type_prevote, vote_type_precommit, is_vote_type_valid,
}
use de_mars_dmc.Types.Canonical.{Codec}
use de_mars_dmc.Types.VoteSet.{VoteSet, new_vote_set, lookup, insert}
use de_mars_dmc.Types.VoteSet.Operations.{add_vote}
use de_mars_dmc.Consensus.HeightVoteSet.{
  HeightVoteSet, RoundVoteSet, RoundError, find_round, put_round, add_round, get_vote_set,
  put_vote_set, rounds_of, catchup_rounds, add_to_set, add_catchup, add_round_vote, ◌>>=◌,
}

-- The rounds that have vote sets.
abbrev pub round_count : HeightVoteSet → ℕ
round_count hvs = length hvs.round_vote_sets

pub bind-some :
    {A B : Type 0} (o : Option A) (f : A → Option B) (b : B)
    → (o >>= f) ≡ some b
    → (a : A) × (o ≡ some a) × (f a ≡ some b)
bind-some none f b e = absurd (cc)
bind-some (some a) f b e = (a, refl, e)

length-put_round_new :
    (r : ℤ) (rvs : RoundVoteSet) (rounds : List (ℤ × RoundVoteSet))
    → length (put_round r rvs rounds) ≤ suc (length rounds)
unfolding put_round
length-put_round_new r rvs [] = omega arith
length-put_round_new r rvs ((r', rvs') ∷ rounds) =
    let rest = length-put_round_new r rvs rounds in ground arith

length-put_round :
    (r : ℤ) (rvs old : RoundVoteSet) (rounds : List (ℤ × RoundVoteSet))
    → find_round r rounds ≡ some old
    → length (put_round r rvs rounds) ≡ length rounds
unfolding put_round find_round
length-put_round r rvs old [] h = absurd (cc)
length-put_round r rvs old ((r', rvs') ∷ rounds) h = elim (Bool-cases (eqb_ℤ r r')) [
  | inl e ↦ rw e refl
  | inr e ↦ rw e (ap suc (length-put_round r rvs old rounds (rw e at h)))
]

-- A call that opens no round leaves the rounds and the lists of the peers as they are.
pub record IsUnopened (hvs hvs' : HeightVoteSet) : Type 0 where
  pub same_count : round_count hvs' ≡ round_count hvs
  pub same_peers : hvs'.peer_catchup_rounds ≡ hvs.peer_catchup_rounds

put_vote_set-IsUnopened :
    (hvs : HeightVoteSet) (r : ℤ) (type' : ℕ) (vs : VoteSet)
    → IsUnopened hvs (put_vote_set hvs r type' vs)
unfolding put_vote_set
put_vote_set-IsUnopened hvs r type' vs = elim (Option-cases (find_round r hvs.round_vote_sets)) [
  | inl e ↦ rw (e, put_vote_set) (record { same_count = refl; same_peers = refl })
  | inr (rvs, e) ↦
      rw (e, put_vote_set)
        (record { same_count = length-put_round r _ rvs hvs.round_vote_sets e; same_peers = refl })
]

-- A call that opens one round puts one round on the list of a peer that had room for it.
pub record IsOpened (hvs hvs' : HeightVoteSet) (peer_id : Bytes) : Type 0 where
  pub more_count : round_count hvs' ≤ suc (round_count hvs)
  pub had_room : length (catchup_rounds hvs peer_id) < 2
  pub more_peers :
      (p : Bytes)
      → length (rounds_of (lookup p hvs'.peer_catchup_rounds)) ≡ (
          if bytes_equal p peer_id
          then suc (length (catchup_rounds hvs peer_id))
          else length (catchup_rounds hvs p))

add_round-more :
    (hvs hvs' : HeightVoteSet) (r : ℤ)
    → add_round hvs r ≡ some hvs'
    → (round_count hvs' ≤ suc (round_count hvs))
      × (hvs'.peer_catchup_rounds ≡ hvs.peer_catchup_rounds)
unfolding add_round
add_round-more hvs hvs' r h = elim (Bool-cases (is_some (find_round r hvs.round_vote_sets))) [
  | inl e ↦ absurd (let h' = rw (e, add_round) at h in cc)
  | inr e ↦
      let (prevotes, e1, h1) =
        bind-some (new_vote_set hvs.chain_id hvs.height r vote_type_prevote hvs.val_set) _ hvs'
          (rw (e, add_round) at h) in
      let (precommits, e2, h2) =
        bind-some (new_vote_set hvs.chain_id hvs.height r vote_type_precommit hvs.val_set) _ hvs'
          h1 in
      let more =
        length-put_round_new r (record { prevotes = prevotes; precommits = precommits })
          hvs.round_vote_sets in
      let count = ap (λ x. round_count x) (some-injective _ _ h2) in
      (omega arith, ap (λ x. x.peer_catchup_rounds) (sym (some-injective _ _ h2)))
]

if-length :
    (b : Bool) (x y : List ℤ) (o : Option (List ℤ))
    → rounds_of o ≡ y
    → length (rounds_of (if b then some x else o)) ≡ (if b then length x else length y)
if-length true x y o h = refl
if-length false x y o h = ap length h

module _ (scheme : Scheme) (codec : Codec) (encode : PartSetHeader → Bytes) where
  add_to_set-IsUnopened :
      (hvs hvs' : HeightVoteSet) (vote : Vote) (vs : VoteSet) (r : Bool × Option RoundError)
      → add_to_set scheme codec encode hvs vote vs ≡ some (r, hvs')
      → IsUnopened hvs hvs'
  unfolding add_to_set
  add_to_set-IsUnopened hvs hvs' vote vs r h =
      let (((added, e), vs'), e1, h1) =
        bind-some (add_vote scheme codec encode vs (some vote)) _ (r, hvs') h in
      let put = put_vote_set-IsUnopened hvs vote.round vote.type' vs' in
      let same = ap (λ p. p.1) (sym (some-injective _ _ h1)) in
      record {
        same_count = ap (λ x. round_count x) same ∙ put.same_count;
        same_peers = ap (λ x. x.peer_catchup_rounds) same ∙ put.same_peers;
      }

  add_catchup-opens :
      (hvs hvs' : HeightVoteSet) (vote : Vote) (peer_id : Bytes) (r : Bool × Option RoundError)
      → add_catchup scheme codec encode hvs vote peer_id ≡ some (r, hvs')
      → IsUnopened hvs hvs' ⊎ IsOpened hvs hvs' peer_id
  unfolding add_catchup catchup_rounds
  add_catchup-opens hvs hvs' vote peer_id r h =
      let rounds = catchup_rounds hvs peer_id in
      elim (Bool-cases (not (ltb (length rounds) 2))) [
        | inl e ↦
            let same = ap (λ p. p.1) (sym (some-injective _ _ (rw (e, add_catchup) at h))) in
            inl (record {
              same_count = ap (λ x. round_count x) same;
              same_peers = ap (λ x. x.peer_catchup_rounds) same;
            })
        | inr e ↦
            let (hvs1, e1, h1) =
              bind-some (add_round hvs vote.round) _ (r, hvs') (rw (e, add_catchup) at h) in
            let (found, e2, h2) =
              bind-some (get_vote_set hvs1 vote.round vote.type') _ (r, hvs') h1 in
            let (vs, e3, h3) = bind-some found _ (r, hvs') h2 in
            let listed = rounds ++ (vote.round ∷ []) in
            let written = insert peer_id listed hvs1.peer_catchup_rounds in
            let kept =
              add_to_set-IsUnopened (record hvs1 { peer_catchup_rounds = written }) hvs' vote vs r
                h3 in
            let (more, same) = add_round-more hvs hvs1 vote.round e1 in
            let count = kept.same_count in
            let longer : length listed ≡ suc (length rounds) =
              (let l = length-append rounds (vote.round ∷ []) in omega arith) in
            inr (record {
              more_count = omega arith;
              had_room = ground arith;
              more_peers = λ p.
                  ap (λ m. length (rounds_of (lookup p m))) kept.same_peers
                  ∙ ap (λ o. length (rounds_of o))
                      (lookup-insert p peer_id listed hvs1.peer_catchup_rounds)
                  ∙ if-length (bytes_equal p peer_id) listed (catchup_rounds hvs p) _
                      (ap (λ m. rounds_of (lookup p m)) same)
                  ∙ ap (λ n. if bytes_equal p peer_id then n else length (catchup_rounds hvs p))
                      longer;
            })
      ]

  added_to_found :
      (hvs hvs' : HeightVoteSet) (vote : Vote) (peer_id : Bytes) (r : Bool × Option RoundError)
      (found : Option VoteSet)
      → ◌≡◌ {A = Option ((Bool × Option RoundError) × HeightVoteSet)}
          (elim found [
            | none ↦ add_catchup scheme codec encode hvs vote peer_id
            | some vs ↦ add_to_set scheme codec encode hvs vote vs
          ])
          (some (r, hvs'))
      → IsUnopened hvs hvs' ⊎ IsOpened hvs hvs' peer_id
  added_to_found hvs hvs' vote peer_id r none h = add_catchup-opens hvs hvs' vote peer_id r h
  added_to_found hvs hvs' vote peer_id r (some vs) h =
      inl (add_to_set-IsUnopened hvs hvs' vote vs r h)

  pub add_round_vote-opens :
      (hvs hvs' : HeightVoteSet) (vote : Vote) (peer_id : Bytes) (r : Bool × Option RoundError)
      → add_round_vote scheme codec encode hvs vote peer_id ≡ some (r, hvs')
      → IsUnopened hvs hvs' ⊎ IsOpened hvs hvs' peer_id
  unfolding add_round_vote
  add_round_vote-opens hvs hvs' vote peer_id r h =
      elim (Bool-cases (not (is_vote_type_valid vote.type'))) [
        | inl e ↦
            let same = ap (λ p. p.1) (sym (some-injective _ _ (rw (e, add_round_vote) at h))) in
            inl (record {
              same_count = ap (λ x. round_count x) same;
              same_peers = ap (λ x. x.peer_catchup_rounds) same;
            })
        | inr e ↦
            let (found, e1, h1) =
              bind-some (get_vote_set hvs vote.round vote.type') _ (r, hvs')
                (rw (e, add_round_vote) at h) in
            added_to_found hvs hvs' vote peer_id r found h1
      ]
