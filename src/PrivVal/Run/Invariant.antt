-- ===== src/PrivVal/Run/Invariant.antt =====
-- What the validator has given out is covered by what its object and its file hold.
use de_mars_dmc.Prelude.{
  true, ◌≡◌, ◌∙◌, sym, ap, ◌⊎◌, inl, inr, refl, Option, none, some, List, [], ◌∷◌,
}
use de_mars_dmc.Prelude.Int.{ℤ, pos}
use de_mars_dmc.Prelude.Bytes.{Bytes}
use de_mars_dmc.Types.Vote.{Vote, Proposal}
use de_mars_dmc.Types.Canonical.{Codec, vote_sign_bytes, proposal_sign_bytes}
use de_mars_dmc.PrivVal.{Machine, FilePv, step_propose, vote_to_step}
use de_mars_dmc.PrivVal.Run.{Released}
use de_mars_dmc.PrivVal.Run.Order.{Hrs, hrs_ltb, last_hrs, hrs_of, hrs_ltb_trans, hrs_ltb_irrefl}

abbrev step_or_none : Option ℤ → ℤ
step_or_none none = pos 0
step_or_none (some s) = s

-- The height, round and step that a message is for.
abbrev pub hrs_released : Released → Hrs
hrs_released (Released.vote v) = hrs_of v.height v.round (step_or_none (vote_to_step v))
hrs_released (Released.proposal p) = hrs_of p.height p.round step_propose

abbrev pub All : (Released → Type 0) → List Released → Type 0
All P [] = Unit
All P (x ∷ xs) = P x × All P xs

All-map :
    {P Q : Released → Type 0} (xs : List Released)
    → ((x : Released) → P x → Q x)
    → All P xs
    → All Q xs
All-map [] f h = tt
All-map (x ∷ xs) f h = (f x h.0, All-map xs f h.1)

module _ (codec : Codec) (chain_id : Bytes) where
  -- The bytes that the signature of a message is for.
  abbrev pub bytes_released : Released → Bytes
  bytes_released (Released.vote v) = vote_sign_bytes codec chain_id v
  bytes_released (Released.proposal p) = proposal_sign_bytes codec chain_id p

  abbrev pub Covers : FilePv → Released → Type 0
  Covers pv x =
      (hrs_ltb (hrs_released x) (last_hrs pv) ≡ true)
      ⊎ ((hrs_released x ≡ last_hrs pv) × (pv.last_sign_bytes ≡ some (bytes_released x)))

  -- What was signed last is nothing, a vote of the last step, or a proposal.
  pub data IsSigned (pv : FilePv) : Type 0 where
    nothing : pv.last_sign_bytes ≡ none → IsSigned pv
    of_vote :
        (v : Vote)
        → pv.last_sign_bytes ≡ some (vote_sign_bytes codec chain_id v)
        → vote_to_step v ≡ some pv.last_step
        → IsSigned pv
    of_proposal :
        (p : Proposal)
        → pv.last_sign_bytes ≡ some (proposal_sign_bytes codec chain_id p)
        → pv.last_step ≡ step_propose
        → IsSigned pv

  abbrev pub Agrees : List Released → Type 0
  Agrees [] = Unit
  Agrees (x ∷ xs) =
      All (λ y. hrs_released y ≡ hrs_released x → bytes_released y ≡ bytes_released x) xs
      × Agrees xs

  pub record IsGuarded (m : Machine) (log : List Released) : Type 0 where
    pub synced : m.disk ≡ m.pv
    pub signed : IsSigned m.pv
    pub covered : All (Covers m.pv) log
    pub agrees : Agrees log

  below_new :
      (pv : FilePv) (new : Hrs) (x : Released)
      → hrs_ltb (last_hrs pv) new ≡ true
      → Covers pv x
      → hrs_ltb (hrs_released x) new ≡ true
  below_new pv new x up (inl lt) = hrs_ltb_trans (hrs_released x) (last_hrs pv) new lt up
  below_new pv new x up (inr (at', _)) = rw at' up

  not_at : (a b : Hrs) → hrs_ltb a b ≡ true → a ≡ b → ⊥
  not_at a b lt e = cc (hrs_ltb_irrefl b, sym lt ∙ ap (λ x. hrs_ltb x b) e)

  -- A message for what was signed last, with the bytes that were signed last.
  pub release_again :
      (m : Machine) (log : List Released) (x : Released)
      → IsGuarded m log
      → hrs_released x ≡ last_hrs m.pv
      → m.pv.last_sign_bytes ≡ some (bytes_released x)
      → IsGuarded m (x ∷ log)
  release_again m log x g at' same = record {
    synced = g.synced;
    signed = g.signed;
    covered = (inr (at', same), g.covered);
    agrees = (All-map log (λ y c e. agree y c (e ∙ at')) g.covered, g.agrees);
  }
    where
      agree :
          (y : Released)
          → Covers m.pv y
          → hrs_released y ≡ last_hrs m.pv
          → bytes_released y ≡ bytes_released x
      agree y (inl lt) e = absurd (not_at (hrs_released y) (last_hrs m.pv) lt e)
      agree y (inr (_, b)) e = cc

  -- A message above all that was signed, after what is signed is recorded.
  pub release_new :
      (m : Machine) (pv : FilePv) (log : List Released) (x : Released)
      → IsGuarded m log
      → hrs_ltb (last_hrs m.pv) (last_hrs pv) ≡ true
      → IsSigned pv
      → hrs_released x ≡ last_hrs pv
      → pv.last_sign_bytes ≡ some (bytes_released x)
      → IsGuarded (record { pv = pv; disk = pv }) (x ∷ log)
  release_new m pv log x g up signed at' same = record {
    synced = refl;
    signed = signed;
    covered =
        (inr (at', same), All-map log (λ y c. inl (below_new m.pv (last_hrs pv) y up c)) g.covered);
    agrees = (
      All-map log
          (λ y c e.
            absurd (
              not_at (hrs_released y) (last_hrs pv) (below_new m.pv (last_hrs pv) y up c)
                (e ∙ at')))
          g.covered,
      g.agrees,
    );
  }
