-- ===== src/PrivVal/Run/Safety.antt =====
-- The validator never signs two different messages for one height, round and step.
use mathlib.Core.Option.{some-injective}
use mathlib.Core.Path.{subst}
use de_mars_dmc.Prelude.{
  ℕ, zero, suc, Bool, true, false, ◌≡◌, ◌∙◌, sym, ap, ◌⊎◌, inl, inr, refl, Option, none, some, List,
  [], ◌∷◌, ◌++◌, arith, if◌then◌else◌, get_elem?,
}
use de_mars_dmc.Prelude.Int.{ℤ}
use de_mars_dmc.Prelude.Bytes.{Bytes}
use de_mars_dmc.Types.Vote.{Time, Signature, Vote, Proposal, Scheme}
use de_mars_dmc.Types.Canonical.{Codec, CodecLaws, vote_sign_bytes, proposal_sign_bytes}
use de_mars_dmc.PrivVal.{
  Outcome, ok, err, panic, ◌>>=◌, or_panic, Env, Machine, FilePv, step_propose, load_file_pv,
  vote_to_step, check_hrs, save, save_signed, resign_vote, resign_proposal, sign_new, sign_vote,
  sign_proposal,
}
use de_mars_dmc.PrivVal.Resign.{resign_vote_lem, resign_proposal_lem}
use de_mars_dmc.PrivVal.Run.{Request, Released, reload, settle, serve, run}
use de_mars_dmc.PrivVal.Run.Order.{Hrs, hrs_of, check_hrs-new, check_hrs-same}
use de_mars_dmc.PrivVal.Run.Invariant.{
  IsGuarded, IsSigned, Agrees, All, hrs_released, bytes_released, release_again, release_new,
}

-- What `saveSigned` leaves in memory and on disk.
abbrev signed_pv : FilePv → ℤ → ℤ → ℤ → Bytes → Bytes → FilePv
signed_pv pv h r s sign_bytes sig = record pv {
  last_height = h;
  last_round = r;
  last_step = s;
  last_signature = some sig;
  last_sign_bytes = some sign_bytes;
}

module _ (scheme : Scheme) (codec : Codec) (chain_id : Bytes) where
  -- Inversion of the branch that signs.
  sign_new_lem :
      (env : Env) (m : Machine) (h r s : ℤ) (sign_bytes : Bytes) {m' : Machine} {sig : Bytes}
      → sign_new scheme codec chain_id env m h r s sign_bytes ≡ ok (m', sig)
      → m' ≡ record {
        pv = signed_pv m.pv h r s sign_bytes sig;
        disk = signed_pv m.pv h r s sign_bytes sig;
      }
  unfolding sign_new save_signed save
  sign_new_lem env m h r s sign_bytes e = ground arith

  bind-eq-ok :
      {A B : Type 0} (o : Outcome A) (f : A → Outcome B) {b : B}
      → (o >>= f) ≡ ok b
      → (a : A) × (o ≡ ok a) × (f a ≡ ok b)
  bind-eq-ok (ok a) f e = (a, refl, e)
  bind-eq-ok (err x) f e = absurd (cc)
  bind-eq-ok panic f e = absurd (cc)

  or_panic-eq-ok : {A : Type 0} (o : Option A) {a : A} → or_panic o ≡ ok a → o ≡ some a
  or_panic-eq-ok none e = absurd (cc)
  or_panic-eq-ok (some a) e = cc

  -- Either nothing is signed and the object stays, or the signature is recorded.
  branch-eq-ok :
      {A : Type 0} (same : Bool) (m : Machine) (again : Outcome A) (new : Outcome (Machine × Bytes))
      (attach : Bytes → A) {m' : Machine} {a : A}
      → (if same
          then ◌>>=◌ {B = Machine × A} again (λ signed. ok (m, signed))
          else ◌>>=◌ {B = Machine × A} new (λ (saved, sig). ok (saved, attach sig)))
        ≡ ok (m', a)
      → ((same ≡ true) × (again ≡ ok a) × (m' ≡ m))
        ⊎ ((same ≡ false) × (sig : Bytes) × (new ≡ ok (m', sig)) × (a ≡ attach sig))
  branch-eq-ok true m (ok x) new attach e = inl (refl, cc, cc)
  branch-eq-ok true m (err x) new attach e = absurd (cc)
  branch-eq-ok true m panic new attach e = absurd (cc)
  branch-eq-ok false m again (ok (x, sig)) attach e = inr (refl, sig, cc, cc)
  branch-eq-ok false m again (err x) attach e = absurd (cc)
  branch-eq-ok false m again panic attach e = absurd (cc)

  -- What a released vote is for, where its time and signature were filled in.
  hrs_released-vote :
      (v v' : Vote) (t : Time) (sig : Signature) (s : ℤ)
      → v' ≡ record v { timestamp = t; signature = sig }
      → vote_to_step v ≡ some s
      → hrs_released (Released.vote v') ≡ hrs_of v.height v.round s
  unfolding vote_to_step
  hrs_released-vote v v' t sig s e at = rw e (rw at refl)

  vote_to_step-ne-propose : (v : Vote) (s : ℤ) → vote_to_step v ≡ some s → s ≡ step_propose → ⊥
  unfolding vote_to_step
  vote_to_step-ne-propose v s e p = ground arith

  check_hrs-same-bytes :
      (pv : FilePv) (h r s : ℤ) → check_hrs pv h r s ≡ ok true → pv.last_sign_bytes ≡ none → ⊥
  unfolding check_hrs
  check_hrs-same-bytes pv h r s e n = ground arith

  module _ (laws : CodecLaws codec) where
    vote_again :
        (env : Env) (v v' : Vote) (s : ℤ) (m : Machine) (log : List Released)
        → IsGuarded codec chain_id m log
        → vote_to_step v ≡ some s
        → check_hrs m.pv v.height v.round s ≡ ok true
        → resign_vote codec env m.pv (vote_sign_bytes codec chain_id v) v ≡ ok v'
        → IsSigned codec chain_id m.pv
        → IsGuarded codec chain_id m (Released.vote v' ∷ log)
    vote_again env v v' s m log g at same e (IsSigned.nothing n) =
        absurd (check_hrs-same-bytes m.pv v.height v.round s same n)
    vote_again env v v' s m log g at same e (IsSigned.of_vote old last step) =
        let (bytes, is) = resign_vote_lem codec laws chain_id env m.pv old v last e in
        release_again codec chain_id m log (Released.vote v') g
          (hrs_released-vote v v' _ _ s is at ∙ sym (check_hrs-same m.pv v.height v.round s same))
          (last ∙ ap some (sym bytes))
    vote_again env v v' s m log g at same e (IsSigned.of_proposal p last step) = absurd (
        vote_to_step-ne-propose v s at
          (ap Hrs.step (sym (check_hrs-same m.pv v.height v.round s same)) ∙ step))

    -- A call that returns extends what was given out by its result, within the invariant.
    sign_vote-IsGuarded :
        (env : Env) (v : Vote) (m m' : Machine) (v' : Vote) (log : List Released)
        → IsGuarded codec chain_id m log
        → sign_vote scheme codec chain_id env v m ≡ ok (m', v')
        → IsGuarded codec chain_id m' (Released.vote v' ∷ log)
    unfolding sign_vote vote_sign_bytes
    sign_vote-IsGuarded env v m m' v' log g e =
        let sign_bytes = vote_sign_bytes codec chain_id v in
        let (s, at, e₁) = bind-eq-ok (or_panic (vote_to_step v)) _ e in
        let step_is = or_panic-eq-ok (vote_to_step v) at in
        let (same, checked, e₂) = bind-eq-ok (check_hrs m.pv v.height v.round s) _ e₁ in
        elim (branch-eq-ok same m (resign_vote codec env m.pv sign_bytes v)
          (sign_new scheme codec chain_id env m v.height v.round s sign_bytes)
          (λ sig. record v { signature = some sig }) e₂) [
            | inl (is_same, again, kept) ↦
                rw kept
                  (vote_again env v v' s m log g step_is (checked ∙ ap ok is_same) again g.signed)
            | inr (is_new, sig, made, is) ↦
                rw (sign_new_lem env m v.height v.round s sign_bytes made) (
                  release_new codec chain_id m (signed_pv m.pv v.height v.round s sign_bytes sig)
                    log (Released.vote v') g
                    (check_hrs-new m.pv v.height v.round s (checked ∙ ap ok is_new))
                    (IsSigned.of_vote v refl step_is) (hrs_released-vote v v' _ _ s is step_is)
                    (ap (λ x. some (vote_sign_bytes codec chain_id x)) (sym is)))
          ]

    proposal_again :
        (env : Env) (p p' : Proposal) (m : Machine) (log : List Released)
        → IsGuarded codec chain_id m log
        → check_hrs m.pv p.height p.round step_propose ≡ ok true
        → resign_proposal codec env m.pv (proposal_sign_bytes codec chain_id p) p ≡ ok p'
        → IsSigned codec chain_id m.pv
        → IsGuarded codec chain_id m (Released.proposal p' ∷ log)
    proposal_again env p p' m log g same e (IsSigned.nothing n) =
        absurd (check_hrs-same-bytes m.pv p.height p.round step_propose same n)
    proposal_again env p p' m log g same e (IsSigned.of_vote old last step) = absurd (
        vote_to_step-ne-propose old m.pv.last_step step
          (ap Hrs.step (check_hrs-same m.pv p.height p.round step_propose same)))
    proposal_again env p p' m log g same e (IsSigned.of_proposal old last step) =
        let (bytes, is) = resign_proposal_lem codec laws chain_id env m.pv old p last e in
        release_again codec chain_id m log (Released.proposal p') g
          (rw is (sym (check_hrs-same m.pv p.height p.round step_propose same)))
          (last ∙ ap some (sym bytes))

    sign_proposal-IsGuarded :
        (env : Env) (p : Proposal) (m m' : Machine) (p' : Proposal) (log : List Released)
        → IsGuarded codec chain_id m log
        → sign_proposal scheme codec chain_id env p m ≡ ok (m', p')
        → IsGuarded codec chain_id m' (Released.proposal p' ∷ log)
    unfolding sign_proposal proposal_sign_bytes
    sign_proposal-IsGuarded env p m m' p' log g e =
        let sign_bytes = proposal_sign_bytes codec chain_id p in
        let (same, checked, e₁) = bind-eq-ok (check_hrs m.pv p.height p.round step_propose) _ e in
        elim (branch-eq-ok same m (resign_proposal codec env m.pv sign_bytes p)
          (sign_new scheme codec chain_id env m p.height p.round step_propose sign_bytes)
          (λ sig. record p { signature = some sig }) e₁) [
            | inl (is_same, again, kept) ↦
                rw kept (proposal_again env p p' m log g (checked ∙ ap ok is_same) again g.signed)
            | inr (is_new, sig, made, is) ↦
                rw (sign_new_lem env m p.height p.round step_propose sign_bytes made) (
                  release_new codec chain_id m
                    (signed_pv m.pv p.height p.round step_propose sign_bytes sig) log
                    (Released.proposal p') g
                    (check_hrs-new m.pv p.height p.round step_propose (checked ∙ ap ok is_new))
                    (IsSigned.of_proposal p refl refl) (rw is refl)
                    (ap (λ x. some (proposal_sign_bytes codec chain_id x)) (sym is)))
          ]

    -- Loading the file changes nothing: the object and the file agree after every call.
    reload-IsGuarded :
        (m : Machine) (log : List Released)
        → IsGuarded codec chain_id m log
        → IsGuarded codec chain_id (reload m) log
    unfolding load_file_pv
    reload-IsGuarded m log g =
        let same : reload m ≡ m =
          ap (λ (d : FilePv). record { pv = record d { file_path = m.pv.file_path }; disk = d })
            g.synced
          ∙ ap (λ (d : FilePv). record { pv = m.pv; disk = d }) (sym g.synced) in
        rw same g

    settle-IsGuarded :
        {A : Type 0} (f : A → Released) (m : Machine) (log : List Released)
        (o : Outcome (Machine × A))
        → IsGuarded codec chain_id m log
        → ((m' : Machine) (a : A) → o ≡ ok (m', a) → IsGuarded codec chain_id m' (f a ∷ log))
        → let (m', new) = settle f m o in IsGuarded codec chain_id m' (new ++ log)
    settle-IsGuarded f m log (ok (m', a)) g h = h m' a refl
    settle-IsGuarded f m log (err e) g h = g
    settle-IsGuarded f m log panic g h = reload-IsGuarded m log g

    serve-IsGuarded :
        (m : Machine) (log : List Released) (r : Request)
        → IsGuarded codec chain_id m log
        → let (m', new) = serve scheme codec chain_id m r in
          IsGuarded codec chain_id m' (new ++ log)
    unfolding serve
    serve-IsGuarded m log (Request.vote env v) g =
        settle-IsGuarded Released.vote m log (sign_vote scheme codec chain_id env v m) g
          λ m' v' e. sign_vote-IsGuarded env v m m' v' log g e
    serve-IsGuarded m log (Request.proposal env p) g =
        settle-IsGuarded Released.proposal m log (sign_proposal scheme codec chain_id env p m) g
          λ m' p' e. sign_proposal-IsGuarded env p m m' p' log g e
    serve-IsGuarded m log Request.restart g = reload-IsGuarded m log g

    run-IsGuarded :
        (m : Machine) (log : List Released) (rs : List Request)
        → IsGuarded codec chain_id m log
        → let (m', all) = run scheme codec chain_id m log rs in IsGuarded codec chain_id m' all
    unfolding run
    run-IsGuarded m log [] g = g
    run-IsGuarded m log (r ∷ rs) g =
        let (m', new) = serve scheme codec chain_id m r in
        run-IsGuarded m' (new ++ log) rs (serve-IsGuarded m log r g)

All-get_elem? :
    (P : Released → Type 0) (xs : List Released) (i : ℕ) {a : Released}
    → All P xs
    → get_elem? xs i ≡ some a
    → P a
All-get_elem? P [] i h e = absurd (cc)
All-get_elem? P (x ∷ xs) zero h e = subst P (some-injective _ _ e) h.0
All-get_elem? P (x ∷ xs) (suc i) h e = All-get_elem? P xs i h.1 e

-- Two positions in a log that agrees.
Agrees-get_elem? :
    (codec : Codec) (chain_id : Bytes) (log : List Released) (i j : ℕ) {a b : Released}
    → Agrees codec chain_id log
    → get_elem? log i ≡ some a
    → get_elem? log j ≡ some b
    → hrs_released a ≡ hrs_released b
    → bytes_released codec chain_id a ≡ bytes_released codec chain_id b
Agrees-get_elem? codec chain_id [] i j g p q e = absurd (cc)
Agrees-get_elem? codec chain_id (x ∷ l) zero zero g p q e = cc
Agrees-get_elem? codec chain_id (x ∷ l) zero (suc j) {a} {b} g p q e =
    let is = some-injective x a p in
    ap (bytes_released codec chain_id) (sym is)
    ∙ sym (All-get_elem? _ l j g.0 q (sym e ∙ ap hrs_released (sym is)))
Agrees-get_elem? codec chain_id (x ∷ l) (suc i) zero {a} {b} g p q e =
    let is = some-injective x b q in
    All-get_elem? _ l i g.0 p (e ∙ ap hrs_released (sym is)) ∙ ap (bytes_released codec chain_id) is
Agrees-get_elem? codec chain_id (x ∷ l) (suc i) (suc j) g p q e =
    Agrees-get_elem? codec chain_id l i j g.1 p q e

-- A validator that has signed nothing yet is started with its file; whatever it is then asked to
-- sign, and however often its file cannot be written or it is restarted, any two votes or proposals
-- that it gives out for one height, round and step have the same bytes to sign. Encoding and time
-- formatting are assumed to be invertible.
pub no_double_sign :
    (scheme : Scheme) (codec : Codec) (chain_id : Bytes)
    → CodecLaws codec
    → (pv : FilePv) → pv.last_sign_bytes ≡ none
    → (requests : List Request) (i j : ℕ) {a b : Released}
    → get_elem? (run scheme codec chain_id (record { pv = pv; disk = pv }) [] requests).1 i ≡ some a
    → get_elem? (run scheme codec chain_id (record { pv = pv; disk = pv }) [] requests).1 j ≡ some b
    → hrs_released a ≡ hrs_released b
    → bytes_released codec chain_id a ≡ bytes_released codec chain_id b
no_double_sign scheme codec chain_id laws pv none_yet requests i j p q e =
    let m : Machine = record { pv = pv; disk = pv } in
    let start : IsGuarded codec chain_id m [] = record {
      synced = refl;
      signed = IsSigned.nothing none_yet;
      covered = tt;
      agrees = tt;
    } in
    let g = run-IsGuarded scheme codec chain_id laws m [] requests start in
    Agrees-get_elem? codec chain_id (run scheme codec chain_id m [] requests).1 i j g.agrees p q e
