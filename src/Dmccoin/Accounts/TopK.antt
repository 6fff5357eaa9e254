-- ===== src/Dmccoin/Accounts/TopK.antt =====
-- abci/app/dmccoin/account.go: which accounts `TopkAccounts` returns.
use mathlib.Core.List.{Perm, append-nil}
use mathlib.Core.List.Perm
use mathlib.Core.Path.{subst}
use Prim.Native.Nat.{min}
use de_mars_dmc.Prelude.Int.{pos}
use de_mars_dmc.Prelude.{
  refl, sym, ap, ◌∙◌, if◌then◌else◌, ℕ, zero, suc, ◌≤◌, ◌≡◌, inl, inr, some, List, [], ◌∷◌, ◌++◌,
  length, take, drop, get_elem?, take-append-drop, length-take, ltb, Bool-cases, arith,
}
use mathlib.Core.Option.{some-injective}
use de_mars_dmc.Dmccoin.Accounts.{Account, insert_account, sort_accounts, top_k_accounts}

-- No account of the list has less than `n`.
unfoldable pub NotBelow : ℕ → List Account → Type 0
NotBelow n [] = Unit
NotBelow n (a ∷ accounts) = (n ≤ a.balance) × NotBelow n accounts

unfoldable IsAscending : List Account → Type 0
unfolding NotBelow
IsAscending [] = Unit
IsAscending (a ∷ accounts) = NotBelow (a.balance) accounts × IsAscending accounts

NotBelow-le :
    (m n : ℕ) (accounts : List Account) → m ≤ n → NotBelow n accounts → NotBelow m accounts
unfolding NotBelow
NotBelow-le m n [] l h = tt
NotBelow-le m n (a ∷ accounts) l (b, h) = (omega arith, NotBelow-le m n accounts l h)

insert_account-NotBelow :
    (n : ℕ) (acc : Account) (accounts : List Account)
    → n ≤ acc.balance
    → NotBelow n accounts
    → NotBelow n (insert_account acc accounts)
unfolding NotBelow insert_account
insert_account-NotBelow n acc [] l h = (l, tt)
insert_account-NotBelow n acc (a ∷ accounts) l (b, h) =
    elim (Bool-cases (ltb a.balance acc.balance)) [
      | inl e ↦ rw e (b, insert_account-NotBelow n acc accounts l h)
      | inr e ↦ rw e (l, (b, h))
    ]

insert_account-IsAscending :
    (acc : Account) (accounts : List Account)
    → IsAscending accounts
    → IsAscending (insert_account acc accounts)
unfolding IsAscending NotBelow insert_account
insert_account-IsAscending acc [] h = (tt, tt)
insert_account-IsAscending acc (a ∷ accounts) (b, h) =
    elim (Bool-cases (ltb a.balance acc.balance)) [
      | inl e ↦ rw e (
        insert_account-NotBelow a.balance acc accounts (ground arith) b,
        insert_account-IsAscending acc accounts h,
      )
      | inr e ↦
          let l : acc.balance ≤ a.balance = ground arith in
          rw e ((l, NotBelow-le acc.balance a.balance accounts l b), (b, h))
    ]

insert_account-Perm :
    (acc : Account) (accounts : List Account) → Perm (insert_account acc accounts) (acc ∷ accounts)
unfolding insert_account
insert_account-Perm acc [] = Perm.rfl
insert_account-Perm acc (a ∷ accounts) = elim (Bool-cases (ltb a.balance acc.balance)) [
  | inl e ↦
      rw e (Perm.trans (Perm.cons a (insert_account-Perm acc accounts)) (Perm.swap acc a accounts))
  | inr e ↦ rw e Perm.rfl
]

sort_accounts-IsAscending : (accounts : List Account) → IsAscending (sort_accounts accounts)
unfolding sort_accounts IsAscending
sort_accounts-IsAscending [] = tt
sort_accounts-IsAscending (acc ∷ accounts) =
    insert_account-IsAscending acc (sort_accounts accounts) (sort_accounts-IsAscending accounts)

sort_accounts-Perm : (accounts : List Account) → Perm (sort_accounts accounts) accounts
unfolding sort_accounts
sort_accounts-Perm [] = Perm.rfl
sort_accounts-Perm (acc ∷ accounts) =
    Perm.trans (insert_account-Perm acc (sort_accounts accounts))
      (Perm.cons acc (sort_accounts-Perm accounts))

drop-NotBelow :
    (n k : ℕ) (accounts : List Account) → NotBelow n accounts → NotBelow n (drop k accounts)
unfolding NotBelow
drop-NotBelow n zero accounts h = h
drop-NotBelow n (suc k) [] h = tt
drop-NotBelow n (suc k) (a ∷ accounts) (b, h) = drop-NotBelow n k accounts h

-- What is taken of an ascending list is at most what is left.
take-NotBelow :
    (k i : ℕ) (accounts : List Account) (a : Account)
    → IsAscending accounts
    → get_elem? (take k accounts) i ≡ some a
    → NotBelow a.balance (drop k accounts)
unfolding IsAscending
take-NotBelow zero i accounts a h e = absurd (cc)
take-NotBelow (suc k) i [] a h e = absurd (cc)
take-NotBelow (suc k) zero (b ∷ accounts) a (n, h) e =
    subst (λ (x : Account). NotBelow x.balance (drop k accounts)) (some-injective _ _ e)
      (drop-NotBelow b.balance k accounts n)
take-NotBelow (suc k) (suc i) (b ∷ accounts) a (n, h) e = take-NotBelow k i accounts a h e

insert_account-length :
    (acc : Account) (accounts : List Account)
    → length (insert_account acc accounts) ≡ suc (length accounts)
unfolding insert_account
insert_account-length acc [] = refl
insert_account-length acc (a ∷ accounts) = elim (Bool-cases (ltb a.balance acc.balance)) [
  | inl e ↦ rw e (ap suc (insert_account-length acc accounts))
  | inr e ↦ rw e refl
]

sort_accounts-length : (accounts : List Account) → length (sort_accounts accounts) ≡ length accounts
unfolding sort_accounts
sort_accounts-length [] = refl
sort_accounts-length (acc ∷ accounts) =
    insert_account-length acc (sort_accounts accounts) ∙ ap suc (sort_accounts-length accounts)

-- The `k` lowest accounts, or all when there are fewer, and the rest; the slice of the caller holds
-- the ones and then the others.
pub record IsLowest (accounts lowest sorted : List Account) (k : ℕ) : Type 0 where
  pub rest : List Account
  pub sorted_eq : sorted ≡ lowest ++ rest
  pub together : Perm sorted accounts
  pub count : length lowest ≡ min k (length accounts)
  pub below : (i : ℕ) (a : Account) → get_elem? lowest i ≡ some a → NotBelow a.balance rest

taken-IsLowest :
    (accounts : List Account) (k : ℕ)
    → IsLowest accounts
        (if ltb k (length (sort_accounts accounts))
          then take k (sort_accounts accounts)
          else sort_accounts accounts)
        (sort_accounts accounts)
        k
unfolding NotBelow
taken-IsLowest accounts k =
    let sorted = sort_accounts accounts in
    let same = sort_accounts-length accounts in
    elim (Bool-cases (ltb k (length sorted))) [
      | inl e ↦ rw e (record {
        rest = drop k sorted;
        sorted_eq = sym (take-append-drop k sorted);
        together = sort_accounts-Perm accounts;
        count = length-take k sorted ∙ ap (min k) same;
        below = λ i a h. take-NotBelow k i sorted a (sort_accounts-IsAscending accounts) h;
      })
      | inr e ↦ rw e (record {
        rest = [];
        sorted_eq = sym (append-nil sorted);
        together = sort_accounts-Perm accounts;
        count = ground arith;
        below = λ i a h. tt;
      })
    ]

-- For accounts that are not nil and a `k` that is not negative, `TopkAccounts` returns the smaller of
-- `k` and their number of the accounts, none of which has more than one that it leaves out: the
-- lowest balances, not the highest. The slice of the caller is reordered: it holds those returned,
-- then the others.
pub top_k_accounts-IsLowest :
    (accounts : List Account) (k : ℕ)
    → (lowest : List Account) × (sorted : List Account) × (top_k_accounts (some accounts) (pos k)
        ≡ some (some lowest, some sorted))
      × IsLowest accounts lowest sorted k
unfolding top_k_accounts
top_k_accounts-IsLowest accounts k = (_, _, refl, taken-IsLowest accounts k)
