-- ===== src/Dmccoin/Accounts.antt =====
-- abci/app/dmccoin/account.go and state.go: accounts in a store.
pub mod TopK
use de_mars_dmc.Prelude.{
  ℕ, ◌≡◌, Bool, true, false, Option, none, some, List, [], ◌∷◌, ◌++◌, length, map, take, ltb, leb,
  ◌==◌, is_some, if◌then◌else◌,
}
use de_mars_dmc.Prelude.Int.{ℤ, pos, negsuc}
use de_mars_dmc.Prelude.Bytes.{Bytes, bytes_equal}
use de_mars_dmc.Prelude.Maps.{lookup, insert}
use de_mars_dmc.Dmccoin.Kvs.{Kvs, MemKvs, KvCache, mem_get_all}

-- The public key is nil when it is not known.
pub record Account : Type 0 where
  pub pub_key : Option Bytes
  pub height : ℤ
  pub balance : ℕ
  pub address : Bytes

-- `&Account{}`
abbrev pub empty_account : Account
empty_account = record { pub_key = none; height = pos 0; balance = 0; address = [] }

-- `wire.JSONBytes` of an account and `json.Unmarshal` into an empty one, whose error is ignored.
pub record AccountJson : Type 0 where
  pub marshal : Account → Bytes
  pub unmarshal : Bytes → Account

-- "base/a/"
abbrev pub account_prefix : Bytes
account_prefix = 98 ∷ 97 ∷ 115 ∷ 101 ∷ 47 ∷ 97 ∷ 47 ∷ []

-- "base/chain_id"
abbrev pub chain_id_key : Bytes
chain_id_key = 98 ∷ 97 ∷ 115 ∷ 101 ∷ 47 ∷ 99 ∷ 104 ∷ 97 ∷ 105 ∷ 110 ∷ 95 ∷ 105 ∷ 100 ∷ []

abbrev pub account_key : Bytes → Bytes
account_key addr = account_prefix ++ addr

-- The insertion of an account into a list sorted by balance.
unfoldable pub insert_account : Account → List Account → List Account
insert_account acc [] = acc ∷ []
insert_account acc (a ∷ accounts) =
    if ltb a.balance acc.balance then a ∷ insert_account acc accounts else acc ∷ a ∷ accounts

-- `sort.Slice` by the balance, which leaves open the order of accounts of one balance; here they keep
-- it.
unfoldable pub sort_accounts : List Account → List Account
unfolding insert_account
sort_accounts [] = []
sort_accounts (acc ∷ accounts) = insert_account acc (sort_accounts accounts)

-- `TopkAccounts`, with the slice of the caller, which is sorted in place; a nil slice is `none`. The
-- result is `none` for a panic.
unfoldable pub top_k_accounts :
    Option (List Account) → ℤ → Option (Option (List Account) × Option (List Account))
unfolding sort_accounts
top_k_accounts none k = some (none, none)
top_k_accounts (some acc) (negsuc k) = none
top_k_accounts (some acc) (pos k) =
    let accounts = sort_accounts acc in
    some (some (if ltb k (length accounts) then take k accounts else accounts), some accounts)

unfoldable pub mem_get_all_acc : MemKvs → List Bytes
mem_get_all_acc [] = []
mem_get_all_acc ((k, v) ∷ m) = v ∷ mem_get_all_acc m

module _ (json : AccountJson) where
  unfoldable pub get_all_accounts_in_segment : MemKvs → Bytes → ℕ → Option (List Account)
  unfolding mem_get_all
  get_all_accounts_in_segment store addr prefix_size =
      elim (mem_get_all store (account_key addr) prefix_size) [
        | none ↦ none
        | some data' ↦ some (map json.unmarshal data')
      ]

  unfoldable pub get_all_accounts : MemKvs → List Account
  unfolding mem_get_all_acc
  get_all_accounts store = map json.unmarshal (mem_get_all_acc store)

-- `State`: `read_cache` is nil in a cache wrap.
pub record State (S : Type 0) : Type 0 where
  pub chain_id : Bytes
  pub store : S
  pub read_cache : Option (List (Bytes × Bytes))
  pub write_cache : Option (KvCache S)

module _ {S : Type 0} (kvs : Kvs S) (json : AccountJson) where
  abbrev pub decode_account : Bytes → Option Account
  decode_account data' = if length data' == 0 then none else some (json.unmarshal data')

  unfoldable pub get_account : S → Bytes → Option Account
  get_account store addr = decode_account (kvs.get store (account_key addr))

  unfoldable pub set_account : S → Bytes → Account → S
  set_account store addr acc = kvs.set_key store (account_key addr) (json.marshal acc)

  unfoldable pub new_state : S → State S
  new_state store = record {
    chain_id = [];
    store = store;
    read_cache = some [];
    write_cache = none;
  }

  unfoldable pub set_chain_id : State S → Bytes → State S
  set_chain_id s chain_id = record s {
    chain_id = chain_id;
    store = kvs.set_key s.store chain_id_key chain_id;
  }

  unfoldable pub get_chain_id : State S → Bytes × State S
  get_chain_id s =
      if length s.chain_id == 0
      then (let id = kvs.get s.store chain_id_key in (id, record s { chain_id = id }))
      else (s.chain_id, s)

  abbrev pub cached : Option (List (Bytes × Bytes)) → Bytes → Option Bytes
  cached none key = none
  cached (some m) key = lookup key m

  unfoldable pub state_get : State S → Bytes → Bytes
  unfolding lookup
  state_get s key = elim (cached s.read_cache key) [
    | some value ↦ value
    | none ↦ kvs.get s.store key
  ]

  abbrev pub cache_write :
      Option (List (Bytes × Bytes)) → Bytes → Bytes → Option (List (Bytes × Bytes))
  cache_write none key value = none
  cache_write (some m) key value = some (insert key value m)

  unfoldable pub state_set : State S → Bytes → Bytes → State S
  unfolding insert
  state_set s key value = record s {
    read_cache = cache_write s.read_cache key value;
    store = kvs.set_key s.store key value;
  }

  unfoldable pub state_get_account : State S → Bytes → Option Account
  unfolding get_account
  state_get_account s addr = get_account s.store addr

  unfoldable pub state_set_account : State S → Bytes → Account → State S
  unfolding set_account
  state_set_account s addr acc = record s { store = set_account s.store addr acc }
