-- ===== src/Dmccoin/Kvs.antt =====
-- abci/app/dmccoin/kvs.go: a store of values by key, and a cache in front of it.
pub mod Sync
use de_mars_dmc.Prelude.{
  ℕ, length, take, ltb, ◌≡◌, ◌∙◌, ap, refl, Bool, true, false, ◌||◌, Option, none, some, List, [],
  ◌∷◌, ◌++◌, is_some, if◌then◌else◌,
}
use de_mars_dmc.Prelude.Bytes.{Bytes, bytes_equal}
use de_mars_dmc.Prelude.Maps.{lookup, insert, lookup-insert}

-- The interface `KVS`: `Get`, `Set`, `GetAll` and what a reader relies on.
pub record Kvs (S : Type 0) : Type 0 where
  pub get : S → Bytes → Bytes
  pub set_key : S → Bytes → Bytes → S
  pub get_all : S → Bytes → ℕ → Option (List Bytes)
  pub get-set_key :
      (s : S) (j k v : Bytes) → get (set_key s k v) j ≡ (if bytes_equal j k then v else get s j)

-- `MemKVS`: a missing key reads as nil.
abbrev pub MemKvs : Type 0
MemKvs = List (Bytes × Bytes)

abbrev pub or_nil : Option Bytes → Bytes
or_nil none = []
or_nil (some v) = v

unfoldable pub mem_get : MemKvs → Bytes → Bytes
unfolding lookup
mem_get m key = or_nil (lookup key m)

or_nil-if :
    (b : Bool) (v : Bytes) (o : Option Bytes)
    → or_nil (if b then some v else o) ≡ (if b then v else or_nil o)
or_nil-if true v o = refl
or_nil-if false v o = refl

pub mem_get-insert :
    (m : MemKvs) (j k v : Bytes)
    → mem_get (insert k v m) j ≡ (if bytes_equal j k then v else mem_get m j)
unfolding mem_get
mem_get-insert m j k v =
    ap or_nil (lookup-insert j k v m) ∙ or_nil-if (bytes_equal j k) v (lookup j m)

-- `GetAll` of a `MemKVS`, in some order; a key shorter than the prefix panics (`none`).
abbrev pub has_prefix : Bytes → Bytes → ℕ → Bool
has_prefix k key prefix_size = bytes_equal (take prefix_size k) (take prefix_size key)

unfoldable pub mem_get_all : MemKvs → Bytes → ℕ → Option (List Bytes)
mem_get_all [] key prefix_size = some []
mem_get_all ((k, v) ∷ m) key prefix_size =
    let rest = mem_get_all m key prefix_size in
    if ltb (length k) prefix_size
    then none
    else if ltb (length key) prefix_size
    then none
    else elim rest [
      | none ↦ none
      | some vs ↦ some (if has_prefix k key prefix_size then v ∷ vs else vs)
    ]

abbrev pub mem_kvs : Kvs MemKvs
mem_kvs = record {
  get = mem_get;
  set_key = λ m key value. insert key value m;
  get_all = mem_get_all;
  get-set_key = mem_get-insert;
}

-- A line of the log of a cache.
pub data LogLine : Type 0 where
  logged_set : Bytes → Bytes → LogLine
  logged_hit : Bytes → Bytes → LogLine
  logged_miss : Bytes → Bytes → LogLine

-- `KVCache`: `keys` are the cached keys in the order they are written back.
pub record KvCache (S : Type 0) : Type 0 where
  pub store : S
  pub cache : List (Bytes × Bytes)
  pub keys : List Bytes
  pub logging : Bool
  pub log_lines : List LogLine

-- `keys.MoveToBack` of the element that holds the key.
unfoldable pub remove_key : Bytes → List Bytes → List Bytes
remove_key key [] = []
remove_key key (k ∷ keys) = if bytes_equal k key then keys else k ∷ remove_key key keys

abbrev pub move_to_back : Bytes → List Bytes → List Bytes
move_to_back key keys = remove_key key keys ++ (key ∷ [])

module _ {S : Type 0} where
  abbrev pub log : KvCache S → LogLine → List LogLine
  log kvc line = if kvc.logging then kvc.log_lines ++ (line ∷ []) else kvc.log_lines

  unfoldable pub cache_reset : KvCache S → KvCache S
  cache_reset kvc = record kvc { cache = []; keys = [] }

  unfoldable pub new_kv_cache : S → KvCache S
  new_kv_cache store = record {
    store = store;
    cache = [];
    keys = [];
    logging = false;
    log_lines = [];
  }

  unfoldable pub set_logging : KvCache S → KvCache S
  set_logging kvc = record kvc { logging = true }

  unfoldable pub clear_log_lines : KvCache S → KvCache S
  clear_log_lines kvc = record kvc { log_lines = [] }

  unfoldable pub cache_set : KvCache S → Bytes → Bytes → KvCache S
  unfolding lookup insert remove_key
  cache_set kvc key value = record kvc {
    log_lines = log kvc (logged_set key value);
    keys =
        if is_some (lookup key kvc.cache)
        then move_to_back key kvc.keys
        else kvc.keys ++ (key ∷ []);
    cache = insert key value kvc.cache;
  }

module _ {S : Type 0} (kvs : Kvs S) where
  -- `KVCache.Get`: a miss is read from the store and cached.
  unfoldable pub cache_get : KvCache S → Bytes → Bytes × KvCache S
  unfolding lookup insert
  cache_get kvc key = elim (lookup key kvc.cache) [
    | some v ↦ (v, record kvc { log_lines = log kvc (logged_hit key v) })
    | none ↦ (
      kvs.get kvc.store key,
      record kvc {
        cache = insert key (kvs.get kvc.store key) kvc.cache;
        keys = kvc.keys ++ (key ∷ []);
        log_lines = log kvc (logged_miss key (kvs.get kvc.store key));
      },
    )
  ]

  -- The loop of `Sync`.
  unfoldable pub write_back : List (Bytes × Bytes) → List Bytes → S → S
  unfolding lookup
  write_back cache [] store = store
  write_back cache (key ∷ keys) store =
      write_back cache keys (kvs.set_key store key (or_nil (lookup key cache)))

  unfoldable pub sync : KvCache S → KvCache S
  unfolding write_back cache_reset
  sync kvc = cache_reset (record kvc { store = write_back kvc.cache kvc.keys kvc.store })

  -- `KVCache.GetAll`: only the store is read, so writes that are not synchronised are missing.
  unfoldable pub cache_get_all : KvCache S → Bytes → ℕ → Option (List Bytes)
  cache_get_all kvc key prefix_size = kvs.get_all kvc.store key prefix_size

  -- The requests to a cache, without `GetAll`.
  pub data Request : Type 0 where
    read : Bytes → Request
    write : Bytes → Bytes → Request
    flush : Request
    discard : Request

  unfoldable pub cache_step : KvCache S → Request → Bytes × KvCache S
  unfolding cache_get cache_set sync cache_reset
  cache_step kvc (read key) = cache_get kvc key
  cache_step kvc (write key value) = ([], cache_set kvc key value)
  cache_step kvc flush = ([], sync kvc)
  cache_step kvc discard = ([], cache_reset kvc)

  unfoldable pub cache_run : KvCache S → List Request → List Bytes × KvCache S
  unfolding cache_step
  cache_run kvc [] = ([], kvc)
  cache_run kvc (r ∷ rs) =
      let (answer, kvc1) = cache_step kvc r in
      let (answers, kvc2) = cache_run kvc1 rs in (answer ∷ answers, kvc2)

  -- What a cache promises: two stores, one that is kept and one with the writes that are pending.
  pub record Pending : Type 0 where
    pub kept : S
    pub current : S

  unfoldable pub pending_step : Pending → Request → Bytes × Pending
  pending_step s (read key) = (kvs.get s.current key, s)
  pending_step s (write key value) =
      ([], record { kept = s.kept; current = kvs.set_key s.current key value })
  pending_step s flush = ([], record { kept = s.current; current = s.current })
  pending_step s discard = ([], record { kept = s.kept; current = s.kept })

  unfoldable pub pending_run : Pending → List Request → List Bytes × Pending
  unfolding pending_step
  pending_run s [] = ([], s)
  pending_run s (r ∷ rs) =
      let (answer, s1) = pending_step s r in
      let (answers, s2) = pending_run s1 rs in (answer ∷ answers, s2)
