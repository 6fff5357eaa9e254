-- ===== src/Dmccoin/Kvs/Sync.antt =====
-- abci/app/dmccoin/kvs.go: a `KVCache` over a store answers as the store itself would.
use de_mars_dmc.Prelude.{
  ◌≡◌, ◌∙◌, ap, refl, sym, inl, inr, Bool, true, false, ◌||◌, Option, none, some, List, [], ◌∷◌,
  ◌++◌, is_some, Bool-cases, Option-cases, if◌then◌else◌, arith,
}
use de_mars_dmc.Prelude.Bytes.{Bytes, bytes_equal, bytes_equal_eq}
use de_mars_dmc.Prelude.Maps.{lookup, insert, lookup-insert}
use de_mars_dmc.Dmccoin.Kvs.{
  Kvs, KvCache, Request, read, write, flush, or_nil, remove_key, move_to_back, cache_get, cache_set,
  cache_reset, write_back, sync, cache_step, cache_run, Pending, pending_step, pending_run, discard,
  new_kv_cache,
}

-- Whether a list of keys has a key.
unfoldable lists_key : Bytes → List Bytes → Bool
lists_key j [] = false
lists_key j (k ∷ keys) = bytes_equal j k || lists_key j keys

lists_key-append :
    (j k : Bytes) (keys : List Bytes)
    → lists_key j (keys ++ (k ∷ [])) ≡ (bytes_equal j k || lists_key j keys)
unfolding lists_key
lists_key-append j k [] = refl
lists_key-append j k (i ∷ keys) = let h = lists_key-append j k keys in ground arith

or_swap : (a b c : Bool) → (a || (b || c)) ≡ (b || (a || c))
or_swap true true c = refl
or_swap true false c = refl
or_swap false b c = refl

or_same : (a c : Bool) → (a || c) ≡ (a || (a || c))
or_same true c = refl
or_same false c = refl

lists_key-move_to_back :
    (j k : Bytes) (keys : List Bytes)
    → lists_key j (move_to_back k keys) ≡ (bytes_equal j k || lists_key j keys)
unfolding lists_key remove_key
lists_key-move_to_back j k [] = refl
lists_key-move_to_back j k (i ∷ keys) = elim (Bool-cases (bytes_equal i k)) [
  | inl e ↦
      let same = ap (bytes_equal j) (bytes_equal_eq i k e) in
      let h = lists_key-append j k keys in
      rw e (
        h
        ∙ or_same (bytes_equal j k) (lists_key j keys)
        ∙ ap (λ b. bytes_equal j k || (b || lists_key j keys)) (sym same))
  | inr e ↦
      let h = lists_key-move_to_back j k keys in
      rw e (
        ap (λ b. bytes_equal j i || b) h
        ∙ or_swap (bytes_equal j i) (bytes_equal j k) (lists_key j keys))
]

abbrev value_of : Option Bytes → Bytes → Bytes
value_of none d = d
value_of (some v) d = v

-- A cached value, after a write.
value_of-if :
    (b : Bool) (v d : Bytes) (o : Option Bytes)
    → value_of (if b then some v else o) d ≡ (if b then v else value_of o d)
value_of-if true v d o = refl
value_of-if false v d o = refl

is_some-if :
    (b : Bool) (v : Bytes) (o : Option Bytes) → is_some (if b then some v else o) ≡ (b || is_some o)
is_some-if true v o = refl
is_some-if false v o = refl

read_back :
    (b : Bool) (o : Option Bytes) (d : Bytes)
    → b ≡ is_some o
    → (if b then or_nil o else d) ≡ value_of o d
read_back b none d h = rw h refl
read_back b (some v) d h = rw h refl

module _ {S : Type 0} (kvs : Kvs S) where
  -- What a cache reads at a key.
  unfoldable view : KvCache S → Bytes → Bytes
  view kvc key = value_of (lookup key kvc.cache) (kvs.get kvc.store key)

  -- The keys that are written back are those cached, the cache reads as the pending writes say, and
  -- the store under it as what is kept.
  record Refines (kvc : KvCache S) (s : Pending kvs) : Type 0 where
    keys_eq : (j : Bytes) → lists_key j kvc.keys ≡ is_some (lookup j kvc.cache)
    same : (j : Bytes) → view kvc j ≡ kvs.get s.current j
    under : (j : Bytes) → kvs.get kvc.store j ≡ kvs.get s.kept j

  -- The loop of `Sync` writes the cached value of each of the keys.
  get-write_back :
      (cache : List (Bytes × Bytes)) (keys : List Bytes) (store : S) (j : Bytes)
      → kvs.get (write_back kvs cache keys store) j
        ≡ (if lists_key j keys then or_nil (lookup j cache) else kvs.get store j)
  unfolding write_back lists_key
  get-write_back cache [] store j = refl
  get-write_back cache (k ∷ keys) store j =
      let v = or_nil (lookup k cache) in
      let rest = get-write_back cache keys (kvs.set_key store k v) j in
      let head = kvs.get-set_key store j k v in
      elim (Bool-cases (lists_key j keys)) [
        | inl h ↦ elim (Bool-cases (bytes_equal j k)) [
          | inl e ↦ rw e (rw h at rest)
          | inr e ↦ rw (e, h) (rw h at rest)
        ]
        | inr h ↦ elim (Bool-cases (bytes_equal j k)) [
          | inl e ↦
              let same = ap (λ x. or_nil (lookup x cache)) (bytes_equal_eq j k e) in
              rw e (rw h at rest ∙ rw e at head ∙ sym same)
          | inr e ↦ rw (e, h) (rw h at rest ∙ rw e at head)
        ]
      ]

  is_some-insert :
      (j k v : Bytes) (cache : List (Bytes × Bytes))
      → is_some (lookup j (insert k v cache)) ≡ (bytes_equal j k || is_some (lookup j cache))
  is_some-insert j k v cache =
      ap (λ o. is_some o) (lookup-insert j k v cache)
      ∙ is_some-if (bytes_equal j k) v (lookup j cache)

  value_of-insert :
      (j k v d : Bytes) (cache : List (Bytes × Bytes))
      → value_of (lookup j (insert k v cache)) d
        ≡ (if bytes_equal j k then v else value_of (lookup j cache) d)
  value_of-insert j k v d cache =
      ap (λ o. value_of o d) (lookup-insert j k v cache)
      ∙ value_of-if (bytes_equal j k) v d (lookup j cache)

  cache_set-Refines :
      (kvc : KvCache S) (s : Pending kvs) (key value : Bytes)
      → Refines kvc s
      → Refines
          (cache_set kvc key value)
          (record { kept = s.kept; current = kvs.set_key s.current key value })
  unfolding cache_set view
  cache_set-Refines kvc s key value h = record {
    keys_eq = λ j.
        let rest = ap (λ b. bytes_equal j key || b) (h.keys_eq j) in
        let cached = is_some-insert j key value kvc.cache in
        elim (Bool-cases (is_some (lookup key kvc.cache))) [
          | inl e ↦ rw e (lists_key-move_to_back j key kvc.keys ∙ rest ∙ sym cached)
          | inr e ↦ rw e (lists_key-append j key kvc.keys ∙ rest ∙ sym cached)
        ];
    same = λ j.
        value_of-insert j key value (kvs.get kvc.store j) kvc.cache
        ∙ ap (λ x. if bytes_equal j key then value else x) (h.same j)
        ∙ sym (kvs.get-set_key s.current j key value);
    under = h.under;
  }

  same_read :
      (kvc : KvCache S) (s : Pending kvs) (key j : Bytes)
      → Refines kvc s
      → lookup key kvc.cache ≡ none
      → (if bytes_equal j key
          then kvs.get kvc.store key
          else value_of (lookup j kvc.cache) (kvs.get kvc.store j))
        ≡ kvs.get s.current j
  unfolding view
  same_read kvc s key j h e = elim (Bool-cases (bytes_equal j key)) [
    | inl q ↦ rw q (rw e at (h.same key) ∙ ap (kvs.get s.current) (sym (bytes_equal_eq j key q)))
    | inr q ↦ rw q (h.same j)
  ]

  -- A read answers as the store does, and what is read afterwards is the same.
  cache_get-Refines :
      (kvc : KvCache S) (s : Pending kvs) (key : Bytes)
      → Refines kvc s
      → ((cache_get kvs kvc key).0 ≡ kvs.get s.current key) × Refines (cache_get kvs kvc key).1 s
  unfolding cache_get view
  cache_get-Refines kvc s key h = elim (Option-cases (lookup key kvc.cache)) [
    | inr (v, e) ↦
        rw (e, cache_get)
          (rw e at (h.same key), record { keys_eq = h.keys_eq; same = h.same; under = h.under })
    | inl e ↦
        let v = kvs.get kvc.store key in
        rw (e, cache_get)
          (
            rw e at (h.same key),
            record {
              keys_eq = λ j.
                  lists_key-append j key kvc.keys
                  ∙ ap (λ b. bytes_equal j key || b) (h.keys_eq j)
                  ∙ sym (is_some-insert j key v kvc.cache);
              same = λ j.
                  value_of-insert j key v (kvs.get kvc.store j) kvc.cache
                  ∙ same_read kvc s key j h e;
              under = h.under;
            },
          )
  ]

  same_view :
      (kvc : KvCache S) (s : Pending kvs) (j : Bytes)
      → Refines kvc s
      → value_of (lookup j kvc.cache) (kvs.get kvc.store j) ≡ kvs.get s.current j
  unfolding view
  same_view kvc s j h = h.same j

  -- After a `Sync` what is kept is what was pending.
  sync-Refines :
      (kvc : KvCache S) (s : Pending kvs)
      → Refines kvc s
      → Refines (sync kvs kvc) (record { kept = s.current; current = s.current })
  unfolding sync cache_reset view lookup lists_key
  sync-Refines kvc s h =
      let written = λ (j : Bytes).
        get-write_back kvc.cache kvc.keys kvc.store j
        ∙ read_back (lists_key j kvc.keys) (lookup j kvc.cache) (kvs.get kvc.store j) (h.keys_eq j)
        ∙ same_view kvc s j h in
      record { keys_eq = λ j. refl; same = written; under = written }

  -- A `Reset` drops what is pending.
  cache_reset-Refines :
      (kvc : KvCache S) (s : Pending kvs)
      → Refines kvc s
      → Refines (cache_reset kvc) (record { kept = s.kept; current = s.kept })
  unfolding cache_reset view lookup lists_key
  cache_reset-Refines kvc s h = record { keys_eq = λ j. refl; same = h.under; under = h.under }

  new_kv_cache-Refines :
      (store : S) → Refines (new_kv_cache store) (record { kept = store; current = store })
  unfolding new_kv_cache lookup view lists_key
  new_kv_cache-Refines store = record { keys_eq = λ j. refl; same = λ j. refl; under = λ j. refl }

  cache_step-Refines :
      (kvc : KvCache S) (s : Pending kvs) (r : Request kvs)
      → Refines kvc s
      → ((cache_step kvs kvc r).0 ≡ (pending_step kvs s r).0)
        × Refines (cache_step kvs kvc r).1 (pending_step kvs s r).1
  unfolding cache_step pending_step
  cache_step-Refines kvc s (read key) h = cache_get-Refines kvc s key h
  cache_step-Refines kvc s (write key value) h = (refl, cache_set-Refines kvc s key value h)
  cache_step-Refines kvc s flush h = (refl, sync-Refines kvc s h)
  cache_step-Refines kvc s discard h = (refl, cache_reset-Refines kvc s h)

  cache_run-Refines :
      (kvc : KvCache S) (s : Pending kvs) (rs : List (Request kvs))
      → Refines kvc s
      → ((cache_run kvs kvc rs).0 ≡ (pending_run kvs s rs).0)
        × Refines (cache_run kvs kvc rs).1 (pending_run kvs s rs).1
  unfolding cache_run pending_run
  cache_run-Refines kvc s [] h = (refl, h)
  cache_run-Refines kvc s (r ∷ rs) h =
      let (answer, h1) = cache_step-Refines kvc s r h in
      let (answers, h2) =
        cache_run-Refines (cache_step kvs kvc r).1 (pending_step kvs s r).1 rs h1 in
      ((λ i. answer i ∷ answers i), h2)

  -- Any Get, Set, Sync and Reset requests, in any order, to a new KVCache over a store get the
  -- answers of a store with a copy that takes the writes: Get reads the copy, Sync keeps it and
  -- Reset goes back to what is kept; afterwards every key reads in the store under the cache as in
  -- what is kept. `GetAll` is not among the requests.
  pub sync-cache_run :
      (store : S) (rs : List (Request kvs))
      → let start : Pending kvs = record { kept = store; current = store } in
        ((cache_run kvs (new_kv_cache store) rs).0 ≡ (pending_run kvs start rs).0)
        × ((key : Bytes)
            → kvs.get (cache_run kvs (new_kv_cache store) rs).1.store key
              ≡ kvs.get (pending_run kvs start rs).1.kept key)
  sync-cache_run store rs =
      let (answers, h) =
        cache_run-Refines (new_kv_cache store) (record { kept = store; current = store }) rs
          (new_kv_cache-Refines store) in
      (answers, h.under)
