-- ===== src/Mempool/Cache/Bounded.antt =====
-- mempool/mempool.go: what a mapTxCache keeps, and what a push to it does.
use mathlib.Core.Option.{some-injective}
use mathlib.Core.Path.{subst}
use de_mars_dmc.Prelude.{
  ℕ, suc, ◌≤◌, ◌<◌, ◌≡◌, ◌∙◌, inl, inr, refl, sym, ap, Bool, true, false, not, Option, some, List,
  [], ◌∷◌, ◌++◌, length, length-append, leb, Bool-cases, arith, if◌then◌else◌,
}
use de_mars_dmc.Prelude.Bytes.{Bytes, bytes_equal, bytes_equal_refl}
use de_mars_dmc.Mempool.Cache.{
  MapTxCache, new_map_tx_cache, reset, push, pop_oldest, append_tx, remove, contains, delete,
}

-- The first list is the second without some of its elements.
pub data IsSublist : List Bytes → List Bytes → Type 0 where
  nothing : IsSublist [] []
  skipped : {xs ys : List Bytes} (y : Bytes) → IsSublist xs ys → IsSublist xs (y ∷ ys)
  taken : {xs ys : List Bytes} (y : Bytes) → IsSublist xs ys → IsSublist (y ∷ xs) (y ∷ ys)

pub IsSublist-length : {xs ys : List Bytes} → IsSublist xs ys → length xs ≤ length ys
IsSublist-length nothing = omega arith
IsSublist-length (skipped y s) = omega (arith, IsSublist-length s)
IsSublist-length (taken y s) = omega (arith, IsSublist-length s)

IsSublist-append :
    {xs ys : List Bytes} (tx : Bytes)
    → IsSublist xs ys
    → IsSublist (xs ++ (tx ∷ [])) (ys ++ (tx ∷ []))
IsSublist-append tx nothing = taken tx nothing
IsSublist-append tx (skipped y s) = skipped y (IsSublist-append tx s)
IsSublist-append tx (taken y s) = taken y (IsSublist-append tx s)

keep_or_skip :
    {xs ys : List Bytes} (b : Bool) (y : Bytes)
    → IsSublist xs ys
    → IsSublist (if b then xs else (y ∷ xs)) (y ∷ ys)
keep_or_skip true y s = skipped y s
keep_or_skip false y s = taken y s

IsSublist-delete : {xs ys : List Bytes} (tx : Bytes) → IsSublist xs ys → IsSublist (delete tx xs) ys
unfolding delete
IsSublist-delete tx nothing = nothing
IsSublist-delete tx (skipped y s) = skipped y (IsSublist-delete tx s)
IsSublist-delete tx (taken y s) = keep_or_skip (bytes_equal tx y) y (IsSublist-delete tx s)

-- The head of the longer list is deleted from the shorter one.
IsSublist-pop :
    {xs ys : List Bytes} (y : Bytes) → IsSublist xs (y ∷ ys) → IsSublist (delete y xs) ys
unfolding delete
IsSublist-pop y (skipped _ s) = IsSublist-delete y s
IsSublist-pop y (taken _ s) = rw (bytes_equal_refl y) (IsSublist-delete y s)

-- What the cache keeps: its map is part of its list, which is no longer than its size, and there is
-- room for one.
pub record IsBounded (cache : MapTxCache) : Type 0 where
  pub listed : IsSublist cache.map' cache.list'
  pub short : length cache.list' ≤ cache.size
  pub positive : 0 < cache.size

-- The states of a cache of some positive size.
pub data Reached : MapTxCache → Type 0 where
  started : (n : ℕ) → Reached (new_map_tx_cache (suc n))
  cleared : {cache : MapTxCache} → Reached cache → Reached (reset cache)
  removed : {cache : MapTxCache} (tx : Bytes) → Reached cache → Reached (remove cache tx)
  pushed :
      {cache cache' : MapTxCache} (tx : Bytes) (b : Bool)
      → Reached cache
      → push cache tx ≡ some (b, cache')
      → Reached cache'

contains-append : (tx : Bytes) (txs : List Bytes) → contains tx (txs ++ (tx ∷ [])) ≡ true
unfolding contains
contains-append tx [] = rw (bytes_equal_refl tx)
contains-append tx (t ∷ txs) = elim (Bool-cases (bytes_equal tx t)) [
  | inl e ↦ rw e
  | inr e ↦ rw e (contains-append tx txs)
]

-- The outcome of a push of a new transaction.
IsPushed : MapTxCache → Bytes → Option (Bool × MapTxCache) → Type 0
IsPushed cache tx result =
    (cache' : MapTxCache) × (result ≡ some (true, cache'))
    × IsBounded cache'
    × (contains tx cache'.map' ≡ true)

append_tx-IsPushed :
    (cache : MapTxCache) (tx : Bytes)
    → IsSublist cache.map' cache.list'
    → length cache.list' < cache.size
    → IsPushed cache tx (append_tx (some cache) tx)
unfolding IsPushed
append_tx-IsPushed cache tx s l = (
  _,
  refl,
  record {
    listed = IsSublist-append tx s;
    short = (let e = length-append cache.list' (tx ∷ []) in omega arith);
    positive = omega arith;
  },
  contains-append tx cache.map',
)

pop_oldest-IsPushed :
    (cache : MapTxCache) (tx : Bytes) (txs : List Bytes)
    → IsSublist cache.map' txs
    → length txs ≤ cache.size
    → 0 < cache.size
    → cache.size ≤ length txs
    → IsPushed cache tx (append_tx (pop_oldest (record cache { list' = txs })) tx)
unfolding IsPushed pop_oldest
pop_oldest-IsPushed cache tx [] s l p q = absurd (omega arith)
pop_oldest-IsPushed cache tx (t ∷ txs) s l p q =
    append_tx-IsPushed (record cache { map' = delete t cache.map'; list' = txs }) tx
      (IsSublist-pop t s) (omega arith)

-- A transaction that is not in the cache is put there.
push-IsPushed :
    (cache : MapTxCache) (tx : Bytes)
    → IsBounded cache
    → contains tx cache.map' ≡ false
    → IsPushed cache tx (push cache tx)
unfolding push
push-IsPushed cache tx h e = elim (Bool-cases (leb cache.size (length cache.list'))) [
  | inl q ↦
      rw (e, q)
        (pop_oldest-IsPushed cache tx cache.list' h.listed h.short h.positive (ground arith))
  | inr q ↦ rw (e, q) (append_tx-IsPushed cache tx h.listed (ground arith))
]

-- One that is there is refused.
pub push-seen :
    (cache : MapTxCache) (tx : Bytes)
    → contains tx cache.map' ≡ true
    → push cache tx ≡ some (false, cache)
unfolding push
push-seen cache tx e = rw e refl

Reached-IsBounded : {cache : MapTxCache} → Reached cache → IsBounded cache
unfolding IsPushed new_map_tx_cache reset remove delete
Reached-IsBounded (started n) = record {
  listed = nothing;
  short = omega arith;
  positive = omega arith;
}
Reached-IsBounded (cleared {cache = cache} r) = record {
  listed = nothing;
  short = omega arith;
  positive = (Reached-IsBounded r).positive;
}
Reached-IsBounded (removed {cache = cache} tx r) =
    let h = Reached-IsBounded r in
    record { listed = IsSublist-delete tx h.listed; short = h.short; positive = h.positive }
Reached-IsBounded (pushed {cache = cache} {cache' = cache'} tx b r e) =
    let h = Reached-IsBounded r in
    elim (Bool-cases (contains tx cache.map')) [
      | inl q ↦
          subst IsBounded (ap (λ x. x.1) (some-injective _ _ (sym (push-seen cache tx q) ∙ e))) h
      | inr q ↦
          let (new, p, h', c) = push-IsPushed cache tx h q in
          subst IsBounded (ap (λ x. x.1) (some-injective _ _ (sym p ∙ e))) h'
    ]

-- In every state that a cache of a positive size reaches from newMapTxCache, through any pushes,
-- removals and resets, Push does not panic, answers whether the transaction was not in the map, and
-- leaves a map that has it and has no more entries than the size.
pub push-IsAccepted :
    {cache : MapTxCache} (tx : Bytes)
    → Reached cache
    → (cache' : MapTxCache) × (push cache tx ≡ some (not (contains tx cache.map'), cache'))
      × (contains tx cache'.map' ≡ true)
      × (length cache'.map' ≤ cache'.size)
unfolding IsPushed
push-IsAccepted {cache = cache} tx r =
    let h = Reached-IsBounded r in
    elim (Bool-cases (contains tx cache.map')) [
      | inl q ↦
          let l = IsSublist-length h.listed in
          let short = h.short in (cache, rw q (push-seen cache tx q), q, omega arith)
      | inr q ↦
          let (new, p, h', c) = push-IsPushed cache tx h q in
          let l = IsSublist-length h'.listed in
          let short = h'.short in (new, rw q p, c, omega arith)
    ]
