-- ===== src/Mempool/Cache.antt =====
-- mempool/mempool.go: mapTxCache, the cache of the transactions already seen.
pub mod Bounded
use de_mars_dmc.Prelude.{
  ℕ, suc, ◌+◌, ◌≤◌, ◌<◌, ◌≡◌, ◌∙◌, inl, inr, refl, sym, ap, Bool, true, false, Option, none, some,
  List, [], ◌∷◌, ◌++◌, length, length-append, leb, Bool-cases, arith, if◌then◌else◌,
}
use de_mars_dmc.Prelude.Bytes.{Bytes, bytes_equal, bytes_equal_refl}

-- A set of byte strings, Go's `map[string]struct{}`.
unfoldable pub contains : Bytes → List Bytes → Bool
unfolding bytes_equal
contains tx [] = false
contains tx (t ∷ txs) = if bytes_equal tx t then true else contains tx txs

-- `delete(m, tx)`
unfoldable pub delete : Bytes → List Bytes → List Bytes
unfolding bytes_equal
delete tx [] = []
delete tx (t ∷ txs) = let rest = delete tx txs in if bytes_equal tx t then rest else t ∷ rest

-- `list'` are the transactions in the order in which they leave the cache when it is full.
pub record MapTxCache : Type 0 where
  pub size : ℕ
  pub map' : List Bytes
  pub list' : List Bytes

unfoldable pub new_map_tx_cache : ℕ → MapTxCache
new_map_tx_cache size = record { size = size; map' = []; list' = [] }

unfoldable pub reset : MapTxCache → MapTxCache
reset cache = record cache { map' = []; list' = [] }

-- The oldest transaction leaves; `none` is a panic.
unfoldable pub pop_oldest : MapTxCache → Option MapTxCache
unfolding delete
pop_oldest cache = elim cache.list' [
  | [] ↦ none
  | popped ∷ rest ↦ some (record cache { map' = delete popped cache.map'; list' = rest })
]

abbrev pub append_tx : Option MapTxCache → Bytes → Option (Bool × MapTxCache)
append_tx none tx = none
append_tx (some cache) tx =
    some (true, record cache { map' = cache.map' ++ (tx ∷ []); list' = cache.list' ++ (tx ∷ []) })

unfoldable pub push : MapTxCache → Bytes → Option (Bool × MapTxCache)
unfolding contains pop_oldest
push cache tx =
    if contains tx cache.map'
    then some (false, cache)
    else append_tx (if leb cache.size (length cache.list') then pop_oldest cache else some cache) tx

-- The list is left as it is.
unfoldable pub remove : MapTxCache → Bytes → MapTxCache
unfolding delete
remove cache tx = record cache { map' = delete tx cache.map' }
