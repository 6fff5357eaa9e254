-- ===== src/Mempool.antt =====
-- mempool/mempool.go: the transactions that wait for a block. `CheckTx` and `Update` send requests to
-- the application, and `resCb` takes its answers.
pub mod Cache
pub mod Recheck
pub mod Twice
use de_mars_dmc.Prelude.{
  ℕ, zero, suc, ◌+◌, ◌==◌, Bool, true, false, not, ◌&&◌, ◌||◌, Option, none, some, List, [], ◌∷◌,
  ◌++◌, map, length, take, if◌then◌else◌,
}
use de_mars_dmc.Prelude.Int.{ℤ, pos, negsuc, leb_ℤ, ltb_ℤ}
use de_mars_dmc.Prelude.Int64.{add64}
use de_mars_dmc.Prelude.Bytes.{Bytes, bytes_equal}
use de_mars_dmc.Mempool.Cache.{MapTxCache, new_map_tx_cache, reset, push, remove, contains}

pub record MempoolTx : Type 0 where
  pub counter : ℤ
  pub height : ℤ
  pub tx : Bytes

-- The interface `txCache`: a `mapTxCache`, or `nopTxCache`.
pub data TxCache : Type 0 where
  map_cache : MapTxCache → TxCache
  nop_cache : TxCache

pub record MempoolConfig : Type 0 where
  pub recheck : Bool
  pub recheck_empty : Bool
  pub size : ℤ
  pub cache_size : ℤ

-- `mem.txs` is in two parts: the elements before `recheckCursor`, and those from it to `recheckEnd`,
-- which is the end of the list, since no element is appended while there is a cursor. With no
-- element in the second part the cursor is nil. `requests` are those sent to the application, and
-- `txs_available` holds what the channel holds, if there is a channel.
pub record Mempool : Type 0 where
  pub config : MempoolConfig
  pub checked : List MempoolTx
  pub unchecked : List MempoolTx
  pub counter : ℤ
  pub height : ℤ
  pub rechecking : Bool
  pub notified_txs_available : Bool
  pub txs_available : Option (List ℤ)
  pub cache : TxCache
  pub requests : List (Bytes × ℤ)

pub data MempoolError : Type 0 where
  tx_in_cache mempool_is_full app_conn_error : MempoolError

unfoldable pub new_cache : ℤ → TxCache
unfolding new_map_tx_cache
new_cache (pos zero) = nop_cache
new_cache (pos (suc n)) = map_cache (new_map_tx_cache (suc n))
new_cache (negsuc n) = nop_cache

unfoldable pub new_mempool : MempoolConfig → ℤ → Mempool
unfolding new_cache
new_mempool config height = record {
  config = config;
  checked = [];
  unchecked = [];
  counter = pos 0;
  height = height;
  rechecking = false;
  notified_txs_available = false;
  txs_available = none;
  cache = new_cache config.cache_size;
  requests = [];
}

unfoldable pub enable_txs_available : Mempool → Mempool
enable_txs_available mem = record mem { txs_available = some [] }

-- The methods of `txCache`; `none` is a panic.
abbrev pub as_cache : Option (Bool × MapTxCache) → Option (Bool × TxCache)
as_cache none = none
as_cache (some (b, cache)) = some (b, map_cache cache)

unfoldable pub cache_push : TxCache → Bytes → Option (Bool × TxCache)
unfolding push
cache_push (map_cache cache) tx = as_cache (push cache tx)
cache_push nop_cache tx = some (true, nop_cache)

unfoldable pub cache_remove : TxCache → Bytes → TxCache
unfolding remove
cache_remove (map_cache cache) tx = map_cache (remove cache tx)
cache_remove nop_cache tx = nop_cache

abbrev pub all_txs : Mempool → List MempoolTx
all_txs mem = mem.checked ++ mem.unchecked

-- `Size`
unfoldable pub mempool_size : Mempool → ℕ
mempool_size mem = length (all_txs mem)

abbrev pub send : Mempool → Bytes → Mempool
send mem tx = record mem { requests = mem.requests ++ ((tx, add64 mem.height (pos 1)) ∷ []) }

-- A channel of capacity 1 takes no second value.
abbrev pub offer : Option (List ℤ) → ℤ → Option (List ℤ)
offer none height = none
offer (some []) height = some (height ∷ [])
offer (some (h ∷ hs)) height = some (h ∷ hs)

abbrev pub has_channel : Option (List ℤ) → Bool
has_channel none = false
has_channel (some hs) = true

-- `none` is a panic.
unfoldable pub notify_txs_available : Mempool → Option Mempool
unfolding mempool_size
notify_txs_available mem =
    if mempool_size mem == 0
    then none
    else if has_channel mem.txs_available && not mem.notified_txs_available
    then some (record mem {
      txs_available = offer mem.txs_available (add64 mem.height (pos 1));
      notified_txs_available = true;
    })
    else some mem

-- The answer to a new transaction: `is_ok` says that its code is `CodeTypeOK`.
unfoldable pub res_cb_normal : Mempool → Bytes → Bool → Option Mempool
unfolding notify_txs_available cache_remove
res_cb_normal mem tx is_ok =
    if is_ok
    then (let n = add64 mem.counter (pos 1) in
        notify_txs_available (record mem {
          counter = n;
          checked = mem.checked ++ (record { counter = n; height = mem.height; tx = tx } ∷ []);
        }))
    else some (record mem { cache = cache_remove mem.cache tx })

-- The end of `resCbRecheck`: there may be no cursor left.
unfoldable pub finish_recheck : Mempool → Option Mempool
unfolding mempool_size notify_txs_available
finish_recheck mem = elim mem.unchecked [
  | t ∷ ts ↦ some mem
  | [] ↦
      let mem1 : Mempool = record mem { rechecking = false } in
      if mempool_size mem1 == 0 then some mem1 else notify_txs_available mem1
]

-- The answer to a recheck, for the element at the cursor and those after it.
unfoldable pub recheck_at : Mempool → MempoolTx → List MempoolTx → Bytes → Bool → Option Mempool
unfolding cache_remove finish_recheck
recheck_at mem mem_tx rest tx is_ok =
    if not (bytes_equal tx mem_tx.tx)
    then none
    else if is_ok
    then finish_recheck (record mem { checked = mem.checked ++ (mem_tx ∷ []); unchecked = rest })
    else finish_recheck (record mem { cache = cache_remove mem.cache tx; unchecked = rest })

-- `resCb`, for an answer to a `CheckTx` request, with `resCbRecheck`.
unfoldable pub res_cb : Mempool → Bytes → Bool → Option Mempool
unfolding res_cb_normal recheck_at
res_cb mem tx is_ok = elim mem.unchecked [
  | [] ↦ res_cb_normal mem tx is_ok
  | mem_tx ∷ rest ↦ recheck_at mem mem_tx rest tx is_ok
]

-- The request of `CheckTx`: the client of the application answers it inside the call, as the local one
-- does, or later (`none`).
unfoldable pub answer_now : Mempool → Bytes → Option Bool → Option (Option MempoolError × Mempool)
unfolding res_cb
answer_now mem tx none = some (none, mem)
answer_now mem tx (some is_ok) = elim (res_cb mem tx is_ok) [
  | none ↦ none
  | some mem' ↦ some (none, mem')
]

-- The part of `CheckTx` after the push to the cache: `app_ok` says that the connection has no error.
unfoldable pub check_pushed :
    Mempool
    → Bytes
    → Bool
    → Option Bool
    → Option (Bool × TxCache)
    → Option (Option MempoolError × Mempool)
unfolding answer_now
check_pushed mem tx app_ok answer none = none
check_pushed mem tx app_ok answer (some (false, cache)) = some (some tx_in_cache, mem)
check_pushed mem tx app_ok answer (some (true, cache)) =
    let mem1 : Mempool = record mem { cache = cache } in
    if not app_ok then some (some app_conn_error, mem1) else answer_now (send mem1 tx) tx answer

unfoldable pub check_tx :
    Mempool → Bytes → Bool → Option Bool → Option (Option MempoolError × Mempool)
unfolding mempool_size cache_push check_pushed
check_tx mem tx app_ok answer =
    if leb_ℤ mem.config.size (pos (mempool_size mem))
    then some (some mempool_is_full, mem)
    else check_pushed mem tx app_ok answer (cache_push mem.cache tx)

-- `collectTxs`, the result of `Reap` once `rechecking` is 0.
unfoldable pub collect_txs : Mempool → ℤ → List Bytes
collect_txs mem (pos n) = take n (map (λ (t : MempoolTx). t.tx) (all_txs mem))
collect_txs mem (negsuc n) = map (λ (t : MempoolTx). t.tx) (all_txs mem)

-- The transactions of all buckets of a block.
unfoldable pub bucket_txs : List (List Bytes) → List Bytes
bucket_txs [] = []
bucket_txs (txs ∷ buckets) = txs ++ bucket_txs buckets

-- `filterTxs`: the elements whose transactions are not in a block.
unfoldable pub filter_txs : List Bytes → List MempoolTx → List MempoolTx
unfolding contains
filter_txs block_txs [] = []
filter_txs block_txs (t ∷ ts) =
    let rest = filter_txs block_txs ts in if contains t.tx block_txs then rest else t ∷ rest

-- The requests of `recheckTxs`.
unfoldable pub send_all : Mempool → List MempoolTx → Mempool
send_all mem [] = mem
send_all mem (t ∷ ts) = send_all (send mem t.tx) ts

unfoldable pub recheck_txs : Mempool → Mempool
unfolding send_all
recheck_txs mem = elim (all_txs mem) [
  | [] ↦ mem
  | t ∷ ts ↦
      send_all (record mem { rechecking = true; checked = []; unchecked = all_txs mem }) (t ∷ ts)
]

abbrev pub is_nonempty : List MempoolTx → Bool
is_nonempty [] = false
is_nonempty (t ∷ ts) = true

-- The end of `Update`, with the elements that are left.
unfoldable pub recheck_good : Mempool → List MempoolTx → Mempool
unfolding recheck_txs
recheck_good mem good =
    let mem1 : Mempool = record mem { checked = good; unchecked = [] } in
    if mem.config.recheck && (mem.config.recheck_empty || is_nonempty good)
    then recheck_txs mem1
    else mem1

-- `Update`, called when all answers have come, so that no recheck is under way.
unfoldable pub update : Mempool → ℤ → List (List Bytes) → Mempool
unfolding bucket_txs filter_txs recheck_good
update mem height tx_buckets =
    recheck_good (record mem { height = height; notified_txs_available = false })
      (filter_txs (bucket_txs tx_buckets) (all_txs mem))
