-- ===== src/Tests/Mempool.antt =====
-- A cache that is full, and a pool of three transactions, of which a block takes one.
use de_mars_dmc.Prelude.{none, ◌≡◌, ◌≤◌, ◌⊎◌, refl, Bool, true, false, not, some, [], ◌∷◌, length}
use de_mars_dmc.Prelude.Int.{ℤ, pos, ◌+ℤ◌}
use de_mars_dmc.Prelude.Int64.{add64, wrap64}
use de_mars_dmc.Prelude.Bytes.{Bytes, bytes_equal}
use de_mars_dmc.Mempool.{Mempool, MempoolTx, all_txs, map_cache, filter_txs, bucket_txs, update}
use de_mars_dmc.Mempool.Cache.{
  MapTxCache, push, remove, pop_oldest, contains, delete, new_map_tx_cache,
}
use de_mars_dmc.Mempool.Cache.Bounded.{Reached, started, pushed, push-IsAccepted}
use de_mars_dmc.Mempool.{
  check_pushed, answer_now, res_cb, res_cb_normal, cache_remove, check_tx, mempool_size, cache_push,
  mempool_is_full, tx_in_cache, app_conn_error,
}
use de_mars_dmc.Mempool.Twice.{check_tx-IsRefused}
use de_mars_dmc.Mempool.Recheck.{answer_all, keep, IsSettled, update-IsSettled}

abbrev full : MapTxCache
full = record { size = 2; map' = (1 ∷ []) ∷ (2 ∷ []) ∷ []; list' = (1 ∷ []) ∷ (2 ∷ []) ∷ [] }

full-Reached : Reached full
unfolding push new_map_tx_cache contains bytes_equal pop_oldest delete
full-Reached =
    pushed {cache = record { size = 2; map' = (1 ∷ []) ∷ []; list' = (1 ∷ []) ∷ [] }} (2 ∷ []) true
      (pushed (1 ∷ []) true (started 1) refl) refl

push-IsAccepted_example :
    (cache' : MapTxCache) × (push full (3 ∷ []) ≡ some (not (contains (3 ∷ []) full.map'), cache'))
    × (contains (3 ∷ []) cache'.map' ≡ true)
    × (length cache'.map' ≤ cache'.size)
push-IsAccepted_example = push-IsAccepted (3 ∷ []) full-Reached

-- The oldest transaction makes room.
push-full :
    push full (3 ∷ [])
    ≡ some (
      true,
      record { size = 2; map' = (2 ∷ []) ∷ (3 ∷ []) ∷ []; list' = (2 ∷ []) ∷ (3 ∷ []) ∷ [] },
    )
unfolding push contains bytes_equal pop_oldest delete
push-full = refl

abbrev entry : ℤ → Bytes → MempoolTx
entry counter tx = record { counter = counter; height = pos 1; tx = tx }

abbrev pool : Mempool
pool = record {
  config = record { recheck = true; recheck_empty = true; size = pos 10; cache_size = pos 2 };
  checked = entry (pos 1) (1 ∷ []) ∷ entry (pos 2) (2 ∷ []) ∷ entry (pos 3) (3 ∷ []) ∷ [];
  unchecked = [];
  counter = pos 3;
  height = pos 1;
  rechecking = false;
  notified_txs_available = true;
  txs_available = some [];
  cache = map_cache full;
  requests = [];
}

-- The third transaction is no longer valid.
abbrev verdict : Bytes → ℤ → Bool
verdict tx height = not (bytes_equal tx (3 ∷ []))

update-IsSettled_example :
    (mem' : Mempool) × (answer_all verdict
        (update pool (pos 2) (((2 ∷ []) ∷ []) ∷ []))
        (update pool (pos 2) (((2 ∷ []) ∷ []) ∷ [])).requests
      ≡ some mem')
    × IsSettled mem' (
        keep
          (λ tx. verdict tx (add64 (pos 2) (pos 1)))
          (filter_txs (bucket_txs (((2 ∷ []) ∷ []) ∷ [])) (all_txs pool)))
update-IsSettled_example =
    update-IsSettled verdict pool (pos 2) (((2 ∷ []) ∷ []) ∷ []) refl refl refl

what_is_left :
    keep (λ tx. verdict tx (pos 3)) (filter_txs (bucket_txs (((2 ∷ []) ∷ []) ∷ [])) (all_txs pool))
    ≡ entry (pos 1) (1 ∷ []) ∷ []
unfolding filter_txs bucket_txs contains bytes_equal
what_is_left = refl

-- The connection has an error, and the transaction stays in the cache.
failed : (mem' : Mempool) × (check_tx pool (4 ∷ []) false none ≡ some (some app_conn_error, mem'))
unfolding check_tx check_pushed mempool_size cache_push push contains bytes_equal pop_oldest delete
failed = (_, refl)

check_tx-IsRefused_example :
    (check_tx failed.0 (4 ∷ []) true (some true) ≡ some (some mempool_is_full, failed.0))
    ⊎ (check_tx failed.0 (4 ∷ []) true (some true) ≡ some (some tx_in_cache, failed.0))
check_tx-IsRefused_example =
    check_tx-IsRefused pool failed.0 full (4 ∷ []) false true none (some true) (some app_conn_error)
      refl full-Reached refl failed.1

-- A bad transaction that the local client answers at once is out of the cache again.
rejected :
    check_tx pool (4 ∷ []) true (some false)
    ≡ some (
      none,
      record pool {
        cache = map_cache (record full { map' = (2 ∷ []) ∷ []; list' = (2 ∷ []) ∷ (4 ∷ []) ∷ [] });
        requests = ((4 ∷ []), pos 2) ∷ [];
      },
    )
unfolding check_tx check_pushed answer_now res_cb res_cb_normal cache_remove remove mempool_size
    cache_push push contains bytes_equal pop_oldest delete add64 wrap64 ◌+ℤ◌
rejected = refl
