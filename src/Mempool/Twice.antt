-- ===== src/Mempool/Twice.antt =====
-- mempool/mempool.go: a transaction that CheckTx has seen is refused.
use mathlib.Core.Option.{some-injective}
use mathlib.Core.Path.{subst}
use de_mars_dmc.Prelude.{
  ◌≡◌, ◌∙◌, ◌⊎◌, inl, inr, refl, sym, ap, Bool, true, false, not, ◌==◌, Option, none, some, List,
  [], ◌∷◌, ◌++◌, Bool-cases, Option-cases, if◌then◌else◌,
}
use de_mars_dmc.Prelude.Int.{pos, leb_ℤ}
use de_mars_dmc.Prelude.Int64.{add64}
use de_mars_dmc.Prelude.Bytes.{Bytes, bytes_equal}
use de_mars_dmc.Mempool.Cache.{MapTxCache, contains, push}
use de_mars_dmc.Mempool.Cache.Bounded.{Reached, push-seen, push-IsAccepted}
use de_mars_dmc.Mempool.{
  MempoolTx, notify_txs_available, finish_recheck, recheck_at, res_cb_normal, res_cb, answer_now,
  Mempool, MempoolError, TxCache, map_cache, mempool_is_full, tx_in_cache, mempool_size, cache_push,
  as_cache, check_pushed, check_tx,
}

-- The pool refuses the transaction and stays as it is.
abbrev IsRefused : Mempool → Bytes → Bool → Option Bool → Type 0
IsRefused mem tx app_ok answer =
    (check_tx mem tx app_ok answer ≡ some (some mempool_is_full, mem))
    ⊎ (check_tx mem tx app_ok answer ≡ some (some tx_in_cache, mem))

cache_push-map_cache :
    (c : TxCache) (cache : MapTxCache) (tx : Bytes)
    → c ≡ map_cache cache
    → cache_push c tx ≡ as_cache (push cache tx)
unfolding cache_push
cache_push-map_cache c cache tx e = ap (λ x. cache_push x tx) e

seen-IsRefused :
    (mem : Mempool) (cache : MapTxCache) (tx : Bytes) (app_ok : Bool) (answer : Option Bool)
    → mem.cache ≡ map_cache cache
    → contains tx cache.map' ≡ true
    → IsRefused mem tx app_ok answer
unfolding check_tx check_pushed
seen-IsRefused mem cache tx app_ok answer e c =
    elim (Bool-cases (leb_ℤ mem.config.size (pos (mempool_size mem)))) [
      | inl q ↦ inl (rw q refl)
      | inr q ↦ inr (
          rw q (
            ap (check_pushed mem tx app_ok answer)
              (cache_push-map_cache mem.cache cache tx e ∙ ap as_cache (push-seen cache tx c))))
    ]

-- One of two states that have one cache.
if-cache :
    (b : Bool) (x y mem' : Mempool) (c : TxCache)
    → x.cache ≡ c
    → y.cache ≡ c
    → (if b then some x else some y) ≡ some mem'
    → mem'.cache ≡ c
if-cache true x y mem' c p q h = ap (λ (m : Mempool). m.cache) (sym (some-injective _ _ h)) ∙ p
if-cache false x y mem' c p q h = ap (λ (m : Mempool). m.cache) (sym (some-injective _ _ h)) ∙ q

-- An answer that the transaction is good leaves the cache as it is.
notify_txs_available-cache :
    (mem mem' : Mempool) → notify_txs_available mem ≡ some mem' → mem'.cache ≡ mem.cache
unfolding notify_txs_available
notify_txs_available-cache mem mem' h = elim (Bool-cases (mempool_size mem == 0)) [
  | inl e ↦ absurd (let h' = rw e at h in cc)
  | inr e ↦ if-cache _ _ _ mem' mem.cache refl refl (rw e at h)
]

finish_recheck-cache :
    (mem mem' : Mempool) (rest : List MempoolTx)
    → mem.unchecked ≡ rest
    → finish_recheck mem ≡ some mem'
    → mem'.cache ≡ mem.cache
unfolding finish_recheck
finish_recheck-cache mem mem' [] u h =
    let last : Mempool = record mem { rechecking = false } in
    elim (Bool-cases (mempool_size last == 0)) [
      | inl e ↦
          ap (λ (m : Mempool). m.cache)
            (sym (some-injective _ _ (rw e at (rw (u, finish_recheck) at h))))
      | inr e ↦ if-cache _ _ _ mem' mem.cache refl refl (rw e at (rw (u, finish_recheck) at h))
    ]
finish_recheck-cache mem mem' (t ∷ ts) u h =
    ap (λ (m : Mempool). m.cache) (sym (some-injective _ _ (rw (u, finish_recheck) at h)))

recheck_at-cache :
    (mem mem' : Mempool) (t : MempoolTx) (rest : List MempoolTx) (tx : Bytes)
    → recheck_at mem t rest tx true ≡ some mem'
    → mem'.cache ≡ mem.cache
unfolding recheck_at
recheck_at-cache mem mem' t rest tx h = elim (Bool-cases (not (bytes_equal tx t.tx))) [
  | inl e ↦ absurd (let h' = rw e at h in cc)
  | inr e ↦
      finish_recheck-cache (record mem { checked = mem.checked ++ (t ∷ []); unchecked = rest }) mem'
        rest refl (rw e at h)
]

res_cb-cache :
    (mem mem' : Mempool) (tx : Bytes) (ts : List MempoolTx)
    → mem.unchecked ≡ ts
    → res_cb mem tx true ≡ some mem'
    → mem'.cache ≡ mem.cache
unfolding res_cb res_cb_normal
res_cb-cache mem mem' tx [] u h =
    let n = add64 mem.counter (pos 1) in
    notify_txs_available-cache
      (record mem {
        counter = n;
        checked = mem.checked ++ (record { counter = n; height = mem.height; tx = tx } ∷ []);
      })
      mem' (rw (u, res_cb) at h)
res_cb-cache mem mem' tx (t ∷ ts) u h = recheck_at-cache mem mem' t ts tx (rw (u, res_cb) at h)

-- The answers of the client after which a transaction is still in the cache: none yet, or that it is
-- good.
abbrev pub is_kept : Option Bool → Bool
is_kept none = true
is_kept (some is_ok) = is_ok

answer_now-cache :
    (mem mem' : Mempool) (tx : Bytes) (answer : Option Bool) (e : Option MempoolError)
    → is_kept answer ≡ true
    → answer_now mem tx answer ≡ some (e, mem')
    → mem'.cache ≡ mem.cache
unfolding answer_now
answer_now-cache mem mem' tx none e k h = ap (λ x. x.1.cache) (sym (some-injective _ _ h))
answer_now-cache mem mem' tx (some false) e k h = absurd (cc)
answer_now-cache mem mem' tx (some true) e k h = elim (Option-cases (res_cb mem tx true)) [
  | inl q ↦ absurd (let h' = rw (q, answer_now) at h in cc)
  | inr (m, q) ↦
      ap (λ x. x.1.cache) (sym (some-injective _ _ (rw (q, answer_now) at h)))
      ∙ res_cb-cache mem m tx mem.unchecked refl q
]

refused_known : (b : Bool) → false ≡ not b → b ≡ true
refused_known true n = refl
refused_known false n = cc

-- A call that is not refused for a full pool, with what the cache answers.
pushed-IsRefused :
    (mem mem' : Mempool) (cache cache' : MapTxCache) (tx : Bytes) (app_ok app_ok' b : Bool)
    (answer answer' : Option Bool) (e : Option MempoolError)
    → mem.cache ≡ map_cache cache
    → b ≡ not (contains tx cache.map')
    → contains tx cache'.map' ≡ true
    → is_kept answer ≡ true
    → check_pushed mem tx app_ok answer (some (b, map_cache cache')) ≡ some (e, mem')
    → IsRefused mem' tx app_ok' answer'
unfolding check_pushed
pushed-IsRefused mem mem' cache cache' tx app_ok app_ok' false answer answer' e m n c k h =
    let known = refused_known (contains tx cache.map') n in
    subst (λ x. IsRefused x tx app_ok' answer') (ap (λ x. x.1) (some-injective _ _ h))
      (seen-IsRefused mem cache tx app_ok' answer' m known)
pushed-IsRefused mem mem' cache cache' tx false app_ok' true answer answer' e m n c k h =
    subst (λ x. IsRefused x tx app_ok' answer') (ap (λ x. x.1) (some-injective _ _ h))
      (seen-IsRefused _ cache' tx app_ok' answer' refl c)
pushed-IsRefused mem mem' cache cache' tx true app_ok' true answer answer' e m n c k h =
    seen-IsRefused mem' cache' tx app_ok' answer' (answer_now-cache _ mem' tx answer e k h) c

-- With a cache in a state that it reaches from newMapTxCache: a transaction that CheckTx was called
-- with is refused with an error when it is called with it again at once, and the pool stays as it
-- is, unless the client of the application answered inside the first call that it is bad.
pub check_tx-IsRefused :
    (mem mem' : Mempool) (cache : MapTxCache) (tx : Bytes) (app_ok app_ok' : Bool)
    (answer answer' : Option Bool) (e : Option MempoolError)
    → mem.cache ≡ map_cache cache
    → Reached cache
    → is_kept answer ≡ true
    → check_tx mem tx app_ok answer ≡ some (e, mem')
    → (check_tx mem' tx app_ok' answer' ≡ some (some mempool_is_full, mem'))
      ⊎ (check_tx mem' tx app_ok' answer' ≡ some (some tx_in_cache, mem'))
unfolding check_tx
check_tx-IsRefused mem mem' cache tx app_ok app_ok' answer answer' e m r k h =
    elim (Bool-cases (leb_ℤ mem.config.size (pos (mempool_size mem)))) [
      | inl q ↦
          subst (λ x. IsRefused x tx app_ok' answer')
            (ap (λ x. x.1) (some-injective _ _ (rw q at h))) (inl (rw q refl))
      | inr q ↦
          let (cache', p, c, l) = push-IsAccepted tx r in
          let pushed = cache_push-map_cache mem.cache cache tx m ∙ ap as_cache p in
          pushed-IsRefused mem mem' cache cache' tx app_ok app_ok' _ answer answer' e m refl c k
            (sym (ap (check_pushed mem tx app_ok answer) pushed) ∙ rw q at h)
    ]
