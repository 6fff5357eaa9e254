-- ===== src/Mempool/Recheck.antt =====
-- mempool/mempool.go: what the pool holds once the answers to the rechecks of an `Update` have come.
use mathlib.Core.Path.{subst}
use mathlib.Core.List.{append-nil, append_assoc}
use de_mars_dmc.Prelude.{
  ◌≡◌, ◌∙◌, inl, inr, refl, sym, ap, Bool, true, false, not, ◌&&◌, ◌||◌, Option, none, some, List,
  [], ◌∷◌, ◌++◌, map, ◌==◌, Bool-cases, if◌then◌else◌,
}
use de_mars_dmc.Prelude.Int.{ℤ, pos}
use de_mars_dmc.Prelude.Int64.{add64}
use de_mars_dmc.Prelude.Bytes.{Bytes, bytes_equal_refl}
use de_mars_dmc.Mempool.{
  Mempool, MempoolTx, all_txs, mempool_size, has_channel, offer, notify_txs_available,
  finish_recheck, recheck_at, res_cb, bucket_txs, filter_txs, send, send_all, recheck_txs, update,
  recheck_good, cache_remove,
}

-- The application answers the requests in order; `valid` are its verdicts.
unfoldable pub answer_all : (Bytes → ℤ → Bool) → Mempool → List (Bytes × ℤ) → Option Mempool
unfolding res_cb
answer_all valid mem [] = some mem
answer_all valid mem ((tx, height) ∷ requests) = elim (res_cb mem tx (valid tx height)) [
  | none ↦ none
  | some mem' ↦ answer_all valid mem' requests
]

-- The elements that the application finds valid.
abbrev pub keep : (Bytes → Bool) → List MempoolTx → List MempoolTx
keep ok [] = []
keep ok (t ∷ ts) = let rest = keep ok ts in if ok t.tx then t ∷ rest else rest

abbrev pub request_of : ℤ → MempoolTx → Bytes × ℤ
request_of height t = (t.tx, height)

-- The pool has these elements, and no recheck is under way.
pub record IsSettled (mem : Mempool) (txs : List MempoolTx) : Type 0 where
  pub holds : mem.checked ≡ txs
  pub no_cursor : mem.unchecked ≡ []
  pub is_done : mem.rechecking ≡ false

notified-IsSettled :
    (mem : Mempool) (txs : List MempoolTx)
    → IsSettled mem txs
    → (mempool_size mem == 0) ≡ false
    → (mem' : Mempool) × (notify_txs_available mem ≡ some mem') × IsSettled mem' txs
unfolding notify_txs_available
notified-IsSettled mem txs s n =
    elim (Bool-cases (has_channel mem.txs_available && not mem.notified_txs_available)) [
      | inl e ↦ (
        record mem {
          txs_available = offer mem.txs_available (add64 mem.height (pos 1));
          notified_txs_available = true;
        },
        rw (n, e) refl,
        record { holds = s.holds; no_cursor = s.no_cursor; is_done = s.is_done },
      )
      | inr e ↦ (mem, rw (n, e) refl, s)
    ]

-- The answer to the last recheck ends it.
finish_recheck-IsSettled :
    (mem : Mempool) (txs : List MempoolTx)
    → (mem' : Mempool) × (finish_recheck (record mem { checked = txs; unchecked = [] }) ≡ some mem')
      × IsSettled mem' txs
unfolding finish_recheck
finish_recheck-IsSettled mem txs =
    let last : Mempool = record mem { checked = txs; unchecked = []; rechecking = false } in
    let s : IsSettled last txs = record { holds = refl; no_cursor = refl; is_done = refl } in
    elim (Bool-cases (mempool_size last == 0)) [
      | inl e ↦ (last, rw e refl, s)
      | inr e ↦ let (mem', q, s') = notified-IsSettled last txs s e in (mem', rw e (rw e at q), s')
    ]

-- The answers to the rechecks of the elements from the cursor on.
answer_all-IsSettled :
    (valid : Bytes → ℤ → Bool) (height : ℤ) (mem : Mempool) (done : List MempoolTx) (t : MempoolTx)
    (ts : List MempoolTx)
    → (mem' : Mempool) × (answer_all valid
          (record mem { checked = done; unchecked = t ∷ ts })
          (map (request_of height) (t ∷ ts))
        ≡ some mem')
      × IsSettled mem' (done ++ keep (λ tx. valid tx height) (t ∷ ts))
unfolding answer_all recheck_at
answer_all-IsSettled valid height mem done t [] = elim (Bool-cases (valid t.tx height)) [
  | inl e ↦
      let (mem', q, s) = finish_recheck-IsSettled mem (done ++ (t ∷ [])) in
      (mem', rw (bytes_equal_refl t.tx, e, q) refl, rw e s)
  | inr e ↦
      let (mem', q, s) =
        finish_recheck-IsSettled (record mem { cache = cache_remove mem.cache t.tx }) done in
      (mem', rw (bytes_equal_refl t.tx, e, q) refl, rw (e, append-nil done) s)
]
answer_all-IsSettled valid height mem done t (t' ∷ ts) = elim (Bool-cases (valid t.tx height)) [
  | inl e ↦
      let (mem', q, s) = answer_all-IsSettled valid height mem (done ++ (t ∷ [])) t' ts in
      (
        mem',
        rw (bytes_equal_refl t.tx, e) q,
        rw e (subst (IsSettled mem') (append_assoc done (t ∷ []) _) s),
      )
  | inr e ↦
      let (mem', q, s) =
        answer_all-IsSettled valid height (record mem { cache = cache_remove mem.cache t.tx }) done
          t' ts in
      (mem', rw (bytes_equal_refl t.tx, e) q, rw e s)
]

send_all_lem :
    (mem : Mempool) (ts : List MempoolTx)
    → send_all mem ts
      ≡ record mem { requests = mem.requests ++ map (request_of (add64 mem.height (pos 1))) ts }
unfolding send_all
send_all_lem mem [] =
    ap (λ rs. let m : Mempool = record mem { requests = rs } in m) (sym (append-nil mem.requests))
send_all_lem mem (t ∷ ts) =
    send_all_lem (send mem t.tx) ts
    ∙ ap (λ rs. let m : Mempool = record mem { requests = rs } in m)
        (append_assoc mem.requests ((t.tx, add64 mem.height (pos 1)) ∷ []) _)

-- The outcome of the answers to what a pool has asked.
abbrev Outcome : (Bytes → ℤ → Bool) → Mempool → List MempoolTx → Type 0
Outcome valid mem txs =
    (mem' : Mempool) × (answer_all valid mem mem.requests ≡ some mem') × IsSettled mem' txs

recheck_good-none :
    (mem : Mempool) → recheck_good mem [] ≡ record mem { checked = []; unchecked = [] }
unfolding recheck_good recheck_txs
recheck_good-none mem =
    elim (Bool-cases (mem.config.recheck && (mem.config.recheck_empty || false))) [
      | inl e ↦ rw e refl
      | inr e ↦ rw e refl
    ]

is_asked : (a b : Bool) → a ≡ true → (a && (b || true)) ≡ true
is_asked true true h = refl
is_asked true false h = refl
is_asked false b h = absurd (cc)

-- The requests for the elements that are left.
recheck_good-asks :
    (mem : Mempool) (t : MempoolTx) (ts : List MempoolTx)
    → mem.config.recheck ≡ true
    → mem.requests ≡ []
    → recheck_good mem (t ∷ ts) ≡ record mem {
      rechecking = true;
      checked = [];
      unchecked = t ∷ ts;
      requests = map (request_of (add64 mem.height (pos 1))) (t ∷ ts);
    }
unfolding recheck_good recheck_txs
recheck_good-asks mem t ts c r =
    let h = add64 mem.height (pos 1) in
    let with_requests = (λ (rs : List (Bytes × ℤ)).
      let m : Mempool = record mem {
        rechecking = true;
        checked = [];
        unchecked = t ∷ ts;
        requests = rs;
      } in
      m) in
    let asks = send_all_lem (with_requests mem.requests) (t ∷ ts) in
    let mem1 : Mempool = record mem { checked = t ∷ ts; unchecked = [] } in
    ap (λ (b : Bool). if b then recheck_txs mem1 else mem1)
      (is_asked mem.config.recheck mem.config.recheck_empty c)
    ∙ rw (append-nil ts) asks
    ∙ ap with_requests (ap (λ rs. rs ++ map (request_of h) (t ∷ ts)) r)

recheck_good-Outcome :
    (valid : Bytes → ℤ → Bool) (mem : Mempool) (good : List MempoolTx)
    → mem.config.recheck ≡ true
    → mem.requests ≡ []
    → mem.rechecking ≡ false
    → Outcome valid (recheck_good mem good) (keep (λ tx. valid tx (add64 mem.height (pos 1))) good)
unfolding answer_all
recheck_good-Outcome valid mem [] c r d =
    let mem1 : Mempool = record mem { checked = []; unchecked = [] } in
    subst (λ m. Outcome valid m []) (sym (recheck_good-none mem))
      (mem1, ap (answer_all valid mem1) r, record { holds = refl; no_cursor = refl; is_done = d })
recheck_good-Outcome valid mem (t ∷ ts) c r d =
    let h = add64 mem.height (pos 1) in
    subst (λ m. Outcome valid m (keep (λ tx. valid tx h) (t ∷ ts)))
      (sym (recheck_good-asks mem t ts c r))
      (answer_all-IsSettled valid h
        (record mem { rechecking = true; requests = map (request_of h) (t ∷ ts) }) [] t ts)

-- After Update with rechecks on, called when no request and no recheck is under way: the answers to
-- the requests it sends, given in order, cause no panic, and when the last has come no recheck is
-- under way and the pool has, in order, the transactions that are not in the block and that the
-- application finds valid at the height after the block's.
pub update-IsSettled :
    (valid : Bytes → ℤ → Bool) (mem : Mempool) (height : ℤ) (tx_buckets : List (List Bytes))
    → mem.config.recheck ≡ true
    → mem.requests ≡ []
    → mem.rechecking ≡ false
    → (mem' : Mempool) × (answer_all valid
          (update mem height tx_buckets)
          (update mem height tx_buckets).requests
        ≡ some mem')
      × IsSettled mem' (
          keep
            (λ tx. valid tx (add64 height (pos 1)))
            (filter_txs (bucket_txs tx_buckets) (all_txs mem)))
unfolding update
update-IsSettled valid mem height tx_buckets c r d =
    recheck_good-Outcome valid (record mem { height = height; notified_txs_available = false })
      (filter_txs (bucket_txs tx_buckets) (all_txs mem)) c r d
