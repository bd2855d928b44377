-- ===== src/Store/Std/Atomicity.antt =====
-- Whole transactions of the standard store: begun, written to, and committed or rolled back.
use delegatio.Common.{◌≡◌, refl, ◌∙◌, ap, String, false, List, some, arith}
use mathlib.Core.Path.{fun_ext}
use delegatio.Common.GoMap
use delegatio.Common.GoMap.{GoMap, lookup-insert}
use delegatio.Common.Outcome.{Result, ok, returns, blocks, panics, Method, pure, on_ok, ◌>>=◌, ◌>>◌}
use delegatio.Store.{Bytes, StoreError}
use delegatio.Store.Contract.{TxOp, View, write_at, apply_ops}
use delegatio.Store.Std.{
  StdStore, StdTransaction, put, delete, begin_transaction, tx_put, tx_commit, tx_rollback,
  write_map,
}
use delegatio.Store.Std.Contract.{view, IsReady, write_map_same}
use delegatio.Store.Std.Transactions.{
  IsOpen, run_writes, run_writes_lem, begin_transaction_lem, tx_commit_lem, tx_rollback_lem,
}

-- A client that begins, writes and commits.
unfoldable pub transact : List TxOp → Method StdStore (Result StoreError Unit)
transact ops = do
  begun ← begin_transaction
  on_ok begun λ t. (do r ← run_writes ops t; done ← tx_commit t; pure done.1)

-- A client that begins, writes and gives up.
unfoldable pub abandon : List TxOp → Method StdStore (Result StoreError Unit)
abandon ops = do
  begun ← begin_transaction
  on_ok begun λ t. (do r ← run_writes ops t; tx_rollback t; pure r)

-- On a store whose locks are free, a transaction that begins, makes any writes and commits succeeds:
-- all its writes take effect, in their order, and both locks are free again.
pub transact_lem :
    (ops : List TxOp) (s : StdStore)
    → IsReady s
    → (s' : StdStore) × (transact ops s ≡ returns (ok tt) s')
      × IsReady s'
      × ((j : String) → view s' j ≡ apply_ops ops (view s) j)
unfolding transact
transact_lem ops s h =
    let (t, s1, begun, open1, seen, kept) = begin_transaction_lem s h in
    let (s2, ran, open2, seen2, kept2) = run_writes_lem ops t s1 open1 in
    let (s3, committed, ready, shown) = tx_commit_lem t s2 open2 in
    (
      s3,
      rw (begun, ◌>>=◌) (rw (ran, ◌>>=◌) (rw (committed, ◌>>=◌))),
      ready,
      λ j. shown j ∙ seen2 j ∙ ap (λ (f : View). apply_ops ops f j) (fun_ext seen),
    )

-- On a store whose locks are free, a transaction that begins, makes any writes and is rolled back
-- leaves every value as it was, and both locks are free again.
pub abandon_lem :
    (ops : List TxOp) (s : StdStore)
    → IsReady s
    → (s' : StdStore) × (abandon ops s ≡ returns (ok tt) s')
      × IsReady s'
      × ((j : String) → view s' j ≡ view s j)
unfolding abandon
abandon_lem ops s h =
    let (t, s1, begun, open1, seen, kept) = begin_transaction_lem s h in
    let (s2, ran, open2, seen2, kept2) = run_writes_lem ops t s1 open1 in
    let (s3, rolled, ready, shown) = tx_rollback_lem t s2 open2 in
    (
      s3,
      rw (begun, ◌>>=◌) (rw (ran, ◌>>=◌) (rw (rolled, ◌>>=◌))),
      ready,
      λ j. shown j ∙ kept2 j ∙ kept j,
    )

-- While a transaction is open every other writer waits.
open_waits :
    (t : StdTransaction) (s : StdStore) (k : String) (v : Bytes)
    → IsOpen t s
    → (begin_transaction s ≡ blocks) × (put k v s ≡ blocks) × (delete k s ≡ blocks)
unfolding begin_transaction put delete
open_waits t s k v h = (ground arith, ground arith, ground arith)

-- On a store whose locks are free BeginTransaction succeeds; from then on, and after any writes of the
-- transaction, a second BeginTransaction, Put and Delete wait, until Commit or Rollback ends it: after
-- either the locks are free again.
pub writers_wait :
    (ops : List TxOp) (s : StdStore) (k : String) (v : Bytes)
    → IsReady s
    → (t t' : StdTransaction) × (s1 s2 s3 s4 : StdStore) × (begin_transaction s ≡ returns (ok t) s1)
      × (run_writes ops t s1 ≡ returns (ok tt) s2)
      × ((begin_transaction s2 ≡ blocks) × (put k v s2 ≡ blocks) × (delete k s2 ≡ blocks))
      × (tx_commit t s2 ≡ returns (t', ok tt) s3)
      × IsReady s3
      × (tx_rollback t s2 ≡ returns tt s4)
      × IsReady s4
writers_wait ops s k v h =
    let (t, s1, begun, open1, _, _) = begin_transaction_lem s h in
    let (s2, ran, open2, _, _) = run_writes_lem ops t s1 open1 in
    let (s3, committed, ready3, _) = tx_commit_lem t s2 open2 in
    let (s4, rolled, ready4, _) = tx_rollback_lem t s2 open2 in
    (
      t,
      record t { store_set = false },
      s1,
      s2,
      s3,
      s4,
      begun,
      ran,
      open_waits t s2 k v open2,
      committed,
      ready3,
      rolled,
      ready4,
    )

-- After Commit of an open transaction, the transaction holds the store's own map: a further Put
-- through it changes the store's value at once, and a further Commit panics.
pub write_after_commit :
    (t : StdTransaction) (s : StdStore) (k : String) (v : Bytes)
    → IsOpen t s
    → (t' : StdTransaction) × (s1 : StdStore) × (s2 : StdStore) × (tx_commit t s
        ≡ returns (t', ok tt) s1)
      × (tx_put t' k v s1 ≡ returns (ok tt) s2)
      × ((j : String) → view s2 j ≡ write_at k (some v) (view s1) j)
      × (tx_commit t' s2 ≡ panics)
unfolding tx_commit tx_put
write_after_commit t s k v h = (
  record t { store_set = false },
  committed,
  record committed { maps = write_map committed.maps t.map_ptr written },
  ground arith,
  refl,
  λ j. rw (write_map_same s.maps t.map_ptr written) (lookup-insert k j v (s.maps t.map_ptr)),
  refl,
)
  where
    committed : StdStore
    committed = record s { mut = false; txmut = false; map_ptr = t.map_ptr }

    written : GoMap Bytes
    written = GoMap.insert k v (s.maps t.map_ptr)

-- A second Rollback of a transaction gives back a lock that is not held, which is fatal.
pub rollback_twice :
    (t : StdTransaction) (s : StdStore)
    → IsOpen t s
    → (s' : StdStore) × (tx_rollback t s ≡ returns tt s') × (tx_rollback t s' ≡ panics)
unfolding tx_rollback
rollback_twice t s h = (record s { txmut = false }, ground arith, ground arith)
