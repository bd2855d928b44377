-- ===== src/Store/Std/Transactions.antt =====
-- The transactions of the standard store, each of which works on a map of its own.
use mathlib.Core.Path.{fun_ext}
use delegatio.Common.{
  ℕ, ◌+◌, ◌<◌, ◌≡◌, ◌≢◌, refl, ap, ◌∙◌, String, true, false, List, [], ◌∷◌, arith,
}
use delegatio.Common.GoMap
use delegatio.Common.GoMap.{
  GoMap, IsDistinct, lookup-insert, lookup-delete, lookup-copy, copy-IsDistinct, insert-IsDistinct,
  delete-IsDistinct,
}
use delegatio.Common.Outcome.{Result, ok, returns, Method, pure, on_ok, ◌>>=◌}
use delegatio.Store.{Bytes, StoreError}
use delegatio.Store.Contract.{TxOp, View, apply_op, apply_ops}
use delegatio.Store.Std.{
  StdStore, StdTransaction, write_map, begin_transaction, tx_put, tx_delete, tx_commit, tx_rollback,
}
use delegatio.Store.Std.Contract.{view, IsReady}

-- What the transaction would commit.
abbrev pub tx_view : StdTransaction → StdStore → View
tx_view t s j = GoMap.lookup j (s.maps t.map_ptr)

-- The transaction is under way and holds the transaction lock.
pub record IsOpen (t : StdTransaction) (s : StdStore) : Type 0 where
  pub mut_free : s.mut ≡ false
  pub txmut_held : s.txmut ≡ true
  pub is_set : t.store_set ≡ true
  pub allocated : s.map_ptr < s.next
  pub own_map : t.map_ptr < s.next
  pub apart : s.map_ptr ≢ t.map_ptr
  pub distinct : IsDistinct (s.maps s.map_ptr)
  pub tx_distinct : IsDistinct (s.maps t.map_ptr)

write_map_other :
    (maps : ℕ → GoMap Bytes) (p q : ℕ) (m : GoMap Bytes) → q ≢ p → write_map maps p m q ≡ maps q
write_map_other maps p q m h = ground arith

write_map_same : (maps : ℕ → GoMap Bytes) (p : ℕ) (m : GoMap Bytes) → write_map maps p m p ≡ m
write_map_same maps p m = ground arith

-- A new transaction sees what the store holds, on a map of its own.
pub begin_transaction_lem :
    (s : StdStore)
    → IsReady s
    → (t : StdTransaction) × (s' : StdStore) × (begin_transaction s ≡ returns (ok t) s')
      × IsOpen t s'
      × ((j : String) → tx_view t s' j ≡ view s j)
      × ((j : String) → view s' j ≡ view s j)
unfolding begin_transaction
begin_transaction_lem s h = (
  record { store_set = true; map_ptr = s.next },
  begun,
  begin_returns,
  record {
    mut_free = refl;
    txmut_held = refl;
    is_set = refl;
    allocated = omega arith;
    own_map = omega arith;
    apart = old_ne_new;
    distinct = rw (write_map_other s.maps s.next s.map_ptr copied old_ne_new) h.distinct;
    tx_distinct = rw (write_map_same s.maps s.next copied) (copy-IsDistinct (s.maps s.map_ptr));
  },
  λ j. rw (write_map_same s.maps s.next copied, lookup-copy j (s.maps s.map_ptr)),
  λ j. rw (write_map_other s.maps s.next s.map_ptr copied old_ne_new),
)
  where
    copied : GoMap Bytes
    copied = GoMap.copy (s.maps s.map_ptr)

    begun : StdStore
    begun = record s {
      mut = false;
      txmut = true;
      maps = write_map s.maps s.next (GoMap.copy (s.maps s.map_ptr));
      next = s.next + 1;
    }

    begin_returns :
        begin_transaction s ≡ returns (ok (record { store_set = true; map_ptr = s.next })) begun
    begin_returns = ground arith

    old_ne_new : s.map_ptr ≢ s.next
    old_ne_new = omega arith

pub write : TxOp → StdTransaction → Method StdStore (Result StoreError Unit)
write (TxOp.put k v) t = tx_put t k v
write (TxOp.delete k) t = tx_delete t k

abbrev write_map_by : TxOp → GoMap Bytes → GoMap Bytes
write_map_by (TxOp.put k v) m = GoMap.insert k v m
write_map_by (TxOp.delete k) m = GoMap.delete k m

abbrev write_state : TxOp → StdTransaction → StdStore → StdStore
write_state op t s = record s {
  maps = write_map s.maps t.map_ptr (write_map_by op (s.maps t.map_ptr));
}

write_returns :
    (op : TxOp) (t : StdTransaction) (s : StdStore)
    → write op t s ≡ returns (ok tt) (write_state op t s)
unfolding write tx_put tx_delete
write_returns (TxOp.put k v) t s = refl
write_returns (TxOp.delete k) t s = refl

write_map_by-IsDistinct :
    (op : TxOp) {m : GoMap Bytes} → IsDistinct m → IsDistinct (write_map_by op m)
write_map_by-IsDistinct (TxOp.put k v) h = insert-IsDistinct k v h
write_map_by-IsDistinct (TxOp.delete k) h = delete-IsDistinct k h

lookup-write_map_by :
    (op : TxOp) (m : GoMap Bytes) (j : String)
    → GoMap.lookup j (write_map_by op m) ≡ apply_op op (λ i. GoMap.lookup i m) j
lookup-write_map_by (TxOp.put k v) m j = lookup-insert k j v m
lookup-write_map_by (TxOp.delete k) m j = lookup-delete k j m

-- A write in a transaction shows in it and nowhere else.
pub write_lem :
    (op : TxOp) (t : StdTransaction) (s : StdStore)
    → IsOpen t s
    → IsOpen t (write_state op t s)
      × ((j : String) → tx_view t (write_state op t s) j ≡ apply_op op (tx_view t s) j)
      × ((j : String) → view (write_state op t s) j ≡ view s j)
write_lem op t s h = (
  record {
    mut_free = h.mut_free;
    txmut_held = h.txmut_held;
    is_set = h.is_set;
    allocated = h.allocated;
    own_map = h.own_map;
    apart = h.apart;
    distinct = rw (write_map_other s.maps t.map_ptr s.map_ptr written h.apart) h.distinct;
    tx_distinct =
        rw (write_map_same s.maps t.map_ptr written) (write_map_by-IsDistinct op h.tx_distinct);
  },
  λ j. rw (write_map_same s.maps t.map_ptr written) (lookup-write_map_by op (s.maps t.map_ptr) j),
  λ j. rw (write_map_other s.maps t.map_ptr s.map_ptr written h.apart),
)
  where
    written : GoMap Bytes
    written = write_map_by op (s.maps t.map_ptr)

-- A client's writes, one call each; the first error ends them.
unfoldable pub run_writes : List TxOp → StdTransaction → Method StdStore (Result StoreError Unit)
run_writes [] t = pure (ok tt)
run_writes (op ∷ ops) t = do r ← write op t; on_ok r λ _. run_writes ops t

pub run_writes_lem :
    (ops : List TxOp) (t : StdTransaction) (s : StdStore)
    → IsOpen t s
    → (s' : StdStore) × (run_writes ops t s ≡ returns (ok tt) s')
      × IsOpen t s'
      × ((j : String) → tx_view t s' j ≡ apply_ops ops (tx_view t s) j)
      × ((j : String) → view s' j ≡ view s j)
unfolding run_writes
run_writes_lem [] t s h = (s, refl, h, λ j. refl, λ j. refl)
run_writes_lem (op ∷ ops) t s h =
    let (h', seen, kept) = write_lem op t s h in
    let (s', ran, open', seen', kept') = run_writes_lem ops t (write_state op t s) h' in
    (
      s',
      rw (write_returns op t s, ◌>>=◌) ran,
      open',
      λ j. seen' j ∙ ap (λ (f : View). apply_ops ops f j) (fun_ext seen),
      λ j. kept' j ∙ kept j,
    )

-- Commit makes the store hold what the transaction saw, and frees the transaction lock.
pub tx_commit_lem :
    (t : StdTransaction) (s : StdStore)
    → IsOpen t s
    → (s' : StdStore) × (tx_commit t s ≡ returns (record t { store_set = false }, ok tt) s')
      × IsReady s'
      × ((j : String) → view s' j ≡ tx_view t s j)
unfolding tx_commit
tx_commit_lem t s h = (
  record s { mut = false; txmut = false; map_ptr = t.map_ptr },
  ground arith,
  record { mut_free = refl; txmut_free = refl; allocated = h.own_map; distinct = h.tx_distinct },
  λ j. refl,
)

-- Rollback frees the transaction lock, and the store holds what it held.
pub tx_rollback_lem :
    (t : StdTransaction) (s : StdStore)
    → IsOpen t s
    → (s' : StdStore) × (tx_rollback t s ≡ returns tt s')
      × IsReady s'
      × ((j : String) → view s' j ≡ view s j)
unfolding tx_rollback
tx_rollback_lem t s h = (
  record s { txmut = false },
  ground arith,
  record {
    mut_free = h.mut_free;
    txmut_free = refl;
    allocated = h.allocated;
    distinct = h.distinct;
  },
  λ j. refl,
)
