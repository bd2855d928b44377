-- ===== src/Store/Etcd/Transactions.antt =====
-- The transactions of the etcd store: writes are buffered and sent at once by Commit.
use delegatio.Common.{
  ◌≡◌, refl, ◌∙◌, String, true, false, [], none, some, arith, ◌<>◌, has_prefix, Bool-cases, inl,
  inr, has_prefix-append_append, has_prefix-left,
}
use delegatio.Common.GoMap
use delegatio.Common.GoMap.{
  GoMap, IsDistinct, IsDistinct-empty, lookup-insert, lookup-delete, lookup-empty,
  insert-IsDistinct, delete-IsDistinct,
}
use delegatio.Common.Outcome.{ok, err, returns, blocks, ◌>>=◌, on_left}
use delegatio.Store.{Bytes, StoreError, no_transaction, or_unset}
use delegatio.Store.Contract.{View, write_at}
use delegatio.Store.Etcd.{
  Client, EtcdTransaction, etcd_prefix, commit_ops, begin_transaction, tx_get, tx_put, tx_delete,
  tx_commit, tx_rollback, release,
}
use delegatio.Store.Etcd.Cluster.{ClusterLaws, is_lock_key}
use delegatio.Store.Etcd.Contract.{view, etcd_get_lem}
use delegatio.Store.Etcd.Ops.{overlay, commit_ops_once, commit_ops-overlay, commit_ops_outside}

module _ {E : Type 0} (client : Client E) where
  -- Get, Put, Delete and Commit are refused and nothing changes; a further Rollback does nothing.
  pub record IsClosedTx (w : E × EtcdTransaction) : Type 0 where
    pub get_refused : (k : String) → tx_get client k w ≡ returns (err no_transaction) w
    pub put_refused :
        (k : String) (v : Bytes) → tx_put client k v w ≡ returns (err no_transaction) w
    pub delete_refused : (k : String) → tx_delete client k w ≡ returns (err no_transaction) w
    pub commit_refused : tx_commit client w ≡ returns (err no_transaction) w
    pub rollback_ignored : tx_rollback client w ≡ returns tt w

  not_ongoing-IsClosedTx :
      (w : E × EtcdTransaction) → w.1.ongoing_transaction ≡ false → IsClosedTx w
  unfolding tx_get tx_put tx_delete tx_commit tx_rollback
  not_ongoing-IsClosedTx w h = record {
    get_refused = λ k. rw h;
    put_refused = λ k v. rw h;
    delete_refused = λ k. rw h;
    commit_refused = rw h;
    rollback_ignored = rw h;
  }

  -- A Commit of a transaction under way that the cluster refuses returns the cluster's error and
  -- leaves the transaction under way, with its writes.
  pub commit_failed :
      (e e' : E) (t : EtcdTransaction) (x : StoreError)
      → t.ongoing_transaction ≡ true
      → client.txn (commit_ops t) e ≡ returns (err x) e'
      → tx_commit client (e, t) ≡ returns (err x) (e', t)
  unfolding tx_commit
  commit_failed e e' t x h failed = simp h (rw (failed, on_left, ◌>>=◌))

module _ {E : Type 0} (client : Client E) (laws : ClusterLaws client) where
  abbrev store_view : E → View
  store_view = view client laws

  -- What the transaction would commit.
  abbrev pub tx_view : E × EtcdTransaction → View
  tx_view w = overlay w.1 (store_view w.0)

  -- The transaction is under way and holds the cluster's lock.
  pub record IsOpen (w : E × EtcdTransaction) : Type 0 where
    pub answers : laws.Answers (w.0)
    pub lock_held : laws.locked (w.0) ≡ true
    pub is_ongoing : w.1.ongoing_transaction ≡ true
    pub insert_distinct : IsDistinct (w.1.data_insert)
    pub delete_distinct : IsDistinct (w.1.data_delete)

  -- A key of the store that is no key of a lock.
  not_lock_key : (j : String) → has_prefix j "/" ≡ false → is_lock_key (etcd_prefix <> j) ≡ false
  not_lock_key j h = has_prefix-append_append etcd_prefix j "/" ∙ h

  outside_lock : (x : String) → has_prefix x etcd_prefix ≡ false → is_lock_key x ≡ false
  outside_lock x h = elim (Bool-cases (is_lock_key x)) [
    | inl lock ↦ absurd (ground (arith, has_prefix-left x etcd_prefix "/" lock, h))
    | inr e ↦ e
  ]

  -- While the cluster answers and its lock is free, a transaction begins, holds the lock, sees what
  -- the store holds, and changes no key of the cluster but those of locks.
  pub etcd_begin_lem :
      (e : E)
      → laws.Answers e
      → laws.locked e ≡ false
      → (e' : E) × (t : EtcdTransaction) × (begin_transaction client e ≡ returns (ok t) e')
        × IsOpen (e', t)
        × ((j : String) → has_prefix j "/" ≡ false → tx_view (e', t) j ≡ store_view e j)
        × ((j : String) → is_lock_key j ≡ false → laws.contents e' j ≡ laws.contents e j)
  unfolding begin_transaction
  etcd_begin_lem e h free =
      let (e1, opened, h1, same_lock, same) = laws.session_law e h in
      let (e2, locked', h2, held, same2) = laws.lock_law e1 h1 (same_lock ∙ free) in
      (
        e2,
        record { data_insert = []; data_delete = []; ongoing_transaction = true },
        rw (opened, ◌>>=◌) (rw (locked', ◌>>=◌)),
        record {
          answers = h2;
          lock_held = held;
          is_ongoing = refl;
          insert_distinct = IsDistinct-empty;
          delete_distinct = IsDistinct-empty;
        },
        λ j plain.
            rw (lookup-empty {V = Bytes} j, lookup-empty {V = Unit {0}} j)
              (same2 (etcd_prefix <> j) (not_lock_key j plain) ∙ same (etcd_prefix <> j)),
        λ j plain. same2 j plain ∙ same j,
      )

  -- While one transaction holds the lock, beginning another waits.
  pub begin_transaction_waits :
      (e : E) → laws.Answers e → laws.locked e ≡ true → begin_transaction client e ≡ blocks
  unfolding begin_transaction
  begin_transaction_waits e h held =
      let (e1, opened, h1, same_lock, same) = laws.session_law e h in
      rw (opened, ◌>>=◌) (rw (laws.lock_waits e1 (same_lock ∙ held), ◌>>=◌))

  -- A read in the transaction sees its own writes before the store's values.
  pub etcd_tx_get_lem :
      (k : String) (w : E × EtcdTransaction)
      → IsOpen w
      → tx_get client k w ≡ returns (or_unset k (tx_view w k)) w
  unfolding tx_get
  etcd_tx_get_lem k (e, t) h = ground (arith, etcd_get_lem client laws k e h.answers)

  -- A write in the transaction shows in it, and the cluster stays as it is.
  pub tx_put_lem :
      (k : String) (v : Bytes) (w : E × EtcdTransaction)
      → IsOpen w
      → (t' : EtcdTransaction) × (tx_put client k v w ≡ returns (ok tt) (w.0, t'))
        × IsOpen (w.0, t')
        × ((j : String) → tx_view (w.0, t') j ≡ write_at k (some v) (tx_view w) j)
  unfolding tx_put
  tx_put_lem k v (e, t) h = (
    record t { data_insert = GoMap.insert k v t.data_insert },
    rw h.is_ongoing,
    record {
      answers = h.answers;
      lock_held = h.lock_held;
      is_ongoing = h.is_ongoing;
      insert_distinct = insert-IsDistinct k v h.insert_distinct;
      delete_distinct = h.delete_distinct;
    },
    λ j. ground (arith, lookup-insert k j v t.data_insert),
  )

  pub tx_delete_lem :
      (k : String) (w : E × EtcdTransaction)
      → IsOpen w
      → (t' : EtcdTransaction) × (tx_delete client k w ≡ returns (ok tt) (w.0, t'))
        × IsOpen (w.0, t')
        × ((j : String) → tx_view (w.0, t') j ≡ write_at k none (tx_view w) j)
  unfolding tx_delete
  tx_delete_lem k (e, t) h = (
    record t {
      data_insert = GoMap.delete k t.data_insert;
      data_delete = GoMap.insert k tt t.data_delete;
    },
    rw h.is_ongoing,
    record {
      answers = h.answers;
      lock_held = h.lock_held;
      is_ongoing = h.is_ongoing;
      insert_distinct = delete-IsDistinct k h.insert_distinct;
      delete_distinct = insert-IsDistinct k tt h.delete_distinct;
    },
    λ j. ground (arith, lookup-delete k j t.data_insert, lookup-insert k j tt t.data_delete),
  )

  -- While the cluster answers, Commit of an open transaction makes every key of the store, but those
  -- that begin with a slash, where the cluster keeps its locks, what the transaction saw, leaves all
  -- keys of the cluster outside of the store alone, and ends the transaction and its lock.
  pub etcd_commit_lem :
      (e : E) (t : EtcdTransaction)
      → IsOpen (e, t)
      → (e' : E) × (tx_commit client (e, t)
          ≡ returns (ok tt) (e', record t { ongoing_transaction = false }))
        × laws.Answers e'
        × (laws.locked e' ≡ false)
        × ((j : String) → has_prefix j "/" ≡ false → store_view e' j ≡ tx_view (e, t) j)
        × ((x : String) → has_prefix x etcd_prefix ≡ false → laws.contents e' x ≡ laws.contents e x)
  unfolding tx_commit release
  etcd_commit_lem e t h =
      let (e1, sent, h1, seen) =
        laws.txn_law (commit_ops t) e h.answers
          (λ x. commit_ops_once x t h.insert_distinct h.delete_distinct) in
      let (e2, closed, h2, l2, kept2) = laws.close_law e1 h1 in
      let (e3, unlocked, h3, l3, kept3) = laws.unlock_law e2 h2 l2 in
      (
        e3,
        simp h.is_ongoing (
            rw (sent, on_left, ◌>>=◌)
              (rw (closed, on_left, ◌>>=◌) (rw (unlocked, on_left, ◌>>=◌)))),
        h3,
        l3,
        λ j plain.
            kept3 (etcd_prefix <> j) (not_lock_key j plain)
            ∙ kept2 (etcd_prefix <> j) (not_lock_key j plain)
            ∙ seen (etcd_prefix <> j)
            ∙ commit_ops-overlay j t (laws.contents e),
        λ x out.
            kept3 x (outside_lock x out)
            ∙ kept2 x (outside_lock x out)
            ∙ seen x
            ∙ commit_ops_outside x t (laws.contents e) out,
      )

  -- While the cluster answers, Rollback of an open transaction changes no key of the cluster but those
  -- of locks, and ends the transaction and its lock.
  pub etcd_rollback_lem :
      (e : E) (t : EtcdTransaction)
      → IsOpen (e, t)
      → (e' : E) × (tx_rollback client (e, t)
          ≡ returns tt (e', record t { ongoing_transaction = false }))
        × laws.Answers e'
        × (laws.locked e' ≡ false)
        × ((x : String) → is_lock_key x ≡ false → laws.contents e' x ≡ laws.contents e x)
  unfolding tx_rollback release
  etcd_rollback_lem e t h =
      let (e2, closed, h2, l2, kept2) = laws.close_law e h.answers in
      let (e3, unlocked, h3, l3, kept3) = laws.unlock_law e2 h2 l2 in
      (
        e3,
        rw h.is_ongoing (rw (closed, on_left, ◌>>=◌) (rw (unlocked, on_left, ◌>>=◌))),
        h3,
        l3,
        λ x plain. kept3 x plain ∙ kept2 x plain,
      )

  -- While the cluster answers, Commit and Rollback of an open transaction both end it: afterwards, at
  -- the cluster as they leave it, Get, Put, Delete and Commit are refused and nothing changes, and a
  -- further Rollback does nothing.
  pub ended_refuses :
      (e : E) (t : EtcdTransaction)
      → IsOpen (e, t)
      → (w w' : E × EtcdTransaction) × (tx_commit client (e, t) ≡ returns (ok tt) w)
        × IsClosedTx client w
        × (tx_rollback client (e, t) ≡ returns tt w')
        × IsClosedTx client w'
  ended_refuses e t h =
      let (e1, committed, _, _, _, _) = etcd_commit_lem e t h in
      let (e2, rolled, _, _, _) = etcd_rollback_lem e t h in
      let ended : EtcdTransaction = record t { ongoing_transaction = false } in
      (
        (e1, ended),
        (e2, ended),
        committed,
        not_ongoing-IsClosedTx client (e1, ended) refl,
        rolled,
        not_ongoing-IsClosedTx client (e2, ended) refl,
      )
