-- ===== src/Examples/Clusters.antt =====
-- Runs of the etcd store at a cluster in memory.
use delegatio.Common.{◌≡◌, ◌≤◌, refl, String, true, false, List, [], ◌∷◌, count, has_prefix}
use delegatio.Common.GoMap
use delegatio.Common.GoMap.{GoMap, IsDistinct-empty, insert-IsDistinct, one_if}
use delegatio.Common.Outcome.{ok, returns}
use delegatio.Store.{Bytes}
use delegatio.Store.Etcd.{
  EtcdTransaction, etcd_prefix, commit_ops, tx_commit, tx_rollback, tx_iterator,
}
use delegatio.Store.Etcd.Cluster.{op_keys}
use delegatio.Store.Etcd.Contract.{view}
use delegatio.Store.Etcd.Ops.{commit_ops_once}
use delegatio.Store.Etcd.Iteration.{listed, tx_iterator_lem}
use delegatio.Store.Etcd.Transactions.{IsOpen, IsClosedTx, tx_view, ended_refuses, etcd_commit_lem}
use delegatio.Examples.Memory.{Cluster, lock_key, memory, memory_laws}

abbrev old : Bytes
old = 1 ∷ []

abbrev young : Bytes
young = 2 ∷ []

-- The lock is free, or held.
abbrev idle : Cluster
idle = record { values = GoMap.insert "delegatioRegiona" old []; held = false }

abbrev busy : Cluster
busy = record {
  values = GoMap.insert lock_key [] (GoMap.insert "delegatioRegiona" old []);
  held = true;
}

-- The key "a" is written again and "b" is deleted.
abbrev pending : EtcdTransaction
pending = record {
  data_insert = GoMap.insert "a" young [];
  data_delete = GoMap.insert "b" tt [];
  ongoing_transaction = true;
}

pending-IsOpen : IsOpen memory memory_laws (busy, pending)
pending-IsOpen = record {
  answers =
      insert-IsDistinct lock_key [] (insert-IsDistinct "delegatioRegiona" old IsDistinct-empty);
  lock_held = refl;
  is_ongoing = refl;
  insert_distinct = insert-IsDistinct "a" young IsDistinct-empty;
  delete_distinct = insert-IsDistinct "b" tt IsDistinct-empty;
}

ended_refuses_example :
    (w w' : Cluster × EtcdTransaction) × (tx_commit memory (busy, pending) ≡ returns (ok tt) w)
    × IsClosedTx memory w
    × (tx_rollback memory (busy, pending) ≡ returns tt w')
    × IsClosedTx memory w'
ended_refuses_example = ended_refuses memory memory_laws busy pending pending-IsOpen

etcd_commit_lem_example :
    (e' : Cluster) × (tx_commit memory (busy, pending)
      ≡ returns (ok tt) (e', record pending { ongoing_transaction = false }))
    × memory_laws.Answers e'
    × (memory_laws.locked e' ≡ false)
    × ((j : String)
        → has_prefix j "/" ≡ false
        → view memory memory_laws e' j ≡ tx_view memory memory_laws (busy, pending) j)
    × ((x : String)
        → has_prefix x etcd_prefix ≡ false
        → memory_laws.contents e' x ≡ memory_laws.contents busy x)
etcd_commit_lem_example = etcd_commit_lem memory memory_laws busy pending pending-IsOpen

commit_ops_once_example : count "delegatioRegiona" (op_keys (commit_ops pending)) ≤ 1
commit_ops_once_example =
    commit_ops_once "delegatioRegiona" pending pending-IsOpen.insert_distinct
      pending-IsOpen.delete_distinct

tx_iterator_lem_example :
    (ks : List String) × (tx_iterator memory "a" (busy, pending)
      ≡ returns (ok (record { idx = 0; keys = ks })) (busy, pending))
    × ((k : String) → count k ks ≡ listed memory memory_laws "a" (busy, pending) k)
tx_iterator_lem_example =
    tx_iterator_lem memory memory_laws "a" busy pending pending-IsOpen.answers
      pending-IsOpen.insert_distinct
