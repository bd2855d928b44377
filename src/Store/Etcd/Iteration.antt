-- ===== src/Store/Etcd/Iteration.antt =====
-- EtcdTransaction.Iterator in etcdstore.go.
use delegatio.Common.{
  ℕ, ◌+◌, ◌≡◌, String, List, is_some, arith, count, count-append, count-keep, has_prefix, not, ◌&&◌,
  ◌<>◌, has_prefix-append_append, if◌then◌else◌,
}
use delegatio.Common.GoMap
use delegatio.Common.GoMap.{IsDistinct, one_if}
use delegatio.Common.Outcome.{ok, returns, ◌>>=◌, on_left}
use delegatio.Store.Etcd.{Client, EtcdTransaction, etcd_prefix, trimmed_keys, tx_iterator, tx_keys}
use delegatio.Store.Etcd.Cluster.{ClusterLaws}
use delegatio.Store.Etcd.Contract.{view, count-trimmed_keys, outside_none}

module _ {E : Type 0} (client : Client E) (laws : ClusterLaws client) where
  -- How often a transaction's iterator has a key: once if it is stored and not deleted in the
  -- transaction, and once more if it is inserted in it.
  abbrev pub listed : String → E × EtcdTransaction → String → ℕ
  listed prefix w k =
      if has_prefix k prefix
      then one_if
          (is_some (view client laws (w.0) k) && not (is_some (GoMap.lookup k (w.1.data_delete))))
        + one_if (is_some (GoMap.lookup k (w.1.data_insert)))
      else 0

  -- While the cluster answers, the iterator of a transaction succeeds, changes nothing, and has each
  -- key with the prefix once if it is stored and not deleted in the transaction, and once more if it
  -- is inserted in it; so a key that is stored and written again stands twice.
  pub tx_iterator_lem :
      (prefix : String) (e : E) (t : EtcdTransaction)
      → laws.Answers e
      → IsDistinct t.data_insert
      → (ks : List String) × (tx_iterator client prefix (e, t)
          ≡ returns (ok (record { idx = 0; keys = ks })) (e, t))
        × ((k : String) → count k ks ≡ listed prefix (e, t) k)
  unfolding tx_iterator tx_keys
  tx_iterator_lem prefix e t h hi =
      let (r, got, counted) = laws.get_prefix_law (etcd_prefix <> prefix) e h in
      (
        tx_keys client prefix t r.kvs,
        rw (got, on_left, ◌>>=◌),
        λ k.
            rw
              (
                count-append k _ _,
                count-keep (λ j. not (is_some (GoMap.lookup j t.data_delete))) k
                    (trimmed_keys r.kvs),
                count-keep (λ j. has_prefix j prefix) k (GoMap.keys t.data_insert),
                count-trimmed_keys k r.kvs (outside_none r.kvs prefix (laws.contents e) counted),
                counted (etcd_prefix <> k),
                has_prefix-append_append etcd_prefix k prefix,
                hi.at_key k,
              )
              (ground arith),
      )
