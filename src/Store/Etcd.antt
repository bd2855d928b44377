-- ===== src/Store/Etcd.antt =====
-- internal/store/etcdstore.go. The etcd client and its cluster `E` are not under the repository:
-- their calls are a parameter. A call that fails has a nil response, which is the case `err`.
pub mod Cluster
pub mod Contract
pub mod Iteration
pub mod Ops
pub mod Transactions
use delegatio.Common.{
  ℕ, String, Bool, true, false, List, [], ◌∷◌, ◌++◌, Option, none, some, is_some, keep, eqb, not,
  ◌<>◌, has_prefix, trim_prefix, if◌then◌else◌,
}
use delegatio.Common.GoMap
use delegatio.Common.GoMap.{GoMap}
use delegatio.Common.Outcome.{
  Result, ok, err, returns, panics, Method, pure, gets, modify, on_ok, on_left, on_right, ◌>>=◌,
  ◌>>◌,
}
use delegatio.Store.{
  Bytes, StoreError, value_unset, multiple_entries, no_transaction, Iterator, StoreOps,
}

-- clientv3.OpPut and clientv3.OpDelete.
pub data Op : Type 0 where
  op_put : String → Bytes → Op
  op_delete : String → Op

-- clientv3.GetResponse.
pub record GetResponse : Type 0 where
  pub kvs : GoMap Bytes
  pub resp_count : ℕ  -- Count

-- The calls of the client, of its sessions and of the lock that the program makes.
pub record Client (E : Type 0) : Type 0 where
  pub get : String → Method E (Result StoreError GetResponse)
  pub get_prefix : String → Method E (Result StoreError GetResponse)
  pub put : String → Bytes → Method E (Result StoreError Unit)
  pub delete : String → Method E (Result StoreError Unit)
  pub txn : List Op → Method E (Result StoreError Unit)
  pub new_session : Method E (Result StoreError Unit)
  pub close_session : Method E Unit
  pub lock : Method E Unit
  pub unlock : Method E Unit

pub record EtcdTransaction : Type 0 where
  pub data_insert : GoMap Bytes
  pub data_delete : GoMap (Unit {0})
  pub ongoing_transaction : Bool

abbrev pub etcd_prefix : String
etcd_prefix = "delegatioRegion"

module _ {E : Type 0} where
  -- values.Kvs[0].Value
  first_value : GoMap Bytes → Method E (Result StoreError Bytes)
  first_value [] e = panics
  first_value ((k, v) ∷ kvs) e = returns (ok v) e

  by_count : String → GetResponse → Method E (Result StoreError Bytes)
  unfolding first_value
  by_count request values =
      if eqb values.resp_count 0
      then pure (err (value_unset request))
      else if eqb values.resp_count 1
      then first_value values.kvs
      else pure (err (multiple_entries request))

unfoldable pub trimmed_keys : GoMap Bytes → List String
trimmed_keys [] = []
trimmed_keys ((k, v) ∷ kvs) = trim_prefix k etcd_prefix ∷ trimmed_keys kvs

unfoldable pub put_ops : GoMap Bytes → List Op
put_ops [] = []
put_ops ((k, v) ∷ m) = op_put (etcd_prefix <> k) v ∷ put_ops m

-- Only keys that are not inserted are deleted.
unfoldable pub delete_ops : GoMap Bytes → GoMap (Unit {0}) → List Op
delete_ops inserted [] = []
delete_ops inserted ((k, u) ∷ m) =
    let rest = delete_ops inserted m in
    if is_some (GoMap.lookup k inserted) then rest else op_delete (etcd_prefix <> k) ∷ rest

unfoldable pub commit_ops : EtcdTransaction → List Op
unfolding put_ops delete_ops
commit_ops t = put_ops t.data_insert ++ delete_ops t.data_insert t.data_delete

module _ {E : Type 0} (client : Client E) where
  unfoldable pub get : String → Method E (Result StoreError Bytes)
  unfolding by_count first_value
  get request = do values ← client.get (etcd_prefix <> request); on_ok values (by_count request)

  unfoldable pub put : String → Bytes → Method E (Result StoreError Unit)
  put request request_data = client.put (etcd_prefix <> request) request_data

  -- The keys are read off the response before its error is looked at.
  list_keys : Result StoreError GetResponse → Method E (Result StoreError Iterator)
  list_keys (err x) e = panics
  list_keys (ok resp) e = returns (ok (record { idx = 0; keys = trimmed_keys resp.kvs })) e

  unfoldable pub iterator : String → Method E (Result StoreError Iterator)
  unfolding list_keys
  iterator prefix = do resp ← client.get_prefix (etcd_prefix <> prefix); list_keys resp

  unfoldable pub transfer : {T : Type 0} → StoreOps T → Method E (Result StoreError Unit)
  transfer newstore e = panics

  unfoldable pub delete : String → Method E (Result StoreError Unit)
  delete key = client.delete (etcd_prefix <> key)

  pub etcd_ops : StoreOps E
  etcd_ops = record { get = get; put = put; delete = delete; iterator = iterator }

  unfoldable pub begin_transaction : Method E (Result StoreError EtcdTransaction)
  begin_transaction = do
    sess ← client.new_session
    on_ok sess λ _. (do
      client.lock
      pure (ok (record { data_insert = []; data_delete = []; ongoing_transaction = true })))

  -- A transaction's methods change the cluster and the transaction.
  read_through : String → EtcdTransaction → Method (E × EtcdTransaction) (Result StoreError Bytes)
  read_through request t = elim (GoMap.lookup request t.data_insert) [
    | some value ↦ pure (ok value)
    | none ↦
        if is_some (GoMap.lookup request t.data_delete)
        then pure (err (value_unset request))
        else on_left (get request)
  ]

  unfoldable pub tx_get : String → Method (E × EtcdTransaction) (Result StoreError Bytes)
  unfolding read_through
  tx_get request = do
    t ← gets (λ w. w.1)
    if t.ongoing_transaction then read_through request t else pure (err no_transaction)

  unfoldable pub tx_put : String → Bytes → Method (E × EtcdTransaction) (Result StoreError Unit)
  tx_put request request_data = do
    t ← gets (λ w. w.1)
    if t.ongoing_transaction
        then (do
          modify
              λ w. (w.0, record t { data_insert = GoMap.insert request request_data t.data_insert })
          pure (ok tt))
        else pure (err no_transaction)

  unfoldable pub tx_delete : String → Method (E × EtcdTransaction) (Result StoreError Unit)
  tx_delete key = do
    t ← gets (λ w. w.1)
    if t.ongoing_transaction
        then (do
          modify λ w. (
            w.0,
            record t {
              data_insert = GoMap.delete key t.data_insert;
              data_delete = GoMap.insert key tt t.data_delete;
            },
          )
          pure (ok tt))
        else pure (err no_transaction)

  -- The stored keys that are not deleted, and then the inserted keys.
  tx_keys : String → EtcdTransaction → GoMap Bytes → List String
  tx_keys prefix t kvs =
      keep (λ k. not (is_some (GoMap.lookup k t.data_delete))) (trimmed_keys kvs)
      ++ keep (λ k. has_prefix k prefix) (GoMap.keys t.data_insert)

  unfoldable pub tx_iterator : String → Method (E × EtcdTransaction) (Result StoreError Iterator)
  unfolding tx_keys
  tx_iterator prefix = do
    t ← gets (λ w. w.1)
    resp ← on_left (client.get_prefix (etcd_prefix <> prefix))
    on_ok resp λ r. pure (ok (record { idx = 0; keys = tx_keys prefix t r.kvs }))

  -- session.Close, mut.Unlock, ongoingTransaction = false
  release : Method (E × EtcdTransaction) Unit
  release = do
    on_left client.close_session
    on_left client.unlock
    modify (λ w. (w.0, record (w.1) { ongoing_transaction = false }))

  unfoldable pub tx_commit : Method (E × EtcdTransaction) (Result StoreError Unit)
  unfolding release
  tx_commit = do
    t ← gets (λ w. w.1)
    if t.ongoing_transaction
        then (do r ← on_left (client.txn (commit_ops t)); on_ok r λ _. (do release; pure (ok tt)))
        else pure (err no_transaction)

  unfoldable pub tx_rollback : Method (E × EtcdTransaction) Unit
  unfolding release
  tx_rollback = do t ← gets (λ w. w.1); if t.ongoing_transaction then release else pure tt
