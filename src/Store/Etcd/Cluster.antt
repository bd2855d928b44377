-- ===== src/Store/Etcd/Cluster.antt =====
-- What the program relies on of the etcd client while the cluster answers and no other client acts
-- between two calls: single keys are read and written, a prefix lists its keys, a transaction with
-- distinct keys takes effect at once, and the lock has one holder, which shows as a key of the cluster.
use delegatio.Common.{
  ◌≤◌, ◌≡◌, String, Bool, true, false, List, [], ◌∷◌, Option, none, some, is_some, count,
  has_prefix, ◌==◌, ◌<>◌, if◌then◌else◌,
}
use delegatio.Common.GoMap
use delegatio.Common.GoMap.{GoMap, one_if}
use delegatio.Common.Outcome.{ok, returns, blocks}
use delegatio.Store.{Bytes}
use delegatio.Store.Contract.{View, write_at}
use delegatio.Store.Etcd.{Op, op_put, op_delete, Client, GetResponse, etcd_prefix}

abbrev pub op_key : Op → String
op_key (op_put k v) = k
op_key (op_delete k) = k

abbrev pub op_value : Op → Option Bytes
op_value (op_put k v) = some v
op_value (op_delete k) = none

abbrev pub op_keys : List Op → List String
op_keys [] = []
op_keys (op ∷ ops) = op_key op ∷ op_keys ops

-- What a list of operations makes of a view.
abbrev pub txn_view : List Op → View → View
txn_view [] f k = f k
txn_view (op ∷ ops) f k = if op_key op == k then op_value op else txn_view ops f k

-- The answer to the read of one key.
abbrev pub single : String → Option Bytes → GetResponse
single k none = record { kvs = []; resp_count = 0 }
single k (some v) = record { kvs = (k, v) ∷ []; resp_count = 1 }

-- NewLocker puts the key of a lock, while it is held or waited for, under its prefix and a slash.
abbrev pub is_lock_key : String → Bool
is_lock_key k = has_prefix k (etcd_prefix <> "/")

pub record ClusterLaws {E : Type 0} (client : Client E) : Type 1 where
  pub contents : E → View
  pub Answers : E → Type 0
  pub locked : E → Bool
  pub get_law :
      (k : String) (e : E) → Answers e → client.get k e ≡ returns (ok (single k (contents e k))) e
  pub get_prefix_law :
      (p : String) (e : E)
      → Answers e
      → (r : GetResponse) × (client.get_prefix p e ≡ returns (ok r) e)
        × ((k : String)
            → count k (GoMap.keys r.kvs)
              ≡ (if has_prefix k p then one_if (is_some (contents e k)) else 0))
  pub put_law :
      (k : String) (v : Bytes) (e : E)
      → Answers e
      → (e' : E) × (client.put k v e ≡ returns (ok tt) e')
        × Answers e'
        × ((j : String) → contents e' j ≡ write_at k (some v) (contents e) j)
  pub delete_law :
      (k : String) (e : E)
      → Answers e
      → (e' : E) × (client.delete k e ≡ returns (ok tt) e')
        × Answers e'
        × ((j : String) → contents e' j ≡ write_at k none (contents e) j)
  pub txn_law :
      (ops : List Op) (e : E)
      → Answers e
      → ((k : String) → count k (op_keys ops) ≤ 1)
      → (e' : E) × (client.txn ops e ≡ returns (ok tt) e')
        × Answers e'
        × ((j : String) → contents e' j ≡ txn_view ops (contents e) j)
  pub session_law :
      (e : E)
      → Answers e
      → (e' : E) × (client.new_session e ≡ returns (ok tt) e')
        × Answers e'
        × (locked e' ≡ locked e)
        × ((j : String) → contents e' j ≡ contents e j)
  -- Close revokes the lease of the session, and with it the key of the lock.
  pub close_law :
      (e : E)
      → Answers e
      → (e' : E) × (client.close_session e ≡ returns tt e')
        × Answers e'
        × (locked e' ≡ false)
        × ((j : String) → is_lock_key j ≡ false → contents e' j ≡ contents e j)
  pub lock_law :
      (e : E)
      → Answers e
      → locked e ≡ false
      → (e' : E) × (client.lock e ≡ returns tt e')
        × Answers e'
        × (locked e' ≡ true)
        × ((j : String) → is_lock_key j ≡ false → contents e' j ≡ contents e j)
  pub lock_waits : (e : E) → locked e ≡ true → client.lock e ≡ blocks
  -- Unlock deletes the key of its own lock, which Close has already deleted.
  pub unlock_law :
      (e : E)
      → Answers e
      → locked e ≡ false
      → (e' : E) × (client.unlock e ≡ returns tt e')
        × Answers e'
        × (locked e' ≡ false)
        × ((j : String) → is_lock_key j ≡ false → contents e' j ≡ contents e j)
