-- ===== src/Store/Contract.antt =====
-- What a client of the store interface may rely on: a map from keys to values, which Put and Delete
-- change at one key, and whose keys an iterator goes through once each. A transaction is a list of
-- writes that take effect together.
use delegatio.Common.{
  String, List, [], ◌∷◌, Option, none, some, is_some, ◌≡◌, ◌≢◌, arith, eq_iff, eq_refl, ◌==◌, count,
  has_prefix, if◌then◌else◌,
}
use delegatio.Common.GoMap.{one_if}
use delegatio.Common.Outcome.{ok, returns}
use delegatio.Store.{Bytes, StoreOps, or_unset}

abbrev pub View : Type 0
View = String → Option Bytes

abbrev pub write_at : String → Option Bytes → View → View
write_at k o f j = if k == j then o else f j

pub write_at_same : (k : String) (o : Option Bytes) (f : View) → write_at k o f k ≡ o
write_at_same k o f = rw (eq_refl k)

pub write_at_other : (k j : String) (o : Option Bytes) (f : View) → k ≢ j → write_at k o f j ≡ f j
write_at_other k j o f h = ground (arith, eq_iff k j)

pub record StoreLaws {S : Type 0} (ops : StoreOps S) : Type 1 where
  pub view : S → View
  pub IsReady : S → Type 0
  pub get_law : (k : String) (s : S) → IsReady s → ops.get k s ≡ returns (or_unset k (view s k)) s
  pub put_law :
      (k : String) (v : Bytes) (s : S)
      → IsReady s
      → (s' : S) × (ops.put k v s ≡ returns (ok tt) s')
        × IsReady s'
        × ((j : String) → view s' j ≡ write_at k (some v) (view s) j)
  pub delete_law :
      (k : String) (s : S)
      → IsReady s
      → (s' : S) × (ops.delete k s ≡ returns (ok tt) s')
        × IsReady s'
        × ((j : String) → view s' j ≡ write_at k none (view s) j)
  pub iterator_law :
      (prefix : String) (s : S)
      → IsReady s
      → (ks : List String) × (ops.iterator prefix s
          ≡ returns (ok (record { idx = 0; keys = ks })) s)
        × ((k : String)
            → count k ks ≡ (if has_prefix k prefix then one_if (is_some (view s k)) else 0))

-- The writes of a transaction.
pub data TxOp : Type 0 where
  put : String → Bytes → TxOp
  delete : String → TxOp

abbrev pub apply_op : TxOp → View → View
apply_op (put k v) f = write_at k (some v) f
apply_op (delete k) f = write_at k none f

-- The first write of the list is made first.
abbrev pub apply_ops : List TxOp → View → View
apply_ops [] f = f
apply_ops (op ∷ ops) f = apply_ops ops (apply_op op f)
