-- ===== src/Store/Etcd/Ops.antt =====
-- The operations that Commit in etcdstore.go sends: which keys they name, and what they write.
use mathlib.Core.Bool.{false≢true}
use delegatio.Common.{
  ◌≤◌, ◌≡◌, refl, sym, ap, ◌∙◌, String, false, List, [], ◌∷◌, ◌++◌, none, is_some, arith, count,
  count-append, has_prefix, has_prefix-append, ◌<>◌, ◌==◌, eq_iff, eq_refl, Bool-cases,
  Option-cases, has_prefix-split, inl, inr, ==-append, if◌then◌else◌,
}
use delegatio.Common.GoMap
use delegatio.Common.GoMap.{GoMap, IsDistinct, one_if}
use delegatio.Store.{Bytes}
use delegatio.Store.Contract.{View}
use delegatio.Store.Etcd.{Op, EtcdTransaction, etcd_prefix, put_ops, delete_ops, commit_ops}
use delegatio.Store.Etcd.Cluster.{op_key, op_keys, txn_view}

-- A key outside of the store's prefix is no key of the store.
outside-ne : (x k : String) → has_prefix x etcd_prefix ≡ false → ((etcd_prefix <> k) == x) ≡ false
outside-ne x k out = elim (Bool-cases ((etcd_prefix <> k) == x)) [
  | inl e ↦ absurd (
      false≢true
        (sym out ∙ rw (← (eq_iff (etcd_prefix <> k) x).0 e) (has_prefix-append etcd_prefix k)))
  | inr e ↦ e
]

op_keys-append : (xs ys : List Op) → op_keys (xs ++ ys) ≡ op_keys xs ++ op_keys ys
op_keys-append [] ys = refl
op_keys-append (x ∷ xs) ys = ap (λ ks. op_key x ∷ ks) (op_keys-append xs ys)

count-put_ops :
    (j : String) (m : GoMap Bytes)
    → count (etcd_prefix <> j) (op_keys (put_ops m)) ≡ count j (GoMap.keys m)
unfolding count put_ops GoMap.keys
count-put_ops j [] = refl
count-put_ops j ((k, v) ∷ m) = rw (==-append etcd_prefix k j, count-put_ops j m)

count-delete_ops :
    (j : String) (inserted : GoMap Bytes) (m : GoMap (Unit {0}))
    → count (etcd_prefix <> j) (op_keys (delete_ops inserted m))
      ≡ (if is_some (GoMap.lookup j inserted) then 0 else count j (GoMap.keys m))
unfolding count delete_ops GoMap.keys
count-delete_ops j inserted [] = ground arith
count-delete_ops j inserted ((k, u) ∷ m) = elim (Bool-cases (k == j)) [
  | inl e ↦
      rw ((eq_iff k j).0 e)
        (ground (arith, count-delete_ops j inserted m, ==-append etcd_prefix j j, eq_iff j j))
  | inr e ↦ ground (arith, count-delete_ops j inserted m, ==-append etcd_prefix k j)
]

-- A commit sends at most one operation for a key of the store, as etcd asks of a transaction.
commit_ops_own :
    (j : String) (t : EtcdTransaction)
    → IsDistinct t.data_insert
    → IsDistinct t.data_delete
    → count (etcd_prefix <> j) (op_keys (commit_ops t)) ≤ 1
unfolding commit_ops
commit_ops_own j t hi hd =
    rw
      (
        op_keys-append (put_ops t.data_insert) (delete_ops t.data_insert t.data_delete),
        count-append (etcd_prefix <> j) (op_keys (put_ops t.data_insert))
            (op_keys (delete_ops t.data_insert t.data_delete)),
        count-put_ops j t.data_insert,
        count-delete_ops j t.data_insert t.data_delete,
      )
      (ground (arith, hi.at_key j, hd.at_key j))

txn_view-put_ops :
    (j : String) (m : GoMap Bytes) (rest : List Op) (f : View)
    → txn_view (put_ops m ++ rest) f (etcd_prefix <> j) ≡ (
        if is_some (GoMap.lookup j m) then GoMap.lookup j m else txn_view rest f (etcd_prefix <> j))
unfolding put_ops GoMap.lookup
txn_view-put_ops j [] rest f = refl
txn_view-put_ops j ((k, v) ∷ m) rest f =
    rw (==-append etcd_prefix k j) (ground (arith, txn_view-put_ops j m rest f))

txn_view-delete_ops :
    (j : String) (inserted : GoMap Bytes) (m : GoMap (Unit {0})) (f : View)
    → GoMap.lookup j inserted ≡ none
    → txn_view (delete_ops inserted m) f (etcd_prefix <> j)
      ≡ (if is_some (GoMap.lookup j m) then none else f (etcd_prefix <> j))
unfolding delete_ops GoMap.lookup
txn_view-delete_ops j inserted [] f h = refl
txn_view-delete_ops j inserted ((k, u) ∷ m) f h = elim (Bool-cases (k == j)) [
  | inl e ↦ rw ((eq_iff k j).0 e) (rw (h, eq_refl j, eq_refl (etcd_prefix <> j)))
  | inr e ↦ ground (arith, txn_view-delete_ops j inserted m f h, ==-append etcd_prefix k j)
]

-- Every operation names a key of the store.
abbrev Owns : List Op → Type 0
Owns [] = Unit
Owns (op ∷ ops) = ((k : String) × (op_key op ≡ etcd_prefix <> k)) × Owns ops

Owns-append : (xs ys : List Op) → Owns xs → Owns ys → Owns (xs ++ ys)
Owns-append [] ys hx hy = hy
Owns-append (x ∷ xs) ys hx hy = (hx.0, Owns-append xs ys hx.1 hy)

put_ops-Owns : (m : GoMap Bytes) → Owns (put_ops m)
unfolding put_ops
put_ops-Owns [] = tt
put_ops-Owns ((k, v) ∷ m) = ((k, refl), put_ops-Owns m)

delete_ops-Owns : (inserted : GoMap Bytes) (m : GoMap (Unit {0})) → Owns (delete_ops inserted m)
unfolding delete_ops
delete_ops-Owns inserted [] = tt
delete_ops-Owns inserted ((k, u) ∷ m) = elim (Bool-cases (is_some (GoMap.lookup k inserted))) [
  | inl e ↦ rw e (delete_ops-Owns inserted m)
  | inr e ↦ rw e ((k, refl), delete_ops-Owns inserted m)
]

commit_ops-Owns : (t : EtcdTransaction) → Owns (commit_ops t)
unfolding commit_ops
commit_ops-Owns t =
    Owns-append (put_ops t.data_insert) (delete_ops t.data_insert t.data_delete)
      (put_ops-Owns t.data_insert) (delete_ops-Owns t.data_insert t.data_delete)

count_outside :
    (x : String) (ops : List Op)
    → has_prefix x etcd_prefix ≡ false
    → Owns ops
    → count x (op_keys ops) ≡ 0
unfolding count
count_outside x [] out h = refl
count_outside x (op ∷ ops) out h = rw (h.0.1, outside-ne x h.0.0 out, count_outside x ops out h.1)

txn_view_outside :
    (x : String) (ops : List Op) (f : View)
    → has_prefix x etcd_prefix ≡ false
    → Owns ops
    → txn_view ops f x ≡ f x
txn_view_outside x [] f out h = refl
txn_view_outside x (op ∷ ops) f out h =
    rw (h.0.1, outside-ne x h.0.0 out) (txn_view_outside x ops f out h.1)

-- When the transaction's two maps list each key once, no key stands twice among the operations of
-- its commit, as etcd requires.
pub commit_ops_once :
    (x : String) (t : EtcdTransaction)
    → IsDistinct t.data_insert
    → IsDistinct t.data_delete
    → count x (op_keys (commit_ops t)) ≤ 1
commit_ops_once x t hi hd = elim (Bool-cases (has_prefix x etcd_prefix)) [
  | inl e ↦
      let (j, split) = has_prefix-split x etcd_prefix e in rw (← split) (commit_ops_own j t hi hd)
  | inr e ↦ rw (count_outside x (commit_ops t) e (commit_ops-Owns t)) (omega arith)
]

-- A commit leaves keys outside of the store's prefix alone.
pub commit_ops_outside :
    (x : String) (t : EtcdTransaction) (f : View)
    → has_prefix x etcd_prefix ≡ false
    → txn_view (commit_ops t) f x ≡ f x
commit_ops_outside x t f out = txn_view_outside x (commit_ops t) f out (commit_ops-Owns t)

-- Inserted keys get their values, other deleted keys go, and all others stay.
abbrev pub overlay : EtcdTransaction → View → View
overlay t f j =
    if is_some (GoMap.lookup j t.data_insert)
    then GoMap.lookup j t.data_insert
    else if is_some (GoMap.lookup j t.data_delete)
    then none
    else f j

pub commit_ops-overlay :
    (j : String) (t : EtcdTransaction) (f : View)
    → txn_view (commit_ops t) f (etcd_prefix <> j) ≡ overlay t (λ k. f (etcd_prefix <> k)) j
unfolding commit_ops
commit_ops-overlay j t f = elim (Option-cases (GoMap.lookup j t.data_insert)) [
  | inl e ↦
      rw (txn_view-put_ops j t.data_insert (delete_ops t.data_insert t.data_delete) f)
        (rw e (txn_view-delete_ops j t.data_insert t.data_delete f e))
  | inr (v, e) ↦
      rw (txn_view-put_ops j t.data_insert (delete_ops t.data_insert t.data_delete) f) (rw e refl)
]
