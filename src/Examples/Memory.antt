-- ===== src/Examples/Memory.antt =====
-- A cluster in memory, which shows that what the etcd store relies on can hold.
use delegatio.Common.{
  ◌≡◌, refl, ap, ◌∙◌, String, Bool, true, false, List, [], ◌∷◌, Option, arith, count, has_prefix,
  ◌==◌, length, eq_iff, if◌then◌else◌, Bool-cases, inl, inr,
}
use delegatio.Common.GoMap
use delegatio.Common.GoMap.{
  GoMap, IsDistinct, one_if, lookup-insert, lookup-delete, insert-IsDistinct, delete-IsDistinct,
}
use delegatio.Common.Outcome.{ok, returns, blocks}
use delegatio.Store.{Bytes}
use delegatio.Store.Etcd.{Op, op_put, op_delete, Client}
use delegatio.Store.Etcd.Cluster.{ClusterLaws, is_lock_key, single, txn_view}

pub record Cluster : Type 0 where
  pub values : GoMap Bytes
  pub held : Bool

abbrev pub under : String → GoMap Bytes → GoMap Bytes
under p [] = []
under p ((k, v) ∷ m) = let rest = under p m in if has_prefix k p then (k, v) ∷ rest else rest

pub count-under :
    (p k : String) (m : GoMap Bytes)
    → count k (GoMap.keys (under p m)) ≡ (if has_prefix k p then count k (GoMap.keys m) else 0)
unfolding count GoMap.keys
count-under p k [] = ground arith
count-under p k ((j, v) ∷ m) = elim (Bool-cases (j == k)) [
  | inl e ↦ rw ((eq_iff j k).0 e) (ground (arith, count-under p k m))
  | inr e ↦ ground (arith, count-under p k m)
]

abbrev pub set : Op → GoMap Bytes → GoMap Bytes
set (op_put k v) m = GoMap.insert k v m
set (op_delete k) m = GoMap.delete k m

abbrev pub set_all : List Op → GoMap Bytes → GoMap Bytes
set_all [] m = m
set_all (op ∷ ops) m = set op (set_all ops m)

abbrev pub view_of : Cluster → String → Option Bytes
view_of e k = GoMap.lookup k e.values

abbrev pub lock_key : String
lock_key = "delegatioRegion/694d7a"

abbrev pub without_lock : Cluster → Cluster
without_lock e = record { values = GoMap.delete lock_key e.values; held = false }

abbrev pub memory : Client Cluster
memory = record {
  get = λ k e. returns (ok (single k (view_of e k))) e;
  get_prefix = λ p e.
      returns (ok (record { kvs = under p e.values; resp_count = length (under p e.values) })) e;
  put = λ k v e. returns (ok tt) (record e { values = GoMap.insert k v e.values });
  delete = λ k e. returns (ok tt) (record e { values = GoMap.delete k e.values });
  txn = λ ops e. returns (ok tt) (record e { values = set_all ops e.values });
  new_session = λ e. returns (ok tt) e;
  close_session = λ e. returns tt (without_lock e);
  lock = λ e. elim e.held [
    | true ↦ blocks
    | false ↦ returns tt (record { values = GoMap.insert lock_key [] e.values; held = true })
  ];
  unlock = λ e. returns tt (without_lock e);
}

pub set_all-IsDistinct :
    (ops : List Op) (m : GoMap Bytes) → IsDistinct m → IsDistinct (set_all ops m)
set_all-IsDistinct [] m h = h
set_all-IsDistinct (op_put k v ∷ ops) m h = insert-IsDistinct k v (set_all-IsDistinct ops m h)
set_all-IsDistinct (op_delete k ∷ ops) m h = delete-IsDistinct k (set_all-IsDistinct ops m h)

pub lookup-set_all :
    (ops : List Op) (m : GoMap Bytes) (j : String)
    → GoMap.lookup j (set_all ops m) ≡ txn_view ops (λ k. GoMap.lookup k m) j
lookup-set_all [] m j = refl
lookup-set_all (op_put k v ∷ ops) m j =
    rw (lookup-insert k j v (set_all ops m), lookup-set_all ops m j)
lookup-set_all (op_delete k ∷ ops) m j =
    rw (lookup-delete k j (set_all ops m), lookup-set_all ops m j)

lock_key-lock : is_lock_key lock_key ≡ true
unfolding has_prefix
lock_key-lock = refl

pub lock_key-other : (j : String) → is_lock_key j ≡ false → (lock_key == j) ≡ false
lock_key-other j plain = elim (Bool-cases (lock_key == j)) [
  | inl e ↦
      let same : is_lock_key lock_key ≡ is_lock_key j = ap is_lock_key ((eq_iff lock_key j).0 e) in
      absurd (ground (arith, same, lock_key-lock, plain))
  | inr e ↦ e
]

abbrev pub memory_laws : ClusterLaws memory
memory_laws = record {
  contents = view_of;
  Answers = λ e. IsDistinct e.values;
  locked = λ e. e.held;
  get_law = λ k e h. refl;
  get_prefix_law = λ p e h. (
    record { kvs = under p e.values; resp_count = length (under p e.values) },
    refl,
    λ k. rw (count-under p k e.values, h.at_key k),
  );
  put_law = λ k v e h. (
    record e { values = GoMap.insert k v e.values },
    refl,
    insert-IsDistinct k v h,
    λ j. lookup-insert k j v e.values,
  );
  delete_law = λ k e h. (
    record e { values = GoMap.delete k e.values },
    refl,
    delete-IsDistinct k h,
    λ j. lookup-delete k j e.values,
  );
  txn_law = λ ops e h once. (
    record e { values = set_all ops e.values },
    refl,
    set_all-IsDistinct ops e.values h,
    λ j. lookup-set_all ops e.values j,
  );
  session_law = λ e h. (e, refl, h, refl, λ j. refl);
  close_law = λ e h. (
    without_lock e,
    refl,
    delete-IsDistinct lock_key h,
    refl,
    λ j plain. lookup-delete lock_key j e.values ∙ rw (lock_key-other j plain) refl,
  );
  lock_law = λ e h free. (
    record { values = GoMap.insert lock_key [] e.values; held = true },
    rw free,
    insert-IsDistinct lock_key [] h,
    refl,
    λ j plain. lookup-insert lock_key j [] e.values ∙ rw (lock_key-other j plain) refl,
  );
  lock_waits = λ e held. rw held;
  unlock_law = λ e h free. (
    without_lock e,
    refl,
    delete-IsDistinct lock_key h,
    refl,
    λ j plain. lookup-delete lock_key j e.values ∙ rw (lock_key-other j plain) refl,
  );
}
