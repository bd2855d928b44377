-- ===== src/Store/Std/Contract.antt =====
-- What the methods of the standard store do while no lock is held.
use delegatio.Common.{
  ℕ, ◌+◌, ◌<◌, ◌≡◌, String, List, Option, none, some, is_some, false, arith, count, count-keep,
  has_prefix, if◌then◌else◌,
}
use delegatio.Common.GoMap
use delegatio.Common.GoMap.{
  GoMap, IsDistinct, lookup-insert, lookup-delete, lookup-copy, copy-IsDistinct, insert-IsDistinct,
  delete-IsDistinct, one_if,
}
use delegatio.Common.Outcome.{ok, returns}
use delegatio.Store.{Bytes, or_unset}
use delegatio.Store.Contract.{StoreLaws, write_at}
use delegatio.Store.Std.{StdStore, write_map, get, put, delete, iterator, keys_with, std_ops}

-- The stored value of a key.
abbrev pub view : StdStore → String → Option Bytes
view s j = GoMap.lookup j (s.maps s.map_ptr)

-- No lock is held, and the map in use has been allocated.
pub record IsReady (s : StdStore) : Type 0 where
  pub mut_free : s.mut ≡ false
  pub txmut_free : s.txmut ≡ false
  pub allocated : s.map_ptr < s.next
  pub distinct : IsDistinct (s.maps s.map_ptr)

-- Get answers the stored value or names the unset key, and changes nothing.
pub std_get_lem :
    (k : String) (s : StdStore) → IsReady s → get k s ≡ returns (or_unset k (view s k)) s
unfolding get
std_get_lem k s h = ground arith

abbrev put_state : String → Bytes → StdStore → StdStore
put_state k v s = record s {
  maps = write_map s.maps s.next (GoMap.insert k v (GoMap.copy (s.maps s.map_ptr)));
  map_ptr = s.next;
  next = s.next + 1;
}

abbrev delete_state : String → StdStore → StdStore
delete_state k s = record s {
  maps = write_map s.maps s.next (GoMap.delete k (GoMap.copy (s.maps s.map_ptr)));
  map_ptr = s.next;
  next = s.next + 1;
}

pub write_map_same : (maps : ℕ → GoMap Bytes) (p : ℕ) (m : GoMap Bytes) → write_map maps p m p ≡ m
write_map_same maps p m = ground arith

put_returns :
    (k : String) (v : Bytes) (s : StdStore)
    → IsReady s
    → put k v s ≡ returns (ok tt) (put_state k v s)
unfolding put
put_returns k v s h = ground arith

delete_returns :
    (k : String) (s : StdStore) → IsReady s → delete k s ≡ returns (ok tt) (delete_state k s)
unfolding delete
delete_returns k s h = ground arith

-- On a store whose locks are free Put succeeds, frees the locks again and changes the value of its
-- key alone.
pub std_put_lem :
    (k : String) (v : Bytes) (s : StdStore)
    → IsReady s
    → (s' : StdStore) × (put k v s ≡ returns (ok tt) s')
      × IsReady s'
      × ((j : String) → view s' j ≡ write_at k (some v) (view s) j)
std_put_lem k v s h = (
  put_state k v s,
  put_returns k v s h,
  record {
    mut_free = h.mut_free;
    txmut_free = h.txmut_free;
    allocated = omega arith;
    distinct =
        rw (write_map_same s.maps s.next (GoMap.insert k v (GoMap.copy (s.maps s.map_ptr))))
          (insert-IsDistinct k v (copy-IsDistinct (s.maps s.map_ptr)));
  },
  λ j. rw (
    write_map_same s.maps s.next (GoMap.insert k v (GoMap.copy (s.maps s.map_ptr))),
    lookup-insert k j v (GoMap.copy (s.maps s.map_ptr)),
    lookup-copy j (s.maps s.map_ptr),
  ),
)

-- On a store whose locks are free Delete succeeds, also on a key that is not there, frees the locks
-- again and removes its key alone.
pub std_delete_lem :
    (k : String) (s : StdStore)
    → IsReady s
    → (s' : StdStore) × (delete k s ≡ returns (ok tt) s')
      × IsReady s'
      × ((j : String) → view s' j ≡ write_at k none (view s) j)
std_delete_lem k s h = (
  delete_state k s,
  delete_returns k s h,
  record {
    mut_free = h.mut_free;
    txmut_free = h.txmut_free;
    allocated = omega arith;
    distinct =
        rw (write_map_same s.maps s.next (GoMap.delete k (GoMap.copy (s.maps s.map_ptr))))
          (delete-IsDistinct k (copy-IsDistinct (s.maps s.map_ptr)));
  },
  λ j. rw (
    write_map_same s.maps s.next (GoMap.delete k (GoMap.copy (s.maps s.map_ptr))),
    lookup-delete k j (GoMap.copy (s.maps s.map_ptr)),
    lookup-copy j (s.maps s.map_ptr),
  ),
)

iterator_returns :
    (prefix : String) (s : StdStore)
    → IsReady s
    → iterator prefix s
      ≡ returns (ok (record { idx = 0; keys = keys_with prefix (s.maps s.map_ptr) })) s
unfolding iterator
iterator_returns prefix s h = ground arith

-- On a store whose locks are free the iterator starts at the first of the stored keys with the
-- prefix, each of which it has once, and the store does not change.
pub std_iterator_lem :
    (prefix : String) (s : StdStore)
    → IsReady s
    → (ks : List String) × (iterator prefix s ≡ returns (ok (record { idx = 0; keys = ks })) s)
      × ((k : String)
          → count k ks ≡ (if has_prefix k prefix then one_if (is_some (view s k)) else 0))
std_iterator_lem prefix s h = (
  keys_with prefix (s.maps s.map_ptr),
  iterator_returns prefix s h,
  λ k. rw (
    count-keep (λ j. has_prefix j prefix) k (GoMap.keys (s.maps s.map_ptr)),
    h.distinct.at_key k,
  ),
)

abbrev pub std_laws : StoreLaws std_ops
std_laws = record {
  view = view;
  IsReady = IsReady;
  get_law = std_get_lem;
  put_law = std_put_lem;
  delete_law = std_delete_lem;
  iterator_law = std_iterator_lem;
}
