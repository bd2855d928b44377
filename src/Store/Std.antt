-- ===== src/Store/Std.antt =====
-- internal/store/stdstore.go. A Go map is a reference, so the maps live in a heap: the store and
-- each transaction hold an address, and Commit makes the store hold the transaction's own map.
pub mod Contract
pub mod Transactions
pub mod Atomicity
pub mod Transfer
use delegatio.Common.{ℕ, ◌+◌, String, Bool, true, false, List, keep, eqb, has_prefix, if◌then◌else◌}
use delegatio.Common.GoMap
use delegatio.Common.GoMap.{GoMap}
use delegatio.Common.Outcome.{
  Result, ok, err, returns, blocks, panics, Method, pure, gets, modify, on_ok, ◌>>=◌, ◌>>◌,
}
use delegatio.Store.{Bytes, StoreError, Iterator, StoreOps, or_unset}

pub record StdStore : Type 0 where
  pub map_ptr : ℕ  -- the field `data`
  pub mut : Bool
  pub txmut : Bool
  pub maps : ℕ → GoMap Bytes
  pub next : ℕ

pub record StdTransaction : Type 0 where
  pub store_set : Bool  -- store != nil
  pub map_ptr : ℕ

abbrev pub write_map : (ℕ → GoMap Bytes) → ℕ → GoMap Bytes → ℕ → GoMap Bytes
write_map maps p m q = if eqb q p then m else maps q

pub new_std_store : StdStore
new_std_store = record { map_ptr = 0; mut = false; txmut = false; maps = λ _. List.[]; next = 1 }

-- Lock waits while the mutex is held; Unlock of a free mutex is a fatal error.
lock_mut : Method StdStore Unit
lock_mut s = elim s.mut [ true ↦ blocks | false ↦ returns tt (record s { mut = true }) ]

unlock_mut : Method StdStore Unit
unlock_mut s = elim s.mut [ true ↦ returns tt (record s { mut = false }) | false ↦ panics ]

lock_txmut : Method StdStore Unit
lock_txmut s = elim s.txmut [ true ↦ blocks | false ↦ returns tt (record s { txmut = true }) ]

unlock_txmut : Method StdStore Unit
unlock_txmut s = elim s.txmut [ true ↦ returns tt (record s { txmut = false }) | false ↦ panics ]

unfoldable pub get : String → Method StdStore (Result StoreError Bytes)
unfolding lock_mut unlock_mut
get request = do
  lock_mut
  value ← gets (λ s. GoMap.lookup request (s.maps s.map_ptr))
  unlock_mut
  pure (or_unset request value)

-- The new map is written at a new address.
copy_map : StdStore → StdStore
copy_map s = record s {
  maps = write_map s.maps s.next (GoMap.copy (s.maps s.map_ptr));
  next = s.next + 1;
}

unfoldable pub begin_transaction : Method StdStore (Result StoreError StdTransaction)
unfolding lock_mut unlock_mut lock_txmut copy_map
begin_transaction = do
  lock_txmut
  lock_mut
  fresh ← gets (λ s. s.next)
  modify copy_map
  unlock_mut
  pure (ok (record { store_set = true; map_ptr = fresh }))

commit_map : ℕ → Method StdStore (Result StoreError Unit)
unfolding lock_mut unlock_mut unlock_txmut
commit_map p = do
  lock_mut
  modify (λ s. record s { map_ptr = p })
  unlock_mut
  unlock_txmut
  pure (ok tt)

unfoldable pub tx_get : StdTransaction → String → Method StdStore (Result StoreError Bytes)
tx_get t request = gets (λ s. or_unset request (GoMap.lookup request (s.maps t.map_ptr)))

unfoldable pub tx_put : StdTransaction → String → Bytes → Method StdStore (Result StoreError Unit)
tx_put t request request_data s = returns (ok tt) (record s {
  maps = write_map s.maps t.map_ptr (GoMap.insert request request_data (s.maps t.map_ptr));
})

unfoldable pub tx_delete : StdTransaction → String → Method StdStore (Result StoreError Unit)
tx_delete t key s =
    returns (ok tt)
      (record s { maps = write_map s.maps t.map_ptr (GoMap.delete key (s.maps t.map_ptr)) })

abbrev pub keys_with : String → GoMap Bytes → List String
keys_with prefix m = keep (λ k. has_prefix k prefix) (GoMap.keys m)

unfoldable pub tx_iterator : StdTransaction → String → Method StdStore (Result StoreError Iterator)
tx_iterator t prefix =
    gets (λ s. ok (record { idx = 0; keys = keys_with prefix (s.maps t.map_ptr) }))

-- A commit with the store set to nil goes through the nil pointer.
unfoldable pub tx_commit :
    StdTransaction → Method StdStore (StdTransaction × Result StoreError Unit)
unfolding commit_map
tx_commit t =
    if t.store_set
    then (do
      r ← commit_map t.map_ptr
      pure (elim r [ err e ↦ (t, err e) | ok _ ↦ (record t { store_set = false }, ok tt) ]))
    else λ _. panics

unfoldable pub tx_rollback : StdTransaction → Method StdStore Unit
unfolding unlock_txmut
tx_rollback t = if t.store_set then unlock_txmut else pure tt

-- The end of Put and Delete, with the deferred Rollback.
finish : StdTransaction → Result StoreError Unit → Method StdStore (Result StoreError Unit)
unfolding tx_commit tx_rollback
finish t (err e) = do tx_rollback t; pure (err e)
finish t (ok _) = do done ← tx_commit t; tx_rollback done.0; pure done.1

unfoldable pub put : String → Bytes → Method StdStore (Result StoreError Unit)
unfolding begin_transaction tx_put finish
put request request_data = do
  begun ← begin_transaction
  on_ok begun λ tx. (do r ← tx_put tx request request_data; finish tx r)

unfoldable pub delete : String → Method StdStore (Result StoreError Unit)
unfolding begin_transaction tx_delete finish
delete key = do begun ← begin_transaction; on_ok begun λ tx. (do r ← tx_delete tx key; finish tx r)

unfoldable pub iterator : String → Method StdStore (Result StoreError Iterator)
unfolding lock_mut unlock_mut
iterator prefix = do
  lock_mut
  ks ← gets (λ s. keys_with prefix (s.maps s.map_ptr))
  unlock_mut
  pure (ok (record { idx = 0; keys = ks }))

abbrev pub std_ops : StoreOps StdStore
std_ops = record { get = get; put = put; delete = delete; iterator = iterator }
