-- ===== src/Store/Std/Transfer.antt =====
-- StdStore.Transfer in stdstore.go, into any store that keeps the interface's laws.
use delegatio.Common.{◌≡◌, refl, String, [], ◌∷◌, Option, none, some, arith, eq_iff}
use delegatio.Common.GoMap
use delegatio.Common.GoMap.{GoMap}
use delegatio.Common.Outcome.{
  Result, ok, err, returns, blocks, Method, pure, gets, on_ok, on_left, on_right, ◌>>=◌, ◌>>◌,
}
use delegatio.Store.{Bytes, StoreError, StoreOps}
use delegatio.Store.Contract.{StoreLaws}
use delegatio.Store.Std.{StdStore, get, lock_mut, unlock_mut}
use delegatio.Store.Std.Contract.{view, IsReady}

abbrev pub or_else {ℓ} : {A : Type ℓ} → Option A → Option A → Option A
or_else none o = o
or_else (some a) o = some a

module _ {T : Type 0} (ops : StoreOps T) where
  -- The range over the map goes from the list's end, as in `GoMap.copy`.
  unfoldable pub put_all : GoMap Bytes → Method T (Result StoreError Unit)
  put_all [] = pure (ok tt)
  put_all ((key, value) ∷ m) = do r ← put_all m; on_ok r λ _. ops.put key value

  -- An error returns before the Unlock.
  end_transfer : Result StoreError Unit → Method (StdStore × T) (Result StoreError Unit)
  end_transfer (err e) = pure (err e)
  end_transfer (ok _) = do on_left unlock_mut; pure (ok tt)

  unfoldable pub transfer : Method (StdStore × T) (Result StoreError Unit)
  unfolding lock_mut unlock_mut end_transfer
  transfer = do
    on_left lock_mut
    m ← gets (λ w. w.0.maps w.0.map_ptr)
    r ← on_right (put_all m)
    end_transfer r

  -- A transfer that begins with free locks and returns an error leaves the store locked: every later
  -- Get waits for ever.
  pub transfer_failed_locks :
      (s s' : StdStore) (n n' : T) (e : StoreError) (k : String)
      → IsReady s
      → transfer (s, n) ≡ returns (err e) (s', n')
      → get k s' ≡ blocks
  unfolding transfer end_transfer get
  transfer_failed_locks s s' n n' e k h failed = ground arith

  transfer_returns :
      (s : StdStore) (n n' : T)
      → IsReady s
      → put_all (s.maps s.map_ptr) n ≡ returns (ok tt) n'
      → transfer (s, n) ≡ returns (ok tt) (s, n')
  unfolding transfer
  transfer_returns s n n' h ran = ground arith

  module _ (laws : StoreLaws ops) where
    put_all_lem :
        (m : GoMap Bytes) (n : T)
        → laws.IsReady n
        → (n' : T) × (put_all m n ≡ returns (ok tt) n')
          × laws.IsReady n'
          × ((j : String) → laws.view n' j ≡ or_else (GoMap.lookup j m) (laws.view n j))
    unfolding put_all GoMap.lookup
    put_all_lem [] n h = (n, refl, h, λ j. refl)
    put_all_lem ((k, v) ∷ m) n h =
        let (n1, ran, h1, seen) = put_all_lem m n h in
        let (n2, done, h2, wrote) = laws.put_law k v n1 h1 in
        (n2, rw (ran, ◌>>=◌) done, h2, λ j. ground (arith, wrote j, seen j, eq_iff k j))

    -- From a standard store whose locks are free to a store that keeps its contract, a transfer
    -- succeeds, copies every value, keeps what the new store has under other keys, and leaves the
    -- old store as it was.
    pub transfer_lem :
        (s : StdStore) (n : T)
        → IsReady s
        → laws.IsReady n
        → (n' : T) × (transfer (s, n) ≡ returns (ok tt) (s, n'))
          × laws.IsReady n'
          × ((j : String) → laws.view n' j ≡ or_else (view s j) (laws.view n j))
    unfolding transfer lock_mut unlock_mut end_transfer
    transfer_lem s n h hn =
        let (n', ran, hn', seen) = put_all_lem (s.maps s.map_ptr) n hn in
        (n', transfer_returns s n n' h ran, hn', seen)
