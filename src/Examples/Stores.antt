-- ===== src/Examples/Stores.antt =====
-- Runs at a standard store with one value.
use delegatio.Common.{◌≡◌, refl, String, true, false, List, [], ◌∷◌, some, arith, ◌<>◌}
use delegatio.Common.GoMap
use delegatio.Common.GoMap.{GoMap, IsDistinct-empty, insert-IsDistinct, one_if}
use delegatio.Common.Outcome.{ok, err, returns, blocks, panics}
use delegatio.Config.{ContainerInformation, zero_container, UserInformation, zero_user}
use delegatio.Store.{Bytes, Iterator, StoreOps, library}
use delegatio.Store.Contract.{TxOp, apply_ops, write_at}
use delegatio.Store.Std.{
  StdStore, StdTransaction, get, put, delete, begin_transaction, tx_put, tx_commit, tx_rollback,
  std_ops,
}
use delegatio.Store.Std.Contract.{view, IsReady, std_laws}
use delegatio.Store.Std.Transactions.{IsOpen, run_writes}
use delegatio.Store.Std.Atomicity.{
  transact, abandon, transact_lem, abandon_lem, writers_wait, write_after_commit,
}
use delegatio.Store.Std.Transfer.{transfer, or_else, transfer_lem, transfer_failed_locks, put_all}
use delegatio.StoreWrapper.{
  Codec, public_key_prefix, uuid_key_prefix, priv_key_location, put_challenge_data,
  get_challenge_data, get_all_public_keys,
}
use delegatio.StoreWrapper.Records.{get-put_challenge_data}
use delegatio.StoreWrapper.Loops.{get_all_public_keys_lem, decoded}

abbrev pub one : Bytes
one = 1 ∷ []

abbrev pub two : Bytes
two = 2 ∷ []

abbrev pub small : StdStore
small = record {
  map_ptr = 0;
  mut = false;
  txmut = false;
  maps = λ _. GoMap.insert "a" one [];
  next = 1;
}

pub small-IsReady : IsReady small
small-IsReady = record {
  mut_free = refl;
  txmut_free = refl;
  allocated = omega arith;
  distinct = insert-IsDistinct "a" one IsDistinct-empty;
}

-- A transaction on the map at 1 is under way.
abbrev opened : StdStore
opened = record small { txmut = true; next = 2 }

abbrev under_way : StdTransaction
under_way = record { store_set = true; map_ptr = 1 }

opened-IsOpen : IsOpen under_way opened
opened-IsOpen = record {
  mut_free = refl;
  txmut_held = refl;
  is_set = refl;
  allocated = omega arith;
  own_map = omega arith;
  apart = λ e. omega (arith, e);
  distinct = insert-IsDistinct "a" one IsDistinct-empty;
  tx_distinct = insert-IsDistinct "a" one IsDistinct-empty;
}

abbrev writes : List TxOp
writes = TxOp.put "b" two ∷ TxOp.delete "a" ∷ TxOp.put "a" two ∷ []

-- A store whose writes fail.
abbrev full : StoreOps Unit
full = record {
  get = λ k n. returns (err (library 1)) n;
  put = λ k v n. returns (err (library 1)) n;
  delete = λ k n. returns (err (library 1)) n;
  iterator = λ p n. returns (err (library 1)) n;
}

abbrev at_b : Iterator
at_b = record { idx = 1; keys = "a" ∷ "b" ∷ [] }

abbrev go_container : ContainerInformation
go_container = record { container_name = "go" }

-- An encoding of one challenge by one byte.
abbrev pub read_container : Bytes → ContainerInformation → ContainerInformation
read_container [] target = target
read_container (b ∷ bs) target = go_container

abbrev container_json : Codec ContainerInformation
container_json = record {
  marshal = λ c. ok one;
  unmarshal = λ d target. ok (read_container d target);
}

abbrev user_json : Codec UserInformation
user_json = record { marshal = λ u. ok one; unmarshal = λ d target. ok target }

transact_lem_example :
    (s' : StdStore) × (transact writes small ≡ returns (ok tt) s')
    × IsReady s'
    × ((j : String) → view s' j ≡ apply_ops writes (view small) j)
transact_lem_example = transact_lem writes small small-IsReady

abandon_lem_example :
    (s' : StdStore) × (abandon writes small ≡ returns (ok tt) s')
    × IsReady s'
    × ((j : String) → view s' j ≡ view small j)
abandon_lem_example = abandon_lem writes small small-IsReady

writers_wait_example :
    (t t' : StdTransaction) × (s1 s2 s3 s4 : StdStore) × (begin_transaction small
      ≡ returns (ok t) s1)
    × (run_writes writes t s1 ≡ returns (ok tt) s2)
    × ((begin_transaction s2 ≡ blocks) × (put "a" two s2 ≡ blocks) × (delete "a" s2 ≡ blocks))
    × (tx_commit t s2 ≡ returns (t', ok tt) s3)
    × IsReady s3
    × (tx_rollback t s2 ≡ returns tt s4)
    × IsReady s4
writers_wait_example = writers_wait writes small "a" two small-IsReady

write_after_commit_example :
    (t' : StdTransaction) × (s1 : StdStore) × (s2 : StdStore) × (tx_commit under_way opened
      ≡ returns (t', ok tt) s1)
    × (tx_put t' "a" two s1 ≡ returns (ok tt) s2)
    × ((j : String) → view s2 j ≡ write_at "a" (some two) (view s1) j)
    × (tx_commit t' s2 ≡ panics)
write_after_commit_example = write_after_commit under_way opened "a" two opened-IsOpen

transfer_lem_example :
    (n' : StdStore) × (transfer std_ops (small, small) ≡ returns (ok tt) (small, n'))
    × IsReady n'
    × ((j : String) → view n' j ≡ or_else (view small j) (view small j))
transfer_lem_example = transfer_lem std_ops std_laws small small small-IsReady small-IsReady

transfer_failed_locks_example : get "a" (record small { mut = true }) ≡ blocks
unfolding transfer put_all GoMap.insert
transfer_failed_locks_example =
    transfer_failed_locks full small (record small { mut = true }) tt tt (library 1) "a"
      small-IsReady refl

get-put_challenge_data_example :
    (s' : StdStore) × (put_challenge_data std_ops container_json "go" go_container small
      ≡ returns (ok tt) s')
    × IsReady s'
    × (get_challenge_data std_ops container_json "go" zero_container s'
        ≡ returns (ok go_container) s')
    × ((k : String) → view s' (public_key_prefix <> k) ≡ view small (public_key_prefix <> k))
    × ((k : String) → view s' (uuid_key_prefix <> k) ≡ view small (uuid_key_prefix <> k))
    × (view s' priv_key_location ≡ view small priv_key_location)
get-put_challenge_data_example =
    get-put_challenge_data std_ops std_laws container_json "go" go_container zero_container small
      small-IsReady (one, refl, refl)

get_all_public_keys_lem_example :
    (m : GoMap UserInformation) × (get_all_public_keys std_ops user_json small
      ≡ returns (ok m) small)
    × ((j : String)
        → GoMap.lookup j m ≡ decoded user_json zero_user (view small (public_key_prefix <> j)))
get_all_public_keys_lem_example =
    get_all_public_keys_lem std_ops std_laws small user_json small-IsReady
      (λ t d stored. (zero_user, refl))
