-- ===== src/Store.antt =====
-- internal/store/store.go: the errors, the iterator and the interface of a key-value store, which
-- stdstore.go (`Std`) and etcdstore.go (`Etcd`) implement.
pub mod Contract
pub mod Iteration
pub mod Std
pub mod Etcd
use delegatio.Common.{
  ℕ, ◌+◌, String, Bool, List, Option, none, some, get_elem?, length, ltb, leb, if◌then◌else◌,
}
use delegatio.Common.Outcome.{Result, ok, err, Method, returns, panics}

-- []byte. A Go string that only carries such bytes is a `Bytes` too.
abbrev pub Bytes : Type 0
Bytes = List ℕ

pub data StoreError : Type 0 where
  value_unset : String → StoreError
  index_out_of_range : ℕ → ℕ → StoreError
  multiple_entries : String → StoreError
  no_transaction : StoreError
  -- An error that a library returned: the etcd client or encoding/json.
  library : ℕ → StoreError

-- StdIterator; EtcdIterator has the same fields and the same methods.
pub record Iterator : Type 0 where
  pub idx : ℕ
  pub keys : List String

-- keys[idx], and the step of the index.
at_index : Option String → Method Iterator (Result StoreError String)
at_index none it = panics
at_index (some val) it = returns (ok val) (record it { idx = it.idx + 1 })

unfoldable pub get_next : Method Iterator (Result StoreError String)
unfolding at_index
get_next it =
    if leb (length it.keys) it.idx
    then returns (err (index_out_of_range it.idx (length it.keys))) it
    else at_index (get_elem? it.keys it.idx) it

unfoldable pub has_next : Iterator → Bool
has_next it = ltb it.idx (length it.keys)

-- The methods of the interface that the program calls through it.
pub record StoreOps (S : Type 0) : Type 0 where
  pub get : String → Method S (Result StoreError Bytes)
  pub put : String → Bytes → Method S (Result StoreError Unit)
  pub delete : String → Method S (Result StoreError Unit)
  pub iterator : String → Method S (Result StoreError Iterator)

-- The answer of Get for what is stored under a key.
abbrev pub or_unset : String → Option Bytes → Result StoreError Bytes
or_unset key none = err (value_unset key)
or_unset key (some value) = ok value
