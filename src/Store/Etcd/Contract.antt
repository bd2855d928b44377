-- ===== src/Store/Etcd/Contract.antt =====
-- The methods of the etcd store while the cluster answers, as the interface's contract.
use delegatio.Common.{
  ◌≡◌, refl, sym, ap, ◌∙◌, String, Bool, false, List, [], ◌∷◌, Option, none, some, is_some, arith,
  count, has_prefix, ◌<>◌, eq_refl, Bool-cases, inl, inr, if◌then◌else◌, ==-append,
  has_prefix-append_append, has_prefix-left, has_prefix-split, trim_prefix-append,
}
use mathlib.Core.Bool.{false≢true}
use delegatio.Common.GoMap
use delegatio.Common.GoMap.{GoMap, one_if}
use delegatio.Common.Outcome.{ok, err, returns, panics, ◌>>=◌}
use delegatio.Store.{Bytes, StoreError, or_unset}
use delegatio.Store.Contract.{View, StoreLaws, write_at}
use delegatio.Store.Etcd.{
  Client, etcd_prefix, get, put, delete, iterator, trimmed_keys, etcd_ops, by_count,
}
use delegatio.Store.Etcd.Cluster.{ClusterLaws, single}

-- The trimmed keys of a response count each key as often as the response has it under the prefix.
pub count-trimmed_keys :
    (k : String) (kvs : GoMap Bytes)
    → ((x : String) → has_prefix x etcd_prefix ≡ false → count x (GoMap.keys kvs) ≡ 0)
    → count k (trimmed_keys kvs) ≡ count (etcd_prefix <> k) (GoMap.keys kvs)
unfolding count GoMap.keys trimmed_keys
count-trimmed_keys k [] h = refl
count-trimmed_keys k ((x, v) ∷ kvs) h = elim (Bool-cases (has_prefix x etcd_prefix)) [
  | inl e ↦
      let (t, split) = has_prefix-split x etcd_prefix e in
      let tail = count-trimmed_keys k kvs (λ y none'. ground (arith, h y none')) in
      rw (← split) (rw (trim_prefix-append etcd_prefix t, ==-append etcd_prefix t k, tail))
  | inr e ↦ absurd (ground (arith, h x e, eq_refl x))
]

-- A response to a prefix below the store's holds no key outside of it.
pub outside_none :
    (kvs : GoMap Bytes) (prefix : String) (f : View)
    → ((k : String)
        → count k (GoMap.keys kvs)
          ≡ (if has_prefix k (etcd_prefix <> prefix) then one_if (is_some (f k)) else 0))
    → (x : String) → has_prefix x etcd_prefix ≡ false
    → count x (GoMap.keys kvs) ≡ 0
outside_none kvs prefix f counted x out = elim (Bool-cases (has_prefix x (etcd_prefix <> prefix))) [
  | inl e ↦ absurd (false≢true (sym out ∙ has_prefix-left x etcd_prefix prefix e))
  | inr e ↦ rw e at (counted x)
]

by_count-single :
    {E : Type 0} (k key : String) (o : Option Bytes) (e : E)
    → by_count k (single key o) e ≡ returns (or_unset k o) e
unfolding by_count
by_count-single k key none e = refl
by_count-single k key (some v) e = refl

module _ {E : Type 0} (client : Client E) where
  -- With the cluster unreachable, Iterator panics: it reads the keys of a nil response.
  pub iterator_panics :
      (prefix : String) (e e' : E) (x : StoreError)
      → client.get_prefix (etcd_prefix <> prefix) e ≡ returns (err x) e'
      → iterator client prefix e ≡ panics
  unfolding iterator
  iterator_panics prefix e e' x failed = rw (failed, ◌>>=◌)

module _ {E : Type 0} (client : Client E) (laws : ClusterLaws client) where
  -- The stored value of a key, under the store's own prefix.
  abbrev pub view : E → View
  view e j = laws.contents e (etcd_prefix <> j)

  pub etcd_get_lem :
      (k : String) (e : E) → laws.Answers e → get client k e ≡ returns (or_unset k (view e k)) e
  unfolding get
  etcd_get_lem k e h =
      rw (laws.get_law (etcd_prefix <> k) e h, ◌>>=◌)
        (by_count-single k (etcd_prefix <> k) (view e k) e)

  pub etcd_put_lem :
      (k : String) (v : Bytes) (e : E)
      → laws.Answers e
      → (e' : E) × (put client k v e ≡ returns (ok tt) e')
        × laws.Answers e'
        × ((j : String) → view e' j ≡ write_at k (some v) (view e) j)
  unfolding put
  etcd_put_lem k v e h =
      let (e', done, h', wrote) = laws.put_law (etcd_prefix <> k) v e h in
      (e', done, h', λ j. rw (← ==-append etcd_prefix k j) (wrote (etcd_prefix <> j)))

  pub etcd_delete_lem :
      (k : String) (e : E)
      → laws.Answers e
      → (e' : E) × (delete client k e ≡ returns (ok tt) e')
        × laws.Answers e'
        × ((j : String) → view e' j ≡ write_at k none (view e) j)
  unfolding delete
  etcd_delete_lem k e h =
      let (e', done, h', wrote) = laws.delete_law (etcd_prefix <> k) e h in
      (e', done, h', λ j. rw (← ==-append etcd_prefix k j) (wrote (etcd_prefix <> j)))

  -- While the cluster answers, the iterator succeeds, changes nothing, and has each stored key with
  -- the prefix once, without the store's own prefix, and no other key.
  pub etcd_iterator_lem :
      (prefix : String) (e : E)
      → laws.Answers e
      → (ks : List String) × (iterator client prefix e
          ≡ returns (ok (record { idx = 0; keys = ks })) e)
        × ((k : String)
            → count k ks ≡ (if has_prefix k prefix then one_if (is_some (view e k)) else 0))
  unfolding iterator
  etcd_iterator_lem prefix e h =
      let (r, listed, counted) = laws.get_prefix_law (etcd_prefix <> prefix) e h in
      (
        trimmed_keys r.kvs,
        rw (listed, ◌>>=◌),
        λ k.
            count-trimmed_keys k r.kvs (outside_none r.kvs prefix (laws.contents e) counted)
            ∙ counted (etcd_prefix <> k)
            ∙ ap (λ (b : Bool). if b then one_if (is_some (view e k)) else 0)
                (has_prefix-append_append etcd_prefix k prefix),
      )

  etcd_laws : StoreLaws (etcd_ops client)
  unfolding etcd_ops
  etcd_laws = record {
    view = view;
    IsReady = laws.Answers;
    get_law = etcd_get_lem;
    put_law = etcd_put_lem;
    delete_law = etcd_delete_lem;
    iterator_law = etcd_iterator_lem;
  }
