-- ===== src/Installer/Configured.antt =====
-- What is put into a config map is what GetConfigMapData reads.
use delegatio.Common.{
  ◌≡◌, refl, sym, ap, ◌∙◌, String, true, [], ◌∷◌, Option, none, some, is_some, ◌==◌, eq_iff,
  if◌then◌else◌, Bool-cases, inl, inr,
}
use delegatio.Common.GoMap
use delegatio.Common.GoMap.{GoMap, IsDistinct, IsDistinct-first, IsDistinct-rest}
use delegatio.Common.Outcome.{Result, ok, err, returns, ◌>>=◌}
use delegatio.Cluster.{
  KubeError, not_found, config_map, ClientGo, create_config_map, add_data_to_config_map,
  get_config_map_data, put_data,
}
use delegatio.Installer.{
  Installer, on_cluster, put_all, create_config_map_and_put_data, Surroundings, Encodings,
}
use delegatio.Store.{StoreOps}

abbrev pub or_not_found : Option (GoMap String) → Result KubeError (GoMap String)
or_not_found none = err not_found
or_not_found (some m) = ok m

-- Config maps at an API server that answers: Create makes an empty one, Get gives what is there, and
-- Update replaces one that is there.
pub record ConfigMapLaws {K : Type 0} (api : ClientGo K) : Type 1 where
  pub view : K → String → String → Option (GoMap String)
  pub get_law :
      (ns name : String) (k : K)
      → api.get_config_map ns name k ≡ returns (or_not_found (view k ns name)) k
  pub create_law :
      (ns name : String) (k : K)
      → view k ns name ≡ none
      → (k' : K) × (api.create (config_map ns name) k ≡ returns (ok tt) k')
        × (view k' ns name ≡ some [])
  pub update_law :
      (ns name : String) (m : GoMap String) (k : K)
      → is_some (view k ns name) ≡ true
      → (k' : K) × (api.update_config_map ns name m k ≡ returns (ok tt) k')
        × (view k' ns name ≡ some m)

abbrev or_else : Option String → Option String → Option String
or_else (some v) other = some v
or_else none other = other

or_else-none : (o : Option String) {q : Option String} → q ≡ none → or_else o q ≡ o
or_else-none none e = e
or_else-none (some v) e = refl

module _ {K : Type 0} (api : ClientGo K) (laws : ConfigMapLaws api) where
  lookup-put_data :
      (key j value : String) (m : GoMap String)
      → GoMap.lookup j (put_data api key value m)
        ≡ (if key == j then some value else GoMap.lookup j m)
  unfolding put_data GoMap.lookup
  lookup-put_data key j value [] = refl
  lookup-put_data key j value ((own, old) ∷ rest) =
      GoMap.lookup-insert key j value ((own, old) ∷ rest)

  add_data_lem :
      (ns name key value : String) (m : GoMap String) (k : K)
      → laws.view k ns name ≡ some m
      → (k' : K) × (add_data_to_config_map api ns name key value k ≡ returns (ok tt) k')
        × (laws.view k' ns name ≡ some (put_data api key value m))
  unfolding add_data_to_config_map
  add_data_lem ns name key value m k there =
      let (k', done, shown) =
        laws.update_law ns name (put_data api key value m) k (ap is_some there) in
      (k', rw (laws.get_law ns name k, ◌>>=◌) (rw there done), shown)

  later :
      (key j value : String) (data' m : GoMap String)
      → GoMap.lookup key data' ≡ none
      → or_else (GoMap.lookup j data') (if key == j then some value else GoMap.lookup j m)
        ≡ or_else (if key == j then some value else GoMap.lookup j data') (GoMap.lookup j m)
  later key j value data' m alone = elim (Bool-cases (key == j)) [
    | inl e ↦
        let gone : GoMap.lookup j data' ≡ none =
          ap (λ t. GoMap.lookup t data') (sym ((eq_iff key j).0 e)) ∙ alone in
        rw (e, gone) refl
    | inr e ↦ rw e refl
  ]

  module _ {S : Type 0} where
    put_all_data :
        (ns name : String) (data' m : GoMap String) (i : Installer K S) (k : K)
        → IsDistinct data'
        → laws.view k ns name ≡ some m
        → (k' : K) × (m' : GoMap String) × (put_all
              (λ key value. on_cluster (add_data_to_config_map api ns name key value))
              data'
              (record i { cluster = k })
            ≡ returns (ok tt) (record i { cluster = k' }))
          × (laws.view k' ns name ≡ some m')
          × ((j : String) → GoMap.lookup j m' ≡ or_else (GoMap.lookup j data') (GoMap.lookup j m))
    unfolding put_all GoMap.lookup
    put_all_data ns name [] m i k distinct there = (k, m, refl, there, λ j. refl)
    put_all_data ns name ((key, value) ∷ data') m i k distinct there =
        let (k1, done, shown) = add_data_lem ns name key value m k there in
        let (k', m', all, at_end, reads) =
          put_all_data ns name data' (put_data api key value m) i k1
            (IsDistinct-rest key value data' distinct) shown in
        (
          k',
          m',
          rw (done, ◌>>=◌) all,
          at_end,
          λ j.
              reads j
              ∙ ap (or_else (GoMap.lookup j data')) (lookup-put_data key j value m)
              ∙ later key j value data' m (IsDistinct-first key value data' distinct),
        )

    -- At an API server that answers, createConfigMapAndPutData of a map with distinct keys makes a
    -- config map that was not there, and GetConfigMapData then reads, at every key, what the map has.
    pub get_config_map_data-put :
        (store : StoreOps S) (around : Surroundings K S) (json : Encodings) (ns name : String)
        (data' : GoMap String) (i : Installer K S) (k : K)
        → IsDistinct data'
        → laws.view k ns name ≡ none
        → (k' : K) × (m : GoMap String) × (create_config_map_and_put_data api store around json ns
              name data'
              (record i { cluster = k })
            ≡ returns (ok tt) (record i { cluster = k' }))
          × (get_config_map_data api ns name k' ≡ returns (ok m) k')
          × ((j : String) → GoMap.lookup j m ≡ GoMap.lookup j data')
    unfolding create_config_map_and_put_data create_config_map get_config_map_data
    get_config_map_data-put store around json ns name data' i k distinct fresh =
        let (k1, created, empty) = laws.create_law ns name k fresh in
        let (k', m, all, at_end, reads) = put_all_data ns name data' [] i k1 distinct empty in
        (
          k',
          m,
          rw (created, ◌>>=◌) all,
          laws.get_law ns name k' ∙ ap (λ o. returns (or_not_found o) k') at_end,
          λ j. reads j ∙ or_else-none (GoMap.lookup j data') (GoMap.lookup-empty j),
        )
