-- ===== src/Installer/Users/All.antt =====
-- What initalizeChallenges leaves in the store.
use delegatio.Common.{◌≡◌, refl, sym, ◌∙◌, String, true, Option, none, some, is_some, ◌<>◌}
use delegatio.Common.GoMap
use delegatio.Common.GoMap.{GoMap, IsDistinct}
use delegatio.Common.Outcome.{ok, returns, ◌>>=◌}
use delegatio.Config.{UserInformation, zero_user}
use delegatio.Store.{StoreOps}
use delegatio.Store.Contract.{StoreLaws}
use delegatio.StoreWrapper.{
  put_challenge_data, put_data_idx_by_uuid, put_data_idx_by_pub_key, get_public_key_data,
  get_public_key_uuid, challenge_location_prefix, public_key_prefix, uuid_key_prefix,
}
use delegatio.StoreWrapper.Records.{namespaces_apart}
use delegatio.Cluster.{ClientGo}
use delegatio.Installer.{UserConfiguration, Surroundings, Encodings, Installer, put_users}
use delegatio.Installer.Users.{Encodes, put_all_lem, first_apart}

some_of : {A : Type 0} (o : Option A) → is_some o ≡ true → (x : A) × (o ≡ some x)
some_of none h = cc
some_of (some x) h = (x, refl)

-- Each value of a map can be encoded.
abbrev pub AllEncodable : {A : Type 0} → (A → Type 0) → GoMap A → Type 0
AllEncodable {A} IsEncodable m = (k : String) (x : A) → GoMap.lookup k m ≡ some x → IsEncodable x

module _ {K S : Type 0} (api : ClientGo K) (store : StoreOps S) (laws : StoreLaws store)
    (around : Surroundings K S) (json : Encodings) (users : Encodes json.users)
    (null : Encodes json.null) where
  -- Over a store that keeps its contract, with a configuration whose maps have distinct keys
  -- and whose users the encoding can read back: the loops of initalizeChallenges succeed, every user
  -- is then read back under its uuid and under its public key, every challenge has a record, and no
  -- record of any other public key has changed.
  pub put_users_lem :
      (config : UserConfiguration) (i : Installer K S) (s : S)
      → IsDistinct config.uuid_to_user
      → IsDistinct config.pub_key_to_user
      → IsDistinct config.containers
      → AllEncodable users.IsEncodable config.uuid_to_user
      → AllEncodable users.IsEncodable config.pub_key_to_user
      → laws.IsReady s
      → (s' : S) × (put_users api store around json config (record i { shared_store = some s })
          ≡ returns (ok tt) (record i { shared_store = some s' }))
        × laws.IsReady s'
        × ((uuid : String) (x : UserInformation)
            → GoMap.lookup uuid config.uuid_to_user ≡ some x
            → get_public_key_uuid store json.users uuid zero_user s' ≡ returns (ok x) s')
        × ((key : String) (x : UserInformation)
            → GoMap.lookup key config.pub_key_to_user ≡ some x
            → get_public_key_data store json.users key zero_user s' ≡ returns (ok x) s')
        × ((name : String)
            → is_some (GoMap.lookup name config.containers) ≡ true
            → is_some (laws.view s' (challenge_location_prefix <> name)) ≡ true)
        × ((key : String)
            → GoMap.lookup key config.pub_key_to_user ≡ none
            → laws.view s' (public_key_prefix <> key) ≡ laws.view s (public_key_prefix <> key))
  unfolding put_users get_public_key_uuid get_public_key_data put_challenge_data
      put_data_idx_by_uuid put_data_idx_by_pub_key
  put_users_lem config i s h1 h2 h3 good1 good2 h =
      let (s1, e1, d1) =
        put_all_lem store laws challenge_location_prefix (λ _. null.bytes_of tt)
          (λ name _. put_challenge_data store json.null name tt)
          (λ k x t. rw (null.marshals tt) refl) config.containers i s h3 h in
      let (s2, e2, d2) =
        put_all_lem store laws uuid_key_prefix users.bytes_of
          (put_data_idx_by_uuid store json.users) (λ k x t. rw (users.marshals x) refl)
          config.uuid_to_user i s1 h1 d1.ready in
      let (s3, e3, d3) =
        put_all_lem store laws public_key_prefix users.bytes_of
          (put_data_idx_by_pub_key store json.users) (λ k x t. rw (users.marshals x) refl)
          config.pub_key_to_user i s2 h2 d2.ready in
      (
        s3,
        rw (e1, ◌>>=◌) (rw (e2, ◌>>=◌) e3),
        d3.ready,
        λ uuid x found.
            let kept =
              d3.apart (uuid_key_prefix <> uuid) (λ k there. (namespaces_apart "" k uuid).2)
              ∙ d2.entry uuid x found in
            rw (laws.get_law (uuid_key_prefix <> uuid) s3 d3.ready, ◌>>=◌)
              (rw kept (rw (users.reads x zero_user (good1 uuid x found)) refl)),
        λ key x found.
            rw (laws.get_law (public_key_prefix <> key) s3 d3.ready, ◌>>=◌)
              (rw (d3.entry key x found) (rw (users.reads x zero_user (good2 key x found)) refl)),
        λ name found.
            let (c, there) = some_of (GoMap.lookup name config.containers) found in
            let kept =
              d3.apart (challenge_location_prefix <> name)
                (λ k _ e. (namespaces_apart name k "").0 (sym e))
              ∙ d2.apart (challenge_location_prefix <> name)
                  (λ k _ e. (namespaces_apart name "" k).1 (sym e))
              ∙ d1.entry name c there in
            rw kept refl,
        λ key gone.
            d3.apart (public_key_prefix <> key)
              (λ k there. first_apart public_key_prefix key k config.pub_key_to_user gone there)
            ∙ d2.apart (public_key_prefix <> key) (λ k _ e. (namespaces_apart "" key k).2 (sym e))
            ∙ d1.apart (public_key_prefix <> key) (λ k _. (namespaces_apart k key "").0),
      )
