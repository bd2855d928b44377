-- ===== src/Installer/Saved.antt =====
-- SaveState, and what a cluster makes of the saved state.
use delegatio.Common.{◌≡◌, refl, sym, ap, ◌∙◌, String, [], none, some, ◌<>◌}
use delegatio.Common.GoMap
use delegatio.Common.GoMap.{GoMap, IsDistinct, IsDistinct-empty}
use delegatio.Common.Outcome.{ok, err, returns, ◌>>=◌, outcome_of, result_of}
use delegatio.Config.{UserInformation, zero_user, zero_container}
use delegatio.Store.{StoreOps}
use delegatio.Store.Contract.{StoreLaws}
use delegatio.StoreWrapper.{get_public_key_uuid, public_key_prefix, challenge_location_prefix}
use delegatio.StoreWrapper.Loops.{
  decoded, AllDecode, get_public_key_data_missing, get_all_challenges_lem, get_all_public_keys_lem,
}
use delegatio.Ssh.Auth.{AuthError, user_data_failed, public_key_callback}
use delegatio.Cluster.{ClientGo}
use delegatio.Installer.{
  UserConfiguration, Surroundings, Encodings, Installer, put_users, on_store, store_call,
}
use delegatio.Installer.Applications.{get_store_user_data, user_data_of}
use delegatio.Installer.Users.{Encodes}
use delegatio.Installer.Users.All.{put_users_lem, AllEncodable}

module _ {K S : Type 0} (api : ClientGo K) (store : StoreOps S) (around : Surroundings K S)
    (json : Encodings) where
  -- What GetStoreUserData reads: under each public key, its stored user, as the users by uuid.
  saved_users :
      (laws : StoreLaws store) (old : S) (i i' : Installer K S) (data' : UserConfiguration)
      → laws.IsReady old
      → AllDecode store laws old json.challenges zero_container challenge_location_prefix
      → AllDecode store laws old json.users zero_user public_key_prefix
      → get_store_user_data api store around json (record i { shared_store = some old })
        ≡ returns (ok data') i'
      → (data'.pub_key_to_user ≡ [])
        × ((key : String)
            → GoMap.lookup key data'.uuid_to_user
              ≡ decoded json.users zero_user (laws.view old (public_key_prefix <> key)))
  unfolding get_store_user_data user_data_of on_store store_call
  saved_users laws old i i' data' ready each_challenge each_user h =
      let (containers, got, _) =
        get_all_challenges_lem store laws old json.challenges ready each_challenge in
      let (found, read, reads) =
        get_all_public_keys_lem store laws old json.users ready each_user in
      let expected : UserConfiguration = record {
        uuid_to_user = found;
        pub_key_to_user = [];
        containers = containers;
      } in
      let forward : get_store_user_data api store around json (record i { shared_store = some old })
          ≡ returns (ok expected) (record i { shared_store = some old }) =
        rw (got, ◌>>=◌) (rw (read, ◌>>=◌) refl) in
      let same = result_of (outcome_of (sym forward ∙ h)).0 in
      (
        sym (ap (λ c. c.pub_key_to_user) same),
        λ key. sym (ap (λ c. GoMap.lookup key c.uuid_to_user) same) ∙ reads key,
      )

  refused_key :
      (laws : StoreLaws store) (key : String) (s : S)
      → laws.IsReady s
      → laws.view s (public_key_prefix <> key) ≡ none
      → (x : AuthError) × (public_key_callback store json.users key s ≡ returns (err x) s)
  unfolding public_key_callback
  refused_key laws key s ready gone =
      let (x, missing) =
        get_public_key_data_missing store laws json.users key zero_user s ready gone in
      (user_data_failed x, rw (missing, ◌>>=◌) refl)

  -- The users of a store that keeps its contract, and whose users and challenges decode, are saved; the
  -- saved data, whose users the encoding can read back, are put into a store that keeps its contract.
  -- Then each user that the old store held under a public key is read back from the new one with that
  -- public key as a uuid; no record of a public key has changed, so that a public key that the new store
  -- did not hold, also one of the old store's, is refused at the login.
  pub saved_users_moved :
      (laws : StoreLaws store) (users : Encodes json.users) (null : Encodes json.null)
      (data' : UserConfiguration) (i i' j : Installer K S) (old s : S)
      → laws.IsReady old
      → AllDecode store laws old json.challenges zero_container challenge_location_prefix
      → AllDecode store laws old json.users zero_user public_key_prefix
      → get_store_user_data api store around json (record i { shared_store = some old })
        ≡ returns (ok data') i'
      → IsDistinct data'.uuid_to_user
      → IsDistinct data'.containers
      → AllEncodable users.IsEncodable data'.uuid_to_user
      → laws.IsReady s
      → (s' : S) × (put_users api store around json data' (record j { shared_store = some s })
          ≡ returns (ok tt) (record j { shared_store = some s' }))
        × ((key : String) (x : UserInformation)
            → decoded json.users zero_user (laws.view old (public_key_prefix <> key)) ≡ some x
            → get_public_key_uuid store json.users key zero_user s' ≡ returns (ok x) s')
        × ((key : String)
            → laws.view s' (public_key_prefix <> key) ≡ laws.view s (public_key_prefix <> key))
        × ((key : String)
            → laws.view s (public_key_prefix <> key) ≡ none
            → (x : AuthError) × (public_key_callback store json.users key s' ≡ returns (err x) s'))
  unfolding GoMap.lookup
  saved_users_moved laws users null data' i i' j old s old_ready challenges_decode users_decode
        saved distinct1 distinct2 good ready =
      let (gone, all) =
        saved_users laws old i i' data' old_ready challenges_decode users_decode saved in
      let (s', put, ready', by_uuid, _, _, others) =
        put_users_lem api store laws around json users null data' j s distinct1
          (rw gone IsDistinct-empty) distinct2 good (rw gone (λ k x found. cc)) ready in
      let kept : (key : String)
          → laws.view s' (public_key_prefix <> key) ≡ laws.view s (public_key_prefix <> key) =
        λ key. others key (rw gone refl) in
      (
        s',
        put,
        λ key x found. by_uuid key x (all key ∙ found),
        kept,
        λ key missing. refused_key laws key s' ready' (kept key ∙ missing),
      )
