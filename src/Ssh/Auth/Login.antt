-- ===== src/Ssh/Auth/Login.antt =====
-- Who is let in, with what permissions, and what a login writes.
use delegatio.Common.{
  ℕ, ◌≡◌, ◌≢◌, refl, ◌∙◌, String, Bool, true, none, some, is_some, List, [], ◌∷◌, ◌<>◌, ap,
}
use delegatio.Common.Outcome.{Result, ok, err, returns, bind_result, bind_result_ok, ◌>>=◌}
use delegatio.Store.{Bytes, StoreOps, value_unset}
use delegatio.Store.Contract.{StoreLaws}
use delegatio.Config.{UserInformation, zero_user}
use delegatio.StoreWrapper
use delegatio.StoreWrapper.{Codec, public_key_prefix, uuid_key_prefix}
use delegatio.StoreWrapper.Records.{
  RoundTrips, namespaces_apart, exists_answers, get-put_data_idx_by_pub_key,
  get-put_data_idx_by_uuid,
}
use delegatio.Ssh.Ldap.{
  LdapError, Entry, Directory, ldap_address, patched_dn, user_of_entry, search_user, only_entry,
  dial,
}
use delegatio.Ssh.Auth.{
  ldap_search_failed, user_data_failed, pk_permissions, pw_permissions, public_key_callback,
  password_callback, register_user,
}

only_entry_sound :
    (name : String) (entries : List Entry) (u : UserInformation)
    → only_entry name entries ≡ ok u
    → (entry : Entry) × (entries ≡ entry ∷ []) × (u ≡ user_of_entry name entry)
only_entry_sound name [] u h = cc
only_entry_sound name (entry ∷ []) u h = (entry, refl, cc)
only_entry_sound name (a ∷ b ∷ rest) u h = cc

-- A search succeeds only after the directory was reached and took the password for the name's entry,
-- and when the name has exactly one entry; the user is read off that entry.
pub search_user_sound :
    (l : Directory) (name password : String) (u : UserInformation)
    → search_user l name password ≡ ok u
    → (entry : Entry) × (l.dial_url ldap_address ≡ ok tt)
      × (l.bind (patched_dn name) password ≡ ok tt)
      × (l.find (patched_dn name) ≡ ok (entry ∷ []))
      × (u ≡ user_of_entry name entry)
unfolding search_user
search_user_sound l name password u h =
    let (_, dialled, h1) =
      bind_result_ok (dial l name password)
        (λ _. bind_result (l.find (patched_dn name)) (only_entry name)) h in
    let (_, reached, bound) =
      bind_result_ok (l.dial_url ldap_address) (λ _. l.bind (patched_dn name) password) dialled in
    let (entries, one, chosen) = bind_result_ok (l.find (patched_dn name)) (only_entry name) h1 in
    let (entry, listed, read) = only_entry_sound name entries u chosen in
    (entry, reached, bound, one ∙ ap ok listed, read)

module _ {S : Type 0} (store : StoreOps S) (json : Codec UserInformation) where
  -- A failed search lets nobody in, and the store stays as it is.
  pub password_refused :
      (l : Directory) (keypair : Result ℕ (String × String)) (name password : String)
      (e : LdapError) (s : S)
      → search_user l name password ≡ err e
      → password_callback store json l keypair name password s
        ≡ returns (err (ldap_search_failed e)) s
  unfolding password_callback
  password_refused l keypair name password e s h = rw h

  module _ (laws : StoreLaws store) where
    -- The store has no user for the key: PublicKeyCallback lets nobody in.
    pub unknown_key_refused :
        (key : String) (s : S)
        → laws.IsReady s
        → laws.view s (public_key_prefix <> key) ≡ none
        → public_key_callback store json key s
          ≡ returns (err (user_data_failed (value_unset (public_key_prefix <> key)))) s
    unfolding public_key_callback StoreWrapper.get_public_key_data
    unknown_key_refused key s h missing =
        rw (laws.get_law (public_key_prefix <> key) s h, ◌>>=◌) (rw missing)

    -- Over a store that keeps its contract, a user whose search succeeds and whose uuid is stored
    -- gets in by password with an empty private key, whatever is stored, and the store stays as it
    -- is.
    pub returning_user :
        (l : Directory) (keypair : Result ℕ (String × String)) (name password : String)
        (u : UserInformation) (d : Bytes) (s : S)
        → laws.IsReady s
        → search_user l name password ≡ ok u
        → laws.view s (uuid_key_prefix <> u.uuid) ≡ some d
        → password_callback store json l keypair name password s
          ≡ returns (ok (pw_permissions "" u.uuid)) s
    unfolding password_callback user_of_entry
    returning_user l keypair name password u d s h found stored =
        let (entry, dialled, bound, one, read) = search_user_sound l name password u found in
        rw (found) (rw ((exists_answers store laws u.uuid s h).1, ◌>>=◌) (rw stored (rw read)))

    -- The new keys are stored under the uuid and under the public key.
    register_user_lem :
        (priv pubkey : String) (u : UserInformation) (s : S)
        → laws.IsReady s
        → RoundTrips store laws json (record u { priv_key = priv; pub_key = pubkey }) zero_user
        → (s' : S) × (register_user store json (ok (priv, pubkey)) u s
            ≡ returns (ok (record u { priv_key = priv; pub_key = pubkey })) s')
          × laws.IsReady s'
          × (public_key_callback store json pubkey s' ≡ returns (ok (pk_permissions u.uuid)) s')
          × (StoreWrapper.uuid_exists store u.uuid s' ≡ returns (ok true) s')
          × ((j : String)
              → (uuid_key_prefix <> u.uuid) ≢ j
              → (public_key_prefix <> pubkey) ≢ j
              → laws.view s' j ≡ laws.view s j)
    unfolding register_user public_key_callback
    register_user_lem priv pubkey u s h r =
        let user = record u { priv_key = priv; pub_key = pubkey } in
        let (s1, wrote1, h1, reads1, there1, kept1) =
          get-put_data_idx_by_uuid store laws json u.uuid user zero_user s h r in
        let (s2, wrote2, h2, reads2, there2, kept2) =
          get-put_data_idx_by_pub_key store laws json pubkey user zero_user s1 h1 r in
        (
          s2,
          rw (wrote1, ◌>>=◌) (rw (wrote2, ◌>>=◌)),
          h2,
          rw (reads2, ◌>>=◌),
          (exists_answers store laws u.uuid s2 h2).1
              ∙ ap (λ (b : Bool). returns (ok b) s2)
                  (ap is_some
                      (kept2 (uuid_key_prefix <> u.uuid) (namespaces_apart pubkey pubkey u.uuid).2)
                    ∙ there1),
          λ j not_uuid not_key. kept2 j not_key ∙ kept1 j not_uuid,
        )

    -- Let a store keep its contract, a search give a user whose uuid is not stored, and the encoding
    -- read back the user with the new keys. Then the password login gets in with the new private
    -- key; from then on the new public key lets the same user in, the uuid counts as known, and no
    -- other record has changed.
    pub first_login :
        (l : Directory) (priv pubkey name password : String) (u : UserInformation) (s : S)
        → laws.IsReady s
        → search_user l name password ≡ ok u
        → laws.view s (uuid_key_prefix <> u.uuid) ≡ none
        → RoundTrips store laws json (record u { priv_key = priv; pub_key = pubkey }) zero_user
        → (s' : S) × (password_callback store json l (ok (priv, pubkey)) name password s
            ≡ returns (ok (pw_permissions priv u.uuid)) s')
          × laws.IsReady s'
          × (public_key_callback store json pubkey s' ≡ returns (ok (pk_permissions u.uuid)) s')
          × (StoreWrapper.uuid_exists store u.uuid s' ≡ returns (ok true) s')
          × ((j : String)
              → (uuid_key_prefix <> u.uuid) ≢ j
              → (public_key_prefix <> pubkey) ≢ j
              → laws.view s' j ≡ laws.view s j)
    unfolding password_callback
    first_login l priv pubkey name password u s h found new_user r =
        let (s', registered, h', by_key, known, kept) = register_user_lem priv pubkey u s h r in
        (
          s',
          rw found (
              rw ((exists_answers store laws u.uuid s h).1, ◌>>=◌)
                (rw new_user (rw (registered, ◌>>=◌)))),
          h',
          by_key,
          known,
          kept,
        )
