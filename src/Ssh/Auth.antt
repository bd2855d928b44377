-- ===== src/Ssh/Auth.antt =====
-- The callbacks of Server.Start in ssh/server.go that let a user in. The store is any store of the
-- interface, `json` encodes users, and `keypair` is what util.CreateSSHKeypair returns in this login.
pub mod Login
use delegatio.Common.{ℕ, String, Bool, true, false, [], ◌∷◌, if◌then◌else◌}
use delegatio.Common.GoMap
use delegatio.Common.GoMap.{GoMap}
use delegatio.Common.Outcome.{Result, ok, err, Method, pure, ◌>>=◌}
use delegatio.Store.{StoreError, StoreOps}
use delegatio.Config.{
  UserInformation, zero_user, authentication_type, authenticated_user_id, authenticated_priv_key,
}
use delegatio.StoreWrapper
use delegatio.StoreWrapper.{Codec}
use delegatio.Ssh.Ldap.{LdapError, Directory, search_user}

pub data AuthError : Type 0 where
  user_data_failed : StoreError → AuthError
  ldap_search_failed : LdapError → AuthError
  uuid_check_failed : StoreError → AuthError
  keypair_failed : ℕ → AuthError
  put_failed : StoreError → AuthError

-- ssh.Permissions; its critical options are never set.
pub record Permissions : Type 0 where
  pub extensions : GoMap String

-- `if err != nil { return nil, fmt.Errorf(...) }`
abbrev or_fail {ℓ} :
    {S E F A B : Type ℓ}
    → (E → F)
    → Result E A
    → (A → Method S (Result F B))
    → Method S (Result F B)
or_fail wrap (ok a) f = f a
or_fail wrap (err e) f = pure (err (wrap e))

-- Map literals list distinct keys, each inserted in turn.
abbrev pub pk_permissions : String → Permissions
pk_permissions uuid = record {
  extensions = (authentication_type, "pk") ∷ (authenticated_user_id, uuid) ∷ [];
}

abbrev pub pw_permissions : String → String → Permissions
pw_permissions priv_key uuid = record {
  extensions =
      (authentication_type, "pw")
      ∷ (authenticated_priv_key, priv_key)
      ∷ (authenticated_user_id, uuid)
      ∷ [];
}

module _ {S : Type 0} (store : StoreOps S) (json : Codec UserInformation) where
  -- PublicKeyCallback; `key` is ssh.MarshalAuthorizedKey of the offered key.
  unfoldable pub public_key_callback : String → Method S (Result AuthError Permissions)
  public_key_callback key = do
    r ← StoreWrapper.get_public_key_data store json key zero_user
    or_fail user_data_failed r λ user_data. pure (ok (pk_permissions user_data.uuid))

  -- The branch for a uuid that is not stored yet: the user with the new keys.
  unfoldable pub register_user :
      Result ℕ (String × String) → UserInformation → Method S (Result AuthError UserInformation)
  register_user keypair user_data = or_fail keypair_failed keypair λ keys. (do
    let user = record user_data { priv_key = keys.0; pub_key = keys.1 }
    by_uuid ← StoreWrapper.put_data_idx_by_uuid store json user.uuid user
    or_fail put_failed by_uuid λ _. (do
      by_key ← StoreWrapper.put_data_idx_by_pub_key store json user.pub_key user
      or_fail put_failed by_key λ _. pure (ok user)))

  unfoldable pub password_callback :
      Directory
      → Result ℕ (String × String)
      → String
      → String
      → Method S (Result AuthError Permissions)
  unfolding register_user
  password_callback ldap keypair conn_user password =
      or_fail ldap_search_failed (search_user ldap conn_user password) λ user_data. (do
        exists ← StoreWrapper.uuid_exists store user_data.uuid
        or_fail uuid_check_failed exists λ known. (do
          user ← (if known then pure (ok user_data) else register_user keypair user_data)
          or_fail (λ e. e) user λ u. pure (ok (pw_permissions u.priv_key u.uuid))))
