-- ===== src/Examples/Logins.antt =====
-- Logins at a directory with one user and at the standard store.
use delegatio.Common.{◌≡◌, ◌≢◌, refl, String, true, [], ◌∷◌, ◌<>◌}
use delegatio.Common.GoMap
use delegatio.Common.GoMap.{IsDistinct-empty, insert-IsDistinct}
use delegatio.Common.Outcome.{ok, returns}
use delegatio.Config.{UserInformation, zero_user}
use delegatio.Store.Std.{StdStore, std_ops}
use delegatio.Store.Std.Contract.{view, IsReady, std_laws}
use delegatio.StoreWrapper
use delegatio.StoreWrapper.{Codec, public_key_prefix, uuid_key_prefix}
use delegatio.Ssh.Ldap.{
  Entry, Directory, ldap_address, patched_dn, user_of_entry, search_user, dial,
}
use delegatio.Ssh.Auth.{pk_permissions, pw_permissions, public_key_callback, password_callback}
use delegatio.Ssh.Auth.Login.{search_user_sound, first_login}
use delegatio.Examples.Stores.{one, small, small-IsReady}

abbrev ann_entry : Entry
ann_entry attribute = "x"

abbrev directory : Directory
directory = record {
  dial_url = λ url. ok tt;
  bind = λ dn password. ok tt;
  find = λ dn. ok (ann_entry ∷ []);
}

abbrev ann : UserInformation
ann = record zero_user {
  username = "ann";
  uuid = "ann-x";
  legi_number = "x";
  email = "x";
  real_name = "x x";
  gender = "x";
}

abbrev ann_keys : UserInformation
ann_keys = record ann { priv_key = "PRIV"; pub_key = "PUB" }

abbrev ann_json : Codec UserInformation
ann_json = record { marshal = λ u. ok one; unmarshal = λ d target. ok ann_keys }

-- The store knows the uuid.
abbrev known : StdStore
known = record small { maps = λ _. GoMap.insert "uuid-ann-x" one [] }

known-IsReady : IsReady known
known-IsReady = record {
  mut_free = refl;
  txmut_free = refl;
  allocated = small-IsReady.allocated;
  distinct = insert-IsDistinct "uuid-ann-x" one IsDistinct-empty;
}

ann_found : search_user directory "ann" "pw" ≡ ok ann
unfolding search_user dial user_of_entry
ann_found = refl

search_user_sound_example :
    (entry : Entry) × (directory.dial_url ldap_address ≡ ok tt)
    × (directory.bind (patched_dn "ann") "pw" ≡ ok tt)
    × (directory.find (patched_dn "ann") ≡ ok (entry ∷ []))
    × (ann ≡ user_of_entry "ann" entry)
search_user_sound_example = search_user_sound directory "ann" "pw" ann ann_found

first_login_example :
    (s' : StdStore) × (password_callback std_ops ann_json directory
        (ok ("PRIV", "PUB"))
        "ann"
        "pw"
        small
      ≡ returns (ok (pw_permissions "PRIV" ann.uuid)) s')
    × IsReady s'
    × (public_key_callback std_ops ann_json "PUB" s' ≡ returns (ok (pk_permissions ann.uuid)) s')
    × (StoreWrapper.uuid_exists std_ops ann.uuid s' ≡ returns (ok true) s')
    × ((j : String)
        → (uuid_key_prefix <> ann.uuid) ≢ j
        → (public_key_prefix <> "PUB") ≢ j
        → view s' j ≡ view small j)
unfolding GoMap.lookup GoMap.insert
first_login_example =
    first_login std_ops ann_json std_laws directory "PRIV" "PUB" "ann" "pw" ann small small-IsReady
      ann_found refl (one, refl, refl)
