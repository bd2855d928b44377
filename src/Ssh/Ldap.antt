-- ===== src/Ssh/Ldap.antt =====
-- ssh/ldap/ldap.go. The ldap library and the directory behind it are the parameter `Directory`; a
-- directory stays as it is during one login.
use delegatio.Common.{ℕ, String, List, [], ◌∷◌, ◌<>◌}
use delegatio.Common.Outcome.{Result, ok, err, bind_result}
use delegatio.Config.{UserInformation}

pub data LdapError : Type 0 where
  library : ℕ → LdapError
  user_not_unique : String → LdapError

-- An entry is read by GetAttributeValue.
abbrev pub Entry : Type 0
Entry = String → String

pub record Directory : Type 0 where
  pub dial_url : String → Result LdapError Unit
  pub bind : String → String → Result LdapError Unit
  pub find : String → Result LdapError (List Entry)  -- the search of one name

abbrev pub ldap_address : String
ldap_address = "ldaps://ldaps-rz-1.ethz.ch"

-- fmt.Sprintf(l.dn, username)
unfoldable pub patched_dn : String → String
patched_dn username = "cn=" <> username <> ",ou=users,ou=nethz,ou=id,ou=auth,o=ethz,c=ch"

unfoldable pub dial : Directory → String → String → Result LdapError Unit
dial l username password =
    bind_result (l.dial_url ldap_address) λ _. l.bind (patched_dn username) password

unfoldable pub user_of_entry : String → Entry → UserInformation
user_of_entry username entry = record {
  username = username;
  uuid = username <> "-" <> entry "swissEduPersonMatriculationNumber";
  legi_number = entry "swissEduPersonMatriculationNumber";
  email = entry "swissEduPersonOrganizationalMail";
  real_name = entry "givenName" <> " " <> entry "surname";
  gender = entry "swissEduPersonGender";
  priv_key = "";
  pub_key = "";
  points = [];
}

-- `len(sr.Entries) != 1` is the last clause.
abbrev pub only_entry : String → List Entry → Result LdapError UserInformation
only_entry username (entry ∷ []) = ok (user_of_entry username entry)
only_entry username _ = err (user_not_unique (patched_dn username))

unfoldable pub search_user : Directory → String → String → Result LdapError UserInformation
unfolding dial
search_user l username password =
    bind_result (dial l username password)
      λ _. bind_result (l.find (patched_dn username)) (only_entry username)
