-- ===== src/Config.antt =====
-- internal/config/types.go and global.go: the shared records and constants.
use delegatio.Common.{ℕ, String, List}
use delegatio.Common.GoMap.{GoMap}

pub record UserInformation : Type 0 where
  pub username : String
  pub real_name : String
  pub email : String
  pub legi_number : String
  pub uuid : String
  pub gender : String
  -- Two []byte fields, which the program only uses as texts.
  pub priv_key : String
  pub pub_key : String
  pub points : GoMap ℕ

abbrev pub zero_user : UserInformation
zero_user = record {
  username = "";
  real_name = "";
  email = "";
  legi_number = "";
  uuid = "";
  gender = "";
  priv_key = "";
  pub_key = "";
  points = List.[];
}

pub record ContainerInformation : Type 0 where
  pub container_name : String

abbrev pub zero_container : ContainerInformation
zero_container = record { container_name = "" }

abbrev pub authenticated_user_id : String
authenticated_user_id = "authenticated-uuid"

abbrev pub authentication_type : String
authentication_type = "authType"

abbrev pub authenticated_priv_key : String
authenticated_priv_key = "privateKey"

abbrev pub user_namespace : String
user_namespace = "users"
