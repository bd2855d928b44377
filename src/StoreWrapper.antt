-- ===== src/StoreWrapper.antt =====
-- internal/storewrapper/storewrapper.go, over any store and any encoding of the stored values.
-- encoding/json is not under the repository: `Codec` is its Marshal and Unmarshal at one type.
pub mod Records
pub mod Loops
use delegatio.Common.{
  ℕ, zero, suc, String, Bool, true, false, List, [], ◌∷◌, ◌++◌, length, ◌<>◌, trim_prefix,
  if◌then◌else◌,
}
use delegatio.Common.GoMap
use delegatio.Common.GoMap.{GoMap}
use delegatio.Common.Outcome.{
  Result, ok, err, Outcome, returns, blocks, panics, Method, pure, on_ok, bind_result, ◌>>=◌,
}
use delegatio.Store.{Bytes, StoreError, value_unset, Iterator, StoreOps, get_next, has_next}
use delegatio.Config.{UserInformation, ContainerInformation, zero_user, zero_container}

-- Unmarshal takes the target as it was, and gives it back filled.
pub record Codec (A : Type 0) : Type 0 where
  pub marshal : A → Result StoreError Bytes
  pub unmarshal : Bytes → A → Result StoreError A

abbrev pub challenge_location_prefix : String
challenge_location_prefix = "challenge-"

abbrev pub public_key_prefix : String
public_key_prefix = "publickey-"

abbrev pub uuid_key_prefix : String
uuid_key_prefix = "uuid-"

abbrev pub priv_key_location : String
priv_key_location = "privkey-ssh"

-- errors.Is(err, &store.ValueUnsetError{}): the target is a new pointer, which no error is equal to,
-- and ValueUnsetError has no Is method.
errors_is_new_unset : StoreError → Bool
errors_is_new_unset e = false

-- errors.As(err, &perr) at *ValueUnsetError.
errors_as_unset : StoreError → Bool
errors_as_unset (value_unset k) = true
errors_as_unset _ = false

-- The three ways out of the Exists methods.
abbrev exists_by : (StoreError → Bool) → Result StoreError Bytes → Result StoreError Bool
exists_by is_unset (ok value) = ok true
exists_by is_unset (err e) = if is_unset e then ok false else err e

module _ {S : Type 0} (store : StoreOps S) where
  module _ {A : Type 0} (json : Codec A) where
    put_data : String → A → Method S (Result StoreError Unit)
    put_data key target = on_ok (json.marshal target) λ d. store.put key d

    get_data : String → A → Method S (Result StoreError A)
    get_data key target = do d ← store.get key; on_ok d λ value. pure (json.unmarshal value target)

    unfoldable pub put_challenge_data : String → A → Method S (Result StoreError Unit)
    unfolding put_data
    put_challenge_data name target = put_data (challenge_location_prefix <> name) target

    unfoldable pub get_challenge_data : String → A → Method S (Result StoreError A)
    unfolding get_data
    get_challenge_data name target = get_data (challenge_location_prefix <> name) target

    unfoldable pub put_data_idx_by_pub_key : String → A → Method S (Result StoreError Unit)
    unfolding put_data
    put_data_idx_by_pub_key pubkey target = put_data (public_key_prefix <> pubkey) target

    unfoldable pub put_data_idx_by_uuid : String → A → Method S (Result StoreError Unit)
    unfolding put_data
    put_data_idx_by_uuid uuid target = put_data (uuid_key_prefix <> uuid) target

    unfoldable pub get_public_key_data : String → A → Method S (Result StoreError A)
    unfolding get_data
    get_public_key_data publickey target = get_data (public_key_prefix <> publickey) target

    unfoldable pub get_public_key_uuid : String → A → Method S (Result StoreError A)
    unfolding get_data
    get_public_key_uuid uuid target = get_data (uuid_key_prefix <> uuid) target

  module _ {A : Type 0} where
    -- The loop of GetAllChallenges and GetAllPublicKeys over the iterator. The fuel is more than
    -- the keys that are left.
    collect_next :
        (String → Method S (Result StoreError A))
        → (Iterator → GoMap A → Method S (Result StoreError (GoMap A)))
        → String
        → GoMap A
        → Outcome Iterator (Result StoreError String)
        → Method S (Result StoreError (GoMap A))
    collect_next read rest prefix acc (returns (ok k) it) = do
      r ← read (trim_prefix k prefix)
      on_ok r λ v. rest it (GoMap.insert (trim_prefix k prefix) v acc)
    collect_next read rest prefix acc (returns (err e) it) = pure (err e)
    collect_next read rest prefix acc blocks = λ _. blocks
    collect_next read rest prefix acc panics = λ _. panics

    unfoldable pub collect :
        ℕ
        → (String → Method S (Result StoreError A))
        → String
        → Iterator
        → GoMap A
        → Method S (Result StoreError (GoMap A))
    unfolding collect_next
    collect zero read prefix it acc = λ _. blocks
    collect (suc fuel) read prefix it acc =
        let next = collect_next read (collect fuel read prefix) prefix acc (get_next it) in
        if has_next it then next else pure (ok acc)

    get_all :
        (String → Method S (Result StoreError A)) → String → Method S (Result StoreError (GoMap A))
    get_all read prefix = do
      it ← store.iterator prefix
      on_ok it λ i. collect (suc (length i.keys)) read prefix i []

  unfoldable pub get_all_challenges :
      Codec ContainerInformation → Method S (Result StoreError (GoMap ContainerInformation))
  unfolding get_all
  get_all_challenges json =
      get_all (λ k. get_challenge_data json k zero_container) challenge_location_prefix

  unfoldable pub get_all_public_keys :
      Codec UserInformation → Method S (Result StoreError (GoMap UserInformation))
  unfolding get_all
  get_all_public_keys json = get_all (λ k. get_public_key_data json k zero_user) public_key_prefix

  unfoldable pub challenge_exists : String → Method S (Result StoreError Bool)
  unfolding errors_is_new_unset
  challenge_exists name = do
    r ← store.get (challenge_location_prefix <> name)
    pure (exists_by errors_is_new_unset r)

  unfoldable pub public_key_exists : String → Method S (Result StoreError Bool)
  unfolding errors_as_unset
  public_key_exists public_key = do
    r ← store.get (public_key_prefix <> public_key)
    pure (exists_by errors_as_unset r)

  unfoldable pub uuid_exists : String → Method S (Result StoreError Bool)
  unfolding errors_as_unset
  uuid_exists uuid = do r ← store.get (uuid_key_prefix <> uuid); pure (exists_by errors_as_unset r)

  -- The loop of GetAllKeys.
  keys_next :
      (Iterator → List String → Method S (Result StoreError (List String)))
      → List String
      → Outcome Iterator (Result StoreError String)
      → Method S (Result StoreError (List String))
  keys_next rest ks (returns (ok k) it) = rest it (ks ++ k ∷ [])
  keys_next rest ks (returns (err e) it) = pure (err e)
  keys_next rest ks blocks = λ _. blocks
  keys_next rest ks panics = λ _. panics

  collect_keys : ℕ → Iterator → List String → Method S (Result StoreError (List String))
  unfolding keys_next
  collect_keys zero it ks = λ _. blocks
  collect_keys (suc fuel) it ks =
      let next = keys_next (collect_keys fuel) ks (get_next it) in
      if has_next it then next else pure (ok ks)

  unfoldable pub get_all_keys : Method S (Result StoreError (List String))
  unfolding collect_keys
  get_all_keys = do it ← store.iterator ""; on_ok it λ i. collect_keys (suc (length i.keys)) i []

  unfoldable pub put_priv_key : Bytes → Method S (Result StoreError Unit)
  put_priv_key privkey = store.put priv_key_location privkey

  unfoldable pub get_priv_key : Method S (Result StoreError Bytes)
  get_priv_key = store.get priv_key_location
