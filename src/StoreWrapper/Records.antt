-- ===== src/StoreWrapper/Records.antt =====
-- Single records: what is put is read back, other records stay, and the Exists methods.
use Prim.Native.String.{String, count as string_count}
use delegatio.Common.{
  true, ◌≡◌, ◌≢◌, refl, sym, ◌∙◌, false, none, some, is_some, ◌<>◌, ◌==◌, eq_iff, arith,
}
use mathlib.Core.Bool.{false≢true}
use text.Mathlib.TextLemmas.{append_inj, append_assoc}
use delegatio.Common.Outcome.{ok, err, returns, ◌>>=◌}
use delegatio.Store.{Bytes, value_unset, StoreOps}
use delegatio.Store.Contract.{StoreLaws, write_at_same, write_at_other}
use delegatio.StoreWrapper.{
  Codec, challenge_location_prefix, public_key_prefix, uuid_key_prefix, priv_key_location,
  put_challenge_data, get_challenge_data, put_data_idx_by_pub_key, get_public_key_data,
  put_data_idx_by_uuid, get_public_key_uuid, challenge_exists, public_key_exists, uuid_exists,
  put_data, get_data,
}

-- Texts whose first parts are of one length and differ are different.
ne_of_first :
    (h1 t1 h2 t2 : String)
    → string_count h1 ≡ string_count h2
    → (h1 == h2) ≡ false
    → (h1 <> t1) ≢ (h2 <> t2)
ne_of_first h1 t1 h2 t2 same_count diff e =
    false≢true (sym diff ∙ (eq_iff h1 h2).1 (append_inj e same_count).0)

-- The four kinds of records never share a key.
pub namespaces_apart :
    (a b c : String)
    → ((challenge_location_prefix <> a) ≢ (public_key_prefix <> b))
      × ((challenge_location_prefix <> a) ≢ (uuid_key_prefix <> c))
      × ((public_key_prefix <> b) ≢ (uuid_key_prefix <> c))
      × ((challenge_location_prefix <> a) ≢ priv_key_location)
      × ((public_key_prefix <> b) ≢ priv_key_location)
      × ((uuid_key_prefix <> c) ≢ priv_key_location)
namespaces_apart a b c = (
  λ e.
      ne_of_first "c" ("hallenge-" <> a) "p" ("ublickey-" <> b) refl refl
        (sym (append_assoc "c" "hallenge-" a) ∙ e ∙ append_assoc "p" "ublickey-" b),
  λ e.
      ne_of_first "c" ("hallenge-" <> a) "u" ("uid-" <> c) refl refl
        (sym (append_assoc "c" "hallenge-" a) ∙ e ∙ append_assoc "u" "uid-" c),
  λ e.
      ne_of_first "p" ("ublickey-" <> b) "u" ("uid-" <> c) refl refl
        (sym (append_assoc "p" "ublickey-" b) ∙ e ∙ append_assoc "u" "uid-" c),
  λ e.
      ne_of_first "c" ("hallenge-" <> a) "p" "rivkey-ssh" refl refl
        (sym (append_assoc "c" "hallenge-" a) ∙ e),
  λ e.
      ne_of_first "pu" ("blickey-" <> b) "pr" "ivkey-ssh" refl refl
        (sym (append_assoc "pu" "blickey-" b) ∙ e),
  λ e.
      ne_of_first "u" ("uid-" <> c) "p" "rivkey-ssh" refl refl
        (sym (append_assoc "u" "uid-" c) ∙ e),
)

module _ {S : Type 0} (store : StoreOps S) (laws : StoreLaws store) where
  -- Over a store that keeps its contract, PublicKeyExists and UuidExists answer whether the record
  -- is stored, never with an error, and change nothing.
  pub exists_answers :
      (k : String) (s : S)
      → laws.IsReady s
      → (public_key_exists store k s
          ≡ returns (ok (is_some (laws.view s (public_key_prefix <> k)))) s)
        × (uuid_exists store k s ≡ returns (ok (is_some (laws.view s (uuid_key_prefix <> k)))) s)
  unfolding public_key_exists uuid_exists
  exists_answers k s h = (
    ground (arith, laws.get_law (public_key_prefix <> k) s h),
    ground (arith, laws.get_law (uuid_key_prefix <> k) s h),
  )

  -- Over a store that keeps its contract, ChallengeExists reports a missing challenge as an error.
  pub challenge_exists_missing :
      (name : String) (s : S)
      → laws.IsReady s
      → laws.view s (challenge_location_prefix <> name) ≡ none
      → challenge_exists store name s
        ≡ returns (err (value_unset (challenge_location_prefix <> name))) s
  unfolding challenge_exists
  challenge_exists_missing name s h missing =
      ground (arith, laws.get_law (challenge_location_prefix <> name) s h)

  module _ {A : Type 0} (json : Codec A) where
    -- What Marshal writes, Unmarshal reads into any target.
    abbrev pub RoundTrips : A → A → Type 0
    RoundTrips x target = (d : Bytes) × (json.marshal x ≡ ok d) × (json.unmarshal d target ≡ ok x)

    put_data_lem :
        (key : String) (x target : A) (s : S)
        → laws.IsReady s
        → RoundTrips x target
        → (s' : S) × (put_data store json key x s ≡ returns (ok tt) s')
          × laws.IsReady s'
          × (get_data store json key target s' ≡ returns (ok x) s')
          × (is_some (laws.view s' key) ≡ true)
          × ((j : String) → key ≢ j → laws.view s' j ≡ laws.view s j)
    unfolding put_data get_data
    put_data_lem key x target s h (d, wrote, reads) =
        let (s', done, h', seen) = laws.put_law key d s h in
        let shown : laws.view s' key ≡ some d =
          seen key ∙ write_at_same key (some d) (laws.view s) in
        (
          s',
          rw wrote done,
          h',
          rw (laws.get_law key s' h', ◌>>=◌) (rw shown (rw reads)),
          rw shown,
          λ j apart. seen j ∙ write_at_other key j (some d) (laws.view s) apart,
        )

    -- Over a store that keeps its contract, a challenge that the encoding reads back is put and then
    -- read back, and no record of the other kinds changes.
    pub get-put_challenge_data :
        (name : String) (x target : A) (s : S)
        → laws.IsReady s
        → RoundTrips x target
        → (s' : S) × (put_challenge_data store json name x s ≡ returns (ok tt) s')
          × laws.IsReady s'
          × (get_challenge_data store json name target s' ≡ returns (ok x) s')
          × ((k : String)
              → laws.view s' (public_key_prefix <> k) ≡ laws.view s (public_key_prefix <> k))
          × ((k : String)
              → laws.view s' (uuid_key_prefix <> k) ≡ laws.view s (uuid_key_prefix <> k))
          × (laws.view s' priv_key_location ≡ laws.view s priv_key_location)
    unfolding put_challenge_data get_challenge_data
    get-put_challenge_data name x target s h r =
        let (s', done, h', reads, there, kept) =
          put_data_lem (challenge_location_prefix <> name) x target s h r in
        (
          s',
          done,
          h',
          reads,
          λ k. kept (public_key_prefix <> k) (namespaces_apart name k k).0,
          λ k. kept (uuid_key_prefix <> k) (namespaces_apart name k k).1,
          kept priv_key_location (namespaces_apart name name name).3,
        )

    -- A user's record that is put under a public key is read back, and all other keys keep theirs.
    pub get-put_data_idx_by_pub_key :
        (pubkey : String) (x target : A) (s : S)
        → laws.IsReady s
        → RoundTrips x target
        → (s' : S) × (put_data_idx_by_pub_key store json pubkey x s ≡ returns (ok tt) s')
          × laws.IsReady s'
          × (get_public_key_data store json pubkey target s' ≡ returns (ok x) s')
          × (is_some (laws.view s' (public_key_prefix <> pubkey)) ≡ true)
          × ((j : String) → (public_key_prefix <> pubkey) ≢ j → laws.view s' j ≡ laws.view s j)
    unfolding put_data_idx_by_pub_key get_public_key_data
    get-put_data_idx_by_pub_key pubkey x target s h r =
        put_data_lem (public_key_prefix <> pubkey) x target s h r

    -- The same of a record under a uuid.
    pub get-put_data_idx_by_uuid :
        (uuid : String) (x target : A) (s : S)
        → laws.IsReady s
        → RoundTrips x target
        → (s' : S) × (put_data_idx_by_uuid store json uuid x s ≡ returns (ok tt) s')
          × laws.IsReady s'
          × (get_public_key_uuid store json uuid target s' ≡ returns (ok x) s')
          × (is_some (laws.view s' (uuid_key_prefix <> uuid)) ≡ true)
          × ((j : String) → (uuid_key_prefix <> uuid) ≢ j → laws.view s' j ≡ laws.view s j)
    unfolding put_data_idx_by_uuid get_public_key_uuid
    get-put_data_idx_by_uuid uuid x target s h r =
        put_data_lem (uuid_key_prefix <> uuid) x target s h r
