-- ===== src/Installer/Users.antt =====
-- What a loop of puts leaves in the store, one prefix at a time.
pub mod All
use Prim.Native.String.{String}
use mathlib.Core.Path.{subst}
use delegatio.Common.{
  ℕ, suc, ◌+◌, ◌≤◌, ◌≡◌, ◌≢◌, refl, sym, ap, ◌∙◌, Bool, true, false, List, [], ◌∷◌, Option, none,
  some, is_some, ◌<>◌, ◌==◌, eq_iff, eq_refl, ==-append, arith, count, inl, inr, Bool-cases,
  if◌then◌else◌,
}
use delegatio.Common.GoMap
use delegatio.Common.GoMap.{GoMap, IsDistinct, IsDistinct-first, IsDistinct-rest}
use delegatio.Common.Outcome.{Result, ok, err, returns, Method, pure, ◌>>=◌, on_ok}
use delegatio.Config.{UserInformation, zero_user}
use delegatio.Store.{Bytes, StoreError, StoreOps}
use delegatio.Store.Contract.{StoreLaws, write_at, write_at_same, write_at_other}
use delegatio.StoreWrapper.{
  Codec, put_challenge_data, put_data_idx_by_uuid, put_data_idx_by_pub_key, get_public_key_data,
  get_public_key_uuid, challenge_location_prefix, public_key_prefix, uuid_key_prefix,
}
use delegatio.StoreWrapper.Records.{namespaces_apart}
use delegatio.Cluster.{ClientGo}
use delegatio.Installer.{
  InstallError, UserConfiguration, Surroundings, Encodings, Installer, on_store, store_call,
  put_all, put_users,
}

-- An encoding that writes every value, and that reads back, into any target, those that it can encode.
pub record Encodes {A : Type 0} (json : Codec A) : Type 1 where
  pub bytes_of : A → Bytes
  pub marshals : (x : A) → json.marshal x ≡ ok (bytes_of x)
  pub IsEncodable : A → Type 0
  pub reads : (x target : A) → IsEncodable x → json.unmarshal (bytes_of x) target ≡ ok x

nothing : {A : Type 0} {x : A} → none ≢ some x
nothing h = cc

nothing_there : {A : Type 0} {o : Option A} → o ≡ none → is_some o ≢ true
nothing_there gone there = let e = sym (ap is_some gone) ∙ there in cc

abbrev option_bytes : {A : Type 0} → (A → Bytes) → Option A → Option Bytes
option_bytes bytes none = none
option_bytes bytes (some x) = some (bytes x)

prefixed_apart : (prefix k j : String) → (k == j) ≡ false → (prefix <> k) ≢ (prefix <> j)
prefixed_apart prefix k j differ e =
    let eq = (eq_iff (prefix <> k) (prefix <> j)).1 e in
    let both = sym eq ∙ ==-append prefix k j ∙ differ in cc

pub first_apart :
    {A : Type 0} (prefix k j : String) (m : GoMap A)
    → GoMap.lookup k m ≡ none
    → is_some (GoMap.lookup j m) ≡ true
    → (prefix <> j) ≢ (prefix <> k)
first_apart prefix k j m alone there = elim (Bool-cases (j == k)) [
  | inl e ↦
      let gone : GoMap.lookup j m ≡ none = ap (λ t. GoMap.lookup t m) ((eq_iff j k).0 e) ∙ alone in
      absurd (nothing_there gone there)
  | inr e ↦ prefixed_apart prefix j k e
]

module _ {S : Type 0} (store : StoreOps S) (laws : StoreLaws store) where
  -- What a loop of puts under one prefix has done: its entries are stored, other keys are as before.
  pub record Stored {A : Type 0} (prefix : String) (bytes : A → Bytes) (m : GoMap A) (s s' : S)
      : Type 0 where
    pub ready : laws.IsReady s'
    pub entry :
        (k : String) (x : A)
        → GoMap.lookup k m ≡ some x
        → laws.view s' (prefix <> k) ≡ some (bytes x)
    pub apart :
        (j : String)
        → ((k : String) → is_some (GoMap.lookup k m) ≡ true → (prefix <> k) ≢ j)
        → laws.view s' j ≡ laws.view s j

  module _ {A : Type 0} (prefix : String) (bytes : A → Bytes)
      (put : String → A → Method S (Result StoreError Unit))
      (single : (k : String) (x : A) (s : S)
        → put k x s ≡ store.put (prefix <> k) (bytes x) s) where
    found_behind :
        (k j : String) (x : A) (m : GoMap A)
        → is_some (GoMap.lookup j m) ≡ true
        → is_some (GoMap.lookup j ((k, x) ∷ m)) ≡ true
    unfolding GoMap.lookup
    found_behind k j x m there = elim (Bool-cases (k == j)) [
      | inl e ↦ rw e refl
      | inr e ↦ rw e there
    ]

    Stored-cons :
        (k : String) (x : A) (m : GoMap A) (s s1 s' : S)
        → GoMap.lookup k m ≡ none
        → ((j : String) → laws.view s1 j ≡ write_at (prefix <> k) (some (bytes x)) (laws.view s) j)
        → Stored prefix bytes m s1 s'
        → Stored prefix bytes ((k, x) ∷ m) s s'
    unfolding GoMap.lookup
    Stored-cons k x m s s1 s' alone seen rest = record {
      ready = rest.ready;
      entry = λ j y found. elim (Bool-cases (k == j)) [
        | inl e ↦
            let value : some x ≡ some y = sym (rw e refl) ∙ found in
            let kept = rest.apart (prefix <> k) (λ j'. first_apart prefix k j' m alone) in
            subst (λ t. laws.view s' (prefix <> t) ≡ some (bytes y)) ((eq_iff k j).0 e)
              (kept
                ∙ seen (prefix <> k)
                ∙ write_at_same (prefix <> k) (some (bytes x)) (laws.view s)
                ∙ ap (option_bytes bytes) value)
        | inr e ↦ rest.entry j y (sym (rw e refl) ∙ found)
      ];
      apart = λ j far.
          rest.apart j (λ k' there. far k' (found_behind k k' x m there))
          ∙ seen j
          ∙ write_at_other (prefix <> k) j (some (bytes x)) (laws.view s)
              (far k (rw (eq_refl k) refl));
    }

    pub put_all_lem :
        {K : Type 0} (m : GoMap A) (i : Installer K S) (s : S)
        → IsDistinct m
        → laws.IsReady s
        → (s' : S) × (put_all (λ k x. on_store (put k x)) m (record i { shared_store = some s })
            ≡ returns (ok tt) (record i { shared_store = some s' }))
          × Stored prefix bytes m s s'
    unfolding put_all on_store store_call GoMap.lookup
    put_all_lem [] i s distinct h = (
      s,
      refl,
      record { ready = h; entry = λ k x found. absurd (nothing found); apart = λ j far. refl },
    )
    put_all_lem ((k, x) ∷ m) i s distinct h =
        let (s1, done, h1, seen) = laws.put_law (prefix <> k) (bytes x) s h in
        let (s', all, stored) = put_all_lem m i s1 (IsDistinct-rest k x m distinct) h1 in
        (
          s',
          rw (single k x s ∙ done, ◌>>=◌) all,
          Stored-cons k x m s s1 s' (IsDistinct-first k x m distinct) seen stored,
        )
