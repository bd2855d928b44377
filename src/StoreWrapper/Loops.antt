-- ===== src/StoreWrapper/Loops.antt =====
-- The loops over an iterator: GetAllKeys, GetAllChallenges and GetAllPublicKeys.
use delegatio.Common.{
  ℕ, zero, suc, has_prefix-empty, trim_prefix, trim_prefix-append, has_prefix-split, ==-append, leb,
  Bool-cases, Option-cases, has_prefix-append, ◌<◌, ◌≡◌, refl, sym, ap, ◌∙◌, String, List, [], ◌∷◌,
  ◌++◌, Option, none, some, is_some, arith, length, drop, count, has_prefix, ◌<>◌, ◌==◌, eq_iff,
  eq_refl, inl, inr, if◌then◌else◌, append-nil, append_assoc,
}
use delegatio.Common.GoMap
use delegatio.Common.GoMap.{GoMap, one_if}
use delegatio.Common.Outcome.{Result, ok, err, returns, Method, ◌>>=◌}
use delegatio.Config.{UserInformation, ContainerInformation, zero_user, zero_container}
use delegatio.Store.{Bytes, StoreError, value_unset, Iterator, StoreOps}
use delegatio.Store.Contract.{StoreLaws}
use delegatio.Store.Iteration.{get_next_cases}
use delegatio.StoreWrapper.{
  Codec, collect_keys, get_all_keys, keys_next, collect, collect_next, get_all, get_data,
  get_all_challenges, get_all_public_keys, challenge_location_prefix, public_key_prefix,
  get_challenge_data, get_public_key_data,
}

module _ {S : Type 0} (store : StoreOps S) where
  collect_keys_lem :
      (fuel : ℕ) (rest : List String) (it : Iterator) (ks : List String) (s : S)
      → length rest < fuel
      → drop it.idx it.keys ≡ rest
      → collect_keys store fuel it ks s ≡ returns (ok (ks ++ rest)) s
  unfolding collect_keys
  collect_keys_lem zero rest it ks s h left = absurd (omega arith)
  collect_keys_lem (suc fuel) rest it ks s h left = elim (get_next_cases it) [
    | inl (a, done, e) ↦ rw done (rw (sym left ∙ a, append-nil ks))
    | inr (x, rest', a, more, got, b) ↦
        let split : rest ≡ x ∷ rest' = sym left ∙ a in
        rw more (
          rw (got, keys_next)
            (collect_keys_lem fuel rest' (record it { idx = suc it.idx }) (ks ++ x ∷ []) s
                (omega (arith, ap length split)) b
              ∙ ap (λ l. returns (ok l) s)
                  (append_assoc ks (x ∷ []) rest' ∙ ap (◌++◌ ks) (sym split))))
  ]

  -- Over a store that keeps its contract GetAllKeys ends, and gives each stored key once and nothing
  -- else.
  pub get_all_keys_lem :
      (laws : StoreLaws store) (s : S)
      → laws.IsReady s
      → (ks : List String) × (get_all_keys store s ≡ returns (ok ks) s)
        × ((k : String) → count k ks ≡ one_if (is_some (laws.view s k)))
  unfolding get_all_keys
  get_all_keys_lem laws s h =
      let (ks, listed, counted) = laws.iterator_law "" s h in
      (
        ks,
        rw (listed, ◌>>=◌)
            (collect_keys_lem (suc (length ks)) ks (record { idx = 0; keys = ks }) [] s
              (omega arith) refl),
        λ k. counted k ∙ rw (has_prefix-empty k),
      )

head_eq : (x y : String) (xs ys : List String) → x ∷ xs ≡ y ∷ ys → x ≡ y
head_eq x y xs ys h = cc

tail_eq : (x y : String) (xs ys : List String) → x ∷ xs ≡ y ∷ ys → xs ≡ ys
tail_eq x y xs ys h = cc

-- A method that reads the record of each of some keys.
module _ {S A : Type 0} (store : StoreOps S) (prefix : String)
    (read : String → Method S (Result StoreError A)) (decode : String → Option A) (s : S) where
  -- The key is one of the prefix, and its record is read.
  abbrev Readable : String → Type 0
  Readable x =
      (t : String) × (v : A) × (prefix <> t ≡ x)
      × (read t s ≡ returns (ok v) s)
      × (decode t ≡ some v)

  collect_lem :
      (fuel : ℕ) (rest : List String) (it : Iterator) (acc : GoMap A)
      → length rest < fuel
      → drop it.idx it.keys ≡ rest
      → ((x : String) → 0 < count x rest → Readable x)
      → (m : GoMap A) × (collect store fuel read prefix it acc s ≡ returns (ok m) s)
        × ((j : String)
            → GoMap.lookup j m
              ≡ (if leb 1 (count (prefix <> j) rest) then decode j else GoMap.lookup j acc))
  unfolding collect collect_next count
  collect_lem zero rest it acc h left each = absurd (omega arith)
  collect_lem (suc fuel) [] it acc h left each = elim (get_next_cases it) [
    | inl (a, done, e) ↦ (acc, rw done, λ j. refl)
    | inr (y, rest', a, more, got, b) ↦ absurd (omega (arith, ap length (sym left ∙ a)))
  ]
  collect_lem (suc fuel) (x ∷ rest) it acc h left each = elim (get_next_cases it) [
    | inl (a, done, e) ↦ absurd (omega (arith, ap length (sym left ∙ a)))
    | inr (y, rest', a, more, got, b) ↦
        let heads : y ≡ x = head_eq y x rest' rest (sym a ∙ left) in
        let tails : rest' ≡ rest = tail_eq y x rest' rest (sym a ∙ left) in
        let (t, v, own, reads, decodes) = each x (rw (eq_refl x) (omega arith)) in
        let (m, ran, seen) =
          collect_lem fuel rest (record it { idx = suc it.idx }) (GoMap.insert t v acc)
            (omega arith) (b ∙ tails) (λ z inside. each z (omega arith)) in
        let trimmed : trim_prefix y prefix ≡ t = rw (heads, ← own) (trim_prefix-append prefix t) in
        (
          m,
          rw more (rw (got, collect_next) (rw trimmed (rw (reads, ◌>>=◌) ran))),
          λ j. ground (
            arith,
            seen j,
            GoMap.lookup-insert t j v acc,
            eq_iff t j,
            ap (λ z. z == (prefix <> j)) own,
            ==-append prefix t j,
          ),
        )
  ]

  get_all_read :
      (laws : StoreLaws store)
      → laws.IsReady s
      → ((t : String)
          → (d : Bytes) → laws.view s (prefix <> t) ≡ some d
          → (v : A) × (read t s ≡ returns (ok v) s) × (decode t ≡ some v))
      → ((t : String) → laws.view s (prefix <> t) ≡ none → decode t ≡ none)
      → (m : GoMap A) × (get_all store read prefix s ≡ returns (ok m) s)
        × ((j : String) → GoMap.lookup j m ≡ decode j)
  unfolding get_all
  get_all_read laws h present missing =
      let (ks, listed, counted) = laws.iterator_law prefix s h in
      let (m, ran, seen) =
        collect_lem (suc (length ks)) ks (record { idx = 0; keys = ks }) [] (omega arith) refl
          (λ x inside. each x ks (counted x) inside) in
      (m, (rw (listed, ◌>>=◌) ran), λ j. seen j ∙ ends j ks (counted (prefix <> j)))
    where
      each :
          (x : String) (ks : List String)
          → count x ks ≡ (if has_prefix x prefix then one_if (is_some (laws.view s x)) else 0)
          → 0 < count x ks
          → Readable x
      each x ks counted inside = elim (Bool-cases (has_prefix x prefix)) [
        | inl e ↦
            let (t, own) = has_prefix-split x prefix e in
            elim (Option-cases (laws.view s x)) [
              | inl gone ↦ absurd (ground arith)
              | inr (d, there) ↦
                  let (v, reads, decodes) = present t d (rw own there) in
                  (t, v, own, reads, decodes)
            ]
        | inr e ↦ absurd (ground arith)
      ]

      ends :
          (j : String) (ks : List String)
          → count (prefix <> j) ks ≡ (
              if has_prefix (prefix <> j) prefix
              then one_if (is_some (laws.view s (prefix <> j)))
              else 0)
          → (if leb 1 (count (prefix <> j) ks) then decode j else GoMap.lookup j []) ≡ decode j
      ends j ks counted = elim (Option-cases (laws.view s (prefix <> j))) [
        | inl gone ↦
            ground (arith, has_prefix-append prefix j, missing j gone, GoMap.lookup-empty {V = A} j)
        | inr (d, there) ↦ ground (arith, has_prefix-append prefix j)
      ]

-- A public key without a record is not read.
pub get_public_key_data_missing :
    {S : Type 0} (store : StoreOps S) (laws : StoreLaws store) (json : Codec UserInformation)
    (key : String) (target : UserInformation) (s : S)
    → laws.IsReady s
    → laws.view s (public_key_prefix <> key) ≡ none
    → (x : StoreError) × (get_public_key_data store json key target s ≡ returns (err x) s)
unfolding get_public_key_data get_data
get_public_key_data_missing store laws json key target s ready gone = (
  value_unset (public_key_prefix <> key),
  rw (laws.get_law (public_key_prefix <> key) s ready, ◌>>=◌) (rw gone refl),
)

-- What Unmarshal makes of a stored record.
abbrev pub decoded : {A : Type 0} → Codec A → A → Option Bytes → Option A
decoded json zero_value none = none
decoded json zero_value (some d) = elim (json.unmarshal d zero_value) [
  | ok v ↦ some v
  | err e ↦ none
]

module _ {S : Type 0} (store : StoreOps S) (laws : StoreLaws store) (s : S) where
  -- Every record under the prefix can be read.
  abbrev pub AllDecode : {A : Type 0} → Codec A → A → String → Type 0
  AllDecode {A} json zero_value prefix =
      (t : String)
      → (d : Bytes) → laws.view s (prefix <> t) ≡ some d
      → (v : A) × (json.unmarshal d zero_value ≡ ok v)

  -- Over a store that keeps its contract, and when every stored challenge decodes, GetAllChallenges
  -- ends and gives, under each name, the stored challenge, and nothing else.
  pub get_all_challenges_lem :
      (json : Codec ContainerInformation)
      → laws.IsReady s
      → AllDecode json zero_container challenge_location_prefix
      → (m : GoMap ContainerInformation) × (get_all_challenges store json s ≡ returns (ok m) s)
        × ((j : String)
            → GoMap.lookup j m
              ≡ decoded json zero_container (laws.view s (challenge_location_prefix <> j)))
  unfolding get_all_challenges get_challenge_data get_data
  get_all_challenges_lem json h each =
      get_all_read store challenge_location_prefix
        (λ k. get_challenge_data store json k zero_container)
        (λ j. decoded json zero_container (laws.view s (challenge_location_prefix <> j))) s laws h
        (λ t d there.
          let (v, reads) = each t d there in
          (
            v,
            rw (laws.get_law (challenge_location_prefix <> t) s h, ◌>>=◌) (rw there (rw reads)),
            rw there (rw (reads, decoded)),
          ))
        (λ t gone. rw gone)

  -- Over a store that keeps its contract, and when every stored user decodes, GetAllPublicKeys ends
  -- and gives, under each public key, the stored user, and nothing else.
  pub get_all_public_keys_lem :
      (json : Codec UserInformation)
      → laws.IsReady s
      → AllDecode json zero_user public_key_prefix
      → (m : GoMap UserInformation) × (get_all_public_keys store json s ≡ returns (ok m) s)
        × ((j : String)
            → GoMap.lookup j m ≡ decoded json zero_user (laws.view s (public_key_prefix <> j)))
  unfolding get_all_public_keys get_public_key_data get_data
  get_all_public_keys_lem json h each =
      get_all_read store public_key_prefix (λ k. get_public_key_data store json k zero_user)
        (λ j. decoded json zero_user (laws.view s (public_key_prefix <> j))) s laws h
        (λ t d there.
          let (v, reads) = each t d there in
          (
            v,
            rw (laws.get_law (public_key_prefix <> t) s h, ◌>>=◌) (rw there (rw reads)),
            rw there (rw (reads, decoded)),
          ))
        (λ t gone. rw gone)
