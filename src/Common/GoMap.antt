-- ===== src/Common/GoMap.antt =====
-- Go's map[string]V as an association list. Go leaves the order of `range` open; the list has some
-- order, and statements about a range count keys and never name a position.
use Prim.Native.Nat.{ℕ, ◌+◌, ◌≤◌}
use Prim.Native.String.{String}
use mathlib.Core.Path.{◌≡◌, refl, subst}
use mathlib.Core.Bool.{Bool, true, not, ◌&&◌}
use mathlib.Core.Option.{Option, none, some}
use mathlib.Core.List.{List, [], ◌∷◌}
use native.Mathlib.Omega.{arith}
use text.Mathlib.Text.{◌==◌}
use text.Mathlib.TextEquality.{eq_iff}
use text.Mathlib.TextPositions.{eq_refl}
use mathlib.Core.Logic.{◌≢◌, inl, inr}
use delegatio.Common.Tests.{if◌then◌else◌, is_some, Bool-cases}
use delegatio.Common.Lists.{count}

abbrev pub GoMap {ℓ} : Type ℓ → Type ℓ
GoMap V = List (String × V)

module _ {ℓ} {V : Type ℓ} where
  -- v, ok := m[key]
  unfoldable pub lookup : String → GoMap V → Option V
  lookup key [] = none
  lookup key ((own, found) ∷ rest) = if own == key then some found else lookup key rest

  -- m[key] = value
  unfoldable pub insert : String → V → GoMap V → GoMap V
  insert key value [] = (key, value) ∷ []
  insert key value ((own, old) ∷ rest) =
      if own == key then (key, value) ∷ rest else (own, old) ∷ insert key value rest

  -- delete(m, key)
  unfoldable pub delete : String → GoMap V → GoMap V
  delete key [] = []
  delete key ((own, old) ∷ rest) =
      let others = delete key rest in if own == key then others else (own, old) ∷ others

  -- for k, v := range m { c[k] = v }, into a new map; the range goes from the list's end.
  unfoldable pub copy : GoMap V → GoMap V
  copy [] = []
  copy ((own, value) ∷ rest) = insert own value (copy rest)

  unfoldable pub keys : GoMap V → List String
  keys [] = []
  keys ((own, value) ∷ rest) = own ∷ keys rest

  pub lookup-empty : (key : String) → lookup key [] ≡ none
  unfolding lookup
  lookup-empty key = refl

  pub lookup-insert :
      (put read : String) (value : V) (m : GoMap V)
      → lookup read (insert put value m) ≡ (if put == read then some value else lookup read m)
  unfolding insert lookup
  lookup-insert put read value [] = refl
  lookup-insert put read value ((own, old) ∷ rest) =
      ground
        (arith, lookup-insert put read value rest, eq_iff put read, eq_iff own read, eq_iff own put)

  pub lookup-delete :
      (k j : String) (m : GoMap V) → lookup j (delete k m) ≡ (if k == j then none else lookup j m)
  unfolding lookup delete
  lookup-delete k j [] = ground arith
  lookup-delete k j ((i, w) ∷ m) =
      ground (arith, eq_iff k j, eq_iff i k, eq_iff i j, lookup-delete k j m)

abbrev pub one_if : Bool → ℕ
one_if b = if b then 1 else 0

module _ {ℓ} {V : Type ℓ} where
  -- Each key stands once.
  pub record IsDistinct (m : GoMap V) : Type ℓ where
    pub at_key : (k : String) → count k (keys m) ≡ one_if (is_some (lookup k m))

  pub IsDistinct-empty : IsDistinct []
  unfolding lookup keys count
  IsDistinct-empty = record { at_key = λ k. refl }

  count-insert :
      (k j : String) (v : V) (m : GoMap V)
      → count k (keys (insert j v m))
        ≡ count k (keys m) + one_if (j == k && not (is_some (lookup k m)))
  unfolding lookup insert keys count
  count-insert k j v [] = ground (arith, eq_iff j k)
  count-insert k j v ((i, w) ∷ m) =
      ground (arith, eq_iff k j, eq_iff i k, eq_iff i j, eq_iff j k, count-insert k j v m)

  count-delete :
      (k j : String) (m : GoMap V)
      → count k (keys (delete j m)) ≡ (if j == k then 0 else count k (keys m))
  unfolding delete keys count
  count-delete k j [] = ground arith
  count-delete k j ((i, w) ∷ m) =
      ground (arith, eq_iff i k, eq_iff i j, eq_iff j k, count-delete k j m)

  pub insert-IsDistinct :
      (j : String) (v : V) {m : GoMap V} → IsDistinct m → IsDistinct (insert j v m)
  insert-IsDistinct j v {m} h = record {
    at_key = λ k. ground (arith, count-insert k j v m, lookup-insert j k v m, h.at_key k);
  }

  pub delete-IsDistinct : (j : String) {m : GoMap V} → IsDistinct m → IsDistinct (delete j m)
  delete-IsDistinct j {m} h = record {
    at_key = λ k. ground (arith, count-delete k j m, lookup-delete j k m, h.at_key k);
  }

  pub lookup-copy : (j : String) (m : GoMap V) → lookup j (copy m) ≡ lookup j m
  unfolding lookup copy
  lookup-copy j [] = refl
  lookup-copy j ((i, w) ∷ m) = rw (lookup-insert i j w (copy m), lookup-copy j m)

  pub copy-IsDistinct : (m : GoMap V) → IsDistinct (copy m)
  unfolding copy
  copy-IsDistinct [] = IsDistinct-empty
  copy-IsDistinct ((i, w) ∷ m) = insert-IsDistinct i w (copy-IsDistinct m)

counted :
    {A : Type 0} (k : String) (m : GoMap A) → is_some (lookup k m) ≡ true → 1 ≤ count k (keys m)
unfolding lookup keys count
counted k [] h = cc
counted k ((own, x) ∷ m) h = elim (Bool-cases (own == k)) [
  | inl e ↦ ground (arith, eq_iff own k)
  | inr e ↦ let less = counted k m in ground (arith, eq_iff own k, less)
]

not_some : {A : Type 0} (o : Option A) → is_some o ≢ true → o ≡ none
not_some none h = refl
not_some (some x) h = absurd (h refl)

-- The first key of a map whose keys are distinct does not stand in the rest.
pub IsDistinct-first :
    {A : Type 0} (k : String) (x : A) (m : GoMap A) → IsDistinct ((k, x) ∷ m) → lookup k m ≡ none
unfolding lookup keys count
IsDistinct-first k x m h =
    not_some (lookup k m)
      (λ there. let at = h.at_key k in absurd (ground (arith, at, counted k m there, eq_refl k)))

pub IsDistinct-rest :
    {A : Type 0} (k : String) (x : A) (m : GoMap A) → IsDistinct ((k, x) ∷ m) → IsDistinct m
unfolding lookup keys count
IsDistinct-rest k x m h = record {
  at_key = λ j. elim (Bool-cases (k == j)) [
    | inl e ↦
        let first = IsDistinct-first k x m h in
        let same = (eq_iff k j).0 e in
        let at = h.at_key k in
        subst (λ t. count t (keys m) ≡ one_if (is_some (lookup t m))) same
          (rw first (ground (arith, at, eq_refl k)))
    | inr e ↦ let at = h.at_key j in ground (arith, at, e)
  ];
}
