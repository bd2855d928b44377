-- ===== src/Store/Iteration.antt =====
-- The two methods of an iterator, stdstore.go and etcdstore.go.
use delegatio.Common.{
  ℕ, zero, suc, ◌≤◌, ◌<◌, ◌≡◌, refl, String, true, false, List, [], ◌∷◌, none, some, arith,
  get_elem?, length, drop, ◌⊎◌, inl, inr,
}
use delegatio.Common.Outcome.{ok, err, returns}
use delegatio.Store.{Iterator, index_out_of_range, get_next, has_next}

drop_cases {ℓ} :
    {A : Type ℓ} (i : ℕ) (xs : List A)
    → ((drop i xs ≡ []) × (get_elem? xs i ≡ none) × (length xs ≤ i))
      ⊎ ((x : A) × (rest : List A) × (drop i xs ≡ x ∷ rest)
          × (get_elem? xs i ≡ some x)
          × (i < length xs)
          × (drop (suc i) xs ≡ rest))
drop_cases zero [] = inl (refl, refl, omega arith)
drop_cases zero (x ∷ xs) = inr (x, xs, refl, refl, omega arith, refl)
drop_cases (suc i) [] = inl (refl, refl, omega arith)
drop_cases (suc i) (x ∷ xs) = elim (drop_cases i xs) [
  | inl (a, b, c) ↦ inl (a, b, omega arith)
  | inr (y, rest, a, b, c, d) ↦ inr (y, rest, a, b, omega arith, d)
]

-- While keys are left, HasNext says so and GetNext gives the first of them; after that HasNext is
-- false and GetNext names the index and the length. It never panics.
pub get_next_cases :
    (it : Iterator)
    → ((drop it.idx it.keys ≡ [])
        × (has_next it ≡ false)
        × (get_next it ≡ returns (err (index_out_of_range it.idx (length it.keys))) it))
      ⊎ ((x : String) × (rest : List String) × (drop it.idx it.keys ≡ x ∷ rest)
          × (has_next it ≡ true)
          × (get_next it ≡ returns (ok x) (record it { idx = suc it.idx }))
          × (drop (suc it.idx) it.keys ≡ rest))
unfolding get_next has_next
get_next_cases it = elim (drop_cases it.idx it.keys) [
  | inl (a, b, c) ↦ inl (a, ground arith, ground arith)
  | inr (x, rest, a, b, c, d) ↦ inr (x, rest, a, ground arith, ground arith, d)
]
