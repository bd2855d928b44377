-- ===== src/Common/Outcome.antt =====
-- What a call of the program does. It returns a value beside the new state, it waits for ever (a
-- lock that nobody gives back), or it panics. Go's pair of a value and an error is a `Result`.

use mathlib.Core.Path.{◌≡◌, refl, ap, ◌∙◌}
use mathlib.Core.Logic.{◌⊎◌, inl, inr}

pub data Result {ℓ} (E A : Type ℓ) : Type ℓ where
  ok : A → Result E A
  err : E → Result E A

pub data Outcome {ℓ} (S A : Type ℓ) : Type ℓ where
  returns : A → S → Outcome S A
  blocks : Outcome S A
  panics : Outcome S A

-- A method that may change the state `S`.
abbrev pub Method {ℓ} : Type ℓ → Type ℓ → Type ℓ
Method S A = S → Outcome S A

abbrev pub pure {ℓ} : {S A : Type ℓ} → A → Method S A
pure a s = returns a s

abbrev pub gets {ℓ} : {S A : Type ℓ} → (S → A) → Method S A
gets f s = returns (f s) s

abbrev pub modify {ℓ} : {S : Type ℓ} → (S → S) → Method S Unit
modify f s = returns tt (f s)

infixl 5 ◌>>=◌ ◌>>◌
abbrev pub ◌>>=◌ {ℓ} : {S A B : Type ℓ} → Method S A → (A → Method S B) → Method S B
◌>>=◌ m f s = elim (m s) [ returns a s' ↦ f a s' | blocks ↦ blocks | panics ↦ panics ]

abbrev pub ◌>>◌ {ℓ} : {S A B : Type ℓ} → Method S A → Method S B → Method S B
m >> k = m >>= λ _. k

-- `if err != nil { return err }`: the rest runs only without an error.
abbrev pub on_ok {ℓ} :
    {S E A B : Type ℓ} → Result E A → (A → Method S (Result E B)) → Method S (Result E B)
on_ok (ok a) f = f a
on_ok (err e) f = pure (err e)

abbrev pub bind_result {ℓ} : {E A B : Type ℓ} → Result E A → (A → Result E B) → Result E B
bind_result (ok a) f = f a
bind_result (err e) f = err e

-- A method of one of two objects.
abbrev pub on_left {ℓ} : {S T A : Type ℓ} → Method S A → Method (S × T) A
on_left m w = elim (m w.0) [
  | returns a s' ↦ returns a (s', w.1)
  | blocks ↦ blocks
  | panics ↦ panics
]

abbrev pub on_right {ℓ} : {S T A : Type ℓ} → Method T A → Method (S × T) A
on_right m w = elim (m w.1) [
  | returns a t' ↦ returns a (w.0, t')
  | blocks ↦ blocks
  | panics ↦ panics
]

pub bind_result_ok {ℓ} :
    {E A B : Type ℓ} (r : Result E A) (f : A → Result E B) {b : B}
    → bind_result r f ≡ ok b
    → (a : A) × (r ≡ ok a) × (f a ≡ ok b)
bind_result_ok (ok a) f h = (a, refl, h)
bind_result_ok (err e) f h = cc

outcome_bind :
    {S A B : Type 0} (o : Outcome S A) (f : A → Method S B) {b : B} {s' : S}
    → (elim o [ returns a t ↦ f a t | blocks ↦ blocks | panics ↦ panics ]) ≡ returns b s'
    → (a : A) × (t : S) × (o ≡ returns a t) × (f a t ≡ returns b s')
outcome_bind (returns a t) f h = (a, t, refl, h)
outcome_bind blocks f h = cc
outcome_bind panics f h = cc

-- A chain that returns has run both of its parts.
pub bind_returns :
    {S A B : Type 0} (m : Method S A) (f : A → Method S B) (s : S) {b : B} {s' : S}
    → (m >>= f) s ≡ returns b s'
    → (a : A) × (t : S) × (m s ≡ returns a t) × (f a t ≡ returns b s')
bind_returns m f s h = outcome_bind (m s) f h

pub outcome_of : {S A : Type 0} {a b : A} {s t : S} → returns a s ≡ returns b t → (a ≡ b) × (s ≡ t)
outcome_of h = (cc, cc)

pub on_ok_returns :
    {S E A B : Type 0} (r : Result E A) (f : A → Method S (Result E B)) (s : S) {b : B} {s' : S}
    → on_ok r f s ≡ returns (ok b) s'
    → (a : A) × (r ≡ ok a) × (f a s ≡ returns (ok b) s')
on_ok_returns (ok a) f s h = (a, refl, h)
on_ok_returns (err e) f s h = cc

-- A chain that ends without an error had none in its first part.
pub chain_ok :
    {S E A B : Type 0} (m : Method S (Result E A)) (f : A → Method S (Result E B)) (s : S) {b : B}
    {s' : S}
    → (m >>= λ r. on_ok r f) s ≡ returns (ok b) s'
    → (a : A) × (t : S) × (m s ≡ returns (ok a) t) × (f a t ≡ returns (ok b) s')
chain_ok m f s h =
    let (r, t, ran, rest) = bind_returns m (λ r. on_ok r f) s h in
    let (a, good, ends) = on_ok_returns r f t rest in (a, t, ran ∙ ap (λ x. returns x t) good, ends)

-- A chain goes on from where its first part returns.
pub bind_step :
    {S A B : Type 0} (m : Method S A) (f : A → Method S B) {s t : S} {a : A}
    → m s ≡ returns a t
    → (m >>= f) s ≡ f a t
bind_step m f h = rw (h, ◌>>=◌) refl

pub Result-cases {ℓ} :
    {E A : Type ℓ} (r : Result E A) → ((e : E) × (r ≡ err e)) ⊎ ((a : A) × (r ≡ ok a))
Result-cases (err e) = inl (e, refl)
Result-cases (ok a) = inr (a, refl)

pub result_of : {E A : Type 0} {a b : A} → ◌≡◌ {A = Result E A} (ok a) (ok b) → a ≡ b
result_of h = cc
