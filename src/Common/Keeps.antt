-- ===== src/Common/Keeps.antt =====
-- Methods that, when they return, leave a relation between the state before and the state after: the
-- relation of a step is that of a chain of steps when it is reflexive and transitive.
use mathlib.Core.Path.{◌≡◌, subst}
use delegatio.Common.Outcome.{
  returns, blocks, panics, Method, Result, ok, err, pure, gets, modify, on_ok, ◌>>=◌, bind_returns,
  outcome_of,
}

pub record Preorder (S : Type 0) : Type 1 where
  pub Related : S → S → Type 0
  pub same : (s : S) → Related s s
  pub chain : {s t u : S} → Related s t → Related t u → Related s u

module _ {S : Type 0} (p : Preorder S) where
  pub record Keeps {A : Type 0} (m : Method S A) : Type 0 where
    pub related : (s s' : S) (a : A) → m s ≡ returns a s' → p.Related s s'

  pub pure-Keeps : {A : Type 0} (a : A) → Keeps (pure a)
  pure-Keeps a = record { related = λ s s' b h. subst (p.Related s) (outcome_of h).1 (p.same s) }

  pub gets-Keeps : {A : Type 0} (f : S → A) → Keeps (gets f)
  gets-Keeps f = record { related = λ s s' b h. subst (p.Related s) (outcome_of h).1 (p.same s) }

  pub modify-Keeps : (f : S → S) → ((s : S) → p.Related s (f s)) → Keeps (modify f)
  modify-Keeps f step = record {
    related = λ s s' b h. subst (p.Related s) (outcome_of h).1 (step s);
  }

  pub panics-Keeps : {A : Type 0} → Keeps {A = A} (λ _. panics)
  panics-Keeps = record { related = λ s s' b h. cc }

  pub blocks-Keeps : {A : Type 0} → Keeps {A = A} (λ _. blocks)
  blocks-Keeps = record { related = λ s s' b h. cc }

  pub bind-Keeps :
      {A B : Type 0} (m : Method S A) (f : A → Method S B)
      → Keeps m
      → ((a : A) → Keeps (f a))
      → Keeps (m >>= f)
  bind-Keeps m f first rest = record {
    related = λ s s' b h.
        let (a, t, ran, ends) = bind_returns m f s h in
        p.chain (first.related s t a ran) ((rest a).related t s' b ends);
  }

  pub on_ok-Keeps :
      {E A B : Type 0} (r : Result E A) (f : A → Method S (Result E B))
      → ((a : A) → Keeps (f a))
      → Keeps (on_ok r f)
  on_ok-Keeps (ok a) f rest = rest a
  on_ok-Keeps (err e) f rest = pure-Keeps (err e)
