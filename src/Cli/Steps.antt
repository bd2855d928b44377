-- ===== src/Cli/Steps.antt =====
-- cli/run.go: what its steps have done when the cli ends.
use delegatio.Common.{ℕ, ◌≡◌, refl, sym, ap, ◌∙◌, Option, some, none}
use delegatio.Common.Outcome.{Result, ok, err}
use delegatio.Cli.{
  Ending, finished, panicked, waits, Phase, after, produce, ◌>>=◌, after_body, deferred, or_dpanic,
  Parts, run, run_steps, clean_up, create_infrastructure, bootstrap, install_applications,
  handle_termination,
}

-- The state in which a program ends, when it does not wait for ever.
abbrev pub last_state : {W A : Type 0} → Ending W A → Option W
last_state (finished a w) = some w
last_state (panicked w) = some w
last_state waits = none

after_finished :
    {W A B : Type 0} (e : Ending W A) (f : A → Phase W B) {b : B} {u : W}
    → after e f ≡ finished b u
    → (a : A) × (t : W) × (e ≡ finished a t) × (f a t ≡ finished b u)
after_finished (finished a t) f h = (a, t, refl, h)
after_finished (panicked t) f h = cc
after_finished waits f h = cc

or_dpanic_finished :
    {W E A : Type 0} (r : Result E A) (w : W) {a : A} {u : W}
    → or_dpanic r w ≡ finished a u
    → (r ≡ ok a) × (w ≡ u)
or_dpanic_finished (ok a) w h = (cc, cc)
or_dpanic_finished (err e) w h = cc

-- A step and the test of its error.
checked :
    {W E A B : Type 0} (m : Phase W (Result E A)) (f : A → Phase W B) (w : W) {b : B} {u : W}
    → (m >>= λ r. or_dpanic r >>= f) w ≡ finished b u
    → (a : A) × (t : W) × (m w ≡ finished (ok a) t) × (f a t ≡ finished b u)
checked m f w h =
    let (r, t, ran, rest) = after_finished (m w) (λ r. or_dpanic r >>= f) h in
    let (a, t', tested, ends) = after_finished (or_dpanic r t) f rest in
    let (good, same) = or_dpanic_finished r t tested in
    (a, t', ran ∙ ap (λ x. finished x t) good ∙ ap (finished (ok a)) same, ends)

some_of : {A : Type 0} {a b : A} → ◌≡◌ {A = Option A} (some a) (some b) → a ≡ b
some_of h = cc

last_state-after :
    {W A B : Type 0} (e : Ending W A) (f : A → Phase W B)
    → ((a : A) (w : W) → last_state (f a w) ≡ some w)
    → last_state (after e f) ≡ last_state e
last_state-after (finished a w) f kept = kept a w
last_state-after (panicked w) f kept = refl
last_state-after waits f kept = refl

after_body-last :
    {W A : Type 0} (e : Ending W A) (cleanup : Phase W Unit) (u : W)
    → last_state (after_body e cleanup) ≡ some u
    → (t : W) × (last_state e ≡ some t) × (last_state (cleanup t) ≡ some u)
after_body-last (finished a t) cleanup u h =
    (t, refl, sym (last_state-after (cleanup t) (λ _. produce a) (λ _ w. refl)) ∙ h)
after_body-last {A = A} (panicked t) cleanup u h =
    (t, refl, sym (last_state-after {B = A} (cleanup t) (λ _ v. panicked v) (λ _ w. refl)) ∙ h)
after_body-last waits cleanup u h = cc

module _ {W N K B C I T : Type 0} (parts : Parts W N K B C I T) where
  -- How the deferred function leaves a state: both of its calls return, or one of them panics.
  pub data CleanedUp (t u : W) : Type 0 where
    both_returned :
        (e e' : Result ℕ Unit) (t1 : W)
        → parts.terminate_infrastructure t ≡ finished e t1
        → parts.terminate_connection t1 ≡ finished e' u
        → CleanedUp t u
    infrastructure_panicked : parts.terminate_infrastructure t ≡ panicked u → CleanedUp t u
    connection_panicked :
        (e : Result ℕ Unit) (t1 : W)
        → parts.terminate_infrastructure t ≡ finished e t1
        → parts.terminate_connection t1 ≡ panicked u
        → CleanedUp t u

  connection_closed :
      (e : Result ℕ Unit) (t t1 u : W) (o : Ending W (Result ℕ Unit))
      → parts.terminate_infrastructure t ≡ finished e t1
      → parts.terminate_connection t1 ≡ o
      → last_state o ≡ some u
      → CleanedUp t u
  connection_closed e t t1 u (finished e' x) gone at h =
      both_returned e e' t1 gone (at ∙ ap (finished e') (some_of h))
  connection_closed e t t1 u (panicked x) gone at h =
      connection_panicked e t1 gone (at ∙ ap panicked (some_of h))
  connection_closed e t t1 u waits gone at h = cc

  clean_up_last :
      (t u : W) (o : Ending W (Result ℕ Unit))
      → parts.terminate_infrastructure t ≡ o
      → last_state (after o (λ _. parts.terminate_connection >>= λ _. produce tt)) ≡ some u
      → CleanedUp t u
  clean_up_last t u (finished e t1) at h =
      connection_closed e t t1 u (parts.terminate_connection t1) at refl
        (sym (last_state-after (parts.terminate_connection t1) (λ _. produce tt) (λ _ w. refl)) ∙ h)
  clean_up_last t u (panicked x) at h = infrastructure_panicked (at ∙ ap panicked (some_of h))
  clean_up_last t u waits at h = cc

  -- Once NewQemu has given an infrastructure, a cli that ends, by a return or by a panic of any of its
  -- steps, has called TerminateInfrastructure in the state that the steps left, and if that call did
  -- not itself panic, TerminateConnection after it, whether or not the former returned an error; and it
  -- ends in the state that the last of these calls left.
  pub run_cleans_up :
      (w v u : W)
      → parts.new_qemu w ≡ finished (ok tt) v
      → last_state (run parts w) ≡ some u
      → (t : W) × (last_state (run_steps parts v) ≡ some t) × CleanedUp t u
  unfolding run clean_up
  run_cleans_up w v u made h =
      let ran =
        ap
          (λ o.
            last_state
              (after o (λ r. or_dpanic r >>= λ _. deferred (clean_up parts) (run_steps parts))))
          made in
      let (t, steps, cleaned) =
        after_body-last (run_steps parts v) (clean_up parts) u (sym ran ∙ h) in
      (t, steps, clean_up_last t u (parts.terminate_infrastructure t) refl cleaned)

  -- A cli that ends without an error has made the nodes, bootstrapped a cluster on just these nodes,
  -- installed the applications with the credentials that the bootstrap gave, waited for the end of its
  -- context and then saved the state with the same credentials, each in the state that the former left.
  pub run_steps_ok :
      (w u : W)
      → run_steps parts w ≡ finished (ok tt) u
      → (nodes : N) × (creds : C) × (made ready installed stopped : W) × (create_infrastructure
            parts w
          ≡ finished (ok nodes) made)
        × (bootstrap parts nodes made ≡ finished (ok creds) ready)
        × (install_applications parts creds ready ≡ finished (ok tt) installed)
        × (parts.context_done installed ≡ finished tt stopped)
        × (handle_termination parts creds stopped ≡ finished (ok tt) u)
  unfolding run_steps
  run_steps_ok w u h =
      let (nodes, made, created, rest1) = checked (create_infrastructure parts) _ w h in
      let (creds, ready, bootstrapped, rest2) = checked (bootstrap parts nodes) _ made rest1 in
      let (_, installed, done, rest3) = checked (install_applications parts creds) _ ready rest2 in
      let (_, stopped, waited, rest4) = after_finished (parts.context_done installed) _ rest3 in
      (nodes, creds, made, ready, installed, stopped, created, bootstrapped, done, waited, rest4)
