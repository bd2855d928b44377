-- ===== src/Cli.antt =====
-- cli/run.go: the order of the cli's steps. The infrastructure, the bootstrapper, the installer and the
-- terminator are its interfaces, the parameter `Parts`. main.go builds zap's development logger, so
-- DPanic panics.
use delegatio.Common.{ℕ}
use delegatio.Common.Outcome.{Result, ok, err}
pub mod Steps

-- How a function ends: a panic leaves a state too, on which the deferred calls of the caller run.
pub data Ending {ℓ} (W A : Type ℓ) : Type ℓ where
  finished : A → W → Ending W A
  panicked : W → Ending W A
  waits : Ending W A

abbrev pub Phase {ℓ} : Type ℓ → Type ℓ → Type ℓ
Phase W A = W → Ending W A

abbrev pub produce {ℓ} : {W A : Type ℓ} → A → Phase W A
produce a w = finished a w

abbrev pub after {ℓ} : {W A B : Type ℓ} → Ending W A → (A → Phase W B) → Ending W B
after (finished a w) f = f a w
after (panicked w) f = panicked w
after waits f = waits

infixl 5 ◌>>=◌ ◌>>◌
abbrev pub ◌>>=◌ {ℓ} : {W A B : Type ℓ} → Phase W A → (A → Phase W B) → Phase W B
◌>>=◌ m f w = after (m w) f

abbrev pub ◌>>◌ {ℓ} : {W A B : Type ℓ} → Phase W A → Phase W B → Phase W B
m >> k = m >>= λ _. k

abbrev pub unless_error {ℓ} :
    {W E A B : Type ℓ} → Result E A → (A → Phase W (Result E B)) → Phase W (Result E B)
unless_error (ok a) f = f a
unless_error (err e) f = produce (err e)

abbrev pub or_dpanic {ℓ} : {W E A : Type ℓ} → Result E A → Phase W A
or_dpanic (ok a) w = finished a w
or_dpanic (err e) w = panicked w

-- `defer cleanup()`: it runs when the body returns and when it panics, not while the body waits.
abbrev pub after_body {ℓ} : {W A : Type ℓ} → Ending W A → Phase W Unit → Ending W A
after_body (finished a w) cleanup = after (cleanup w) (λ _. produce a)
after_body (panicked w) cleanup = after (cleanup w) (λ _ v. panicked v)
after_body waits cleanup = waits

abbrev pub deferred {ℓ} : {W A : Type ℓ} → Phase W Unit → Phase W A → Phase W A
deferred cleanup body w = after_body (body w) cleanup

-- Over the node information, the kubeadm document, the bootstrapper, the credentials, the installer
-- and the terminator.
pub record Parts (W N K B C I T : Type 0) : Type 0 where
  pub new_qemu : Phase W (Result ℕ Unit)
  pub connect_with_infrastructure_service : Phase W (Result ℕ Unit)
  pub initialize_infrastructure : Phase W (Result ℕ N)
  pub terminate_infrastructure : Phase W (Result ℕ Unit)
  pub terminate_connection : Phase W (Result ℕ Unit)
  pub get_kube_init_config : Phase W (Result ℕ K)
  pub new_kubernetes : N → K → Phase W (Result ℕ B)
  pub bootstrap_kubernetes : B → Phase W (Result ℕ C)
  pub new_installer : Phase W (Result ℕ I)
  pub install_kubernetes_applications : I → C → Phase W (Result ℕ Unit)
  pub context_done : Phase W Unit
  pub new_terminate : C → Phase W (Result ℕ T)
  pub save_state : T → Phase W (Result ℕ Unit)

module _ {W N K B C I T : Type 0} (parts : Parts W N K B C I T) where
  unfoldable pub create_infrastructure : Phase W (Result ℕ N)
  create_infrastructure = do
    connected ← parts.connect_with_infrastructure_service
    unless_error connected λ _. parts.initialize_infrastructure

  unfoldable pub bootstrap : N → Phase W (Result ℕ C)
  bootstrap nodes = do
    document ← parts.get_kube_init_config
    kube_conf ← or_dpanic document
    agent ← parts.new_kubernetes nodes kube_conf
    unless_error agent parts.bootstrap_kubernetes

  unfoldable pub install_applications : C → Phase W (Result ℕ Unit)
  install_applications creds = do
    kube_installer ← parts.new_installer
    unless_error kube_installer λ i. parts.install_kubernetes_applications i creds

  -- An error of NewTerminate meets DPanic before the return.
  unfoldable pub handle_termination : C → Phase W (Result ℕ Unit)
  handle_termination creds = do
    made ← parts.new_terminate creds
    terminator ← or_dpanic made
    parts.save_state terminator

  -- The deferred function of run: errors are logged.
  unfoldable pub clean_up : Phase W Unit
  clean_up = do _ ← parts.terminate_infrastructure; _ ← parts.terminate_connection; produce tt

  unfoldable pub run_steps : Phase W (Result ℕ Unit)
  run_steps = do
    created ← create_infrastructure
    nodes ← or_dpanic created
    bootstrapped ← bootstrap nodes
    creds ← or_dpanic bootstrapped
    installed ← install_applications creds
    _ ← or_dpanic installed
    _ ← parts.context_done
    handle_termination creds

  unfoldable pub run : Phase W (Result ℕ Unit)
  run = do instance ← parts.new_qemu; _ ← or_dpanic instance; deferred clean_up run_steps
