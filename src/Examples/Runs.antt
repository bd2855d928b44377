-- ===== src/Examples/Runs.antt =====
-- A run of the cli whose bootstrap fails: the state is the list of calls.
use delegatio.Common.{◌≡◌, refl, String, List, [], ◌∷◌, ◌++◌, some}
use delegatio.Common.Outcome.{ok, err}
use delegatio.Cli.{
  Phase, finished, Parts, run, run_steps, create_infrastructure, bootstrap, clean_up,
}
use delegatio.Cli.Steps.{last_state, CleanedUp, run_cleans_up}

abbrev note : {A : Type 0} → String → A → Phase (List String) A
note name a calls = finished a (calls ++ name ∷ [])

abbrev failing_cluster : Parts (List String) Unit Unit Unit Unit Unit Unit
failing_cluster = record {
  new_qemu = note "new" (ok tt);
  connect_with_infrastructure_service = note "connect" (ok tt);
  initialize_infrastructure = note "initialize" (ok tt);
  terminate_infrastructure = note "terminate" (err 3);
  terminate_connection = note "close" (ok tt);
  get_kube_init_config = note "document" (ok tt);
  new_kubernetes = λ nodes document. note "kubernetes" (ok tt);
  bootstrap_kubernetes = λ agent. note "bootstrap" (err 7);
  new_installer = note "installer" (ok tt);
  install_kubernetes_applications = λ i creds. note "install" (ok tt);
  context_done = note "done" tt;
  new_terminate = λ creds. note "terminator" (ok tt);
  save_state = λ t. note "save" (ok tt);
}

abbrev failing_calls : List String
failing_calls =
    "new" ∷ "connect" ∷ "initialize" ∷ "document" ∷ "kubernetes" ∷ "bootstrap" ∷ "terminate"
    ∷ "close" ∷ []

failing_run : last_state (run failing_cluster []) ≡ some failing_calls
unfolding run run_steps create_infrastructure bootstrap clean_up
failing_run = refl

run_cleans_up_example :
    (t : List String) × (last_state (run_steps failing_cluster ("new" ∷ [])) ≡ some t)
    × CleanedUp failing_cluster t failing_calls
run_cleans_up_example = run_cleans_up failing_cluster [] ("new" ∷ []) failing_calls refl failing_run
