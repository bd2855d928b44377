-- ===== src/Bootstrap/Kubeadm/Joined.antt =====
-- When JoinClusterCoordinator succeeds.
use delegatio.Common.{◌≡◌, ◌↔◌, refl, ap, ◌∙◌, String, [], ◌∷◌}
use mathlib.Core.Path.{subst}
use delegatio.Common.GoMap.{GoMap}
use delegatio.Common.Outcome.{Result, ok, err, returns, ◌>>=◌, bind_returns, outcome_of}
use delegatio.Bootstrap.{JoinToken, BootstrapError, AgentClient, Bootstrapper}
use delegatio.Bootstrap.Kubeadm.{join_cluster, join_all, first_error, join_cluster_coordinator}

-- Each of the workers joined without an error, one after the other.
pub data AllJoined {W : Type 0} (agents : AgentClient W) (token : JoinToken)
    : GoMap String → Bootstrapper W → Bootstrapper W → Type 0 where
  no_worker : {b : Bootstrapper W} → AllJoined agents token [] b b
  worker :
      {name address : String} {workers : GoMap String} {b b1 b' : Bootstrapper W}
      → join_cluster agents name address token b ≡ returns (ok tt) b1
      → AllJoined agents token workers b1 b'
      → AllJoined agents token ((name, address) ∷ workers) b b'

module _ {W : Type 0} (agents : AgentClient W) (token : JoinToken) where
  first_error_ok :
      (r q : Result BootstrapError Unit)
      → first_error agents r q ≡ ok tt
      → (r ≡ ok tt) × (q ≡ ok tt)
  unfolding first_error
  first_error_ok (ok _) q h = (refl, h)
  first_error_ok (err e) q h = cc

  all_joined :
      (workers : GoMap String) (b b' : Bootstrapper W)
      → join_all agents workers token b ≡ returns (ok tt) b'
      → AllJoined agents token workers b b'
  unfolding join_all
  all_joined [] b b' h = subst (λ t. AllJoined agents token [] b t) (outcome_of h).1 no_worker
  all_joined ((name, address) ∷ workers) b b' h =
      let (first, b1, ran1, rest1) = bind_returns (join_cluster agents name address token) _ b h in
      let (others, b2, ran2, rest2) = bind_returns (join_all agents workers token) _ b1 rest1 in
      let both = first_error_ok first others (outcome_of rest2).0 in
      let last : join_all agents workers token b1 ≡ returns (ok tt) b' =
        ran2 ∙ ap (λ r. returns r b2) both.1 ∙ ap (λ t. returns (ok tt) t) (outcome_of rest2).1 in
      worker (ran1 ∙ ap (λ r. returns r b1) both.0) (all_joined workers b1 b' last)

  joined_all :
      (workers : GoMap String) (b b' : Bootstrapper W)
      → AllJoined agents token workers b b'
      → join_all agents workers token b ≡ returns (ok tt) b'
  unfolding join_all first_error
  joined_all [] b b' no_worker = refl
  joined_all ((name, address) ∷ workers) b b' (worker {b1 = b1} h rest) =
      rw (h, ◌>>=◌) (rw (joined_all workers b1 b' rest, ◌>>=◌) refl)

  -- The joining of the cluster succeeds exactly when every worker, each in the state that those before
  -- it leave, runs kubeadm join without an error: the error of one of them is never lost.
  pub join_cluster_coordinator_lem :
      (b b' : Bootstrapper W)
      → (join_cluster_coordinator agents token b ≡ returns (ok tt) b')
        ↔ AllJoined agents token b.worker_ips b b'
  unfolding join_cluster_coordinator
  join_cluster_coordinator_lem b b' = (all_joined b.worker_ips b b', joined_all b.worker_ips b b')
