-- ===== src/Cluster/Bound.antt =====
-- The role binding that the SSH server and the grader share.
use delegatio.Common.{◌≡◌, refl, ◌∙◌, String, List, [], ◌∷◌, ◌++◌, Option, none, some}
use delegatio.Common.Outcome.{Result, ok, err, returns, bind_step}
use delegatio.Cluster.{
  KubeError, not_found, cluster_role_binding, Subject, ClientGo, bind_subject,
  create_cluster_role_binding,
}

abbrev pub or_no_binding : Option (List Subject) → Result KubeError (List Subject)
or_no_binding none = err not_found
or_no_binding (some subjects) = ok subjects

abbrev pub subjects_of : Option (List Subject) → List Subject
subjects_of none = []
subjects_of (some subjects) = subjects

-- The binding at an API server that answers.
pub record BindingLaws {K : Type 0} (api : ClientGo K) : Type 1 where
  pub binding : K → Option (List Subject)
  pub get_law : (k : K) → api.get_binding k ≡ returns (or_no_binding (binding k)) k
  pub create_law :
      (ns name : String) (k : K)
      → binding k ≡ none
      → (k' : K) × (api.create (cluster_role_binding ns name) k ≡ returns (ok tt) k')
        × (binding k' ≡ some ((ns, name) ∷ []))
  pub update_law :
      (subjects old : List Subject) (k : K)
      → binding k ≡ some old
      → (k' : K) × (api.update_binding subjects k ≡ returns (ok tt) k')
        × (binding k' ≡ some subjects)

module _ {K : Type 0} (api : ClientGo K) (laws : BindingLaws api) where
  bound :
      (ns name : String) (k : K) (o : Option (List Subject))
      → laws.binding k ≡ o
      → (k' : K) × (bind_subject api ns name (or_no_binding o) k ≡ returns (ok tt) k')
        × (laws.binding k' ≡ some (subjects_of o ++ (ns, name) ∷ []))
  unfolding bind_subject
  bound ns name k none e = laws.create_law ns name k e
  bound ns name k (some old) e = laws.update_law (old ++ (ns, name) ∷ []) old k e

  -- At an API server that answers, CreateClusterRoleBinding succeeds whether or not the binding is
  -- there, and its subjects are then those that it had, in their order, followed by the new account.
  pub binding-create :
      (ns name : String) (k : K)
      → (k' : K) × (create_cluster_role_binding api ns name k ≡ returns (ok tt) k')
        × (laws.binding k' ≡ some (subjects_of (laws.binding k) ++ (ns, name) ∷ []))
  unfolding create_cluster_role_binding
  binding-create ns name k =
      let (k', done, after) = bound ns name k (laws.binding k) refl in
      (k', bind_step api.get_binding (bind_subject api ns name) (laws.get_law k) ∙ done, after)
