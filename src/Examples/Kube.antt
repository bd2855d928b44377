-- ===== src/Examples/Kube.antt =====
-- An API server in memory, which shows that what the installer relies on can hold.
use delegatio.Common.{
  ◌≡◌, refl, String, List, [], ◌∷◌, Option, none, some, ◌==◌, ◌&&◌, eq_refl, if◌then◌else◌,
}
use delegatio.Common.GoMap.{GoMap}
use delegatio.Common.Outcome.{Outcome, returns, Result, ok}
use delegatio.Cluster.{
  KubeError, KubeObject, config_map, cluster_role_binding, PodPhase, Subject, ClientGo,
}
use delegatio.Cluster.Bound.{BindingLaws, or_no_binding}
use delegatio.Installer.Configured.{ConfigMapLaws, or_not_found}

pub record Kube : Type 0 where
  pub maps : String → String → Option (GoMap String)
  pub binding : Option (List Subject)

abbrev pub set_map : String → String → GoMap String → Kube → Kube
set_map ns name m k = record k {
  maps = λ ns' name'. if (ns == ns') && (name == name') then some m else k.maps ns' name';
}

abbrev pub create_in : KubeObject → Kube → Outcome Kube (Result KubeError Unit)
create_in (config_map ns name) k = returns (ok tt) (set_map ns name [] k)
create_in (cluster_role_binding ns name) k =
    returns (ok tt) (record k { binding = some ((ns, name) ∷ []) })
create_in _ k = returns (ok tt) k

abbrev pub server : ClientGo Kube
server = record {
  create = create_in;
  get_config_map = λ ns name k. returns (or_not_found (k.maps ns name)) k;
  update_config_map = λ ns name m k. returns (ok tt) (set_map ns name m k);
  get_binding = λ k. returns (or_no_binding k.binding) k;
  update_binding = λ subjects k. returns (ok tt) (record k { binding = some subjects });
  get_namespace = λ ns k. returns (ok tt) k;
  get_stateful_set = λ ns name k. returns (ok tt) k;
  get_pod = λ ns name k. returns (ok PodPhase.running) k;
  poll_immediate = λ seconds condition k. returns (ok tt) k;
  poll = λ seconds condition k. returns (ok tt) k;
}

pub set_map_here :
    (ns name : String) (m : GoMap String) (k : Kube) → (set_map ns name m k).maps ns name ≡ some m
set_map_here ns name m k = rw (eq_refl ns, eq_refl name) refl

abbrev pub server_laws : ConfigMapLaws server
server_laws = record {
  view = λ k ns name. k.maps ns name;
  get_law = λ ns name k. refl;
  create_law = λ ns name k fresh. (set_map ns name [] k, refl, set_map_here ns name [] k);
  update_law = λ ns name m k there. (set_map ns name m k, refl, set_map_here ns name m k);
}

abbrev pub binding_laws : BindingLaws server
binding_laws = record {
  binding = λ k. k.binding;
  get_law = λ k. refl;
  create_law = λ ns name k fresh. (record k { binding = some ((ns, name) ∷ []) }, refl, refl);
  update_law = λ subjects old k there. (record k { binding = some subjects }, refl, refl);
}

abbrev pub fresh_kube : Kube
fresh_kube = record { maps = λ ns name. none; binding = none }
