-- ===== src/Qemu.antt =====
-- cli/infrastructure/qemu: the virtual machines. libvirt, with the XML documents that it is given, is
-- the parameter `Libvirt` over a state `V`; its objects are handles. The wrappers of wrapper.go only
-- pass the calls on, and so do the deferred Free calls, which are left out.
pub mod Deletion
pub mod Upload
pub mod Address
pub mod Creation
use delegatio.Common.{
  ℕ, String, Bool, true, false, List, [], ◌∷◌, ◌++◌, Option, none, some, ◌||◌, ◌==◌, not,
  has_prefix, if◌then◌else◌,
}
use delegatio.Common.Outcome.{Result, ok, err, returns, Method, pure, on_ok, ◌>>=◌, ◌>>◌}

-- The lists are those of active networks and domains, and of pools of the kind dir.
pub record Libvirt (V : Type 0) : Type 0 where
  pub list_networks : Method V (Result ℕ (List ℕ))
  pub list_domains : Method V (Result ℕ (List ℕ))
  pub list_pools : Method V (Result ℕ (List ℕ))
  pub network_name : ℕ → Method V (Result ℕ String)
  pub domain_name : ℕ → Method V (Result ℕ String)
  pub pool_name : ℕ → Method V (Result ℕ String)
  pub network_destroy : ℕ → Method V (Result ℕ Unit)
  pub domain_destroy : ℕ → Method V (Result ℕ Unit)
  pub pool_is_active : ℕ → Method V (Result ℕ Bool)
  pub pool_volumes : ℕ → Method V (Result ℕ (List ℕ))
  pub volume_delete : ℕ → Method V (Result ℕ Unit)
  pub pool_destroy : ℕ → Method V (Result ℕ Unit)
  pub pool_delete : ℕ → Method V (Result ℕ Unit)
  pub pool_undefine : ℕ → Method V (Result ℕ Unit)

abbrev pub network_name_of_delegatio : String
network_name_of_delegatio = "delegatio-net"

abbrev pub disk_pool_name : String
disk_pool_name = "delegatio-pool"

abbrev pub domain_prefix_master : String
domain_prefix_master = "delegatio-master-"

abbrev pub domain_prefix_worker : String
domain_prefix_worker = "delegatio-worker-"

module _ {V : Type 0} where
  -- A loop over objects that the first error ends.
  pub for_each : List ℕ → (ℕ → Method V (Result ℕ Unit)) → Method V (Result ℕ Unit)
  for_each [] body = pure (ok tt)
  for_each (object ∷ objects) body = do r ← body object; on_ok r λ _. for_each objects body

  -- The body of deleteNetwork and deleteDomains: an object whose name is not selected is passed over.
  pub delete_selected :
      (ℕ → Method V (Result ℕ String))
      → (ℕ → Method V (Result ℕ Unit))
      → (String → Bool)
      → ℕ
      → Method V (Result ℕ Unit)
  delete_selected get_name destroy selected object = do
    name ← get_name object
    on_ok name λ n. if selected n then destroy object else pure (ok tt)

module _ {V : Type 0} (virt : Libvirt V) where
  unfoldable pub delete_network : Method V (Result ℕ Unit)
  unfolding for_each delete_selected
  delete_network = do
    nets ← virt.list_networks
    on_ok nets λ objects. for_each objects (
        delete_selected virt.network_name virt.network_destroy
          (λ n. n == network_name_of_delegatio))

  abbrev pub is_node : String → Bool
  is_node n = has_prefix n domain_prefix_master || has_prefix n domain_prefix_worker

  unfoldable pub delete_domains : Method V (Result ℕ Unit)
  unfolding for_each delete_selected
  delete_domains = do
    doms ← virt.list_domains
    on_ok doms
        λ objects. for_each objects (delete_selected virt.domain_name virt.domain_destroy is_node)

  unfoldable pub delete_volumes_from_pool : ℕ → Method V (Result ℕ Unit)
  unfolding for_each
  delete_volumes_from_pool pool = do
    volumes ← virt.pool_volumes pool
    on_ok volumes λ objects. for_each objects virt.volume_delete

  -- What an active pool wants before it can be undefined.
  empty_pool : Bool → ℕ → Method V (Result ℕ Unit)
  empty_pool false pool = pure (ok tt)
  empty_pool true pool = do
    emptied ← delete_volumes_from_pool pool
    on_ok emptied
        λ _. (do destroyed ← virt.pool_destroy pool; on_ok destroyed λ _. virt.pool_delete pool)

  delete_one_pool : ℕ → Method V (Result ℕ Unit)
  unfolding empty_pool
  delete_one_pool pool = do
    name ← virt.pool_name pool
    on_ok name λ n.
        if n == disk_pool_name
        then (do
          active ← virt.pool_is_active pool
          on_ok active
              λ a. (do emptied ← empty_pool a pool; on_ok emptied λ _. virt.pool_undefine pool))
        else pure (ok tt)

  unfoldable pub delete_pool : Method V (Result ℕ Unit)
  unfolding for_each delete_one_pool
  delete_pool = do pools ← virt.list_pools; on_ok pools λ objects. for_each objects delete_one_pool

  errors_of : Result ℕ Unit → List ℕ
  errors_of (ok _) = []
  errors_of (err e) = e ∷ []

  -- errors.Join: nil when all its arguments are nil.
  join : List ℕ → Result (List ℕ) Unit
  join [] = ok tt
  join (e ∷ es) = err (e ∷ es)

  unfoldable pub terminate_infrastructure : Method V (Result (List ℕ) Unit)
  unfolding errors_of join
  terminate_infrastructure = do
    nets ← delete_network
    doms ← delete_domains
    pools ← delete_pool
    pure (join (errors_of nets ++ errors_of doms ++ errors_of pools))
