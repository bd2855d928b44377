-- ===== src/Qemu/Address.antt =====
-- The addresses of the machines: block.go, and getControlPlaneIP and getWorkerInstanceIPs of util.go.
pub mod Found
use delegatio.Common.{
  ℕ, zero, suc, ◌+◌, ◌≡◌, ◌≢◌, refl, sym, ap, ◌∙◌, String, Bool, true, false, List, [], ◌∷◌, ◌++◌,
  Option, none, some, ◌<>◌, ◌==◌, eq_iff, arith, map, not, if◌then◌else◌, Bool-cases, inl, inr,
}
use delegatio.Common.GoMap
use delegatio.Common.GoMap.{GoMap}
use delegatio.Common.Outcome.{
  Result, ok, err, Outcome, returns, blocks, Method, pure, on_ok, bind_result, ◌>>=◌, ◌>>◌,
}
use delegatio.Qemu.{domain_prefix_master, domain_prefix_worker}

-- libvirt.DomainInterface: its name and its addresses, with whether each is of type IPv4.
pub record DomainInterface : Type 0 where
  pub name : String
  pub addrs : List (Bool × String)

last_addr : List (Bool × String) → String → String
last_addr [] ip = ip
last_addr ((true, addr) ∷ addrs) ip = last_addr addrs addr
last_addr ((false, addr) ∷ addrs) ip = last_addr addrs ip

-- The two loops over the interfaces, which keep the last address of type IPv4.
unfoldable pub last_ipv4 : List DomainInterface → String → String
unfolding last_addr
last_ipv4 [] ip = ip
last_ipv4 (iface ∷ ifaces) ip =
    if iface.name == "lo" then last_ipv4 ifaces ip else last_ipv4 ifaces (last_addr iface.addrs ip)

pub data NodeError : Type 0 where
  of_libvirt : ℕ → NodeError
  no_address : NodeError
  node_context_ended : NodeError
  dial_failed : ℕ → NodeError

-- `len(ip) == 0`
address_of : String → Result NodeError String
address_of ip = if ip == "" then err no_address else ok ip

unfoldable pub get_control_plane_ip :
    (String → Result NodeError ℕ)
    → (ℕ → Result NodeError (List DomainInterface))
    → Result NodeError String
unfolding address_of
get_control_plane_ip lookup interfaces =
    bind_result (lookup (domain_prefix_master <> "0"))
      λ domain. bind_result (interfaces domain) λ ifaces. address_of (last_ipv4 ifaces "")

-- What a turn of blockUntilNetworkIsReady meets: what libvirt lists, or the end of the context.
pub data NetworkEvent : Type 0 where
  listed : Result NodeError (List DomainInterface) → NetworkEvent
  network_context_done : NetworkEvent

on_listed :
    Result NodeError (List DomainInterface)
    → Option (Result NodeError String)
    → Option (Result NodeError String)
on_listed (err e) rest = some (err e)
on_listed (ok ifaces) rest = let ip = last_ipv4 ifaces "" in if ip == "" then rest else some (ok ip)

-- Once there is an answer it is `some`; with no further event the loop goes on.
unfoldable pub poll_network : List NetworkEvent → Option (Result NodeError String)
unfolding on_listed
poll_network [] = none
poll_network (network_context_done ∷ events) = some (err node_context_ended)
poll_network (listed r ∷ events) = on_listed r (poll_network events)

unfoldable pub block_until_network_is_ready :
    (String → Result NodeError ℕ)
    → (ℕ → List NetworkEvent)
    → String
    → Option (Result NodeError String)
unfolding poll_network
block_until_network_is_ready lookup turns id = elim (lookup id) [
  | err e ↦ some (err e)
  | ok domain ↦ poll_network (turns domain)
]

-- Whether ExecCommand went through, or the end of the context.
pub data AgentEvent : Type 0 where
  executed : Bool → AgentEvent
  agent_context_done : AgentEvent

unfoldable pub poll_agent : List AgentEvent → Option (Result NodeError Unit)
poll_agent [] = none
poll_agent (agent_context_done ∷ events) = some (err node_context_ended)
poll_agent (executed true ∷ events) = some (ok tt)
poll_agent (executed false ∷ events) = poll_agent events

-- blockUntilDelegatioAgentIsReady, with what the dial to an address returns.
unfoldable pub block_until_agent_is_ready :
    (String → Result NodeError ℕ)
    → (ℕ → Result NodeError (List DomainInterface))
    → (String → Result NodeError Unit)
    → List AgentEvent
    → String
    → Option (Result NodeError Unit)
unfolding poll_agent address_of
block_until_agent_is_ready lookup interfaces dial turns id =
    elim (bind_result (lookup id) λ domain.
      bind_result (interfaces domain)
        λ ifaces. bind_result (address_of (last_ipv4 ifaces "")) dial) [
          | err e ↦ some (err e)
          | ok _ ↦ poll_agent turns
        ]

-- The loop over the workers; `wait` is blockUntilNetworkIsReady. `rest` is the number of those left.
worker_ips_from :
    (ℕ → String)
    → (String → Option (Result NodeError String))
    → ℕ
    → ℕ
    → GoMap String
    → Option (Result NodeError (GoMap String))
worker_ips_from itoa wait zero id ips = some (ok ips)
worker_ips_from itoa wait (suc rest) id ips =
    let node = domain_prefix_worker <> itoa id in
    elim (wait node) [
      | none ↦ none
      | some (err e) ↦ some (err e)
      | some (ok ip) ↦ worker_ips_from itoa wait rest (suc id) (GoMap.insert node ip ips)
    ]

unfoldable pub get_worker_instance_ips :
    (ℕ → String)
    → (String → Option (Result NodeError String))
    → ℕ
    → Option (Result NodeError (GoMap String))
unfolding worker_ips_from
get_worker_instance_ips itoa wait number = worker_ips_from itoa wait number 0 []
