-- ===== src/Qemu/Address/Found.antt =====
-- Which addresses the loops of cli/infrastructure/qemu find.
use delegatio.Common.{
  ℕ, zero, suc, ◌+◌, ◌≤◌, ◌<◌, ◌≡◌, ◌≢◌, refl, sym, ap, ◌∙◌, String, Bool, true, false, List, [],
  ◌∷◌, ◌++◌, Option, none, some, is_some, ◌<>◌, ◌==◌, eq_iff, eq_refl, eqb, arith, map,
  if◌then◌else◌, Bool-cases, inl, inr,
}
use mathlib.Core.Path.{subst}
use delegatio.Common.GoMap
use delegatio.Common.GoMap.{GoMap}
use delegatio.Common.Outcome.{Result, ok, err}
use delegatio.Qemu.{domain_prefix_worker}
use delegatio.Qemu.Address.{
  DomainInterface, last_addr, last_ipv4, NodeError, NetworkEvent, listed, poll_network, on_listed,
  worker_ips_from, get_worker_instance_ips,
}

abbrev pub ipv4_of : List (Bool × String) → List String
ipv4_of [] = []
ipv4_of ((true, addr) ∷ addrs) = addr ∷ ipv4_of addrs
ipv4_of ((false, addr) ∷ addrs) = ipv4_of addrs

-- All addresses of type IPv4 of the interfaces other than lo, in their order.
abbrev pub candidates : List DomainInterface → List String
candidates [] = []
candidates (iface ∷ ifaces) =
    let others = candidates ifaces in
    if iface.name == "lo" then others else ipv4_of iface.addrs ++ others

abbrev pub last_or : String → List String → String
last_or first [] = first
last_or first (addr ∷ addrs) = last_or addr addrs

last_addr_lem :
    (addrs : List (Bool × String)) (others : List String) (ip : String)
    → last_or (last_addr addrs ip) others ≡ last_or ip (ipv4_of addrs ++ others)
unfolding last_addr
last_addr_lem [] others ip = refl
last_addr_lem ((true, addr) ∷ addrs) others ip = last_addr_lem addrs others addr
last_addr_lem ((false, addr) ∷ addrs) others ip = last_addr_lem addrs others ip

-- The loops over the interfaces keep the last of all their addresses of type IPv4, those of the
-- interface lo left out, and what they began with if there is none.
pub last_ipv4_lem :
    (ifaces : List DomainInterface) (ip : String)
    → last_ipv4 ifaces ip ≡ last_or ip (candidates ifaces)
unfolding last_ipv4
last_ipv4_lem [] ip = refl
last_ipv4_lem (iface ∷ ifaces) ip = elim (Bool-cases (iface.name == "lo")) [
  | inl lo ↦ rw lo (last_ipv4_lem ifaces ip)
  | inr e ↦ rw e (
      last_ipv4_lem ifaces (last_addr iface.addrs ip)
      ∙ last_addr_lem iface.addrs (candidates ifaces) ip)
]

-- Turns in which no interface other than lo has an address of type IPv4.
abbrev pub AllUnready : List (List DomainInterface) → Type 0
AllUnready [] = Unit
AllUnready (ifaces ∷ turns) = (last_or "" (candidates ifaces) ≡ "") × AllUnready turns

-- However many turns list no address of type IPv4 outside of the interface lo: once a turn lists such
-- addresses, and the last of them is not empty, the wait for the network ends with that last one.
pub poll_network_lem :
    (turns : List (List DomainInterface)) (ifaces : List DomainInterface) (rest : List NetworkEvent)
    → AllUnready turns
    → last_or "" (candidates ifaces) ≢ ""
    → poll_network (map (λ t. listed (ok t)) turns ++ listed (ok ifaces) ∷ rest)
      ≡ some (ok (last_or "" (candidates ifaces)))
unfolding poll_network on_listed
poll_network_lem [] ifaces rest unready ready =
    let found = last_ipv4_lem ifaces "" in
    elim (Bool-cases (last_or "" (candidates ifaces) == "")) [
      | inl e ↦ absurd (ready ((eq_iff (last_or "" (candidates ifaces)) "").0 e))
      | inr e ↦ rw (found, e) refl
    ]
poll_network_lem (turn ∷ turns) ifaces rest (here, unready) ready =
    rw (last_ipv4_lem turn "", here) (poll_network_lem turns ifaces rest unready ready)

eqb_sym : (k id : ℕ) → eqb k id ≡ true → id ≡ k
eqb_sym k id e = ground arith

abbrev answered : Option String → Option (Result NodeError String)
answered none = none
answered (some ip) = some (ok ip)

still :
    (b : Bool) (ip : String) (o : Option String)
    → is_some o ≡ true
    → is_some (if b then some ip else o) ≡ true
still true ip o there = refl
still false ip o there = there

after_wait :
    (o : Option (Result NodeError String))
    (next : String → Option (Result NodeError (GoMap String))) (out : GoMap String)
    → (elim o [ none ↦ none | some (err e) ↦ some (err e) | some (ok ip) ↦ next ip ])
      ≡ some (ok out)
    → (ip : String) × (o ≡ some (ok ip)) × (next ip ≡ some (ok out))
after_wait none next out h = cc
after_wait (some (err e)) next out h = cc
after_wait (some (ok ip)) next out h = (ip, refl, h)

-- The name of the worker with a number.
abbrev pub worker : (ℕ → String) → ℕ → String
worker itoa id = domain_prefix_worker <> itoa id

module _ (itoa : ℕ → String) (wait : String → Option (Result NodeError String)) where
  -- Each address in the map is the one that the wait for its worker ended with.
  abbrev AllWaited : GoMap String → Type 0
  AllWaited ips = (node ip : String) → GoMap.lookup node ips ≡ some ip → wait node ≡ some (ok ip)

  AllWaited-insert :
      (node ip : String) (ips : GoMap String)
      → wait node ≡ some (ok ip)
      → AllWaited ips
      → AllWaited (GoMap.insert node ip ips)
  AllWaited-insert node ip ips e waited j found h = elim (Bool-cases (node == j)) [
    | inl same ↦
        let read : some ip ≡ some found =
          sym (GoMap.lookup-insert node j ip ips ∙ rw same refl) ∙ h in
        ap wait (sym ((eq_iff node j).0 same)) ∙ e ∙ ap answered read
    | inr differ ↦ waited j found (sym (GoMap.lookup-insert node j ip ips ∙ rw differ refl) ∙ h)
  ]

  worker_ips_lem :
      (rest id : ℕ) (ips out : GoMap String)
      → worker_ips_from itoa wait rest id ips ≡ some (ok out)
      → AllWaited ips
      → AllWaited out
        × ((k : ℕ) → id ≤ k → k < id + rest → is_some (GoMap.lookup (worker itoa k) out) ≡ true)
        × ((node : String)
            → is_some (GoMap.lookup node ips) ≡ true
            → is_some (GoMap.lookup node out) ≡ true)
  unfolding worker_ips_from
  worker_ips_lem zero id ips out h waited =
      let same : ips ≡ out = cc in
      (
        subst AllWaited same waited,
        λ k low high. absurd (omega (arith, low, high)),
        λ node there. subst (λ t. is_some (GoMap.lookup node t) ≡ true) same there,
      )
  worker_ips_lem (suc rest) id ips out h waited =
      let (ip, e, next) = after_wait (wait (worker itoa id)) _ out h in
      let (all, each, kept) =
        worker_ips_lem rest (suc id) (GoMap.insert (worker itoa id) ip ips) out next
          (AllWaited-insert (worker itoa id) ip ips e waited) in
      let added : (node : String)
          → is_some (GoMap.lookup node ips) ≡ true
          → is_some (GoMap.lookup node (GoMap.insert (worker itoa id) ip ips)) ≡ true =
        λ node there.
          ap is_some (GoMap.lookup-insert (worker itoa id) node ip ips)
          ∙ still (worker itoa id == node) ip _ there in
      let here : is_some (GoMap.lookup (worker itoa id) (GoMap.insert (worker itoa id) ip ips))
          ≡ true =
        let found : GoMap.lookup (worker itoa id) (GoMap.insert (worker itoa id) ip ips) ≡ some ip =
          GoMap.lookup-insert (worker itoa id) (worker itoa id) ip ips
          ∙ rw (eq_refl (worker itoa id)) refl in
        ap is_some found in
      (
        all,
        λ k low high. elim (Bool-cases (eqb k id)) [
          | inl same ↦
              subst (λ t. is_some (GoMap.lookup (worker itoa t) out) ≡ true) (eqb_sym k id same)
                (kept (worker itoa id) here)
          | inr differ ↦ each k (ground (arith, low, differ)) (omega (arith, high))
        ],
        λ node there. kept node (added node there),
      )

  -- When getWorkerInstanceIPs succeeds, the map has an address for each worker, and each address in it
  -- is the one that the wait for that worker's network ended with.
  pub get_worker_instance_ips_lem :
      (number : ℕ) (out : GoMap String)
      → get_worker_instance_ips itoa wait number ≡ some (ok out)
      → ((node ip : String) → GoMap.lookup node out ≡ some ip → wait node ≡ some (ok ip))
        × ((k : ℕ) → k < number → is_some (GoMap.lookup (worker itoa k) out) ≡ true)
  unfolding get_worker_instance_ips GoMap.lookup
  get_worker_instance_ips_lem number out h =
      let (all, each, kept) = worker_ips_lem number 0 [] out h (λ node ip found. cc) in
      (all, λ k low. each k (omega arith) (omega (arith, low)))
