-- ===== src/Lib.antt =====
-- delegatio: an SSH server that gives every student a container of a Kubernetes cluster, with the store
-- of its users and challenges and a grader of exercises. This library models the parts that decide
-- what is stored, who gets in, what a connection does and which marks are given.
--
-- The parts and their files, with paths from the repository's root:
--   Store            internal/store/store.go: errors, the interface and the iterators. Store/Contract is
--                    the abstract specification: a store is a view from keys to values.
--   Store/Std        internal/store/stdstore.go. The maps live in a heap, since Commit shares one; the
--                    mutexes are flags. Get, Put, Delete, Iterator, BeginTransaction and the methods of a
--                    transaction are get, put, delete, iterator, begin_transaction and tx_*.
--   Store/Etcd       internal/store/etcdstore.go, with the same names, over a Client. Store/Etcd/Cluster
--                    states what is relied on of it while the cluster answers. Keys of
--                    locks stand under the store's prefix and a slash.
--   StoreWrapper     internal/storewrapper/storewrapper.go, over any store that keeps the contract.
--   Config           internal/config: the shared records and constants.
--   Ssh/Ldap         ssh/ldap/ldap.go.
--   Ssh/Auth         the callbacks of ssh/server.go that let a user in.
--   Ssh/Server       the accept loop of ssh/server.go and its counters, as a step relation.
--   Ssh/Kubernetes   ssh/kubernetes/api.go.
--   Connection       ssh/connection/connection.go and builder.go. Connection/Drain is the loop over new
--                    channels, a step relation, since its goroutines run beside it.
--   Channels         ssh/connection/channels and ssh/connection/payload: the queue of terminal sizes, the
--                    builder, the callbacks of the two kinds of channel, and their goroutines.
--   Grader           grader/gradeapi/request.go, and graders.go and type1.go of its folder graders.
--   Agent            agent/vmapi: Exec is exec.go, Client is vmapi.go, Files is file.go; Decimal has the
--                    printed exit codes, Session both sides together.
--   Qemu             cli/infrastructure/qemu: delete.go, and with child modules Upload and Address (util.go,
--                    block.go) and Creation (create.go, qemu.go).
--   Bootstrap        cli/bootstrapper/kubernetes: Kubeadm is exec.go, Credentials get.go, generate.go and
--                    write.go, Order kubernetes.go.
--   Cluster          internal/k8sapi: the helpers around client-go.
--   Installer        cli/installer/installer.go, and what cli/terminate saves.
--   Cli              cli/run.go: the order of the steps; Steps is what they have done at the end.
--   Examples         runs at concrete stores, clusters, directories and connections.
--
-- A server authenticates by Ssh/Auth over StoreWrapper over a store; the permissions that it gives go to
-- the handler that Connection builds; that one serves channels, whose goroutines ask the cluster and the
-- agent in the user's pod. The command line makes machines (Qemu), a cluster on them (Bootstrap) and the
-- applications in it (Installer), which write the store and the credentials that the server reads.
--
-- A method is a function from a state to an Outcome (Common/Outcome): it returns a value beside the new
-- state, waits for ever, or panics. Go's pair of a value and an error is a Result. A Go map is an
-- association list; statements about a range count keys, since Go leaves its order open.
--
-- Bounds: sizes of a terminal are cut to 16 bits (u16); other integers stay small. Loops over an iterator
-- run on fuel, one more than the keys of the iterator, which is enough since each turn takes a key.
-- Loops over events are structural in the list of events, and wait when it is empty.
--
-- Parameters, since they are not in the repository: the etcd client, the ldap library, encoding/json
-- (Codec), ssh.Unmarshal (Wire), the handshake, client-go (ClientGo), libvirt, kubeadm's packages, the
-- gRPC calls, processes and file systems. What is relied on of them is a record of laws, which Examples
-- fills with servers, stores and files in memory. The goroutines of an errgroup are taken one after the
-- other, in the order in which they end. The parts of cli/run.go are an interface, as its Infrastructure
-- is in the code, and so are the calls of the cluster that ssh/kubernetes/api.go makes.
--
-- Not modelled: the start of the services and the flags and signals of cli/main.go, the helm installer,
-- the literal templates, XML and kubeadm documents, exec and port forwarding of client-go, the programs
-- that the grader runs, and generated code: they are I/O, data, or calls of other libraries.
pub mod Common
pub mod Store
pub mod Config
pub mod StoreWrapper
pub mod Ssh
pub mod Agent
pub mod Bootstrap
pub mod Cli
pub mod Cluster
pub mod Installer
pub mod Qemu
pub mod Channels
pub mod Connection
pub mod Grader
pub mod Examples
