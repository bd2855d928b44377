-- ===== src/Ssh.antt =====
-- The ssh program: ssh/ldap, ssh/kubernetes and ssh/server.go.
pub mod Ldap
pub mod Auth
pub mod Kubernetes
pub mod Server
