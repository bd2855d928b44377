-- ===== src/Examples.antt =====
-- Runs of the properties at concrete stores, clusters and connections.
mod Memory
mod Stores
mod Clusters
mod Logins
mod Connections
mod Servers
mod Grading
mod Kube
mod Installing
mod Agents
mod Machines
mod Runs
mod Unread
