-- ===== src/K8s.antt =====
-- internal/tools/k8s: operations, plans and their execution.
pub mod Read
pub mod Rebind
pub mod Op
pub mod Api
pub mod Resolver
pub mod Clients
pub mod Summary
pub mod Sends
pub mod Returns
pub mod Plan
pub mod Execute
pub mod Tests
