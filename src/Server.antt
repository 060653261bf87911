-- ===== src/Server.antt =====
-- internal/server: the handlers of the HTTP interface, but those of Agent.Resume and of
-- Scheduler.Handlers. A handler is a function of the decoded request and of the state.
mod Tests
pub mod Response
pub mod Query
pub mod Policies
pub mod Clusters
pub mod Sessions
pub mod Chat
