-- ===== src/Agent.antt =====
-- internal/agent: the sessions that a turn waits on, the tools, and their resume endpoint in
-- internal/server.
pub mod Session
pub mod Resume
pub mod PlanTurn
pub mod AskTurn
pub mod Tools
pub mod Transcript
pub mod History
pub mod Runner
pub mod Tests
