-- ===== src/Policy.antt =====
-- internal/policy: the guardrail engine.
pub mod Rules
pub mod JsonPath
pub mod Engine
pub mod FirstMatch
pub mod Defaults
pub mod Reload
pub mod Stored
pub mod Wildcard
pub mod Tests
