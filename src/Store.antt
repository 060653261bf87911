-- ===== src/Store.antt =====
-- internal/store: the tables as lists of rows in insertion order, and each SQL statement of the
-- code as a function on them. A statement fails only where the schema of migrations.go makes it.
pub mod Failure
pub mod Audit
pub mod Clusters
pub mod Policies
pub mod Plans
pub mod Messages
pub mod Sessions
pub mod Tests
