-- ===== src/Skills.antt =====
-- internal/tools/agent and internal/skills: what the model may read of the file system.
pub mod Paths
pub mod FsRead
pub mod Frontmatter
pub mod Loader
mod Tests
