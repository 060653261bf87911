-- ===== src/Store/Failure.antt =====
-- How a store call fails.
use kubernetes_agent.Base.{String}

-- `not_found` is ErrNotFound or ErrScheduledTaskNotFound, `constraint` a violated key or reference,
-- `encoding` an error of the YAML library.
pub data DbError : Type 0 where
  not_found constraint : DbError
  encoding : String → DbError
