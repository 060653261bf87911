-- ===== src/Server/Query.antt =====
-- How listSessionsHandler of internal/server/handler_sessions.go reads its query.
use kubernetes_agent.Base.{
  ℕ, String, Bool, Option, none, some, ltb, nat_eq, ◌==◌, ◌||◌, if◌then◌else◌,
}
use kubernetes_agent.Text.{atoi}

abbrev pub session_list_limit : ℕ
session_list_limit = 100

abbrev pub checked_limit : Option (Bool × ℕ) → Option ℕ
checked_limit none = none
checked_limit (some (negative, n)) =
    if negative || nat_eq n 0 || ltb session_list_limit n then none else some n

-- the limit of a query: 1..100, or 100 if there is none
unfoldable pub limit_of : String → Option ℕ
unfolding atoi
limit_of s = if s == "" then some session_list_limit else checked_limit (atoi s)

-- -0 is 0
abbrev pub checked_offset : Option (Bool × ℕ) → Option ℕ
checked_offset none = none
checked_offset (some (negative, n)) =
    if negative then (if nat_eq n 0 then some 0 else none) else some n

unfoldable pub offset_of : String → Option ℕ
unfolding atoi
offset_of s = if s == "" then some 0 else checked_offset (atoi s)

abbrev pub or_default : String → String → String
or_default d s = if s == "" then d else s
