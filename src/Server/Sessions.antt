-- ===== src/Server/Sessions.antt =====
-- internal/server/handler_sessions.go, but the export.
pub mod Page
pub mod Kept
use kubernetes_agent.Base.{
  ℕ, String, Bool, true, false, List, [], ◌∷◌, Option, none, some, Result, ok, err, map, length,
  ltb, leb, nat_eq, is_some, ◌==◌, ◌||◌, if◌then◌else◌,
}
use kubernetes_agent.Text.{atoi, is_blank}
use kubernetes_agent.Store.Failure.{DbError, not_found}
use kubernetes_agent.Store.Messages.{Message, SessionRow, list_messages_by_session}
use kubernetes_agent.Store.Sessions.{
  SessionTables, create_session, session_with, list_sessions_filtered, update_session_title,
  delete_session, delete_sessions_without_scheduled_tasks,
}
use kubernetes_agent.Scheduler.Tasks.{ScheduledTask, tasks_of}
use kubernetes_agent.Agent.Session.{Sessions, lookup}
use kubernetes_agent.Server.Query.{limit_of, offset_of, or_default}
use kubernetes_agent.Server.Response.{Reply, view, failure, invalid_json, internal}

pub record SessionView : Type 0 where
  pub id : String
  pub title : String
  pub cluster_id : Option String
  pub created_at : ℕ
  pub updated_at : ℕ

abbrev pub to_session_view : SessionRow → SessionView
to_session_view s = record {
  id = s.id;
  title = s.title;
  cluster_id = s.cluster_id;
  created_at = s.created_at;
  updated_at = s.updated_at;
}

pub record MessageView : Type 0 where
  pub id : String
  pub role : String
  pub content : Option String
  pub tool_calls : Option String
  pub tool_call_id : Option String
  pub reasoning : Option String
  pub created_at : ℕ

abbrev pub to_message_view : Message → MessageView
to_message_view m = record {
  id = m.id;
  role = m.role;
  content = m.content;
  tool_calls = m.tool_calls;
  tool_call_id = m.tool_call_id;
  reasoning = m.reasoning;
  created_at = m.created_at;
}

-- what the handlers of the sessions answer with: a session, the number deleted, and for a bulk
-- deletion the number of tasks too
pub data Answer : Type 0 where
  session_view : SessionView → Answer
  deleted : ℕ → Answer
  bulk_deleted : ℕ → ℕ → Answer

module _ (like : String → String → Bool) (title_le : String → String → Bool) where
  -- listSessionsHandler
  unfoldable pub list_sessions_handler :
      String → String → String → String → String → List SessionRow → Reply (List SessionView)
  unfolding limit_of offset_of list_sessions_filtered
  list_sessions_handler q sort order limit offset rows = elim (limit_of limit) [
    | none ↦ failure 400 "invalid_limit" false
    | some n ↦ elim (offset_of offset) [
      | none ↦ failure 400 "invalid_offset" false
      | some m ↦
          elim (list_sessions_filtered like title_le q (or_default "updated_at" sort)
            (or_default "desc" order) n m rows) [
              | err e ↦ failure 400 "invalid_sort" false
              | ok page ↦ view 200 (map to_session_view page)
            ]
    ]
  ]

pub record SessionService : Type 0 where
  pub tables : SessionTables
  pub clusters : List String
  pub tasks : List ScheduledTask
  pub live : Option Sessions

abbrev pub with_tables : SessionService → SessionTables → SessionService
with_tables s t = record s { tables = t }

abbrev pub with_sessions : SessionService → List SessionRow → SessionService
with_sessions s rows = record s { tables = record (s.tables) { sessions = rows } }

abbrev pub not_there {ℓ} : {View : Type ℓ} → DbError → Reply View
not_there not_found = failure 404 "not_found" false
not_there e = internal

pub record CreateSessionRequest : Type 0 where
  pub title : String
  pub cluster_id : Option String

abbrev pub session_row : String → CreateSessionRequest → SessionRow
session_row id r = record {
  id = id;
  title = r.title;
  cluster_id = r.cluster_id;
  created_at = 0;
  updated_at = 0;
}

-- createSessionHandler, once the body is decoded
unfoldable pub create_session_handler :
    ℕ → String → CreateSessionRequest → SessionService → Reply Answer × SessionService
unfolding create_session
create_session_handler now id r s =
    elim (create_session now s.clusters (session_row id r) s.tables.sessions) [
      | err e ↦ (internal, s)
      | ok rows ↦
          (view 201 (session_view (to_session_view (session_row id r))), with_sessions s rows)
    ]

-- getSessionHandler
unfoldable pub get_session_handler : String → SessionService → Reply SessionView
unfolding session_with
get_session_handler id s = elim (session_with id s.tables.sessions) [
  | err e ↦ not_there e
  | ok row ↦ view 200 (to_session_view row)
]

-- listMessagesHandler
unfoldable pub list_messages_handler : String → SessionService → Reply (List MessageView)
unfolding session_with list_messages_by_session
list_messages_handler id s = elim (session_with id s.tables.sessions) [
  | err e ↦ not_there e
  | ok row ↦ view 200 (map to_message_view (list_messages_by_session id s.tables.messages))
]

-- the end of putSessionHandler: the session is read again
unfoldable pub renamed : String → List SessionRow → SessionService → Reply Answer × SessionService
unfolding session_with
renamed id rows s = elim (session_with id rows) [
  | err e ↦ (internal, with_sessions s rows)
  | ok row ↦ (view 200 (session_view (to_session_view row)), with_sessions s rows)
]

-- putSessionHandler, once the body is decoded
unfoldable pub put_session_handler :
    ℕ → String → String → SessionService → Reply Answer × SessionService
unfolding is_blank update_session_title renamed
put_session_handler now id title s =
    if is_blank title
    then (failure 422 "invalid_title" false, s)
    else elim (update_session_title now id title s.tables.sessions) [
      | err e ↦ (not_there e, s)
      | ok rows ↦ renamed id rows s
    ]

abbrev pub is_live : String → Option Sessions → Bool
is_live id none = false
is_live id (some m) = is_some (lookup id m)

-- deleteSessionHandler
unfoldable pub delete_session_handler : String → SessionService → Reply Answer × SessionService
unfolding lookup tasks_of delete_session
delete_session_handler id s =
    if is_live id s.live
    then (failure 409 "session_active" false, s)
    else if ltb 0 (length (tasks_of id s.tasks))
    then (failure 409 "has_scheduled_tasks" false, s)
    else elim (delete_session id s.tables) [
      | err e ↦ (not_there e, s)
      | ok (n, t) ↦ (view 200 (deleted n), with_tables s t)
    ]

abbrev pub session_of : ScheduledTask → String
session_of t = t.session_id

-- bulkDeleteSessionsHandler: what it reports as kept is the number of tasks
unfoldable pub bulk_delete_handler : SessionService → Reply Answer × SessionService
unfolding tasks_of delete_sessions_without_scheduled_tasks
bulk_delete_handler s =
    let r = delete_sessions_without_scheduled_tasks (map session_of s.tasks) s.tables in
    (view 200 (bulk_deleted r.0 (length (tasks_of "" s.tasks))), with_tables s r.1)

-- the requests that change a session; a body is `none` where it is not JSON
pub data SessionRequest : Type 0 where
  create : Option CreateSessionRequest → SessionRequest
  rename : String → Option String → SessionRequest
  delete : String → SessionRequest
  bulk_delete : SessionRequest

unfoldable pub serve_session :
    ℕ → String → SessionRequest → SessionService → Reply Answer × SessionService
unfolding create_session_handler put_session_handler delete_session_handler bulk_delete_handler
serve_session now fresh (create none) s = (invalid_json, s)
serve_session now fresh (create (some r)) s = create_session_handler now fresh r s
serve_session now fresh (rename id none) s = (invalid_json, s)
serve_session now fresh (rename id (some title)) s = put_session_handler now id title s
serve_session now fresh (delete id) s = delete_session_handler id s
serve_session now fresh bulk_delete s = bulk_delete_handler s
