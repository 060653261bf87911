-- ===== src/Scheduler/Handlers.antt =====
-- The create, update, delete and run handlers of internal/server/scheduled.go, with the scheduler's
-- jobs. JSON decoding is outside: a request is what the decoder gives, if it reads the body.
pub mod Jobs
use kubernetes_agent.Base.{
  ℕ, String, Bool, true, false, List, Option, none, some, ◌≡◌, Result, ok, err, ◌==◌, if◌then◌else◌,
}
use kubernetes_agent.Store.Failure.{DbError, not_found}
use kubernetes_agent.Scheduler.Tasks.{
  ScheduledTask, Db, create_scheduled_task, get_scheduled_task, update_scheduled_task,
  delete_scheduled_task,
}
use kubernetes_agent.Scheduler.Trigger.{Fresh, TriggerError, trigger_task}
use kubernetes_agent.Scheduler.Entries.{Entry, Unscheduled, schedule_task}

pub record CreateRequest : Type 0 where
  pub name : String
  pub prompt : String
  pub cron_expr : Option String
  pub once_at : Option ℕ
  pub session_id : String
  pub cluster_id : Option String
  pub created_by : String

pub record UpdateRequest : Type 0 where
  pub enabled : Option Bool
  pub name : Option String
  pub cron_expr : Option String

-- the replies 400, 404, 500 and 200
pub data Reply : Type 0 where
  bad_request missing internal : Reply
  done : Reply
  task_reply : ScheduledTask → Reply

-- the checks of a create request
unfoldable pub valid : CreateRequest → Bool
valid r =
    if r.session_id == ""
    then false
    else if r.name == ""
    then false
    else if r.prompt == ""
    then false
    else elim r.cron_expr [
      | some expr ↦ true
      | none ↦ elim r.once_at [ some at ↦ true | none ↦ false ]
    ]

abbrev pub new_task : String → ℕ → CreateRequest → ScheduledTask
new_task id now r = record {
  id = id;
  name = r.name;
  prompt = r.prompt;
  cron_expr = r.cron_expr;
  once_at = r.once_at;
  session_id = r.session_id;
  enabled = true;
  created_by = r.created_by;
  cluster_id = r.cluster_id;
  created_at = now;
  next_run = r.once_at;
  last_run = none;
  run_count = 0;
}

abbrev pub set_enabled : Option Bool → ScheduledTask → ScheduledTask
set_enabled none t = t
set_enabled (some b) t = record t { enabled = b }

abbrev pub set_name : Option String → ScheduledTask → ScheduledTask
set_name none t = t
set_name (some n) t = record t { name = n }

abbrev pub set_cron : Option String → ScheduledTask → ScheduledTask
set_cron none t = t
set_cron (some c) t = record t { cron_expr = some c }

-- the columns of the map `updates`
abbrev pub updated : UpdateRequest → ScheduledTask → ScheduledTask
updated r t = set_cron r.cron_expr (set_name r.name (set_enabled r.enabled t))

-- the jobs after the unscheduling of an update: only of one that disables
pub data Stopped (id : String) : Option Bool → List Entry → List Entry → Type 0 where
  stopped :
      {before after : List Entry}
      → Unscheduled id before after
      → Stopped id (some false) before after
  enabling : (entries : List Entry) → Stopped id (some true) entries entries
  unsaid : (entries : List Entry) → Stopped id none entries entries

module _ (add_func : String → List Entry → Option ℕ) where
  unfoldable pub create_valid :
      String → ℕ → CreateRequest → Db → List Entry → Reply × Db × List Entry
  unfolding create_scheduled_task schedule_task
  create_valid id now r db entries = elim (create_scheduled_task now (new_task id now r) db) [
    | err e ↦ (internal, db, entries)
    | ok db' ↦ let t = new_task id now r in (task_reply t, db', schedule_task add_func t entries)
  ]

  -- createScheduledTaskHandler
  unfoldable pub create_handler :
      String → ℕ → Option CreateRequest → Db → List Entry → Reply × Db × List Entry
  unfolding create_valid valid
  create_handler id now none db entries = (bad_request, db, entries)
  create_handler id now (some r) db entries =
      if valid r then create_valid id now r db entries else (bad_request, db, entries)

  -- the update handler from UpdateScheduledTask on; an unknown id gives no error there, and the
  -- error of the read after it is answered by 500
  unfoldable pub finish_update : String → UpdateRequest → Db → List Entry → Reply × Db × List Entry
  unfolding update_scheduled_task get_scheduled_task schedule_task
  finish_update id r db entries =
      let db' = update_scheduled_task id (updated r) db in
      elim (get_scheduled_task id db') [
        | err e ↦ (internal, db', entries)
        | ok t ↦
            let again = if t.enabled then schedule_task add_func t entries else entries in
            (task_reply t, db', again)
      ]

  -- updateScheduledTaskHandler
  pub data Updated (id : String)
      : Option UpdateRequest → Db → List Entry → Reply × Db × List Entry → Type 0 where
    no_id :
        (r : Option UpdateRequest) (db : Db) (entries : List Entry)
        → (id == "") ≡ true
        → Updated id r db entries (bad_request, db, entries)
    unread :
        (db : Db) (entries : List Entry)
        → (id == "") ≡ false
        → Updated id none db entries (bad_request, db, entries)
    handled :
        (r : UpdateRequest) (db : Db) (entries kept : List Entry)
        → (id == "") ≡ false
        → Stopped id r.enabled entries kept
        → Updated id (some r) db entries (finish_update id r db kept)

-- deleteScheduledTaskHandler; an unknown id gives no error in DeleteScheduledTask
pub data Deleted (id : String) : Db → List Entry → Reply × Db × List Entry → Type 0 where
  no_id :
      (db : Db) (entries : List Entry)
      → (id == "") ≡ true
      → Deleted id db entries (bad_request, db, entries)
  deleted :
      (db : Db) (entries kept : List Entry)
      → (id == "") ≡ false
      → Unscheduled id entries kept
      → Deleted id db entries (done, delete_scheduled_task id db, kept)

module _ (show : DbError → String) (run : String → String → String → Db → Option String × Db)
    (next : String → ℕ → Option ℕ) where
  abbrev pub run_reply : Result TriggerError (Unit {0}) × Db → Reply × Db
  run_reply (err e, db) = (internal, db)
  run_reply (ok u, db) = (done, db)

  -- runScheduledTaskHandler
  unfoldable pub run_handler : Fresh → String → Db → Reply × Db
  unfolding get_scheduled_task trigger_task
  run_handler w id db = if id == "" then (bad_request, db) else elim (get_scheduled_task id db) [
    | err not_found ↦ (missing, db)
    | err e ↦ (internal, db)
    | ok t ↦ run_reply (trigger_task show run next w t db)
  ]
