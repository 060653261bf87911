-- ===== src/Scheduler/Tasks.antt =====
-- The tables of internal/store/scheduled.go and GetSession of internal/store/sessions.go. Times are
-- Unix seconds.
use kubernetes_agent.Base.{
  ℕ, String, Bool, true, false, List, [], ◌∷◌, ◌++◌, Option, Result, ok, err, any, nat_eq, ltb,
  ◌==◌, ◌≡◌, sym, subst, ◌∙◌, inl, inr, arith, Bool-cases, if◌then◌else◌,
}
use kubernetes_agent.Store.Failure.{DbError, not_found, constraint}
use kubernetes_agent.Store.Messages.{SessionRow, Tables}
use kubernetes_agent.Store.Sessions.{session_with}

pub record ScheduledTask : Type 0 where
  pub id : String
  pub name : String
  pub prompt : String
  pub cron_expr : Option String
  pub once_at : Option ℕ
  pub session_id : String
  pub enabled : Bool
  pub created_by : String
  pub cluster_id : Option String
  pub created_at : ℕ
  pub next_run : Option ℕ
  pub last_run : Option ℕ
  pub run_count : ℕ

pub record ScheduledRun : Type 0 where
  pub id : String
  pub task_id : String
  pub run_at : ℕ
  pub status : String
  pub error : Option String

-- the database as the scheduler sees it
pub record Db : Type 0 where
  pub tables : Tables
  pub tasks : List ScheduledTask
  pub runs : List ScheduledRun

abbrev pub is_task : String → ScheduledTask → Bool
is_task id t = t.id == id

abbrev pub is_run : String → ScheduledRun → Bool
is_run id r = r.id == id

abbrev pub created_at_or : ℕ → ScheduledTask → ScheduledTask
created_at_or now t = record t { created_at = if nat_eq t.created_at 0 then now else t.created_at }

-- CreateScheduledTask
unfoldable pub create_scheduled_task : ℕ → ScheduledTask → Db → Result DbError Db
create_scheduled_task now t db =
    if any (is_task t.id) db.tasks
    then err constraint
    else ok (record db { tasks = db.tasks ++ created_at_or now t ∷ [] })

unfoldable pub task_with : String → List ScheduledTask → Result DbError ScheduledTask
task_with id [] = err not_found
task_with id (t ∷ rows) = let rest = task_with id rows in if t.id == id then ok t else rest

task_with-head :
    (id : String) (row : ScheduledTask) (rows : List ScheduledTask)
    → (row.id == id) ≡ true
    → task_with id (row ∷ rows) ≡ ok row
unfolding task_with
task_with-head id row rows e = ground (arith, e)

task_with-tail :
    (id : String) (row : ScheduledTask) (rows : List ScheduledTask)
    → (row.id == id) ≡ false
    → task_with id (row ∷ rows) ≡ task_with id rows
unfolding task_with
task_with-tail id row rows e = ground (arith, e)

pub task_with-id :
    (id : String) (rows : List ScheduledTask) (t : ScheduledTask)
    → task_with id rows ≡ ok t
    → (t.id == id) ≡ true
unfolding task_with
task_with-id id [] t h = cc
task_with-id id (row ∷ rows) t h = elim (Bool-cases (row.id == id)) [
  | inl e ↦
      let same : row ≡ t = cc (sym (task_with-head id row rows e) ∙ h) in
      subst (λ x. (x.id == id) ≡ true) same e
  | inr e ↦ task_with-id id rows t (sym (task_with-tail id row rows e) ∙ h)
]

-- GetScheduledTask
unfoldable pub get_scheduled_task : String → Db → Result DbError ScheduledTask
unfolding task_with
get_scheduled_task id db = task_with id db.tasks

-- ORDER BY created_at DESC
unfoldable pub insert_latest : ScheduledTask → List ScheduledTask → List ScheduledTask
insert_latest t [] = t ∷ []
insert_latest t (x ∷ rows) =
    let rest = insert_latest t rows in
    if ltb t.created_at x.created_at then x ∷ rest else t ∷ x ∷ rows

-- WHERE session_id = ?, where a session is asked for
unfoldable pub tasks_of : String → List ScheduledTask → List ScheduledTask
unfolding insert_latest
tasks_of id [] = []
tasks_of id (t ∷ rows) =
    let rest = tasks_of id rows in
    if id == ""
    then insert_latest t rest
    else if t.session_id == id
    then insert_latest t rest
    else rest

-- GetScheduledTasks
unfoldable pub get_scheduled_tasks : String → Db → List ScheduledTask
unfolding tasks_of
get_scheduled_tasks id db = tasks_of id db.tasks

unfoldable pub enabled_tasks : List ScheduledTask → List ScheduledTask
enabled_tasks [] = []
enabled_tasks (t ∷ rows) = let rest = enabled_tasks rows in if t.enabled then t ∷ rest else rest

-- GetEnabledScheduledTasks
unfoldable pub get_enabled_scheduled_tasks : Db → List ScheduledTask
unfolding enabled_tasks
get_enabled_scheduled_tasks db = enabled_tasks db.tasks

unfoldable pub set_tasks :
    String → (ScheduledTask → ScheduledTask) → List ScheduledTask → List ScheduledTask
set_tasks id f [] = []
set_tasks id f (t ∷ rows) =
    let rest = set_tasks id f rows in if t.id == id then f t ∷ rest else t ∷ rest

-- UpdateScheduledTask: `f` sets the columns. An id that no row has is no error.
unfoldable pub update_scheduled_task : String → (ScheduledTask → ScheduledTask) → Db → Db
unfolding set_tasks
update_scheduled_task id f db = record db { tasks = set_tasks id f db.tasks }

unfoldable pub without_task : String → List ScheduledTask → List ScheduledTask
without_task id [] = []
without_task id (t ∷ rows) =
    let rest = without_task id rows in if t.id == id then rest else t ∷ rest

unfoldable pub without_runs : String → List ScheduledRun → List ScheduledRun
without_runs id [] = []
without_runs id (r ∷ rows) =
    let rest = without_runs id rows in if r.task_id == id then rest else r ∷ rest

-- DeleteScheduledTask: the task's runs go with it (ON DELETE CASCADE), and an id that no row has is
-- no error
unfoldable pub delete_scheduled_task : String → Db → Db
unfolding without_task without_runs
delete_scheduled_task id db = record db {
  tasks = without_task id db.tasks;
  runs = without_runs id db.runs;
}

-- CreateScheduledRun: the task's row has to be there
unfoldable pub create_scheduled_run : ScheduledRun → Db → Result DbError Db
create_scheduled_run r db =
    if any (is_task r.task_id) db.tasks
    then (if any (is_run r.id) db.runs
        then err constraint
        else ok (record db { runs = db.runs ++ r ∷ [] }))
    else err constraint

unfoldable pub set_run : String → String → Option String → List ScheduledRun → List ScheduledRun
set_run id status error [] = []
set_run id status error (r ∷ rows) =
    let rest = set_run id status error rows in
    if r.id == id then record r { status = status; error = error } ∷ rest else r ∷ rest

-- UpdateScheduledRun
unfoldable pub update_scheduled_run : String → String → Option String → Db → Db
unfolding set_run
update_scheduled_run id status error db = record db { runs = set_run id status error db.runs }

-- GetSession
unfoldable pub get_session : String → Db → Result DbError SessionRow
unfolding session_with
get_session id db = session_with id db.tables.sessions
