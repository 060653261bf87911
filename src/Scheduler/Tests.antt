-- ===== src/Scheduler/Tests.antt =====
-- The scheduler at concrete tables.
use kubernetes_agent.Base.{
  ℕ, String, true, false, List, [], ◌∷◌, Option, none, some, ◌≡◌, ◌≢◌, refl, subst, ◌⊎◌, ok, err,
}
use kubernetes_agent.Text.{has_prefix}
use kubernetes_agent.Store.Failure.{DbError}
use kubernetes_agent.Store.Messages.{SessionRow}
use kubernetes_agent.Scheduler.Tasks.{
  ScheduledTask, Db, create_scheduled_run, get_scheduled_task, update_scheduled_task,
  delete_scheduled_task,
}
use kubernetes_agent.Scheduler.Trigger.{
  Fresh, started, store_error, trigger, update_task_stats, after_trigger,
}
use kubernetes_agent.Scheduler.Trigger.Runs.{IsEnded, trigger-IsEnded}
use kubernetes_agent.Scheduler.Entries.{Entry, removed, jobs, spec_of}
use kubernetes_agent.Scheduler.Handlers.{
  Reply, task_reply, UpdateRequest, Updated, handled, unsaid, Deleted, deleted, done, finish_update,
}
use kubernetes_agent.Scheduler.Handlers.Jobs.{jobs-Updated-Deleted}

abbrev task : Option String → Option ℕ → ScheduledTask
task cron once = record {
  id = "t";
  name = "n";
  prompt = "check";
  cron_expr = cron;
  once_at = once;
  session_id = "s";
  enabled = true;
  created_by = "u";
  cluster_id = none;
  created_at = 1;
  next_run = once;
  last_run = none;
  run_count = 0;
}

abbrev session : SessionRow
session = record { id = "s"; title = "t"; cluster_id = some "c"; created_at = 1; updated_at = 1 }

abbrev db_of : ScheduledTask → Db
db_of t = record {
  tables = record { sessions = session ∷ []; messages = [] };
  tasks = t ∷ [];
  runs = [];
}

abbrev show : DbError → String
show e = "error"

-- a run that ends well and one that fails
abbrev good : String → String → String → Db → Option String × Db
good s c p db = (none, db)

abbrev bad : String → String → String → Db → Option String × Db
bad s c p db = (some "timeout", db)

abbrev next : String → ℕ → Option ℕ
next expr now = none

abbrev fresh : Fresh
fresh = record {
  run_id = "r";
  message_id = "m";
  checked = 10;
  run_at = 10;
  stored = 10;
  ended = 12;
}

abbrev failing : ScheduledTask
failing = task none (some 9)

trigger-IsEnded_example :
    ((e : DbError) × (create_scheduled_run (started fresh failing) (db_of failing) ≡ err e)
      × (trigger show bad next fresh failing (db_of failing)
          ≡ (err (store_error e), db_of failing)))
    ⊎ IsEnded "r" (trigger show bad next fresh failing (db_of failing))
trigger-IsEnded_example = trigger-IsEnded show bad next fresh failing (db_of failing)

-- another check of the task after the first, which has run and has ended
abbrev checked_again : Db → Db
checked_again db =
    after_trigger show good next failing (ok tt, update_task_stats show good next fresh failing db)

abbrev add_func : String → List Entry → Option ℕ
add_func spec entries = some 2

abbrev hourly : ScheduledTask
hourly = task (some "0 * * * *") none

abbrev renamed : ScheduledTask
renamed = record hourly { name = "m" }

abbrev rename : UpdateRequest
rename = record { enabled = none; name = some "m"; cron_expr = none }

abbrev job : Entry
job = record { id = 1; spec = "0 0 * * * *"; task_id = "t" }

abbrev again : Entry
again = record { id = 2; spec = "0 0 * * * *"; task_id = "t" }

rename_outcome :
    finish_update add_func "t" rename (db_of hourly) (job ∷ [])
    ≡ (task_reply renamed, db_of renamed, job ∷ again ∷ [])
unfolding finish_update has_prefix
rename_outcome = refl

keeps : rename.enabled ≢ some false
keeps h = cc

rename-Updated :
    Updated add_func "t"
      (some rename)
      (db_of hourly)
      (job ∷ [])
      (finish_update add_func "t" rename (db_of hourly) (job ∷ []))
rename-Updated = handled rename (db_of hourly) (job ∷ []) (job ∷ []) refl (unsaid (job ∷ []))

rename-Deleted :
    Deleted "t"
      (db_of renamed)
      (job ∷ again ∷ [])
      (done, delete_scheduled_task "t" (db_of renamed), again ∷ [])
rename-Deleted =
    deleted (db_of renamed) (job ∷ again ∷ []) (again ∷ []) refl (removed [] job (again ∷ []) refl)

abbrev after_rename : Reply × Db × List Entry
after_rename = (task_reply renamed, db_of renamed, job ∷ again ∷ [])

abbrev after_delete : Reply × Db × List Entry
after_delete = (done, delete_scheduled_task "t" (db_of renamed), again ∷ [])

jobs-Updated-Deleted_example : (jobs "t" after_rename.2 ≡ 2) × (jobs "t" after_delete.2 ≡ 1)
unfolding jobs get_scheduled_task update_scheduled_task spec_of
jobs-Updated-Deleted_example =
    jobs-Updated-Deleted add_func "t" rename (db_of hourly) (job ∷ []) renamed 2 refl keeps refl
      refl refl refl after_rename after_delete
      (subst (Updated add_func "t" (some rename) (db_of hourly) (job ∷ [])) rename_outcome
        rename-Updated)
      rename-Deleted
