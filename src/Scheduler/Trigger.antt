-- ===== src/Scheduler/Trigger.antt =====
-- checkAndTrigger, trigger and updateTaskStats of internal/scheduler/scheduler.go, and triggerTask
-- of internal/server/scheduled.go.
--
-- The cron library starts each check in a goroutine of its own, and nothing keeps two checks of one
-- task apart: `begin_check` is what a check does before its run, and the writes that others may do
-- in between are the steps of Scheduler.Trigger.Once.Writes.
pub mod Runs
pub mod Rows
pub mod Once
use kubernetes_agent.Base.{
  ℕ, suc, String, Bool, true, false, [], ◌∷◌, Option, none, some, Result, ok, err, ltb,
  if◌then◌else◌,
}
use kubernetes_agent.Store.Failure.{DbError}
use kubernetes_agent.Store.Messages.{Message, Tables, batch_insert_messages}
use kubernetes_agent.Scheduler.Tasks.{
  ScheduledTask, ScheduledRun, Db, create_scheduled_run, update_scheduled_run, get_session,
  get_scheduled_task, update_scheduled_task,
}

-- what uuid.NewString and time.Now give in the course of a check
pub record Fresh : Type 0 where
  pub run_id : String
  pub message_id : String
  pub checked : ℕ
  pub run_at : ℕ
  pub stored : ℕ
  pub ended : ℕ

-- the error of a trigger: of the store or of the run
pub data TriggerError : Type 0 where
  store_error : DbError → TriggerError
  run_error : String → TriggerError

abbrev pub started : Fresh → ScheduledTask → ScheduledRun
started w t = record {
  id = w.run_id;
  task_id = t.id;
  run_at = w.run_at;
  status = "running";
  error = none;
}

abbrev pub scheduled_message : Fresh → ScheduledTask → Message
scheduled_message w t = record {
  id = w.message_id;
  session_id = t.session_id;
  role = "user";
  content = some t.prompt;
  tool_calls = none;
  tool_call_id = none;
  reasoning = none;
  created_at = 0;
  source = "scheduled";
}

abbrev pub cluster_of : Option String → String
cluster_of none = ""
cluster_of (some c) = c

abbrev pub with_tables : Db → Tables → Db
with_tables db t = record db { tables = t }

-- UPDATE of enabled to 0
abbrev pub disabled : ScheduledTask → ScheduledTask
disabled t = record t { enabled = false }

-- the columns that updateTaskStats sets
abbrev pub counted : Fresh → ScheduledTask → ScheduledTask → ScheduledTask
counted w t row = record row { last_run = some w.ended; run_count = suc t.run_count }

abbrev pub with_next : Option ℕ → ScheduledTask → ScheduledTask
with_next none row = row
with_next (some n) row = record row { next_run = some n }

-- time.Now().Unix() < *t.OnceAt
abbrev pub too_early : Fresh → Option ℕ → Bool
too_early w none = false
too_early w (some at) = ltb w.checked at

-- the guards of checkAndTrigger
unfoldable pub taken_up : Fresh → ScheduledTask → Option ScheduledTask
taken_up w t = if t.enabled then if too_early w t.once_at then none else some t else none

-- checkAndTrigger up to the trigger: the task, as it is read, if it is to be run
unfoldable pub begin_check : Fresh → String → Db → Option ScheduledTask
unfolding get_scheduled_task taken_up
begin_check w id db = elim (get_scheduled_task id db) [ err e ↦ none | ok t ↦ taken_up w t ]

-- `show` is the text of an error, `run` the runner of a session and a cluster at a prompt: an
-- error's text, if it fails, and the database that it leaves; `next` is the cron library's next time
-- of an expression after a time, if it reads it.
module _ (show : DbError → String) (run : String → String → String → Db → Option String × Db)
    (next : String → ℕ → Option ℕ) where
  unfoldable pub fail_run : Fresh → DbError → Db → Result TriggerError (Unit {0}) × Db
  unfolding update_scheduled_run
  fail_run w e db = (err (store_error e), update_scheduled_run w.run_id "failed" (some (show e)) db)

  -- a run's end
  unfoldable pub end_run : Fresh → Option String × Db → Result TriggerError (Unit {0}) × Db
  unfolding update_scheduled_run
  end_run w (some e, db) = (err (run_error e), update_scheduled_run w.run_id "failed" (some e) db)
  end_run w (none, db) = (ok tt, update_scheduled_run w.run_id "success" none db)

  -- from the message's insertion on
  unfoldable pub run_task : Fresh → ScheduledTask → Db → Result TriggerError (Unit {0}) × Db
  unfolding fail_run end_run batch_insert_messages get_session
  run_task w t db = elim (batch_insert_messages w.stored (scheduled_message w t ∷ []) db.tables) [
    | err e ↦ fail_run w e db
    | ok tables ↦ elim (get_session t.session_id (with_tables db tables)) [
      | err e ↦ fail_run w e (with_tables db tables)
      | ok session ↦
          let cluster = cluster_of session.cluster_id in
          end_run w (run t.session_id cluster t.prompt (with_tables db tables))
    ]
  ]

  -- what trigger and triggerTask share: all but the task's columns
  unfoldable pub fire : Fresh → ScheduledTask → Db → Result TriggerError (Unit {0}) × Db
  unfolding run_task create_scheduled_run
  fire w t db = elim (create_scheduled_run (started w t) db) [
    | err e ↦ (err (store_error e), db)
    | ok db' ↦ run_task w t db'
  ]

  abbrev pub next_of : Fresh → Option String → Option ℕ
  next_of w none = none
  next_of w (some expr) = next expr w.ended

  -- updateTaskStats: the count is one more than that of the task as it was read
  unfoldable pub update_task_stats : Fresh → ScheduledTask → Db → Db
  unfolding update_scheduled_task
  update_task_stats w t db =
      update_scheduled_task t.id (λ row. with_next (next_of w t.cron_expr) (counted w t row)) db

  abbrev pub then_stats :
      (Db → Db) → Result TriggerError (Unit {0}) × Db → Result TriggerError (Unit {0}) × Db
  then_stats stats (err e, db) = (err e, db)
  then_stats stats (ok u, db) = (ok u, stats db)

  -- trigger of the scheduler
  unfoldable pub trigger : Fresh → ScheduledTask → Db → Result TriggerError (Unit {0}) × Db
  unfolding fire update_task_stats
  trigger w t db = then_stats (update_task_stats w t) (fire w t db)

  -- triggerTask of the "run now" button
  unfoldable pub trigger_task : Fresh → ScheduledTask → Db → Result TriggerError (Unit {0}) × Db
  unfolding fire update_scheduled_task
  trigger_task w t db = then_stats (update_scheduled_task t.id (counted w t)) (fire w t db)

  -- a trigger's end: a one-shot task that ran is disabled
  unfoldable pub after_trigger : ScheduledTask → Result TriggerError (Unit {0}) × Db → Db
  unfolding update_scheduled_task
  after_trigger t (err e, db) = db
  after_trigger t (ok u, db) = elim t.once_at [
    | none ↦ db
    | some at ↦ update_scheduled_task t.id disabled db
  ]

  -- checkAndTrigger, where no other check of the task overlaps it
  unfoldable pub check_and_trigger : Fresh → String → Db → Db
  unfolding begin_check trigger after_trigger
  check_and_trigger w id db = elim (begin_check w id db) [
    | none ↦ db
    | some t ↦ after_trigger t (trigger w t db)
  ]
