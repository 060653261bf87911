-- ===== src/Agent/Tools/Others.antt =====
-- The handlers fs_read, load_skill, schedule_task, get_scheduled_tasks and delete_scheduled_task of
-- internal/agent/tools.go. An input that is not JSON is `none`.
use kubernetes_agent.Base.{
  ℕ, String, Bool, true, false, List, Option, none, some, Result, ok, err, ◌==◌, if◌then◌else◌,
}
use kubernetes_agent.Store.Failure.{DbError}
use kubernetes_agent.Skills.FsRead.{Answer, error, FileResult, FsReadTool, handle}
use kubernetes_agent.Skills.Loader.{SkillEntry, LoadSkillOutput, failed, load_skill}
use kubernetes_agent.Scheduler.Tasks.{
  ScheduledTask, Db, create_scheduled_task, get_scheduled_tasks, delete_scheduled_task,
}
use kubernetes_agent.Scheduler.Entries.{Entry, Unscheduled, schedule_task}
use kubernetes_agent.Agent.Session.{Session}

-- fs_read, where a directory is allowed
unfoldable pub fs_read_tool :
    FsReadTool → (String → FileResult) → Option String → Answer × Option String
unfolding handle
fs_read_tool t read input =
    if t.allowed_dir == "" then (error "fs_read not configured", none) else handle t read input

-- load_skill; no list is not the same as an empty one
unfoldable pub load_skill_tool :
    (String → FileResult) → Option (List SkillEntry) → Option String → LoadSkillOutput
unfolding load_skill
load_skill_tool read none input = failed "load_skill not configured"
load_skill_tool read (some skills) input = load_skill read skills input

-- scheduleTaskInput
pub record ScheduleInput : Type 0 where
  pub name : String
  pub prompt : String
  pub cron_expr : Option String
  pub once_at : Option ℕ
  pub session_id : String

pub data ScheduleError : Type 0 where
  invalid_input no_prompt no_session no_time no_task_id : ScheduleError
  store_failed : DbError → ScheduleError

-- session_id, or the session's own
unfoldable pub session_for_task : Option Session → ScheduleInput → Result ScheduleError String
session_for_task s i =
    if i.session_id == ""
    then (elim s [ none ↦ err no_session | some own ↦ ok own.id ])
    else ok i.session_id

abbrev pub has_time : ScheduleInput → Bool
has_time i = elim i.cron_expr [
  | some expr ↦ true
  | none ↦ elim i.once_at [ some at ↦ true | none ↦ false ]
]

abbrev pub tool_task : String → ℕ → String → ScheduleInput → ScheduledTask
tool_task id now session i = record {
  id = id;
  name = i.name;
  prompt = i.prompt;
  cron_expr = i.cron_expr;
  once_at = i.once_at;
  session_id = session;
  enabled = true;
  created_by = "llm";
  cluster_id = none;
  created_at = now;
  next_run = i.once_at;
  last_run = none;
  run_count = 0;
}

-- the checks of schedule_task, in order
unfoldable pub checked_task :
    String → ℕ → Option Session → Option ScheduleInput → Result ScheduleError ScheduledTask
unfolding session_for_task
checked_task id now s none = err invalid_input
checked_task id now s (some i) =
    if i.prompt == "" then err no_prompt else elim (session_for_task s i) [
      | err e ↦ err e
      | ok session ↦ if has_time i then ok (tool_task id now session i) else err no_time
    ]

module _ (add_func : String → List Entry → Option ℕ) where
  -- the jobs, where the tools have a scheduler
  abbrev pub scheduled : ScheduledTask → Option (List Entry) → Option (List Entry)
  unfolding schedule_task
  scheduled t none = none
  scheduled t (some entries) = some (schedule_task add_func t entries)

  unfoldable pub create_task :
      ℕ
      → ScheduledTask
      → Db
      → Option (List Entry)
      → Result ScheduleError (String × Option ℕ) × Db × Option (List Entry)
  unfolding create_scheduled_task scheduled
  create_task now t db entries = elim (create_scheduled_task now t db) [
    | err e ↦ (err (store_failed e), db, entries)
    | ok db' ↦ (ok (t.id, t.next_run), db', scheduled t entries)
  ]

  -- schedule_task: the new task's id and next run
  unfoldable pub schedule_task_tool :
      String
      → ℕ
      → Option Session
      → Option ScheduleInput
      → Db
      → Option (List Entry)
      → Result ScheduleError (String × Option ℕ) × Db × Option (List Entry)
  unfolding checked_task create_task
  schedule_task_tool id now s input db entries = elim (checked_task id now s input) [
    | err e ↦ (err e, db, entries)
    | ok t ↦ create_task now t db entries
  ]

-- get_scheduled_tasks: the rows that its output shows, all of them
unfoldable pub get_scheduled_tasks_tool : Db → List ScheduledTask
unfolding get_scheduled_tasks
get_scheduled_tasks_tool db = get_scheduled_tasks "" db

-- delete_scheduled_task: the answer and the tables
unfoldable pub delete_scheduled_task_tool :
    Option String → Db → Result ScheduleError (Unit {0}) × Db
unfolding delete_scheduled_task
delete_scheduled_task_tool none db = (err invalid_input, db)
delete_scheduled_task_tool (some id) db =
    if id == "" then (err no_task_id, db) else (ok tt, delete_scheduled_task id db)

-- what it does to the jobs, where the tools have a scheduler and the input names a task
pub data ToolUnscheduled (id : String) : Option (List Entry) → Option (List Entry) → Type 0 where
  no_scheduler : ToolUnscheduled id none none
  unscheduled :
      {before after : List Entry}
      → Unscheduled id before after
      → ToolUnscheduled id (some before) (some after)
