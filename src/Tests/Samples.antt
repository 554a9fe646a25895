-- ===== src/Tests/Samples.antt =====
-- Rows and databases that the tests share.
use simple_a2a_registry.Prelude.{ℕ, String, none, some, List, [], ◌∷◌}
use simple_a2a_registry.Models.{Task, TaskLink, TaskStatus, running, failed, pos}
use simple_a2a_registry.Db.{Db, empty_db}
use simple_a2a_registry.Store.Create.{NewTask, ParentArg, plain}
use simple_a2a_registry.Store.History.{Call, create}

abbrev pub sample : String → TaskStatus → Task
sample i s = record {
  id = i;
  title = "work";
  body = none;
  assignee = some "agent";
  status = s;
  priority = pos 0;
  created_by = none;
  created_at = 5;
  started_at = none;
  completed_at = none;
  workspace_kind = none;
  workspace_path = none;
  claim_lock = none;
  claim_expires = none;
  tenant = none;
  result = none;
  consecutive_failures = 0;
  worker_pid = none;
  last_failure_error = none;
  max_runtime_seconds = none;
  last_heartbeat_at = none;
  current_run_id = none;
  max_retries = none;
  parallel_group = none;
  next_retry_at = none;
}

-- A task that a worker holds until 100.
abbrev pub held : Task
held = record (sample "a" running) {
  claim_lock = some "w:1";
  claim_expires = some 100;
  current_run_id = some 1;
}

-- A task with one failure.
abbrev pub broken : Task
broken = record (sample "a" failed) { consecutive_failures = 1 }

-- A task that has failed more often than the default limit allows.
abbrev pub spent : Task
spent = record (sample "b" failed) { consecutive_failures = 4 }

abbrev pub db_of : List Task → Db
db_of ts = record empty_db { tasks = ts }

abbrev pub edge : String → String → TaskLink
edge p c = record { parent_id = p; child_id = c; condition = none }

-- a → b → c
abbrev pub chain : List TaskLink
chain = edge "a" "b" ∷ edge "b" "c" ∷ []

abbrev pub new_task : String → List ParentArg → NewTask
new_task i ps = record {
  id = i;
  title = "work";
  body = none;
  assignee = some "agent";
  priority = pos 0;
  parents = ps;
  workspace_kind = none;
  workspace_path = none;
  max_runtime_seconds = none;
  max_retries = none;
  tenant = none;
  created_by = none;
  parallel_group = none;
}

abbrev pub two_creates : List (ℕ × Call)
two_creates = (5, create (new_task "a" [])) ∷ (6, create (new_task "b" (plain "a" ∷ []))) ∷ []
