-- ===== src/Store/Status.antt =====
-- TaskStore.update_task_status, delete_task, batch_update_status and batch_delete.
pub mod Writes
pub mod Laws
pub mod Conditions
pub mod Outcome
pub mod Batch
use simple_a2a_registry.Prelude.{
  ℕ, String, Bool, true, false, ◌&&◌, not, Option, none, some, truthy, text_opt_eq, ◌==◌,
  if◌then◌else◌,
}
use simple_a2a_registry.Models.{
  Task, TaskStatus, running, completed, archived, value, status_eq, Json,
}
use simple_a2a_registry.StateMachine.{validate_transition}
use simple_a2a_registry.Db.{
  Db, Action, Result, ok, raise, tx, find, task_not_found, invalid_transition, permission_error,
  attribute_error, overflow_error,
}
use simple_a2a_registry.Store.Status.Writes.{
  write_transition, event_kind, after_event, overflows, end_run,
}

-- The arguments of update_task_status after the task's id.
pub record StatusUpdate : Type 0 where
  pub new_status : TaskStatus
  pub claim_lock : Option String
  pub result : Option String
  pub summary : Option String
  pub metadata : Option Json

abbrev pub to_status : TaskStatus → StatusUpdate
to_status s = record {
  new_status = s;
  claim_lock = none;
  result = none;
  summary = none;
  metadata = none;
}

-- `old_status == RUNNING and claim_lock` and `task.claim_lock != claim_lock`
abbrev pub lock_mismatch : Task → Option String → Bool
lock_mismatch task claim_lock =
    status_eq task.status running
    && truthy claim_lock
    && not (text_opt_eq task.claim_lock claim_lock)

-- The part behind the UPDATE: `none` as a kind is `TaskEventKind.RETRIED`, which does not exist.
abbrev pub log_transition : ℕ → String → Task → StatusUpdate → Option String → Action (Unit {0})
log_transition now task_id task u none db = (raise attribute_error, db)
log_transition now task_id task u (some kind) db =
    (ok tt, after_event now task_id task u.new_status u.result kind db)

-- The block of the transaction once the row is read. The delay is computed between the UPDATE of the
-- run and that of the row.
unfoldable pub transition_found : ℕ → String → StatusUpdate → Task → Action (Unit {0})
transition_found now task_id u task db =
    if not (validate_transition (value task.status) (value u.new_status))
    then (raise (invalid_transition (value task.status) (value u.new_status)), db)
    else if lock_mismatch task u.claim_lock
    then (raise permission_error, db)
    else if overflows task u.new_status
    then (raise overflow_error, end_run now task u.new_status u.result u.summary u.metadata db)
    else log_transition now task_id task u (event_kind task.status u.new_status)
        (write_transition now task_id task u.new_status u.result u.summary u.metadata db)

unfoldable pub transition_block : ℕ → String → StatusUpdate → Action (Unit {0})
transition_block now task_id u db = elim (find task_id db.tasks) [
  | none ↦ (raise (task_not_found task_id), db)
  | some task ↦ transition_found now task_id u task db
]

-- `return self.get_task(task_id)`: the row as it is after the transaction.
reload : String → Result (Unit {0}) × Db → Result (Option Task) × Db
reload task_id (ok _, db) = (ok (find task_id db.tasks), db)
reload task_id (raise e, db) = (raise e, db)

unfoldable pub update_task_status : ℕ → String → StatusUpdate → Action (Option Task)
unfolding reload
update_task_status now task_id u db = reload task_id (tx (transition_block now task_id u) db)

-- `update_task_status(...) is not None`
found_some : Result (Option Task) × Db → Result Bool × Db
found_some (ok none, db) = (ok false, db)
found_some (ok (some t), db) = (ok true, db)
found_some (raise e, db) = (raise e, db)

unfoldable pub delete_task : ℕ → String → Action Bool
unfolding found_some
delete_task now task_id db = found_some (update_task_status now task_id (to_status archived) db)
