-- ===== src/Store/Status/Writes.antt =====
-- The writes of update_task_status: the run, the task row, the event and the children.
use simple_a2a_registry.Prelude.{
  ℕ, ◌+◌, ◌*◌, ◌^◌, min, String, Bool, false, ◌&&◌, not, Option, none, some, truthy, is_some, leb,
  if◌then◌else◌,
}
use simple_a2a_registry.Models.{
  Task, TaskRun, TaskStatus, TaskRunStatus, TaskEventKind, ready, running, blocked, completed,
  failed, archived, value, kind_value, status_eq, Json, null, text, object, field, end,
}
use simple_a2a_registry.Db.{Db, set_task, set_run, emit_event}
use simple_a2a_registry.Store.Resolve.{resolve_children}

-- `json.dumps(metadata) if metadata else None`: the empty object is false too.
abbrev pub dumps_metadata : Option Json → Option Json
dumps_metadata none = none
dumps_metadata (some (object end)) = none
dumps_metadata (some j) = some j

close_run :
    ℕ → TaskRunStatus → TaskStatus → Option String → Option String → Option Json → TaskRun → TaskRun
close_run now outcome new_status result summary metadata r = record r {
  status = outcome;
  ended_at = some now;
  outcome = some (value new_status);
  summary = summary;
  metadata = dumps_metadata metadata;
  error = result;
}

-- `min(30.0 * (2 ** (new_failures - 1)), 3600.0)`, by the failures before, `new_failures - 1`: `none`
-- is the OverflowError of an integer power that no float holds, from 2 ** 1024 on. Below it the
-- product is at most an infinity, and floats are exact wherever it is the minimum.
unfoldable pub backoff_delay : ℕ → Option ℕ
backoff_delay failures = if leb 1024 failures then none else some (min (30 * 2 ^ failures) 3600)

-- `task.max_retries is not None and new_failures <= task.max_retries`
abbrev pub is_within_limit : Task → Bool
is_within_limit t = elim t.max_retries [
  | none ↦ false
  | some m ↦ leb (t.consecutive_failures + 1) m
]

-- Does computing the delay raise?
unfoldable pub overflows : Task → TaskStatus → Bool
unfolding backoff_delay
overflows t new_status =
    status_eq new_status failed
    && (is_within_limit t && not (is_some (backoff_delay t.consecutive_failures)))

-- The column `next_retry_at`; where the delay raises, the UPDATE is not reached.
abbrev retry_at : ℕ → Task → Option ℕ
retry_at now t =
    if is_within_limit t
    then elim (backoff_delay t.consecutive_failures) [
      | none ↦ t.next_retry_at
      | some delay ↦ some (now + delay)
    ]
    else t.next_retry_at

-- The columns that the UPDATE sets, by the new status.
unfoldable pub write_columns : ℕ → TaskStatus → Option String → Task → Task
write_columns now completed result t = record t {
  status = completed;
  completed_at = some now;
  consecutive_failures = 0;
  result = if truthy result then result else t.result;
}
write_columns now failed result t = record t {
  status = failed;
  completed_at = some now;
  consecutive_failures = t.consecutive_failures + 1;
  last_failure_error = result;
  next_retry_at = retry_at now t;
}
write_columns now s result t = record t { status = s }

-- The run is closed before the row is written, if the task ends and has a run.
unfoldable pub end_run :
    ℕ → Task → TaskStatus → Option String → Option String → Option Json → Db → Db
unfolding close_run
end_run now task completed result summary metadata db =
    set_run task.current_run_id (close_run now TaskRunStatus.done completed result summary metadata)
      db
end_run now task failed result summary metadata db =
    set_run task.current_run_id (close_run now TaskRunStatus.failed failed result summary metadata)
      db
end_run now task s result summary metadata db = db

unfoldable pub write_transition :
    ℕ → String → Task → TaskStatus → Option String → Option String → Option Json → Db → Db
write_transition now task_id task new_status result summary metadata db =
    set_task task_id (write_columns now new_status result)
      (end_run now task new_status result summary metadata db)

-- `event_kind_map.get(new_status, "status_changed")`
kind_of : TaskStatus → String
kind_of completed = kind_value TaskEventKind.completed
kind_of failed = kind_value TaskEventKind.failed
kind_of blocked = kind_value TaskEventKind.blocked
kind_of running = kind_value TaskEventKind.started
kind_of archived = kind_value TaskEventKind.archived
kind_of s = "status_changed"

-- `none` where the code reads `TaskEventKind.RETRIED`: the enum has no such member, and the
-- attribute lookup raises.
unfoldable pub event_kind : TaskStatus → TaskStatus → Option String
unfolding kind_of
event_kind old_status new_status =
    if status_eq old_status blocked && status_eq new_status running
    then some (kind_value TaskEventKind.unblocked)
    else if status_eq old_status failed && status_eq new_status ready
    then none
    else some (kind_of new_status)

json_text : Option String → Json
json_text none = null
json_text (some s) = text s

transition_payload : TaskStatus → TaskStatus → Option String → Json
unfolding json_text
transition_payload old_status new_status result = object (
    field "from" (text (value old_status))
      (field "to" (text (value new_status)) (field "result" (json_text result) end)))

log_event : ℕ → String → Task → TaskStatus → Option String → String → Db → Db
unfolding transition_payload
log_event now task_id task new_status result kind db =
    emit_event now task_id kind task.current_run_id
      (some (transition_payload task.status new_status result)) db

unfoldable pub notify_children : ℕ → String → TaskStatus → Db → Db
notify_children now task_id new_status db =
    if status_eq new_status completed then resolve_children now task_id db else db

-- The event, and behind it the children of a task that is completed.
unfoldable pub after_event : ℕ → String → Task → TaskStatus → Option String → String → Db → Db
unfolding log_event
after_event now task_id task new_status result kind db =
    notify_children now task_id new_status (log_event now task_id task new_status result kind db)
