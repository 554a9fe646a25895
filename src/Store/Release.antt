-- ===== src/Store/Release.antt =====
-- TaskStore.release_expired_claims and promote_retryable_tasks: the sweeps of the dispatcher.
pub mod Laws
pub mod Outcome
pub mod Left
pub mod Sweep
use simple_a2a_registry.Prelude.{
  ℕ, suc, ◌+◌, String, Bool, true, false, ◌&&◌, ◌||◌, not, Option, none, some, List, [], ◌∷◌, ◌++◌,
  select, leb, ltb, or_else, text_opt_eq, ◌==◌, if◌then◌else◌,
}
use simple_a2a_registry.Models.{
  Task, TaskRun, TaskStatus, TaskRunStatus, TaskEventKind, ready, running, blocked, dangling,
  failed, status_eq, kind_value, Json, pos, text, number, object, field, end,
}
use simple_a2a_registry.Db.{Db, set_task, set_run, emit_event}

abbrev pub default_max_retries : ℕ
default_max_retries = 3

-- `AND tenant = ?`, where a tenant is given
abbrev pub in_tenant : Option String → Task → Bool
in_tenant none t = true
in_tenant (some tenant) t = elim t.tenant [ none ↦ false | some own ↦ own == tenant ]

-- `claim_expires IS NOT NULL AND claim_expires <= ?`
abbrev pub has_expired : ℕ → Task → Bool
has_expired now t = elim t.claim_expires [ none ↦ false | some e ↦ leb e now ]

-- The WHERE clause of release_expired_claims.
unfoldable pub is_releasable : ℕ → Option String → Task → Bool
is_releasable now tenant t =
    (status_eq t.status running || status_eq t.status blocked)
    && (not (status_eq t.status dangling) && (has_expired now t && in_tenant tenant t))

abbrev pub time_out_run : ℕ → TaskRun → TaskRun
time_out_run now r = record r {
  status = TaskRunStatus.timed_out;
  ended_at = some now;
  outcome = some "timed_out";
}

unfoldable pub release_columns : ℕ → ℕ → Task → Task
release_columns now failures t = record t {
  status = failed;
  completed_at = some now;
  consecutive_failures = failures;
  last_failure_error = some "Claim TTL expired";
  claim_lock = none;
  claim_expires = none;
  worker_pid = none;
  current_run_id = none;
}

expired_payload : ℕ → Json
expired_payload failures =
    object
      (field "reason" (text "claim_ttl_expired") (field "failures" (number (pos failures)) end))

-- One round of the loop, for a selected row.
unfoldable pub release_row : ℕ → Task → Db → Db
unfolding expired_payload
release_row now row db =
    let failures = row.consecutive_failures + 1 in
    emit_event now row.id (kind_value TaskEventKind.failed) row.current_run_id
      (some (expired_payload failures))
      (emit_event now row.id "released" row.current_run_id (some (expired_payload failures)) (
        set_task row.id (release_columns now failures)
          (set_run row.current_run_id (time_out_run now) db)))

-- A loop over rows that were selected before it: the rounds that were made, and the database.
unfoldable pub sweep : (Task → Db → Db) → List Task → Db → ℕ × Db
sweep round [] db = (0, db)
sweep round (row ∷ rows) db = let (n, after) = sweep round rows (round row db) in (suc n, after)

unfoldable pub release_expired_claims : ℕ → Option String → Db → ℕ × Db
release_expired_claims now tenant db =
    sweep (release_row now) (select (is_releasable now tenant) db.tasks) db

-- The WHERE clause of promote_retryable_tasks; it does not read `next_retry_at`.
unfoldable pub is_retryable : Option String → Task → Bool
is_retryable tenant t =
    status_eq t.status failed
    && (leb t.consecutive_failures (or_else t.max_retries default_max_retries)
        && (ltb 0 t.consecutive_failures && in_tenant tenant t))

unfoldable pub insert_retry_run : ℕ → String → Db → Db
insert_retry_run now task_id db = record db {
  runs =
      db.runs
      ++ record {
        id = db.next_run_id;
        task_id = task_id;
        profile = none;
        status = TaskRunStatus.running;
        claim_lock = none;
        claim_expires = none;
        worker_pid = none;
        max_runtime_seconds = none;
        last_heartbeat_at = none;
        started_at = now;
        ended_at = none;
        outcome = none;
        summary = none;
        metadata = none;
        error = none;
      }
        ∷ [];
  next_run_id = suc db.next_run_id;
}

unfoldable pub promote_columns : ℕ → Task → Task
promote_columns run_id t = record t {
  status = ready;
  claim_lock = none;
  claim_expires = none;
  current_run_id = some run_id;
  worker_pid = none;
}

retry_payload : Json
retry_payload =
    object
      (field "from" (text "failed") (field "to" (text "ready") (field "reason" (text "retry") end)))

unfoldable pub promote_row : ℕ → Task → Db → Db
unfolding insert_retry_run retry_payload
promote_row now row db =
    emit_event now row.id (kind_value TaskEventKind.dependency_promoted) none (some retry_payload)
      (set_task row.id (promote_columns db.next_run_id) (insert_retry_run now row.id db))

unfoldable pub promote_retryable_tasks : ℕ → Option String → Db → ℕ × Db
promote_retryable_tasks now tenant db =
    sweep (promote_row now) (select (is_retryable tenant) db.tasks) db
