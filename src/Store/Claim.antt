-- ===== src/Store/Claim.antt =====
-- TaskStore.claim_task and heartbeat: the lock that a worker holds on a running task.
pub mod Laws
pub mod Exclusion
use simple_a2a_registry.Prelude.{
  ℕ, suc, ◌+◌, String, Bool, true, false, ◌&&◌, ◌||◌, Option, none, some, List, [], ◌∷◌, ◌++◌, ltb,
  is_some, or_else, text_opt_eq, str_int, colon_text, ◌==◌, if◌then◌else◌,
}
use simple_a2a_registry.Models.{
  Task, TaskRun, TaskStatus, TaskRunStatus, TaskEventKind, ready, running, status_eq, kind_value,
  Json, pos, text, number, object, field, end,
}
use simple_a2a_registry.Db.{Db, Action, Result, ok, tx, find, set_task, set_run, emit_event}

abbrev pub default_claim_ttl : ℕ
default_claim_ttl = 900

-- `claim_lock IS NULL OR claim_expires < ?`; a comparison with NULL is not true.
abbrev pub is_free : ℕ → Task → Bool
is_free now t = elim t.claim_lock [
  | none ↦ true
  | some _ ↦ elim t.claim_expires [ none ↦ false | some e ↦ ltb e now ]
]

-- The WHERE clause of the claiming UPDATE, beside the id.
abbrev pub is_claimable : ℕ → Task → Bool
is_claimable now t = status_eq t.status ready && is_free now t

-- The columns that the UPDATE sets.
unfoldable pub take_claim : ℕ → String → ℕ → ℕ → Task → Task
take_claim now lock expires pid t = record t {
  status = running;
  claim_lock = some lock;
  claim_expires = some expires;
  started_at = some (or_else t.started_at now);
  worker_pid = some pid;
  last_heartbeat_at = some now;
}

insert_run : ℕ → String → String → String → ℕ → ℕ → Db → Db
insert_run now task_id worker_id lock expires pid db = record db {
  runs =
      db.runs
      ++ record {
        id = db.next_run_id;
        task_id = task_id;
        profile = some worker_id;
        status = TaskRunStatus.running;
        claim_lock = some lock;
        claim_expires = some expires;
        worker_pid = some pid;
        max_runtime_seconds = none;
        last_heartbeat_at = some now;
        started_at = now;
        ended_at = none;
        outcome = none;
        summary = none;
        metadata = none;
        error = none;
      }
        ∷ [];
  next_run_id = suc db.next_run_id;
}

claim_payload : String → ℕ → String → Json
claim_payload worker_id pid lock = object (
    field "worker_id" (text worker_id)
      (field "pid" (number (pos pid)) (field "lock" (text lock) end)))

abbrev pub write_run_id : ℕ → Task → Task
write_run_id run_id t = record t { current_run_id = some run_id }

-- The dict that claim_task returns.
pub record ClaimInfo : Type 0 where
  pub task_id : String
  pub claim_lock : String
  pub claim_expires : ℕ
  pub workspace_path : Option String

-- The transaction once the UPDATE has matched the row.
unfoldable pub claim_writes : ℕ → String → String → ℕ → String → ℕ → Db → Db
unfolding insert_run claim_payload
claim_writes now task_id worker_id pid lock expires db =
    emit_event now task_id (kind_value TaskEventKind.claimed) (some db.next_run_id)
      (some (claim_payload worker_id pid lock))
      (set_task task_id (write_run_id db.next_run_id) (
        insert_run now task_id worker_id lock expires pid
          (set_task task_id (take_claim now lock expires pid) db)))

pub claim_found : ℕ → String → String → ℕ → String → ℕ → Task → Action (Option ClaimInfo)
claim_found now task_id worker_id pid lock ttl t db =
    if is_claimable now t
    then (
      ok (
          some (record {
            task_id = task_id;
            claim_lock = lock;
            claim_expires = now + ttl;
            workspace_path = t.workspace_path;
          })),
      claim_writes now task_id worker_id pid lock (now + ttl) db,
    )
    else (ok none, db)

-- f"{worker_id}:{pid}"
pub lock_of : String → ℕ → String
unfolding colon_text str_int
lock_of worker_id pid = colon_text worker_id (str_int pid)

-- The UPDATE reaches one row at most, since the id is the primary key; no row is `rowcount == 0`.
unfoldable pub claim_task : ℕ → String → String → ℕ → ℕ → Action (Option ClaimInfo)
unfolding claim_found
claim_task now task_id worker_id pid ttl db = elim (find task_id db.tasks) [
  | none ↦ (ok none, db)
  | some t ↦ claim_found now task_id worker_id pid (lock_of worker_id pid) ttl t db
]

abbrev pub write_heartbeat : ℕ → Task → Task
write_heartbeat now t = record t {
  last_heartbeat_at = some now;
  claim_expires = some (now + default_claim_ttl);
}

abbrev pub write_run_heartbeat : ℕ → TaskRun → TaskRun
write_run_heartbeat now r = record r {
  last_heartbeat_at = some now;
  claim_expires = some (now + default_claim_ttl);
}

pub heartbeat_found : ℕ → String → String → Task → Action Bool
heartbeat_found now task_id claim_lock t db =
    if text_opt_eq t.claim_lock (some claim_lock)
    then (
      ok true,
      emit_event now task_id (kind_value TaskEventKind.heartbeat) t.current_run_id none (
          set_run t.current_run_id (write_run_heartbeat now)
            (set_task task_id (write_heartbeat now) db)),
    )
    else (ok false, db)

unfoldable pub heartbeat : ℕ → String → String → Action Bool
unfolding heartbeat_found
heartbeat now task_id claim_lock db = elim (find task_id db.tasks) [
  | none ↦ (ok false, db)
  | some t ↦ heartbeat_found now task_id claim_lock t db
]
