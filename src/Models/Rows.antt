-- ===== src/Models/Rows.antt =====
-- The rows of the tables `tasks`, `task_links`, `task_runs`, `task_comments`, `task_events`.
use simple_a2a_registry.Prelude.{ℕ, String, Option}
use simple_a2a_registry.Models.Status.{TaskStatus, TaskRunStatus}

-- A Python integer that may be negative; `negsuc n` is -(n + 1).
pub data ℤ : Type 0 where
  pos : ℕ → ℤ
  negsuc : ℕ → ℤ

-- A JSON value, as `json.dumps` receives it.
mutual
  pub data Json : Type 0 where
    null : Json
    text : String → Json
    number : ℤ → Json
    array : Items → Json
    object : Fields → Json

  pub data Items : Type 0 where
    nil : Items
    item : Json → Items → Items

  pub data Fields : Type 0 where
    end : Fields
    field : String → Json → Fields → Fields

pub record Task : Type 0 where
  pub id : String
  pub title : String
  pub body : Option String
  pub assignee : Option String
  pub status : TaskStatus
  pub priority : ℤ
  pub created_by : Option String
  pub created_at : ℕ
  pub started_at : Option ℕ
  pub completed_at : Option ℕ
  pub workspace_kind : Option String
  pub workspace_path : Option String
  pub claim_lock : Option String
  pub claim_expires : Option ℕ
  pub tenant : Option String
  pub result : Option String
  pub consecutive_failures : ℕ
  pub worker_pid : Option ℕ
  pub last_failure_error : Option String
  pub max_runtime_seconds : Option ℕ
  pub last_heartbeat_at : Option ℕ
  pub current_run_id : Option ℕ
  pub max_retries : Option ℕ
  pub parallel_group : Option String
  pub next_retry_at : Option ℕ

pub record TaskLink : Type 0 where
  pub parent_id : String
  pub child_id : String
  pub condition : Option String

pub record TaskRun : Type 0 where
  pub id : ℕ
  pub task_id : String
  pub profile : Option String
  pub status : TaskRunStatus
  pub claim_lock : Option String
  pub claim_expires : Option ℕ
  pub worker_pid : Option ℕ
  pub max_runtime_seconds : Option ℕ
  pub last_heartbeat_at : Option ℕ
  pub started_at : ℕ
  pub ended_at : Option ℕ
  pub outcome : Option String
  pub summary : Option String
  pub metadata : Option Json
  pub error : Option String

pub record TaskComment : Type 0 where
  pub id : ℕ
  pub task_id : String
  pub author : String
  pub body : String
  pub created_at : ℕ

pub record TaskEvent : Type 0 where
  pub id : ℕ
  pub task_id : String
  pub run_id : Option ℕ
  pub kind : String
  pub payload : Option Json
  pub created_at : ℕ
