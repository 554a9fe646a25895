-- ===== src/Db.antt =====
-- The database that orchestration/store.py works on: its tables and the statements that the store
-- executes. A method is an action: it takes the database and gives its result, or the exception
-- that it raises, beside the database as it stands then.
pub mod Frame
pub mod Tx
use simple_a2a_registry.Prelude.{
  ℕ, suc, ◌+◌, String, Bool, true, false, ◌&&◌, Option, none, some, List, [], ◌∷◌, ◌++◌, map,
  select, nat_eq, is_some, ◌==◌, if◌then◌else◌,
}
use simple_a2a_registry.Models.{Task, TaskLink, TaskRun, TaskComment, TaskEvent, Json}

pub record Db : Type 0 where
  pub tasks : List Task
  pub links : List TaskLink
  pub runs : List TaskRun
  pub comments : List TaskComment
  pub events : List TaskEvent
  -- the AUTOINCREMENT counters
  pub next_run_id : ℕ
  pub next_comment_id : ℕ
  pub next_event_id : ℕ

abbrev pub empty_db : Db
empty_db = record {
  tasks = [];
  links = [];
  runs = [];
  comments = [];
  events = [];
  next_run_id = 1;
  next_comment_id = 1;
  next_event_id = 1;
}

-- What a method may raise. The first group are ValueErrors, InvalidTransitionError among them.
pub data Error : Type 0 where
  task_not_found parent_not_found would_create_cycle : String → Error
  empty_parent_id self_link : Error
  invalid_transition : String → String → Error
  permission_error : Error
  overflow_error : Error
  attribute_error : Error
  integrity_error : Error
  search_diverged : Error

-- `except ValueError`
unfoldable pub is_value_error : Error → Bool
is_value_error (task_not_found i) = true
is_value_error (parent_not_found i) = true
is_value_error (would_create_cycle i) = true
is_value_error empty_parent_id = true
is_value_error self_link = true
is_value_error (invalid_transition a b) = true
is_value_error _ = false

pub data Result (A : Type 0) : Type 0 where
  ok : A → Result A
  raise : Error → Result A

abbrev pub Action : Type 0 → Type 0
Action A = Db → Result A × Db

-- `with self._tx()`: commit when the block returns, roll back when it raises.
unfoldable pub close_tx : {A : Type 0} → Db → Result A × Db → Result A × Db
close_tx before (ok a, after) = (ok a, after)
close_tx before (raise e, after) = (raise e, before)

unfoldable pub tx : {A : Type 0} → Action A → Action A
unfolding close_tx
tx block db = close_tx db (block db)

-- `SELECT * FROM tasks WHERE id=?`, the first row.
unfoldable pub find : String → List Task → Option Task
find i [] = none
find i (t ∷ ts) = if t.id == i then some t else find i ts

-- `UPDATE tasks SET ... WHERE id=?`
unfoldable pub update_task_by_id : String → (Task → Task) → List Task → List Task
update_task_by_id i f [] = []
update_task_by_id i f (t ∷ ts) = (if t.id == i then f t else t) ∷ update_task_by_id i f ts

-- `UPDATE task_runs SET ... WHERE id=?`
unfoldable pub update_run_by_id : ℕ → (TaskRun → TaskRun) → List TaskRun → List TaskRun
update_run_by_id i f [] = []
update_run_by_id i f (r ∷ rs) = (if nat_eq r.id i then f r else r) ∷ update_run_by_id i f rs

unfoldable pub set_task : String → (Task → Task) → Db → Db
unfolding update_task_by_id
set_task i f db = record db { tasks = update_task_by_id i f db.tasks }

-- the same on the run that a task names, if it names one
unfoldable pub set_run : Option ℕ → (TaskRun → TaskRun) → Db → Db
unfolding update_run_by_id
set_run none f db = db
set_run (some i) f db = record db { runs = update_run_by_id i f db.runs }

-- `SELECT 1 FROM task_links WHERE parent_id=? AND child_id=?`
abbrev pub joins : String → String → TaskLink → Bool
joins parent_id child_id l = l.parent_id == parent_id && l.child_id == child_id

unfoldable pub link_exists : String → String → List TaskLink → Bool
link_exists parent_id child_id [] = false
link_exists parent_id child_id (l ∷ ls) =
    if joins parent_id child_id l then true else link_exists parent_id child_id ls

-- _emit_event; the id that it returns is read nowhere.
unfoldable pub emit_event : ℕ → String → String → Option ℕ → Option Json → Db → Db
emit_event now task_id kind run_id payload db = record db {
  events =
      db.events
      ++ record {
        id = db.next_event_id;
        task_id = task_id;
        run_id = run_id;
        kind = kind;
        payload = payload;
        created_at = now;
      }
        ∷ [];
  next_event_id = suc db.next_event_id;
}
