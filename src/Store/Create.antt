-- ===== src/Store/Create.antt =====
-- TaskStore.create_task.
pub mod Rows
pub mod Links
pub mod Laws
use simple_a2a_registry.Prelude.{
  ℕ, String, Bool, true, false, not, Option, none, some, List, [], ◌∷◌, ◌++◌, is_some, or_else,
  ◌==◌, if◌then◌else◌,
}
use simple_a2a_registry.Models.{
  Task, TaskLink, TaskStatus, todo, ready, value, TaskEventKind, kind_value, ℤ, Json, null, text,
  array, Items, nil, item, object, field, end,
}
use simple_a2a_registry.Dag.{detect_cycle}
use simple_a2a_registry.Db.{
  Db, Action, Result, ok, raise, tx, find, link_exists, emit_event, empty_parent_id,
  parent_not_found, would_create_cycle, integrity_error, search_diverged,
}
use simple_a2a_registry.Store.Edges.{append_link}

-- An element of `parents`: a parent's id, or a dict whose two keys may be missing.
pub data ParentArg : Type 0 where
  plain : String → ParentArg
  mapping : (parent_id condition : Option String) → ParentArg

-- `{"parent_id": pid, "condition": cond}`
pub record ParentSpec : Type 0 where
  pub parent_id : String
  pub condition : Option String

normalize_parent : ParentArg → ParentSpec
normalize_parent (plain pid) = record { parent_id = pid; condition = none }
normalize_parent (mapping pid cond) = record { parent_id = or_else pid ""; condition = cond }

-- The loop that normalizes the parents; `none` where an id is empty, which raises.
unfoldable pub normalize_parents : List ParentArg → Option (List ParentSpec)
unfolding normalize_parent
normalize_parents [] = some []
normalize_parents (p ∷ ps) =
    let rest = normalize_parents ps in
    if (normalize_parent p).parent_id == ""
    then none
    else elim rest [ none ↦ none | some specs ↦ some (normalize_parent p ∷ specs) ]

-- The arguments of create_task. `id` is the one that `ensure_id` draws from uuid4.
pub record NewTask : Type 0 where
  pub id : String
  pub title : String
  pub body : Option String
  pub assignee : Option String
  pub priority : ℤ
  pub parents : List ParentArg
  pub workspace_kind : Option String
  pub workspace_path : Option String
  pub max_runtime_seconds : Option ℕ
  pub max_retries : Option ℕ
  pub tenant : Option String
  pub created_by : Option String
  pub parallel_group : Option String

unfoldable pub initial_status : List ParentSpec → TaskStatus
initial_status [] = ready
initial_status (_ ∷ _) = todo

unfoldable pub new_row : ℕ → NewTask → List ParentSpec → Task
new_row now a specs = record {
  id = a.id;
  title = a.title;
  body = a.body;
  assignee = a.assignee;
  status = initial_status specs;
  priority = a.priority;
  created_by = a.created_by;
  created_at = now;
  started_at = none;
  completed_at = none;
  workspace_kind = a.workspace_kind;
  workspace_path = a.workspace_path;
  claim_lock = none;
  claim_expires = none;
  tenant = a.tenant;
  result = none;
  consecutive_failures = 0;
  worker_pid = none;
  last_failure_error = none;
  max_runtime_seconds = a.max_runtime_seconds;
  last_heartbeat_at = none;
  current_run_id = none;
  max_retries = a.max_retries;
  parallel_group = a.parallel_group;
  next_retry_at = none;
}

-- The loop that looks each parent up.
unfoldable pub check_exist : List ParentSpec → Db → Result (Unit {0})
check_exist [] db = ok tt
check_exist (spec ∷ specs) db =
    if is_some (find spec.parent_id db.tasks)
    then check_exist specs db
    else raise (parent_not_found spec.parent_id)

-- The loop that looks for cycles.
unfoldable pub check_cycles : String → List ParentSpec → Db → Result (Unit {0})
check_cycles i [] db = ok tt
check_cycles i (spec ∷ specs) db =
    let rest = check_cycles i specs db in
    elim (detect_cycle db.links i spec.parent_id) [
      | none ↦ raise search_diverged
      | some true ↦ raise (would_create_cycle spec.parent_id)
      | some false ↦ rest
    ]

-- `INSERT INTO tasks`, which the primary key may refuse.
unfoldable pub insert_task : Task → Action (Unit {0})
insert_task t db =
    if is_some (find t.id db.tasks)
    then (raise integrity_error, db)
    else (ok tt, record db { tasks = db.tasks ++ t ∷ [] })

-- The loop over `INSERT INTO task_links`, whose primary key refuses a parent named twice.
unfoldable pub insert_links : String → List ParentSpec → Action (Unit {0})
insert_links i [] db = (ok tt, db)
insert_links i (spec ∷ specs) db =
    if link_exists spec.parent_id i db.links
    then (raise integrity_error, db)
    else insert_links i specs (append_link spec.parent_id i spec.condition db)

text_or_null : Option String → Json
text_or_null none = null
text_or_null (some s) = text s

spec_items : List ParentSpec → Items
unfolding text_or_null
spec_items [] = nil
spec_items (spec ∷ specs) =
    item
      (object (
        field "parent_id" (text spec.parent_id)
          (field "condition" (text_or_null spec.condition) end)))
      (spec_items specs)

created_payload : NewTask → List ParentSpec → Json
unfolding text_or_null spec_items
created_payload a specs = object (
    field "assignee" (text_or_null a.assignee) (
      field "parents" (array (spec_items specs))
        (field "status" (text (value (initial_status specs))) end)))

-- Run the next statement where the one before did not raise.
abbrev pub and_then : {A : Type 0} → Result (Unit {0}) × Db → Action A → Result A × Db
and_then (ok _, db) next = next db
and_then (raise e, db) next = (raise e, db)

unfoldable pub created_event : ℕ → NewTask → List ParentSpec → Action Task
unfolding created_payload
created_event now a specs db = (
  ok (new_row now a specs),
  emit_event now a.id (kind_value TaskEventKind.created) none (some (created_payload a specs)) db,
)

unfoldable pub create_block : ℕ → NewTask → List ParentSpec → Action Task
create_block now a specs db =
    and_then (check_exist specs db, db)
      λ db₁.
        and_then (check_cycles a.id specs db₁, db₁)
          λ db₂.
            and_then (insert_task (new_row now a specs) db₂)
              λ db₃. and_then (insert_links a.id specs db₃) (created_event now a specs)

unfoldable pub create_task : ℕ → NewTask → Action Task
create_task now a db = elim (normalize_parents a.parents) [
  | none ↦ (raise empty_parent_id, db)
  | some specs ↦ tx (create_block now a specs) db
]
