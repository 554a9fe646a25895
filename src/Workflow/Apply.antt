-- ===== src/Workflow/Apply.antt =====
-- apply_workflow of orchestration/workflow.py, over TaskStore.create_task.
use simple_a2a_registry.Workflow.{WorkflowDependency, WorkflowTaskSpec, topological_sort}
use simple_a2a_registry.Workflow.Validate.{WorkflowSpec, WorkflowError, validate_workflow}
use simple_a2a_registry.Models.{Task}
use simple_a2a_registry.Db.{Db, Error, Result, ok, raise}
use simple_a2a_registry.Store.Create.{ParentArg, mapping, NewTask, create_task}
use simple_a2a_registry.Store.Create.Laws.{create_task-IsSound}
use simple_a2a_registry.Store.Integrity.{IsSound}
use simple_a2a_registry.Prelude.{
  ℕ, String, Bool, true, false, Option, none, some, List, [], ◌∷◌, ◌++◌, map, ◌==◌, if◌then◌else◌,
  or_else, truthy, length,
}
use Prim.Native.String.{◌++◌ as text_append}

-- The entries of `errors`: what the validation found, a parent that is not there, or the exception of
-- create_task. `sort_failed` stands for a KeyError of the sort, which is not caught.
pub data ApplyError : Type 0 where
  invalid : WorkflowError → ApplyError
  parent_not_created : (task parent : String) → ApplyError
  task_refused : String → Error → ApplyError
  sort_failed : ApplyError

pub record WorkflowResult : Type 0 where
  pub name : String
  pub task_ids : List (String × String)
  pub created_count : ℕ
  pub errors : List ApplyError

unfoldable pub created_as : String → List (String × String) → Option String
created_as id [] = none
created_as id ((k, v) ∷ created) = if k == id then some v else created_as id created

-- The dict of a dependency, its condition left out where it is empty.
abbrev pub parent_arg : String → Option String → ParentArg
parent_arg pid condition = mapping (some pid) (if truthy condition then condition else none)

unfoldable pub known_parents :
    String → List WorkflowDependency → List (String × String) → List ParentArg × List ApplyError
known_parents task [] created = ([], [])
known_parents task (dep ∷ deps) created =
    let (parents, errors) = known_parents task deps created in
    elim (created_as dep.task created) [
      | none ↦ (parents, parent_not_created task dep.task ∷ errors)
      | some pid ↦ (parent_arg pid dep.condition ∷ parents, errors)
    ]

-- The body with the workflow's name and description before it; an empty one is None.
abbrev pub full_body : WorkflowSpec → Option String → Option String
full_body spec body =
    let own = or_else body "" in
    let text =
      (if truthy spec.description
        then text_append "# " (
            text_append spec.name (
              text_append "\n\n"
                (text_append (or_else spec.description "") (text_append "\n\n---\n\n" own))))
        else own) in
    if text == "" then none else some text

-- The arguments of create_task, with the id that it draws.
abbrev pub task_arguments : WorkflowSpec → String → WorkflowTaskSpec → List ParentArg → NewTask
task_arguments spec drawn t parents = record {
  id = drawn;
  title = t.title;
  body = full_body spec t.body;
  assignee = t.assignee;
  priority = t.priority;
  parents = parents;
  workspace_kind = t.workspace_kind;
  workspace_path = t.workspace_path;
  max_runtime_seconds = t.max_runtime_seconds;
  max_retries = t.max_retries;
  tenant = spec.tenant;
  created_by = some spec.created_by;
  parallel_group = none;
}

-- What is kept of one call of create_task: the new id, or the exception.
abbrev pub record_result :
    String → Result Task → List (String × String) → List (String × String) × List ApplyError
record_result id (ok t) created = (created ++ (id, t.id) ∷ [], [])
record_result id (raise e) created = (created, task_refused id e ∷ [])

-- The loop over the sorted tasks. `draw` gives the time and the uuid of the call for a task.
unfoldable pub create_all :
    WorkflowSpec
    → (String → ℕ × String)
    → List WorkflowTaskSpec
    → List (String × String)
    → Db
    → (List (String × String) × List ApplyError) × Db
create_all spec draw [] created db = ((created, []), db)
create_all spec draw (t ∷ ts) created db =
    let (parents, missing) = known_parents t.id t.depends_on created in
    let (now, drawn) = draw t.id in
    let (result, after) = create_task now (task_arguments spec drawn t parents) db in
    let (later, refused) = record_result t.id result created in
    let (answer, last) = create_all spec draw ts later after in
    ((answer.0, missing ++ (refused ++ answer.1)), last)

abbrev pub would_create : List WorkflowTaskSpec → List (String × String)
would_create =
    map (λ (t : WorkflowTaskSpec). (t.id, text_append "(would create: " (text_append t.id ")")))

-- A workflow without validation errors.
unfoldable pub apply_valid : WorkflowSpec → Bool → (String → ℕ × String) → Db → WorkflowResult × Db
apply_valid spec dry_run draw db = elim (topological_sort spec.tasks) [
  | none ↦
      (record { name = spec.name; task_ids = []; created_count = 0; errors = sort_failed ∷ [] }, db)
  | some ts ↦
      if dry_run
      then (
        record {
          name = spec.name;
          task_ids = would_create ts;
          created_count = length ts;
          errors = [];
        },
        db,
      )
      else (let (answer, after) = create_all spec draw ts [] db in
          (
            record {
              name = spec.name;
              task_ids = answer.0;
              created_count = length answer.0;
              errors = answer.1;
            },
            after,
          ))
]

unfoldable pub apply_workflow :
    WorkflowSpec → Bool → (String → ℕ × String) → Db → WorkflowResult × Db
apply_workflow spec dry_run draw db = elim (validate_workflow spec) [
  | [] ↦ apply_valid spec dry_run draw db
  | ◌∷◌ e errors ↦ (
    record {
      name = spec.name;
      task_ids = [];
      created_count = 0;
      errors = map invalid (e ∷ errors);
    },
    db,
  )
]

-- Is a task among the errors that create_task raised on?
unfoldable pub has_refusal : List ApplyError → Bool
has_refusal [] = false
has_refusal (task_refused id e ∷ errors) = true
has_refusal (invalid e ∷ errors) = has_refusal errors
has_refusal (parent_not_created task parent ∷ errors) = has_refusal errors
has_refusal (sort_failed ∷ errors) = has_refusal errors

pub create_all-IsSound :
    (spec : WorkflowSpec) (draw : String → ℕ × String) (ts : List WorkflowTaskSpec)
    (created : List (String × String)) (db : Db)
    → IsSound db
    → IsSound (create_all spec draw ts created db).1
unfolding create_all
create_all-IsSound spec draw [] created db s = s
create_all-IsSound spec draw (t ∷ ts) created db s =
    create_all-IsSound spec draw ts _ _ (create_task-IsSound _ _ db s)
