-- ===== src/Tests/Workflows.antt =====
-- The workflows.
use simple_a2a_registry.Prelude.{
  ℕ, contains, select, String, false, none, some, List, [], ◌∷◌, ◌≡◌, refl,
}
use simple_a2a_registry.Models.{pos, kind_value, value}
use simple_a2a_registry.Db.{empty_db, close_tx, emit_event, find, link_exists, tx}
use simple_a2a_registry.Dag.{detect_cycle}
use simple_a2a_registry.Store.Create.{
  check_cycles, check_exist, create_block, create_task, created_event, initial_status, insert_links,
  insert_task, new_row, normalize_parents,
}
use simple_a2a_registry.Store.Edges.{append_link}
use simple_a2a_registry.Store.Integrity.{IsSound, IsSound-empty}
use simple_a2a_registry.Workflow.{
  WorkflowDependency, WorkflowTaskSpec, topological_sort, find_spec, specs_of, sorted_ids, kahn,
  adjust, count_deps, count_tasks, degree, initial_degrees, relax_deps, relax_tasks, roots,
}
use simple_a2a_registry.Workflow.Cycles.{
  detect_workflow_cycles, visit_tasks, visit_task, visit_node, visit_deps, visit_dep, climb,
  parent_of,
}
use simple_a2a_registry.Workflow.Edges.{ids_of}
use simple_a2a_registry.Workflow.Sorted.{IsOrdered, AreAmong, IsUnique}
use simple_a2a_registry.Workflow.Validate.{
  WorkflowSpec, duplicate_ids, unknown_dependencies, unknown_in, validate_workflow,
  topological_sort-validate_workflow,
}
use simple_a2a_registry.Workflow.Apply.{
  apply_workflow, apply_valid, create_all, created_as, known_parents, has_refusal,
}
use simple_a2a_registry.Workflow.Whole.{HaveTasks, apply_workflow_whole, apply_workflow-IsSound}

abbrev step : String → List WorkflowDependency → WorkflowTaskSpec
step id deps = record {
  id = id;
  title = id;
  body = none;
  assignee = some "coder";
  priority = pos 0;
  max_runtime_seconds = none;
  max_retries = none;
  workspace_kind = none;
  workspace_path = none;
  depends_on = deps;
}

abbrev on : String → WorkflowDependency
on id = record { task = id; condition = some "success" }

-- The tests are written before the code that they wait for.
abbrev release_flow : WorkflowSpec
release_flow = record {
  name = "release";
  description = some "Ship it";
  tenant = none;
  created_by = "workflow-engine";
  tasks = step "test" (on "build" ∷ []) ∷ step "build" [] ∷ [];
}

abbrev draw : String → ℕ × String
draw id = (7, id)

is_valid : validate_workflow release_flow ≡ []
unfolding validate_workflow duplicate_ids contains unknown_dependencies unknown_in
    detect_workflow_cycles visit_tasks visit_task visit_node find_spec visit_deps visit_dep
is_valid = refl

topological_sort-validate_workflow_example :
    (ts : List WorkflowTaskSpec) × (topological_sort release_flow.tasks ≡ some ts)
    × IsOrdered (ids_of release_flow.tasks) [] ts
    × AreAmong (ids_of release_flow.tasks) (ids_of ts)
    × IsUnique (ids_of ts)
topological_sort-validate_workflow_example =
    topological_sort-validate_workflow release_flow is_valid

none_refused : has_refusal (apply_workflow release_flow false draw empty_db).0.errors ≡ false
unfolding has_refusal apply_workflow validate_workflow duplicate_ids contains unknown_dependencies
    unknown_in detect_workflow_cycles visit_tasks visit_task visit_node find_spec visit_deps
    visit_dep apply_valid topological_sort specs_of sorted_ids kahn detect_cycle close_tx emit_event
    find link_exists tx kind_value value select check_cycles check_exist create_block create_task
    created_event initial_status insert_links insert_task new_row normalize_parents append_link
    create_all created_as known_parents climb parent_of adjust count_deps count_tasks degree
    initial_degrees relax_deps relax_tasks roots
none_refused = refl

apply_workflow_whole_example :
    ((apply_workflow release_flow false draw empty_db).0.errors ≡ [])
    × HaveTasks
        (ids_of release_flow.tasks)
        (apply_workflow release_flow false draw empty_db).0.task_ids
apply_workflow_whole_example = apply_workflow_whole release_flow draw empty_db is_valid none_refused

apply_workflow-IsSound_example : IsSound (apply_workflow release_flow false draw empty_db).1
apply_workflow-IsSound_example =
    apply_workflow-IsSound release_flow false draw empty_db IsSound-empty
