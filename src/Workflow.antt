-- ===== src/Workflow.antt =====
-- The workflows of orchestration/workflow.py: the parsed specification, and the topological sort that
-- gives the order in which apply_workflow creates the tasks.
pub mod Edges
pub mod Queue
pub mod Taken
pub mod Degrees
pub mod Start
pub mod Order
pub mod Complete
pub mod Sorted
pub mod Cycles
pub mod Validate
pub mod Apply
pub mod Loop
pub mod Whole
use simple_a2a_registry.Models.{ℤ}
use simple_a2a_registry.Prelude.{
  ℕ, zero, suc, ◌+◌, ◌-◌, String, Bool, true, false, not, ◌&&◌, Option, none, some, List, [], ◌∷◌,
  ◌++◌, map, select, contains, ltb, length, is_some, nat_eq, ◌==◌, if◌then◌else◌,
}

pub record WorkflowDependency : Type 0 where
  pub task : String
  pub condition : Option String

pub record WorkflowTaskSpec : Type 0 where
  pub id : String
  pub title : String
  pub body : Option String
  pub assignee : Option String
  pub priority : ℤ
  pub max_runtime_seconds : Option ℕ
  pub max_retries : Option ℕ
  pub workspace_kind : Option String
  pub workspace_path : Option String
  pub depends_on : List WorkflowDependency

-- The dict `in_degree`, in the order of its keys.
unfoldable pub degree : String → List (String × ℕ) → Option ℕ
degree k [] = none
degree k ((j, n) ∷ degrees) = if j == k then some n else degree k degrees

-- `in_degree[k] = f(in_degree[k])`
unfoldable pub adjust : (ℕ → ℕ) → String → List (String × ℕ) → List (String × ℕ)
adjust f k [] = []
adjust f k ((j, n) ∷ degrees) =
    let rest = adjust f k degrees in if j == k then (j, f n) ∷ degrees else (j, n) ∷ rest

-- `{t.id: 0 for t in tasks}`
unfoldable pub initial_degrees : List WorkflowTaskSpec → List (String × ℕ) → List (String × ℕ)
initial_degrees [] degrees = degrees
initial_degrees (t ∷ tasks) degrees =
    initial_degrees tasks
      (if is_some (degree t.id degrees) then degrees else degrees ++ (t.id, 0) ∷ [])

unfoldable pub count_deps : String → List WorkflowDependency → List (String × ℕ) → List (String × ℕ)
count_deps id [] degrees = degrees
count_deps id (dep ∷ deps) degrees =
    count_deps id deps
      (if is_some (degree dep.task degrees) then adjust suc id degrees else degrees)

unfoldable pub count_tasks : List WorkflowTaskSpec → List (String × ℕ) → List (String × ℕ)
count_tasks [] degrees = degrees
count_tasks (t ∷ tasks) degrees = count_tasks tasks (count_deps t.id t.depends_on degrees)

-- `[tid for tid, deg in in_degree.items() if deg == 0]`
unfoldable pub roots : List (String × ℕ) → List String
roots [] = []
roots ((k, n) ∷ degrees) = let rest = roots degrees in if nat_eq n 0 then k ∷ rest else rest

-- A task joins the queue when it waits for nothing.
abbrev pub enqueue : Option ℕ → String → List String → List String
enqueue (some zero) id queue = queue ++ id ∷ []
enqueue (some (suc n)) id queue = queue
enqueue none id queue = queue

-- One dependency less to wait for.
abbrev pub relax : String → List (String × ℕ) × List String → List (String × ℕ) × List String
relax id (degrees, queue) =
    let after = adjust (λ n. n - 1) id degrees in (after, enqueue (degree id after) id queue)

unfoldable pub relax_deps :
    String
    → String
    → List WorkflowDependency
    → List (String × ℕ) × List String
    → List (String × ℕ) × List String
relax_deps node id [] s = s
relax_deps node id (dep ∷ deps) s =
    relax_deps node id deps (if dep.task == node && is_some (degree id s.0) then relax id s else s)

unfoldable pub relax_tasks :
    String
    → List WorkflowTaskSpec
    → List (String × ℕ) × List String
    → List (String × ℕ) × List String
relax_tasks node [] s = s
relax_tasks node (t ∷ tasks) s = relax_tasks node tasks (relax_deps node t.id t.depends_on s)

-- The ids in the order in which the loop takes them from the queue; fuel of one for each task is enough.
unfoldable pub kahn : ℕ → List WorkflowTaskSpec → List (String × ℕ) × List String → List String
kahn zero tasks s = []
kahn (suc fuel) tasks (degrees, []) = []
kahn (suc fuel) tasks (degrees, node ∷ queue) =
    node ∷ kahn fuel tasks (relax_tasks node tasks (degrees, queue))

unfoldable pub sorted_ids : List WorkflowTaskSpec → List String
sorted_ids tasks =
    let degrees = count_tasks tasks (initial_degrees tasks []) in
    let visited = kahn (length tasks) tasks (degrees, roots degrees) in
    if ltb (length visited) (length tasks)
    then visited
      ++ select (λ id. not (contains visited id)) (map (λ (t : WorkflowTaskSpec). t.id) tasks)
    else visited

-- `id_map[sid]`: the last task of an id is the one that the dict keeps.
unfoldable pub find_spec : String → List WorkflowTaskSpec → Option WorkflowTaskSpec
find_spec id [] = none
find_spec id (t ∷ tasks) =
    let later = find_spec id tasks in
    elim later [ some u ↦ some u | none ↦ if t.id == id then some t else none ]

-- `none` is the KeyError of an id without a task.
unfoldable pub specs_of : List String → List WorkflowTaskSpec → Option (List WorkflowTaskSpec)
specs_of [] tasks = some []
specs_of (id ∷ ids) tasks =
    let rest = specs_of ids tasks in
    elim (find_spec id tasks) [
      | none ↦ none
      | some t ↦ elim rest [ none ↦ none | some ts ↦ some (t ∷ ts) ]
    ]

unfoldable pub topological_sort : List WorkflowTaskSpec → Option (List WorkflowTaskSpec)
topological_sort tasks = specs_of (sorted_ids tasks) tasks
