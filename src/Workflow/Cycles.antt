-- ===== src/Workflow/Cycles.antt =====
-- _detect_workflow_cycles of orchestration/workflow.py, the depth-first search for cycles.
pub mod Visit
pub mod Ranks
use simple_a2a_registry.Workflow.{WorkflowDependency, WorkflowTaskSpec, find_spec}
use simple_a2a_registry.Workflow.Edges.{ids_of}
use simple_a2a_registry.Prelude.{
  ℕ, zero, suc, String, Bool, true, false, Option, none, some, List, [], ◌∷◌, ◌++◌, contains,
  length, ◌==◌, if◌then◌else◌,
}

-- What `dfs` shares: the ids that were coloured GRAY so far, those that were then coloured BLACK, the
-- newest first, the parents, and the paths of the cycles found.
pub record Search : Type 0 where
  pub entered : List String
  pub blackened : List String
  pub parent : List (String × String)
  pub cycles : List (List String)

pub data Color : Type 0 where
  white gray black : Color

abbrev pub color_in : Search → String → Color
color_in s id =
    if contains s.blackened id then black else if contains s.entered id then gray else white

unfoldable pub parent_of : String → List (String × String) → Option String
parent_of id [] = none
parent_of id ((child, p) ∷ parents) = if child == id then some p else parent_of id parents

-- The loop that follows the parents up to `dep`, and puts each before the path.
unfoldable pub climb : ℕ → List (String × String) → (dep cur : String) → List String → List String
climb zero parents dep cur path = path
climb (suc fuel) parents dep cur path = if cur == dep then path else elim (parent_of cur parents) [
  | none ↦ cur ∷ path
  | some p ↦ climb fuel parents dep p (cur ∷ path)
]

-- `path`, reversed: the way from `dep` down to the node, and back to `dep`.
abbrev pub cycle_path : List String → Search → (node dep : String) → List String
cycle_path ids s node dep = dep ∷ climb (length ids) s.parent dep node (dep ∷ [])

-- One dependency of `node`, where `visit` is the recursive call.
unfoldable pub visit_dep :
    (String → Search → Search) → List String → (node dep : String) → Search → Search
visit_dep visit ids node dep s =
    if contains ids dep
    then elim (color_in s dep) [
      | gray ↦ record s { cycles = s.cycles ++ cycle_path ids s node dep ∷ [] }
      | white ↦ visit dep (record s { parent = (dep, node) ∷ s.parent })
      | black ↦ s
    ]
    else s

unfoldable pub visit_deps :
    (String → Search → Search) → List String → String → List WorkflowDependency → Search → Search
visit_deps visit ids node [] s = s
visit_deps visit ids node (dep ∷ deps) s =
    visit_deps visit ids node deps (visit_dep visit ids node dep.task s)

abbrev pub enter : String → Search → Search
enter node s = record s { entered = node ∷ s.entered }

abbrev pub leave : String → Search → Search
leave node s = record s { blackened = node ∷ s.blackened }

-- The recursion enters a new task each time, so that fuel of one for each task is enough.
unfoldable pub visit_node : ℕ → List WorkflowTaskSpec → String → Search → Search
visit_node zero tasks node s = s
visit_node (suc fuel) tasks node s =
    let visit = visit_node fuel tasks in
    elim (find_spec node tasks) [
      | none ↦ leave node (enter node s)
      | some t ↦ leave node (visit_deps visit (ids_of tasks) node t.depends_on (enter node s))
    ]

-- `if color[t.id] == WHITE: dfs(t.id)`
unfoldable pub visit_task : List WorkflowTaskSpec → String → Search → Search
visit_task all id s = elim (color_in s id) [
  | white ↦ visit_node (length all) all id s
  | gray ↦ s
  | black ↦ s
]

unfoldable pub visit_tasks : List WorkflowTaskSpec → List WorkflowTaskSpec → Search → Search
visit_tasks all [] s = s
visit_tasks all (t ∷ tasks) s = visit_tasks all tasks (visit_task all t.id s)

unfoldable pub detect_workflow_cycles : List WorkflowTaskSpec → List (List String)
detect_workflow_cycles tasks =
    (visit_tasks tasks tasks
      (record { entered = []; blackened = []; parent = []; cycles = [] })).cycles
