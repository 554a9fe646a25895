-- ===== src/Dag.antt =====
-- The dependency graph held in `task_links`: the depth-first search that both
-- orchestration/store.py (`_detect_cycle`) and orchestration/dependency.py (`detect_cycle`) run,
-- over the ends of a link that each of them follows. The Python list that serves as stack is kept
-- with its last element first.
pub mod Reach
pub mod Fuel
pub mod Verdict
pub mod Acyclic
use simple_a2a_registry.Prelude.{
  ℕ, zero, suc, ◌+◌, String, Bool, true, false, Option, none, some, List, [], ◌∷◌, map, select,
  contains, length, ◌==◌, if◌then◌else◌,
}
use simple_a2a_registry.Models.{TaskLink}

-- `for r in rows: stack.append(r)`
push_all : List String → List String → List String
push_all [] stack = stack
push_all (r ∷ rows) stack = push_all rows (r ∷ stack)

module _ (src dst : TaskLink → String) (links : List TaskLink) where
  -- `SELECT dst FROM task_links WHERE src=?`
  pub next : String → List String
  next node = map dst (select (λ l. src l == node) links)

  -- The `while stack` loop; `none` when the fuel is used up.
  pub dfs : String → ℕ → List String → List String → Option Bool
  dfs target zero stack visited = none
  dfs target (suc fuel) [] visited = some false
  dfs target (suc fuel) (node ∷ stack) visited =
      let skip = dfs target fuel stack visited in
      let expand = dfs target fuel (push_all (next node) stack) (node ∷ visited) in
      if node == target then some true else if contains visited node then skip else expand

-- Each round takes one node from the stack, and each link is pushed at most once.
abbrev pub search_fuel : List TaskLink → ℕ
search_fuel links = length links + 2

-- TaskStore._detect_cycle: from the child along the child chain, looking for the parent.
unfoldable pub detect_cycle : List TaskLink → String → String → Option Bool
unfolding dfs next push_all
detect_cycle links child_id proposed_parent_id =
    if child_id == proposed_parent_id
    then some true
    else dfs (λ l. l.parent_id) (λ l. l.child_id) links proposed_parent_id (search_fuel links)
        (child_id ∷ []) []

-- dependency.detect_cycle: from the parent along the parent chain, looking for the child.
unfoldable pub detect_cycle_upwards : List TaskLink → String → String → Option Bool
unfolding dfs next push_all
detect_cycle_upwards links child_id proposed_parent_id =
    if child_id == proposed_parent_id
    then some true
    else dfs (λ l. l.child_id) (λ l. l.parent_id) links child_id (search_fuel links)
        (proposed_parent_id ∷ []) []
