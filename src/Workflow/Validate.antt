-- ===== src/Workflow/Validate.antt =====
-- validate_workflow of orchestration/workflow.py: a workflow that it accepts is sorted by
-- _topological_sort with nothing left out.
use simple_a2a_registry.Workflow.{WorkflowDependency, WorkflowTaskSpec, find_spec, topological_sort}
use simple_a2a_registry.Workflow.Edges.{ids_of}
use simple_a2a_registry.Workflow.Sorted.{
  find_spec_absent, IsOrdered, AreAmong, IsUnique, topological_sort_lem,
}
use simple_a2a_registry.Workflow.Cycles.{detect_workflow_cycles}
use simple_a2a_registry.Workflow.Cycles.Ranks.{AreIn, AreSound, detect_workflow_cycles_lem}
use simple_a2a_registry.Prelude.{
  ◌≡◌, inl, inr, refl, String, false, Option, some, List, [], ◌∷◌, ◌++◌, map, contains, In→contains,
  In, text_eq_self, eq_iff, ◌==◌, if◌then◌else◌, Bool-cases,
}

pub record WorkflowSpec : Type 0 where
  pub name : String
  pub description : Option String
  pub tenant : Option String
  pub created_by : String
  pub tasks : List WorkflowTaskSpec

-- The error messages, with what they name.
pub data WorkflowError : Type 0 where
  name_required no_tasks : WorkflowError
  duplicate_id : String → WorkflowError
  unknown_dependency : (task dep : String) → WorkflowError
  circular_dependency : List String → WorkflowError

unfoldable pub duplicate_ids : (seen : List String) → List WorkflowTaskSpec → List WorkflowError
duplicate_ids seen [] = []
duplicate_ids seen (t ∷ tasks) =
    let rest = duplicate_ids (t.id ∷ seen) tasks in
    if contains seen t.id then duplicate_id t.id ∷ rest else rest

unfoldable pub unknown_in :
    (ids : List String) → String → List WorkflowDependency → List WorkflowError
unknown_in ids task [] = []
unknown_in ids task (dep ∷ deps) =
    let rest = unknown_in ids task deps in
    if contains ids dep.task then rest else unknown_dependency task dep.task ∷ rest

unfoldable pub unknown_dependencies :
    (ids : List String) → List WorkflowTaskSpec → List WorkflowError
unknown_dependencies ids [] = []
unknown_dependencies ids (t ∷ tasks) =
    unknown_in ids t.id t.depends_on ++ unknown_dependencies ids tasks

-- `if not errors`: the search for cycles is for workflows without another error.
abbrev pub or_cycles : List WorkflowError → List WorkflowTaskSpec → List WorkflowError
or_cycles [] tasks = map circular_dependency (detect_workflow_cycles tasks)
or_cycles (e ∷ errors) tasks = e ∷ errors

abbrev pub name_errors : String → List WorkflowError
name_errors name = if name == "" then name_required ∷ [] else []

abbrev pub task_errors : List WorkflowError → List WorkflowTaskSpec → List WorkflowError
task_errors errors [] = errors ++ no_tasks ∷ []
task_errors errors (t ∷ tasks) =
    or_cycles
      (errors
        ++ (duplicate_ids [] (t ∷ tasks) ++ unknown_dependencies (ids_of (t ∷ tasks)) (t ∷ tasks)))
      (t ∷ tasks)

unfoldable pub validate_workflow : WorkflowSpec → List WorkflowError
validate_workflow spec = task_errors (name_errors spec.name) spec.tasks

append_nil : {A : Type 0} (xs ys : List A) → xs ++ ys ≡ [] → (xs ≡ []) × (ys ≡ [])
append_nil [] ys e = (refl, e)
append_nil (x ∷ xs) ys e = cc

map_nil : {A B : Type 0} (f : A → B) (xs : List A) → map f xs ≡ [] → xs ≡ []
map_nil f [] e = refl
map_nil f (x ∷ xs) e = cc

or_cycles_nil :
    (errors : List WorkflowError) (tasks : List WorkflowTaskSpec)
    → or_cycles errors tasks ≡ []
    → (errors ≡ []) × (detect_workflow_cycles tasks ≡ [])
or_cycles_nil [] tasks e = (refl, map_nil circular_dependency (detect_workflow_cycles tasks) e)
or_cycles_nil (x ∷ errors) tasks e = cc

-- An id that was seen does not come again.
duplicate_ids_seen :
    (seen : List String) (tasks : List WorkflowTaskSpec) (k : String)
    → duplicate_ids seen tasks ≡ []
    → In k seen
    → contains (ids_of tasks) k ≡ false
unfolding duplicate_ids contains
duplicate_ids_seen seen [] k e m = refl
duplicate_ids_seen seen (t ∷ tasks) k e m = elim (Bool-cases (contains seen t.id)) [
  | inl again ↦ cc (rw again at e)
  | inr new ↦
      let later = duplicate_ids_seen (t.id ∷ seen) tasks k (rw new at e) (inr m) in
      elim (Bool-cases (t.id == k)) [
        | inl same ↦ cc ((eq_iff t.id k).0 same, new, In→contains seen k m)
        | inr other ↦ rw other later
      ]
]

-- Each task is the one that the dict has under its id.
abbrev AreFound : (all tasks : List WorkflowTaskSpec) → Type 0
AreFound all [] = Unit
AreFound all (t ∷ tasks) = (find_spec t.id all ≡ some t) × AreFound all tasks

AreFound-wider :
    (u : WorkflowTaskSpec) (all tasks : List WorkflowTaskSpec)
    → AreFound all tasks
    → AreFound (u ∷ all) tasks
unfolding find_spec
AreFound-wider u all [] h = tt
AreFound-wider u all (t ∷ tasks) (found, h) = (rw found refl, AreFound-wider u all tasks h)

find_spec_newest :
    (t : WorkflowTaskSpec) (tasks : List WorkflowTaskSpec)
    → contains (ids_of tasks) t.id ≡ false
    → find_spec t.id (t ∷ tasks) ≡ some t
unfolding find_spec
find_spec_newest t tasks h = rw (find_spec_absent t.id tasks h, text_eq_self t.id) refl

duplicate_ids-AreFound :
    (seen : List String) (tasks : List WorkflowTaskSpec)
    → duplicate_ids seen tasks ≡ []
    → AreFound tasks tasks
unfolding duplicate_ids
duplicate_ids-AreFound seen [] e = tt
duplicate_ids-AreFound seen (t ∷ tasks) e = elim (Bool-cases (contains seen t.id)) [
  | inl again ↦ cc (rw again at e)
  | inr new ↦
      let rest = rw new at e in
      (
        find_spec_newest t tasks (duplicate_ids_seen (t.id ∷ seen) tasks t.id rest (inl refl)),
        AreFound-wider t tasks tasks (duplicate_ids-AreFound (t.id ∷ seen) tasks rest),
      )
]

unknown_in-AreIn :
    (ids : List String) (task : String) (deps : List WorkflowDependency)
    → unknown_in ids task deps ≡ []
    → AreIn ids deps
unfolding unknown_in
unknown_in-AreIn ids task [] e = tt
unknown_in-AreIn ids task (dep ∷ deps) e = elim (Bool-cases (contains ids dep.task)) [
  | inl here ↦ (here, unknown_in-AreIn ids task deps (rw here at e))
  | inr gone ↦ cc (rw gone at e)
]

AreSound-intro :
    (all tasks : List WorkflowTaskSpec)
    → AreFound all tasks
    → unknown_dependencies (ids_of all) tasks ≡ []
    → AreSound all tasks
unfolding unknown_dependencies
AreSound-intro all [] h e = tt
AreSound-intro all (t ∷ tasks) (found, h) e =
    let (here, rest) = append_nil (unknown_in (ids_of all) t.id t.depends_on) _ e in
    (found, unknown_in-AreIn (ids_of all) t.id t.depends_on here, AreSound-intro all tasks h rest)

-- What an accepted workflow is like: its ids are distinct, its dependencies are tasks of it, and there is
-- no cycle.
pub validate_workflow_lem :
    (spec : WorkflowSpec)
    → validate_workflow spec ≡ []
    → AreSound spec.tasks spec.tasks × (detect_workflow_cycles spec.tasks ≡ [])
unfolding validate_workflow
validate_workflow_lem spec e = task_errors_lem (name_errors spec.name) spec.tasks e
  where
    task_errors_lem :
        (errors : List WorkflowError) (tasks : List WorkflowTaskSpec)
        → task_errors errors tasks ≡ []
        → AreSound tasks tasks × (detect_workflow_cycles tasks ≡ [])
    task_errors_lem errors [] h = absurd (cc (append_nil errors (no_tasks ∷ []) h).1)
    task_errors_lem errors (t ∷ tasks) h =
        let (none_found, acyclic) = or_cycles_nil (errors ++ _) (t ∷ tasks) h in
        let (_, own) = append_nil errors _ none_found in
        let (once, known) = append_nil (duplicate_ids [] (t ∷ tasks)) _ own in
        (
          AreSound-intro (t ∷ tasks) (t ∷ tasks) (duplicate_ids-AreFound [] (t ∷ tasks) once) known,
          acyclic,
        )

-- A workflow that passes the validation is sorted without a KeyError into a list in which every task
-- comes after the tasks it depends on, with every id of the workflow in it, and none twice.
pub topological_sort-validate_workflow :
    (spec : WorkflowSpec)
    → validate_workflow spec ≡ []
    → (ts : List WorkflowTaskSpec) × (topological_sort spec.tasks ≡ some ts)
      × IsOrdered (ids_of spec.tasks) [] ts
      × AreAmong (ids_of spec.tasks) (ids_of ts)
      × IsUnique (ids_of ts)
topological_sort-validate_workflow spec e =
    let (sound, acyclic) = validate_workflow_lem spec e in
    let (rank, ranked) = detect_workflow_cycles_lem spec.tasks sound acyclic in
    topological_sort_lem rank spec.tasks ranked
