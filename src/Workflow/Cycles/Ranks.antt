-- ===== src/Workflow/Cycles/Ranks.antt =====
-- _detect_workflow_cycles of orchestration/workflow.py: a workflow in which it finds no cycle is acyclic,
-- the order in which its tasks are coloured BLACK being the rank.
use simple_a2a_registry.Workflow.{WorkflowDependency, WorkflowTaskSpec, find_spec}
use simple_a2a_registry.Workflow.Edges.{ids_of}
use simple_a2a_registry.Workflow.Order.{undone_start}
use simple_a2a_registry.Workflow.Complete.{IsBelow, IsRanked}
use simple_a2a_registry.Workflow.Sorted.{AreBefore, length-ids_of}
use simple_a2a_registry.Workflow.Cycles.{
  Search, visit_node, visit_task, visit_tasks, detect_workflow_cycles,
}
use simple_a2a_registry.Workflow.Cycles.Visit.{
  Grows, Grows-refl, Grows-trans, IsTopological, visit_node-Visits, undone_fewer,
}
use simple_a2a_registry.Prelude.{
  ℕ, suc, arith, ◌≤◌, ◌<◌, ◌≡◌, inl, inr, refl, String, true, false, some, List, [], ◌∷◌, contains,
  contains→In, In→contains, In, length, text_eq_self, ◌==◌, if◌then◌else◌, Bool-cases,
}

-- Nothing is left coloured GRAY.
abbrev pub IsIdle : Search → Type 0
IsIdle s = (k : String) → In k s.entered → In k s.blackened

visit_task_black :
    (all : List WorkflowTaskSpec) (id : String) (s : Search)
    → contains s.blackened id ≡ true
    → visit_task all id s ≡ s
unfolding visit_task
visit_task_black all id s b = rw (visit_task, b) refl

visit_task_white :
    (all : List WorkflowTaskSpec) (id : String) (s : Search)
    → contains s.blackened id ≡ false
    → contains s.entered id ≡ false
    → visit_task all id s ≡ visit_node (length all) all id s
unfolding visit_task
visit_task_white all id s o w = rw (visit_task, o, w) refl

-- One task of the loop.
visit_task_lem :
    (all : List WorkflowTaskSpec) (id : String) (s : Search)
    → In id (ids_of all)
    → IsIdle s
    → Grows all s (visit_task all id s)
      × IsIdle (visit_task all id s)
      × ((visit_task all id s).cycles ≡ [] → In id (visit_task all id s).blackened)
visit_task_lem all id s m idle = elim (Bool-cases (contains s.blackened id)) [
  | inl b ↦
      rw (visit_task_black all id s b) (Grows-refl all s, idle, λ e. contains→In s.blackened id b)
  | inr o ↦ elim (Bool-cases (contains s.entered id)) [
    | inl g ↦ cc (o, In→contains s.blackened id (idle id (contains→In s.entered id g)))
    | inr w ↦
        let enough = undone_fewer [] s.entered (ids_of all) (λ k m. absurd m) in
        let (grown, seen) =
          visit_node-Visits all (length all) id s m w
            (omega (arith, enough, undone_start (ids_of all), length-ids_of all)) in
        rw (visit_task_white all id s o w) (
          grown,
          λ k i. elim (grown.settled k i) [ inl j ↦ grown.black_in k (idle k j) | inr b ↦ b ],
          seen,
        )
  ]
]

visit_tasks_lem :
    (all tasks : List WorkflowTaskSpec) (s : Search)
    → ((k : String) → In k (ids_of tasks) → In k (ids_of all))
    → IsIdle s
    → Grows all s (visit_tasks all tasks s)
      × ((visit_tasks all tasks s).cycles ≡ []
          → (k : String) → In k (ids_of tasks)
          → In k (visit_tasks all tasks s).blackened)
unfolding visit_tasks
visit_tasks_lem all [] s among idle = (Grows-refl all s, λ e k m. absurd m)
visit_tasks_lem all (t ∷ tasks) s among idle =
    let (grown, still_idle, seen) = visit_task_lem all t.id s (among t.id (inl refl)) idle in
    let (grows, rest) =
      visit_tasks_lem all tasks (visit_task all t.id s) (λ k m. among k (inr m)) still_idle in
    (
      Grows-trans all s _ _ grown grows,
      λ e k m. elim m [
        | inl same ↦ rw (← same) (grows.black_in t.id (seen (grows.clean e)))
        | inr i ↦ rest e k i
      ],
    )

-- Every dependency is a task of the workflow.
abbrev pub AreIn : List String → List WorkflowDependency → Type 0
AreIn ids [] = Unit
AreIn ids (dep ∷ deps) = (contains ids dep.task ≡ true) × AreIn ids deps

-- The rank of an id: how many were coloured before its first time, and itself.
unfoldable pub rank_in : List String → String → ℕ
rank_in [] k = 0
rank_in (n ∷ ns) k =
    let rest = rank_in ns k in if contains ns k then rest else if n == k then suc (length ns) else 0

rank_in_most : (ns : List String) (k : String) → rank_in ns k ≤ length ns
unfolding rank_in
rank_in_most [] k = omega arith
rank_in_most (n ∷ ns) k =
    let ih = rank_in_most ns k in
    elim (Bool-cases (contains ns k)) [
      | inl c ↦ rw c (omega arith)
      | inr o ↦ elim (Bool-cases (n == k)) [
        | inl s ↦ rw (o, s) (omega arith)
        | inr d ↦ rw (o, d) (omega arith)
      ]
    ]

rank_in_later :
    (n : String) (ns : List String) (k : String) → In k ns → rank_in (n ∷ ns) k ≡ rank_in ns k
unfolding rank_in
rank_in_later n ns k m = rw (In→contains ns k m) refl

-- The dependencies are coloured, and below a bound.
AreLower : List String → ℕ → List WorkflowDependency → Type 0
AreLower ns bound [] = Unit
AreLower ns bound (dep ∷ deps) =
    In dep.task ns × (rank_in ns dep.task < bound) × AreLower ns bound deps

AreLower-later :
    (n : String) (ns : List String) (bound : ℕ) (deps : List WorkflowDependency)
    → AreLower ns bound deps
    → AreLower (n ∷ ns) bound deps
unfolding AreLower
AreLower-later n ns bound [] h = tt
AreLower-later n ns bound (dep ∷ deps) (m, low, h) =
    (inr m, rw (rank_in_later n ns dep.task m) low, AreLower-later n ns bound deps h)

AreLower-newest :
    (ids : List String) (n : String) (ns : List String) (deps : List WorkflowDependency)
    → AreBefore ids ns deps
    → AreIn ids deps
    → AreLower (n ∷ ns) (suc (length ns)) deps
unfolding AreLower
AreLower-newest ids n ns [] h known = tt
AreLower-newest ids n ns (dep ∷ deps) (b, h) (k, known) =
    let m = elim b as (λ _. In dep.task ns) [ inl gone ↦ cc (gone, k) | inr i ↦ i ] in
    (
      inr m,
      omega (arith, rank_in_later n ns dep.task m, rank_in_most ns dep.task),
      AreLower-newest ids n ns deps h known,
    )

rank_in_newest :
    (n : String) (ns : List String) → contains ns n ≡ false → rank_in (n ∷ ns) n ≡ suc (length ns)
unfolding rank_in
rank_in_newest n ns o = rw (o, text_eq_self n) refl

-- A task is coloured above its dependencies.
rank_in_lem :
    (tasks : List WorkflowTaskSpec) (ns : List String) (t : WorkflowTaskSpec)
    → IsTopological tasks ns
    → In t.id ns
    → find_spec t.id tasks ≡ some t
    → AreIn (ids_of tasks) t.depends_on
    → AreLower ns (rank_in ns t.id) t.depends_on
rank_in_lem tasks [] t top m found known = absurd m
rank_in_lem tasks (n ∷ ns) t (before, top) m found known = elim (Bool-cases (contains ns t.id)) [
  | inl c ↦
      let i = contains→In ns t.id c in
      rw (rank_in_later n ns t.id i) (
        AreLower-later n ns (rank_in ns t.id) t.depends_on
          (rank_in_lem tasks ns t top i found known))
  | inr o ↦ elim m [
    | inr i ↦ cc (o, In→contains ns t.id i)
    | inl same ↦
        rw (same, rank_in_newest t.id ns o)
          (AreLower-newest (ids_of tasks) t.id ns t.depends_on (before t (rw same found)) known)
  ]
]

AreLower-IsBelow :
    (ns : List String) (bound : ℕ) (deps : List WorkflowDependency)
    → AreLower ns bound deps
    → IsBelow (rank_in ns) bound deps
unfolding AreLower
AreLower-IsBelow ns bound [] h = tt
AreLower-IsBelow ns bound (dep ∷ deps) (_, low, h) = (low, AreLower-IsBelow ns bound deps h)

-- Every task has the dict's entry of its id, and its dependencies are tasks.
abbrev pub AreSound : (all tasks : List WorkflowTaskSpec) → Type 0
AreSound all [] = Unit
AreSound all (t ∷ tasks) =
    (find_spec t.id all ≡ some t) × AreIn (ids_of all) t.depends_on × AreSound all tasks

IsRanked_lem :
    (all tasks : List WorkflowTaskSpec) (ns : List String)
    → AreSound all tasks
    → IsTopological all ns
    → ((k : String) → In k (ids_of tasks) → In k ns)
    → IsRanked (rank_in ns) tasks
IsRanked_lem all [] ns h top m = tt
IsRanked_lem all (t ∷ tasks) ns (found, known, h) top m = (
  AreLower-IsBelow ns (rank_in ns t.id) t.depends_on
      (rank_in_lem all ns t top (m t.id (inl refl)) found known),
  IsRanked_lem all tasks ns h top (λ k i. m k (inr i)),
)

-- Where the search finds no cycle, there is a rank.
pub detect_workflow_cycles_lem :
    (tasks : List WorkflowTaskSpec)
    → AreSound tasks tasks
    → detect_workflow_cycles tasks ≡ []
    → (rank : String → ℕ) × IsRanked rank tasks
unfolding detect_workflow_cycles
detect_workflow_cycles_lem tasks h clean =
    let start : Search = record { entered = []; blackened = []; parent = []; cycles = [] } in
    let (grows, all) = visit_tasks_lem tasks tasks start (λ k m. m) (λ k m. m) in
    (rank_in _, IsRanked_lem tasks tasks _ h (grows.topological (λ e. tt) clean) (all clean))
