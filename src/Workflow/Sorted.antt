-- ===== src/Workflow/Sorted.antt =====
-- The result of _topological_sort in orchestration/workflow.py.
use simple_a2a_registry.Workflow.{
  WorkflowDependency, WorkflowTaskSpec, initial_degrees, count_tasks, roots, kahn, sorted_ids,
  find_spec, specs_of, topological_sort,
}
use simple_a2a_registry.Workflow.Edges.{ids_of, edges_of, edges}
use simple_a2a_registry.Workflow.Queue.{IsDistinct}
use simple_a2a_registry.Workflow.Taken.{pending, not_contained}
use simple_a2a_registry.Workflow.Start.{start-Holds}
use simple_a2a_registry.Workflow.Order.{
  IsReadyInTurn, kahn-IsReadyInTurn, kahn-IsDistinct, undone_start,
}
use simple_a2a_registry.Workflow.Complete.{IsRanked, kahn_complete}
use simple_a2a_registry.Prelude.{
  ℕ, suc, arith, ◌+◌, ◌≤◌, String, Bool, true, false, not, inl, inr, ◌≡◌, ◌⊎◌, refl, ap, ◌∙◌, none,
  some, List, [], ◌∷◌, ◌++◌, contains, select, ltb, ◌==◌, if◌then◌else◌, Bool-cases, text_eq_self,
  In, contains→In, In→contains, length,
}

-- Each of the dependencies that is a task of the workflow is among the ids before.
abbrev pub AreBefore : (ids before : List String) → List WorkflowDependency → Type 0
AreBefore ids before [] = Unit
AreBefore ids before (dep ∷ deps) =
    ((contains ids dep.task ≡ false) ⊎ In dep.task before) × AreBefore ids before deps

-- Each task of the list comes after its dependencies.
abbrev pub IsOrdered : (ids before : List String) → List WorkflowTaskSpec → Type 0
IsOrdered ids before [] = Unit
IsOrdered ids before (t ∷ ts) = AreBefore ids before t.depends_on × IsOrdered ids (t.id ∷ before) ts

-- No id twice.
abbrev pub IsUnique : List String → Type 0
IsUnique [] = Unit
IsUnique (x ∷ xs) = (contains xs x ≡ false) × IsUnique xs

-- Every one of the first ids is one of the second.
abbrev pub AreAmong : List String → List String → Type 0
AreAmong [] ys = Unit
AreAmong (x ∷ xs) ys = In x ys × AreAmong xs ys

IsDistinct-IsUnique : (xs : List String) → IsDistinct xs → IsUnique xs
IsDistinct-IsUnique [] h = tt
IsDistinct-IsUnique (x ∷ xs) (new, h) = (not_contained x xs new, IsDistinct-IsUnique xs h)

AreAmong-intro : (xs ys : List String) → ((x : String) → In x xs → In x ys) → AreAmong xs ys
AreAmong-intro [] ys f = tt
AreAmong-intro (x ∷ xs) ys f = (f x (inl refl), AreAmong-intro xs ys (λ y m. f y (inr m)))

pending-append :
    (ids done : List String) (k : String) (e f : List (String × String))
    → pending ids done k (e ++ f) ≡ pending ids done k e + pending ids done k f
unfolding pending
pending-append ids done k [] f = omega arith
pending-append ids done k ((c, m) ∷ e) f = omega (arith, pending-append ids done k e f)

pending_own :
    (ids done : List String) (t : WorkflowTaskSpec) (tasks : List WorkflowTaskSpec)
    → In t tasks
    → pending ids done t.id (edges_of t.id t.depends_on) ≤ pending ids done t.id (edges tasks)
pending_own ids done t [] m = absurd m
pending_own ids done t (u ∷ tasks) (inl e) =
    rw e (omega (arith, pending-append ids done t.id (edges_of t.id t.depends_on) (edges tasks)))
pending_own ids done t (u ∷ tasks) (inr m) = omega (
  arith,
  pending-append ids done t.id (edges_of u.id u.depends_on) (edges tasks),
  pending_own ids done t tasks m,
)

pending-AreBefore :
    (ids done : List String) (id : String) (deps : List WorkflowDependency)
    → pending ids done id (edges_of id deps) ≤ 0
    → AreBefore ids done deps
unfolding pending
pending-AreBefore ids done id [] h = tt
pending-AreBefore ids done id (dep ∷ deps) h = (
  elim (Bool-cases (contains ids dep.task)) [
    | inr gone ↦ inl gone
    | inl here ↦ elim (Bool-cases (contains done dep.task)) [
      | inl before ↦ inr (contains→In done dep.task before)
      | inr not_yet ↦
          let one_left = rw (text_eq_self id, here, not_yet) at h in absurd (omega arith)
    ]
  ],
  pending-AreBefore ids done id deps (omega arith),
)

pub find_spec_absent :
    (id : String) (tasks : List WorkflowTaskSpec)
    → contains (ids_of tasks) id ≡ false
    → find_spec id tasks ≡ none
unfolding find_spec contains
find_spec_absent id [] h = refl
find_spec_absent id (t ∷ tasks) h = elim (Bool-cases (t.id == id)) [
  | inl s ↦ cc (rw s at h)
  | inr o ↦ rw (find_spec_absent id tasks (rw o at h), o) refl
]

find_spec_lem :
    (id : String) (tasks : List WorkflowTaskSpec)
    → In id (ids_of tasks)
    → (t : WorkflowTaskSpec) × (find_spec id tasks ≡ some t) × (t.id ≡ id) × In t tasks
unfolding find_spec
find_spec_lem id [] m = absurd m
find_spec_lem id (u ∷ tasks) m = elim (Bool-cases (contains (ids_of tasks) id)) [
  | inl later ↦
      let (t, found, same, i) = find_spec_lem id tasks (contains→In (ids_of tasks) id later) in
      (t, rw found refl, same, inr i)
  | inr last ↦ elim m [
    | inl e ↦ (u, rw (find_spec_absent id tasks last, e, text_eq_self id) refl, e, inl refl)
    | inr i ↦ cc (last, In→contains (ids_of tasks) id i)
  ]
]

specs_of_cons :
    (n : String) (ns : List String) (tasks ts : List WorkflowTaskSpec) (t : WorkflowTaskSpec)
    → find_spec n tasks ≡ some t
    → specs_of ns tasks ≡ some ts
    → specs_of (n ∷ ns) tasks ≡ some (t ∷ ts)
unfolding specs_of
specs_of_cons n ns tasks ts t h k = rw (specs_of, h, k) refl

specs_of_lem :
    (tasks : List WorkflowTaskSpec) (done ns : List String)
    → IsReadyInTurn tasks done ns
    → (ts : List WorkflowTaskSpec) × (specs_of ns tasks ≡ some ts)
      × (ids_of ts ≡ ns)
      × IsOrdered (ids_of tasks) done ts
unfolding specs_of
specs_of_lem tasks done [] h = ([], refl, refl, tt)
specs_of_lem tasks done (n ∷ ns) (known, none_left, h) =
    let (t, found, same, i) = find_spec_lem n tasks (contains→In (ids_of tasks) n known) in
    let (ts, founds, sames, ordered) = specs_of_lem tasks (n ∷ done) ns h in
    let waiting : pending (ids_of tasks) done t.id (edges tasks) ≡ 0 = rw same none_left in
    (
      t ∷ ts,
      specs_of_cons n ns tasks ts t found founds,
      rw (same, sames) refl,
      (
        pending-AreBefore (ids_of tasks) done t.id t.depends_on
            (omega (arith, pending_own (ids_of tasks) done t tasks i, waiting)),
        rw same ordered,
      ),
    )

select_none :
    (visited ids : List String)
    → ((k : String) → In k ids → In k visited)
    → select (λ id. not (contains visited id)) ids ≡ []
unfolding select
select_none visited [] h = refl
select_none visited (k ∷ ids) h =
    rw (In→contains visited k (h k (inl refl))) (select_none visited ids (λ j m. h j (inr m)))

pub length-ids_of : (tasks : List WorkflowTaskSpec) → length tasks ≡ length (ids_of tasks)
length-ids_of [] = refl
length-ids_of (t ∷ tasks) = ap suc (length-ids_of tasks)

append_none : (xs : List String) → xs ++ [] ≡ xs
append_none [] = refl
append_none (x ∷ xs) = ap (λ ys. x ∷ ys) (append_none xs)

-- Where the loop has seen every id, nothing is left to be added.
nothing_left :
    (visited ids : List String) (short : Bool)
    → ((k : String) → In k ids → In k visited)
    → (if short then visited ++ select (λ id. not (contains visited id)) ids else visited) ≡ visited
nothing_left visited ids true h = rw (select_none visited ids h) (append_none visited)
nothing_left visited ids false h = refl

module _ (rank : String → ℕ) (tasks : List WorkflowTaskSpec) (r : IsRanked rank tasks) where
  visited_ids : List String
  visited_ids =
      let degrees = count_tasks tasks (initial_degrees tasks []) in
      kahn (length tasks) tasks (degrees, roots degrees)

  visited_all : (k : String) → In k (ids_of tasks) → In k visited_ids
  unfolding visited_ids
  visited_all k m =
      elim (kahn_complete rank (length tasks) tasks [] _ _ k r (start-Holds tasks)
        (rw (length-ids_of tasks) (undone_start (ids_of tasks))) m) [ inl i ↦ absurd i | inr i ↦ i ]

  sorted_ids_visited : sorted_ids tasks ≡ visited_ids
  unfolding sorted_ids visited_ids
  sorted_ids_visited =
      nothing_left visited_ids (ids_of tasks) (ltb (length visited_ids) (length tasks)) visited_all

-- An acyclic workflow is sorted into a list in which each task comes after the tasks it depends on, with
-- every id of the workflow in it, and none twice.
pub topological_sort_lem :
    (rank : String → ℕ) (tasks : List WorkflowTaskSpec)
    → IsRanked rank tasks
    → (ts : List WorkflowTaskSpec) × (topological_sort tasks ≡ some ts)
      × IsOrdered (ids_of tasks) [] ts
      × AreAmong (ids_of tasks) (ids_of ts)
      × IsUnique (ids_of ts)
unfolding topological_sort visited_ids
topological_sort_lem rank tasks r =
    let visited = visited_ids rank tasks r in
    let ready = kahn-IsReadyInTurn (length tasks) tasks [] _ _ (start-Holds tasks) in
    let unique = kahn-IsDistinct (length tasks) tasks [] _ _ (start-Holds tasks) in
    let (ts, found, same, ordered) = specs_of_lem tasks [] visited ready in
    (
      ts,
      ap (λ ids. specs_of ids tasks) (sorted_ids_visited rank tasks r) ∙ found,
      ordered,
      rw same (AreAmong-intro (ids_of tasks) visited (visited_all rank tasks r)),
      rw same (IsDistinct-IsUnique visited unique),
    )
