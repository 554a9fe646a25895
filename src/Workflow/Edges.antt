-- ===== src/Workflow/Edges.antt =====
-- The two nested loops of _topological_sort in orchestration/workflow.py as one loop over the pairs of a
-- task and a dependency of it, and what it does to the numbers in `in_degree`.
use simple_a2a_registry.Workflow.{
  WorkflowDependency, WorkflowTaskSpec, degree, adjust, count_deps, count_tasks, relax, relax_deps,
  relax_tasks,
}
use simple_a2a_registry.Prelude.{
  ℕ, suc, String, false, ◌&&◌, inl, inr, ◌≡◌, refl, some, List, [], ◌∷◌, ◌++◌, map, is_some,
  or_else, ◌==◌, if◌then◌else◌, Bool-cases, Text-cases,
}

abbrev pub ids_of : List WorkflowTaskSpec → List String
ids_of = map (λ (t : WorkflowTaskSpec). t.id)

abbrev pub edges_of : String → List WorkflowDependency → List (String × String)
edges_of id [] = []
edges_of id (dep ∷ deps) = (id, dep.task) ∷ edges_of id deps

abbrev pub edges : List WorkflowTaskSpec → List (String × String)
edges [] = []
edges (t ∷ tasks) = edges_of t.id t.depends_on ++ edges tasks

unfoldable pub count_edges : List (String × String) → List (String × ℕ) → List (String × ℕ)
count_edges [] d = d
count_edges ((c, m) ∷ e) d = count_edges e (if is_some (degree m d) then adjust suc c d else d)

unfoldable pub relax_edges :
    String
    → List (String × String)
    → List (String × ℕ) × List String
    → List (String × ℕ) × List String
relax_edges n [] s = s
relax_edges n ((c, m) ∷ e) s =
    relax_edges n e (if m == n && is_some (degree c s.0) then relax c s else s)

count_edges-append :
    (e f : List (String × String)) (d : List (String × ℕ))
    → count_edges (e ++ f) d ≡ count_edges f (count_edges e d)
unfolding count_edges
count_edges-append [] f d = refl
count_edges-append ((c, m) ∷ e) f d = count_edges-append e f _

relax_edges-append :
    (n : String) (e f : List (String × String)) (s : List (String × ℕ) × List String)
    → relax_edges n (e ++ f) s ≡ relax_edges n f (relax_edges n e s)
unfolding relax_edges
relax_edges-append n [] f s = refl
relax_edges-append n ((c, m) ∷ e) f s = relax_edges-append n e f _

count_deps-edges_of :
    (id : String) (deps : List WorkflowDependency) (d : List (String × ℕ))
    → count_deps id deps d ≡ count_edges (edges_of id deps) d
unfolding count_deps count_edges
count_deps-edges_of id [] d = refl
count_deps-edges_of id (dep ∷ deps) d = count_deps-edges_of id deps _

relax_deps-edges_of :
    (n id : String) (deps : List WorkflowDependency) (s : List (String × ℕ) × List String)
    → relax_deps n id deps s ≡ relax_edges n (edges_of id deps) s
unfolding relax_deps relax_edges
relax_deps-edges_of n id [] s = refl
relax_deps-edges_of n id (dep ∷ deps) s = relax_deps-edges_of n id deps _

pub count_tasks-edges :
    (tasks : List WorkflowTaskSpec) (d : List (String × ℕ))
    → count_tasks tasks d ≡ count_edges (edges tasks) d
unfolding count_tasks count_edges
count_tasks-edges [] d = refl
count_tasks-edges (t ∷ tasks) d =
    rw
      (
        count_edges-append (edges_of t.id t.depends_on) (edges tasks) d,
        ← count_deps-edges_of t.id t.depends_on d,
      )
      (count_tasks-edges tasks _)

pub relax_tasks-edges :
    (n : String) (tasks : List WorkflowTaskSpec) (s : List (String × ℕ) × List String)
    → relax_tasks n tasks s ≡ relax_edges n (edges tasks) s
unfolding relax_tasks relax_edges
relax_tasks-edges n [] s = refl
relax_tasks-edges n (t ∷ tasks) s =
    rw
      (
        relax_edges-append n (edges_of t.id t.depends_on) (edges tasks) s,
        ← relax_deps-edges_of n t.id t.depends_on s,
      )
      (relax_tasks-edges n tasks _)

-- The number of a key, or zero.
abbrev pub waits : String → List (String × ℕ) → ℕ
waits k d = or_else (degree k d) 0

pub degree-adjust_same :
    (f : ℕ → ℕ) (k : String) (d : List (String × ℕ)) (n : ℕ)
    → degree k d ≡ some n
    → degree k (adjust f k d) ≡ some (f n)
unfolding degree adjust
degree-adjust_same f k [] n h = cc
degree-adjust_same f k ((j, x) ∷ d) n h = elim (Bool-cases (j == k)) [
  | inl e ↦ rw (e, e) (cc (rw e at h))
  | inr o ↦ rw (o, o) (degree-adjust_same f k d n (rw o at h))
]

pub degree-adjust_other :
    (f : ℕ → ℕ) (j k : String) (d : List (String × ℕ))
    → (j == k) ≡ false
    → degree k (adjust f j d) ≡ degree k d
unfolding degree adjust
degree-adjust_other f j k [] o = refl
degree-adjust_other f j k ((i, x) ∷ d) o = elim (Text-cases i j) [
  | inl (same, e) ↦ rw (e, same, o) refl
  | inr (_, e) ↦ elim (Bool-cases (i == k)) [
    | inl s ↦ rw (e, s) refl
    | inr n ↦ rw (e, n) (degree-adjust_other f j k d o)
  ]
]

pub is_some-adjust :
    (f : ℕ → ℕ) (j k : String) (d : List (String × ℕ))
    → is_some (degree k (adjust f j d)) ≡ is_some (degree k d)
unfolding degree adjust
is_some-adjust f j k [] = refl
is_some-adjust f j k ((i, x) ∷ d) = elim (Bool-cases (i == j)) [
  | inl e ↦ elim (Bool-cases (i == k)) [ inl s ↦ rw (e, s) refl | inr n ↦ rw (e, n) refl ]
  | inr o ↦ elim (Bool-cases (i == k)) [
    | inl s ↦ rw (o, s) refl
    | inr n ↦ rw (o, n) (is_some-adjust f j k d)
  ]
]
