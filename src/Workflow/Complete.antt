-- ===== src/Workflow/Complete.antt =====
-- _topological_sort of orchestration/workflow.py on acyclic workflows: the loop leaves no task out, and a
-- turn of fuel for each task is enough.
use simple_a2a_registry.Workflow.{WorkflowDependency, WorkflowTaskSpec, kahn}
use simple_a2a_registry.Workflow.Edges.{ids_of, edges_of, edges}
use simple_a2a_registry.Workflow.Taken.{pending, not_contained}
use simple_a2a_registry.Workflow.Order.{IsState, next-IsState, undone, undone_taken, undone_none}
use simple_a2a_registry.Prelude.{
  ℕ, zero, suc, arith, ◌≤◌, ◌<◌, String, inl, inr, ◌≡◌, ◌⊎◌, refl, subst, List, [], ◌∷◌, ◌++◌,
  contains, Bool-cases, Text-cases, In, contains→In, In→contains,
}

-- Each dependency has a rank below the task's own: there is no way back to a task along dependencies.
abbrev pub IsBelow : (String → ℕ) → ℕ → List WorkflowDependency → Type 0
IsBelow rank bound [] = Unit
IsBelow rank bound (dep ∷ deps) = (rank dep.task < bound) × IsBelow rank bound deps

abbrev pub IsRanked : (String → ℕ) → List WorkflowTaskSpec → Type 0
IsRanked rank [] = Unit
IsRanked rank (t ∷ tasks) = IsBelow rank (rank t.id) t.depends_on × IsRanked rank tasks

abbrev AreRanked : (String → ℕ) → List (String × String) → Type 0
AreRanked rank [] = Unit
AreRanked rank ((c, m) ∷ e) = (rank m < rank c) × AreRanked rank e

AreRanked-append :
    (rank : String → ℕ) (e f : List (String × String))
    → AreRanked rank e
    → AreRanked rank f
    → AreRanked rank (e ++ f)
AreRanked-append rank [] f h k = k
AreRanked-append rank ((c, m) ∷ e) f (below, h) k = (below, AreRanked-append rank e f h k)

edges_of-AreRanked :
    (rank : String → ℕ) (id : String) (deps : List WorkflowDependency)
    → IsBelow rank (rank id) deps
    → AreRanked rank (edges_of id deps)
edges_of-AreRanked rank id [] h = tt
edges_of-AreRanked rank id (dep ∷ deps) (below, h) = (below, edges_of-AreRanked rank id deps h)

edges-AreRanked :
    (rank : String → ℕ) (tasks : List WorkflowTaskSpec)
    → IsRanked rank tasks
    → AreRanked rank (edges tasks)
edges-AreRanked rank [] h = tt
edges-AreRanked rank (t ∷ tasks) (h, hs) =
    AreRanked-append rank (edges_of t.id t.depends_on) (edges tasks)
      (edges_of-AreRanked rank t.id t.depends_on h) (edges-AreRanked rank tasks hs)

-- A task whose dependencies are all done waits for nothing.
pending_done :
    (rank : String → ℕ) (ids done : List String) (k : String) (e : List (String × String))
    → AreRanked rank e
    → ((m : String) → rank m < rank k → In m ids → In m done)
    → pending ids done k e ≡ 0
unfolding pending
pending_done rank ids done k [] h all = refl
pending_done rank ids done k ((c, m) ∷ e) (below, h) all =
    let ih = pending_done rank ids done k e h all in
    elim (Text-cases c k) [
      | inr (_, other) ↦ rw other (omega arith)
      | inl (same, s) ↦ elim (Bool-cases (contains ids m)) [
        | inr gone ↦ rw (s, gone) (omega arith)
        | inl here ↦
            rw
              (
                s,
                here,
                In→contains done m
                    (all m (subst (λ x. rank m < rank x) same below) (contains→In ids m here)),
              )
              (omega arith)
      ]
    ]

-- When the queue is empty, everything is done, by the rank.
all_done :
    (rank : String → ℕ) (tasks : List WorkflowTaskSpec) (done : List String) (d : List (String × ℕ))
    (bound : ℕ) (k : String)
    → IsState tasks done d []
    → AreRanked rank (edges tasks)
    → rank k < bound
    → In k (ids_of tasks)
    → In k done
all_done rank tasks done d zero k h r less m = absurd (omega arith)
all_done rank tasks done d (suc bound) k h r less m =
    let none_left =
      pending_done rank (ids_of tasks) done k (edges tasks) r
        (λ j below i. all_done rank tasks done d bound j h r (omega arith) i) in
    elim (h.found k (In→contains (ids_of tasks) k m) none_left) [ inl i ↦ i | inr i ↦ absurd i ]

pub kahn_complete :
    (rank : String → ℕ) (fuel : ℕ) (tasks : List WorkflowTaskSpec) (done : List String)
    (d : List (String × ℕ)) (q : List String) (k : String)
    → IsRanked rank tasks
    → IsState tasks done d q
    → undone done (ids_of tasks) ≤ fuel
    → In k (ids_of tasks)
    → In k done ⊎ In k (kahn fuel tasks (d, q))
unfolding kahn
kahn_complete rank zero tasks done d q k r h enough m =
    inl (undone_none done k (ids_of tasks) enough m)
kahn_complete rank (suc fuel) tasks done d [] k r h enough m =
    inl
      (all_done rank tasks done d (suc (rank k)) k h (edges-AreRanked rank tasks r) (omega arith) m)
kahn_complete rank (suc fuel) tasks done d (n ∷ q) k r h enough m =
    let known = contains→In (ids_of tasks) n (h.queued n (inl refl)).0 in
    let fewer =
      undone_taken done n (ids_of tasks) known (not_contained n done (h.fresh n (inl refl))) in
    elim (kahn_complete rank fuel tasks (n ∷ done) _ _ k r (next-IsState tasks done n d q h)
      (omega arith) m) [ inl (inl e) ↦ inr (inl e) | inl (inr i) ↦ inl i | inr i ↦ inr (inr i) ]
