-- ===== src/Workflow/Order.antt =====
-- _topological_sort of orchestration/workflow.py: every task comes after its dependencies, and no task of
-- an acyclic workflow is left out.
use simple_a2a_registry.Workflow.{WorkflowTaskSpec, relax_tasks, kahn}
use simple_a2a_registry.Workflow.Edges.{ids_of, edges, relax_tasks-edges}
use simple_a2a_registry.Workflow.Queue.{Holds, IsDistinct}
use simple_a2a_registry.Workflow.Taken.{pending, round-Holds}
use simple_a2a_registry.Workflow.Start.{all_known}
use simple_a2a_registry.Prelude.{
  ℕ, zero, suc, arith, ◌+◌, ◌≤◌, String, true, false, inl, inr, ◌≡◌, refl, List, [], ◌∷◌, contains,
  ◌==◌, if◌then◌else◌, Bool-cases, text_eq_self, In, contains→In, length,
}

-- What holds when the loop comes to a queue, the ids `done` having been taken before.
abbrev pub IsState : List WorkflowTaskSpec → List String → List (String × ℕ) → List String → Type 0
IsState tasks done d q =
    Holds (ids_of tasks) done (λ k. pending (ids_of tasks) done k (edges tasks)) d q

pub next-IsState :
    (tasks : List WorkflowTaskSpec) (done : List String) (n : String) (d : List (String × ℕ))
    (q : List String)
    → IsState tasks done d (n ∷ q)
    → IsState tasks (n ∷ done) (relax_tasks n tasks (d, q)).0 (relax_tasks n tasks (d, q)).1
next-IsState tasks done n d q h =
    rw (relax_tasks-edges n tasks (d, q))
      (round-Holds (ids_of tasks) done n (edges tasks) d q (all_known tasks) h)

-- None of the ids waits for one that comes later.
abbrev pub IsReadyInTurn : List WorkflowTaskSpec → List String → List String → Type 0
IsReadyInTurn tasks done [] = Unit
IsReadyInTurn tasks done (n ∷ ns) =
    (contains (ids_of tasks) n ≡ true)
    × (pending (ids_of tasks) done n (edges tasks) ≡ 0)
    × IsReadyInTurn tasks (n ∷ done) ns

pub kahn-IsReadyInTurn :
    (fuel : ℕ) (tasks : List WorkflowTaskSpec) (done : List String) (d : List (String × ℕ))
    (q : List String)
    → IsState tasks done d q
    → IsReadyInTurn tasks done (kahn fuel tasks (d, q))
unfolding kahn
kahn-IsReadyInTurn zero tasks done d q h = tt
kahn-IsReadyInTurn (suc fuel) tasks done d [] h = tt
kahn-IsReadyInTurn (suc fuel) tasks done d (n ∷ q) h = (
  (h.queued n (inl refl)).0,
  (h.queued n (inl refl)).1,
  kahn-IsReadyInTurn fuel tasks (n ∷ done) _ _ (next-IsState tasks done n d q h),
)

kahn-new :
    (fuel : ℕ) (tasks : List WorkflowTaskSpec) (done : List String) (d : List (String × ℕ))
    (q : List String) (k : String)
    → IsState tasks done d q
    → In k (kahn fuel tasks (d, q))
    → In k done
    → ⊥
unfolding kahn
kahn-new zero tasks done d q k h m t = m
kahn-new (suc fuel) tasks done d [] k h m t = m
kahn-new (suc fuel) tasks done d (n ∷ q) k h (inl e) t = h.fresh k (inl e) t
kahn-new (suc fuel) tasks done d (n ∷ q) k h (inr m) t =
    kahn-new fuel tasks (n ∷ done) _ _ k (next-IsState tasks done n d q h) m (inr t)

pub kahn-IsDistinct :
    (fuel : ℕ) (tasks : List WorkflowTaskSpec) (done : List String) (d : List (String × ℕ))
    (q : List String)
    → IsState tasks done d q
    → IsDistinct (kahn fuel tasks (d, q))
unfolding kahn
kahn-IsDistinct zero tasks done d q h = tt
kahn-IsDistinct (suc fuel) tasks done d [] h = tt
kahn-IsDistinct (suc fuel) tasks done d (n ∷ q) h =
    let next = next-IsState tasks done n d q h in
    (
      λ m. kahn-new fuel tasks (n ∷ done) _ _ n next m (inl refl),
      kahn-IsDistinct fuel tasks (n ∷ done) _ _ next,
    )

-- How many of the ids are not done.
unfoldable pub undone : List String → List String → ℕ
undone done [] = 0
undone done (i ∷ ids) = (if contains done i then 0 else 1) + undone done ids

undone_grows :
    (done : List String) (n : String) (ids : List String) → undone (n ∷ done) ids ≤ undone done ids
unfolding undone contains
undone_grows done n [] = omega arith
undone_grows done n (i ∷ ids) =
    let ih = undone_grows done n ids in
    elim (Bool-cases (n == i)) [ inl s ↦ rw s (omega arith) | inr o ↦ rw o (omega arith) ]

pub undone_taken :
    (done : List String) (n : String) (ids : List String)
    → In n ids
    → contains done n ≡ false
    → suc (undone (n ∷ done) ids) ≤ undone done ids
unfolding undone contains
undone_taken done n [] m h = absurd m
undone_taken done n (i ∷ ids) (inl e) h =
    let rest = undone_grows done n ids in rw (e, h, text_eq_self n) (omega arith)
undone_taken done n (i ∷ ids) (inr m) h =
    let ih = undone_taken done n ids m h in
    elim (Bool-cases (n == i)) [ inl s ↦ rw s (omega arith) | inr o ↦ rw o (omega arith) ]

pub undone_none :
    (done : List String) (k : String) (ids : List String)
    → undone done ids ≤ 0
    → In k ids
    → In k done
unfolding undone
undone_none done k [] h m = absurd m
undone_none done k (i ∷ ids) h m = elim (Bool-cases (contains done i)) [
  | inr o ↦ absurd (omega (arith, (rw o at h)))
  | inl s ↦
      let fewer = rw s at h in
      elim m [
        | inl e ↦ rw (← e) (contains→In done i s)
        | inr j ↦ undone_none done k ids (omega arith) j
      ]
]

pub undone_start : (ids : List String) → undone [] ids ≤ length ids
unfolding undone contains
undone_start [] = omega arith
undone_start (i ∷ ids) = let ih = undone_start ids in omega arith
