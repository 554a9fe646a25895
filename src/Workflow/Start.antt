-- ===== src/Workflow/Start.antt =====
-- _topological_sort of orchestration/workflow.py up to its loop: `in_degree` holds the number of each
-- task's dependencies, and the queue the tasks without any.
use simple_a2a_registry.Workflow.{
  WorkflowDependency, WorkflowTaskSpec, degree, adjust, initial_degrees, count_tasks, roots,
}
use simple_a2a_registry.Workflow.Edges.{
  ids_of, edges_of, edges, count_edges, count_tasks-edges, waits, degree-adjust_same,
  degree-adjust_other, is_some-adjust,
}
use simple_a2a_registry.Workflow.Queue.{Holds, IsDistinct, known_degree}
use simple_a2a_registry.Workflow.Degrees.{
  keys, initial_degrees_lem, In-roots, roots-In, roots-IsDistinct, waits-AllZero,
}
use simple_a2a_registry.Workflow.Taken.{pending, AllKnown}
use simple_a2a_registry.Prelude.{
  ℕ, suc, arith, ◌+◌, String, Bool, true, false, inl, inr, ◌≡◌, refl, sym, ap, ◌∙◌, subst, some,
  List, [], ◌∷◌, ◌++◌, contains, is_some, or_else, ◌==◌, if◌then◌else◌, Bool-cases, Text-cases, In,
  In→contains,
}

keys-adjust : (f : ℕ → ℕ) (c : String) (d : List (String × ℕ)) → keys (adjust f c d) ≡ keys d
unfolding adjust
keys-adjust f c [] = refl
keys-adjust f c ((j, n) ∷ d) = elim (Bool-cases (j == c)) [
  | inl e ↦ rw e refl
  | inr o ↦ rw o (ap (λ ks. j ∷ ks) (keys-adjust f c d))
]

keys-count_edges :
    (e : List (String × String)) (d : List (String × ℕ)) → keys (count_edges e d) ≡ keys d
unfolding count_edges
keys-count_edges [] d = refl
keys-count_edges ((c, m) ∷ e) d = elim (Bool-cases (is_some (degree m d))) [
  | inl h ↦ rw h (keys-count_edges e (adjust suc c d) ∙ keys-adjust suc c d)
  | inr n ↦ rw n (keys-count_edges e d)
]

is_some-count_edges :
    (k : String) (e : List (String × String)) (d : List (String × ℕ))
    → is_some (degree k (count_edges e d)) ≡ is_some (degree k d)
unfolding count_edges
is_some-count_edges k [] d = refl
is_some-count_edges k ((c, m) ∷ e) d = elim (Bool-cases (is_some (degree m d))) [
  | inl h ↦ rw h (is_some-count_edges k e (adjust suc c d) ∙ is_some-adjust suc c k d)
  | inr n ↦ rw n (is_some-count_edges k e d)
]

waits-adjust :
    (c k : String) (d : List (String × ℕ))
    → is_some (degree c d) ≡ true
    → waits k (adjust suc c d) ≡ (if c == k then 1 else 0) + waits k d
waits-adjust c k d h = elim (Text-cases c k) [
  | inl (same, test) ↦
      rw (test, ← same, degree-adjust_same suc c d (waits c d) (known_degree c d h)) (omega arith)
  | inr (_, other) ↦ rw (other, degree-adjust_other suc c k d other) (omega arith)
]

-- One more pair is one more dependency to wait for, where it is of a task.
pending_here :
    (ids : List String) (k c m : String) (e : List (String × String))
    → contains ids m ≡ true
    → pending ids [] k ((c, m) ∷ e) ≡ (if c == k then 1 else 0) + pending ids [] k e
unfolding pending contains
pending_here ids k c m e h = elim (Bool-cases (c == k)) [
  | inl s ↦ rw (s, h) refl
  | inr o ↦ rw o refl
]

pending_gone :
    (ids done : List String) (k c m : String) (e : List (String × String))
    → contains ids m ≡ false
    → pending ids done k ((c, m) ∷ e) ≡ pending ids done k e
unfolding pending
pending_gone ids done k c m e h = elim (Bool-cases (c == k)) [
  | inl s ↦ rw (s, h) (omega arith)
  | inr o ↦ rw o (omega arith)
]

count_edges_step :
    (c m : String) (e : List (String × String)) (d : List (String × ℕ)) (b : Bool)
    → is_some (degree m d) ≡ b
    → count_edges ((c, m) ∷ e) d ≡ count_edges e (if b then adjust suc c d else d)
unfolding count_edges
count_edges_step c m e d b h = ap (λ (x : Bool). count_edges e (if x then adjust suc c d else d)) h

waits-count_edges :
    (ids : List String) (k : String) (e : List (String × String)) (d : List (String × ℕ))
    → ((j : String) → is_some (degree j d) ≡ contains ids j)
    → AllKnown ids e
    → waits k (count_edges e d) ≡ waits k d + pending ids [] k e
waits-count_edges ids k [] d h all = unfold count_edges pending in omega arith
waits-count_edges ids k ((c, m) ∷ e) d h (known, all) = elim (Bool-cases (contains ids m)) [
  | inl here ↦
      let ih =
        waits-count_edges ids k e (adjust suc c d) (λ j. is_some-adjust suc c j d ∙ h j) all in
      rw (count_edges_step c m e d true (h m ∙ here))
        (omega (arith, ih, waits-adjust c k d (h c ∙ known), pending_here ids k c m e here))
  | inr gone ↦
      let ih = waits-count_edges ids k e d h all in
      rw (count_edges_step c m e d false (h m ∙ gone))
        (omega (arith, ih, pending_gone ids [] k c m e gone))
]

AllKnown-append :
    (ids : List String) (e f : List (String × String))
    → AllKnown ids e
    → AllKnown ids f
    → AllKnown ids (e ++ f)
AllKnown-append ids [] f h k = k
AllKnown-append ids ((c, m) ∷ e) f (known, h) k = (known, AllKnown-append ids e f h k)

edges_of-AllKnown :
    (ids : List String) (id : String) (deps : List WorkflowDependency)
    → contains ids id ≡ true
    → AllKnown ids (edges_of id deps)
edges_of-AllKnown ids id [] h = tt
edges_of-AllKnown ids id (dep ∷ deps) h = (h, edges_of-AllKnown ids id deps h)

edges-AllKnown :
    (ids : List String) (tasks : List WorkflowTaskSpec)
    → ((k : String) → In k (ids_of tasks) → In k ids)
    → AllKnown ids (edges tasks)
edges-AllKnown ids [] h = tt
edges-AllKnown ids (t ∷ tasks) h =
    AllKnown-append ids (edges_of t.id t.depends_on) (edges tasks)
      (edges_of-AllKnown ids t.id t.depends_on (In→contains ids t.id (h t.id (inl refl))))
      (edges-AllKnown ids tasks (λ k m. h k (inr m)))

pub all_known : (tasks : List WorkflowTaskSpec) → AllKnown (ids_of tasks) (edges tasks)
all_known tasks = edges-AllKnown (ids_of tasks) tasks (λ k m. m)

from_none : (n : ℕ) → 0 + n ≡ n
from_none n = omega arith

-- What holds when the loop is entered.
pub start-Holds :
    (tasks : List WorkflowTaskSpec)
    → let degrees = count_tasks tasks (initial_degrees tasks []) in
      Holds
        (ids_of tasks)
        []
        (λ k. pending (ids_of tasks) [] k (edges tasks))
        degrees
        (roots degrees)
unfolding contains degree
start-Holds tasks =
    let (zeros, distinct_keys, known) = initial_degrees_lem tasks [] tt tt in
    let ids = ids_of tasks in
    let e = edges tasks in
    let d = initial_degrees tasks [] in
    let unique = subst IsDistinct (sym (keys-count_edges e d)) distinct_keys in
    let full = λ (k : String).
      waits-count_edges ids k e d known (all_known tasks)
      ∙ ap (λ n. n + pending ids [] k e) (waits-AllZero k d zeros)
      ∙ from_none (pending ids [] k e) in
    rw (count_tasks-edges tasks d) (record {
      knows = λ k. is_some-count_edges k e d ∙ known k;
      counts = λ k _. full k;
      queued = λ k m.
          let zero_here = In-roots k (count_edges e d) unique m in
          (
            sym (is_some-count_edges k e d ∙ known k) ∙ ap is_some zero_here,
            sym (full k) ∙ ap (λ o. or_else o 0) zero_here,
          );
      fresh = λ k m t. t;
      taken = λ k t. absurd t;
      once = roots-IsDistinct (count_edges e d) unique;
      found = λ k here none_left. inr (
          roots-In k (count_edges e d) (
            known_degree k _ (is_some-count_edges k e d ∙ known k ∙ here)
            ∙ ap (λ n. some n) (full k ∙ none_left)));
    })
