-- ===== src/Workflow/Whole.antt =====
-- apply_workflow of orchestration/workflow.py: a valid workflow is created as a whole, unless create_task
-- refuses one of its tasks.
use simple_a2a_registry.Workflow.{
  WorkflowTaskSpec, find_spec, specs_of, sorted_ids, topological_sort,
}
use simple_a2a_registry.Workflow.Edges.{ids_of}
use simple_a2a_registry.Workflow.Sorted.{AreAmong}
use simple_a2a_registry.Workflow.Cycles.Ranks.{AreIn, AreSound}
use simple_a2a_registry.Workflow.Validate.{
  WorkflowSpec, WorkflowError, validate_workflow, validate_workflow_lem,
  topological_sort-validate_workflow,
}
use simple_a2a_registry.Workflow.Apply.{
  created_as, create_all, apply_valid, apply_workflow, has_refusal, create_all-IsSound,
}
use simple_a2a_registry.Db.{Db}
use simple_a2a_registry.Store.Integrity.{IsSound}
use simple_a2a_registry.Prelude.{
  ℕ, ◌≡◌, ◌⊎◌, inl, inr, refl, ap, ◌∙◌, subst, String, Bool, true, false, some, List, [], ◌∷◌, In,
  ◌==◌, Bool-cases, Option-cases, is_some, some_inj,
}
use simple_a2a_registry.Workflow.Loop.{create_all_lem}

-- Each of the ids has a task.
abbrev pub HaveTasks : List String → List (String × String) → Type 0
HaveTasks [] created = Unit
HaveTasks (k ∷ ks) created = (is_some (created_as k created) ≡ true) × HaveTasks ks created

HaveTasks-intro :
    (ks : List String) (created : List (String × String))
    → ((k : String) → In k ks → is_some (created_as k created) ≡ true)
    → HaveTasks ks created
HaveTasks-intro [] created f = tt
HaveTasks-intro (k ∷ ks) created f =
    (f k (inl refl), HaveTasks-intro ks created (λ j m. f j (inr m)))

AreAmong-In : (xs ys : List String) (x : String) → AreAmong xs ys → In x xs → In x ys
AreAmong-In [] ys x h m = absurd m
AreAmong-In (y ∷ xs) ys x (h, hs) (inl e) = rw (← e) h
AreAmong-In (y ∷ xs) ys x (h, hs) (inr m) = AreAmong-In xs ys x hs m

AreSound-AreIn :
    (all tasks : List WorkflowTaskSpec) (t : WorkflowTaskSpec)
    → AreSound all tasks
    → In t tasks
    → AreIn (ids_of all) t.depends_on
AreSound-AreIn all [] t h m = absurd m
AreSound-AreIn all (u ∷ tasks) t (_, known, h) (inl e) =
    subst (λ (x : WorkflowTaskSpec). AreIn (ids_of all) x.depends_on) e known
AreSound-AreIn all (u ∷ tasks) t (_, known, h) (inr m) = AreSound-AreIn all tasks t h m

find_spec-In :
    (id : String) (tasks : List WorkflowTaskSpec) (t : WorkflowTaskSpec)
    → find_spec id tasks ≡ some t
    → In t tasks
unfolding find_spec
find_spec-In id [] t h = cc
find_spec-In id (u ∷ tasks) t h = elim (Option-cases (find_spec id tasks)) [
  | inr (v, e) ↦ inr (find_spec-In id tasks t (e ∙ (rw (find_spec, e) at h)))
  | inl n ↦ elim (Bool-cases (u.id == id)) [
    | inl s ↦ inl (some_inj (rw (find_spec, n, s) at h))
    | inr o ↦ cc (rw (find_spec, n, o) at h)
  ]
]

specs_of-In :
    (ns : List String) (tasks ts : List WorkflowTaskSpec) (t : WorkflowTaskSpec)
    → specs_of ns tasks ≡ some ts
    → In t ts
    → In t tasks
unfolding specs_of
specs_of-In [] tasks ts t h m = absurd (rw (← some_inj h) at m)
specs_of-In (n ∷ ns) tasks ts t h m = elim (Option-cases (find_spec n tasks)) [
  | inl absent ↦ cc (rw (specs_of, absent) at h)
  | inr (u, found) ↦ elim (Option-cases (specs_of ns tasks)) [
    | inl absent ↦ cc (rw (specs_of, found, absent) at h)
    | inr (us, rest) ↦ elim (rw (← some_inj (rw (specs_of, found, rest) at h)) at m) [
      | inl same ↦ find_spec-In n tasks t (found ∙ ap (λ v. some v) same)
      | inr i ↦ specs_of-In ns tasks us t rest i
    ]
  ]
]

-- The result of a valid workflow that is not a dry run.
apply_workflow_valid :
    (spec : WorkflowSpec) (draw : String → ℕ × String) (db : Db) (ts : List WorkflowTaskSpec)
    → validate_workflow spec ≡ []
    → topological_sort spec.tasks ≡ some ts
    → ((apply_workflow spec false draw db).0.task_ids ≡ (create_all spec draw ts [] db).0.0)
      × ((apply_workflow spec false draw db).0.errors ≡ (create_all spec draw ts [] db).0.1)
      × ((apply_workflow spec false draw db).1 ≡ (create_all spec draw ts [] db).1)
unfolding apply_workflow apply_valid
apply_workflow_valid spec draw db ts valid found =
    rw (apply_workflow, valid, apply_valid, found) (refl, refl, refl)

-- When a workflow that passes the validation is applied, and create_task raises on none of its tasks, then
-- there is no error at all, no parent having been missing, and every task of the workflow was created.
pub apply_workflow_whole :
    (spec : WorkflowSpec) (draw : String → ℕ × String) (db : Db)
    → validate_workflow spec ≡ []
    → has_refusal (apply_workflow spec false draw db).0.errors ≡ false
    → ((apply_workflow spec false draw db).0.errors ≡ [])
      × HaveTasks (ids_of spec.tasks) (apply_workflow spec false draw db).0.task_ids
unfolding topological_sort
apply_workflow_whole spec draw db valid none_refused =
    let (sound, _) = validate_workflow_lem spec valid in
    let (ts, found, ordered, among, _) = topological_sort-validate_workflow spec valid in
    let (made, failed, _) = apply_workflow_valid spec draw db ts valid found in
    let known : (t : WorkflowTaskSpec) → In t ts → AreIn (ids_of spec.tasks) t.depends_on = λ t m.
      AreSound-AreIn spec.tasks spec.tasks t sound
        (specs_of-In (sorted_ids spec.tasks) spec.tasks ts t found m) in
    let (clean, all) =
      create_all_lem spec draw (ids_of spec.tasks) [] ts [] db ordered known (λ k m. absurd m)
        (rw failed at none_refused) in
    (
      failed ∙ clean,
      rw made (
          HaveTasks-intro (ids_of spec.tasks) _
            (λ k m. all k (inr (AreAmong-In (ids_of spec.tasks) (ids_of ts) k among m)))),
    )

apply_valid-IsSound :
    (spec : WorkflowSpec) (dry_run : Bool) (draw : String → ℕ × String) (db : Db)
    → IsSound db
    → IsSound (apply_valid spec dry_run draw db).1
unfolding apply_valid
apply_valid-IsSound spec dry_run draw db s = elim (Option-cases (topological_sort spec.tasks)) [
  | inl failed ↦ rw (apply_valid, failed) s
  | inr (ts, found) ↦ elim (Bool-cases dry_run) [
    | inl dry ↦ rw (apply_valid, found, dry) s
    | inr wet ↦ rw (apply_valid, found, wet) (create_all-IsSound spec draw ts [] db s)
  ]
]

errors_cases :
    (errors : List WorkflowError)
    → (errors ≡ []) ⊎ ((e : WorkflowError) × (rest : List WorkflowError) × (errors ≡ e ∷ rest))
errors_cases [] = inl refl
errors_cases (e ∷ rest) = inr (e, rest, refl)

-- Whatever the workflow, a dry run or not, applying it keeps the integrity of the store: distinct ids,
-- links between tasks that exist, and no cycle.
pub apply_workflow-IsSound :
    (spec : WorkflowSpec) (dry_run : Bool) (draw : String → ℕ × String) (db : Db)
    → IsSound db
    → IsSound (apply_workflow spec dry_run draw db).1
unfolding apply_workflow
apply_workflow-IsSound spec dry_run draw db s = elim (errors_cases (validate_workflow spec)) [
  | inl valid ↦ rw (apply_workflow, valid) (apply_valid-IsSound spec dry_run draw db s)
  | inr (e, rest, failed) ↦ rw (apply_workflow, failed) s
]
