-- ===== src/Workflow/Loop.antt =====
-- The loop of apply_workflow in orchestration/workflow.py that creates the tasks: where create_task raises
-- on none of them, each finds its parents.
use simple_a2a_registry.Workflow.{WorkflowDependency, WorkflowTaskSpec}
use simple_a2a_registry.Workflow.Edges.{ids_of}
use simple_a2a_registry.Workflow.Sorted.{AreBefore, IsOrdered}
use simple_a2a_registry.Workflow.Cycles.Ranks.{AreIn}
use simple_a2a_registry.Workflow.Validate.{WorkflowSpec}
use simple_a2a_registry.Workflow.Apply.{
  ApplyError, task_refused, parent_not_created, invalid, sort_failed, created_as, known_parents,
  task_arguments, create_all, has_refusal,
}
use simple_a2a_registry.Models.{Task}
use simple_a2a_registry.Db.{Db, Error, Result, ok, raise}
use simple_a2a_registry.Store.Create.{create_task}
use simple_a2a_registry.Prelude.{
  ℕ, ◌≡◌, ◌⊎◌, inl, inr, refl, ◌∙◌, String, true, false, some, List, [], ◌∷◌, ◌++◌, In,
  text_eq_self, ◌==◌, Bool-cases, Option-cases, is_some,
}

Result-cases : {A : Type 0} (r : Result A) → ((a : A) × (r ≡ ok a)) ⊎ ((e : Error) × (r ≡ raise e))
Result-cases (ok a) = inl (a, refl)
Result-cases (raise e) = inr (e, refl)

created_as-append :
    (k id v : String) (created : List (String × String))
    → is_some (created_as k created) ≡ true
    → is_some (created_as k (created ++ (id, v) ∷ [])) ≡ true
unfolding created_as
created_as-append k id v [] h = cc h
created_as-append k id v ((j, w) ∷ created) h = elim (Bool-cases (j == k)) [
  | inl s ↦ rw s refl
  | inr o ↦ rw o (created_as-append k id v created (rw o at h))
]

created_as-append_new :
    (id v : String) (created : List (String × String))
    → is_some (created_as id (created ++ (id, v) ∷ [])) ≡ true
unfolding created_as
created_as-append_new id v [] = rw (text_eq_self id) refl
created_as-append_new id v ((j, w) ∷ created) = elim (Bool-cases (j == id)) [
  | inl s ↦ rw s refl
  | inr o ↦ rw o (created_as-append_new id v created)
]

known_parents_found :
    (task : String) (dep : WorkflowDependency) (deps : List WorkflowDependency)
    (created : List (String × String)) (pid : String)
    → created_as dep.task created ≡ some pid
    → (known_parents task (dep ∷ deps) created).1 ≡ (known_parents task deps created).1
unfolding known_parents
known_parents_found task dep deps created pid found = rw (known_parents, found) refl

-- Where the tasks before are there, no parent is missing.
known_parents_lem :
    (ids before : List String) (task : String) (deps : List WorkflowDependency)
    (created : List (String × String))
    → AreBefore ids before deps
    → AreIn ids deps
    → ((k : String) → In k before → is_some (created_as k created) ≡ true)
    → (known_parents task deps created).1 ≡ []
known_parents_lem ids before task [] created b known have = unfold known_parents in refl
known_parents_lem ids before task (dep ∷ deps) created (b, h) (k, known) have =
    let there = elim b as (λ _. is_some (created_as dep.task created) ≡ true) [
      | inl gone ↦ cc (gone, k)
      | inr m ↦ have dep.task m
    ] in
    elim (Option-cases (created_as dep.task created)) [
      | inl n ↦ cc (rw n at there)
      | inr (pid, found) ↦
          known_parents_found task dep deps created pid found
          ∙ known_parents_lem ids before task deps created h known have
    ]

has_refusal-append :
    (task : String) (e : Error) (xs ys : List ApplyError)
    → has_refusal (xs ++ task_refused task e ∷ ys) ≡ true
unfolding has_refusal
has_refusal-append task e [] ys = refl
has_refusal-append task e (invalid x ∷ xs) ys = has_refusal-append task e xs ys
has_refusal-append task e (parent_not_created x y ∷ xs) ys = has_refusal-append task e xs ys
has_refusal-append task e (task_refused x y ∷ xs) ys = refl
has_refusal-append task e (sort_failed ∷ xs) ys = has_refusal-append task e xs ys

module _ (spec : WorkflowSpec) (draw : String → ℕ × String) where
  -- The call of create_task for one task.
  call : WorkflowTaskSpec → List (String × String) → Db → Result Task × Db
  call t created db =
      create_task (draw t.id).0
        (task_arguments spec (draw t.id).1 t (known_parents t.id t.depends_on created).0) db

  create_all_ok :
      (t : WorkflowTaskSpec) (ts : List WorkflowTaskSpec) (created : List (String × String))
      (db : Db) (u : Task)
      → (call t created db).0 ≡ ok u
      → (known_parents t.id t.depends_on created).1 ≡ []
      → (create_all spec draw (t ∷ ts) created db).0
        ≡ (create_all spec draw ts (created ++ (t.id, u.id) ∷ []) (call t created db).1).0
  unfolding create_all call
  create_all_ok t ts created db u made found = rw (create_all, made, found) refl

  create_all_raise :
      (t : WorkflowTaskSpec) (ts : List WorkflowTaskSpec) (created : List (String × String))
      (db : Db) (e : Error)
      → (call t created db).0 ≡ raise e
      → has_refusal (create_all spec draw (t ∷ ts) created db).0.1 ≡ true
  unfolding create_all call
  create_all_raise t ts created db e refused =
      rw (create_all, refused) (has_refusal-append t.id e _ _)

  pub create_all_lem :
      (ids before : List String) (ts : List WorkflowTaskSpec) (created : List (String × String))
      (db : Db)
      → IsOrdered ids before ts
      → ((t : WorkflowTaskSpec) → In t ts → AreIn ids t.depends_on)
      → ((k : String) → In k before → is_some (created_as k created) ≡ true)
      → has_refusal (create_all spec draw ts created db).0.1 ≡ false
      → ((create_all spec draw ts created db).0.1 ≡ [])
        × ((k : String)
            → In k before ⊎ In k (ids_of ts)
            → is_some (created_as k (create_all spec draw ts created db).0.0) ≡ true)
  create_all_lem ids before [] created db o known have none_refused =
      unfold create_all in (refl, λ k m. elim m [ inl i ↦ have k i | inr i ↦ absurd i ])
  create_all_lem ids before (t ∷ ts) created db (b, o) known have none_refused =
      let found =
        known_parents_lem ids before t.id t.depends_on created b (known t (inl refl)) have in
      elim (Result-cases (call t created db).0) [
        | inr (e, refused) ↦ cc (create_all_raise t ts created db e refused, none_refused)
        | inl (u, made) ↦
            let step = create_all_ok t ts created db u made found in
            let have_more : (k : String)
                → In k (t.id ∷ before)
                → is_some (created_as k (created ++ (t.id, u.id) ∷ [])) ≡ true =
              λ k m. elim m [
                | inl same ↦ rw (← same) (created_as-append_new t.id u.id created)
                | inr i ↦ created_as-append k t.id u.id created (have k i)
              ] in
            let (clean, all) =
              create_all_lem ids (t.id ∷ before) ts _ _ o (λ v m. known v (inr m)) have_more
                (rw step at none_refused) in
            rw step (
              clean,
              λ k m. all k (elim m [
                | inl i ↦ inl (inr i)
                | inr (inl same) ↦ inl (inl same)
                | inr (inr i) ↦ inr i
              ]),
            )
      ]
