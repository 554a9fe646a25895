-- ===== src/Store/Resolve/Outcome.antt =====
-- What TaskStore._resolve_dependencies of orchestration/store.py gives, by the parents that the links
-- name: their statuses, and the results that the conditions of the links ask for.
use simple_a2a_registry.Prelude.{
  ℕ, String, true, false, ◌||◌, ◌&&◌, Option, none, some, List, [], ◌∷◌, select, truthy,
  text_opt_eq, text_opt_eq→≡, text_opt_eq_self, truthy-cases, ◌≡◌, ◌≢◌, ◌⊎◌, ◌↔◌, refl, sym, ◌∙◌,
  some_inj, arith, ◌==◌, eq_iff, Bool-cases, Option-cases, inl, inr, if◌then◌else◌, text_eq_self,
}
use simple_a2a_registry.Models.{
  Task, TaskLink, TaskStatus, todo, ready, completed, archived, status_eq,
}
use simple_a2a_registry.Db.{Db, find}
use simple_a2a_registry.Store.Resolve.{
  ParentRow, join_parents, parent_rows, is_satisfied, all_satisfied, resolve_dependencies,
}
use simple_a2a_registry.Store.Resolve.Laws.{resolved, resolve_dependencies_row}

-- The parent has ended well, and the condition of the link, if it has one, is its result.
abbrev pub IsDone : Task → Option String → Type 0
IsDone p condition =
    ((p.status ≡ completed) ⊎ (p.status ≡ archived))
    × ((condition ≡ none) ⊎ ((condition ≡ some "") ⊎ (p.result ≡ condition)))

-- The link is one to the task, and its parent is there and not done.
abbrev pub Blocks : List Task → String → TaskLink → Type 0
Blocks tasks i l =
    (l.child_id ≡ i) × (p : Task) × (find l.parent_id tasks ≡ some p) × (¬ IsDone p l.condition)

-- Some link of the table blocks the task.
unfoldable pub IsBlocked : List Task → String → List TaskLink → Type 0
IsBlocked tasks i [] = ⊥
IsBlocked tasks i (l ∷ links) = Blocks tasks i l ⊎ IsBlocked tasks i links

-- The status before and after, for a task that is blocked or is not.
pub data Resolves (tasks : List Task) (i : String) (links : List TaskLink)
    : TaskStatus → TaskStatus → Type 0 where
  promoted : (¬ IsBlocked tasks i links) → Resolves tasks i links todo ready
  waiting : IsBlocked tasks i links → Resolves tasks i links todo todo
  demoted : IsBlocked tasks i links → Resolves tasks i links ready todo
  open_still : (¬ IsBlocked tasks i links) → Resolves tasks i links ready ready
  untouched : {s : TaskStatus} → s ≢ todo → s ≢ ready → Resolves tasks i links s s

row_of_parent : Task → Option String → ParentRow
row_of_parent p condition = record { status = p.status; result = p.result; condition = condition }

ended_iff :
    (s : TaskStatus)
    → ((status_eq s completed || status_eq s archived) ≡ true) ↔ ((s ≡ completed) ⊎ (s ≡ archived))
ended_iff s = (λ h. ground arith, λ h. ground arith)

-- The test of the condition against the result.
condition_iff :
    (result c : Option String)
    → ((if truthy c then truthy result && text_opt_eq result c else true) ≡ true)
      ↔ ((c ≡ none) ⊎ ((c ≡ some "") ⊎ (result ≡ c)))
condition_iff result c = elim (truthy-cases c) [
  | inr (e, o) ↦ (λ h. elim o [ inl x ↦ inl x | inr x ↦ inr (inl x) ], λ h. rw e refl)
  | inl (e, a, b) ↦ (
    λ h. inr (inr (text_opt_eq→≡ result c (ground (arith, rw e at h)))),
    λ h. elim h [
      | inl x ↦ absurd (a x)
      | inr rest ↦ elim rest [ inl x ↦ absurd (b x) | inr x ↦ rw (x, e, text_opt_eq_self c) refl ]
    ],
  )
]

satisfied_iff :
    (p : Task) (c : Option String) → (is_satisfied (row_of_parent p c) ≡ true) ↔ IsDone p c
unfolding is_satisfied row_of_parent
satisfied_iff p c =
    elim (Bool-cases (status_eq p.status completed || status_eq p.status archived)) [
      | inl e ↦
          let (there, back) = condition_iff p.result c in
          (λ h. ((ended_iff p.status).0 e, there (rw e at h)), λ h. rw e (back h.1))
      | inr n ↦ (λ h. cc (rw n at h), λ h. cc (n, (ended_iff p.status).1 h.0))
    ]

IsBlocked-cases :
    (tasks : List Task) (i : String) (links : List TaskLink)
    → ((all_satisfied (join_parents tasks (select (λ l. l.child_id == i) links)) ≡ true)
        × (¬ IsBlocked tasks i links))
      ⊎ ((all_satisfied (join_parents tasks (select (λ l. l.child_id == i) links)) ≡ false)
          × IsBlocked tasks i links)
unfolding all_satisfied join_parents select IsBlocked row_of_parent
IsBlocked-cases tasks i [] = inl (refl, λ h. absurd h)
IsBlocked-cases tasks i (l ∷ links) = elim (Bool-cases (l.child_id == i)) [
  | inr n ↦ elim (IsBlocked-cases tasks i links) [
    | inl (a, b) ↦ inl (rw n a, λ h. elim h [ inl x ↦ cc (x.0, n, text_eq_self i) | inr x ↦ b x ])
    | inr (a, b) ↦ inr (rw n a, inr b)
  ]
  | inl y ↦ elim (Option-cases (find l.parent_id tasks)) [
    | inl e ↦ elim (IsBlocked-cases tasks i links) [
      | inl (a, b) ↦
          inl (rw (y, join_parents, e) a, λ h. elim h [ inl (c, p, f, d) ↦ cc | inr x ↦ b x ])
      | inr (a, b) ↦ inr (rw (y, join_parents, e) a, inr b)
    ]
    | inr (p, e) ↦ elim (Bool-cases (is_satisfied (row_of_parent p l.condition))) [
      | inr bad ↦ inr (
        rw (y, join_parents, e, bad) refl,
        inl ((eq_iff l.child_id i).0 y, p, e, λ d. cc ((satisfied_iff p l.condition).1 d, bad)),
      )
      | inl good ↦ elim (IsBlocked-cases tasks i links) [
        | inl (a, b) ↦ inl (
          rw (y, join_parents, e, good) a,
          λ h. elim h [
            | inl (c, q, f, d) ↦
                let same : p ≡ q = some_inj (sym e ∙ f) in
                d (rw (← same) ((satisfied_iff p l.condition).0 good))
            | inr x ↦ b x
          ],
        )
        | inr (a, b) ↦ inr (rw (y, join_parents, e, good) a, inr b)
      ]
    ]
  ]
]

resolved-Resolves :
    (db : Db) (i : String) (s : TaskStatus)
    → Resolves db.tasks i db.links s (resolved (parent_rows db i) s)
unfolding parent_rows
resolved-Resolves db i s = elim (IsBlocked-cases db.tasks i db.links) [
  | inl (a, b) ↦ rw a (free s b)
  | inr (a, b) ↦ rw a (held s b)
]
  where
    free :
        (s : TaskStatus)
        → (¬ IsBlocked db.tasks i db.links)
        → Resolves db.tasks i db.links s (if status_eq s todo then ready else s)
    free todo b = promoted b
    free ready b = open_still b
    free s b = untouched (λ e. cc) (λ e. cc)

    held :
        (s : TaskStatus)
        → IsBlocked db.tasks i db.links
        → Resolves db.tasks i db.links s (if status_eq s ready then todo else s)
    held todo b = waiting b
    held ready b = demoted b
    held s b = untouched (λ e. cc) (λ e. cc)

-- `resolve_dependencies` on a task that has a row: from todo it becomes ready where no link blocks it,
-- from ready it becomes todo where one does, and in every other case it keeps its status. A link
-- blocks the task where its parent is there and is neither completed nor archived, or has another
-- result than the condition of the link. The other columns, and the row of every other task, are
-- unchanged.
pub status-resolve_dependencies :
    (now : ℕ) (task_id : String) (db : Db) (t : Task) (j : String)
    → find task_id db.tasks ≡ some t
    → (s : TaskStatus) × Resolves db.tasks task_id db.links t.status s
      × (find j (resolve_dependencies now task_id db).tasks
          ≡ (if task_id == j then some (record t { status = s }) else find j db.tasks))
status-resolve_dependencies now task_id db t j h = (
  resolved (parent_rows db task_id) t.status,
  resolved-Resolves db task_id t.status,
  resolve_dependencies_row now task_id db t j h,
)
