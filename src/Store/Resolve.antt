-- ===== src/Store/Resolve.antt =====
-- TaskStore._resolve_dependencies, and the loop over the children of a completed task.
pub mod Laws
pub mod Outcome
use simple_a2a_registry.Prelude.{
  ℕ, String, Bool, true, false, ◌&&◌, ◌||◌, not, Option, none, some, List, [], ◌∷◌, select, truthy,
  text_opt_eq, ◌==◌, if◌then◌else◌,
}
use simple_a2a_registry.Models.{
  Task, TaskLink, TaskStatus, todo, ready, completed, archived, status_eq, Json, text, object,
  field, end, TaskEventKind, kind_value,
}
use simple_a2a_registry.Db.{Db, find, set_task, emit_event}

-- The columns that the join selects: the parent's status and result, the link's condition.
pub record ParentRow : Type 0 where
  pub status : TaskStatus
  pub result : Option String
  pub condition : Option String

-- `FROM task_links l JOIN tasks p ON l.parent_id = p.id WHERE l.child_id = ?`
unfoldable pub join_parents : List Task → List TaskLink → List ParentRow
join_parents tasks [] = []
join_parents tasks (l ∷ links) =
    let rest = join_parents tasks links in
    elim (find l.parent_id tasks) [
      | none ↦ rest
      | some p ↦ record { status = p.status; result = p.result; condition = l.condition } ∷ rest
    ]

unfoldable pub parent_rows : Db → String → List ParentRow
unfolding join_parents
parent_rows db task_id = join_parents db.tasks (select (λ l. l.child_id == task_id) db.links)

-- One round of the loop over the parents: does the row leave `all_satisfied` true?
unfoldable pub is_satisfied : ParentRow → Bool
is_satisfied row =
    if not (status_eq row.status completed || status_eq row.status archived)
    then false
    else if truthy row.condition
    then truthy row.result && text_opt_eq row.result row.condition
    else true

unfoldable pub all_satisfied : List ParentRow → Bool
unfolding is_satisfied
all_satisfied [] = true
all_satisfied (row ∷ rows) = if is_satisfied row then all_satisfied rows else false

any_condition : List ParentRow → Bool
any_condition [] = false
any_condition (row ∷ rows) = truthy row.condition || any_condition rows

abbrev pub write_status : TaskStatus → Task → Task
write_status s t = record t { status = s }

promoted_payload : String → Json
promoted_payload reason =
    object
      (field "from" (text "todo") (field "to" (text "ready") (field "reason" (text reason) end)))

demoted_payload : Json
demoted_payload = object (field "from" (text "ready") (field "to" (text "todo") end))

promote_task : ℕ → String → String → Db → Db
unfolding promoted_payload
promote_task now task_id reason db =
    emit_event now task_id (kind_value TaskEventKind.dependency_promoted) none
      (some (promoted_payload reason)) (set_task task_id (write_status ready) db)

demote_task : ℕ → String → Db → Db
unfolding demoted_payload
demote_task now task_id db =
    emit_event now task_id (kind_value TaskEventKind.dependency_promoted) none
      (some demoted_payload) (set_task task_id (write_status todo) db)

resolve_parents : ℕ → String → List ParentRow → TaskStatus → Db → Db
resolve_parents now task_id [] current_status db =
    if status_eq current_status todo then promote_task now task_id "no_parents" db else db
resolve_parents now task_id (row ∷ rows) current_status db =
    if all_satisfied (row ∷ rows) && status_eq current_status todo
    then promote_task now task_id
        (if any_condition (row ∷ rows) then "conditions_satisfied" else "all_parents_done") db
    else if not (all_satisfied (row ∷ rows)) && status_eq current_status ready
    then demote_task now task_id db
    else db

unfoldable pub resolve_dependencies : ℕ → String → Db → Db
unfolding resolve_parents promote_task demote_task any_condition
resolve_dependencies now task_id db = elim (find task_id db.tasks) [
  | none ↦ db
  | some t ↦ resolve_parents now task_id (parent_rows db task_id) t.status db
]

-- `for r in result_links.fetchall(): self._resolve_dependencies(engine, r["child_id"])`
unfoldable pub resolve_each : ℕ → List TaskLink → Db → Db
resolve_each now [] db = db
resolve_each now (l ∷ rows) db = resolve_each now rows (resolve_dependencies now l.child_id db)

-- The loop over the links of a parent.
unfoldable pub resolve_children : ℕ → String → Db → Db
unfolding resolve_each
resolve_children now task_id db =
    resolve_each now (select (λ l. l.parent_id == task_id) db.links) db
