-- ===== src/Store/Edit.antt =====
-- TaskStore.update_task, add_comment, _update_workspace_path and _set_worker_pid.
pub mod Laws
use simple_a2a_registry.Prelude.{
  ℕ, suc, String, Bool, true, false, ◌||◌, not, Option, none, some, List, [], ◌∷◌, ◌++◌, is_some,
  strip, ◌==◌, if◌then◌else◌,
}
use simple_a2a_registry.Models.{
  Task, TaskComment, TaskEventKind, kind_value, ℤ, Json, null, text, number, object, field, end,
}
use simple_a2a_registry.Db.{
  Db, Action, Result, ok, raise, tx, find, set_task, emit_event, task_not_found,
}

-- The editable fields; `none` leaves a field alone.
pub record TaskEdit : Type 0 where
  pub title : Option String
  pub body : Option String
  pub assignee : Option String
  pub priority : Option ℤ

-- `title is not None and title.strip() != task.title`
retitles : TaskEdit → Task → Bool
retitles e t = elim e.title [ none ↦ false | some s ↦ not (strip s == t.title) ]

changes : TaskEdit → Task → Bool
unfolding retitles
changes e t = retitles e t || (is_some e.body || (is_some e.assignee || is_some e.priority))

-- `s.strip() if s.strip() else None`
stripped : String → Option String
stripped s = if strip s == "" then none else some (strip s)

new_text : Option String → Option String → Option String
unfolding stripped
new_text none old = old
new_text (some s) old = stripped s

new_priority : Option ℤ → ℤ → ℤ
new_priority none old = old
new_priority (some p) old = p

unfoldable pub edit_columns : TaskEdit → Task → Task
unfolding new_text new_priority
edit_columns e t = record t {
  title = elim e.title [ none ↦ t.title | some s ↦ strip s ];
  body = new_text e.body t.body;
  assignee = new_text e.assignee t.assignee;
  priority = new_priority e.priority t.priority;
}

opt_json : Option String → Json
opt_json none = null
opt_json (some s) = text s

edit_payload : Task → Json
unfolding opt_json
edit_payload t = object (
    field "title" (text t.title) (
      field "body" (opt_json t.body)
        (field "assignee" (opt_json t.assignee) (field "priority" (number t.priority) end))))

-- The UPDATE writes the columns of the edited row that was read.
edit_found : ℕ → String → TaskEdit → Task → Action Task
unfolding changes edit_payload
edit_found now task_id e t db =
    if changes e t
    then (
      ok (edit_columns e t),
      emit_event now task_id (kind_value TaskEventKind.updated) none
          (some (edit_payload (edit_columns e t))) (set_task task_id (edit_columns e) db),
    )
    else (ok t, db)

unfoldable pub edit_block : ℕ → String → TaskEdit → Action Task
unfolding edit_found
edit_block now task_id e db = elim (find task_id db.tasks) [
  | none ↦ (raise (task_not_found task_id), db)
  | some t ↦ edit_found now task_id e t db
]

unfoldable pub update_task : ℕ → String → TaskEdit → Action Task
update_task now task_id e = tx (edit_block now task_id e)

comment_payload : String → Json
comment_payload author = object (field "author" (text author) end)

-- The comment with the id that the table gives it.
abbrev pub new_comment : ℕ → String → String → String → Db → TaskComment
new_comment now task_id author body db = record {
  id = db.next_comment_id;
  task_id = task_id;
  author = author;
  body = body;
  created_at = now;
}

insert_comment : TaskComment → Db → Db
insert_comment c db = record db {
  comments = db.comments ++ c ∷ [];
  next_comment_id = suc db.next_comment_id;
}

unfoldable pub comment_block : ℕ → String → String → String → Action TaskComment
unfolding comment_payload insert_comment
comment_block now task_id author body db =
    if is_some (find task_id db.tasks)
    then (
      ok (new_comment now task_id author body db),
      emit_event now task_id (kind_value TaskEventKind.commented) none
          (some (comment_payload author))
          (insert_comment (new_comment now task_id author body db) db),
    )
    else (raise (task_not_found task_id), db)

unfoldable pub add_comment : ℕ → String → String → String → Action TaskComment
add_comment now task_id author body = tx (comment_block now task_id author body)

abbrev pub write_workspace_path : String → Task → Task
write_workspace_path path t = record t { workspace_path = some path }

abbrev pub write_worker_pid : ℕ → Task → Task
write_worker_pid pid t = record t { worker_pid = some pid }

unfoldable pub update_workspace_path : String → String → Db → Db
update_workspace_path task_id path db = set_task task_id (write_workspace_path path) db

unfoldable pub set_worker_pid : String → ℕ → Db → Db
set_worker_pid task_id pid db = set_task task_id (write_worker_pid pid) db
