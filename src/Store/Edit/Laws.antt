-- ===== src/Store/Edit/Laws.antt =====
-- Edits and comments leave ids, links and statuses as they are.
use simple_a2a_registry.Prelude.{
  ℕ, String, none, some, ◌≡◌, refl, Bool-cases, Option-cases, is_some, inl, inr,
}
use simple_a2a_registry.Models.{Task}
use simple_a2a_registry.StateMachine.Laws.{stay}
use simple_a2a_registry.Db.{Db, raise, find, set_task, emit_event, task_not_found}
use simple_a2a_registry.Db.Frame.{KeepsId, SameFrame, SameFrame-refl, set_task-SameFrame}
use simple_a2a_registry.Db.Tx.{tx_keeps}
use simple_a2a_registry.Store.Evolves.{Evolves, Evolves-refl, set_task-Evolves}
use simple_a2a_registry.Store.Edit.{
  TaskEdit, changes, edit_columns, edit_found, edit_block, update_task, comment_block, add_comment,
  write_workspace_path, write_worker_pid, update_workspace_path, set_worker_pid,
}

-- A write that keeps the id and the status of a row.
pub record KeepsStatus (f : Task → Task) : Type 0 where
  pub same_id : KeepsId f
  pub same_status : (t : Task) → (f t).status ≡ t.status

pub quiet-Evolves :
    (i : String) (f : Task → Task) (db : Db) → KeepsStatus f → Evolves db (set_task i f db)
quiet-Evolves i f db k = set_task-Evolves i f db k.same_id (λ t _. rw (k.same_status t) stay)

edit_columns-KeepsStatus : (e : TaskEdit) → KeepsStatus (edit_columns e)
unfolding edit_columns
edit_columns-KeepsStatus e = record { same_id = λ t. refl; same_status = λ t. refl }

module _ (now : ℕ) (i : String) (e : TaskEdit) (db : Db) where
  edit_block_found :
      (t : Task) → find i db.tasks ≡ some t → edit_block now i e db ≡ edit_found now i e t db
  unfolding edit_block
  edit_block_found t h = rw (h, edit_block)

  edit_block_missing :
      find i db.tasks ≡ none → edit_block now i e db ≡ (raise (task_not_found i), db)
  unfolding edit_block
  edit_block_missing h = rw (h, edit_block)

  edit_found-SameFrame : (t : Task) → SameFrame db (edit_found now i e t db).1
  unfolding edit_found emit_event
  edit_found-SameFrame t = elim (Bool-cases (changes e t)) [
    | inl c ↦ rw c (
        let s = set_task-SameFrame i (edit_columns e) db (edit_columns-KeepsStatus e).same_id in
        record { same_ids = s.same_ids; same_links = s.same_links })
    | inr n ↦ rw n (SameFrame-refl db)
  ]

  edit_found-Evolves : (t : Task) → Evolves db (edit_found now i e t db).1
  unfolding edit_found emit_event
  edit_found-Evolves t = elim (Bool-cases (changes e t)) [
    | inl c ↦
        rw c (record { at = (quiet-Evolves i (edit_columns e) db (edit_columns-KeepsStatus e)).at })
    | inr n ↦ rw n (Evolves-refl db)
  ]

  pub update_task-SameFrame : SameFrame db (update_task now i e db).1
  unfolding update_task
  update_task-SameFrame = tx_keeps (SameFrame db) (edit_block now i e) db (SameFrame-refl db) λ a _.
      elim (Option-cases (find i db.tasks)) [
        | inl m ↦ rw (edit_block_missing m) (SameFrame-refl db)
        | inr (t, h) ↦ rw (edit_block_found t h) (edit_found-SameFrame t)
      ]

  pub update_task-Evolves : Evolves db (update_task now i e db).1
  unfolding update_task
  update_task-Evolves = tx_keeps (Evolves db) (edit_block now i e) db (Evolves-refl db) λ a _.
      elim (Option-cases (find i db.tasks)) [
        | inl m ↦ rw (edit_block_missing m) (Evolves-refl db)
        | inr (t, h) ↦ rw (edit_block_found t h) (edit_found-Evolves t)
      ]

module _ (now : ℕ) (i author body : String) (db : Db) where
  pub add_comment-SameFrame : SameFrame db (add_comment now i author body db).1
  unfolding add_comment
  add_comment-SameFrame =
      tx_keeps (SameFrame db) (comment_block now i author body) db (SameFrame-refl db) λ a _.
        unfold comment_block emit_event in
        elim (Bool-cases (is_some (find i db.tasks))) [
          | inl c ↦ rw c (record { same_ids = refl; same_links = refl })
          | inr n ↦ rw n (SameFrame-refl db)
        ]

  pub add_comment-Evolves : Evolves db (add_comment now i author body db).1
  unfolding add_comment
  add_comment-Evolves =
      tx_keeps (Evolves db) (comment_block now i author body) db (Evolves-refl db) λ a _.
        unfold comment_block emit_event in
        elim (Bool-cases (is_some (find i db.tasks))) [
          | inl c ↦ rw c (record { at = (Evolves-refl db).at })
          | inr n ↦ rw n (Evolves-refl db)
        ]

path-KeepsStatus : (path : String) → KeepsStatus (write_workspace_path path)
path-KeepsStatus path = record { same_id = λ t. refl; same_status = λ t. refl }

pid-KeepsStatus : (pid : ℕ) → KeepsStatus (write_worker_pid pid)
pid-KeepsStatus pid = record { same_id = λ t. refl; same_status = λ t. refl }

module _ (i : String) (db : Db) where
  pub update_workspace_path-SameFrame :
      (path : String) → SameFrame db (update_workspace_path i path db)
  unfolding update_workspace_path
  update_workspace_path-SameFrame path =
      set_task-SameFrame i (write_workspace_path path) db (λ t. refl)

  pub update_workspace_path-Evolves : (path : String) → Evolves db (update_workspace_path i path db)
  unfolding update_workspace_path
  update_workspace_path-Evolves path =
      quiet-Evolves i (write_workspace_path path) db (path-KeepsStatus path)

  pub set_worker_pid-SameFrame : (pid : ℕ) → SameFrame db (set_worker_pid i pid db)
  unfolding set_worker_pid
  set_worker_pid-SameFrame pid = set_task-SameFrame i (write_worker_pid pid) db (λ t. refl)

  pub set_worker_pid-Evolves : (pid : ℕ) → Evolves db (set_worker_pid i pid db)
  unfolding set_worker_pid
  set_worker_pid-Evolves pid = quiet-Evolves i (write_worker_pid pid) db (pid-KeepsStatus pid)
