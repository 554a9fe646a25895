-- ===== src/Store/Status/Laws.antt =====
-- What a status update does on every path: errors change nothing, a success follows one edge of the
-- state machine, and only the completion of a task reaches other tasks.
use simple_a2a_registry.Prelude.{
  ℕ, String, Option, none, some, ◌≡◌, refl, sym, subst, ◌∙◌, ◌==◌, Bool-cases, select, inl, inr,
  text_eq_self,
}
use simple_a2a_registry.Models.{Task, TaskStatus, completed, failed, value, Json}
use simple_a2a_registry.StateMachine.{validate_transition}
use simple_a2a_registry.StateMachine.Laws.{Step, Moves, one-Step, valid-Step}
use simple_a2a_registry.Db.{Db, find, set_task}
use simple_a2a_registry.Db.Frame.{
  SameFrame, SameFrame-refl, SameFrame-trans, set_task-SameFrame, find-update_task_by_id,
  tasks-set_run, links-set_run, emit_event-SameFrame, tasks-emit_event,
}
use simple_a2a_registry.Store.Evolves.{
  Evolves, Evolves-refl, Evolves-trans, Evolves-same_tasks, set_task-Evolves,
}
use simple_a2a_registry.Store.Resolve.{resolve_children}
use simple_a2a_registry.Store.Resolve.Laws.{
  resolve_each-settled, resolve_children-SameFrame, resolve_children-Evolves,
}
use simple_a2a_registry.Store.Status.{StatusUpdate, lock_mismatch, log_transition, transition_found}
use simple_a2a_registry.Store.Status.Writes.{
  write_columns, end_run, write_transition, event_kind, after_event, notify_children, overflows,
}

tasks-end_run :
    (now : ℕ) (task : Task) (s : TaskStatus) (result summary : Option String)
    (metadata : Option Json) (db : Db)
    → (end_run now task s result summary metadata db).tasks ≡ db.tasks
unfolding end_run
tasks-end_run now task completed result summary metadata db = tasks-set_run task.current_run_id _ db
tasks-end_run now task failed result summary metadata db = tasks-set_run task.current_run_id _ db
tasks-end_run now task _ result summary metadata db = refl

links-end_run :
    (now : ℕ) (task : Task) (s : TaskStatus) (result summary : Option String)
    (metadata : Option Json) (db : Db)
    → (end_run now task s result summary metadata db).links ≡ db.links
unfolding end_run
links-end_run now task completed result summary metadata db = links-set_run task.current_run_id _ db
links-end_run now task failed result summary metadata db = links-set_run task.current_run_id _ db
links-end_run now task _ result summary metadata db = refl

pub id-write_columns :
    (now : ℕ) (s : TaskStatus) (result : Option String) (t : Task)
    → (write_columns now s result t).id ≡ t.id
unfolding write_columns
id-write_columns now completed result t = refl
id-write_columns now _ result t = refl

pub status-write_columns :
    (now : ℕ) (s : TaskStatus) (result : Option String) (t : Task)
    → (write_columns now s result t).status ≡ s
unfolding write_columns
status-write_columns now completed result t = refl
status-write_columns now _ result t = refl

module _ (now : ℕ) (i : String) where
  end_run-SameFrame :
      (task : Task) (s : TaskStatus) (result summary : Option String) (metadata : Option Json)
      (db : Db)
      → SameFrame db (end_run now task s result summary metadata db)
  end_run-SameFrame task s result summary metadata db = record {
    same_ids = rw (tasks-end_run now task s result summary metadata db);
    same_links = links-end_run now task s result summary metadata db;
  }

  write_transition-SameFrame :
      (task : Task) (s : TaskStatus) (result summary : Option String) (metadata : Option Json)
      (db : Db)
      → SameFrame db (write_transition now i task s result summary metadata db)
  unfolding write_transition
  write_transition-SameFrame task s result summary metadata db =
      let ended = end_run now task s result summary metadata db in
      SameFrame-trans (end_run-SameFrame task s result summary metadata db)
        (set_task-SameFrame i (write_columns now s result) ended (id-write_columns now s result))

  pub find-write_transition :
      (task : Task) (s : TaskStatus) (result summary : Option String) (metadata : Option Json)
      (db : Db) (t : Task)
      → find i db.tasks ≡ some t
      → find i (write_transition now i task s result summary metadata db).tasks
        ≡ some (write_columns now s result t)
  unfolding write_transition set_task
  find-write_transition task s result summary metadata db t h = rw (
    find-update_task_by_id i i (write_columns now s result)
        (end_run now task s result summary metadata db).tasks (id-write_columns now s result),
    text_eq_self i,
    tasks-end_run now task s result summary metadata db,
    h,
  )

  write_transition-Evolves :
      (task : Task) (s : TaskStatus) (result summary : Option String) (metadata : Option Json)
      (db : Db)
      → find i db.tasks ≡ some task
      → Step task.status s
      → Evolves db (write_transition now i task s result summary metadata db)
  unfolding write_transition
  write_transition-Evolves task s result summary metadata db found step =
      let ended = end_run now task s result summary metadata db in
      let same = tasks-end_run now task s result summary metadata db in
      Evolves-trans (Evolves-same_tasks same) (
        set_task-Evolves i (write_columns now s result) ended (id-write_columns now s result) λ t h.
          let e : some task ≡ some t = sym found ∙ subst (λ ts. find i ts ≡ some t) same h in
          let same_task : task ≡ t = cc in
          subst (λ x. Moves t.status x) (sym (status-write_columns now s result t))
            (subst (λ (x : Task). Moves x.status s) same_task (one-Step step)))

  notify_children-SameFrame : (s : TaskStatus) (db : Db) → SameFrame db (notify_children now i s db)
  unfolding notify_children
  notify_children-SameFrame completed db = resolve_children-SameFrame now i db
  notify_children-SameFrame _ db = SameFrame-refl db

  notify_children-Evolves : (s : TaskStatus) (db : Db) → Evolves db (notify_children now i s db)
  unfolding notify_children
  notify_children-Evolves completed db = resolve_children-Evolves now i db
  notify_children-Evolves _ db = Evolves-refl db

  notify_children-settled :
      (s : TaskStatus) (db : Db) (t : Task)
      → t.status ≡ s
      → find i db.tasks ≡ some t
      → find i (notify_children now i s db).tasks ≡ some t
  unfolding notify_children
  notify_children-settled completed db t e h =
      unfold resolve_children in
      resolve_each-settled now i t (λ p. cc, λ p. cc) (select (λ l. l.parent_id == i) db.links) db h
  notify_children-settled _ db t e h = h

  log_transition-SameFrame :
      (task : Task) (u : StatusUpdate) (kind : Option String) (db : Db)
      → SameFrame db (log_transition now i task u kind db).1
  unfolding after_event
  log_transition-SameFrame task u none db = SameFrame-refl db
  log_transition-SameFrame task u (some kind) db =
      SameFrame-trans (emit_event-SameFrame now i kind task.current_run_id _ db)
        (notify_children-SameFrame u.new_status _)

  log_transition-Evolves :
      (task : Task) (u : StatusUpdate) (kind : Option String) (db : Db)
      → Evolves db (log_transition now i task u kind db).1
  unfolding after_event
  log_transition-Evolves task u none db = Evolves-refl db
  log_transition-Evolves task u (some kind) db =
      Evolves-trans (Evolves-same_tasks (tasks-emit_event now i kind task.current_run_id _ db))
        (notify_children-Evolves u.new_status _)

  pub log_transition_row :
      (task : Task) (u : StatusUpdate) (kind : String) (db : Db) (t : Task)
      → t.status ≡ u.new_status
      → find i db.tasks ≡ some t
      → find i (log_transition now i task u (some kind) db).1.tasks ≡ some t
  unfolding after_event
  log_transition_row task u kind db t e h =
      notify_children-settled u.new_status _ t e
        (rw (tasks-emit_event now i kind task.current_run_id _ db) h)

  module _ (u : StatusUpdate) (task : Task) where
    pub transition_found-SameFrame : (db : Db) → SameFrame db (transition_found now i u task db).1
    unfolding transition_found
    transition_found-SameFrame db =
        elim (Bool-cases (validate_transition (value task.status) (value u.new_status))) [
          | inr bad ↦ rw bad (SameFrame-refl db)
          | inl good ↦ rw good (elim (Bool-cases (lock_mismatch task u.claim_lock)) [
            | inl m ↦ rw m (SameFrame-refl db)
            | inr n ↦ rw n (elim (Bool-cases (overflows task u.new_status)) [
              | inl o ↦ rw o (end_run-SameFrame task u.new_status u.result u.summary u.metadata db)
              | inr o ↦ rw o (
                  SameFrame-trans
                    (write_transition-SameFrame task u.new_status u.result u.summary u.metadata db)
                    (log_transition-SameFrame task u (event_kind task.status u.new_status) _))
            ])
          ])
        ]

    pub transition_found-Evolves :
        (db : Db) → find i db.tasks ≡ some task → Evolves db (transition_found now i u task db).1
    unfolding transition_found
    transition_found-Evolves db found =
        elim (Bool-cases (validate_transition (value task.status) (value u.new_status))) [
          | inr bad ↦ rw bad (Evolves-refl db)
          | inl good ↦ rw good (elim (Bool-cases (lock_mismatch task u.claim_lock)) [
            | inl m ↦ rw m (Evolves-refl db)
            | inr n ↦ rw n (elim (Bool-cases (overflows task u.new_status)) [
              | inl o ↦ rw o (
                  Evolves-same_tasks
                    (tasks-end_run now task u.new_status u.result u.summary u.metadata db))
              | inr o ↦ rw o (
                  Evolves-trans
                    (write_transition-Evolves task u.new_status u.result u.summary u.metadata db
                      found (valid-Step task.status u.new_status good))
                    (log_transition-Evolves task u (event_kind task.status u.new_status) _))
            ])
          ])
        ]
