-- ===== src/Store/Release/Laws.antt =====
-- What the two sweeps do to every task, and that they follow the state machine.
use simple_a2a_registry.Prelude.{
  ℕ, ◌+◌, String, true, Option, some, select, length, ◌≡◌, refl, ap, subst, ◌∙◌, arith, ◌==◌,
  Bool-cases, inl, inr, text_eq_self, if◌then◌else◌,
}
use simple_a2a_registry.Models.{Task, running, blocked, failed, status_eq, status_eq→≡}
use simple_a2a_registry.StateMachine.Laws.{Moves, stay, one-Step, fail, expire, retry}
use simple_a2a_registry.Db.{Db, find, set_task, set_run, emit_event}
use simple_a2a_registry.Db.Frame.{
  ids, SameFrame, set_task-SameFrame, find-update_task_by_id, tasks-set_run, links-set_run, KeepsId,
  map_option,
}
use simple_a2a_registry.Store.Evolves.{Evolves}
use simple_a2a_registry.Store.Release.{
  is_releasable, release_columns, release_row, release_expired_claims, is_retryable,
  promote_columns, promote_row, promote_retryable_tasks, time_out_run, sweep, insert_retry_run,
}
use simple_a2a_registry.Store.Release.Sweep.{
  Distinct, RowRound, sweep-select, sweep-SameFrame, count-sweep,
}

abbrev Released : ℕ → Task → Task → Type 0
Released now row u = u ≡ release_columns now (row.consecutive_failures + 1) row

id-release_columns : (now n : ℕ) → KeepsId (release_columns now n)
unfolding release_columns
id-release_columns now n t = refl

id-promote_columns : (r : ℕ) → KeepsId (promote_columns r)
unfolding promote_columns
id-promote_columns r t = refl

find-set_task_row :
    (row : Task) (f : Task → Task) (db : Db) (j : String)
    → KeepsId f
    → find j (set_task row.id f db).tasks
      ≡ (if row.id == j then map_option f (find j db.tasks) else find j db.tasks)
unfolding set_task
find-set_task_row row f db j keeps = find-update_task_by_id row.id j f db.tasks keeps

module _ (now : ℕ) where
  release_row-RowRound : RowRound (release_row now) (Released now)
  unfolding release_row emit_event
  release_row-RowRound = record {
    writes = λ row db h.
        let n = row.consecutive_failures + 1 in
        (
          release_columns now n row,
          rw (
            find-set_task_row row (release_columns now n)
                (set_run row.current_run_id (time_out_run now) db) row.id
                (id-release_columns now n),
            text_eq_self row.id,
            tasks-set_run row.current_run_id (time_out_run now) db,
            h,
          ),
          refl,
        );
    others = λ row db j h.
        let n = row.consecutive_failures + 1 in
        rw (
          find-set_task_row row (release_columns now n)
              (set_run row.current_run_id (time_out_run now) db) j (id-release_columns now n),
          h,
          tasks-set_run row.current_run_id (time_out_run now) db,
        );
  }

  pub release_expired_claims_row :
      (tenant : Option String) (db : Db) (i : String) (t : Task)
      → Distinct (ids db.tasks)
      → find i db.tasks ≡ some t
      → (find i (release_expired_claims now tenant db).1.tasks
          ≡ some (
              if is_releasable now tenant t
              then release_columns now (t.consecutive_failures + 1) t
              else t))
        × ((release_expired_claims now tenant db).0
            ≡ length (select (is_releasable now tenant) db.tasks))
  unfolding release_expired_claims
  release_expired_claims_row tenant db i t d h =
      let rows = select (is_releasable now tenant) db.tasks in
      let (written, kept) =
        sweep-select (release_row now) release_row-RowRound (is_releasable now tenant) db i t d h in
      (
        elim (Bool-cases (is_releasable now tenant t)) [
          | inl e ↦
              let (u, hu, b) = written e in
              rw e (subst (λ x. find i (sweep (release_row now) rows db).1.tasks ≡ some x) b hu)
          | inr n ↦ rw n (kept n)
        ],
        count-sweep (release_row now) rows db,
      )

  releasable-Moves :
      (tenant : Option String) (t : Task)
      → is_releasable now tenant t ≡ true
      → Moves t.status failed
  unfolding is_releasable
  releasable-Moves tenant t h = elim (Bool-cases (status_eq t.status running)) [
    | inl r ↦ rw (status_eq→≡ t.status running r) (one-Step fail)
    | inr n ↦ rw (status_eq→≡ t.status blocked (ground arith)) (one-Step expire)
  ]

  pub release_expired_claims-Evolves :
      (tenant : Option String) (db : Db)
      → Distinct (ids db.tasks)
      → Evolves db (release_expired_claims now tenant db).1
  release_expired_claims-Evolves tenant db d = record {
    at = λ i t h.
        let row = (release_expired_claims_row tenant db i t d h).0 in
        elim (Bool-cases (is_releasable now tenant t)) [
          | inl e ↦ (
            release_columns now (t.consecutive_failures + 1) t,
            rw e at row,
            unfold release_columns in releasable-Moves tenant t e,
          )
          | inr n ↦ (t, rw n at row, stay)
        ];
  }

  release_row-SameFrame : (row : Task) (db : Db) → SameFrame db (release_row now row db)
  unfolding release_row emit_event
  release_row-SameFrame row db =
      let n = row.consecutive_failures + 1 in
      let closed = set_run row.current_run_id (time_out_run now) db in
      let written =
        set_task-SameFrame row.id (release_columns now n) closed (id-release_columns now n) in
      record {
        same_ids =
            written.same_ids ∙ ap ids (tasks-set_run row.current_run_id (time_out_run now) db);
        same_links = written.same_links ∙ links-set_run row.current_run_id (time_out_run now) db;
      }

  pub release_expired_claims-SameFrame :
      (tenant : Option String) (db : Db) → SameFrame db (release_expired_claims now tenant db).1
  unfolding release_expired_claims
  release_expired_claims-SameFrame tenant db =
      sweep-SameFrame (release_row now) release_row-SameFrame
        (select (is_releasable now tenant) db.tasks) db

  abbrev Promoted : Task → Task → Type 0
  Promoted row u = (r : ℕ) × (u ≡ promote_columns r row)

  promote_row-RowRound : RowRound (promote_row now) Promoted
  unfolding promote_row emit_event
  promote_row-RowRound = record {
    writes = λ row db h. (
      promote_columns db.next_run_id row,
      rw (
        find-set_task_row row (promote_columns db.next_run_id) (insert_retry_run now row.id db)
            row.id (id-promote_columns db.next_run_id),
        text_eq_self row.id,
        h,
      ),
      (db.next_run_id, refl),
    );
    others = λ row db j h. rw (
      find-set_task_row row (promote_columns db.next_run_id) (insert_retry_run now row.id db) j
          (id-promote_columns db.next_run_id),
      h,
    );
  }

  pub promote_retryable_tasks_row :
      (tenant : Option String) (db : Db) (i : String) (t : Task)
      → Distinct (ids db.tasks)
      → find i db.tasks ≡ some t
      → ((r : ℕ) × (find i (promote_retryable_tasks now tenant db).1.tasks
            ≡ some (if is_retryable tenant t then promote_columns r t else t)))
        × ((promote_retryable_tasks now tenant db).0
            ≡ length (select (is_retryable tenant) db.tasks))
  unfolding promote_retryable_tasks
  promote_retryable_tasks_row tenant db i t d h =
      let rows = select (is_retryable tenant) db.tasks in
      let (written, kept) =
        sweep-select (promote_row now) promote_row-RowRound (is_retryable tenant) db i t d h in
      (
        elim (Bool-cases (is_retryable tenant t)) [
          | inl e ↦
              let (u, hu, b) = written e in
              (
                b.0,
                rw e
                    (subst (λ x. find i (sweep (promote_row now) rows db).1.tasks ≡ some x) b.1 hu),
              )
          | inr n ↦ (0, rw n (kept n))
        ],
        count-sweep (promote_row now) rows db,
      )

  pub promote_retryable_tasks-Evolves :
      (tenant : Option String) (db : Db)
      → Distinct (ids db.tasks)
      → Evolves db (promote_retryable_tasks now tenant db).1
  promote_retryable_tasks-Evolves tenant db d = record {
    at = λ i t h.
        let (r, row) = (promote_retryable_tasks_row tenant db i t d h).0 in
        elim (Bool-cases (is_retryable tenant t)) [
          | inl e ↦ (
            promote_columns r t,
            rw e at row,
            unfold promote_columns is_retryable in
                rw (status_eq→≡ t.status failed (ground arith)) (one-Step retry),
          )
          | inr n ↦ (t, rw n at row, stay)
        ];
  }

  promote_row-SameFrame : (row : Task) (db : Db) → SameFrame db (promote_row now row db)
  unfolding promote_row emit_event
  promote_row-SameFrame row db =
      let written =
        set_task-SameFrame row.id (promote_columns db.next_run_id) (insert_retry_run now row.id db)
          (id-promote_columns db.next_run_id) in
      record { same_ids = written.same_ids; same_links = written.same_links }

  pub promote_retryable_tasks-SameFrame :
      (tenant : Option String) (db : Db) → SameFrame db (promote_retryable_tasks now tenant db).1
  unfolding promote_retryable_tasks
  promote_retryable_tasks-SameFrame tenant db =
      sweep-SameFrame (promote_row now) promote_row-SameFrame
        (select (is_retryable tenant) db.tasks) db
