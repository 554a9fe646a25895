-- ===== src/Store/Resolve/Laws.antt =====
-- `resolve_dependencies` moves one task between todo and ready, so that it is ready exactly when
-- its parents allow it, and touches nothing else.
use simple_a2a_registry.Prelude.{
  ℕ, String, false, none, some, List, [], ◌∷◌, ◌≡◌, ◌≢◌, refl, sym, subst, arith, ◌==◌, eq_iff,
  Bool-cases, inl, inr, text_eq_self, if◌then◌else◌, Option-cases, ◌∙◌, select,
}
use simple_a2a_registry.Models.{Task, TaskLink, TaskStatus, todo, ready, status_eq}
use simple_a2a_registry.StateMachine.Laws.{Moves, stay, promote, demote, one-Step}
use simple_a2a_registry.Db.{Db, find, set_task, emit_event}
use simple_a2a_registry.Db.Frame.{
  SameFrame, SameFrame-refl, SameFrame-trans, set_task-SameFrame, find-update_task_by_id,
}
use simple_a2a_registry.Store.Evolves.{Evolves, Evolves-refl, Evolves-trans}
use simple_a2a_registry.Store.Resolve.{
  ParentRow, parent_rows, all_satisfied, write_status, promote_task, demote_task, resolve_parents,
  resolve_dependencies, resolve_each, resolve_children,
}

-- The status that resolution gives, by the parents and the status before.
abbrev pub resolved : List ParentRow → TaskStatus → TaskStatus
resolved rows s =
    if all_satisfied rows
    then (if status_eq s todo then ready else s)
    else if status_eq s ready
    then todo
    else s

module _ (now : ℕ) (task_id : String) where
  status-resolve_parents :
      (rows : List ParentRow) (db : Db) (t : Task)
      → find task_id db.tasks ≡ some t
      → find task_id (resolve_parents now task_id rows t.status db).tasks
        ≡ some (write_status (resolved rows t.status) t)
  unfolding resolve_parents promote_task demote_task set_task emit_event all_satisfied
  status-resolve_parents [] db t h = ground (
    arith,
    find-update_task_by_id task_id task_id (write_status ready) db.tasks (λ u. refl),
    text_eq_self task_id,
  )
  status-resolve_parents (row ∷ rows) db t h = ground (
    arith,
    find-update_task_by_id task_id task_id (write_status ready) db.tasks (λ u. refl),
    find-update_task_by_id task_id task_id (write_status todo) db.tasks (λ u. refl),
    text_eq_self task_id,
  )

  resolve_parents-SameFrame :
      (rows : List ParentRow) (s : TaskStatus) (db : Db)
      → SameFrame db (resolve_parents now task_id rows s db)
  unfolding resolve_parents promote_task demote_task emit_event
  resolve_parents-SameFrame [] s db =
      let promoted = set_task-SameFrame task_id (write_status ready) db (λ u. refl) in
      record {
        same_ids = ground (arith, promoted.same_ids);
        same_links = ground (arith, promoted.same_links);
      }
  resolve_parents-SameFrame (row ∷ rows) s db =
      let promoted = set_task-SameFrame task_id (write_status ready) db (λ u. refl) in
      let demoted = set_task-SameFrame task_id (write_status todo) db (λ u. refl) in
      record {
        same_ids = ground (arith, promoted.same_ids, demoted.same_ids);
        same_links = ground (arith, promoted.same_links, demoted.same_links);
      }

  -- No other row changes.
  others-resolve_parents :
      (rows : List ParentRow) (s : TaskStatus) (db : Db) (j : String)
      → (task_id == j) ≡ false
      → find j (resolve_parents now task_id rows s db).tasks ≡ find j db.tasks
  unfolding resolve_parents promote_task demote_task set_task emit_event
  others-resolve_parents [] s db j h =
      ground (arith, find-update_task_by_id task_id j (write_status ready) db.tasks (λ u. refl))
  others-resolve_parents (row ∷ rows) s db j h = ground (
    arith,
    find-update_task_by_id task_id j (write_status ready) db.tasks (λ u. refl),
    find-update_task_by_id task_id j (write_status todo) db.tasks (λ u. refl),
  )

resolved-Moves : (rows : List ParentRow) (s : TaskStatus) → Moves s (resolved rows s)
resolved-Moves rows todo = elim (Bool-cases (all_satisfied rows)) [
  | inl e ↦ rw e (one-Step promote)
  | inr e ↦ rw e stay
]
resolved-Moves rows ready = elim (Bool-cases (all_satisfied rows)) [
  | inl e ↦ rw e stay
  | inr e ↦ rw e (one-Step demote)
]
resolved-Moves rows s = elim (Bool-cases (all_satisfied rows)) [
  | inl e ↦ rw e stay
  | inr e ↦ rw e stay
]

module _ (now : ℕ) (task_id : String) (db : Db) where
  resolve_dependencies_found :
      (t : Task)
      → find task_id db.tasks ≡ some t
      → resolve_dependencies now task_id db
        ≡ resolve_parents now task_id (parent_rows db task_id) t.status db
  unfolding resolve_dependencies
  resolve_dependencies_found t h = rw (h, resolve_dependencies)

  resolve_dependencies_missing :
      find task_id db.tasks ≡ none → resolve_dependencies now task_id db ≡ db
  unfolding resolve_dependencies
  resolve_dependencies_missing h = rw (h, resolve_dependencies)

  own-resolve_dependencies :
      (t : Task)
      → find task_id db.tasks ≡ some t
      → find task_id (resolve_dependencies now task_id db).tasks
        ≡ some (write_status (resolved (parent_rows db task_id) t.status) t)
  own-resolve_dependencies t h =
      rw (resolve_dependencies_found t h)
        (status-resolve_parents now task_id (parent_rows db task_id) db t h)

  others-resolve_dependencies :
      (j : String)
      → (task_id == j) ≡ false
      → find j (resolve_dependencies now task_id db).tasks ≡ find j db.tasks
  others-resolve_dependencies j n = elim (Option-cases (find task_id db.tasks)) [
    | inl e ↦ rw (resolve_dependencies_missing e) refl
    | inr (t, e) ↦
        rw (resolve_dependencies_found t e)
          (others-resolve_parents now task_id (parent_rows db task_id) t.status db j n)
  ]

  pub resolve_dependencies_row :
      (t : Task) (j : String)
      → find task_id db.tasks ≡ some t
      → find j (resolve_dependencies now task_id db).tasks ≡ (
          if task_id == j
          then some (write_status (resolved (parent_rows db task_id) t.status) t)
          else find j db.tasks)
  resolve_dependencies_row t j h = elim (Bool-cases (task_id == j)) [
    | inl e ↦ rw (e, sym ((eq_iff task_id j).0 e)) (own-resolve_dependencies t h)
    | inr n ↦ rw n (others-resolve_dependencies j n)
  ]

  pub resolve_dependencies-SameFrame : SameFrame db (resolve_dependencies now task_id db)
  resolve_dependencies-SameFrame = elim (Option-cases (find task_id db.tasks)) [
    | inl e ↦ rw (resolve_dependencies_missing e) (SameFrame-refl db)
    | inr (t, e) ↦
        rw (resolve_dependencies_found t e)
          (resolve_parents-SameFrame now task_id (parent_rows db task_id) t.status db)
  ]

  pub resolve_dependencies-Evolves : Evolves db (resolve_dependencies now task_id db)
  resolve_dependencies-Evolves = record {
    at = λ j t h. elim (Bool-cases (task_id == j)) [
      | inl e ↦
          let same = (eq_iff task_id j).0 e in
          let h' : find task_id db.tasks ≡ some t = rw same h in
          (
            write_status (resolved (parent_rows db task_id) t.status) t,
            rw (sym same) (own-resolve_dependencies t h'),
            resolved-Moves (parent_rows db task_id) t.status,
          )
      | inr n ↦ (t, others-resolve_dependencies j n ∙ h, stay)
    ];
  }

-- A task that is neither todo nor ready keeps its row, whoever is resolved.
abbrev pub IsSettled : TaskStatus → Type 0
IsSettled s = (s ≢ todo) × (s ≢ ready)

resolved-settled : (rows : List ParentRow) (s : TaskStatus) → IsSettled s → resolved rows s ≡ s
resolved-settled rows todo h = absurd (h.0 refl)
resolved-settled rows ready h = absurd (h.1 refl)
resolved-settled rows _ h = ground arith

module _ (now : ℕ) (i : String) (t : Task) (settled : IsSettled t.status) where
  resolve_dependencies-settled :
      (j : String) (db : Db)
      → find i db.tasks ≡ some t
      → find i (resolve_dependencies now j db).tasks ≡ some t
  resolve_dependencies-settled j db h = elim (Bool-cases (j == i)) [
    | inl e ↦
        let same = (eq_iff j i).0 e in
        rw same (
          subst (λ s. find i (resolve_dependencies now i db).tasks ≡ some (write_status s t))
            (resolved-settled (parent_rows db i) t.status settled)
            (own-resolve_dependencies now i db t h))
    | inr n ↦ others-resolve_dependencies now j db i n ∙ h
  ]

  pub resolve_each-settled :
      (rows : List TaskLink) (db : Db)
      → find i db.tasks ≡ some t
      → find i (resolve_each now rows db).tasks ≡ some t
  unfolding resolve_each
  resolve_each-settled [] db h = h
  resolve_each-settled (l ∷ rows) db h =
      resolve_each-settled rows (resolve_dependencies now l.child_id db)
        (resolve_dependencies-settled l.child_id db h)

module _ (now : ℕ) where
  pub resolve_each-SameFrame :
      (rows : List TaskLink) (db : Db) → SameFrame db (resolve_each now rows db)
  unfolding resolve_each
  resolve_each-SameFrame [] db = SameFrame-refl db
  resolve_each-SameFrame (l ∷ rows) db =
      SameFrame-trans (resolve_dependencies-SameFrame now l.child_id db)
        (resolve_each-SameFrame rows (resolve_dependencies now l.child_id db))

  pub resolve_each-Evolves :
      (rows : List TaskLink) (db : Db) → Evolves db (resolve_each now rows db)
  unfolding resolve_each
  resolve_each-Evolves [] db = Evolves-refl db
  resolve_each-Evolves (l ∷ rows) db =
      Evolves-trans (resolve_dependencies-Evolves now l.child_id db)
        (resolve_each-Evolves rows (resolve_dependencies now l.child_id db))

  pub resolve_children-SameFrame : (i : String) (db : Db) → SameFrame db (resolve_children now i db)
  unfolding resolve_children
  resolve_children-SameFrame i db =
      resolve_each-SameFrame (select (λ l. l.parent_id == i) db.links) db

  pub resolve_children-Evolves : (i : String) (db : Db) → Evolves db (resolve_children now i db)
  unfolding resolve_children
  resolve_children-Evolves i db = resolve_each-Evolves (select (λ l. l.parent_id == i) db.links) db
