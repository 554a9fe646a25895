-- ===== src/Store/Status/Outcome.antt =====
-- The outcomes of update_task_status: when it succeeds, what the row is then, and when it raises.
use simple_a2a_registry.Prelude.{
  ℕ, String, Option, none, some, ◌≡◌, ◌≢◌, ◌↔◌, ◌⊎◌, refl, ◌∙◌, ap, Bool-cases, Option-cases, inl,
  inr,
}
use simple_a2a_registry.Models.{Task, ready, dangling, failed, value}
use simple_a2a_registry.StateMachine.{validate_transition}
use simple_a2a_registry.StateMachine.Laws.{Step, valid-Step, Step-valid, validate_dangling, retry}
use simple_a2a_registry.Db.{
  Db, Result, ok, raise, Error, tx, close_tx, find, task_not_found, invalid_transition,
  attribute_error,
}
use simple_a2a_registry.Db.Frame.{SameFrame, SameFrame-refl}
use simple_a2a_registry.Db.Tx.{tx_atomic, tx_keeps}
use simple_a2a_registry.Store.Evolves.{Evolves, Evolves-refl}
use simple_a2a_registry.Store.Status.{
  StatusUpdate, lock_mismatch, transition_found, transition_block, update_task_status, reload,
}
use simple_a2a_registry.Store.Status.Writes.{write_columns, event_kind, overflows}
use simple_a2a_registry.Store.Status.Conditions.{
  FitsLock, HasDelay, lock_mismatch_iff, overflows_iff, event_kind_iff,
}
use simple_a2a_registry.Store.Status.Laws.{
  transition_found-SameFrame, transition_found-Evolves, find-write_transition, status-write_columns,
  log_transition_row,
}

db-reload : (i : String) (r : Result (Unit {0}) × Db) → (reload i r).1 ≡ r.1
unfolding reload
db-reload i (ok a, db) = refl
db-reload i (raise e, db) = refl

reload-raise :
    (i : String) (r : Result (Unit {0}) × Db) (e : Error) → (reload i r).0 ≡ raise e → r.0 ≡ raise e
unfolding reload
reload-raise i (ok a, db) e h = cc
reload-raise i (raise f, db) e h = cc

module _ (now : ℕ) (i : String) (u : StatusUpdate) (db : Db) where
  block_found :
      (t : Task)
      → find i db.tasks ≡ some t
      → transition_block now i u db ≡ transition_found now i u t db
  unfolding transition_block
  block_found t h = rw (h, transition_block)

  block_missing :
      find i db.tasks ≡ none → transition_block now i u db ≡ (raise (task_not_found i), db)
  unfolding transition_block
  block_missing h = rw (h, transition_block)

  db-update_task_status : (update_task_status now i u db).1 ≡ (tx (transition_block now i u) db).1
  unfolding update_task_status
  db-update_task_status = db-reload i (tx (transition_block now i u) db)

  pub update_task_status-Evolves : Evolves db (update_task_status now i u db).1
  update_task_status-Evolves = rw db-update_task_status (
      tx_keeps (Evolves db) (transition_block now i u) db (Evolves-refl db) λ a _.
        elim (Option-cases (find i db.tasks)) [
          | inl e ↦ rw (block_missing e) (Evolves-refl db)
          | inr (t, e) ↦ rw (block_found t e) (transition_found-Evolves now i u t db e)
        ])

  pub update_task_status-SameFrame : SameFrame db (update_task_status now i u db).1
  update_task_status-SameFrame = rw db-update_task_status (
      tx_keeps (SameFrame db) (transition_block now i u) db (SameFrame-refl db) λ a _.
        elim (Option-cases (find i db.tasks)) [
          | inl e ↦ rw (block_missing e) (SameFrame-refl db)
          | inr (t, e) ↦ rw (block_found t e) (transition_found-SameFrame now i u t db)
        ])

  -- An update that raises has changed nothing, wherever it raises.
  pub update_task_status_atomic :
      (e : Error)
      → (update_task_status now i u db).0 ≡ raise e
      → (update_task_status now i u db).1 ≡ db
  unfolding update_task_status
  update_task_status_atomic e h =
      db-reload i (tx (transition_block now i u) db)
      ∙ tx_atomic (transition_block now i u) db e
          (reload-raise i (tx (transition_block now i u) db) e h)

  -- What an update needs of the row: an edge of the state machine, a fitting lock, that it is not a
  -- retry, and a delay that can be computed.
  abbrev pub Allowed : Task → Type 0
  Allowed t =
      Step t.status u.new_status
      × FitsLock t u.claim_lock
      × ((t.status ≢ failed) ⊎ (u.new_status ≢ ready))
      × HasDelay t u.new_status

  -- An allowed update succeeds, and the row then has the new columns.
  pub update_task_status_succeeds :
      (t : Task)
      → find i db.tasks ≡ some t
      → Allowed t
      → (update_task_status now i u db).0 ≡ ok (some (write_columns now u.new_status u.result t))
  unfolding update_task_status reload tx transition_found
  update_task_status_succeeds t h (step, fits, known, delay) =
      let lock = (lock_mismatch_iff t u.claim_lock).1 fits in
      let calm = (overflows_iff t u.new_status).1 delay in
      elim (Option-cases (event_kind t.status u.new_status)) [
        | inl e ↦ absurd ((event_kind_iff t.status u.new_status).1 known e)
        | inr (kind, e) ↦ rw (block_found t h) (
            rw (Step-valid step, lock, calm, e)
              (ap ok (
                log_transition_row now i t u kind _ (write_columns now u.new_status u.result t)
                  (status-write_columns now u.new_status u.result t)
                  (find-write_transition now i t u.new_status u.result u.summary u.metadata db t
                    h))))
      ]

  reload-ok : (r : Result (Unit {0}) × Db) (a : Option Task) → (reload i r).0 ≡ ok a → r.0 ≡ ok tt
  unfolding reload
  reload-ok (ok tt, d) a h = refl
  reload-ok (raise e, d) a h = cc

  tx-ok : (r : Result (Unit {0}) × Db) → (close_tx db r).0 ≡ ok tt → r.0 ≡ ok tt
  unfolding close_tx
  tx-ok (ok a, d) h = h
  tx-ok (raise e, d) h = cc

  block-ok :
      (a : Option Task)
      → (update_task_status now i u db).0 ≡ ok a
      → (transition_block now i u db).0 ≡ ok tt
  unfolding update_task_status tx
  block-ok a h =
      tx-ok (transition_block now i u db)
        (reload-ok (close_tx db (transition_block now i u db)) a h)

  found-ok : (t : Task) → (transition_found now i u t db).0 ≡ ok tt → Allowed t
  unfolding transition_found
  found-ok t h = elim (Bool-cases (validate_transition (value t.status) (value u.new_status))) [
    | inr bad ↦ cc (rw bad at h)
    | inl good ↦ elim (Bool-cases (lock_mismatch t u.claim_lock)) [
      | inl m ↦ cc (rw (good, m) at h)
      | inr n ↦ elim (Bool-cases (overflows t u.new_status)) [
        | inl o ↦ cc (rw (good, n, o) at h)
        | inr o ↦ elim (Option-cases (event_kind t.status u.new_status)) [
          | inl e ↦ cc (rw (good, n, o, e) at h)
          | inr (kind, e) ↦ (
            valid-Step t.status u.new_status good,
            (lock_mismatch_iff t u.claim_lock).0 n,
            (event_kind_iff t.status u.new_status).0 λ none_kind. cc,
            (overflows_iff t u.new_status).0 o,
          )
        ]
      ]
    ]
  ]

  -- An update succeeds exactly when the row is there, the state machine has the edge, the task is not
  -- running or the call gives no lock or the row's own, the edge is not failed to ready, and, where
  -- the task fails within its limit of retries, it has failed fewer than 1024 times before.
  pub update_task_status_iff :
      ((a : Option Task) × ((update_task_status now i u db).0 ≡ ok a))
      ↔ ((t : Task) × (find i db.tasks ≡ some t) × Allowed t)
  update_task_status_iff = (
    λ (a, h). elim (Option-cases (find i db.tasks)) [
      | inl e ↦ cc (block_missing e, block-ok a h)
      | inr (t, e) ↦ (t, e, found-ok t (rw (block_found t e) at (block-ok a h)))
    ],
    λ (t, h, allowed).
        (some (write_columns now u.new_status u.result t), update_task_status_succeeds t h allowed),
  )

  -- A failed task cannot be sent back to ready by a status update, for any arguments: the call
  -- raises an AttributeError and changes nothing.
  pub retry_raises :
      (t : Task)
      → find i db.tasks ≡ some t
      → t.status ≡ failed
      → u.new_status ≡ ready
      → update_task_status now i u db ≡ (raise attribute_error, db)
  unfolding update_task_status reload tx transition_found event_kind overflows
  retry_raises t h from_failed to_ready =
      rw (block_found t h, from_failed, to_ready, Step-valid retry)

  -- No status update brings a task into `dangling` or out of it.
  pub dangling_raises :
      (t : Task)
      → find i db.tasks ≡ some t
      → (t.status ≡ dangling) ⊎ (u.new_status ≡ dangling)
      → update_task_status now i u db
        ≡ (raise (invalid_transition (value t.status) (value u.new_status)), db)
  unfolding update_task_status reload tx transition_found
  dangling_raises t h (inl e) = rw (block_found t h, e, (validate_dangling (value u.new_status)).1)
  dangling_raises t h (inr e) = rw (block_found t h, e, (validate_dangling (value t.status)).0)
